-- ===== src/Fs/State.antt =====
-- usr/include/sys/fs.h: limits, results, `File`, `FileSystem`. A pointer to an entry of
-- `root_fs.files` is its index; NULL is `none`.
use unics.Base.{
  ℕ, ◌+◌, ◌-◌, ◌%◌, ◌^◌, ◌≡◌, Bool, true, false, Option, none, some, [], ◌∷◌, Bytes, length,
  overlay, take,
}
use unics.Base.Table.{update}

abbrev pub max_files : ℕ
max_files = 64

abbrev pub max_filename_len : ℕ
max_filename_len = 32

abbrev pub max_file_size : ℕ
max_file_size = 8192

abbrev pub block_size : ℕ
block_size = 512

-- `FS_SUCCESS` and the `FS_ERR_` codes.
pub data Status : Type 0 where
  success full name_too_long exists not_found no_memory : Status
  file_open not_open not_empty invalid_path seek_bounds : Status

abbrev pub is_success : Status → Bool
is_success success = true
is_success _ = false

-- `permissions` is a byte; its bits 1, 2 and 4 are read, write and execute.
abbrev pub perm_default : ℕ
perm_default = 3

abbrev pub perm_all : ℕ
perm_all = 7

-- The name is kept without its terminator. `buf` is what `data` points to: `allocated_size` bytes.
pub record File : Type 0 where
  pub name : Bytes
  pub buf : Option Bytes
  pub size : ℕ
  pub allocated_size : ℕ
  pub is_open : Bool
  pub position : ℕ
  pub is_dir : Bool
  pub permissions : ℕ
  pub inode : ℕ
  pub parent : Option ℕ
  pub created_time : ℕ
  pub modified_time : ℕ

-- What `memset(file, 0, sizeof(File))` leaves.
abbrev pub zero_file : File
zero_file = record {
  name = [];
  buf = none;
  size = 0;
  allocated_size = 0;
  is_open = false;
  position = 0;
  is_dir = false;
  permissions = 0;
  inode = 0;
  parent = none;
  created_time = 0;
  modified_time = 0;
}

-- `root_fs` together with `current_dir`.
pub record FileSystem : Type 0 where
  pub files : ℕ → File
  pub file_count : ℕ
  pub next_inode : ℕ
  pub free_list : ℕ → Bool
  pub current_dir : Option ℕ

-- The heap and the clock, as far as one call uses them: what `malloc(n)` would return, a block of
-- unspecified bytes or NULL, and `time(NULL)`.
pub record Machine : Type 0 where
  pub malloc : ℕ → Option Bytes
  pub now : ℕ

-- A block has the length that was asked for.
abbrev pub IsAllocator : Machine → Type 0
IsAllocator m = (n : ℕ) (b : Bytes) → m.malloc n ≡ some b → length b ≡ n

-- `realloc(ptr, n)` for a growing block, `n` not 0: a new block that starts with the old bytes.
abbrev pub realloc : Machine → Option Bytes → ℕ → Option Bytes
realloc m none n = m.malloc n
realloc m (some old) n = elim (m.malloc n) [
  | none ↦ none
  | some fresh ↦ some (overlay fresh 0 (take n old))
]

-- `x++` and `x--` on `size_t` and `uint32_t`.
abbrev pub inc32 : ℕ → ℕ
inc32 x = (x + 1) % 2 ^ 32

abbrev pub dec32 : ℕ → ℕ
dec32 x = (x + 2 ^ 32 - 1) % 2 ^ 32

-- `root_fs.files[i] = f`
abbrev pub set_file : FileSystem → ℕ → File → FileSystem
set_file fs i f = record fs { files = update fs.files i f }

-- `fs_init`: every slot free but the first, which is the root directory.
abbrev pub root_dir : ℕ → File
root_dir now = record zero_file {
  name = 47 ∷ [];
  is_dir = true;
  permissions = perm_all;
  inode = 1;
  created_time = now;
  modified_time = now;
}

unfoldable pub init : Machine → FileSystem
init m = record {
  files = update (λ _. zero_file) 0 (root_dir m.now);
  file_count = 1;
  next_inode = 2;
  free_list = update (λ _. true) 0 false;
  current_dir = some 0;
}
