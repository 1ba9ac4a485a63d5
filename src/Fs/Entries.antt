-- ===== src/Fs/Entries.antt =====
-- usr/drivers/fs.c: creation and deletion of entries.
use unics.Base.{
  ℕ, Bool, true, false, Option, none, some, Bytes, take, ◌-◌, ◌==◌, if◌then◌else◌, is_some,
}
use unics.Base.Table.{update}
use unics.Fs.State.{
  Status, success, full, exists, not_found, no_memory, file_open, not_empty, invalid_path,
  is_success, max_files, max_filename_len, block_size, perm_default, perm_all, File, zero_file,
  FileSystem, Machine, inc32, dec32,
}
use unics.Fs.Lookup.{validate_filename, find_free_slot, find_file, with_file, has_child}

-- The entry after `strncpy`, `allocated_size = FS_BLOCK_SIZE` and a failed `malloc`.
abbrev pub half_file : File → Bytes → File
half_file f name = record f {
  name = take (max_filename_len - 1) name;
  allocated_size = block_size;
  buf = none;
}

abbrev pub new_file : Machine → FileSystem → Bytes → ℕ → Bytes → File
new_file m fs name permissions block = record {
  name = take (max_filename_len - 1) name;
  buf = some block;
  size = 0;
  allocated_size = block_size;
  is_open = false;
  position = 0;
  is_dir = false;
  permissions = permissions;
  inode = fs.next_inode;
  parent = fs.current_dir;
  created_time = m.now;
  modified_time = m.now;
}

-- From `File *file = &root_fs.files[slot]` on.
unfoldable pub fill_file : Machine → Bytes → ℕ → ℕ → FileSystem → Status × FileSystem
fill_file m name permissions slot fs = elim (m.malloc block_size) [
  | none ↦ (
    no_memory,
    record fs {
      files = update fs.files slot (half_file (fs.files slot) name);
      free_list = update fs.free_list slot true;
    },
  )
  | some block ↦ (
    success,
    record fs {
      files = update fs.files slot (new_file m fs name permissions block);
      free_list = update fs.free_list slot false;
      next_inode = inc32 fs.next_inode;
      file_count = inc32 fs.file_count;
    },
  )
]

-- `fs_create_with_perms`. A NULL name does not pass `validate_filename`.
unfoldable pub create_with_perms : Machine → Option Bytes → ℕ → FileSystem → Status × FileSystem
create_with_perms m none permissions fs = (validate_filename none, fs)
create_with_perms m (some name) permissions fs =
    let res = validate_filename (some name) in
    let slot = find_free_slot fs in
    if is_success res
    then if is_some (find_file fs (some name))
      then (exists, fs)
      else if slot == max_files
      then (full, fs)
      else fill_file m name permissions slot fs
    else (res, fs)

-- `fs_create`
unfoldable pub create : Machine → Option Bytes → FileSystem → Status × FileSystem
unfolding create_with_perms
create m name fs = create_with_perms m name perm_default fs

abbrev pub new_dir : Machine → FileSystem → Bytes → File
new_dir m fs name = record {
  name = take (max_filename_len - 1) name;
  buf = none;
  size = 0;
  allocated_size = 0;
  is_open = false;
  position = 0;
  is_dir = true;
  permissions = perm_all;
  inode = fs.next_inode;
  parent = fs.current_dir;
  created_time = m.now;
  modified_time = m.now;
}

abbrev pub fill_dir : Machine → Bytes → ℕ → FileSystem → FileSystem
fill_dir m name slot fs = record fs {
  files = update fs.files slot (new_dir m fs name);
  free_list = update fs.free_list slot false;
  next_inode = inc32 fs.next_inode;
  file_count = inc32 fs.file_count;
}

-- `fs_mkdir`
unfoldable pub mkdir : Machine → Option Bytes → FileSystem → Status × FileSystem
mkdir m none fs = (validate_filename none, fs)
mkdir m (some name) fs =
    let res = validate_filename (some name) in
    let slot = find_free_slot fs in
    if is_success res
    then if is_some (find_file fs (some name))
      then (exists, fs)
      else if slot == max_files
      then (full, fs)
      else (success, fill_dir m name slot fs)
    else (res, fs)

-- `current_dir == file`
abbrev pub is_current : FileSystem → ℕ → Bool
is_current fs i = elim fs.current_dir [ none ↦ false | some c ↦ c == i ]

-- The slot is marked free and its entry zeroed.
abbrev pub release_slot : ℕ → FileSystem → FileSystem
release_slot i fs = record fs {
  files = update fs.files i zero_file;
  free_list = update fs.free_list i true;
  file_count = dec32 fs.file_count;
}

-- `fs_delete` on an empty directory: the current directory moves to its parent if it is deleted.
abbrev pub delete_dir : ℕ → FileSystem → Status × FileSystem
delete_dir i fs = (
  success,
  release_slot i (if is_current fs i then record fs { current_dir = (fs.files i).parent } else fs),
)

-- `fs_delete` from `if (file->is_open)` on. The block of a file is freed, and the entry that points
-- to it is zeroed.
unfoldable pub delete_entry : ℕ → FileSystem → Status × FileSystem
delete_entry i fs =
    if (fs.files i).is_open
    then (file_open, fs)
    else if i == 0
    then (invalid_path, fs)
    else if (fs.files i).is_dir
    then if has_child fs i max_files 0 then (not_empty, fs) else delete_dir i fs
    else (success, release_slot i fs)

-- `fs_delete`
unfoldable pub delete : Option Bytes → FileSystem → Status × FileSystem
unfolding delete_entry
delete name fs = with_file fs name (not_found, fs) (λ i. delete_entry i fs)
