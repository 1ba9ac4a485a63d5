-- ===== src/Fs/Lookup.antt =====
-- usr/drivers/fs.c: checks of a name, free slots, and the search for a name in a directory.
use Prim.Native.Nat.{bit_and}
use unics.Base.{
  ℕ, zero, suc, ◌+◌, Bool, true, false, not, ◌&&◌, ◌||◌, Option, none, some, [], ◌∷◌, Bytes, length,
  eq_bytes, leb, ◌==◌, if◌then◌else◌,
}
use unics.Fs.State.{
  Status, success, name_too_long, invalid_path, max_files, max_filename_len, File, FileSystem,
}

-- `fs_has_perm`
abbrev pub has_perm : File → ℕ → Bool
has_perm f perm = bit_and f.permissions perm == perm

-- `fs_is_valid_path_char`. A byte from 128 on is a negative `char`, which passes no test; so here.
abbrev pub is_valid_path_char : ℕ → Bool
is_valid_path_char c =
    (leb b'a' c && leb c b'z')
    || ((leb b'A' c && leb c b'Z')
        || ((leb b'0' c && leb c b'9') || ((c == b'-' || c == b'_') || c == b'.')))

abbrev pub all_valid : Bytes → Bool
all_valid [] = true
all_valid (c ∷ s) = is_valid_path_char c && all_valid s

abbrev pub dot : Bytes
dot = 46 ∷ []

abbrev pub dot_dot : Bytes
dot_dot = 46 ∷ 46 ∷ []

-- `fs_validate_filename`
unfoldable pub validate_filename : Option Bytes → Status
validate_filename none = invalid_path
validate_filename (some s) =
    if length s == 0
    then invalid_path
    else if leb max_filename_len (length s)
    then name_too_long
    else if not (all_valid s)
    then invalid_path
    else if eq_bytes s dot || eq_bytes s dot_dot
    then invalid_path
    else success

-- The loop of `fs_find_free_slot` and of `fs_mkdir`, at index `i` with `k` rounds left.
unfoldable pub first_free : (ℕ → Bool) → ℕ → ℕ → ℕ
first_free free zero i = max_files
first_free free (suc k) i = let rest = first_free free k (i + 1) in if free i then i else rest

-- `fs_find_free_slot`
unfoldable pub find_free_slot : FileSystem → ℕ
unfolding first_free
find_free_slot fs = first_free fs.free_list max_files 0

-- `p == q` for a pointer `p` and a pointer `q` that is not NULL.
abbrev pub eq_ptr : Option ℕ → ℕ → Bool
eq_ptr none d = false
eq_ptr (some p) d = p == d

-- The test in the loop of `fs_find_file_in_dir`.
abbrev pub is_entry : FileSystem → Bytes → ℕ → ℕ → Bool
is_entry fs name dir i =
    not (fs.free_list i) && (eq_ptr (fs.files i).parent dir && eq_bytes (fs.files i).name name)

unfoldable pub find_from : (ℕ → Bool) → ℕ → ℕ → Option ℕ
find_from test zero i = none
find_from test (suc k) i = let rest = find_from test k (i + 1) in if test i then some i else rest

-- `fs_find_file_in_dir`: the first entry below `file_count` that has the name and the parent.
unfoldable pub find_file_in_dir : FileSystem → Option Bytes → Option ℕ → Option ℕ
unfolding find_from
find_file_in_dir fs none dir = none
find_file_in_dir fs (some name) none = none
find_file_in_dir fs (some name) (some d) = find_from (is_entry fs name d) fs.file_count 0

-- `fs_find_file`
unfoldable pub find_file : FileSystem → Option Bytes → Option ℕ
unfolding find_file_in_dir
find_file fs name = find_file_in_dir fs name fs.current_dir

-- `File *file = fs_find_file(filename); if (!file) return missing; ...`
abbrev pub with_file {ℓ} : {R : Type ℓ} → FileSystem → Option Bytes → R → (ℕ → R) → R
with_file fs name missing rest = elim (find_file fs name) [ none ↦ missing | some i ↦ rest i ]

-- The loop by which `fs_delete` looks for an entry of directory `d`.
unfoldable pub has_child : FileSystem → ℕ → ℕ → ℕ → Bool
has_child fs d zero i = false
has_child fs d (suc k) i =
    let rest = has_child fs d k (i + 1) in
    if not (fs.free_list i) && eq_ptr (fs.files i).parent d then true else rest
