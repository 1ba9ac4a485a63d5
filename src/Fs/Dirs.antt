-- ===== src/Fs/Dirs.antt =====
-- usr/drivers/fs.c: the current directory, its path, and the totals of `fs_print_stats`.
use unics.Base.{
  ℕ, zero, suc, ◌+◌, ◌%◌, ◌^◌, Option, none, some, List, [], ◌∷◌, ◌++◌, Bytes, length, eq_bytes,
  ltb, leb, ◌==◌, if◌then◌else◌,
}
use unics.Fs.State.{Status, success, not_found, invalid_path, max_files, FileSystem}
use unics.Fs.Lookup.{dot_dot, with_file}

abbrev pub parent_of : FileSystem → Option ℕ → Option ℕ
parent_of fs none = none
parent_of fs (some c) = (fs.files c).parent

-- `fs_chdir("..")`, `p` being the parent of the current directory.
abbrev pub chdir_up : FileSystem → Option ℕ → Status × FileSystem
chdir_up fs none = (invalid_path, fs)
chdir_up fs (some p) = (success, record fs { current_dir = some p })

-- `fs_chdir`; its argument is not NULL.
unfoldable pub chdir : Bytes → FileSystem → Status × FileSystem
chdir name fs =
    if eq_bytes name dot_dot
    then chdir_up fs (parent_of fs fs.current_dir)
    else with_file fs (some name) (not_found, fs)
        (λ i.
          if (fs.files i).is_dir
          then (success, record fs { current_dir = some i })
          else (invalid_path, fs))

-- The first loop of `fs_getcwd`: the directories from `dir` up, the outermost first, `k` at most.
unfoldable pub ancestors : FileSystem → ℕ → Option ℕ → List ℕ → List ℕ
ancestors fs zero dir dirs = dirs
ancestors fs (suc k) none dirs = dirs
ancestors fs (suc k) (some d) dirs = ancestors fs k (fs.files d).parent (d ∷ dirs)

-- What happens to the caller's buffer: NULL is returned, a string is left in it, or a byte is
-- written behind its end.
pub data Cwd : Type 0 where
  null overflow : Cwd
  path : Bytes → Cwd

-- `buffer[pos] = '\0'`
abbrev pub terminate : ℕ → Bytes → Cwd
terminate size done = if ltb (length done) size then path done else overflow

-- The second loop, from the outermost directory on. `done` is what the buffer of `size` bytes holds.
unfoldable pub spell : FileSystem → ℕ → List ℕ → Bytes → Cwd
spell fs size [] done = terminate size done
spell fs size (d ∷ ds) done = elim (fs.files d).parent [
  | none ↦ terminate size (if length done == 0 then b'/' ∷ [] else done)
  | some p ↦
      if leb size (length done + 1 + length (fs.files d).name)
      then null
      else spell fs size ds (done ++ (b'/' ∷ (fs.files d).name))
]

-- `fs_getcwd` on a buffer that is not NULL.
unfoldable pub getcwd : FileSystem → ℕ → Cwd
unfolding ancestors spell
getcwd fs size =
    if size == 0 then null else spell fs size (ancestors fs max_files fs.current_dir []) []

-- The totals of `fs_print_stats`.
pub record Stats : Type 0 where
  pub used_files : ℕ
  pub total_data_size : ℕ
  pub total_allocated : ℕ

unfoldable pub stats_from : FileSystem → ℕ → ℕ → Stats → Stats
stats_from fs zero i s = s
stats_from fs (suc k) i s = stats_from fs k (i + 1) (
    if fs.free_list i then s else record {
      used_files = s.used_files + 1;
      total_data_size = (s.total_data_size + (fs.files i).size) % 2 ^ 32;
      total_allocated = (s.total_allocated + (fs.files i).allocated_size) % 2 ^ 32;
    })

unfoldable pub stats : FileSystem → Stats
unfolding stats_from
stats fs =
    stats_from fs max_files 0 (record { used_files = 0; total_data_size = 0; total_allocated = 0 })
