-- ===== src/Fs/Cwd.antt =====
-- What `fs_getcwd` writes.
use unics.Base.{ℕ, zero, suc, ◌<◌, ◌≡◌, refl, none, some, List, [], ◌∷◌, arith, ◌==◌, if◌then◌else◌}
use unics.Fs.State.{FileSystem, max_files}
use unics.Fs.Dirs.{Cwd, null, overflow, path, ancestors, spell, getcwd}

-- From directory `d`, `k` steps to a parent lead to one with no parent.
pub data Above (fs : FileSystem) : ℕ → ℕ → Type 0 where
  top : {d : ℕ} → (fs.files d).parent ≡ none → Above fs d 0
  up : {d p k : ℕ} → (fs.files d).parent ≡ some p → Above fs p k → Above fs d (suc k)

-- The first loop ends at the root, which then stands first.
ancestors_lem :
    (fs : FileSystem) {d k : ℕ} (n : ℕ) (dirs : List ℕ)
    → Above fs d k
    → k < n
    → (r : ℕ) × (rest : List ℕ) × (ancestors fs n (some d) dirs ≡ r ∷ rest)
      × ((fs.files r).parent ≡ none)
unfolding ancestors
ancestors_lem fs zero dirs a h = absurd (omega arith)
ancestors_lem fs {d} (suc zero) dirs (top e) h = (d, dirs, refl, e)
ancestors_lem fs {d} (suc (suc n)) dirs (top e) h = (d, dirs, rw (e, ancestors), e)
ancestors_lem fs {d} (suc n) dirs (up e a) h =
    let (r, rest, eq, t) = ancestors_lem fs n (d ∷ dirs) a (omega arith) in
    (r, rest, rw (e, ancestors) eq, t)

abbrev pub root_path : ℕ → Cwd
root_path size = if size == 0 then null else if size == 1 then overflow else path (b'/' ∷ [])

-- `fs_getcwd` never names the current directory: wherever it is, as long as fewer than MAX_FILES
-- steps lead up to the root, the path is "/" in a buffer of two bytes or more; a buffer of one byte
-- is overrun by the terminator; and with no buffer NULL is returned.
pub getcwd-root_path :
    (fs : FileSystem) (c k size : ℕ)
    → fs.current_dir ≡ some c
    → Above fs c k
    → k < max_files
    → getcwd fs size ≡ root_path size
unfolding getcwd
getcwd-root_path fs c k size e a h =
    let (r, rest, eq, t) = ancestors_lem fs max_files [] a h in rw (e, eq, spell, t) (ground arith)
