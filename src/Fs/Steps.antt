-- ===== src/Fs/Steps.antt =====
-- Sequences of calls of the file system, from `fs_init` on.
use unics.Base.{
  ℕ, ◌≡◌, inl, inr, refl, subst, ap, Option, none, some, Bytes, arith, ◌==◌, eq_bytes, Bool-cases,
  ==→eq, ==→ne, if_ind,
}
use unics.Fs.State.{Status, FileSystem, Machine, IsAllocator, init}
use unics.Fs.Lookup.{dot_dot}
use unics.Fs.Entries.{create_with_perms, mkdir, delete}
use unics.Fs.Access.{open_file, close, seek, read, write}
use unics.Fs.Dirs.{chdir, chdir_up, parent_of}
use unics.Fs.Find.{with_file_ind}
use unics.Fs.Valid.{IsValid, PtrToDir}
use unics.Fs.Keep.{init-IsValid, create_with_perms-IsValid, mkdir-IsValid, delete-IsValid}
use unics.Fs.Io.{
  open_file-IsValid, close-IsValid, seek-IsValid, InRange, read-InRange, KeepsIfDone, write-IsValid,
}

record Keeps (r : Status × FileSystem) : Type 0 where
  valid : IsValid r.1

at_dir :
    (fs : FileSystem) (p : Option ℕ)
    → IsValid fs
    → PtrToDir fs p
    → IsValid (record fs { current_dir = p })
at_dir fs p v h = record {
  root_used = v.root_used;
  root_dir = v.root_dir;
  root_top = v.root_top;
  counted = v.counted;
  current = in_dir p h;
  entries = λ i hi used nz.
      let old = v.entries i hi used nz in
      record {
        inside = same_entry (fs.files i).parent old.inside;
        not_self = old.not_self;
        file = old.file;
      };
}
  where
    in_dir : (q : Option ℕ) → PtrToDir fs q → PtrToDir (record fs { current_dir = p }) q
    in_dir none k = k
    in_dir (some d) k = k

    same_entry : (q : Option ℕ) → PtrToDir fs q → PtrToDir (record fs { current_dir = p }) q
    same_entry none k = k
    same_entry (some d) k = k

-- The parent of a directory in use is a directory in use, or the directory is the root.
parent_lem :
    (fs : FileSystem) (c p : ℕ)
    → IsValid fs
    → PtrToDir fs (some c)
    → (fs.files c).parent ≡ some p
    → PtrToDir fs (some p)
parent_lem fs c p v h e = elim (Bool-cases (c == 0)) [
  | inl root ↦ cc (v.root_top, ap (λ k. (fs.files k).parent) (==→eq c 0 root))
  | inr nz ↦ rw e at ((v.entries c h.0 h.1 (==→ne c 0 nz)).inside)
]

up-Keeps :
    (fs : FileSystem) (p q : Option ℕ)
    → IsValid fs
    → PtrToDir fs p
    → parent_of fs p ≡ q
    → Keeps (chdir_up fs q)
up-Keeps fs p none v h e = record { valid = v }
up-Keeps fs none (some q) v h e = absurd h
up-Keeps fs (some c) (some q) v h e = record {
  valid = at_dir fs (some q) v (parent_lem fs c q v h e);
}

chdir-Keeps : (name : Bytes) (fs : FileSystem) → IsValid fs → Keeps (chdir name fs)
unfolding chdir
chdir-Keeps name fs v =
    if_ind Keeps (eq_bytes name dot_dot) (λ _. up-Keeps fs fs.current_dir _ v v.current refl)
      (λ _.
        with_file_ind Keeps fs (some name) (record { valid = v })
          (λ i f.
            if_ind Keeps ((fs.files i).is_dir)
              (λ dir. record {
                valid = at_dir fs (some i) v (omega (arith, f.below, v.counted), f.used, dir);
              })
              (λ _. record { valid = v })))

-- `fs_chdir` keeps the invariant: the current directory is a directory in use.
pub chdir-IsValid : (name : Bytes) (fs : FileSystem) → IsValid fs → IsValid (chdir name fs).1
chdir-IsValid name fs v = (chdir-Keeps name fs v).valid

-- One call, with any arguments, on any state of the heap. A read or write outside a block has no
-- next state.
pub data Step : FileSystem → FileSystem → Type 0 where
  creates :
      {fs : FileSystem} (m : Machine) (name : Option Bytes) (permissions : ℕ)
      → IsAllocator m
      → Step fs (create_with_perms m name permissions fs).1
  makes_dir : {fs : FileSystem} (m : Machine) (name : Option Bytes) → Step fs (mkdir m name fs).1
  deletes : {fs : FileSystem} (name : Option Bytes) → Step fs (delete name fs).1
  opens : {fs : FileSystem} (name : Option Bytes) → Step fs (open_file name fs).1
  closes : {fs : FileSystem} (name : Option Bytes) → Step fs (close name fs).1
  seeks : {fs : FileSystem} (name : Option Bytes) (offset : ℕ) → Step fs (seek name offset fs).1
  enters : {fs : FileSystem} (name : Bytes) → Step fs (chdir name fs).1
  reads :
      {fs fs' : FileSystem} (name : Option Bytes) (size : ℕ) (bytes : Bytes)
      → read name size fs ≡ some (bytes, fs')
      → Step fs fs'
  writes :
      {fs fs' : FileSystem} (m : Machine) (name : Option Bytes) (src : Bytes) (n : ℕ)
      → IsAllocator m
      → write m name src fs ≡ some (n, fs')
      → Step fs fs'

pub data Reach : FileSystem → Type 0 where
  start : (m : Machine) → Reach (init m)
  next : {fs fs' : FileSystem} → Reach fs → Step fs fs' → Reach fs'

Step-IsValid : {fs fs' : FileSystem} → Step fs fs' → IsValid fs → IsValid fs'
Step-IsValid (creates m name permissions alloc) v =
    create_with_perms-IsValid m name permissions _ alloc v
Step-IsValid (makes_dir m name) v = mkdir-IsValid m name _ v
Step-IsValid (deletes name) v = delete-IsValid name _ v
Step-IsValid (opens name) v = open_file-IsValid name _ v
Step-IsValid (closes name) v = close-IsValid name _ v
Step-IsValid (seeks name offset) v = seek-IsValid name offset _ v
Step-IsValid (enters name) v = chdir-IsValid name _ v
Step-IsValid (reads {fs = fs} name size bytes e) v =
    (subst (InRange size) e (read-InRange name size fs v)).0
Step-IsValid (writes {fs = fs} m name src n alloc e) v =
    subst KeepsIfDone e (write-IsValid m name src fs alloc v)

-- Whatever calls are made after `fs_init`, with whatever arguments, as long as no read or write leaves
-- the block of its file, the file table is valid: the root is a directory in use, `file_count` counts
-- the slots in use, the current directory and the parent of every entry are directories in use, and
-- each file's size lies inside a block of its allocated size, at most MAX_FILE_SIZE.
pub Reach-IsValid : {fs : FileSystem} → Reach fs → IsValid fs
Reach-IsValid (start m) = init-IsValid m
Reach-IsValid (next r s) = Step-IsValid s (Reach-IsValid r)
