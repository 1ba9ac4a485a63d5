-- ===== src/Fs/Valid.antt =====
-- The representation invariant of the file table, and lemmas on changes of one entry.
use unics.Base.{
  ℕ, ◌∙◌, ◌+◌, ◌≤◌, ◌<◌, ◌≡◌, ◌≢◌, inl, inr, sym, ap, true, false, Option, none, some, Bytes, arith,
  length, ◌==◌, Bool-cases, ==→eq,
}
use mathlib.Core.Option.{some-injective}
use unics.Base.Table.{update, count, count-le, count-update-false, count-update-true}
use unics.Fs.State.{File, FileSystem, max_files, max_file_size, inc32, dec32, set_file, zero_file}

-- A pointer to a directory in use.
abbrev pub PtrToDir : FileSystem → Option ℕ → Type 0
PtrToDir fs none = ⊥
PtrToDir fs (some d) = (d < max_files) × (fs.free_list d ≡ false) × ((fs.files d).is_dir ≡ true)

abbrev pub HoldsBlock : Option Bytes → ℕ → Type 0
HoldsBlock none n = ⊥
HoldsBlock (some b) n = length b ≡ n

-- The block has the allocated size, which bounds the size.
pub record FileOk (f : File) : Type 0 where
  pub within : f.size ≤ f.allocated_size
  pub bounded : f.allocated_size ≤ max_file_size
  pub block : HoldsBlock f.buf f.allocated_size

pub record EntryOk (fs : FileSystem) (i : ℕ) : Type 0 where
  pub inside : PtrToDir fs (fs.files i).parent
  pub not_self : (fs.files i).parent ≢ some i
  pub file : (fs.files i).is_dir ≡ false → FileOk (fs.files i)

pub record IsValid (fs : FileSystem) : Type 0 where
  pub root_used : fs.free_list 0 ≡ false
  pub root_dir : (fs.files 0).is_dir ≡ true
  pub root_top : (fs.files 0).parent ≡ none
  pub counted : count max_files fs.free_list + fs.file_count ≡ max_files
  pub current : PtrToDir fs fs.current_dir
  pub entries : (i : ℕ) → i < max_files → fs.free_list i ≡ false → i ≢ 0 → EntryOk fs i

PtrToDir-set_file :
    (fs : FileSystem) (i : ℕ) (f : File) (p : Option ℕ)
    → f.is_dir ≡ (fs.files i).is_dir
    → PtrToDir fs p
    → PtrToDir (set_file fs i f) p
PtrToDir-set_file fs i f none e h = h
PtrToDir-set_file fs i f (some d) e h = ground arith

-- The entry at `j` is `g`.
entry_is :
    (fs : FileSystem) (j : ℕ) (g : File)
    → fs.files j ≡ g
    → PtrToDir fs g.parent
    → g.parent ≢ some j
    → (g.is_dir ≡ false → FileOk g)
    → EntryOk fs j
entry_is fs j g e inside not_self file = record {
  inside = rw e inside;
  not_self = rw e not_self;
  file = rw e file;
}

-- A change of one entry that leaves its place and kind alone.
pub set_file-IsValid :
    (fs : FileSystem) (i : ℕ) (f : File)
    → IsValid fs
    → f.parent ≡ (fs.files i).parent
    → f.is_dir ≡ (fs.files i).is_dir
    → (f.is_dir ≡ false → FileOk f)
    → IsValid (set_file fs i f)
set_file-IsValid fs i f v ep ed ok = record {
  root_used = v.root_used;
  root_dir = ground (arith, v.root_dir);
  root_top = ground (arith, v.root_top);
  counted = v.counted;
  current = PtrToDir-set_file fs i f fs.current_dir ed v.current;
  entries = λ j hj used nz.
      let old = v.entries j hj used nz in
      elim (Bool-cases (i == j)) [
        | inl e ↦
            let same = ==→eq i j e in
            entry_is _ j f (rw e) (PtrToDir-set_file fs i f f.parent ed (rw (ep, same) old.inside))
              (rw (ep, same) old.not_self) ok
        | inr ne ↦
            entry_is _ j (fs.files j) (rw ne)
              (PtrToDir-set_file fs i f (fs.files j).parent ed old.inside) old.not_self old.file
      ];
}

-- `root_fs` with entry `f` put into the free slot `i`.
abbrev pub add_entry : FileSystem → ℕ → File → FileSystem
add_entry fs i f = record fs {
  files = update fs.files i f;
  free_list = update fs.free_list i false;
  next_inode = inc32 fs.next_inode;
  file_count = inc32 fs.file_count;
}

PtrToDir-add_entry :
    (fs : FileSystem) (i : ℕ) (f : File) (p : Option ℕ)
    → fs.free_list i ≡ true
    → PtrToDir fs p
    → PtrToDir (add_entry fs i f) p
PtrToDir-add_entry fs i f none e h = h
PtrToDir-add_entry fs i f (some d) e h = ground (arith, ap fs.free_list {x = i} {y = d})

current_ne_free :
    (fs : FileSystem) (i : ℕ) (p : Option ℕ) → fs.free_list i ≡ true → PtrToDir fs p → p ≢ some i
current_ne_free fs i none e h q = h
current_ne_free fs i (some d) e h q = ground (arith, some-injective d i q, h.1)

pub add_entry-IsValid :
    (fs : FileSystem) (i : ℕ) (f : File)
    → IsValid fs
    → i < max_files
    → fs.free_list i ≡ true
    → f.parent ≡ fs.current_dir
    → (f.is_dir ≡ false → FileOk f)
    → IsValid (add_entry fs i f)
add_entry-IsValid fs i f v lt free ep ok = record {
  root_used = ground (arith, v.root_used);
  root_dir = ground (arith, v.root_dir, v.root_used);
  root_top = ground (arith, v.root_top, v.root_used);
  counted = omega (arith, count-update-false max_files i fs.free_list lt free, v.counted);
  current = PtrToDir-add_entry fs i f fs.current_dir free v.current;
  entries = λ j hj used nz. elim (Bool-cases (i == j)) [
    | inl e ↦
        let same = ==→eq i j e in
        entry_is _ j f (rw e) (PtrToDir-add_entry fs i f f.parent free (rw ep v.current))
          (rw (ep, ← same) (current_ne_free fs i fs.current_dir free v.current)) ok
    | inr ne ↦
        let old = v.entries j hj (rw ne at used) nz in
        entry_is _ j (fs.files j) (rw ne)
          (PtrToDir-add_entry fs i f (fs.files j).parent free old.inside) old.not_self old.file
  ];
}

-- `root_fs` with the entry of slot `i` erased.
abbrev pub drop_entry : FileSystem → ℕ → FileSystem
drop_entry fs i = record fs {
  files = update fs.files i zero_file;
  free_list = update fs.free_list i true;
  file_count = dec32 fs.file_count;
}

PtrToDir-drop_entry :
    (fs : FileSystem) (i : ℕ) (p : Option ℕ)
    → p ≢ some i
    → PtrToDir fs p
    → PtrToDir (drop_entry fs i) p
PtrToDir-drop_entry fs i none ne h = h
PtrToDir-drop_entry fs i (some d) ne h = elim (Bool-cases (i == d)) [
  | inl e ↦ absurd (ne (ap some (sym (==→eq i d e))))
  | inr no' ↦ rw no' h
]

pub drop_entry-IsValid :
    (fs : FileSystem) (i : ℕ)
    → IsValid fs
    → i < max_files
    → i ≢ 0
    → fs.free_list i ≡ false
    → fs.current_dir ≢ some i
    → ((j : ℕ) → j < max_files → fs.free_list j ≡ false → (fs.files j).parent ≢ some i)
    → IsValid (drop_entry fs i)
drop_entry-IsValid fs i v lt nz used cur childless = record {
  root_used = ground (arith, v.root_used);
  root_dir = ground (arith, v.root_dir);
  root_top = ground (arith, v.root_top);
  counted = omega (
    arith,
    count-update-true max_files i fs.free_list lt used,
    count-le max_files (update fs.free_list i true),
    v.counted,
  );
  current = PtrToDir-drop_entry fs i fs.current_dir cur v.current;
  entries = λ j hj u n0. elim (Bool-cases (i == j)) [
    | inl e ↦ cc (rw e at u)
    | inr ne ↦
        let used_j : fs.free_list j ≡ false = rw ne at u in
        let old = v.entries j hj used_j n0 in
        entry_is _ j (fs.files j) (rw ne)
          (PtrToDir-drop_entry fs i (fs.files j).parent (childless j hj used_j) old.inside)
          old.not_self old.file
  ];
}

PtrToDir-set_free :
    (fs : FileSystem) (i : ℕ) (f : File) (p : Option ℕ)
    → fs.free_list i ≡ true
    → PtrToDir fs p
    → PtrToDir (set_file fs i f) p
PtrToDir-set_free fs i f none e h = h
PtrToDir-set_free fs i f (some d) e h = ground (arith, ap fs.free_list {x = i} {y = d})

-- A change of an entry that is not in use.
pub set_free-IsValid :
    (fs : FileSystem) (i : ℕ) (f : File)
    → IsValid fs
    → fs.free_list i ≡ true
    → IsValid (set_file fs i f)
set_free-IsValid fs i f v free = record {
  root_used = v.root_used;
  root_dir = ground (arith, v.root_dir, v.root_used);
  root_top = ground (arith, v.root_top, v.root_used);
  counted = v.counted;
  current = PtrToDir-set_free fs i f fs.current_dir free v.current;
  entries = λ j hj used nz.
      let old = v.entries j hj used nz in
      elim (Bool-cases (i == j)) [
        | inl e ↦ cc (sym free ∙ ap fs.free_list (==→eq i j e))
        | inr ne ↦
            entry_is _ j (fs.files j) (rw ne)
              (PtrToDir-set_free fs i f (fs.files j).parent free old.inside) old.not_self old.file
      ];
}
