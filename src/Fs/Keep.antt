-- ===== src/Fs/Keep.antt =====
-- Every operation of fs.c keeps the invariant of the file table.
use unics.Base.{
  ℕ, ◌<◌, ◌≡◌, ◌≢◌, inl, inr, refl, sym, ap, ◌∙◌, true, false, not, ◌&&◌, Option, none, some, Bytes,
  arith, ◌==◌, Bool-cases, Option-cases, ==→eq, ==→ne, ne→==, is_some, if_ind,
}
use unics.Base.Table.{update, update_same}
use unics.Fs.State.{
  Status, perm_default, File, FileSystem, Machine, IsAllocator, max_files, block_size, init,
  is_success,
}
use unics.Fs.Lookup.{find_file, find_free_slot, has_child, eq_ptr, validate_filename}
use unics.Fs.Entries.{
  create_with_perms, create, mkdir, delete, delete_dir, delete_entry, fill_file, new_file, new_dir,
  is_current,
}
use unics.Fs.Search.{first_free_cases, has_child_none}
use unics.Fs.Find.{Found, with_file_ind, eq_ptr_self}
use unics.Fs.Valid.{IsValid, PtrToDir, add_entry-IsValid, drop_entry-IsValid, set_free-IsValid}

record Keeps (r : Status × FileSystem) : Type 0 where
  valid : IsValid r.1

keeps : (s : Status) (fs : FileSystem) → IsValid fs → Keeps (s, fs)
keeps s fs v = record { valid = v }

-- The state that `fs_init` sets up is valid.
pub init-IsValid : (m : Machine) → IsValid (init m)
unfolding init
init-IsValid m = record {
  root_used = refl;
  root_dir = refl;
  root_top = refl;
  counted = refl;
  current = (omega arith, refl, refl);
  entries = λ i hi used nz. absurd (ground arith);
}

-- The slot that `fs_find_free_slot` returns, if it is not MAX_FILES, is a free slot of the table.
pub find_free_slot_lem :
    (fs : FileSystem)
    → find_free_slot fs ≢ max_files
    → (find_free_slot fs < max_files) × (fs.free_list (find_free_slot fs) ≡ true)
unfolding find_free_slot
find_free_slot_lem fs ne = elim (first_free_cases fs.free_list max_files 0 max_files refl) [
  | inl (lo, hi, free, before) ↦ (hi, free)
  | inr (e, before) ↦ absurd (ne e)
]

-- A slot in which a creation failed stays free, so nothing in use changes.
half_file-IsValid :
    (fs : FileSystem) (i : ℕ) (f : File)
    → IsValid fs
    → fs.free_list i ≡ true
    → IsValid (record fs { files = update fs.files i f; free_list = update fs.free_list i true })
half_file-IsValid fs i f v free =
    rw (update_same fs.free_list i true free) (set_free-IsValid fs i f v free)

pub fill_file-IsValid :
    (m : Machine) (name : Bytes) (permissions slot : ℕ) (fs : FileSystem)
    → IsAllocator m
    → IsValid fs
    → slot < max_files
    → fs.free_list slot ≡ true
    → IsValid (fill_file m name permissions slot fs).1
unfolding fill_file
fill_file-IsValid m name permissions slot fs alloc v lt free =
    elim (Option-cases (m.malloc block_size)) [
      | inl e ↦ rw (e, fill_file) (half_file-IsValid fs slot _ v free)
      | inr (b, e) ↦
          rw (e, fill_file)
            (add_entry-IsValid fs slot (new_file m fs name permissions b) v lt free refl (λ _.
              record { within = omega arith; bounded = omega arith; block = alloc block_size b e }))
    ]

create-Keeps :
    (m : Machine) (name : Bytes) (permissions : ℕ) (fs : FileSystem)
    → IsAllocator m
    → IsValid fs
    → Keeps (create_with_perms m (some name) permissions fs)
unfolding create_with_perms
create-Keeps m name permissions fs alloc v =
    if_ind Keeps (is_success (validate_filename (some name)))
      (λ _.
        if_ind Keeps (is_some (find_file fs (some name))) (λ _. keeps _ _ v)
          (λ _.
            if_ind Keeps (find_free_slot fs == max_files) (λ _. keeps _ _ v)
              (λ ne.
                let slot = find_free_slot_lem fs (==→ne _ _ ne) in
                keeps _ _ (
                  fill_file-IsValid m name permissions (find_free_slot fs) fs alloc v slot.0
                    slot.1))))
      (λ _. keeps _ _ v)

-- `fs_create_with_perms` keeps the invariant, whatever it returns.
pub create_with_perms-IsValid :
    (m : Machine) (name : Option Bytes) (permissions : ℕ) (fs : FileSystem)
    → IsAllocator m
    → IsValid fs
    → IsValid (create_with_perms m name permissions fs).1
create_with_perms-IsValid m none permissions fs alloc v = unfold create_with_perms in v
create_with_perms-IsValid m (some name) permissions fs alloc v =
    (create-Keeps m name permissions fs alloc v).valid

-- `fs_create` keeps the invariant.
pub create-IsValid :
    (m : Machine) (name : Option Bytes) (fs : FileSystem)
    → IsAllocator m
    → IsValid fs
    → IsValid (create m name fs).1
unfolding create
create-IsValid m name fs = create_with_perms-IsValid m name perm_default fs

mkdir-Keeps :
    (m : Machine) (name : Bytes) (fs : FileSystem) → IsValid fs → Keeps (mkdir m (some name) fs)
unfolding mkdir
mkdir-Keeps m name fs v =
    if_ind Keeps (is_success (validate_filename (some name)))
      (λ _.
        if_ind Keeps (is_some (find_file fs (some name))) (λ _. keeps _ _ v)
          (λ _.
            if_ind Keeps (find_free_slot fs == max_files) (λ _. keeps _ _ v)
              (λ ne.
                let slot = find_free_slot_lem fs (==→ne _ _ ne) in
                keeps _ _ (
                  add_entry-IsValid fs (find_free_slot fs) (new_dir m fs name) v slot.0 slot.1 refl
                    (λ file. cc)))))
      (λ _. keeps _ _ v)

-- `fs_mkdir` keeps the invariant.
pub mkdir-IsValid :
    (m : Machine) (name : Option Bytes) (fs : FileSystem) → IsValid fs → IsValid (mkdir m name fs).1
mkdir-IsValid m none fs v = unfold mkdir in v
mkdir-IsValid m (some name) fs v = (mkdir-Keeps m name fs v).valid

-- An entry that `fs_find_file` returns, other than the root, is a valid entry of the table, and is
-- not the current directory.
pub is_current-false : (fs : FileSystem) (i : ℕ) → fs.current_dir ≢ some i → is_current fs i ≡ false
is_current-false fs i ne = is_ptr fs.current_dir refl
  where
    is_ptr : (p : Option ℕ) → fs.current_dir ≡ p → is_current fs i ≡ false
    is_ptr none e = rw (e, is_current)
    is_ptr (some c) e = rw (e, is_current) (ne→== c i (λ q. ne (e ∙ ap some q)))

Found-slot : (fs : FileSystem) (i : ℕ) → IsValid fs → Found fs i → (i < max_files)
Found-slot fs i v f = omega (arith, f.below, v.counted)

pub Found-not_current :
    (fs : FileSystem) (i : ℕ) → IsValid fs → Found fs i → i ≢ 0 → fs.current_dir ≢ some i
Found-not_current fs i v f nz e =
    (v.entries i (Found-slot fs i v f) f.used nz).not_self (f.inside ∙ sym f.current ∙ e)

no_child :
    (fs : FileSystem) (i j : ℕ)
    → has_child fs i max_files 0 ≡ false
    → j < max_files
    → fs.free_list j ≡ false
    → (fs.files j).parent ≢ some i
no_child fs i j h hj used e =
    let hit : not (fs.free_list j) && eq_ptr (fs.files j).parent i ≡ true =
      rw (used, e) (eq_ptr_self i) in
    cc (has_child_none fs i max_files 0 max_files refl h j (omega arith) hj)

-- No entry has as its parent what is not a directory.
file_has_no_child :
    (fs : FileSystem) (i j : ℕ)
    → IsValid fs
    → (fs.files i).is_dir ≡ false
    → j < max_files
    → fs.free_list j ≡ false
    → (fs.files j).parent ≢ some i
file_has_no_child fs i j v file hj used e = elim (Bool-cases (j == 0)) [
  | inl root ↦ cc (v.root_top, ap (λ k. (fs.files k).parent) (==→eq j 0 root))
  | inr nz ↦
      let dir : PtrToDir fs (some i) = rw e at ((v.entries j hj used (==→ne j 0 nz)).inside) in
      cc dir.2
]

delete_entry-Keeps : (fs : FileSystem) (i : ℕ) → IsValid fs → Found fs i → Keeps (delete_entry i fs)
unfolding delete_entry
delete_entry-Keeps fs i v f =
    if_ind Keeps ((fs.files i).is_open) (λ _. keeps _ _ v)
      (λ _.
        if_ind Keeps (i == 0) (λ _. keeps _ _ v)
          (λ nz.
            let ne = ==→ne i 0 nz in
            let apart = Found-not_current fs i v f ne in
            let gone = drop_entry-IsValid fs i v (Found-slot fs i v f) ne f.used apart in
            if_ind Keeps ((fs.files i).is_dir)
              (λ dir.
                if_ind Keeps (has_child fs i max_files 0) (λ _. keeps _ _ v)
                  (λ empty.
                    let stays : Keeps (delete_dir i fs) =
                      rw (is_current-false fs i apart)
                        (keeps _ _ (gone (λ j. no_child fs i j empty))) in
                    stays))
              (λ file. keeps _ _ (gone (λ j. file_has_no_child fs i j v file)))))

-- `fs_delete` keeps the invariant: it never leaves an entry, or the current directory, inside an
-- erased directory.
pub delete-IsValid :
    (name : Option Bytes) (fs : FileSystem) → IsValid fs → IsValid (delete name fs).1
unfolding delete
delete-IsValid name fs v =
    (with_file_ind Keeps fs name (keeps _ _ v) (λ i. delete_entry-Keeps fs i v)).valid
