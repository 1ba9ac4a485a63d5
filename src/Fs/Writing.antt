-- ===== src/Fs/Writing.antt =====
-- What `fs_write` does with memory to spare: the resized entry, the copy into the block, and a write
-- past MAX_FILE_SIZE.
use unics.Base.{
  ℕ, ◌+◌, ◌%◌, ◌^◌, ◌≤◌, ◌<◌, ◌≡◌, inl, inr, refl, ap, ◌∙◌, fun_ext, true, false, Option, none,
  some, Bytes, arith, length, ◌==◌, ==→eq, ne→==, Bool-cases, ltb, ltb→le, take, overlay,
  take-overlay, length-overlay,
}
use unics.Fs.State.{
  is_success, FileSystem, File, Machine, IsAllocator, max_file_size, set_file, realloc,
}
use unics.Fs.Lookup.{find_file, find_file_in_dir, find_from, with_file, has_perm, is_entry}
use unics.Fs.Access.{
  write, write_entry, copy_and_store, copy_in, copy_out, resize_file, clamp_size, round_up_block,
}
use unics.Fs.Find.{find_file-Found}
use unics.Fs.Valid.{IsValid, FileOk, HoldsBlock}
use unics.Fs.Files.{SamePlace, Resized, resize_file-Resized}
use unics.Fs.Io.{Found-FileOk}

-- `malloc` does not fail.
abbrev pub IsPlentiful : Machine → Type 0
IsPlentiful m = (n : ℕ) → (b : Bytes) × (m.malloc n ≡ some b)

-- A change of an entry that keeps its name and parent does not show in a search.
pub find_file-set_file :
    (fs : FileSystem) (i : ℕ) (g : File) (name : Option Bytes)
    → SamePlace (fs.files i) g
    → find_file (set_file fs i g) name ≡ find_file fs name
unfolding find_file find_file_in_dir
find_file-set_file fs i g none p = refl
find_file-set_file fs i g (some name) p = in_dir fs.current_dir
  where
    at_index : (d j : ℕ) → is_entry (set_file fs i g) name d j ≡ is_entry fs name d j
    at_index d j = elim (Bool-cases (i == j)) [
      | inl e ↦ let same = ==→eq i j e in rw (e, p.name, p.parent, same)
      | inr ne ↦ rw ne
    ]

    in_dir :
        (q : Option ℕ)
        → find_file_in_dir (set_file fs i g) (some name) q ≡ find_file_in_dir fs (some name) q
    in_dir none = refl
    in_dir (some d) = ap (λ t. find_from t fs.file_count 0) (fun_ext (at_index d))

realloc_plentiful :
    (m : Machine) (p : Option Bytes) (n : ℕ)
    → IsPlentiful m
    → (b : Bytes) × (realloc m p n ≡ some b)
realloc_plentiful m none n plenty = plenty n
realloc_plentiful m (some old) n plenty =
    let (b, e) = plenty n in (overlay b 0 (take n old), rw (e, realloc))

-- With memory to spare, `fs_resize_file` succeeds on a file.
resize_file_plentiful :
    (m : Machine) (f : File) (n : ℕ)
    → IsPlentiful m
    → f.is_dir ≡ false
    → is_success (resize_file m f n).0 ≡ true
unfolding resize_file
resize_file_plentiful m f n plenty file =
    let (b, e) = realloc_plentiful m f.buf (round_up_block (clamp_size n)) plenty in
    rw e (ground arith)

-- Bytes that fit go into the block, and come out again.
pub copy_in_fits :
    (p : Option Bytes) (n off : ℕ) (src : Bytes)
    → HoldsBlock p n
    → off + length src ≤ n
    → (b : Bytes) × (copy_in p off src ≡ some b) × (copy_out (some b) off (length src) ≡ some src)
copy_in_fits none n off src h le = absurd h
copy_in_fits (some old) n off src h le = (
  overlay old off src,
  ground arith,
  rw (take-overlay old off src (omega arith)) (ground (arith, length-overlay old off src)),
)

copy_in_too_long :
    (p : Option Bytes) (n off : ℕ) (src : Bytes)
    → HoldsBlock p n
    → n < off + length src
    → copy_in p off src ≡ none
copy_in_too_long none n off src h lt = absurd h
copy_in_too_long (some old) n off src h lt = ground arith

-- The file that the copy of `fs_write` works on.
pub record Target (m : Machine) (fs : FileSystem) (i : ℕ) (src : Bytes) (g : File) : Type 0 where
  pub ok : FileOk g
  pub place : SamePlace (fs.files i) g
  pub position : g.position ≡ (fs.files i).position
  pub opened : g.is_open ≡ (fs.files i).is_open
  pub permissions : g.permissions ≡ (fs.files i).permissions
  pub long : g.position + length src ≤ max_file_size → g.position + length src ≤ g.size
  pub copies : write_entry m i src fs ≡ copy_and_store m i g src fs

pub target :
    (m : Machine) (fs : FileSystem) (i : ℕ) (src : Bytes)
    → IsAllocator m
    → IsPlentiful m
    → FileOk (fs.files i)
    → (fs.files i).is_dir ≡ false
    → (fs.files i).position + length src < 2 ^ 32
    → (g : File) × Target m fs i src g
unfolding write_entry
target m fs i src alloc plenty ok file small = elim (Bool-cases (ltb f.size required)) [
  | inl grows ↦ (
    (resize_file m f required).1,
    record {
      ok = resized.ok;
      place = resized.place;
      position = resized.position;
      opened = resized.opened;
      permissions = resized.permissions;
      long = λ h. ground (arith, resized.position, resized.sized enough);
      copies = rw (grows, enough);
    },
  )
  | inr fits ↦ (
    f,
    record {
      ok = ok;
      place = record { name = refl; parent = refl; is_dir = refl };
      position = refl;
      opened = refl;
      permissions = refl;
      long = λ h. omega (arith, ltb→le _ _ fits);
      copies = rw fits;
    },
  )
]
  where
    f : File
    f = fs.files i

    required : ℕ
    required = (f.position + length src) % 2 ^ 32

    resized : Resized f required (resize_file m f required)
    resized = resize_file-Resized m f required alloc ok file

    enough : is_success (resize_file m f required).0 ≡ true
    enough = resize_file_plentiful m f required plenty file

-- An open file that `fs_find_file` gives for the name, with the permission that the call asks for.
pub record Ready (fs : FileSystem) (name : Option Bytes) (perm i : ℕ) : Type 0 where
  pub found : find_file fs name ≡ some i
  pub opened : (fs.files i).is_open ≡ true
  pub file : (fs.files i).is_dir ≡ false
  pub allowed : has_perm (fs.files i) perm ≡ true

pub write-eq-write_entry :
    (m : Machine) (fs : FileSystem) (name : Option Bytes) (i : ℕ) (src : Bytes)
    → Ready fs name 2 i
    → 0 < length src
    → write m name src fs ≡ write_entry m i src fs
unfolding write
write-eq-write_entry m fs name i src r pos =
    rw (r.found, with_file, r.opened, r.file, r.allowed, ne→== (length src) 0 (omega arith))

-- A write that would reach past MAX_FILE_SIZE copies its bytes past the end of the block: the file
-- is resized to MAX_FILE_SIZE, and the bytes are not cut.
pub write_past_max :
    (m : Machine) (fs : FileSystem) (name : Option Bytes) (i : ℕ) (src : Bytes)
    → IsAllocator m
    → IsPlentiful m
    → IsValid fs
    → Ready fs name 2 i
    → max_file_size < (fs.files i).position + length src
    → 0 < length src
    → (fs.files i).position + length src < 2 ^ 32
    → write m name src fs ≡ none
write_past_max m fs name i src alloc plenty v r over pos small =
    let ok = Found-FileOk fs i v (find_file-Found fs name i r.found) r.file in
    let (g, t) = target m fs i src alloc plenty ok r.file small in
    let out =
      copy_in_too_long g.buf g.allocated_size g.position src t.ok.block
        (omega (arith, t.ok.bounded, t.position)) in
    write-eq-write_entry m fs name i src r pos ∙ t.copies ∙ rw (out, copy_and_store)
