-- ===== src/Fs/Io.antt =====
-- `fs_open`, `fs_close`, `fs_seek`, `fs_read` and `fs_write` keep the invariant; a read never leaves
-- its block.
use unics.Base.{
  ℕ, ◌+◌, ◌%◌, ◌^◌, ◌≤◌, ◌<◌, ◌≡◌, inl, inr, refl, sym, ap, ◌∙◌, Bool, true, false, not, ◌||◌,
  Option, none, some, [], Bytes, arith, length, ◌==◌, Bool-cases, ==→eq, ==→ne, if_ind, ltb, ltb→lt,
}
use unics.Fs.State.{File, FileSystem, Machine, IsAllocator, set_file, is_success}
use unics.Fs.Lookup.{has_perm}
use unics.Fs.Access.{
  open_file, close, seek, read, read_entry, write, write_entry, store, resize_file, copy_in,
  bytes_to_read, room, written,
}
use unics.Fs.Find.{Found, with_file_ind}
use unics.Fs.Valid.{IsValid, FileOk, set_file-IsValid}
use unics.Fs.Files.{SamePlace, resize_file-Resized, copy_out-in_range, copy_in_lem}

record Keeps {A : Type 0} (r : A × FileSystem) : Type 0 where
  valid : IsValid r.1

keeps : {A : Type 0} (a : A) (fs : FileSystem) → IsValid fs → Keeps (a, fs)
keeps a fs v = record { valid = v }

-- The file that `fs_find_file` returned, if it is not a directory.
pub Found-FileOk :
    (fs : FileSystem) (i : ℕ)
    → IsValid fs
    → Found fs i
    → (fs.files i).is_dir ≡ false
    → FileOk (fs.files i)
Found-FileOk fs i v f file = elim (Bool-cases (i == 0)) [
  | inl root ↦ cc (v.root_dir, ap (λ k. (fs.files k).is_dir) (==→eq i 0 root))
  | inr nz ↦ (v.entries i (omega (arith, f.below, v.counted)) f.used (==→ne i 0 nz)).file file
]

-- A changed entry with the same place, kind, sizes and block.
same_block :
    (fs : FileSystem) (i : ℕ) (g : File)
    → IsValid fs
    → Found fs i
    → SamePlace (fs.files i) g
    → (FileOk (fs.files i) → FileOk g)
    → IsValid (set_file fs i g)
same_block fs i g v f p ok =
    set_file-IsValid fs i g v p.parent p.is_dir
      (λ file. ok (Found-FileOk fs i v f (sym p.is_dir ∙ file)))

moved :
    (fs : FileSystem) (i position : ℕ) (is_open : Bool)
    → IsValid fs
    → Found fs i
    → IsValid (set_file fs i (record (fs.files i) { is_open = is_open; position = position }))
moved fs i position is_open v f =
    same_block fs i _ v f (record { name = refl; parent = refl; is_dir = refl })
      (λ ok. record { within = ok.within; bounded = ok.bounded; block = ok.block })

-- `fs_open` keeps the invariant.
pub open_file-IsValid :
    (name : Option Bytes) (fs : FileSystem) → IsValid fs → IsValid (open_file name fs).1
unfolding open_file
open_file-IsValid name fs v =
    (with_file_ind Keeps fs name (keeps _ _ v) (λ i f.
      if_ind Keeps ((fs.files i).is_dir) (λ _. keeps _ _ v)
        (λ _.
          if_ind Keeps ((fs.files i).is_open) (λ _. keeps _ _ v)
            (λ _. keeps _ _ (moved fs i 0 true v f))))).valid

-- `fs_close` keeps the invariant.
pub close-IsValid : (name : Option Bytes) (fs : FileSystem) → IsValid fs → IsValid (close name fs).1
unfolding close
close-IsValid name fs v =
    (with_file_ind Keeps fs name (keeps _ _ v) (λ i f.
      if_ind Keeps (not (fs.files i).is_open) (λ _. keeps _ _ v)
        (λ _. keeps _ _ (moved fs i (fs.files i).position false v f)))).valid

-- `fs_seek` keeps the invariant.
pub seek-IsValid :
    (name : Option Bytes) (offset : ℕ) (fs : FileSystem)
    → IsValid fs
    → IsValid (seek name offset fs).1
unfolding seek
seek-IsValid name offset fs v =
    (with_file_ind Keeps fs name (keeps _ _ v) (λ i f.
      if_ind Keeps (not (fs.files i).is_open) (λ _. keeps _ _ v)
        (λ _.
          if_ind Keeps (ltb (fs.files i).size offset) (λ _. keeps _ _ v)
            (λ _. keeps _ _ (moved fs i offset (fs.files i).is_open v f))))).valid

-- A read that stayed in its block: the state is valid, and no more bytes than asked for were copied.
abbrev pub InRange : ℕ → Option (Bytes × FileSystem) → Type 0
InRange size none = ⊥
InRange size (some (bytes, fs)) = IsValid fs × (length bytes ≤ size)

record Reads (size : ℕ) (r : Option (Bytes × FileSystem)) : Type 0 where
  done : InRange size r

no_bytes : (size : ℕ) (fs : FileSystem) → IsValid fs → Reads size (some ([], fs))
no_bytes size fs v = record { done = (v, omega arith) }

bytes_to_read_lem :
    (f : File) (size : ℕ)
    → (bytes_to_read f size ≤ size)
      × (0 < bytes_to_read f size → f.position + bytes_to_read f size ≤ f.size)
bytes_to_read_lem f size = (ground arith, λ h. ground arith)

read_entry-Reads :
    (fs : FileSystem) (i size : ℕ)
    → IsValid fs
    → Found fs i
    → (fs.files i).is_dir ≡ false
    → Reads size (read_entry i size fs)
unfolding read_entry
read_entry-Reads fs i size v f file =
    if_ind (Reads size) (ltb 0 (bytes_to_read (fs.files i) size))
      (λ pos.
        let (least, fits) = bytes_to_read_lem (fs.files i) size in
        let (b, e, len) =
          copy_out-in_range (fs.files i) (bytes_to_read (fs.files i) size)
            (Found-FileOk fs i v f file) (fits (ltb→lt _ _ pos)) in
        record { done = rw e (moved fs i _ (fs.files i).is_open v f, omega (arith, len, least)) })
      (λ _. no_bytes size fs v)

-- `fs_read` never leaves the block of a file, copies no more than the bytes asked for, and keeps
-- the invariant.
pub read-InRange :
    (name : Option Bytes) (size : ℕ) (fs : FileSystem)
    → IsValid fs
    → InRange size (read name size fs)
unfolding read
read-InRange name size fs v =
    (if_ind (Reads size) (size == 0) (λ _. no_bytes size fs v)
      (λ _. with_file_ind (Reads size) fs name (no_bytes size fs v) (λ i f.
        if_ind (Reads size)
          (not (fs.files i).is_open || ((fs.files i).is_dir || not (has_perm (fs.files i) 1)))
          (λ _. no_bytes size fs v) (λ may. read_entry-Reads fs i size v f (ground arith))))).done

abbrev pub KeepsIfDone : Option (ℕ × FileSystem) → Type 0
KeepsIfDone none = Unit {0}
KeepsIfDone (some (n, fs)) = IsValid fs

record Writes (r : Option (ℕ × FileSystem)) : Type 0 where
  done : KeepsIfDone r

wrote : (n : ℕ) (fs : FileSystem) → IsValid fs → Writes (some (n, fs))
wrote n fs v = record { done = v }

written-FileOk :
    (m : Machine) (f : File) (src b : Bytes)
    → FileOk f
    → copy_in f.buf f.position src ≡ some b
    → FileOk (written m f (length src) b)
written-FileOk m f src b ok e =
    let (len, fits) = copy_in_lem f.buf f.allocated_size f.position src b ok.block e in
    record { within = ground (arith, ok.within, ok.bounded); bounded = ok.bounded; block = len }

store-Writes :
    (m : Machine) (fs : FileSystem) (i : ℕ) (f : File) (src : Bytes) (p : Option Bytes)
    → IsValid fs
    → Found fs i
    → SamePlace (fs.files i) f
    → FileOk f
    → copy_in f.buf f.position src ≡ p
    → Writes (store m i f (length src) p fs)
store-Writes m fs i f src none v at_i place ok e = record { done = tt }
store-Writes m fs i f src (some b) v at_i place ok e = wrote (length src) _ (
    same_block fs i _ v at_i
      (record { name = place.name; parent = place.parent; is_dir = place.is_dir })
      (λ _. written-FileOk m f src b ok e))

write_entry-Writes :
    (m : Machine) (fs : FileSystem) (i : ℕ) (src : Bytes)
    → IsAllocator m
    → IsValid fs
    → Found fs i
    → (fs.files i).is_dir ≡ false
    → Writes (write_entry m i src fs)
unfolding write_entry
write_entry-Writes m fs i src alloc v f file =
    let f0 = fs.files i in
    let ok = Found-FileOk fs i v f file in
    let required = (f0.position + length src) % 2 ^ 32 in
    let resized = resize_file-Resized m f0 required alloc ok file in
    let after = λ (bytes : Bytes).
      store-Writes m fs i (resize_file m f0 required).1 bytes _ v f resized.place resized.ok refl in
    if_ind Writes (ltb f0.size required)
      (λ _.
        if_ind Writes (is_success (resize_file m f0 required).0) (λ _. after src)
          (λ _.
            if_ind Writes (room (resize_file m f0 required).1 == 0) (λ _. wrote 0 fs v)
              (λ _. after _)))
      (λ _.
        store-Writes m fs i f0 src _ v f (record { name = refl; parent = refl; is_dir = refl }) ok
          refl)

-- `fs_write` keeps the invariant whenever it stays in its block.
pub write-IsValid :
    (m : Machine) (name : Option Bytes) (src : Bytes) (fs : FileSystem)
    → IsAllocator m
    → IsValid fs
    → KeepsIfDone (write m name src fs)
unfolding write
write-IsValid m name src fs alloc v =
    (if_ind Writes (length src == 0) (λ _. wrote 0 fs v)
      (λ _. with_file_ind Writes fs name (wrote 0 fs v) (λ i f.
        if_ind Writes
          (not (fs.files i).is_open || ((fs.files i).is_dir || not (has_perm (fs.files i) 2)))
          (λ _. wrote 0 fs v)
          (λ may. write_entry-Writes m fs i src alloc v f (ground arith))))).done
