-- ===== src/Fs/Files.antt =====
-- What the operations on one entry do to its block: resizing, and the copies of `fs_read` and
-- `fs_write`.
use unics.Base.{
  ℕ, ◌+◌, ◌≤◌, ◌<◌, ◌≡◌, inl, inr, refl, sym, ◌∙◌, true, false, Option, none, some, Bytes, arith,
  length, take, overlay, Bool-cases, Option-cases, length-overlay, length-take, length-drop, drop,
  if_ind, ltb, ltb→lt, ltb→le, leb, leb→le,
}
use mathlib.Core.Option.{some-injective}
use unics.Fs.State.{Status, File, Machine, IsAllocator, realloc, is_success}
use unics.Fs.Access.{copy_out, copy_in, clamp_size, grow, round_up_block, resize_file}
use unics.Fs.Valid.{FileOk, HoldsBlock}

-- A grown block has the size that was asked for.
pub realloc_lem :
    (m : Machine) (p : Option Bytes) (n : ℕ) (b : Bytes)
    → IsAllocator m
    → realloc m p n ≡ some b
    → length b ≡ n
realloc_lem m none n b alloc h = alloc n b h
realloc_lem m (some old) n b alloc h = elim (Option-cases (m.malloc n)) [
  | inl e ↦ ground (arith, e)
  | inr (fresh, e) ↦
      ground (arith, alloc n fresh e, length-overlay fresh 0 (take n old), length-take n old)
]

-- What stays when a file is read, written or resized.
pub record SamePlace (f g : File) : Type 0 where
  pub name : g.name ≡ f.name
  pub parent : g.parent ≡ f.parent
  pub is_dir : g.is_dir ≡ f.is_dir

-- `fs_resize_file` on a valid file: with success the size is the one asked for, cut at
-- MAX_FILE_SIZE, inside the allocated size; any other result leaves the file as it was.
pub record Resized (f : File) (n : ℕ) (r : Status × File) : Type 0 where
  pub ok : FileOk r.1
  pub place : SamePlace f r.1
  pub position : r.1.position ≡ f.position
  pub opened : r.1.is_open ≡ f.is_open
  pub permissions : r.1.permissions ≡ f.permissions
  pub sized : is_success r.0 ≡ true → r.1.size ≡ clamp_size n
  pub failed : is_success r.0 ≡ false → r.1 ≡ f

grown-Resized :
    (m : Machine) (f : File) (n : ℕ) (p : Option Bytes)
    → IsAllocator m
    → FileOk f
    → f.allocated_size < clamp_size n
    → realloc m f.buf (round_up_block (clamp_size n)) ≡ p
    → Resized f n (grow m f (clamp_size n) p)
grown-Resized m f n none alloc ok lt e = record {
  ok = ok;
  place = record { name = refl; parent = refl; is_dir = refl };
  position = refl;
  opened = refl;
  permissions = refl;
  sized = λ h. cc;
  failed = λ h. refl;
}
grown-Resized m f n (some b) alloc ok lt e = record {
  ok = record {
    within = ground arith;
    bounded = ground arith;
    block = realloc_lem m f.buf _ b alloc e;
  };
  place = record { name = refl; parent = refl; is_dir = refl };
  position = refl;
  opened = refl;
  permissions = refl;
  sized = λ h. refl;
  failed = λ h. cc;
}

pub resize_file-Resized :
    (m : Machine) (f : File) (n : ℕ)
    → IsAllocator m
    → FileOk f
    → f.is_dir ≡ false
    → Resized f n (resize_file m f n)
unfolding resize_file
resize_file-Resized m f n alloc ok file =
    if_ind (Resized f n) f.is_dir (λ dir. cc)
      (λ _.
        if_ind (Resized f n) (ltb f.allocated_size (clamp_size n))
          (λ lt. grown-Resized m f n _ alloc ok (ltb→lt _ _ lt) refl)
          (λ le. record {
            ok = record { within = ltb→le _ _ le; bounded = ok.bounded; block = ok.block };
            place = record { name = refl; parent = refl; is_dir = refl };
            position = refl;
            opened = refl;
            permissions = refl;
            sized = λ h. refl;
            failed = λ h. cc;
          }))

-- A read inside the size does not leave the block.
pub copy_out-in_range :
    (f : File) (n : ℕ)
    → FileOk f
    → f.position + n ≤ f.size
    → (b : Bytes) × (copy_out f.buf f.position n ≡ some b) × (length b ≡ n)
copy_out-in_range f n ok h = in_block f.buf ok.block
  where
    in_block :
        (p : Option Bytes)
        → HoldsBlock p f.allocated_size
        → (b : Bytes) × (copy_out p f.position n ≡ some b) × (length b ≡ n)
    in_block none k = absurd k
    in_block (some b) k = (
      take n (drop f.position b),
      ground (arith, ok.within),
      omega (arith, length-take n (drop f.position b), length-drop f.position b, ok.within),
    )

-- A write leaves the block as long as it was, and stays inside it.
pub copy_in_lem :
    (p : Option Bytes) (n off : ℕ) (src b : Bytes)
    → HoldsBlock p n
    → copy_in p off src ≡ some b
    → (length b ≡ n) × (off + length src ≤ n)
copy_in_lem none n off src b k h = absurd k
copy_in_lem (some old) n off src b k h = elim (Bool-cases (leb (off + length src) (length old))) [
  | inl fits ↦
      let le = leb→le _ _ fits in
      let eq : b ≡ overlay old off src = sym (some-injective _ _ (rw fits at h)) in
      (rw eq (length-overlay old off src le ∙ k), omega arith)
  | inr out ↦ cc (rw out at h)
]
