-- ===== src/Pmm/Laws.antt =====
-- What setting and clearing a bit of a bitmap does to every bit.
use native.Mathlib.Nat.{pow-le-pow_right}
use unics.Base.{
  ℕ, zero, suc, ◌+◌, ◌-◌, ◌/◌, ◌%◌, ◌^◌, ◌<◌, ◌≡◌, inl, inr, refl, ap, Bool, true, false, arith,
  ◌==◌, if◌then◌else◌, leb, ltb, ◌&&◌, Bool-cases, ==→eq,
}
use unics.Base.Bits.{bit_at-bit_or, bit_at-bit_and, bit_at-pow, bit_at-not}
use unics.Pmm.Bitmap.{Bitmap, set_bit_64, clear_bit_64, test_bit_64}
use unics.Pmm.Region.{set_run, clear_run, all_allocated}

-- `1ULL << k` is a 64-bit word.
pow-lt_word : (k : ℕ) → k < 64 → 2 ^ k < 2 ^ 64
pow-lt_word k h =
    omega (arith, pow-le-pow_right {n = 2} (omega arith) {i = k} {j = 63} (omega arith))

-- Setting a bit sets that bit and no other.
pub test_bit-set_bit :
    (bitmap : Bitmap) (i j : ℕ)
    → test_bit_64 (set_bit_64 bitmap i) j ≡ (if i == j then true else test_bit_64 bitmap j)
unfolding test_bit_64 set_bit_64
test_bit-set_bit bitmap i j = elim (Bool-cases (i / 64 == j / 64)) [
  | inl e ↦ rw e (
      ground (
        arith,
        bit_at-bit_or (j % 64) (bitmap (i / 64)) (2 ^ (i % 64)),
        bit_at-pow (i % 64) (j % 64),
        ap bitmap (==→eq _ _ e),
      ))
  | inr ne ↦ rw ne (ground arith)
]

-- Clearing a bit clears that bit and no other.
pub test_bit-clear_bit :
    (bitmap : Bitmap) (i j : ℕ)
    → test_bit_64 (clear_bit_64 bitmap i) j ≡ (if i == j then false else test_bit_64 bitmap j)
unfolding test_bit_64 clear_bit_64
test_bit-clear_bit bitmap i j = elim (Bool-cases (i / 64 == j / 64)) [
  | inl e ↦ rw e (
      ground (
        arith,
        bit_at-bit_and (j % 64) (bitmap (i / 64)) (2 ^ 64 - 1 - 2 ^ (i % 64)),
        bit_at-not (j % 64) 64 (2 ^ (i % 64)) (omega arith) (pow-lt_word (i % 64) (omega arith)),
        bit_at-pow (i % 64) (j % 64),
        ap bitmap (==→eq _ _ e),
      ))
  | inr ne ↦ rw ne (ground arith)
]

-- `j` is one of the `n` pages from `start` on.
abbrev pub in_run : ℕ → ℕ → ℕ → Bool
in_run start n j = leb start j && ltb j (start + n)

-- Setting a run of bits sets these and no other.
pub test_bit-set_run :
    (n start : ℕ) (bitmap : Bitmap) (j : ℕ)
    → test_bit_64 (set_run n start bitmap) j
      ≡ (if in_run start n j then true else test_bit_64 bitmap j)
unfolding set_run
test_bit-set_run zero start bitmap j = ground arith
test_bit-set_run (suc n) start bitmap j = ground (
  arith,
  test_bit-set_run n (start + 1) (set_bit_64 bitmap start) j,
  test_bit-set_bit bitmap start j,
)

-- Clearing a run of bits clears these and no other.
pub test_bit-clear_run :
    (n start : ℕ) (bitmap : Bitmap) (j : ℕ)
    → test_bit_64 (clear_run n start bitmap) j
      ≡ (if in_run start n j then false else test_bit_64 bitmap j)
unfolding clear_run
test_bit-clear_run zero start bitmap j = ground arith
test_bit-clear_run (suc n) start bitmap j = ground (
  arith,
  test_bit-clear_run n (start + 1) (clear_bit_64 bitmap start) j,
  test_bit-clear_bit bitmap start j,
)

-- The check before a free passes exactly when every page of the run is allocated.
pub all_allocated_sound :
    (bitmap : Bitmap) (n start j : ℕ)
    → all_allocated bitmap n start ≡ true
    → in_run start n j ≡ true
    → test_bit_64 bitmap j ≡ true
unfolding all_allocated
all_allocated_sound bitmap zero start j h r = ground arith
all_allocated_sound bitmap (suc n) start j h r = elim (Bool-cases (start == j)) [
  | inl e ↦ rw (← ==→eq start j e) (ground arith)
  | inr ne ↦ all_allocated_sound bitmap n (start + 1) j (ground arith) (ground arith)
]

pub all_allocated_complete :
    (bitmap : Bitmap) (n start : ℕ)
    → ((j : ℕ) → in_run start n j ≡ true → test_bit_64 bitmap j ≡ true)
    → all_allocated bitmap n start ≡ true
unfolding all_allocated
all_allocated_complete bitmap zero start h = refl
all_allocated_complete bitmap (suc n) start h =
    let first : test_bit_64 bitmap start ≡ true = h start (ground arith) in
    rw first (all_allocated_complete bitmap n (start + 1) (λ j r. h j (ground arith)))
