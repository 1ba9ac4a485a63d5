-- ===== src/Paging/Bits.antt =====
-- usr/drivers/paging.c: what the flags do to an entry.
use unics.Base.{ℕ, zero, suc, ◌/◌, ◌%◌, ◌^◌, ◌≤◌, ◌<◌, ◌≡◌, ap, ◌∙◌, arith, bit_or}
use native.Mathlib.Nat.{pow-succ', div-div-eq-div-mul}
use unics.Base.Bits.{bit_or_halves}

bit_or-zero : (n a : ℕ) → a ≤ n → bit_or a 0 ≡ a
bit_or-zero n zero h = omega (arith, bit_or_halves 0 0)
bit_or-zero zero (suc a) h = absurd (omega arith)
bit_or-zero (suc n) (suc a) h =
    omega (arith, bit_or_halves (suc a) 0, bit_or-zero n (suc a / 2) (omega arith))

-- A shift to the right of both words.
bit_or-shift : (k a b : ℕ) → bit_or a b / 2 ^ k ≡ bit_or (a / 2 ^ k) (b / 2 ^ k)
bit_or-shift zero a b =
    let x : a / 2 ^ 0 ≡ a = omega arith in
    let y : b / 2 ^ 0 ≡ b = omega arith in rw (x, y) (omega arith)
bit_or-shift (suc k) a b =
    let half : bit_or a b / 2 ≡ bit_or (a / 2) (b / 2) = omega (arith, bit_or_halves a b) in
    rw
      (
        pow-succ' 2 k,
        ← div-div-eq-div-mul (bit_or a b) 2 (2 ^ k),
        ← div-div-eq-div-mul a 2 (2 ^ k),
        ← div-div-eq-div-mul b 2 (2 ^ k),
        half,
      )
      (bit_or-shift k (a / 2) (b / 2))

-- Flags below 4096 leave the address of the frame.
pub frame-bit_or : (a b : ℕ) → b < 4096 → bit_or a b / 4096 ≡ a / 4096
frame-bit_or a b h =
    let none_left : b / 2 ^ 12 ≡ 0 = omega arith in
    bit_or-shift 12 a b
    ∙ ap (bit_or (a / 2 ^ 12)) none_left
    ∙ bit_or-zero (a / 2 ^ 12) (a / 2 ^ 12) (omega arith)

pub low-bit_or : (a : ℕ) → bit_or a 1 % 2 ≡ 1
low-bit_or a = omega (arith, bit_or_halves a 1)

pub low-bit_or_two : (a : ℕ) → a % 2 ≡ 1 → bit_or a 2 % 2 ≡ 1
low-bit_or_two a h = omega (arith, bit_or_halves a 2)
