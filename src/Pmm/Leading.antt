-- ===== src/Pmm/Leading.antt =====
-- `clz64` counts leading zeros; `find_first_zero_bit_64` is built on it, and so counts leading ones.
use native.Mathlib.Nat.{
  pow-suc, mul_assoc, add-zero, mod-eq_of_lt, mul-le-mul_right, div-eq_of_lt-le,
}
use native.Mathlib.Decide.{dec_lt}
use unics.Base.{
  ℕ, zero, suc, ◌+◌, ◌-◌, ◌*◌, ◌/◌, ◌%◌, ◌^◌, ◌≤◌, ◌<◌, ◌≡◌, inl, inr, refl, sym, ap, ◌∙◌, arith,
  leb, leb→le, leb→lt, if◌then◌else◌, Bool-cases, ne→==,
}
use unics.Base.Bits.{bit_at, bit_at-not, pow_pos}
use unics.Pmm.Bitmap.{Clz, clz_step, clz64, find_first_zero_bit_64, not64, all_ones, shl64}

pow-add : (a b : ℕ) → 2 ^ (a + b) ≡ 2 ^ a * 2 ^ b
pow-add a zero = rw add-zero (omega arith)
pow-add a (suc b) =
    let e : a + suc b ≡ suc (a + b) = omega arith in
    rw (e, pow-suc 2 (a + b), pow-suc 2 b, pow-add a b) (mul_assoc (2 ^ a) (2 ^ b) 2)

-- The state after some steps of `clz64` on `x`: shifted by the count, not below `low`.
record Shifted (x low most : ℕ) (s : Clz) : Type 0 where
  exact : s.x ≡ x * 2 ^ s.n
  below : s.x < 2 ^ 64
  above : low ≤ s.x
  few : s.n ≤ most

-- One step: either the word is already at least `bound + 1`, or the shift makes it `2 ^ k` times as
-- large, and loses no bit.
step-Shifted :
    (bound k low high most x : ℕ) (s : Clz)
    → (bound + 1) * 2 ^ k ≡ 2 ^ 64
    → high ≤ bound + 1
    → high ≤ low * 2 ^ k
    → Shifted x low most s
    → Shifted x high (most + k) (clz_step bound k s)
step-Shifted bound k low high most x s e h1 h2 i = elim (Bool-cases (leb s.x bound)) [
  | inl small ↦
      rw (small, clz_step)
        (let fit : s.x * 2 ^ k < 2 ^ 64 = omega (
          arith,
          mul-le-mul_right {m = s.x + 1} {n = bound + 1} (2 ^ k) (omega (arith, leb→le _ _ small)),
          pow_pos k,
        ) in
          let whole : shl64 s.x k ≡ s.x * 2 ^ k = mod-eq_of_lt fit in
          record {
            exact = whole ∙ (rw (i.exact, pow-add s.n k) (mul_assoc x (2 ^ s.n) (2 ^ k)));
            below = omega (arith, whole, fit);
            above = omega (arith, whole, mul-le-mul_right {m = low} {n = s.x} (2 ^ k) i.above);
            few = omega (arith, i.few);
          })
  | inr large ↦
      rw (large, clz_step)
        (record {
          exact = i.exact;
          below = i.below;
          above = omega (arith, leb→lt _ _ large);
          few = omega (arith, i.few);
        })
]

-- The last step only counts.
last_step :
    (x : ℕ) (s : Clz)
    → Shifted x (2 ^ 62) 62 s
    → let n = if leb s.x 0x7fffffffffffffff then s.n + 1 else s.n in
      (n ≤ 63) × (2 ^ 63 ≤ x * 2 ^ n) × (x * 2 ^ n < 2 ^ 64)
last_step x s i = elim (Bool-cases (leb s.x 0x7fffffffffffffff)) [
  | inl small ↦
      let twice : x * 2 ^ (s.n + 1) ≡ s.x * 2 =
        rw (i.exact, pow-add s.n 1) (sym (mul_assoc x (2 ^ s.n) 2)) in
      rw small (
        omega (arith, i.few),
        omega (arith, twice, i.above),
        omega (arith, twice, leb→le _ _ small),
      )
  | inr large ↦ rw large (
    omega (arith, i.few),
    omega (arith, i.exact, leb→lt _ _ large),
    omega (arith, i.exact, i.below),
  )
]

-- `clz64` on a word that is not 0 gives the number of zeros above the highest one: shifted left by
-- that number, the word has its highest bit set, and no bit is lost.
pub clz64_lem :
    (x : ℕ)
    → 0 < x
    → x < 2 ^ 64
    → (clz64 x ≤ 63) × (2 ^ 63 ≤ x * 2 ^ clz64 x) × (x * 2 ^ clz64 x < 2 ^ 64)
unfolding clz64
clz64_lem x pos h =
    let s0 : Shifted x 1 0 (record { n = 0; x = x }) = record {
      exact = omega arith;
      below = h;
      above = pos;
      few = omega arith;
    } in
    let s1 =
      step-Shifted 0x00000000ffffffff 32 1 (2 ^ 32) 0 x _ refl (omega arith) (omega arith) s0 in
    let s2 =
      step-Shifted 0x0000ffffffffffff 16 (2 ^ 32) (2 ^ 48) _ x _ refl (omega arith) (omega arith)
        s1 in
    let s3 =
      step-Shifted 0x00ffffffffffffff 8 (2 ^ 48) (2 ^ 56) _ x _ refl (omega arith) (omega arith)
        s2 in
    let s4 =
      step-Shifted 0x0fffffffffffffff 4 (2 ^ 56) (2 ^ 60) _ x _ refl (omega arith) (omega arith)
        s3 in
    let s5 =
      step-Shifted 0x3fffffffffffffff 2 (2 ^ 60) (2 ^ 62) _ x _ refl (omega arith) (omega arith)
        s4 in
    rw (ne→== x 0 (omega arith)) (last_step x _ s5)

mul_cancel_lt : (a b n : ℕ) → a * n < b * n → a < b
mul_cancel_lt a b n h = elim (dec_lt a b) [
  | yes p ↦ p
  | no p ↦ absurd (omega (arith, h, mul-le-mul_right {m = b} {n = a} n (omega arith)))
]

highest_zero :
    (word n : ℕ)
    → word < 2 ^ 64
    → n ≤ 63
    → 2 ^ 63 ≤ not64 word * 2 ^ n
    → not64 word * 2 ^ n < 2 ^ 64
    → bit_at word (63 - n) ≡ 0
highest_zero word n h few low high =
    let split : 2 ^ (63 - n) * 2 ^ n ≡ 2 ^ 63 =
      sym (pow-add (63 - n) n) ∙ ap (λ (t : ℕ). 2 ^ t) {x = 63 - n + n} {y = 63} (omega arith) in
    let lo : 2 ^ (63 - n) ≤ not64 word = omega (
      arith,
      mul_cancel_lt (2 ^ (63 - n)) (not64 word + 1) (2 ^ n) (omega (arith, split, low, pow_pos n)),
    ) in
    let hi : not64 word < 2 * 2 ^ (63 - n) =
      mul_cancel_lt (not64 word) (2 * 2 ^ (63 - n)) (2 ^ n) (omega (arith, split, high)) in
    let one : not64 word / 2 ^ (63 - n) ≡ 1 =
      div-eq_of_lt-le (2 ^ (63 - n)) (omega (arith, lo)) (omega (arith, hi)) in
    omega (arith, bit_at-not (63 - n) 64 word (omega arith) h, ap (λ (t : ℕ). t % 2) one)

-- What `find_first_zero_bit_64` returns for a word that is not all ones: the number of ones above
-- the highest zero. The bit at 63 minus that number is a zero.
pub find_first_zero_bit_64_lem :
    (word : ℕ)
    → word < all_ones
    → let n = find_first_zero_bit_64 word in (n ≤ 63) × (bit_at word (63 - n) ≡ 0)
unfolding find_first_zero_bit_64
find_first_zero_bit_64_lem word h =
    let (few, low, high) = clz64_lem (not64 word) (omega arith) (omega arith) in
    (few, highest_zero word (clz64 (not64 word)) (omega arith) few low high)

-- A word whose top bit is clear has no leading ones: the result is 0, whatever bit 0 is.
pub find_first_zero_bit_64-top_clear : (word : ℕ) → word < 2 ^ 63 → find_first_zero_bit_64 word ≡ 0
unfolding find_first_zero_bit_64 clz64
find_first_zero_bit_64-top_clear word h = ground arith
