-- ===== src/Base/Bits.antt =====
-- Single bits of words: what `|`, `&`, `~` and `1 << k` do to them.
use Prim.Native.Nat.{
  ℕ, zero, suc, ◌+◌, ◌-◌, ◌*◌, ◌/◌, ◌%◌, ◌^◌, ◌≤◌, ◌<◌, min, max, bit_and, bit_or, digits,
  bit_and-bitwise, bit_or-bitwise,
}
use mathlib.Core.Path.{◌≡◌, refl, ap, ◌∙◌, sym}
use native.Mathlib.Nat.{
  pow-suc, mul_assoc, pow-succ', two-pow-succ, div-div-eq-div-mul, one-le-pow, zero-div,
}
use native.Mathlib.Omega.{arith}
use unics.Base.Tests.{◌==◌, if◌then◌else◌}

-- `(w >> k) & 1`
abbrev pub bit_at : ℕ → ℕ → ℕ
bit_at w k = w / 2 ^ k % 2

-- The digit recursion behind the native operations does not depend on its fuel.
pub more_fuel :
    (z : ℕ → ℕ) (f : ℕ → ℕ → ℕ) (k n a b : ℕ) → a ≤ k → k ≤ n → digits z f n a b ≡ digits z f k a b
more_fuel z f zero zero zero b p q = refl
more_fuel z f zero (suc n) zero b p q = refl
more_fuel z f zero n (suc a) b p q = absurd (omega arith)
more_fuel z f (suc k) zero a b p q = absurd (omega arith)
more_fuel z f (suc k) (suc n) zero b p q = refl
more_fuel z f (suc k) (suc n) (suc a) b p q =
    rw (more_fuel z f k n (suc a / 2) (b / 2) (omega arith) (omega arith))

pub bit_or_halves : (a b : ℕ) → bit_or a b ≡ bit_or (a / 2) (b / 2) * 2 + max (a % 2) (b % 2)
bit_or_halves zero b = omega (arith, bit_or-bitwise 0 b, bit_or-bitwise 0 (b / 2))
bit_or_halves (suc a) b = omega (
  arith,
  bit_or-bitwise (suc a) b,
  bit_or-bitwise (suc a / 2) (b / 2),
  more_fuel (λ y. y) max (suc a / 2) a (suc a / 2) (b / 2) (omega arith) (omega arith),
)

pub bit_and_halves : (a b : ℕ) → bit_and a b ≡ bit_and (a / 2) (b / 2) * 2 + min (a % 2) (b % 2)
bit_and_halves zero b = omega (arith, bit_and-bitwise 0 b, bit_and-bitwise 0 (b / 2))
bit_and_halves (suc a) b = omega (
  arith,
  bit_and-bitwise (suc a) b,
  bit_and-bitwise (suc a / 2) (b / 2),
  more_fuel (λ y. 0) min (suc a / 2) a (suc a / 2) (b / 2) (omega arith) (omega arith),
)

bit_at-suc : (w k : ℕ) → bit_at w (suc k) ≡ bit_at (w / 2) k
bit_at-suc w k =
    ap (λ (t : ℕ). t % 2)
      (ap (λ (t : ℕ). w / t) (pow-succ' 2 k) ∙ sym (div-div-eq-div-mul w 2 (2 ^ k)))

pub bit_at-bit_or : (k a b : ℕ) → bit_at (bit_or a b) k ≡ max (bit_at a k) (bit_at b k)
bit_at-bit_or zero a b = omega (arith, bit_or_halves a b)
bit_at-bit_or (suc k) a b =
    let half : bit_or a b / 2 ≡ bit_or (a / 2) (b / 2) = omega (arith, bit_or_halves a b) in
    rw (bit_at-suc (bit_or a b) k, bit_at-suc a k, bit_at-suc b k, half)
      (bit_at-bit_or k (a / 2) (b / 2))

pub bit_at-bit_and : (k a b : ℕ) → bit_at (bit_and a b) k ≡ min (bit_at a k) (bit_at b k)
bit_at-bit_and zero a b = omega (arith, bit_and_halves a b)
bit_at-bit_and (suc k) a b =
    let half : bit_and a b / 2 ≡ bit_and (a / 2) (b / 2) = omega (arith, bit_and_halves a b) in
    rw (bit_at-suc (bit_and a b) k, bit_at-suc a k, bit_at-suc b k, half)
      (bit_at-bit_and k (a / 2) (b / 2))

bit_at-zero : (k : ℕ) → bit_at 0 k ≡ 0
bit_at-zero k = rw zero-div

-- The bits of `1 << k`.
pub bit_at-pow : (k j : ℕ) → bit_at (2 ^ k) j ≡ (if k == j then 1 else 0)
bit_at-pow zero zero = refl
bit_at-pow zero (suc j) = rw (bit_at-suc 1 j) (ground (arith, bit_at-zero j))
bit_at-pow (suc k) zero = ground (arith, two-pow-succ k)
bit_at-pow (suc k) (suc j) =
    let half : 2 ^ suc k / 2 ≡ 2 ^ k = omega (arith, two-pow-succ k) in
    rw (bit_at-suc (2 ^ suc k) j, half) (ground (arith, bit_at-pow k j))

-- The bits of `~w` in `n` bits.
pub bit_at-not : (j n w : ℕ) → j < n → w < 2 ^ n → bit_at (2 ^ n - 1 - w) j ≡ 1 - bit_at w j
bit_at-not zero zero w p h = absurd (omega arith)
bit_at-not zero (suc n) w p h = omega (arith, two-pow-succ n)
bit_at-not (suc j) zero w p h = absurd (omega arith)
bit_at-not (suc j) (suc n) w p h =
    let half : (2 ^ suc n - 1 - w) / 2 ≡ 2 ^ n - 1 - w / 2 = omega (arith, two-pow-succ n) in
    rw (bit_at-suc (2 ^ suc n - 1 - w) j, bit_at-suc w j, half)
      (bit_at-not j n (w / 2) (omega arith) (omega (arith, two-pow-succ n)))

pub pow_pos : (k : ℕ) → 0 < 2 ^ k
pow_pos k = one-le-pow k 2 (omega arith)

-- A mask that is a multiple of a power of two leaves a multiple of it.
pub bit_and_multiple : (k a b q : ℕ) → b ≡ q * 2 ^ k → (p : ℕ) × (bit_and a b ≡ p * 2 ^ k)
bit_and_multiple zero a b q e = (bit_and a b, omega arith)
bit_and_multiple (suc k) a b q e =
    let double : (x : ℕ) → x * 2 ^ suc k ≡ x * 2 ^ k * 2 =
      λ x. ap (λ y. x * y) (pow-suc 2 k) ∙ sym (mul_assoc x (2 ^ k) 2) in
    let (p, f) = bit_and_multiple k (a / 2) (b / 2) q (omega (arith, double q)) in
    (p, omega (arith, f, bit_and_halves a b, double p, double q))
