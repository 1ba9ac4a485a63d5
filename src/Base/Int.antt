-- ===== src/Base/Int.antt =====
-- Integers over the native natural numbers, for the results of the C library's comparisons.
use Prim.Native.Nat.{ℕ, suc, ◌-◌, ◌<◌}
use mathlib.Core.Path.{◌≡◌, ap}
use mathlib.Core.Logic.{inl, inr}
use native.Mathlib.Omega.{arith}
use unics.Base.Tests.{leb, leb→le, leb→lt, if◌then◌else◌, Bool-cases}

pub data ℤ : Type 0 where
  pos : ℕ → ℤ
  negsuc : ℕ → ℤ

-- `a - b`
abbrev pub diff : ℕ → ℕ → ℤ
diff a b = if leb b a then pos (a - b) else negsuc (b - a - 1)

abbrev magnitude : ℤ → ℕ
magnitude (pos n) = n
magnitude (negsuc n) = n

pub diff_zero : (a b : ℕ) → diff a b ≡ pos 0 → a ≡ b
diff_zero a b e = elim (Bool-cases (leb b a)) [
  | inl h ↦ omega (arith, leb→le b a h, ap magnitude (rw h at e))
  | inr h ↦ cc (rw h at e)
]

pub diff_pos : (a b n : ℕ) → diff a b ≡ pos (suc n) → b < a
diff_pos a b n e = elim (Bool-cases (leb b a)) [
  | inl h ↦ omega (arith, leb→le b a h, ap magnitude (rw h at e))
  | inr h ↦ absurd (cc (rw h at e))
]

pub diff_negsuc : (a b n : ℕ) → diff a b ≡ negsuc n → a < b
diff_negsuc a b n e = elim (Bool-cases (leb b a)) [
  | inl h ↦ absurd (cc (rw h at e))
  | inr h ↦ leb→lt b a h
]
