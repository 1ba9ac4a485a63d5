-- ===== src/Base/Table.antt =====
-- A C array of fixed size as a function of its index, and counting the entries that pass a test.
use Prim.Native.Nat.{ℕ, zero, suc, ◌+◌, ◌≤◌, ◌<◌}
use mathlib.Core.Path.{◌≡◌, refl, sym, ap, ◌∙◌, fun_ext}
use mathlib.Core.Logic.{◌≢◌, inl, inr}
use mathlib.Core.Bool.{Bool, true, false}
use native.Mathlib.Omega.{arith}
use unics.Base.Tests.{◌==◌, if◌then◌else◌, Bool-cases, ==→eq}

-- `t[i] = v`
abbrev pub update {ℓ} : {A : Type ℓ} → (ℕ → A) → ℕ → A → ℕ → A
update t i v j = if i == j then v else t j

pub update_self {ℓ} : {A : Type ℓ} (t : ℕ → A) (i : ℕ) (v : A) → update t i v i ≡ v
update_self t i v = ground arith

pub update_ne {ℓ} : {A : Type ℓ} (t : ℕ → A) (i j : ℕ) (v : A) → i ≢ j → update t i v j ≡ t j
update_ne t i j v h = ground arith

-- How many of the indices below `n` hold `true`.
abbrev pub count : ℕ → (ℕ → Bool) → ℕ
count zero t = 0
count (suc n) t = if t n then suc (count n t) else count n t

pub count-le : (n : ℕ) (t : ℕ → Bool) → count n t ≤ n
count-le zero t = omega arith
count-le (suc n) t = ground (arith, count-le n t)

pub count-update_above :
    (n i : ℕ) (t : ℕ → Bool) (b : Bool) → n ≤ i → count n (update t i b) ≡ count n t
count-update_above zero i t b h = refl
count-update_above (suc n) i t b h = ground (arith, count-update_above n i t b (omega arith))

-- Clearing a set entry takes one off the count.
pub count-update-false :
    (n i : ℕ) (t : ℕ → Bool) → i < n → t i ≡ true → count n (update t i false) + 1 ≡ count n t
count-update-false zero i t h e = absurd (omega arith)
count-update-false (suc n) i t h e =
    ground (arith, count-update_above n i t false, count-update-false n i t)

pub count-update-true :
    (n i : ℕ) (t : ℕ → Bool) → i < n → t i ≡ false → count n (update t i true) ≡ count n t + 1
count-update-true zero i t h e = absurd (omega arith)
count-update-true (suc n) i t h e =
    ground (arith, count-update_above n i t true, count-update-true n i t)

pub update_same {ℓ} : {A : Type ℓ} (t : ℕ → A) (i : ℕ) (v : A) → t i ≡ v → update t i v ≡ t
update_same t i v h = fun_ext (λ j. at_index j)
  where
    at_index : (j : ℕ) → update t i v j ≡ t j
    at_index j = elim (Bool-cases (i == j)) [
      | inl e ↦ rw e (sym h ∙ ap t (==→eq i j e))
      | inr ne ↦ rw ne
    ]
