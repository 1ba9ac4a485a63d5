-- ===== src/Str/Length.antt =====
-- Strings in memory, and the functions that scan them.
use unics.Base.{ℕ, zero, suc, ◌+◌, ◌<◌, ◌≡◌, ◌≢◌, ap, ◌∙◌, false, some, arith, ◌==◌, ne→==}
use unics.Str.Memory.{Memory}
use unics.Str.Scan.{length_from, strlen}

-- At `s` stands a string of `n` bytes with its terminator.
pub record IsString (m : Memory) (s n : ℕ) : Type 0 where
  pub ends : m (s + n) ≡ 0
  pub goes_on : (k : ℕ) → k < n → m (s + k) ≢ 0

pub IsString-head : (m : Memory) (s n : ℕ) → IsString m s (suc n) → (m s == 0) ≡ false
IsString-head m s n h = ne→== (m s) 0 (λ e. h.goes_on 0 (omega arith) (ap m (omega arith) ∙ e))

pub IsString-nil : (m : Memory) (s : ℕ) → IsString m s 0 → m s ≡ 0
IsString-nil m s h = ap m (omega arith) ∙ h.ends

pub IsString-tail : (m : Memory) (s n : ℕ) → IsString m s (suc n) → IsString m (s + 1) n
IsString-tail m s n h = record {
  ends = ap m (omega arith) ∙ h.ends;
  goes_on = λ k lt e. h.goes_on (suc k) (omega arith) (ap m (omega arith) ∙ e);
}

length_from_lem :
    (m : Memory) (fuel s n count : ℕ)
    → IsString m s n
    → n < fuel
    → length_from fuel m s count ≡ some (count + n)
unfolding length_from
length_from_lem m zero s n count h lt = absurd (omega arith)
length_from_lem m (suc fuel) s zero count h lt =
    rw (IsString-nil m s h, length_from) (ap some (omega arith))
length_from_lem m (suc fuel) s (suc n) count h lt =
    rw (IsString-head m s n h, length_from)
      (length_from_lem m fuel (s + 1) n (count + 1) (IsString-tail m s n h) (omega arith)
        ∙ ap some (omega arith))

-- On a string of `n` bytes, `strlen` returns `n` once its fuel is larger than `n`.
pub strlen_lem : (m : Memory) (fuel s n : ℕ) → IsString m s n → n < fuel → strlen fuel m s ≡ some n
strlen_lem m fuel s n h lt = length_from_lem m fuel s n 0 h lt ∙ ap some (omega arith)
