-- ===== src/Str/Tests.antt =====
-- The theorems on strings at the string "ab" at address 20.
use unics.Base.{ℕ, zero, suc, ◌+◌, ◌<◌, ◌≢◌, refl, arith, ◌==◌, if◌then◌else◌}
use unics.Str.Memory.{Memory, memmove}
use unics.Str.Length.{IsString}
use unics.Str.Move.{Copied, memmove-Copied}

abbrev memory : Memory
memory p = if p == 20 then 97 else if p == 21 then 98 else 0

ab : IsString memory 20 2
ab = record { ends = refl; goes_on = λ k lt. goes_on_at k lt }
  where
    goes_on_at : (k : ℕ) → k < 2 → memory (20 + k) ≢ 0
    goes_on_at zero lt = omega arith
    goes_on_at (suc zero) lt = omega arith
    goes_on_at (suc (suc k)) lt = absurd (omega arith)

-- two bytes, to a place that overlaps theirs
memmove-Copied_example : Copied 21 20 2 memory (memmove 21 20 2 memory)
memmove-Copied_example = memmove-Copied 21 20 2 memory
