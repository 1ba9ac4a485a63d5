-- ===== src/Stdlib/Sort.antt =====
-- lib/libc/stdlib.c: `qsort`. An array is a function from indices to elements, and the caller's
-- test `compare(a, b) < 0` is a parameter.
use unics.Base.{ℕ, zero, suc, ◌+◌, ◌-◌, Bool, true, false, ltb, if◌then◌else◌}
use unics.Base.Table.{update}

-- `swap_elements`
unfoldable pub swap_elements {ℓ} : {A : Type ℓ} → ℕ → ℕ → (ℕ → A) → ℕ → A
swap_elements i j t = update (update t i (t j)) j (t i)

module _ {ℓ} {A : Type ℓ} (less : A → A → Bool) where
  -- The loop of `partition`, at `j` with `k` left and the elements below `i` in their place.
  unfoldable pub partition_from : ℕ → ℕ → ℕ → ℕ → (ℕ → A) → ℕ × (ℕ → A)
  partition_from high zero i j t = (i, t)
  partition_from high (suc k) i j t = elim (less (t j) (t high)) [
    | true ↦ partition_from high k (i + 1) (j + 1) (swap_elements i j t)
    | false ↦ partition_from high k i (j + 1) t
  ]

  -- `partition`
  abbrev pub partition : ℕ → ℕ → (ℕ → A) → ℕ × (ℕ → A)
  partition low high t =
      let placed = partition_from high (high - low) low low t in
      (placed.0, swap_elements placed.0 high placed.1)

  -- `quicksort`
  unfoldable pub quicksort : ℕ → ℕ → ℕ → (ℕ → A) → ℕ → A
  quicksort zero low high t = t
  quicksort (suc fuel) low high t = elim (ltb low high) [
    | false ↦ t
    | true ↦
        let split = partition low high t in
        let left = quicksort fuel low (split.0 - 1) split.1 in
        quicksort fuel (split.0 + 1) high (if ltb 0 split.0 then left else split.1)
  ]

  -- `qsort`
  unfoldable pub qsort : ℕ → (ℕ → A) → ℕ → A
  qsort num t = if ltb 1 num then quicksort num 0 (num - 1) t else t
