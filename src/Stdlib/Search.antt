-- ===== src/Stdlib/Search.antt =====
-- lib/libc/stdlib.c: `bsearch`. The caller's `compare`, applied to the key and the element at an
-- index, is a parameter.
use unics.Base.{
  ℕ, zero, suc, ◌+◌, ◌-◌, ◌/◌, ◌≤◌, ◌<◌, ◌≡◌, ◌≢◌, ◌⊎◌, inl, inr, refl, true, false, Option, none,
  some, arith, ltb, ltb→lt, ltb→le, Bool-cases,
}
use unics.Base.Int.{ℤ, pos, negsuc}

module _ (compare : ℕ → ℤ) where
  -- The loop of `bsearch` between `low` and `high`. Each round makes the distance smaller.
  unfoldable pub search_between : ℕ → ℕ → ℕ → Option ℕ
  search_between zero low high = none
  search_between (suc fuel) low high = elim (ltb low high) [
    | false ↦ none
    | true ↦
        let mid = low + (high - low) / 2 in
        elim (compare mid) [
          | pos zero ↦ some mid
          | pos (suc n) ↦ search_between fuel (mid + 1) high
          | negsuc n ↦ search_between fuel low mid
        ]
  ]

  -- `bsearch`: the index of the element that it returns
  abbrev pub bsearch : ℕ → Option ℕ
  bsearch num = search_between (num + 1) 0 num

  -- The elements are in the order of `compare`: what is behind a larger element is larger than the
  -- key, and what is in front of a smaller one is smaller.
  pub record InOrder : Type 0 where
    pub upward : (i j n : ℕ) → i ≤ j → compare i ≡ negsuc n → compare j ≢ pos 0
    pub downward : (i j n : ℕ) → i ≤ j → compare j ≡ pos (suc n) → compare i ≢ pos 0

  -- What a search between `low` and `high` has to answer.
  data Answer (low high : ℕ) : Option ℕ → Type 0 where
    here : (i : ℕ) → low ≤ i → i < high → compare i ≡ pos 0 → Answer low high (some i)
    nowhere : ((i : ℕ) → low ≤ i → i < high → compare i ≢ pos 0) → Answer low high none

  widen_low :
      (low mid high n : ℕ) (o : Option ℕ)
      → InOrder
      → low ≤ mid
      → compare mid ≡ pos (suc n)
      → Answer (mid + 1) high o
      → Answer low high o
  widen_low low mid high n _ ord le e (here i lo hi eq) = here i (omega arith) hi eq
  widen_low low mid high n _ ord le e (nowhere none_in) = nowhere (λ i lo hi eq.
      elim (Bool-cases (ltb mid i)) [
        | inl behind ↦ none_in i (omega (arith, ltb→lt mid i behind)) hi eq
        | inr before ↦ ord.downward i mid n (ltb→le mid i before) e eq
      ])

  widen_high :
      (low mid high n : ℕ) (o : Option ℕ)
      → InOrder
      → mid < high
      → compare mid ≡ negsuc n
      → Answer low mid o
      → Answer low high o
  widen_high low mid high n _ ord lt e (here i lo hi eq) = here i lo (omega arith) eq
  widen_high low mid high n _ ord lt e (nowhere none_in) = nowhere (λ i lo hi eq.
      elim (Bool-cases (ltb i mid)) [
        | inl before ↦ none_in i lo (ltb→lt i mid before) eq
        | inr behind ↦ ord.upward mid i n (ltb→le i mid behind) e eq
      ])

  half_low : (low high : ℕ) → low < high → low + (high - low) / 2 < high
  half_low low high lt = omega arith

  compare_cases :
      (z : ℤ) → (z ≡ pos 0) ⊎ (((n : ℕ) × (z ≡ pos (suc n))) ⊎ ((n : ℕ) × (z ≡ negsuc n)))
  compare_cases (pos zero) = inl refl
  compare_cases (pos (suc n)) = inr (inl (n, refl))
  compare_cases (negsuc n) = inr (inr (n, refl))

  search_between-Answer :
      (fuel low high : ℕ)
      → InOrder
      → high < low + fuel
      → Answer low high (search_between fuel low high)
  unfolding search_between
  search_between-Answer zero low high ord enough = nowhere (λ i lo hi eq. absurd (omega arith))
  search_between-Answer (suc fuel) low high ord enough = elim (Bool-cases (ltb low high)) [
    | inr out ↦
        rw (out, search_between)
          (nowhere (λ i lo hi eq. absurd (omega (arith, ltb→le low high out))))
    | inl lt ↦
        let below = half_low low high (ltb→lt low high lt) in
        let mid = low + (high - low) / 2 in
        elim (compare_cases (compare mid)) [
          | inl e ↦ rw (lt, search_between, e) (here mid (omega arith) below e)
          | inr (inl (n, e)) ↦
              rw (lt, search_between, e)
                (widen_low low mid high n (search_between fuel (mid + 1) high) ord (omega arith) e
                  (search_between-Answer fuel (mid + 1) high ord (omega arith)))
          | inr (inr (n, e)) ↦
              rw (lt, search_between, e)
                (widen_high low mid high n (search_between fuel low mid) ord below e
                  (search_between-Answer fuel low mid ord (omega arith)))
        ]
  ]

-- On elements in the order of `compare`, `bsearch` returns an index below `num` whose element is
-- equal to the key, and NULL only if there is none.
pub bsearch_lem :
    (compare : ℕ → ℤ) (num : ℕ)
    → InOrder compare
    → ((i : ℕ) × (bsearch compare num ≡ some i) × (i < num) × (compare i ≡ pos 0))
      ⊎ ((bsearch compare num ≡ none) × ((i : ℕ) → i < num → compare i ≢ pos 0))
bsearch_lem compare num ord =
    read (bsearch compare num) refl
      (search_between-Answer compare (num + 1) 0 num ord (omega arith))
  where
    read :
        (o : Option ℕ)
        → bsearch compare num ≡ o
        → Answer compare 0 num o
        → ((i : ℕ) × (bsearch compare num ≡ some i) × (i < num) × (compare i ≡ pos 0))
          ⊎ ((bsearch compare num ≡ none) × ((i : ℕ) → i < num → compare i ≢ pos 0))
    read _ e (here i lo hi eq) = inl (i, e, hi, eq)
    read _ e (nowhere none_in) = inr (e, λ i hi. none_in i (omega arith) hi)
