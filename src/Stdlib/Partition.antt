-- ===== src/Stdlib/Partition.antt =====
-- `partition` of `qsort` puts the pivot in its place.
use unics.Base.{
  ℕ, zero, suc, ◌+◌, ◌-◌, ◌≤◌, ◌<◌, ◌≡◌, ◌≢◌, inl, inr, sym, ap, ◌∙◌, Bool, true, false, arith,
  ◌==◌, ==→eq, ==→ne, Bool-cases, subst,
}
use unics.Base.Table.{update, update_self, update_ne}
use unics.Stdlib.Sort.{swap_elements, partition_from, partition}

module _ {ℓ} {A : Type ℓ} where
  swap-right : (i j : ℕ) (t : ℕ → A) → swap_elements i j t j ≡ t i
  unfolding swap_elements
  swap-right i j t = update_self (update t i (t j)) j (t i)

  swap-left : (i j : ℕ) (t : ℕ → A) → swap_elements i j t i ≡ t j
  unfolding swap_elements
  swap-left i j t = elim (Bool-cases (j == i)) [
    | inl e ↦ rw e (ap t (sym (==→eq j i e)))
    | inr ne ↦ rw ne (update_self t i (t j))
  ]

  swap-other : (i j k : ℕ) (t : ℕ → A) → i ≢ k → j ≢ k → swap_elements i j t k ≡ t k
  unfolding swap_elements
  swap-other i j k t ne ne' = update_ne (update t i (t j)) j k (t i) ne' ∙ update_ne t i k (t j) ne

module _ {ℓ} {A : Type ℓ} (less : A → A → Bool) where
  -- Between rounds of the loop: below `i` stand smaller elements than the pivot, from `i` to `j`
  -- others.
  record Split (low high i j : ℕ) (t : ℕ → A) : Type 0 where
    lo : low ≤ i
    mid : i ≤ j
    smaller : (k : ℕ) → low ≤ k → k < i → less (t k) (t high) ≡ true
    larger : (k : ℕ) → i ≤ k → k < j → less (t k) (t high) ≡ false

  Split-next :
      (low high i j : ℕ) (t : ℕ → A)
      → j < high
      → less (t j) (t high) ≡ true
      → Split low high i j t
      → Split low high (i + 1) (j + 1) (swap_elements i j t)
  Split-next low high i j t lt is_less inv =
      let pivot : swap_elements i j t high ≡ t high =
        swap-other i j high t (omega (arith, inv.mid)) (omega arith) in
      record {
        lo = omega (arith, inv.lo);
        mid = omega (arith, inv.mid);
        smaller = λ k a b. rw pivot (elim (Bool-cases (i == k)) [
          | inl e ↦
              ap (λ x. less x (t high))
                (ap (swap_elements i j t) (sym (==→eq i k e)) ∙ swap-left i j t)
              ∙ is_less
          | inr ne ↦
              ap (λ x. less x (t high))
                (swap-other i j k t (==→ne i k ne) (omega (arith, inv.mid, ==→ne i k ne)))
              ∙ inv.smaller k a (omega (arith, ==→ne i k ne))
        ]);
        larger = λ k a b. rw pivot (elim (Bool-cases (j == k)) [
          | inl e ↦
              ap (λ x. less x (t high))
                (ap (swap_elements i j t) (sym (==→eq j k e)) ∙ swap-right i j t)
              ∙ inv.larger i (omega arith) (omega (arith, ==→eq j k e))
          | inr ne ↦
              ap (λ x. less x (t high)) (swap-other i j k t (omega arith) (==→ne j k ne))
              ∙ inv.larger k (omega arith) (omega (arith, ==→ne j k ne))
        ]);
      }

  Split-stay :
      (low high i j : ℕ) (t : ℕ → A)
      → less (t j) (t high) ≡ false
      → Split low high i j t
      → Split low high i (j + 1) t
  Split-stay low high i j t not_less inv = record {
    lo = inv.lo;
    mid = omega (arith, inv.mid);
    smaller = inv.smaller;
    larger = λ k a b. elim (Bool-cases (j == k)) [
      | inl e ↦ ap (λ m. less (t m) (t high)) (sym (==→eq j k e)) ∙ not_less
      | inr ne ↦ inv.larger k a (omega (arith, ==→ne j k ne))
    ];
  }

  partition_from-Split :
      (low high k i j : ℕ) (t : ℕ → A)
      → j + k ≡ high
      → Split low high i j t
      → Split low high
          (partition_from less high k i j t).0
          high
          (partition_from less high k i j t).1
  unfolding partition_from
  partition_from-Split low high zero i j t e inv =
      let same : j ≡ high = omega arith in subst (λ x. Split low high i x t) same inv
  partition_from-Split low high (suc k) i j t e inv = elim (Bool-cases (less (t j) (t high))) [
    | inl is_less ↦
        rw (is_less, partition_from)
          (partition_from-Split low high k (i + 1) (j + 1) (swap_elements i j t) (omega arith)
            (Split-next low high i j t (omega arith) is_less inv))
    | inr not_less ↦
        rw (not_less, partition_from)
          (partition_from-Split low high k i (j + 1) t (omega arith)
            (Split-stay low high i j t not_less inv))
  ]

-- `partition` returns an index from `low` to `high` such that the elements in front of it (from
-- `low` on) are smaller than the element there, and those behind it (up to `high`) are not.
pub partition_lem {ℓ} :
    {A : Type ℓ} (less : A → A → Bool) (low high : ℕ) (t : ℕ → A)
    → low ≤ high
    → (low ≤ (partition less low high t).0)
      × ((partition less low high t).0 ≤ high)
      × ((k : ℕ)
          → low ≤ k
          → k < (partition less low high t).0
          → less
              ((partition less low high t).1 k)
              ((partition less low high t).1 (partition less low high t).0)
            ≡ true)
      × ((k : ℕ)
          → (partition less low high t).0 < k
          → k ≤ high
          → less
              ((partition less low high t).1 k)
              ((partition less low high t).1 (partition less low high t).0)
            ≡ false)
partition_lem {A = A} less low high t le =
    let placed = partition_from less high (high - low) low low t in
    placed_lem placed.0 placed.1 (
      partition_from-Split less low high (high - low) low low t (omega arith) (record {
        lo = omega arith;
        mid = omega arith;
        smaller = λ k a b. absurd (omega arith);
        larger = λ k a b. absurd (omega arith);
      }))
  where
    placed_lem :
        (i : ℕ) (u : ℕ → A)
        → Split less low high i high u
        → (low ≤ i)
          × (i ≤ high)
          × ((k : ℕ)
              → low ≤ k
              → k < i
              → less (swap_elements i high u k) (swap_elements i high u i) ≡ true)
          × ((k : ℕ)
              → i < k
              → k ≤ high
              → less (swap_elements i high u k) (swap_elements i high u i) ≡ false)
    placed_lem i u inv = rw (swap-left i high u) (
      inv.lo,
      inv.mid,
      λ k a b.
          ap (λ x. less x (u high)) (swap-other i high k u (omega arith) (omega (arith, inv.mid)))
          ∙ inv.smaller k a b,
      λ k a b. elim (Bool-cases (high == k)) [
        | inl e ↦
            ap (λ x. less x (u high))
              (ap (swap_elements i high u) (sym (==→eq high k e)) ∙ swap-right i high u)
            ∙ inv.larger i (omega arith) (omega (arith, ==→eq high k e))
        | inr ne ↦
            ap (λ x. less x (u high)) (swap-other i high k u (omega arith) (==→ne high k ne))
            ∙ inv.larger k (omega arith) (omega (arith, ==→ne high k ne))
      ],
    )
