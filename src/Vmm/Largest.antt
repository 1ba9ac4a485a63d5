-- ===== src/Vmm/Largest.antt =====
-- `vmm_get_largest_free_block` measures the longest run of free pages.
use unics.Base.{
  ℕ, zero, suc, ◌+◌, ◌-◌, ◌*◌, ◌≤◌, ◌≡◌, ◌≢◌, inl, inr, refl, sym, ap, ◌∙◌, true, false, arith, ltb,
  ltb→lt, ltb→le, if◌then◌else◌, Bool-cases, if_ind, subst,
}
use unics.Vmm.Table.{PageTable, is_free, max_pages, page_size, Vmm}
use unics.Vmm.Scan.{FreeRun}
use unics.Vmm.Queries.{largest_from, get_largest_free_block}

-- Before page `i`: the last `current` pages are free, and no more; a run of `best` free pages has been
-- seen, and no longer one.
record Seen (t : PageTable) (i current best : ℕ) : Type 0 where
  inside : current ≤ i
  run : FreeRun t (i - current) current
  at_most : (s n : ℕ) → s + n ≡ i → FreeRun t s n → n ≤ current
  start : ℕ
  ends : start + best ≤ i
  best_run : FreeRun t start best
  longest : (s n : ℕ) → s + n ≤ i → FreeRun t s n → n ≤ best

true_ne_false : true ≢ false
true_ne_false h = cc

Seen-taken :
    (t : PageTable) (i current best : ℕ)
    → is_free (t i).state ≡ false
    → Seen t i current best
    → Seen t (i + 1) 0 best
Seen-taken t i current best busy v = record {
  inside = omega arith;
  run = λ j lt. absurd (omega arith);
  at_most = λ s n e r. none_ends_here s n e r;
  start = v.start;
  ends = omega (arith, v.ends);
  best_run = v.best_run;
  longest = λ s n le r. elim (Bool-cases (ltb i (s + n))) [
    | inl last ↦ omega (arith, none_ends_here s n (omega (arith, ltb→lt i (s + n) last)) r)
    | inr before ↦ v.longest s n (ltb→le i (s + n) before) r
  ];
}
  where
    none_ends_here : (s n : ℕ) → s + n ≡ i + 1 → FreeRun t s n → n ≤ 0
    none_ends_here s zero e r = omega arith
    none_ends_here s (suc n) e r =
        let same : s + n ≡ i = omega arith in
        let here : is_free (t i).state ≡ true = rw same at (r n (omega arith)) in
        absurd (true_ne_false (sym here ∙ busy))

Seen-free :
    (t : PageTable) (i current best : ℕ)
    → is_free (t i).state ≡ true
    → Seen t i current best
    → Seen t (i + 1) (current + 1) (if ltb best (current + 1) then current + 1 else best)
Seen-free t i current best here v =
    if_ind (λ b. Seen t (i + 1) (current + 1) b) (ltb best (current + 1))
      (λ h. record {
        inside = omega (arith, v.inside);
        run = longer;
        at_most = capped;
        start = i - current;
        ends = omega (arith, v.inside);
        best_run = λ j lt. longer' j lt;
        longest = λ s n le r.
            all_capped (current + 1) (omega arith) (omega (arith, ltb→lt best (current + 1) h)) s n
              le r;
      })
      (λ h. record {
        inside = omega (arith, v.inside);
        run = longer;
        at_most = capped;
        start = v.start;
        ends = omega (arith, v.ends);
        best_run = v.best_run;
        longest = λ s n le r. all_capped best (ltb→le best (current + 1) h) (omega arith) s n le r;
      })
  where
    longer' : FreeRun t (i - current) (current + 1)
    longer' j lt = elim (Bool-cases (ltb j current)) [
      | inl old ↦ v.run j (ltb→lt j current old)
      | inr new ↦
          let same : i ≡ i - current + j = omega (arith, ltb→le j current new, v.inside) in
          ap (λ p. is_free (t p).state) (sym same) ∙ here
    ]

    longer : FreeRun t (i + 1 - (current + 1)) (current + 1)
    longer j lt = ap (λ p. is_free (t (p + j)).state) (omega arith) ∙ longer' j lt

    capped : (s n : ℕ) → s + n ≡ i + 1 → FreeRun t s n → n ≤ current + 1
    capped s zero e r = omega arith
    capped s (suc n) e r = omega (arith, v.at_most s n (omega arith) (λ j lt. r j (omega arith)))

    all_capped :
        (b : ℕ) → current + 1 ≤ b → best ≤ b → (s n : ℕ) → s + n ≤ i + 1 → FreeRun t s n → n ≤ b
    all_capped b le le' s n hi r = elim (Bool-cases (ltb i (s + n))) [
      | inl last ↦ omega (arith, capped s n (omega (arith, ltb→lt i (s + n) last)) r)
      | inr before ↦ omega (arith, v.longest s n (ltb→le i (s + n) before) r)
    ]

largest_from-Seen :
    (t : PageTable) (k i current best : ℕ)
    → Seen t i current best
    → (last : ℕ) × Seen t (i + k) last (largest_from t k i current best)
unfolding largest_from
largest_from-Seen t zero i current best v =
    let same : i ≡ i + 0 = omega arith in (current, subst (λ p. Seen t p current best) same v)
largest_from-Seen t (suc k) i current best v = elim (Bool-cases (is_free (t i).state)) [
  | inl here ↦
      let same : i + 1 + k ≡ i + suc k = omega arith in
      rw (here, largest_from)
        (rw (← same)
          (largest_from-Seen t k (i + 1) (current + 1) _ (Seen-free t i current best here v)))
  | inr busy ↦
      let same : i + 1 + k ≡ i + suc k = omega arith in
      rw (busy, largest_from)
        (rw (← same) (largest_from-Seen t k (i + 1) 0 best (Seen-taken t i current best busy v)))
]

-- `vmm_get_largest_free_block` returns the size of some run of free pages of the table, and no run of
-- free pages of the table is longer.
pub get_largest_free_block_lem :
    (s : Vmm)
    → (start n : ℕ) × (get_largest_free_block s ≡ n * page_size)
      × (start + n ≤ max_pages)
      × FreeRun s.page_table start n
      × ((start' n' : ℕ) → start' + n' ≤ max_pages → FreeRun s.page_table start' n' → n' ≤ n)
unfolding get_largest_free_block
get_largest_free_block_lem s =
    let (last, v) = largest_from-Seen s.page_table max_pages 0 0 0 (record {
      inside = omega arith;
      run = λ j lt. absurd (omega arith);
      at_most = λ a n e r. omega arith;
      start = 0;
      ends = omega arith;
      best_run = λ j lt. absurd (omega arith);
      longest = λ a n e r. omega arith;
    }) in
    (v.start, largest_from s.page_table max_pages 0 0 0, refl, v.ends, v.best_run, v.longest)
