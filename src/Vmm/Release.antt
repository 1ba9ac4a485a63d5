-- ===== src/Vmm/Release.antt =====
-- `vmm_free` gives back what `vmm_alloc_internal` marked.
use unics.Base.{
  ℕ, zero, suc, ◌+◌, ◌≤◌, ◌<◌, ◌≡◌, inl, inr, refl, sym, ap, ◌∙◌, Bool, true, false, ◌&&◌, arith,
  ltb, leb, ltb→lt, ltb→le, ◌==◌, ==→eq, ==→ne, if◌then◌else◌, Bool-cases, leb→le, leb→lt, if_ind,
}
use unics.Base.Table.{update, update_self, update_ne}
use unics.Vmm.Table.{
  PageTable, used, is_used, mark_from, free_from, free_block, released, max_pages,
}

-- What the marking loop leaves of pages `i + j` to `i + j + k` in a table.
record Marked (i j k : ℕ) (t t' : PageTable) : Type 0 where
  in_use : (p : ℕ) → i + j ≤ p → p < i + j + k → is_used (t' p).state ≡ true
  below : (p : ℕ) → i + j ≤ p → p < i + j + k → released (t' p) ≡ released (t p)
  before : (p : ℕ) → p < i + j → t' p ≡ t p
  behind : (p : ℕ) → i + j + k ≤ p → t' p ≡ t p

mark_from-Marked :
    (i n tag : ℕ) (kernel : Bool) (k j : ℕ) (t : PageTable)
    → Marked i j k t (mark_from i n tag kernel k j t)
unfolding mark_from
mark_from-Marked i n tag kernel zero j t = record {
  in_use = λ p lo hi. absurd (omega arith);
  below = λ p lo hi. absurd (omega arith);
  before = λ p h. refl;
  behind = λ p h. refl;
}
mark_from-Marked i n tag kernel (suc k) j t =
    let page = record (t (i + j)) {
      state = used;
      alloc_pages = if j == 0 then n else 0;
      tag = tag;
      is_kernel = kernel;
    } in
    let rest = mark_from-Marked i n tag kernel k (j + 1) (update t (i + j) page) in
    record {
      in_use = λ p lo hi. elim (Bool-cases (i + j == p)) [
        | inl e ↦
            ap (λ q. is_used q.state)
              (rest.before p (omega (arith, ==→eq (i + j) p e))
                ∙ ap (update t (i + j) page) (sym (==→eq (i + j) p e))
                ∙ update_self t (i + j) page)
        | inr ne ↦ rest.in_use p (omega (arith, ==→ne (i + j) p ne)) (omega arith)
      ];
      below = λ p lo hi. elim (Bool-cases (i + j == p)) [
        | inl e ↦
            ap released (
              rest.before p (omega (arith, ==→eq (i + j) p e))
              ∙ ap (update t (i + j) page) (sym (==→eq (i + j) p e))
              ∙ update_self t (i + j) page)
            ∙ ap (λ q. released (t q)) (==→eq (i + j) p e)
        | inr ne ↦
            rest.below p (omega (arith, ==→ne (i + j) p ne)) (omega arith)
            ∙ ap released (update_ne t (i + j) p page (==→ne (i + j) p ne))
      ];
      before = λ p h. rest.before p (omega arith) ∙ update_ne t (i + j) p page (omega arith);
      behind = λ p h. rest.behind p (omega arith) ∙ update_ne t (i + j) p page (omega arith);
    }

first_count :
    (i n tag : ℕ) (kernel : Bool) (k : ℕ) (t : PageTable)
    → (mark_from i n tag kernel (suc k) 0 t i).alloc_pages ≡ n
unfolding mark_from
first_count i n tag kernel k t =
    let page = record (t (i + 0)) {
      state = used;
      alloc_pages = n;
      tag = tag;
      is_kernel = kernel;
    } in
    ap (λ q. q.alloc_pages)
      ((mark_from-Marked i n tag kernel k (0 + 1) (update t (i + 0) page)).before i (omega arith)
        ∙ ap (update t (i + 0) page) (omega arith)
        ∙ update_self t (i + 0) page)

-- The loop of `vmm_free` on `k` pages in use releases these and no other.
free_from_lem :
    (k i : ℕ) (t : PageTable)
    → ((p : ℕ) → i ≤ p → p < i + k → is_used (t p).state ≡ true)
    → (p : ℕ) → free_from k i t p ≡ (if leb i p && ltb p (i + k) then released (t p) else t p)
unfolding free_from
free_from_lem zero i t all p = ground arith
free_from_lem (suc k) i t all p =
    rw (all i (omega arith) (omega arith), free_from)
      (free_from_lem k (i + 1) (update t i (released (t i)))
          (λ q lo hi.
            ap (λ x. is_used x.state) (update_ne t i q (released (t i)) (omega arith))
            ∙ all q (omega arith) (omega arith))
          p
        ∙ one_more)
  where
    one_more :
        (if leb (i + 1) p && ltb p (i + 1 + k)
          then released (update t i (released (t i)) p)
          else update t i (released (t i)) p)
        ≡ (if leb i p && ltb p (i + suc k) then released (t p) else t p)
    one_more = elim (Bool-cases (i == p)) [
      | inl e ↦ rw (← ==→eq i p e) (ground arith)
      | inr ne ↦ ground (arith, ne, ==→ne i p ne)
    ]

free_block_whole :
    (i n : ℕ) (t : PageTable)
    → is_used (t i).state ≡ true
    → (t i).alloc_pages ≡ n
    → 0 < n
    → i + n ≤ max_pages
    → free_block i t ≡ free_from n i t
free_block_whole i n t head count pos fits = rw (head, count) (ground arith)

-- Releasing a block of `n` pages just after the marking loop of `vmm_alloc_internal` has taken it gives
-- back the old table, when its pages were free pages as `vmm_init` or `vmm_free` leave them: without
-- a length, a tag or the kernel's mark.
pub free_block-mark_from :
    (i n tag : ℕ) (kernel : Bool) (t : PageTable) (p : ℕ)
    → 0 < n
    → i + n ≤ max_pages
    → ((q : ℕ) → i ≤ q → q < i + n → released (t q) ≡ t q)
    → free_block i (mark_from i n tag kernel n 0 t) p ≡ t p
free_block-mark_from i zero tag kernel t p pos fits blank = absurd (omega arith)
free_block-mark_from i (suc n) tag kernel t p pos fits blank =
    let marked = mark_from-Marked i (suc n) tag kernel (suc n) 0 t in
    let t' = mark_from i (suc n) tag kernel (suc n) 0 t in
    ap (λ f. f p)
      (free_block_whole i (suc n) t' (marked.in_use i (omega arith) (omega arith))
        (first_count i (suc n) tag kernel n t) pos fits)
    ∙ free_from_lem (suc n) i t' (λ q lo hi. marked.in_use q (omega arith) (omega arith)) p
    ∙ if_ind (λ q. q ≡ t p) (leb i p && ltb p (i + suc n))
        (λ h.
          marked.below p (omega (arith, leb→le i p (ground arith)))
            (omega (arith, ltb→lt p (i + suc n) (ground arith)))
          ∙ blank p (leb→le i p (ground arith)) (ltb→lt p (i + suc n) (ground arith)))
        (λ h. untouched marked h)
  where
    untouched :
        Marked i 0 (suc n) t (mark_from i (suc n) tag kernel (suc n) 0 t)
        → (leb i p && ltb p (i + suc n)) ≡ false
        → mark_from i (suc n) tag kernel (suc n) 0 t p ≡ t p
    untouched marked h = elim (Bool-cases (leb i p)) [
      | inr before ↦ marked.before p (omega (arith, leb→lt i p before))
      | inl from ↦ marked.behind p (omega (arith, ltb→le p (i + suc n) (ground arith)))
    ]
