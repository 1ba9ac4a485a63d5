-- ===== src/Pmm/Blocks.antt =====
-- `pmm_alloc_pages_zone` and `pmm_free_pages` on the list of regions, and small ranges in
-- `pmm_add_region`.
use mathlib.Core.Option.{some-injective}
use unics.Base.{
  ℕ, ◌+◌, ◌-◌, ◌*◌, ◌%◌, ◌^◌, ◌≤◌, ◌<◌, ◌≡◌, inl, inr, refl, ap, true, not, ◌||◌, some, List, [],
  ◌∷◌, arith, ◌==◌, Bool-cases, Option-cases,
}
use unics.Pmm.Bitmap.{test_bit_64}
use unics.Pmm.Region.{
  Region, Zone, same_zone, contains, all_allocated, set_run, is_page_aligned, page_align_up,
  page_size,
}
use unics.Pmm.Manager.{
  Pmm, ok, fail, Memory, add_region, region_pages, alloc_run, mark_run, free_run, free_pages,
  find_region, change_region, start_page,
}
use unics.Pmm.Laws.{test_bit-set_run, all_allocated_complete}
use unics.Pmm.Runs.{AllFree, find_run_cases, clear_run-set_run}

-- A region in which exactly the pages `s`, …, `s + count - 1` have become allocated.
pub record TakesRun (r r' : Region) (s count : ℕ) : Type 0 where
  pub taken : (k : ℕ) → k < count → test_bit_64 r'.bitmap (s + k) ≡ true
  pub below : (j : ℕ) → j < s → test_bit_64 r'.bitmap j ≡ test_bit_64 r.bitmap j
  pub above : (j : ℕ) → s + count ≤ j → test_bit_64 r'.bitmap j ≡ test_bit_64 r.bitmap j
  pub same_base : r'.base ≡ r.base
  pub same_pages : r'.pages ≡ r.pages
  pub same_size : r'.bitmap_size ≡ r.bitmap_size
  pub same_hint : r'.last_alloc ≡ r.last_alloc
  pub zone_kept : r'.zone ≡ r.zone

mark_run-TakesRun : (r : Region) (s count : ℕ) → TakesRun r (mark_run r s count) s count
mark_run-TakesRun r s count = record {
  taken = λ k h. ground (arith, test_bit-set_run count s r.bitmap (s + k));
  below = λ j h. ground (arith, test_bit-set_run count s r.bitmap j);
  above = λ j h. ground (arith, test_bit-set_run count s r.bitmap j);
  same_base = refl;
  same_pages = refl;
  same_size = refl;
  same_hint = refl;
  zone_kept = refl;
}

-- What an allocation of `count` pages in a zone should do to the regions: in the first region of the
-- zone that has a free run of that length, such a run and nothing else becomes allocated, and the
-- address of its first page is returned; without such a region nothing changes and the result is NULL.
pub data Marks (count : ℕ) (zone : Zone) : List Region → ℕ → List Region → Type 0 where
  exhausted : Marks count zone [] 0 []
  marked :
      {r r' : Region} {rs : List Region} (s : ℕ)
      → same_zone r.zone zone ≡ true
      → s + count ≤ r.pages
      → AllFree r.bitmap s count
      → TakesRun r r' s count
      → Marks count zone (r ∷ rs) ((r.base + s * 4096) % 2 ^ 32) (r' ∷ rs)
  skipped :
      {r : Region} {rs rs' : List Region} {page : ℕ}
      → (same_zone r.zone zone ≡ true → (s : ℕ) → s + count ≤ r.pages → ¬ AllFree r.bitmap s count)
      → Marks count zone rs page rs'
      → Marks count zone (r ∷ rs) page (r ∷ rs')

-- The loop of `pmm_alloc_pages_zone` does what an allocation should do, for every list of regions and
-- every count but 0.
pub alloc_run-Marks :
    (count : ℕ) (zone : Zone) (rs : List Region)
    → 0 < count
    → Marks count zone rs (alloc_run count zone rs).0 (alloc_run count zone rs).1
unfolding alloc_run
alloc_run-Marks count zone [] pos = exhausted
alloc_run-Marks count zone (r ∷ rs) pos = elim (Bool-cases (same_zone r.zone zone)) [
  | inr other ↦ rw other (skipped (λ same. cc) (alloc_run-Marks count zone rs pos))
  | inl same ↦ rw same (elim (find_run_cases r.bitmap count r.pages pos) [
    | inl (s, e, fits, free) ↦ rw e (marked s same fits free (mark_run-TakesRun r s count))
    | inr (e, full) ↦ rw e (skipped (λ _. full) (alloc_run-Marks count zone rs pos))
  ])
]

-- `pmm_free_pages` on a region changes it only if every page of the range is an allocated page of
-- the region; then these pages are free, and the bits of all other pages are as before.
free_run_unchanged :
    (r : Region) (start count : ℕ)
    → (free_run r start count).0 ≡ fail
    → (free_run r start count).1 ≡ r
free_run_unchanged r start count h = ground (arith)

-- Freeing a run just after it was allocated succeeds, and gives every page of the region the state
-- that it had before the allocation.
pub free_run-mark_run :
    (r : Region) (start count j : ℕ)
    → AllFree r.bitmap start count
    → start + count ≤ r.pages
    → r.pages < 2 ^ 32
    → ((free_run (mark_run r start count) start count).0 ≡ ok)
      × (test_bit_64 (free_run (mark_run r start count) start count).1.bitmap j
          ≡ test_bit_64 r.bitmap j)
free_run-mark_run r start count j free fits small =
    let all : all_allocated (set_run count start r.bitmap) count start ≡ true =
      all_allocated_complete (set_run count start r.bitmap) count start
        (λ k h. ground (arith, test_bit-set_run count start r.bitmap k)) in
    (ground (arith, all), ground (arith, all, clear_run-set_run r.bitmap start count j free))

change_region_same :
    (f : Region → Region) (addr : ℕ) (rs : List Region) (r : Region)
    → find_region rs addr ≡ some r
    → f r ≡ r
    → change_region f addr rs ≡ rs
unfolding change_region find_region
change_region_same f addr [] r e h = refl
change_region_same f addr (q ∷ rs) r e h = elim (Bool-cases (contains q addr)) [
  | inl here ↦
      let same : q ≡ r = some-injective q r (rw here at e) in rw (here, same) (ap (λ x. x ∷ rs) h)
  | inr there ↦ rw there (ap (λ l. q ∷ l) (change_region_same f addr rs r (rw there at e) h))
]

-- A call of `pmm_free_pages` that fails changes nothing: an allocator that is not set up, a NULL or
-- unaligned address, an address or a range outside the regions, or a page that is free already.
pub free_pages_fails :
    (target count : ℕ) (s : Pmm)
    → (free_pages target count s).0 ≡ fail
    → (free_pages target count s).1 ≡ s
unfolding free_pages
free_pages_fails target count s h =
    elim (Bool-cases (not s.initialized || (target == 0 || count == 0))) [
      | inl bad ↦ rw bad
      | inr good ↦ elim (Bool-cases (not (is_page_aligned target))) [
        | inl odd ↦ rw (good, odd)
        | inr even ↦ elim (Option-cases (find_region s.regions target)) [
          | inl e ↦ rw (good, even, e)
          | inr (r, e) ↦
              let failed : (free_run r (start_page r target) count).0 ≡ fail =
                rw (good, even, e) at h in
              let kept =
                change_region_same (λ q. (free_run q (start_page q target) count).1) target
                  s.regions r e (free_run_unchanged r (start_page r target) count failed) in
              rw (good, even, e) (ap (λ (l : List Region). record s { regions = l }) kept)
        ]
      ]
    ]

-- A range that ends before the first page boundary above its start holds no page. `pmm_add_region`
-- does not refuse it: the size left wraps around, and a region of more than a million pages is
-- added.
pub add_region_underflow :
    (m : Memory) (base size : ℕ) (zone : Zone) (s : Pmm)
    → s.initialized ≡ true
    → m.descriptor ≡ true
    → m.bitmap ≡ true
    → base ≤ 2 ^ 32 - page_size
    → base + size < page_align_up base
    → ((add_region m base size zone s).0 ≡ ok) × (2 ^ 20 - 2 ≤ region_pages base size)
unfolding add_region
add_region_underflow m base size zone s ready d b low small =
    let many : 2 ^ 20 - 2 ≤ region_pages base size = omega arith in (ground (arith, many), many)
