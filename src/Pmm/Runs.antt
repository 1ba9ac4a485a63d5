-- ===== src/Pmm/Runs.antt =====
-- Runs of pages: what `pmm_alloc_pages_zone` finds and marks in a region, and what `pmm_free_pages`
-- clears.
use unics.Base.{
  ℕ, zero, suc, ◌+◌, ◌≤◌, ◌<◌, ◌≡◌, ◌≢◌, ◌⊎◌, inl, inr, refl, true, false, none, some, arith, ltb,
  ◌==◌, if◌then◌else◌, ==→eq, ==→ne, Bool-cases, ltb→lt,
}
use unics.Pmm.Bitmap.{Bitmap, test_bit_64}
use unics.Pmm.Region.{find_run, set_run, clear_run}
use unics.Pmm.Laws.{in_run, test_bit-set_run, test_bit-clear_run}

-- Every page of a run is free.
abbrev pub AllFree : Bitmap → ℕ → ℕ → Type 0
AllFree bitmap start n = (j : ℕ) → in_run start n j ≡ true → test_bit_64 bitmap j ≡ false

-- The state of the scan at page `i`: the last `consecutive` pages are free, they begin at
-- `start_page`, and no free run of `count` pages begins before them.
record Scanned (bitmap : Bitmap) (count i consecutive start_page : ℕ) : Type 0 where
  short : consecutive < count
  begins : 0 < consecutive → start_page + consecutive ≡ i
  free : 0 < consecutive → AllFree bitmap start_page consecutive
  earlier : (s : ℕ) → s + consecutive < i → ¬ AllFree bitmap s count

module _ (bitmap : Bitmap) (count i consecutive start_page : ℕ)
    (v : Scanned bitmap count i consecutive start_page) where
  abbrev start : ℕ
  start = if consecutive == 0 then i else start_page

  start_lem : start + consecutive ≡ i
  start_lem = ground (arith, v.begins)

  longer_free : test_bit_64 bitmap i ≡ false → AllFree bitmap start (consecutive + 1)
  longer_free h j r = elim (Bool-cases (j == i)) [
    | inl e ↦ rw (==→eq j i e) h
    | inr ne ↦ elim (Bool-cases (consecutive == 0)) [
      | inl z ↦ ground arith
      | inr nz ↦
          let pos : 0 < consecutive = omega (arith, ==→ne consecutive 0 nz) in
          v.free pos j (ground (arith, v.begins pos))
    ]
  ]

  longer-Scanned :
      test_bit_64 bitmap i ≡ false
      → consecutive + 1 ≢ count
      → Scanned bitmap count (i + 1) (consecutive + 1) start
  longer-Scanned h ne = record {
    short = omega (arith, v.short);
    begins = λ _. omega (arith, start_lem);
    free = λ _. longer_free h;
    earlier = λ s p. v.earlier s (omega arith);
  }

  anew-Scanned : test_bit_64 bitmap i ≡ true → Scanned bitmap count (i + 1) 0 start_page
  anew-Scanned h = record {
    short = omega (arith, v.short);
    begins = λ p. absurd (omega arith);
    free = λ p. absurd (omega arith);
    earlier = λ s p all. elim (Bool-cases (ltb (s + consecutive) i)) [
      | inl old ↦ v.earlier s (ltb→lt _ _ old) all
      | inr new ↦ cc (all i (ground (arith, v.short)))
    ];
  }

-- The scan finds a free run of `count` pages below page `n`, or there is none.
find_run_from :
    (bitmap : Bitmap) (count k i consecutive start_page n : ℕ)
    → i + k ≡ n
    → Scanned bitmap count i consecutive start_page
    → ((s : ℕ) × (find_run bitmap count k i consecutive start_page ≡ some s)
        × (s + count ≤ n)
        × AllFree bitmap s count)
      ⊎ ((find_run bitmap count k i consecutive start_page ≡ none)
          × ((s : ℕ) → s + count ≤ n → ¬ AllFree bitmap s count))
unfolding find_run
find_run_from bitmap count zero i consecutive start_page n e v =
    inr (refl, λ s p. v.earlier s (omega (arith, v.short)))
find_run_from bitmap count (suc k) i consecutive start_page n e v =
    elim (Bool-cases (test_bit_64 bitmap i)) [
      | inl used ↦
          rw (used, find_run)
            (find_run_from bitmap count k (i + 1) 0 start_page n (omega arith)
              (anew-Scanned bitmap count i consecutive start_page v used))
      | inr free ↦ elim (Bool-cases (consecutive + 1 == count)) [
        | inl hit ↦
            let size = ==→eq _ _ hit in
            inl (
              start bitmap count i consecutive start_page v,
              rw (free, hit, find_run),
              omega (arith, start_lem bitmap count i consecutive start_page v),
              rw (← size) (longer_free bitmap count i consecutive start_page v free),
            )
        | inr miss ↦
            rw (free, miss, find_run)
              (find_run_from bitmap count k (i + 1) (consecutive + 1)
                (start bitmap count i consecutive start_page v) n (omega arith)
                (longer-Scanned bitmap count i consecutive start_page v free (==→ne _ _ miss)))
      ]
    ]

-- The search for `count` pages in a row, at least one, among the first `n` pages of a bitmap gives
-- the first page of a run inside these whose pages are all free, and fails exactly when there is no
-- such run.
pub find_run_cases :
    (bitmap : Bitmap) (count n : ℕ)
    → 0 < count
    → ((s : ℕ) × (find_run bitmap count n 0 0 0 ≡ some s)
        × (s + count ≤ n)
        × AllFree bitmap s count)
      ⊎ ((find_run bitmap count n 0 0 0 ≡ none)
          × ((s : ℕ) → s + count ≤ n → ¬ AllFree bitmap s count))
find_run_cases bitmap count n pos = find_run_from bitmap count n 0 0 0 n (omega arith) (record {
  short = pos;
  begins = λ p. absurd (omega arith);
  free = λ p. absurd (omega arith);
  earlier = λ s p. absurd (omega arith);
})

-- Clearing a run that was free before it was set gives back the old bitmap, bit by bit.
pub clear_run-set_run :
    (bitmap : Bitmap) (start n j : ℕ)
    → AllFree bitmap start n
    → test_bit_64 (clear_run n start (set_run n start bitmap)) j ≡ test_bit_64 bitmap j
clear_run-set_run bitmap start n j free = ground (
  arith,
  test_bit-clear_run n start (set_run n start bitmap) j,
  test_bit-set_run n start bitmap j,
  free j,
)
