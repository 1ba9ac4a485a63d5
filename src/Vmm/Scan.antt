-- ===== src/Vmm/Scan.antt =====
-- The search of `vmm_alloc_internal`: what it finds, and that it misses no block.
use unics.Base.{
  ℕ, zero, suc, ◌+◌, ◌-◌, ◌%◌, ◌^◌, ◌≤◌, ◌<◌, ◌≡◌, ◌⊎◌, inl, inr, refl, true, false, Option, none,
  some, arith, ltb, leb, ltb→lt, leb→le, leb→lt, ◌==◌, ==→eq, ==→ne, Bool-cases, ltb→le,
}
use unics.Vmm.Table.{
  PageTable, is_free, is_reserved, max_pages, first_taken, misaligned, next_index, find_block,
  PageState, free, used, reserved,
}
use unics.Vmm.Align.{misaligned_sound}
use mathlib.Core.Option.{some-injective}

-- The `n` pages from `s` on are free.
abbrev pub FreeRun : PageTable → ℕ → ℕ → Type 0
FreeRun t s n = (j : ℕ) → j < n → is_free (t (s + j)).state ≡ true

first_taken_cases :
    (t : PageTable) (i k j n : ℕ)
    → j + k ≡ n
    → ((m : ℕ) × (first_taken t i k j ≡ some m) × (m < n) × (is_free (t (i + m)).state ≡ false))
      ⊎ ((first_taken t i k j ≡ none)
          × ((m : ℕ) → j ≤ m → m < n → is_free (t (i + m)).state ≡ true))
unfolding first_taken
first_taken_cases t i zero j n e = inr (refl, λ m p q. absurd (omega arith))
first_taken_cases t i (suc k) j n e = elim (Bool-cases (is_free (t (i + j)).state)) [
  | inr busy ↦ inl (j, rw busy, omega arith, busy)
  | inl here ↦ elim (first_taken_cases t i k (j + 1) n (omega arith)) [
    | inl (m, eq, lt, busy) ↦ inl (m, rw here eq, lt, busy)
    | inr (eq, later) ↦ inr (
      rw here eq,
      λ m p q. elim (Bool-cases (j == m)) [
        | inl same ↦ rw (← ==→eq j m same) here
        | inr ne ↦ later m (omega (arith, ==→ne j m ne)) q
      ],
    )
  ]
]

reserved_not_free : (s : PageState) → is_reserved s ≡ true → is_free s ≡ false
reserved_not_free free h = cc
reserved_not_free used h = refl
reserved_not_free reserved h = refl

-- What `next_index` says of the pages from `i` on: a block begins at `i`; or the loop goes on at a
-- later page and, where no alignment is asked for, no block begins on the way.
data Next (t : PageTable) (n align i : ℕ) : Option ℕ → Type 0 where
  begins : FreeRun t i n → misaligned t align i ≡ false → Next t n align i none
  goes_on :
      {i' : ℕ}
      → (misaligned t align i ≡ false → i < i')
      → (misaligned t align i ≡ false → (s : ℕ) → i ≤ s → s < i' → ¬ FreeRun t s n)
      → Next t n align i (some i')

not_from :
    (t : PageTable) (n s m : ℕ) → is_free (t m).state ≡ false → s ≤ m → m < s + n → ¬ FreeRun t s n
not_from t n s m busy lo hi run =
    let e : s + (m - s) ≡ m = omega arith in
    let here : is_free (t m).state ≡ true = rw e at (run (m - s) (omega arith)) in cc

next_index-Next :
    (t : PageTable) (n align i : ℕ) → 0 < n → Next t n align i (next_index t n align i)
next_index-Next t n align i pos = elim (Bool-cases (is_reserved (t i).state)) [
  | inl held ↦ rw held (
      goes_on (λ _. omega arith)
        (λ _ s lo hi.
          not_from t n s i (reserved_not_free (t i).state held) (omega arith) (omega arith)))
  | inr open' ↦ elim (Bool-cases (misaligned t align i)) [
    | inl off ↦ rw (open', off) (goes_on (λ on. cc) (λ on. cc))
    | inr on ↦
        rw (open', on)
          (elim (first_taken_cases t i n 0 n (omega arith)) [
            | inl (j, e, lt, busy) ↦ rw e (
                goes_on (λ _. omega arith)
                  (λ _ s lo hi. not_from t n s (i + j) busy (omega arith) (omega arith)))
            | inr (e, all) ↦ rw e (begins (λ j lt. all j (omega arith) lt) on)
          ])
  ]
]

-- What a round of the search returns when `next_index` has told how to go on.
abbrev resume : PageTable → ℕ → ℕ → ℕ → ℕ → Option ℕ → Option ℕ
resume t n align fuel i none = some i
resume t n align fuel i (some i') = find_block t n align fuel i'

-- What is to be shown of a block that the search returns.
record Sound (t : PageTable) (n align r : ℕ) : Type 0 where
  within : r ≤ max_pages - n
  run : FreeRun t r n
  aligned : misaligned t align r ≡ false

Sound-step :
    (t : PageTable) (n align fuel i r : ℕ)
    → i ≤ max_pages - n
    → (o : Option ℕ) → Next t n align i o
    → ((i' : ℕ) → find_block t n align fuel i' ≡ some r → Sound t n align r)
    → resume t n align fuel i o ≡ some r
    → Sound t n align r
Sound-step t n align fuel i r lo none (begins run ok) later h =
    let same : i ≡ r = some-injective _ _ h in
    rw (← same) (record { within = lo; run = run; aligned = ok })
Sound-step t n align fuel i r lo (some i') (goes_on lt none_between) later h = later i' h

search-Sound :
    (t : PageTable) (n align fuel i r : ℕ)
    → 0 < n
    → find_block t n align fuel i ≡ some r
    → Sound t n align r
unfolding find_block
search-Sound t n align zero i r pos h = cc
search-Sound t n align (suc fuel) i r pos h = elim (Bool-cases (leb i (max_pages - n))) [
  | inr out ↦ cc (rw (out, find_block) at h)
  | inl inside ↦
      Sound-step t n align fuel i r (leb→le i (max_pages - n) inside) (next_index t n align i)
        (next_index-Next t n align i pos) (λ i' e. search-Sound t n align fuel i' r pos e)
        (rw (inside, find_block) at h)
]

-- When the pages of the table begin at multiples of the page size, then a block that the search for a
-- power of two below 2 ^ 32 as alignment returns lies in the table, its pages are all free, and the
-- address of its first page is a multiple of the alignment.
pub find_block_sound :
    (t : PageTable) (n k fuel i r : ℕ)
    → 0 < n
    → n ≤ max_pages
    → k < 32
    → ((j : ℕ) → j < max_pages → (t j).base_addr % 4096 ≡ 0)
    → find_block t n (2 ^ k) fuel i ≡ some r
    → (r + n ≤ max_pages) × FreeRun t r n × ((t r).base_addr % 2 ^ k ≡ 0)
find_block_sound t n k fuel i r pos fits lt paged h =
    let s = search-Sound t n (2 ^ k) fuel i r pos h in
    (
      omega (arith, s.within),
      s.run,
      misaligned_sound t k r lt (paged r (omega (arith, s.within))) s.aligned,
    )

after_round :
    (t : PageTable) (n align fuel i : ℕ)
    → ((j : ℕ) → misaligned t align j ≡ false)
    → (o : Option ℕ) → Next t n align i o
    → ((i' : ℕ)
        → i < i'
        → find_block t n align fuel i' ≡ none
        → (s : ℕ) → i' ≤ s
        → s ≤ max_pages - n
        → ¬ FreeRun t s n)
    → resume t n align fuel i o ≡ none
    → (s : ℕ) → i ≤ s
    → s ≤ max_pages - n
    → ¬ FreeRun t s n
after_round t n align fuel i ok none next later h s lo hi run = cc
after_round t n align fuel i ok (some i') (goes_on lt none_between) later h s lo hi run =
    elim (Bool-cases (ltb s i')) [
      | inl before ↦ none_between (ok i) s lo (ltb→lt s i' before) run
      | inr from ↦ later i' (lt (ok i)) h s (ltb→le s i' from) hi run
    ]

-- When the search without an alignment (here: every page has the alignment asked for) returns no
-- block, and its fuel is larger than the number of places left, then no `n` pages of the table from
-- `i` on are all free.
pub find_block_complete :
    (t : PageTable) (n align fuel i : ℕ)
    → 0 < n
    → ((j : ℕ) → misaligned t align j ≡ false)
    → max_pages < fuel + i
    → find_block t n align fuel i ≡ none
    → (s : ℕ) → i ≤ s
    → s ≤ max_pages - n
    → ¬ FreeRun t s n
unfolding find_block
find_block_complete t n align zero i pos ok enough h s lo hi run = absurd (omega arith)
find_block_complete t n align (suc fuel) i pos ok enough h s lo hi run =
    elim (Bool-cases (leb i (max_pages - n))) [
      | inr out ↦ absurd (omega (arith, leb→lt i (max_pages - n) out))
      | inl inside ↦
          after_round t n align fuel i ok (next_index t n align i) (next_index-Next t n align i pos)
            (λ i' lt e. find_block_complete t n align fuel i' pos ok (omega arith) e)
            (rw (inside, find_block) at h) s lo hi run
    ]
