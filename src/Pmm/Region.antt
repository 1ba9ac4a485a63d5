-- ===== src/Pmm/Region.antt =====
-- usr/drivers/pmm.c: one region, and the searches in its bitmap.
use unics.Base.{
  ℕ, zero, suc, ◌+◌, ◌-◌, ◌*◌, ◌/◌, ◌%◌, ◌^◌, Bool, true, false, not, ◌&&◌, Option, none, some, ltb,
  leb, ◌==◌, if◌then◌else◌,
}
use unics.Pmm.Bitmap.{
  Bitmap, all_ones, find_first_zero_bit_64, set_bit_64, clear_bit_64, test_bit_64,
}

-- `PMM_PAGE_SIZE`
abbrev pub page_size : ℕ
page_size = 4096

-- `uintptr_t` and `size_t` have 32 bits.
abbrev pub wrap32 : ℕ → ℕ
wrap32 x = x % 2 ^ 32

-- `pmm_is_page_aligned`, and `pmm_page_align_down` and `pmm_page_align_up`, which clear the low
-- twelve bits.
abbrev pub is_page_aligned : ℕ → Bool
is_page_aligned addr = addr % page_size == 0

abbrev pub page_align_down : ℕ → ℕ
page_align_down addr = addr / page_size * page_size

abbrev pub page_align_up : ℕ → ℕ
page_align_up addr = page_align_down (wrap32 (addr + page_size - 1))

-- `pmm_zone_t`
pub data Zone : Type 0 where
  dma normal high : Zone

abbrev pub same_zone : Zone → Zone → Bool
same_zone dma dma = true
same_zone normal normal = true
same_zone high high = true
same_zone _ _ = false

-- `pmm_region_t`, without the link to the next.
pub record Region : Type 0 where
  pub base : ℕ
  pub pages : ℕ
  pub bitmap : Bitmap
  pub bitmap_size : ℕ
  pub last_alloc : ℕ
  pub zone : Zone

-- `(void*)(region->base + page_idx * PMM_PAGE_SIZE)`
abbrev pub page_address : Region → ℕ → ℕ
page_address r page_idx = wrap32 (r.base + page_idx * page_size)

-- The test of `find_region_for_addr`.
abbrev pub contains : Region → ℕ → Bool
contains r addr = leb r.base addr && ltb addr (page_address r r.pages)

-- The body of the scan of `alloc_page_from_region`, on one word: the page that it takes.
abbrev pub scan_word : Region → ℕ → Option ℕ
scan_word r word_idx =
    let word = r.bitmap word_idx in
    let bit_offset = find_first_zero_bit_64 word in
    let page_idx = word_idx * 64 + bit_offset in
    if not (word == all_ones) && (ltb bit_offset 64 && ltb page_idx r.pages)
    then some page_idx
    else none

-- The scan of `k` words from `word_idx` on.
unfoldable pub scan_words : Region → ℕ → ℕ → Option ℕ
scan_words r zero word_idx = none
scan_words r (suc k) word_idx = elim (scan_word r word_idx) [
  | some page_idx ↦ some page_idx
  | none ↦ scan_words r k (word_idx + 1)
]

-- The two loops: from the word of the last allocation to the end, then from the beginning.
abbrev pub find_page : Region → Option ℕ
find_page r =
    let start_word = r.last_alloc / 64 in
    elim (scan_words r (r.bitmap_size - start_word) start_word) [
      | some page_idx ↦ some page_idx
      | none ↦ scan_words r start_word 0
    ]

abbrev pub take_page : Region → Option ℕ → ℕ × Region
take_page r none = (0, r)
take_page r (some page_idx) = (
  page_address r page_idx,
  record r { bitmap = set_bit_64 r.bitmap page_idx; last_alloc = page_idx },
)

-- `alloc_page_from_region`; NULL is the address 0.
unfoldable pub alloc_page_from_region : Region → ℕ × Region
alloc_page_from_region r = take_page r (find_page r)

-- The scan of `pmm_alloc_pages_zone` for `count` free pages in a row, at page `i` with `k` left.
unfoldable pub find_run : Bitmap → ℕ → ℕ → ℕ → ℕ → ℕ → Option ℕ
find_run bitmap count zero i consecutive start_page = none
find_run bitmap count (suc k) i consecutive start_page =
    let start = if consecutive == 0 then i else start_page in
    elim (test_bit_64 bitmap i) [
      | true ↦ find_run bitmap count k (i + 1) 0 start_page
      | false ↦ elim (consecutive + 1 == count) [
        | true ↦ some start
        | false ↦ find_run bitmap count k (i + 1) (consecutive + 1) start
      ]
    ]

-- `for (j = start; j < start + n; j++) set_bit_64(bitmap, j);`, and the same with `clear_bit_64`.
unfoldable pub set_run : ℕ → ℕ → Bitmap → Bitmap
set_run zero start bitmap = bitmap
set_run (suc n) start bitmap = set_run n (start + 1) (set_bit_64 bitmap start)

unfoldable pub clear_run : ℕ → ℕ → Bitmap → Bitmap
clear_run zero start bitmap = bitmap
clear_run (suc n) start bitmap = clear_run n (start + 1) (clear_bit_64 bitmap start)

-- The check of `pmm_free_pages` that all pages of a range are allocated.
unfoldable pub all_allocated : Bitmap → ℕ → ℕ → Bool
all_allocated bitmap zero start = true
all_allocated bitmap (suc n) start =
    let rest = all_allocated bitmap n (start + 1) in
    if not (test_bit_64 bitmap start) then false else rest

-- The count of allocated pages in `pmm_get_stats`, from page `i` on with `k` left.
unfoldable pub count_allocated : Bitmap → ℕ → ℕ → ℕ → ℕ
count_allocated bitmap zero i allocated = allocated
count_allocated bitmap (suc k) i allocated =
    count_allocated bitmap k (i + 1) (if test_bit_64 bitmap i then allocated + 1 else allocated)
