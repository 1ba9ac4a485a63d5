-- ===== src/Pmm/Manager.antt =====
-- usr/drivers/pmm.c: the list of regions and the public functions.
use unics.Base.{
  ℕ, zero, suc, ◌+◌, ◌-◌, ◌/◌, ◌^◌, Bool, true, false, not, ◌||◌, Option, none, some, List, [], ◌∷◌,
  ltb, ◌==◌, if◌then◌else◌,
}
use unics.Pmm.Bitmap.{set_bit_64, test_bit_64}
use unics.Pmm.Region.{
  Region, Zone, normal, same_zone, page_size, wrap32, is_page_aligned, page_align_down,
  page_align_up, page_address, contains, alloc_page_from_region, find_run, set_run, clear_run,
  all_allocated, count_allocated,
}

-- `pmm_regions`, the newest first, and `pmm_initialized`.
pub record Pmm : Type 0 where
  pub regions : List Region
  pub initialized : Bool

-- The results 0 and -1.
pub data Status : Type 0 where
  ok fail : Status

-- `pmm_init`
unfoldable pub init : Pmm → Status × Pmm
init s = if s.initialized then (fail, s) else (ok, record { regions = []; initialized = true })

-- What `malloc` and `calloc` return in `pmm_add_region`: a block, or NULL.
pub record Memory : Type 0 where
  pub descriptor : Bool
  pub bitmap : Bool

abbrev pub new_region : ℕ → ℕ → Zone → Region
new_region base pages zone = record {
  base = base;
  pages = pages;
  bitmap = λ _. 0;
  bitmap_size = (pages + 63) / 64;
  last_alloc = 0;
  zone = zone;
}

-- The number of pages that `pmm_add_region` finds in a range.
abbrev pub region_pages : ℕ → ℕ → ℕ
region_pages base size =
    page_align_down (wrap32 (size + 2 ^ 32 - wrap32 (page_align_up base + 2 ^ 32 - base)))
    / page_size

-- `pmm_add_region`
unfoldable pub add_region : Memory → ℕ → ℕ → Zone → Pmm → Status × Pmm
add_region m base size zone s =
    if not s.initialized
    then (fail, s)
    else if region_pages base size == 0
    then (fail, s)
    else if not m.descriptor
    then (fail, s)
    else if not m.bitmap
    then (fail, s)
    else (
      ok,
      record s {
        regions = new_region (page_align_up base) (region_pages base size) zone ∷ s.regions;
      },
    )

-- `find_region_for_addr` followed by a change of the region that it returns.
unfoldable pub change_region : (Region → Region) → ℕ → List Region → List Region
change_region f addr [] = []
change_region f addr (r ∷ rs) = if contains r addr then f r ∷ rs else r ∷ change_region f addr rs

-- `find_region_for_addr`
unfoldable pub find_region : List Region → ℕ → Option Region
find_region [] addr = none
find_region (r ∷ rs) addr = if contains r addr then some r else find_region rs addr

-- The body of the loop of `pmm_reserve_range`.
abbrev pub reserve_page : ℕ → Region → Region
reserve_page addr r =
    let page_idx = (addr - r.base) / page_size in
    if ltb page_idx r.pages then record r { bitmap = set_bit_64 r.bitmap page_idx } else r

unfoldable pub reserve_from : ℕ → ℕ → ℕ → List Region → List Region
reserve_from zero addr end rs = rs
reserve_from (suc fuel) addr end rs = elim (ltb addr end) [
  | true ↦
      reserve_from fuel (wrap32 (addr + page_size)) end (change_region (reserve_page addr) addr rs)
  | false ↦ rs
]

-- `pmm_reserve_range`. There are 2 ^ 20 pages, so that many rounds at most.
unfoldable pub reserve_range : ℕ → ℕ → Pmm → Status × Pmm
reserve_range start end s = if not s.initialized then (fail, s) else (
  ok,
  record s {
    regions = reserve_from (2 ^ 20) (page_align_down start) (page_align_up end) s.regions;
  },
)

-- A loop of `pmm_alloc_page_zone` over the regions that pass a test.
unfoldable pub alloc_from : (Region → Bool) → List Region → ℕ × List Region
alloc_from test [] = (0, [])
alloc_from test (r ∷ rs) =
    let (page, r') = if test r then alloc_page_from_region r else (0, r) in
    let (later, rs') = alloc_from test rs in
    if page == 0 then (later, r' ∷ rs') else (page, r' ∷ rs)

-- `pmm_alloc_page_zone`
unfoldable pub alloc_page_zone : Zone → Pmm → ℕ × Pmm
alloc_page_zone zone s =
    let (page, preferred) = alloc_from (λ r. same_zone r.zone zone) s.regions in
    let (other, fallback) = alloc_from (λ _. true) preferred in
    if not s.initialized
    then (0, s)
    else if page == 0
    then (other, record s { regions = fallback })
    else (page, record s { regions = preferred })

-- `pmm_alloc_page`
abbrev pub alloc_page : Pmm → ℕ × Pmm
alloc_page s = alloc_page_zone normal s

abbrev pub mark_run : Region → ℕ → ℕ → Region
mark_run r start count = record r { bitmap = set_run count start r.bitmap }

-- The loop of `pmm_alloc_pages_zone` over the regions.
unfoldable pub alloc_run : ℕ → Zone → List Region → ℕ × List Region
alloc_run count zone [] = (0, [])
alloc_run count zone (r ∷ rs) =
    let (later, rs') = alloc_run count zone rs in
    if not (same_zone r.zone zone)
    then (later, r ∷ rs')
    else elim (find_run r.bitmap count r.pages 0 0 0) [
      | some start ↦ (page_address r start, mark_run r start count ∷ rs)
      | none ↦ (later, r ∷ rs')
    ]

-- `pmm_alloc_pages_zone`
unfoldable pub alloc_pages_zone : ℕ → Zone → Pmm → ℕ × Pmm
alloc_pages_zone count zone s =
    let (page, regions) = alloc_run count zone s.regions in
    if not s.initialized || count == 0 then (0, s) else (page, record s { regions = regions })

-- The part of `pmm_free_pages` that looks at and changes the region, `start` being the first page.
abbrev pub free_run : Region → ℕ → ℕ → Status × Region
free_run r start count =
    if ltb r.pages (wrap32 (start + count))
    then (fail, r)
    else if not (all_allocated r.bitmap count start)
    then (fail, r)
    else (
      ok,
      record r {
        bitmap = clear_run count start r.bitmap;
        last_alloc = if ltb start r.last_alloc then start else r.last_alloc;
      },
    )

abbrev pub start_page : Region → ℕ → ℕ
start_page r target = (target - r.base) / page_size

-- `pmm_free_pages`
unfoldable pub free_pages : ℕ → ℕ → Pmm → Status × Pmm
free_pages target count s =
    if not s.initialized || (target == 0 || count == 0)
    then (fail, s)
    else if not (is_page_aligned target)
    then (fail, s)
    else elim (find_region s.regions target) [
      | none ↦ (fail, s)
      | some r ↦ (
        (free_run r (start_page r target) count).0,
        record s {
          regions =
              change_region (λ q. (free_run q (start_page q target) count).1) target s.regions;
        },
      )
    ]

-- `pmm_free_page`
abbrev pub free_page : ℕ → Pmm → Status × Pmm
free_page target s = free_pages target 1 s

-- `pmm_is_page_allocated`
unfoldable pub is_page_allocated : ℕ → Pmm → Bool
is_page_allocated target s =
    if not s.initialized || target == 0 then false else elim (find_region s.regions target) [
      | none ↦ false
      | some r ↦ test_bit_64 r.bitmap (start_page r target)
    ]

-- `pmm_stats_t`; `reserved_pages` is never set.
pub record Stats : Type 0 where
  pub total_pages : ℕ
  pub free_pages : ℕ
  pub allocated_pages : ℕ
  pub zones_pages : Zone → ℕ
  pub zones_free : Zone → ℕ

abbrev pub add_zone : (Zone → ℕ) → Zone → ℕ → Zone → ℕ
add_zone t z n z' = if same_zone z z' then wrap32 (t z' + n) else t z'

abbrev pub add_stats : Region → Stats → Stats
add_stats r st =
    let allocated = count_allocated r.bitmap r.pages 0 0 in
    record {
      total_pages = wrap32 (st.total_pages + r.pages);
      free_pages = wrap32 (st.free_pages + (r.pages - allocated));
      allocated_pages = wrap32 (st.allocated_pages + allocated);
      zones_pages = add_zone st.zones_pages r.zone r.pages;
      zones_free = add_zone st.zones_free r.zone (r.pages - allocated);
    }

unfoldable pub stats_of : List Region → Stats → Stats
stats_of [] st = st
stats_of (r ∷ rs) st = stats_of rs (add_stats r st)

abbrev pub zero_stats : Stats
zero_stats = record {
  total_pages = 0;
  free_pages = 0;
  allocated_pages = 0;
  zones_pages = λ _. 0;
  zones_free = λ _. 0;
}

-- `pmm_get_stats`
unfoldable pub get_stats : Pmm → Stats
get_stats s = if not s.initialized then zero_stats else stats_of s.regions zero_stats
