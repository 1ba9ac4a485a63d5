-- ===== src/Vmm/Table.antt =====
-- usr/drivers/vmm.c: the page table, reservation, allocation and release.
use unics.Base.{
  ℕ, zero, suc, ◌+◌, ◌-◌, ◌*◌, ◌/◌, ◌%◌, ◌^◌, bit_and, Bool, true, false, not, ◌&&◌, ◌||◌, Option,
  none, some, ltb, leb, ◌==◌, if◌then◌else◌,
}
use unics.Base.Table.{update}

abbrev pub page_size : ℕ
page_size = 4096

abbrev pub max_pages : ℕ
max_pages = 1024

abbrev pub base_address : ℕ
base_address = 0x100000

abbrev pub tag_kernel : ℕ
tag_kernel = 0xdead0000

-- `vmm_page_state_t`
pub data PageState : Type 0 where
  free used reserved : PageState

abbrev pub is_free : PageState → Bool
is_free free = true
is_free _ = false

abbrev pub is_used : PageState → Bool
is_used used = true
is_used _ = false

abbrev pub is_reserved : PageState → Bool
is_reserved reserved = true
is_reserved _ = false

-- `vmm_page_t`
pub record Page : Type 0 where
  pub base_addr : ℕ
  pub size : ℕ
  pub state : PageState
  pub alloc_pages : ℕ
  pub tag : ℕ
  pub is_kernel : Bool

abbrev pub PageTable : Type 0
PageTable = ℕ → Page

-- `page_table` and `vmm_initialized`.
pub record Vmm : Type 0 where
  pub page_table : PageTable
  pub initialized : Bool

abbrev pub wrap32 : ℕ → ℕ
wrap32 x = x % 2 ^ 32

abbrev pub fresh_page : ℕ → Page
fresh_page i = record {
  base_addr = base_address + i * page_size;
  size = page_size;
  state = free;
  alloc_pages = 0;
  tag = 0;
  is_kernel = false;
}

-- `vmm_init`
unfoldable pub init : Vmm → Vmm
init s = if s.initialized then s else record { page_table = fresh_page; initialized = true }

-- The loop of `vmm_reserve_range`, on page `i` with `k` left.
unfoldable pub reserve_from : ℕ → ℕ → ℕ → ℕ → PageTable → PageTable
reserve_from start end zero i t = t
reserve_from start end (suc k) i t = reserve_from start end k (i + 1) (
    if leb start (t i).base_addr && ltb (t i).base_addr end
    then update t i (record (t i) { state = reserved; tag = tag_kernel; is_kernel = true })
    else t)

-- `vmm_reserve_range`. A failed `assert` ends the program: the result is then `none`.
unfoldable pub reserve_range : ℕ → ℕ → Vmm → Option Vmm
reserve_range start end s =
    if not s.initialized
    then none
    else some (record s {
      page_table =
          reserve_from (start / page_size * page_size)
            (wrap32 (end + page_size - 1) / page_size * page_size) max_pages 0 s.page_table;
    })

-- The inner loop of `vmm_alloc_internal`: the first `j` at which page `i + j` is not free.
unfoldable pub first_taken : PageTable → ℕ → ℕ → ℕ → Option ℕ
first_taken t i zero j = none
first_taken t i (suc k) j =
    let rest = first_taken t i k (j + 1) in if not (is_free (t (i + j)).state) then some j else rest

-- `(base_addr + align - 1) & ~(align - 1)`
abbrev pub align_up : ℕ → ℕ → ℕ
align_up addr align = bit_and (wrap32 (addr + align - 1)) (2 ^ 32 - 1 - (align - 1))

abbrev pub offset_pages : PageTable → ℕ → ℕ → ℕ
offset_pages t align i =
    wrap32 (align_up (t i).base_addr align + 2 ^ 32 - (t i).base_addr) / page_size

-- Page `i` does not have the alignment that was asked for.
abbrev pub misaligned : PageTable → ℕ → ℕ → Bool
misaligned t align i =
    ltb page_size align && not (align_up (t i).base_addr align == (t i).base_addr)

-- The index with which the loop goes on behind page `i`, or `none` if a block begins there.
abbrev pub next_index : PageTable → ℕ → ℕ → ℕ → Option ℕ
next_index t n align i =
    if is_reserved (t i).state
    then some (i + 1)
    else if misaligned t align i
    then some (
        if ltb max_pages (i + offset_pages t align i + n)
        then i + 1
        else i + offset_pages t align i)
    else elim (first_taken t i n 0) [ none ↦ none | some j ↦ some (i + j + 1) ]

-- The outer loop of `vmm_alloc_internal`: the first page of the block that it finds.
unfoldable pub find_block : PageTable → ℕ → ℕ → ℕ → ℕ → Option ℕ
find_block t n align zero i = none
find_block t n align (suc fuel) i = elim (leb i (max_pages - n)) [
  | false ↦ none
  | true ↦ elim (next_index t n align i) [ none ↦ some i | some i' ↦ find_block t n align fuel i' ]
]

-- The loop that marks the `n` pages from `i` on, at `j` with `k` left.
unfoldable pub mark_from : ℕ → ℕ → ℕ → Bool → ℕ → ℕ → PageTable → PageTable
mark_from i n tag kernel zero j t = t
mark_from i n tag kernel (suc k) j t = mark_from i n tag kernel k (j + 1) (
    update t (i + j) (record (t (i + j)) {
      state = used;
      alloc_pages = if j == 0 then n else 0;
      tag = tag;
      is_kernel = kernel;
    }))

-- `vmm_alloc_internal`. The index grows in each round, so MAX_PAGES + 1 rounds are enough. The
-- address 0 is NULL.
unfoldable pub alloc_internal : ℕ → ℕ → ℕ → Bool → Vmm → Option (ℕ × Vmm)
alloc_internal n align tag kernel s =
    if not s.initialized || (n == 0 || ltb max_pages n)
    then none
    else elim (find_block s.page_table n align (max_pages + 1) 0) [
      | none ↦ some (0, s)
      | some i ↦ some (
        (s.page_table i).base_addr,
        record s { page_table = mark_from i n tag kernel n 0 s.page_table },
      )
    ]

abbrev pub pages_needed : ℕ → ℕ
pages_needed size = wrap32 (size + page_size - 1) / page_size

-- `vmm_alloc_tagged`
unfoldable pub alloc_tagged : ℕ → ℕ → Bool → Vmm → Option (ℕ × Vmm)
alloc_tagged size tag kernel s =
    if size == 0
    then some (0, s)
    else if ltb max_pages (pages_needed size)
    then some (0, s)
    else alloc_internal (pages_needed size) page_size tag kernel s

-- `vmm_alloc`
abbrev pub alloc : ℕ → Vmm → Option (ℕ × Vmm)
alloc size s = alloc_tagged size 0 false s

-- `vmm_alloc_aligned`
unfoldable pub alloc_aligned : ℕ → ℕ → Vmm → Option (ℕ × Vmm)
alloc_aligned size align s =
    if size == 0
    then some (0, s)
    else if not (bit_and align (wrap32 (align + 2 ^ 32 - 1)) == 0) || align == 0
    then some (0, s)
    else if ltb max_pages (pages_needed size)
    then some (0, s)
    else alloc_internal (pages_needed size) align 0 false s

-- The page that holds an address, in the search that `vmm_free` and the tag functions share.
unfoldable pub find_page : PageTable → ℕ → ℕ → ℕ → Option ℕ
find_page t target zero i = none
find_page t target (suc k) i =
    let rest = find_page t target k (i + 1) in
    if leb (t i).base_addr target && ltb target ((t i).base_addr + (t i).size) then some i else rest

abbrev pub released : Page → Page
released p = record p { state = free; alloc_pages = 0; tag = 0; is_kernel = false }

-- The loop of `vmm_free` over the pages of the block; it stops at a page that is not in use.
unfoldable pub free_from : ℕ → ℕ → PageTable → PageTable
free_from zero i t = t
free_from (suc k) i t = elim (is_used (t i).state) [
  | true ↦ free_from k (i + 1) (update t i (released (t i)))
  | false ↦ t
]

abbrev pub free_block : ℕ → PageTable → PageTable
free_block i t =
    let pages = (t i).alloc_pages in
    if not (is_used (t i).state)
    then t
    else if pages == 0 || ltb max_pages (i + pages)
    then t
    else free_from pages i t

-- `vmm_free`
unfoldable pub free_memory : ℕ → Vmm → Vmm
free_memory target s =
    if target == 0 || not s.initialized
    then s
    else elim (find_page s.page_table target max_pages 0) [
      | none ↦ s
      | some i ↦ record s { page_table = free_block i s.page_table }
    ]
