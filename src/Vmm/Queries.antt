-- ===== src/Vmm/Queries.antt =====
-- usr/drivers/vmm.c: statistics, the largest free block, and tags.
use unics.Base.{ℕ, zero, suc, ◌+◌, ◌*◌, ◌/◌, true, false, ◌==◌, ltb, if◌then◌else◌, none, some}
use unics.Base.Table.{update}
use unics.Vmm.Table.{
  Vmm, PageTable, PageState, free, used, reserved, is_free, is_used, max_pages, page_size,
  find_page,
}

-- The three sums of `vmm_stats` and `vmm_dump_state`, in pages.
pub record Usage : Type 0 where
  pub used_pages : ℕ
  pub free_pages : ℕ
  pub reserved_pages : ℕ

abbrev pub add_pages : PageState → ℕ → Usage → Usage
add_pages used n u = record u { used_pages = u.used_pages + n }
add_pages reserved n u = record u { reserved_pages = u.reserved_pages + n }
add_pages free n u = record u { free_pages = u.free_pages + n }

-- How many pages the loop steps over at page `i`.
abbrev pub stride : PageTable → ℕ → ℕ
stride t i = if ltb 0 (t i).alloc_pages then (t i).alloc_pages else 1

-- The loop of `vmm_stats`. It advances in each round, so MAX_PAGES rounds are enough.
unfoldable pub usage_from : PageTable → ℕ → ℕ → Usage → Usage
usage_from t zero i u = u
usage_from t (suc fuel) i u = elim (ltb i max_pages) [
  | true ↦ usage_from t fuel (i + stride t i) (add_pages (t i).state (stride t i) u)
  | false ↦ u
]

abbrev pub usage : Vmm → Usage
usage s =
    usage_from s.page_table max_pages 0
      (record { used_pages = 0; free_pages = 0; reserved_pages = 0 })

abbrev pub kilobytes : ℕ → ℕ
kilobytes pages = pages * page_size / 1024

-- `vmm_stats`, with its three results asked for.
unfoldable pub stats : Vmm → Usage
stats s = record {
  used_pages = kilobytes (usage s).used_pages;
  free_pages = kilobytes (usage s).free_pages;
  reserved_pages = kilobytes (usage s).reserved_pages;
}

-- The loop of `vmm_get_largest_free_block`, at page `i` with `k` left.
unfoldable pub largest_from : PageTable → ℕ → ℕ → ℕ → ℕ → ℕ
largest_from t zero i current_free max_free = max_free
largest_from t (suc k) i current_free max_free = elim (is_free (t i).state) [
  | true ↦
      largest_from t k (i + 1) (current_free + 1)
        (if ltb max_free (current_free + 1) then current_free + 1 else max_free)
  | false ↦ largest_from t k (i + 1) 0 max_free
]

-- `vmm_get_largest_free_block`
unfoldable pub get_largest_free_block : Vmm → ℕ
get_largest_free_block s = largest_from s.page_table max_pages 0 0 0 * page_size

-- `vmm_set_tag`
unfoldable pub set_tag : ℕ → ℕ → Vmm → Vmm
set_tag target tag s = if target == 0 then s else elim (find_page s.page_table target max_pages 0) [
  | none ↦ s
  | some i ↦
      if is_used (s.page_table i).state
      then record s { page_table = update s.page_table i (record (s.page_table i) { tag = tag }) }
      else s
]

-- `vmm_get_tag`
unfoldable pub get_tag : ℕ → Vmm → ℕ
get_tag target s = if target == 0 then 0 else elim (find_page s.page_table target max_pages 0) [
  | none ↦ 0
  | some i ↦ (s.page_table i).tag
]
