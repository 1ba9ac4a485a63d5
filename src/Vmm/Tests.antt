-- ===== src/Vmm/Tests.antt =====
-- The search of the virtual memory manager on the table that `vmm_init` sets up, all pages free,
-- and on one with every page in use.
use unics.Base.{ℕ, ◌+◌, ◌*◌, ◌%◌, ◌^◌, ◌<◌, ◌≤◌, ◌≡◌, refl, true, none, some, arith}
use unics.Vmm.Table.{
  page_size, free_block, mark_from, PageTable, fresh_page, used, max_pages, first_taken, find_block,
}
use unics.Vmm.Largest.{get_largest_free_block_lem}
use unics.Vmm.Queries.{get_largest_free_block}
use unics.Vmm.Release.{free_block-mark_from}
use unics.Vmm.Scan.{FreeRun, find_block_sound, find_block_complete}

found_first : find_block fresh_page 3 (2 ^ 14) 2 0 ≡ some 0
unfolding find_block first_taken
found_first = refl

fresh_page_paged : (j : ℕ) → j < max_pages → (fresh_page j).base_addr % 4096 ≡ 0
fresh_page_paged j h = omega arith

find_block_sound_example :
    (0 + 3 ≤ max_pages) × FreeRun fresh_page 0 3 × ((fresh_page 0).base_addr % 2 ^ 14 ≡ 0)
find_block_sound_example =
    find_block_sound fresh_page 3 14 2 0 0 (omega arith) (omega arith) (omega arith)
      fresh_page_paged found_first

abbrev busy : PageTable
busy i = record (fresh_page i) { state = used }

no_block : find_block busy 20 0 26 1000 ≡ none
unfolding find_block first_taken
no_block = refl

find_block_complete_example : ¬ FreeRun busy 1002 20
find_block_complete_example =
    find_block_complete busy 20 0 26 1000 (omega arith) (λ j. refl) (omega arith) no_block 1002
      (omega arith) (omega arith)

-- Three pages, up to the last one, and one of them after the release.
free_block-mark_from_example :
    free_block 1021 (mark_from 1021 3 5 true 3 0 fresh_page) 1022 ≡ fresh_page 1022
free_block-mark_from_example =
    free_block-mark_from 1021 3 5 true fresh_page 1022 (omega arith) (omega arith) (λ q lo hi. refl)

get_largest_free_block_lem_example :
    (start n : ℕ) × (get_largest_free_block (record { page_table = busy; initialized = true })
      ≡ n * page_size)
    × (start + n ≤ max_pages)
    × FreeRun busy start n
    × ((start' n' : ℕ) → start' + n' ≤ max_pages → FreeRun busy start' n' → n' ≤ n)
get_largest_free_block_lem_example =
    get_largest_free_block_lem (record { page_table = busy; initialized = true })
