-- ===== src/Pmm/Tests.antt =====
-- The theorems on the page allocator at a small region: 130 pages from 1 MB on, in three words.
use unics.Base.{ℕ, ◌==◌, ◌%◌, ◌-◌, ◌≡◌, ◌^◌, refl, true, some, [], ◌∷◌, arith, if◌then◌else◌}
use native.Mathlib.Nat.{zero-div}
use unics.Pmm.Bitmap.{Bitmap, test_bit_64}
use unics.Pmm.Region.{Region, normal, page_address, find_run}
use unics.Pmm.Manager.{Pmm, ok, Memory, new_region, alloc_run, mark_run, free_run, alloc_page}
use unics.Pmm.Runs.{AllFree}
use unics.Pmm.Pages.{first_page, alloc_page_twice}
use unics.Pmm.Blocks.{Marks, alloc_run-Marks, free_run-mark_run}

abbrev region : Region
region = new_region 0x100000 130 normal

abbrev empty_bitmap : Bitmap
empty_bitmap = λ w. 0

abbrev pmm : Pmm
pmm = record { regions = region ∷ []; initialized = true }

all_free : (start n : ℕ) → AllFree empty_bitmap start n
unfolding test_bit_64
all_free start n j h = rw (zero-div (2 ^ (j % 64))) refl

alloc_run-Marks_example :
    Marks 3 normal
      (region ∷ [])
      (alloc_run 3 normal (region ∷ [])).0
      (alloc_run 3 normal (region ∷ [])).1
alloc_run-Marks_example = alloc_run-Marks 3 normal (region ∷ []) (omega arith)

alloc_page_twice_example :
    ((alloc_page pmm).0 ≡ page_address region (first_page region))
    × ((alloc_page (alloc_page pmm).1).0 ≡ page_address region (first_page region))
alloc_page_twice_example =
    alloc_page_twice pmm region [] refl refl refl
      (record { word_in = omega arith; page_in = omega arith; top_clear = omega arith })
      (omega arith)

free_run-mark_run_example :
    ((free_run (mark_run region 5 3) 5 3).0 ≡ ok)
    × (test_bit_64 (free_run (mark_run region 5 3) 5 3).1.bitmap 6 ≡ test_bit_64 region.bitmap 6)
free_run-mark_run_example =
    free_run-mark_run region 5 3 6 (all_free 5 3) (omega arith) (omega arith)

abbrev ample : Memory
ample = record { descriptor = true; bitmap = true }

-- Pages 0 to 62 are taken: the first run of three pages begins at 63.
find_run_after_taken : find_run (λ w. if w == 0 then 2 ^ 63 - 1 else 0) 3 130 0 0 0 ≡ some 63
unfolding find_run test_bit_64
find_run_after_taken = refl
