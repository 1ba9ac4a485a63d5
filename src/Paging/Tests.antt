-- ===== src/Paging/Tests.antt =====
-- An allocator that counts upwards, and the allocator of the kernel on one region.
use unics.Base.{ℕ, ◌+◌, ◌≡◌, refl, true, [], ◌∷◌, arith}
use unics.Pmm.Region.{Region, normal}
use unics.Pmm.Manager.{Pmm, new_region}
use unics.Paging.Table.{Pages, Machine, get_or_create_page_table, init, map_page, get_physical}
use unics.Paging.Mapped.{Separate, get_physical-map_page}
use unics.Paging.Shared.{kernel_pages, get_or_create_shared}

abbrev counting : Pages ℕ
counting = record { alloc_page = λ next. (next, next + 4096) }

abbrev fresh : Machine ℕ
fresh = record { directory = 8192; memory = λ a. 0; pages = 16384 }

fresh-Separate : Separate counting 12288 fresh
unfolding get_or_create_page_table
fresh-Separate = record {
  exists = λ e. omega arith;
  aligned = omega arith;
  apart = λ e. omega arith;
}

get_physical-map_page_example :
    ((map_page counting 12288 20480 6 fresh).0 ≡ true)
    × (get_physical counting 12288 (map_page counting 12288 20480 6 fresh).1 ≡ 20480)
get_physical-map_page_example =
    get_physical-map_page counting 12288 20480 6 fresh (omega arith) (omega arith) fresh-Separate

abbrev region : Region
region = new_region 0x100000 130 normal

abbrev booting : Machine Pmm
booting = record {
  directory = 0;
  memory = λ a. 0;
  pages = record { regions = region ∷ []; initialized = true };
}

get_or_create_shared_example :
    (get_or_create_page_table kernel_pages 12288 true (init kernel_pages booting)).0
    ≡ (init kernel_pages booting).directory
get_or_create_shared_example =
    get_or_create_shared booting region [] 12288 refl refl refl
      (record { word_in = omega arith; page_in = omega arith; top_clear = omega arith })
      (λ e. omega arith)
