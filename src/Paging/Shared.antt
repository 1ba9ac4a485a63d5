-- ===== src/Paging/Shared.antt =====
-- usr/drivers/paging.c with usr/drivers/pmm.c: the first page table is the page directory itself.
use unics.Base.{
  ℕ, ◌+◌, ◌<◌, ◌≤◌, ◌≡◌, ◌≢◌, refl, ap, sym, ◌∙◌, true, false, List, ◌∷◌, arith, ◌==◌, ==→eq,
  if_ind,
}
use unics.Pmm.Region.{Region, normal, same_zone, page_address}
use unics.Pmm.Manager.{Pmm, alloc_page}
use unics.Pmm.Pages.{AtLowWord, first_page, alloc_page_twice}
use unics.Paging.Table.{
  Pages, Machine, page_size, pd_index, entry_address, is_present, clear_page, with_table,
  get_or_create_page_table, init,
}

-- The allocator of the kernel.
abbrev pub kernel_pages : Pages Pmm
kernel_pages = record { alloc_page = λ s. alloc_page s }

-- A machine with a clear directory.
record Cleared (p : ℕ) (pages : Pmm) (t : Machine Pmm) : Type 0 where
  at_page : t.directory ≡ p
  left : t.pages ≡ pages
  clear : (a : ℕ) → p ≤ a → a < p + page_size → t.memory a ≡ 0

clear_page-Cleared :
    (p page : ℕ) (pages : Pmm) (memory : ℕ → ℕ)
    → page ≡ p
    → Cleared p pages (record { directory = page; memory = clear_page page memory; pages = pages })
clear_page-Cleared p page pages memory e = record {
  at_page = e;
  left = refl;
  clear = λ a lo hi. ground arith;
}

init-Cleared :
    (m : Machine Pmm) (p : ℕ)
    → p ≢ 0
    → (alloc_page m.pages).0 ≡ p
    → Cleared p (alloc_page m.pages).1 (init kernel_pages m)
unfolding init
init-Cleared m p ne e =
    if_ind (Cleared p (alloc_page m.pages).1) ((alloc_page m.pages).0 == 0)
      (λ z. absurd (ne (sym e ∙ ==→eq (alloc_page m.pages).0 0 z)))
      (λ z. clear_page-Cleared p (alloc_page m.pages).0 (alloc_page m.pages).1 m.memory e)

not_present : (entry : ℕ) → entry ≡ 0 → is_present entry ≡ false
not_present entry e = ground arith

create-alloc_page :
    (t : Machine Pmm) (virt : ℕ)
    → t.memory (entry_address t.directory (pd_index virt)) ≡ 0
    → (get_or_create_page_table kernel_pages virt true t).0 ≡ (alloc_page t.pages).0
unfolding get_or_create_page_table
create-alloc_page t virt e =
    rw (not_present _ e, get_or_create_page_table)
      (if_ind (λ (q : ℕ × Machine Pmm). q.0 ≡ (alloc_page t.pages).0) ((alloc_page t.pages).0 == 0)
        {x = (0, record t { pages = (alloc_page t.pages).1 })}
        {y = (
          (alloc_page t.pages).0,
          with_table (alloc_page t.pages).0 (alloc_page t.pages).1 (pd_index virt) t,
        )}
        (λ z. sym (==→eq (alloc_page t.pages).0 0 z)) (λ z. refl))

-- When `pmm_alloc_page` hands out a page twice, as it does for a first region of the normal zone whose
-- word at the hint has a clear top bit, the table that `get_or_create_page_table` makes for the first
-- address after `paging_init` is the page directory.
pub get_or_create_shared :
    (m : Machine Pmm) (r : Region) (rs : List Region) (virt : ℕ)
    → m.pages.initialized ≡ true
    → m.pages.regions ≡ r ∷ rs
    → same_zone r.zone normal ≡ true
    → AtLowWord r
    → page_address r (first_page r) ≢ 0
    → (get_or_create_page_table kernel_pages virt true (init kernel_pages m)).0
      ≡ (init kernel_pages m).directory
get_or_create_shared m r rs virt ready head zone low ne =
    let (once, twice) = alloc_page_twice m.pages r rs ready head zone low ne in
    let c = init-Cleared m (page_address r (first_page r)) ne once in
    create-alloc_page (init kernel_pages m) virt
      (c.clear _ (omega (arith, c.at_page)) (omega (arith, c.at_page)))
    ∙ ap (λ s. (alloc_page s).0) c.left
    ∙ twice
    ∙ sym c.at_page
