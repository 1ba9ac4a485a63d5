-- ===== src/Paging/Table.antt =====
-- usr/drivers/paging.c and usr/include/paging.h. Memory is a function of the address of a word of 32
-- bits; a table is the address of its first entry, and 0 is NULL. The allocator of pages is the
-- interface `Pages`. The loads of control registers and `invlpg` change nothing here.
use unics.Base.{
  ℕ, ◌+◌, ◌*◌, ◌/◌, ◌%◌, ◌^◌, Bool, true, false, not, ◌||◌, leb, ltb, ◌==◌, if◌then◌else◌, bit_or,
}

-- `pmm_alloc_page`: the address of a page, or 0, and the allocator after it.
pub record Pages (S : Type 0) : Type 0 where
  pub alloc_page : S → ℕ × S

-- `PAGE_SIZE`
abbrev pub page_size : ℕ
page_size = 4096

-- `current_page_directory`, memory, and the state of the allocator.
pub record Machine (S : Type 0) : Type 0 where
  pub directory : ℕ
  pub memory : ℕ → ℕ
  pub pages : S

-- `pd_index` and `pt_index`
abbrev pub pd_index : ℕ → ℕ
pd_index addr = addr / 2 ^ 22 % 1024

abbrev pub pt_index : ℕ → ℕ
pt_index addr = addr / 2 ^ 12 % 1024

-- `table->entries[i]`
abbrev pub entry_address : ℕ → ℕ → ℕ
entry_address table i = table + 4 * i

-- `entry & PAGE_PRESENT` and `entry & ~0xFFF`
abbrev pub is_present : ℕ → Bool
is_present entry = entry % 2 == 1

abbrev pub frame : ℕ → ℕ
frame entry = entry / page_size * page_size

-- `pmm_is_page_aligned`
abbrev pub is_page_aligned : ℕ → Bool
is_page_aligned addr = addr % page_size == 0

-- A store of a word.
abbrev pub poke : ℕ → ℕ → (ℕ → ℕ) → ℕ → ℕ
poke at value memory a = if at == a then value else memory a

-- `memset` of a page to 0.
abbrev pub clear_page : ℕ → (ℕ → ℕ) → ℕ → ℕ
clear_page page memory a =
    if leb page a then (if ltb a (page + page_size) then 0 else memory a) else memory a

-- A new table: it is cleared, and the directory gets an entry for it.
abbrev pub with_table : {S : Type 0} → ℕ → S → ℕ → Machine S → Machine S
with_table table pages pdi m = record m {
  memory =
      poke (entry_address m.directory pdi) (bit_or (bit_or table 1) 2) (clear_page table m.memory);
  pages = pages;
}

module _ {S : Type 0} (allocator : Pages S) where
  -- The part of `get_or_create_page_table` that makes a table.
  abbrev pub create_page_table : ℕ → Machine S → ℕ × Machine S
  create_page_table pdi m =
      let (table, pages) = allocator.alloc_page m.pages in
      if table == 0 then (0, record m { pages = pages }) else (table, with_table table pages pdi m)

  -- `get_or_create_page_table`
  unfoldable pub get_or_create_page_table : ℕ → Bool → Machine S → ℕ × Machine S
  get_or_create_page_table virt_addr create m =
      let entry = m.memory (entry_address m.directory (pd_index virt_addr)) in
      if is_present entry
      then (frame entry, m)
      else if not create
      then (0, m)
      else create_page_table (pd_index virt_addr) m

  -- `paging_init`
  unfoldable pub init : Machine S → Machine S
  init m =
      let (page, pages) = allocator.alloc_page m.pages in
      if page == 0
      then record m { pages = pages }
      else record { directory = page; memory = clear_page page m.memory; pages = pages }

  -- The store of `paging_map_page`.
  abbrev pub map_in : ℕ → ℕ → ℕ → ℕ → Machine S → Bool × Machine S
  map_in table virt_addr phys_addr flags m = if table == 0 then (false, m) else (
    true,
    record m {
      memory =
          poke (entry_address table (pt_index virt_addr))
            (bit_or (bit_or phys_addr (flags % page_size)) 1) m.memory;
    },
  )

  -- `paging_map_page`
  unfoldable pub map_page : ℕ → ℕ → ℕ → Machine S → Bool × Machine S
  map_page virt_addr phys_addr flags m =
      if not (is_page_aligned virt_addr) || not (is_page_aligned phys_addr)
      then (false, m)
      else let r = get_or_create_page_table virt_addr true m in
        map_in r.0 virt_addr phys_addr flags r.1

  -- `paging_unmap_page`
  unfoldable pub unmap_page : ℕ → Machine S → Bool × Machine S
  unmap_page virt_addr m =
      if not (is_page_aligned virt_addr)
      then (false, m)
      else let (table, t) = get_or_create_page_table virt_addr false m in
        let at = entry_address table (pt_index virt_addr) in
        if table == 0
        then (false, t)
        else if not (is_present (t.memory at))
        then (false, t)
        else (true, record t { memory = poke at 0 t.memory })

  -- `paging_get_physical`
  unfoldable pub get_physical : ℕ → Machine S → ℕ
  get_physical virt_addr m =
      let (table, t) = get_or_create_page_table virt_addr false m in
      let entry = t.memory (entry_address table (pt_index virt_addr)) in
      if table == 0 then 0 else if not (is_present entry) then 0 else frame entry
