-- ===== src/Paging/Mapped.antt =====
-- usr/drivers/paging.c: a page that is mapped is found, until it is unmapped.
use unics.Base.{
  ℕ, ◌%◌, ◌≡◌, ◌≢◌, refl, ap, ◌∙◌, Bool, true, false, not, ◌||◌, arith, ◌==◌, ==→eq, ne→==,
  if◌then◌else◌, if_ind, bit_or,
}
use unics.Paging.Table.{
  Pages, Machine, page_size, pd_index, pt_index, entry_address, is_present, frame, is_page_aligned,
  poke, clear_page, with_table, get_or_create_page_table, map_page, get_physical,
}
use unics.Paging.Bits.{frame-bit_or, low-bit_or, low-bit_or_two}

poke_self : (at value : ℕ) (memory : ℕ → ℕ) → poke at value memory at ≡ value
poke_self at value memory = ground arith

poke_ne : (at value a : ℕ) (memory : ℕ → ℕ) → at ≢ a → poke at value memory a ≡ memory a
poke_ne at value a memory h = ground arith

-- The entry of a page table for a frame: it is present, and gives the frame back.
map_entry :
    (phys flags : ℕ)
    → phys % page_size ≡ 0
    → frame (bit_or (bit_or phys (flags % page_size)) 1) ≡ phys
map_entry phys flags h = omega (
  arith,
  frame-bit_or (bit_or phys (flags % page_size)) 1 (omega arith),
  frame-bit_or phys (flags % page_size) (omega arith),
)

directory_entry : (table : ℕ) → table % page_size ≡ 0 → frame (bit_or (bit_or table 1) 2) ≡ table
directory_entry table h =
    omega (arith, frame-bit_or (bit_or table 1) 2 (omega arith), frame-bit_or table 1 (omega arith))

present_of : (entry : ℕ) → entry % 2 ≡ 1 → is_present entry ≡ true
present_of entry h = ground arith

read_entry :
    (entry phys : ℕ)
    → is_present entry ≡ true
    → frame entry ≡ phys
    → (if not (is_present entry) then 0 else frame entry) ≡ phys
read_entry entry phys p f = rw p f

module _ {S : Type 0} (allocator : Pages S) where
  -- The directory of a machine has the table for an address.
  record HasTable (virt table : ℕ) (m : Machine S) : Type 0 where
    present : is_present (m.memory (entry_address m.directory (pd_index virt))) ≡ true
    entry : frame (m.memory (entry_address m.directory (pd_index virt))) ≡ table

  -- The table that `paging_map_page` uses exists, is a page, and its entry for the address is no
  -- entry of the directory for it.
  pub record Separate (virt : ℕ) (m : Machine S) : Type 0 where
    pub exists : (get_or_create_page_table allocator virt true m).0 ≢ 0
    pub aligned : (get_or_create_page_table allocator virt true m).0 % page_size ≡ 0
    pub apart :
        entry_address (get_or_create_page_table allocator virt true m).0 (pt_index virt)
        ≢ entry_address m.directory (pd_index virt)

  found :
      (virt table : ℕ) (create : Bool) (m : Machine S)
      → HasTable virt table m
      → get_or_create_page_table allocator virt create m ≡ (table, m)
  unfolding get_or_create_page_table
  found virt table create m h = rw (h.present, get_or_create_page_table) (ap (λ t. (t, m)) h.entry)

  -- What `get_or_create_page_table` leaves.
  Leaves : ℕ → Machine S → ℕ × Machine S → Type 0
  Leaves virt m r =
      r.0 ≢ 0 → r.0 % page_size ≡ 0 → (r.1.directory ≡ m.directory) × HasTable virt r.0 r.1

  with_table-HasTable :
      (virt table : ℕ) (pages : S) (m : Machine S)
      → table % page_size ≡ 0
      → HasTable virt table (with_table table pages (pd_index virt) m)
  with_table-HasTable virt table pages m aligned =
      let entry = bit_or (bit_or table 1) 2 in
      let value =
        poke_self (entry_address m.directory (pd_index virt)) entry (clear_page table m.memory) in
      record {
        present =
            ap is_present value
            ∙ present_of entry (low-bit_or_two (bit_or table 1) (low-bit_or table));
        entry = ap frame value ∙ directory_entry table aligned;
      }

  old-Leaves :
      (virt : ℕ) (m : Machine S)
      → is_present (m.memory (entry_address m.directory (pd_index virt))) ≡ true
      → Leaves virt m (frame (m.memory (entry_address m.directory (pd_index virt))), m)
  unfolding Leaves
  old-Leaves virt m e exists aligned = (refl, record { present = e; entry = refl })

  null-Leaves : (virt : ℕ) (m t : Machine S) → Leaves virt m (0, t)
  unfolding Leaves
  null-Leaves virt m t exists aligned = absurd (exists refl)

  new-Leaves :
      (virt table : ℕ) (pages : S) (m : Machine S)
      → Leaves virt m (table, with_table table pages (pd_index virt) m)
  unfolding Leaves
  new-Leaves virt table pages m exists aligned =
      (refl, with_table-HasTable virt table pages m aligned)

  get_or_create-Leaves :
      (virt : ℕ) (m : Machine S) → Leaves virt m (get_or_create_page_table allocator virt true m)
  unfolding get_or_create_page_table
  get_or_create-Leaves virt m =
      let (table, pages) = allocator.alloc_page m.pages in
      if_ind (Leaves virt m) (is_present (m.memory (entry_address m.directory (pd_index virt))))
        (λ e. old-Leaves virt m e)
        (λ e.
          if_ind (Leaves virt m) (table == 0) (λ z. null-Leaves virt m (record m { pages = pages }))
            (λ z. new-Leaves virt table pages m))

  -- A store in a table that leaves the entry of the directory.
  poked-HasTable :
      (virt table at value : ℕ) (m : Machine S)
      → at ≢ entry_address m.directory (pd_index virt)
      → HasTable virt table m
      → HasTable virt table (record m { memory = poke at value m.memory })
  poked-HasTable virt table at value m apart h =
      let same = poke_ne at value (entry_address m.directory (pd_index virt)) m.memory apart in
      record { present = rw same h.present; entry = rw same h.entry }

  -- `paging_get_physical` through a table that the directory has.
  get_physical-table :
      (virt table : ℕ) (m : Machine S)
      → HasTable virt table m
      → table ≢ 0
      → get_physical allocator virt m ≡ (
          if not (is_present (m.memory (entry_address table (pt_index virt))))
          then 0
          else frame (m.memory (entry_address table (pt_index virt))))
  unfolding get_physical
  get_physical-table virt table m h exists =
      let nonzero : (table == 0) ≡ false = ne→== table 0 exists in
      rw (found virt table false m h, get_physical) (rw nonzero refl)

  -- A page that `paging_map_page` maps in a table of its own is mapped: it succeeds, and
  -- `paging_get_physical` then gives the frame, whatever the flags are.
  pub get_physical-map_page :
      (virt phys flags : ℕ) (m : Machine S)
      → virt % page_size ≡ 0
      → phys % page_size ≡ 0
      → Separate virt m
      → ((map_page allocator virt phys flags m).0 ≡ true)
        × (get_physical allocator virt (map_page allocator virt phys flags m).1 ≡ phys)
  unfolding map_page Leaves
  get_physical-map_page virt phys flags m virt_aligned phys_aligned s =
      if_ind Mapped (not (is_page_aligned virt) || not (is_page_aligned phys))
        (λ bad. absurd (ground arith))
        (λ good.
          if_ind Mapped (r.0 == 0) (λ z. absurd (s.exists (==→eq r.0 0 z)))
            (λ z. (refl, read_back)))
    where
      r : ℕ × Machine S
      r = get_or_create_page_table allocator virt true m

      Mapped : Bool × Machine S → Type 0
      Mapped q = (q.0 ≡ true) × (get_physical allocator virt q.1 ≡ phys)

      at : ℕ
      at = entry_address r.0 (pt_index virt)

      value : ℕ
      value = bit_or (bit_or phys (flags % page_size)) 1

      leaves : (r.1.directory ≡ m.directory) × HasTable virt r.0 r.1
      leaves = get_or_create-Leaves virt m s.exists s.aligned

      read_back :
          get_physical allocator virt (record r.1 { memory = poke at value r.1.memory }) ≡ phys
      read_back =
          get_physical-table virt r.0 (record r.1 { memory = poke at value r.1.memory })
            (poked-HasTable virt r.0 at value r.1
              (λ e. s.apart (e ∙ ap (λ d. entry_address d (pd_index virt)) leaves.0)) leaves.1)
            s.exists
          ∙ ap (λ v. if not (is_present v) then 0 else frame v) (poke_self at value r.1.memory)
          ∙ read_entry value phys (present_of value (low-bit_or (bit_or phys (flags % page_size))))
              (map_entry phys flags phys_aligned)
