-- ===== src/Kern/Leaks.antt =====
-- `intrmap_create` makes a whole map or leaks nothing.
use unics.Base.{
  ℕ, zero, suc, ◌+◌, ◌%◌, ◌^◌, ◌≤◌, ◌<◌, ◌≡◌, inl, inr, refl, ap, ◌∙◌, fun_ext, Bool, true, false,
  ◌&&◌, Option, none, some, arith, ltb, leb, ◌==◌, ==→eq, ==→ne, if◌then◌else◌, Bool-cases, subst,
}
use unics.Base.Table.{update}
use unics.Kern.Intrmap.{
  Heap, malloc, free, CpuInfo, Intrmap, free_cpus, create_cpus, no_cpus, array_room, finish_create,
  create, cpu, IsFresh,
}

-- The blocks in use after `i` calls of `malloc` that begin at block `c`.
abbrev with_blocks : ℕ → ℕ → (ℕ → Bool) → ℕ → Bool
with_blocks c i live b = if leb c b && ltb b (c + i) then true else live b

-- The loop has made `i` entries since the heap had the blocks `live` and the next one was `c`.
record Made (base c : ℕ) (live : ℕ → Bool) (i : ℕ) (cpus : ℕ → CpuInfo) (h : Heap) : Type 0 where
  counted : h.next ≡ c + i
  blocks : (j : ℕ) → j < i → (cpus j).block ≡ c + j
  ids : (j : ℕ) → j < i → (cpus j).cpu_id ≡ (base + j) % 2 ^ 32
  used : (b : ℕ) → h.live b ≡ with_blocks c i live b

-- What a loop of `n` rounds leaves.
data Outcome (base c : ℕ) (live : ℕ → Bool) (n : ℕ)
    : Option (Option (ℕ → CpuInfo) × Heap) → Type 0 where
  failed : (h : Heap) → ((b : ℕ) → h.live b ≡ live b) → Outcome base c live n (some (none, h))
  done :
      (cpus : ℕ → CpuInfo) (h : Heap)
      → Made base c live n cpus h
      → Outcome base c live n (some (some cpus, h))

free_one :
    (c i b : ℕ) (live : ℕ → Bool)
    → live (c + i) ≡ false
    → update (with_blocks c (suc i) live) (c + i) false b ≡ with_blocks c i live b
free_one c i b live unused = elim (Bool-cases (c + i == b)) [
  | inl e ↦ rw (← ==→eq (c + i) b e) (ground (arith, unused))
  | inr ne ↦ ground (arith, ne)
]

free_cpus_lem :
    (c : ℕ) (live : ℕ → Bool) (i : ℕ) (cpus : ℕ → CpuInfo) (h : Heap)
    → ((b : ℕ) → c ≤ b → live b ≡ false)
    → ((j : ℕ) → j < i → (cpus j).block ≡ c + j)
    → ((b : ℕ) → h.live b ≡ with_blocks c i live b)
    → (b : ℕ) → (free_cpus i cpus h).live b ≡ live b
unfolding free_cpus
free_cpus_lem c live zero cpus h fresh blocks used b = used b ∙ ground arith
free_cpus_lem c live (suc i) cpus h fresh blocks used b =
    free_cpus_lem c live i cpus (free (cpus i).block h) fresh (λ j lt. blocks j (omega arith))
      (λ d.
        ap (λ x. update h.live x false d) (blocks i (omega arith))
        ∙ ap (λ f. update f (c + i) false d) (fun_ext used)
        ∙ free_one c i d live (fresh (c + i) (omega arith)))
      b

make_one :
    (base c : ℕ) (live : ℕ → Bool) (i : ℕ) (cpus : ℕ → CpuInfo) (h : Heap)
    → Made base c live i cpus h
    → Made base c live
        (i + 1)
        (update cpus i (record { block = h.next; cpu_id = (base + i) % 2 ^ 32 }))
        (malloc h)
make_one base c live i cpus h m = record {
  counted = omega (arith, m.counted);
  blocks = λ j lt. elim (Bool-cases (i == j)) [
    | inl e ↦ rw e (m.counted ∙ omega (arith, ==→eq i j e))
    | inr ne ↦ rw ne (m.blocks j (omega (arith, ==→ne i j ne)))
  ];
  ids = λ j lt. elim (Bool-cases (i == j)) [
    | inl e ↦ rw e (omega (arith, ==→eq i j e))
    | inr ne ↦ rw ne (m.ids j (omega (arith, ==→ne i j ne)))
  ];
  used = λ b. ap (λ f. update f h.next true b) (fun_ext m.used) ∙ rw m.counted (ground arith);
}

create_cpus-Outcome :
    (grants : ℕ → Bool) (base room c : ℕ) (live : ℕ → Bool) (k i n : ℕ) (cpus : ℕ → CpuInfo)
    (h : Heap)
    → i + k ≡ n
    → n ≤ room
    → ((b : ℕ) → c ≤ b → live b ≡ false)
    → Made base c live i cpus h
    → Outcome base c live n (create_cpus grants base room k i cpus h)
unfolding create_cpus
create_cpus-Outcome grants base room c live zero i n cpus h e fits fresh m =
    let same : i ≡ n = omega arith in done cpus h (subst (λ l. Made base c live l cpus h) same m)
create_cpus-Outcome grants base room c live (suc k) i n cpus h e fits fresh m =
    let inside : leb room i ≡ false = ground arith in
    elim (Bool-cases (grants h.next)) [
      | inr refused ↦
          rw (inside, refused, create_cpus)
            (failed (free_cpus i cpus h) (free_cpus_lem c live i cpus h fresh m.blocks m.used))
      | inl granted ↦
          rw (inside, granted, create_cpus)
            (create_cpus-Outcome grants base room c live k (i + 1) n
              (update cpus i (record { block = h.next; cpu_id = (base + i) % 2 ^ 32 })) (malloc h)
              (omega arith) fits fresh (make_one base c live i cpus h m))
    ]

-- What a creation of a map of `n` CPUs should leave: no map, and the same blocks in use as before; or
-- a map of `n` entries, in which CPU `idx` has the number `base + idx`, as a 32-bit number.
pub data MapOrNothing (base n : ℕ) (h : Heap) : Option (Option Intrmap × Heap) → Type 0 where
  nothing : (h' : Heap) → ((b : ℕ) → h'.live b ≡ h.live b) → MapOrNothing base n h (some (none, h'))
  whole_map :
      (im : Intrmap) (h' : Heap)
      → ((idx : ℕ) → idx < n → cpu (some im) idx ≡ some (im.cpus idx))
      → ((idx : ℕ) → idx < n → (im.cpus idx).cpu_id ≡ (base + idx) % 2 ^ 32)
      → MapOrNothing base n h (some (some im, h'))

free_last :
    (h : Heap) (live : ℕ → Bool) (block b : ℕ)
    → live block ≡ false
    → update (update live block true) block false b ≡ live b
free_last h live block b unused = elim (Bool-cases (block == b)) [
  | inl e ↦ rw (← ==→eq block b e) (ground (arith, unused))
  | inr ne ↦ ground (arith, ne)
]

free_two :
    (live : ℕ → Bool) (block b : ℕ)
    → live block ≡ false
    → live (block + 1) ≡ false
    → update
        (update (update (update live block true) (block + 1) true) (block + 1) false)
        block
        false
        b
      ≡ live b
free_two live block b unused unused' = elim (Bool-cases (block == b)) [
  | inl e ↦ rw (← ==→eq block b e) (ground (arith, unused))
  | inr ne ↦ elim (Bool-cases (block + 1 == b)) [
    | inl e ↦ rw (← ==→eq (block + 1) b e) (ground (arith, unused'))
    | inr ne' ↦ ground (arith, ne, ne')
  ]
]

finish_create-MapOrNothing :
    (device flags base n : ℕ) (h : Heap) (r : Option (Option (ℕ → CpuInfo) × Heap))
    → IsFresh h
    → Outcome base (h.next + 2) (malloc (malloc h)).live n r
    → MapOrNothing base n h (finish_create h.next device flags n r)
unfolding finish_create cpu
finish_create-MapOrNothing device flags base n h _ fresh (failed h' same) = nothing _ (λ b.
    ap (λ f. update (update f (h.next + 1) false) h.next false b) (fun_ext same)
    ∙ free_two h.live h.next b (fresh h.next (omega arith)) (fresh (h.next + 1) (omega arith)))
finish_create-MapOrNothing device flags base n h _ fresh (done cpus h' m) =
    whole_map _ h' (λ idx lt. ground arith) m.ids

-- `intrmap_create` on a heap in which the blocks still to be given are unused, for fewer than 2 ^ 30
-- CPUs: whichever of its calls of `malloc` fail, it stays inside its array and returns either a map of
-- all the CPUs, numbered from the base on modulo 2 ^ 32, or NULL with every block freed that it had got.
pub create-MapOrNothing :
    (grants : ℕ → Bool) (device flags n base : ℕ) (h : Heap)
    → n < 2 ^ 30
    → IsFresh h
    → MapOrNothing base n h (create grants device flags n base h)
unfolding create
create-MapOrNothing grants device flags n base h few fresh = elim (Bool-cases (grants h.next)) [
  | inr refused ↦ rw refused (nothing h (λ b. refl))
  | inl first ↦ elim (Bool-cases (grants (h.next + 1))) [
    | inr refused ↦
        rw (first, refused)
          (nothing (free h.next (malloc h))
            (λ b. free_last h h.live h.next b (fresh h.next (omega arith))))
    | inl second ↦
        rw (first, second)
          (finish_create-MapOrNothing device flags base n h _ fresh (
            create_cpus-Outcome grants base (array_room n) (h.next + 2) (malloc (malloc h)).live n 0
              n no_cpus (malloc (malloc h)) (omega arith) (omega arith) (λ b le. unused b le)
              (record {
                counted = omega arith;
                blocks = λ j lt. absurd (omega arith);
                ids = λ j lt. absurd (omega arith);
                used = λ b. ground arith;
              })))
  ]
]
  where
    unused : (b : ℕ) → h.next + 2 ≤ b → (malloc (malloc h)).live b ≡ false
    unused b le = ground (arith, fresh b)
