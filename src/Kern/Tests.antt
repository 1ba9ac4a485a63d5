-- ===== src/Kern/Tests.antt =====
-- The theorems on the kernel's locks, references and encoders at small inputs.
use unics.Base.{false, ltb, ℕ, ◌+◌, ◌≡◌, ◌≢◌, refl, Option, some, List, [], ◌∷◌, Bytes, arith}
use unics.Base.Table.{count}
use unics.Kern.Intrmap.{Heap, create}
use unics.Kern.Leaks.{MapOrNothing, create-MapOrNothing}
use unics.Kern.Pclock
use unics.Kern.Pclock.{
  inside, cons_enter, run, alone, racing, leaving, lone_never_enters, losers_enter,
}
use unics.Kern.Srp.{updates, gc_init, filled, updates-count}

lone_never_enters_example : (run (alone 4 7) Pclock.init).phase 7 ≢ inside 1
lone_never_enters_example = lone_never_enters 4 7 1

losers_enter_example :
    ((run (racing 1 2 3) Pclock.init).phase 2 ≡ inside 1)
    × ((run (racing 1 2 3) Pclock.init).phase 3 ≡ inside 1)
    × (cons_enter (run (leaving 1 2 3) Pclock.init) (run (leaving 1 2 3) Pclock.init) ≡ some 2)
    × ((run (leaving 1 2 3) Pclock.init).phase 3 ≡ inside 1)
losers_enter_example = losers_enter 1 2 3 (omega arith) (omega arith) (omega arith)

-- A pointer in cell 0, another in its place, and one in cell 1.
abbrev puts : List (ℕ × Option ℕ)
puts = (0, some 8) ∷ (0, some 9) ∷ (1, some 7) ∷ []

updates-count_example :
    ((updates puts gc_init).refcnt.refs ≡ 1 + count 2 (filled (updates puts gc_init).cells))
    × ((updates puts gc_init).destroyed ≡ [])
updates-count_example =
    updates-count 2 puts (omega arith) (omega arith, (omega arith, (omega arith, tt)))

-- a tab, a letter and a byte that is not ASCII
abbrev source : Bytes
source = 9 ∷ 97 ∷ 200 ∷ []

-- An empty heap that gives four blocks, asked for a map of three CPUs, which takes five.
abbrev empty_heap : Heap
empty_heap = record { next = 0; live = λ b. false }

create-MapOrNothing_example : MapOrNothing 7 3 empty_heap (create (λ b. ltb b 4) 1 0 3 7 empty_heap)
create-MapOrNothing_example =
    create-MapOrNothing (λ b. ltb b 4) 1 0 3 7 empty_heap (omega arith) (λ b le. refl)
