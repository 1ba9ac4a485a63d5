-- ===== src/Process/Tests.antt =====
-- The table at the start of the program, and after one creation.
use unics.Base.{ℕ, ◌≡◌, ◌<◌, ◌^◌, arith, ◌⊎◌, true, none, some, [], ◌∷◌}
use unics.Base.Int.{pos}
use unics.Process.State.{Table, max_processes, is_free, first_slot, start, created, create, get}
use unics.Process.Distinct.{IsFirst, IsDistinct, Reach, Reach-IsDistinct}
use unics.Process.Laws.{get-create}

abbrev one_process : Table
one_process = (create (some (115 ∷ [])) (pos 1) start).1

one_process-Reach : Reach 1 one_process
one_process-Reach = Reach.after_create 0 start (some (115 ∷ [])) (pos 1) Reach.at_start

Reach-IsDistinct_example : IsDistinct one_process
Reach-IsDistinct_example = Reach-IsDistinct 1 one_process one_process-Reach (omega arith)

next_small : one_process.next_pid < 2 ^ 31
unfolding create first_slot
next_small = omega arith

get-create_example :
    ((create (some (101 ∷ [])) (pos 1) one_process ≡ (none, one_process))
      × ((k : ℕ) → k < max_processes → (one_process.processes k).used ≡ true))
    ⊎ ((i : ℕ) × (create (some (101 ∷ [])) (pos 1) one_process ≡ created (101 ∷ []) 1 i one_process)
        × IsFirst is_free one_process.processes 0 max_processes i
        × (get (pos one_process.next_pid) (create (some (101 ∷ [])) (pos 1) one_process).1
            ≡ some i))
get-create_example =
    get-create (101 ∷ []) 1 one_process next_small
      (Reach-IsDistinct 1 one_process one_process-Reach (omega arith))
