-- ===== src/Process/Laws.antt =====
-- usr/sbin/process/process.c: a process is found after its creation, and only then.
use unics.Base.{
  ℕ, ◌<◌, ◌^◌, ◌≡◌, ◌⊎◌, refl, sym, ap, ◌∙◌, subst, true, false, Option, none, some, Bytes, inl,
  inr, arith, ==→eq, Bool-cases,
}
use unics.Base.Int.{pos}
use unics.Base.Table.{update_self}
use unics.Process.State.{
  Process, Table, max_processes, slot, is_free, has_pid, new_process, created, create_in, create,
  get,
}
use unics.Process.Distinct.{IsFirst, Outcome, first_slot-Outcome, IsDistinct, create-IsDistinct}

true_ne_false : ¬ true ≡ false
true_ne_false h = cc

has_pid_sound : (pid : ℕ) (p : Process) → has_pid pid p ≡ true → (p.used ≡ true) × (p.pid ≡ pid)
has_pid_sound pid p h = elim (Bool-cases p.used) [
  | inl u ↦ (u, ==→eq p.pid pid (rw u at h))
  | inr u ↦ absurd (cc (rw u at h))
]

has_pid_complete : (pid : ℕ) (p : Process) → p.used ≡ true → p.pid ≡ pid → has_pid pid p ≡ true
has_pid_complete pid p u e = ground (arith, u, e)

-- `process_get` finds the one process that has an identifier.
pub get_unique :
    (pid i : ℕ) (t : Table)
    → IsDistinct t
    → i < max_processes
    → (t.processes i).used ≡ true
    → (t.processes i).pid ≡ pid
    → get (pos pid) t ≡ some i
unfolding get
get_unique pid i t v below used e =
    reached (slot (has_pid pid) t) (first_slot-Outcome (has_pid pid) t.processes 0 max_processes)
  where
    reached : (o : Option ℕ) → Outcome (has_pid pid) t.processes 0 max_processes o → o ≡ some i
    reached _ (Outcome.found j f) =
        let (used_j, pid_j) = has_pid_sound pid (t.processes j) f.passes in
        ap some (v.distinct j i f.below below used_j used (pid_j ∙ sym e))
    reached _ (Outcome.missing m) = absurd (
        true_ne_false (sym (has_pid_complete pid (t.processes i) used e) ∙ m i (omega arith) below))

-- `process_create` fails exactly in a full table, and else takes the first free slot.
create-created :
    (name : Bytes) (ppid : ℕ) (t : Table)
    → ((create (some name) (pos ppid) t ≡ (none, t))
        × ((k : ℕ) → k < max_processes → (t.processes k).used ≡ true))
      ⊎ ((i : ℕ) × (i < max_processes)
          × (create (some name) (pos ppid) t ≡ created name ppid i t)
          × IsFirst is_free t.processes 0 max_processes i)
unfolding create
create-created name ppid t =
    taken (slot is_free t) (first_slot-Outcome is_free t.processes 0 max_processes)
  where
    in_use : (p : Process) → is_free p ≡ false → p.used ≡ true
    in_use p h = elim (Bool-cases p.used) [ inl u ↦ u | inr u ↦ absurd (cc (rw u at h)) ]

    taken :
        (o : Option ℕ)
        → Outcome is_free t.processes 0 max_processes o
        → ((create_in name ppid t o ≡ (none, t))
            × ((k : ℕ) → k < max_processes → (t.processes k).used ≡ true))
          ⊎ ((i : ℕ) × (i < max_processes)
              × (create_in name ppid t o ≡ created name ppid i t)
              × IsFirst is_free t.processes 0 max_processes i)
    taken _ (Outcome.missing m) = inl (refl, λ k h. in_use (t.processes k) (m k (omega arith) h))
    taken _ (Outcome.found i f) = inr (i, f.below, refl, f)

-- In a valid table with a next identifier below 2 ^ 31, `process_create` with a name and a parent
-- either fails, since all slots are in use, or it takes the first free slot, and `process_get` of the
-- identifier that it returns gives that slot.
pub get-create :
    (name : Bytes) (ppid : ℕ) (t : Table)
    → t.next_pid < 2 ^ 31
    → IsDistinct t
    → ((create (some name) (pos ppid) t ≡ (none, t))
        × ((k : ℕ) → k < max_processes → (t.processes k).used ≡ true))
      ⊎ ((i : ℕ) × (create (some name) (pos ppid) t ≡ created name ppid i t)
          × IsFirst is_free t.processes 0 max_processes i
          × (get (pos t.next_pid) (create (some name) (pos ppid) t).1 ≡ some i))
get-create name ppid t small v = elim (create-created name ppid t) [
  | inl full ↦ inl full
  | inr (i, below, e, f) ↦
      let u = (created name ppid i t).1 in
      let valid : IsDistinct u =
        subst (λ (r : Option ℕ × Table). IsDistinct r.1) e
          (create-IsDistinct (some name) (pos ppid) t small v) in
      let here : u.processes i ≡ new_process t.next_pid name ppid =
        update_self t.processes i (new_process t.next_pid name ppid) in
      inr (
        i,
        e,
        f,
        ap (λ (r : Option ℕ × Table). get (pos t.next_pid) r.1) e
            ∙ get_unique t.next_pid i u valid below (ap (λ (p : Process). p.used) here)
                (ap (λ (p : Process). p.pid) here),
      )
]
