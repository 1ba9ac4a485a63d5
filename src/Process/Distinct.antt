-- ===== src/Process/Distinct.antt =====
-- usr/sbin/process/process.c: what the loops find, and the identifiers of the processes in use.
use unics.Base.{
  ℕ, zero, suc, ◌+◌, ◌%◌, ◌^◌, ◌≤◌, ◌<◌, ◌≡◌, refl, sym, ap, ◌∙◌, Bool, true, false, ◌&&◌, Option,
  none, some, Bytes, inl, inr, arith, ltb, ◌==◌, ==→eq, ==→ne, if_ind, option_ind, Bool-cases,
}
use unics.Base.Int.{ℤ, pos, negsuc}
use unics.Base.Table.{update}
use unics.Process.State.{
  Process, Table, max_processes, no_process, start, init, first_slot, slot, is_free, has_pid,
  is_dead, set_process, created, create_in, create, kill, cleanup, zombie,
}

-- A slot that a loop finds is the first of its range that passes the test.
pub record IsFirst (test : Process → Bool) (ps : ℕ → Process) (i n j : ℕ) : Type 0 where
  pub above : i ≤ j
  pub below : j < i + n
  pub passes : test (ps j) ≡ true
  pub before : (k : ℕ) → i ≤ k → k < j → test (ps k) ≡ false

-- The outcome of a loop: the first slot that passes, or none because none does.
pub data Outcome (test : Process → Bool) (ps : ℕ → Process) (i n : ℕ) : Option ℕ → Type 0 where
  found : (j : ℕ) → IsFirst test ps i n j → Outcome test ps i n (some j)
  missing : ((k : ℕ) → i ≤ k → k < i + n → test (ps k) ≡ false) → Outcome test ps i n none

pub first_slot-Outcome :
    (test : Process → Bool) (ps : ℕ → Process) (i n : ℕ)
    → Outcome test ps i n (first_slot test ps i n)
unfolding first_slot
first_slot-Outcome test ps i zero = Outcome.missing (λ k lo hi. absurd (omega arith))
first_slot-Outcome test ps i (suc n) =
    if_ind (Outcome test ps i (suc n)) (test (ps i))
      (λ e. Outcome.found i (record {
        above = omega arith;
        below = omega arith;
        passes = e;
        before = λ k lo hi. absurd (omega arith);
      }))
      (λ e. extend e (first_slot test ps (i + 1) n) (first_slot-Outcome test ps (i + 1) n))
  where
    at_or_after :
        test (ps i) ≡ false
        → (k : ℕ) → i ≤ k
        → (i + 1 ≤ k → test (ps k) ≡ false)
        → test (ps k) ≡ false
    at_or_after e k lo h = elim (Bool-cases (i == k)) [
      | inl q ↦ ap (λ (m : ℕ). test (ps m)) (sym (==→eq i k q)) ∙ e
      | inr q ↦ h (omega (arith, ==→ne i k q))
    ]

    extend :
        test (ps i) ≡ false
        → (o : Option ℕ) → Outcome test ps (i + 1) n o
        → Outcome test ps i (suc n) o
    extend e _ (Outcome.found j f) = Outcome.found j (record {
      above = omega (arith, f.above);
      below = omega (arith, f.below);
      passes = f.passes;
      before = λ k lo hi. at_or_after e k lo (λ next. f.before k next hi);
    })
    extend e _ (Outcome.missing m) =
        Outcome.missing (λ k lo hi. at_or_after e k lo (λ next. m k next (omega arith)))

-- The processes in use have different identifiers, all below the next one.
pub record IsDistinct (t : Table) : Type 0 where
  pub below_next :
      (i : ℕ) → i < max_processes → (t.processes i).used ≡ true → (t.processes i).pid < t.next_pid
  pub distinct :
      (i j : ℕ)
      → i < max_processes
      → j < max_processes
      → (t.processes i).used ≡ true
      → (t.processes j).used ≡ true
      → (t.processes i).pid ≡ (t.processes j).pid
      → i ≡ j

-- A change of one slot that keeps the identifier, or puts the slot out of use.
change-IsDistinct :
    (i : ℕ) (p : Process) (t : Table)
    → (p.used ≡ true → (t.processes i).used ≡ true)
    → (p.used ≡ true → p.pid ≡ (t.processes i).pid)
    → IsDistinct t
    → IsDistinct (set_process i p t)
change-IsDistinct i p t used same v = record {
  below_next = λ k h u. let (was, e) = kept k u in omega (arith, v.below_next k h was);
  distinct = λ k l hk hl uk ul e.
      let (was_k, same_k) = kept k uk in
      let (was_l, same_l) = kept l ul in v.distinct k l hk hl was_k was_l (sym same_k ∙ e ∙ same_l);
}
  where
    kept :
        (k : ℕ)
        → (update t.processes i p k).used ≡ true
        → ((t.processes k).used ≡ true) × ((update t.processes i p k).pid ≡ (t.processes k).pid)
    kept k =
        if_ind
          (λ (q : Process).
            q.used ≡ true → ((t.processes k).used ≡ true) × (q.pid ≡ (t.processes k).pid))
          (i == k)
          (λ e u.
            let here = ==→eq i k e in
            (
              ap (λ (m : ℕ). (t.processes m).used) (sym here) ∙ used u,
              same u ∙ ap (λ (m : ℕ). (t.processes m).pid) here,
            ))
          (λ e u. (u, refl))

-- `process_create` in a slot.
created-IsDistinct :
    (i : ℕ) (name : Bytes) (ppid : ℕ) (t : Table)
    → t.next_pid < 2 ^ 31
    → IsDistinct t
    → IsDistinct (created name ppid i t).1
created-IsDistinct i name ppid t small v = record {
  below_next = λ k h u.
      if_ind (λ (q : Process). (q.used ≡ true → q.pid < (t.next_pid + 1) % 2 ^ 32)) (i == k)
        (λ e u. omega arith) (λ e u. omega (arith, v.below_next k h u)) u;
  distinct = λ k l hk hl uk ul e. elim (Bool-cases (i == k)) [
    | inl ik ↦ elim (Bool-cases (i == l)) [
      | inl il ↦ sym (==→eq i k ik) ∙ ==→eq i l il
      | inr il ↦ absurd (omega (arith, v.below_next l hl (rw il at ul), (rw (ik, il) at e)))
    ]
    | inr ik ↦ elim (Bool-cases (i == l)) [
      | inl il ↦ absurd (omega (arith, v.below_next k hk (rw ik at uk), (rw (ik, il) at e)))
      | inr il ↦ v.distinct k l hk hl (rw ik at uk) (rw il at ul) (rw (ik, il) at e)
    ]
  ];
}

true_of_and : (b c : Bool) → (b && c) ≡ true → b ≡ true
true_of_and true c h = refl
true_of_and false c h = h

pub create-IsDistinct :
    (name : Option Bytes) (ppid : ℤ) (t : Table)
    → t.next_pid < 2 ^ 31
    → IsDistinct t
    → IsDistinct (create name ppid t).1
unfolding create
create-IsDistinct none ppid t small v = v
create-IsDistinct (some name) (negsuc n) t small v = v
create-IsDistinct (some name) (pos ppid) t small v = taken (slot is_free t)
  where
    taken : (o : Option ℕ) → IsDistinct (create_in name ppid t o).1
    taken none = v
    taken (some i) = created-IsDistinct i name ppid t small v

pub kill-IsDistinct : (pid : ℤ) (t : Table) → IsDistinct t → IsDistinct (kill pid t).1
unfolding kill
kill-IsDistinct (negsuc n) t v = v
kill-IsDistinct (pos pid) t v =
    option_ind (λ (r : Bool × Table). IsDistinct r.1) (slot (has_pid pid) t) (λ e. v)
      (λ i e.
        change-IsDistinct i (record (t.processes i) { state = zombie }) t (λ u. u) (λ u. refl) v)

pub cleanup-IsDistinct : (pid : ℤ) (t : Table) → IsDistinct t → IsDistinct (cleanup pid t).1
unfolding cleanup
cleanup-IsDistinct (negsuc n) t v = v
cleanup-IsDistinct (pos pid) t v =
    option_ind (λ (r : Bool × Table). IsDistinct r.1) (slot (is_dead pid) t) (λ e. v)
      (λ i e. change-IsDistinct i no_process t (λ u. absurd (cc)) (λ u. absurd (cc)) v)

pub init-IsDistinct : (t : Table) → IsDistinct (init t)
unfolding init
init-IsDistinct t = record {
  below_next = λ i h u. absurd (unused i h u);
  distinct = λ i j hi hj ui uj e. absurd (unused i hi ui);
}
  where
    unused : (i : ℕ) → i < max_processes → ¬ ((init t).processes i).used ≡ true
    unused i h u = let e : ltb i max_processes ≡ true = ground arith in cc (rw e at u)

-- The states that calls lead to from the start of the program, by the number of calls of
-- `process_create` among them.
pub data Reach : ℕ → Table → Type 0 where
  at_start : Reach 0 start
  after_init : (n : ℕ) (t : Table) → Reach n t → Reach n (init t)
  after_create :
      (n : ℕ) (t : Table) (name : Option Bytes) (ppid : ℤ)
      → Reach n t
      → Reach (suc n) (create name ppid t).1
  after_kill : (n : ℕ) (t : Table) (pid : ℤ) → Reach n t → Reach n (kill pid t).1
  after_cleanup : (n : ℕ) (t : Table) (pid : ℤ) → Reach n t → Reach n (cleanup pid t).1

create-next_pid :
    (name : Option Bytes) (ppid : ℤ) (t : Table) → (create name ppid t).1.next_pid ≤ t.next_pid + 1
unfolding create
create-next_pid none ppid t = omega arith
create-next_pid (some name) (negsuc n) t = omega arith
create-next_pid (some name) (pos ppid) t = taken (slot is_free t)
  where
    taken : (o : Option ℕ) → (create_in name ppid t o).1.next_pid ≤ t.next_pid + 1
    taken none = omega arith
    taken (some i) = omega arith

kill-next_pid : (pid : ℤ) (t : Table) → (kill pid t).1.next_pid ≡ t.next_pid
unfolding kill
kill-next_pid (negsuc n) t = refl
kill-next_pid (pos pid) t =
    option_ind (λ (r : Bool × Table). r.1.next_pid ≡ t.next_pid) (slot (has_pid pid) t) (λ e. refl)
      (λ i e. refl)

cleanup-next_pid : (pid : ℤ) (t : Table) → (cleanup pid t).1.next_pid ≡ t.next_pid
unfolding cleanup
cleanup-next_pid (negsuc n) t = refl
cleanup-next_pid (pos pid) t =
    option_ind (λ (r : Bool × Table). r.1.next_pid ≡ t.next_pid) (slot (is_dead pid) t) (λ e. refl)
      (λ i e. refl)

-- Each creation takes one identifier at most.
Reach-next_pid : (n : ℕ) (t : Table) → Reach n t → t.next_pid ≤ 100 + n
unfolding init
Reach-next_pid _ _ Reach.at_start = omega arith
Reach-next_pid _ _ (Reach.after_init n t r) = Reach-next_pid n t r
Reach-next_pid _ _ (Reach.after_create n t name ppid r) =
    omega (arith, create-next_pid name ppid t, Reach-next_pid n t r)
Reach-next_pid _ _ (Reach.after_kill n t pid r) =
    omega (arith, kill-next_pid pid t, Reach-next_pid n t r)
Reach-next_pid _ _ (Reach.after_cleanup n t pid r) =
    omega (arith, cleanup-next_pid pid t, Reach-next_pid n t r)

-- After any calls with at most 2 ^ 31 - 100 calls of `process_create` among them, the processes in use
-- have different identifiers, all below the next one to give.
pub Reach-IsDistinct : (n : ℕ) (t : Table) → Reach n t → 100 + n ≤ 2 ^ 31 → IsDistinct t
Reach-IsDistinct _ _ Reach.at_start h = record {
  below_next = λ i h u. absurd (cc);
  distinct = λ i j hi hj ui uj e. absurd (cc);
}
Reach-IsDistinct _ _ (Reach.after_init n t r) h = init-IsDistinct t
Reach-IsDistinct _ _ (Reach.after_create n t name ppid r) h =
    create-IsDistinct name ppid t (omega (arith, Reach-next_pid n t r))
      (Reach-IsDistinct n t r (omega arith))
Reach-IsDistinct _ _ (Reach.after_kill n t pid r) h =
    kill-IsDistinct pid t (Reach-IsDistinct n t r h)
Reach-IsDistinct _ _ (Reach.after_cleanup n t pid r) h =
    cleanup-IsDistinct pid t (Reach-IsDistinct n t r h)
