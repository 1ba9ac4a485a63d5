-- ===== src/Process/State.antt =====
-- usr/sbin/process/process.c and usr/include/sys/process.h. A slot of `process_table` is an index, and
-- the table is a function of it. An identifier that the table holds is a 32-bit word, as `next_pid`
-- wraps around; from 2 ^ 31 on it is a negative `int`. Arguments are integers in the range of `int`.
use unics.Base.{
  ℕ, zero, suc, ◌+◌, ◌%◌, ◌^◌, Bool, true, false, not, ◌&&◌, Option, none, some, [], ◌∷◌, Bytes,
  take, ltb, ◌==◌, eq_bytes, if◌then◌else◌,
}
use unics.Base.Int.{ℤ, pos, negsuc}
use unics.Base.Table.{update, count}

-- `MAX_PROCESSES`, and `MAX_PROCESS_NAME - 1`
abbrev pub max_processes : ℕ
max_processes = 32

abbrev pub name_room : ℕ
name_room = 31

-- `ProcessState`
pub data ProcessState : Type 0 where
  unused running sleeping stopped zombie : ProcessState

abbrev pub is_zombie : ProcessState → Bool
is_zombie zombie = true
is_zombie running = false
is_zombie sleeping = false
is_zombie stopped = false
is_zombie unused = false

-- `Process`: the name is the string in `name`.
pub record Process : Type 0 where
  pub pid : ℕ
  pub name : Bytes
  pub state : ProcessState
  pub ppid : ℕ
  pub used : Bool

-- `process_table` and `next_pid`
pub record Table : Type 0 where
  pub processes : ℕ → Process
  pub next_pid : ℕ

-- The process after `memset` and the two stores of `process_cleanup`.
abbrev pub no_process : Process
no_process = record { pid = 0; name = []; state = unused; ppid = 0; used = false }

-- The state at the start of the program: `PROCESS_RUNNING` is 0.
abbrev pub start : Table
start = record { processes = λ i. record no_process { state = running }; next_pid = 100 }

-- `process_init`
unfoldable pub init : Table → Table
init t = record t {
  processes = λ i.
      if ltb i max_processes
      then record (t.processes i) { used = false; state = unused }
      else t.processes i;
}

-- The loops over the table: the first slot from `i` on, of `n`, that passes a test.
unfoldable pub first_slot : (Process → Bool) → (ℕ → Process) → ℕ → ℕ → Option ℕ
first_slot test ps i zero = none
first_slot test ps i (suc n) = if test (ps i) then some i else first_slot test ps (i + 1) n

abbrev pub slot : (Process → Bool) → Table → Option ℕ
slot test t = first_slot test t.processes 0 max_processes

-- The tests of the loops.
abbrev pub is_free : Process → Bool
is_free p = not p.used

abbrev pub has_pid : ℕ → Process → Bool
has_pid pid p = p.used && (p.pid == pid)

abbrev pub is_dead : ℕ → Process → Bool
is_dead pid p = has_pid pid p && is_zombie p.state

abbrev pub has_name : Bytes → Process → Bool
has_name name p = p.used && eq_bytes p.name name

abbrev pub set_process : ℕ → Process → Table → Table
set_process i p t = record t { processes = update t.processes i p }

abbrev pub new_process : ℕ → Bytes → ℕ → Process
new_process pid name ppid = record {
  pid = pid;
  name = take name_room name;
  state = running;
  ppid = ppid;
  used = true;
}

-- What `process_create` returns and leaves when it takes the slot `i`.
abbrev pub created : Bytes → ℕ → ℕ → Table → Option ℕ × Table
created name ppid i t = (
  some t.next_pid,
  record (set_process i (new_process t.next_pid name ppid) t) {
    next_pid = (t.next_pid + 1) % 2 ^ 32;
  },
)

-- The body of `process_create`, with what its loop finds.
abbrev pub create_in : Bytes → ℕ → Table → Option ℕ → Option ℕ × Table
create_in name ppid t none = (none, t)
create_in name ppid t (some i) = created name ppid i t

-- `process_create`; the result -1 of a failure is `none`.
unfoldable pub create : Option Bytes → ℤ → Table → Option ℕ × Table
create none ppid t = (none, t)
create (some name) (negsuc n) t = (none, t)
create (some name) (pos ppid) t = create_in name ppid t (slot is_free t)

-- `process_kill`; the result 0 is `true`.
unfoldable pub kill : ℤ → Table → Bool × Table
kill (negsuc n) t = (false, t)
kill (pos pid) t = elim (slot (has_pid pid) t) [
  | none ↦ (false, t)
  | some i ↦ (true, set_process i (record (t.processes i) { state = zombie }) t)
]

-- `process_cleanup`
unfoldable pub cleanup : ℤ → Table → Bool × Table
cleanup (negsuc n) t = (false, t)
cleanup (pos pid) t = elim (slot (is_dead pid) t) [
  | none ↦ (false, t)
  | some i ↦ (true, set_process i no_process t)
]

-- `process_get`: the slot, or NULL.
unfoldable pub get : ℤ → Table → Option ℕ
get (negsuc n) t = none
get (pos pid) t = slot (has_pid pid) t

-- `process_find`: the process identifier, or -1.
unfoldable pub find : Option Bytes → Table → Option ℕ
find none t = none
find (some name) t = elim (slot (has_name name) t) [
  | none ↦ none
  | some i ↦ some (t.processes i).pid
]

-- `process_count`
unfoldable pub count_processes : Table → ℕ
count_processes t = count max_processes (λ i. (t.processes i).used)

-- `state_to_string`
abbrev pub state_to_string : ProcessState → Bytes
state_to_string running = 82 ∷ 85 ∷ 78 ∷ 78 ∷ 73 ∷ 78 ∷ 71 ∷ []
state_to_string sleeping = 83 ∷ 76 ∷ 69 ∷ 69 ∷ 80 ∷ 73 ∷ 78 ∷ 71 ∷ []
state_to_string stopped = 83 ∷ 84 ∷ 79 ∷ 80 ∷ 80 ∷ 69 ∷ 68 ∷ []
state_to_string zombie = 90 ∷ 79 ∷ 77 ∷ 66 ∷ 73 ∷ 69 ∷ []
state_to_string unused = 85 ∷ 78 ∷ 85 ∷ 83 ∷ 69 ∷ 68 ∷ []
