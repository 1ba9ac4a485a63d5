-- ===== src/Kern/Refcnt.antt =====
-- kern/refcnt.c. Each function is one atomic access of `r_refs`, an `unsigned int`.
use unics.Base.{not, ◌<◌, ◌≡◌, ap, ◌∙◌, arith, ℕ, ◌+◌, ◌-◌, ◌%◌, ◌^◌, Bool, ltb, ◌==◌}

-- `struct refcnt`
pub record Refcnt : Type 0 where
  pub refs : ℕ
  pub traceidx : ℕ

-- `refcnt_init`
abbrev pub init : Refcnt
init = record { refs = 1; traceidx = 0 }

-- `refcnt_init_trace`
abbrev pub init_trace : ℕ → Refcnt
init_trace id = record { refs = 1; traceidx = id }

-- `refcnt_take`
unfoldable pub take : Refcnt → Refcnt
take r = record r { refs = (r.refs + 1) % 2 ^ 32 }

-- The new count of `refcnt_rele`.
unfoldable pub drop : Refcnt → Refcnt
drop r = record r { refs = (r.refs + 2 ^ 32 - 1) % 2 ^ 32 }

-- `refcnt_rele`
unfoldable pub rele : Refcnt → Bool × Refcnt
rele r = ((drop r).refs == 0, drop r)

-- `refcnt_shared`
unfoldable pub shared : Refcnt → Bool
shared r = ltb 1 r.refs

-- `refcnt_read`
unfoldable pub read : Refcnt → ℕ
read r = r.refs

-- `refcnt_rele_wake`, whose branch for the last reference is empty
unfoldable pub rele_wake : Refcnt → Refcnt
unfolding rele
rele_wake r = (rele r).1

-- `refcnt_finalize`: whether it complains that references are held
unfoldable pub finalize : Refcnt → Bool
finalize r = not (r.refs == 0)

-- A reference that is taken and released again leaves the count as it was, and the release reports
-- the last reference exactly when the count was 0 before.
pub rele-take :
    (r : Refcnt)
    → r.refs < 2 ^ 32
    → ((rele (take r)).1 ≡ r) × ((rele (take r)).0 ≡ not (finalize r))
unfolding rele take drop finalize
rele-take r h =
    let same : ((r.refs + 1) % 2 ^ 32 + 2 ^ 32 - 1) % 2 ^ 32 ≡ r.refs = omega arith in
    (ap (λ c. record r { refs = c }) same, ap (λ c. c == 0) same ∙ ground arith)
