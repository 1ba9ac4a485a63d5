-- ===== src/Kern/Srp.antt =====
-- kern/srp.c on a uniprocessor. The destructor is code of the caller: its calls are logged, with
-- the pointer that each one gets. The cells that one collector serves are a table.
use unics.Base.{
  ℕ, zero, suc, ◌+◌, ◌-◌, ◌%◌, ◌^◌, ◌≤◌, ◌<◌, ◌≡◌, inl, inr, refl, ap, ◌∙◌, Bool, true, false,
  Option, none, is_some, List, [], ◌∷◌, arith, ◌==◌, if◌then◌else◌, ==→eq, Bool-cases, if_ind,
  fun_ext,
}
use unics.Base.Table.{update, update_same, count, count-le, count-update-true, count-update-false}
use unics.Kern.Refcnt
use unics.Kern.Refcnt.{Refcnt, take, drop, rele}

-- `struct srp_gc`, the `struct srp` cells that it serves, and the log of `srp_gc_dtor`.
pub record Gc : Type 0 where
  pub refcnt : Refcnt
  pub cells : ℕ → Option ℕ
  pub destroyed : List (Option ℕ)

-- `srp_gc_init`, and `srp_init` of every cell
abbrev pub gc_init : Gc
gc_init = record { refcnt = Refcnt.init; cells = λ i. none; destroyed = [] }

-- `srp_get_locked`
unfoldable pub get_locked : ℕ → Gc → Option ℕ
get_locked i s = s.cells i

-- `srp_swap_locked`, less its result
unfoldable pub swap_locked : ℕ → Option ℕ → Gc → Gc
swap_locked i ptr s = record s { cells = update s.cells i ptr }

-- `refcnt_rele` on the collector, with the call of the destructor when the last reference goes.
unfoldable pub release : Option ℕ → Gc → Gc
release ptr s =
    if (rele s.refcnt).0
    then record s { refcnt = (rele s.refcnt).1; destroyed = ptr ∷ s.destroyed }
    else record s { refcnt = (rele s.refcnt).1 }

-- `srp_update_locked`
unfoldable pub update_locked : ℕ → Option ℕ → Gc → Gc
update_locked i ptr s =
    let swapped = swap_locked i ptr s in
    let taken = if is_some ptr then record swapped { refcnt = take swapped.refcnt } else swapped in
    if is_some (get_locked i s) then release (get_locked i s) taken else taken

-- `srp_gc_finalize`
unfoldable pub gc_finalize : Gc → Gc
gc_finalize s = release none s

-- A sequence of updates: which cell, and the pointer it gets.
unfoldable pub updates : List (ℕ × Option ℕ) → Gc → Gc
updates [] s = s
updates (u ∷ us) s = updates us (update_locked u.0 u.1 s)

abbrev pub filled : (ℕ → Option ℕ) → ℕ → Bool
filled t i = is_some (t i)

filled-update :
    (t : ℕ → Option ℕ) (i : ℕ) (ptr : Option ℕ)
    → filled (update t i ptr) ≡ update (filled t) i (is_some ptr)
filled-update t i ptr = fun_ext (λ j. at_cell j)
  where
    at_cell : (j : ℕ) → filled (update t i ptr) j ≡ update (filled t) i (is_some ptr) j
    at_cell j = elim (Bool-cases (i == j)) [ inl e ↦ rw e refl | inr ne ↦ rw ne refl ]

-- The collector's count is `k` more than one and the number of cells, of the first `n`, that hold a
-- pointer, and no destructor has run.
record Over (k n : ℕ) (s : Gc) : Type 0 where
  counted : s.refcnt.refs ≡ 1 + k + count n (filled s.cells)
  kept : s.destroyed ≡ []

count-put :
    (n i : ℕ) (t : ℕ → Bool) (b : Bool)
    → i < n
    → count n (update t i b) + (if t i then 1 else 0) ≡ count n t + (if b then 1 else 0)
count-put n i t b lt = elim (Bool-cases (t i)) [
  | inl held ↦ rw held (with_held b held)
  | inr empty ↦ rw empty (with_empty b empty)
]
  where
    with_held :
        (b : Bool) → t i ≡ true → count n (update t i b) + 1 ≡ count n t + (if b then 1 else 0)
    with_held true held = ap (λ u. count n u + 1) (update_same t i true held)
    with_held false held = omega (arith, count-update-false n i t lt held)

    with_empty :
        (b : Bool) → t i ≡ false → count n (update t i b) + 0 ≡ count n t + (if b then 1 else 0)
    with_empty true empty = omega (arith, count-update-true n i t lt empty)
    with_empty false empty = ap (λ u. count n u + 0) (update_same t i false empty)

release-Over :
    (n : ℕ) (ptr : Option ℕ) (s : Gc) → n + 2 < 2 ^ 32 → Over 1 n s → Over 0 n (release ptr s)
unfolding release rele drop
release-Over n ptr s small inv =
    let bound : count n (filled s.cells) ≤ n = count-le n (filled s.cells) in
    let held = inv.counted in
    if_ind (Over 0 n) ((rele s.refcnt).0)
      (λ h. absurd (omega (arith, ==→eq ((s.refcnt.refs + 2 ^ 32 - 1) % 2 ^ 32) 0 h)))
      (λ h. record { counted = omega arith; kept = inv.kept })

-- The two first parts of `srp_update_locked`: the cell is set and the new pointer counted.
taken-Over :
    (n i : ℕ) (ptr : Option ℕ) (s : Gc)
    → n + 2 < 2 ^ 32
    → i < n
    → Over 0 n s
    → Over (if is_some (s.cells i) then 1 else 0) n (
        if is_some ptr
        then record (swap_locked i ptr s) { refcnt = take s.refcnt }
        else swap_locked i ptr s)
unfolding swap_locked take
taken-Over n i ptr s small lt inv =
    let bound : count n (filled s.cells) ≤ n = count-le n (filled s.cells) in
    let old = if is_some (s.cells i) then 1 else 0 in
    let total : count n (filled (update s.cells i ptr)) + old
        ≡ count n (filled s.cells) + (if is_some ptr then 1 else 0) =
      ap (λ c. count n c + old) (filled-update s.cells i ptr)
      ∙ count-put n i (filled s.cells) (is_some ptr) lt in
    let held = inv.counted in
    if_ind (Over old n) (is_some ptr)
      (λ h. record { counted = omega (arith, rw h at total); kept = inv.kept })
      (λ h. record { counted = omega (arith, rw h at total); kept = inv.kept })

update_locked-Over :
    (n i : ℕ) (ptr : Option ℕ) (s : Gc)
    → n + 2 < 2 ^ 32
    → i < n
    → Over 0 n s
    → Over 0 n (update_locked i ptr s)
unfolding update_locked get_locked swap_locked
update_locked-Over n i ptr s small lt inv =
    let taken = taken-Over n i ptr s small lt inv in
    if_ind (Over 0 n) (is_some (s.cells i))
      (λ h. release-Over n (s.cells i) _ small (rw h at taken)) (λ h. rw h at taken)

-- All the updates are of the first `n` cells.
abbrev pub Within : ℕ → List (ℕ × Option ℕ) → Type 0
Within n [] = Unit
Within n (u ∷ us) = (u.0 < n) × Within n us

updates-Over :
    (n : ℕ) (us : List (ℕ × Option ℕ)) (s : Gc)
    → n + 2 < 2 ^ 32
    → Within n us
    → Over 0 n s
    → Over 0 n (updates us s)
unfolding updates
updates-Over n [] s small ok inv = inv
updates-Over n (u ∷ us) s small ok inv =
    updates-Over n us (update_locked u.0 u.1 s) small ok.1
      (update_locked-Over n u.0 u.1 s small ok.0 inv)

count_none : (n : ℕ) → count n (filled gc_init.cells) ≡ 0
count_none zero = refl
count_none (suc n) = count_none n

-- After any sequence of updates of the first `n` cells (fewer than `2 ^ 32 - 2`) that one collector
-- serves, its count is one more than the number of cells that hold a pointer, and the destructor
-- has not been called, also not for a pointer that was replaced.
pub updates-count :
    (n : ℕ) (us : List (ℕ × Option ℕ))
    → n + 2 < 2 ^ 32
    → Within n us
    → ((updates us gc_init).refcnt.refs ≡ 1 + count n (filled (updates us gc_init).cells))
      × ((updates us gc_init).destroyed ≡ [])
updates-count n us small ok =
    let inv =
      updates-Over n us gc_init small ok
        (record { counted = omega (arith, count_none n); kept = refl }) in
    (inv.counted, inv.kept)
