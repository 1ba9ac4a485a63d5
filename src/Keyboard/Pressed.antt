-- ===== src/Keyboard/Pressed.antt =====
-- dev/keyboard/keyboard.c: every function of the driver keeps the modifiers in step with their keys.
use unics.Base.{
  ℕ, zero, suc, ◌-◌, ◌≡◌, refl, sym, subst, Bool, true, false, not, ◌||◌, Option, none, some, ◌==◌,
  if_ind, bit_and,
}
use Prim.{Unit}
use unics.Keyboard.State.{Flags, no_flags, Kb}
use unics.Keyboard.Driver.{
  inb, after_read, with_flags, set_leds, update_leds, flush, init, enable_input, set_boot_complete,
  left_shift, right_shift, update_ctrl, update_alt, release, clear_extended, handle_key_release,
  press_shift, toggle_caps, toggle_num, toggle_scroll, press, handle_key_press, wait_output,
  is_extended, is_release, take_code, read_codes, getchar, check_escape,
}
use unics.Keyboard.Modifiers.{Consistent, set_leds-flags, update_leds-flags}

-- A change of other flags than those of the modifiers.
same-Consistent :
    (f g : Flags)
    → Consistent f
    → g.shift_pressed ≡ f.shift_pressed
    → g.left_shift_pressed ≡ f.left_shift_pressed
    → g.right_shift_pressed ≡ f.right_shift_pressed
    → g.ctrl_pressed ≡ f.ctrl_pressed
    → g.left_ctrl_pressed ≡ f.left_ctrl_pressed
    → g.right_ctrl_pressed ≡ f.right_ctrl_pressed
    → g.alt_pressed ≡ f.alt_pressed
    → g.left_alt_pressed ≡ f.left_alt_pressed
    → g.right_alt_pressed ≡ f.right_alt_pressed
    → Consistent g
same-Consistent f g v s sl sr c cl cr a al ar = record {
  shift = rw (s, sl, sr) v.shift;
  ctrl = rw (c, cl, cr) v.ctrl;
  alt = rw (a, al, ar) v.alt;
}

set_leds-Consistent : (leds : ℕ) (s : Kb) → Consistent s.flags → Consistent (set_leds leds s).flags
set_leds-Consistent leds s v =
    set_leds-flags leds s Consistent v
      (same-Consistent s.flags _ v refl refl refl refl refl refl refl refl refl)

update_leds-Consistent : (s : Kb) → Consistent s.flags → Consistent (update_leds s).flags
update_leds-Consistent s v = subst Consistent (sym (update_leds-flags s)) v

left_shift-Consistent : (p : Bool) (f : Flags) → Consistent f → Consistent (left_shift p f)
left_shift-Consistent p f v = record { shift = refl; ctrl = v.ctrl; alt = v.alt }

right_shift-Consistent : (p : Bool) (f : Flags) → Consistent f → Consistent (right_shift p f)
right_shift-Consistent p f v = record { shift = refl; ctrl = v.ctrl; alt = v.alt }

update_ctrl-Consistent : (p : Bool) (f : Flags) → Consistent f → Consistent (update_ctrl p f)
update_ctrl-Consistent p f v = record { shift = v.shift; ctrl = refl; alt = v.alt }

update_alt-Consistent : (p : Bool) (f : Flags) → Consistent f → Consistent (update_alt p f)
update_alt-Consistent p f v = record { shift = v.shift; ctrl = v.ctrl; alt = refl }

or_true : (b : Bool) → true ≡ (b || true)
or_true true = refl
or_true false = refl

press_shift-Consistent : (left : Bool) (f : Flags) → Consistent f → Consistent (press_shift left f)
press_shift-Consistent true f v = record { shift = refl; ctrl = v.ctrl; alt = v.alt }
press_shift-Consistent false f v = record {
  shift = or_true f.left_shift_pressed;
  ctrl = v.ctrl;
  alt = v.alt;
}

release-Consistent : (code : ℕ) (f : Flags) → Consistent f → Consistent (release code f)
unfolding release
release-Consistent code f v =
    if_ind Consistent (code == 42) (λ h. left_shift-Consistent false f v)
      (λ h.
        if_ind Consistent (code == 54) (λ h. right_shift-Consistent false f v)
          (λ h.
            if_ind Consistent (code == 29) (λ h. update_ctrl-Consistent false f v)
              (λ h.
                if_ind Consistent (code == 56) (λ h. update_alt-Consistent false f v) (λ h. v))))

-- The flags of a state.
Steady : Kb → Type 0
Steady s = Consistent s.flags

with_flags-Steady : (g : Flags → Flags) (s : Kb) → Consistent (g s.flags) → Steady (with_flags g s)
unfolding Steady
with_flags-Steady g s v = v

toggled-Steady :
    (g : Flags → Flags) (s : Kb) → Consistent (g s.flags) → Steady (update_leds (with_flags g s))
unfolding Steady
toggled-Steady g s v = update_leds-Consistent (with_flags g s) v

-- A change of the locks.
locks-Consistent :
    (f : Flags) (c n l : Bool)
    → Consistent f
    → Consistent (record f { caps_lock = c; num_lock = n; scroll_lock = l })
locks-Consistent f c n l v = same-Consistent f _ v refl refl refl refl refl refl refl refl refl

flags-Steady : (s : Kb) → Steady s → Consistent s.flags
unfolding Steady
flags-Steady s v = v

press-Steady : (code : ℕ) (s : Kb) → Steady s → Steady (press code s)
unfolding press
press-Steady code s v =
    if_ind Steady (code == 42)
      (λ h. with_flags-Steady (press_shift true) s (press_shift-Consistent true s.flags w))
      (λ h.
        if_ind Steady (code == 54)
          (λ h. with_flags-Steady (press_shift false) s (press_shift-Consistent false s.flags w))
          (λ h.
            if_ind Steady (code == 29)
              (λ h. with_flags-Steady (update_ctrl true) s (update_ctrl-Consistent true s.flags w))
              (λ h.
                if_ind Steady (code == 56)
                  (λ h.
                    with_flags-Steady (update_alt true) s (update_alt-Consistent true s.flags w))
                  (λ h.
                    if_ind Steady (code == 58)
                      (λ h. toggled-Steady toggle_caps s (
                        locks-Consistent s.flags (not s.flags.caps_lock) s.flags.num_lock
                          s.flags.scroll_lock w))
                      (λ h.
                        if_ind Steady (code == 69)
                          (λ h. toggled-Steady toggle_num s (
                            locks-Consistent s.flags s.flags.caps_lock (not s.flags.num_lock)
                              s.flags.scroll_lock w))
                          (λ h.
                            if_ind Steady (code == 70)
                              (λ h. toggled-Steady toggle_scroll s (
                                locks-Consistent s.flags s.flags.caps_lock s.flags.num_lock
                                  (not s.flags.scroll_lock) w))
                              (λ h. v)))))))
  where
    w : Consistent s.flags
    w = flags-Steady s v

press-Consistent : (code : ℕ) (s : Kb) → Consistent s.flags → Consistent (press code s).flags
unfolding Steady
press-Consistent code s v = press-Steady code s v

clear_extended-Consistent : (s : Kb) → Consistent s.flags → Consistent (clear_extended s).flags
clear_extended-Consistent s v =
    same-Consistent s.flags _ v refl refl refl refl refl refl refl refl refl

handle_key_press-Consistent :
    (code : ℕ) (s : Kb) → Consistent s.flags → Consistent (handle_key_press code s).flags
unfolding handle_key_press
handle_key_press-Consistent code s v =
    if_ind (λ (t : Kb). Consistent t.flags) (not s.flags.boot_complete) (λ h. v)
      (λ h. clear_extended-Consistent (press code s) (press-Consistent code s v))

handle_key_release-Consistent :
    (code : ℕ) (s : Kb) → Consistent s.flags → Consistent (handle_key_release code s).flags
unfolding handle_key_release
handle_key_release-Consistent code s v =
    if_ind (λ (t : Kb). Consistent t.flags) (not s.flags.boot_complete) (λ h. v)
      (λ h.
        clear_extended-Consistent (with_flags (release code) s) (release-Consistent code s.flags v))

take_code-Consistent :
    (code : ℕ) (s : Kb) → Consistent s.flags → Consistent (take_code code s).1.flags
unfolding take_code
take_code-Consistent code s v =
    if_ind P (is_extended code)
      (λ h. same-Consistent s.flags _ v refl refl refl refl refl refl refl refl refl)
      (λ h.
        if_ind P (is_release code) (λ h. handle_key_release-Consistent (code - 128) s v)
          (λ h. handle_key_press-Consistent code s v))
  where
    P : ℕ × Kb → Type 0
    P r = Consistent r.1.flags

-- What a loop on fuel leaves, if it ends.
abbrev Ended : {A : Type 0} → (A → Kb) → Option A → Type 0
Ended state none = Unit
Ended state (some r) = Consistent (state r).flags

wait_output-flags : (fuel : ℕ) (s : Kb) → Consistent s.flags → Ended (λ t. t) (wait_output fuel s)
unfolding wait_output
wait_output-flags zero s v = record {}
wait_output-flags (suc fuel) s v =
    if_ind (Ended (λ t. t)) (bit_and (inb s) 1 == 0) (λ h. wait_output-flags fuel (after_read s) v)
      (λ h. v)

flush-flags : (fuel : ℕ) (s : Kb) → Consistent s.flags → Ended (λ t. t) (flush fuel s)
unfolding flush
flush-flags zero s v = record {}
flush-flags (suc fuel) s v =
    if_ind (Ended (λ t. t)) (bit_and (inb s) 1 == 0) (λ h. v)
      (λ h. flush-flags fuel (after_read (after_read s)) v)

-- Go on with a loop that has ended.
then-Ended :
    {A : Type 0} (state : A → Kb) (o : Option Kb) (next : Kb → Option A)
    → Ended (λ t. t) o
    → ((t : Kb) → Consistent t.flags → Ended state (next t))
    → Ended state (elim o [ none ↦ none | some t ↦ next t ])
then-Ended state none next v h = record {}
then-Ended state (some t) next v h = h t v

read_codes-Consistent :
    (fuel : ℕ) (s : Kb) → Consistent s.flags → Ended (λ (r : ℕ × Kb). r.1) (read_codes fuel s)
unfolding read_codes
read_codes-Consistent zero s v = record {}
read_codes-Consistent (suc fuel) s v =
    then-Ended (λ (r : ℕ × Kb). r.1) (wait_output (suc fuel) s) _ (wait_output-flags (suc fuel) s v)
      (λ t w.
        let c = take_code-Consistent (inb t) (after_read t) w in
        if_ind (Ended (λ (r : ℕ × Kb). r.1)) ((take_code (inb t) (after_read t)).0 == 0)
          (λ h. read_codes-Consistent fuel (take_code (inb t) (after_read t)).1 c) (λ h. c))

getchar-Consistent :
    (fuel : ℕ) (s : Kb) → Consistent s.flags → Ended (λ (r : ℕ × Kb). r.1) (getchar fuel s)
unfolding getchar
getchar-Consistent fuel s v =
    if_ind (Ended (λ (r : ℕ × Kb). r.1)) (not s.flags.input_enabled) (λ h. v)
      (λ h. read_codes-Consistent fuel s v)

init-Consistent : (fuel : ℕ) (s : Kb) → Ended (λ t. t) (init fuel s)
unfolding init
init-Consistent fuel s =
    then-Ended (λ t. t) (flush fuel (record s { flags = no_flags })) _
      (flush-flags fuel (record s { flags = no_flags })
        (record { shift = refl; ctrl = refl; alt = refl }))
      (λ t w.
        update_leds-Consistent _
          (same-Consistent t.flags _ w refl refl refl refl refl refl refl refl refl))

check_escape-Consistent : (s : Kb) → Consistent s.flags → Consistent (check_escape s).1.flags
unfolding check_escape
check_escape-Consistent s v =
    if_ind (λ (r : Bool × Kb). Consistent r.1.flags) (bit_and (inb s) 1 == 0) (λ h. v) (λ h. v)

-- One call, from a state to the next, if it returns.
pub data Call : Kb → Kb → Type 0 where
  initialize : (s t : Kb) (fuel : ℕ) → init fuel s ≡ some t → Call s t
  enable : (s : Kb) (b : Bool) → Call s (enable_input b s)
  complete_boot : (s : Kb) (b : Bool) → Call s (set_boot_complete b s)
  light : (s : Kb) (leds : ℕ) → Call s (set_leds leds s)
  read : (s t : Kb) (fuel c : ℕ) → getchar fuel s ≡ some (c, t) → Call s t
  escape : (s : Kb) → Call s (check_escape s).1
  empty : (s t : Kb) (fuel : ℕ) → flush fuel s ≡ some t → Call s t

-- The states that calls lead to, from the start of the program, where all flags are `false`.
pub data Reach : Kb → Type 0 where
  at_start : (s : Kb) → s.flags ≡ no_flags → Reach s
  after : (s t : Kb) → Reach s → Call s t → Reach t

call-Consistent : (s t : Kb) → Call s t → Consistent s.flags → Consistent t.flags
call-Consistent s t (Call.initialize _ _ fuel e) v =
    subst (Ended (λ (u : Kb). u)) e (init-Consistent fuel s)
call-Consistent _ _ (Call.enable s b) v =
    same-Consistent s.flags _ v refl refl refl refl refl refl refl refl refl
call-Consistent _ _ (Call.complete_boot s b) v =
    same-Consistent s.flags _ v refl refl refl refl refl refl refl refl refl
call-Consistent _ _ (Call.light s leds) v = set_leds-Consistent leds s v
call-Consistent s t (Call.read _ _ fuel c e) v =
    subst (Ended (λ (r : ℕ × Kb). r.1)) e (getchar-Consistent fuel s v)
call-Consistent _ _ (Call.escape s) v = check_escape-Consistent s v
call-Consistent s t (Call.empty _ _ fuel e) v =
    subst (Ended (λ (u : Kb). u)) e (flush-flags fuel s v)

-- After any calls of the driver, with whatever the hardware sends, shift, control and alt count as
-- pressed exactly if the left or the right key of the kind does.
pub Reach-Consistent : (s : Kb) → Reach s → Consistent s.flags
Reach-Consistent s (Reach.at_start _ e) =
    subst Consistent (sym e) (record { shift = refl; ctrl = refl; alt = refl })
Reach-Consistent t (Reach.after s _ r c) = call-Consistent s t c (Reach-Consistent s r)
