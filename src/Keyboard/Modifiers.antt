-- ===== src/Keyboard/Modifiers.antt =====
-- dev/keyboard/keyboard.c: the modifier keys and the locks, through every function of the driver.
use unics.Base.{
  ℕ, zero, suc, ◌≡◌, refl, sym, ap, ◌∙◌, subst, Bool, true, false, not, ◌||◌, ◌==◌, if◌then◌else◌,
  if_ind, bit_and, bit_or,
}
use unics.Keyboard.State.{Flags, Kb}
use unics.Keyboard.Driver.{
  inb, after_read, outb, with_flags, wait_input_buffer_empty, wait_for_ack, max_retries, set_locks,
  when_ready, acknowledge_leds, send_leds, send_command, set_leds, led_bits, update_leds,
}

-- A modifier counts as pressed exactly if its left or its right key is.
pub record Consistent (f : Flags) : Type 0 where
  pub shift : f.shift_pressed ≡ (f.left_shift_pressed || f.right_shift_pressed)
  pub ctrl : f.ctrl_pressed ≡ (f.left_ctrl_pressed || f.right_ctrl_pressed)
  pub alt : f.alt_pressed ≡ (f.left_alt_pressed || f.right_alt_pressed)

wait_input_buffer_empty-flags : (k : ℕ) (s : Kb) → (wait_input_buffer_empty k s).1.flags ≡ s.flags
unfolding wait_input_buffer_empty
wait_input_buffer_empty-flags zero s = refl
wait_input_buffer_empty-flags (suc k) s =
    if_ind (λ (r : Bool × Kb). r.1.flags ≡ s.flags) (bit_and (inb s) 2 == 0) (λ h. refl)
      (λ h. wait_input_buffer_empty-flags k (after_read s))

wait_for_ack-flags : (k : ℕ) (s : Kb) → (wait_for_ack k s).1.flags ≡ s.flags
unfolding wait_for_ack
wait_for_ack-flags zero s = refl
wait_for_ack-flags (suc k) s =
    if_ind P (bit_and (inb s) 1 == 0) (λ h. wait_for_ack-flags k (after_read s))
      (λ h.
        if_ind P (inb (after_read s) == 250) (λ h. refl)
          (λ h. wait_for_ack-flags k (after_read (after_read s))))
  where
    P : Bool × Kb → Type 0
    P r = r.1.flags ≡ s.flags

-- What `kb_set_leds` may leave: the old flags, or the locks as in the LED byte.
Allows : (Flags → Type 0) → ℕ → Kb → Type 0
Allows P leds s = P s.flags × P (set_locks leds s.flags)

-- A wait that leaves the flags, and what follows if it succeeds.
when_ready-flags :
    (P : Flags → Type 0) (leds : ℕ) (s : Kb) (r : Bool × Kb) (next : Kb → Kb)
    → r.1.flags ≡ s.flags
    → Allows P leds s
    → ((t : Kb) → Allows P leds t → P (next t).flags)
    → P (when_ready r next).flags
unfolding Allows
when_ready-flags P leds s (true, t) next e a h =
    h t (subst (λ f. P f × P (set_locks leds f)) (sym e) a)
when_ready-flags P leds s (false, t) next e a h = subst P (sym e) a.0

-- `kb_set_leds` changes at most the locks, to what the LED byte says.
pub set_leds-flags :
    (leds : ℕ) (s : Kb) (P : Flags → Type 0)
    → P s.flags
    → P (set_locks (bit_and leds 7) s.flags)
    → P (set_leds leds s).flags
unfolding set_leds Allows
set_leds-flags leds s P old new = commanded s (old, new)
  where
    low : ℕ
    low = bit_and leds 7

    acknowledged : (t : Kb) → Allows P low t → P (acknowledge_leds low t).flags
    acknowledged t a =
        when_ready-flags P low t (wait_for_ack max_retries (outb 96 low t))
          (with_flags (set_locks low)) (wait_for_ack-flags max_retries (outb 96 low t)) a
          (λ u b. b.1)

    sent : (t : Kb) → Allows P low t → P (send_leds low t).flags
    sent t a =
        when_ready-flags P low t (wait_input_buffer_empty max_retries t) (acknowledge_leds low)
          (wait_input_buffer_empty-flags max_retries t) a acknowledged

    answered : (t : Kb) → Allows P low t → P (send_command low t).flags
    answered t a =
        when_ready-flags P low t (wait_for_ack max_retries (outb 100 237 t)) (send_leds low)
          (wait_for_ack-flags max_retries (outb 100 237 t)) a sent

    commanded :
        (t : Kb)
        → Allows P low t
        → P (when_ready (wait_input_buffer_empty max_retries t) (send_command low)).flags
    commanded t a =
        when_ready-flags P low t (wait_input_buffer_empty max_retries t) (send_command low)
          (wait_input_buffer_empty-flags max_retries t) a answered

-- The LED byte of three locks, and each lock read off it.
leds_of : Bool → Bool → Bool → ℕ
leds_of c n s =
    let leds = if c then bit_or 0 4 else 0 in
    let leds = if n then bit_or leds 2 else leds in if s then bit_or leds 1 else leds

leds_of-locks :
    (c n s : Bool)
    → (not (bit_and (bit_and (leds_of c n s) 7) 4 == 0) ≡ c)
      × (not (bit_and (bit_and (leds_of c n s) 7) 2 == 0) ≡ n)
      × (not (bit_and (bit_and (leds_of c n s) 7) 1 == 0) ≡ s)
unfolding leds_of
leds_of-locks true true true = (refl, refl, refl)
leds_of-locks true true false = (refl, refl, refl)
leds_of-locks true false true = (refl, refl, refl)
leds_of-locks true false false = (refl, refl, refl)
leds_of-locks false true true = (refl, refl, refl)
leds_of-locks false true false = (refl, refl, refl)
leds_of-locks false false true = (refl, refl, refl)
leds_of-locks false false false = (refl, refl, refl)

set_locks-led_bits : (f : Flags) → set_locks (bit_and (led_bits f) 7) f ≡ f
unfolding leds_of
set_locks-led_bits f =
    let (c, n, s) = leds_of-locks f.caps_lock f.num_lock f.scroll_lock in
    ap (λ b. record f { caps_lock = b; num_lock = lock 2; scroll_lock = lock 1 }) c
    ∙ ap (λ b. record f { num_lock = b; scroll_lock = lock 1 }) n
    ∙ ap (λ b. record f { scroll_lock = b }) s
  where
    lock : ℕ → Bool
    lock mask = not (bit_and (bit_and (led_bits f) 7) mask == 0)

-- Setting the LEDs from the locks leaves all flags as they are, whatever the keyboard answers.
pub update_leds-flags : (s : Kb) → (update_leds s).flags ≡ s.flags
unfolding update_leds
update_leds-flags s =
    set_leds-flags (led_bits s.flags) s (λ f. f ≡ s.flags) refl (set_locks-led_bits s.flags)
