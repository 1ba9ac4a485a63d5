-- ===== src/Keyboard/Driver.antt =====
-- dev/keyboard/keyboard.c: the functions of the driver. The loops that wait for the hardware without
-- a bound run on fuel, and give `none` without it.
use unics.Base.{
  ℕ, zero, suc, ◌+◌, ◌-◌, Bool, true, false, not, ◌&&◌, ◌||◌, Option, none, some, ◌∷◌, leb, ◌==◌,
  if◌then◌else◌, bit_and, bit_or,
}
use unics.Keyboard.State.{base_table, shift_table, at_code, Flags, no_flags, Kb}

-- `inb`: the byte, and the state after it.
abbrev pub inb : Kb → ℕ
inb s = s.input s.reads

abbrev pub after_read : Kb → Kb
after_read s = record s { reads = s.reads + 1 }

abbrev pub outb : ℕ → ℕ → Kb → Kb
outb port value s = record s { writes = (port, value) ∷ s.writes }

-- A change of `kb_state`.
abbrev pub with_flags : (Flags → Flags) → Kb → Kb
with_flags f s = record s { flags = f s.flags }

-- `wait_input_buffer_empty` with `k` tries left.
unfoldable pub wait_input_buffer_empty : ℕ → Kb → Bool × Kb
wait_input_buffer_empty zero s = (false, s)
wait_input_buffer_empty (suc k) s =
    if bit_and (inb s) 2 == 0
    then (true, after_read s)
    else wait_input_buffer_empty k (after_read s)

-- `wait_for_ack` with `k` tries left.
unfoldable pub wait_for_ack : ℕ → Kb → Bool × Kb
wait_for_ack zero s = (false, s)
wait_for_ack (suc k) s =
    let t = after_read s in
    if bit_and (inb s) 1 == 0
    then wait_for_ack k t
    else if inb t == 250
    then (true, after_read t)
    else wait_for_ack k (after_read t)

-- `max_retries`
abbrev pub max_retries : ℕ
max_retries = 10000

abbrev pub set_locks : ℕ → Flags → Flags
set_locks leds f = record f {
  caps_lock = not (bit_and leds 4 == 0);
  num_lock = not (bit_and leds 2 == 0);
  scroll_lock = not (bit_and leds 1 == 0);
}

-- Go on only after a wait that succeeded.
abbrev pub when_ready : Bool × Kb → (Kb → Kb) → Kb
when_ready (ready, s) next = if ready then next s else s

-- The steps of `kb_set_leds`, the last one first: after the LED byte, before it, and after the
-- command.
abbrev pub acknowledge_leds : ℕ → Kb → Kb
acknowledge_leds leds s =
    when_ready (wait_for_ack max_retries (outb 96 leds s)) (with_flags (set_locks leds))

abbrev pub send_leds : ℕ → Kb → Kb
send_leds leds s = when_ready (wait_input_buffer_empty max_retries s) (acknowledge_leds leds)

abbrev pub send_command : ℕ → Kb → Kb
send_command leds s = when_ready (wait_for_ack max_retries (outb 100 237 s)) (send_leds leds)

-- `kb_set_leds`
unfoldable pub set_leds : ℕ → Kb → Kb
set_leds led_state s =
    when_ready (wait_input_buffer_empty max_retries s) (send_command (bit_and led_state 7))

-- The LED byte that `update_leds` and `kb_init` compute.
abbrev pub led_bits : Flags → ℕ
led_bits f =
    let leds = if f.caps_lock then bit_or 0 4 else 0 in
    let leds = if f.num_lock then bit_or leds 2 else leds in
    if f.scroll_lock then bit_or leds 1 else leds

-- `update_leds`
unfoldable pub update_leds : Kb → Kb
update_leds s = set_leds (led_bits s.flags) s

-- `kb_flush`
unfoldable pub flush : ℕ → Kb → Option Kb
flush zero s = none
flush (suc fuel) s =
    if bit_and (inb s) 1 == 0 then some (after_read s) else flush fuel (after_read (after_read s))

-- `kb_init`
unfoldable pub init : ℕ → Kb → Option Kb
init fuel s = elim (flush fuel (record s { flags = no_flags })) [
  | none ↦ none
  | some t ↦ some (
      update_leds
        (with_flags (λ f. record f { caps_lock = false; num_lock = true; scroll_lock = false }) t))
]

-- `kb_enable_input` and `kb_set_boot_complete`
abbrev pub enable_input : Bool → Kb → Kb
enable_input enable s = with_flags (λ f. record f { input_enabled = enable }) s

abbrev pub set_boot_complete : Bool → Kb → Kb
set_boot_complete complete s = with_flags (λ f. record f { boot_complete = complete }) s

-- `scancode_to_ascii`
unfoldable pub scancode_to_ascii : Flags → ℕ → ℕ
scancode_to_ascii f scancode =
    if leb 256 scancode
    then 0
    else let base_char = at_code base_table scancode in
      let shift =
        if leb 97 base_char && leb base_char 122 && f.caps_lock
        then not f.shift_pressed
        else f.shift_pressed in
      if shift then at_code shift_table scancode else base_char

abbrev pub left_shift : Bool → Flags → Flags
left_shift pressed f = record f {
  left_shift_pressed = pressed;
  shift_pressed = pressed || f.right_shift_pressed;
}

abbrev pub right_shift : Bool → Flags → Flags
right_shift pressed f = record f {
  right_shift_pressed = pressed;
  shift_pressed = f.left_shift_pressed || pressed;
}

-- `update_modifier` on the flags of the control keys, and on those of the alt keys.
abbrev pub update_ctrl : Bool → Flags → Flags
update_ctrl pressed f =
    let left = if f.extended_scancode then f.left_ctrl_pressed else pressed in
    let right = if f.extended_scancode then pressed else f.right_ctrl_pressed in
    record f { left_ctrl_pressed = left; right_ctrl_pressed = right; ctrl_pressed = left || right }

abbrev pub update_alt : Bool → Flags → Flags
update_alt pressed f =
    let left = if f.extended_scancode then f.left_alt_pressed else pressed in
    let right = if f.extended_scancode then pressed else f.right_alt_pressed in
    record f { left_alt_pressed = left; right_alt_pressed = right; alt_pressed = left || right }

-- The switch of `handle_key_release`.
unfoldable pub release : ℕ → Flags → Flags
release scancode f =
    if scancode == 42
    then left_shift false f
    else if scancode == 54
    then right_shift false f
    else if scancode == 29
    then update_ctrl false f
    else if scancode == 56
    then update_alt false f
    else f

abbrev pub clear_extended : Kb → Kb
clear_extended s = with_flags (λ f. record f { extended_scancode = false }) s

-- `handle_key_release`
unfoldable pub handle_key_release : ℕ → Kb → Kb
handle_key_release scancode s =
    if not s.flags.boot_complete then s else clear_extended (with_flags (release scancode) s)

-- The cases of `handle_key_press` that set a shift key store `true` in `shift_pressed`.
abbrev pub press_shift : Bool → Flags → Flags
press_shift left f =
    if left
    then record f { left_shift_pressed = true; shift_pressed = true }
    else record f { right_shift_pressed = true; shift_pressed = true }

abbrev pub toggle_caps : Flags → Flags
toggle_caps f = record f { caps_lock = not f.caps_lock }

abbrev pub toggle_num : Flags → Flags
toggle_num f = record f { num_lock = not f.num_lock }

abbrev pub toggle_scroll : Flags → Flags
toggle_scroll f = record f { scroll_lock = not f.scroll_lock }

-- The switch of `handle_key_press`.
unfoldable pub press : ℕ → Kb → Kb
press scancode s =
    if scancode == 42
    then with_flags (press_shift true) s
    else if scancode == 54
    then with_flags (press_shift false) s
    else if scancode == 29
    then with_flags (update_ctrl true) s
    else if scancode == 56
    then with_flags (update_alt true) s
    else if scancode == 58
    then update_leds (with_flags toggle_caps s)
    else if scancode == 69
    then update_leds (with_flags toggle_num s)
    else if scancode == 70
    then update_leds (with_flags toggle_scroll s)
    else s

-- `handle_key_press`
unfoldable pub handle_key_press : ℕ → Kb → Kb
handle_key_press scancode s =
    if not s.flags.boot_complete then s else clear_extended (press scancode s)

-- The inner loop of `kb_getchar`: wait for the status port.
unfoldable pub wait_output : ℕ → Kb → Option Kb
wait_output zero s = none
wait_output (suc fuel) s =
    if bit_and (inb s) 1 == 0 then wait_output fuel (after_read s) else some (after_read s)

-- `kb_is_extended` and `kb_is_release`
abbrev pub is_extended : ℕ → Bool
is_extended scancode = scancode == 224

abbrev pub is_release : ℕ → Bool
is_release scancode = not (bit_and scancode 128 == 0)

-- What one scan code does: a character, or 0 and the loop goes on.
unfoldable pub take_code : ℕ → Kb → ℕ × Kb
take_code scancode s =
    if is_extended scancode
    then (0, with_flags (λ f. record f { extended_scancode = true }) s)
    else if is_release scancode
    then (0, handle_key_release (scancode - 128) s)
    else let t = handle_key_press scancode s in (scancode_to_ascii t.flags scancode, t)

-- The loop of `kb_getchar`.
unfoldable pub read_codes : ℕ → Kb → Option (ℕ × Kb)
read_codes zero s = none
read_codes (suc fuel) s = elim (wait_output (suc fuel) s) [
  | none ↦ none
  | some t ↦
      let r = take_code (inb t) (after_read t) in if r.0 == 0 then read_codes fuel r.1 else some r
]

-- `kb_getchar`
unfoldable pub getchar : ℕ → Kb → Option (ℕ × Kb)
getchar fuel s = if not s.flags.input_enabled then some (0, s) else read_codes fuel s

-- `kb_check_escape`
unfoldable pub check_escape : Kb → Bool × Kb
check_escape s =
    let t = after_read s in
    if bit_and (inb s) 1 == 0 then (false, t) else (inb t == 1, after_read t)
