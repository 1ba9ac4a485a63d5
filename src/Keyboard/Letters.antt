-- ===== src/Keyboard/Letters.antt =====
-- dev/keyboard/keyboard.c: which character a key gives, and a control key that stays down.
use unics.Base.{
  ℕ, zero, suc, ◌-◌, ◌≤◌, ◌<◌, ◌≡◌, refl, Bool, true, false, not, ◌&&◌, [], ◌∷◌, Bytes, arith, leb,
  ◌==◌, if◌then◌else◌, if_ind,
}
use unics.Keyboard.State.{base_table, shift_table, at_code, Flags, Kb}
use unics.Keyboard.Driver.{
  set_boot_complete, scancode_to_ascii, take_code, handle_key_press, handle_key_release, press,
  release, is_extended, is_release,
}

-- Each small letter of the first table stands opposite its capital in the second.
capitals : Bytes → Bytes → Bool
capitals [] ys = true
capitals (x ∷ xs) [] = false
capitals (x ∷ xs) (y ∷ ys) = (if leb 97 x && leb x 122 then y == x - 32 else true) && capitals xs ys

capitals_lem :
    (xs ys : Bytes) (n : ℕ)
    → capitals xs ys ≡ true
    → 97 ≤ at_code xs n
    → at_code xs n ≤ 122
    → at_code ys n ≡ at_code xs n - 32
unfolding capitals
capitals_lem [] ys n h lo hi = absurd (omega arith)
capitals_lem (x ∷ xs) [] n h lo hi = ground arith
capitals_lem (x ∷ xs) (y ∷ ys) zero h lo hi = ground arith
capitals_lem (x ∷ xs) (y ∷ ys) (suc n) h lo hi = capitals_lem xs ys n (ground arith) lo hi

tables_capitals : capitals base_table shift_table ≡ true
unfolding capitals
tables_capitals = refl

abbrev pub xor : Bool → Bool → Bool
xor true b = not b
xor false b = b

-- On a letter key, shift and caps lock together cancel, and either alone gives the capital.
pub letter_lem :
    (f : Flags) (code : ℕ)
    → code < 256
    → 97 ≤ at_code base_table code
    → at_code base_table code ≤ 122
    → scancode_to_ascii f code ≡ (
        if xor f.shift_pressed f.caps_lock
        then at_code base_table code - 32
        else at_code base_table code)
unfolding scancode_to_ascii
letter_lem f code below lo hi =
    let up = capitals_lem base_table shift_table code tables_capitals lo hi in
    let letter : (leb 97 (at_code base_table code) && leb (at_code base_table code) 122) ≡ true =
      ground arith in
    let small : leb 256 code ≡ false = ground arith in
    rw (small, letter) (choose f.shift_pressed f.caps_lock up)
  where
    choose :
        (s c : Bool)
        → at_code shift_table code ≡ at_code base_table code - 32
        → (if (if c then not s else s) then at_code shift_table code else at_code base_table code)
          ≡ (if xor s c then at_code base_table code - 32 else at_code base_table code)
    choose true true e = refl
    choose true false e = e
    choose false true e = e
    choose false false e = refl

-- Before the boot is complete, no code takes the mark of an extended code away.
take_code-extended :
    (code : ℕ) (s : Kb)
    → s.flags.boot_complete ≡ false
    → s.flags.extended_scancode ≡ true
    → (take_code code s).1.flags.extended_scancode ≡ true
unfolding take_code handle_key_press handle_key_release
take_code-extended code s b e =
    if_ind P (is_extended code) (λ h. refl)
      (λ h. if_ind P (is_release code) (λ h. rw b e) (λ h. rw b e))
  where
    P : ℕ × Kb → Type 0
    P r = r.1.flags.extended_scancode ≡ true

-- The boot completes; then the left control key is pressed and released.
abbrev pub after_boot : Kb → Kb
after_boot t = (take_code 157 (take_code 29 (set_boot_complete true t)).1).1

after_boot-ctrl :
    (t : Kb) → t.flags.extended_scancode ≡ true → (after_boot t).flags.ctrl_pressed ≡ true
unfolding take_code handle_key_press handle_key_release press release
after_boot-ctrl t e = rw e refl

-- An extended code that comes while the system boots stays half read: the left control key, pressed
-- and released once the boot is complete, then still counts as pressed.
pub stuck_ctrl :
    (s : Kb) (code : ℕ)
    → s.flags.boot_complete ≡ false
    → (after_boot (take_code code (take_code 224 s).1).1).flags.ctrl_pressed ≡ true
unfolding take_code
stuck_ctrl s code b =
    after_boot-ctrl (take_code code (take_code 224 s).1).1
      (take_code-extended code (take_code 224 s).1 b refl)
