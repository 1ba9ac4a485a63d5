-- ===== src/Keyboard/Tests.antt =====
-- A driver that waits for the key `a` after the release of the left shift key.
use unics.Base.{ℕ, ◌≡◌, ◌≢◌, refl, true, some, [], ◌∷◌, ◌||◌, arith, ◌==◌, if◌then◌else◌}
use unics.Keyboard.State.{no_flags, Kb}
use unics.Keyboard.Driver.{enable_input, getchar, take_code}
use unics.Keyboard.Pressed.{Call, Reach, Reach-Consistent}
use unics.Keyboard.Modifiers.{Consistent}
use unics.Keyboard.Letters.{after_boot, stuck_ctrl}
use unics.Keyboard.Reading.{Sends, Quiet, getchar-returns}

-- The status port announces each code; the codes are 170, then 30.
abbrev input : ℕ → ℕ
input k = if k == 1 then 170 else if k == 3 then 30 else 1

abbrev silent : Kb
silent = record { flags = no_flags; input = input; reads = 0; writes = [] }

abbrev waiting : Kb
waiting = enable_input true silent

Reach-Consistent_example : Consistent waiting.flags
Reach-Consistent_example =
    Reach-Consistent waiting
      (Reach.after silent waiting (Reach.at_start silent refl) (Call.enable silent true))

stuck_ctrl_example :
    (after_boot (take_code 30 (take_code 224 silent).1).1).flags.ctrl_pressed ≡ true
stuck_ctrl_example = stuck_ctrl silent 30 refl

-- The same, with two polls in front of the second code that find the port not ready.
abbrev slow_input : ℕ → ℕ
slow_input k = if k == 1 then 170 else if (k == 2) || (k == 3) then 0 else if k == 5 then 30 else 1

abbrev slow : Kb
slow = enable_input true (record silent { input = slow_input })

getchar-returns_example : (c : ℕ) × (t : Kb) × (getchar 4 slow ≡ some (c, t)) × (c ≢ 0)
getchar-returns_example =
    getchar-returns (170 ∷ []) 30 2 4 slow refl (Quiet.more 170 [] refl Quiet.done)
      (record {
        below = omega arith;
        not_extended = refl;
        pressed = refl;
        base = λ e. omega arith;
        shifted = λ e. omega arith;
      })
      (Sends.sends 0 2 170 (30 ∷ []) refl refl (
        Sends.not_ready 2 1 (30 ∷ []) refl
          (Sends.not_ready 3 0 (30 ∷ []) refl (Sends.sends 4 0 30 [] refl refl (Sends.nothing 6)))))
      (omega arith)
