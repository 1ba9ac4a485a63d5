-- ===== src/Keyboard/State.antt =====
-- dev/keyboard/keyboard.c and keyboard.h: the tables of characters and the state.
use unics.Base.{ℕ, zero, suc, Bool, false, List, [], ◌∷◌, Bytes}

-- `kb_scancode_to_ascii`, which holds 0 behind these entries.
abbrev pub base_table : Bytes
base_table =
    0 ∷ 27 ∷ 49 ∷ 50 ∷ 51 ∷ 52 ∷ 53 ∷ 54 ∷ 55 ∷ 56 ∷ 57 ∷ 48 ∷ 45 ∷ 61 ∷ 8 ∷ 9 ∷ 113 ∷ 119 ∷ 101
    ∷ 114 ∷ 116 ∷ 121 ∷ 117 ∷ 105 ∷ 111 ∷ 112 ∷ 91 ∷ 93 ∷ 10 ∷ 0 ∷ 97 ∷ 115 ∷ 100 ∷ 102 ∷ 103 ∷ 104
    ∷ 106 ∷ 107 ∷ 108 ∷ 59 ∷ 39 ∷ 96 ∷ 0 ∷ 92 ∷ 122 ∷ 120 ∷ 99 ∷ 118 ∷ 98 ∷ 110 ∷ 109 ∷ 44 ∷ 46 ∷ 47
    ∷ 0 ∷ 42 ∷ 0 ∷ 32 ∷ 0 ∷ 0 ∷ 0 ∷ 0 ∷ 0 ∷ 0 ∷ 0 ∷ 0 ∷ 0 ∷ 0 ∷ 0 ∷ 0 ∷ 0 ∷ 0 ∷ 0 ∷ 0 ∷ 0 ∷ 0 ∷ 45
    ∷ 0 ∷ 0 ∷ 0 ∷ 43 ∷ 0 ∷ 0 ∷ 0 ∷ 0 ∷ 0 ∷ 0 ∷ 0 ∷ 0 ∷ 0 ∷ 0 ∷ 0 ∷ 0 ∷ []

-- `kb_shift_scancode_to_ascii`
abbrev pub shift_table : Bytes
shift_table =
    0 ∷ 27 ∷ 33 ∷ 64 ∷ 35 ∷ 36 ∷ 37 ∷ 94 ∷ 38 ∷ 42 ∷ 40 ∷ 41 ∷ 95 ∷ 43 ∷ 8 ∷ 9 ∷ 81 ∷ 87 ∷ 69 ∷ 82
    ∷ 84 ∷ 89 ∷ 85 ∷ 73 ∷ 79 ∷ 80 ∷ 123 ∷ 125 ∷ 10 ∷ 0 ∷ 65 ∷ 83 ∷ 68 ∷ 70 ∷ 71 ∷ 72 ∷ 74 ∷ 75 ∷ 76
    ∷ 58 ∷ 34 ∷ 126 ∷ 0 ∷ 124 ∷ 90 ∷ 88 ∷ 67 ∷ 86 ∷ 66 ∷ 78 ∷ 77 ∷ 60 ∷ 62 ∷ 63 ∷ 0 ∷ 42 ∷ 0 ∷ 32
    ∷ 0 ∷ 0 ∷ 0 ∷ 0 ∷ 0 ∷ 0 ∷ 0 ∷ 0 ∷ 0 ∷ 0 ∷ 0 ∷ 0 ∷ 0 ∷ 0 ∷ 0 ∷ 0 ∷ 0 ∷ 0 ∷ 45 ∷ 0 ∷ 0 ∷ 0 ∷ 43
    ∷ 0 ∷ 0 ∷ 0 ∷ 0 ∷ 0 ∷ 0 ∷ 0 ∷ 0 ∷ 0 ∷ 0 ∷ 0 ∷ 0 ∷ []

-- An entry of a table that is 0 behind the ones listed.
abbrev pub at_code : Bytes → ℕ → ℕ
at_code [] n = 0
at_code (c ∷ cs) zero = c
at_code (c ∷ cs) (suc n) = at_code cs n

-- `kb_state_t`
pub record Flags : Type 0 where
  pub shift_pressed : Bool
  pub ctrl_pressed : Bool
  pub alt_pressed : Bool
  pub caps_lock : Bool
  pub num_lock : Bool
  pub scroll_lock : Bool
  pub input_enabled : Bool
  pub boot_complete : Bool
  pub left_shift_pressed : Bool
  pub right_shift_pressed : Bool
  pub left_ctrl_pressed : Bool
  pub right_ctrl_pressed : Bool
  pub left_alt_pressed : Bool
  pub right_alt_pressed : Bool
  pub extended_scancode : Bool

-- The state after `memset(&kb_state, 0, sizeof(kb_state))`.
abbrev pub no_flags : Flags
no_flags = record {
  shift_pressed = false;
  ctrl_pressed = false;
  alt_pressed = false;
  caps_lock = false;
  num_lock = false;
  scroll_lock = false;
  input_enabled = false;
  boot_complete = false;
  left_shift_pressed = false;
  right_shift_pressed = false;
  left_ctrl_pressed = false;
  right_ctrl_pressed = false;
  left_alt_pressed = false;
  right_alt_pressed = false;
  extended_scancode = false;
}

-- The driver's state, with the ports: `inb` of the call number `k` gives `input k`, `reads` counts the
-- calls so far, and `writes` lists the calls of `outb`, the latest first.
pub record Kb : Type 0 where
  pub flags : Flags
  pub input : ℕ → ℕ
  pub reads : ℕ
  pub writes : List (ℕ × ℕ)
