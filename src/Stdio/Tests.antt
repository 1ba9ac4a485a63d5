-- ===== src/Stdio/Tests.antt =====
-- Formats with one conversion, and a console on which a line is typed.
use unics.Base.{
  ℕ, zero, suc, ◌≤◌, ◌≡◌, refl, Option, some, none, Bool, false, [], ◌∷◌, ◌++◌, Bytes, length,
  replicate, take, arith,
}
use unics.Base.Int.{pos, negsuc}
use unics.Vga.Screen.{start, initialize}
use unics.Stdlib.Number.{itoa, low_digits}
use unics.Stdio.Format.{Arg, vsprintf, vsnprintf, vsprintf_from, convert}
use unics.Stdio.Sized.{Plain, vsnprintf_fits, vsnprintf-vsprintf}
use unics.Stdio.Counted.{Letter, Simple, Ordinary, vprintf-vsprintf}
use unics.Stdio.Print.{
  vprintf, vprintf_from, print_conversion, parse_flags, parse_width, parse_precision, print_spec,
  convert_spec,
}
use unics.Stdio.Line.{buffer_size, Console, getchar, getchar_buffered, fgets, fgets_from}
use unics.Stdio.Input.{typed, byte_at, Printables, HoldsLine, getchar-HoldsLine, getchar_overrun}

-- `"a%dz"`
abbrev format : Bytes
format = 97 ∷ 37 ∷ 100 ∷ 122 ∷ []

abbrev printed : Bytes
printed = 97 ∷ 45 ∷ 52 ∷ 50 ∷ 122 ∷ []

format-Plain : Plain format
format-Plain =
    Plain.literal 97 37 (100 ∷ 122 ∷ []) (λ e. omega arith)
      (Plain.conversion 100 (122 ∷ []) refl (λ e. omega arith) (Plain.last 122))

prints : vsprintf format (Arg.int (negsuc 41) ∷ []) ≡ some printed
unfolding vsprintf_from convert itoa low_digits
prints = refl

vsnprintf-vsprintf_example : vsnprintf 4 format (Arg.int (negsuc 41) ∷ []) ≡ some (take 3 printed)
vsnprintf-vsprintf_example =
    vsnprintf-vsprintf 4 format (Arg.int (negsuc 41) ∷ []) printed format-Plain prints

vsnprintf_fits_example : length (take 3 printed) ≤ 3
vsnprintf_fits_example =
    vsnprintf_fits 4 format (Arg.int (negsuc 41) ∷ []) (take 3 printed)
      (vsnprintf-vsprintf 4 format (Arg.int (negsuc 41) ∷ []) printed format-Plain prints)

abbrev console : Bytes → Console Bytes
console keys = record {
  unget_char = none;
  buffer = λ i. 7;
  at = 0;
  len = 0;
  valid = false;
  overrun = false;
  screen = initialize (start (λ b k. 0));
  keyboard = keys;
}

getchar-HoldsLine_example :
    (t : Console Bytes) × (getchar typed 3 (console (97 ∷ 98 ∷ 10 ∷ [])) ≡ some (some 97, t))
    × HoldsLine (97 ∷ 98 ∷ []) [] t
    × (t.overrun ≡ false)
getchar-HoldsLine_example =
    getchar-HoldsLine (97 ∷ 98 ∷ []) [] 3 (console (97 ∷ 98 ∷ 10 ∷ []))
      (Printables.one_more 97 (98 ∷ []) (omega arith) (omega arith)
        (Printables.one_more 98 [] (omega arith) (omega arith) Printables.none_typed))
      refl refl refl (omega arith) (omega arith)

letters-Printables : (n : ℕ) → Printables (replicate n 97)
letters-Printables zero = Printables.none_typed
letters-Printables (suc n) =
    Printables.one_more 97 (replicate n 97) (omega arith) (omega arith) (letters-Printables n)

abbrev long_line : Bytes
long_line = replicate 255 97

getchar_overrun_example :
    (c : Option ℕ) × (t : Console Bytes) × (getchar typed 256 (console (long_line ++ (10 ∷ [])))
      ≡ some (c, t))
    × (t.buffer buffer_size ≡ 0)
    × (t.overrun ≡ Bool.true)
getchar_overrun_example =
    getchar_overrun long_line [] 256 (console (long_line ++ (10 ∷ []))) (letters-Printables 255)
      refl refl refl refl (omega arith)

-- A keyboard without a key left, and a console whose buffer holds `"hi\n"`.
abbrev ready : Console Bytes
ready = record (console []) { buffer = byte_at (104 ∷ 105 ∷ 10 ∷ []); len = 3; valid = Bool.true }

reads_two : (t : Console Bytes) × (fgets typed 1 3 ready ≡ some (some (104 ∷ 105 ∷ []), t))
unfolding fgets fgets_from getchar getchar_buffered
reads_two = (record ready { at = 2 }, refl)

-- `"a%dz"` with -42
format-Simple : Simple format
format-Simple =
    Simple.literal 97 37 (100 ∷ 122 ∷ []) (λ e. omega arith)
      (Simple.conversion 100 (122 ∷ []) Letter.letter_d (Simple.last 122))

vprintf-vsprintf_example : vprintf format (Arg.int (negsuc 41) ∷ []) ≡ some (5, printed)
vprintf-vsprintf_example =
    vprintf-vsprintf format (Arg.int (negsuc 41) ∷ []) printed format-Simple
      (Ordinary.negative 41 [] (omega arith) Ordinary.no_args) prints

-- `"%+05d|%-4x|"` with 42 and 255
padded :
    vprintf
      (37 ∷ 43 ∷ 48 ∷ 53 ∷ 100 ∷ 124 ∷ 37 ∷ 45 ∷ 52 ∷ 120 ∷ 124 ∷ [])
      (Arg.int (pos 42) ∷ Arg.int (pos 255) ∷ [])
    ≡ some (11, 43 ∷ 48 ∷ 48 ∷ 52 ∷ 50 ∷ 124 ∷ 102 ∷ 102 ∷ 32 ∷ 32 ∷ 124 ∷ [])
unfolding vprintf_from print_conversion parse_flags parse_width parse_precision print_spec
    convert_spec itoa low_digits
padded = refl
