-- ===== src/Stdio/Print.antt =====
-- lib/libc/stdio.c: `vprintf`. The result is what it returns, and the bytes that it puts on the screen.
-- Arguments are as for `vsprintf`. The conversions of floating point numbers are left out: they give
-- `none`, as an undefined read of the arguments or of the format does.
use unics.Base.{
  ℕ, zero, suc, ◌+◌, ◌-◌, ◌*◌, ◌^◌, Bool, true, false, not, ◌&&◌, ◌||◌, Option, none, some, List,
  [], ◌∷◌, ◌++◌, Bytes, length, take, replicate, ltb, ◌==◌, if◌then◌else◌,
}
use unics.Base.Int.{ℤ, pos, negsuc}
use unics.Vga.Screen.{Vga}
use unics.Vga.Text.{puts}
use unics.Stdlib.Number.{itoa}
use unics.Stdio.Format.{Arg, take_int, take_string, low_byte, is_digit}

-- The variables that the parts of a conversion set.
pub record Spec : Type 0 where
  pub left_align : Bool
  pub zero_pad : Bool
  pub show_sign : Bool
  pub space_pad : Bool
  pub alternate : Bool
  pub width : ℕ
  pub precision : Option ℕ

abbrev pub no_spec : Spec
no_spec = record {
  left_align = false;
  zero_pad = false;
  show_sign = false;
  space_pad = false;
  alternate = false;
  width = 0;
  precision = none;
}

-- The loop over the flags.
unfoldable pub parse_flags : Bytes → Spec → Spec × Bytes
parse_flags [] s = (s, [])
parse_flags (c ∷ format) s =
    if c == 45
    then parse_flags format (record s { left_align = true })
    else if c == 48
    then parse_flags format (record s { zero_pad = s.zero_pad || not s.left_align })
    else if c == 43
    then parse_flags format (record s { show_sign = true })
    else if c == 32
    then parse_flags format (record s { space_pad = true })
    else if c == 35
    then parse_flags format (record s { alternate = true })
    else (s, c ∷ format)

-- The loops over the digits of a width or of a precision.
abbrev pub parse_digits : ℕ → Bytes → ℕ × Bytes
parse_digits n [] = (n, [])
parse_digits n (c ∷ format) =
    if is_digit c then parse_digits (n * 10 + (c - 48)) format else (n, c ∷ format)

-- What a conversion has parsed: its variables, the format behind, and the arguments left.
abbrev pub Parsed : Type 0
Parsed = Option (Spec × (Bytes × List Arg))

abbrev pub star_width : ℤ → Spec → Spec
star_width (pos n) s = record s { width = n }
star_width (negsuc n) s = record s { left_align = true; width = n + 1 }

abbrev pub star_precision : ℤ → Option ℕ
star_precision (pos n) = some n
star_precision (negsuc n) = none

unfoldable pub parse_width : Spec → Bytes → List Arg → Parsed
parse_width s [] args = some (s, ([], args))
parse_width s (c ∷ format) args =
    if c == 42
    then elim (take_int args) [ none ↦ none | some r ↦ some (star_width r.0 s, (format, r.1)) ]
    else let r = parse_digits 0 (c ∷ format) in some (record s { width = r.0 }, (r.1, args))

abbrev pub precision_digits : Spec → Bytes → List Arg → Parsed
precision_digits s format args =
    let r = parse_digits 0 format in some (record s { precision = some r.0 }, (r.1, args))

abbrev pub precision_behind : Spec → Bytes → List Arg → Parsed
precision_behind s [] args = precision_digits s [] args
precision_behind s (c ∷ format) args =
    if c == 42
    then elim (take_int args) [
      | none ↦ none
      | some r ↦ some (record s { precision = star_precision r.0 }, (format, r.1))
    ]
    else precision_digits s (c ∷ format) args

unfoldable pub parse_precision : Spec → Bytes → List Arg → Parsed
parse_precision s [] args = some (s, ([], args))
parse_precision s (c ∷ format) args =
    if c == 46 then precision_behind s format args else some (s, (c ∷ format, args))

-- The length modifier: `long` has the size of `int`.
abbrev pub skip_modifier : Bytes → Bytes
skip_modifier [] = []
skip_modifier (c ∷ format) = if (c == 108) || (c == 104) then format else c ∷ format

abbrev pub larger : ℕ → ℕ → ℕ
larger a b = if ltb b a then a else b

-- `__pad_output`
abbrev pub pad : ℕ → ℕ → Bytes
pad n c = replicate n c

-- `len`, cut to the precision.
abbrev pub cut_length : Option ℕ → ℕ → ℕ
cut_length none len = len
cut_length (some p) len = if ltb p len then p else len

-- `__output_with_format`
abbrev pub output_with_format : Bytes → Spec → Bool → Bytes
output_with_format str s zero_pad =
    let len = cut_length s.precision (length str) in
    let pad_count = s.width - len in
    (if s.left_align then [] else pad pad_count (if zero_pad then 48 else 32))
    ++ (take len str ++ (if s.left_align then pad pad_count 32 else []))

-- A string with `__output_with_format`, counted by its whole length.
abbrev pub print_number : Spec → Bytes → ℕ × Bytes
print_number s str = (larger s.width (length str), output_with_format str s s.zero_pad)

-- `case 's'`
abbrev pub print_string : Spec → Bytes → ℕ × Bytes
print_string s str =
    (larger s.width (cut_length s.precision (length str)), output_with_format str s false)

-- `num = -num` for a negative number; the smallest is its own negation.
abbrev pub negated : ℕ → ℤ
negated n = if n + 1 == 2 ^ 31 then negsuc n else pos (n + 1)

-- A number with a sign in front.
abbrev pub print_signed : Spec → ℕ → Bytes → ℕ × Bytes
print_signed s sign str =
    if s.zero_pad && not s.left_align && ltb 0 s.width
    then (s.width, sign ∷ (pad (s.width - length str - 1) 48 ++ str))
    else print_number s (sign ∷ str)

-- `case 'd'`
abbrev pub print_decimal : Spec → ℤ → ℕ × Bytes
print_decimal s (negsuc n) = print_signed s 45 (itoa (negated n) 10)
print_decimal s (pos n) =
    if s.show_sign
    then print_signed s 43 (itoa (pos n) 10)
    else if s.space_pad
    then print_signed s 32 (itoa (pos n) 10)
    else print_number s (itoa (pos n) 10)

abbrev pub is_zero : ℤ → Bool
is_zero (pos n) = n == 0
is_zero (negsuc n) = false

-- The bytes in front of the digits of `case 'x'`: zeros up to the precision, or up to the width.
abbrev pub hex_padding : Spec → ℕ → ℕ → Bytes
hex_padding s width len = elim s.precision [
  | none ↦ if s.zero_pad && not s.left_align then pad (width - len) 48 else []
  | some p ↦
      if ltb len p
      then pad (p - len) 48
      else if s.zero_pad && not s.left_align
      then pad (width - len) 48
      else []
]

-- `case 'x'`
abbrev pub print_hex : Spec → ℤ → ℕ × Bytes
print_hex s num =
    let str = itoa num 16 in
    let prefix = if s.alternate && not (is_zero num) then 48 ∷ 120 ∷ [] else [] in
    let width = s.width - length prefix in
    let padding = hex_padding s width (length str) in
    let behind = if s.left_align then pad (width - length str) 32 else [] in
    (
      length prefix + length padding + length str + length behind,
      prefix ++ (padding ++ (str ++ behind)),
    )

-- `case 'o'`
abbrev pub print_octal : Spec → ℤ → ℕ × Bytes
print_octal s num =
    let str = itoa num 8 in
    print_number s (if s.alternate && not (is_zero num) then 48 ∷ str else str)

-- `case 'c'`
abbrev pub print_char : Spec → ℤ → ℕ × Bytes
print_char s num =
    let c = low_byte num in
    if ltb 1 s.width
    then (
      s.width,
      (if s.left_align then c ∷ pad (s.width - 1) 32 else pad (s.width - 1) 32 ++ (c ∷ [])),
    )
    else (1, c ∷ [])

-- `case 'p'`
abbrev pub print_pointer : ℤ → ℕ × Bytes
print_pointer num = let str = itoa num 16 in (2 + length str, 48 ∷ 120 ∷ str)

abbrev pub Printed : Type 0
Printed = Option ((ℕ × Bytes) × List Arg)

abbrev pub show_int : List Arg → (ℤ → ℕ × Bytes) → Printed
show_int args show = elim (take_int args) [ none ↦ none | some r ↦ some (show r.0, r.1) ]

abbrev pub show_string : List Arg → (Bytes → ℕ × Bytes) → Printed
show_string args show = elim (take_string args) [ none ↦ none | some r ↦ some (show r.0, r.1) ]

-- The switch over the conversions, but for `z`.
unfoldable pub convert_spec : Spec → ℕ → List Arg → Printed
convert_spec s c args =
    if c == 115
    then show_string args (print_string s)
    else if (c == 100) || (c == 105)
    then show_int args (print_decimal s)
    else if (c == 120) || (c == 88)
    then show_int args (print_hex s)
    else if c == 111
    then show_int args (print_octal s)
    else if (c == 102) || (c == 70)
    then none
    else if c == 99
    then show_int args (print_char s)
    else if c == 117
    then show_int args (λ n. print_number s (itoa n 10))
    else if c == 112
    then show_int args print_pointer
    else if c == 37
    then some ((1, 37 ∷ []), args)
    else some ((2, 37 ∷ c ∷ []), args)

-- `case 'z'`: what is printed, with the format behind.
abbrev pub convert_size : Spec → Bytes → List Arg → Option (((ℕ × Bytes) × List Arg) × Bytes)
convert_size s [] args = some (((0, []), args), [])
convert_size s (c ∷ format) args =
    if c == 117
    then elim (show_int args (λ n. print_number s (itoa n 10))) [
      | none ↦ none
      | some r ↦ some (r, format)
    ]
    else some (((0, []), args), c ∷ format)

-- What a conversion prints, with the format behind it.
abbrev pub with_format : Bytes → Printed → Option (((ℕ × Bytes) × List Arg) × Bytes)
with_format format none = none
with_format format (some r) = some (r, format)

-- A conversion behind its flags, width, precision and modifier.
unfoldable pub print_spec : Spec → Bytes → List Arg → Option (((ℕ × Bytes) × List Arg) × Bytes)
print_spec s [] args = none
print_spec s (c ∷ format) args =
    if c == 122 then convert_size s format args else with_format format (convert_spec s c args)

-- One conversion, from the character behind the `%`.
unfoldable pub print_conversion : Bytes → List Arg → Option (((ℕ × Bytes) × List Arg) × Bytes)
print_conversion format args =
    let f = parse_flags format no_spec in
    elim (parse_width f.0 f.1 args) [
      | none ↦ none
      | some w ↦ elim (parse_precision w.0 w.1.0 w.1.1) [
        | none ↦ none
        | some p ↦ print_spec p.0 (skip_modifier p.1.0) p.1.1
      ]
    ]

-- Put a piece in front of what the rest of the loop prints.
abbrev pub counted : ℕ × Bytes → Option (ℕ × Bytes) → Option (ℕ × Bytes)
counted (n, out) none = none
counted (n, out) (some (m, rest)) = some (n + m, out ++ rest)

-- Go on behind a conversion.
abbrev pub go_on :
    Option (((ℕ × Bytes) × List Arg) × Bytes)
    → (Bytes → List Arg → Option (ℕ × Bytes))
    → Option (ℕ × Bytes)
go_on none next = none
go_on (some ((piece, rest), behind)) next = counted piece (next behind rest)

-- The loop of `vprintf`. Each round takes a character of the format at least.
unfoldable pub vprintf_from : ℕ → Bytes → List Arg → Option (ℕ × Bytes)
vprintf_from zero format args = none
vprintf_from (suc fuel) [] args = some (0, [])
vprintf_from (suc fuel) (c ∷ []) args = some (1, c ∷ [])
vprintf_from (suc fuel) (c ∷ d ∷ format) args = elim (c == 37) [
  | true ↦ go_on (print_conversion (d ∷ format) args) (λ behind rest. vprintf_from fuel behind rest)
  | false ↦ counted (1, c ∷ []) (vprintf_from fuel (d ∷ format) args)
]

-- `vprintf`
abbrev pub vprintf : Bytes → List Arg → Option (ℕ × Bytes)
vprintf format args = vprintf_from (suc (length format)) format args

-- `printf`, on the screen.
abbrev pub printf : Bytes → List Arg → Vga → Option (ℕ × Vga)
printf format args screen = elim (vprintf format args) [
  | none ↦ none
  | some r ↦ some (r.0, puts r.1 screen)
]
