-- ===== src/Stdio/Counted.antt =====
-- lib/libc/stdio.c: `vprintf` prints what `vsprintf` stores, and returns its length.
use unics.Base.{
  ℕ, zero, suc, ◌+◌, ◌-◌, ◌^◌, ◌<◌, ◌≡◌, ◌≢◌, refl, ap, sym, ◌∙◌, subst, Bool, false, Option, none,
  some, List, [], ◌∷◌, ◌++◌, Bytes, length, length-append, take_all, arith, ◌==◌, ne→==,
}
use Prim.{Unit}
use unics.Base.Int.{ℤ, pos, negsuc}
use unics.Stdlib.Number.{itoa, low_digits}
use unics.Stdlib.Spelling.{reversed_end}
use unics.Stdio.Format.{
  Arg, int, string, take_int, take_string, low_byte, convert, with_arg, prefixed, and_then,
  vsprintf_from, vsprintf,
}
use unics.Stdio.Print.{
  no_spec, parse_flags, parse_width, parse_precision, larger, output_with_format, print_number,
  print_string, print_decimal, print_hex, print_char, print_pointer, show_int, show_string, negated,
  Printed, convert_spec, print_spec, print_conversion, with_format, go_on, counted, vprintf_from,
  vprintf,
}

-- The conversions that both functions know: s, d, i, x, X, c, u, p and %.
pub data Letter : ℕ → Type 0 where
  letter_s : Letter 115
  letter_d : Letter 100
  letter_i : Letter 105
  letter_x : Letter 120
  letter_upper_x : Letter 88
  letter_c : Letter 99
  letter_u : Letter 117
  letter_p : Letter 112
  letter_percent : Letter 37

-- A format whose conversions are the letters above alone, without flags, widths, precisions and length
-- modifiers.
pub data Simple : Bytes → Type 0 where
  empty : Simple []
  last : (c : ℕ) → Simple (c ∷ [])
  literal : (c d : ℕ) (format : Bytes) → c ≢ 37 → Simple (d ∷ format) → Simple (c ∷ d ∷ format)
  conversion : (d : ℕ) (format : Bytes) → Letter d → Simple format → Simple (37 ∷ d ∷ format)

-- No argument is the smallest number.
pub data Ordinary : List Arg → Type 0 where
  no_args : Ordinary []
  positive : (n : ℕ) (args : List Arg) → Ordinary args → Ordinary (int (pos n) ∷ args)
  negative :
      (n : ℕ) (args : List Arg) → n + 1 < 2 ^ 31 → Ordinary args → Ordinary (int (negsuc n) ∷ args)
  text : (str : Option Bytes) (args : List Arg) → Ordinary args → Ordinary (string str ∷ args)

append_nil : (bs : Bytes) → bs ++ [] ≡ bs
append_nil [] = refl
append_nil (b ∷ bs) = ap (λ l. b ∷ l) (append_nil bs)

-- Without width and precision a string is printed as it is.
output_plain : (str : Bytes) (z : Bool) → output_with_format str no_spec z ≡ str
output_plain str z =
    let no_pad : 0 - length str ≡ 0 = omega arith in
    rw (no_pad, take_all (length str) str (omega arith)) (append_nil str)

larger_zero : (n : ℕ) → larger 0 n ≡ n
larger_zero n = ground arith

number_plain : (str : Bytes) → print_number no_spec str ≡ (length str, str)
number_plain str = rw (larger_zero (length str), output_plain str false) refl

string_plain : (str : Bytes) → print_string no_spec str ≡ (length str, str)
string_plain str = rw (larger_zero (length str), output_plain str false) refl

hex_plain : (n : ℤ) → print_hex no_spec n ≡ (length (itoa n 16), itoa n 16)
hex_plain n =
    let count : 0 + 0 + length (itoa n 16) + 0 ≡ length (itoa n 16) = omega arith in
    rw (count, append_nil (itoa n 16)) refl

-- The sign in front of the digits.
itoa-negative : (n : ℕ) → n + 1 < 2 ^ 31 → 45 ∷ itoa (negated n) 10 ≡ itoa (negsuc n) 10
unfolding itoa
itoa-negative n h =
    let ordinary : (n + 1 == 2 ^ 31) ≡ false = ground arith in
    let nonzero : (n + 1 == 0) ≡ false = ground arith in
    rw (ordinary, nonzero) (sym (reversed_end (low_digits 32 10 (n + 1)) [] 45))

decimal_plain :
    (n : ℕ)
    → n + 1 < 2 ^ 31
    → print_decimal no_spec (negsuc n) ≡ (length (itoa (negsuc n) 10), itoa (negsuc n) 10)
decimal_plain n h =
    ap (print_number no_spec) (itoa-negative n h) ∙ number_plain (itoa (negsuc n) 10)

-- The first prints what the second stores, and counts it.
Agree : Printed → Option (Bytes × List Arg) → Type 0
Agree p none = Unit
Agree p (some (out, rest)) = (p ≡ some ((length out, out), rest)) × Ordinary rest

int-Agree :
    (show : ℤ → ℕ × Bytes) (spell : ℤ → Bytes) (args : List Arg)
    → Ordinary args
    → ((n : ℕ) → show (pos n) ≡ (length (spell (pos n)), spell (pos n)))
    → ((n : ℕ) → n + 1 < 2 ^ 31 → show (negsuc n) ≡ (length (spell (negsuc n)), spell (negsuc n)))
    → Agree (show_int args show) (with_arg (take_int args) spell)
unfolding Agree
int-Agree show spell _ Ordinary.no_args p q = record {}
int-Agree show spell _ (Ordinary.positive n args o) p q = (ap (λ r. some (r, args)) (p n), o)
int-Agree show spell _ (Ordinary.negative n args h o) p q = (ap (λ r. some (r, args)) (q n h), o)
int-Agree show spell _ (Ordinary.text str args o) p q = record {}

string-Agree :
    (args : List Arg)
    → Ordinary args
    → Agree (show_string args (print_string no_spec)) (with_arg (take_string args) (λ str. str))
unfolding Agree
string-Agree _ Ordinary.no_args = record {}
string-Agree _ (Ordinary.positive n args o) = record {}
string-Agree _ (Ordinary.negative n args h o) = record {}
string-Agree _ (Ordinary.text none args o) =
    (ap (λ p. some (p, args)) (string_plain (40 ∷ 110 ∷ 117 ∷ 108 ∷ 108 ∷ 41 ∷ [])), o)
string-Agree _ (Ordinary.text (some str) args o) = (ap (λ p. some (p, args)) (string_plain str), o)

percent-Agree :
    (args : List Arg) → Ordinary args → Agree (some ((1, 37 ∷ []), args)) (some (37 ∷ [], args))
unfolding Agree
percent-Agree args o = (refl, o)

convert-Agree :
    (d : ℕ) (args : List Arg)
    → Letter d
    → Ordinary args
    → Agree (convert_spec no_spec d args) (convert d args)
unfolding convert convert_spec
convert-Agree _ args Letter.letter_percent o = percent-Agree args o
convert-Agree _ args Letter.letter_s o = string-Agree args o
convert-Agree _ args Letter.letter_d o =
    int-Agree (print_decimal no_spec) (λ n. itoa n 10) args o (λ n. number_plain (itoa (pos n) 10))
      decimal_plain
convert-Agree _ args Letter.letter_i o =
    int-Agree (print_decimal no_spec) (λ n. itoa n 10) args o (λ n. number_plain (itoa (pos n) 10))
      decimal_plain
convert-Agree _ args Letter.letter_x o =
    int-Agree (print_hex no_spec) (λ n. itoa n 16) args o (λ n. hex_plain (pos n))
      (λ n h. hex_plain (negsuc n))
convert-Agree _ args Letter.letter_upper_x o =
    int-Agree (print_hex no_spec) (λ n. itoa n 16) args o (λ n. hex_plain (pos n))
      (λ n h. hex_plain (negsuc n))
convert-Agree _ args Letter.letter_c o =
    int-Agree (print_char no_spec) (λ n. low_byte n ∷ []) args o (λ n. refl) (λ n h. refl)
convert-Agree _ args Letter.letter_u o =
    int-Agree (λ n. print_number no_spec (itoa n 10)) (λ n. itoa n 10) args o
      (λ n. number_plain (itoa (pos n) 10)) (λ n h. number_plain (itoa (negsuc n) 10))
convert-Agree _ args Letter.letter_p o =
    int-Agree print_pointer (λ n. 48 ∷ 120 ∷ itoa n 16) args o (λ n. two_more (itoa (pos n) 16))
      (λ n h. two_more (itoa (negsuc n) 16))
  where
    two_more :
        (str : Bytes)
        → ◌≡◌ {A = ℕ × Bytes}
            (2 + length str, 48 ∷ 120 ∷ str)
            (length (48 ∷ 120 ∷ str), 48 ∷ 120 ∷ str)
    two_more str =
        let same : 2 + length str ≡ suc (suc (length str)) = omega arith in
        ap (λ (n : ℕ). (n, 48 ∷ 120 ∷ str)) same

-- Behind the `%` of such a conversion nothing is parsed.
print_conversion-plain :
    (d : ℕ) (format : Bytes) (args : List Arg)
    → Letter d
    → print_conversion (d ∷ format) args ≡ with_format format (convert_spec no_spec d args)
unfolding print_conversion parse_flags parse_width parse_precision print_spec
print_conversion-plain _ format args Letter.letter_s = refl
print_conversion-plain _ format args Letter.letter_d = refl
print_conversion-plain _ format args Letter.letter_i = refl
print_conversion-plain _ format args Letter.letter_x = refl
print_conversion-plain _ format args Letter.letter_upper_x = refl
print_conversion-plain _ format args Letter.letter_c = refl
print_conversion-plain _ format args Letter.letter_u = refl
print_conversion-plain _ format args Letter.letter_p = refl
print_conversion-plain _ format args Letter.letter_percent = refl

-- `vsprintf` goes on at once, too.
vsprintf-plain :
    (d : ℕ) (format : Bytes) (args : List Arg)
    → Letter d
    → vsprintf_from false (37 ∷ d ∷ format) args
      ≡ and_then (convert d args) (λ out rest. vsprintf_from false format rest)
unfolding vsprintf_from
vsprintf-plain _ format args Letter.letter_s = refl
vsprintf-plain _ format args Letter.letter_d = refl
vsprintf-plain _ format args Letter.letter_i = refl
vsprintf-plain _ format args Letter.letter_x = refl
vsprintf-plain _ format args Letter.letter_upper_x = refl
vsprintf-plain _ format args Letter.letter_c = refl
vsprintf-plain _ format args Letter.letter_u = refl
vsprintf-plain _ format args Letter.letter_p = refl
vsprintf-plain _ format args Letter.letter_percent = refl

-- The whole loops: what the second gives, the first prints and counts.
Counts : Option (ℕ × Bytes) → Option Bytes → Type 0
Counts p none = Unit
Counts p (some out) = p ≡ some (length out, out)

nothing_Counts : (p : Option (ℕ × Bytes)) → Counts p none
unfolding Counts
nothing_Counts p = record {}

counted-Counts :
    (piece : Bytes) (p : Option (ℕ × Bytes)) (o : Option Bytes)
    → Counts p o
    → Counts (counted (length piece, piece) p) (prefixed piece o)
unfolding Counts
counted-Counts piece p none h = record {}
counted-Counts piece p (some out) h =
    ap (counted (length piece, piece)) h
    ∙ ap (λ (n : ℕ). some (n, piece ++ out)) (sym (length-append piece out))

converted-Counts :
    (format : Bytes) (p : Printed) (o : Option (Bytes × List Arg))
    (f : Bytes → List Arg → Option (ℕ × Bytes)) (g : List Arg → Option Bytes)
    → Agree p o
    → ((rest : List Arg) → Ordinary rest → Counts (f format rest) (g rest))
    → Counts (go_on (with_format format p) f) (and_then o (λ out rest. g rest))
unfolding Agree
converted-Counts format p none f g a h = nothing_Counts (go_on (with_format format p) f)
converted-Counts format p (some (out, rest)) f g (e, o) h =
    subst (λ (q : Printed). Counts (go_on (with_format format q) f) (prefixed out (g rest))) (sym e)
      (counted-Counts out (f format rest) (g rest) (h rest o))

one_byte-Counts : (c : ℕ) → Counts (some (1, c ∷ [])) (some (c ∷ []))
unfolding Counts
one_byte-Counts c = refl

no_byte-Counts : Counts (some (0, [])) (some [])
unfolding Counts
no_byte-Counts = refl

vprintf_from-Counts :
    (fuel : ℕ) (format : Bytes) (args : List Arg)
    → Simple format
    → Ordinary args
    → length format < fuel
    → Counts (vprintf_from fuel format args) (vsprintf_from false format args)
unfolding vprintf_from vsprintf_from
vprintf_from-Counts zero format args s o h = absurd (omega arith)
vprintf_from-Counts (suc fuel) _ args Simple.empty o h = no_byte-Counts
vprintf_from-Counts (suc fuel) _ args (Simple.last c) o h = one_byte-Counts c
vprintf_from-Counts (suc fuel) _ args (Simple.literal c d format ne s) o h =
    let other : (c == 37) ≡ false = ne→== c 37 ne in
    rw (other, vprintf_from, vsprintf_from)
      (counted-Counts (c ∷ []) (vprintf_from fuel (d ∷ format) args)
        (vsprintf_from false (d ∷ format) args)
        (vprintf_from-Counts fuel (d ∷ format) args s o (omega arith)))
vprintf_from-Counts (suc fuel) _ args (Simple.conversion d format l s) o h =
    rw (vsprintf-plain d format args l, print_conversion-plain d format args l, vprintf_from)
      (converted-Counts format (convert_spec no_spec d args) (convert d args)
        (λ behind rest. vprintf_from fuel behind rest) (λ rest. vsprintf_from false format rest)
        (convert-Agree d args l o)
        (λ rest ok. vprintf_from-Counts fuel format rest s ok (omega arith)))

-- For a format whose conversions are `%s`, `%d`, `%i`, `%x`, `%X`, `%c`, `%u`, `%p` and `%%` alone,
-- without flags, widths, precisions and length modifiers, and arguments that are not the smallest
-- number: where `vsprintf` gives bytes, `vprintf` prints these bytes and returns their number.
pub vprintf-vsprintf :
    (format : Bytes) (args : List Arg) (out : Bytes)
    → Simple format
    → Ordinary args
    → vsprintf format args ≡ some out
    → vprintf format args ≡ some (length out, out)
unfolding Counts
vprintf-vsprintf format args out s o e =
    subst (Counts (vprintf format args)) e
      (vprintf_from-Counts (suc (length format)) format args s o (omega arith))
