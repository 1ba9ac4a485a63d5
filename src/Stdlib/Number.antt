-- ===== src/Stdlib/Number.antt =====
-- lib/libc/stdlib.c: numbers to strings and back. A string is the list of the bytes before its
-- terminator. `int` and `long` have 32 bits; a sum or product past their range is undefined in C, and
-- here the number goes on without a bound.
use unics.Base.{
  ℕ, zero, suc, ◌+◌, ◌-◌, ◌*◌, ◌/◌, ◌%◌, ◌^◌, Bool, true, false, ◌&&◌, ◌||◌, Option, none, some, [],
  ◌∷◌, ◌++◌, Bytes, ltb, leb, ◌==◌, if◌then◌else◌,
}
use unics.Base.Int.{ℤ, pos, negsuc}

-- `(rem > 9) ? (rem - 10) + 'a' : rem + '0'`
abbrev pub digit_char : ℕ → ℕ
digit_char rem = if ltb 9 rem then rem - 10 + 97 else rem + 48

-- The loop of `itoa` on a positive number, the lowest digit first. A positive base of two or more
-- ends it within 32 rounds.
unfoldable pub low_digits : ℕ → ℕ → ℕ → Bytes
low_digits zero base num = []
low_digits (suc k) base num =
    if num == 0 then [] else digit_char (num % base) ∷ low_digits k base (num / base)

-- The loop on the number `-num`: C's remainders are then negative or 0.
unfoldable pub negative_digits : ℕ → ℕ → ℕ → Bytes
negative_digits zero base num = []
negative_digits (suc k) base num =
    if num == 0 then [] else (48 - num % base) ∷ negative_digits k base (num / base)

-- The loop that reverses a string.
abbrev pub reversed : Bytes → Bytes → Bytes
reversed [] out = out
reversed (b ∷ bs) out = reversed bs (b ∷ out)

-- `itoa`. The number -2 ^ 31 is its own negation.
unfoldable pub itoa : ℤ → ℕ → Bytes
itoa (pos n) base = if n == 0 then 48 ∷ [] else reversed (low_digits 32 base n) []
itoa (negsuc n) base =
    if base == 10
    then (if n + 1 == 2 ^ 31
        then reversed (negative_digits 32 base (n + 1) ++ (45 ∷ [])) []
        else reversed (low_digits 32 base (n + 1) ++ (45 ∷ [])) [])
    else reversed (negative_digits 32 base (n + 1)) []

-- `sign * n`
abbrev pub signed : Bool → ℕ → ℤ
signed true zero = pos 0
signed true (suc n) = negsuc n
signed false n = pos n

abbrev pub is_space : ℕ → Bool
is_space c = (c == 32) || (leb 9 c && leb c 13)

-- The loop that skips white space, for the test of `atoi` or of `strtol`.
abbrev pub skip_space : (ℕ → Bool) → Bytes → Bytes
skip_space test [] = []
skip_space test (c ∷ str) = if test c then skip_space test str else c ∷ str

-- A sign, and the string behind it.
abbrev pub take_sign : Bytes → Bool × Bytes
take_sign [] = (false, [])
take_sign (c ∷ str) =
    if c == 45 then (true, str) else if c == 43 then (false, str) else (false, c ∷ str)

-- The last loop of `atoi`.
unfoldable pub read_decimal : ℕ → Bytes → ℕ
read_decimal result [] = result
read_decimal result (c ∷ str) =
    if leb 48 c && leb c 57 then read_decimal (result * 10 + (c - 48)) str else result

-- `atoi`
unfoldable pub atoi : Bytes → ℤ
atoi str =
    let (negative, digits) = take_sign (skip_space is_space str) in
    signed negative (read_decimal 0 digits)

-- The white space that `strtol` skips.
abbrev pub is_blank : ℕ → Bool
is_blank c = (c == 32) || (c == 9) || (c == 10)

-- The value of a character as a digit.
unfoldable pub digit_of : ℕ → Option ℕ
digit_of c =
    if leb 48 c && leb c 57
    then some (c - 48)
    else if leb 97 c && leb c 122
    then some (c - 97 + 10)
    else if leb 65 c && leb c 90
    then some (c - 65 + 10)
    else none

-- The last loop of `strtol`: the number, and the rest of the string for `endptr`.
unfoldable pub read_digits : ℕ → ℕ → Bytes → ℕ × Bytes
read_digits base result [] = (result, [])
read_digits base result (c ∷ str) = elim (digit_of c) [
  | none ↦ (result, c ∷ str)
  | some digit ↦
      if leb base digit then (result, c ∷ str) else read_digits base (result * base + digit) str
]

-- The test `*p == '0' && (p[1] == 'x' || p[1] == 'X')`
abbrev pub has_prefix : Bytes → Bool
has_prefix [] = false
has_prefix (c ∷ []) = false
has_prefix (c ∷ d ∷ str) = (c == 48) && ((d == 120) || (d == 88))

abbrev pub starts_with_zero : Bytes → Bool
starts_with_zero [] = false
starts_with_zero (c ∷ str) = c == 48

abbrev pub skip_two : Bytes → Bytes
skip_two [] = []
skip_two (c ∷ []) = []
skip_two (c ∷ d ∷ str) = str

-- The base that `strtol` detects, and the string behind a prefix.
abbrev pub detect_base : ℕ → Bytes → ℕ × Bytes
detect_base base str =
    if base == 0
    then (if starts_with_zero str
        then (if has_prefix str then (16, skip_two str) else (8, str))
        else (10, str))
    else if (base == 16) && has_prefix str
    then (16, skip_two str)
    else (base, str)

-- `strtol`
unfoldable pub strtol : Bytes → ℕ → ℤ × Bytes
strtol str base =
    let (negative, unsigned) = take_sign (skip_space is_blank str) in
    let (base', digits) = detect_base base unsigned in
    let (result, rest) = read_digits base' 0 digits in (signed negative result, rest)

-- `atol`
abbrev pub atol : Bytes → ℤ
atol str = (strtol str 10).0
