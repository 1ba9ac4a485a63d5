-- ===== src/Stdio/Format.antt =====
-- lib/libc/stdio.c: `vsprintf` and `vsnprintf`. Their result is the list of the bytes in front of the
-- terminator; its length is what they return. The arguments are a list of values: reading past its
-- end, or a value of another type, is undefined in C, and the result is then `none`.
use unics.Base.{
  ℕ, zero, suc, ◌-◌, ◌%◌, ◌^◌, Bool, true, false, ◌&&◌, ◌||◌, Option, none, some, List, [], ◌∷◌,
  ◌++◌, Bytes, length, take, leb, ◌==◌, if◌then◌else◌,
}
use unics.Base.Int.{ℤ, pos, negsuc}
use unics.Stdlib.Number.{itoa}

-- An argument: an `int`, or an `unsigned int` or pointer, which has the bits of an `int`, or a string.
pub data Arg : Type 0 where
  int : ℤ → Arg
  string : Option Bytes → Arg

abbrev pub take_int : List Arg → Option (ℤ × List Arg)
take_int [] = none
take_int (int v ∷ rest) = some (v, rest)
take_int (string v ∷ rest) = none

abbrev pub take_string : List Arg → Option (Bytes × List Arg)
take_string [] = none
take_string (int v ∷ rest) = none
take_string (string none ∷ rest) = some (40 ∷ 110 ∷ 117 ∷ 108 ∷ 108 ∷ 41 ∷ [], rest)
take_string (string (some str) ∷ rest) = some (str, rest)

abbrev pub low_byte : ℤ → ℕ
low_byte (pos n) = n % 2 ^ 8
low_byte (negsuc n) = 255 - n % 2 ^ 8

-- `__isdigit`
abbrev pub is_digit : ℕ → Bool
is_digit c = leb 48 c && leb c 57

-- The bytes of an argument, with the arguments left.
abbrev pub with_arg : {A : Type 0} → Option (A × List Arg) → (A → Bytes) → Option (Bytes × List Arg)
with_arg none show = none
with_arg (some (v, rest)) show = some (show v, rest)

-- One conversion of `vsprintf`: its bytes, and the arguments left.
unfoldable pub convert : ℕ → List Arg → Option (Bytes × List Arg)
convert c args =
    if c == 115
    then with_arg (take_string args) (λ str. str)
    else if (c == 100) || (c == 105)
    then with_arg (take_int args) (λ n. itoa n 10)
    else if (c == 120) || (c == 88)
    then with_arg (take_int args) (λ n. itoa n 16)
    else if c == 117
    then with_arg (take_int args) (λ n. itoa n 10)
    else if c == 99
    then with_arg (take_int args) (λ n. low_byte n ∷ [])
    else if c == 112
    then with_arg (take_int args) (λ n. 48 ∷ 120 ∷ itoa n 16)
    else if c == 37
    then some (37 ∷ [], args)
    else some (37 ∷ c ∷ [], args)

-- Put bytes in front of what the rest of the loop gives.
abbrev pub prefixed : Bytes → Option Bytes → Option Bytes
prefixed out none = none
prefixed out (some rest) = some (out ++ rest)

-- Print the bytes of a conversion, and go on with the arguments left.
abbrev pub and_then : Option (Bytes × List Arg) → (Bytes → List Arg → Option Bytes) → Option Bytes
and_then none go = none
and_then (some (out, rest)) go = prefixed out (go out rest)

-- The loop of `vsprintf`. Between a `%` and its conversion (`true`) it skips the digits of a width; a
-- format that ends there is read past its terminator, which is undefined.
unfoldable pub vsprintf_from : Bool → Bytes → List Arg → Option Bytes
vsprintf_from true [] args = none
vsprintf_from true (c ∷ format) args = elim (is_digit c) [
  | true ↦ vsprintf_from true format args
  | false ↦ and_then (convert c args) (λ out rest. vsprintf_from false format rest)
]
vsprintf_from false [] args = some []
vsprintf_from false (c ∷ []) args = some (c ∷ [])
vsprintf_from false (c ∷ d ∷ format) args = elim (c == 37) [
  | true ↦ vsprintf_from true (d ∷ format) args
  | false ↦ prefixed (c ∷ []) (vsprintf_from false (d ∷ format) args)
]

-- `vsprintf`
abbrev pub vsprintf : Bytes → List Arg → Option Bytes
vsprintf format args = vsprintf_from false format args

-- The loops that copy bytes as long as there is room.
abbrev pub cut_to : ℕ → Option (Bytes × List Arg) → Option (Bytes × List Arg)
cut_to k none = none
cut_to k (some (out, rest)) = some (take k out, rest)

-- One conversion of `vsnprintf`, with room for `k` bytes. Only `%p` asks for the room first.
unfoldable pub convert_sized : ℕ → ℕ → List Arg → Option (Bytes × List Arg)
convert_sized k c args =
    if (c == 112) && leb k 2 then with_arg (take_int args) (λ n. []) else cut_to k (convert c args)

-- The loop of `vsnprintf`, with room for `k` bytes more.
unfoldable pub vsnprintf_from : ℕ → Bytes → List Arg → Option Bytes
vsnprintf_from zero format args = some []
vsnprintf_from (suc k) [] args = some []
vsnprintf_from (suc k) (c ∷ []) args = some (c ∷ [])
vsnprintf_from (suc k) (c ∷ d ∷ format) args = elim (c == 37) [
  | true ↦
      and_then (convert_sized (suc k) d args)
        (λ out rest. vsnprintf_from (suc k - length out) format rest)
  | false ↦ prefixed (c ∷ []) (vsnprintf_from k (d ∷ format) args)
]

-- `vsnprintf` for a buffer of `n` bytes.
abbrev pub vsnprintf : ℕ → Bytes → List Arg → Option Bytes
vsnprintf n format args = vsnprintf_from (n - 1) format args
