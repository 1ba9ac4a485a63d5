-- ===== src/Vga/Text.antt =====
-- usr/drivers/vga.c: characters, strings, numbers, and `vga_printf`. The characters are bytes. The
-- argument list of `vga_printf` is a list of values: reading past its end, or a value of the wrong
-- type, is undefined in C, and the result is then `none`.
use unics.Base.{
  ℕ, zero, suc, ◌+◌, ◌-◌, ◌*◌, ◌/◌, ◌%◌, ◌^◌, ◌&&◌, Option, none, some, List, [], ◌∷◌, ◌++◌, Bytes,
  ltb, leb, ◌==◌, if◌then◌else◌,
}
use unics.Base.Int.{ℤ, pos, negsuc}
use unics.Vga.Screen.{Vga, width, height, entry, store, update_cursor, scroll_internal}

-- `if (++vga_row >= VGA_HEIGHT) vga_scroll_internal(1)` at the first column.
unfoldable pub next_line : Vga → Vga
next_line s =
    let t = record s { row = s.row + 1; column = 0 } in
    if leb height t.row then scroll_internal (pos 1) t else t

-- `vga_buffer[vga_row * VGA_WIDTH + vga_column] = vga_entry(c, vga_color)`
abbrev pub put_here : ℕ → ℕ → Vga → Vga
put_here b c s = store b (s.row * width + s.column) (entry c s.color) s

abbrev pub step_back : Vga → Vga
step_back s =
    if ltb 0 s.column
    then record s { column = s.column - 1 }
    else if ltb 0 s.row
    then record s { row = s.row - 1; column = width - 1 }
    else s

-- The loop over a tab with `k` columns left to the next stop.
unfoldable pub blanks : ℕ → ℕ → Vga → Vga
blanks b zero s = s
blanks b (suc k) s =
    if ltb s.column width
    then blanks b k (record (put_here b 32 s) { column = s.column + 1 })
    else s

abbrev pub end_line : Vga → Vga
end_line s = if leb width s.column then next_line s else s

-- `(vga_column + VGA_TAB_WIDTH) & ~(VGA_TAB_WIDTH - 1)`: the next multiple of 4.
abbrev pub next_tab : ℕ → ℕ
next_tab column = (column + 4) / 4 * 4

-- The switch of `vga_putchar`.
unfoldable pub put : ℕ → ℕ → Vga → Vga
put b c s =
    if c == 10
    then next_line s
    else if c == 13
    then record s { column = 0 }
    else if c == 8
    then put_here b 32 (step_back s)
    else if c == 9
    then end_line (blanks b (next_tab s.column - s.column) s)
    else if leb 32 c && leb c 126
    then end_line (record (put_here b c s) { column = s.column + 1 })
    else s

-- `vga_putchar`
unfoldable pub putchar : ℕ → Vga → Vga
putchar c s = elim s.target [
  | none ↦ s
  | some b ↦ let t = put b c s in update_cursor (pos t.column) (pos t.row) t
]

-- `vga_puts`, for a string that is not NULL.
unfoldable pub puts : Bytes → Vga → Vga
puts [] s = s
puts (c ∷ str) s = puts str (putchar c s)

-- The digits that the first loop of `vga_putdec` stores, the lowest first, with room for `k`.
unfoldable pub low_digits : ℕ → ℕ → Bytes
low_digits zero value = []
low_digits (suc k) value = if value == 0 then [] else (48 + value % 10) ∷ low_digits k (value / 10)

-- The second loop: zeros up to the width asked for, from `i` characters on.
unfoldable pub zero_pad : ℕ → ℕ → ℕ → Bytes
zero_pad zero i digits = []
zero_pad (suc k) i digits = if ltb i digits then 48 ∷ zero_pad k (i + 1) digits else []

abbrev count_bytes : Bytes → ℕ
count_bytes [] = 0
count_bytes (b ∷ bs) = suc (count_bytes bs)

abbrev pub reversed : Bytes → Bytes → Bytes
reversed [] out = out
reversed (b ∷ bs) out = reversed bs (b ∷ out)

-- What `vga_putdec` prints.
unfoldable pub dec_bytes : ℕ → ℕ → Bytes
dec_bytes value digits =
    let low = if value == 0 then 48 ∷ [] else low_digits 11 value in
    reversed (low ++ zero_pad (11 - count_bytes low) (count_bytes low) digits) []

-- `vga_putdec`
abbrev pub putdec : ℕ → ℕ → Vga → Vga
putdec value digits s = puts (dec_bytes value digits) s

-- `hex_chars`
abbrev pub hex_char : ℕ → ℕ
hex_char d = if ltb d 10 then 48 + d else 55 + d

-- The digits of `num` from the one of weight `16 ^ (k - 1)` down.
unfoldable pub hex_bytes : ℕ → ℕ → Bytes
hex_bytes zero num = []
hex_bytes (suc k) num = hex_char (num / 16 ^ k % 16) ∷ hex_bytes k num

-- `vga_puthex`
abbrev pub puthex : ℕ → Vga → Vga
puthex num s = puts (48 ∷ 120 ∷ hex_bytes 8 num) s

-- An argument of `vga_printf`.
pub data Arg : Type 0 where
  int : ℤ → Arg
  word : ℕ → Arg
  string : Option Bytes → Arg

-- `case 'd'`: `-val` of the smallest number overflows in C, and is itself on the machine.
abbrev pub print_int : ℤ → Vga → ℕ × Vga
print_int (pos n) s = (1, putdec n 1 s)
print_int (negsuc n) s = (2, putdec (n + 1) 1 (putchar 45 s))

abbrev pub print_string : Option Bytes → Vga → ℕ × Vga
print_string none s = (0, s)
print_string (some str) s = (1, puts str s)

abbrev pub low_byte : ℤ → ℕ
low_byte (pos n) = n % 2 ^ 8
low_byte (negsuc n) = 255 - n % 2 ^ 8

-- `va_arg`
abbrev pub take_int : List Arg → Option (ℤ × List Arg)
take_int [] = none
take_int (int v ∷ rest) = some (v, rest)
take_int (word v ∷ rest) = none
take_int (string v ∷ rest) = none

abbrev pub take_word : List Arg → Option (ℕ × List Arg)
take_word [] = none
take_word (int v ∷ rest) = none
take_word (word v ∷ rest) = some (v, rest)
take_word (string v ∷ rest) = none

abbrev pub take_string : List Arg → Option (Option Bytes × List Arg)
take_string [] = none
take_string (int v ∷ rest) = none
take_string (word v ∷ rest) = none
take_string (string v ∷ rest) = some (v, rest)

-- Go on with an argument, if there is one of the type.
abbrev pub with_arg :
    {A : Type 0} → Option (A × List Arg) → (A → ℕ × Vga) → Option ((ℕ × Vga) × List Arg)
with_arg none print = none
with_arg (some (v, rest)) print = some (print v, rest)

-- One conversion, with what it adds to `count` and the arguments left.
unfoldable pub convert : ℕ → List Arg → Vga → Option ((ℕ × Vga) × List Arg)
convert c args s =
    if c == 100
    then with_arg (take_int args) (λ v. print_int v s)
    else if c == 120
    then with_arg (take_word args) (λ v. (1, puthex v s))
    else if c == 115
    then with_arg (take_string args) (λ v. print_string v s)
    else if c == 99
    then with_arg (take_int args) (λ v. (1, putchar (low_byte v) s))
    else if c == 37
    then some ((1, putchar 37 s), args)
    else some ((2, putchar c (putchar 37 s)), args)

-- The loop of `vga_printf`: the final count, and the screen.
unfoldable pub printf_from : Bytes → List Arg → ℕ → Vga → Option (ℕ × Vga)
printf_from [] args count s = some (count, s)
printf_from (c ∷ []) args count s = some (count + 1, putchar c s)
printf_from (c ∷ d ∷ format) args count s =
    if c == 37
    then elim (convert d args s) [
      | none ↦ none
      | some r ↦ printf_from format r.1 (count + r.0.0) r.0.1
    ]
    else printf_from (d ∷ format) args (count + 1) (putchar c s)

-- `vga_printf`: -1 is `VGA_ERROR_NULL_POINTER`.
unfoldable pub printf : Option Bytes → List Arg → Vga → Option (ℤ × Vga)
printf none args s = some (negsuc 0, s)
printf (some format) args s = elim (printf_from format args 0 s) [
  | none ↦ none
  | some r ↦ some (pos r.0, r.1)
]
