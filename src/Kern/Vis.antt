-- ===== src/Kern/Vis.antt =====
-- kern/vis.c: the encoders. A call appends bytes at `dst`: these are the result. The character is an
-- `unsigned char`, and what `vis` does not read (`nextc`) is left out.
use unics.Base.{
  Option, none, some, ℕ, zero, suc, ◌+◌, ◌*◌, ◌/◌, ◌%◌, ◌≤◌, ◌≡◌, refl, Bool, not, ◌&&◌, ◌||◌, [],
  ◌∷◌, ◌++◌, Bytes, bit_and, arith, length, length-append, take, ltb, ◌==◌, if◌then◌else◌,
}
use unics.Ctype.{isprint}

-- `flag & mask`
abbrev pub has : ℕ → ℕ → Bool
has flag mask = not (bit_and flag mask == 0)

abbrev pub escaped : ℕ → Bytes
escaped x = 92 ∷ x ∷ []

-- The `switch` of `vis`: no byte where it breaks.
unfoldable pub slash_escape : ℕ → ℕ → Bytes
slash_escape c flag =
    if c == 10
    then (if has flag 0x10 then [] else escaped 110)
    else if c == 13
    then escaped 114
    else if c == 8
    then escaped 98
    else if c == 7
    then escaped 97
    else if c == 11
    then escaped 118
    else if c == 9
    then (if has flag 0x08 then [] else escaped 116)
    else if c == 12
    then escaped 102
    else if c == 32
    then (if has flag 0x04 then escaped 115 else [])
    else if c == 34
    then (if has flag 0x200 then escaped 34 else [])
    else if c == 92
    then escaped 92
    else []

abbrev pub octal_digits : ℕ → Bytes
octal_digits c = 92 ∷ (c / 64 % 8 + 48) ∷ (c / 8 % 8 + 48) ∷ (c % 8 + 48) ∷ []

-- `ctl[c][1]`: the second byte of the entry, `^` for 0 and 30.
abbrev pub control_name : ℕ → ℕ
control_name c = if c == 0 then 94 else c + 64

-- `vis` behind its `switch`. Both of its last parts spell the character in octal.
unfoldable pub spell_plain : ℕ → ℕ → Bytes
spell_plain c flag =
    if not (has flag 0x400) && isprint c && not (has flag 0x1c && (c == 32 || c == 9 || c == 10))
    then c ∷ []
    else if has flag 0x02 && (ltb c 32 || c == 127)
    then (if c == 127 then escaped 63 else escaped (control_name c))
    else octal_digits c

-- `vis`
unfoldable pub vis : ℕ → ℕ → Bytes
vis c flag =
    if not (has flag 0x40) && not (length (slash_escape c flag) == 0)
    then slash_escape c flag
    else spell_plain c flag

-- `strvis`, on the bytes of a string, without the terminator that it writes
unfoldable pub strvis : Bytes → ℕ → Bytes
strvis [] flag = []
strvis (c ∷ src) flag = vis c flag ++ strvis src flag

-- The number of bytes that `stravis` asks `malloc` for.
abbrev pub stravis_size : Bytes → ℕ
stravis_size src = length src * 4 + 1

-- `stravis`: the block that it fills, when `malloc` gives one of `stravis_size` bytes
unfoldable pub stravis : Bool → Bytes → ℕ → Option Bytes
unfolding strvis
stravis granted src flag = if granted then some (strvis src flag) else none

-- `strnvis` on a string: it stops behind `n` characters.
unfoldable pub strnvis : Bytes → ℕ → ℕ → Bytes
strnvis [] n flag = []
strnvis (c ∷ src) zero flag = []
strnvis (c ∷ src) (suc n) flag = vis c flag ++ strnvis src n flag

escaped-short : (c flag : ℕ) → length (slash_escape c flag) ≤ 4
unfolding slash_escape
escaped-short c flag = ground arith

vis-short : (c flag : ℕ) → length (vis c flag) ≤ 4
unfolding vis spell_plain
vis-short c flag = ground (arith, escaped-short c flag)

-- What `strvis` writes, with its terminator, fits into what `stravis` allocates.
pub strvis_fits : (src : Bytes) (flag : ℕ) → length (strvis src flag) + 1 ≤ stravis_size src
unfolding strvis
strvis_fits [] flag = omega arith
strvis_fits (c ∷ src) flag =
    omega
      (arith, strvis_fits src flag, vis-short c flag, length-append (vis c flag) (strvis src flag))

-- The limit `n` of `strnvis` counts characters of the source: the result is what `strvis` makes of
-- the first `n` of them.
pub strnvis_lem : (src : Bytes) (n flag : ℕ) → strnvis src n flag ≡ strvis (take n src) flag
unfolding strnvis strvis
strnvis_lem [] zero flag = refl
strnvis_lem [] (suc n) flag = refl
strnvis_lem (c ∷ src) zero flag = refl
strnvis_lem (c ∷ src) (suc n) flag = rw (strnvis_lem src n flag) refl
