-- ===== src/Stdio/Line.antt =====
-- lib/libc/stdio.c: `getchar` with its line buffer, `ungetc`, `gets`, `fgets` and `fgetc`. The keyboard
-- is a parameter: `kb_getchar` gives a character and the next state of the keyboard, or nothing if it
-- never returns. Loops that wait for keys run on fuel. A character is a byte; `EOF` is `none`, and the
-- character 255 of `kb_getchar` counts as `EOF`, as `char` is signed.
use unics.Base.{
  ℕ, zero, suc, ◌+◌, ◌-◌, Bool, true, false, ◌&&◌, ◌||◌, Option, none, some, [], ◌∷◌, Bytes, ltb,
  leb, ◌==◌, if◌then◌else◌,
}
use unics.Base.Table.{update}
use unics.Vga.Screen.{Vga}
use unics.Vga.Text.{putchar}

-- `INPUT_BUFFER_SIZE`
abbrev pub buffer_size : ℕ
buffer_size = 256

-- The static variables, with the screen and the keyboard. The buffer has the indices below
-- `buffer_size`; `overrun` tells whether a byte behind it has been overwritten, which is undefined.
pub record Console (K : Type 0) : Type 0 where
  pub unget_char : Option ℕ
  pub buffer : ℕ → ℕ
  pub at : ℕ
  pub len : ℕ
  pub valid : Bool
  pub overrun : Bool
  pub screen : Vga
  pub keyboard : K

module _ {K : Type 0} where
  -- Echo a character.
  abbrev pub echo : ℕ → Console K → Console K
  echo c s = record s { screen = putchar c s.screen }

  -- A backspace takes the last character off the line.
  abbrev pub erase : Console K → Console K
  erase s = if ltb 0 s.len then echo 8 (echo 32 (echo 8 (record s { len = s.len - 1 }))) else s

  -- A printable character goes to the end of the line.
  abbrev pub append : ℕ → Console K → Console K
  append c s = echo c (record s { buffer = update s.buffer s.len c; len = s.len + 1 })

  -- What one character does to the line.
  unfoldable pub take_key : ℕ → Console K → Console K
  take_key c s =
      if (c == 8) || (c == 127) then erase s else if leb 32 c && leb c 126 then append c s else s

  -- The condition that ends the loop.
  abbrev pub line_ends : ℕ → Console K → Bool
  line_ends c s = (c == 10) || ((c == 255) || leb (buffer_size - 1) s.len)

  -- What follows the loop: the terminator goes to index `len`, which may lie behind the buffer.
  abbrev pub end_line : ℕ → Console K → Console K
  end_line c s =
      let t =
        if c == 10
        then echo 10 (record s { buffer = update s.buffer s.len 10; len = s.len + 1 })
        else s in
      record t {
        buffer = update t.buffer t.len 0;
        valid = true;
        overrun = t.overrun || leb buffer_size t.len;
      }

  -- The next character of the buffer, or `EOF`.
  abbrev pub next_char : Console K → Option ℕ × Console K
  next_char s =
      if ltb s.at s.len then (some (s.buffer s.at), record s { at = s.at + 1 }) else (none, s)

  -- `ungetc`, for a character: the result.
  unfoldable pub ungetc : ℕ → Console K → Option ℕ × Console K
  ungetc c s = elim s.unget_char [
    | none ↦ (some c, record s { unget_char = some c })
    | some d ↦ (none, s)
  ]

-- Go on with a result, if there is one.
abbrev pub bind : {A B : Type 0} → Option A → (A → Option B) → Option B
bind none next = none
bind (some a) next = next a

-- A byte in front of the bytes that the rest of a loop stores.
abbrev pub put_first : {A : Type 0} → ℕ → Option (Bytes × A) → Option (Bytes × A)
put_first c none = none
put_first c (some (bytes, last)) = some (c ∷ bytes, last)

-- `NULL` for an empty result at `EOF`.
abbrev pub string_or_null : Bytes → Bool → Option Bytes
string_or_null [] true = none
string_or_null [] false = some []
string_or_null (c ∷ bytes) eof = some (c ∷ bytes)

module _ {K : Type 0} (kb_getchar : K → Option (ℕ × K)) where
  -- The loop that reads a line: the character that ends it.
  unfoldable pub read_line : ℕ → Console K → Option (ℕ × Console K)
  read_line zero s = none
  read_line (suc fuel) s = bind (kb_getchar s.keyboard) (λ r.
      let t = record s { keyboard = r.1 } in
      if line_ends r.0 t then some (r.0, t) else read_line fuel (take_key r.0 t))

  -- The part of `getchar` behind the pushed-back character.
  unfoldable pub getchar_buffered : ℕ → Console K → Option (Option ℕ × Console K)
  getchar_buffered fuel s =
      if s.valid && ltb s.at s.len
      then some (next_char s)
      else bind (read_line fuel (record s { at = 0; len = 0; valid = false }))
          (λ r. some (next_char (end_line r.0 r.1)))

  -- `getchar`
  unfoldable pub getchar : ℕ → Console K → Option (Option ℕ × Console K)
  getchar fuel s = elim s.unget_char [
    | none ↦ getchar_buffered fuel s
    | some c ↦ some (some c, record s { unget_char = none })
  ]

  -- The loop of `gets`: the bytes stored, and whether `EOF` ended them.
  unfoldable pub gets_from : ℕ → Console K → Option (Bytes × (Bool × Console K))
  gets_from zero s = none
  gets_from (suc fuel) s = bind (getchar (suc fuel) s) (λ r. elim r.0 [
    | none ↦ some ([], (true, r.1))
    | some c ↦ if c == 10 then some ([], (false, r.1)) else put_first c (gets_from fuel r.1)
  ])

  -- `gets`
  unfoldable pub gets : ℕ → Console K → Option (Option Bytes × Console K)
  gets fuel s = bind (gets_from fuel s) (λ r. some (string_or_null r.0 r.1.0, r.1.1))

  -- The loop of `fgets` with room for `k` bytes: the bytes, with a newline that ended them, and
  -- whether `EOF` did.
  unfoldable pub fgets_from : ℕ → ℕ → Console K → Option (Bytes × (Bool × Console K))
  fgets_from fuel zero s = some ([], (false, s))
  fgets_from fuel (suc k) s = bind (getchar fuel s) (λ r. elim r.0 [
    | none ↦ some ([], (true, r.1))
    | some c ↦ if c == 10 then some (10 ∷ [], (false, r.1)) else put_first c (fgets_from fuel k r.1)
  ])

  -- `fgets`: a size of 1 or less tests a character that was never read, which is undefined.
  unfoldable pub fgets : ℕ → ℕ → Console K → Option (Option Bytes × Console K)
  fgets fuel size s =
      if leb size 1
      then none
      else bind (fgets_from fuel (size - 1) s) (λ r. some (string_or_null r.0 r.1.0, r.1.1))

  -- `fgetc`, for the stream `stdin_file` or another one.
  unfoldable pub fgetc : Bool → ℕ → Console K → Option (Option ℕ × Console K)
  fgetc is_stdin fuel s = if is_stdin then getchar fuel s else some (none, s)
