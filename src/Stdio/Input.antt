-- ===== src/Stdio/Input.antt =====
-- lib/libc/stdio.c: the line buffer, for a line that is typed key by key.
use unics.Base.{
  ℕ, zero, suc, ◌+◌, ◌-◌, ◌≤◌, ◌<◌, ◌≡◌, refl, ap, sym, ◌∙◌, Bool, true, false, ◌&&◌, ◌||◌, Option,
  none, some, [], ◌∷◌, ◌++◌, Bytes, length, arith, ltb, leb, ◌==◌, if◌then◌else◌, if_ind,
  Bool-cases, ==→eq, ==→ne, leb→lt, inl, inr,
}
use Prim.{Unit}
use mathlib.Core.Option.{some-injective}
use unics.Base.Table.{update, update_self, update_ne}
use unics.Vga.Text.{puts}
use unics.Stdio.Line.{
  buffer_size, Console, erase, append, take_key, line_ends, end_line, next_char, bind, put_first,
  string_or_null, read_line, getchar_buffered, getchar, fgets_from, fgets,
}

-- A keyboard on which the keys of a list are typed; it waits for ever after the last one.
abbrev pub typed : Bytes → Option (ℕ × Bytes)
typed [] = none
typed (c ∷ keys) = some (c, keys)

pub data Printables : Bytes → Type 0 where
  none_typed : Printables []
  one_more : (c : ℕ) (keys : Bytes) → 32 ≤ c → c ≤ 126 → Printables keys → Printables (c ∷ keys)

-- The bytes in a buffer from an index on.
abbrev pub stores : (ℕ → ℕ) → ℕ → Bytes → ℕ → ℕ
stores buffer i [] = buffer
stores buffer i (c ∷ keys) = stores (update buffer i c) (i + 1) keys

-- The state when the keys before the newline have been typed.
abbrev pub line_typed : Bytes → Bytes → Console Bytes → Console Bytes
line_typed keys later s = record s {
  buffer = stores s.buffer s.len keys;
  len = s.len + length keys;
  screen = puts keys s.screen;
  keyboard = later;
}

-- A key that does not end the line.
read_line-key :
    (c : ℕ) (rest : Bytes) (fuel : ℕ) (s : Console Bytes)
    → s.keyboard ≡ c ∷ rest
    → line_ends c s ≡ false
    → read_line typed (suc fuel) s
      ≡ read_line typed fuel (take_key c (record s { keyboard = rest }))
unfolding read_line
read_line-key c rest fuel s e f =
    ap
      (λ (k : Bytes). bind (typed k) (λ r.
        let t = record s { keyboard = r.1 } in
        if line_ends r.0 t then some (r.0, t) else read_line typed fuel (take_key r.0 t)))
      e
    ∙ ap
        (λ (b : Bool).
          if b
          then some (c, record s { keyboard = rest })
          else read_line typed fuel (take_key c (record s { keyboard = rest })))
        f

-- The newline ends it.
read_line-newline :
    (rest : Bytes) (fuel : ℕ) (s : Console Bytes)
    → s.keyboard ≡ 10 ∷ rest
    → read_line typed (suc fuel) s ≡ some (10, record s { keyboard = rest })
unfolding read_line
read_line-newline rest fuel s e =
    ap
      (λ (k : Bytes). bind (typed k) (λ r.
        let t = record s { keyboard = r.1 } in
        if line_ends r.0 t then some (r.0, t) else read_line typed fuel (take_key r.0 t)))
      e

take_key-append : (c : ℕ) (s : Console Bytes) → 32 ≤ c → c ≤ 126 → take_key c s ≡ append c s
unfolding take_key
take_key-append c s lo hi =
    let visible : ((c == 8) || (c == 127)) ≡ false = ground arith in
    let printable : (leb 32 c && leb c 126) ≡ true = ground arith in
    ap (λ (b : Bool). if b then erase s else (if leb 32 c && leb c 126 then append c s else s))
      visible
    ∙ ap (λ (b : Bool). if b then append c s else s) printable

-- The loop stores the printable keys, echoes each of them, and ends at the newline.
read_line-typed :
    (keys later : Bytes) (fuel : ℕ) (s : Console Bytes)
    → Printables keys
    → s.keyboard ≡ keys ++ (10 ∷ later)
    → s.len + length keys < buffer_size
    → length keys < fuel
    → read_line typed fuel s ≡ some (10, line_typed keys later s)
unfolding puts
read_line-typed keys later zero s p e room h = absurd (omega arith)
read_line-typed _ later (suc fuel) s Printables.none_typed e room h =
    let same : s.len ≡ s.len + 0 = omega arith in
    read_line-newline later fuel s e
    ∙ ap (λ (n : ℕ). some (10, record s { len = n; keyboard = later })) same
read_line-typed _ later (suc fuel) s (Printables.one_more c keys lo hi p) e room h =
    let goes_on : line_ends c s ≡ false = ground arith in
    let t = record s { keyboard = keys ++ (10 ∷ later) } in
    let longer : s.len + 1 + length keys ≡ s.len + suc (length keys) = omega arith in
    read_line-key c (keys ++ (10 ∷ later)) fuel s e goes_on
    ∙ ap (read_line typed fuel) (take_key-append c t lo hi)
    ∙ read_line-typed keys later fuel (append c t) p refl (omega arith) (omega arith)
    ∙ ap (λ (n : ℕ). some (10, record (line_typed (c ∷ keys) later s) { len = n })) longer

-- The byte at an index of a string, and the terminator behind it.
abbrev pub byte_at : Bytes → ℕ → ℕ
byte_at [] i = 0
byte_at (c ∷ str) zero = c
byte_at (c ∷ str) (suc i) = byte_at str i

stores_below : (keys : Bytes) (buffer : ℕ → ℕ) (i j : ℕ) → j < i → stores buffer i keys j ≡ buffer j
stores_below [] buffer i j h = refl
stores_below (c ∷ keys) buffer i j h =
    stores_below keys (update buffer i c) (i + 1) j (omega arith)
    ∙ update_ne buffer i j c (λ e. omega arith)

stores_at :
    (keys : Bytes) (buffer : ℕ → ℕ) (i k : ℕ)
    → k < length keys
    → stores buffer i keys (i + k) ≡ byte_at keys k
stores_at [] buffer i k h = absurd (omega arith)
stores_at (c ∷ keys) buffer i zero h =
    let here : i + 0 ≡ i = omega arith in
    ap (stores (update buffer i c) (i + 1) keys) here
    ∙ stores_below keys (update buffer i c) (i + 1) i (omega arith)
    ∙ update_self buffer i c
stores_at (c ∷ keys) buffer i (suc k) h =
    let there : i + suc k ≡ i + 1 + k = omega arith in
    ap (stores (update buffer i c) (i + 1) keys) there
    ∙ stores_at keys (update buffer i c) (i + 1) k (omega arith)

byte_at-append :
    (keys : Bytes) (c i : ℕ) → i < length keys → byte_at (keys ++ (c ∷ [])) i ≡ byte_at keys i
byte_at-append [] c i h = absurd (omega arith)
byte_at-append (k ∷ keys) c zero h = refl
byte_at-append (k ∷ keys) c (suc i) h = byte_at-append keys c i (omega arith)

byte_at_end : (keys : Bytes) (c : ℕ) → byte_at (keys ++ (c ∷ [])) (length keys) ≡ c
byte_at_end [] c = refl
byte_at_end (k ∷ keys) c = byte_at_end keys c

-- The buffer after a line: its bytes, the newline, and a terminator behind it.
line_buffer : (ℕ → ℕ) → Bytes → ℕ → ℕ
line_buffer buffer keys =
    update (update (stores buffer 0 keys) (0 + length keys) 10) (0 + length keys + 1) 0

line_buffer_lem :
    (buffer : ℕ → ℕ) (keys : Bytes) (i : ℕ)
    → i ≤ length keys
    → line_buffer buffer keys i ≡ byte_at (keys ++ (10 ∷ [])) i
unfolding line_buffer
line_buffer_lem buffer keys i h =
    update_ne (update (stores buffer 0 keys) (0 + length keys) 10) (0 + length keys + 1) i 0
      (λ e. omega arith)
    ∙ elim (Bool-cases (0 + length keys == i)) [
      | inl e ↦
          let at_end : length keys ≡ i = omega (arith, ==→eq (0 + length keys) i e) in
          rw e (sym (byte_at_end keys 10) ∙ ap (byte_at (keys ++ (10 ∷ []))) at_end)
      | inr e ↦
          let inside : i < length keys = omega (arith, ==→ne (0 + length keys) i e) in
          let zero_on : i ≡ 0 + i = omega arith in
          rw e (
            ap (stores buffer 0 keys) zero_on
            ∙ stores_at keys buffer 0 i inside
            ∙ sym (byte_at-append keys 10 i inside))
    ]

-- What `getchar` leaves after a line.
pub record HoldsLine (keys later : Bytes) (t : Console Bytes) : Type 0 where
  pub bytes : (i : ℕ) → i ≤ length keys → t.buffer i ≡ byte_at (keys ++ (10 ∷ [])) i
  pub terminator : t.buffer (length keys + 1) ≡ 0
  pub rest : t.keyboard ≡ later
  pub ends : t.len ≡ length keys + 1
  pub reads_on : t.at ≡ 1

-- The state after a line, and whether its terminator went behind the buffer.
getchar_line :
    (keys later : Bytes) (fuel : ℕ) (s : Console Bytes)
    → Printables keys
    → s.keyboard ≡ keys ++ (10 ∷ later)
    → s.unget_char ≡ none
    → (s.valid && ltb s.at s.len) ≡ false
    → length keys < buffer_size
    → length keys < fuel
    → (t : Console Bytes) × (getchar typed fuel s ≡ some (some (byte_at (keys ++ (10 ∷ [])) 0), t))
      × HoldsLine keys later t
      × (t.overrun ≡ (s.overrun || leb buffer_size (0 + length keys + 1)))
unfolding getchar getchar_buffered line_buffer
getchar_line keys later fuel s p e no_unget used_up room h =
    let empty = record s { at = 0; len = 0; valid = false } in
    let ended = end_line 10 (line_typed keys later empty) in
    let t = record ended { at = 1 } in
    let first = line_buffer_lem s.buffer keys 0 (omega arith) in
    let more : ltb 0 (0 + length keys + 1) ≡ true = ground arith in
    let behind : length keys + 1 ≡ 0 + length keys + 1 = omega arith in
    (
      t,
      ap
            (λ (o : Option ℕ). elim o [
              | none ↦ getchar_buffered typed fuel s
              | some c ↦ some (some c, record s { unget_char = none })
            ])
            no_unget
          ∙ ap
              (λ (b : Bool).
                if b
                then some (next_char s)
                else bind (read_line typed fuel empty) (λ r. some (next_char (end_line r.0 r.1))))
              used_up
          ∙ ap
              (λ (o : Option (ℕ × Console Bytes)).
                bind o (λ r. some (next_char (end_line r.0 r.1))))
              (read_line-typed keys later fuel empty p e (omega arith) h)
          ∙ ap (λ (b : Bool). some (if b then (some (ended.buffer 0), t) else (none, ended))) more
          ∙ ap (λ (c : ℕ). some (some c, t)) first,
      record {
        bytes = line_buffer_lem s.buffer keys;
        terminator =
            ap (line_buffer s.buffer keys) behind
            ∙ update_self (update (stores s.buffer 0 keys) (0 + length keys) 10)
                (0 + length keys + 1) 0;
        rest = refl;
        ends = omega arith;
        reads_on = refl;
      },
      refl,
    )

-- With nothing pushed back and the buffer used up, `getchar` reads a line of at most 254 printable
-- keys and a newline: it returns the first byte of the line, the buffer holds the line, the newline,
-- and a terminator behind them, and nothing is written behind the buffer.
pub getchar-HoldsLine :
    (keys later : Bytes) (fuel : ℕ) (s : Console Bytes)
    → Printables keys
    → s.keyboard ≡ keys ++ (10 ∷ later)
    → s.unget_char ≡ none
    → (s.valid && ltb s.at s.len) ≡ false
    → length keys + 1 < buffer_size
    → length keys < fuel
    → (t : Console Bytes) × (getchar typed fuel s ≡ some (some (byte_at (keys ++ (10 ∷ [])) 0), t))
      × HoldsLine keys later t
      × (t.overrun ≡ s.overrun)
getchar-HoldsLine keys later fuel s p e no_unget used_up room h =
    let (t, run, holds, over) =
      getchar_line keys later fuel s p e no_unget used_up (omega arith) h in
    let inside : leb buffer_size (0 + length keys + 1) ≡ false = ground arith in
    (t, run, holds, over ∙ ap (λ (b : Bool). s.overrun || b) inside ∙ or_false s.overrun)
  where
    or_false : (b : Bool) → (b || false) ≡ b
    or_false true = refl
    or_false false = refl

-- A line of 255 printable keys makes `getchar` write its terminator one byte past the buffer.
pub getchar_overrun :
    (keys later : Bytes) (fuel : ℕ) (s : Console Bytes)
    → Printables keys
    → s.keyboard ≡ keys ++ (10 ∷ later)
    → s.unget_char ≡ none
    → (s.valid && ltb s.at s.len) ≡ false
    → length keys ≡ 255
    → length keys < fuel
    → (c : Option ℕ) × (t : Console Bytes) × (getchar typed fuel s ≡ some (c, t))
      × (t.buffer buffer_size ≡ 0)
      × (t.overrun ≡ true)
getchar_overrun keys later fuel s p e no_unget used_up full h =
    let (t, run, holds, over) =
      getchar_line keys later fuel s p e no_unget used_up (omega arith) h in
    let last : buffer_size ≡ length keys + 1 = omega arith in
    let behind : leb buffer_size (0 + length keys + 1) ≡ true = ground arith in
    (
      some (byte_at (keys ++ (10 ∷ [])) 0),
      t,
      run,
      ap t.buffer last ∙ holds.terminator,
      over ∙ ap (λ (b : Bool). s.overrun || b) behind ∙ or_true s.overrun,
    )
  where
    or_true : (b : Bool) → (b || true) ≡ true
    or_true true = refl
    or_true false = refl

-- At most `k` bytes in front of the terminator.
abbrev Fits : {A : Type 0} → ℕ → Option (Bytes × A) → Type 0
Fits k none = Unit
Fits k (some r) = length r.0 ≤ k

put_first-Fits :
    {A : Type 0} (k c : ℕ) (o : Option (Bytes × A)) → Fits k o → Fits (suc k) (put_first c o)
put_first-Fits k c none h = record {}
put_first-Fits k c (some (bytes, last)) h = omega arith

module _ {K : Type 0} (kb : K → Option (ℕ × K)) where
  fgets_from-Fits : (fuel k : ℕ) (s : Console K) → Fits k (fgets_from kb fuel k s)
  unfolding fgets_from
  fgets_from-Fits fuel zero s = omega arith
  fgets_from-Fits fuel (suc k) s = step (getchar kb fuel s) (λ t. fgets_from-Fits fuel k t)
    where
      step :
          (o : Option (Option ℕ × Console K))
          → ((t : Console K) → Fits k (fgets_from kb fuel k t))
          → Fits {A = Bool × Console K} (suc k) (
              bind {B = Bytes × (Bool × Console K)} o (λ r. elim r.0 [
                | none ↦ some ([], (true, r.1))
                | some c ↦
                    if c == 10
                    then some (10 ∷ [], (false, r.1))
                    else put_first c (fgets_from kb fuel k r.1)
              ]))
      step none ih = record {}
      step (some (none, t)) ih = omega arith
      step (some (some c, t)) ih =
          if_ind (Fits {A = Bool × Console K} (suc k)) (c == 10) (λ h. omega arith)
            (λ h. put_first-Fits k c (fgets_from kb fuel k t) (ih t))

  string_or_null_length :
      (bytes str : Bytes) (eof : Bool) → string_or_null bytes eof ≡ some str → bytes ≡ str
  string_or_null_length [] str true e = absurd (cc)
  string_or_null_length [] str false e = some-injective _ _ e
  string_or_null_length (c ∷ bytes) str eof e = some-injective _ _ e

  -- `fgets` stores fewer than `size` bytes in front of the terminator, from any keyboard.
  pub fgets_fits :
      (fuel size : ℕ) (s t : Console K) (str : Bytes)
      → fgets kb fuel size s ≡ some (some str, t)
      → length str < size
  unfolding fgets
  fgets_fits fuel size s t str e = elim (Bool-cases (leb size 1)) [
    | inl small ↦ absurd (cc (rw small at e))
    | inr small ↦
        stored (fgets_from kb fuel (size - 1) s) (fgets_from-Fits fuel (size - 1) s)
          (leb→lt size 1 small) (rw small at e)
  ]
    where
      stored :
          (o : Option (Bytes × (Bool × Console K)))
          → Fits (size - 1) o
          → 1 < size
          → bind {B = Option Bytes × Console K} o (λ r. some (string_or_null r.0 r.1.0, r.1.1))
            ≡ some (some str, t)
          → length str < size
      stored none f big q = absurd (cc)
      stored (some (bytes, (eof, u))) f big q =
          let same =
            string_or_null_length bytes str eof
              (ap (λ (r : Option Bytes × Console K). r.0) (some-injective _ _ q)) in
          omega (arith, ap length same)
