-- ===== src/Fnmatch/Match.antt =====
-- lib/libc/fnmatch.c: `rangematch`, `match` and `fnmatch`. A string is the list of the bytes before
-- its terminator; a pointer into it is the list of the bytes from there on. A read behind the
-- terminator is undefined, and the result is then `none`.
use unics.Base.{
  ℕ, zero, suc, ◌+◌, ◌%◌, Bool, true, false, not, ◌&&◌, ◌||◌, Option, none, some, [], ◌∷◌, Bytes,
  length, leb, ◌==◌, if◌then◌else◌,
}

-- `FNM_NOESCAPE`, `FNM_PATHNAME` and `FNM_PERIOD`
pub record Flags : Type 0 where
  pub noescape : Bool
  pub pathname : Bool
  pub period : Bool

-- The order of `char`, which is signed.
abbrev pub char_le : ℕ → ℕ → Bool
char_le a b = leb ((a + 128) % 256) ((b + 128) % 256)

-- `*pattern == '-' && pattern[1] != ']' && pattern[1] != EOS`
abbrev pub is_range : Bytes → Bool
is_range [] = false
is_range (c ∷ []) = false
is_range (c ∷ d ∷ pattern) = (c == 45) && not (d == 93)

-- A character that may stand behind a backslash, and the pattern behind it.
abbrev pub unescape : Bool → Bytes → Option (ℕ × Bytes)
unescape escapes [] = none
unescape escapes (c ∷ []) = if (c == 92) && escapes then none else some (c, [])
unescape escapes (c ∷ d ∷ pattern) =
    if (c == 92) && escapes then some (d, pattern) else some (c, d ∷ pattern)

abbrev pub skip_one : Bytes → Bytes
skip_one [] = []
skip_one (c ∷ pattern) = pattern

-- Go on with a result, if there is one.
abbrev pub and_then : {A B : Type 0} → Option A → (A → Option B) → Option B
and_then none next = none
and_then (some a) next = next a

-- The loop of `rangematch`, on fuel: `ok` at the closing bracket and the pattern behind it, or `none`
-- inside for the result -1.
unfoldable pub range_loop : ℕ → Bool → ℕ → Bool → Bytes → Option (Option (Bool × Bytes))
range_loop zero escapes test ok pattern = none
range_loop (suc fuel) escapes test ok [] = some none
range_loop (suc fuel) escapes test ok (c ∷ pattern) =
    if c == 93
    then some (some (ok, pattern))
    else and_then (unescape escapes (c ∷ pattern)) (λ item. elim (is_range item.1) [
      | true ↦ and_then (unescape escapes (skip_one item.1)) (λ upper.
          range_loop fuel escapes test (ok || (char_le item.0 test && char_le test upper.0))
            upper.1)
      | false ↦ range_loop fuel escapes test (ok || (item.0 == test)) item.1
    ])

-- The negation in front.
abbrev pub is_negated : Bytes → Bool
is_negated [] = false
is_negated (c ∷ pattern) = (c == 33) || (c == 94)

abbrev pub negate_result : Option (Bool × Bytes) → Option (Bool × Bytes)
negate_result none = none
negate_result (some (ok, newp)) = some (not ok, newp)

-- `rangematch`: the result and `*newp`, or `none` inside for -1. Each round takes a character at least.
unfoldable pub rangematch : Bool → ℕ → Bytes → Option (Option (Bool × Bytes))
rangematch escapes test pattern =
    if is_negated pattern
    then and_then (range_loop (suc (length pattern)) escapes test false (skip_one pattern))
        (λ r. some (negate_result r))
    else range_loop (suc (length pattern)) escapes test false pattern

-- The tests of `?` and `[`: may they match the character `c`, with the one in front of it, if any?
abbrev pub at_start : Flags → Option ℕ → Bool
at_start f none = true
at_start f (some before) = f.pathname && (before == 47)

abbrev pub may_match : Flags → Option ℕ → ℕ → Bool
may_match f before c =
    not (f.pathname && (c == 47)) && not (f.period && ((c == 46) && at_start f before))

-- The loop that skips stars, and `strchr(string, '/')`.
abbrev pub skip_stars : Bytes → Bytes
skip_stars [] = []
skip_stars (c ∷ pattern) = if c == 42 then skip_stars pattern else c ∷ pattern

abbrev pub has_slash : Bytes → Bool
has_slash [] = false
has_slash (c ∷ string) = (c == 47) || has_slash string

-- The loop of `*` over the string, with the recursive call.
abbrev pub star_loop : Flags → (Bytes → Option Bool) → Bytes → Option Bool
star_loop f matches [] = some false
star_loop f matches (c ∷ string) =
    if not f.pathname || not (c == 47)
    then and_then (matches (c ∷ string))
        (λ found. if found then some true else star_loop f matches string)
    else star_loop f matches string

abbrev pub star : Flags → (Bytes → Bytes → Option Bool) → Bytes → Bytes → Option Bool
star f matches [] string = some (not (f.pathname && has_slash string))
star f matches (c ∷ pattern) string = star_loop f (matches (c ∷ pattern)) string

-- Behind `rangematch`: the loop's `pattern++` steps over the character at `*newp`, and over the opening
-- bracket after the result -1.
abbrev pub behind_range : (Bytes → Option Bool) → Bytes → Option (Bool × Bytes) → Option Bool
behind_range next pattern none = next pattern
behind_range next pattern (some (false, newp)) = some false
behind_range next pattern (some (true, [])) = none
behind_range next pattern (some (true, c ∷ newp)) = next newp

-- The literal at the end of the switch.
abbrev pub literal : (Bytes → Option Bool) → ℕ → Bytes → Option Bool
literal next c [] = some false
literal next c (d ∷ string) = if d == c then next string else some false

abbrev pub is_empty : Bytes → Bool
is_empty [] = true
is_empty (c ∷ string) = false

-- `match`, with the character in front of the string, if it is not the first, and fuel for the
-- characters of the pattern. The result 0 is `true`.
unfoldable pub match_from : ℕ → Flags → Bytes → Option ℕ → Bytes → Option Bool
match_from zero f pattern before string = none
match_from (suc fuel) f [] before string = some (is_empty string)
match_from (suc fuel) f (c ∷ pattern) before string =
    if c == 63
    then elim string [
      | [] ↦ some false
      | d ∷ rest ↦
          if may_match f before d then match_from fuel f pattern (some d) rest else some false
    ]
    else if c == 42
    then star f (λ p s. match_from fuel f p none s) (skip_stars pattern) string
    else if c == 91
    then elim string [
      | [] ↦ some false
      | d ∷ rest ↦
          if may_match f before d
          then and_then (rangematch (not f.noescape) d pattern)
              (λ r. behind_range (λ p. match_from fuel f p (some d) rest) pattern r)
          else some false
    ]
    else if (c == 92) && (not f.noescape && not (is_empty pattern))
    then elim pattern [
      | [] ↦ some false
      | d ∷ behind ↦ literal (λ s. match_from fuel f behind (some d) s) d string
    ]
    else literal (λ s. match_from fuel f pattern (some c) s) c string

-- `fnmatch`
abbrev pub fnmatch : Option Bytes → Option Bytes → Flags → Option Bool
fnmatch none string f = some false
fnmatch (some pattern) none f = some false
fnmatch (some pattern) (some string) f = match_from (suc (length pattern)) f pattern none string
