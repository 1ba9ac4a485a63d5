-- ===== src/Fnmatch/Bracket.antt =====
-- lib/libc/fnmatch.c: what follows a bracket in a pattern.
use unics.Base.{
  ℕ, suc, ◌≡◌, ◌≢◌, refl, ap, Bool, true, false, Option, some, [], ◌∷◌, Bytes, length, ne→==,
  ==_self,
}
use unics.Fnmatch.Match.{
  Flags, rangematch, range_loop, unescape, is_range, behind_range, match_from, and_then,
}

-- No flag is set.
abbrev pub no_flags : Flags
no_flags = record { noescape = false; pathname = false; period = false }

-- A character that stands for itself in a bracket.
pub record Ordinary (c : ℕ) : Type 0 where
  pub not_close : c ≢ 93
  pub not_backslash : c ≢ 92
  pub not_bang : c ≢ 33
  pub not_caret : c ≢ 94

-- Such a character is taken as it is.
unescape_ordinary :
    (c d : ℕ) (pattern : Bytes) → c ≢ 92 → unescape true (c ∷ d ∷ pattern) ≡ some (c, d ∷ pattern)
unescape_ordinary c d pattern n = rw (ne→== c 92 n) refl

-- The bracket's last round.
range_loop_end :
    (fuel : ℕ) (escapes : Bool) (test : ℕ) (ok : Bool) (pattern : Bytes)
    → range_loop (suc fuel) escapes test ok (93 ∷ pattern) ≡ some (some (ok, pattern))
unfolding range_loop
range_loop_end fuel escapes test ok pattern = refl

-- The closing bracket starts no range.
is_range_end : (pattern : Bytes) → is_range (93 ∷ pattern) ≡ false
is_range_end [] = refl
is_range_end (d ∷ pattern) = refl

-- The round of the bracket's one character.
range_loop_one :
    (fuel c : ℕ) (pattern : Bytes)
    → Ordinary c
    → range_loop (suc (suc fuel)) true c false (c ∷ 93 ∷ pattern) ≡ some (some (true, pattern))
unfolding range_loop
range_loop_one fuel c pattern o =
    rw
      (
        ne→== c 93 o.not_close,
        unescape_ordinary c 93 pattern o.not_backslash,
        and_then,
        is_range_end pattern,
      )
      (ap (λ ok. some (some (ok, pattern))) (==_self c))

rangematch-one :
    (c : ℕ) (pattern : Bytes)
    → Ordinary c
    → rangematch true c (c ∷ 93 ∷ pattern) ≡ some (some (true, pattern))
unfolding rangematch
rangematch-one c pattern o =
    rw (ne→== c 33 o.not_bang, ne→== c 94 o.not_caret)
      (range_loop_one (suc (length pattern)) c pattern o)

-- With no flag, a bracket around one ordinary character matches it, and the character behind the bracket
-- in the pattern, whatever it is, is stepped over: the rest of the string is matched with what is behind
-- that character.
pub bracket_skips :
    (fuel c d : ℕ) (pattern : Bytes) (before : Option ℕ) (string : Bytes)
    → Ordinary c
    → match_from (suc fuel) no_flags (91 ∷ c ∷ 93 ∷ d ∷ pattern) before (c ∷ string)
      ≡ match_from fuel no_flags pattern (some c) string
unfolding match_from
bracket_skips fuel c d pattern before string o =
    rw (rangematch-one c (d ∷ pattern) o, behind_range) refl
