-- ===== src/Fnmatch/Tests.antt =====
-- Patterns with stars and with a bracket.
use unics.Base.{◌≡◌, true, none, some, [], ◌∷◌, arith, Bytes, refl}
use unics.Fnmatch.Match.{fnmatch, match_from}
use unics.Fnmatch.Bracket.{no_flags, Ordinary, bracket_skips}

-- "*.?"
abbrev dotted : Bytes
dotted = 42 ∷ 46 ∷ 63 ∷ []

-- "*.?" and "a.c"
dotted_test : fnmatch (some dotted) (some (97 ∷ 46 ∷ 99 ∷ [])) no_flags ≡ some true
unfolding match_from
dotted_test = refl

a-Ordinary : Ordinary 97
a-Ordinary = record {
  not_close = omega arith;
  not_backslash = omega arith;
  not_bang = omega arith;
  not_caret = omega arith;
}

-- "[a]xb" and "ab"
bracket_skips_example :
    match_from 6 no_flags (91 ∷ 97 ∷ 93 ∷ 120 ∷ 98 ∷ []) none (97 ∷ 98 ∷ [])
    ≡ match_from 5 no_flags (98 ∷ []) (some 97) (98 ∷ [])
bracket_skips_example = bracket_skips 5 97 120 (98 ∷ []) none (98 ∷ []) a-Ordinary
