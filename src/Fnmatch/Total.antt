-- ===== src/Fnmatch/Total.antt =====
-- lib/libc/fnmatch.c: a pattern without brackets always has an answer.
use unics.Base.{ℕ, ◌≡◌, ◌≢◌, Bool, Option, some, [], ◌∷◌, Bytes}

-- There is an answer.
Answers : Option Bool → Type 0
Answers r = (b : Bool) × (r ≡ some b)

-- The pattern has no opening bracket.
pub data NoBracket : Bytes → Type 0 where
  done : NoBracket []
  more : (c : ℕ) (pattern : Bytes) → c ≢ 91 → NoBracket pattern → NoBracket (c ∷ pattern)
