-- ===== src/Ctype.antt =====
-- lib/libc/ctype.c: the classification of characters. An `int` argument is its value where that is
-- not negative; for a negative one every function but `toascii`, `tolower` and `toupper` returns 0.
mod Tests
use unics.Base.{
  ℕ, zero, suc, ◌+◌, ◌-◌, ◌<◌, ◌≤◌, ◌≡◌, inl, inr, refl, Bool, true, false, not, ◌&&◌, ◌||◌, List,
  [], ◌∷◌, bit_and, bit_or, arith, ltb, leb, ◌==◌, if◌then◌else◌, Bool-cases, ltb→lt, ltb→le, ==→eq,
  length, ◌++◌, replicate,
}

-- `ctype_table`
abbrev pub ctype_table : List ℕ
ctype_table =
    replicate 9 0x20
    ++ replicate 5 0x28
    ++ replicate 18 0x20
    ++ (0x48 ∷ replicate 15 0x10)
    ++ replicate 10 0x84
    ++ replicate 7 0x10
    ++ replicate 6 0x41
    ++ replicate 20 0x01
    ++ replicate 6 0x10
    ++ replicate 6 0x42
    ++ replicate 20 0x02
    ++ replicate 4 0x10
    ++ (0x20 ∷ [])

abbrev pub entry_of : List ℕ → ℕ → ℕ
entry_of [] c = 0
entry_of (x ∷ xs) zero = x
entry_of (x ∷ xs) (suc c) = entry_of xs c

-- `(c >= 0 && c < 128) && (ctype_table[c] & mask)`
unfoldable pub classified : ℕ → ℕ → Bool
classified mask c = ltb c 128 && ltb 0 (bit_and (entry_of ctype_table c) mask)

abbrev pub between : ℕ → ℕ → ℕ → Bool
between lo hi c = leb lo c && leb c hi

-- `isalnum`, with CT_UP, CT_LOW and CT_DIG
unfoldable pub isalnum : ℕ → Bool
isalnum c = classified 7 c

-- `isalpha`, with CT_UP and CT_LOW
unfoldable pub isalpha : ℕ → Bool
isalpha c = classified 3 c

-- `isblank`
unfoldable pub isblank : ℕ → Bool
isblank c = c == 32 || c == 9

-- `iscntrl`
unfoldable pub iscntrl : ℕ → Bool
iscntrl c = ltb c 32 || c == 127

-- `isdigit`
unfoldable pub isdigit : ℕ → Bool
isdigit c = between 48 57 c

-- `isgraph`, with CT_UP, CT_LOW, CT_DIG and CT_PUN
unfoldable pub isgraph : ℕ → Bool
isgraph c = classified 23 c

-- `islower`
unfoldable pub islower : ℕ → Bool
islower c = between 97 122 c

-- `isprint`
unfoldable pub isprint : ℕ → Bool
isprint c = leb 32 c && ltb c 127

-- `ispunct`, with CT_PUN
unfoldable pub ispunct : ℕ → Bool
ispunct c = classified 16 c

-- `isspace`
unfoldable pub isspace : ℕ → Bool
isspace c = c == 32 || c == 9 || c == 10 || c == 13 || c == 12 || c == 11

-- `isupper`
unfoldable pub isupper : ℕ → Bool
isupper c = between 65 90 c

-- `isxdigit`
unfoldable pub isxdigit : ℕ → Bool
isxdigit c = isdigit c || between 97 102 c || between 65 70 c

-- `tolower`
unfoldable pub tolower : ℕ → ℕ
tolower c = if isupper c then c + (97 - 65) else c

-- `toupper`
unfoldable pub toupper : ℕ → ℕ
toupper c = if islower c then c - (97 - 65) else c

-- `isascii`
unfoldable pub isascii : ℕ → Bool
isascii c = leb c 127

-- `toascii`
unfoldable pub toascii : ℕ → ℕ
toascii c = bit_and c 0x7f

-- Two tests agree below `n`.
abbrev agree : ℕ → (ℕ → Bool) → (ℕ → Bool) → Bool
agree zero p q = true
agree (suc n) p q = (if p n then q n else not (q n)) && agree n p q

agree_lem : (n : ℕ) (p q : ℕ → Bool) → agree n p q ≡ true → (c : ℕ) → c < n → p c ≡ q c
agree_lem zero p q h c lt = absurd (omega arith)
agree_lem (suc n) p q h c lt = elim (Bool-cases (ltb c n)) [
  | inl below ↦ agree_lem n p q (ground arith) c (ltb→lt c n below)
  | inr last ↦ let same : c ≡ n = omega (arith, ltb→le c n last) in rw same (ground arith)
]

beyond : (mask c : ℕ) → 128 ≤ c → classified mask c ≡ false
unfolding classified
beyond mask c h = elim (Bool-cases (ltb c 128)) [
  | inl below ↦ absurd (omega (arith, ltb→lt c 128 below))
  | inr out ↦ rw out
]

-- What the table says of letters is what the ranges of `isupper` and `islower` say.
pub isalpha_lem : (c : ℕ) → isalpha c ≡ (isupper c || islower c)
unfolding isalpha classified isupper islower
isalpha_lem c = elim (Bool-cases (ltb c 128)) [
  | inl below ↦ agree_lem 128 isalpha (λ d. isupper d || islower d) refl c (ltb→lt c 128 below)
  | inr out ↦ ground (arith, beyond 3 c (ltb→le c 128 out), ltb→le c 128 out)
]

-- `isalnum` is the union of `isalpha` and `isdigit`, and `isgraph` the one of `isalnum` and `ispunct`.
pub isgraph_lem :
    (c : ℕ) → (isalnum c ≡ (isalpha c || isdigit c)) × (isgraph c ≡ (isalnum c || ispunct c))
unfolding isalnum isalpha classified isdigit isgraph ispunct
isgraph_lem c = elim (Bool-cases (ltb c 128)) [
  | inl below ↦ (
    agree_lem 128 isalnum (λ d. isalpha d || isdigit d) refl c (ltb→lt c 128 below),
    agree_lem 128 isgraph (λ d. isalnum d || ispunct d) refl c (ltb→lt c 128 below),
  )
  | inr out ↦ (ground (arith, ltb→le c 128 out), ground (arith, ltb→le c 128 out))
]

-- `tolower` and `toupper` undo each other on letters, and their results are letters of the other case.
pub tolower-toupper :
    (c : ℕ) → islower c ≡ true → (tolower (toupper c) ≡ c) × (isupper (toupper c) ≡ true)
unfolding tolower toupper isupper islower
tolower-toupper c h = (ground arith, ground arith)
