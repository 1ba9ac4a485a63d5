-- ===== src/Str/Scan.antt =====
-- lib/libc/string.c: the functions that read a string.
use unics.Base.{
  ℕ, zero, suc, ◌+◌, ◌%◌, Bool, true, false, not, ◌&&◌, Option, none, some, ◌==◌, if◌then◌else◌,
}
use unics.Base.Int.{ℤ, pos, negsuc, diff}
use unics.Str.Memory.{Memory}

-- The loop of `strlen`, at `s` after `count` bytes.
unfoldable pub length_from : ℕ → Memory → ℕ → ℕ → Option ℕ
length_from zero m s count = none
length_from (suc fuel) m s count = elim (m s == 0) [
  | true ↦ some count
  | false ↦ length_from fuel m (s + 1) (count + 1)
]

-- `strlen`
abbrev pub strlen : ℕ → Memory → ℕ → Option ℕ
strlen fuel m s = length_from fuel m s 0

-- `strcmp`
unfoldable pub strcmp : ℕ → Memory → ℕ → ℕ → Option ℤ
strcmp zero m a b = none
strcmp (suc fuel) m a b = elim (not (m a == 0) && (m a == m b)) [
  | true ↦ strcmp fuel m (a + 1) (b + 1)
  | false ↦ some (diff (m a) (m b))
]

-- The loop of `strncmp`, with `n` bytes left before the decrement.
unfoldable pub compare_n : Memory → ℕ → ℕ → ℕ → ℤ
compare_n m a b zero = pos 0
compare_n m a b (suc zero) = diff (m a) (m b)
compare_n m a b (suc (suc n)) = elim (not (m a == 0) && (m a == m b)) [
  | true ↦ compare_n m (a + 1) (b + 1) (suc n)
  | false ↦ diff (m a) (m b)
]

-- `strncmp`
abbrev pub strncmp : Memory → ℕ → ℕ → ℕ → ℤ
strncmp m a b n = compare_n m a b n

-- The result of `strchr` and its like: running out of fuel, NULL, or an address.
pub data Place : Type 0 where
  no_end : Place
  null : Place
  found : ℕ → Place

-- `strchr`
unfoldable pub strchr : ℕ → Memory → ℕ → ℕ → Place
strchr zero m s c = no_end
strchr (suc fuel) m s c = elim (m s == c % 256) [
  | true ↦ found s
  | false ↦ elim (m s == 0) [ true ↦ null | false ↦ strchr fuel m (s + 1) c ]
]

-- The loop of `strrchr`, with the last place seen.
unfoldable pub last_from : ℕ → Memory → ℕ → ℕ → Place → Place
last_from zero m s c last = no_end
last_from (suc fuel) m s c last = elim (m s == 0) [
  | true ↦ if m s == c % 256 then found s else last
  | false ↦ last_from fuel m (s + 1) c (if m s == c % 256 then found s else last)
]

-- `strrchr`
abbrev pub strrchr : ℕ → Memory → ℕ → ℕ → Place
strrchr fuel m s c = last_from fuel m s c null

abbrev pub is_zero : ℤ → Bool
is_zero (pos n) = n == 0
is_zero (negsuc n) = false

-- The loop of `strstr`, for a needle of length `n`.
unfoldable pub search_from : ℕ → Memory → ℕ → ℕ → ℕ → Place
search_from zero m haystack needle n = no_end
search_from (suc fuel) m haystack needle n = elim (m haystack == 0) [
  | true ↦ null
  | false ↦ elim ((m haystack == m needle) && is_zero (strncmp m haystack needle n)) [
    | true ↦ found haystack
    | false ↦ search_from fuel m (haystack + 1) needle n
  ]
]

-- `strstr`
unfoldable pub strstr : ℕ → Memory → ℕ → ℕ → Place
strstr fuel m haystack needle = elim (strlen fuel m needle) [
  | none ↦ no_end
  | some n ↦ if n == 0 then found haystack else search_from fuel m haystack needle n
]

-- Whether `strchr` finds the byte in the set; `none` when the set has no end.
abbrev pub member : Place → Option Bool
member no_end = none
member null = some false
member (found p) = some true

-- The loop of `strcspn` (`stop` is true) and of `strspn` (`stop` is false): it ends found the
-- terminator and at a byte that is in the set exactly when `stop`.
unfoldable pub span_from : Bool → ℕ → Memory → ℕ → ℕ → ℕ → Option ℕ
span_from stop zero m s set count = none
span_from stop (suc fuel) m s set count = elim (m s == 0) [
  | true ↦ some count
  | false ↦ elim (member (strchr (suc fuel) m set (m s))) [
    | none ↦ none
    | some b ↦ elim (if stop then b else not b) [
      | true ↦ some count
      | false ↦ span_from stop fuel m (s + 1) set (count + 1)
    ]
  ]
]

-- `strcspn`
abbrev pub strcspn : ℕ → Memory → ℕ → ℕ → Option ℕ
strcspn fuel m s reject = span_from true fuel m s reject 0

-- `strspn`
abbrev pub strspn : ℕ → Memory → ℕ → ℕ → Option ℕ
strspn fuel m s accept = span_from false fuel m s accept 0
