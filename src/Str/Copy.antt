-- ===== src/Str/Copy.antt =====
-- lib/libc/string.c: the functions that copy and append strings.
use unics.Base.{ℕ, zero, suc, ◌+◌, true, false, Option, none, some, ◌==◌}
use unics.Base.Table.{update}
use unics.Str.Memory.{Memory, memset}
use unics.Str.Scan.{strlen}

-- `strcpy`
unfoldable pub strcpy : ℕ → ℕ → ℕ → Memory → Option Memory
strcpy zero d s m = none
strcpy (suc fuel) d s m = elim (m s == 0) [
  | true ↦ some (update m d (m s))
  | false ↦ strcpy fuel (d + 1) (s + 1) (update m d (m s))
]

-- `strncpy`. The first loop ends with `n` not decremented when it has copied the terminator; the
-- second writes that many zeros more.
unfoldable pub strncpy : ℕ → ℕ → ℕ → Memory → Memory
strncpy d s zero m = m
strncpy d s (suc n) m = elim (m s == 0) [
  | true ↦ memset (d + 1) 0 (suc n) (update m d (m s))
  | false ↦ strncpy (d + 1) (s + 1) n (update m d (m s))
]

-- `strcat`. Its first loop is the one of `strlen`.
unfoldable pub strcat : ℕ → ℕ → ℕ → Memory → Option Memory
strcat fuel d s m = elim (strlen fuel m d) [ none ↦ none | some n ↦ strcpy fuel (d + n) s m ]

-- The second loop of `strncat` and the terminator behind it.
unfoldable pub append_n : ℕ → ℕ → ℕ → Memory → Memory
append_n d s zero m = update m d 0
append_n d s (suc n) m = elim (m s == 0) [
  | true ↦ update (update m d (m s)) (d + 1) 0
  | false ↦ append_n (d + 1) (s + 1) n (update m d (m s))
]

-- `strncat`
unfoldable pub strncat : ℕ → ℕ → ℕ → ℕ → Memory → Option Memory
strncat fuel d s n m = elim (strlen fuel m d) [
  | none ↦ none
  | some k ↦ some (append_n (d + k) s n m)
]
