-- ===== src/Str/Memory.antt =====
-- lib/libc/string.c: the functions on `n` bytes.
use unics.Base.{ℕ, zero, suc, ◌+◌, ◌%◌, not, ltb, ◌==◌, if◌then◌else◌}
use unics.Base.Table.{update}
use unics.Base.Int.{ℤ, pos, diff}

abbrev pub Memory : Type 0
Memory = ℕ → ℕ

-- `memset`
unfoldable pub memset : ℕ → ℕ → ℕ → Memory → Memory
memset p c zero m = m
memset p c (suc n) m = memset (p + 1) c n (update m p (c % 256))

-- `memcpy`
unfoldable pub memcpy : ℕ → ℕ → ℕ → Memory → Memory
memcpy d s zero m = m
memcpy d s (suc n) m = memcpy (d + 1) (s + 1) n (update m d (m s))

-- The second loop of `memmove`, from the last byte to the first.
unfoldable pub copy_down : ℕ → ℕ → ℕ → Memory → Memory
copy_down d s zero m = m
copy_down d s (suc n) m = copy_down d s n (update m (d + n) (m (s + n)))

-- `memmove`. Its first loop is the one of `memcpy`.
unfoldable pub memmove : ℕ → ℕ → ℕ → Memory → Memory
memmove d s n m = if ltb d s then memcpy d s n m else copy_down d s n m

-- `memcmp`
unfoldable pub memcmp : ℕ → ℕ → ℕ → Memory → ℤ
memcmp p q zero m = pos 0
memcmp p q (suc n) m =
    let rest = memcmp (p + 1) (q + 1) n m in if not (m p == m q) then diff (m p) (m q) else rest
