-- ===== src/Crypto/Permutes.antt =====
-- The state of the cipher is a permutation of the bytes.
use unics.Base.{
  ℕ, zero, suc, ◌+◌, ◌%◌, ◌<◌, ◌≤◌, ◌≡◌, refl, ap, Option, some, sym, ◌∙◌, arith, ◌==◌,
  if◌then◌else◌,
}
use unics.Crypto.Arc4.{Ctx, swap, mix, fresh_ctx, keysetup, advance, skip}

-- The first 256 entries are bytes, and no byte stands twice.
pub record IsPermutation (s : ℕ → ℕ) : Type 0 where
  pub bytes : (i : ℕ) → i < 256 → s i < 256
  pub distinct : (i j : ℕ) → i < 256 → j < 256 → s i ≡ s j → i ≡ j

-- The two indices of a context are bytes, and its state is a permutation.
pub record IsValid (c : Ctx) : Type 0 where
  pub x_byte : c.x < 256
  pub y_byte : c.y < 256
  pub permutes : IsPermutation c.state

-- Where the entry `k` of the swapped state was.
abbrev source : ℕ → ℕ → ℕ → ℕ
source i j k = if j == k then i else if i == k then j else k

swap-source : (i j k : ℕ) (s : ℕ → ℕ) → swap i j s k ≡ s (source i j k)
swap-source i j k s = ground arith

swap-IsPermutation :
    (i j : ℕ) (s : ℕ → ℕ) → i < 256 → j < 256 → IsPermutation s → IsPermutation (swap i j s)
swap-IsPermutation i j s hi hj p = record {
  bytes = λ k hk. rw (swap-source i j k s) (p.bytes (source i j k) (source-lt i j k hi hj hk));
  distinct = λ k l hk hl e. source_injective i j k l (
      p.distinct (source i j k) (source i j l) (source-lt i j k hi hj hk) (source-lt i j l hi hj hl)
        (sym (swap-source i j k s) ∙ e ∙ swap-source i j l s));
}
  where
    source-lt : (i j k : ℕ) → i < 256 → j < 256 → k < 256 → source i j k < 256
    source-lt i j k hi hj hk = ground arith

    source_injective : (i j k l : ℕ) → source i j k ≡ source i j l → k ≡ l
    source_injective i j k l e = ground arith

-- There is a state, and it is a permutation.
Mixed : Option (ℕ → ℕ) → Type 0
Mixed o = (s : ℕ → ℕ) × (o ≡ some s) × IsPermutation s

mix-Mixed :
    (key : ℕ → ℕ) (klen k i x y : ℕ) (s : ℕ → ℕ)
    → i + k ≤ 256
    → IsPermutation s
    → Mixed (mix key (suc klen) k i x y s)
unfolding mix Mixed
mix-Mixed key klen zero i x y s h p = (s, refl, p)
mix-Mixed key klen (suc k) i x y s h p =
    let y' = (key x + s i + y) % 256 in
    mix-Mixed key klen k (i + 1) ((x + 1) % suc klen % 256) y' (swap i y' s) (omega arith)
      (swap-IsPermutation i y' s (omega arith) (omega arith) p)

keysetup-IsValid :
    (key : ℕ → ℕ) (klen : ℕ) → 0 < klen → (c : Ctx) × (keysetup key klen ≡ some c) × IsValid c
unfolding keysetup Mixed
keysetup-IsValid key zero h = absurd (omega arith)
keysetup-IsValid key (suc klen) h =
    let start : IsPermutation (λ i. i) = record { bytes = λ i h. h; distinct = λ i j hi hj e. e } in
    let (s, e, p) = mix-Mixed key klen 256 0 0 0 (λ i. i) (omega arith) start in
    (
      record { x = 0; y = 0; state = s },
      ap fresh_ctx e,
      record { x_byte = omega arith; y_byte = omega arith; permutes = p },
    )

advance-IsValid : (c : Ctx) → IsValid c → IsValid (advance c)
unfolding advance
advance-IsValid c v = record {
  x_byte = omega arith;
  y_byte = omega arith;
  permutes = swap-IsPermutation _ _ c.state (omega arith) (omega arith) v.permutes;
}

skip-IsValid : (c : Ctx) (len : ℕ) → IsValid c → IsValid (skip c len)
unfolding skip
skip-IsValid c zero v = v
skip-IsValid c (suc len) v = skip-IsValid (advance c) len (advance-IsValid c v)

-- From `rc4_keysetup` with any key of one byte or more on, which succeeds, and after any number of steps
-- of the key stream, the state is a permutation of the 256 bytes, and the two indices are bytes.
pub skip-keysetup-IsValid :
    (key : ℕ → ℕ) (klen len : ℕ)
    → 0 < klen
    → (c : Ctx) × (keysetup key klen ≡ some c) × IsValid (skip c len)
skip-keysetup-IsValid key klen len h =
    let (c, e, v) = keysetup-IsValid key klen h in (c, e, skip-IsValid c len v)
