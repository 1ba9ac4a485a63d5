-- ===== src/Crypto/Arc4.antt =====
-- usr/drivers/crypto/arc4.c and arc4.h: the cipher RC4. A call reads its source before it writes its
-- target byte by byte, so that the two may be one buffer: here they are lists.
use unics.Base.{ℕ, zero, suc, ◌+◌, ◌%◌, Option, none, some, [], ◌∷◌, Bytes}
use Prim.Native.Nat.{bit_xor}
use unics.Base.Table.{update}

-- `struct rc4_ctx`
pub record Ctx : Type 0 where
  pub x : ℕ
  pub y : ℕ
  pub state : ℕ → ℕ

-- `RC4SWAP`
abbrev pub swap : ℕ → ℕ → (ℕ → ℕ) → ℕ → ℕ
swap i j s = update (update s i (s j)) j (s i)

-- The second loop of `rc4_keysetup`, at `i` with `k` left. `x` and `y` are bytes. A key of length 0 is
-- a division by 0, and the result is then `none`.
unfoldable pub mix : (ℕ → ℕ) → ℕ → ℕ → ℕ → ℕ → ℕ → (ℕ → ℕ) → Option (ℕ → ℕ)
mix key klen zero i x y s = some s
mix key zero (suc k) i x y s = none
mix key (suc klen) (suc k) i x y s =
    let y' = (key x + s i + y) % 256 in
    mix key (suc klen) k (i + 1) ((x + 1) % suc klen % 256) y' (swap i y' s)

abbrev pub fresh_ctx : Option (ℕ → ℕ) → Option Ctx
fresh_ctx none = none
fresh_ctx (some s) = some (record { x = 0; y = 0; state = s })

-- `rc4_keysetup`
unfoldable pub keysetup : (ℕ → ℕ) → ℕ → Option Ctx
keysetup key klen = fresh_ctx (mix key klen 256 0 0 0 (λ i. i))

-- The step that the loops of `rc4_crypt`, `rc4_getbytes` and `rc4_skip` have in common.
unfoldable pub advance : Ctx → Ctx
advance c =
    let x' = (c.x + 1) % 256 in
    let y' = (c.state x' + c.y) % 256 in record { x = x'; y = y'; state = swap x' y' c.state }

-- The byte of the key stream after a step.
abbrev pub key_byte : Ctx → ℕ
key_byte c = c.state ((c.state c.x + c.state c.y) % 256)

-- `rc4_crypt`
unfoldable pub crypt : Ctx → Bytes → Bytes × Ctx
crypt c [] = ([], c)
crypt c (b ∷ src) =
    let (dst, c') = crypt (advance c) src in (bit_xor b (key_byte (advance c)) ∷ dst, c')

-- `rc4_getbytes`
unfoldable pub getbytes : Ctx → ℕ → Bytes × Ctx
getbytes c zero = ([], c)
getbytes c (suc len) = let (dst, c') = getbytes (advance c) len in (key_byte (advance c) ∷ dst, c')

-- `rc4_skip`
unfoldable pub skip : Ctx → ℕ → Ctx
skip c zero = c
skip c (suc len) = skip (advance c) len
