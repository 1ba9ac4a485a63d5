-- ===== src/Crypto/Stream.antt =====
-- The key stream behind the three functions.
use unics.Base.{◌≡◌, refl, ap, [], ◌∷◌, Bytes, length}
use Prim.Native.Nat.{bit_xor}
use unics.Crypto.Arc4.{Ctx, advance, key_byte, crypt, getbytes, skip}

-- Byte by byte exclusive or, as long as both last.
abbrev pub xor_bytes : Bytes → Bytes → Bytes
xor_bytes [] ks = []
xor_bytes (b ∷ bs) [] = []
xor_bytes (b ∷ bs) (k ∷ ks) = bit_xor b k ∷ xor_bytes bs ks

-- `rc4_crypt` adds to its source the bytes that `rc4_getbytes` gives for its length, and all three
-- functions leave the state that `rc4_skip` leaves.
pub crypt_lem :
    (c : Ctx) (src : Bytes)
    → ((crypt c src).0 ≡ xor_bytes src (getbytes c (length src)).0)
      × ((crypt c src).1 ≡ skip c (length src))
      × ((getbytes c (length src)).1 ≡ skip c (length src))
unfolding crypt getbytes skip
crypt_lem c [] = (refl, refl, refl)
crypt_lem c (b ∷ src) =
    let (bytes, here, there) = crypt_lem (advance c) src in
    (ap (λ bs. bit_xor b (key_byte (advance c)) ∷ bs) bytes, here, there)
