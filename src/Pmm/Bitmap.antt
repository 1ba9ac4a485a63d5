-- ===== src/Pmm/Bitmap.antt =====
-- usr/drivers/pmm.c: 64-bit words and the bits of a bitmap.
use unics.Base.{ℕ, ◌+◌, ◌-◌, ◌*◌, ◌/◌, ◌%◌, ◌^◌, bit_and, bit_or, Bool, leb, ◌==◌, if◌then◌else◌}
use unics.Base.Table.{update}
use unics.Base.Bits.{bit_at}

-- `uint64_t *bitmap`: the word at each index.
abbrev pub Bitmap : Type 0
Bitmap = ℕ → ℕ

abbrev pub all_ones : ℕ
all_ones = 2 ^ 64 - 1

-- `x << k` and `~x` on `uint64_t`.
abbrev pub shl64 : ℕ → ℕ → ℕ
shl64 x k = x * 2 ^ k % 2 ^ 64

abbrev pub not64 : ℕ → ℕ
not64 x = all_ones - x

-- What `clz64` carries: the count so far, and the shifted word.
pub record Clz : Type 0 where
  pub n : ℕ
  pub x : ℕ

-- `if (x <= bound) { n += k; x <<= k; }`
abbrev pub clz_step : ℕ → ℕ → Clz → Clz
clz_step bound k s = if leb s.x bound then record { n = s.n + k; x = shl64 s.x k } else s

-- `clz64`; its last step does not shift.
unfoldable pub clz64 : ℕ → ℕ
clz64 x =
    if x == 0
    then 64
    else let s = clz_step 0x3fffffffffffffff 2 (
        clz_step 0x0fffffffffffffff 4 (
          clz_step 0x00ffffffffffffff 8 (
            clz_step 0x0000ffffffffffff 16
              (clz_step 0x00000000ffffffff 32 (record { n = 0; x = x }))))) in
      if leb s.x 0x7fffffffffffffff then s.n + 1 else s.n

-- `find_first_zero_bit_64`
unfoldable pub find_first_zero_bit_64 : ℕ → ℕ
find_first_zero_bit_64 word = clz64 (not64 word)

-- `set_bit_64`, `clear_bit_64`, `test_bit_64`
unfoldable pub set_bit_64 : Bitmap → ℕ → Bitmap
set_bit_64 bitmap bit = update bitmap (bit / 64) (bit_or (bitmap (bit / 64)) (2 ^ (bit % 64)))

unfoldable pub clear_bit_64 : Bitmap → ℕ → Bitmap
clear_bit_64 bitmap bit =
    update bitmap (bit / 64) (bit_and (bitmap (bit / 64)) (2 ^ 64 - 1 - 2 ^ (bit % 64)))

unfoldable pub test_bit_64 : Bitmap → ℕ → Bool
test_bit_64 bitmap bit = bit_at (bitmap (bit / 64)) (bit % 64) == 1
