-- ===== src/Vga/Decimal.antt =====
-- usr/drivers/vga.c: the digits of `vga_putdec` spell its value.
use unics.Base.{
  ℕ, zero, suc, ◌+◌, ◌-◌, ◌*◌, ◌/◌, ◌^◌, ◌<◌, ◌≡◌, refl, ap, ◌∙◌, [], ◌∷◌, ◌++◌, Bytes, arith, ◌==◌,
  ==→eq, ltb, if◌then◌else◌, if_ind,
}
use native.Mathlib.Nat.{pow-succ'}
use unics.Vga.Text.{low_digits, zero_pad, reversed, dec_bytes}

-- The number that decimal digits spell, read on after `n`.
abbrev pub read_from : ℕ → Bytes → ℕ
read_from n [] = n
read_from n (d ∷ ds) = read_from (n * 10 + (d - 48)) ds

-- The same for digits with the lowest first.
low_value : Bytes → ℕ
low_value [] = 0
low_value (d ∷ ds) = (d - 48) + 10 * low_value ds

read_from-reversed : (ds out : Bytes) → read_from 0 (reversed ds out) ≡ read_from (low_value ds) out
unfolding low_value
read_from-reversed [] out = refl
read_from-reversed (d ∷ ds) out =
    read_from-reversed ds (d ∷ out) ∙ ap (λ n. read_from n out) (omega arith)

low_value-zero_pad :
    (ds : Bytes) (k i digits : ℕ) → low_value (ds ++ zero_pad k i digits) ≡ low_value ds
unfolding low_value zero_pad
low_value-zero_pad [] zero i digits = refl
low_value-zero_pad [] (suc k) i digits =
    if_ind (λ bs. low_value bs ≡ 0) (ltb i digits)
      (λ h. omega (arith, low_value-zero_pad [] k (i + 1) digits)) (λ h. refl)
low_value-zero_pad (d ∷ ds) k i digits = omega (arith, low_value-zero_pad ds k i digits)

low_value-low_digits : (k value : ℕ) → value < 10 ^ k → low_value (low_digits k value) ≡ value
unfolding low_value low_digits
low_value-low_digits zero value h = omega arith
low_value-low_digits (suc k) value h =
    if_ind (λ bs. low_value bs ≡ value) (value == 0) (λ e. omega (arith, ==→eq value 0 e))
      (λ e. omega (arith, low_value-low_digits k (value / 10) (omega (arith, pow-succ' 10 k))))

-- The characters of `vga_putdec` spell its value, whatever width it pads to.
pub dec_bytes_lem :
    (value digits : ℕ) → value < 2 ^ 32 → read_from 0 (dec_bytes value digits) ≡ value
unfolding dec_bytes low_value
dec_bytes_lem value digits h =
    let low = if value == 0 then 48 ∷ [] else low_digits 11 value in
    read_from-reversed _ []
    ∙ low_value-zero_pad low _ _ digits
    ∙ if_ind (λ bs. low_value bs ≡ value) (value == 0) (λ e. omega (arith, ==→eq value 0 e))
        (λ e. low_value-low_digits 11 value (omega arith))
