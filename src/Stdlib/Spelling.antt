-- ===== src/Stdlib/Spelling.antt =====
-- lib/libc/stdlib.c: what `itoa` writes, `atoi` and `strtol` read.
use unics.Base.{
  ℕ, zero, suc, ◌+◌, ◌-◌, ◌*◌, ◌/◌, ◌%◌, ◌^◌, ◌≤◌, ◌<◌, ◌≡◌, ◌≢◌, refl, ap, subst, ◌∙◌, sym, Bool,
  true, false, ◌&&◌, some, [], ◌∷◌, ◌++◌, Bytes, inl, inr, arith, leb, ◌==◌, ==→eq, if_ind,
  Bool-cases,
}
use native.Mathlib.Nat.{pow-succ', div-add-mod', mod-lt, div-lt_iff_lt-mul, mul-le-mul_left}
use unics.Base.Int.{pos, negsuc}
use unics.Stdlib.Number.{
  digit_char, low_digits, negative_digits, reversed, itoa, signed, is_space, skip_space, take_sign,
  read_decimal, atoi, is_blank, digit_of, read_digits, has_prefix, detect_base, strtol,
}

-- Digits with values, the first one the most significant, read on after `n`.
data Spells (base : ℕ) : ℕ → Bytes → ℕ → Type 0 where
  ended : (n : ℕ) → Spells base n [] n
  next :
      (n d m : ℕ) (str : Bytes)
      → d < base
      → Spells base (n * base + d) str m
      → Spells base n (digit_char d ∷ str) m

-- `itoa` reverses digits that stand with the lowest first.
low_digits-Spells :
    (base : ℕ)
    → 2 ≤ base
    → (k num n : ℕ) (out : Bytes) → num < 2 ^ k
    → Spells base num out n
    → Spells base 0 (reversed (low_digits k base num) out) n
unfolding low_digits
low_digits-Spells base h zero num n out below s =
    let none_left : num ≡ 0 = omega arith in subst (λ m. Spells base m out n) none_left s
low_digits-Spells base h (suc k) num n out below s =
    if_ind (λ bs. Spells base 0 (reversed bs out) n) (num == 0)
      (λ e. subst (λ m. Spells base m out n) (==→eq num 0 e) s)
      (λ e.
        low_digits-Spells base h k (num / base) n (digit_char (num % base) ∷ out)
          ((div-lt_iff_lt-mul (omega arith)).1
            (omega (arith, pow-succ' 2 k, mul-le-mul_left (2 ^ k) h)))
          (Spells.next (num / base) (num % base) n out (mod-lt num (omega arith))
            (subst (λ m. Spells base m out n) (sym (div-add-mod' num base)) s)))

digit_of-digit_char : (d : ℕ) → d < 36 → digit_of (digit_char d) ≡ some d
unfolding digit_of
digit_of-digit_char d h = ground arith

read_digits-Spells :
    (base n m : ℕ) (str : Bytes)
    → base ≤ 36
    → Spells base n str m
    → read_digits base n str ≡ (m, [])
unfolding read_digits
read_digits-Spells base n _ _ h (Spells.ended _) = refl
read_digits-Spells base n m _ h (Spells.next _ d _ str below s) =
    let in_base : leb base d ≡ false = ground arith in
    rw (digit_of-digit_char d (omega arith), read_digits, in_base)
      (read_digits-Spells base (n * base + d) m str h s)

read_decimal-Spells : (n m : ℕ) (str : Bytes) → Spells 10 n str m → read_decimal n str ≡ m
unfolding read_decimal
read_decimal-Spells n _ _ (Spells.ended _) = refl
read_decimal-Spells n m _ (Spells.next _ d _ str below s) =
    let is_digit : (leb 48 (digit_char d) && leb (digit_char d) 57) ≡ true = ground arith in
    let value : digit_char d - 48 ≡ d = ground arith in
    rw (is_digit, value) (read_decimal-Spells (n * 10 + d) m str s)

-- Digits are neither white space nor a sign.
no_sign :
    (test : ℕ → Bool) (base n m : ℕ) (str : Bytes)
    → ((d : ℕ) → d < 36 → test (digit_char d) ≡ false)
    → base ≤ 36
    → Spells base n str m
    → take_sign (skip_space test str) ≡ (false, str)
no_sign test base n _ _ f h (Spells.ended _) = refl
no_sign test base n m _ f h (Spells.next _ d _ str below s) =
    let minus : (digit_char d == 45) ≡ false = ground arith in
    let plus : (digit_char d == 43) ≡ false = ground arith in
    rw (f d (omega arith)) (rw (minus, plus) refl)

-- A number in base 16 has no prefix.
no_x : (c n m : ℕ) (str : Bytes) → Spells 16 n str m → has_prefix (c ∷ str) ≡ false
no_x c n _ _ (Spells.ended _) = refl
no_x c n m _ (Spells.next _ d _ str below s) = ground arith

no_prefix : (n m : ℕ) (str : Bytes) → Spells 16 n str m → has_prefix str ≡ false
no_prefix n _ _ (Spells.ended _) = refl
no_prefix n m _ (Spells.next _ d _ str below s) = no_x (digit_char d) (n * 16 + d) m str s

detect_base-Spells :
    (base n m : ℕ) (str : Bytes)
    → 2 ≤ base
    → Spells base n str m
    → detect_base base str ≡ (base, str)
detect_base-Spells base n m str h s = elim (Bool-cases (base == 16)) [
  | inl e ↦
      let sixteen = ==→eq base 16 e in
      let prefix = no_prefix n m str (subst (λ b. Spells b n str m) sixteen s) in
      let given : (base == 0) ≡ false = ground arith in rw (given, e, prefix) refl
  | inr e ↦ let given : (base == 0) ≡ false = ground arith in rw (given, e) refl
]

itoa-Spells : (n base : ℕ) → n < 2 ^ 32 → 2 ≤ base → Spells base 0 (itoa (pos n) base) n
unfolding itoa
itoa-Spells n base small h =
    if_ind (λ str. Spells base 0 str n) (n == 0)
      (λ e.
        let zero_digit : Spells base 0 (48 ∷ []) 0 =
          Spells.next 0 0 0 [] (omega arith)
            (subst (λ m. Spells base m [] 0) (omega arith) (Spells.ended 0)) in
        subst (λ m. Spells base 0 (48 ∷ []) m) (sym (==→eq n 0 e)) zero_digit)
      (λ e. low_digits-Spells base h 32 n n [] small (Spells.ended n))

blank_free : (d : ℕ) → d < 36 → is_blank (digit_char d) ≡ false
blank_free d h = ground arith

space_free : (d : ℕ) → d < 36 → is_space (digit_char d) ≡ false
space_free d h = ground arith

-- `strtol` reads back what `itoa` writes for a number that is not negative, in any base from 2 to 36,
-- and leaves nothing of the string.
pub strtol-itoa :
    (n base : ℕ) → n < 2 ^ 31 → 2 ≤ base → base ≤ 36 → strtol (itoa (pos n) base) base ≡ (pos n, [])
unfolding strtol
strtol-itoa n base small lo hi =
    let s = itoa-Spells n base (omega arith) lo in
    rw
      (
        no_sign is_blank base 0 n (itoa (pos n) base) blank_free hi s,
        detect_base-Spells base 0 n (itoa (pos n) base) lo s,
        read_digits-Spells base 0 n (itoa (pos n) base) hi s,
      )
      refl

pub reversed_end : (bs out : Bytes) (c : ℕ) → reversed (bs ++ (c ∷ [])) out ≡ c ∷ reversed bs out
reversed_end [] out c = refl
reversed_end (b ∷ bs) out c = reversed_end bs (b ∷ out) c

-- `atoi` reads back what `itoa` writes in base 10, for every number but the smallest.
pub atoi-itoa :
    (n : ℕ)
    → n < 2 ^ 31
    → (atoi (itoa (pos n) 10) ≡ pos n) × (atoi (itoa (signed true n) 10) ≡ signed true n)
unfolding atoi itoa
atoi-itoa n small = (positive n small, negative n small)
  where
    positive : (n : ℕ) → n < 2 ^ 31 → atoi (itoa (pos n) 10) ≡ pos n
    positive n small =
        let s = itoa-Spells n 10 (omega arith) (omega arith) in
        rw
          (
            no_sign is_space 10 0 n (itoa (pos n) 10) space_free (omega arith) s,
            read_decimal-Spells 0 n (itoa (pos n) 10) s,
          )
          refl

    negative : (n : ℕ) → n < 2 ^ 31 → atoi (itoa (signed true n) 10) ≡ signed true n
    negative zero small = positive 0 small
    negative (suc n) small =
        let ordinary : (n + 1 == 2 ^ 31) ≡ false = ground arith in
        let one_more : n + 1 ≡ suc n = omega arith in
        let s =
          low_digits-Spells 10 (omega arith) 32 (n + 1) (n + 1) [] (omega arith)
            (Spells.ended (n + 1)) in
        rw (ordinary, reversed_end (low_digits 32 10 (n + 1)) [] 45)
          (ap (λ m. signed true m) (read_decimal-Spells 0 (n + 1) _ s ∙ one_more))

reversed_append : (bs out : Bytes) → reversed bs out ≡ reversed bs [] ++ out
reversed_append [] out = refl
reversed_append (b ∷ bs) out =
    reversed_append bs (b ∷ out)
    ∙ sym (ap (λ l. l ++ out) (reversed_append bs (b ∷ [])) ∙ regroup (reversed bs []))
  where
    regroup : (xs : Bytes) → (xs ++ (b ∷ [])) ++ out ≡ xs ++ (b ∷ out)
    regroup [] = refl
    regroup (x ∷ xs) = ap (λ l. x ∷ l) (regroup xs)

-- For a negative number that is no multiple of 16, such as an unsigned one from 2 ^ 31 on taken for an
-- `int`, `itoa` in base 16 ends in a character below the digits.
pub itoa-not_hex :
    (n : ℕ)
    → (n + 1) % 16 ≢ 0
    → (str : Bytes) × (c : ℕ) × (itoa (negsuc n) 16 ≡ str ++ (c ∷ [])) × (c < 48)
unfolding itoa negative_digits
itoa-not_hex n h =
    let positive : (n + 1 == 0) ≡ false = ground arith in
    (
      reversed (negative_digits 31 16 ((n + 1) / 16)) [],
      48 - (n + 1) % 16,
      rw positive
          (reversed_append (negative_digits 31 16 ((n + 1) / 16)) ((48 - (n + 1) % 16) ∷ [])),
      omega arith,
    )
