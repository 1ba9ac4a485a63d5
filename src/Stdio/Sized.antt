-- ===== src/Stdio/Sized.antt =====
-- lib/libc/stdio.c: `vsnprintf` stays in its buffer, and agrees with `vsprintf` there.
use unics.Base.{
  ℕ, zero, suc, ◌-◌, ◌≤◌, ◌≡◌, ◌≢◌, subst, refl, ap, sym, ◌∙◌, Bool, true, false, ◌&&◌, Option,
  none, some, List, [], ◌∷◌, ◌++◌, Bytes, length, take, length-append, length-take, arith, leb,
  ◌==◌, ne→==, if_ind,
}
use Prim.{Unit}
use unics.Base.Int.{ℤ}
use unics.Stdio.Format.{
  Arg, is_digit, convert, with_arg, take_int, prefixed, and_then, cut_to, vsprintf_from, vsprintf,
  convert_sized, vsnprintf_from, vsnprintf,
}

-- At most `k` bytes.
abbrev Fits : ℕ → Option Bytes → Type 0
Fits k none = Unit
Fits k (some out) = length out ≤ k

abbrev Piece : ℕ → Option (Bytes × List Arg) → Type 0
Piece k none = Unit
Piece k (some r) = length r.0 ≤ k

prefixed-Fits :
    (k : ℕ) (out : Bytes) (rest : Option Bytes)
    → length out ≤ k
    → Fits (k - length out) rest
    → Fits k (prefixed out rest)
prefixed-Fits k out none h f = record {}
prefixed-Fits k out (some bs) h f = omega (arith, length-append out bs)

convert_sized-Piece : (k c : ℕ) (args : List Arg) → Piece k (convert_sized k c args)
unfolding convert_sized
convert_sized-Piece k c args =
    if_ind (Piece k) ((c == 112) && leb k 2) (λ h. consumed (take_int args))
      (λ h. cut (convert c args))
  where
    consumed : (o : Option (ℤ × List Arg)) → Piece k (with_arg o (λ n. []))
    consumed none = record {}
    consumed (some (v, rest)) = omega arith

    cut : (o : Option (Bytes × List Arg)) → Piece k (cut_to k o)
    cut none = record {}
    cut (some (out, rest)) = omega (arith, length-take k out)

vsnprintf_from-Fits :
    (k : ℕ) (format : Bytes) (args : List Arg) → Fits k (vsnprintf_from k format args)
unfolding vsnprintf_from
vsnprintf_from-Fits zero format args = omega arith
vsnprintf_from-Fits (suc k) [] args = omega arith
vsnprintf_from-Fits (suc k) (c ∷ []) args = omega arith
vsnprintf_from-Fits (suc k) (c ∷ d ∷ format) args =
    either _ _ (c == 37)
      (converted (convert_sized (suc k) d args) (convert_sized-Piece (suc k) d args)
        (λ n rest. vsnprintf_from-Fits n format rest))
      (prefixed-Fits (suc k) (c ∷ []) (vsnprintf_from k (d ∷ format) args) (omega arith) (
        subst (λ n. Fits n (vsnprintf_from k (d ∷ format) args)) (omega arith)
          (vsnprintf_from-Fits k (d ∷ format) args)))
  where
    either :
        (x y : Option Bytes) (b : Bool)
        → Fits (suc k) x
        → Fits (suc k) y
        → Fits (suc k) (elim b [ true ↦ x | false ↦ y ])
    either x y true p q = p
    either x y false p q = q

    converted :
        (o : Option (Bytes × List Arg))
        → Piece (suc k) o
        → ((n : ℕ) (rest : List Arg) → Fits n (vsnprintf_from n format rest))
        → Fits (suc k) (and_then o (λ out rest. vsnprintf_from (suc k - length out) format rest))
    converted none p ih = record {}
    converted (some (out, rest)) p ih = prefixed-Fits (suc k) out _ p (ih (suc k - length out) rest)

-- `vsnprintf` puts at most `n - 1` bytes in front of the terminator, whatever the format.
pub vsnprintf_fits :
    (n : ℕ) (format : Bytes) (args : List Arg) (out : Bytes)
    → vsnprintf n format args ≡ some out
    → length out ≤ n - 1
vsnprintf_fits n format args out e =
    subst (Fits (n - 1)) e (vsnprintf_from-Fits (n - 1) format args)

-- A format whose conversions have no width, and none of which is `%p`.
pub data Plain : Bytes → Type 0 where
  empty : Plain []
  last : (c : ℕ) → Plain (c ∷ [])
  literal : (c d : ℕ) (format : Bytes) → c ≢ 37 → Plain (d ∷ format) → Plain (c ∷ d ∷ format)
  conversion :
      (d : ℕ) (format : Bytes)
      → is_digit d ≡ false
      → d ≢ 112
      → Plain format
      → Plain (37 ∷ d ∷ format)

pub take-append_long :
    (k : ℕ) (xs ys : Bytes) → take k xs ++ take (k - length (take k xs)) ys ≡ take k (xs ++ ys)
take-append_long zero xs ys = refl
take-append_long (suc k) [] ys = let all : suc k - 0 ≡ suc k = omega arith in rw all refl
take-append_long (suc k) (x ∷ xs) ys =
    let less : suc k - suc (length (take k xs)) ≡ k - length (take k xs) = omega arith in
    rw less (ap (λ l. x ∷ l) (take-append_long k xs ys))

no_bytes : Bytes
no_bytes = []

take_nil : (k : ℕ) → take k no_bytes ≡ no_bytes
unfolding no_bytes
take_nil zero = refl
take_nil (suc k) = refl

-- If the first gives bytes, the second gives the first `k` of them.
abbrev Cut : ℕ → Option Bytes → Option Bytes → Type 0
Cut k none p = Unit
Cut k (some out) p = p ≡ some (take k out)

no_room-Cut : (o : Option Bytes) → Cut 0 o (some [])
no_room-Cut none = record {}
no_room-Cut (some out) = refl

prefixed-Cut :
    (k : ℕ) (bytes : Bytes) (o p : Option Bytes)
    → Cut (k - length (take k bytes)) o p
    → Cut k (prefixed bytes o) (prefixed (take k bytes) p)
prefixed-Cut k bytes none p h = record {}
prefixed-Cut k bytes (some out) p h =
    ap (prefixed (take k bytes)) h ∙ ap some (take-append_long k bytes out)

literal-Cut :
    (k c : ℕ) (o p : Option Bytes)
    → Cut k o p
    → Cut (suc k) (prefixed (c ∷ []) o) (prefixed (c ∷ []) p)
literal-Cut k c none p h = record {}
literal-Cut k c (some out) p h = ap (prefixed (c ∷ [])) h

converted-Cut :
    (k : ℕ) (o : Option (Bytes × List Arg)) (v : List Arg → Option Bytes)
    (w : ℕ → List Arg → Option Bytes)
    → ((n : ℕ) (rest : List Arg) → Cut n (v rest) (w n rest))
    → Cut k
        (and_then o (λ out rest. v rest))
        (and_then (cut_to k o) (λ out rest. w (k - length out) rest))
converted-Cut k none v w h = record {}
converted-Cut k (some (out, rest)) v w h = prefixed-Cut k out (v rest) _ (h _ rest)

vsnprintf_from-Cut :
    (k : ℕ) (format : Bytes) (args : List Arg)
    → Plain format
    → Cut k (vsprintf_from false format args) (vsnprintf_from k format args)
unfolding vsprintf_from vsnprintf_from convert_sized no_bytes
vsnprintf_from-Cut zero format args p = no_room-Cut (vsprintf_from false format args)
vsnprintf_from-Cut (suc k) _ args Plain.empty = refl
vsnprintf_from-Cut (suc k) _ args (Plain.last c) = ap (λ l. some (c ∷ l)) (sym (take_nil k))
vsnprintf_from-Cut (suc k) _ args (Plain.literal c d format ne p) =
    let other : (c == 37) ≡ false = ne→== c 37 ne in
    rw (other, vsprintf_from, vsnprintf_from)
      (literal-Cut k c _ _ (vsnprintf_from-Cut k (d ∷ format) args p))
vsnprintf_from-Cut (suc k) _ args (Plain.conversion d format digit pointer p) =
    let other : (d == 112) ≡ false = ne→== d 112 pointer in
    rw (digit, other, vsprintf_from, vsnprintf_from, convert_sized)
      (converted-Cut (suc k) (convert d args) (λ rest. vsprintf_from false format rest)
        (λ n rest. vsnprintf_from n format rest) (λ n rest. vsnprintf_from-Cut n format rest p))

-- Where `vsprintf` gives bytes, for a format without widths and `%p`, `vsnprintf` gives the first
-- `n - 1` of them.
pub vsnprintf-vsprintf :
    (n : ℕ) (format : Bytes) (args : List Arg) (out : Bytes)
    → Plain format
    → vsprintf format args ≡ some out
    → vsnprintf n format args ≡ some (take (n - 1) out)
vsnprintf-vsprintf n format args out p e =
    subst (λ o. Cut (n - 1) o (vsnprintf n format args)) e
      (vsnprintf_from-Cut (n - 1) format args p)
