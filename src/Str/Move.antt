-- ===== src/Str/Move.antt =====
-- What the functions on `n` bytes do to memory.
use unics.Base.{
  ℕ, zero, suc, ◌+◌, ◌%◌, ◌≤◌, ◌<◌, ◌≡◌, ◌⊎◌, inl, inr, refl, sym, ap, ◌∙◌, arith, ltb, ltb→lt,
  ltb→le, Bool-cases,
}
use unics.Base.Table.{update, update_self, update_ne}
use unics.Str.Memory.{Memory, memset, memcpy, copy_down, memmove}
use unics.Str.Copy.{strncpy}
use unics.Str.Length.{IsString, IsString-head, IsString-nil, IsString-tail}

-- After a copy of `n` bytes from `s` to `d`, the target holds what the source held before, and
-- every other byte is the old one.
pub record Copied (d s n : ℕ) (m m' : Memory) : Type 0 where
  pub inside : (k : ℕ) → k < n → m' (d + k) ≡ m (s + k)
  pub below : (p : ℕ) → p < d → m' p ≡ m p
  pub above : (p : ℕ) → d + n ≤ p → m' p ≡ m p

memcpy-Copied : (d s n : ℕ) (m : Memory) → d ≤ s ⊎ s + n ≤ d → Copied d s n m (memcpy d s n m)
unfolding memcpy
memcpy-Copied d s zero m apart = record {
  inside = λ k lt. absurd (omega arith);
  below = λ p h. refl;
  above = λ p h. refl;
}
memcpy-Copied d s (suc n) m apart =
    let m1 : Memory = update m d (m s) in
    let rest : Copied (d + 1) (s + 1) n m1 (memcpy (d + 1) (s + 1) n m1) =
      memcpy-Copied (d + 1) (s + 1) n m1
        (elim apart [ inl h ↦ inl (omega arith) | inr h ↦ inr (omega arith) ]) in
    record {
      inside = λ k lt. inside_at rest k lt;
      below = λ p h. rest.below p (omega arith) ∙ update_ne m d p (m s) (omega arith);
      above = λ p h. rest.above p (omega arith) ∙ update_ne m d p (m s) (omega arith);
    }
  where
    inside_at :
        Copied (d + 1) (s + 1) n (update m d (m s)) (memcpy (d + 1) (s + 1) n (update m d (m s)))
        → (k : ℕ) → k < suc n
        → memcpy (d + 1) (s + 1) n (update m d (m s)) (d + k) ≡ m (s + k)
    inside_at rest zero lt =
        ap (memcpy (d + 1) (s + 1) n (update m d (m s))) (omega arith)
        ∙ rest.below d (omega arith)
        ∙ update_self m d (m s)
        ∙ ap m (omega arith)
    inside_at rest (suc k) lt =
        ap (memcpy (d + 1) (s + 1) n (update m d (m s))) (omega arith)
        ∙ rest.inside k (omega arith)
        ∙ update_ne m d (s + 1 + k) (m s) (omega arith)
        ∙ ap m (omega arith)

copy_down-Copied : (d s n : ℕ) (m : Memory) → s ≤ d → Copied d s n m (copy_down d s n m)
unfolding copy_down
copy_down-Copied d s zero m up = record {
  inside = λ k lt. absurd (omega arith);
  below = λ p h. refl;
  above = λ p h. refl;
}
copy_down-Copied d s (suc n) m up =
    let m1 : Memory = update m (d + n) (m (s + n)) in
    let rest : Copied d s n m1 (copy_down d s n m1) = copy_down-Copied d s n m1 up in
    record {
      inside = λ k lt. elim (Bool-cases (ltb k n)) [
        | inl before ↦
            rest.inside k (ltb→lt k n before)
            ∙ update_ne m (d + n) (s + k) (m (s + n)) (omega (arith, ltb→lt k n before))
        | inr last ↦
            rest.above (d + k) (omega (arith, ltb→le k n last))
            ∙ ap m1 (omega (arith, ltb→le k n last))
            ∙ update_self m (d + n) (m (s + n))
            ∙ ap m (omega (arith, ltb→le k n last))
      ];
      below = λ p h. rest.below p h ∙ update_ne m (d + n) p (m (s + n)) (omega arith);
      above = λ p h. rest.above p (omega arith) ∙ update_ne m (d + n) p (m (s + n)) (omega arith);
    }

-- `memmove` copies, however the two ranges overlap: the target holds the bytes that the source held
-- before the call, and no other byte changes.
pub memmove-Copied : (d s n : ℕ) (m : Memory) → Copied d s n m (memmove d s n m)
unfolding memmove
memmove-Copied d s n m = elim (Bool-cases (ltb d s)) [
  | inl down ↦ rw down (memcpy-Copied d s n m (inl (omega (arith, ltb→lt d s down))))
  | inr up ↦ rw up (copy_down-Copied d s n m (ltb→le d s up))
]

memset-below : (p c n q : ℕ) (m : Memory) → q < p → memset p c n m q ≡ m q
unfolding memset
memset-below p c zero q m h = refl
memset-below p c (suc n) q m h =
    memset-below (p + 1) c n q (update m p (c % 256)) (omega arith)
    ∙ update_ne m p q (c % 256) (omega arith)

memset-at : (p c n k : ℕ) (m : Memory) → k < n → memset p c n m (p + k) ≡ c % 256
unfolding memset
memset-at p c zero k m h = absurd (omega arith)
memset-at p c (suc n) zero m h =
    ap (memset (p + 1) c n (update m p (c % 256))) (omega arith)
    ∙ memset-below (p + 1) c n p (update m p (c % 256)) (omega arith)
    ∙ update_self m p (c % 256)
memset-at p c (suc n) (suc k) m h =
    ap (memset (p + 1) c n (update m p (c % 256))) (omega arith)
    ∙ memset-at (p + 1) c n k (update m p (c % 256)) (omega arith)

-- `strncpy` of a string shorter than `n` to a place below it writes a zero at `d + n`, the byte
-- behind the `n` bytes of the target.
pub strncpy_past_end :
    (d s n len : ℕ) (m : Memory)
    → IsString m s len
    → len < n
    → d + n < s
    → strncpy d s n m (d + n) ≡ 0
unfolding strncpy
strncpy_past_end d s zero len m str lt apart = absurd (omega arith)
strncpy_past_end d s (suc n) zero m str lt apart =
    rw (IsString-nil m s str, strncpy)
      (ap (memset (d + 1) 0 (suc n) (update m d (m s))) (omega arith)
        ∙ memset-at (d + 1) 0 (suc n) n (update m d (m s)) (omega arith))
strncpy_past_end d s (suc n) (suc len) m str lt apart =
    rw (IsString-head m s len str, strncpy)
      (ap (strncpy (d + 1) (s + 1) n (update m d (m s))) (omega arith)
        ∙ strncpy_past_end (d + 1) (s + 1) n len (update m d (m s))
            (moved (IsString-tail m s len str)) (omega arith) (omega arith))
  where
    moved : IsString m (s + 1) len → IsString (update m d (m s)) (s + 1) len
    moved str = record {
      ends = update_ne m d (s + 1 + len) (m s) (omega arith) ∙ str.ends;
      goes_on = λ k below e.
          str.goes_on k below (sym (update_ne m d (s + 1 + k) (m s) (omega arith)) ∙ e);
    }
