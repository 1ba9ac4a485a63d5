-- ===== src/Vmm/Align.antt =====
-- The alignment in `vmm_alloc_internal`: what the test of a page's address ensures.
use unics.Base.{
  ℕ, zero, suc, ◌+◌, ◌-◌, ◌*◌, ◌/◌, ◌%◌, ◌^◌, sym, ap, ◌∙◌, subst, ◌≤◌, ◌<◌, ◌≡◌, inl, inr, true,
  false, arith, ltb, leb, leb→le, leb→lt, ltb→le, ◌==◌, ==→eq, Bool-cases,
}
use unics.Vmm.Table.{PageTable, misaligned, align_up, wrap32, page_size}
use Prim.Native.Nat.{◌∣◌}
use unics.Base.Bits.{bit_and_multiple}
use native.Mathlib.Nat.{
  zero-mod, mul-mod_left, mod-mod_of_dvd, pow-le-pow_right, pow-suc, one-le-pow, mod-eq-zero_of_dvd,
  mod-add-div', dvd-sub, dvd_refl, dvd-mul_right_of_dvd,
}

-- A power of two divides the larger ones.
pow-dvd : (d k m : ℕ) → k + d ≡ m → 2 ^ k ∣ 2 ^ m
pow-dvd zero k m e =
    let same : k ≡ m = omega arith in subst (λ x. 2 ^ k ∣ 2 ^ x) same (dvd_refl (2 ^ k))
pow-dvd (suc d) k zero e = absurd (omega arith)
pow-dvd (suc d) k (suc m) e =
    subst (λ x. 2 ^ k ∣ x) (sym (pow-suc 2 m))
      (dvd-mul_right_of_dvd (2 ^ k) (pow-dvd d k m (omega arith)) 2)

-- The mask keeps multiples of the alignment.
align_up-mod : (addr k : ℕ) → k < 32 → align_up addr (2 ^ k) % 2 ^ k ≡ 0
align_up-mod addr k h =
    let positive : 0 < 2 ^ k = one-le-pow k 2 (omega arith) in
    let n = 2 ^ 32 - 1 - (2 ^ k - 1) in
    let same : n ≡ 2 ^ 32 - 2 ^ k = omega arith in
    let divides : n % 2 ^ k ≡ 0 =
      ap (λ x. x % 2 ^ k) same
      ∙ mod-eq-zero_of_dvd (2 ^ k)
          (dvd-sub (2 ^ k) (pow-dvd (32 - k) k 32 (omega arith)) (dvd_refl (2 ^ k))) in
    let whole : n ≡ n / 2 ^ k * 2 ^ k = omega (arith, mod-add-div' n (2 ^ k)) in
    let (p, e) = bit_and_multiple k (wrap32 (addr + 2 ^ k - 1)) n (n / 2 ^ k) whole in
    ap (λ x. x % 2 ^ k) e ∙ mul-mod_left p (2 ^ k)

-- A page with an aligned address is what the test of the search lets pass, for a power of two.
pub misaligned_sound :
    (t : PageTable) (k i : ℕ)
    → k < 32
    → (t i).base_addr % 4096 ≡ 0
    → misaligned t (2 ^ k) i ≡ false
    → (t i).base_addr % 2 ^ k ≡ 0
misaligned_sound t k i lt paged h = elim (Bool-cases (ltb page_size (2 ^ k))) [
  | inr small ↦
      let short : k ≤ 12 = at_most_12 (ltb→le page_size (2 ^ k) small) in
      sym
        (mod-mod_of_dvd (2 ^ k) {b = 2 ^ 12} (t i).base_addr (pow-dvd (12 - k) k 12 (omega arith)))
      ∙ ap (λ x. x % 2 ^ k) paged
      ∙ zero-mod (2 ^ k)
  | inl large ↦
      let same : (align_up (t i).base_addr (2 ^ k) == (t i).base_addr) ≡ true =
        ground (arith, large) in
      ap (λ x. x % 2 ^ k) (sym (==→eq (align_up (t i).base_addr (2 ^ k)) (t i).base_addr same))
      ∙ align_up-mod (t i).base_addr k lt
]
  where
    at_most_12 : 2 ^ k ≤ 4096 → k ≤ 12
    at_most_12 le = elim (Bool-cases (leb k 12)) [
      | inl less ↦ leb→le k 12 less
      | inr over ↦
          let more : 2 ^ 13 ≤ 2 ^ k =
            pow-le-pow_right {n = 2} (omega arith) {i = 13} {j = k}
              (omega (arith, leb→lt k 12 over)) in
          absurd (omega arith)
    ]
