-- ===== src/Pmm/Pages.antt =====
-- `alloc_page_from_region` and `pmm_alloc_page`: the same page is given out again.
use unics.Base.{
  ℕ, zero, suc, ◌-◌, ◌*◌, ◌/◌, ◌%◌, ◌^◌, ◌≤◌, ◌<◌, ◌≡◌, ◌≢◌, refl, ap, ◌∙◌, true, some, List, ◌∷◌,
  arith, bit_or, ne→==, ==_self,
}
use unics.Base.Bits.{bit_or_halves}
use unics.Pmm.Bitmap.{set_bit_64}
use unics.Pmm.Region.{
  Region, same_zone, normal, page_address, scan_word, scan_words, find_page, take_page,
  alloc_page_from_region,
}
use unics.Pmm.Manager.{Pmm, alloc_page, alloc_page_zone, alloc_from}
use unics.Pmm.Leading.{find_first_zero_bit_64-top_clear}

bit_or-zero : (n a : ℕ) → a ≤ n → bit_or a 0 ≡ a
bit_or-zero n zero h = omega (arith, bit_or_halves 0 0)
bit_or-zero zero (suc a) h = absurd (omega arith)
bit_or-zero (suc n) (suc a) h =
    omega (arith, bit_or_halves (suc a) 0, bit_or-zero n (suc a / 2) (omega arith))

bit_or-one-lt : (w : ℕ) → w < 2 ^ 63 → bit_or w 1 < 2 ^ 63
bit_or-one-lt w h = omega (arith, bit_or_halves w 1, bit_or-zero (w / 2) (w / 2) (omega arith))

-- A region whose hint points into a word of its bitmap with a clear top bit.
pub record AtLowWord (r : Region) : Type 0 where
  pub word_in : r.last_alloc / 64 < r.bitmap_size
  pub page_in : r.last_alloc / 64 * 64 < r.pages
  pub top_clear : r.bitmap (r.last_alloc / 64) < 2 ^ 63

abbrev pub first_page : Region → ℕ
first_page r = r.last_alloc / 64 * 64

scan_words_hit :
    (r : Region) (k w p : ℕ) → 0 < k → scan_word r w ≡ some p → scan_words r k w ≡ some p
unfolding scan_words
scan_words_hit r zero w p pos h = absurd (omega arith)
scan_words_hit r (suc k) w p pos h = rw (h, scan_words)

scan_word-first : (r : Region) → AtLowWord r → scan_word r (r.last_alloc / 64) ≡ some (first_page r)
scan_word-first r a =
    rw (find_first_zero_bit_64-top_clear _ a.top_clear) (ground (arith, a.page_in, a.top_clear))

-- `alloc_page_from_region` takes page 0 of the word, without a look at the bit of that page.
pub alloc_page_from_region-first :
    (r : Region) → AtLowWord r → alloc_page_from_region r ≡ take_page r (some (first_page r))
unfolding alloc_page_from_region
alloc_page_from_region-first r a = rw (
  scan_words_hit r (r.bitmap_size - r.last_alloc / 64) (r.last_alloc / 64) (first_page r)
      (omega (arith, a.word_in)) (scan_word-first r a),
  find_page,
)

-- The region after that allocation is of the same kind, with the same hint.
taken-AtLowWord : (r : Region) → AtLowWord r → AtLowWord (take_page r (some (first_page r))).1
unfolding set_bit_64
taken-AtLowWord r a =
    let same : first_page r / 64 ≡ r.last_alloc / 64 = omega arith in
    record {
      word_in = omega (arith, a.word_in);
      page_in = omega (arith, a.page_in);
      top_clear = rw (==_self (first_page r / 64), same, low_bit) (bit_or-one-lt _ a.top_clear);
    }
  where
    low_bit : first_page r % 64 ≡ 0
    low_bit = omega arith

-- The manager after `pmm_alloc_page` took page 0 of the word from its first region.
abbrev first_taken : Pmm → Region → List Region → Pmm
first_taken s r rs = record s { regions = (take_page r (some (first_page r))).1 ∷ rs }

alloc_page-first :
    (s : Pmm) (r : Region) (rs : List Region)
    → s.initialized ≡ true
    → s.regions ≡ r ∷ rs
    → same_zone r.zone normal ≡ true
    → AtLowWord r
    → page_address r (first_page r) ≢ 0
    → alloc_page s ≡ (page_address r (first_page r), first_taken s r rs)
unfolding alloc_page_zone alloc_from
alloc_page-first s r rs ready head zone a ne =
    let page = alloc_page_from_region-first r a in simp (head, zone, page, ready, ne→== _ 0 ne)

-- Two calls of `pmm_alloc_page` in a row return the same page: it is enough that the first region is
-- of the normal zone, that the top bit of the word at its hint is clear, and that the page's address
-- is not 0. Whether the page was allocated before makes no difference.
pub alloc_page_twice :
    (s : Pmm) (r : Region) (rs : List Region)
    → s.initialized ≡ true
    → s.regions ≡ r ∷ rs
    → same_zone r.zone normal ≡ true
    → AtLowWord r
    → page_address r (first_page r) ≢ 0
    → ((alloc_page s).0 ≡ page_address r (first_page r))
      × ((alloc_page (alloc_page s).1).0 ≡ page_address r (first_page r))
alloc_page_twice s r rs ready head zone a ne =
    let once = alloc_page-first s r rs ready head zone a ne in
    let same : r.last_alloc / 64 * 64 / 64 * 64 ≡ r.last_alloc / 64 * 64 = omega arith in
    let ne' : page_address r (r.last_alloc / 64 * 64 / 64 * 64) ≢ 0 = rw same ne in
    let twice =
      alloc_page-first (first_taken s r rs) (take_page r (some (first_page r))).1 rs ready refl zone
        (taken-AtLowWord r a) ne' in
    (
      ap (λ (x : ℕ × Pmm). x.0) once,
      ap (λ (x : ℕ × Pmm). (alloc_page x.1).0) once
          ∙ ap (λ (x : ℕ × Pmm). x.0) twice
          ∙ ap (page_address r) same,
    )
