-- ===== src/Stdlib/Tests.antt =====
-- The theorems on `bsearch` and `partition` at small arrays, and on the conversions of numbers.
use unics.Base.{
  ℕ, ◌-◌, [], ◌∷◌, ◌++◌, Bytes, ◌*◌, ◌≤◌, ◌<◌, ◌≡◌, ◌≢◌, ◌⊎◌, true, false, none, some, arith, ltb,
  if◌then◌else◌,
}
use unics.Base.Int.{ℤ, pos, negsuc, diff, diff_zero, diff_pos, diff_negsuc}
use unics.Stdlib.Number.{itoa, strtol}
use unics.Stdlib.Spelling.{strtol-itoa, itoa-not_hex}
use unics.Stdlib.Search.{InOrder, bsearch, bsearch_lem}
use unics.Stdlib.Sort.{partition}
use unics.Stdlib.Partition.{partition_lem}

-- The key 6 against the array 0, 2, 4, …
abbrev against_six : ℕ → ℤ
against_six i = diff 6 (2 * i)

six-InOrder : InOrder against_six
six-InOrder = record {
  upward = λ i j n le e h. absurd (omega (arith, diff_negsuc 6 (2 * i) n e, diff_zero 6 (2 * j) h));
  downward = λ i j n le e h. absurd (omega (arith, diff_pos 6 (2 * j) n e, diff_zero 6 (2 * i) h));
}

bsearch_lem_example :
    ((i : ℕ) × (bsearch against_six 5 ≡ some i) × (i < 5) × (against_six i ≡ pos 0))
    ⊎ ((bsearch against_six 5 ≡ none) × ((i : ℕ) → i < 5 → against_six i ≢ pos 0))
bsearch_lem_example = bsearch_lem against_six 5 six-InOrder

-- 0, 3, 2, 1, 4, 3, 2, …
abbrev array : ℕ → ℕ
array i = if ltb i 4 then (if ltb 0 i then 4 - i else 0) else 8 - i

partition_lem_example :
    (0 ≤ (partition ltb 0 5 array).0)
    × ((partition ltb 0 5 array).0 ≤ 5)
    × ((k : ℕ)
        → 0 ≤ k
        → k < (partition ltb 0 5 array).0
        → ltb
            ((partition ltb 0 5 array).1 k)
            ((partition ltb 0 5 array).1 (partition ltb 0 5 array).0)
          ≡ true)
    × ((k : ℕ)
        → (partition ltb 0 5 array).0 < k
        → k ≤ 5
        → ltb
            ((partition ltb 0 5 array).1 k)
            ((partition ltb 0 5 array).1 (partition ltb 0 5 array).0)
          ≡ false)
partition_lem_example = partition_lem ltb 0 5 array (omega arith)

strtol-itoa_example : strtol (itoa (pos 3054) 16) 16 ≡ (pos 3054, [])
strtol-itoa_example = strtol-itoa 3054 16 (omega arith) (omega arith) (omega arith)

itoa-not_hex_example : (str : Bytes) × (c : ℕ) × (itoa (negsuc 0) 16 ≡ str ++ (c ∷ [])) × (c < 48)
itoa-not_hex_example = itoa-not_hex 0 (λ e. omega arith)
