-- ===== src/Pmm/Totals.antt =====
-- `pmm_get_stats`: the totals add up.
use unics.Base.{
  ℕ, zero, suc, ◌+◌, ◌%◌, ◌^◌, ◌≤◌, ◌≡◌, List, [], ◌∷◌, arith, Bool-cases, not, inl, inr,
}
use unics.Pmm.Bitmap.{Bitmap}
use unics.Pmm.Region.{Region, count_allocated}
use unics.Pmm.Manager.{Pmm, Stats, add_stats, stats_of, zero_stats, get_stats}

count_allocated-le : (bitmap : Bitmap) (k i n : ℕ) → count_allocated bitmap k i n ≤ n + k
unfolding count_allocated
count_allocated-le bitmap zero i n = omega arith
count_allocated-le bitmap (suc k) i n =
    ground
      (arith, count_allocated-le bitmap k (i + 1) n, count_allocated-le bitmap k (i + 1) (n + 1))

abbrev pub AddsUp : Stats → Type 0
AddsUp st = (st.free_pages + st.allocated_pages) % 2 ^ 32 ≡ st.total_pages

add_stats-AddsUp : (r : Region) (st : Stats) → AddsUp st → AddsUp (add_stats r st)
add_stats-AddsUp r st h = omega (arith, count_allocated-le r.bitmap r.pages 0 0)

stats_of-AddsUp : (rs : List Region) (st : Stats) → AddsUp st → AddsUp (stats_of rs st)
unfolding stats_of
stats_of-AddsUp [] st h = h
stats_of-AddsUp (r ∷ rs) st h = stats_of-AddsUp rs (add_stats r st) (add_stats-AddsUp r st h)

-- In the statistics that `pmm_get_stats` returns, the free and the allocated pages add up to the
-- total, as 32-bit numbers.
pub get_stats-AddsUp : (s : Pmm) → AddsUp (get_stats s)
unfolding get_stats
get_stats-AddsUp s = elim (Bool-cases (not s.initialized)) [
  | inl fresh ↦ rw fresh
  | inr ready ↦ rw ready (stats_of-AddsUp s.regions zero_stats (omega arith))
]
