-- ===== src/Fs/Search.antt =====
-- What the loops over the file table find: the first free slot, the first entry that passes a test,
-- a child of a directory.
use unics.Base.{
  ℕ, zero, suc, ◌+◌, ◌≤◌, ◌<◌, ◌≡◌, ◌⊎◌, inl, inr, refl, Bool, true, false, not, ◌&&◌, none, some,
  arith, ◌==◌, Bool-cases, ==→eq, ==→ne,
}
use unics.Fs.State.{max_files, FileSystem}
use unics.Fs.Lookup.{first_free, find_from, has_child, eq_ptr}

extend_down :
    (t : ℕ → Bool) (i j : ℕ) → t i ≡ false → i ≤ j → (i + 1 ≤ j → t j ≡ false) → t j ≡ false
extend_down t i j here p later = elim (Bool-cases (i == j)) [
  | inl e ↦ rw (==→eq i j e) at here
  | inr ne ↦ later (omega (arith, ==→ne i j ne))
]

-- `r` is the first index from `i` on, below `n`, at which the test holds.
abbrev pub IsFirst : (ℕ → Bool) → ℕ → ℕ → ℕ → Type 0
IsFirst test i n r =
    (i ≤ r) × (r < n) × (test r ≡ true) × ((j : ℕ) → i ≤ j → j < r → test j ≡ false)

-- The loop gives the first free slot, or MAX_FILES where it meets none.
pub first_free_cases :
    (free : ℕ → Bool) (k i n : ℕ)
    → i + k ≡ n
    → IsFirst free i n (first_free free k i)
      ⊎ ((first_free free k i ≡ max_files) × ((j : ℕ) → i ≤ j → j < n → free j ≡ false))
unfolding first_free
first_free_cases free zero i n e = inr (refl, λ j p q. absurd (omega arith))
first_free_cases free (suc k) i n e = elim (Bool-cases (free i)) [
  | inl here ↦ inl (rw here (omega arith, omega arith, here, λ j p q. absurd (omega arith)))
  | inr used ↦ elim (first_free_cases free k (i + 1) n (omega arith)) [
    | inl (lo, hi, f, before) ↦
        inl (rw used (omega arith, hi, f, λ j p q. extend_down free i j used p (λ h. before j h q)))
    | inr (stop, before) ↦
        inr (rw used (stop, λ j p q. extend_down free i j used p (λ h. before j h q)))
  ]
]

-- The loop gives the first entry that passes, or NULL where none does.
pub find_from_cases :
    (test : ℕ → Bool) (k i n : ℕ)
    → i + k ≡ n
    → ((r : ℕ) × (find_from test k i ≡ some r) × IsFirst test i n r)
      ⊎ ((find_from test k i ≡ none) × ((j : ℕ) → i ≤ j → j < n → test j ≡ false))
unfolding find_from
find_from_cases test zero i n e = inr (refl, λ j p q. absurd (omega arith))
find_from_cases test (suc k) i n e = elim (Bool-cases (test i)) [
  | inl here ↦ inl (i, rw here, (omega arith, omega arith, here, λ j p q. absurd (omega arith)))
  | inr fails ↦ elim (find_from_cases test k (i + 1) n (omega arith)) [
    | inl (r, eq, (lo, hi, f, before)) ↦ inl (
      r,
      rw fails eq,
      (omega arith, hi, f, λ j p q. extend_down test i j fails p (λ h. before j h q)),
    )
    | inr (eq, before) ↦
        inr (rw fails eq, λ j p q. extend_down test i j fails p (λ h. before j h q))
  ]
]

-- No child was found: no entry in use has the directory as its parent.
pub has_child_none :
    (fs : FileSystem) (d k i n : ℕ)
    → i + k ≡ n
    → has_child fs d k i ≡ false
    → (j : ℕ) → i ≤ j
    → j < n
    → not (fs.free_list j) && eq_ptr (fs.files j).parent d ≡ false
unfolding has_child
has_child_none fs d zero i n e h j p q = absurd (omega arith)
has_child_none fs d (suc k) i n e h j p q =
    elim (Bool-cases (not (fs.free_list i) && eq_ptr (fs.files i).parent d)) [
      | inl yes' ↦ absurd (cc (rw yes' at h))
      | inr here ↦
          extend_down (λ j. not (fs.free_list j) && eq_ptr (fs.files j).parent d) i j here p
            (λ lo. has_child_none fs d k (i + 1) n (omega arith) (rw here at h) j lo q)
    ]
