-- ===== src/Fs/Find.antt =====
-- `fs_find_file_in_dir` and `fs_find_file` against the entries of the table.
use unics.Base.{
  ℕ, ◌<◌, ◌≡◌, ◌⊎◌, inl, inr, refl, subst, sym, ◌∙◌, Bool, true, false, Option, none, some, Bytes,
  arith, eq_bytes_sound, eq_bytes_self, Option-cases,
}
use mathlib.Core.Option.{some-injective}
use unics.Fs.State.{FileSystem}
use unics.Fs.Lookup.{find_file_in_dir, find_file, with_file, eq_ptr, is_entry}
use unics.Fs.Search.{find_from_cases}

-- Entry `i` is in use, lies in directory `d` and is called `name`.
pub record IsEntry (fs : FileSystem) (name : Bytes) (d i : ℕ) : Type 0 where
  pub used : fs.free_list i ≡ false
  pub inside : (fs.files i).parent ≡ some d
  pub called : (fs.files i).name ≡ name

pub eq_ptr_sound : (p : Option ℕ) (d : ℕ) → eq_ptr p d ≡ true → p ≡ some d
eq_ptr_sound none d h = cc
eq_ptr_sound (some p) d h = ground arith

pub eq_ptr_self : (d : ℕ) → eq_ptr (some d) d ≡ true
eq_ptr_self d = ground arith

pub is_entry_sound :
    (fs : FileSystem) (name : Bytes) (d i : ℕ) → is_entry fs name d i ≡ true → IsEntry fs name d i
is_entry_sound fs name d i h = record {
  used = ground arith;
  inside = eq_ptr_sound (fs.files i).parent d (ground arith);
  called = eq_bytes_sound (fs.files i).name name (ground arith);
}

pub is_entry_complete :
    (fs : FileSystem) (name : Bytes) (d i : ℕ) → IsEntry fs name d i → is_entry fs name d i ≡ true
is_entry_complete fs name d i e =
    rw (e.used, e.inside, e.called) (ground (arith, eq_bytes_self name))

-- `fs_find_file_in_dir` with a name and a directory returns the first entry among the first
-- `file_count` slots that has the name and the directory, and NULL exactly where these slots hold
-- no such entry.
pub find_file_in_dir_cases :
    (fs : FileSystem) (name : Bytes) (d : ℕ)
    → ((i : ℕ) × (find_file_in_dir fs (some name) (some d) ≡ some i)
        × (i < fs.file_count)
        × IsEntry fs name d i
        × ((j : ℕ) → j < i → ¬ IsEntry fs name d j))
      ⊎ ((find_file_in_dir fs (some name) (some d) ≡ none)
          × ((j : ℕ) → j < fs.file_count → ¬ IsEntry fs name d j))
unfolding find_file_in_dir
find_file_in_dir_cases fs name d =
    elim (find_from_cases (is_entry fs name d) fs.file_count 0 fs.file_count (omega arith)) [
      | inl (i, eq, (lo, hi, hit, before)) ↦ inl (
        i,
        eq,
        hi,
        is_entry_sound fs name d i hit,
        λ j p e. differ (before j (omega arith) p) (is_entry_complete fs name d j e),
      )
      | inr (eq, before) ↦
          inr (eq, λ j p e. differ (before j (omega arith) p) (is_entry_complete fs name d j e))
    ]
  where
    differ : {b : Bool} → b ≡ false → b ≡ true → ⊥
    differ p q = cc

-- What a call of `fs_find_file` that returns an entry tells of it.
pub record Found (fs : FileSystem) (i : ℕ) : Type 0 where
  pub below : i < fs.file_count
  pub dir : ℕ
  pub current : fs.current_dir ≡ some dir
  pub used : fs.free_list i ≡ false
  pub inside : (fs.files i).parent ≡ some dir

Found-in :
    (fs : FileSystem) (name : Bytes) (p : Option ℕ) (i : ℕ)
    → fs.current_dir ≡ p
    → find_file_in_dir fs (some name) p ≡ some i
    → Found fs i
Found-in fs name none i c h = unfold find_file_in_dir in cc h
Found-in fs name (some d) i c h = elim (find_file_in_dir_cases fs name d) [
  | inl (j, eq, hi, e, before) ↦
      subst (λ k. Found fs k) (some-injective _ _ (sym eq ∙ h))
        (record { below = hi; dir = d; current = c; used = e.used; inside = e.inside })
  | inr (eq, before) ↦ cc
]

pub find_file-Found :
    (fs : FileSystem) (name : Option Bytes) (i : ℕ) → find_file fs name ≡ some i → Found fs i
unfolding find_file
find_file-Found fs none i h = cc
find_file-Found fs (some name) i h = Found-in fs name fs.current_dir i refl h

-- A property of what an operation does with and without a file.
pub with_file_ind {ℓ κ} :
    {R : Type ℓ} (P : R → Type κ) (fs : FileSystem) (name : Option Bytes) {missing : R}
    {rest : ℕ → R}
    → P missing
    → ((i : ℕ) → Found fs i → P (rest i))
    → P (with_file fs name missing rest)
with_file_ind P fs name none' some' = elim (Option-cases (find_file fs name)) [
  | inl e ↦ rw (e, with_file) none'
  | inr (i, e) ↦ rw (e, with_file) (some' i (find_file-Found fs name i e))
]
