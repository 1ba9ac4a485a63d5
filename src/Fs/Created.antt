-- ===== src/Fs/Created.antt =====
-- After a successful `fs_create` the file is found by its name.
use unics.Base.{
  ℕ, zero, suc, ◌+◌, ◌-◌, ◌≤◌, ◌<◌, ◌≡◌, ◌≢◌, inl, inr, refl, sym, ap, ◌∙◌, subst, Bool, true,
  false, Option, none, some, Bytes, arith, ◌==◌, ==→eq, ==→ne, ne→==, ==_self, length, take_all,
  Bool-cases, Option-cases, is_some, if_ind,
}
use native.Mathlib.Decide.{dec_lt}
use unics.Base.Table.{count}
use unics.Fs.State.{
  Status, success, is_success, File, FileSystem, Machine, max_files, max_filename_len, block_size,
}
use unics.Fs.Lookup.{validate_filename, find_file, find_file_in_dir, find_free_slot}
use unics.Fs.Entries.{create_with_perms, fill_file, new_file}
use unics.Fs.Search.{IsFirst, first_free_cases}
use unics.Fs.Find.{IsEntry, find_file_in_dir_cases}
use unics.Fs.Valid.{IsValid, PtrToDir, add_entry}

-- Slots that are in use are not counted as free.
count_used_below :
    (n r : ℕ) (t : ℕ → Bool) → r ≤ n → ((j : ℕ) → j < r → t j ≡ false) → count n t + r ≤ n
count_used_below zero r t h used = omega arith
count_used_below (suc n) r t h used = elim (Bool-cases (r == suc n)) [
  | inl e ↦
      let eq = ==→eq r (suc n) e in
      ground (arith, used n, count_used_below n n t (omega arith) (λ j p. used j (omega arith)))
  | inr ne ↦
      let le : r ≤ n = omega (arith, ==→ne r (suc n) ne) in
      ground (arith, count_used_below n r t le used)
]

-- A name that passes is shorter than MAX_FILENAME_LEN.
validated_length :
    (name : Bytes)
    → is_success (validate_filename (some name)) ≡ true
    → length name < max_filename_len
unfolding validate_filename
validated_length name h = ground arith

-- The first free slot is not above the number of entries in use.
slot-le-count :
    (fs : FileSystem)
    → IsValid fs
    → find_free_slot fs ≢ max_files
    → IsFirst fs.free_list 0 max_files (find_free_slot fs) × (find_free_slot fs ≤ fs.file_count)
unfolding find_free_slot
slot-le-count fs v ne = elim (first_free_cases fs.free_list max_files 0 max_files refl) [
  | inl (lo, hi, free, before) ↦ (
    (lo, hi, free, before),
    omega (
      arith,
      count_used_below max_files (find_free_slot fs) fs.free_list (omega arith)
          (λ j p. before j (omega arith) p),
      v.counted,
    ),
  )
  | inr (e, before) ↦ absurd (ne e)
]

-- What a successful creation did.
record Made (m : Machine) (name : Bytes) (permissions : ℕ) (fs fs' : FileSystem) : Type 0 where
  absent : find_file fs (some name) ≡ none
  short : length name < max_filename_len
  room : find_free_slot fs ≢ max_files
  block : Bytes
  added : fs' ≡ add_entry fs (find_free_slot fs) (new_file m fs name permissions block)

record IfMade (m : Machine) (name : Bytes) (permissions : ℕ) (fs : FileSystem)
    (r : Status × FileSystem) : Type 0 where
  made : r.0 ≡ success → Made m name permissions fs r.1

is_some-false {ℓ} : {A : Type ℓ} (o : Option A) → is_some o ≡ false → o ≡ none
is_some-false none h = refl
is_some-false (some a) h = cc

fill_file-IfMade :
    (m : Machine) (name : Bytes) (permissions : ℕ) (fs : FileSystem)
    → find_file fs (some name) ≡ none
    → length name < max_filename_len
    → find_free_slot fs ≢ max_files
    → IfMade m name permissions fs (fill_file m name permissions (find_free_slot fs) fs)
unfolding fill_file
fill_file-IfMade m name permissions fs absent short room =
    elim (Option-cases (m.malloc block_size)) [
      | inl e ↦ rw (e, fill_file) (record { made = λ h. cc })
      | inr (b, e) ↦
          rw (e, fill_file)
            (record {
              made = λ h. record {
                absent = absent;
                short = short;
                room = room;
                block = b;
                added = refl;
              };
            })
    ]

create-IfMade :
    (m : Machine) (name : Bytes) (permissions : ℕ) (fs : FileSystem)
    → IfMade m name permissions fs (create_with_perms m (some name) permissions fs)
unfolding create_with_perms
create-IfMade m name permissions fs =
    if_ind (IfMade m name permissions fs) (is_success (validate_filename (some name)))
      (λ good.
        if_ind (IfMade m name permissions fs) (is_some (find_file fs (some name)))
          (λ _. record { made = λ h. cc })
          (λ absent.
            if_ind (IfMade m name permissions fs) (find_free_slot fs == max_files)
              (λ _. record { made = λ h. cc })
              (λ room.
                fill_file-IfMade m name permissions fs (is_some-false _ absent)
                  (validated_length name good) (==→ne _ _ room))))
      (λ bad. record { made = λ h. cc })

IsEntry-add_entry :
    (fs : FileSystem) (i j : ℕ) (f : File) (name : Bytes) (d : ℕ)
    → i ≢ j
    → IsEntry (add_entry fs i f) name d j
    → IsEntry fs name d j
IsEntry-add_entry fs i j f name d ne e =
    let apart = ne→== i j ne in
    record {
      used = rw apart at (e.used);
      inside = rw apart at (e.inside);
      called = rw apart at (e.called);
    }

not_below :
    (fs : FileSystem) (name : Bytes) (d j : ℕ)
    → find_file_in_dir fs (some name) (some d) ≡ none
    → IsEntry fs name d j
    → fs.file_count ≤ j
not_below fs name d j absent e = elim (find_file_in_dir_cases fs name d) [
  | inl (i, eq, lt, entry, before) ↦ cc
  | inr (eq, none_below) ↦ elim (dec_lt j fs.file_count) [
    | yes p ↦ absurd (none_below j p e)
    | no p ↦ omega arith
  ]
]

-- An entry added at the first free slot is the one that its name finds.
find-add_entry :
    (fs : FileSystem) (f : File) (name : Bytes) (d : ℕ)
    → IsValid fs
    → find_free_slot fs ≢ max_files
    → find_file_in_dir fs (some name) (some d) ≡ none
    → f.parent ≡ some d
    → f.name ≡ name
    → find_file_in_dir (add_entry fs (find_free_slot fs) f) (some name) (some d)
      ≡ some (find_free_slot fs)
find-add_entry fs f name d v room absent ep en =
    let i = find_free_slot fs in
    let (first, low) = slot-le-count fs v room in
    let self : IsEntry (add_entry fs i f) name d i = record {
      used = ground arith;
      inside = rw (==_self i) ep;
      called = rw (==_self i) en;
    } in
    elim (find_file_in_dir_cases (add_entry fs i f) name d) [
      | inl (j, eq, hi, e, before) ↦ elim (Bool-cases (i == j)) [
        | inl same ↦ eq ∙ ap some (sym (==→eq i j same))
        | inr ne ↦
            let above =
              not_below fs name d j absent (IsEntry-add_entry fs i j f name d (==→ne i j ne) e) in
            absurd (before i (omega (arith, above, low, hi, ==→ne i j ne, v.counted)) self)
      ]
      | inr (eq, before) ↦ absurd (before i (omega (arith, low, v.counted)) self)
    ]

in_current :
    (m : Machine) (name : Bytes) (permissions : ℕ) (fs : FileSystem) (p : Option ℕ) (block : Bytes)
    → IsValid fs
    → PtrToDir fs p
    → fs.current_dir ≡ p
    → length name < max_filename_len
    → find_free_slot fs ≢ max_files
    → find_file_in_dir fs (some name) p ≡ none
    → find_file_in_dir
        (add_entry fs (find_free_slot fs) (new_file m fs name permissions block))
        (some name)
        p
      ≡ some (find_free_slot fs)
in_current m name permissions fs none block v h e short room absent = absurd h
in_current m name permissions fs (some d) block v h e short room absent =
    find-add_entry fs (new_file m fs name permissions block) name d v room absent e
      (take_all (max_filename_len - 1) name (omega arith))

-- When `fs_create_with_perms` returns FS_SUCCESS in a valid table, `fs_find_file` did not find the name
-- before; now it finds it, at the slot that was the first free one, which holds an empty, closed file of the given
-- permissions, placed in the current directory.
pub find-create :
    (m : Machine) (name : Bytes) (permissions : ℕ) (fs fs' : FileSystem)
    → IsValid fs
    → create_with_perms m (some name) permissions fs ≡ (success, fs')
    → (find_file fs (some name) ≡ none)
      × (find_file fs' (some name) ≡ some (find_free_slot fs))
      × ((fs'.files (find_free_slot fs)).size ≡ 0)
      × ((fs'.files (find_free_slot fs)).is_open ≡ false)
      × ((fs'.files (find_free_slot fs)).is_dir ≡ false)
      × ((fs'.files (find_free_slot fs)).permissions ≡ permissions)
      × ((fs'.files (find_free_slot fs)).parent ≡ fs.current_dir)
find-create m name permissions fs fs' v h =
    let w : Made m name permissions fs fs' =
      subst (λ (r : Status × FileSystem). Made m name permissions fs r.1) h
        ((create-IfMade m name permissions fs).made (ap (λ (r : Status × FileSystem). r.0) h)) in
    (
      w.absent,
      rw (w.added) (
          unfold find_file in
          in_current m name permissions fs fs.current_dir w.block v v.current refl w.short w.room
            (unfold find_file in w.absent)),
      rw (w.added, ==_self (find_free_slot fs)),
      rw (w.added, ==_self (find_free_slot fs)),
      rw (w.added, ==_self (find_free_slot fs)),
      rw (w.added, ==_self (find_free_slot fs)),
      rw (w.added, ==_self (find_free_slot fs)),
    )
