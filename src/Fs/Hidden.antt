-- ===== src/Fs/Hidden.antt =====
-- Deleting an entry hides another one: `fs_find_file_in_dir` looks at the first `file_count` slots
-- only, and a deletion lowers `file_count` but moves nothing.
use unics.Base.{
  ℕ, ◌+◌, ◌<◌, ◌≡◌, ◌≢◌, inl, inr, refl, sym, ap, ◌∙◌, false, Option, none, some, Bytes, arith,
  ◌==◌, ==→ne, ne→==, if_ind, Bool-cases,
}
use unics.Fs.State.{Status, success, FileSystem, max_files}
use unics.Fs.Lookup.{find_file, find_file_in_dir, with_file, has_child}
use unics.Fs.Entries.{delete, delete_entry, delete_dir}
use unics.Fs.Find.{Found, IsEntry, find_file-Found, find_file_in_dir_cases}
use unics.Fs.Valid.{IsValid, drop_entry}
use unics.Fs.Keep.{Found-not_current, is_current-false}

-- What a successful deletion does to the table: entry `i` goes, nothing else changes.
record Drops (fs : FileSystem) (i : ℕ) (r : Status × FileSystem) : Type 0 where
  dropped : r.0 ≡ success → r.1 ≡ drop_entry fs i

refused : (fs : FileSystem) (i : ℕ) (s : Status) → s ≢ success → Drops fs i (s, fs)
refused fs i s h = record { dropped = λ e. absurd (h e) }

delete_entry-Drops :
    (fs : FileSystem) (i : ℕ) → IsValid fs → Found fs i → Drops fs i (delete_entry i fs)
unfolding delete_entry
delete_entry-Drops fs i v f =
    if_ind (Drops fs i) ((fs.files i).is_open) (λ _. refused fs i _ (λ e. cc))
      (λ _.
        if_ind (Drops fs i) (i == 0) (λ _. refused fs i _ (λ e. cc))
          (λ nz.
            if_ind (Drops fs i) ((fs.files i).is_dir)
              (λ dir.
                if_ind (Drops fs i) (has_child fs i max_files 0) (λ _. refused fs i _ (λ e. cc))
                  (λ empty.
                    let gone : Drops fs i (delete_dir i fs) =
                      rw (is_current-false fs i (Found-not_current fs i v f (==→ne i 0 nz)))
                        (record { dropped = λ e. refl }) in
                    gone))
              (λ file. record { dropped = λ e. refl })))

-- `fs_delete` that returns FS_SUCCESS erases the entry that `fs_find_file` gives for the name, frees
-- its slot, lowers `file_count` by one, and leaves every other entry and the current directory as
-- they were.
pub delete-drop_entry :
    (name : Option Bytes) (fs fs' : FileSystem) (i : ℕ)
    → IsValid fs
    → find_file fs name ≡ some i
    → delete name fs ≡ (success, fs')
    → fs' ≡ drop_entry fs i
unfolding delete
delete-drop_entry name fs fs' i v e h =
    let d : delete_entry i fs ≡ (success, fs') = rw (e, with_file) at h in
    sym (ap (λ (r : Status × FileSystem). r.1) d)
    ∙ (delete_entry-Drops fs i v (find_file-Found fs name i e)).dropped
        (ap (λ (r : Status × FileSystem). r.0) d)

IsEntry-drop_entry :
    (fs : FileSystem) (i j : ℕ) (name : Bytes) (d : ℕ)
    → IsEntry (drop_entry fs i) name d j
    → IsEntry fs name d j
IsEntry-drop_entry fs i j name d e = elim (Bool-cases (i == j)) [
  | inl same ↦ cc (rw same at (e.used))
  | inr apart ↦ record {
    used = rw apart at (e.used);
    inside = rw apart at (e.inside);
    called = rw apart at (e.called);
  }
]

-- Take a valid file table in which slot `file_count - 1` holds the only entry called `name` in
-- directory `d`, and delete the entry of any slot before it. The entry called `name` is still there,
-- and `fs_find_file_in_dir` no longer finds it.
pub delete_hides_last :
    (gone : Option Bytes) (name : Bytes) (fs fs' : FileSystem) (i d last : ℕ)
    → IsValid fs
    → fs.file_count ≡ last + 1
    → IsEntry fs name d last
    → ((j : ℕ) → IsEntry fs name d j → j ≡ last)
    → find_file fs gone ≡ some i
    → i < last
    → delete gone fs ≡ (success, fs')
    → IsEntry fs' name d last × (find_file_in_dir fs' (some name) (some d) ≡ none)
delete_hides_last gone name fs fs' i d last v count_eq entry only found lt h =
    let eq = delete-drop_entry gone fs fs' i v found h in
    rw eq (
      record {
        used = rw apart entry.used;
        inside = rw apart entry.inside;
        called = rw apart entry.called;
      },
      elim (find_file_in_dir_cases (drop_entry fs i) name d) [
        | inl (j, e, below, at_j, before) ↦
            let same = only j (IsEntry-drop_entry fs i j name d at_j) in
            absurd (omega (arith, below, same, count_eq, v.counted))
        | inr (e, none_below) ↦ e
      ],
    )
  where
    apart : (i == last) ≡ false
    apart = ne→== i last (omega arith)
