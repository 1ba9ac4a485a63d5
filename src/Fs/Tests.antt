-- ===== src/Fs/Tests.antt =====
-- Runs of the file system on small tables, and the theorems on them.
use unics.Base.{
  ℕ, ◌+◌, ◌≡◌, ◌≢◌, refl, sym, ap, ◌∙◌, true, false, none, some, [], ◌∷◌, Bytes, arith, length,
  replicate, length-replicate, ◌==◌, Bool-cases, inl, inr, ==→eq,
}
use mathlib.Core.Option.{some-injective}
use unics.Fs.State.{success, FileSystem, Machine, IsAllocator, init, max_file_size}
use unics.Fs.Lookup.{
  validate_filename, first_free, find_free_slot, find_from, find_file_in_dir, find_file, has_child,
}
use unics.Fs.Entries.{fill_file, create_with_perms, mkdir, delete, delete_entry}
use unics.Fs.Access.{open_file, read, write, seek}
use unics.Fs.Dirs.{chdir, getcwd}
use unics.Fs.Find.{IsEntry}
use unics.Fs.Valid.{IsValid}
use unics.Fs.Keep.{init-IsValid, create_with_perms-IsValid}
use unics.Fs.Io.{open_file-IsValid}
use unics.Fs.Steps.{creates, deletes, start, next, Reach-IsValid}
use unics.Fs.Created.{find-create}
use unics.Fs.Hidden.{delete_hides_last}
use unics.Fs.Cwd.{Above, top, up, root_path, getcwd-root_path}
use unics.Fs.Writing.{IsPlentiful, Ready, write_past_max}
use unics.Fs.RoundTrip.{read-write}

abbrev machine : Machine
machine = record { malloc = λ n. some (replicate n 0); now = 7 }

machine-IsAllocator : IsAllocator machine
machine-IsAllocator n b e = ap length (sym (some-injective _ _ e)) ∙ length-replicate n 0

machine-IsPlentiful : IsPlentiful machine
machine-IsPlentiful n = (replicate n 0, refl)

abbrev first_name : Bytes
first_name = 97 ∷ []

abbrev second_name : Bytes
second_name = 98 ∷ []

-- A table with one file, the same with the file open, and a table with two files.
abbrev made : FileSystem
made = (create_with_perms machine (some first_name) 3 (init machine)).1

abbrev opened : FileSystem
opened = (open_file (some first_name) made).1

abbrev two : FileSystem
two = (create_with_perms machine (some second_name) 3 made).1

-- A directory, and the current directory inside it.
abbrev below_root : FileSystem
below_root = (chdir first_name (mkdir machine (some first_name) (init machine)).1).1

made-IsValid : IsValid made
made-IsValid =
    create_with_perms-IsValid machine (some first_name) 3 (init machine) machine-IsAllocator
      (init-IsValid machine)

opened-IsValid : IsValid opened
opened-IsValid = open_file-IsValid (some first_name) made made-IsValid

two-IsValid : IsValid two
two-IsValid =
    create_with_perms-IsValid machine (some second_name) 3 made machine-IsAllocator made-IsValid

Reach-IsValid_example : IsValid (delete (some first_name) two).1
Reach-IsValid_example = Reach-IsValid (
    next
      (next (next (start machine) (creates machine (some first_name) 3 machine-IsAllocator))
        (creates machine (some second_name) 3 machine-IsAllocator))
      (deletes (some first_name)))

made_one : create_with_perms machine (some first_name) 3 (init machine) ≡ (success, made)
unfolding create_with_perms init validate_filename find_free_slot first_free find_file
    find_file_in_dir find_from fill_file
made_one = refl

find-create_example :
    (find_file (init machine) (some first_name) ≡ none)
    × (find_file made (some first_name) ≡ some (find_free_slot (init machine)))
    × ((made.files (find_free_slot (init machine))).size ≡ 0)
    × ((made.files (find_free_slot (init machine))).is_open ≡ false)
    × ((made.files (find_free_slot (init machine))).is_dir ≡ false)
    × ((made.files (find_free_slot (init machine))).permissions ≡ 3)
    × ((made.files (find_free_slot (init machine))).parent ≡ (init machine).current_dir)
find-create_example =
    find-create machine first_name 3 (init machine) made (init-IsValid machine) made_one

opened-Ready : Ready opened (some first_name) 2 1
unfolding open_file create_with_perms init validate_filename find_free_slot first_free find_file
    find_file_in_dir find_from fill_file
opened-Ready = record { found = refl; opened = refl; file = refl; allowed = refl }

read-write_example :
    (written_fs sought fs' : FileSystem) × (write machine (some first_name) (5 ∷ 6 ∷ []) opened
      ≡ some (2, written_fs))
    × (seek (some first_name) (opened.files 1).position written_fs ≡ (success, sought))
    × (read (some first_name) 2 sought ≡ some (5 ∷ 6 ∷ [], fs'))
unfolding open_file create_with_perms init validate_filename find_free_slot first_free find_file
    find_file_in_dir find_from fill_file
read-write_example =
    read-write machine opened (some first_name) 1 (5 ∷ 6 ∷ []) machine-IsAllocator
      machine-IsPlentiful opened-IsValid opened-Ready refl (omega arith) (omega arith)

abbrev too_much : Bytes
too_much = replicate (max_file_size + 1) 9

write_past_max_example : write machine (some first_name) too_much opened ≡ none
unfolding open_file create_with_perms init validate_filename find_free_slot first_free find_file
    find_file_in_dir find_from fill_file
write_past_max_example =
    write_past_max machine opened (some first_name) 1 too_much machine-IsAllocator
      machine-IsPlentiful opened-IsValid opened-Ready
      (omega (arith, length-replicate {A = ℕ} (max_file_size + 1) 9))
      (omega (arith, length-replicate {A = ℕ} (max_file_size + 1) 9))
      (omega (arith, length-replicate {A = ℕ} (max_file_size + 1) 9))

-- The table with two files, after the first is deleted.
abbrev one_left : FileSystem
one_left = (delete (some first_name) two).1

deletes_first : delete (some first_name) two ≡ (success, one_left)
unfolding delete delete_entry has_child create_with_perms init validate_filename find_free_slot
    first_free find_file find_file_in_dir find_from fill_file
deletes_first = refl

finds_first : find_file two (some first_name) ≡ some 1
unfolding create_with_perms init validate_filename find_free_slot first_free find_file
    find_file_in_dir find_from fill_file
finds_first = refl

second-IsEntry : IsEntry two second_name 0 2
unfolding create_with_perms init validate_filename find_free_slot first_free find_file
    find_file_in_dir find_from fill_file
second-IsEntry = record { used = refl; inside = refl; called = refl }

two_files : two.file_count ≡ 2 + 1
unfolding create_with_perms init validate_filename find_free_slot first_free find_file
    find_file_in_dir find_from fill_file
two_files = refl

one-Above : Above below_root 1 1
unfolding chdir mkdir init validate_filename find_free_slot first_free find_file find_file_in_dir
    find_from
one-Above = up refl (top refl)

in_first : below_root.current_dir ≡ some 1
unfolding chdir mkdir init validate_filename find_free_slot first_free find_file find_file_in_dir
    find_from
in_first = refl

getcwd-root_path_example : getcwd below_root 10 ≡ root_path 10
getcwd-root_path_example = getcwd-root_path below_root 1 1 10 in_first one-Above (omega arith)

true_ne_false : true ≢ false
true_ne_false h = cc

abbrev head_or_zero : Bytes → ℕ
head_or_zero [] = 0
head_or_zero (x ∷ xs) = x

names_differ : (x y : ℕ) → x ≢ y → x ∷ [] ≢ y ∷ []
names_differ x y ne h = ne (ap head_or_zero h)

only_second : (j : ℕ) → IsEntry two second_name 0 j → j ≡ 2
unfolding create_with_perms init validate_filename find_free_slot first_free find_file
    find_file_in_dir find_from fill_file
only_second j e = elim (Bool-cases (2 == j)) [
  | inl here ↦ sym (==→eq 2 j here)
  | inr ne ↦ elim (Bool-cases (1 == j)) [
    | inl first ↦ absurd (
        names_differ 97 98 (omega arith)
          (ap (λ k. (two.files k).name) (==→eq 1 j first) ∙ e.called))
    | inr ne' ↦ elim (Bool-cases (0 == j)) [
      | inl root ↦ absurd (
          names_differ 47 98 (omega arith)
            (ap (λ k. (two.files k).name) (==→eq 0 j root) ∙ e.called))
      | inr ne'' ↦ absurd (true_ne_false (sym (elsewhere j ne ne' ne'') ∙ e.used))
    ]
  ]
]
  where
    elsewhere :
        (j : ℕ) → (2 == j) ≡ false → (1 == j) ≡ false → (0 == j) ≡ false → two.free_list j ≡ true
    elsewhere j ne ne' ne'' = rw (ne, ne', ne'') refl

delete_hides_last_example :
    IsEntry one_left second_name 0 2
    × (find_file_in_dir one_left (some second_name) (some 0) ≡ none)
delete_hides_last_example =
    delete_hides_last (some first_name) second_name two one_left 1 0 2 two-IsValid two_files
      second-IsEntry only_second finds_first (omega arith) deletes_first
