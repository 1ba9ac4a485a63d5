-- ===== src/Fs/RoundTrip.antt =====
-- What `fs_write` stores is what `fs_read` gives back.
use unics.Base.{
  ℕ, ◌+◌, ◌%◌, ◌^◌, ◌≤◌, ◌<◌, ◌≡◌, refl, ◌∙◌, true, false, Option, some, Bytes, arith, length,
  ==_self,
}
use unics.Fs.State.{success, FileSystem, File, Machine, IsAllocator, max_file_size, set_file}
use unics.Fs.Lookup.{find_file, with_file, has_perm}
use unics.Fs.Access.{
  read, read_entry, write, seek, written, copy_and_store, copy_out, bytes_to_read,
}
use unics.Fs.Find.{find_file-Found}
use unics.Fs.Valid.{IsValid}
use unics.Fs.Files.{SamePlace}
use unics.Fs.Io.{Found-FileOk}
use unics.Fs.Writing.{
  IsPlentiful, find_file-set_file, copy_in_fits, Target, target, Ready, write-eq-write_entry,
}

-- A seek inside the size, and a read of bytes that are there, on the file `f` of the name.
seek_at :
    (fs : FileSystem) (name : Option Bytes) (i offset : ℕ) (f : File)
    → find_file fs name ≡ some i
    → fs.files i ≡ f
    → f.is_open ≡ true
    → offset ≤ f.size
    → seek name offset fs ≡ (success, set_file fs i (record f { position = offset }))
unfolding seek
seek_at fs name i offset f found at_i opened inside = rw (found, with_file, at_i) (ground arith)

-- The state after the read of `n` bytes.
abbrev moved_on : FileSystem → ℕ → File → ℕ → FileSystem
moved_on fs i f n = set_file fs i (record f { position = (f.position + n) % 2 ^ 32 })

read_at :
    (fs : FileSystem) (name : Option Bytes) (i n : ℕ) (bytes : Bytes) (f : File)
    → find_file fs name ≡ some i
    → fs.files i ≡ f
    → f.is_open ≡ true
    → f.is_dir ≡ false
    → has_perm f 1 ≡ true
    → 0 < n
    → f.position + n ≤ f.size
    → copy_out f.buf f.position n ≡ some bytes
    → read name n fs ≡ some (bytes, moved_on fs i f n)
unfolding read read_entry
read_at fs name i n bytes f found at_i opened file allowed pos inside copied =
    rw (found, with_file, at_i) (ground (arith, all_of_it))
  where
    all_of_it : bytes_to_read f n ≡ n
    all_of_it = ground arith

-- What the write leaves in the table, and the seek after it.
module _ (m : Machine) (fs : FileSystem) (name : Option Bytes) (i : ℕ) (src b : Bytes)
    (g : File) where
  abbrev after : File
  after = written m g (length src) b

  abbrev rewound : FileSystem
  rewound = set_file (set_file fs i after) i (record after { position = (fs.files i).position })

  module _ (r : Ready fs name 2 i) (t : Target m fs i src g)
      (fits : g.position + length src ≤ max_file_size) where
    after-SamePlace : SamePlace (fs.files i) after
    after-SamePlace = record {
      name = t.place.name;
      parent = t.place.parent;
      is_dir = t.place.is_dir;
    }

    long_enough : (fs.files i).position + length src ≤ after.size
    long_enough = ground (arith, t.long fits, t.position)

    found_after : find_file (set_file fs i after) name ≡ some i
    found_after = find_file-set_file fs i after name after-SamePlace ∙ r.found

    seek_back : seek name (fs.files i).position (set_file fs i after) ≡ (success, rewound)
    seek_back =
        seek_at (set_file fs i after) name i (fs.files i).position after found_after
          (rw (==_self i)) (t.opened ∙ r.opened) (omega (arith, long_enough))

    read_back :
        has_perm (fs.files i) 1 ≡ true
        → 0 < length src
        → copy_out (some b) (fs.files i).position (length src) ≡ some src
        → (fs' : FileSystem) × (read name (length src) rewound ≡ some (src, fs'))
    read_back readable pos copied = (
      _,
      read_at rewound name i (length src) src (record after { position = (fs.files i).position })
          (find_file-set_file (set_file fs i after) i _ name
              (rw (==_self i) (record { name = refl; parent = refl; is_dir = refl }))
            ∙ found_after)
          (rw (==_self i)) (t.opened ∙ r.opened) (t.place.is_dir ∙ r.file)
          (rw t.permissions readable) pos long_enough copied,
    )

-- Take a file that is open and may be read and written, and bytes that fit below MAX_FILE_SIZE at
-- its position, with memory to spare. `fs_write` writes all of them, `fs_seek` back to the old
-- position succeeds, and `fs_read` of as many bytes gives exactly the bytes written.
pub read-write :
    (m : Machine) (fs : FileSystem) (name : Option Bytes) (i : ℕ) (src : Bytes)
    → IsAllocator m
    → IsPlentiful m
    → IsValid fs
    → Ready fs name 2 i
    → has_perm (fs.files i) 1 ≡ true
    → 0 < length src
    → (fs.files i).position + length src ≤ max_file_size
    → (written_fs sought fs' : FileSystem) × (write m name src fs ≡ some (length src, written_fs))
      × (seek name (fs.files i).position written_fs ≡ (success, sought))
      × (read name (length src) sought ≡ some (src, fs'))
read-write m fs name i src alloc plenty v r readable pos fits =
    let ok = Found-FileOk fs i v (find_file-Found fs name i r.found) r.file in
    let (g, t) = target m fs i src alloc plenty ok r.file (omega arith) in
    let fits' : g.position + length src ≤ max_file_size = omega (arith, t.position) in
    let (b, stored, copied) =
      copy_in_fits g.buf g.allocated_size g.position src t.ok.block
        (omega (arith, t.long fits', t.ok.within)) in
    let (fs', e) = read_back m fs name i src b g r t fits' readable pos (rw t.position at copied) in
    (
      set_file fs i (written m g (length src) b),
      rewound m fs name i src b g,
      fs',
      write-eq-write_entry m fs name i src r pos ∙ t.copies ∙ rw (stored, copy_and_store),
      seek_back m fs name i src b g r t fits',
      e,
    )
