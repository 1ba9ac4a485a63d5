-- ===== src/Fs/Access.antt =====
-- usr/drivers/fs.c: opening, reading, writing and seeking. A read or write outside the block of a
-- file is undefined in C: the result is then `none`.
use unics.Base.{
  ℕ, ◌+◌, ◌-◌, ◌*◌, ◌/◌, ◌%◌, ◌^◌, true, false, not, ◌||◌, Option, none, some, [], Bytes, length,
  take, drop, overlay, ltb, leb, ◌==◌, if◌then◌else◌,
}
use unics.Fs.State.{
  Status, success, not_found, no_memory, file_open, not_open, invalid_path, seek_bounds, is_success,
  max_file_size, block_size, File, FileSystem, Machine, realloc, set_file,
}
use unics.Fs.Lookup.{with_file, has_perm}

abbrev pub open_entry : ℕ → FileSystem → Status × FileSystem
open_entry i fs =
    let f = fs.files i in
    if f.is_dir
    then (invalid_path, fs)
    else if f.is_open
    then (file_open, fs)
    else (success, set_file fs i (record f { is_open = true; position = 0 }))

-- `fs_open`
unfoldable pub open_file : Option Bytes → FileSystem → Status × FileSystem
open_file name fs = with_file fs name (not_found, fs) (λ i. open_entry i fs)

abbrev pub close_entry : ℕ → FileSystem → Status × FileSystem
close_entry i fs =
    let f = fs.files i in
    if not f.is_open
    then (not_open, fs)
    else (success, set_file fs i (record f { is_open = false }))

-- `fs_close`
unfoldable pub close : Option Bytes → FileSystem → Status × FileSystem
close name fs = with_file fs name (not_found, fs) (λ i. close_entry i fs)

-- `memcpy` of `n` bytes out of a block at `off`.
abbrev pub copy_out : Option Bytes → ℕ → ℕ → Option Bytes
copy_out none off n = none
copy_out (some b) off n = if leb (off + n) (length b) then some (take n (drop off b)) else none

-- `memcpy` of bytes into a block at `off`.
abbrev pub copy_in : Option Bytes → ℕ → Bytes → Option Bytes
copy_in none off src = none
copy_in (some b) off src =
    if leb (off + length src) (length b) then some (overlay b off src) else none

abbrev pub bytes_to_read : File → ℕ → ℕ
bytes_to_read f size =
    let available = if ltb f.position f.size then f.size - f.position else 0 in
    if ltb size available then size else available

unfoldable pub read_entry : ℕ → ℕ → FileSystem → Option (Bytes × FileSystem)
read_entry i size fs =
    let f = fs.files i in
    let n = bytes_to_read f size in
    if ltb 0 n
    then elim (copy_out f.buf f.position n) [
      | none ↦ none
      | some bytes ↦ some (bytes, set_file fs i (record f { position = (f.position + n) % 2 ^ 32 }))
    ]
    else some ([], fs)

-- `fs_read` into a buffer that is not NULL; the bytes copied are those whose number it returns.
unfoldable pub read : Option Bytes → ℕ → FileSystem → Option (Bytes × FileSystem)
unfolding read_entry
read name size fs =
    if size == 0
    then some ([], fs)
    else with_file fs name (some ([], fs)) (λ i.
      if not (fs.files i).is_open || ((fs.files i).is_dir || not (has_perm (fs.files i) 1))
      then some ([], fs)
      else read_entry i size fs)

abbrev pub clamp_size : ℕ → ℕ
clamp_size n = if ltb max_file_size n then max_file_size else n

abbrev pub round_up_block : ℕ → ℕ
round_up_block n = (n + block_size - 1) / block_size * block_size

-- The branch of `fs_resize_file` that needs more room, `p` being what `realloc` returned.
abbrev pub grow : Machine → File → ℕ → Option Bytes → Status × File
grow m f n none = (no_memory, f)
grow m f n (some b) = (
  success,
  record f { buf = some b; allocated_size = round_up_block n; size = n; modified_time = m.now },
)

-- `fs_resize_file`, on the entry alone.
unfoldable pub resize_file : Machine → File → ℕ → Status × File
resize_file m f new_size =
    let n = clamp_size new_size in
    if f.is_dir
    then (invalid_path, f)
    else if ltb f.allocated_size n
    then grow m f n (realloc m f.buf (round_up_block n))
    else (success, record f { size = n; modified_time = m.now })

-- The file at the end of `fs_write`: its block after the copy, the new position, a size that
-- reaches it.
abbrev pub written : Machine → File → ℕ → Bytes → File
written m f n b =
    let pos = (f.position + n) % 2 ^ 32 in
    record f {
      buf = some b;
      position = pos;
      size = if ltb f.size pos then pos else f.size;
      modified_time = m.now;
    }

-- From `memcpy` on, `p` being the block after the copy.
abbrev pub store : Machine → ℕ → File → ℕ → Option Bytes → FileSystem → Option (ℕ × FileSystem)
store m i f n none fs = none
store m i f n (some b) fs = some (n, set_file fs i (written m f n b))

abbrev pub copy_and_store : Machine → ℕ → File → Bytes → FileSystem → Option (ℕ × FileSystem)
copy_and_store m i f src fs = store m i f (length src) (copy_in f.buf f.position src) fs

abbrev pub room : File → ℕ
room f = if ltb f.position f.allocated_size then f.allocated_size - f.position else 0

unfoldable pub write_entry : Machine → ℕ → Bytes → FileSystem → Option (ℕ × FileSystem)
write_entry m i src fs =
    let f = fs.files i in
    let required = (f.position + length src) % 2 ^ 32 in
    let r = resize_file m f required in
    if ltb f.size required
    then if is_success r.0
      then copy_and_store m i r.1 src fs
      else if room r.1 == 0
      then some (0, fs)
      else copy_and_store m i r.1
          (take (if ltb (length src) (room r.1) then length src else room r.1) src) fs
    else copy_and_store m i f src fs

-- `fs_write` from a buffer that is not NULL.
unfoldable pub write : Machine → Option Bytes → Bytes → FileSystem → Option (ℕ × FileSystem)
unfolding write_entry
write m name src fs =
    if length src == 0
    then some (0, fs)
    else with_file fs name (some (0, fs)) (λ i.
      if not (fs.files i).is_open || ((fs.files i).is_dir || not (has_perm (fs.files i) 2))
      then some (0, fs)
      else write_entry m i src fs)

abbrev pub seek_entry : ℕ → ℕ → FileSystem → Status × FileSystem
seek_entry i offset fs =
    let f = fs.files i in
    if not f.is_open
    then (not_open, fs)
    else if ltb f.size offset
    then (seek_bounds, fs)
    else (success, set_file fs i (record f { position = offset }))

-- `fs_seek`
unfoldable pub seek : Option Bytes → ℕ → FileSystem → Status × FileSystem
seek name offset fs = with_file fs name (not_found, fs) (λ i. seek_entry i offset fs)

-- `fs_tell`
unfoldable pub tell : Option Bytes → FileSystem → ℕ
tell name fs =
    with_file fs name 0 (λ i. if not (fs.files i).is_open then 0 else (fs.files i).position)
