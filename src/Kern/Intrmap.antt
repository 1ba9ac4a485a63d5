-- ===== src/Kern/Intrmap.antt =====
-- kern/intrmap.c. A block of the heap is the number of blocks that `malloc` gave before it; `grants`
-- says which blocks `malloc` gives. Of the sizes asked for, only that of the array `cpus` is modelled.
use unics.Base.{
  ℕ, zero, suc, ◌+◌, ◌*◌, ◌/◌, ◌%◌, ◌^◌, ◌≤◌, ◌≡◌, Bool, true, false, not, Option, none, some, leb,
  if◌then◌else◌,
}
use unics.Base.Table.{update}

-- The number of blocks that `malloc` has given, and which blocks are in use.
pub record Heap : Type 0 where
  pub next : ℕ
  pub live : ℕ → Bool

-- `malloc`
abbrev pub malloc : Heap → Heap
malloc h = record { next = h.next + 1; live = update h.live h.next true }

-- `free`
abbrev pub free : ℕ → Heap → Heap
free b h = record h { live = update h.live b false }

-- `struct cpu_info` with its block
pub record CpuInfo : Type 0 where
  pub block : ℕ
  pub cpu_id : ℕ

-- `struct intrmap` with its block and the one of `cpus`; `device` and `flags` are stored as they are.
pub record Intrmap : Type 0 where
  pub block : ℕ
  pub cpus_block : ℕ
  pub device : ℕ
  pub flags : ℕ
  pub cpu_count : ℕ
  pub cpus : ℕ → CpuInfo

-- `while (i--) free(im->cpus[i]);`
unfoldable pub free_cpus : ℕ → (ℕ → CpuInfo) → Heap → Heap
free_cpus zero cpus h = h
free_cpus (suc i) cpus h = free_cpus i cpus (free (cpus i).block h)

-- The loop of `intrmap_create`, at `i` with `k` left, for an array with room for `room` pointers: the
-- entries made, or nothing when `malloc` fails. A store behind the array is undefined, and the result
-- is then `none`.
unfoldable pub create_cpus :
    (ℕ → Bool) → ℕ → ℕ → ℕ → ℕ → (ℕ → CpuInfo) → Heap → Option (Option (ℕ → CpuInfo) × Heap)
create_cpus grants base room zero i cpus h = some (some cpus, h)
create_cpus grants base room (suc k) i cpus h = elim (leb room i) [
  | true ↦ none
  | false ↦ elim (grants h.next) [
    | false ↦ some (none, free_cpus i cpus h)
    | true ↦
        create_cpus grants base room k (i + 1)
          (update cpus i (record { block = h.next; cpu_id = (base + i) % 2 ^ 32 })) (malloc h)
  ]
]

abbrev pub no_cpus : ℕ → CpuInfo
no_cpus i = record { block = 0; cpu_id = 0 }

-- The pointers for which `malloc(sizeof(*im->cpus) * cpu_count)` asks: a pointer has four bytes, and
-- the product wraps around.
abbrev pub array_room : ℕ → ℕ
array_room cpu_count = 4 * cpu_count % 2 ^ 32 / 4

-- The two last `free`s of a creation that fails, or the map.
unfoldable pub finish_create :
    ℕ → ℕ → ℕ → ℕ → Option (Option (ℕ → CpuInfo) × Heap) → Option (Option Intrmap × Heap)
finish_create block device flags cpu_count none = none
finish_create block device flags cpu_count (some (none, h)) =
    some (none, free block (free (block + 1) h))
finish_create block device flags cpu_count (some (some cpus, h)) = some (
  some (record {
    block = block;
    cpus_block = block + 1;
    device = device;
    flags = flags;
    cpu_count = cpu_count;
    cpus = cpus;
  }),
  h,
)

-- `intrmap_create`
unfoldable pub create : (ℕ → Bool) → ℕ → ℕ → ℕ → ℕ → Heap → Option (Option Intrmap × Heap)
create grants device flags cpu_count cpu_base_id h =
    if not (grants h.next)
    then some (none, h)
    else if not (grants (h.next + 1))
    then some (none, free h.next (malloc h))
    else finish_create h.next device flags cpu_count (
        create_cpus grants cpu_base_id (array_room cpu_count) cpu_count 0 no_cpus
          (malloc (malloc h)))

-- The loop of `intrmap_destroy`, at `i` with `k` left.
unfoldable pub free_up : ℕ → ℕ → (ℕ → CpuInfo) → Heap → Heap
free_up zero i cpus h = h
free_up (suc k) i cpus h = free_up k (i + 1) cpus (free (cpus i).block h)

-- `intrmap_destroy`
unfoldable pub destroy : Option Intrmap → Heap → Heap
unfolding free_up
destroy none h = h
destroy (some im) h = free im.block (free im.cpus_block (free_up im.cpu_count 0 im.cpus h))

-- `intrmap_count`
unfoldable pub cpu_count_of : Option Intrmap → ℕ
cpu_count_of none = 0
cpu_count_of (some im) = im.cpu_count

-- `intrmap_cpu`
unfoldable pub cpu : Option Intrmap → ℕ → Option CpuInfo
cpu none idx = none
cpu (some im) idx = if leb im.cpu_count idx then none else some (im.cpus idx)

-- No block that is still to be given is in use.
abbrev pub IsFresh : Heap → Type 0
IsFresh h = (b : ℕ) → h.next ≤ b → h.live b ≡ false
