-- ===== src/Kern/Pclock.antt =====
-- kern/pclock.c: the lock of several producers. A world is the generation and, for each thread, how
-- far it is; one step is one access of `pcl_gen`, so that a list of threads is an interleaving.
use unics.Base.{
  Option, none, some, ℕ, ◌+◌, ◌%◌, ◌^◌, ◌≡◌, ◌≢◌, inl, inr, refl, sym, Bool, true, false, zero, suc,
  ◌⊎◌, not, ◌&&◌, List, [], ◌∷◌, ◌==◌, if◌then◌else◌, ne→==, ==_self,
}
use unics.Base.Table.{update, update_self}

-- Where a producer is: outside, in the loop of `pc_mprod_enter` with the generation it has read, or
-- between `pc_mprod_enter` and `pc_mprod_leave` with the generation it holds.
pub data Phase : Type 0 where
  outside : Phase
  seen : ℕ → Phase
  inside : ℕ → Phase

-- `struct pc_lock` and the producers.
pub record World : Type 0 where
  pub gen : ℕ
  pub phase : ℕ → Phase

abbrev pub next_gen : ℕ → ℕ
next_gen g = (g + 1) % 2 ^ 32

-- `pc_lock_init`, with no producer inside
abbrev pub init : World
init = record { gen = 0; phase = λ i. outside }

-- usr/include/machine/atomic.h: `atomic_cas_uint` on a word that holds `m`: the value that it returns, which is the old one, and the
-- value that the word holds then.
abbrev pub atomic_cas_uint : ℕ → ℕ → ℕ → ℕ × ℕ
atomic_cas_uint m e n = (m, if m == e then n else m)

-- The compare-and-swap of `pc_mprod_enter` by thread `i`, which has read `g`. The result of
-- `atomic_cas_uint` is tested for not being 0; otherwise the loop begins again.
unfoldable pub try_enter : ℕ → ℕ → World → World
try_enter i g w =
    let (result, gen) = atomic_cas_uint w.gen g (next_gen g) in
    if not (g % 2 == 0)
    then record w { phase = update w.phase i outside }
    else if not (result == 0)
    then record { gen = gen; phase = update w.phase i (inside (next_gen g)) }
    else record { gen = gen; phase = update w.phase i outside }

-- The next access of thread `i`: the read in `pc_mprod_enter`, its compare-and-swap, or the write of
-- `pc_mprod_leave`.
unfoldable pub access : ℕ → Phase → World → World
access i outside w = record w { phase = update w.phase i (seen w.gen) }
access i (seen g) w = try_enter i g w
access i (inside g) w = record { gen = next_gen g; phase = update w.phase i outside }

-- A sequence of accesses, by the threads that do them.
unfoldable pub run : List ℕ → World → World
run [] w = w
run (i ∷ is) w = run is (access i (w.phase i) w)

-- `pc_sprod_enter` and `pc_sprod_leave`, for a lock with one producer.
unfoldable pub sprod_enter : World → ℕ
sprod_enter w = w.gen

unfoldable pub sprod_leave : ℕ → World → World
sprod_leave g w = record w { gen = next_gen g }

-- One round of `pc_cons_enter`, which reads the generation in two worlds: the generation that it
-- hands out, or `none` for another round.
unfoldable pub cons_enter : World → World → Option ℕ
cons_enter before now =
    if not (before.gen % 2 == 0)
    then none
    else if (before.gen == now.gen) && (now.gen % 2 == 0)
    then some now.gen
    else none

-- `pc_cons_leave`: whether the consumer has to read again, and its new `*pgen`.
unfoldable pub cons_leave : World → ℕ → Bool × ℕ
cons_leave w pgen = if not (w.gen == pgen) then (true, w.gen) else (false, pgen)

-- Thread `i` is not inside, and what it has read is the generation, which is 0 or 1.
data Stuck (i : ℕ) (w : World) : Type 0 where
  begins : (w.gen ≡ 0) ⊎ (w.gen ≡ 1) → w.phase i ≡ outside → Stuck i w
  has_read : (w.gen ≡ 0) ⊎ (w.gen ≡ 1) → w.phase i ≡ seen w.gen → Stuck i w

try_enter-Stuck : (i : ℕ) (w : World) → (w.gen ≡ 0) ⊎ (w.gen ≡ 1) → Stuck i (try_enter i w.gen w)
unfolding try_enter
try_enter-Stuck i w (inl e) = rw e (begins (inr refl) (update_self w.phase i outside))
try_enter-Stuck i w (inr e) = rw e (begins (inr refl) (update_self w.phase i outside))

access-Stuck : (i : ℕ) (w : World) → Stuck i w → Stuck i (access i (w.phase i) w)
unfolding access
access-Stuck i w (begins g e) = rw e (has_read g (update_self w.phase i (seen w.gen)))
access-Stuck i w (has_read g e) = rw e (try_enter-Stuck i w g)

-- The accesses of one thread.
abbrev pub alone : ℕ → ℕ → List ℕ
alone zero i = []
alone (suc n) i = i ∷ alone n i

run-Stuck : (n i : ℕ) (w : World) → Stuck i w → Stuck i (run (alone n i) w)
unfolding run
run-Stuck zero i w h = h
run-Stuck (suc n) i w h = run-Stuck n i (access i (w.phase i) w) (access-Stuck i w h)

Stuck-outside : (i g : ℕ) (w : World) → Stuck i w → w.phase i ≢ inside g
Stuck-outside i g w (begins h e) f = cc
Stuck-outside i g w (has_read h e) f = cc

-- A producer that is alone never leaves the loop of `pc_mprod_enter` on a lock that `pc_lock_init` has
-- set up, however many accesses it makes.
pub lone_never_enters : (n i g : ℕ) → (run (alone n i) init).phase i ≢ inside g
lone_never_enters n i g =
    Stuck-outside i g (run (alone n i) init) (run-Stuck n i init (begins (inl refl) refl))

-- Three producers read the generation one after the other, then do their compare-and-swaps.
abbrev pub racing : ℕ → ℕ → ℕ → List ℕ
racing i j k = i ∷ j ∷ k ∷ i ∷ j ∷ k ∷ []

-- Then the second of them leaves.
abbrev pub leaving : ℕ → ℕ → ℕ → List ℕ
leaving i j k = i ∷ j ∷ k ∷ i ∷ j ∷ k ∷ j ∷ []

-- From a lock that `pc_lock_init` has set up, when three different producers read the generation one
-- after the other and then do their compare-and-swaps, the second and the third are both inside; after
-- the second one has left, `pc_cons_enter` lets a consumer in, with the third producer still inside.
pub losers_enter :
    (i j k : ℕ)
    → i ≢ j
    → i ≢ k
    → j ≢ k
    → ((run (racing i j k) init).phase j ≡ inside 1)
      × ((run (racing i j k) init).phase k ≡ inside 1)
      × (cons_enter (run (leaving i j k) init) (run (leaving i j k) init) ≡ some 2)
      × ((run (leaving i j k) init).phase k ≡ inside 1)
unfolding run access try_enter cons_enter
losers_enter i j k ij ik jk =
    let e = ne→== i j ij in
    let f = ne→== i k ik in
    let g = ne→== j k jk in
    let h : (j == i) ≡ false = ne→== j i (λ q. ij (sym q)) in
    let l : (k == i) ≡ false = ne→== k i (λ q. ik (sym q)) in
    let m : (k == j) ≡ false = ne→== k j (λ q. jk (sym q)) in
    simp (e, f, g, h, l, m, ==_self i, ==_self j, ==_self k) (refl, refl, refl, refl)
