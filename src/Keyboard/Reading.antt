-- ===== src/Keyboard/Reading.antt =====
-- dev/keyboard/keyboard.c: `kb_getchar` returns once a key with a character is pressed.
use unics.Base.{
  ℕ, zero, suc, ◌+◌, ◌<◌, ◌≤◌, ◌≡◌, ◌≢◌, refl, sym, ap, ◌∙◌, subst, Bool, true, false, not, ◌||◌,
  some, [], ◌∷◌, ◌++◌, Bytes, length, arith, leb, ◌==◌, ne→==, if◌then◌else◌, if_ind, bit_and,
}
use unics.Keyboard.State.{base_table, shift_table, at_code, Flags, Kb}
use unics.Keyboard.Driver.{
  inb, after_read, handle_key_release, handle_key_press, wait_output, is_extended, is_release,
  take_code, scancode_to_ascii, read_codes, getchar,
}

-- From read number `r` on, the hardware sends these codes; the status port announces each of them, after
-- `n` polls in all that find it not ready.
pub data Sends (input : ℕ → ℕ) : ℕ → Bytes → ℕ → Type 0 where
  nothing : (r : ℕ) → Sends input r [] 0
  not_ready :
      (r n : ℕ) (codes : Bytes)
      → bit_and (input r) 1 ≡ 0
      → Sends input (r + 1) codes n
      → Sends input r codes (suc n)
  sends :
      (r n code : ℕ) (codes : Bytes)
      → bit_and (input r) 1 ≡ 1
      → input (r + 1) ≡ code
      → Sends input (r + 2) codes n
      → Sends input r (code ∷ codes) n

-- Codes that give no character: the mark of an extended code, and releases.
pub data Quiet : Bytes → Type 0 where
  done : Quiet []
  more :
      (code : ℕ) (codes : Bytes)
      → (is_extended code || is_release code) ≡ true
      → Quiet codes
      → Quiet (code ∷ codes)

-- A key with a character in both tables.
pub record Printable (code : ℕ) : Type 0 where
  pub below : code < 256
  pub not_extended : is_extended code ≡ false
  pub pressed : is_release code ≡ false
  pub base : at_code base_table code ≢ 0
  pub shifted : at_code shift_table code ≢ 0

scancode_to_ascii_ne : (f : Flags) (code : ℕ) → Printable code → scancode_to_ascii f code ≢ 0
unfolding scancode_to_ascii
scancode_to_ascii_ne f code p =
    let small : leb 256 code ≡ false = ground (arith, p.below) in
    rw small (if_ind (λ (c : ℕ). c ≢ 0) _ (λ h. p.shifted) (λ h. p.base))

-- A quiet code gives no character and does not touch the ports.
quiet_lem :
    (code : ℕ) (s : Kb)
    → (is_extended code || is_release code) ≡ true
    → ((take_code code s).0 ≡ 0)
      × ((take_code code s).1.input ≡ s.input)
      × ((take_code code s).1.reads ≡ s.reads)
unfolding take_code handle_key_release
quiet_lem code s q =
    if_ind P (is_extended code) (λ mark. (refl, refl, refl))
      (λ mark.
        if_ind P (is_release code)
          (λ up.
            if_ind (λ (t : Kb). P (0, t)) (not s.flags.boot_complete) (λ h. (refl, refl, refl))
              (λ h. (refl, refl, refl)))
          (λ up. absurd (cc)))
  where
    P : ℕ × Kb → Type 0
    P r = (r.0 ≡ 0) × (r.1.input ≡ s.input) × (r.1.reads ≡ s.reads)

-- The code of a key with a character gives one.
key_lem : (code : ℕ) (s : Kb) → Printable code → (take_code code s).0 ≢ 0
unfolding take_code
key_lem code s p =
    rw (p.not_extended, p.pressed) (scancode_to_ascii_ne (handle_key_press code s).flags code p)

wait_output-ready :
    (fuel : ℕ) (s : Kb) → bit_and (inb s) 1 ≡ 1 → wait_output (suc fuel) s ≡ some (after_read s)
unfolding wait_output
wait_output-ready fuel s e =
    ap (λ (n : ℕ). if n == 0 then wait_output fuel (after_read s) else some (after_read s)) e

wait_output-not_ready :
    (fuel : ℕ) (s : Kb)
    → bit_and (inb s) 1 ≡ 0
    → wait_output (suc fuel) s ≡ wait_output fuel (after_read s)
unfolding wait_output
wait_output-not_ready fuel s e =
    ap (λ (n : ℕ). if n == 0 then wait_output fuel (after_read s) else some (after_read s)) e

-- What a wait leaves when a code is on its way: it ends in front of the read of the code.
record Waited (s : Kb) (code : ℕ) (codes : Bytes) (n fuel : ℕ) : Type 0 where
  reads : ℕ
  polls : ℕ
  run : wait_output fuel s ≡ some (record s { reads = reads })
  gives : s.input reads ≡ code
  later : Sends s.input (reads + 1) codes polls
  fewer : polls ≤ n

-- The wait passes over the polls that find the port not ready.
wait_output-Waited :
    (fuel n code : ℕ) (codes : Bytes) (s : Kb)
    → Sends s.input s.reads (code ∷ codes) n
    → n < fuel
    → Waited s code codes n fuel
wait_output-Waited zero n code codes s send h = absurd (omega arith)
wait_output-Waited (suc fuel) n code codes s (Sends.sends r _ _ _ ready e rest) h =
    let at : s.reads + 2 ≡ s.reads + 1 + 1 = omega arith in
    record {
      reads = s.reads + 1;
      polls = n;
      run = wait_output-ready fuel s ready;
      gives = e;
      later = subst (λ m. Sends s.input m codes n) at rest;
      fewer = omega arith;
    }
wait_output-Waited (suc fuel) _ code codes s (Sends.not_ready r n _ busy rest) h =
    let w = wait_output-Waited fuel n code codes (after_read s) rest (omega arith) in
    record {
      reads = w.reads;
      polls = w.polls;
      run = wait_output-not_ready fuel s busy ∙ w.run;
      gives = w.gives;
      later = w.later;
      fewer = omega (arith, w.fewer);
    }

-- A round of the loop, once the wait has ended.
read_codes-waited :
    (fuel r : ℕ) (s : Kb)
    → wait_output (suc fuel) s ≡ some (record s { reads = r })
    → read_codes (suc fuel) s ≡ (
        let q = take_code (s.input r) (record s { reads = r + 1 }) in
        if q.0 == 0 then read_codes fuel q.1 else some q)
unfolding read_codes
read_codes-waited fuel r s e = rw (e, read_codes) refl

read_codes-key :
    (codes : Bytes) (key n fuel : ℕ) (s : Kb)
    → Quiet codes
    → Printable key
    → Sends s.input s.reads (codes ++ (key ∷ [])) n
    → length codes + n < fuel
    → (c : ℕ) × (t : Kb) × (read_codes fuel s ≡ some (c, t)) × (c ≢ 0)
read_codes-key codes key n zero s q p send h = absurd (omega arith)
read_codes-key [] key n (suc fuel) s q p send h =
    let w = wait_output-Waited (suc fuel) n key [] s send (omega arith) in
    let u = record s { reads = w.reads + 1 } in
    let nonzero = key_lem key u p in
    let test : ((take_code key u).0 == 0) ≡ false = ne→== _ 0 nonzero in
    (
      (take_code key u).0,
      (take_code key u).1,
      read_codes-waited fuel w.reads s w.run ∙ rw (w.gives, test) refl,
      nonzero,
    )
read_codes-key (code ∷ codes) key n (suc fuel) s (Quiet.more _ _ quiet q) p send h =
    let w = wait_output-Waited (suc fuel) n code (codes ++ (key ∷ [])) s send (omega arith) in
    let u = record s { reads = w.reads + 1 } in
    let (none_yet, input, reads) = quiet_lem code u quiet in
    let t = (take_code code u).1 in
    let moved : Sends t.input t.reads (codes ++ (key ∷ [])) w.polls =
      subst (λ f. Sends f t.reads (codes ++ (key ∷ [])) w.polls) (sym input)
        (subst (λ m. Sends s.input m (codes ++ (key ∷ [])) w.polls) (sym reads) w.later) in
    let (c, v, run, nonzero) =
      read_codes-key codes key w.polls fuel t q p moved (omega (arith, w.fewer)) in
    (c, v, read_codes-waited fuel w.reads s w.run ∙ rw (w.gives, none_yet) run, nonzero)

-- With input enabled, `kb_getchar` returns a character once a key that has one is pressed, however many
-- releases and marks of extended codes come before it, and however often the driver polls the status
-- port before it announces a code, with fuel for the codes and the polls.
pub getchar-returns :
    (codes : Bytes) (key n fuel : ℕ) (s : Kb)
    → s.flags.input_enabled ≡ true
    → Quiet codes
    → Printable key
    → Sends s.input s.reads (codes ++ (key ∷ [])) n
    → length codes + n < fuel
    → (c : ℕ) × (t : Kb) × (getchar fuel s ≡ some (c, t)) × (c ≢ 0)
unfolding getchar
getchar-returns codes key n fuel s on q p send h =
    let (c, t, run, nonzero) = read_codes-key codes key n fuel s q p send h in
    (c, t, ap (λ (b : Bool). if not b then some (0, s) else read_codes fuel s) on ∙ run, nonzero)
