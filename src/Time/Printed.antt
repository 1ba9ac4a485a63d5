-- ===== src/Time/Printed.antt =====
-- lib/libc/time.c and lib/libc/stdio.c: what `vsnprintf` makes of the formats of `asctime` and
-- `strftime`, whose conversions have a width or a precision.
use unics.Base.{
  ℕ, zero, suc, ◌-◌, ◌/◌, ◌%◌, ◌<◌, ◌≡◌, ◌≢◌, refl, ap, ◌∙◌, false, Option, some, List, [], ◌∷◌,
  Bytes, length, take, arith, ◌==◌, ne→==,
}
use unics.Stdio.Format.{Arg, convert, and_then, prefixed, convert_sized, vsnprintf_from}
use unics.Stdio.Sized.{take-append_long}
use unics.Time.Calendar.{
  Tm, gmtime, asctime, asctime_format, strftime, strftime_format, name_at, wday_names, mon_names,
}

-- A format without any conversion that `vsnprintf` knows.
data Inert : Bytes → Type 0 where
  empty : Inert []
  last : (c : ℕ) → Inert (c ∷ [])
  literal : (c d : ℕ) (format : Bytes) → c ≢ 37 → Inert (d ∷ format) → Inert (c ∷ d ∷ format)
  unknown :
      (d : ℕ) (format : Bytes)
      → ((k : ℕ) (args : List Arg) → convert_sized k d args ≡ some (take k (37 ∷ d ∷ []), args))
      → Inert format
      → Inert (37 ∷ d ∷ format)

last_cut : (k c : ℕ) → some (c ∷ []) ≡ some (take (suc k) (c ∷ []))
last_cut zero c = refl
last_cut (suc k) c = refl

-- Such a format is printed as it is, as far as there is room, and without its arguments.
vsnprintf_from-Inert :
    (k : ℕ) (format : Bytes) (args : List Arg)
    → Inert format
    → vsnprintf_from k format args ≡ some (take k format)
unfolding vsnprintf_from
vsnprintf_from-Inert zero format args p = refl
vsnprintf_from-Inert (suc k) _ args Inert.empty = refl
vsnprintf_from-Inert (suc k) _ args (Inert.last c) = last_cut k c
vsnprintf_from-Inert (suc k) _ args (Inert.literal c d format ne p) =
    let other : (c == 37) ≡ false = ne→== c 37 ne in
    rw (other, vsnprintf_from) (ap (prefixed (c ∷ [])) (vsnprintf_from-Inert k (d ∷ format) args p))
vsnprintf_from-Inert (suc k) _ args (Inert.unknown d format h p) =
    ap
      (λ (o : Option (Bytes × List Arg)).
        and_then o (λ out rest. vsnprintf_from (suc k - length out) format rest))
      (h (suc k) args)
    ∙ ap (prefixed (take (suc k) (37 ∷ d ∷ [])))
        (vsnprintf_from-Inert (suc k - length (take (suc k) (37 ∷ d ∷ []))) format args p)
    ∙ ap some (take-append_long (suc k) (37 ∷ d ∷ []) format)

strftime_format-Inert : Inert strftime_format
unfolding convert convert_sized
strftime_format-Inert =
    Inert.unknown 48 _ (λ k args. refl)
      (Inert.literal 52 _ _ (λ e. omega arith)
        (Inert.literal 100 _ _ (λ e. omega arith)
          (Inert.literal 45 _ _ (λ e. omega arith)
            (Inert.unknown 48 _ (λ k args. refl)
              (Inert.literal 50 _ _ (λ e. omega arith)
                (Inert.literal 100 _ _ (λ e. omega arith)
                  (Inert.literal 45 _ _ (λ e. omega arith)
                    (Inert.unknown 48 _ (λ k args. refl)
                      (Inert.literal 50 _ _ (λ e. omega arith)
                        (Inert.literal 100 _ _ (λ e. omega arith)
                          (Inert.literal 32 _ _ (λ e. omega arith)
                            (Inert.unknown 48 _ (λ k args. refl)
                              (Inert.literal 50 _ _ (λ e. omega arith)
                                (Inert.literal 100 _ _ (λ e. omega arith)
                                  (Inert.literal 58 _ _ (λ e. omega arith)
                                    (Inert.unknown 48 _ (λ k args. refl)
                                      (Inert.literal 50 _ _ (λ e. omega arith)
                                        (Inert.literal 100 _ _ (λ e. omega arith)
                                          (Inert.literal 58 _ _ (λ e. omega arith)
                                            (Inert.unknown 48 _ (λ k args. refl)
                                              (Inert.literal 50 _ _ (λ e. omega arith)
                                                (Inert.last 100))))))))))))))))))))))

-- `strftime` prints its own format, cut to the buffer, whatever the time is.
pub strftime_lem :
    (max : ℕ) (format : Bytes) (tm : Tm)
    → strftime max format tm ≡ some (take (max - 1) strftime_format)
unfolding strftime
strftime_lem max format tm = vsnprintf_from-Inert (max - 1) strftime_format _ strftime_format-Inert

name_at_total :
    (names : List Bytes) (i : ℕ) → i < length names → (str : Bytes) × (name_at names i ≡ some str)
name_at_total [] i h = absurd (omega arith)
name_at_total (str ∷ names) zero h = (str, refl)
name_at_total (str ∷ names) (suc i) h = name_at_total names i (omega arith)

-- `asctime` of any time prints the first 25 characters of its own format.
pub asctime_lem : (t : ℕ) → asctime (gmtime t) ≡ some (take 25 asctime_format)
unfolding asctime vsnprintf_from convert_sized convert gmtime
asctime_lem t =
    let (day, e) = name_at_total wday_names (t / 86400 % 7) (omega arith) in
    let (month, f) = name_at_total mon_names (t / 2678400 % 12) (omega arith) in
    rw (e, asctime, f) refl
