-- ===== src/Time/Laws.antt =====
-- lib/libc/time.c: the calendar there and back, and the steps of the clock.
use unics.Base.{ℕ, ◌+◌, ◌*◌, ◌^◌, ◌<◌, ◌≡◌, refl, true, some, arith}
use unics.Time.Calendar.{gmtime, mktime}
use unics.Time.Clock.{Timespec, Clock, clock_gettime}

-- `mktime` of what `gmtime` gives is one day late, for every time that `mktime` can give.
pub mktime-gmtime : (t : ℕ) → t + 86400 < 2 ^ 31 → mktime (gmtime t) ≡ t + 86400
unfolding mktime gmtime
mktime-gmtime t h = omega arith

-- The clock in nanoseconds.
abbrev pub nanoseconds : Timespec → ℕ
nanoseconds t = t.tv_sec * 1000000000 + t.tv_nsec

-- Until the counter wraps around, two calls of `clock_gettime` in a row give times that are 100
-- milliseconds apart.
pub clock_gettime-clock_gettime :
    (c : Clock)
    → c.counter + 1 < 2 ^ 32
    → (a b : Timespec) × ((clock_gettime true c).0.1 ≡ some a)
      × ((clock_gettime true (clock_gettime true c).1).0.1 ≡ some b)
      × (nanoseconds b ≡ nanoseconds a + 100000000)
unfolding clock_gettime
clock_gettime-clock_gettime c h = (_, _, refl, refl, omega arith)
