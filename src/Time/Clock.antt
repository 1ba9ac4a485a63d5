-- ===== src/Time/Clock.antt =====
-- lib/libc/time.c: the clocks, which advance by being read.
use unics.Base.{ℕ, ◌+◌, ◌*◌, ◌/◌, ◌%◌, ◌^◌, Bool, true, false, Option, none, some}
use unics.Base.Int.{ℤ, pos, negsuc}

-- `struct timespec`
pub record Timespec : Type 0 where
  pub tv_sec : ℕ
  pub tv_nsec : ℕ

-- The static variables of `time` and of `clock_gettime`.
pub record Clock : Type 0 where
  pub current_time : ℕ
  pub counter : ℕ

-- `time`: the value, which is also stored through a pointer that is given.
unfoldable pub time : Clock → ℕ × Clock
time c = (c.current_time + 1, record c { current_time = c.current_time + 1 })

-- `clock_gettime`, with or without a place for the result.
unfoldable pub clock_gettime : Bool → Clock → (ℤ × Option Timespec) × Clock
clock_gettime false c = ((negsuc 0, none), c)
clock_gettime true c = (
  (pos 0, some (record { tv_sec = c.counter / 10; tv_nsec = c.counter % 10 * 100000000 })),
  record c { counter = (c.counter + 1) % 2 ^ 32 },
)

-- `clock_settime`
abbrev pub clock_settime : Timespec → ℤ
clock_settime t = negsuc 0

-- `clock_getres`
abbrev pub clock_getres : Bool → ℤ × Option Timespec
clock_getres false = (negsuc 0, none)
clock_getres true = (pos 0, some (record { tv_sec = 0; tv_nsec = 1000000 }))

-- The delay of `nanosleep` in milliseconds, in a word of 32 bits.
abbrev pub sleep_ms : Timespec → ℕ
sleep_ms req = (req.tv_sec * 1000 % 2 ^ 32 + req.tv_nsec / 1000000 % 2 ^ 32) % 2 ^ 32

-- `nanosleep`: the result, the delay, and what is stored through a pointer that is given.
abbrev pub nanosleep : Timespec → Bool → ℤ × (ℕ × Option Timespec)
nanosleep req false = (pos 0, (sleep_ms req, none))
nanosleep req true = (pos 0, (sleep_ms req, some (record { tv_sec = 0; tv_nsec = 0 })))
