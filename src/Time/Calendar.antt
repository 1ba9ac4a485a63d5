-- ===== src/Time/Calendar.antt =====
-- lib/libc/time.c: `gmtime`, `mktime`, `asctime` and `strftime`. Times are not negative. Sums and
-- products that leave the range of an `int` are undefined in C; here they go on without a bound.
use unics.Base.{ℕ, zero, suc, ◌+◌, ◌-◌, ◌*◌, ◌/◌, ◌%◌, Option, none, some, List, [], ◌∷◌, Bytes}
use unics.Base.Int.{ℤ, pos, negsuc}
use unics.Stdio.Format.{int, string, vsnprintf}

-- `struct tm`
pub record Tm : Type 0 where
  pub sec : ℕ
  pub min : ℕ
  pub hour : ℕ
  pub mday : ℕ
  pub mon : ℕ
  pub year : ℕ
  pub wday : ℕ
  pub yday : ℕ
  pub isdst : ℤ
  pub nsec : ℕ

-- `gmtime`, of a time that is given.
unfoldable pub gmtime : ℕ → Tm
gmtime t = record {
  sec = t % 60;
  min = t / 60 % 60;
  hour = t / 3600 % 24;
  mday = t / 86400 % 31 + 1;
  mon = t / 2678400 % 12;
  year = t / 32140800 + 70;
  wday = t / 86400 % 7;
  yday = t / 86400 % 365;
  isdst = negsuc 0;
  nsec = 0;
}

-- `localtime`
abbrev pub localtime : ℕ → Tm
localtime t = gmtime t

-- `mktime`, for a year from 1970 on.
unfoldable pub mktime : Tm → ℕ
mktime tm =
    tm.sec
    + tm.min * 60
    + tm.hour * 3600
    + tm.mday * 86400
    + tm.mon * 2678400
    + (tm.year - 70) * 32140800

abbrev pub wday_names : List Bytes
wday_names =
    (83 ∷ 117 ∷ 110 ∷ [])
    ∷ (77 ∷ 111 ∷ 110 ∷ [])
    ∷ (84 ∷ 117 ∷ 101 ∷ [])
    ∷ (87 ∷ 101 ∷ 100 ∷ [])
    ∷ (84 ∷ 104 ∷ 117 ∷ [])
    ∷ (70 ∷ 114 ∷ 105 ∷ [])
    ∷ (83 ∷ 97 ∷ 116 ∷ [])
    ∷ []

abbrev pub mon_names : List Bytes
mon_names =
    (74 ∷ 97 ∷ 110 ∷ [])
    ∷ (70 ∷ 101 ∷ 98 ∷ [])
    ∷ (77 ∷ 97 ∷ 114 ∷ [])
    ∷ (65 ∷ 112 ∷ 114 ∷ [])
    ∷ (77 ∷ 97 ∷ 121 ∷ [])
    ∷ (74 ∷ 117 ∷ 110 ∷ [])
    ∷ (74 ∷ 117 ∷ 108 ∷ [])
    ∷ (65 ∷ 117 ∷ 103 ∷ [])
    ∷ (83 ∷ 101 ∷ 112 ∷ [])
    ∷ (79 ∷ 99 ∷ 116 ∷ [])
    ∷ (78 ∷ 111 ∷ 118 ∷ [])
    ∷ (68 ∷ 101 ∷ 99 ∷ [])
    ∷ []

-- An entry of an array of strings; outside the array the read is undefined.
abbrev pub name_at : List Bytes → ℕ → Option Bytes
name_at [] i = none
name_at (str ∷ names) zero = some str
name_at (str ∷ names) (suc i) = name_at names i

-- The format of `asctime`.
abbrev pub asctime_format : Bytes
asctime_format =
    37 ∷ 46 ∷ 51 ∷ 115 ∷ 32 ∷ 37 ∷ 46 ∷ 51 ∷ 115 ∷ 37 ∷ 51 ∷ 100 ∷ 32 ∷ 37 ∷ 46 ∷ 50 ∷ 100 ∷ 58 ∷ 37
    ∷ 46 ∷ 50 ∷ 100 ∷ 58 ∷ 37 ∷ 46 ∷ 50 ∷ 100 ∷ 32 ∷ 37 ∷ 100 ∷ 10 ∷ []

-- `asctime`
unfoldable pub asctime : Tm → Option Bytes
asctime tm = elim (name_at wday_names tm.wday) [
  | none ↦ none
  | some day ↦ elim (name_at mon_names tm.mon) [
    | none ↦ none
    | some month ↦ vsnprintf 26 asctime_format (
        string (some day)
        ∷ string (some month)
        ∷ int (pos tm.mday)
        ∷ int (pos tm.hour)
        ∷ int (pos tm.min)
        ∷ int (pos tm.sec)
        ∷ int (pos (1900 + tm.year))
        ∷ [])
  ]
]

-- `ctime`
abbrev pub ctime : ℕ → Option Bytes
ctime t = asctime (gmtime t)

-- The format of `strftime`, which does not use the one that it is given.
abbrev pub strftime_format : Bytes
strftime_format =
    37 ∷ 48 ∷ 52 ∷ 100 ∷ 45 ∷ 37 ∷ 48 ∷ 50 ∷ 100 ∷ 45 ∷ 37 ∷ 48 ∷ 50 ∷ 100 ∷ 32 ∷ 37 ∷ 48 ∷ 50 ∷ 100
    ∷ 58 ∷ 37 ∷ 48 ∷ 50 ∷ 100 ∷ 58 ∷ 37 ∷ 48 ∷ 50 ∷ 100 ∷ []

-- `strftime`
unfoldable pub strftime : ℕ → Bytes → Tm → Option Bytes
strftime max format tm = vsnprintf max strftime_format (
    int (pos (1900 + tm.year))
    ∷ int (pos (tm.mon + 1))
    ∷ int (pos tm.mday)
    ∷ int (pos tm.hour)
    ∷ int (pos tm.min)
    ∷ int (pos tm.sec)
    ∷ [])
