-- ===== src/Time/Tests.antt =====
-- The calendar on one second after the start, and a clock that has just started.
use unics.Base.{◌≡◌, some, [], take, arith}
use unics.Time.Calendar.{gmtime, mktime, strftime, strftime_format}
use unics.Time.Clock.{Clock}
use unics.Time.Laws.{mktime-gmtime}
use unics.Time.Printed.{strftime_lem}

mktime-gmtime_example : mktime (gmtime 3000000) ≡ 3086400
mktime-gmtime_example = mktime-gmtime 3000000 (omega arith)

strftime_lem_example : strftime 6 [] (gmtime 1) ≡ some (take 5 strftime_format)
strftime_lem_example = strftime_lem 6 [] (gmtime 1)

abbrev started : Clock
started = record { current_time = 0; counter = 9 }
