-- ===== src/NightDay/Tests.antt =====
-- Runs of the night test at concrete times.
use cpeclock.Base.{◌+◌, ◌*◌, ◌<◌, ◌≡◌, ◌↔◌, refl, arith, [], true, false}
use cpeclock.Hal.{Hal, cells, cells-IsMemory}
use cpeclock.Alarm.Region.{minutes_since}
use cpeclock.NightDay.{NightDay, night_day_time_test, night_day_time_set, night_day_time_init}
use cpeclock.NightDay.Interval.{IsValid, night_day_time_test_iff}
use cpeclock.NightDay.Persist.{night_day_time_init-night_day_time_set}

abbrev blank : Hal cells
blank = record { mem = λ a. 0xff; out = [] }

-- From 22:30 to 06:15.
abbrev winter : NightDay
winter = record { start_night_time = 1350; start_day_time = 375 }

winter-IsValid : IsValid winter
winter-IsValid = omega arith

at_three_and_noon :
    (night_day_time_test 3 0 winter ≡ true) × (night_day_time_test 12 0 winter ≡ false)
unfolding night_day_time_test
at_three_and_noon = (refl, refl)

night_day_time_test_iff_example :
    (night_day_time_test 3 0 winter ≡ true)
    ↔ (minutes_since 1350 (3 * 60 + 0) < minutes_since 1350 375)
night_day_time_test_iff_example =
    night_day_time_test_iff 3 0 winter (omega arith) (omega arith) winter-IsValid (omega arith)

set-IsValid : IsValid (night_day_time_set 22 30 6 15 blank).0
unfolding night_day_time_set
set-IsValid = omega arith

night_day_time_init-night_day_time_set_example :
    (night_day_time_init (night_day_time_set 22 30 6 15 blank).1).0
    ≡ (night_day_time_set 22 30 6 15 blank).0
night_day_time_init-night_day_time_set_example =
    night_day_time_init-night_day_time_set cells-IsMemory 22 30 6 15 blank set-IsValid
