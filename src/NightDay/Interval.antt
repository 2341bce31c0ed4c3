-- ===== src/NightDay/Interval.antt =====
-- The test against the interval of the dial from the start of the night to the start of the day.
use cpeclock.Base.{ℕ, ◌+◌, ◌*◌, ◌<◌, ◌≢◌, ◌↔◌, ◌≡◌, true, not, arith}
use cpeclock.Alarm.{whole_day}
use cpeclock.Alarm.Region.{minutes_since}
use cpeclock.NightDay.{NightDay, night_day_time_test}

-- Both starts lie within the day.
pub record IsValid (t : NightDay) : Type 0 where
  pub night_within : t.start_night_time < whole_day
  pub day_within : t.start_day_time < whole_day

-- For different starts of night and day that lie within the day, it is night at a minute of the day
-- exactly when, going forward on the dial from the start of the night, that minute is met before
-- the start of the day. This holds whether or not the night spans midnight.
pub night_day_time_test_iff :
    (hour minute : ℕ) (t : NightDay)
    → hour < 24
    → minute < 60
    → IsValid t
    → t.start_night_time ≢ t.start_day_time
    → (night_day_time_test hour minute t ≡ true) ↔ (
        minutes_since t.start_night_time (hour * 60 + minute)
        < minutes_since t.start_night_time t.start_day_time)
unfolding night_day_time_test
night_day_time_test_iff hour minute t p q v ne = ground arith

abbrev pub exchanged : NightDay → NightDay
exchanged t = record { start_night_time = t.start_day_time; start_day_time = t.start_night_time }

-- Exchanging two different starts exchanges night and day at every minute; equal starts make it
-- night at every minute.
pub night_day_time_test-exchanged :
    (hour minute : ℕ) (t : NightDay)
    → (t.start_night_time ≢ t.start_day_time
        → night_day_time_test hour minute (exchanged t) ≡ not (night_day_time_test hour minute t))
      × (t.start_night_time ≡ t.start_day_time → night_day_time_test hour minute t ≡ true)
unfolding night_day_time_test
night_day_time_test-exchanged hour minute t = ground arith
