-- ===== src/Alarm/Region.antt =====
-- The active region: the loop of `alarm_update` against arithmetic on the 24-hour dial.
use cpeclock.Base.{ℕ, zero, suc, ◌+◌, ◌-◌, ◌%◌, ◌≤◌, ◌<◌, ◌≡◌, arith, ltb, leb, if◌then◌else◌, u16}
use cpeclock.Alarm.{Alarm, whole_day, alarm_sounds_for, search_region, in_active_region}

-- Minutes from `from` forward to `now_time` on the dial.
abbrev pub minutes_since : ℕ → ℕ → ℕ
minutes_since from now_time = (now_time + whole_day - from) % whole_day

-- The time of day that a stored time stands for: a value past the end of the day is midnight.
abbrev pub time_of_day : ℕ → ℕ
time_of_day time = if leb whole_day time then 0 else time

search_region_lem :
    (left i t now_time : ℕ)
    → now_time < whole_day
    → left ≤ 100
    → t ≤ whole_day
    → search_region left i t now_time
      ≡ (if ltb (minutes_since t now_time) left then i + minutes_since t now_time else 0)
unfolding search_region
search_region_lem zero i t now_time h l k = ground arith
search_region_lem (suc left) i t now_time h l k =
    ground (arith, search_region_lem left (i + 1) (time_of_day t + 1) now_time h (omega arith))

search_region-le : (left i t now_time : ℕ) → search_region left (suc i) t now_time ≤ i + left
unfolding search_region
search_region-le zero i t now_time = omega arith
search_region-le (suc left) i t now_time =
    ground (arith, search_region-le left (suc i) (u16 (time_of_day t + 1)) now_time)

-- The first round brings a time past the end of the day back to midnight.
search_region-time_of_day :
    (left i t now_time : ℕ)
    → search_region (suc left) i t now_time ≡ search_region (suc left) i (time_of_day t) now_time
unfolding search_region
search_region-time_of_day left i t now_time = ground arith

-- For a present minute within the day, the loop of `alarm_update` finds the minutes from the alarm
-- forward to the present on the 24-hour dial, counted from 1, if they are fewer than ten, and 0 if
-- they are not. This holds across midnight, and an alarm time past the end of the day counts as
-- midnight.
pub in_active_region_lem :
    (a : Alarm) (now_time : ℕ)
    → now_time < whole_day
    → in_active_region a now_time ≡ (
        let d = minutes_since (time_of_day a.time) now_time in
        if ltb d alarm_sounds_for then d + 1 else 0)
unfolding in_active_region
in_active_region_lem a now_time h = ground (
  arith,
  search_region-time_of_day 9 1 a.time now_time,
  search_region_lem 10 1 (time_of_day a.time) now_time h (omega arith) (ground arith),
)

pub in_active_region-le : (a : Alarm) (now_time : ℕ) → in_active_region a now_time ≤ 10
unfolding in_active_region
in_active_region-le a now_time = search_region-le 10 0 a.time now_time
