-- ===== src/Alarm/Update.antt =====
-- One call of `alarm_update`, in each state of the alarm.
use cpeclock.Base.{ℕ, true, IsByte, ◌≤◌, ◌<◌, ◌≡◌, ◌≢◌, ◌↔◌, ◌⊎◌, arith}
use cpeclock.Hal
use cpeclock.Hal.{Hal}
use cpeclock.Alarm.{
  disabled, active, invalid_state, Alarm, whole_day, now, in_active_region, alarm_update,
  save_to_nvram, alarm_get, alarm_set, alarm_reset, reset,
}
use cpeclock.Alarm.Region.{in_active_region-le}

-- A stored time within the day, and a state of the machine.
pub record IsValid (a : Alarm) : Type 0 where
  pub within_day : a.time < whole_day
  pub known_state : a.state ≢ invalid_state

module _ {nv : Hal.Nvram} (hour minute : ℕ) (a : Alarm) (h : Hal nv) where
  abbrev region : ℕ
  region = in_active_region a (now hour minute)

  -- After a call of `alarm_update` the state is active exactly when the result is not 0; a result
  -- that is not 0 is the position in the active region; the result is at most 10, and the alarm's
  -- time stays.
  pub alarm_update-active :
      let (r, a', h') = alarm_update hour minute a h in
      ((a'.state ≡ active) ↔ (r ≢ 0)) × (r ≢ 0 → r ≡ region) × (r ≤ 10) × (a'.time ≡ a.time)
  unfolding alarm_update
  alarm_update-active = ground (arith, in_active_region-le a (now hour minute))

  -- The call writes the memory only when it changes the state.
  pub alarm_update_unchanged :
      (alarm_update hour minute a h).1.state ≡ a.state → (alarm_update hour minute a h).2 ≡ h
  unfolding alarm_update
  alarm_update_unchanged e = ground arith

  pub alarm_update_disabled : a.state ≡ disabled → alarm_update hour minute a h ≡ (0, a, h)
  unfolding alarm_update
  alarm_update_disabled e = ground arith

  -- A call changes nothing, or changes the state alone and saves it.
  pub alarm_update_saves :
      let (r, a', h') = alarm_update hour minute a h in
      ((a' ≡ a) × (h' ≡ h)) ⊎ ((a'.time ≡ a.time) × (h' ≡ save_to_nvram a' h))
  unfolding alarm_update
  alarm_update_saves = ground arith

-- `alarm_get` reads back what `alarm_set` was given, for an hour of one byte and a minute within
-- the hour.
pub alarm_get-alarm_set :
    {nv : Hal.Nvram} (hour minute : ℕ) (a : Alarm) (h : Hal nv)
    → IsByte hour
    → minute < 60
    → let (changed, a', h') = alarm_set hour minute a h in alarm_get a' ≡ (hour, minute)
unfolding alarm_get alarm_set
alarm_get-alarm_set hour minute a h p q = ground arith

-- For a valid alarm, `alarm_reset` keeps the time and goes to the state reset, and reports a change
-- exactly when the state was another.
pub alarm_reset_lem :
    {nv : Hal.Nvram} (a : Alarm) (h : Hal nv)
    → IsValid a
    → let (changed, a', h') = alarm_reset a h in
      (a' ≡ record { time = a.time; state = reset }) × ((changed ≡ true) ↔ (a.state ≢ reset))
unfolding alarm_reset alarm_set alarm_get
alarm_reset_lem a h v = ground arith
