-- ===== src/Alarm.antt =====
-- alarm.c and alarm.h. The two static variables are the record `Alarm`; a function takes them and
-- the board's state, and returns both beside its result.
pub mod Region
pub mod Update
pub mod Persist
pub mod Cycle
mod Tests
use cpeclock.Base.{
  ℕ, zero, suc, ◌+◌, ◌*◌, ◌/◌, ◌%◌, ◌≡◌, Bool, true, false, not, ◌++◌, ◌∷◌, [], List, leb, ◌==◌,
  if◌then◌else◌, u8, u16, ◌>>>◌, ◌<<<◌, bit_or,
}
use cpeclock.Base.Text.{codes, padded, snprintf}
use cpeclock.Hal
use cpeclock.Hal.{Hal, nvram_read, nvram_write, display_message}

pub data State : Type 0 where
  disabled enabled active reset invalid_state : State

-- The casts of `alarm_state_t` to and from `uint8_t`. Every value from 4 up is one invalid state.
abbrev pub to_byte : State → ℕ
to_byte disabled = 0
to_byte enabled = 1
to_byte active = 2
to_byte reset = 3
to_byte invalid_state = 4

abbrev pub of_byte : ℕ → State
of_byte b =
    if b == 0
    then disabled
    else if b == 1
    then enabled
    else if b == 2
    then active
    else if b == 3
    then reset
    else invalid_state

-- `old_state != alarm_state`, both as numbers.
abbrev pub differs : State → State → Bool
differs a b = not (to_byte a == to_byte b)

pub record Alarm : Type 0 where
  pub time : ℕ
  pub state : State

abbrev pub whole_day : ℕ
whole_day = 24 * 60

abbrev pub alarm_sounds_for : ℕ
alarm_sounds_for = 10

unfoldable pub start : Alarm
start = record { time = 0; state = disabled }

abbrev pub alarm_text : ℕ → ℕ → List ℕ
alarm_text hour minute =
    snprintf 16 (codes "ALARM " ++ padded 2 10 hour ++ codes ":" ++ padded 2 10 minute)

-- `*hour` and `*minute` are `uint8_t`.
unfoldable pub alarm_get : Alarm → ℕ × ℕ
alarm_get a = (u8 (a.time / 60), u8 (a.time % 60))

-- The `for` loop of `alarm_update` with `left` rounds to go: it breaks with `i`, or ends with 0.
pub search_region : ℕ → ℕ → ℕ → ℕ → ℕ
search_region zero i test_time now_time = 0
search_region (suc left) i test_time now_time =
    let test = if leb whole_day test_time then 0 else test_time in
    let rest = search_region left (i + 1) (u16 (test + 1)) now_time in
    if test == now_time then i else rest

abbrev pub now : ℕ → ℕ → ℕ
now now_hour now_minute = u16 (now_hour * 60 + now_minute)

unfoldable pub in_active_region : Alarm → ℕ → ℕ
in_active_region a now_time = search_region alarm_sounds_for 1 a.time now_time

module _ {nv : Hal.Nvram} where
  unfoldable pub save_to_nvram : Alarm → Hal nv → Hal nv
  save_to_nvram a h =
      nvram_write Hal.nvram_alarm_state (to_byte a.state)
        (nvram_write Hal.nvram_alarm_lo a.time (nvram_write Hal.nvram_alarm_hi (a.time >>> 8) h))

  unfoldable pub alarm_set : ℕ → ℕ → Alarm → Hal nv → Bool × Alarm × Hal nv
  alarm_set hour minute a h =
      let a' : Alarm = record { time = u16 (hour * 60 + minute); state = reset } in
      (differs a.state a'.state, a', save_to_nvram a' (display_message (alarm_text hour minute) h))

  unfoldable pub alarm_unset : Alarm → Hal nv → Bool × Alarm × Hal nv
  alarm_unset a h =
      let a' = record a { state = disabled } in
      (differs a.state a'.state, a', save_to_nvram a' (display_message (codes "ALARM OFF") h))

  unfoldable pub alarm_reset : Alarm → Hal nv → Bool × Alarm × Hal nv
  alarm_reset a h = let (hour, minute) = alarm_get a in alarm_set hour minute a h

  -- The `switch` of `alarm_update`.
  update_state : State → ℕ → Alarm → Hal nv → ℕ × Alarm × Hal nv
  update_state active region a h =
      let a' = record a { state = disabled } in
      if region == 0 then (0, a', save_to_nvram a' h) else (region, a, h)
  update_state enabled region a h =
      let a' = record a { state = active } in
      if region == 0 then (0, a, h) else (region, a', save_to_nvram a' h)
  update_state reset region a h =
      let a' = record a { state = enabled } in
      if region == 0 then (0, a', save_to_nvram a' h) else (0, a, h)
  update_state disabled region a h = (0, a, h)
  update_state invalid_state region a h = (0, a, h)

  unfoldable pub alarm_update : ℕ → ℕ → Alarm → Hal nv → ℕ × Alarm × Hal nv
  unfolding update_state
  alarm_update now_hour now_minute a h =
      update_state a.state (in_active_region a (now now_hour now_minute)) a h

  unfoldable pub alarm_init : Hal nv → Alarm × Hal nv
  alarm_init h =
      let hi = nvram_read Hal.nvram_alarm_hi h in
      let lo = nvram_read Hal.nvram_alarm_lo h in
      let state = of_byte (nvram_read Hal.nvram_alarm_state h) in
      let time = u16 (bit_or (hi <<< 8) lo) in
      let a : Alarm = record {
        time = if leb whole_day time then 0 else time;
        state = if leb (to_byte invalid_state) (to_byte state) then disabled else state;
      } in
      (a, save_to_nvram a h)
