-- ===== src/NightDay.antt =====
-- night_day_time.c: the two static variables are the record `NightDay`.
pub mod Interval
pub mod Persist
mod Tests
use cpeclock.Base.{
  ℕ, ◌+◌, ◌*◌, List, ◌++◌, Bool, true, ◌&&◌, ◌||◌, ltb, leb, ◌==◌, if◌then◌else◌, u16, ◌>>>◌, ◌<<<◌,
  bit_or,
}
use cpeclock.Base.Text.{codes, padded, snprintf}
use cpeclock.Hal
use cpeclock.Hal.{Hal, nvram_read, nvram_write, display_message}
use cpeclock.Alarm.{whole_day}

pub record NightDay : Type 0 where
  pub start_night_time : ℕ
  pub start_day_time : ℕ

unfoldable pub start : NightDay
start = record { start_night_time = 0; start_day_time = 0 }

abbrev pub night_day_text : ℕ → ℕ → ℕ → ℕ → List ℕ
night_day_text nh nm dh dm = snprintf 16 (
    padded 2 10 nh
    ++ codes ":"
    ++ padded 2 10 nm
    ++ codes ".."
    ++ padded 2 10 dh
    ++ codes ":"
    ++ padded 2 10 dm)

-- The result is the `int` of the source, as a truth value.
unfoldable pub night_day_time_test : ℕ → ℕ → NightDay → Bool
night_day_time_test now_hour now_minute t =
    let now_time = u16 (now_hour * 60 + now_minute) in
    if t.start_day_time == t.start_night_time
    then true
    else if ltb t.start_day_time t.start_night_time
    then ltb now_time t.start_day_time || leb t.start_night_time now_time
    else leb t.start_night_time now_time && ltb now_time t.start_day_time

module _ {nv : Hal.Nvram} where
  unfoldable pub save_to_nvram : NightDay → Hal nv → Hal nv
  save_to_nvram t h = nvram_write Hal.nvram_day_time_lo t.start_day_time (
      nvram_write Hal.nvram_day_time_hi (t.start_day_time >>> 8) (
        nvram_write Hal.nvram_night_time_lo t.start_night_time
          (nvram_write Hal.nvram_night_time_hi (t.start_night_time >>> 8) h)))

  unfoldable pub night_day_time_set : ℕ → ℕ → ℕ → ℕ → Hal nv → NightDay × Hal nv
  night_day_time_set start_night_hour start_night_minute start_day_hour start_day_minute h =
      let t : NightDay = record {
        start_night_time = u16 (start_night_hour * 60 + start_night_minute);
        start_day_time = u16 (start_day_hour * 60 + start_day_minute);
      } in
      let text =
        night_day_text start_night_hour start_night_minute start_day_hour start_day_minute in
      (t, save_to_nvram t (display_message text h))

  read_time : ℕ → ℕ → Hal nv → ℕ
  read_time hi lo h =
      let time = bit_or (nvram_read hi h <<< 8) (nvram_read lo h) in
      if leb whole_day time then 0 else time

  unfoldable pub night_day_time_init : Hal nv → NightDay × Hal nv
  unfolding read_time
  night_day_time_init h =
      let t : NightDay = record {
        start_night_time = read_time Hal.nvram_night_time_hi Hal.nvram_night_time_lo h;
        start_day_time = read_time Hal.nvram_day_time_hi Hal.nvram_day_time_lo h;
      } in
      (t, save_to_nvram t h)
