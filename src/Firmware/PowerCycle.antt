-- ===== src/Firmware/PowerCycle.antt =====
-- Losing the power after any rounds and interrupts.
use cpeclock.Base.{ℕ, ◌≡◌, ◌||◌, List, [], true, some, refl}
use cpeclock.Alarm.Update as AlarmUpdate
use cpeclock.Board.{Board}
use cpeclock.Hal
use cpeclock.Hal.{Hal, IsMemory}
use cpeclock.Hmac.{Sha256}
use cpeclock.Mail.Receive.{hal-Kept}
use cpeclock.NightDay.Interval as Interval
use cpeclock.Ncrs.{Rs, symbol_size, nroots}
use cpeclock.Firmware.{Firmware}
use cpeclock.Firmware.Setup.{BootInputs, Boot, booted, setup, power_on}
use cpeclock.Firmware.Memory.{InStep, Event, run, run-InStep}
use cpeclock.Firmware.Startup.{setup-Restarted}

-- `setup` ends with the counter, the alarm and the night's times as they were.
pub record Resumed {nv : Hal.Nvram} {b : Board} (ok : IsMemory nv) (rs : Rs) (c : rs.Control)
    (before : Firmware nv b) (boot : Boot nv b rs) : Type 0 where
  pub firmware : Firmware nv b
  pub result : boot ≡ booted c firmware
  pub in_step : InStep ok firmware
  pub silent : firmware.alarm_active ≡ 0
  pub counter : firmware.device.hmac_message_counter ≡ before.device.hmac_message_counter
  pub alarm : AlarmUpdate.IsValid before.device.alarm → firmware.device.alarm ≡ before.device.alarm
  pub night_day :
      Interval.IsValid before.device.night_day → firmware.device.night_day ≡ before.device.night_day

-- The firmware is in step with its memory, which keeps what is written; then come any rounds of
-- `loop` and any interrupts, and the power is lost between two of them. If the display, the clock
-- and the codec then start, `setup` ends in step with the memory again and with no alarm sounding:
-- with the message counter as it was, and with the alarm and the night's times as they were where
-- these lie within the day and the alarm's state is a known one.
pub setup-Resumed :
    {nv : Hal.Nvram} {b : Board} (ok : IsMemory nv) (rs : Rs) (c : rs.Control) (sha : Sha256)
    (secret : List ℕ) (fw : Firmware nv b) (es : List (Event b)) (i : BootInputs b)
    (lights : b.Lights)
    → InStep ok fw
    → rs.init_rs symbol_size 0x25 1 1 nroots ≡ some c
    → i.display_begins ≡ true
    → i.rtc_begins ≡ true
    → (i.rtc_runs || i.rtc_runs_again) ≡ true
    → let before = run rs c sha secret es fw in
      Resumed ok rs c before (setup rs i (power_on b before.device.hal.mem lights))
setup-Resumed {nv} {b} ok rs c sha secret fw es i lights k codec display rtc runs =
    let before = run rs c sha secret es fw in
    let kept = run-InStep ok rs c sha secret es fw k in
    let boot = setup-Restarted ok rs c codec i before.device.hal.mem lights display rtc runs in
    let at =
      hal-Kept ok before.device kept (record { mem = before.device.hal.mem; out = [] }) refl in
    record {
      firmware = boot.firmware;
      result = boot.result;
      in_step = boot.in_step;
      silent = boot.silent;
      counter = boot.counter_found _ at.counter;
      alarm = λ v. boot.alarm_found _ _ at.counter v at.alarm;
      night_day = λ v. boot.night_found _ _ at.counter v at.night_day;
    }
