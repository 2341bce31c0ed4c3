-- ===== src/Firmware/Setup.antt =====
-- cpeclock.ino: `setup`, with what the hardware answers as an argument.
use cpeclock.Base.{
  ℕ, ◌-◌, ◌/◌, List, [], ◌∷◌, ◌++◌, Bool, false, not, Option, none, some, if◌then◌else◌, u16, leb,
  ◌^◌, replicate,
}
use cpeclock.Base.Text.{codes}
use cpeclock.Alarm
use cpeclock.Board.{Board}
use cpeclock.Effects.{Effects}
use cpeclock.Effects
use cpeclock.Hal
use cpeclock.Hal.{Hal, Output}
use cpeclock.Hmac433.{Packet}
use cpeclock.Mail.{Device, mail_init}
use cpeclock.Ncrs.{Rs, ncrs_init}
use cpeclock.NightDay
use cpeclock.Rx433
use cpeclock.Screen.{Screen, Frame}
use cpeclock.Screen
use cpeclock.Firmware.{Firmware, carry_out, settle}

-- What it answers in `setup`: whether the display and the clock begin, whether the clock runs, also
-- after an attempt to start it.
pub record BootInputs (b : Board) : Type 0 where
  pub display_begins : Bool
  pub rtc_begins : Bool
  pub rtc_runs : Bool
  pub rtc_runs_again : Bool
  pub rtc_now : b.DateTime
  pub millis : ℕ
  pub slide_switch : Bool

abbrev zero_packet : Packet
zero_packet = record {
  payload = replicate 6 0;
  counter_low = 0;
  hmac = replicate 6 0;
  counter_resync_flag = 0;
}

-- The variables when the power comes on.
unfoldable pub power_on : {nv : Hal.Nvram} (b : Board) → nv.Mem → b.Lights → Firmware nv b
power_on b mem lights =
    let invalid_time = b.date_time 2000 1 1 0 0 0 in
    record {
      device = record {
        hmac_message_counter = 0;
        previous_packet = zero_packet;
        alarm = Alarm.start;
        night_day = NightDay.start;
        rx = Rx433.start;
        hal = record { mem = mem; out = [] };
      };
      screen = record {
        now_time = invalid_time;
        screen_off_time = invalid_time;
        message_off_time = invalid_time;
        message_buffer_1 = [];
        message_buffer_2 = [];
        clock_text_x = 0;
        frame = record { dim = false; prints = [] };
        adjusted = [];
      };
      effects = record {
        lights = lights;
        last_running_time = 0;
        sound_trigger = 0;
        strobe_trigger = 0;
        calls = [];
      };
      alarm_active = 0;
      allow_sound = false;
      millisecond_offset = 0;
      extension_button_pressed = 0;
    }

-- `(SCREEN_WIDTH - w) / 2`, as an `int` that is stored in 16 bits.
abbrev pub centred : ℕ → ℕ
centred w =
    if leb w Screen.screen_width
    then (Screen.screen_width - w) / 2
    else u16 (2 ^ 16 - (w - Screen.screen_width) / 2)

-- Where `setup` stays for ever.
pub data Reason : Type 0 where
  no_display no_rtc rtc_stopped no_codec no_memory : Reason

pub data Boot (nv : Hal.Nvram) (b : Board) (rs : Rs) : Type 0 where
  halted : Reason → Firmware nv b → Boot nv b rs
  booted : rs.Control → Firmware nv b → Boot nv b rs

module _ {nv : Hal.Nvram} {b : Board} where
  -- `display_message` in cpeclock.ino itself.
  abbrev pub say : List ℕ → Firmware nv b → Firmware nv b
  say text fw = carry_out fw.device.night_day (Hal.shown text ∷ []) fw

  -- From the time being read to the variables of the display.
  unfoldable pub started : BootInputs b → Firmware nv b → Firmware nv b
  started i fw = record fw {
    screen = record (fw.screen) { now_time = i.rtc_now; clock_text_x = centred b.clock_width };
    millisecond_offset = i.millis;
    allow_sound = i.slide_switch;
    alarm_active = 0;
  }

  -- From `alarm_init` on.
  unfoldable pub ready : Firmware nv b → Firmware nv b
  ready fw =
      let (alarm, hal) = Alarm.alarm_init fw.device.hal in
      let (night_day, hal') = NightDay.night_day_time_init hal in
      let d = record (fw.device) { alarm = alarm; night_day = night_day; hal = hal' } in
      let on_time = Screen.get_screen_on_time night_day fw.screen in
      record fw {
        device = d;
        screen = record (fw.screen) { screen_off_time = b.add fw.screen.now_time on_time };
        effects = record (fw.effects) { lights = b.show (b.set_brightness 0 fw.effects.lights) };
      }

  -- `mail_init` and what follows it.
  unfoldable pub boot_mail : (rs : Rs) → rs.Control → Firmware nv b → Boot nv b rs
  boot_mail rs c fw =
      let (ok, counter, hal) = mail_init fw.device.hal in
      let d : Device nv = elim counter [
        | none ↦ record (fw.device) { hal = hal }
        | some n ↦ record (fw.device) { hmac_message_counter = n; hal = hal }
      ] in
      let fw' = settle d fw in
      if not ok then halted no_memory (say (codes "MAIL ERROR") fw') else booted c (ready fw')

  -- What follows `ncrs_init`.
  unfoldable pub with_codec : (rs : Rs) → Option rs.Control → Firmware nv b → Boot nv b rs
  with_codec rs none fw = halted no_codec (say (codes "NCRS ERROR") fw)
  with_codec rs (some c) fw = boot_mail rs c fw

  unfoldable pub boot_codec : (rs : Rs) → Firmware nv b → Boot nv b rs
  boot_codec rs fw =
      let (control, hal) = ncrs_init rs fw.device.hal in
      with_codec rs control (settle (record (fw.device) { hal = hal }) fw)

  unfoldable pub setup : (rs : Rs) → BootInputs b → Firmware nv b → Boot nv b rs
  setup rs i fw =
      let invalid_time = b.date_time 2000 1 1 0 0 0 in
      let fw' = record fw {
        screen = record (fw.screen) {
          screen_off_time = invalid_time;
          message_off_time = invalid_time;
        };
        effects = record (fw.effects) {
          calls = fw.effects.calls ++ (Effects.speaker false ∷ Effects.int_pin false ∷ []);
        };
      } in
      let adjusted = record fw' {
        screen = record (fw'.screen) {
          adjusted = b.date_time 2012 4 14 12 0 0 ∷ fw'.screen.adjusted;
        };
      } in
      if not i.display_begins
      then halted no_display fw'
      else if not i.rtc_begins
      then halted no_rtc (say (codes "RTC ERROR 1") fw')
      else if i.rtc_runs
      then boot_codec rs (started i fw')
      else if i.rtc_runs_again
      then boot_codec rs (started i adjusted)
      else halted rtc_stopped (say (codes "RTC ERROR 2") adjusted)
