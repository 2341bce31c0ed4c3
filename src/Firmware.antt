-- ===== src/Firmware.antt =====
-- cpeclock.ino: `loop`, with the C files that it calls. What the hardware answers in a round is an
-- argument.
pub mod Setup
pub mod Memory
pub mod Startup
pub mod PowerCycle
pub mod Halts
pub mod Buttons
pub mod Radio
mod Tests
use cpeclock.Base.{
  ℕ, zero, suc, ◌+◌, ◌-◌, ◌*◌, ◌/◌, ◌%◌, List, [], ◌∷◌, ◌++◌, Bool, true, false, not, ◌&&◌, ◌||◌,
  Option, none, some, ◌==◌, if◌then◌else◌, drop, length, u16, u32, leb, ◌^◌, replicate,
}
use cpeclock.Base.Text.{codes}
use cpeclock.Alarm
use cpeclock.Board.{Board}
use cpeclock.Effects.{Effects}
use cpeclock.Effects
use cpeclock.Hal
use cpeclock.Hal.{Hal, Output}
use cpeclock.Hmac.{Sha256}
use cpeclock.Hmac433.{Packet}
use cpeclock.Mail.{Device, noticed, mail_init, mail_receive_messages}
use cpeclock.Ncrs.{Rs, ncrs_init}
use cpeclock.NightDay
use cpeclock.Rx433
use cpeclock.Screen.{Screen, Frame}
use cpeclock.Screen

pub record Firmware (nv : Hal.Nvram) (b : Board) : Type 0 where
  pub device : Device nv
  pub screen : Screen b
  pub effects : Effects b
  pub alarm_active : ℕ
  pub allow_sound : Bool
  pub millisecond_offset : ℕ
  pub extension_button_pressed : ℕ

-- What the hardware answers in one round of `loop`: the time, `millis()` where it is called, the
-- buttons, and the slide switch, which is read up to three times.
pub record Inputs (b : Board) : Type 0 where
  pub rtc_now : b.DateTime
  pub millis_minute : ℕ
  pub millis_tick : ℕ
  pub millis_right : ℕ
  pub millis_left : ℕ
  pub right_button : Bool
  pub left_button : Bool
  pub extension_button : Bool
  pub slide_switch : Bool
  pub slide_switch_again : Bool

abbrev pub quiet : {nv : Hal.Nvram} → Device nv → Device nv
quiet d = record d { hal = record (d.hal) { out = [] } }

module _ {nv : Hal.Nvram} {b : Board} where
  -- The calls that a C file has made of the display and of the clock are carried out.
  pub carry_out : NightDay.NightDay → List Output → Firmware nv b → Firmware nv b
  carry_out night out fw = record fw {
    screen = Screen.perform_all night fw.alarm_active out fw.screen;
  }

  -- After a call that has left the device so.
  pub settle : Device nv → Firmware nv b → Firmware nv b
  settle d fw = carry_out d.night_day d.hal.out (record fw { device = quiet d })

  pub update_alarm : ℕ → Firmware nv b → Firmware nv b
  update_alarm millis fw = record fw {
    effects =
        Effects.update_alarm fw.alarm_active millis fw.millisecond_offset fw.allow_sound fw.effects;
  }

  pub update_display : Firmware nv b → Firmware nv b
  update_display fw = record fw {
    screen = Screen.update_display fw.device.night_day fw.alarm_active fw.screen;
  }

  -- `alarm_active = alarm_update(...)`.
  pub check_alarm : Firmware nv b → Firmware nv b
  check_alarm fw =
      let now = fw.screen.now_time in
      let (result, alarm', hal') =
        Alarm.alarm_update (b.hour now) (b.minute now) fw.device.alarm fw.device.hal in
      record fw {
        device = record (fw.device) { alarm = alarm'; hal = hal' };
        alarm_active = result;
      }

  -- The first part of `loop`.
  pub tick : Inputs b → Firmware nv b → Firmware nv b
  tick i fw =
      let previous_second = b.second fw.screen.now_time in
      let fw' = record fw { screen = record (fw.screen) { now_time = i.rtc_now } } in
      let at_minute =
        if b.second i.rtc_now == 0
        then record fw' { millisecond_offset = i.millis_minute }
        else fw' in
      if b.second i.rtc_now == previous_second
      then update_alarm i.millis_tick fw'
      else update_display (update_alarm i.millis_tick (check_alarm at_minute))

  -- The extension button: the firmware, and the two buttons as they count from here on.
  pub extension : Inputs b → Firmware nv b → Firmware nv b × Bool × Bool
  extension i fw =
      let on_time = Screen.get_screen_on_time fw.device.night_day fw.screen in
      let pressed = u16 (fw.extension_button_pressed + 1) in
      let lit = record fw {
        screen = record (fw.screen) { screen_off_time = b.add fw.screen.now_time on_time };
        extension_button_pressed = pressed;
      } in
      if not i.extension_button
      then (record fw { extension_button_pressed = 0 }, i.right_button, i.left_button)
      else if pressed == 100
      then (lit, i.right_button, true)
      else if pressed == 300
      then (record lit { extension_button_pressed = 0 }, true, i.left_button)
      else (lit, i.right_button, i.left_button)

  pub right : Bool → ℕ → Firmware nv b → Firmware nv b
  right pressed millis fw =
      let (changed, alarm', hal') = Alarm.alarm_reset fw.device.alarm fw.device.hal in
      let fw' = settle (record (fw.device) { alarm = alarm'; hal = hal' }) fw in
      if not pressed then fw else if changed then update_alarm millis (check_alarm fw') else fw'

  pub left : Bool → ℕ → Firmware nv b → Firmware nv b
  left pressed millis fw =
      let (changed, alarm', hal') = Alarm.alarm_unset fw.device.alarm fw.device.hal in
      let fw' = settle (record (fw.device) { alarm = alarm'; hal = hal' }) fw in
      if not pressed then fw else if changed then update_alarm millis (check_alarm fw') else fw'

  pub sound_switch : Bool → Bool → Firmware nv b → Firmware nv b
  sound_switch switch again fw =
      let text = codes (if again then "SOUND ON" else "SOUND OFF") in
      if (if fw.allow_sound then switch else not switch)
      then fw
      else carry_out fw.device.night_day (Hal.shown text ∷ []) (record fw { allow_sound = again })

  module _ (rs : Rs) (c : rs.Control) (sha : Sha256) (secret : List ℕ) where
    -- `mail_receive_messages`: a Home Easy code is shown before anything else is done, hence with
    -- the night's times as they were.
    pub receive : Firmware nv b → Firmware nv b
    receive fw =
        let d = quiet fw.device in
        let first = (noticed d).hal.out in
        let d' = mail_receive_messages rs c sha secret d in
        carry_out d'.night_day (drop (length first) d'.hal.out)
          (carry_out d.night_day first (record fw { device = quiet d' }))

    pub loop : Inputs b → Firmware nv b → Firmware nv b
    loop i fw =
        let (fw', right_button, left_button) = extension i (receive (tick i fw)) in
        sound_switch i.slide_switch i.slide_switch_again
          (left left_button i.millis_left (right right_button i.millis_right fw'))

  -- An interrupt of the receiver.
  pub interrupt : ℕ → Firmware nv b → Firmware nv b
  interrupt micros fw = record fw {
    device = record (fw.device) { rx = Rx433.rx433_interrupt (u32 micros) fw.device.rx };
  }
