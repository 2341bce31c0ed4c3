-- ===== src/Firmware/Memory.antt =====
-- The battery-backed memory while the firmware runs: the rounds of `loop` and the interrupts.
use cpeclock.Base.{
  ℕ, ◌+◌, inl, inr, refl, arith, List, [], ◌∷◌, Bool, not, if_both, if◌then◌else◌, ◌==◌, u16,
}
use cpeclock.Alarm
use cpeclock.Alarm.Update as AlarmUpdate
use cpeclock.Board.{Board}
use cpeclock.Hal
use cpeclock.Hal.{Hal, IsMemory}
use cpeclock.Hmac.{Sha256}
use cpeclock.Mail.{Device}
use cpeclock.Mail.Receive.{Kept, hal-Kept, alarm-Kept}
use cpeclock.Mail.Receive.Step.{mail_receive_messages-Kept, shown}
use cpeclock.Ncrs.{Rs}
use cpeclock.Firmware.{
  Firmware, Inputs, quiet, carry_out, settle, update_alarm, update_display, check_alarm, tick,
  extension, right, left, sound_switch, receive, loop, interrupt,
}

-- An edge at the receiver, at a time of `micros()`, or a round of `loop`.
pub data Event (b : Board) : Type 0 where
  edge : ℕ → Event b
  round : Inputs b → Event b

module _ {nv : Hal.Nvram} {b : Board} (rs : Rs) (c : rs.Control) (sha : Sha256)
    (secret : List ℕ) where
  unfoldable pub run : List (Event b) → Firmware nv b → Firmware nv b
  run [] fw = fw
  run (edge micros ∷ es) fw = run es (interrupt micros fw)
  run (round i ∷ es) fw = run es (loop rs c sha secret i fw)

module _ {nv : Hal.Nvram} (ok : IsMemory nv) where
  quiet-Kept : (d : Device nv) → Kept d → Kept (quiet d)
  quiet-Kept d k = hal-Kept ok d k _ refl

  alarm_update-Kept :
      (hour minute : ℕ) (d : Device nv)
      → Kept d
      → let (r, a', h') = Alarm.alarm_update hour minute d.alarm d.hal in
        Kept (record d { alarm = a'; hal = h' })
  alarm_update-Kept hour minute d k =
      elim (AlarmUpdate.alarm_update_saves hour minute d.alarm d.hal) [
        | inl (a, h) ↦ rw (a, h) k
        | inr (t, h) ↦ rw h (alarm-Kept ok d k _ (rw t k.alarm_fits))
      ]

  alarm_set-Kept :
      (hour minute : ℕ) (d : Device nv)
      → Kept d
      → let (r, a', h') = Alarm.alarm_set hour minute d.alarm d.hal in
        Kept (record d { alarm = a'; hal = h' })
  unfolding Alarm.alarm_set
  alarm_set-Kept hour minute d k = alarm-Kept ok _ (shown ok d _ k) _ (omega arith)

  alarm_unset-Kept :
      (d : Device nv)
      → Kept d
      → let (r, a', h') = Alarm.alarm_unset d.alarm d.hal in
        Kept (record d { alarm = a'; hal = h' })
  unfolding Alarm.alarm_unset
  alarm_unset-Kept d k = alarm-Kept ok _ (shown ok d _ k) _ k.alarm_fits

  alarm_reset-Kept :
      (d : Device nv)
      → Kept d
      → let (r, a', h') = Alarm.alarm_reset d.alarm d.hal in
        Kept (record d { alarm = a'; hal = h' })
  unfolding Alarm.alarm_reset
  alarm_reset-Kept d k = alarm_set-Kept _ _ d k

module _ {nv : Hal.Nvram} {b : Board} (ok : IsMemory nv) where
  -- The memory is in step with the variables.
  abbrev pub InStep : Firmware nv b → Type 0
  InStep fw = Kept fw.device

  settle-InStep : (d : Device nv) (fw : Firmware nv b) → Kept d → InStep (settle d fw)
  unfolding settle carry_out
  settle-InStep d fw k = quiet-Kept ok d k

  check_alarm-InStep : (fw : Firmware nv b) → InStep fw → InStep (check_alarm fw)
  unfolding check_alarm
  check_alarm-InStep fw k = alarm_update-Kept ok _ _ fw.device k

  -- What follows a button: the lights are updated if the state has changed.
  acted-InStep :
      (changed : Bool) (millis : ℕ) (fw : Firmware nv b)
      → InStep fw
      → InStep (if changed then update_alarm millis (check_alarm fw) else fw)
  unfolding update_alarm
  acted-InStep changed millis fw k = if_both InStep changed (check_alarm-InStep fw k) k

  right-InStep :
      (pressed : Bool) (millis : ℕ) (fw : Firmware nv b)
      → InStep fw
      → InStep (right pressed millis fw)
  unfolding right
  right-InStep pressed millis fw k =
      if_both InStep (not pressed) k
        (acted-InStep _ millis _ (settle-InStep _ fw (alarm_reset-Kept ok fw.device k)))

  left-InStep :
      (pressed : Bool) (millis : ℕ) (fw : Firmware nv b)
      → InStep fw
      → InStep (left pressed millis fw)
  unfolding left
  left-InStep pressed millis fw k =
      if_both InStep (not pressed) k
        (acted-InStep _ millis _ (settle-InStep _ fw (alarm_unset-Kept ok fw.device k)))

  tick-InStep : (i : Inputs b) (fw : Firmware nv b) → InStep fw → InStep (tick i fw)
  unfolding tick update_alarm update_display
  tick-InStep i fw k =
      if_both InStep (b.second i.rtc_now == b.second fw.screen.now_time) k
        (check_alarm-InStep _ (if_both InStep (b.second i.rtc_now == 0) k k))

  extension-InStep : (i : Inputs b) (fw : Firmware nv b) → InStep fw → InStep (extension i fw).0
  unfolding extension
  extension-InStep i fw k =
      let P : Firmware nv b × Bool × Bool → Type 0 = λ x. InStep x.0 in
      let pressed = u16 (fw.extension_button_pressed + 1) in
      if_both P (not i.extension_button) k
        (if_both P (pressed == 100) k (if_both P (pressed == 300) k k))

  sound_switch-InStep :
      (switch again : Bool) (fw : Firmware nv b) → InStep fw → InStep (sound_switch switch again fw)
  unfolding sound_switch carry_out
  sound_switch-InStep switch again fw k =
      if_both InStep (if fw.allow_sound then switch else not switch) k k

  module _ (rs : Rs) (c : rs.Control) (sha : Sha256) (secret : List ℕ) where
    receive-InStep : (fw : Firmware nv b) → InStep fw → InStep (receive rs c sha secret fw)
    unfolding receive carry_out
    receive-InStep fw k =
        quiet-Kept ok _
          (mail_receive_messages-Kept ok rs c sha secret _ (quiet-Kept ok fw.device k))

    -- One round of `loop` keeps the memory in step.
    loop-InStep :
        (i : Inputs b) (fw : Firmware nv b) → InStep fw → InStep (loop rs c sha secret i fw)
    unfolding loop
    loop-InStep i fw k = sound_switch-InStep _ _ _ (
        left-InStep _ _ _
          (right-InStep _ _ _ (extension-InStep i _ (receive-InStep _ (tick-InStep i fw k)))))

    interrupt-InStep : (micros : ℕ) (fw : Firmware nv b) → InStep fw → InStep (interrupt micros fw)
    unfolding interrupt
    interrupt-InStep micros fw k = record {
      counter = k.counter;
      counter_fits = k.counter_fits;
      alarm = k.alarm;
      alarm_fits = k.alarm_fits;
      night_day = k.night_day;
    }

    -- Any rounds and interrupts keep the memory in step.
    pub run-InStep :
        (es : List (Event b)) (fw : Firmware nv b) → InStep fw → InStep (run rs c sha secret es fw)
    unfolding run
    run-InStep [] fw k = k
    run-InStep (edge micros ∷ es) fw k = run-InStep es _ (interrupt-InStep micros fw k)
    run-InStep (round i ∷ es) fw k = run-InStep es _ (loop-InStep i fw k)
