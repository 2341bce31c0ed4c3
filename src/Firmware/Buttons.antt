-- ===== src/Firmware/Buttons.antt =====
-- Cancelling the alarm: the left button, and the extension button held down.
use cpeclock.Base.{
  ℕ, suc, ◌+◌, ◌<◌, ◌≡◌, ◌≢◌, ◌⊎◌, inl, inr, ◌∙◌, refl, sym, ap, subst, arith, List, [], ◌∷◌, Bool,
  true, false, not, if_both, if◌then◌else◌, ◌==◌, Bool-cases, ==_iff,
}
use cpeclock.Alarm
use cpeclock.Alarm.{State, disabled, differs, to_byte}
use cpeclock.Alarm.Update as AlarmUpdate
use cpeclock.Board.{Board, IsStrip}
use cpeclock.Hal
use cpeclock.Hmac.{Sha256}
use cpeclock.Ncrs.{Rs}
use cpeclock.Effects.Bounds.{update_alarm-wanted, wanted, running_time}
use cpeclock.Firmware.{
  Firmware, Inputs, carry_out, settle, update_alarm, update_display, check_alarm, tick, extension,
  right, left, sound_switch, receive, loop, interrupt,
}
use cpeclock.Firmware.Memory.{Event, edge, round, run}

-- The alarm is disabled.
abbrev pub IsOff : {nv : Hal.Nvram} {b : Board} → Firmware nv b → Type 0
IsOff fw = fw.device.alarm.state ≡ disabled

module _ {nv : Hal.Nvram} {b : Board} where
  check_alarm_off :
      (fw : Firmware nv b) → IsOff fw → (check_alarm fw).alarm_active ≡ 0 × IsOff (check_alarm fw)
  unfolding check_alarm
  check_alarm_off fw off =
      let hour = b.hour fw.screen.now_time in
      let minute = b.minute fw.screen.now_time in
      let same = AlarmUpdate.alarm_update_disabled hour minute fw.device.alarm fw.device.hal off in
      (
        ap (λ (r : ℕ × Alarm.Alarm × Hal.Hal nv). r.0) same,
        ap (λ (r : ℕ × Alarm.Alarm × Hal.Hal nv). r.1.state) same ∙ off,
      )

  left-IsOff : (millis : ℕ) (fw : Firmware nv b) → IsOff (left true millis fw)
  unfolding left settle carry_out update_alarm Alarm.alarm_unset
  left-IsOff millis fw =
      if_both IsOff (differs fw.device.alarm.state disabled) (check_alarm_off _ refl).1 refl

  sound_switch-IsOff :
      (switch again : Bool) (fw : Firmware nv b) → IsOff fw → IsOff (sound_switch switch again fw)
  unfolding sound_switch carry_out
  sound_switch-IsOff switch again fw off =
      if_both IsOff (if fw.allow_sound then switch else not switch) off off

  -- The count of the rounds with the extension button down.
  abbrev Keeps : Firmware nv b → Firmware nv b → Type 0
  Keeps fw fw' = fw'.extension_button_pressed ≡ fw.extension_button_pressed

  tick-Keeps : (i : Inputs b) (fw : Firmware nv b) → Keeps fw (tick i fw)
  unfolding tick update_alarm update_display check_alarm
  tick-Keeps i fw =
      if_both (Keeps fw) (b.second i.rtc_now == b.second fw.screen.now_time) refl
        (if_both (Keeps fw) (b.second i.rtc_now == 0) refl refl)

  right-Keeps :
      (pressed : Bool) (millis : ℕ) (fw : Firmware nv b) → Keeps fw (right pressed millis fw)
  unfolding right settle carry_out update_alarm check_alarm
  right-Keeps pressed millis fw =
      if_both (Keeps fw) (not pressed) refl (if_both (Keeps fw) _ refl refl)

  left-Keeps :
      (pressed : Bool) (millis : ℕ) (fw : Firmware nv b) → Keeps fw (left pressed millis fw)
  unfolding left settle carry_out update_alarm check_alarm
  left-Keeps pressed millis fw =
      if_both (Keeps fw) (not pressed) refl (if_both (Keeps fw) _ refl refl)

  sound_switch-Keeps :
      (switch again : Bool) (fw : Firmware nv b) → Keeps fw (sound_switch switch again fw)
  unfolding sound_switch carry_out
  sound_switch-Keeps switch again fw =
      if_both (Keeps fw) (if fw.allow_sound then switch else not switch) refl refl

  -- The extension button down, before the hundredth round and in it.
  extension_down :
      (i : Inputs b) (fw : Firmware nv b)
      → i.extension_button ≡ true
      → fw.extension_button_pressed < 100
      → ((extension i fw).0.extension_button_pressed ≡ fw.extension_button_pressed + 1)
        × (fw.extension_button_pressed ≡ 99 → (extension i fw).2 ≡ true)
  unfolding extension
  extension_down i fw down h = ground (arith, down)

  module _ (rs : Rs) (c : rs.Control) (sha : Sha256) (secret : List ℕ) where
    receive-Keeps : (fw : Firmware nv b) → Keeps fw (receive rs c sha secret fw)
    unfolding receive carry_out
    receive-Keeps fw = refl

    loop_down :
        (i : Inputs b) (fw : Firmware nv b)
        → i.extension_button ≡ true
        → fw.extension_button_pressed < 100
        → let fw' = loop rs c sha secret i fw in
          (fw'.extension_button_pressed ≡ fw.extension_button_pressed + 1)
          × (fw.extension_button_pressed ≡ 99 → IsOff fw')
    unfolding loop
    loop_down i fw down h =
        let ready = receive rs c sha secret (tick i fw) in
        let same : ready.extension_button_pressed ≡ fw.extension_button_pressed =
          receive-Keeps (tick i fw) ∙ tick-Keeps i fw in
        let (pressed, cancel) = extension_down i ready down (omega (arith, same)) in
        let (fw', right_button, left_button) = extension i ready in
        (
          sound_switch-Keeps _ _ _
              ∙ left-Keeps _ _ _
              ∙ right-Keeps _ _ _
              ∙ pressed
              ∙ ap (λ n. n + 1) same,
          λ last. sound_switch-IsOff _ _ _ (
              subst (λ l. IsOff (left l i.millis_left (right right_button i.millis_right fw')))
                (sym (cancel (same ∙ last))) (left-IsOff i.millis_left _)),
        )

-- The extension button is down in every round.
unfoldable pub HeldDown : {b : Board} → List (Event b) → Type 0
HeldDown [] = Unit {0}
HeldDown (edge micros ∷ es) = HeldDown es
HeldDown (round i ∷ es) = (i.extension_button ≡ true) × HeldDown es

unfoldable pub rounds : {b : Board} → List (Event b) → ℕ
rounds [] = 0
rounds (edge micros ∷ es) = rounds es
rounds (round i ∷ es) = suc (rounds es)

-- Without an alarm the lights are out.
update_alarm_dark :
    {nv : Hal.Nvram} {b : Board} (strip : IsStrip b) (millis : ℕ) (fw : Firmware nv b)
    → fw.alarm_active ≡ 0
    → b.get_brightness (update_alarm millis fw).effects.lights ≡ 0
unfolding update_alarm
update_alarm_dark strip millis fw none =
    update_alarm-wanted strip fw.alarm_active millis fw.millisecond_offset fw.allow_sound fw.effects
    ∙ ap (λ n. wanted n (running_time n millis fw.millisecond_offset) fw.effects) none

-- The alarm has been found to be off.
pub record IsSilent {nv : Hal.Nvram} {b : Board} (fw : Firmware nv b) : Type 0 where
  pub state : IsOff fw
  pub silent : fw.alarm_active ≡ 0
  pub dark : b.get_brightness fw.effects.lights ≡ 0

-- What a change of the second does then.
tick-IsSilent :
    {nv : Hal.Nvram} {b : Board} (strip : IsStrip b) (i : Inputs b) (fw : Firmware nv b)
    → IsOff fw
    → b.second i.rtc_now ≢ b.second fw.screen.now_time
    → IsSilent (tick i fw)
unfolding tick update_display update_alarm
tick-IsSilent {nv} {b} strip i fw off later =
    go (b.second i.rtc_now == b.second fw.screen.now_time) (ground (arith, later))
  where
    fw' : Firmware nv b
    fw' = record fw { screen = record (fw.screen) { now_time = i.rtc_now } }

    minute : Firmware nv b
    minute =
        if b.second i.rtc_now == 0 then record fw' { millisecond_offset = i.millis_minute } else fw'

    checked : (check_alarm minute).alarm_active ≡ 0 × IsOff (check_alarm minute)
    checked = check_alarm_off minute (if_both IsOff (b.second i.rtc_now == 0) off off)

    go :
        (same : Bool)
        → same ≡ false
        → IsSilent (
            if same
            then update_alarm i.millis_tick fw'
            else update_display (update_alarm i.millis_tick (check_alarm minute)))
    go true e = absurd (ground (arith, e))
    go false e = record {
      state = checked.1;
      silent = checked.0;
      dark = update_alarm_dark strip i.millis_tick (check_alarm minute) checked.0;
    }

module _ {nv : Hal.Nvram} {b : Board} (rs : Rs) (c : rs.Control) (sha : Sha256)
    (secret : List ℕ) where
  run_from :
      (es : List (Event b)) (fw : Firmware nv b)
      → HeldDown es
      → fw.extension_button_pressed + rounds es ≡ 100
      → (fw.extension_button_pressed ≡ 100 → IsOff fw)
      → IsOff (run rs c sha secret es fw)
  unfolding run HeldDown rounds interrupt
  run_from [] fw held h off = off (omega (arith, h))
  run_from (edge micros ∷ es) fw held h off = run_from es (interrupt micros fw) held h off
  run_from (round i ∷ es) fw (down, held) h off =
      let (counted, last) = loop_down rs c sha secret i fw down (omega (arith, h)) in
      run_from es (loop rs c sha secret i fw) held (omega (arith, h, counted))
        (λ e. last (omega (arith, e, counted)))

  -- Holding the extension button down for 100 rounds of `loop`, with any interrupts between them
  -- and whatever else happens in them, from a count of 0, leaves the alarm disabled. The next
  -- round's part up to the messages then leaves it so, sees no alarm, and puts out the lights,
  -- unless it comes in the same second. The lights keep the brightness that they are given.
  pub run-IsOff :
      (strip : IsStrip b) (fw : Firmware nv b) (es : List (Event b)) (i : Inputs b)
      → fw.extension_button_pressed ≡ 0
      → HeldDown es
      → rounds es ≡ 100
      → let held = run rs c sha secret es fw in
        IsOff held × ((b.second i.rtc_now ≡ b.second held.screen.now_time) ⊎ IsSilent (tick i held))
  run-IsOff strip fw es i zero_count down hundred =
      let held = run rs c sha secret es fw in
      let off =
        run_from es fw down (omega (arith, zero_count, hundred))
          (λ e. absurd (omega (arith, e, zero_count))) in
      (
        off,
        elim (Bool-cases (b.second i.rtc_now == b.second held.screen.now_time)) [
          | inl same ↦ inl ((==_iff _ _).0 same)
          | inr other ↦ inr (tick-IsSilent strip i held off (ground (arith, other)))
        ],
      )
