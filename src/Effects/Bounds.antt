-- ===== src/Effects/Bounds.antt =====
-- What a call of `update_alarm` does to the lights, and what it may do to the speaker.
use cpeclock.Base.{
  ℕ, ◌+◌, ◌-◌, ◌*◌, ◌/◌, ◌%◌, ◌≡◌, ◌≢◌, ◌⊎◌, ◌∙◌, inl, inr, refl, ap, subst, arith, Bool, true,
  false, ◌==◌, if◌then◌else◌, Bool-cases, IsByte, u32, sub32,
}
use cpeclock.Base.{if_both, sym, ==_iff}
use cpeclock.Board.{Board, IsStrip}
use cpeclock.Effects.Calls.{
  Allowed, Adds, Adds-trans, update_lights-Adds, update_sound-Adds, all_off-Adds,
}
use cpeclock.Effects.Lights.{
  brightness_effect-IsByte, update_lights-brightness, all_off-brightness, run_alarm-triggers,
}
use cpeclock.Effects.Brightness.{display, Shows, brightness_effect-Shows}
use cpeclock.Effects.{Effects, brightness_effect, all_off, update_sound, run_alarm, update_alarm}

-- The milliseconds for which the alarm has sounded, as `update_alarm` computes them.
abbrev pub running_time : ℕ → ℕ → ℕ → ℕ
running_time alarm_active millis offset =
    sub32 (u32 ((alarm_active - 1) * 60000 + millis)) (u32 offset)

-- The brightness of the lights and the strobe's trigger after a call, and the time that is kept
-- for the next call.
abbrev pub IsLit : {b : Board} → ℕ → ℕ → Effects b → Effects b → Type 0
IsLit {b} alarm_active time e e' =
    ((alarm_active ≡ 0) × (b.get_brightness e'.lights ≡ 0) × (e'.strobe_trigger ≡ 0))
    ⊎ ((alarm_active ≢ 0)
        × Shows (display (time / 30000)) (time % 30000) (b.get_brightness e.lights)
            (b.get_brightness e'.lights) (u32 (e.strobe_trigger + sub32 time e.last_running_time))
            e'.strobe_trigger
        × (e'.last_running_time ≡ time))

abbrev pub wanted : {b : Board} → ℕ → ℕ → Effects b → ℕ
wanted {b} alarm_active time e =
    if alarm_active == 0
    then 0
    else (brightness_effect (time / 30000) (time % 30000) (b.get_brightness e.lights)
        (u32 (e.strobe_trigger + sub32 time e.last_running_time))).0

module _ {b : Board} (strip : IsStrip b) (alarm_active millis offset : ℕ) (allow_sound : Bool)
    (e : Effects b) where
  abbrev time : ℕ
  time = running_time alarm_active millis offset

  run_alarm-Adds :
      alarm_active ≢ 0
      → Adds (Allowed alarm_active time allow_sound) e.calls (run_alarm time allow_sound e).calls
  unfolding run_alarm
  run_alarm-Adds h =
      Adds-trans _ e.calls _ _ (update_lights-Adds alarm_active time allow_sound _ _ _ _)
        (update_sound-Adds alarm_active time allow_sound _ h)

  update_sound-lights :
      (phase : ℕ) (x : Effects b) → (update_sound phase allow_sound x).lights ≡ x.lights
  unfolding update_sound
  update_sound-lights phase x = if_both (λ (y : Effects b). y.lights ≡ x.lights) _ refl refl

  wanted-IsByte : IsByte (wanted alarm_active time e)
  wanted-IsByte = if_both IsByte (alarm_active == 0) (omega arith) (
      brightness_effect-IsByte (time / 30000) (time % 30000) _ _ (omega arith)
        (strip.byte e.lights))

  run_alarm-brightness :
      (alarm_active == 0) ≡ false
      → b.get_brightness (run_alarm time allow_sound e).lights ≡ wanted alarm_active time e
  unfolding run_alarm
  run_alarm-brightness h =
      ap b.get_brightness (update_sound-lights (time / 30000) _)
      ∙ update_lights-brightness strip _ _ _ _ (
          brightness_effect-IsByte (time / 30000) (time % 30000) _ _ (omega arith)
            (strip.byte e.lights))
      ∙ rw h refl

  pub update_alarm-wanted :
      b.get_brightness (update_alarm alarm_active millis offset allow_sound e).lights
      ≡ wanted alarm_active time e
  unfolding update_alarm
  update_alarm-wanted = brightness (alarm_active == 0) refl
    where
      brightness :
          (off : Bool)
          → (alarm_active == 0) ≡ off
          → b.get_brightness (if off then all_off e else run_alarm time allow_sound e).lights
            ≡ wanted alarm_active time e
      brightness true off = all_off-brightness strip e ∙ rw off refl
      brightness false on = run_alarm-brightness on

  run_alarm-Shows :
      (alarm_active == 0) ≡ false
      → let e' = run_alarm time allow_sound e in
        Shows
          (display (time / 30000))
          (time % 30000)
          (b.get_brightness e.lights)
          (b.get_brightness e'.lights)
          (u32 (e.strobe_trigger + sub32 time e.last_running_time))
          e'.strobe_trigger
  run_alarm-Shows h =
      let left = (run_alarm-triggers time allow_sound e).0 in
      rw (run_alarm-brightness h, left, h)
        (brightness_effect-Shows (time / 30000) _ _ _ (omega arith))

  all_off-triggers : (all_off e).strobe_trigger ≡ 0
  unfolding all_off
  all_off-triggers = refl

  update_alarm-IsLit :
      IsLit alarm_active time e (update_alarm alarm_active millis offset allow_sound e)
  unfolding update_alarm
  update_alarm-IsLit = elim (Bool-cases (alarm_active == 0)) [
    | inl off ↦ rw off (inl ((==_iff _ _).0 off, all_off-brightness strip e, all_off-triggers))
    | inr on ↦
        rw on
          (inr (ground (arith, on), run_alarm-Shows on, (run_alarm-triggers time allow_sound e).1))
  ]

  update_alarm-Adds :
      Adds
        (Allowed alarm_active time allow_sound)
        e.calls
        (update_alarm alarm_active millis offset allow_sound e).calls
  unfolding update_alarm
  update_alarm-Adds = adds (alarm_active == 0) refl
    where
      adds :
          (off : Bool)
          → (alarm_active == 0) ≡ off
          → Adds
              (Allowed alarm_active time allow_sound)
              e.calls
              (if off then all_off e else run_alarm time allow_sound e).calls
      adds true off = all_off-Adds alarm_active time allow_sound e
      adds false on = run_alarm-Adds (ground (arith, on))

  -- After a call of `update_alarm` without an alarm the lights are dark and the strobe's trigger is
  -- 0. With an alarm the lights show the display of its half minute: in the first a fade in, at the
  -- share of 255 that has passed; in the second a pulse, which fades out in a second and in again
  -- in the next; then strobes of 2000, 500 and 250 milliseconds; then the pulse and the three
  -- strobes in turn for ever. A step of the display is due when the trigger, with the time since
  -- the last call added modulo 2 ^ 32, has reached its period, which is 250 for the fade and the
  -- pulse, and the trigger then loses the period. When none is due, a strobe is dark, and the fade
  -- and the pulse keep the brightness before the call. The time is kept for the next call. The
  -- brightness is a byte. A call never plays a tone, nor puts the speaker on, unless there is an
  -- alarm that has sounded for a minute and a half, and it puts the speaker on only if sound is
  -- allowed. The lights keep the brightness that they are given.
  pub update_alarm_lem :
      let e' = update_alarm alarm_active millis offset allow_sound e in
      IsLit alarm_active time e e'
      × IsByte (b.get_brightness e'.lights)
      × Adds (Allowed alarm_active time allow_sound) e.calls e'.calls
  update_alarm_lem =
      (update_alarm-IsLit, subst IsByte (sym update_alarm-wanted) wanted-IsByte, update_alarm-Adds)
