-- ===== src/Effects/Lights.antt =====
-- The brightness and the triggers that the parts of `update_alarm` leave.
use cpeclock.Base.{
  ℕ, zero, suc, ◌+◌, ◌-◌, ◌/◌, ◌%◌, ◌<◌, ◌≡◌, ◌∙◌, inl, inr, refl, arith, Bool, ◌==◌, Bool-cases,
  IsByte, u32, sub32,
}
use cpeclock.Base.{if_both, sym, ==_iff}
use cpeclock.Board.{Board, IsStrip}
use cpeclock.Effects.{
  Effects, brightness_effect, set_colors, all_off, update_lights, update_sound, run_alarm, num_leds,
}

pub brightness_effect-IsByte :
    (phase phase_time brightness strobe : ℕ)
    → phase_time < 30000
    → IsByte brightness
    → IsByte (brightness_effect phase phase_time brightness strobe).0
unfolding brightness_effect
brightness_effect-IsByte phase phase_time brightness strobe h k = ground arith

module _ {b : Board} (strip : IsStrip b) where
  set_colors-brightness :
      (left r g u : ℕ) (l : b.Lights)
      → b.get_brightness (set_colors b left r g u l) ≡ b.get_brightness l
  unfolding set_colors
  set_colors-brightness zero r g u l = refl
  set_colors-brightness (suc left) r g u l =
      set_colors-brightness left r g u _ ∙ strip.get-pixel (num_leds - suc left) r g u l

  pub update_lights-brightness :
      (phase pulse_time brightness : ℕ) (e : Effects b)
      → IsByte brightness
      → b.get_brightness (update_lights phase pulse_time brightness e).lights ≡ brightness
  unfolding update_lights
  update_lights-brightness phase pulse_time brightness e h =
      elim (Bool-cases (brightness == b.get_brightness e.lights)) [
        | inl same ↦ rw same (sym ((==_iff _ _).0 same))
        | inr other ↦ rw other (
            strip.get-show _
            ∙ set_colors-brightness num_leds _ _ _ _
            ∙ strip.get-set brightness e.lights h)
      ]

  pub all_off-brightness : (e : Effects b) → b.get_brightness (all_off e).lights ≡ 0
  unfolding all_off
  all_off-brightness e = elim (Bool-cases (b.get_brightness e.lights == 0)) [
    | inl dark ↦ rw dark ((==_iff _ _).0 dark)
    | inr lit ↦ rw lit (strip.get-show _ ∙ strip.get-set 0 e.lights (omega arith))
  ]

module _ {b : Board} where
  update_lights-triggers :
      (phase pulse_time brightness : ℕ) (e : Effects b)
      → let e' = update_lights phase pulse_time brightness e in
        (e'.strobe_trigger ≡ e.strobe_trigger) × (e'.last_running_time ≡ e.last_running_time)
  unfolding update_lights
  update_lights-triggers phase pulse_time brightness e =
      if_both
        (λ (x : Effects b).
          (x.strobe_trigger ≡ e.strobe_trigger) × (x.last_running_time ≡ e.last_running_time))
        (brightness == b.get_brightness e.lights) (refl, refl) (refl, refl)

  update_sound-triggers :
      (phase : ℕ) (allow_sound : Bool) (e : Effects b)
      → let e' = update_sound phase allow_sound e in
        (e'.strobe_trigger ≡ e.strobe_trigger) × (e'.last_running_time ≡ e.last_running_time)
  unfolding update_sound
  update_sound-triggers phase allow_sound e =
      if_both
        (λ (x : Effects b).
          (x.strobe_trigger ≡ e.strobe_trigger) × (x.last_running_time ≡ e.last_running_time))
        _ (refl, refl) (refl, refl)

  pub run_alarm-triggers :
      (time : ℕ) (allow_sound : Bool) (e : Effects b)
      → let e' = run_alarm time allow_sound e in
        (e'.strobe_trigger
          ≡ (brightness_effect
              (time / 30000)
              (time % 30000)
              (b.get_brightness e.lights)
              (u32 (e.strobe_trigger + sub32 time e.last_running_time))).1)
        × (e'.last_running_time ≡ time)
  unfolding run_alarm
  run_alarm-triggers t allow_sound e =
      let (lit, strobe) =
        brightness_effect (t / 30000) (t % 30000) (b.get_brightness e.lights)
          (u32 (e.strobe_trigger + sub32 t e.last_running_time)) in
      let begun = record e {
        last_running_time = t;
        strobe_trigger = strobe;
        sound_trigger = u32 (e.sound_trigger + sub32 t e.last_running_time);
      } in
      let (strobe_kept, time_kept) =
        update_lights-triggers (t / 30000) (t % 30000 % 2000) lit begun in
      let (strobe_same, time_same) =
        update_sound-triggers (t / 30000) allow_sound
          (update_lights (t / 30000) (t % 30000 % 2000) lit begun) in
      (strobe_same ∙ strobe_kept, time_same ∙ time_kept)
