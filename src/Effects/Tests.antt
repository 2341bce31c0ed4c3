-- ===== src/Effects/Tests.antt =====
-- An alarm in its third minute, with the speaker allowed.
use cpeclock.Base.{ℕ, ◌+◌, ◌-◌, ◌*◌, ◌≤◌, ◌<◌, arith, ◌≡◌, refl, [], ◌∷◌, true, false, IsByte}
use cpeclock.Board.{plain, plain-IsStrip}
use cpeclock.Effects.{
  Effects, speaker, play_tone, int_pin, update_alarm, run_alarm, update_sound, update_lights,
  brightness_effect, set_colors,
}
use cpeclock.Effects.Strobe.{Ring, ring, NeverDark, second_alarm_lit}
use cpeclock.Effects.Tones.{tones, rings, rings-tones}
use cpeclock.Effects.Calls.{Adds, Allowed}
use cpeclock.Effects.Bounds.{running_time, IsLit, update_alarm_lem}

abbrev sounding : Effects plain
sounding = record {
  lights = 255;
  last_running_time = 130000;
  sound_trigger = 9990;
  strobe_trigger = 100;
  calls = [];
}

update_alarm_lem_example :
    let time = running_time 3 1011000 1000990 in
    let e' = update_alarm 3 1011000 1000990 true sounding in
    IsLit 3 time sounding e'
    × IsByte (plain.get_brightness e'.lights)
    × Adds (Allowed 3 time true) [] e'.calls
update_alarm_lem_example = update_alarm_lem plain-IsStrip 3 1011000 1000990 true sounding

-- The strobe goes dark, and a tone is due.
update_alarm_tone :
    let e' = update_alarm 3 1011000 1000990 true sounding in
    (plain.get_brightness e'.lights ≡ 0)
    × (e'.calls ≡ int_pin true ∷ int_pin false ∷ speaker true ∷ play_tone 440 20 ∷ [])
unfolding update_alarm run_alarm update_sound update_lights brightness_effect set_colors
update_alarm_tone = (refl, refl)

-- After an earlier alarm of ten minutes, cancelled: the new alarm's first call.
abbrev second_alarm : Effects plain
second_alarm =
    update_alarm 1 10 0 true
      (record sounding { lights = 0; last_running_time = 599990; strobe_trigger = 0 })

-- In the third phase two calls in a row, ten milliseconds apart, have the lights at their brightest.
second_alarm_strobe :
    let e = update_alarm 2 1500 0 true second_alarm in
    (plain.get_brightness e.lights ≡ 255)
    × (plain.get_brightness (update_alarm 2 1510 0 true e).lights ≡ 255)
unfolding update_alarm run_alarm update_sound update_lights brightness_effect set_colors
second_alarm_strobe = (refl, refl)

abbrev call : ℕ → ℕ → Ring
call active millis = record {
  alarm_active = active;
  millis = millis;
  offset = 0;
  allow_sound = true;
}

second_alarm_lit_example :
    NeverDark
      (call 2 5010 ∷ call 2 5020 ∷ [])
      (ring (call 2 5000) (ring (call 0 4000) (record sounding { lights = 0 })))
second_alarm_lit_example =
    second_alarm_lit plain-IsStrip (record sounding { lights = 0 }) (call 0 4000) (call 2 5000)
      (call 2 5010 ∷ call 2 5020 ∷ []) refl (omega arith) (omega arith) (omega arith)
      (omega arith, omega arith, (omega arith, omega arith, tt)) (omega arith)

-- A tone is due at the first of two calls.
abbrev due : Effects plain
due = record sounding { last_running_time = 100000 }

rings-tones_example :
    let e' = rings (call 2 40020 ∷ call 2 40040 ∷ []) due in
    (due.last_running_time ≤ e'.last_running_time)
    × (10000 * tones e'.calls + e'.sound_trigger
        ≡ 10000 * tones due.calls + 9990 + (e'.last_running_time - due.last_running_time))
    × (e'.sound_trigger < 10000)
rings-tones_example =
    rings-tones 3 (call 2 40020 ∷ call 2 40040 ∷ []) due (omega arith) (omega arith)
      (omega arith, refl, omega arith, (omega arith, refl, omega arith, tt)) (omega arith)
