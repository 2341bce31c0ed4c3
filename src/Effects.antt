-- ===== src/Effects.antt =====
-- cpeclock.ino: the lights and the sound of an alarm. `update_alarm` takes the variables that it
-- reads, and the time from `millis()`.
pub mod Brightness
pub mod Lights
pub mod Calls
pub mod Bounds
pub mod Strobe
pub mod Tones
mod Tests
use cpeclock.Base.{
  ℕ, zero, suc, ◌+◌, ◌-◌, ◌*◌, ◌/◌, ◌%◌, List, [], ◌∷◌, ◌++◌, Bool, true, false, not, ◌&&◌, ltb,
  leb, ◌==◌, if◌then◌else◌, u32, sub32,
}
use cpeclock.Board.{Board}

abbrev pub num_leds : ℕ
num_leds = 10

-- `digitalWrite` to INT_PIN, and the calls of the speaker.
pub data Call : Type 0 where
  int_pin : Bool → Call
  speaker : Bool → Call
  play_tone : ℕ → ℕ → Call

pub record Effects (b : Board) : Type 0 where
  pub lights : b.Lights
  pub last_running_time : ℕ
  pub sound_trigger : ℕ
  pub strobe_trigger : ℕ
  pub calls : List Call

abbrev pub total_phase_time : ℕ
total_phase_time = 30000

abbrev pub total_pulse_time : ℕ
total_pulse_time = 2000

-- The result, and `strobe_trigger`.
abbrev pub try_subtract_strobe_trigger : ℕ → ℕ → Bool × ℕ
try_subtract_strobe_trigger how_often strobe =
    if leb how_often strobe then (true, strobe - how_often) else (false, strobe)

-- The argument of the first `switch`.
abbrev pub brightness_phase : ℕ → ℕ
brightness_phase phase = if leb phase 4 then phase else (phase - 1) % 4 + 1

abbrev pub pulse : ℕ → ℕ
pulse pulse_time =
    if ltb pulse_time (total_pulse_time / 2)
    then 255 - pulse_time * 255 / (total_pulse_time / 2)
    else (pulse_time - total_pulse_time / 2) * 255 / (total_pulse_time / 2)

-- A step every `how_often` milliseconds: a fade or a pulse keeps the brightness between two steps,
-- and a strobe puts the lights out.
abbrev pub stepped : ℕ → ℕ → ℕ → ℕ → ℕ × ℕ
stepped how_often strobe lit unlit =
    let (now, strobe') = try_subtract_strobe_trigger how_often strobe in
    ((if now then lit else unlit), strobe')

-- The first `switch`: the brightness, and `strobe_trigger`.
pub brightness_effect : ℕ → ℕ → ℕ → ℕ → ℕ × ℕ
brightness_effect phase phase_time brightness strobe =
    let selected = brightness_phase phase in
    if selected == 0
    then stepped 250 strobe (phase_time * 255 / total_phase_time) brightness
    else if selected == 1
    then stepped 250 strobe (pulse (phase_time % total_pulse_time)) brightness
    else if selected == 2
    then stepped 2000 strobe 255 0
    else if selected == 3
    then stepped 500 strobe 255 0
    else stepped 250 strobe 255 0

-- The loop over the lights, with `left` to go.
pub set_colors : (b : Board) → ℕ → ℕ → ℕ → ℕ → b.Lights → b.Lights
set_colors b zero r g u lights = lights
set_colors b (suc left) r g u lights =
    set_colors b left r g u (b.set_pixel_color (num_leds - suc left) r g u lights)

-- The colour: yellow, then white, then white and red in turn.
abbrev pub color : ℕ → ℕ → ℕ × ℕ × ℕ
color phase pulse_time =
    if leb phase 4
    then (255, 255, 0)
    else if leb phase 8
    then (255, 255, 255)
    else if ltb pulse_time (total_pulse_time / 2)
    then (255, 255, 255)
    else (255, 0, 0)

-- The second `switch`, from phase 3 on; before, there is no sound.
abbrev pub tone_period : ℕ → ℕ
tone_period phase =
    if ltb phase 3
    then 0
    else if phase == 3
    then 10000
    else if phase == 4
    then 5000
    else if phase == 5
    then 3000
    else if phase == 6
    then 2000
    else if phase == 7
    then 1000
    else if phase == 8
    then 500
    else if phase == 9
    then 200
    else 100

module _ {b : Board} where
  open b use {get_brightness, set_brightness, show}

  -- No alarm.
  pub all_off : Effects b → Effects b
  all_off e =
      let dark = record e {
        lights = show (set_brightness 0 e.lights);
        calls = e.calls ++ (int_pin true ∷ int_pin false ∷ []);
      } in
      let e' = if get_brightness e.lights == 0 then e else dark in
      record e' { sound_trigger = 0; strobe_trigger = 0; calls = e'.calls ++ (speaker false ∷ []) }

  -- The part that changes the lights.
  pub update_lights : ℕ → ℕ → ℕ → Effects b → Effects b
  update_lights phase pulse_time brightness e =
      let (r, g, u) = color phase pulse_time in
      if brightness == get_brightness e.lights then e else record e {
        lights = show (set_colors b num_leds r g u (set_brightness brightness e.lights));
        calls = e.calls ++ (int_pin true ∷ int_pin false ∷ []);
      }

  -- The part that makes the sound.
  pub update_sound : ℕ → Bool → Effects b → Effects b
  update_sound phase allow_sound e =
      let how_often = tone_period phase in
      let sound = if ltb phase 3 then 0 else e.sound_trigger in
      let calls = if leb 3 phase then e.calls ++ (speaker allow_sound ∷ []) else e.calls in
      if leb how_often sound && ltb 0 how_often
      then record e { sound_trigger = sound - how_often; calls = calls ++ (play_tone 440 20 ∷ []) }
      else record e { sound_trigger = sound; calls = calls }

  -- An alarm, which has sounded for `running_time` milliseconds.
  pub run_alarm : ℕ → Bool → Effects b → Effects b
  run_alarm running_time allow_sound e =
      let delta = sub32 running_time e.last_running_time in
      let phase = running_time / total_phase_time in
      let phase_time = running_time % total_phase_time in
      let (brightness, strobe) =
        brightness_effect phase phase_time (get_brightness e.lights)
          (u32 (e.strobe_trigger + delta)) in
      update_sound phase allow_sound (
        update_lights phase (phase_time % total_pulse_time) brightness (record e {
          last_running_time = running_time;
          strobe_trigger = strobe;
          sound_trigger = u32 (e.sound_trigger + delta);
        }))

  unfoldable pub update_alarm : ℕ → ℕ → ℕ → Bool → Effects b → Effects b
  update_alarm alarm_active millis millisecond_offset allow_sound e =
      let running_time =
        sub32 (u32 ((alarm_active - 1) * 60000 + millis)) (u32 millisecond_offset) in
      if alarm_active == 0 then all_off e else run_alarm running_time allow_sound e
