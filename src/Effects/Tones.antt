-- ===== src/Effects/Tones.antt =====
-- How often an alarm sounds.
use native.Mathlib.Nat.{mul-suc}
use cpeclock.Base.{
  ℕ, suc, ◌+◌, ◌-◌, ◌*◌, ◌/◌, ◌%◌, ◌^◌, ◌≤◌, ◌<◌, ◌≡◌, ◌≢◌, refl, sym, ap, arith, List, [], ◌∷◌,
  ◌++◌, Bool, true, false, leb, ltb, ◌==◌, if_both, u32, sub32, subst,
}
use cpeclock.Board.{Board}
use cpeclock.Effects.{
  Call, int_pin, speaker, play_tone, Effects, tone_period, brightness_effect, update_lights,
  update_sound, run_alarm, update_alarm,
}
use cpeclock.Effects.Strobe.{Ring, ring, time_of, ring-triggers}

-- The tones among the calls of the board.
pub tones : List Call → ℕ
tones [] = 0
tones (int_pin level ∷ calls) = tones calls
tones (speaker on ∷ calls) = tones calls
tones (play_tone f d ∷ calls) = suc (tones calls)

tones-append : (xs ys : List Call) → tones (xs ++ ys) ≡ tones xs + tones ys
unfolding tones
tones-append [] ys = omega arith
tones-append (int_pin level ∷ xs) ys = tones-append xs ys
tones-append (speaker on ∷ xs) ys = tones-append xs ys
tones-append (play_tone f d ∷ xs) ys = omega (arith, tones-append xs ys)

abbrev pub rings : {b : Board} → List Ring → Effects b → Effects b
rings [] e = e
rings (r ∷ rs) e = rings rs (ring r e)

-- Calls in one phase of an alarm, each at most a tone's period after the one before, which was at
-- `last`.
abbrev pub InPhase : ℕ → ℕ → List Ring → Type 0
InPhase phase last [] = Unit {0}
InPhase phase last (r ∷ rs) =
    (r.alarm_active ≢ 0)
    × (time_of r / 30000 ≡ phase)
    × ((last ≤ time_of r) × (time_of r ≤ last + tone_period phase))
    × InPhase phase (time_of r) rs

module _ {b : Board} where
  update_lights-tones :
      (phase pulse_time brightness : ℕ) (e : Effects b)
      → let e' = update_lights phase pulse_time brightness e in
        (tones e'.calls ≡ tones e.calls) × (e'.sound_trigger ≡ e.sound_trigger)
  unfolding update_lights tones
  update_lights-tones phase pulse_time brightness e =
      if_both
        (λ (x : Effects b). (tones x.calls ≡ tones e.calls) × (x.sound_trigger ≡ e.sound_trigger))
        (brightness == b.get_brightness e.lights) (refl, refl)
        (omega (arith, tones-append e.calls (int_pin true ∷ int_pin false ∷ [])), refl)

  -- One tone, if the trigger has reached the period.
  update_sound-tones :
      (phase : ℕ) (allow_sound : Bool) (e : Effects b)
      → 3 ≤ phase
      → e.sound_trigger < 2 * tone_period phase
      → let e' = update_sound phase allow_sound e in
        let period = tone_period phase in
        (period * tones e'.calls + e'.sound_trigger ≡ period * tones e.calls + e.sound_trigger)
        × (e'.sound_trigger < period)
  unfolding update_sound tones
  update_sound-tones phase allow_sound e loud small =
      let q = tone_period phase in
      let quiet : ltb phase 3 ≡ false = ground (arith, loud) in
      let on : leb 3 phase ≡ true = ground (arith, loud) in
      let some_time : ltb 0 q ≡ true = ground (arith, loud) in
      let calls = e.calls ++ (speaker allow_sound ∷ []) in
      let same : tones calls ≡ tones e.calls =
        omega (arith, tones-append e.calls (speaker allow_sound ∷ [])) in
      let more : tones (calls ++ (play_tone 440 20 ∷ [])) ≡ suc (tones calls) =
        omega (arith, tones-append calls (play_tone 440 20 ∷ [])) in
      ground (arith, same, more, mul-suc q (tones calls))

  ring-tones :
      (r : Ring) (e : Effects b)
      → r.alarm_active ≢ 0
      → 3 ≤ time_of r / 30000
      → let period = tone_period (time_of r / 30000) in
        (e.last_running_time ≤ time_of r) × (time_of r ≤ e.last_running_time + period)
        → e.last_running_time < 2 ^ 32
        → e.sound_trigger < period
        → let e' = ring r e in
          (period * tones e'.calls + e'.sound_trigger
            ≡ period * tones e.calls + e.sound_trigger + (time_of r - e.last_running_time))
          × (e'.sound_trigger < period)
  unfolding update_alarm run_alarm
  ring-tones r e on loud soon fits small =
      let t = time_of r in
      let off : (r.alarm_active == 0) ≡ false = ground (arith, on) in
      let short : tone_period (t / 30000) ≤ 10000 = ground arith in
      let (lit, strobe) =
        brightness_effect (t / 30000) (t % 30000) (b.get_brightness e.lights)
          (u32 (e.strobe_trigger + sub32 t e.last_running_time)) in
      let begun = record e {
        last_running_time = t;
        strobe_trigger = strobe;
        sound_trigger = u32 (e.sound_trigger + sub32 t e.last_running_time);
      } in
      let grown : u32 (e.sound_trigger + sub32 t e.last_running_time)
          ≡ e.sound_trigger + (t - e.last_running_time) =
        omega (arith, short) in
      let seen = update_lights (t / 30000) (t % 30000 % 2000) lit begun in
      let (kept, trigger) = update_lights-tones (t / 30000) (t % 30000 % 2000) lit begun in
      let (counted, rest) =
        update_sound-tones (t / 30000) r.allow_sound seen loud
          (omega (arith, trigger, grown, small, soon)) in
      let q = tone_period (t / 30000) in
      let count = ap (λ n. q * n + seen.sound_trigger) kept in
      rw (off, update_alarm) (omega (arith, counted, count, trigger, grown), rest)

  -- How many tones an alarm plays. While the alarm stays in one phase from the fourth on, with
  -- calls of `update_alarm` at most the phase's period apart, and less than a period in the trigger
  -- at the beginning, the period times the tones that are played, and what is left in the trigger,
  -- is the time that has passed and what was in the trigger; and less than a period is left. So the
  -- tones are as many as there were whole periods.
  pub rings-tones :
      (phase : ℕ) (rs : List Ring) (e : Effects b)
      → 3 ≤ phase
      → e.last_running_time < 2 ^ 32
      → InPhase phase e.last_running_time rs
      → let period = tone_period phase in
        e.sound_trigger < period
        → let e' = rings rs e in
          (e.last_running_time ≤ e'.last_running_time)
          × (period * tones e'.calls + e'.sound_trigger
              ≡ period * tones e.calls
                + e.sound_trigger
                + (e'.last_running_time - e.last_running_time))
          × (e'.sound_trigger < period)
  rings-tones phase [] e loud fits steady small = (omega arith, omega arith, small)
  rings-tones phase (r ∷ rs) e loud fits (on, here, soon, steady) small =
      let (counted, rest) =
        rw here at (ring-tones r e on (omega (arith, here)) (rw here soon) fits (rw here small)) in
      let time = (ring-triggers r e on).1 in
      let (later, total, end) =
        rings-tones phase rs (ring r e) loud (omega (arith, time))
          (subst (λ t. InPhase phase t rs) (sym time) steady) rest in
      (omega (arith, later, time), omega (arith, total, counted, time, later), end)
