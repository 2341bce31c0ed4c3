-- ===== src/Effects/Strobe.antt =====
-- The strobe of an alarm after the first one.
use cpeclock.Base.{
  ℕ, ◌+◌, ◌-◌, ◌*◌, ◌/◌, ◌%◌, ◌^◌, ◌≤◌, ◌<◌, ◌≡◌, ◌≢◌, ◌∙◌, refl, sym, arith, List, [], ◌∷◌, Bool,
  true, false, ◌==◌, ==_iff, if_both, length, u32, sub32, subst,
}
use cpeclock.Board.{Board, IsStrip}
use cpeclock.Effects.{Effects, brightness_phase, brightness_effect, all_off, update_alarm}
use cpeclock.Effects.Lights.{run_alarm-triggers}
use cpeclock.Effects.Bounds.{running_time, update_alarm-wanted}

-- What a call of `update_alarm` reads.
pub record Ring : Type 0 where
  pub alarm_active : ℕ
  pub millis : ℕ
  pub offset : ℕ
  pub allow_sound : Bool

abbrev pub ring : {b : Board} → Ring → Effects b → Effects b
ring r e = update_alarm r.alarm_active r.millis r.offset r.allow_sound e

abbrev pub time_of : Ring → ℕ
time_of r = running_time r.alarm_active r.millis r.offset

-- Calls while there is an alarm, each at most a quarter of a second after the one before, which was
-- at `last`.
abbrev pub Steady : ℕ → List Ring → Type 0
Steady last [] = Unit {0}
Steady last (r ∷ rs) =
    (r.alarm_active ≢ 0) × ((last ≤ time_of r) × (time_of r ≤ last + 250)) × Steady (time_of r) rs

-- In a phase with strobes the lights are at their brightest after each call.
unfoldable pub NeverDark : {b : Board} → List Ring → Effects b → Type 0
NeverDark [] e = Unit {0}
NeverDark {b} (r ∷ rs) e =
    (2 ≤ brightness_phase (time_of r / 30000) → b.get_brightness (ring r e).lights ≡ 255)
    × NeverDark rs (ring r e)

module _ {b : Board} where
  -- The variables that a call leaves for the next one.
  pub ring-triggers :
      (r : Ring) (e : Effects b)
      → r.alarm_active ≢ 0
      → let t = time_of r in
        ((ring r e).strobe_trigger
          ≡ (brightness_effect
              (t / 30000)
              (t % 30000)
              (b.get_brightness e.lights)
              (u32 (e.strobe_trigger + sub32 t e.last_running_time))).1)
        × ((ring r e).last_running_time ≡ t)
  unfolding update_alarm
  ring-triggers r e h =
      let off : (r.alarm_active == 0) ≡ false = ground (arith, h) in
      rw (off, update_alarm) (run_alarm-triggers (time_of r) r.allow_sound e)

-- With plenty in the trigger every test of it succeeds.
brightness_effect-plenty :
    (t brightness strobe : ℕ)
    → 2000 ≤ strobe
    → let (lit, strobe') = brightness_effect (t / 30000) (t % 30000) brightness strobe in
      ((strobe' + 250 ≤ strobe) × (strobe ≤ strobe' + 2000))
      × (2 ≤ brightness_phase (t / 30000) → lit ≡ 255)
unfolding brightness_effect
brightness_effect-plenty t brightness strobe h = ground arith

module _ {b : Board} (strip : IsStrip b) where
  ring-plenty :
      (r : Ring) (e : Effects b)
      → r.alarm_active ≢ 0
      → e.last_running_time < 2 ^ 32
      → (e.last_running_time ≤ time_of r) × (time_of r ≤ e.last_running_time + 250)
      → (2000 ≤ e.strobe_trigger) × (e.strobe_trigger + 250 < 2 ^ 32)
      → let e' = ring r e in
        ((e'.strobe_trigger ≤ e.strobe_trigger) × (e.strobe_trigger ≤ e'.strobe_trigger + 2000))
        × (e'.last_running_time ≡ time_of r)
        × (2 ≤ brightness_phase (time_of r / 30000) → b.get_brightness e'.lights ≡ 255)
  ring-plenty r e on fits soon plenty =
      let t = time_of r in
      let strobe = u32 (e.strobe_trigger + sub32 t e.last_running_time) in
      let grown : strobe ≡ e.strobe_trigger + (t - e.last_running_time) = omega arith in
      let (near, lit) =
        brightness_effect-plenty t (b.get_brightness e.lights) strobe (omega arith) in
      let (left, time) = ring-triggers r e on in
      let off : (r.alarm_active == 0) ≡ false = ground (arith, on) in
      let bright = update_alarm-wanted strip r.alarm_active r.millis r.offset r.allow_sound e in
      (
        (omega (arith, left, near), omega (arith, left, near)),
        time,
        λ strobes. bright ∙ rw off (lit strobes),
      )

  rings-NeverDark :
      (rs : List Ring) (e : Effects b)
      → e.last_running_time < 2 ^ 32
      → Steady e.last_running_time rs
      → (2000 * length rs ≤ e.strobe_trigger) × (e.strobe_trigger + 250 < 2 ^ 32)
      → NeverDark rs e
  unfolding NeverDark
  rings-NeverDark [] e fits steady plenty = tt
  rings-NeverDark (r ∷ rs) e fits (on, soon, steady) plenty =
      let (near, time, lit) = ring-plenty r e on fits soon (omega arith) in
      (
        lit,
        rings-NeverDark rs (ring r e) (omega (arith, time))
            (subst (λ t. Steady t rs) (sym time) steady) (omega (arith, near)),
      )

  -- The call that ends an alarm.
  ring-over :
      (over : Ring) (e : Effects b)
      → over.alarm_active ≡ 0
      → ((ring over e).strobe_trigger ≡ 0) × ((ring over e).last_running_time ≡ e.last_running_time)
  unfolding update_alarm all_off
  ring-over over e ended =
      let off : (over.alarm_active == 0) ≡ true = (==_iff _ _).1 ended in
      rw (off, update_alarm)
        (refl, if_both (λ (x : Effects b). x.last_running_time ≡ e.last_running_time) _ refl refl)

  -- After an alarm that was ended by a call of `update_alarm` without an alarm, the strobe of the
  -- next one never goes dark: if that one's first call comes sooner after its beginning than the
  -- ended alarm had sounded, then in each of the next million calls, at most a quarter of a second
  -- apart, the lights are at their brightest in every phase that should strobe. The ended alarm
  -- sounded for at most 2 ^ 31 milliseconds; the lights keep the brightness that they are given.
  pub second_alarm_lit :
      (e : Effects b) (over first : Ring) (rs : List Ring)
      → over.alarm_active ≡ 0
      → first.alarm_active ≢ 0
      → time_of first < e.last_running_time
      → e.last_running_time ≤ 2 ^ 31
      → Steady (time_of first) rs
      → length rs ≤ 1000000
      → NeverDark rs (ring first (ring over e))
  second_alarm_lit e over first rs ended on early long steady few =
      let before = ring over e in
      let t = time_of first in
      let (none_left, time_kept) = ring-over over e ended in
      let (left, time) = ring-triggers first before on in
      let wrapped = u32 (before.strobe_trigger + sub32 t before.last_running_time) in
      let huge : wrapped ≡ 2 ^ 32 + t - e.last_running_time = omega (arith, none_left, time_kept) in
      let (near, lit) =
        brightness_effect-plenty t (b.get_brightness before.lights) wrapped (omega (arith, huge)) in
      rings-NeverDark rs (ring first before) (omega (arith, time))
        (subst (λ t. Steady t rs) (sym time) steady)
        (omega (arith, left, near, huge), omega (arith, left, near, huge))
