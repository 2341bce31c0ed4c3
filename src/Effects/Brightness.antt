-- ===== src/Effects/Brightness.antt =====
-- What the lights should show in each phase of an alarm, apart from the code of `update_alarm`.
use cpeclock.Base.{ℕ, zero, suc, ◌+◌, ◌-◌, ◌*◌, ◌%◌, ◌≤◌, ◌<◌, ◌≡◌, ◌⊎◌, refl, sym, subst, arith}
use cpeclock.Effects.{brightness_phase, brightness_effect}

pub data Display : Type 0 where
  fading_in : Display
  pulsing : Display
  strobing : ℕ → Display

-- The displays of the phases of half a minute: after a fade, a pulse and three strobes, given by
-- their periods in milliseconds, in turn without end.
abbrev pub display : ℕ → Display
display zero = fading_in
display (suc zero) = pulsing
display (suc (suc zero)) = strobing 2000
display (suc (suc (suc zero))) = strobing 500
display (suc (suc (suc (suc zero)))) = strobing 250
display (suc (suc (suc (suc (suc p))))) = display (suc p)

-- The brightness is the share of 255 that the time is of the whole, rounded down.
abbrev pub Share : ℕ → ℕ → ℕ → Type 0
Share time whole brightness =
    (brightness * whole ≤ time * 255) × (time * 255 < (brightness + 1) * whole)

-- In a pulse of two seconds the lights go out in the first second, and come back in the other.
abbrev pub Pulse : ℕ → ℕ → Type 0
Pulse time brightness =
    ((time < 1000) × (brightness ≤ 255) × Share time 1000 (255 - brightness))
    ⊎ ((1000 ≤ time) × Share (time - 1000) 1000 brightness)

-- A step is due when the trigger, with `waited` milliseconds, has reached the period, and it takes
-- the period off the trigger. What is shown then differs from what is shown between two steps.
abbrev pub Step : ℕ → ℕ → ℕ → Type 0 → Type 0 → Type 0
Step period waited left due between =
    ((period ≤ waited) × (left + period ≡ waited) × due)
    ⊎ ((waited < period) × (left ≡ waited) × between)

-- The brightness `new` after a call at `time` in the phase, the brightness `old` before, and the
-- trigger before and after.
abbrev pub Shows : Display → ℕ → ℕ → ℕ → ℕ → ℕ → Type 0
Shows fading_in time old new waited left = Step 250 waited left (Share time 30000 new) (new ≡ old)
Shows pulsing time old new waited left = Step 250 waited left (Pulse (time % 2000) new) (new ≡ old)
Shows (strobing period) time old new waited left = Step period waited left (new ≡ 255) (new ≡ 0)

-- The `switch` comes round again after four phases.
brightness_effect-phase :
    (phase time old waited : ℕ)
    → brightness_effect (suc (suc (suc (suc (suc phase))))) time old waited
      ≡ brightness_effect (suc phase) time old waited
unfolding brightness_effect
brightness_effect-phase phase time old waited =
    let same : brightness_phase (suc (suc (suc (suc (suc phase))))) ≡ brightness_phase (suc phase) =
      ground arith in
    rw same refl

pub brightness_effect-Shows :
    (phase time old waited : ℕ)
    → time < 30000
    → let (new, left) = brightness_effect phase time old waited in
      Shows (display phase) time old new waited left
unfolding brightness_effect
brightness_effect-Shows zero time old waited h = ground arith
brightness_effect-Shows (suc zero) time old waited h = ground arith
brightness_effect-Shows (suc (suc zero)) time old waited h = ground arith
brightness_effect-Shows (suc (suc (suc zero))) time old waited h = ground arith
brightness_effect-Shows (suc (suc (suc (suc zero)))) time old waited h = ground arith
brightness_effect-Shows (suc (suc (suc (suc (suc p))))) time old waited h =
    subst (λ r. Shows (display (suc p)) time old r.0 waited r.1)
      (sym (brightness_effect-phase p time old waited))
      (brightness_effect-Shows (suc p) time old waited h)
