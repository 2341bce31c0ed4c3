-- ===== src/Effects/Calls.antt =====
-- The calls of the speaker and of the lights that the parts of `update_alarm` make.
use cpeclock.Base.{
  ℕ, ◌/◌, ◌≤◌, ◌≡◌, ◌≢◌, ◌∙◌, inl, inr, refl, ap, arith, List, [], ◌∷◌, ◌++◌, Bool, true, false,
  ltb, leb, ◌==◌, Bool-cases,
}
use mathlib.Core.List.{append-nil, append_assoc}
use cpeclock.Base.{if_both, leb→le, All, sym}
use cpeclock.Board.{Board}
use cpeclock.Effects.{
  Call, int_pin, speaker, play_tone, Effects, all_off, update_lights, update_sound,
}

-- What the calls in a step may be: tones, and a speaker that is on, only for an alarm that has
-- sounded for a minute and a half, and the speaker then only if the switch allows it.
abbrev pub Allowed : ℕ → ℕ → Bool → Call → Type 0
Allowed alarm_active running_time allow_sound (int_pin level) = Unit {0}
Allowed alarm_active running_time allow_sound (speaker on) =
    on ≡ true → (allow_sound ≡ true) × (alarm_active ≢ 0) × (90000 ≤ running_time)
Allowed alarm_active running_time allow_sound (play_tone f d) =
    (alarm_active ≢ 0) × (90000 ≤ running_time)

-- The calls that a step adds.
pub record Adds (P : Call → Type 0) (old new : List Call) : Type 0 where
  pub added : List Call
  pub whole : new ≡ old ++ added
  pub allowed : All P added

All-append : (P : Call → Type 0) (xs ys : List Call) → All P xs → All P ys → All P (xs ++ ys)
All-append P [] ys h k = k
All-append P (x ∷ xs) ys (p, h) k = (p, All-append P xs ys h k)

module _ (P : Call → Type 0) where
  Adds-none : (old : List Call) → Adds P old old
  Adds-none old = record { added = []; whole = sym (append-nil old); allowed = tt }

  pub Adds-trans : (a b c : List Call) → Adds P a b → Adds P b c → Adds P a c
  Adds-trans a b c p q = record {
    added = p.added ++ q.added;
    whole = q.whole ∙ ap (λ t. t ++ q.added) p.whole ∙ append_assoc a p.added q.added;
    allowed = All-append P p.added q.added p.allowed q.allowed;
  }

  Adds-some : (old added : List Call) → All P added → Adds P old (old ++ added)
  Adds-some old added h = record { added = added; whole = refl; allowed = h }

module _ {b : Board} where
  pub update_lights-Adds :
      (alarm_active running_time : ℕ) (allow_sound : Bool) (phase pulse_time brightness : ℕ)
      (e : Effects b)
      → Adds
          (Allowed alarm_active running_time allow_sound)
          e.calls
          (update_lights phase pulse_time brightness e).calls
  unfolding update_lights
  update_lights-Adds a t s phase pulse_time brightness e =
      elim (Bool-cases (brightness == b.get_brightness e.lights)) [
        | inl same ↦ rw same (Adds-none _ e.calls)
        | inr other ↦
            rw other (Adds-some _ e.calls (int_pin true ∷ int_pin false ∷ []) (tt, (tt, tt)))
      ]

  pub update_sound-Adds :
      (alarm_active running_time : ℕ) (allow_sound : Bool) (e : Effects b)
      → alarm_active ≢ 0
      → Adds
          (Allowed alarm_active running_time allow_sound)
          e.calls
          (update_sound (running_time / 30000) allow_sound e).calls
  unfolding update_sound
  update_sound-Adds a t s e h = elim (Bool-cases (leb 3 (t / 30000))) [
    | inl loud ↦
        let long : 90000 ≤ t = omega (arith, leb→le _ _ loud) in
        let P = Allowed a t s in
        let on = Adds-some P e.calls (speaker s ∷ []) (λ y. (y, h, long), tt) in
        rw loud (
          if_both (λ (x : Effects b). Adds P e.calls x.calls) _
            (Adds-trans P e.calls _ _ on
              (Adds-some P (e.calls ++ (speaker s ∷ [])) (play_tone 440 20 ∷ []) ((h, long), tt)))
            on)
    | inr quiet ↦
        let early : ltb (t / 30000) 3 ≡ true = ground (arith, quiet) in
        simp (quiet, early) (Adds-none (Allowed a t s) e.calls)
  ]

  pub all_off-Adds :
      (alarm_active running_time : ℕ) (allow_sound : Bool) (e : Effects b)
      → Adds (Allowed alarm_active running_time allow_sound) e.calls (all_off e).calls
  unfolding all_off
  all_off-Adds a t s e =
      let P = Allowed a t s in
      let off : (x : Effects b) → Adds P x.calls (x.calls ++ (speaker false ∷ [])) =
        λ x. Adds-some P x.calls (speaker false ∷ []) ((λ y. absurd (ground (arith, y))), tt) in
      elim (Bool-cases (b.get_brightness e.lights == 0)) [
        | inl dark ↦ rw dark (off e)
        | inr lit ↦ rw lit (
            Adds-trans P e.calls (e.calls ++ (int_pin true ∷ int_pin false ∷ [])) _
              (Adds-some P e.calls (int_pin true ∷ int_pin false ∷ []) (tt, (tt, tt)))
              (Adds-some P _ (speaker false ∷ []) ((λ y. absurd (ground (arith, y))), tt)))
      ]
