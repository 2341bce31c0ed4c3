-- ===== src/Screen/Clock.antt =====
-- Setting the clock: the loop of `clock_set`.
use cpeclock.Base.{
  ℕ, ◌+◌, ◌*◌, ◌/◌, ◌<◌, ◌≤◌, ◌≡◌, ◌∙◌, refl, sym, arith, ◌∷◌, true, false, leb, leb→le, Bool-cases,
  inl, inr,
}
use cpeclock.Board.{Board, IsCalendar, century}
use cpeclock.NightDay.{NightDay}
use cpeclock.Screen.{Screen, one_day, next_after, clock_set, display_message, update_display}

-- What the new time is to the old one.
pub record IsNext (b : Board) (cal : IsCalendar b) (h m sec : ℕ) (now t : b.DateTime) : Type 0 where
  pub valid : b.is_valid t ≡ true
  pub ended : b.not_after t now ≡ false
  pub later : cal.seconds now < cal.seconds t
  pub within_day : cal.seconds t ≤ cal.seconds now + 86400
  pub hour_set : b.hour t ≡ h
  pub minute_set : b.minute t ≡ m
  pub second_set : b.second t ≡ sec

leb_false→lt : (a b : ℕ) → leb a b ≡ false → b < a
leb_false→lt a b h = ground arith

module _ (b : Board) (cal : IsCalendar b) (h m sec : ℕ) (now : b.DateTime)
    (valid : b.is_valid now ≡ true) (hour_fits : h < 24) (minute_fits : m < 60)
    (second_fits : sec < 60) (before_end : cal.seconds now + 86400 < century) where
  abbrev today : b.DateTime
  today = b.date_time (b.year now) (b.month now) (b.day now) h m sec

  -- A time that is the wanted one of some day.
  is_next :
      (t : b.DateTime) (day : ℕ)
      → b.is_valid t ≡ true
      → cal.seconds t ≡ day * 86400 + h * 3600 + m * 60 + sec
      → cal.seconds now < cal.seconds t
      → cal.seconds t ≤ cal.seconds now + 86400
      → IsNext b cal h m sec now t
  is_next t day v e later within = record {
    valid = v;
    ended = cal.compares t now v valid ∙ ground arith;
    later = later;
    within_day = within;
    hour_set = cal.hour_of t v ∙ omega (arith, e);
    minute_set = cal.minute_of t v ∙ omega (arith, e);
    second_set = cal.second_of t v ∙ omega (arith, e);
  }

  pub next_after-IsNext : IsNext b cal h m sec now (next_after b 2 now today)
  unfolding next_after
  next_after-IsNext =
      let (v, e) = cal.same_day now h m sec valid hour_fits minute_fits second_fits in
      let order = cal.compares today now v valid in
      elim (Bool-cases (b.not_after today now)) [
        | inl past ↦
            let early : cal.seconds today ≤ cal.seconds now = leb→le _ _ (sym order ∙ past) in
            let tomorrow = b.add today one_day in
            let (v', e') = cal.add_span today one_day v (omega arith) in
            let next =
              is_next tomorrow (cal.seconds now / 86400 + 1) v' (omega arith) (omega arith)
                (omega arith) in
            rw past (rw next.ended next)
        | inr ahead ↦
            let late : cal.seconds now < cal.seconds today = leb_false→lt _ _ (sym order ∙ ahead) in
            rw ahead (is_next today (cal.seconds now / 86400) v e late (omega arith))
      ]

module _ {b : Board} (cal : IsCalendar b) (night : NightDay) (alarm_active h m sec : ℕ)
    (s : Screen b) (valid : b.is_valid s.now_time ≡ true) (hour_fits : h < 24)
    (minute_fits : m < 60) (second_fits : sec < 60)
    (before_end : cal.seconds s.now_time + 86400 < century) where
  -- From a valid time before the last day of 2099, and for a time of day: the loop of `clock_set`
  -- ends by its own test, after one day added at most. The clock is set to the new time, which is
  -- later than the old one by at most a day and has the hour, the minute and the second asked for.
  pub clock_set_lem :
      let s' = clock_set night alarm_active h m sec s in
      IsNext b cal h m sec s.now_time s'.now_time × (s'.adjusted ≡ s'.now_time ∷ s.adjusted)
  unfolding clock_set display_message update_display
  clock_set_lem = (
    next_after-IsNext b cal h m sec s.now_time valid hour_fits minute_fits second_fits before_end,
    refl,
  )
