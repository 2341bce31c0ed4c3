-- ===== src/Screen/Message.antt =====
-- What is on the display after a call of `display_message`.
use cpeclock.Base.{
  ℕ, ◌+◌, ◌<◌, ◌≤◌, ◌≡◌, ◌∙◌, refl, arith, List, [], ◌∷◌, map, true, if◌then◌else◌, Bool-cases, inl,
  inr,
}
use cpeclock.Board.{Board, IsCalendar, century}
use cpeclock.Mail.{c_string}
use cpeclock.NightDay.{NightDay}
use cpeclock.Screen.{
  Screen, Print, display_message, update_display, get_screen_on_time, is_empty, clock_text,
  split_message, screen_width,
}
use cpeclock.Screen.Split.{Splits, split_message-Splits}

module _ {b : Board} (cal : IsCalendar b) (t : b.DateTime) (valid : b.is_valid t ≡ true) where
  still_on : (n : ℕ) → cal.seconds t + n < century → b.not_after t (b.add t n) ≡ true
  still_on n h =
      let (v, e) = cal.add_span t n valid h in
      cal.compares t (b.add t n) valid v ∙ ground (arith, e)

get_screen_on_time-le :
    {b : Board} (night : NightDay) (s : Screen b) → get_screen_on_time night s ≤ 120
unfolding get_screen_on_time
get_screen_on_time-le night s = ground arith

module _ {b : Board} (cal : IsCalendar b) (night : NightDay) (alarm_active : ℕ) (msg : List ℕ)
    (s : Screen b) (valid : b.is_valid s.now_time ≡ true)
    (before_end : cal.seconds s.now_time + 120 < century)
    (nothing_fits : b.text_width [] ≤ screen_width) where
  abbrev s' : Screen b
  s' = display_message night alarm_active msg s

  texts :
      map (λ (p : Print). p.text) s'.frame.prints
      ≡ s'.message_buffer_1
        ∷ (if is_empty s'.message_buffer_2 then clock_text s else s'.message_buffer_2)
        ∷ []
  unfolding display_message update_display
  texts =
      let on = still_on cal s.now_time valid 5 (omega arith) in
      let lit =
        still_on cal s.now_time valid (get_screen_on_time night s)
          (omega (arith, get_screen_on_time-le night s)) in
      elim (Bool-cases (is_empty (split_message b.text_width 31 [] (c_string msg)).1)) [
        | inl e ↦ simp (on, lit, e) refl
        | inr e ↦ simp (on, lit, e) refl
      ]

  -- The first line of a message is a beginning of it that fits the buffer and the width of the
  -- display. It ends with the message, with the room in the buffer, before a newline, or before the
  -- character that is too wide; the second line is empty in the first two cases, and else up to 31
  -- characters of the rest. The display then shows the first line, and below it the second one or,
  -- if that is empty, the time. The present time is valid and at least two minutes before the end
  -- of 2099, and the empty text fits the display.
  pub display_message_lem :
      Splits b.text_width (c_string msg) s'.message_buffer_1 s'.message_buffer_2
      × (map (λ (p : Print). p.text) s'.frame.prints
          ≡ s'.message_buffer_1
            ∷ (if is_empty s'.message_buffer_2 then clock_text s else s'.message_buffer_2)
            ∷ [])
  unfolding display_message update_display
  display_message_lem = (split_message-Splits b.text_width (c_string msg) nothing_fits, texts)
