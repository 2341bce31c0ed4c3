-- ===== src/Screen/Tests.antt =====
-- A message on the display, and the clock set back by an hour.
use cpeclock.Base.{ℕ, ◌+◌, ◌*◌, ◌≡◌, refl, arith, List, [], ◌∷◌, map, false, if◌then◌else◌}
use cpeclock.Base.Text.{codes}
use cpeclock.Board.{plain, plain-IsCalendar, plain_seconds}
use cpeclock.Mail.{c_string}
use cpeclock.NightDay.{NightDay}
use cpeclock.Screen.{
  Screen, Print, display_message, clock_set, clock_text, is_empty, split_message, update_display,
  next_after,
}
use cpeclock.Screen.Split.{Splits}
use cpeclock.Screen.Message.{display_message_lem}
use cpeclock.Screen.Clock.{IsNext, clock_set_lem}

abbrev night : NightDay
night = record { start_night_time = 1350; start_day_time = 375 }

-- The second day of 2000, at 12:34:56.
abbrev noon : Screen plain
noon = record {
  now_time = 86400 + 12 * 3600 + 34 * 60 + 56;
  screen_off_time = 0;
  message_off_time = 0;
  message_buffer_1 = [];
  message_buffer_2 = [];
  clock_text_x = 14;
  frame = record { dim = false; prints = [] };
  adjusted = [];
}

abbrev text : List ℕ
text = codes "GOOD\nDAY"

split_message_newline : split_message plain.text_width 31 [] text ≡ (codes "GOOD", codes "DAY")
unfolding split_message
split_message_newline = refl

-- Twelve letters of ten pixels fill the first line.
split_message_wide :
    split_message plain.text_width 31 [] (codes "A LONG MESSAGE")
    ≡ (codes "A LONG MESSA", codes "GE")
unfolding split_message
split_message_wide = refl

display_message_lem_example :
    let s' = display_message night 0 text noon in
    Splits plain.text_width (c_string text) s'.message_buffer_1 s'.message_buffer_2
    × (map (λ (p : Print). p.text) s'.frame.prints
        ≡ s'.message_buffer_1
          ∷ (if is_empty s'.message_buffer_2 then clock_text noon else s'.message_buffer_2)
          ∷ [])
display_message_lem_example =
    display_message_lem plain-IsCalendar night 0 text noon refl
      (omega (arith, plain_seconds noon.now_time)) (omega arith)

-- At 11:34:56 of the next day.
clock_set_lem_example :
    let s' = clock_set night 0 11 34 56 noon in
    IsNext plain plain-IsCalendar 11 34 56 noon.now_time s'.now_time
    × (s'.adjusted ≡ s'.now_time ∷ [])
clock_set_lem_example =
    clock_set_lem plain-IsCalendar night 0 11 34 56 noon refl (omega arith) (omega arith)
      (omega arith) (omega (arith, plain_seconds noon.now_time))

clock_set_tomorrow :
    (clock_set night 0 11 34 56 noon).now_time ≡ 2 * 86400 + 11 * 3600 + 34 * 60 + 56
unfolding clock_set display_message update_display next_after
clock_set_tomorrow = refl
