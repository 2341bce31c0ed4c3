-- ===== src/Screen.antt =====
-- cpeclock.ino: the display's two lines, its timers, and setting the clock. The functions take the
-- night's times and `alarm_active`, which they read.
pub mod Split
pub mod Message
pub mod Clock
mod Tests
use cpeclock.Base.{
  ℕ, zero, suc, ◌+◌, ◌-◌, ◌*◌, ◌/◌, ◌%◌, List, [], ◌∷◌, ◌++◌, Bool, true, false, not, ◌&&◌, ◌||◌,
  Option, none, some, ltb, leb, ◌==◌, if◌then◌else◌, take,
}
use cpeclock.Base.Text.{codes, padded, snprintf}
use cpeclock.Board.{Board}
use cpeclock.Hal.{Output, shown, shown_lp, clock_is_set}
use cpeclock.Mail.{c_string}
use cpeclock.NightDay.{NightDay, night_day_time_test}

abbrev pub screen_width : ℕ
screen_width = 128

abbrev pub screen_height : ℕ
screen_height = 64

abbrev pub blue_area_y : ℕ
blue_area_y = screen_height / 4

abbrev pub line_1_y : ℕ
line_1_y = screen_height / 2 + 17

abbrev pub day_screen_on_time : ℕ
day_screen_on_time = 120

abbrev pub night_screen_on_time : ℕ
night_screen_on_time = 10

abbrev pub message_on_time : ℕ
message_on_time = 5

abbrev pub one_day : ℕ
one_day = 24 * 60 * 60

abbrev pub message_buffer_size : ℕ
message_buffer_size = 32

pub data Font : Type 0 where
  small large : Font

-- A text as it is printed, with its font and the cursor.
pub record Print : Type 0 where
  pub font : Font
  pub x : ℕ
  pub y : ℕ
  pub text : List ℕ

-- What the display shows since the last `display.display()`.
pub record Frame : Type 0 where
  pub dim : Bool
  pub prints : List Print

pub record Screen (b : Board) : Type 0 where
  pub now_time : b.DateTime
  pub screen_off_time : b.DateTime
  pub message_off_time : b.DateTime
  pub message_buffer_1 : List ℕ
  pub message_buffer_2 : List ℕ
  pub clock_text_x : ℕ
  pub frame : Frame
  -- The calls of `rtc.adjust`, the last one first.
  pub adjusted : List b.DateTime

-- The loop of `display_message`, with room for `room` more characters on the first line.
pub split_message : (List ℕ → ℕ) → ℕ → List ℕ → List ℕ → List ℕ × List ℕ
split_message width zero line msg = (line, [])
split_message width (suc room) line [] = (line, [])
split_message width (suc room) line (c ∷ cs) =
    let longer = line ++ (c ∷ []) in
    let rest = split_message width room longer cs in
    if c == b'\n'
    then (line, take (message_buffer_size - 1) cs)
    else if ltb screen_width (width longer)
    then (line, take (message_buffer_size - 1) (c ∷ cs))
    else rest

-- The loop of `clock_set`: days are added until the time lies after the present. It takes one
-- round at most for a time of day.
pub next_after : (b : Board) → ℕ → b.DateTime → b.DateTime → b.DateTime
next_after b zero now_time new_time = new_time
next_after b (suc fuel) now_time new_time =
    let rest = next_after b fuel now_time (b.add new_time one_day) in
    if b.not_after new_time now_time then rest else new_time

abbrev pub is_empty : List ℕ → Bool
is_empty [] = true
is_empty (x ∷ xs) = false

module _ {b : Board} where
  open b use {DateTime, year, month, day, hour, minute, second, add, not_after, text_width}

  unfoldable pub is_night_time : NightDay → Screen b → Bool
  is_night_time night s = night_day_time_test (hour s.now_time) (minute s.now_time) night

  unfoldable pub get_screen_on_time : NightDay → Screen b → ℕ
  get_screen_on_time night s =
      if is_night_time night s then night_screen_on_time else day_screen_on_time

  abbrev pub alternator : Screen b → Bool
  alternator s = second s.now_time % 2 == 0

  abbrev pub upper_line : ℕ → Screen b → List Print
  upper_line alarm_active s =
      let at =
        λ (text : List ℕ). record { font = small; x = 0; y = blue_area_y - 1; text = text } ∷ [] in
      if not_after s.now_time s.message_off_time
      then at s.message_buffer_1
      else if not (alarm_active == 0) && alternator s
      then at (codes "ALARM!")
      else []

  abbrev pub clock_text : Screen b → List ℕ
  clock_text s = snprintf 16 (
      padded 2 10 (hour s.now_time)
      ++ codes (if alternator s then " " else ":")
      ++ padded 2 10 (minute s.now_time))

  abbrev pub lower_line : ℕ → Screen b → List Print
  lower_line alarm_active s =
      if not_after s.now_time s.message_off_time && not (is_empty s.message_buffer_2)
      then record { font = small; x = 0; y = line_1_y; text = s.message_buffer_2 } ∷ []
      else if not_after s.now_time s.screen_off_time || not (alarm_active == 0)
      then record { font = large; x = s.clock_text_x; y = line_1_y; text = clock_text s } ∷ []
      else []

  unfoldable pub update_display : NightDay → ℕ → Screen b → Screen b
  update_display night alarm_active s = record s {
    frame = record {
      dim = is_night_time night s && (alarm_active == 0);
      prints = upper_line alarm_active s ++ lower_line alarm_active s;
    };
  }

  unfoldable pub display_message : NightDay → ℕ → List ℕ → Screen b → Screen b
  display_message night alarm_active msg s =
      let (line_1, line_2) = split_message text_width (message_buffer_size - 1) [] (c_string msg) in
      update_display night alarm_active (record s {
        message_buffer_1 = line_1;
        message_buffer_2 = line_2;
        screen_off_time = add s.now_time (get_screen_on_time night s);
        message_off_time = add s.now_time message_on_time;
      })

  unfoldable pub display_message_lp : NightDay → ℕ → List ℕ → Screen b → Screen b
  display_message_lp night alarm_active msg s =
      if is_night_time night s then s else display_message night alarm_active msg s

  unfoldable pub clock_set : NightDay → ℕ → ℕ → ℕ → ℕ → Screen b → Screen b
  clock_set night alarm_active h m sec s =
      let now = s.now_time in
      let t = next_after b 2 now (b.date_time (year now) (month now) (day now) h m sec) in
      display_message night alarm_active (codes "SET CLOCK")
        (record s { adjusted = t ∷ s.adjusted; now_time = t })

  -- A call that one of the C files makes.
  pub perform : NightDay → ℕ → Output → Screen b → Screen b
  perform night alarm_active (shown msg) s = display_message night alarm_active msg s
  perform night alarm_active (shown_lp msg) s = display_message_lp night alarm_active msg s
  perform night alarm_active (clock_is_set h m sec) s = clock_set night alarm_active h m sec s

  pub perform_all : NightDay → ℕ → List Output → Screen b → Screen b
  perform_all night alarm_active [] s = s
  perform_all night alarm_active (o ∷ os) s =
      perform_all night alarm_active os (perform night alarm_active o s)
