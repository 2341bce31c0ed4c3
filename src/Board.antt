-- ===== src/Board.antt =====
-- What cpeclock.ino uses of the board's libraries, as a parameter: dates and times (RTClib), the
-- width of a text on the display (Adafruit_SSD1306), and the strip of coloured lights.
use cpeclock.Base.{
  ℕ, ◌+◌, ◌*◌, ◌/◌, ◌%◌, ◌≡◌, ◌<◌, refl, List, Bool, true, arith, ltb, leb, length, u8, IsByte,
}

pub record Board : Type 1 where
  pub DateTime : Type 0
  pub date_time : ℕ → ℕ → ℕ → ℕ → ℕ → ℕ → DateTime
  pub year : DateTime → ℕ
  pub month : DateTime → ℕ
  pub day : DateTime → ℕ
  pub hour : DateTime → ℕ
  pub minute : DateTime → ℕ
  pub second : DateTime → ℕ
  pub is_valid : DateTime → Bool
  -- The operator `+` of a time and a `TimeSpan`, which is given in seconds.
  pub add : DateTime → ℕ → DateTime
  -- The operator `<=`.
  pub not_after : DateTime → DateTime → Bool
  -- `getTextBounds` in the smaller font, and the width of "99:99" in the larger one.
  pub text_width : List ℕ → ℕ
  pub clock_width : ℕ
  pub Lights : Type 0
  pub get_brightness : Lights → ℕ
  pub set_brightness : ℕ → Lights → Lights
  pub set_pixel_color : ℕ → ℕ → ℕ → ℕ → Lights → Lights
  pub show : Lights → Lights

-- The seconds of the years 2000 to 2099, which RTClib counts.
abbrev pub century : ℕ
century = 36525 * 86400

-- A valid time is a number of seconds since 2000, and its parts are that number's; another time
-- of the same day is made from the date's parts; spans add up and `<=` compares, up to 2099.
pub record IsCalendar (b : Board) : Type 0 where
  pub seconds : b.DateTime → ℕ
  pub in_century : (t : b.DateTime) → b.is_valid t ≡ true → seconds t < century
  pub hour_of : (t : b.DateTime) → b.is_valid t ≡ true → b.hour t ≡ seconds t / 3600 % 24
  pub minute_of : (t : b.DateTime) → b.is_valid t ≡ true → b.minute t ≡ seconds t / 60 % 60
  pub second_of : (t : b.DateTime) → b.is_valid t ≡ true → b.second t ≡ seconds t % 60
  pub same_day :
      (t : b.DateTime) (h m s : ℕ)
      → b.is_valid t ≡ true
      → h < 24
      → m < 60
      → s < 60
      → let t' = b.date_time (b.year t) (b.month t) (b.day t) h m s in
        (b.is_valid t' ≡ true) × (seconds t' ≡ seconds t / 86400 * 86400 + h * 3600 + m * 60 + s)
  pub add_span :
      (t : b.DateTime) (n : ℕ)
      → b.is_valid t ≡ true
      → seconds t + n < century
      → (b.is_valid (b.add t n) ≡ true) × (seconds (b.add t n) ≡ seconds t + n)
  pub compares :
      (t t' : b.DateTime)
      → b.is_valid t ≡ true
      → b.is_valid t' ≡ true
      → b.not_after t t' ≡ leb (seconds t) (seconds t')

-- The lights keep the brightness that they are given, whatever is done with the colours.
pub record IsStrip (b : Board) : Type 0 where
  pub get-set : (x : ℕ) (l : b.Lights) → IsByte x → b.get_brightness (b.set_brightness x l) ≡ x
  pub get-pixel :
      (i r g u : ℕ) (l : b.Lights)
      → b.get_brightness (b.set_pixel_color i r g u l) ≡ b.get_brightness l
  pub get-show : (l : b.Lights) → b.get_brightness (b.show l) ≡ b.get_brightness l
  pub byte : (l : b.Lights) → IsByte (b.get_brightness l)

-- Times as numbers of seconds, with a year for each day, letters of ten pixels, and lights that
-- keep their brightness only.
abbrev pub plain : Board
plain = record {
  DateTime = ℕ;
  date_time = λ y mo d h mi s. y * 86400 + h * 3600 + mi * 60 + s;
  year = λ t. t / 86400;
  month = λ t. 1;
  day = λ t. 1;
  hour = λ t. t / 3600 % 24;
  minute = λ t. t / 60 % 60;
  second = λ t. t % 60;
  is_valid = λ t. ltb t century;
  add = λ t n. t + n;
  not_after = λ t t'. leb t t';
  text_width = λ text. 10 * length text;
  clock_width = 100;
  Lights = ℕ;
  get_brightness = λ l. u8 l;
  set_brightness = λ x l. u8 x;
  set_pixel_color = λ i r g u l. l;
  show = λ l. l;
}

ltb→lt : (t n : ℕ) → ltb t n ≡ true → t < n
ltb→lt t n v = ground arith

lt→ltb : (t n : ℕ) → t < n → ltb t n ≡ true
lt→ltb t n h = ground arith

same_day_fits :
    (t h m s : ℕ)
    → ltb t century ≡ true
    → h < 24
    → m < 60
    → s < 60
    → t / 86400 * 86400 + h * 3600 + m * 60 + s < century
same_day_fits t h m s v p q r = omega (arith, ltb→lt t century v)

pub plain-IsCalendar : IsCalendar plain
plain-IsCalendar = record {
  seconds = λ t. t;
  in_century = λ t v. ltb→lt t century v;
  hour_of = λ t v. refl;
  minute_of = λ t v. refl;
  second_of = λ t v. refl;
  same_day = λ t h m s v p q r. (lt→ltb _ century (same_day_fits t h m s v p q r), refl);
  add_span = λ t n v h. (lt→ltb (t + n) century h, refl);
  compares = λ t t' v w. refl;
}

pub plain_seconds : (t : ℕ) → plain-IsCalendar.seconds t ≡ t
unfolding plain-IsCalendar
plain_seconds t = refl

pub plain-IsStrip : IsStrip plain
plain-IsStrip = record {
  get-set = λ x l h. omega arith;
  get-pixel = λ i r g u l. refl;
  get-show = λ l. refl;
  byte = λ l. omega arith;
}
