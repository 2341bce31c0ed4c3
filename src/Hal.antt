-- ===== src/Hal.antt =====
-- hal.h and nvram.h: what the C modules ask of the board, and the layout of the battery-backed
-- memory. cpeclock.ino implements `nvram_read` and `nvram_write` over the DS1307 driver, which is
-- the parameter `Nvram`. Calls of the display and of the clock are kept in order, as outputs.
pub mod Writes
pub mod Failing
use cpeclock.Base.{ℕ, ◌<◌, ◌≡◌, refl, List, [], ◌∷◌, ◌++◌, arith, u8, ◌==◌, if◌then◌else◌, IsByte}

-- RTC_DS1307: its state, `readnvram` and `writenvram`.
pub record Nvram : Type 1 where
  pub Mem : Type 0
  pub readnvram : Mem → ℕ → ℕ
  pub writenvram : Mem → ℕ → ℕ → Mem

-- The chip has 56 bytes of memory, which keep what is written.
abbrev pub nvram_size : ℕ
nvram_size = 56

pub record IsMemory (nv : Nvram) : Type 0 where
  pub read_write :
      (m : nv.Mem) (a d b : ℕ)
      → a < nvram_size
      → b < nvram_size
      → IsByte d
      → nv.readnvram (nv.writenvram m a d) b ≡ (if a == b then d else nv.readnvram m b)

abbrev pub check_byte_1_value : ℕ
check_byte_1_value = 0xae

abbrev pub check_byte_2_value : ℕ
check_byte_2_value = 0xc2

abbrev pub nvram_counter_0_addr : ℕ
nvram_counter_0_addr = 0x00

abbrev pub nvram_counter_1_addr : ℕ
nvram_counter_1_addr = 0x08

abbrev pub nvram_check_byte_1_addr : ℕ
nvram_check_byte_1_addr = 0x10

abbrev pub nvram_state_addr : ℕ
nvram_state_addr = 0x11

abbrev pub nvram_check_byte_2_addr : ℕ
nvram_check_byte_2_addr = 0x12

abbrev pub nvram_alarm_hi : ℕ
nvram_alarm_hi = 0x13

abbrev pub nvram_alarm_lo : ℕ
nvram_alarm_lo = 0x14

abbrev pub nvram_alarm_state : ℕ
nvram_alarm_state = 0x15

abbrev pub nvram_night_time_hi : ℕ
nvram_night_time_hi = 0x16

abbrev pub nvram_night_time_lo : ℕ
nvram_night_time_lo = 0x17

abbrev pub nvram_day_time_hi : ℕ
nvram_day_time_hi = 0x18

abbrev pub nvram_day_time_lo : ℕ
nvram_day_time_lo = 0x19

pub data Output : Type 0 where
  shown : List ℕ → Output
  shown_lp : List ℕ → Output
  clock_is_set : ℕ → ℕ → ℕ → Output

pub record Hal (nv : Nvram) : Type 0 where
  pub mem : nv.Mem
  pub out : List Output

module _ {nv : Nvram} where
  -- The address and the data are `uint8_t` in the prototypes.
  unfoldable pub nvram_read : ℕ → Hal nv → ℕ
  nvram_read addr h = u8 (nv.readnvram h.mem (u8 addr))

  unfoldable pub nvram_write : ℕ → ℕ → Hal nv → Hal nv
  nvram_write addr value h = record h { mem = nv.writenvram h.mem (u8 addr) (u8 value) }

  abbrev emit : Output → Hal nv → Hal nv
  emit o h = record h { out = h.out ++ (o ∷ []) }

  unfoldable pub display_message : List ℕ → Hal nv → Hal nv
  display_message msg h = emit (shown msg) h

  unfoldable pub display_message_lp : List ℕ → Hal nv → Hal nv
  display_message_lp msg h = emit (shown_lp msg) h

  unfoldable pub clock_set : ℕ → ℕ → ℕ → Hal nv → Hal nv
  clock_set hour minute second h = emit (clock_is_set hour minute second) h

  pub nvram_read-IsByte : (a : ℕ) (h : Hal nv) → IsByte (nvram_read a h)
  unfolding nvram_read
  nvram_read-IsByte a h = omega arith

  pub nvram_write-out : (a d : ℕ) (h : Hal nv) → (nvram_write a d h).out ≡ h.out
  unfolding nvram_write
  nvram_write-out a d h = refl

  pub nvram_read-display_message :
      (a : ℕ) (msg : List ℕ) (h : Hal nv) → nvram_read a (display_message msg h) ≡ nvram_read a h
  unfolding nvram_read display_message
  nvram_read-display_message a msg h = refl

  pub nvram_read-nvram_write :
      (ok : IsMemory nv) (a b d : ℕ) (h : Hal nv)
      → a < nvram_size
      → b < nvram_size
      → nvram_read b (nvram_write a d h) ≡ (if a == b then u8 d else nvram_read b h)
  unfolding nvram_read nvram_write
  nvram_read-nvram_write ok a b d h p q = ground (arith, ok.read_write h.mem (u8 a) (u8 d) (u8 b))

-- A memory that meets the law.
abbrev pub cells : Nvram
cells = record {
  Mem = ℕ → ℕ;
  readnvram = λ m a. m a;
  writenvram = λ m a d b. if a == b then d else m b;
}

pub cells-IsMemory : IsMemory cells
cells-IsMemory = record { read_write = λ m a d b p q r. refl }

-- A chip that is not answering.
abbrev pub dead : Nvram
dead = record { Mem = Unit {0}; readnvram = λ m a. 0xff; writenvram = λ m a d. m }
