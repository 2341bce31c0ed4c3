-- ===== src/Mail.antt =====
-- mail.c: what the clock does with received codes, and the message counter that it keeps in the
-- battery-backed memory. The static variables of mail.c, alarm.c, night_day_time.c and rx433.c are
-- the record `Device`, beside the board's state.
pub mod Counter
pub mod Boot
pub mod Receive
pub mod Request
pub mod Link
pub mod Layout
pub mod Format
pub mod Tests
use cpeclock.Base.{
  ℕ, zero, suc, ◌+◌, ◌-◌, ◌*◌, ◌/◌, ◌%◌, List, [], ◌∷◌, ◌++◌, Bool, true, false, not, ◌&&◌, ◌||◌,
  Option, none, some, ltb, ◌==◌, if◌then◌else◌, get_or, take, drop, replicate, memeq, bit_and,
  bit_xor, u16, u8, ◌>>>◌,
}
use cpeclock.Base.Text.{codes, padded, snprintf}
use cpeclock.Hal
use cpeclock.Hal.{Hal, nvram_read, nvram_write, display_message, display_message_lp, clock_set}
use cpeclock.Alarm
use cpeclock.NightDay
use cpeclock.Hmac.{Sha256, le_bytes}
use cpeclock.Hmac433.{Packet, packet_payload_size, packet_hmac_size, hmac433_authenticate}
use cpeclock.Ncrs.{Rs, ncrs_decode, decoded_data_bytes}
use cpeclock.Rx433.{Rx, cleared}

-- The C compiler's layout of `hmac433_packet_t`: its bytes in order.
unfoldable pub packet_of_bytes : List ℕ → Packet
packet_of_bytes bytes = record {
  payload = take packet_payload_size bytes;
  counter_low = get_or bytes packet_payload_size 0;
  hmac = take packet_hmac_size (drop (packet_payload_size + 1) bytes);
  counter_resync_flag = get_or bytes (packet_payload_size + 1 + packet_hmac_size) 0;
}

unfoldable pub bytes_of_packet : Packet → List ℕ
bytes_of_packet p = p.payload ++ (p.counter_low ∷ (p.hmac ++ (p.counter_resync_flag ∷ [])))

abbrev pub packet_size : ℕ
packet_size = packet_payload_size + 1 + packet_hmac_size + 1

pub record Device (nv : Hal.Nvram) : Type 0 where
  pub hmac_message_counter : ℕ
  pub previous_packet : Packet
  pub alarm : Alarm.Alarm
  pub night_day : NightDay.NightDay
  pub rx : Rx
  pub hal : Hal nv

-- A number from its bytes, lowest first.
unfoldable pub of_le_bytes : List ℕ → ℕ
of_le_bytes [] = 0
of_le_bytes (b ∷ bs) = b + 256 * of_le_bytes bs

-- What a C function sees of a buffer that it takes for a string.
abbrev pub c_string : List ℕ → List ℕ
c_string [] = []
c_string (c ∷ cs) = if c == 0 then [] else c ∷ c_string cs

-- `new_counter_addr` and `counter_addr`.
abbrev pub slot : ℕ → ℕ
slot state = if bit_and state 1 == 0 then Hal.nvram_counter_0_addr else Hal.nvram_counter_1_addr

abbrev pub counter_text : ℕ → ℕ → List ℕ
counter_text counter rs_rc = snprintf 64 (
    padded 4 16 (u16 (counter >>> 48))
    ++ codes "-"
    ++ padded 4 16 (u16 (counter >>> 32))
    ++ codes "-"
    ++ padded 4 16 (u16 (counter >>> 16))
    ++ codes "-"
    ++ padded 4 16 (u16 counter)
    ++ codes " RS "
    ++ padded 1 10 rs_rc)

module _ {nv : Hal.Nvram} where
  -- The loops over the eight bytes of a counter.
  pub write_bytes : ℕ → List ℕ → Hal nv → Hal nv
  write_bytes addr [] h = h
  write_bytes addr (b ∷ bs) h = write_bytes (addr + 1) bs (nvram_write addr b h)

  pub read_bytes : ℕ → ℕ → Hal nv → List ℕ
  read_bytes zero addr h = []
  read_bytes (suc n) addr h = nvram_read addr h ∷ read_bytes n (addr + 1) h

  pub save_counter : ℕ → Hal nv → Hal nv
  save_counter counter h =
      let new_state = bit_xor (nvram_read Hal.nvram_state_addr h) 1 in
      nvram_write Hal.nvram_state_addr new_state
        (write_bytes (slot new_state) (le_bytes 8 counter) h)

  abbrev pub check_bytes_hold : Hal nv → Bool
  check_bytes_hold h =
      (nvram_read Hal.nvram_check_byte_1_addr h == Hal.check_byte_1_value)
      && (nvram_read Hal.nvram_check_byte_2_addr h == Hal.check_byte_2_value)

  -- The writes for a memory that holds garbage.
  pub reformat : Hal nv → Hal nv
  reformat h = nvram_write Hal.nvram_state_addr 0 (
      nvram_write Hal.nvram_check_byte_2_addr Hal.check_byte_2_value
        (nvram_write Hal.nvram_check_byte_1_addr Hal.check_byte_1_value h))

  -- The result, the counter and the board. `none` leaves the counter as it was.
  unfoldable pub mail_init : Hal nv → Bool × Option ℕ × Hal nv
  mail_init h =
      let state = nvram_read Hal.nvram_state_addr h in
      let h' = reformat h in
      if not (decoded_data_bytes == packet_size)
      then (false, none, display_message (codes "SIZE ERROR") h)
      else if not (check_bytes_hold h) || ltb 1 state
      then (if check_bytes_hold h'
          then (true, some 1, display_message (codes "NVRAM INIT") (save_counter 1 h'))
          else (false, none, display_message (codes "NVRAM FAIL") h'))
      else (true, some (of_le_bytes (read_bytes 8 (slot state) h)), h)

  unfoldable pub new_home_easy_message : ℕ → Hal nv → Hal nv
  new_home_easy_message msg h = display_message_lp (snprintf 16 (codes "HE " ++ padded 8 16 msg)) h

  unfoldable pub show_message : List ℕ → Hal nv → Hal nv
  show_message payload h =
      display_message (c_string (take (packet_payload_size - 1) (drop 1 payload))) h

  unfoldable pub show_counter : ℕ → ℕ → Hal nv → Hal nv
  show_counter counter rs_rc h = display_message (counter_text counter rs_rc) h

  -- The `switch` on the first byte of the payload.
  unfoldable pub new_packet : List ℕ → ℕ → Device nv → Device nv
  new_packet payload rs_rc d =
      let at = λ (i : ℕ). get_or payload i 0 in
      if at 0 == b'M'
      then record d { hal = show_message payload d.hal }
      else if at 0 == b'C'
      then record d { hal = show_counter d.hmac_message_counter rs_rc d.hal }
      else if at 0 == b'T'
      then record d { hal = clock_set (at 1) (at 2) (at 3) d.hal }
      else if at 0 == b'A'
      then (let (changed, alarm', hal') = Alarm.alarm_set (at 1) (at 2) d.alarm d.hal in
          record d { alarm = alarm'; hal = hal' })
      else if at 0 == b'N'
      then (let (night_day', hal') =
            NightDay.night_day_time_set (at 1) (at 2) (at 3) (at 4) d.hal in
          record d { night_day = night_day'; hal = hal' })
      else if at 0 == b'a'
      then (let (changed, alarm', hal') = Alarm.alarm_unset d.alarm d.hal in
          record d { alarm = alarm'; hal = hal' })
      else record d { hal = display_message (codes "ACTION ERROR") d.hal }

  -- The critical section: no interrupt comes between the reads and the resets.
  abbrev pub collected : Device nv → Device nv
  collected d = record d { rx = cleared d.rx }

  -- The first half of `mail_receive_messages`: a Home Easy code is shown.
  pub noticed : Device nv → Device nv
  noticed d =
      let d' = collected d in
      if d.rx.he.home_easy == 0
      then d'
      else record d' { hal = new_home_easy_message d.rx.he.home_easy d'.hal }

  module _ (rs : Rs) (c : rs.Control) (sha : Sha256) (secret : List ℕ) where
    -- From the HMAC check on.
    pub authenticated : Packet → ℕ → Device nv → Device nv
    authenticated packet rs_rc d =
        let (taken, counter') = hmac433_authenticate sha secret packet d.hmac_message_counter in
        let saved = record d {
          hmac_message_counter = counter';
          hal = save_counter counter' d.hal;
        } in
        if not taken
        then record d { hal = display_message_lp (codes "HMAC ERROR") d.hal }
        else if not (packet.counter_resync_flag == 0)
        then record saved { hal = display_message_lp (codes "COUNTER\nRESYNCHED") saved.hal }
        else new_packet packet.payload rs_rc saved

    -- A decoded packet.
    pub decoded : Packet → ℕ → Device nv → Device nv
    decoded packet rs_rc d =
        if memeq (bytes_of_packet d.previous_packet) (bytes_of_packet packet)
        then d
        else authenticated packet rs_rc (record d { previous_packet = packet })

    pub new_code : List ℕ → Device nv → Device nv
    new_code code d = elim (ncrs_decode rs c code) [
      | none ↦ d
      | some (rs_rc, message) ↦ decoded (packet_of_bytes message) rs_rc d
    ]

    -- The whole call: `d.rx` still holds the code that `noticed` has taken.
    unfoldable pub mail_receive_messages : Device nv → Device nv
    mail_receive_messages d =
        let d' = noticed d in if d.rx.nc.new_code_ready then new_code d.rx.nc.new_code d' else d'
