-- ===== src/Firmware/Radio/CutRequest.antt =====
-- A request for an alarm of which the first symbols were not received.
use cpeclock.Base.{
  drop, replicate, none, [], ◌∷◌, ◌++◌, ℕ, ◌+◌, ◌-◌, ◌*◌, ◌^◌, ◌<◌, ◌≤◌, ◌≡◌, arith, List, false,
  memeq, length, u16, u32, IsByte,
}
use cpeclock.Alarm
use cpeclock.Board.{Board}
use cpeclock.Hal
use cpeclock.Hmac.{Sha256, IsHash}
use cpeclock.Hmac433.{hmac433_encode}
use cpeclock.Mail.{bytes_of_packet}
use cpeclock.Mail.Link.{alarm_request, code-IsMessage}
use cpeclock.Ncrs.{
  Rs, IsCodec, IsSymbols, differences, pack, pad, try, ncrs_encode, msg_symbols, nc_data_size,
  max_shift_distance,
}
use cpeclock.Ncrs.Shift.{ncrs_decode-drop}
use cpeclock.Rx433.{no_message}
use cpeclock.Rx433.Message.Cut.{cut_code_received}
use cpeclock.Rx433.Pulses.{sent_symbols, Seen}
use cpeclock.Firmware.{Firmware, Inputs, loop}
use cpeclock.Firmware.Memory.{run}
use cpeclock.Firmware.Radio.{hear, has_rounds}
use cpeclock.Firmware.Radio.Request.{alarm_request_handled}

module _ (sha : Sha256) (hash : IsHash sha) (secret : List ℕ) (hour minute counter : ℕ)
    (hour_byte : IsByte hour) (minute_byte : IsByte minute) (rs : Rs) (c : rs.Control) where
  -- A request for an alarm of which the first 1 to 3 symbols were not received still sets the
  -- alarm. The other symbols are sent as README.md describes, the first edge at least 864
  -- microseconds after the last earlier edge and less than a wrap of the clock after it, and every
  -- edge seen up to 95 microseconds late; wrong symbols and missing ones are at most 5 together.
  -- The next edge, at least 960 microseconds after the end of the message and less than a wrap of
  -- the clock after its beginning, makes the receiver hand over what it has. Whatever rounds of
  -- `loop` come between the edges, with any buttons, the next round after that edge, with no button
  -- pressed, sets the alarm to the time asked for, in the state reset, and moves the counter to one
  -- past the sender's. Before the message the receiver waits and no code is ready. The codec fails
  -- at the attempts before the one with this shift, corrects up to 5 wrong symbols in this message,
  -- and the hash gives 32 bytes; the hour and the minute are bytes; the packet differs from the
  -- previous one; the receiver's counter is not past the sender's, is less than 256 behind it, and
  -- neither wraps.
  pub cut_alarm_request_heard :
      {nv : Hal.Nvram} {b : Board} (fw : Firmware nv b) (rounds : ℕ → List (Inputs b))
      (i : Inputs b) (k : ℕ) (rest : List ℕ) (begin last next : ℕ) (ts : List ℕ)
      → let packet = (hmac433_encode sha secret (alarm_request hour minute) counter).0 in
        IsCodec rs c (pack msg_symbols 0 (bytes_of_packet packet))
        → (1 ≤ k) × (k ≤ max_shift_distance)
        → length rest ≡ nc_data_size - k
        → IsSymbols rest
        → k + differences rest (drop k (ncrs_encode rs c (bytes_of_packet packet))) ≤ 5
        → ((a : ℕ) → a < 2 * k → try rs c (pad (rest ++ replicate k 0)) a ≡ none)
        → fw.device.rx.nc.nc_count ≡ no_message
        → fw.device.rx.nc.new_code_ready ≡ false
        → fw.device.rx.old_time ≡ u32 last
        → (last + 864 ≤ begin) × (begin + 95 < last + 2 ^ 32)
        → Seen (sent_symbols rest begin) ts
        → (begin + 3840 * length rest + 960 ≤ next) × (next < begin + 2 ^ 32)
        → memeq (bytes_of_packet fw.device.previous_packet) (bytes_of_packet packet) ≡ false
        → counter + 1 < 2 ^ 64 - 1
        → fw.device.hmac_message_counter ≤ counter + 1
        → counter + 1 < fw.device.hmac_message_counter + 256
        → i.right_button ≡ false
        → i.left_button ≡ false
        → i.extension_button ≡ false
        → let fw' =
            loop rs c sha secret i (run rs c sha secret (hear rounds (ts ++ (next ∷ []))) fw) in
          (fw'.device.alarm ≡ record { time = u16 (hour * 60 + minute); state = Alarm.reset })
          × (fw'.device.hmac_message_counter ≡ counter + 2)
  cut_alarm_request_heard fw rounds i k rest begin last next ts codec cut size symbols wrong fails
        idle unread time quiet_before seen late new fits le near right_up left_up extension_up =
      let packet = (hmac433_encode sha secret (alarm_request hour minute) counter).0 in
      let m = bytes_of_packet packet in
      let ok = code-IsMessage sha hash secret hour minute counter hour_byte minute_byte in
      let errors = differences (replicate k 0 ++ rest) (ncrs_encode rs c m) in
      alarm_request_handled sha hash secret hour minute counter hour_byte minute_byte rs c fw rounds
        i (rest ++ replicate k 0) (1 + 2 * k + errors * 10) (ts ++ (next ∷ []))
        (cut_code_received (λ t. has_rounds (rounds t)) rest k begin last next ts fw.device.rx
          (omega arith) (omega arith) symbols idle time quiet_before seen late)
        (ncrs_decode-drop rs c m codec ok k rest (omega arith) size symbols wrong fails) unread new
        fits le near right_up left_up extension_up
