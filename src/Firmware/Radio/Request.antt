-- ===== src/Firmware/Radio/Request.antt =====
-- A request for an alarm, from the air to its effect, with no button pressed.
use cpeclock.Base.{
  some, ℕ, ◌+◌, ◌-◌, ◌*◌, ◌^◌, ◌<◌, ◌≤◌, ◌≡◌, ◌∙◌, refl, sym, ap, subst, arith, List, Bool, false,
  not, if_both, if◌then◌else◌, memeq, length, u16, u32, IsByte,
}
use cpeclock.Alarm
use cpeclock.Board.{Board}
use cpeclock.Hal
use cpeclock.Hmac.{Sha256, IsHash}
use cpeclock.Hmac433.{hmac433_encode}
use cpeclock.Mail.{Device, bytes_of_packet}
use cpeclock.Mail.Link.{alarm_request, code-IsMessage, alarm_request_decoded}
use cpeclock.Ncrs.{
  Rs, IsCodec, IsSymbols, differences, pack, ncrs_decode, ncrs_encode, msg_symbols, nc_data_size,
}
use cpeclock.Ncrs.Correct.{ncrs_decode-ncrs_encode}
use cpeclock.Rx433.{Rx, run_reading, no_message}
use cpeclock.Rx433.Message.{Unready}
use cpeclock.Rx433.Message.Whole.{Heard, new_code_received}
use cpeclock.Rx433.Pulses.{sent_symbols, Seen}
use cpeclock.Firmware.{
  Firmware, Inputs, quiet, carry_out, tick, extension, right, left, sound_switch, receive, loop,
}
use cpeclock.Firmware.Memory.{run}
use cpeclock.Firmware.Radio.{Has, tick-Has, hear-Has, hear, has_rounds}

module _ {nv : Hal.Nvram} {b : Board} (i : Inputs b) (right_up : i.right_button ≡ false)
    (left_up : i.left_button ≡ false) (extension_up : i.extension_button ≡ false) where
  extension_none :
      (fw : Firmware nv b)
      → extension i fw ≡ (record fw { extension_button_pressed = 0 }, i.right_button, i.left_button)
  unfolding extension
  extension_none fw = rw extension_up refl

  sound_switch-device :
      (switch again : Bool) (fw : Firmware nv b) → (sound_switch switch again fw).device ≡ fw.device
  unfolding sound_switch carry_out
  sound_switch-device switch again fw =
      if_both (λ (x : Firmware nv b). x.device ≡ fw.device)
        (if fw.allow_sound then switch else not switch) refl refl

  -- With no button pressed, the messages have the last word on the device.
  loop-device :
      (rs : Rs) (c : rs.Control) (sha : Sha256) (secret : List ℕ) (fw : Firmware nv b)
      → (loop rs c sha secret i fw).device ≡ (receive rs c sha secret (tick i fw)).device
  unfolding loop right left
  loop-device rs c sha secret fw =
      let heard = receive rs c sha secret (tick i fw) in
      sound_switch-device i.slide_switch i.slide_switch_again _
      ∙ ap
          (λ (x : Firmware nv b × Bool × Bool).
            (left x.2 i.millis_left (right x.1 i.millis_right x.0)).device)
          (extension_none heard)
      ∙ ap
          (λ (l : Bool).
            (left l i.millis_left (
              right i.right_button i.millis_right
                (record heard { extension_button_pressed = 0 }))).device)
          left_up
      ∙ ap
          (λ (r : Bool).
            (right r i.millis_right (record heard { extension_button_pressed = 0 })).device)
          right_up

module _ (sha : Sha256) (hash : IsHash sha) (secret : List ℕ) (hour minute counter : ℕ)
    (hour_byte : IsByte hour) (minute_byte : IsByte minute) (rs : Rs) (c : rs.Control) where
  -- Edges after which the receiver has handed over a code that is decoded to the request, with
  -- rounds of `loop` between them.
  pub alarm_request_handled :
      {nv : Hal.Nvram} {b : Board} (fw : Firmware nv b) (rounds : ℕ → List (Inputs b))
      (i : Inputs b) (word : List ℕ) (rs_rc : ℕ) (ts : List ℕ)
      → let packet = (hmac433_encode sha secret (alarm_request hour minute) counter).0 in
        Heard fw.device.rx.nc.new_code_ready (λ t. has_rounds (rounds t)) word ts fw.device.rx
        → ncrs_decode rs c word ≡ some (rs_rc, bytes_of_packet packet)
        → fw.device.rx.nc.new_code_ready ≡ false
        → memeq (bytes_of_packet fw.device.previous_packet) (bytes_of_packet packet) ≡ false
        → counter + 1 < 2 ^ 64 - 1
        → fw.device.hmac_message_counter ≤ counter + 1
        → counter + 1 < fw.device.hmac_message_counter + 256
        → i.right_button ≡ false
        → i.left_button ≡ false
        → i.extension_button ≡ false
        → let fw' = loop rs c sha secret i (run rs c sha secret (hear rounds ts) fw) in
          (fw'.device.alarm ≡ record { time = u16 (hour * 60 + minute); state = Alarm.reset })
          × (fw'.device.hmac_message_counter ≡ counter + 2)
  unfolding receive carry_out
  alarm_request_handled {nv} {b} fw rounds i word rs_rc ts heard back unread new fits le near
        right_up left_up extension_up =
      let packet = (hmac433_encode sha secret (alarm_request hour minute) counter).0 in
      let n = fw.device.hmac_message_counter in
      let p = fw.device.previous_packet in
      let reads : ℕ → Bool = λ t. has_rounds (rounds t) in
      let rx = run_reading reads ts fw.device.rx in
      let fw1 = run rs c sha secret (hear rounds ts) fw in
      let has : Has rx n p fw1.device =
        hear-Has rs c sha secret n p rounds ts fw.device.rx fw
          (subst (λ r. Unready r reads ts fw.device.rx) unread heard.unready)
          (record { rx_is = refl; counter_is = refl; previous_is = refl }) in
      let ticked = tick-Has rx n p i fw1 has in
      let d = quiet (tick i fw1).device in
      let code = ap (λ (r : Rx). r.nc.new_code) ticked.rx_is ∙ heard.delivered.code in
      let (alarm, moved, night) =
        alarm_request_decoded sha hash secret hour minute counter hour_byte minute_byte rs c rs_rc d
          fits (ap (λ (r : Rx). r.nc.new_code_ready) ticked.rx_is ∙ heard.delivered.ready)
          (ap (ncrs_decode rs c) code ∙ back)
          (subst (λ q. memeq (bytes_of_packet q) (bytes_of_packet packet) ≡ false)
            (sym ticked.previous_is) new)
          (omega (arith, le, ticked.counter_is)) (omega (arith, near, ticked.counter_is)) in
      let same = loop-device i right_up left_up extension_up rs c sha secret fw1 in
      (
        ap (λ (x : Device nv). x.alarm) same ∙ alarm,
        ap (λ (x : Device nv). x.hmac_message_counter) same ∙ omega (arith, moved),
      )

  -- From the air to the alarm. A sender with the same secret encodes a request for an alarm, and 31
  -- symbols of which at most 5 are wrong are sent as README.md describes, the first edge at least
  -- 864 microseconds after the last earlier edge and less than a wrap of the clock after it, and
  -- every edge seen up to 95 microseconds late. Whatever rounds of `loop` come between the edges,
  -- with any buttons, the next round after the last edge, with no button pressed, sets the alarm to
  -- the time asked for, in the state reset, and moves the counter to one past the sender's. Before
  -- the message the receiver waits and no code is ready. The hour and the minute are bytes; the
  -- codec corrects up to 5 wrong symbols in this message and the hash gives 32 bytes; the packet
  -- differs from the previous one; the receiver's counter is not past the sender's, is less than
  -- 256 behind it, and neither wraps.
  pub alarm_request_heard :
      {nv : Hal.Nvram} {b : Board} (fw : Firmware nv b) (rounds : ℕ → List (Inputs b))
      (i : Inputs b) (word : List ℕ) (begin last : ℕ) (ts : List ℕ)
      → let packet = (hmac433_encode sha secret (alarm_request hour minute) counter).0 in
        IsCodec rs c (pack msg_symbols 0 (bytes_of_packet packet))
        → length word ≡ nc_data_size
        → IsSymbols word
        → differences word (ncrs_encode rs c (bytes_of_packet packet)) ≤ 5
        → fw.device.rx.nc.nc_count ≡ no_message
        → fw.device.rx.nc.new_code_ready ≡ false
        → fw.device.rx.old_time ≡ u32 last
        → (last + 864 ≤ begin) × (begin + 95 < last + 2 ^ 32)
        → Seen (sent_symbols word begin) ts
        → memeq (bytes_of_packet fw.device.previous_packet) (bytes_of_packet packet) ≡ false
        → counter + 1 < 2 ^ 64 - 1
        → fw.device.hmac_message_counter ≤ counter + 1
        → counter + 1 < fw.device.hmac_message_counter + 256
        → i.right_button ≡ false
        → i.left_button ≡ false
        → i.extension_button ≡ false
        → let fw' = loop rs c sha secret i (run rs c sha secret (hear rounds ts) fw) in
          (fw'.device.alarm ≡ record { time = u16 (hour * 60 + minute); state = Alarm.reset })
          × (fw'.device.hmac_message_counter ≡ counter + 2)
  alarm_request_heard fw rounds i word begin last ts codec size symbols wrong idle unread time
        quiet_before seen new fits le near right_up left_up extension_up =
      let packet = (hmac433_encode sha secret (alarm_request hour minute) counter).0 in
      let m = bytes_of_packet packet in
      let ok = code-IsMessage sha hash secret hour minute counter hour_byte minute_byte in
      alarm_request_handled fw rounds i word (1 + differences word (ncrs_encode rs c m) * 10) ts
        (new_code_received (λ t. has_rounds (rounds t)) word begin last ts fw.device.rx size symbols
          idle time quiet_before seen)
        (ncrs_decode-ncrs_encode rs c m codec ok word size symbols wrong) unread new fits le near
        right_up left_up extension_up
