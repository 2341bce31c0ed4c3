-- ===== src/Mail/Link.antt =====
-- The whole way of a message: from the sender's `hmac433_encode` and `ncrs_encode` to the effect of
-- `mail_receive_messages`.
use cpeclock.Base.{
  ℕ, ◌+◌, ◌-◌, ◌*◌, ◌^◌, ◌<◌, ◌≤◌, ◌≡◌, ◌∙◌, refl, arith, List, [], ◌∷◌, true, false, some, memeq,
  length, IsByte, IsBytes, u16,
}
use cpeclock.Hal
use cpeclock.Hal.{Hal, display_message}
use cpeclock.Alarm
use cpeclock.NightDay
use cpeclock.Hmac.{Sha256, IsHash}
use cpeclock.Hmac433.{Packet, hmac433_encode}
use cpeclock.Ncrs.{
  Rs, IsCodec, IsSymbols, differences, pack, ncrs_decode, ncrs_encode, msg_symbols, nc_data_size,
}
use cpeclock.Ncrs.Correct.{IsMessage, ncrs_decode-ncrs_encode}
use cpeclock.Mail.{Device, bytes_of_packet, new_packet, mail_receive_messages}
use cpeclock.Mail.Receive.Effect.{noticed-Unaffected}
use cpeclock.Mail.Request.{request, taken, request-IsMessage, request_decoded}

-- The packet that asks for an alarm, before the sender has completed it.
abbrev pub alarm_payload : ℕ → ℕ → List ℕ
alarm_payload hour minute = b'A' ∷ hour ∷ minute ∷ 0 ∷ 0 ∷ 0 ∷ []

abbrev pub alarm_request : ℕ → ℕ → Packet
alarm_request hour minute = request (alarm_payload hour minute)

module _ (sha : Sha256) (ok : IsHash sha) (secret : List ℕ) (hour minute counter : ℕ)
    (hour_byte : IsByte hour) (minute_byte : IsByte minute) where
  abbrev code : Packet
  code = (hmac433_encode sha secret (alarm_request hour minute) counter).0

  payload-IsBytes : IsBytes (alarm_payload hour minute)
  payload-IsBytes =
      (omega arith, (hour_byte, (minute_byte, (omega arith, (omega arith, (omega arith, tt))))))

  pub code-IsMessage : IsMessage (bytes_of_packet code)
  code-IsMessage =
      request-IsMessage sha ok secret (alarm_payload hour minute) counter refl payload-IsBytes

  effect :
      {nv : Hal.Nvram} (rs_rc : ℕ) (d : Device nv) {night_day : NightDay.NightDay}
      → d.night_day ≡ night_day
      → let d' = new_packet (alarm_payload hour minute) rs_rc d in
        (d'.alarm ≡ record { time = u16 (hour * 60 + minute); state = Alarm.reset })
        × (d'.hmac_message_counter ≡ d.hmac_message_counter)
        × (d'.night_day ≡ night_day)
  unfolding new_packet Alarm.alarm_set
  effect rs_rc d e = (refl, refl, e)

  -- A code that is ready and is decoded to the request.
  pub alarm_request_decoded :
      {nv : Hal.Nvram} (rs : Rs) (c : rs.Control) (rs_rc : ℕ) (d : Device nv)
      → let sent = counter + 1 in
        sent < 2 ^ 64 - 1
        → d.rx.nc.new_code_ready ≡ true
        → ncrs_decode rs c d.rx.nc.new_code ≡ some (rs_rc, bytes_of_packet code)
        → memeq (bytes_of_packet d.previous_packet) (bytes_of_packet code) ≡ false
        → d.hmac_message_counter ≤ sent
        → sent < d.hmac_message_counter + 256
        → let d' = mail_receive_messages rs c sha secret d in
          (d'.alarm ≡ record { time = u16 (hour * 60 + minute); state = Alarm.reset })
          × (d'.hmac_message_counter ≡ sent + 1)
          × (d'.night_day ≡ d.night_day)
  alarm_request_decoded rs c rs_rc d fits ready back new le near =
      let payload = alarm_payload hour minute in
      let took =
        request_decoded sha ok secret payload counter refl payload-IsBytes rs c rs_rc d fits ready
          back new le near in
      let (alarm, moved, night) =
        effect rs_rc (taken sha ok secret payload counter refl payload-IsBytes d)
          (noticed-Unaffected rs c sha secret d).night_day in
      let next : counter + 2 ≡ counter + 1 + 1 = omega arith in rw took (alarm, moved ∙ next, night)

  -- A request for an alarm, encoded by a sender with the same secret and received with at most 5 of
  -- its 31 symbols wrong, sets the alarm to the time asked for, in the state reset, moves the
  -- receiver's counter to one past the sender's and keeps the night's times. The hour and the
  -- minute are bytes; the codec corrects up to 5 wrong symbols in this message and the hash gives
  -- 32 bytes; the code is ready and the packet differs from the previous one; the receiver's
  -- counter is not past the sender's, is less than 256 behind it, and neither wraps.
  pub alarm_request_received :
      {nv : Hal.Nvram} (rs : Rs) (c : rs.Control)
      → IsCodec rs c (pack msg_symbols 0 (bytes_of_packet code))
      → (d : Device nv)
      → let word = d.rx.nc.new_code in
        let sent = counter + 1 in
        sent < 2 ^ 64 - 1
        → d.rx.nc.new_code_ready ≡ true
        → length word ≡ nc_data_size
        → IsSymbols word
        → differences word (ncrs_encode rs c (bytes_of_packet code)) ≤ 5
        → memeq (bytes_of_packet d.previous_packet) (bytes_of_packet code) ≡ false
        → d.hmac_message_counter ≤ sent
        → sent < d.hmac_message_counter + 256
        → let d' = mail_receive_messages rs c sha secret d in
          (d'.alarm ≡ record { time = u16 (hour * 60 + minute); state = Alarm.reset })
          × (d'.hmac_message_counter ≡ sent + 1)
          × (d'.night_day ≡ d.night_day)
  alarm_request_received rs c codec d fits ready size symbols wrong new le near =
      let m = bytes_of_packet code in
      alarm_request_decoded rs c (1 + differences d.rx.nc.new_code (ncrs_encode rs c m) * 10) d fits
        ready
        (ncrs_decode-ncrs_encode rs c m codec code-IsMessage d.rx.nc.new_code size symbols wrong)
        new le near
