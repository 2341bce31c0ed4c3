-- ===== src/Mail/Request.antt =====
-- An ordinary packet on its way from a sender to `new_packet`, whatever it asks for.
use cpeclock.Base.{
  ℕ, ◌+◌, ◌-◌, ◌*◌, ◌^◌, ◌%◌, ◌<◌, ◌≤◌, ◌≡◌, inr, ◌∙◌, refl, ap, arith, List, [], true, false, some,
  memeq, length, IsBytes,
}
use cpeclock.Hal
use cpeclock.Hmac.{Sha256, IsHash}
use cpeclock.Hmac433.{IsPacket, Packet, packet_payload_size, hmac433_authenticate, hmac433_encode}
use cpeclock.Hmac433.Encoded.{hmac433_encode-IsPacket}
use cpeclock.Hmac433.RoundTrip.{hmac433_authenticate-hmac433_encode}
use cpeclock.Ncrs.{
  Rs, IsCodec, IsSymbols, differences, pack, ncrs_decode, ncrs_encode, msg_symbols, nc_data_size,
}
use cpeclock.Ncrs.Correct.{IsMessage, ncrs_decode-ncrs_encode}
use cpeclock.Mail.{
  noticed, Device, bytes_of_packet, new_packet, decoded, save_counter, mail_receive_messages,
}
use cpeclock.Mail.Layout.{bytes_of_packet-IsMessage, packet_of_bytes-bytes_of_packet}
use cpeclock.Mail.Receive.Effect.{
  new_code-some, decoded-new, noticed-Unaffected, noticed-previous, mail_receive_messages-ready,
}

-- The packet before the sender has completed it.
abbrev pub request : List ℕ → Packet
request payload = record { payload = payload; counter_low = 0; hmac = []; counter_resync_flag = 0 }

module _ (sha : Sha256) (ok : IsHash sha) (secret payload : List ℕ) (counter : ℕ)
    (size : length payload ≡ packet_payload_size) (bytes : IsBytes payload) where
  abbrev code : Packet
  code = (hmac433_encode sha secret (request payload) counter).0

  code-IsPacket : IsPacket code
  code-IsPacket =
      hmac433_encode-IsPacket sha ok secret (request payload) counter size bytes (omega arith)

  flag_zero : code.counter_resync_flag ≡ 0
  unfolding hmac433_encode
  flag_zero = refl

  pub request-IsMessage : IsMessage (bytes_of_packet code)
  request-IsMessage = bytes_of_packet-IsMessage code code-IsPacket (ap (λ x. x % 128) flag_zero)

  authentic :
      (receiver : ℕ)
      → counter + 1 < 2 ^ 64 - 1
      → receiver ≤ counter + 1
      → counter + 1 < receiver + 256
      → hmac433_authenticate sha secret code receiver ≡ (true, counter + 1 + 1)
  unfolding hmac433_encode
  authentic receiver fits le near =
      hmac433_authenticate-hmac433_encode sha secret (request payload) counter receiver
        (omega arith) (omega arith) (inr (omega arith))
      ∙ ap (λ x. (true, x)) (omega arith)

  payload_kept : code.payload ≡ payload
  unfolding hmac433_encode
  payload_kept = refl

  -- The device that has taken note of the packet: of the packet itself, and of the next counter,
  -- which is also in the memory.
  abbrev pub taken : {nv : Hal.Nvram} → Device nv → Device nv
  taken d =
      let d' = noticed d in
      record d' {
        previous_packet = code;
        hmac_message_counter = counter + 2;
        hal = save_counter (counter + 2) d'.hal;
      }

  -- A code that is ready and is decoded to the packet.
  pub request_decoded :
      {nv : Hal.Nvram} (rs : Rs) (c : rs.Control) (rs_rc : ℕ) (d : Device nv)
      → counter + 1 < 2 ^ 64 - 1
      → d.rx.nc.new_code_ready ≡ true
      → ncrs_decode rs c d.rx.nc.new_code ≡ some (rs_rc, bytes_of_packet code)
      → memeq (bytes_of_packet d.previous_packet) (bytes_of_packet code) ≡ false
      → d.hmac_message_counter ≤ counter + 1
      → counter + 1 < d.hmac_message_counter + 256
      → mail_receive_messages rs c sha secret d ≡ new_packet payload rs_rc (taken d)
  request_decoded rs c rs_rc d fits ready back new le near =
      let there = noticed-Unaffected rs c sha secret d in
      let next : counter + 1 + 1 ≡ counter + 2 = omega arith in
      mail_receive_messages-ready rs c sha secret true d ready
      ∙ new_code-some rs c sha secret d.rx.nc.new_code (bytes_of_packet code) rs_rc _ back
      ∙ ap (λ p. decoded rs c sha secret p rs_rc (noticed d))
          (packet_of_bytes-bytes_of_packet code code-IsPacket)
      ∙ decoded-new rs c sha secret code rs_rc (counter + 2) (noticed d)
          (rw (noticed-previous rs c sha secret d) new)
          (rw there.counter
            (authentic d.hmac_message_counter fits le near ∙ ap (λ x. (true, x)) next))
          flag_zero
      ∙ ap (λ p. new_packet p rs_rc (taken d)) payload_kept

  -- An ordinary packet with any payload of 6 bytes, encoded by a sender with the same secret and
  -- received with at most 5 of its 31 symbols wrong, has exactly the effect of `new_packet` on its
  -- payload, on a device that has collected its codes, keeps the packet as the previous one, and
  -- has moved its counter to two past the sender's old one, in the memory too; the result of
  -- decoding is 1 and 10 for each wrong symbol. The codec corrects up to 5 wrong symbols in this
  -- message and the hash gives 32 bytes; the code is ready and the packet differs from the previous
  -- one; the receiver's counter is not past the sender's new one, is less than 256 behind it, and
  -- neither wraps.
  pub request_received :
      {nv : Hal.Nvram} (rs : Rs) (c : rs.Control)
      → IsCodec rs c (pack msg_symbols 0 (bytes_of_packet code))
      → (d : Device nv)
      → let word = d.rx.nc.new_code in
        let wrong = differences word (ncrs_encode rs c (bytes_of_packet code)) in
        counter + 1 < 2 ^ 64 - 1
        → d.rx.nc.new_code_ready ≡ true
        → length word ≡ nc_data_size
        → IsSymbols word
        → wrong ≤ 5
        → memeq (bytes_of_packet d.previous_packet) (bytes_of_packet code) ≡ false
        → d.hmac_message_counter ≤ counter + 1
        → counter + 1 < d.hmac_message_counter + 256
        → mail_receive_messages rs c sha secret d ≡ new_packet payload (1 + wrong * 10) (taken d)
  request_received rs c codec d fits ready size symbols wrong new le near =
      let m = bytes_of_packet code in
      request_decoded rs c (1 + differences d.rx.nc.new_code (ncrs_encode rs c m) * 10) d fits ready
        (ncrs_decode-ncrs_encode rs c m codec request-IsMessage d.rx.nc.new_code size symbols wrong)
        new le near
