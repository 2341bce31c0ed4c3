-- ===== src/Libnc/Encode.antt =====
-- `libnc_encode` when the secret file is open.
use cpeclock.Base.{
  ℕ, zero, suc, ◌+◌, ◌-◌, ◌^◌, ◌%◌, ◌<◌, ◌≤◌, ◌≡◌, inl, inr, ◌∙◌, refl, ap, arith, List, [], ◌∷◌,
  Bool, true, false, some, ltb, ◌==◌, ==_iff, Bool-cases, length, replicate, memeq_refl, IsBytes,
  u64,
}
use cpeclock.Hmac.{Sha256, IsHash}
use cpeclock.Hmac433.{Packet, IsPacket, hmac433_encode, hmac433_authenticate}
use cpeclock.Hmac433.Encoded.{hmac433_encode-IsPacket}
use cpeclock.Hmac433.RoundTrip.{hmac433_encode-counter, hmac433_authenticate-hmac433_encode}
use cpeclock.Ncrs.{Rs, IsCodec, pack, ncrs_encode, msg_symbols, nc_data_size}
use cpeclock.Ncrs.Correct.{IsMessage, ncrs_encode_size, ncrs_decode-ncrs_encode, differences_self}
use cpeclock.Mail.{bytes_of_packet}
use cpeclock.Mail.Layout.{bytes_of_packet-IsMessage, packet_of_bytes-bytes_of_packet}
use cpeclock.Libnc.{
  Files, Sender, copy_payload, new_packet, save_secret_file, self_test, libnc_encode,
}

length-replicate_zeros : (n : ℕ) → length (replicate {A = ℕ} n 0) ≡ n
length-replicate_zeros zero = refl
length-replicate_zeros (suc n) = ap suc (length-replicate_zeros n)

replicate-IsBytes : (n : ℕ) → IsBytes (replicate n 0)
replicate-IsBytes zero = tt
replicate-IsBytes (suc n) = (omega arith, replicate-IsBytes n)

length-copy_payload :
    (room size : ℕ) (payload : List ℕ) → length (copy_payload room size payload) ≡ room
unfolding copy_payload
length-copy_payload zero size payload = refl
length-copy_payload (suc room) zero payload = ap suc (length-replicate_zeros room)
length-copy_payload (suc room) (suc size) [] = ap suc (length-replicate_zeros room)
length-copy_payload (suc room) (suc size) (x ∷ xs) = ap suc (length-copy_payload room size xs)

copy_payload-IsBytes :
    (room size : ℕ) (payload : List ℕ) → IsBytes payload → IsBytes (copy_payload room size payload)
unfolding copy_payload
copy_payload-IsBytes zero size payload h = tt
copy_payload-IsBytes (suc room) zero payload h = (omega arith, replicate-IsBytes room)
copy_payload-IsBytes (suc room) (suc size) [] h = (omega arith, replicate-IsBytes room)
copy_payload-IsBytes (suc room) (suc size) (x ∷ xs) (p, h) =
    (p, copy_payload-IsBytes room size xs h)

ltb-false : (a b : ℕ) → b ≤ a → ltb a b ≡ false
ltb-false a b h = ground arith

-- The sender accepts its own packet with the counter one back.
pub sent_bounds :
    (sha : Sha256) (secret : List ℕ) (p : Packet) (counter : ℕ)
    → counter + 257 < 2 ^ 64
    → let sent = (hmac433_encode sha secret p counter).1 in
      (counter < sent) × (sent ≤ counter + 256)
sent_bounds sha secret p counter fits =
    let (next, multiple, same) = hmac433_encode-counter sha secret p counter (omega arith) in
    elim (Bool-cases (p.counter_resync_flag == 0)) [
      | inl z ↦ let e = next ((==_iff _ _).0 z) in (omega (arith, e), omega (arith, e))
      | inr n ↦ ((multiple (ground (arith, n))).1, (multiple (ground (arith, n))).2)
    ]

authentic :
    (sha : Sha256) (secret : List ℕ) (p : Packet) (counter : ℕ)
    → counter + 257 < 2 ^ 64
    → let (p', sent) = hmac433_encode sha secret p counter in
      (hmac433_authenticate sha secret p' (u64 (sent + (2 ^ 64 - 1)))).0 ≡ true
authentic sha secret p counter fits =
    let (low, high) = sent_bounds sha secret p counter fits in
    let sent = (hmac433_encode sha secret p counter).1 in
    ap (λ (r : Bool × ℕ). r.0)
      (hmac433_authenticate-hmac433_encode sha secret p counter (u64 (sent + (2 ^ 64 - 1)))
        (omega arith) (omega arith) (inr (omega arith)))

module _ (rs : Rs) (c : rs.Control) (sha : Sha256) (hash : IsHash sha) (secret payload : List ℕ)
    (payload_size counter : ℕ) (bytes : IsBytes payload) where
  abbrev pub packet : Packet
  packet = (hmac433_encode sha secret (new_packet payload payload_size) counter).0

  abbrev pub sent : ℕ
  sent = (hmac433_encode sha secret (new_packet payload payload_size) counter).1

  flag : (new_packet payload payload_size).counter_resync_flag % 128 ≡ 0
  flag = ground arith

  packet-IsPacket : IsPacket packet
  packet-IsPacket =
      hmac433_encode-IsPacket sha hash secret (new_packet payload payload_size) counter
        (length-copy_payload 6 payload_size payload)
        (copy_payload-IsBytes 6 payload_size payload bytes) (ground arith)

  pub packet-IsMessage : counter + 257 < 2 ^ 64 → IsMessage (bytes_of_packet packet)
  packet-IsMessage fits = bytes_of_packet-IsMessage packet packet-IsPacket (
      ap (λ x. x % 128)
        ((hmac433_encode-counter sha secret (new_packet payload payload_size) counter
          (omega arith)).2)
      ∙ flag)

  module _ (fits : counter + 257 < 2 ^ 64)
      (codec : IsCodec rs c (pack msg_symbols 0 (bytes_of_packet packet))) where
    self_test_lem :
        (stack : List ℕ)
        → self_test rs c sha stack packet (ncrs_encode rs c (bytes_of_packet packet)) secret sent
          ≡ true
    unfolding self_test
    self_test_lem stack =
        let m = bytes_of_packet packet in
        let (size, symbols) = ncrs_encode_size rs c m codec (packet-IsMessage fits) in
        let word = ncrs_encode rs c m in
        let back =
          ncrs_decode-ncrs_encode rs c m codec (packet-IsMessage fits) word size symbols
            (omega (arith, differences_self word)) in
        rw back (
          rw (memeq_refl m) (
            rw (packet_of_bytes-bytes_of_packet packet packet-IsPacket)
              (authentic sha secret (new_packet payload payload_size) counter fits)))

-- With the secret file open, room for 31 symbols, a payload of bytes, a counter that is not within
-- 257 of the wrap-around, a hash that gives 32 bytes and a codec that corrects up to 5 wrong
-- symbols in the packet's message: `libnc_encode` always passes its own test, whatever memory the
-- test's packet starts from. It gives the encoded packet, goes to the packet's counter and saves
-- it, and its result is whether the saving went well.
pub libnc_encode_lem :
    {files : Files} (rs : Rs) (c : rs.Control) (sha : Sha256) (hash : IsHash sha)
    (stack payload : List ℕ)
    → (payload_size : ℕ) (message : List ℕ) (max_message_size : ℕ) (s : Sender files)
      (fd : files.Handle)
    → s.secret_fd ≡ some fd
    → nc_data_size ≤ max_message_size
    → (bytes : IsBytes payload) → s.secret_file.counter + 257 < 2 ^ 64
    → let (p, sent) =
        hmac433_encode sha s.secret_file.secret_data
          (new_packet payload payload_size)
          s.secret_file.counter in
      IsCodec rs c (pack msg_symbols 0 (bytes_of_packet p))
      → let (saved, s') =
          save_secret_file fd
            (record s { secret_file = record (s.secret_file) { counter = sent } }) in
        libnc_encode rs c sha stack payload payload_size message max_message_size s
        ≡ (saved, ncrs_encode rs c (bytes_of_packet p), s')
unfolding libnc_encode
libnc_encode_lem rs c sha hash stack payload payload_size message max s fd opened room bytes fits
      codec =
    let tested =
      self_test_lem rs c sha hash s.secret_file.secret_data payload payload_size
        s.secret_file.counter bytes fits codec stack in
    rw (ltb-false max nc_data_size room) (simp (opened, tested) refl)
