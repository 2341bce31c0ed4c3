-- ===== src/Hmac433/Tests.antt =====
-- Packets under a checksum in place of the hash.
use cpeclock.Base.{
  ℕ, ◌+◌, ◌<◌, ◌≤◌, ◌≡◌, ◌↔◌, inr, refl, arith, List, [], ◌∷◌, true, false, replicate, memeq, u64,
}
use cpeclock.Hmac.{Sha256, hmac_sha256}
use cpeclock.Hmac.Tests.{checksum}
use cpeclock.Hmac433.{Packet, ordinary_counter, digest, hmac433_authenticate, hmac433_encode}
use cpeclock.Hmac433.RoundTrip.{
  hmac433_encode-counter, hmac433_authenticate-hmac433_encode, loss_tolerated, after_sending,
}
use cpeclock.Hmac433.Replay.{meant, hmac433_authenticate_lem, replay}

abbrev key : List ℕ
key = 1 ∷ 2 ∷ 3 ∷ []

abbrev alarm_packet : Packet
alarm_packet = record {
  payload = b'A' ∷ 7 ∷ 30 ∷ 0 ∷ 0 ∷ 0 ∷ [];
  counter_low = 0;
  hmac = replicate 6 0;
  counter_resync_flag = 0;
}

-- A hash that is no good.
abbrev constant : Sha256
constant = record { Ctx = Unit {0}; init = tt; update = λ c xs. c; final = λ c. replicate 32 0 }

hmac433_authenticate-hmac433_encode_example :
    let (p', sent) = hmac433_encode checksum key alarm_packet 5 in
    hmac433_authenticate checksum key p' 4 ≡ (true, u64 (sent + 1))
hmac433_authenticate-hmac433_encode_example =
    let sent = (hmac433_encode-counter checksum key alarm_packet 5 (omega arith)).0 refl in
    hmac433_authenticate-hmac433_encode checksum key alarm_packet 5 4 (omega arith)
      (omega (arith, sent)) (inr (omega (arith, sent)))

loss_tolerated_example :
    let (p', sent) =
      hmac433_encode checksum key alarm_packet
        (after_sending checksum key (alarm_packet ∷ alarm_packet ∷ []) 5) in
    hmac433_authenticate checksum key p' (5 + 1) ≡ (true, sent + 1)
loss_tolerated_example =
    loss_tolerated checksum key (alarm_packet ∷ alarm_packet ∷ []) alarm_packet 5 (omega arith)
      (refl, (refl, (refl, tt))) (omega arith)

hmac433_authenticate_lem_example :
    let (taken, counter') = hmac433_authenticate checksum key alarm_packet 200 in
    ((taken ≡ true)
      ↔ (200 ≤ meant alarm_packet 200)
        × (digest checksum key alarm_packet.payload (meant alarm_packet 200) ≡ alarm_packet.hmac))
    × (taken ≡ true → (counter' ≡ meant alarm_packet 200 + 1) × (200 < counter'))
    × (taken ≡ false → counter' ≡ 200)
hmac433_authenticate_lem_example =
    hmac433_authenticate_lem checksum key alarm_packet (omega arith) 200 (omega arith)

taken_twice :
    let (taken, counter') = hmac433_authenticate constant key alarm_packet 200 in
    let (again, counter'') = hmac433_authenticate constant key alarm_packet counter' in
    (taken ≡ true) × (counter' ≡ 257) × (again ≡ true)
unfolding hmac433_authenticate ordinary_counter hmac_sha256 memeq
taken_twice = (refl, refl, refl)

replay_example :
    (alarm_packet.counter_resync_flag ≡ 0)
    × (digest constant key alarm_packet.payload (meant alarm_packet 200)
        ≡ digest constant key alarm_packet.payload (meant alarm_packet 200 + 256))
replay_example =
    replay constant key alarm_packet (omega arith) 200 (omega arith) taken_twice.0
      (omega (arith, taken_twice.1)) taken_twice.2
