-- ===== src/Hmac433/RoundTrip.antt =====
-- hmac433.c: a packet from `hmac433_encode` to `hmac433_authenticate`.
use cpeclock.Base.{
  ℕ, ◌+◌, ◌-◌, ◌*◌, ◌%◌, ◌^◌, ◌≤◌, ◌<◌, ◌≡◌, ◌∙◌, ◌≢◌, ◌⊎◌, inr, ap, arith, List, [], ◌∷◌, length,
  All, true, memeq_refl, bit_and, u64,
}
use cpeclock.Base.Bits.{bit_and-clear_byte}
use cpeclock.Hmac.{Sha256}
use cpeclock.Hmac433.{Packet, emit, digest, hmac433_authenticate, hmac433_encode}
use cpeclock.Hmac433.Counter.{ordinary_counter-sent, resync_counter-emit}

module _ (sha : Sha256) (secret : List ℕ) where
  -- For a counter that is not within 256 of the wrap-around, the sender goes to the next value, or
  -- for a resynchronisation to the next multiple of 256; the packet's flag stays as it is.
  pub hmac433_encode-counter :
      (p : Packet) (counter : ℕ)
      → counter + 256 < 2 ^ 64
      → let (p', sent) = hmac433_encode sha secret p counter in
        (p.counter_resync_flag ≡ 0 → sent ≡ counter + 1)
        × (p.counter_resync_flag ≢ 0 → (sent % 256 ≡ 0) × (counter < sent) × (sent ≤ counter + 256))
        × (p'.counter_resync_flag ≡ p.counter_resync_flag)
  unfolding hmac433_encode
  hmac433_encode-counter p counter h =
      ground (arith, bit_and-clear_byte (u64 (counter + 1 * 2 ^ 8)))

  -- A packet that the sender encodes is accepted by a receiver with the same secret and a 64-bit
  -- counter that is not past the sender's new one and, for an ordinary packet, less than 256 behind
  -- it. The receiver's counter becomes one more than the sender's, modulo 2 ^ 64.
  pub hmac433_authenticate-hmac433_encode :
      (p : Packet) (counter receiver : ℕ)
      → receiver < 2 ^ 64
      → let (p', sent) = hmac433_encode sha secret p counter in
        receiver ≤ sent
        → (p.counter_resync_flag ≢ 0) ⊎ (sent < receiver + 256)
        → hmac433_authenticate sha secret p' receiver ≡ (true, u64 (sent + 1))
  unfolding hmac433_authenticate hmac433_encode
  hmac433_authenticate-hmac433_encode p counter receiver h le near = ground (
    arith,
    ordinary_counter-sent receiver (u64 (counter + 1)),
    memeq_refl (digest sha secret p.payload (u64 (counter + 1))),
    bit_and-clear_byte (u64 (counter + 1 * 2 ^ 8)),
    resync_counter-emit (bit_and (u64 (counter + 1 * 2 ^ 8)) (2 ^ 64 - 1 - 0xff)),
    memeq_refl (
        digest sha secret (emit 6 (bit_and (u64 (counter + 1 * 2 ^ 8)) (2 ^ 64 - 1 - 0xff))).0
          (bit_and (u64 (counter + 1 * 2 ^ 8)) (2 ^ 64 - 1 - 0xff))),
  )

-- The sender's counter after some packets.
abbrev pub after_sending : Sha256 → List ℕ → List Packet → ℕ → ℕ
after_sending sha secret [] counter = counter
after_sending sha secret (p ∷ ps) counter =
    after_sending sha secret ps (hmac433_encode sha secret p counter).1

abbrev pub IsOrdinary : Packet → Type 0
IsOrdinary p = p.counter_resync_flag ≡ 0

module _ (sha : Sha256) (secret : List ℕ) where
  after_sending_lem :
      (ps : List Packet) (counter : ℕ)
      → counter + length ps + 256 < 2 ^ 64
      → All IsOrdinary ps
      → after_sending sha secret ps counter ≡ counter + length ps
  after_sending_lem [] counter h o = omega arith
  after_sending_lem (p ∷ ps) counter h (e, o) =
      let c' = (hmac433_encode sha secret p counter).1 in
      let e' : c' ≡ counter + 1 = (hmac433_encode-counter sha secret p counter (omega arith)).0 e in
      omega (arith, after_sending_lem ps c' (omega arith) o)

  -- When a receiver is one ahead of the sender, up to 255 ordinary packets in a row may be lost:
  -- the next ordinary packet is accepted, and the receiver is again one ahead of the sender. The
  -- counter is not within 1000 of the wrap-around.
  pub loss_tolerated :
      (lost : List Packet) (p : Packet) (counter : ℕ)
      → counter + 1000 < 2 ^ 64
      → All IsOrdinary (p ∷ lost)
      → length lost ≤ 255
      → let (p', sent) = hmac433_encode sha secret p (after_sending sha secret lost counter) in
        hmac433_authenticate sha secret p' (counter + 1) ≡ (true, sent + 1)
  loss_tolerated lost p counter h (e, o) l =
      let here = after_sending sha secret lost counter in
      let there : here ≡ counter + length lost = after_sending_lem lost counter (omega arith) o in
      let next : (hmac433_encode sha secret p here).1 ≡ here + 1 =
        (hmac433_encode-counter sha secret p here (omega arith)).0 e in
      hmac433_authenticate-hmac433_encode sha secret p here (counter + 1) (omega arith)
        (omega arith) (inr (omega arith))
      ∙ ap (λ n. (true, n)) (omega arith)
