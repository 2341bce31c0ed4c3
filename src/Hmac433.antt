-- ===== src/Hmac433.antt =====
-- hmac433.c and hmac433.h: authenticated packets that carry the low byte of a 64-bit counter.
-- A function takes `*counter` and returns its new value.
pub mod Counter
pub mod RoundTrip
pub mod Replay
pub mod Encoded
mod Tests
use cpeclock.Base.{
  zero, suc, ◌^◌, ℕ, ◌+◌, ◌-◌, ◌*◌, ◌/◌, ◌≡◌, List, [], ◌∷◌, Bool, true, false, ltb, ◌==◌,
  if◌then◌else◌, memeq, take, IsByte, IsBytes, length, bit_and, bit_or, u8, u64, ◌<<<◌, ◌>>>◌,
}
use cpeclock.Hmac.{Sha256, hmac_sha256, hmac_block_size}

abbrev pub packet_payload_size : ℕ
packet_payload_size = 6

abbrev pub packet_hmac_size : ℕ
packet_hmac_size = 6

pub record Packet : Type 0 where
  pub payload : List ℕ
  pub counter_low : ℕ
  pub hmac : List ℕ
  pub counter_resync_flag : ℕ

-- The sizes and ranges that the C type gives.
pub record IsPacket (p : Packet) : Type 0 where
  pub payload_size : length p.payload ≡ packet_payload_size
  pub payload_bytes : IsBytes p.payload
  pub low_byte : IsByte p.counter_low
  pub hmac_size : length p.hmac ≡ packet_hmac_size
  pub hmac_bytes : IsBytes p.hmac
  pub flag_byte : IsByte p.counter_resync_flag

-- `secret_size` after its test: the counter needs 8 bytes of the block.
abbrev pub cut_secret : List ℕ → List ℕ
cut_secret secret = take (hmac_block_size - 8) secret

-- The loop that reads the payload, highest byte first, and the statements after it.
pub absorb : ℕ → List ℕ → ℕ
absorb new_counter [] = new_counter
absorb new_counter (p ∷ ps) = absorb (u64 (bit_or new_counter p <<< 8)) ps

unfoldable pub resync_counter : List ℕ → ℕ → ℕ
resync_counter payload low = u64 (bit_or (absorb 0 payload) low <<< 8)

unfoldable pub ordinary_counter : ℕ → ℕ → ℕ
ordinary_counter counter low =
    let new_counter = bit_or (bit_and counter (2 ^ 64 - 1 - 0xff)) low in
    if ltb new_counter counter then u64 (new_counter + 0x100) else new_counter

-- The loop that writes the payload: the bytes, and `tmp` after it.
pub emit : ℕ → ℕ → List ℕ × ℕ
emit zero tmp = ([], tmp)
emit (suc n) tmp = let (ps, rest) = emit n (u64 (tmp <<< 8)) in (u8 (tmp >>> 56) ∷ ps, rest)

module _ (sha : Sha256) (secret : List ℕ) where
  abbrev pub digest : List ℕ → ℕ → List ℕ
  digest payload counter =
      take packet_hmac_size (hmac_sha256 sha (cut_secret secret) counter payload)

  -- The last part of `hmac433_authenticate`.
  check_hmac : Packet → ℕ → ℕ → Bool × ℕ
  check_hmac packet counter new_counter =
      if memeq (digest packet.payload new_counter) packet.hmac
      then (true, u64 (new_counter + 1))
      else (false, counter)

  unfoldable pub hmac433_authenticate : Packet → ℕ → Bool × ℕ
  unfolding check_hmac
  hmac433_authenticate packet counter =
      if packet.counter_resync_flag == 0
      then check_hmac packet counter (ordinary_counter counter packet.counter_low)
      else let new_counter = resync_counter packet.payload packet.counter_low in
        if ltb new_counter counter then (false, counter) else check_hmac packet counter new_counter

  -- The two branches of `hmac433_encode`, with the computation of the HMAC that both run into.
  encode_ordinary : Packet → ℕ → Packet × ℕ
  encode_ordinary packet counter =
      let counter' = u64 (counter + 1) in
      (record packet { counter_low = u8 counter'; hmac = digest packet.payload counter' }, counter')

  encode_resync : Packet → ℕ → Packet × ℕ
  encode_resync packet counter =
      let counter' = bit_and (u64 (counter + 1 * 2 ^ 8)) (2 ^ 64 - 1 - 0xff) in
      let (payload', tmp) = emit packet_payload_size counter' in
      (
        record packet {
          payload = payload';
          counter_low = u8 (tmp >>> 56);
          hmac = digest payload' counter';
        },
        counter',
      )

  unfoldable pub hmac433_encode : Packet → ℕ → Packet × ℕ
  unfolding encode_ordinary encode_resync
  hmac433_encode packet counter =
      if packet.counter_resync_flag == 0
      then encode_ordinary packet counter
      else encode_resync packet counter
