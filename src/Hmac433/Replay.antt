-- ===== src/Hmac433/Replay.antt =====
-- What a receiver's counter says of the packets that it takes.
use cpeclock.Base.{
  ℕ, ◌+◌, ◌^◌, ◌≤◌, ◌<◌, ◌≡◌, ◌↔◌, sym, ◌∙◌, ap, arith, List, true, false, ◌==◌, memeq→eq, eq→memeq,
  if◌then◌else◌, IsByte,
}
use cpeclock.Hmac.{Sha256}
use cpeclock.Hmac433.{Packet, resync_counter, ordinary_counter, digest, hmac433_authenticate}
use cpeclock.Hmac433.Counter.{ordinary_counter_lem}

-- The counter value that the receiver takes a packet to have.
abbrev pub meant : Packet → ℕ → ℕ
meant p counter =
    if p.counter_resync_flag == 0
    then ordinary_counter counter p.counter_low
    else resync_counter p.payload p.counter_low

resync_counter-le : (payload : List ℕ) (low : ℕ) → resync_counter payload low + 256 ≤ 2 ^ 64
unfolding resync_counter
resync_counter-le payload low = omega arith

module _ (sha : Sha256) (secret : List ℕ) (p : Packet) (low : IsByte p.counter_low) where
  -- For a packet whose low counter byte is a byte, and a counter that is not within 256 of the
  -- wrap-around: the packet is accepted exactly when the value that it means is not below the
  -- counter and its HMAC is that of the value and the payload. Then the counter becomes one more
  -- than the value, hence grows; else it stays.
  pub hmac433_authenticate_lem :
      (counter : ℕ)
      → counter + 256 < 2 ^ 64
      → let (taken, counter') = hmac433_authenticate sha secret p counter in
        ((taken ≡ true)
          ↔ (counter ≤ meant p counter) × (digest sha secret p.payload (meant p counter) ≡ p.hmac))
        × (taken ≡ true → (counter' ≡ meant p counter + 1) × (counter < counter'))
        × (taken ≡ false → counter' ≡ counter)
  unfolding hmac433_authenticate
  hmac433_authenticate_lem counter h = ground (
    arith,
    ordinary_counter_lem counter p.counter_low,
    resync_counter-le p.payload p.counter_low,
    eq→memeq (digest sha secret p.payload (ordinary_counter counter p.counter_low)) p.hmac,
    eq→memeq (digest sha secret p.payload (resync_counter p.payload p.counter_low)) p.hmac,
    memeq→eq (digest sha secret p.payload (ordinary_counter counter p.counter_low)) p.hmac,
    memeq→eq (digest sha secret p.payload (resync_counter p.payload p.counter_low)) p.hmac,
  )

  meant_again :
      (counter counter' : ℕ)
      → counter + 1000 < 2 ^ 64
      → counter' ≡ meant p counter + 1
      → counter' ≤ meant p counter'
      → (p.counter_resync_flag ≡ 0) × (meant p counter' ≡ meant p counter + 256)
  meant_again counter counter' h e le = ground (
    arith,
    ordinary_counter_lem counter p.counter_low,
    ordinary_counter_lem counter' p.counter_low,
  )

  -- If a packet, whose low counter byte is a byte, is accepted twice in a row, then it is no
  -- resynchronisation, and its HMAC stands for the payload with two counter values that are 256
  -- apart. The counter is not within 1000 of the wrap-around, nor within 256 of it after the first
  -- time.
  pub replay :
      (counter : ℕ)
      → counter + 1000 < 2 ^ 64
      → let (taken, counter') = hmac433_authenticate sha secret p counter in
        let (again, counter'') = hmac433_authenticate sha secret p counter' in
        taken ≡ true
        → counter' + 256 < 2 ^ 64
        → again ≡ true
        → (p.counter_resync_flag ≡ 0)
          × (digest sha secret p.payload (meant p counter)
              ≡ digest sha secret p.payload (meant p counter + 256))
  replay counter h taken h' again =
      let first = hmac433_authenticate_lem counter (omega arith) in
      let second = (hmac433_authenticate_lem _ h').0.0 again in
      let (ordinary, later) = meant_again counter _ h (first.1 taken).0 second.0 in
      (ordinary, (first.0.0 taken).1 ∙ sym second.1 ∙ ap (digest sha secret p.payload) later)
