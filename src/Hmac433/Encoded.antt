-- ===== src/Hmac433/Encoded.antt =====
-- The shape of a packet that `hmac433_encode` has completed.
use cpeclock.Base.{
  ℕ, zero, suc, ◌≤◌, ◌≡◌, refl, ap, arith, List, [], ◌∷◌, length, take, IsByte, IsBytes, ◌==◌, Bool,
  true, false, if◌then◌else◌,
}
use cpeclock.Hmac.{Sha256, IsHash, hmac_sha256}
use cpeclock.Hmac433.{
  Packet, IsPacket, digest, emit, hmac433_encode, encode_ordinary, encode_resync,
}

length-take : (n : ℕ) (xs : List ℕ) → n ≤ length xs → length (take n xs) ≡ n
length-take zero xs h = refl
length-take (suc n) [] h = absurd (omega arith)
length-take (suc n) (x ∷ xs) h = ap suc (length-take n xs (omega arith))

take-IsBytes : (n : ℕ) (xs : List ℕ) → IsBytes xs → IsBytes (take n xs)
take-IsBytes zero xs h = tt
take-IsBytes (suc n) [] h = tt
take-IsBytes (suc n) (x ∷ xs) (p, h) = (p, take-IsBytes n xs h)

length-emit : (n tmp : ℕ) → length (emit n tmp).0 ≡ n
unfolding emit
length-emit zero tmp = refl
length-emit (suc n) tmp = ap suc (length-emit n _)

emit-IsBytes : (n tmp : ℕ) → IsBytes (emit n tmp).0
unfolding emit
emit-IsBytes zero tmp = tt
emit-IsBytes (suc n) tmp = (omega arith, emit-IsBytes n _)

module _ (sha : Sha256) (ok : IsHash sha) (secret : List ℕ) where
  length-digest : (payload : List ℕ) (counter : ℕ) → length (digest sha secret payload counter) ≡ 6
  unfolding hmac_sha256
  length-digest payload counter = length-take 6 _ (omega (arith, ok.length-final _))

  digest-IsBytes : (payload : List ℕ) (counter : ℕ) → IsBytes (digest sha secret payload counter)
  unfolding hmac_sha256
  digest-IsBytes payload counter = take-IsBytes 6 _ (ok.final-IsBytes _)

  pub hmac433_encode-IsPacket :
      (p : Packet) (counter : ℕ)
      → length p.payload ≡ 6
      → IsBytes p.payload
      → IsByte p.counter_resync_flag
      → IsPacket (hmac433_encode sha secret p counter).0
  unfolding hmac433_encode
  hmac433_encode-IsPacket p counter size bytes flag = go (p.counter_resync_flag == 0)
    where
      go :
          (b : Bool)
          → IsPacket
              (if b
                then encode_ordinary sha secret p counter
                else encode_resync sha secret p counter).0
      go true = record {
        payload_size = size;
        payload_bytes = bytes;
        low_byte = omega arith;
        hmac_size = length-digest p.payload _;
        hmac_bytes = digest-IsBytes p.payload _;
        flag_byte = flag;
      }
      go false = record {
        payload_size = length-emit 6 _;
        payload_bytes = emit-IsBytes 6 _;
        low_byte = omega arith;
        hmac_size = length-digest _ _;
        hmac_bytes = digest-IsBytes _ _;
        flag_byte = flag;
      }
