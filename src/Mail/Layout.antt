-- ===== src/Mail/Layout.antt =====
-- A packet as the bytes of its C structure.
use cpeclock.Base.{
  ℕ, suc, ◌+◌, ◌%◌, ◌≡◌, ◌∙◌, ap, ap₂, subst, arith, List, [], ◌∷◌, ◌++◌, length, length-append,
  take, drop, get_or, get_or-middle, IsBytes,
}
use cpeclock.Hmac433.{Packet, IsPacket}
use cpeclock.Ncrs.Correct.{IsMessage}
use cpeclock.Mail.{packet_of_bytes, bytes_of_packet}
use cpeclock.Mail.Boot.{take-append_short, take_all}

append-IsBytes : (xs ys : List ℕ) → IsBytes xs → IsBytes ys → IsBytes (xs ++ ys)
append-IsBytes [] ys h k = k
append-IsBytes (x ∷ xs) ys (p, h) k = (p, append-IsBytes xs ys h k)

drop-append : (xs ys : List ℕ) (n : ℕ) → drop (length xs + n) (xs ++ ys) ≡ drop n ys
drop-append [] ys n = ap (λ m. drop m ys) (omega arith)
drop-append (x ∷ xs) ys n =
    let e : length (x ∷ xs) + n ≡ suc (length xs + n) = omega arith in
    ap (λ m. drop m (x ∷ (xs ++ ys))) e ∙ drop-append xs ys n

get_or-append : (xs ys : List ℕ) (n d : ℕ) → get_or (xs ++ ys) (length xs + n) d ≡ get_or ys n d
get_or-append [] ys n d = ap (λ m. get_or ys m d) (omega arith)
get_or-append (x ∷ xs) ys n d =
    let e : length (x ∷ xs) + n ≡ suc (length xs + n) = omega arith in
    ap (λ m. get_or (x ∷ (xs ++ ys)) m d) e ∙ get_or-append xs ys n d

take_front : (n : ℕ) (xs ys : List ℕ) → length xs ≡ n → take n (xs ++ ys) ≡ xs
take_front n xs ys e = take-append_short n xs ys (omega arith) ∙ take_all n xs (omega arith)

module _ (p : Packet) (ok : IsPacket p) where
  abbrev last : List ℕ
  last = p.hmac ++ (p.counter_resync_flag ∷ [])

  flag_at : get_or (bytes_of_packet p) 13 0 ≡ p.counter_resync_flag
  unfolding bytes_of_packet
  flag_at =
      subst (λ n. get_or (p.payload ++ (p.counter_low ∷ last)) (n + 7) 0 ≡ get_or last 6 0)
        ok.payload_size (get_or-append p.payload (p.counter_low ∷ last) 7 0)
      ∙ subst (λ n. get_or last n 0 ≡ p.counter_resync_flag) ok.hmac_size
          (get_or-middle p.hmac [] p.counter_resync_flag 0)

  pub bytes_of_packet-IsMessage : p.counter_resync_flag % 128 ≡ 0 → IsMessage (bytes_of_packet p)
  unfolding bytes_of_packet
  bytes_of_packet-IsMessage flag = record {
    size = omega (
      arith,
      length-append p.payload (p.counter_low ∷ last),
      length-append p.hmac (p.counter_resync_flag ∷ []),
      ok.payload_size,
      ok.hmac_size,
    );
    bytes = append-IsBytes p.payload (p.counter_low ∷ last) ok.payload_bytes (
      ok.low_byte,
      append-IsBytes p.hmac (p.counter_resync_flag ∷ []) ok.hmac_bytes (ok.flag_byte, tt),
    );
    flag = ap (λ x. x % 128) flag_at ∙ flag;
  }

  -- The bytes of a packet give the packet back.
  pub packet_of_bytes-bytes_of_packet : packet_of_bytes (bytes_of_packet p) ≡ p
  unfolding packet_of_bytes bytes_of_packet
  packet_of_bytes-bytes_of_packet =
      let low : get_or (bytes_of_packet p) 6 0 ≡ p.counter_low =
        subst (λ n. get_or (bytes_of_packet p) n 0 ≡ p.counter_low) ok.payload_size
          (get_or-middle p.payload last p.counter_low 0) in
      let rest : drop 7 (bytes_of_packet p) ≡ last =
        subst (λ n. drop (n + 1) (bytes_of_packet p) ≡ last) ok.payload_size
          (drop-append p.payload (p.counter_low ∷ last) 1) in
      let hmac : take 6 (drop 7 (bytes_of_packet p)) ≡ p.hmac =
        ap (take 6) rest ∙ take_front 6 p.hmac _ ok.hmac_size in
      let front = take_front 6 p.payload (p.counter_low ∷ last) ok.payload_size in
      ap₂
        (λ (a : List ℕ) (b : ℕ). record {
          payload = a;
          counter_low = b;
          hmac = take 6 (drop 7 (bytes_of_packet p));
          counter_resync_flag = get_or (bytes_of_packet p) 13 0;
        })
        front low
      ∙ ap₂
          (λ (a : List ℕ) (b : ℕ). record {
            payload = p.payload;
            counter_low = p.counter_low;
            hmac = a;
            counter_resync_flag = b;
          })
          hmac flag_at
