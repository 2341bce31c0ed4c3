-- ===== src/Hmac433/Counter.antt =====
-- The two ways in which a packet names a counter value.
use cpeclock.Base.{
  ℕ, ◌+◌, ◌*◌, ◌/◌, ◌%◌, ◌^◌, ◌≤◌, ◌<◌, ◌≡◌, ◌∙◌, refl, arith, [], ◌∷◌, IsByte, IsBytes, bit_or, u8,
  u64, ◌<<<◌, ◌>>>◌,
}
use cpeclock.Base.Bits.{zero-bit_or, bit_or-shift, bit_and-clear_byte}
use cpeclock.Hmac433.{absorb, resync_counter, ordinary_counter, emit}

-- For a counter that is not within 256 of the wrap-around, the value of an ordinary packet with a
-- given low byte is among the 256 from the counter up, and ends in that byte.
pub ordinary_counter_lem :
    (counter low : ℕ)
    → counter + 256 < 2 ^ 64
    → IsByte low
    → let n = ordinary_counter counter low in (counter ≤ n) × (n < counter + 256) × (n % 256 ≡ low)
unfolding ordinary_counter
ordinary_counter_lem counter low c b =
    ground (arith, bit_and-clear_byte counter, bit_or-shift 8 (counter / 256) low)

-- The sender's value, if it is among those, or before the wrap-around at most one below.
pub ordinary_counter-sent :
    (counter sent : ℕ)
    → counter < 2 ^ 64
    → sent < 2 ^ 64
    → counter ≤ sent
    → sent < counter + 256
    → ordinary_counter counter (u8 sent) ≡ sent
unfolding ordinary_counter
ordinary_counter-sent counter sent c s p q =
    ground (arith, bit_and-clear_byte counter, bit_or-shift 8 (counter / 256) (sent % 256))

absorb_step :
    (v p : ℕ) → v < 2 ^ 48 → IsByte p → u64 (bit_or (v * 256) p <<< 8) ≡ (v * 256 + p) * 256
absorb_step v p h b = omega (arith, bit_or-shift 8 v p)

-- One round of the sender: the top byte and the rest.
abbrev rest : ℕ → ℕ
rest t = u64 (t <<< 8)

abbrev top : ℕ → ℕ
top t = u8 (t >>> 56)

rest-top : (t : ℕ) → t < 2 ^ 64 → 256 * t ≡ top t * 2 ^ 64 + rest t
rest-top t h = omega arith

pub emit_lem :
    (c : ℕ)
    → emit 6 c ≡ (
      top c
          ∷ top (rest c)
          ∷ top (rest (rest c))
          ∷ top (rest (rest (rest c)))
          ∷ top (rest (rest (rest (rest c))))
          ∷ top (rest (rest (rest (rest (rest c)))))
          ∷ [],
      rest (rest (rest (rest (rest (rest c))))),
    )
unfolding emit
emit_lem c = refl

first : (p : ℕ) → IsByte p → u64 (p <<< 8) ≡ p * 256
first p b = omega arith

resync_counter_lem :
    (p0 p1 p2 p3 p4 p5 low : ℕ)
    → IsBytes (p0 ∷ p1 ∷ p2 ∷ p3 ∷ p4 ∷ p5 ∷ low ∷ [])
    → resync_counter (p0 ∷ p1 ∷ p2 ∷ p3 ∷ p4 ∷ p5 ∷ []) low
      ≡ ((((((p0 * 256 + p1) * 256 + p2) * 256 + p3) * 256 + p4) * 256 + p5) * 256 + low) * 256
unfolding resync_counter absorb
resync_counter_lem p0 p1 p2 p3 p4 p5 low (b0, (b1, (b2, (b3, (b4, (b5, (bl, _))))))) =
    rw
      (
        zero-bit_or p0,
        first p0 b0,
        absorb_step p0 p1 (omega arith) b1,
        absorb_step (p0 * 256 + p1) p2 (omega arith) b2,
        absorb_step ((p0 * 256 + p1) * 256 + p2) p3 (omega arith) b3,
        absorb_step (((p0 * 256 + p1) * 256 + p2) * 256 + p3) p4 (omega arith) b4,
        absorb_step ((((p0 * 256 + p1) * 256 + p2) * 256 + p3) * 256 + p4) p5 (omega arith) b5,
        absorb_step (((((p0 * 256 + p1) * 256 + p2) * 256 + p3) * 256 + p4) * 256 + p5) low
            (omega arith) bl,
      )
      refl

-- What the sender writes into a resynchronisation packet for a multiple of 256 below 2 ^ 64, the
-- receiver reads back as the same number.
pub resync_counter-emit :
    (c : ℕ)
    → c < 2 ^ 64
    → c % 256 ≡ 0
    → let (payload, tmp) = emit 6 c in resync_counter payload (u8 (tmp >>> 56)) ≡ c
resync_counter-emit c h z = rw (emit_lem c) (
    resync_counter_lem _ _ _ _ _ _ _ (omega arith)
    ∙ omega (
      arith,
      rest-top c,
      rest-top (rest c),
      rest-top (rest (rest c)),
      rest-top (rest (rest (rest c))),
      rest-top (rest (rest (rest (rest c)))),
      rest-top (rest (rest (rest (rest (rest c))))),
      rest-top (rest (rest (rest (rest (rest (rest c)))))),
    ))
