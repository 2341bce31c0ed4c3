-- ===== src/Ncrs/Bits.antt =====
-- Packing a message into symbols and unpacking it again.
use cpeclock.Base.{
  ℕ, zero, suc, ◌+◌, ◌-◌, ◌*◌, ◌/◌, ◌%◌, ◌^◌, ◌<◌, ◌≤◌, ◌≡◌, ◌∙◌, refl, sym, ap, arith, List, [],
  ◌∷◌, true, ◌==◌, ==_iff, length, get_or, set, replicate, u8, bit_or, ◌<<<◌, ◌>>>◌, IsByte,
  IsBytes, get_or_ext, get_or-replicate, length-set, get_or-set_self, get_or-set_ne,
}
use Prim.Native.Nat.{min}
use cpeclock.Base.Bits.{all_below, all_below_at}
use native.Mathlib.Decide.{ℕ_discrete}
use native.Mathlib.Nat.{add-zero}
use cpeclock.Ncrs.{
  write_bit, unpack, read_bit, pack_symbol, pack, IsSymbols, msg_symbols, decoded_data_bytes,
}
use cpeclock.Ncrs.Copy.{copy_bits, pack_symbol_lem, read_bit-lt, unpack-pack_bits}

-- The high `r` bits of a byte.
high : ℕ → ℕ → ℕ
high x r = x / 2 ^ (8 - r) * 2 ^ (8 - r)

high_step_table :
    all_below 256 (λ x.
      all_below 8 (λ r. u8 (bit_or (high x r) (u8 (x <<< r) >>> 7 <<< (7 - r))) == high x (suc r)))
    ≡ true
unfolding all_below high
high_step_table = refl

high_step :
    (x r : ℕ)
    → IsByte x
    → r < 8
    → u8 (bit_or (high x r) (u8 (x <<< r) >>> 7 <<< (7 - r))) ≡ high x (suc r)
high_step x r hx hr =
    (==_iff _ _).0 (all_below_at 8 _ r (all_below_at 256 _ x high_step_table hx) hr)

high-zero : (x : ℕ) → IsByte x → high x 0 ≡ 0
unfolding high
high-zero x h = omega arith

high_whole : (x : ℕ) → high x 8 ≡ x
unfolding high
high_whole x = omega arith

high_one : (x : ℕ) → x % 128 ≡ 0 → high x 1 ≡ x
unfolding high
high_one x h = omega arith

-- After the bits below `k`, byte `q` of the output holds those of its bits that are below `k`.
abbrev Copied : List ℕ → ℕ → List ℕ → Type 0
Copied m k out =
    (length out ≡ 14)
    × ((q : ℕ) → q < 14 → get_or out q 0 ≡ high (get_or m q 0) (min 8 (k - 8 * q)))

copy_bit :
    (m : List ℕ) (k : ℕ) (out : List ℕ)
    → ((q : ℕ) → IsByte (get_or m q 0))
    → k < 112
    → Copied m k out
    → Copied m (k + 1) (write_bit k (read_bit k m) out)
unfolding write_bit read_bit
copy_bit m k out bytes h (l, c) = (length-set out (k / 8) _ ∙ l, at)
  where
    before : (q : ℕ) → k / 8 ≡ q → min 8 (k - 8 * q) ≡ k % 8
    before q e = omega arith

    after : (q : ℕ) → k / 8 ≡ q → min 8 (k + 1 - 8 * q) ≡ suc (k % 8)
    after q e = omega arith

    at :
        (q : ℕ)
        → q < 14
        → get_or
            (set out (k / 8) (
              u8 (
                bit_or
                  (get_or out (k / 8) 0)
                  (u8 (get_or m (k / 8) 0 <<< (k % 8)) >>> 7 <<< (7 - k % 8)))))
            q
            0
          ≡ high (get_or m q 0) (min 8 (k + 1 - 8 * q))
    at q hq = elim (ℕ_discrete (k / 8) q) [
      | yes e ↦
          rw (e, get_or-set_self out q _ 0 (omega arith), c q hq, before q e, after q e)
            (high_step (get_or m q 0) (k % 8) (bytes q) (omega arith))
      | no ne ↦
          rw (get_or-set_ne out (k / 8) q _ 0 ne, c q hq) (ap (high (get_or m q 0)) (omega arith))
    ]

copy_bits-Copied :
    (m : List ℕ) (n k : ℕ) (out : List ℕ)
    → ((q : ℕ) → IsByte (get_or m q 0))
    → k + n ≤ 112
    → Copied m k out
    → Copied m (k + n) (copy_bits n k m out)
unfolding copy_bits
copy_bits-Copied m zero k out bytes h c = rw add-zero c
copy_bits-Copied m (suc n) k out bytes h c =
    let e : k + 1 + n ≡ k + suc n = omega arith in
    rw (← e)
      (copy_bits-Copied m n (k + 1) _ bytes (omega arith) (copy_bit m k out bytes (omega arith) c))

get_or-IsByte : (m : List ℕ) (q : ℕ) → IsBytes m → IsByte (get_or m q 0)
get_or-IsByte [] q b = omega arith
get_or-IsByte (x ∷ m) zero b = b.0
get_or-IsByte (x ∷ m) (suc q) b = get_or-IsByte m q b.1

zeros-Copied : (m : List ℕ) → IsBytes m → Copied m 0 (replicate 14 0)
zeros-Copied m b = (refl, λ q h. get_or-replicate 14 q 0 ∙ sym (none_yet q))
  where
    none_yet : (q : ℕ) → high (get_or m q 0) (min 8 (0 - 8 * q)) ≡ 0
    none_yet q =
        ap (high (get_or m q 0)) (omega arith) ∙ high-zero (get_or m q 0) (get_or-IsByte m q b)

-- Packing 14 bytes, with only the top bit of the last one in use, into 21 symbols of 5 bits, and
-- unpacking these, gives the bytes back.
pub unpack-pack :
    (m : List ℕ)
    → length m ≡ decoded_data_bytes
    → IsBytes m
    → get_or m 13 0 % 128 ≡ 0
    → unpack (pack msg_symbols 0 m) 0 (replicate decoded_data_bytes 0) ≡ m
unpack-pack m l b flag =
    unpack-pack_bits 21 0 m (replicate 14 0)
    ∙ get_or_ext 0 _ m (copied.0 ∙ sym l) (λ q h. copied.1 q (rw l at h) ∙ whole q (rw l at h))
  where
    copied : Copied m 105 (copy_bits 105 0 m (replicate 14 0))
    copied =
        copy_bits-Copied m 105 0 (replicate 14 0) (λ q. get_or-IsByte m q b) (omega arith)
          (zeros-Copied m b)

    whole : (q : ℕ) → q < 14 → high (get_or m q 0) (min 8 (105 - 8 * q)) ≡ get_or m q 0
    whole q h = elim (ℕ_discrete q 13) [
      | yes e ↦ rw e (high_one (get_or m 13 0) flag)
      | no ne ↦ ap (high (get_or m q 0)) (omega arith) ∙ high_whole (get_or m q 0)
    ]

pub length-pack : (n k : ℕ) (m : List ℕ) → length (pack n k m) ≡ n
unfolding pack
length-pack zero k m = refl
length-pack (suc n) k m = ap suc (length-pack n (k + 5) m)

pack_symbol-lt : (k : ℕ) (m : List ℕ) → pack_symbol 5 k m 0 < 32
pack_symbol-lt k m = omega (
  arith,
  pack_symbol_lem k m,
  read_bit-lt k m,
  read_bit-lt (k + 1) m,
  read_bit-lt (k + 1 + 1) m,
  read_bit-lt (k + 1 + 1 + 1) m,
  read_bit-lt (k + 1 + 1 + 1 + 1) m,
)

pub pack-IsSymbols : (n k : ℕ) (m : List ℕ) → IsSymbols (pack n k m)
unfolding pack
pack-IsSymbols zero k m = tt
pack-IsSymbols (suc n) k m = (pack_symbol-lt k m, pack-IsSymbols n (k + 5) m)
