-- ===== src/Ncrs/Copy.antt =====
-- Packing and unpacking, as the copying of bits one by one.
use cpeclock.Base.{
  ℕ, zero, suc, ◌+◌, ◌*◌, ◌%◌, ◌^◌, ◌<◌, ◌≡◌, ◌∙◌, refl, sym, ap, arith, List, ◌∷◌, u8, bit_or,
  ◌>>>◌,
}
use cpeclock.Base.Bits.{bit_or-shift, bit_and-mask}
use native.Mathlib.Nat.{pow-suc, one-le-pow, mod-eq_of_lt}
use cpeclock.Ncrs.{write_bit, unpack_symbol, unpack, read_bit, pack_symbol, pack}

pub read_bit-lt : (k : ℕ) (m : List ℕ) → read_bit k m < 2
unfolding read_bit
read_bit-lt k m = omega arith

-- A symbol is its five bits, the first one the highest.
abbrev five : ℕ → ℕ → ℕ → ℕ → ℕ → ℕ
five a b c d e = a * 16 + b * 8 + c * 4 + d * 2 + e

-- One `|=` of `pack_symbol`: the bits so far stand above position `j`.
or_bit :
    (j q b : ℕ)
    → b < 2
    → (q * 2 + b) * 2 ^ j < 256
    → u8 (bit_or (q * 2 ^ suc j) (b * 2 ^ j)) ≡ (q * 2 + b) * 2 ^ j
or_bit j q b h l = rw (bit_or-shift (suc j) q (b * 2 ^ j) below) (mod-eq_of_lt sum ∙ same)
  where
    same : q * 2 ^ suc j + b * 2 ^ j ≡ (q * 2 + b) * 2 ^ j
    same = omega (arith, ap (λ (t : ℕ). q * t) (pow-suc 2 j))

    below : b * 2 ^ j < 2 ^ suc j
    below = grind (arith, pow-suc 2 j, one-le-pow j 2)

    sum : q * 2 ^ suc j + b * 2 ^ j < 2 ^ 8
    sum = rw same l

pub pack_symbol_lem :
    (k : ℕ) (m : List ℕ)
    → pack_symbol 5 k m 0
      ≡ five
          (read_bit k m)
          (read_bit (k + 1) m)
          (read_bit (k + 1 + 1) m)
          (read_bit (k + 1 + 1 + 1) m)
          (read_bit (k + 1 + 1 + 1 + 1) m)
unfolding pack_symbol
pack_symbol_lem k m =
    rw
      (
        or_bit 4 0 (read_bit k m) a (omega (arith, a)),
        or_bit 3 (0 * 2 + read_bit k m) (read_bit (k + 1) m) b (omega (arith, a, b)),
        or_bit 2 ((0 * 2 + read_bit k m) * 2 + read_bit (k + 1) m) (read_bit (k + 1 + 1) m) c
            (omega (arith, a, b, c)),
        or_bit 1 (((0 * 2 + read_bit k m) * 2 + read_bit (k + 1) m) * 2 + read_bit (k + 1 + 1) m)
            (read_bit (k + 1 + 1 + 1) m) d (omega (arith, a, b, c, d)),
        or_bit 0
            ((((0 * 2 + read_bit k m) * 2 + read_bit (k + 1) m) * 2 + read_bit (k + 1 + 1) m) * 2
              + read_bit (k + 1 + 1 + 1) m)
            (read_bit (k + 1 + 1 + 1 + 1) m) e (omega (arith, a, b, c, d, e)),
      )
      (omega arith)
  where
    a : read_bit k m < 2
    a = read_bit-lt k m

    b : read_bit (k + 1) m < 2
    b = read_bit-lt (k + 1) m

    c : read_bit (k + 1 + 1) m < 2
    c = read_bit-lt (k + 1 + 1) m

    d : read_bit (k + 1 + 1 + 1) m < 2
    d = read_bit-lt (k + 1 + 1 + 1) m

    e : read_bit (k + 1 + 1 + 1 + 1) m < 2
    e = read_bit-lt (k + 1 + 1 + 1 + 1) m

-- Reading bits from one message and writing them to another, in order.
unfoldable pub copy_bits : ℕ → ℕ → List ℕ → List ℕ → List ℕ
copy_bits zero k m out = out
copy_bits (suc n) k m out = copy_bits n (k + 1) m (write_bit k (read_bit k m) out)

unpack_symbol_lem :
    (k a b c d e : ℕ) (out : List ℕ)
    → a < 2
    → b < 2
    → c < 2
    → d < 2
    → e < 2
    → unpack_symbol 5 (five a b c d e) k out
      ≡ write_bit (k + 1 + 1 + 1 + 1) e (
          write_bit
            (k + 1 + 1 + 1)
            d
            (write_bit (k + 1 + 1) c (write_bit (k + 1) b (write_bit k a out))))
unfolding unpack_symbol
unpack_symbol_lem k a b c d e out ha hb hc hd he =
    rw
      (
        bit_and-mask 1 (five a b c d e >>> 4) ∙ bit4,
        bit_and-mask 1 (five a b c d e >>> 3) ∙ bit3,
        bit_and-mask 1 (five a b c d e >>> 2) ∙ bit2,
        bit_and-mask 1 (five a b c d e >>> 1) ∙ bit1,
        bit_and-mask 1 (five a b c d e >>> 0) ∙ bit0,
      )
      refl
  where
    bit4 : (five a b c d e >>> 4) % 2 ^ 1 ≡ a
    bit4 = omega arith

    bit3 : (five a b c d e >>> 3) % 2 ^ 1 ≡ b
    bit3 = omega arith

    bit2 : (five a b c d e >>> 2) % 2 ^ 1 ≡ c
    bit2 = omega arith

    bit1 : (five a b c d e >>> 1) % 2 ^ 1 ≡ d
    bit1 = omega arith

    bit0 : (five a b c d e >>> 0) % 2 ^ 1 ≡ e
    bit0 = omega arith

-- The bits of one symbol.
abbrev copy_symbol : ℕ → List ℕ → List ℕ → List ℕ
copy_symbol k m out = write_bit (k + 1 + 1 + 1 + 1) (read_bit (k + 1 + 1 + 1 + 1) m) (
    write_bit (k + 1 + 1 + 1) (read_bit (k + 1 + 1 + 1) m) (
      write_bit (k + 1 + 1) (read_bit (k + 1 + 1) m)
        (write_bit (k + 1) (read_bit (k + 1) m) (write_bit k (read_bit k m) out))))

copy_five :
    (n k : ℕ) (m out : List ℕ)
    → copy_bits (suc n * 5) k m out ≡ copy_bits (n * 5) (k + 5) m (copy_symbol k m out)
unfolding copy_bits
copy_five n k m out =
    let e : suc n * 5 ≡ suc (suc (suc (suc (suc (n * 5))))) = omega arith in
    let e' : k + 1 + 1 + 1 + 1 + 1 ≡ k + 5 = omega arith in
    rw e (ap (λ j. copy_bits (n * 5) j m (copy_symbol k m out)) e')

unpack_first :
    (k : ℕ) (m out symbols : List ℕ)
    → unpack (pack_symbol 5 k m 0 ∷ symbols) k out ≡ unpack symbols (k + 5) (copy_symbol k m out)
unfolding unpack
unpack_first k m out symbols = ap (unpack symbols (k + 5)) (
    ap (λ s. unpack_symbol 5 s k out) (pack_symbol_lem k m)
    ∙ unpack_symbol_lem k _ _ _ _ _ out (read_bit-lt k m) (read_bit-lt _ m) (read_bit-lt _ m)
        (read_bit-lt _ m) (read_bit-lt _ m))

pub unpack-pack_bits :
    (n k : ℕ) (m out : List ℕ) → unpack (pack n k m) k out ≡ copy_bits (n * 5) k m out
unfolding pack
unpack-pack_bits zero k m out = unfold unpack copy_bits in refl
unpack-pack_bits (suc n) k m out =
    unpack_first k m out (pack n (k + 5) m)
    ∙ unpack-pack_bits n (k + 5) m _
    ∙ sym (copy_five n k m out)
