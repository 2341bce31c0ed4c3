-- ===== src/Ncrs/Correct.antt =====
-- What `ncrs_decode` makes of a word that `ncrs_encode` made, with symbols wrong on the way.
use cpeclock.Base.{
  ℕ, ◌+◌, ◌*◌, ◌%◌, ◌≤◌, ◌≡◌, ◌∙◌, refl, ap, arith, List, [], ◌∷◌, some, length, get_or, IsBytes,
}
use cpeclock.Hal
use cpeclock.Hal.{Hal}
use cpeclock.Ncrs.{
  ncrs_init, symbol_size, Rs, IsCodec, IsSymbols, differences, pack, gather, pad, attempts, try,
  ncrs_decode, ncrs_encode, msg_symbols, nroots, shifted, nc_data_size, decoded_data_bytes,
}
use cpeclock.Ncrs.Bits.{unpack-pack, length-pack, pack-IsSymbols}
use cpeclock.Ncrs.Order.{
  differences-gather_word, length-gather, gather-IsSymbols, gather-pad, interleave-IsSymbols,
  length-interleave,
}

pub ncrs_init-some :
    {nv : Hal.Nvram} (rs : Rs) (c : rs.Control) (h : Hal nv)
    → rs.init_rs symbol_size 0x25 1 1 nroots ≡ some c
    → ncrs_init rs h ≡ (some c, h)
unfolding ncrs_init
ncrs_init-some rs c h codec = rw (codec, ncrs_init) refl

-- A packet as `ncrs_encode` can send it: 14 bytes, with only the top bit of the last one in use.
pub record IsMessage (m : List ℕ) : Type 0 where
  pub size : length m ≡ decoded_data_bytes
  pub bytes : IsBytes m
  pub flag : get_or m 13 0 % 128 ≡ 0

pub differences_self : (xs : List ℕ) → differences xs xs ≡ 0
unfolding differences
differences_self [] = refl
differences_self (x ∷ xs) = ground (arith, differences_self xs)

module _ (rs : Rs) (c : rs.Control) (m : List ℕ) (codec : IsCodec rs c (pack msg_symbols 0 m))
    (ok : IsMessage m) where
  -- A message of 14 bytes, with only the top bit of the last one in use, is encoded as 31 symbols
  -- of 5 bits, for a codec that gives 10 parity symbols of 5 bits for it.
  pub ncrs_encode_size :
      (length (ncrs_encode rs c m) ≡ nc_data_size) × IsSymbols (ncrs_encode rs c m)
  unfolding ncrs_encode
  ncrs_encode_size = (
    length-interleave 10 0 _ _,
    interleave-IsSymbols 10 0 _ _ (pack-IsSymbols 21 0 m) codec.parity_symbols,
  )

  -- An attempt that reads a word which is near enough.
  pub try-near :
      (attempt : ℕ) (padded word : List ℕ)
      → gather nroots (shifted attempt) padded ≡ gather nroots 0 word
      → length word ≡ nc_data_size
      → IsSymbols word
      → differences word (ncrs_encode rs c m) ≤ 5
      → try rs c padded attempt ≡ some (differences word (ncrs_encode rs c m), pack 21 0 m)
  unfolding ncrs_encode try
  try-near attempt padded word e l s d =
      let symbols = pack 21 0 m in
      let size = codec.parity_size in
      let (ys, ps) = gather-IsSymbols 10 0 word s in
      let wrong =
        differences-gather_word word symbols _ l (length-pack 21 0 m) size codec.parity_symbols in
      ap (λ (g : List ℕ × List ℕ). rs.decode_rs8 c g.0 g.1) e
      ∙ (codec.corrects (gather 10 0 word).0 (gather 10 0 word).1 (length-gather 10 0 word).0
            (length-gather 10 0 word).1 ys ps (rw wrong d)
          ∙ ap (λ n. some (n, symbols)) wrong)

  -- If a received word of 31 symbols of 5 bits differs in at most 5 symbols from the encoding of a
  -- message of 14 bytes with only the top bit of the last one in use, and the codec corrects up to
  -- 5 wrong symbols in this message, then decoding gives the message back, with the result 1 and 10
  -- for each wrong symbol.
  pub ncrs_decode-ncrs_encode :
      (word : List ℕ)
      → length word ≡ nc_data_size
      → IsSymbols word
      → let wrong = differences word (ncrs_encode rs c m) in
        wrong ≤ 5 → ncrs_decode rs c word ≡ some (1 + wrong * 10, m)
  unfolding ncrs_decode attempts
  ncrs_decode-ncrs_encode word l s d =
      rw (try-near 0 (pad word) word (gather-pad word l) l s d, ncrs_decode, attempts)
        (ap (λ t. some (1 + differences word (ncrs_encode rs c m) * 10, t))
          (unpack-pack m ok.size ok.bytes ok.flag))
