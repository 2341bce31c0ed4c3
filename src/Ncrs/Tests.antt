-- ===== src/Ncrs/Tests.antt =====
-- A message on the way, with a codec that knows a single word.
use cpeclock.Base.{
  zero, suc, ◌<◌, ◌≤◌, ◌≢◌, ◌%◌, ◌∙◌, ◌++◌, drop, ℕ, ◌+◌, ◌*◌, ◌≡◌, refl, ap, arith, List, [], ◌∷◌,
  some, none, replicate, leb, if◌then◌else◌,
}
use cpeclock.Ncrs.{
  Rs, IsCodec, differences, pack, unpack, pack_symbol, read_bit, interleave, ncrs_encode,
  ncrs_decode, try, gather, pad, nroots, decoded_data_bytes,
}
use cpeclock.Ncrs.Bits.{unpack-pack}
use cpeclock.Ncrs.Attempts.{ncrs_decode_lem}
use cpeclock.Ncrs.Shift.{ncrs_decode-drop}
use cpeclock.Ncrs.Correct.{IsMessage, ncrs_decode-ncrs_encode}

abbrev message : List ℕ
message = 65 ∷ 7 ∷ 30 ∷ 0 ∷ 0 ∷ 255 ∷ 18 ∷ 1 ∷ 2 ∷ 3 ∷ 4 ∷ 5 ∷ 6 ∷ 128 ∷ []

message-IsMessage : IsMessage message
message-IsMessage = record { size = refl; bytes = ground arith; flag = refl }

-- The codec of the word with this data and no parity, which it takes a received word for that is
-- near enough.
abbrev pub one_word : List ℕ → Rs
one_word xs = record {
  Control = Unit {0};
  init_rs = λ s poly f p n. some tt;
  encode_rs8 = λ c xs' parity. parity;
  decode_rs8 = λ c ys parity.
      let wrong = differences ys xs + differences parity (replicate nroots 0) in
      if leb wrong 5 then some (wrong, xs) else none;
}

pub one_word-IsCodec : (xs : List ℕ) → IsCodec (one_word xs) tt xs
one_word-IsCodec xs = record {
  parity_size = refl;
  parity_symbols = ground arith;
  corrects = λ ys parity l k s t h. ground arith;
}

abbrev codec : Rs
codec = one_word (pack 21 0 message)

unpack-pack_example : unpack (pack 21 0 message) 0 (replicate decoded_data_bytes 0) ≡ message
unpack-pack_example = unpack-pack message refl message-IsMessage.bytes refl

-- The word as it is sent, and as it is received: the first symbol is wrong, and a parity symbol.
abbrev sent : List ℕ
sent =
    8 ∷ 4 ∷ 0 ∷ 3 ∷ 17 ∷ 0 ∷ 28 ∷ 0 ∷ 0 ∷ 0 ∷ 0 ∷ 0 ∷ 31 ∷ 28 ∷ 0 ∷ 9 ∷ 0 ∷ 0 ∷ 2 ∷ 0 ∷ 0 ∷ 16 ∷ 3
    ∷ 0 ∷ 0 ∷ 16 ∷ 0 ∷ 2 ∷ 16 ∷ 0 ∷ 13 ∷ []

abbrev received : List ℕ
received =
    31 ∷ 4 ∷ 17 ∷ 3 ∷ 17 ∷ 0 ∷ 28 ∷ 0 ∷ 0 ∷ 0 ∷ 0 ∷ 0 ∷ 31 ∷ 28 ∷ 0 ∷ 9 ∷ 0 ∷ 0 ∷ 2 ∷ 0 ∷ 0 ∷ 16 ∷ 3
    ∷ 0 ∷ 0 ∷ 16 ∷ 0 ∷ 2 ∷ 16 ∷ 0 ∷ 13 ∷ []

ncrs_encode-message : ncrs_encode codec tt message ≡ sent
unfolding ncrs_encode pack pack_symbol read_bit interleave
ncrs_encode-message = refl

received-wrong : differences received (ncrs_encode codec tt message) ≡ 2
unfolding differences
received-wrong = ap (differences received) ncrs_encode-message

ncrs_decode-ncrs_encode_example :
    ncrs_decode codec tt received
    ≡ some (1 + differences received (ncrs_encode codec tt message) * 10, message)
ncrs_decode-ncrs_encode_example =
    ncrs_decode-ncrs_encode codec tt message (one_word-IsCodec (pack 21 0 message))
      message-IsMessage received refl (ground arith) (omega (arith, received-wrong))

-- The same word when its first two symbols were lost, and another one is wrong.
abbrev rest : List ℕ
rest =
    0 ∷ 3 ∷ 17 ∷ 1 ∷ 28 ∷ 0 ∷ 0 ∷ 0 ∷ 0 ∷ 0 ∷ 31 ∷ 28 ∷ 0 ∷ 9 ∷ 0 ∷ 0 ∷ 2 ∷ 0 ∷ 0 ∷ 16 ∷ 3 ∷ 0 ∷ 0
    ∷ 16 ∷ 0 ∷ 2 ∷ 16 ∷ 0 ∷ 13 ∷ []

first_attempts : (b : ℕ) → b < 4 → try codec tt (pad (rest ++ replicate 2 0)) b ≡ none
unfolding try gather differences pack pack_symbol read_bit
first_attempts zero h = refl
first_attempts (suc zero) h = refl
first_attempts (suc (suc zero)) h = refl
first_attempts (suc (suc (suc zero))) h = refl
first_attempts (suc (suc (suc (suc b)))) h = absurd (omega arith)

rest-wrong : differences rest (drop 2 (ncrs_encode codec tt message)) ≡ 1
unfolding differences
rest-wrong = ap (λ t. differences rest (drop 2 t)) ncrs_encode-message

lost-wrong : differences (replicate 2 0 ++ rest) (ncrs_encode codec tt message) ≡ 3
unfolding differences
lost-wrong = ap (λ t. differences (replicate 2 0 ++ rest) t) ncrs_encode-message

ncrs_decode-drop_example :
    ncrs_decode codec tt (rest ++ replicate 2 0)
    ≡ some (
      1 + 2 * 2 + differences (replicate 2 0 ++ rest) (ncrs_encode codec tt message) * 10,
      message,
    )
ncrs_decode-drop_example =
    ncrs_decode-drop codec tt message (one_word-IsCodec (pack 21 0 message)) message-IsMessage 2
      rest (omega arith) refl (ground arith) (omega (arith, rest-wrong)) first_attempts

ncrs_decode_lem_example : (1 ≤ 35 % 10) × (35 % 10 ≤ 7) × (35 % 10 ≢ 2)
ncrs_decode_lem_example =
    ncrs_decode_lem codec tt (rest ++ replicate 2 0) message 35
      (ncrs_decode-drop_example ∙ ap (λ n. some (1 + 2 * 2 + n * 10, message)) lost-wrong)
