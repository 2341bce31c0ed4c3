-- ===== src/Ncrs.antt =====
-- ncrs.c: 14-byte packets as 31 symbols of 5 bits, with Reed-Solomon parity between the data.
-- The codec (reed_solomon.c and its headers) is a copy of a public library: the parameter `Rs`.
pub mod Copy
pub mod Bits
pub mod Order
pub mod Correct
pub mod Attempts
pub mod Shift
pub mod Tests
use cpeclock.Base.{
  ℕ, zero, suc, ◌+◌, ◌-◌, ◌*◌, ◌/◌, ◌%◌, ◌^◌, ◌<◌, ◌≤◌, ◌≡◌, List, [], ◌∷◌, ◌++◌, Bool, true, false,
  Option, none, some, leb, ◌==◌, if◌then◌else◌, length, get_or, set, replicate, All, u8, bit_and,
  bit_or, ◌<<<◌, ◌>>>◌,
}
use cpeclock.Base.Text.{codes}
use cpeclock.Hal
use cpeclock.Hal.{Hal, display_message}

-- `struct rs_control`, `init_rs`, `encode_rs8` with the data and the parity's first contents, and
-- `decode_rs8` with the data and the received parity: `none` for a negative result, else the
-- number of corrections and the corrected data. The calls' other arguments are constants: the
-- lengths, no erasures, no syndrome, no mask.
pub record Rs : Type 1 where
  pub Control : Type 0
  pub init_rs : ℕ → ℕ → ℕ → ℕ → ℕ → Option Control
  pub encode_rs8 : Control → List ℕ → List ℕ → List ℕ
  pub decode_rs8 : Control → List ℕ → List ℕ → Option (ℕ × List ℕ)

abbrev pub symbol_size : ℕ
symbol_size = 5

abbrev pub nc_data_size : ℕ
nc_data_size = 31

abbrev pub msg_symbols : ℕ
msg_symbols = 21

abbrev pub decoded_data_bits : ℕ
decoded_data_bits = msg_symbols * symbol_size

abbrev pub decoded_data_bytes : ℕ
decoded_data_bytes = (decoded_data_bits + 7) / 8

abbrev pub nroots : ℕ
nroots = 10

abbrev pub max_shift_distance : ℕ
max_shift_distance = 3

abbrev pub IsSymbols : List ℕ → Type 0
IsSymbols = All (λ x. x < 2 ^ symbol_size)

-- In how many places two blocks differ.
unfoldable pub differences : List ℕ → List ℕ → ℕ
differences [] ys = 0
differences (x ∷ xs) [] = 0
differences (x ∷ xs) (y ∷ ys) = (if x == y then 0 else 1) + differences xs ys

-- What a Reed-Solomon code with 10 parity symbols promises for the data `xs`: up to 5 wrong
-- symbols, in the data or in the parity, are corrected and counted.
pub record IsCodec (rs : Rs) (c : rs.Control) (xs : List ℕ) : Type 0 where
  pub parity_size : length (rs.encode_rs8 c xs (replicate nroots 0)) ≡ nroots
  pub parity_symbols : IsSymbols (rs.encode_rs8 c xs (replicate nroots 0))
  pub corrects :
      (ys parity : List ℕ)
      → length ys ≡ msg_symbols
      → length parity ≡ nroots
      → IsSymbols ys
      → IsSymbols parity
      → let wrong =
          differences ys xs + differences parity (rs.encode_rs8 c xs (replicate nroots 0)) in
        wrong ≤ nroots / 2 → rs.decode_rs8 c ys parity ≡ some (wrong, xs)

-- The loops of `ncrs_decode` that unpack the bits: `k` counts them, and `j` the symbol's own.
pub write_bit : ℕ → ℕ → List ℕ → List ℕ
write_bit k bit message =
    set message (k / 8) (u8 (bit_or (get_or message (k / 8) 0) (bit <<< (7 - k % 8))))

pub unpack_symbol : ℕ → ℕ → ℕ → List ℕ → List ℕ
unpack_symbol zero symbol k message = message
unpack_symbol (suc j) symbol k message =
    unpack_symbol j symbol (k + 1) (write_bit k (bit_and (symbol >>> j) 1) message)

pub unpack : List ℕ → ℕ → List ℕ → List ℕ
unpack [] k message = message
unpack (symbol ∷ symbols) k message =
    unpack symbols (k + symbol_size) (unpack_symbol symbol_size symbol k message)

-- The loops of `ncrs_encode` that pack the bits.
unfoldable pub read_bit : ℕ → List ℕ → ℕ
read_bit k message = u8 (get_or message (k / 8) 0 <<< (k % 8)) >>> 7

unfoldable pub pack_symbol : ℕ → ℕ → List ℕ → ℕ → ℕ
pack_symbol zero k message symbol = symbol
pack_symbol (suc j) k message symbol =
    pack_symbol j (k + 1) message (u8 (bit_or symbol (read_bit k message <<< j)))

unfoldable pub pack : ℕ → ℕ → List ℕ → List ℕ
pack zero k message = []
pack (suc left) k message =
    pack_symbol symbol_size k message 0 ∷ pack left (k + symbol_size) message

-- Two data symbols and one parity symbol in each round, and the last data symbol.
unfoldable pub interleave : ℕ → ℕ → List ℕ → List ℕ → List ℕ
interleave zero j symbols parity = get_or symbols j 0 ∷ []
interleave (suc left) j symbols parity =
    get_or symbols j 0
    ∷ get_or symbols (j + 1) 0
    ∷ u8 (get_or parity (j / 2) 0)
    ∷ interleave left (j + 2) symbols parity

-- The same order read back from index `i`: the data, and the parity.
unfoldable pub gather : ℕ → ℕ → List ℕ → List ℕ × List ℕ
gather zero i padded = (get_or padded i 0 ∷ [], [])
gather (suc left) i padded =
    let (symbols, parity) = gather left (i + 3) padded in
    (get_or padded i 0 ∷ get_or padded (i + 1) 0 ∷ symbols, get_or padded (i + 2) 0 ∷ parity)

abbrev pub pad : List ℕ → List ℕ
pad encoded = replicate max_shift_distance 0 ++ (encoded ++ replicate max_shift_distance 0)

-- Where the attempt starts to read.
abbrev pub shifted : ℕ → ℕ
shifted attempt =
    if attempt % 2 == 0 then max_shift_distance - attempt / 2 else max_shift_distance + attempt / 2

module _ (rs : Rs) where
  open rs use {Control, init_rs, encode_rs8, decode_rs8}

  -- `PRIM` and `FCR` are 1, and the field's polynomial is 0x25.
  unfoldable pub ncrs_init : {nv : Hal.Nvram} → Hal nv → Option Control × Hal nv
  ncrs_init h = elim (init_rs symbol_size 0x25 1 1 nroots) [
    | none ↦ (none, display_message (codes "RS INIT ERROR") h)
    | some c ↦ (some c, h)
  ]

  unfoldable pub try : Control → List ℕ → ℕ → Option (ℕ × List ℕ)
  try c padded attempt =
      let (symbols, parity) = gather nroots (shifted attempt) padded in decode_rs8 c symbols parity

  -- The loop over the attempts, with `left` to go: the attempt that succeeds, and its outcome.
  pub attempts : Control → List ℕ → ℕ → ℕ → Option (ℕ × ℕ × List ℕ)
  attempts c padded zero attempt = none
  attempts c padded (suc left) attempt = elim (try c padded attempt) [
    | none ↦ attempts c padded left (attempt + 1)
    | some (corrections, symbols) ↦ some (attempt, corrections, symbols)
  ]

  -- `none` is the result 0, which leaves `original_message` as it was.
  unfoldable pub ncrs_decode : Control → List ℕ → Option (ℕ × List ℕ)
  ncrs_decode c encoded = elim (attempts c (pad encoded) (max_shift_distance * 2 + 1) 0) [
    | none ↦ none
    | some (attempt, corrections, symbols) ↦
        some (1 + attempt + corrections * 10, unpack symbols 0 (replicate decoded_data_bytes 0))
  ]

  unfoldable pub ncrs_encode : Control → List ℕ → List ℕ
  ncrs_encode c message =
      let symbols = pack msg_symbols 0 message in
      interleave nroots 0 symbols (encode_rs8 c symbols (replicate nroots 0))
