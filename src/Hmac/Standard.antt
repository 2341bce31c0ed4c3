-- ===== src/Hmac/Standard.antt =====
-- `hmac_sha256` against the definition of HMAC over one call of the hash.
use cpeclock.Base.{
  ℕ, zero, suc, ◌/◌, ◌-◌, ◌≡◌, refl, ap, ap₂, List, [], ◌∷◌, ◌++◌, map, length, replicate, take,
  IsBytes, bit_xor, arith,
}
use cpeclock.Base.Bits.{xor_pads}
use mathlib.Core.Path.{◌≡⟨◌⟩◌, ◌∎}
use native.Mathlib.Nat.{sub-zero}
use cpeclock.Hmac.{
  Sha256, IsHash, hmac_block_size, le_bytes, load, inner_pad, outer_pad, hmac_sha256,
}

-- The key of the standard: at most one block, filled up with zeros.
abbrev pub block_key : List ℕ → List ℕ
block_key key = let k = take hmac_block_size key in k ++ replicate (hmac_block_size - length k) 0

abbrev pub hash : Sha256 → List ℕ → List ℕ
hash sha message = sha.final (sha.update sha.init message)

-- HMAC(key, message) = H((K xor opad) ++ H((K xor ipad) ++ message))
abbrev pub hmac : Sha256 → List ℕ → List ℕ → List ℕ
hmac sha key message =
    let k = block_key key in
    hash sha (map (λ x. bit_xor x 0x5c) k ++ hash sha (map (λ x. bit_xor x 0x36) k ++ message))

ipad : List ℕ → List ℕ
ipad [] = []
ipad (x ∷ xs) = bit_xor x 0x36 ∷ ipad xs

load-take : (room : ℕ) (xs : List ℕ) → load room xs ≡ ipad (take room xs)
unfolding load ipad
load-take zero xs = refl
load-take (suc room) [] = refl
load-take (suc room) (x ∷ xs) = rw (load-take room xs)

load-append :
    (room : ℕ) (xs ys : List ℕ)
    → load room xs ++ load (room - length (load room xs)) ys ≡ load room (xs ++ ys)
unfolding load
load-append zero xs ys = refl
load-append (suc room) [] ys = rw sub-zero
load-append (suc room) (x ∷ xs) ys =
    let e : suc room - suc (length (load room xs)) ≡ room - length (load room xs) = omega arith in
    rw e (ap (λ l. bit_xor x 0x36 ∷ l) (load-append room xs ys))

ipad-zeros : (n : ℕ) (xs : List ℕ) → ipad (xs ++ replicate n 0) ≡ ipad xs ++ replicate n 0x36
unfolding ipad
ipad-zeros zero [] = refl
ipad-zeros (suc n) [] = ap (λ l. 0x36 ∷ l) (ipad-zeros n [])
ipad-zeros n (x ∷ xs) = ap (λ l. bit_xor x 0x36 ∷ l) (ipad-zeros n xs)

ipad-map : (xs : List ℕ) → ipad xs ≡ map (λ x. bit_xor x 0x36) xs
unfolding ipad
ipad-map [] = refl
ipad-map (x ∷ xs) = ap (λ l. bit_xor x 0x36 ∷ l) (ipad-map xs)

length-ipad : (xs : List ℕ) → length (ipad xs) ≡ length xs
unfolding ipad
length-ipad [] = refl
length-ipad (x ∷ xs) = ap suc (length-ipad xs)

-- The three loops together pad the key and the counter.
inner_pad_lem :
    (key : List ℕ) (counter : ℕ)
    → inner_pad key counter ≡ map (λ x. bit_xor x 0x36) (block_key (key ++ le_bytes 8 counter))
unfolding inner_pad
inner_pad_lem key counter =
    rw
      (
        load-append 64 key (le_bytes 8 counter),
        load-take 64 (key ++ le_bytes 8 counter),
        ← ipad-map (block_key (key ++ le_bytes 8 counter)),
        length-ipad (take 64 (key ++ le_bytes 8 counter)),
        ipad-zeros _ _,
      )
      refl

outer_pad_lem :
    (k : List ℕ) → IsBytes k → outer_pad (map (λ x. bit_xor x 0x36) k) ≡ map (λ x. bit_xor x 0x5c) k
unfolding outer_pad
outer_pad_lem [] h = refl
outer_pad_lem (x ∷ k) (p, h) = ap₂ ◌∷◌ (xor_pads x p) (outer_pad_lem k h)

pub le_bytes-IsBytes : (n x : ℕ) → IsBytes (le_bytes n x)
unfolding le_bytes
le_bytes-IsBytes zero x = tt
le_bytes-IsBytes (suc n) x = (omega arith, le_bytes-IsBytes n (x / 256))

append-IsBytes : (xs ys : List ℕ) → IsBytes xs → IsBytes ys → IsBytes (xs ++ ys)
append-IsBytes [] ys p q = q
append-IsBytes (x ∷ xs) ys (b, p) q = (b, append-IsBytes xs ys p q)

take-IsBytes : (n : ℕ) (xs : List ℕ) → IsBytes xs → IsBytes (take n xs)
take-IsBytes zero xs p = tt
take-IsBytes (suc n) [] p = tt
take-IsBytes (suc n) (x ∷ xs) (b, p) = (b, take-IsBytes n xs p)

zeros-IsBytes : (n : ℕ) → IsBytes (replicate n 0)
zeros-IsBytes zero = tt
zeros-IsBytes (suc n) = (omega arith, zeros-IsBytes n)

-- For a key of bytes, `hmac_sha256` is the HMAC, as defined over one call of the hash, of the
-- message under the key followed by the eight bytes of the counter, lowest first, both cut to one
-- block. The hash is one that does not mind how its input is cut.
pub hmac_sha256_lem :
    (sha : Sha256) (ok : IsHash sha) (key : List ℕ) (counter : ℕ) (message : List ℕ)
    → IsBytes key
    → hmac_sha256 sha key counter message ≡ hmac sha (key ++ le_bytes 8 counter) message
unfolding hmac_sha256
hmac_sha256_lem sha ok key counter message b =
    hmac_sha256 sha key counter message
    ≡⟨ refl ⟩ two_passes (outer_pad (inner_pad key counter)) (inner_pad key counter)
    ≡⟨ ap (λ p. two_passes (outer_pad p) p) (inner_pad_lem key counter) ⟩
      two_passes (outer_pad (map (λ x. bit_xor x 0x36) k)) (map (λ x. bit_xor x 0x36) k)
    ≡⟨ ap (λ p. two_passes p (map (λ x. bit_xor x 0x36) k)) (outer_pad_lem k bytes) ⟩
      two_passes (map (λ x. bit_xor x 0x5c) k) (map (λ x. bit_xor x 0x36) k)
    ≡⟨ ap
        (λ c.
          sha.final (sha.update (sha.update sha.init (map (λ x. bit_xor x 0x5c) k)) (sha.final c)))
        (ok.update-update _ _ _) ⟩
      sha.final (
        sha.update (sha.update sha.init (map (λ x. bit_xor x 0x5c) k))
          (hash sha (map (λ x. bit_xor x 0x36) k ++ message)))
    ≡⟨ ap sha.final (ok.update-update _ _ _) ⟩ hmac sha (key ++ le_bytes 8 counter) message ∎
  where
    k : List ℕ
    k = block_key (key ++ le_bytes 8 counter)

    two_passes : List ℕ → List ℕ → List ℕ
    two_passes outer inner = sha.final (
        sha.update (sha.update sha.init outer)
          (sha.final (sha.update (sha.update sha.init inner) message)))

    bytes : IsBytes (block_key (key ++ le_bytes 8 counter))
    bytes =
        append-IsBytes _ _ (take-IsBytes 64 _ (append-IsBytes key _ b (le_bytes-IsBytes 8 counter)))
          (zeros-IsBytes _)
