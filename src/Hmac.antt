-- ===== src/Hmac.antt =====
-- hmac.c: HMAC with SHA-256 under a key that ends with the message counter. sha256.c is a copy of
-- a public library; its three functions are the parameter `Sha256`.
pub mod Standard
pub mod Tests
use cpeclock.Base.{
  ℕ, zero, suc, ◌-◌, ◌/◌, ◌%◌, ◌≡◌, List, [], ◌∷◌, ◌++◌, map, length, replicate, IsBytes, bit_xor,
  u8,
}

-- `SHA256_CTX`, `sha256_init`, `sha256_update` over a whole buffer, and `sha256_final`.
pub record Sha256 : Type 1 where
  pub Ctx : Type 0
  pub init : Ctx
  pub update : Ctx → List ℕ → Ctx
  pub final : Ctx → List ℕ

abbrev pub hmac_digest_size : ℕ
hmac_digest_size = 32

-- The hash is of the bytes in order, however they are cut into calls, and has 32 bytes.
pub record IsHash (sha : Sha256) : Type 0 where
  pub update-update :
      (c : sha.Ctx) (xs ys : List ℕ) → sha.update (sha.update c xs) ys ≡ sha.update c (xs ++ ys)
  pub length-final : (c : sha.Ctx) → length (sha.final c) ≡ hmac_digest_size
  pub final-IsBytes : (c : sha.Ctx) → IsBytes (sha.final c)

abbrev pub hmac_block_size : ℕ
hmac_block_size = 64

-- The bytes of an unsigned number in memory, lowest first, as on both of the program's machines.
unfoldable pub le_bytes : ℕ → ℕ → List ℕ
le_bytes zero x = []
le_bytes (suc n) x = u8 x ∷ le_bytes n (x / 256)

-- The first two loops: bytes are taken while there are some and the block has room.
pub load : ℕ → List ℕ → List ℕ
load zero xs = []
load (suc room) [] = []
load (suc room) (x ∷ xs) = bit_xor x 0x36 ∷ load room xs

pub inner_pad : List ℕ → ℕ → List ℕ
inner_pad key counter =
    let key_part = load hmac_block_size key in
    let counter_part = load (hmac_block_size - length key_part) (le_bytes 8 counter) in
    let used = key_part ++ counter_part in used ++ replicate (hmac_block_size - length used) 0x36

pub outer_pad : List ℕ → List ℕ
outer_pad k_pad = map (λ x. bit_xor x (bit_xor 0x5c 0x36)) k_pad

module _ (sha : Sha256) where
  open sha use {init, update, final}

  unfoldable pub hmac_sha256 : List ℕ → ℕ → List ℕ → List ℕ
  hmac_sha256 key counter message =
      let k_pad = inner_pad key counter in
      let digest = final (update (update init k_pad) message) in
      final (update (update init (outer_pad k_pad)) digest)
