-- ===== src/Hmac/Tests.antt =====
-- A checksum in place of the hash.
use cpeclock.Base.{ℕ, ◌+◌, ◌*◌, ◌≡◌, refl, ap, arith, List, [], ◌∷◌, ◌++◌, replicate, u8}
use cpeclock.Hmac.{Sha256, IsHash, hmac_sha256, le_bytes}
use cpeclock.Hmac.Standard.{hmac, hmac_sha256_lem}

pub total : List ℕ → ℕ
total [] = 0
total (x ∷ xs) = x + 3 * total xs

abbrev pub checksum : Sha256
checksum = record {
  Ctx = List ℕ;
  init = [];
  update = λ c xs. c ++ xs;
  final = λ c. replicate 32 (u8 (total c));
}

append_assoc : (xs ys zs : List ℕ) → (xs ++ ys) ++ zs ≡ xs ++ (ys ++ zs)
append_assoc [] ys zs = refl
append_assoc (x ∷ xs) ys zs = ap (λ t. x ∷ t) (append_assoc xs ys zs)

pub checksum-IsHash : IsHash checksum
checksum-IsHash = record {
  update-update = append_assoc;
  length-final = λ c. refl;
  final-IsBytes = λ c. ground arith;
}

hmac_sha256_lem_example :
    hmac_sha256 checksum (1 ∷ 2 ∷ []) 300 (7 ∷ [])
    ≡ hmac checksum ((1 ∷ 2 ∷ []) ++ le_bytes 8 300) (7 ∷ [])
hmac_sha256_lem_example =
    hmac_sha256_lem checksum checksum-IsHash (1 ∷ 2 ∷ []) 300 (7 ∷ [])
      (omega arith, (omega arith, tt))
