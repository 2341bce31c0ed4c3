-- ===== src/Ncrs/Shift.antt =====
-- The attempts of `ncrs_decode` that read the received word with a shift.
use mathlib.Core.List.{append_assoc}
use cpeclock.Base.{
  ℕ, zero, suc, ◌+◌, ◌-◌, ◌*◌, ◌<◌, ◌≤◌, ◌≡◌, ◌∙◌, refl, sym, ap, arith, List, [], ◌∷◌, ◌++◌, none,
  some, length, get_or, drop, replicate, length-append, length-replicate, get_or_ext, ap₂,
}
use cpeclock.Ncrs.{
  Rs, IsCodec, IsSymbols, differences, pack, gather, pad, shifted, attempts, try, ncrs_decode,
  ncrs_encode, msg_symbols, nc_data_size,
}
use cpeclock.Ncrs.Bits.{unpack-pack}
use cpeclock.Ncrs.Order.{gather-eq, get_or-append, get_or-IsSymbols}
use cpeclock.Ncrs.Attempts.{attempts-first}
use cpeclock.Ncrs.Correct.{IsMessage, try-near}

-- `n` places of a block from place `i` on.
unfoldable pub window : ℕ → ℕ → List ℕ → List ℕ
window zero i xs = []
window (suc n) i xs = get_or xs i 0 ∷ window n (i + 1) xs

length-window : (n i : ℕ) (xs : List ℕ) → length (window n i xs) ≡ n
unfolding window
length-window zero i xs = refl
length-window (suc n) i xs = omega (arith, length-window n (i + 1) xs)

get_or-window : (n i x : ℕ) (xs : List ℕ) → x < n → get_or (window n i xs) x 0 ≡ get_or xs (i + x) 0
unfolding window
get_or-window zero i x xs h = absurd (omega arith)
get_or-window (suc n) i zero xs h = let e : i + 0 ≡ i = omega arith in rw e refl
get_or-window (suc n) i (suc x) xs h =
    let e : i + 1 + x ≡ i + suc x = omega arith in
    get_or-window n (i + 1) x xs (omega arith) ∙ ap (λ k. get_or xs k 0) e

window-IsSymbols : (n i : ℕ) (xs : List ℕ) → IsSymbols xs → IsSymbols (window n i xs)
unfolding window
window-IsSymbols zero i xs s = tt
window-IsSymbols (suc n) i xs s = (get_or-IsSymbols xs i s, window-IsSymbols n (i + 1) xs s)

-- The word that an attempt reads.
abbrev pub shifted_word : ℕ → List ℕ → List ℕ
shifted_word attempt word = window nc_data_size (shifted attempt) (pad word)

IsSymbols-append : (xs ys : List ℕ) → IsSymbols xs → IsSymbols ys → IsSymbols (xs ++ ys)
IsSymbols-append [] ys s t = t
IsSymbols-append (x ∷ xs) ys (h, s) t = (h, IsSymbols-append xs ys s t)

shifted_word-IsSymbols :
    (attempt : ℕ) (word : List ℕ) → IsSymbols word → IsSymbols (shifted_word attempt word)
shifted_word-IsSymbols attempt word s =
    window-IsSymbols 31 (shifted attempt) (pad word)
      (omega arith, (omega arith, (omega arith, IsSymbols-append word _ s (ground arith))))

gather-window : (i : ℕ) (padded : List ℕ) → gather 10 i padded ≡ gather 10 0 (window 31 i padded)
gather-window i padded = gather-eq 10 i 0 padded (window 31 i padded) (λ x h.
    let e : 0 + x ≡ x = omega arith in rw e (sym (get_or-window 31 i x padded (omega arith))))

zeros-IsSymbols : (n : ℕ) → IsSymbols (replicate n 0)
zeros-IsSymbols zero = tt
zeros-IsSymbols (suc n) = (omega arith, zeros-IsSymbols n)

-- Right shifts, where symbols were lost at the beginning.
get_or-zeros : (n i : ℕ) (xs : List ℕ) → get_or (replicate n 0 ++ xs) (n + i) 0 ≡ get_or xs i 0
get_or-zeros zero i xs = let e : 0 + i ≡ i = omega arith in rw e refl
get_or-zeros (suc n) i xs =
    let e : suc n + i ≡ suc (n + i) = omega arith in rw e (get_or-zeros n i xs)

zeros_before :
    (k : ℕ) (rest : List ℕ)
    → k ≤ 3
    → pad (rest ++ replicate k 0)
      ≡ replicate (3 - k) 0 ++ ((replicate k 0 ++ rest) ++ replicate (3 + k) 0)
zeros_before zero rest h = ap (λ t. 0 ∷ 0 ∷ 0 ∷ t) (append_assoc rest [] (replicate 3 0))
zeros_before (suc zero) rest h =
    ap (λ t. 0 ∷ 0 ∷ 0 ∷ t) (append_assoc rest (replicate 1 0) (replicate 3 0))
zeros_before (suc (suc zero)) rest h =
    ap (λ t. 0 ∷ 0 ∷ 0 ∷ t) (append_assoc rest (replicate 2 0) (replicate 3 0))
zeros_before (suc (suc (suc zero))) rest h =
    ap (λ t. 0 ∷ 0 ∷ 0 ∷ t) (append_assoc rest (replicate 3 0) (replicate 3 0))
zeros_before (suc (suc (suc (suc k)))) rest h = absurd (omega arith)

shifted_word-lost :
    (k : ℕ) (rest : List ℕ)
    → k ≤ 3
    → length rest ≡ nc_data_size - k
    → shifted_word (2 * k) (rest ++ replicate k 0) ≡ replicate k 0 ++ rest
shifted_word-lost k rest h l =
    let size : length (replicate k 0 ++ rest) ≡ 31 =
      omega (arith, length-append (replicate k 0) rest, length-replicate {A = ℕ} k 0) in
    let start : shifted (2 * k) ≡ 3 - k = ground arith in
    get_or_ext 0 _ _
      (omega (arith, size, length-window 31 (shifted (2 * k)) (pad (rest ++ replicate k 0))))
      (λ i i_bound.
        get_or-window 31 _ i _ (omega arith)
        ∙ ap₂ (λ j t. get_or t (j + i) 0) start (zeros_before k rest h)
        ∙ get_or-zeros (3 - k) i _
        ∙ get_or-append (replicate k 0 ++ rest) _ i (omega arith))

differences-lost :
    (k : ℕ) (rest word : List ℕ)
    → differences (replicate k 0 ++ rest) word ≤ k + differences rest (drop k word)
unfolding differences
differences-lost zero rest word = omega arith
differences-lost (suc k) rest [] = omega arith
differences-lost (suc k) rest (x ∷ word) = ground (arith, differences-lost k rest word)

module _ (rs : Rs) (c : rs.Control) (m : List ℕ) (codec : IsCodec rs c (pack msg_symbols 0 m))
    (ok : IsMessage m) where
  -- A.
  pub ncrs_decode-shifted :
      (attempt : ℕ) (word : List ℕ)
      → attempt ≤ 6
      → IsSymbols word
      → ((b : ℕ) → b < attempt → try rs c (pad word) b ≡ none)
      → let wrong = differences (shifted_word attempt word) (ncrs_encode rs c m) in
        wrong ≤ 5 → ncrs_decode rs c word ≡ some (1 + attempt + wrong * 10, m)
  unfolding ncrs_decode
  ncrs_decode-shifted attempt word h s fails d =
      let wrong = differences (shifted_word attempt word) (ncrs_encode rs c m) in
      let e : 0 + attempt ≡ attempt = omega arith in
      let read : try rs c (pad word) attempt ≡ some (wrong, pack 21 0 m) =
        try-near rs c m codec ok attempt (pad word) (shifted_word attempt word)
          (gather-window (shifted attempt) (pad word)) (length-window 31 _ _)
          (shifted_word-IsSymbols attempt word s) d in
      let first : attempts rs c (pad word) 7 0 ≡ some (attempt, wrong, pack 21 0 m) = rw e at (
        attempts-first rs c attempt 7 0 wrong (pad word) (pack 21 0 m) (omega arith)
          (λ b l. fails b (omega arith)) (rw e read)) in
      rw (first, ncrs_decode)
        (ap (λ t. some (1 + attempt + wrong * 10, t)) (unpack-pack m ok.size ok.bytes ok.flag))

  -- If the first k of the 31 symbols of an encoded message were lost, with k at most 3, so that the
  -- others came too early and zeros follow them, and the wrong symbols among them and k are at most
  -- 5 together, then decoding gives the message back, with the result 1 and 2 for each lost symbol
  -- and 10 for each symbol that is corrected. The received symbols have 5 bits; the message has 14
  -- bytes with only the top bit of the last one in use; the codec corrects up to 5 wrong symbols in
  -- it, and it fails at the attempts before.
  pub ncrs_decode-drop :
      (k : ℕ) (rest : List ℕ)
      → k ≤ 3
      → length rest ≡ nc_data_size - k
      → IsSymbols rest
      → k + differences rest (drop k (ncrs_encode rs c m)) ≤ 5
      → let word = rest ++ replicate k 0 in
        let wrong = differences (replicate k 0 ++ rest) (ncrs_encode rs c m) in
        ((b : ℕ) → b < 2 * k → try rs c (pad word) b ≡ none)
        → ncrs_decode rs c word ≡ some (1 + 2 * k + wrong * 10, m)
  ncrs_decode-drop k rest h l s d fails =
      let e = shifted_word-lost k rest h l in
      let small = differences-lost k rest (ncrs_encode rs c m) in
      rw e at (
        ncrs_decode-shifted (2 * k) (rest ++ replicate k 0) (omega arith)
          (IsSymbols-append rest _ s (zeros-IsSymbols k)) fails (rw e (omega arith)))
