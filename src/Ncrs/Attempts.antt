-- ===== src/Ncrs/Attempts.antt =====
-- The loop of `ncrs_decode` over its seven attempts, whatever the codec.
use cpeclock.Base.{
  ℕ, zero, suc, ◌+◌, ◌*◌, ◌%◌, ◌<◌, ◌≤◌, ◌≡◌, ◌≢◌, ◌∙◌, inl, inr, refl, arith, List, none, some,
  Option, replicate, Option-cases, subst,
}
use cpeclock.Ncrs.{Rs, pad, attempts, try, unpack, ncrs_decode, decoded_data_bytes}

module _ (rs : Rs) (c : rs.Control) where
  -- The loop goes on to the first attempt that succeeds.
  pub attempts-first :
      (k left a n : ℕ) (padded symbols : List ℕ)
      → k < left
      → ((b : ℕ) → b < a + k → try rs c padded b ≡ none)
      → try rs c padded (a + k) ≡ some (n, symbols)
      → attempts rs c padded left a ≡ some (a + k, n, symbols)
  unfolding attempts
  attempts-first k zero a n padded symbols l fails succeeds = absurd (omega arith)
  attempts-first zero (suc left) a n padded symbols l fails succeeds =
      let e : a + 0 ≡ a = omega arith in
      let e' : try rs c padded a ≡ some (n, symbols) = rw e at succeeds in rw (e, e', attempts) refl
  attempts-first (suc k) (suc left) a n padded symbols l fails succeeds =
      let e : a + suc k ≡ a + 1 + k = omega arith in
      rw (fails a (omega arith), attempts, e)
        (attempts-first k left (a + 1) n padded symbols (omega arith) (λ b h. fails b (omega arith))
          (rw e at succeeds))

  -- The second attempt reads what the first one has read.
  try-repeated : (padded : List ℕ) → try rs c padded 1 ≡ try rs c padded 0
  unfolding try
  try-repeated padded = refl

  attempts-last :
      (left a r n : ℕ) (padded symbols : List ℕ)
      → attempts rs c padded left a ≡ some (r, n, symbols)
      → (r < a + left)
        × (try rs c padded r ≡ some (n, symbols))
        × ((b : ℕ) → a ≤ b → b < r → try rs c padded b ≡ none)
  unfolding attempts
  attempts-last zero a r n padded symbols e = absurd cc
  attempts-last (suc left) a r n padded symbols e = elim (Option-cases (try rs c padded a)) [
    | inl fails ↦
        let (late, read, before) =
          attempts-last left (a + 1) r n padded symbols (rw (fails, attempts) at e) in
        (
          omega arith,
          read,
          λ b h l. elim (Option-cases (try rs c padded b)) [
            | inl none_read ↦ none_read
            | inr (x, some_read) ↦ absurd (grind (arith, before b, fails, some_read, h, l))
          ],
        )
    | inr ((k, ys), succeeds) ↦
        let now : Option (ℕ × ℕ × List ℕ) = some (a, k, ys) in
        let same : now ≡ some (r, n, symbols) = rw (succeeds, attempts) at e in
        let first : a ≡ r = cc same in
        let it : Option (ℕ × List ℕ) = some (k, ys) in
        let read : it ≡ some (n, symbols) = cc same in
        (
          omega (arith, first),
          subst (λ b. try rs c padded b ≡ some (n, symbols)) first (succeeds ∙ read),
          λ b h l. absurd (omega (arith, first)),
        )
  ]

  -- Whatever the codec and the received word, the result of a successful decoding has a last
  -- decimal digit from 1 to 7 that is not 2: the second attempt never succeeds.
  pub ncrs_decode_lem :
      (word m : List ℕ) (result : ℕ)
      → ncrs_decode rs c word ≡ some (result, m)
      → (1 ≤ result % 10) × (result % 10 ≤ 7) × (result % 10 ≢ 2)
  unfolding ncrs_decode
  ncrs_decode_lem word m result e = elim (Option-cases (attempts rs c (pad word) 7 0)) [
    | inl fails ↦ absurd (cc (e, fails))
    | inr ((a, n, symbols), found) ↦
        let (late, read, before) = attempts-last 7 0 a n (pad word) symbols found in
        let it : Option (ℕ × List ℕ) =
          some (1 + a + n * 10, unpack symbols 0 (replicate decoded_data_bytes 0)) in
        let done : it ≡ some (result, m) = rw (found, ncrs_decode) at e in
        let r : 1 + a + n * 10 ≡ result = cc done in
        let other : a ≢ 1 = λ one.
          let again : try rs c (pad word) 1 ≡ some (n, symbols) =
            subst (λ b. try rs c (pad word) b ≡ some (n, symbols)) one read in
          absurd
            (cc (before 0 (omega arith) (omega (arith, one)), try-repeated (pad word), again)) in
        (omega (arith, r), omega (arith, r), λ two. other (omega (arith, r)))
  ]
