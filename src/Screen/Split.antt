-- ===== src/Screen/Split.antt =====
-- How a message is split into the two lines of the display.
use cpeclock.Base.{
  ℕ, zero, suc, ◌+◌, ◌<◌, ◌≤◌, ◌≡◌, inl, inr, refl, subst, arith, List, [], ◌∷◌, ◌++◌, length,
  length-append, take, ltb, ◌==◌, Bool-cases,
}
use mathlib.Core.List.{append_assoc}
use cpeclock.Screen.{split_message, screen_width}

-- Where the first line ends, with `rest` of the message after it, and `second` on the second line.
pub data Ends (width : List ℕ → ℕ) (line rest second : List ℕ) : Type 0 where
  at_end : rest ≡ [] → second ≡ [] → Ends width line rest second
  at_room : length line ≡ 31 → second ≡ [] → Ends width line rest second
  at_newline : (cs : List ℕ) → rest ≡ b'\n' ∷ cs → second ≡ take 31 cs → Ends width line rest second
  at_width :
      (c : ℕ) (cs : List ℕ)
      → rest ≡ c ∷ cs
      → screen_width < width (line ++ (c ∷ []))
      → second ≡ take 31 rest
      → Ends width line rest second

pub record Splits (width : List ℕ → ℕ) (msg line second : List ℕ) : Type 0 where
  pub rest : List ℕ
  pub whole : msg ≡ line ++ rest
  pub fits_buffer : length line ≤ 31
  pub fits_screen : width line ≤ screen_width
  pub ends : Ends width line rest second

split_message-Splits_from :
    (width : List ℕ → ℕ) (room : ℕ) (line msg : List ℕ)
    → length line + room ≡ 31
    → width line ≤ screen_width
    → let (line_1, line_2) = split_message width room line msg in
      Splits width (line ++ msg) line_1 line_2
unfolding split_message
split_message-Splits_from width zero line msg h w = record {
  rest = msg;
  whole = refl;
  fits_buffer = omega arith;
  fits_screen = w;
  ends = at_room (omega arith) refl;
}
split_message-Splits_from width (suc room) line [] h w = record {
  rest = [];
  whole = refl;
  fits_buffer = omega arith;
  fits_screen = w;
  ends = at_end refl refl;
}
split_message-Splits_from width (suc room) line (c ∷ cs) h w = elim (Bool-cases (c == b'\n')) [
  | inl newline ↦ rw newline (record {
    rest = c ∷ cs;
    whole = refl;
    fits_buffer = omega arith;
    fits_screen = w;
    ends = at_newline cs (ground (arith, newline)) refl;
  })
  | inr other ↦ rw other (elim (Bool-cases (ltb screen_width (width (line ++ (c ∷ []))))) [
    | inl wide ↦ rw wide (record {
      rest = c ∷ cs;
      whole = refl;
      fits_buffer = omega arith;
      fits_screen = w;
      ends = at_width c cs refl (ground (arith, wide)) refl;
    })
    | inr narrow ↦ rw narrow (
        subst
          (λ m.
            Splits width m (split_message width room (line ++ (c ∷ [])) cs).0
              (split_message width room (line ++ (c ∷ [])) cs).1)
          (append_assoc line (c ∷ []) cs)
          (split_message-Splits_from width room (line ++ (c ∷ [])) cs
            (omega (arith, length-append line (c ∷ []))) (ground (arith, narrow))))
  ])
]

-- The two lines and the message.
pub split_message-Splits :
    (width : List ℕ → ℕ) (msg : List ℕ)
    → width [] ≤ screen_width
    → let (line_1, line_2) = split_message width 31 [] msg in Splits width msg line_1 line_2
split_message-Splits width msg h = split_message-Splits_from width 31 [] msg (omega arith) h
