-- ===== src/Base/Text.antt =====
-- The formats of `snprintf` that the program uses, as lists of character codes.
use Prim.Native.Nat.{ℕ, zero, suc, ◌+◌, ◌-◌, ◌*◌, ◌/◌, ◌%◌, ◌^◌, ◌<◌}
use Prim.Native.Char.{code}
use Prim.Native.String.{String}
use mathlib.Core.List.{List, [], ◌∷◌, ◌++◌}
use mathlib.Core.Path.{◌≡◌, ◌∙◌, refl}
use native.Mathlib.Nat.{pow-suc}
use native.Mathlib.Omega.{arith}
use cpeclock.Base.Tests.{ltb, ◌==◌, if◌then◌else◌}
use cpeclock.Base.Lists.{length, take, replicate}

-- The codes of a literal.
abbrev pub codes : String → List ℕ
codes String.[] = []
codes (String.◌∷◌ c s) = code c ∷ codes s

-- One digit: 0 to 9, then a to f.
abbrev pub digit : ℕ → ℕ
digit d = if ltb d 10 then 48 + d else 87 + d

-- The digits of `n`, least significant last; nothing for 0. `rounds` bounds their number.
pub digits_of : ℕ → ℕ → ℕ → List ℕ
digits_of zero base n = []
digits_of (suc rounds) base n =
    let rest = digits_of rounds base (n / base) in
    if n == 0 then [] else rest ++ (digit (n % base) ∷ [])

-- `%0<width><base>`. Twenty digits hold every 64-bit number, also in base 10.
unfoldable pub padded : ℕ → ℕ → ℕ → List ℕ
unfolding digits_of
padded width base n = let ds = digits_of 20 base n in replicate (width - length ds) 48 ++ ds

-- `snprintf(tmp, size, ...)`: at most `size - 1` characters are kept.
abbrev pub snprintf : ℕ → List ℕ → List ℕ
snprintf size s = take (size - 1) s

padded_example :
    padded 2 10 7 ++ padded 2 10 123 ++ padded 4 16 0xbe ++ padded 1 10 0 ≡ codes "0712300be0"
unfolding padded
padded_example = refl

-- The number that decimal digits write, after those that wrote `high`.
pub decimal : ℕ → List ℕ → ℕ
decimal high [] = high
decimal high (d ∷ ds) = decimal (high * 10 + (d - 48)) ds

decimal-append :
    (high d : ℕ) (ds : List ℕ) → decimal high (ds ++ (d ∷ [])) ≡ decimal high ds * 10 + (d - 48)
unfolding decimal
decimal-append high d [] = refl
decimal-append high d (e ∷ ds) = decimal-append (high * 10 + (e - 48)) d ds

decimal_zeros : (k : ℕ) (ds : List ℕ) → decimal 0 (replicate k 48 ++ ds) ≡ decimal 0 ds
unfolding decimal
decimal_zeros zero ds = refl
decimal_zeros (suc k) ds = decimal_zeros k ds

decimal-digits_of : (rounds n : ℕ) → n < 10 ^ rounds → decimal 0 (digits_of rounds 10 n) ≡ n
unfolding decimal digits_of
decimal-digits_of zero n h = omega arith
decimal-digits_of (suc rounds) n h =
    let ds = digits_of rounds 10 (n / 10) in
    let rest = decimal-digits_of rounds (n / 10) (omega (arith, h, pow-suc 10 rounds)) in
    let last = decimal-append 0 (digit (n % 10)) ds in ground (arith, rest, last)

-- Reading a decimal number back.
pub decimal-padded : (width n : ℕ) → n < 10 ^ 20 → decimal 0 (padded width 10 n) ≡ n
unfolding padded
decimal-padded width n h = decimal_zeros _ (digits_of 20 10 n) ∙ decimal-digits_of 20 n h
