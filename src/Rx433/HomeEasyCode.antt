-- ===== src/Rx433/HomeEasyCode.antt =====
-- A Home Easy code on the air, and what the receiver makes of it.
use cpeclock.Base.{
  ℕ, zero, suc, ◌+◌, ◌-◌, ◌*◌, ◌^◌, ◌<◌, ◌≤◌, ◌≡◌, ◌≢◌, ◌∙◌, refl, ap, arith, List, [], ◌∷◌, Bool,
  true, false, ◌==◌, ==_iff, length, bit_or, u32, sub32, ◌>>>◌,
}
use native.Mathlib.Nat.{pow-suc, mod-eq_of_lt, one-le-pow}
use cpeclock.Base.Bits.{bit_or-shift, all_below, all_below_at}
use cpeclock.Rx433.{Rx, HomeEasy, he_ready_for_bit, he_step, rx433_interrupt, run}

-- The time between two edges, in microseconds.
abbrev pub IsShort : ℕ → Type 0
IsShort d = (384 ≤ d) × (d < 768)

abbrev pub IsLong : ℕ → Type 0
IsLong d = (1408 ≤ d) × (d < 1664)

abbrev pub IsStart : ℕ → Type 0
IsStart d = (2816 ≤ d) × (d < 3072)

-- A 1 is sent as long, short, and a 0 as short, long.
abbrev pub IsPair : Bool → ℕ → ℕ → Type 0
IsPair true d e = IsLong d × IsShort e
IsPair false d e = IsShort d × IsLong e

abbrev pub Encodes : List Bool → List ℕ → Type 0
Encodes [] [] = Unit {0}
Encodes [] (d ∷ ds) = ⊥
Encodes (b ∷ bs) [] = ⊥
Encodes (b ∷ bs) (d ∷ []) = ⊥
Encodes (b ∷ bs) (d ∷ e ∷ ds) = IsPair b d e × Encodes bs ds

abbrev pub bit : Bool → ℕ
bit true = 1
bit false = 0

-- The number with the given binary digits, the highest first.
abbrev pub value : ℕ → List Bool → ℕ
value v [] = v
value v (b ∷ bs) = value (v * 2 + bit b) bs

-- Edges at these distances, from a time on.
abbrev pub times_from : ℕ → List ℕ → List ℕ
times_from t [] = []
times_from t (d ∷ ds) = (t + d) ∷ times_from (t + d) ds

he_run : List ℕ → HomeEasy → HomeEasy
he_run [] he = he
he_run (d ∷ ds) he = he_run ds (he_step d he)

-- Reading an edge time by its distance only.
abbrev Fit : List ℕ → Type 0
Fit [] = Unit {0}
Fit (d ∷ ds) = (d < 2 ^ 32) × Fit ds

run-he_run :
    (ds : List ℕ) (t : ℕ) (rx : Rx)
    → Fit ds
    → rx.old_time ≡ u32 t
    → (run (times_from t ds) rx).he ≡ he_run ds rx.he
unfolding run he_run rx433_interrupt
run-he_run [] t rx f e = refl
run-he_run (d ∷ ds) t rx (h, f) e =
    let same : sub32 (u32 (t + d)) rx.old_time ≡ d = omega arith in
    run-he_run ds (t + d) (rx433_interrupt (u32 (t + d)) rx) f refl
    ∙ ap (λ x. he_run ds (he_step x rx.he)) same

-- The bit that is set when `j` bits are still to come.
position_table : all_below 32 (λ j. (2 ^ 31) >>> (31 - j) == 2 ^ j) ≡ true
unfolding all_below
position_table = refl

position : (j : ℕ) → j < 32 → (2 ^ 31) >>> (31 - j) ≡ 2 ^ j
position j h = (==_iff _ _).0 (all_below_at 32 _ j position_table h)

set_bit :
    (j v : ℕ)
    → j < 32
    → (v + 1) * 2 ^ suc j ≤ 2 ^ 32
    → u32 (bit_or (v * 2 ^ suc j) ((2 ^ 31) >>> (31 - j))) ≡ (v * 2 + 1) * 2 ^ j
set_bit j v h l = rw (position j h, bit_or-shift (suc j) v (2 ^ j) below) (mod-eq_of_lt sum ∙ same)
  where
    below : 2 ^ j < 2 ^ suc j
    below = omega (arith, pow-suc 2 j, one-le-pow j 2)

    same : v * 2 ^ suc j + 2 ^ j ≡ (v * 2 + 1) * 2 ^ j
    same = omega (arith, ap (λ (t : ℕ). v * t) (pow-suc 2 j))

    sum : v * 2 ^ suc j + 2 ^ j < 2 ^ 32
    sum = omega (arith, below, l)

-- The decoder waits for a bit, `j + 1` bits are to come, and `v` are the bits so far.
record Waits (j v : ℕ) (he : HomeEasy) : Type 0 where
  ready : he.he_state ≡ he_ready_for_bit
  count : he.he_bit_count ≡ 31 - j
  bits : he.he_bit_data ≡ v * 2 ^ suc j
  room : (v + 1) * 2 ^ suc j ≤ 2 ^ 32

pair_step :
    (j v : ℕ) (b : Bool) (d e : ℕ) (he : HomeEasy)
    → j < 32
    → IsPair b d e
    → Waits j v he
    → let he' = he_step e (he_step d he) in
      (he'.he_bit_data ≡ (v * 2 + bit b) * 2 ^ j)
      × (he'.he_bit_count ≡ 32 - j)
      × (j ≡ 0 → he'.home_easy ≡ (v * 2 + bit b) * 2 ^ j)
      × (j ≢ 0 → he'.he_state ≡ he_ready_for_bit)
unfolding he_step
pair_step j v true d e he h p w = ground (arith, set_bit j v h w.room)
pair_step j v false d e he h p w = ground (arith, ap (λ (t : ℕ). v * t) (pow-suc 2 j))

room_step :
    (j v : ℕ) (b : Bool)
    → (v + 1) * 2 ^ suc (suc j) ≤ 2 ^ 32
    → (v * 2 + bit b + 1) * 2 ^ suc j ≤ 2 ^ 32
room_step j v true h =
    omega (arith, h, pow-suc 2 (suc j), ap (λ (t : ℕ). v * t) (pow-suc 2 (suc j)))
room_step j v false h =
    omega (arith, h, pow-suc 2 (suc j), ap (λ (t : ℕ). v * t) (pow-suc 2 (suc j)))

bits_run :
    (bs : List Bool) (j v : ℕ) (ds : List ℕ) (he : HomeEasy)
    → length bs ≡ suc j
    → j < 32
    → Encodes bs ds
    → Waits j v he
    → (he_run ds he).home_easy ≡ value v bs
unfolding he_run
bits_run [] j v ds he l h enc w = absurd (omega arith)
bits_run (b ∷ bs) j v [] he l h enc w = absurd enc
bits_run (b ∷ bs) j v (d ∷ []) he l h enc w = absurd enc
bits_run (b ∷ []) zero v (d ∷ e ∷ []) he l h (p, _) w =
    omega (arith, (pair_step 0 v b d e he h p w).2 refl)
bits_run (b ∷ []) zero v (d ∷ e ∷ f ∷ ds) he l h (p, enc) w = absurd enc
bits_run (b ∷ b' ∷ bs) zero v (d ∷ e ∷ ds) he l h enc w = absurd (omega arith)
bits_run (b ∷ bs) (suc j) v (d ∷ e ∷ ds) he l h (p, enc) w =
    let (new_bits, count, _, ready) = pair_step (suc j) v b d e he h p w in
    bits_run bs j (v * 2 + bit b) ds _ (omega arith) (omega arith) enc (record {
      ready = ready (omega arith);
      count = omega arith;
      bits = new_bits;
      room = room_step j v b w.room;
    })

pair-Fit : (b : Bool) (d e : ℕ) → IsPair b d e → (d < 2 ^ 32) × (e < 2 ^ 32)
pair-Fit true d e p = omega arith
pair-Fit false d e p = omega arith

encoded-Fit : (bs : List Bool) (ds : List ℕ) → Encodes bs ds → Fit ds
encoded-Fit [] [] enc = tt
encoded-Fit [] (d ∷ ds) enc = absurd enc
encoded-Fit (b ∷ bs) [] enc = absurd enc
encoded-Fit (b ∷ bs) (d ∷ []) enc = absurd enc
encoded-Fit (b ∷ bs) (d ∷ e ∷ ds) (p, enc) =
    let (hd, he) = pair-Fit b d e p in (hd, (he, encoded-Fit bs ds enc))

started : (d : ℕ) (he : HomeEasy) → IsStart d → Waits 31 0 (he_step d he)
unfolding he_step
started d he s = ground arith

-- From any state of the receiver, with the clock at any value, a start and the 32 bits of a Home
-- Easy code are received: `rx433_home_easy` is then the code, for every timing of the pulses within
-- the bands. The clock may wrap on the way.
pub home_easy_received :
    (bits : List Bool) (d : ℕ) (ds : List ℕ) (t : ℕ) (rx : Rx)
    → length bits ≡ 32
    → IsStart d
    → Encodes bits ds
    → rx.old_time ≡ u32 t
    → (run (times_from t (d ∷ ds)) rx).he.home_easy ≡ value 0 bits
home_easy_received bits d ds t rx l s enc e =
    ap (λ (h : HomeEasy). h.home_easy)
      (run-he_run (d ∷ ds) t rx (omega arith, encoded-Fit bits ds enc) e)
    ∙ (unfold he_run in bits_run bits 31 0 ds _ l (omega arith) enc (started d rx.he s))
