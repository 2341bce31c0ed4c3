-- ===== src/Rx433/LostEdges.antt =====
-- A message of which some edges are lost on the way.
use cpeclock.Base.{
  ℕ, zero, suc, ◌+◌, ◌-◌, ◌*◌, ◌/◌, ◌%◌, ◌^◌, ◌<◌, ◌≤◌, ◌≡◌, ◌⊎◌, inl, inr, arith, List, [], ◌∷◌,
  ◌++◌, Bool, true, false, Bool-cases, length, ltb, ◌==◌, ltb→lt, u32, sub32,
}
use cpeclock.Rx433.{Rx, is_close, run_reading, nc_pulse, nc_data_size}
use cpeclock.Rx433.Pulses.{sent_bits, sent_symbols, jitter}
use cpeclock.Rx433.Symbol.{sub32_near}
use cpeclock.Rx433.SkipLoop.{run_plain, Alternates, run_reading-run_plain}

-- Each edge is seen, at most `jitter` late, or is lost; and no other edge is seen.
abbrev pub SeenOrLost : List ℕ → List ℕ → Type 0
SeenOrLost [] [] = Unit {0}
SeenOrLost [] (t ∷ ts) = ⊥
SeenOrLost (e ∷ es) [] = SeenOrLost es []
SeenOrLost (e ∷ es) (t ∷ ts) =
    (((e ≤ t) × (t ≤ e + jitter)) × SeenOrLost es ts) ⊎ SeenOrLost es (t ∷ ts)

-- Edges rise only at some pulses of a symbol's fifteen.
abbrev IsPulse : ℕ → Type 0
IsPulse p = let k = p % 15 in (k ≡ 0) ⊎ ((k % 2 ≡ 1) × (3 ≤ k))

-- An edge at pulse `q` of a message that begins at `begin`.
record EdgeAt (begin q t : ℕ) : Type 0 where
  pulse : IsPulse q
  late : (begin + 256 * q ≤ t) × (t ≤ begin + 256 * q + 95)
  within : q ≤ 15 * 31

-- The edges come one after the other, each at such a pulse, and not before pulse `p`.
abbrev Pulses : ℕ → ℕ → List ℕ → Type 0
Pulses begin p [] = Unit {0}
Pulses begin p (t ∷ ts) = (q : ℕ) × (p ≤ q) × EdgeAt begin q t × Pulses begin (q + 1) ts

Pulses-later : (begin p p' : ℕ) (ts : List ℕ) → p ≤ p' → Pulses begin p' ts → Pulses begin p ts
Pulses-later begin p p' [] h s = tt
Pulses-later begin p p' (t ∷ ts) h (q, l, edge, rest) = (q, omega arith, edge, rest)

-- One more edge, which may be lost.
Pulses-edge :
    (begin q e : ℕ) (es ts : List ℕ)
    → e ≡ begin + 256 * q
    → IsPulse q
    → q ≤ 15 * 31
    → SeenOrLost (e ∷ es) ts
    → ((ts' : List ℕ) → SeenOrLost es ts' → Pulses begin (q + 1) ts')
    → Pulses begin q ts
Pulses-edge begin q e es [] at pulse l seen rest = tt
Pulses-edge begin q e es (t ∷ ts) at pulse l (inl (late, seen)) rest = (
  q,
  omega arith,
  record { pulse = pulse; late = (omega arith, omega arith); within = l },
  rest ts seen,
)
Pulses-edge begin q e es (t ∷ ts) at pulse l (inr seen) rest =
    Pulses-later begin q (q + 1) (t ∷ ts) (omega arith) (rest (t ∷ ts) seen)

Pulses-sent_bits :
    (begin left symbol n base : ℕ) (tail ts : List ℕ)
    → left ≤ 5
    → n < 31
    → base ≡ begin + 256 * (15 * n + 3)
    → SeenOrLost (sent_bits left symbol base ++ tail) ts
    → ((ts' : List ℕ) → SeenOrLost tail ts' → Pulses begin (15 * n + 15) ts')
    → Pulses begin (15 * n + 15 - 2 * left) ts
Pulses-sent_bits begin zero symbol n base tail ts l h at seen rest =
    let e : 15 * n + 15 - 2 * 0 ≡ 15 * n + 15 = omega arith in rw e (rest ts seen)
Pulses-sent_bits begin (suc left) symbol n base tail ts l h at seen rest =
    let q : ℕ = 15 * n + 15 - 2 * suc left in
    elim (Bool-cases (symbol / 2 ^ left % 2 == 0)) [
      | inl z ↦
          Pulses-later begin q (15 * n + 15 - 2 * left) ts (omega arith) (
            Pulses-sent_bits begin left symbol n base tail ts (omega arith) h at (rw z at seen)
              rest)
      | inr o ↦
          Pulses-edge begin q (base + 512 * (5 - left)) (sent_bits left symbol base ++ tail) ts
            (omega arith) (inr (omega arith, omega arith)) (omega arith) (rw o at seen)
            (λ ts' more.
              Pulses-later begin (q + 1) (15 * n + 15 - 2 * left) ts' (omega arith)
                (Pulses-sent_bits begin left symbol n base tail ts' (omega arith) h at more rest))
    ]

Pulses-sent_symbols :
    (begin n at : ℕ) (symbols ts : List ℕ)
    → n + length symbols ≤ 31
    → at ≡ begin + 256 * (15 * n)
    → SeenOrLost (sent_symbols symbols at) ts
    → Pulses begin (15 * n) ts
Pulses-sent_symbols begin n at [] ts h e seen =
    Pulses-edge begin (15 * n) at [] ts e (inl (omega arith)) (omega arith) seen nothing
  where
    nothing : (ts' : List ℕ) → SeenOrLost [] ts' → Pulses begin (15 * n + 1) ts'
    nothing [] seen = tt
    nothing (t ∷ ts) seen = absurd seen
Pulses-sent_symbols begin n at (s ∷ symbols) ts h e seen =
    let bound : n + suc (length symbols) ≤ 31 = h in
    let tail : List ℕ = sent_symbols symbols (at + 3840) in
    let bits : List ℕ = sent_bits 5 s (at + 768) in
    let next : 15 * (n + 1) ≡ 15 * n + 15 = omega arith in
    Pulses-edge begin (15 * n) at ((at + 768) ∷ (bits ++ tail)) ts e (inl (omega arith))
      (omega arith) seen
      (λ ts1 seen1. Pulses-later begin (15 * n + 1) (15 * n + 3) ts1 (omega arith) (
        Pulses-edge begin (15 * n + 3) (at + 768) (bits ++ tail) ts1 (omega arith)
          (inr (omega arith, omega arith)) (omega arith) seen1
          (λ ts2 seen2.
            Pulses-later begin (15 * n + 3 + 1) (15 * n + 15 - 2 * 5) ts2 (omega arith) (
              Pulses-sent_bits begin 5 s n (at + 768) tail ts2 (omega arith) (omega arith)
                (omega arith) seen2
                (λ ts3 seen3. rw next at (
                  Pulses-sent_symbols begin (n + 1) (at + 3840) symbols ts3 (omega arith)
                    (omega arith) seen3))))))

three_pulses :
    (begin q q' last t : ℕ)
    → EdgeAt begin q last
    → EdgeAt begin q' t
    → q < q'
    → is_close (sub32 (u32 t) (u32 last)) (nc_pulse * 3) ≡ true
    → (q % 15 ≡ 0) × (q' % 15 ≡ 3)
three_pulses begin q q' last t a b later close =
    let d : ltb (sub32 (u32 (sub32 (u32 t) (u32 last) + 96)) 768) 192 ≡ true = close in
    let gap : sub32 (u32 t) (u32 last) ≡ t - last =
      sub32_near t last (omega (arith, a.late, b.late)) (omega (arith, a.late, b.late, b.within)) in
    let near : sub32 (u32 (t - last + 96)) 768 < 192 = ltb→lt _ _ (rw gap at d) in
    let apart : q' ≡ q + 3 = omega (arith, a.late, b.late, b.within) in
    elim a.pulse [
      | inl zeroth ↦ (zeroth, omega arith)
      | inr (odd, third) ↦
          absurd (elim b.pulse [ inl z ↦ omega arith | inr (odd', third') ↦ omega arith ])
    ]

-- Such edges are never twice in a row three pulses from the one before: `q` is the pulse of the
-- edge before, at `last`.
Pulses-Alternates :
    (begin q last : ℕ) (prior : Bool) (ts : List ℕ)
    → EdgeAt begin q last
    → (prior ≡ true → q % 15 ≡ 3)
    → Pulses begin (q + 1) ts
    → Alternates prior (u32 last) ts
Pulses-Alternates begin q last prior [] edge third seen = tt
Pulses-Alternates begin q last prior (t ∷ ts) edge third (q', later, edge', seen) = (
  λ p. elim (Bool-cases (is_close (sub32 (u32 t) (u32 last)) (nc_pulse * 3))) [
    | inl close ↦
        absurd
          (omega (arith, third p, three_pulses begin q q' last t edge edge' (omega arith) close))
    | inr far ↦ far
  ],
  Pulses-Alternates begin q' t _ ts edge'
      (λ close. (three_pulses begin q q' last t edge edge' (omega arith) close).1) seen,
)

-- Whichever edges of a message of at most 31 symbols are lost, with the others seen up to 95
-- microseconds late and no other edge seen, a receiver in any state with a 32-bit time base does
-- the same as one without the loop over skipped symbols. The message begins at least 864
-- microseconds after the last earlier edge and ends less than a wrap of the clock after it; the
-- main loop may read the codes between any of the edges.
pub lost_edges :
    (reads : ℕ → Bool) (symbols : List ℕ) (begin last : ℕ) (ts : List ℕ) (rx : Rx)
    → length symbols ≤ nc_data_size
    → rx.old_time ≡ u32 last
    → rx.nc.nc_timebase < 2 ^ 32
    → (last + 864 ≤ begin) × (begin + 256 * (15 * 31) + 95 < last + 2 ^ 32)
    → SeenOrLost (sent_symbols symbols begin) ts
    → run_reading reads ts rx ≡ run_plain reads ts rx
lost_edges reads symbols begin last ts rx l time base quiet seen =
    run_reading-run_plain reads ts rx (omega (arith, time)) base (
      rw time
        (first ts (Pulses-sent_symbols begin 0 begin symbols ts (omega arith) (omega arith) seen)))
  where
    first : (ts : List ℕ) → Pulses begin 0 ts → Alternates true (u32 last) ts
    first [] seen = tt
    first (t ∷ ts) (q, later, edge, rest) =
        (λ p. far, Pulses-Alternates begin q t _ ts edge (λ close. absurd (cc (far, close))) rest)
      where
        gap : sub32 (u32 t) (u32 last) ≡ t - last
        gap = sub32_near t last (omega (arith, edge.late)) (omega (arith, edge.late, edge.within))

        far : is_close (sub32 (u32 t) (u32 last)) (nc_pulse * 3) ≡ false
        far = rw gap (ground (arith, edge.late, edge.within))
