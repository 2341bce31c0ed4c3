-- ===== src/Rx433/Pulses.antt =====
-- New codes on the air, as README.md describes them: where the rising edges lie, and which edge
-- times the receiver is to accept for them.
use cpeclock.Base.{
  ℕ, zero, suc, ◌+◌, ◌-◌, ◌*◌, ◌/◌, ◌%◌, ◌^◌, ◌≤◌, List, [], ◌∷◌, ◌++◌, ◌==◌, if◌then◌else◌,
}

-- A pulse takes 256 microseconds. The start code 11010 rises at pulses 0 and 3, and the data bits
-- follow at pulses 5, 7, 9, 11 and 13: a 1 rises there and a 0 does not. The times are taken
-- from the second edge of the start code, at `base`; `left` bits are to come.
abbrev pub sent_bits : ℕ → ℕ → ℕ → List ℕ
sent_bits zero symbol base = []
sent_bits (suc left) symbol base =
    let rest = sent_bits left symbol base in
    if symbol / 2 ^ left % 2 == 0 then rest else (base + 512 * (5 - left)) ∷ rest

-- Symbols follow one another every 15 pulses, and an end symbol 10 rises after the last.
abbrev pub sent_symbols : List ℕ → ℕ → List ℕ
sent_symbols [] begin = begin ∷ []
sent_symbols (symbol ∷ symbols) begin =
    begin
    ∷ (begin + 768)
    ∷ (sent_bits 5 symbol (begin + 768) ++ sent_symbols symbols (begin + 3840))

-- How late an edge may be seen, in microseconds.
abbrev pub jitter : ℕ
jitter = 95

-- Each edge is seen, at most `jitter` late, and no other edge is.
abbrev pub Seen : List ℕ → List ℕ → Type 0
Seen [] [] = Unit {0}
Seen [] (t ∷ ts) = ⊥
Seen (e ∷ es) [] = ⊥
Seen (e ∷ es) (t ∷ ts) = ((e ≤ t) × (t ≤ e + jitter)) × Seen es ts
