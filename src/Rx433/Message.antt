-- ===== src/Rx433/Message.antt =====
-- The data bits of one symbol of a new code, as the receiver takes them in.
pub mod Edges
pub mod Whole
pub mod Cut
use cpeclock.Base.{
  ℕ, zero, suc, ◌+◌, ◌-◌, ◌*◌, ◌/◌, ◌%◌, ◌^◌, ◌<◌, ◌≤◌, ◌≡◌, ◌≢◌, ◌⊎◌, inl, inr, ◌∙◌, refl, sym, ap,
  arith, List, [], ◌∷◌, ◌++◌, Bool, true, false, ltb, leb, ◌==◌, ==_iff, Bool-cases, if_both,
  if◌then◌else◌, length, length-append, get_or, set, replicate, bit_or, u8, u32, sub32, ◌>>>◌,
  get_or-middle, set-middle,
}
use cpeclock.Base.Bits.{all_below, all_below_at}
use cpeclock.Rx433.{
  Rx, NewCode, nc_step, accept_bit, within_message, rx433_interrupt, cleared, before, run_reading,
  no_message, nc_data_size,
}
use cpeclock.Rx433.Pulses.{sent_bits, sent_symbols, Seen, jitter}
use cpeclock.Rx433.Symbol.{
  Near, sub32_near, nc_step_within, within_message_bit, accept_bit_data, accept_bit_stop,
  accept_bit_last, IsStartCode, nc_step_first, nc_step_next, nc_step_idle,
}
use cpeclock.Rx433.Invariant.{IsSymbols}

-- The receiver within a message: the symbols that are done, the bits of the next one so far, the
-- unused rest of the buffer, the time of the last start code, and of the last edge.
pub record At (r : Bool) (done : List ℕ) (bits : ℕ) (rest : List ℕ) (base last : ℕ) (rx : Rx)
    : Type 0 where
  pub count : rx.nc.nc_count ≡ length done
  pub room : length done < nc_data_size
  pub timebase : rx.nc.nc_timebase ≡ u32 base
  pub time : rx.old_time ≡ u32 last
  pub buffer : rx.nc.nc_buffer ≡ done ++ (bits ∷ rest)
  pub unread : rx.nc.new_code_ready ≡ true → r ≡ true

-- Reading the codes is nothing to it.
pub before-At :
    (r : Bool) (reads : ℕ → Bool) (t : ℕ) (done : List ℕ) (bits : ℕ) (rest : List ℕ) (base last : ℕ)
    (rx : Rx)
    → At r done bits rest base last rx
    → At r done bits rest base last (before reads t rx)
before-At r reads t done bits rest base last rx at =
    if_both (At r done bits rest base last) (reads t)
      (record {
        count = at.count;
        room = at.room;
        timebase = at.timebase;
        time = at.time;
        buffer = at.buffer;
        unread = λ y. absurd (ground (arith, y));
      })
      at

-- At every edge, a code is ready to be read only if one was at the beginning.
unfoldable pub Unready : Bool → (ℕ → Bool) → List ℕ → Rx → Type 0
Unready r reads [] rx = Unit {0}
Unready r reads (t ∷ ts) rx =
    (rx.nc.new_code_ready ≡ true → r ≡ true)
    × Unready r reads ts (rx433_interrupt (u32 t) (before reads t rx))

-- An edge at double pulse `i` after the start code, when the last one was at `p`.
module _ (r : Bool) (done : List ℕ) (bits : ℕ) (rest : List ℕ) (base last : ℕ) (rx : Rx)
    (at : At r done bits rest base last rx) (t nominal p i : ℕ)
    (base_late : (nominal ≤ base) × (base ≤ nominal + 95))
    (last_late : (nominal + 512 * p ≤ last) × (last ≤ nominal + 512 * p + 95))
    (late : (nominal + 512 * i ≤ t) × (t ≤ nominal + 512 * i + 95)) (later : p < i)
    (bound : i ≤ 6) where
  edge_bit : (rx433_interrupt (u32 t) rx).nc ≡ accept_bit i rx.nc
  unfolding rx433_interrupt
  edge_bit =
      let d : sub32 (u32 t) rx.old_time ≡ t - last =
        ap (sub32 (u32 t)) at.time ∙ sub32_near t last (omega arith) (omega arith) in
      let d2 : sub32 (u32 t) rx.nc.nc_timebase ≡ t - base =
        ap (sub32 (u32 t)) at.timebase ∙ sub32_near t base (omega arith) (omega arith) in
      nc_step_within (u32 t) _ (i - p) rx.nc (omega arith) (omega arith)
        (omega (arith, at.count, at.room))
      ∙ within_message_bit _ i rx.nc (omega arith) (omega arith) bound

  edge_data :
      i ≤ 5 → At r done (u8 (bit_or bits ((2 ^ 5) >>> i))) rest base t (rx433_interrupt (u32 t) rx)
  edge_data h =
      let e = edge_bit ∙ accept_bit_data i rx.nc h in
      record {
        count = ap (λ (n : NewCode). n.nc_count) e ∙ at.count;
        room = at.room;
        timebase = ap (λ (n : NewCode). n.nc_timebase) e ∙ at.timebase;
        time = unfold rx433_interrupt in refl;
        buffer = ap (λ (n : NewCode). n.nc_buffer) e ∙ written;
        unread = λ y. at.unread (sym (ap (λ (n : NewCode). n.new_code_ready) e) ∙ y);
      }
    where
      written :
          set rx.nc.nc_buffer rx.nc.nc_count
            (u8 (bit_or (get_or rx.nc.nc_buffer rx.nc.nc_count 0) ((2 ^ 5) >>> i)))
          ≡ done ++ (u8 (bit_or bits ((2 ^ 5) >>> i)) ∷ rest)
      written =
          rw (at.buffer, at.count)
            (rw (get_or-middle done rest bits 0) (set-middle done rest bits _))

-- What the data bits of a symbol add up to.
pub or_bits : ℕ → ℕ → ℕ → ℕ
or_bits zero symbol bits = bits
or_bits (suc left) symbol bits =
    or_bits left symbol
      (if symbol / 2 ^ left % 2 == 0 then bits else u8 (bit_or bits ((2 ^ 5) >>> (5 - left))))

or_bits_table : all_below 32 (λ s. or_bits 5 s 0 == s) ≡ true
unfolding all_below or_bits
or_bits_table = refl

pub or_bits_lem : (s : ℕ) → s < 32 → or_bits 5 s 0 ≡ s
or_bits_lem s h = (==_iff _ _).0 (all_below_at 32 _ s or_bits_table h)

-- The receiver has taken the data bits, and `tail` is still to be seen.
pub record Taken (r : Bool) (reads : ℕ → Bool) (tail : List ℕ) (nominal : ℕ) (done : List ℕ)
    (bits : ℕ) (rest : List ℕ) (base : ℕ) (ts : List ℕ) (rx : Rx) : Type 0 where
  rx' : Rx
  last : ℕ
  p : ℕ
  ts' : List ℕ
  same : run_reading reads ts rx ≡ run_reading reads ts' rx'
  calm : Unready r reads ts' rx' → Unready r reads ts rx
  at : At r done bits rest base last rx'
  few : p ≤ 5
  late : (nominal + 512 * p ≤ last) × (last ≤ nominal + 512 * p + 95)
  seen : Seen tail ts'

Taken-cons :
    (r : Bool) (reads : ℕ → Bool) (tail : List ℕ) (nominal : ℕ) (done : List ℕ) (bits : ℕ)
    (rest : List ℕ) (base t : ℕ) (ts : List ℕ) (rx : Rx)
    → (rx.nc.new_code_ready ≡ true → r ≡ true)
    → Taken r reads tail nominal done bits rest base ts
        (rx433_interrupt (u32 t) (before reads t rx))
    → Taken r reads tail nominal done bits rest base (t ∷ ts) rx
unfolding run_reading Unready
Taken-cons r reads tail nominal done bits rest base t ts rx unread k = record {
  rx' = k.rx';
  last = k.last;
  p = k.p;
  ts' = k.ts';
  same = k.same;
  calm = λ u. (unread, k.calm u);
  at = k.at;
  few = k.few;
  late = k.late;
  seen = k.seen;
}

pub take_bits :
    (r : Bool) (reads : ℕ → Bool) (left symbol nominal p base last bits : ℕ)
    (done rest tail ts : List ℕ) (rx : Rx)
    → p + left ≤ 5
    → (nominal ≤ base) × (base ≤ nominal + 95)
    → (nominal + 512 * p ≤ last) × (last ≤ nominal + 512 * p + 95)
    → At r done bits rest base last rx
    → Seen (sent_bits left symbol nominal ++ tail) ts
    → Taken r reads tail nominal done (or_bits left symbol bits) rest base ts rx
unfolding or_bits
take_bits r reads zero symbol nominal p base last bits done rest tail ts rx h b l at seen = record {
  rx' = rx;
  last = last;
  p = p;
  ts' = ts;
  same = refl;
  calm = λ u. u;
  at = at;
  few = omega arith;
  late = l;
  seen = seen;
}
take_bits r reads (suc left) symbol nominal p base last bits done rest tail ts rx h b l at seen =
    elim (Bool-cases (symbol / 2 ^ left % 2 == 0)) [
      | inl z ↦ rw z (
          take_bits r reads left symbol nominal p base last bits done rest tail ts rx (omega arith)
            b l at (rw z at seen))
      | inr o ↦ rw o (
          one ts (rw o at seen) (λ t ts' rx'.
            take_bits r reads left symbol nominal (5 - left) base t _ done rest tail ts' rx'
              (omega arith) b))
    ]
  where
    bits' : ℕ
    bits' = u8 (bit_or bits ((2 ^ 5) >>> (5 - left)))

    Next : List ℕ → Rx → Type 0
    Next = Taken r reads tail nominal done (or_bits left symbol bits') rest base

    one :
        (ts : List ℕ)
        → Seen ((nominal + 512 * (5 - left)) ∷ (sent_bits left symbol nominal ++ tail)) ts
        → ((t : ℕ) (ts' : List ℕ) (rx' : Rx)
            → (nominal + 512 * (5 - left) ≤ t) × (t ≤ nominal + 512 * (5 - left) + 95)
            → At r done bits' rest base t rx'
            → Seen (sent_bits left symbol nominal ++ tail) ts'
            → Next ts' rx')
        → Next ts rx
    one [] seen continue = absurd seen
    one (t ∷ ts) (late, seen) continue = Taken-cons r reads _ _ _ _ _ _ t ts rx at.unread (
        continue t ts _ late
          (edge_data r done bits rest base last (before reads t rx)
            (before-At r reads t _ _ _ _ _ rx at) t nominal p (5 - left) b l late (omega arith)
            (omega arith) (omega arith))
          seen)
