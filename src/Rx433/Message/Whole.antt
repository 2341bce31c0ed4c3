-- ===== src/Rx433/Message/Whole.antt =====
-- From one symbol to the next, and the message as a whole.
use mathlib.Core.List.{append_assoc}
use cpeclock.Base.{
  ℕ, suc, ◌+◌, ◌^◌, ◌<◌, ◌≤◌, ◌≡◌, ◌∙◌, refl, sym, ap, arith, List, [], ◌∷◌, ◌++◌, Bool, true,
  length, length-append, replicate, u32, subst,
}
use cpeclock.Rx433.{Rx, rx433_interrupt, run_reading, before, no_message, nc_data_size}
use cpeclock.Rx433.Pulses.{sent_bits, sent_symbols, Seen}
use cpeclock.Rx433.Invariant.{IsSymbols}
use cpeclock.Rx433.Message.{At, before-At, Unready, Taken, take_bits, or_bits, or_bits_lem}
use cpeclock.Rx433.Message.Edges.{
  Delivered, last_edge, stop_edge, start_edge, Idle, before-Idle, first_edge, second_edge,
}

-- The code is handed over, and until the last edge no new code was.
pub record Heard (r : Bool) (reads : ℕ → Bool) (symbols ts : List ℕ) (rx : Rx) : Type 0 where
  pub delivered : Delivered symbols (run_reading reads ts rx)
  pub unready : Unready r reads ts rx

Heard-eq :
    (r : Bool) (reads : ℕ → Bool) {xs ys ts ts' : List ℕ} {rx rx' : Rx}
    → xs ≡ ys
    → run_reading reads ts rx ≡ run_reading reads ts' rx'
    → (Unready r reads ts' rx' → Unready r reads ts rx)
    → Heard r reads xs ts' rx'
    → Heard r reads ys ts rx
Heard-eq r reads e f calm d = record {
  delivered = record {
    code = ap (λ (r : Rx). r.nc.new_code) f ∙ d.delivered.code ∙ e;
    ready = ap (λ (r : Rx). r.nc.new_code_ready) f ∙ d.delivered.ready;
    idle = ap (λ (r : Rx). r.nc.nc_count) f ∙ d.delivered.idle;
  };
  unready = calm d.unready;
}

module _ (r : Bool) (reads : ℕ → Bool) where
  -- The edges of the last symbol's end, and of a symbol's end and the next start code.
  end_of_message :
      (s begin base : ℕ) (done ts : List ℕ) (rx : Rx)
      → length done ≡ 30
      → s < 32
      → (begin + 768 ≤ base) × (base ≤ begin + 768 + 95)
      → Taken r reads
          (sent_symbols [] (begin + 3840))
          (begin + 768)
          done
          (or_bits 5 s 0)
          []
          base
          ts
          rx
      → Heard r reads (done ++ (s ∷ [])) ts rx
  unfolding run_reading Unready
  end_of_message s begin base done ts rx l small b k =
      Heard-eq r reads refl k.same k.calm (go k.ts' k.seen)
    where
      go :
          (ts' : List ℕ)
          → Seen ((begin + 3840) ∷ []) ts'
          → Heard r reads (done ++ (s ∷ [])) ts' k.rx'
      go [] seen = absurd seen
      go (t ∷ t' ∷ ts') (late, more) = absurd more
      go (t ∷ []) (late, _) = record {
        delivered =
            last_edge r s (begin + 768) k.p base k.last t done (before reads t k.rx') l b k.late
              k.few (omega arith)
              (before-At r reads t _ _ _ _ _ k.rx'
                (subst (λ v. At r done v [] base k.last k.rx') (or_bits_lem s small) k.at));
        unready = (k.at.unread, tt);
      }

  -- The next symbol has begun, and `rest` is the unused rest of the buffer.
  pub record Continues (s s' begin : ℕ) (ss done rest ts : List ℕ) (rx : Rx) : Type 0 where
    pub base : ℕ
    pub ts' : List ℕ
    pub rx' : Rx
    pub same : run_reading reads ts rx ≡ run_reading reads ts' rx'
    pub calm : Unready r reads ts' rx' → Unready r reads ts rx
    pub late : (begin + 3840 + 768 ≤ base) × (base ≤ begin + 3840 + 768 + 95)
    pub at : At r (done ++ (s ∷ [])) 0 rest base base rx'
    pub seen :
        Seen (sent_bits 5 s' (begin + 3840 + 768) ++ sent_symbols ss (begin + 3840 + 3840)) ts'

  pub continue_message :
      (s s' begin base : ℕ) (ss done rest ts : List ℕ) (rx : Rx)
      → length done < 30
      → s < 32
      → (begin + 768 ≤ base) × (base ≤ begin + 768 + 95)
      → Taken r reads
          (sent_symbols (s' ∷ ss) (begin + 3840))
          (begin + 768)
          done
          (or_bits 5 s 0)
          (0 ∷ rest)
          base
          ts
          rx
      → Continues s s' begin ss done rest ts rx
  unfolding run_reading Unready
  continue_message s s' begin base ss done rest ts rx l small b k = go k.ts' refl k.seen
    where
      go :
          (ts' : List ℕ)
          → k.ts' ≡ ts'
          → Seen (sent_symbols (s' ∷ ss) (begin + 3840)) ts'
          → Continues s s' begin ss done rest ts rx
      go [] e seen = absurd seen
      go (t ∷ []) e (late, more) = absurd more
      go (t ∷ t' ∷ ts') e (late, (late', more)) =
          let stopped : At r (done ++ (s ∷ [])) 0 rest base t
              (rx433_interrupt (u32 t) (before reads t k.rx')) =
            stop_edge r s (begin + 768) k.p base k.last t done rest (before reads t k.rx') l b
              k.late k.few (omega arith)
              (before-At r reads t _ _ _ _ _ k.rx' (
                subst (λ v. At r done v (0 ∷ rest) base k.last k.rx') (or_bits_lem s small)
                  k.at)) in
          let rx1 = rx433_interrupt (u32 t) (before reads t k.rx') in
          record {
            base = t';
            ts' = ts';
            rx' = rx433_interrupt (u32 t') (before reads t' rx1);
            same = k.same ∙ ap (λ l. run_reading reads l k.rx') e;
            calm = λ u.
                k.calm
                  (subst (λ l. Unready r reads l k.rx') (sym e) (k.at.unread, (stopped.unread, u)));
            late = late';
            at =
                start_edge r 0 (begin + 768) base t t' _ rest (before reads t' rx1) b (omega arith)
                  (omega arith) (before-At r reads t' _ _ _ _ _ rx1 stopped);
            seen = more;
          }

  rest_of_message :
      (ss : List ℕ) (s begin base : ℕ) (done ts : List ℕ) (rx : Rx)
      → length done + suc (length ss) ≡ nc_data_size
      → IsSymbols (s ∷ ss)
      → (begin + 768 ≤ base) × (base ≤ begin + 768 + 95)
      → At r done 0 (replicate (length ss) 0) base base rx
      → Seen (sent_bits 5 s (begin + 768) ++ sent_symbols ss (begin + 3840)) ts
      → Heard r reads (done ++ (s ∷ ss)) ts rx
  rest_of_message [] s begin base done ts rx l (small, _) b at seen =
      end_of_message s begin base done ts rx (omega arith) small b (
        take_bits r reads 5 s (begin + 768) 0 base base 0 done [] (sent_symbols [] (begin + 3840))
          ts rx (omega arith) b (omega arith) at seen)
  rest_of_message (s' ∷ ss) s begin base done ts rx l (small, smalls) b at seen =
      let k =
        continue_message s s' begin base ss done (replicate (length ss) 0) ts rx (omega arith) small
          b
          (take_bits r reads 5 s (begin + 768) 0 base base 0 done (0 ∷ replicate (length ss) 0)
            (sent_symbols (s' ∷ ss) (begin + 3840)) ts rx (omega arith) b (omega arith) at seen) in
      Heard-eq r reads (append_assoc done (s ∷ []) (s' ∷ ss)) k.same k.calm (
        rest_of_message ss s' (begin + 3840) k.base (done ++ (s ∷ [])) k.ts' k.rx'
          (omega (arith, length-append done (s ∷ []))) smalls k.late k.at k.seen)

run_reading-Heard :
    (r : Bool) (reads : ℕ → Bool) (symbols : List ℕ) (begin last : ℕ) (ts : List ℕ) (rx : Rx)
    → length symbols ≡ nc_data_size
    → IsSymbols symbols
    → rx.nc.nc_count ≡ no_message
    → rx.old_time ≡ u32 last
    → (rx.nc.new_code_ready ≡ true → r ≡ true)
    → (last + 864 ≤ begin) × (begin + 95 < last + 2 ^ 32)
    → Seen (sent_symbols symbols begin) ts
    → Heard r reads symbols ts rx
unfolding run_reading Unready
run_reading-Heard r reads [] begin last ts rx l small idle time unread quiet seen =
    absurd (omega arith)
run_reading-Heard r reads (s ∷ ss) begin last [] rx l small idle time unread quiet seen =
    absurd seen
run_reading-Heard r reads (s ∷ ss) begin last (t ∷ []) rx l small idle time unread quiet seen =
    absurd seen.1
run_reading-Heard r reads (s ∷ ss) begin last (t ∷ t' ∷ ts) rx l small idle time unread quiet
      (late, (late', seen)) =
    let waits : Idle r last rx = record { count = idle; time = time; unread = unread } in
    let first = first_edge r last t _ (omega arith) (before-Idle r reads t last rx waits) in
    let rx1 = rx433_interrupt (u32 t) (before reads t rx) in
    let begun = second_edge r t t' _ (omega arith) (before-Idle r reads t' t rx1 first) in
    let size : length ss ≡ 30 = omega (arith, l) in
    let rest =
      rest_of_message r reads ss s begin t' [] ts _ (omega (arith, l)) small late'
        (subst
          (λ n. At r [] 0 (replicate n 0) t' t' (rx433_interrupt (u32 t') (before reads t' rx1)))
          (sym size) begun)
        seen in
    record { delivered = rest.delivered; unready = (unread, (first.unread, rest.unready)) }

-- A receiver that waits for a message hears 31 symbols of 5 bits, sent as README.md describes, the
-- first edge at least 864 microseconds after the last earlier edge and less than a wrap of the
-- clock after it, and every edge seen up to 95 microseconds late. The main loop may read the codes
-- between any of the edges. Then exactly these symbols are handed over as the new code, which is
-- marked ready, and the receiver waits for the next message; and until the last edge no code is
-- marked ready unless one was at the beginning. The clock may wrap on the way.
pub new_code_received :
    (reads : ℕ → Bool) (symbols : List ℕ) (begin last : ℕ) (ts : List ℕ) (rx : Rx)
    → length symbols ≡ nc_data_size
    → IsSymbols symbols
    → rx.nc.nc_count ≡ no_message
    → rx.old_time ≡ u32 last
    → (last + 864 ≤ begin) × (begin + 95 < last + 2 ^ 32)
    → Seen (sent_symbols symbols begin) ts
    → Heard rx.nc.new_code_ready reads symbols ts rx
new_code_received reads symbols begin last ts rx l small idle time quiet seen =
    run_reading-Heard rx.nc.new_code_ready reads symbols begin last ts rx l small idle time (λ y. y)
      quiet seen
