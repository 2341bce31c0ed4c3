-- ===== src/Rx433/Message/Cut.antt =====
-- A message of which the first symbols were not received.
use mathlib.Core.List.{append_assoc}
use cpeclock.Base.{
  ℕ, zero, suc, ◌+◌, ◌-◌, ◌*◌, ◌^◌, ◌<◌, ◌≤◌, ◌≡◌, ◌∙◌, refl, sym, ap, arith, List, [], ◌∷◌, ◌++◌,
  Bool, true, length, length-append, replicate, u32, sub32, subst,
}
use cpeclock.Rx433.{
  within_message, max_incomplete_skip, Rx, NewCode, rx433_interrupt, nc_step, run_reading, before,
  no_message, nc_data_size,
}
use cpeclock.Rx433.Pulses.{sent_bits, sent_symbols, Seen}
use cpeclock.Rx433.Symbol.{sub32_near}
use cpeclock.Rx433.Invariant.{IsSymbols}
use cpeclock.Rx433.Message.{At, before-At, Unready, Taken, take_bits, or_bits, or_bits_lem}
use cpeclock.Rx433.Message.Edges.{Delivered, stop_edge, Idle, before-Idle, first_edge, second_edge}
use cpeclock.Rx433.Message.Whole.{continue_message, Heard}

split_zeros :
    (total n m : ℕ) → total ≡ n + m → replicate {A = ℕ} total 0 ≡ replicate n 0 ++ replicate m 0
split_zeros total zero m e =
    let same : total ≡ m = omega arith in ap (λ j. replicate {A = ℕ} j 0) same
split_zeros zero (suc n) m e = absurd (omega arith)
split_zeros (suc total) (suc n) m e = ap (λ t. 0 ∷ t) (split_zeros total n m (omega arith))

module _ (r : Bool) (reads : ℕ → Bool) (k : ℕ) where
  -- The symbols have been received, the last one's end is at `stop`, and `k + 1` more are missing.
  record Pending (symbols : List ℕ) (stop : ℕ) (ts : List ℕ) (rx : Rx) : Type 0 where
    base : ℕ
    last : ℕ
    base_late : (stop ≤ base + 3072) × (base + 3072 ≤ stop + 95)
    last_late : (stop ≤ last) × (last ≤ stop + 95)
    at : At r symbols 0 (replicate k 0) base last (run_reading reads ts rx)
    unready : Unready r reads ts rx

  Pending-eq :
      {xs ys ts ts' : List ℕ} {stop stop' : ℕ} {rx rx' : Rx}
      → xs ≡ ys
      → stop ≡ stop'
      → run_reading reads ts rx ≡ run_reading reads ts' rx'
      → (Unready r reads ts' rx' → Unready r reads ts rx)
      → Pending xs stop ts' rx'
      → Pending ys stop' ts rx
  Pending-eq {ts = ts} {stop' = stop'} {rx = rx} e e' f calm p = record {
    base = p.base;
    last = p.last;
    base_late = rw e' at p.base_late;
    last_late = rw e' at p.last_late;
    at =
        subst (λ xs. At r xs 0 (replicate k 0) p.base p.last (run_reading reads ts rx)) e
          (subst (At r _ 0 (replicate k 0) p.base p.last) (sym f) p.at);
    unready = calm p.unready;
  }

  last_symbol :
      (s begin base : ℕ) (done ts : List ℕ) (rx : Rx)
      → length done < 30
      → s < 32
      → (begin + 768 ≤ base) × (base ≤ begin + 768 + 95)
      → Taken r reads
          (sent_symbols [] (begin + 3840))
          (begin + 768)
          done
          (or_bits 5 s 0)
          (0 ∷ replicate k 0)
          base
          ts
          rx
      → Pending (done ++ (s ∷ [])) (begin + 3840) ts rx
  unfolding run_reading Unready
  last_symbol s begin base done ts rx l small b taken =
      Pending-eq refl refl taken.same taken.calm (go taken.ts' taken.seen)
    where
      go :
          (ts' : List ℕ)
          → Seen ((begin + 3840) ∷ []) ts'
          → Pending (done ++ (s ∷ [])) (begin + 3840) ts' taken.rx'
      go [] seen = absurd seen
      go (t ∷ t' ∷ ts') (late, more) = absurd more
      go (t ∷ []) (late, _) = record {
        base = base;
        last = t;
        base_late = (omega arith, omega arith);
        last_late = late;
        at =
            stop_edge r s (begin + 768) taken.p base taken.last t done (replicate k 0)
              (before reads t taken.rx') l b taken.late taken.few (omega arith)
              (before-At r reads t _ _ _ _ _ taken.rx' (
                subst (λ v. At r done v (0 ∷ replicate k 0) base taken.last taken.rx')
                  (or_bits_lem s small) taken.at));
        unready = (taken.at.unread, tt);
      }

  rest_of_cut :
      (ss : List ℕ) (s begin base : ℕ) (done ts : List ℕ) (rx : Rx)
      → length done + suc (length ss) < nc_data_size
      → IsSymbols (s ∷ ss)
      → (begin + 768 ≤ base) × (base ≤ begin + 768 + 95)
      → At r done 0 (replicate (length ss) 0 ++ replicate (suc k) 0) base base rx
      → Seen (sent_bits 5 s (begin + 768) ++ sent_symbols ss (begin + 3840)) ts
      → Pending (done ++ (s ∷ ss)) (begin + 3840 * suc (length ss)) ts rx
  rest_of_cut [] s begin base done ts rx l (small, _) b at seen =
      Pending-eq refl (omega arith) refl (λ u. u)
        (last_symbol s begin base done ts rx (omega arith) small b (
          take_bits r reads 5 s (begin + 768) 0 base base 0 done (0 ∷ replicate k 0)
            (sent_symbols [] (begin + 3840)) ts rx (omega arith) b (omega arith) at seen))
  rest_of_cut (s' ∷ ss) s begin base done ts rx l (small, smalls) b at seen =
      let rest : List ℕ = replicate (length ss) 0 ++ replicate (suc k) 0 in
      let next = continue_message r reads s s' begin base ss done rest ts rx (omega arith) small b (
        take_bits r reads 5 s (begin + 768) 0 base base 0 done (0 ∷ rest)
          (sent_symbols (s' ∷ ss) (begin + 3840)) ts rx (omega arith) b (omega arith) at seen) in
      Pending-eq (append_assoc done (s ∷ []) (s' ∷ ss)) (omega arith) next.same next.calm (
        rest_of_cut ss s' (begin + 3840) next.base (done ++ (s ∷ [])) next.ts' next.rx'
          (omega (arith, length-append done (s ∷ []))) smalls next.late next.at next.seen)

  run_reading-Pending :
      (symbols : List ℕ) (begin last : ℕ) (ts : List ℕ) (rx : Rx)
      → length symbols + suc k ≡ nc_data_size
      → 1 ≤ length symbols
      → IsSymbols symbols
      → Idle r last rx
      → (last + 864 ≤ begin) × (begin + 95 < last + 2 ^ 32)
      → Seen (sent_symbols symbols begin) ts
      → Pending symbols (begin + 3840 * length symbols) ts rx
  unfolding run_reading Unready
  run_reading-Pending [] begin last ts rx l some_sent small idle quiet seen = absurd (omega arith)
  run_reading-Pending (s ∷ ss) begin last [] rx l some_sent small idle quiet seen = absurd seen
  run_reading-Pending (s ∷ ss) begin last (t ∷ []) rx l some_sent small idle quiet seen =
      absurd seen.1
  run_reading-Pending (s ∷ ss) begin last (t ∷ t' ∷ ts) rx l some_sent small idle quiet
        (late, (late', seen)) =
      let first = first_edge r last t _ (omega arith) (before-Idle r reads t last rx idle) in
      let rx1 = rx433_interrupt (u32 t) (before reads t rx) in
      let begun = second_edge r t t' _ (omega arith) (before-Idle r reads t' t rx1 first) in
      let rx2 = rx433_interrupt (u32 t') (before reads t' rx1) in
      let e = split_zeros 30 (length ss) (suc k) (omega (arith, l)) in
      let rest =
        rest_of_cut ss s begin t' [] ts rx2 (omega (arith, l)) small late'
          (subst (λ zeros. At r [] 0 zeros t' t' rx2) e begun) seen in
      Pending-eq refl refl refl (λ u. (idle.unread, (first.unread, u))) rest

-- An edge that comes too late for the symbol that is due ends the message. It is handed over if at
-- most 5 symbols are missing.
late_edge :
    (new_time delta : ℕ) (nc : NewCode)
    → 864 ≤ delta
    → delta < 2 ^ 32
    → 3936 ≤ sub32 new_time nc.nc_timebase
    → nc.nc_count < nc_data_size
    → 26 ≤ nc.nc_count
    → nc_step new_time delta nc
      ≡ record nc { nc_count = no_message; new_code = nc.nc_buffer; new_code_ready = true }
unfolding nc_step within_message
late_edge new_time delta nc d l late within few = ground arith

-- So it is at the edge after a message whose first symbols were missing.
forced :
    (r : Bool) (symbols : List ℕ) (k base last next : ℕ) (rx : Rx)
    → 26 ≤ length symbols
    → ((last + 864 ≤ next) × (next < last + 2 ^ 32))
      × ((base + 3936 ≤ next) × (next < base + 2 ^ 32))
    → At r symbols 0 (replicate k 0) base last rx
    → Delivered (symbols ++ replicate (suc k) 0) (rx433_interrupt (u32 next) rx)
forced r symbols k base last next rx few late at =
    let d : sub32 (u32 next) rx.old_time ≡ next - last =
      ap (sub32 (u32 next)) at.time ∙ sub32_near next last (omega arith) (omega arith) in
    let d2 : sub32 (u32 next) rx.nc.nc_timebase ≡ next - base =
      ap (sub32 (u32 next)) at.timebase ∙ sub32_near next base (omega arith) (omega arith) in
    let e : (rx433_interrupt (u32 next) rx).nc ≡ record rx.nc {
      nc_count = no_message;
      new_code = rx.nc.nc_buffer;
      new_code_ready = true;
    } =
      unfold rx433_interrupt in
      late_edge (u32 next) _ rx.nc (omega (arith, d)) (omega arith) (omega (arith, d2))
        (omega (arith, at.count, at.room)) (omega (arith, at.count, few)) in
    record {
      code = ap (λ (n : NewCode). n.new_code) e ∙ at.buffer;
      ready = ap (λ (n : NewCode). n.new_code_ready) e;
      idle = ap (λ (n : NewCode). n.nc_count) e;
    }

module _ (reads : ℕ → Bool) where
  run_reading-append :
      (ts ts' : List ℕ) (rx : Rx)
      → run_reading reads (ts ++ ts') rx ≡ run_reading reads ts' (run_reading reads ts rx)
  unfolding run_reading
  run_reading-append [] ts' rx = refl
  run_reading-append (t ∷ ts) ts' rx = run_reading-append ts ts' _

  Unready-append :
      (r : Bool) (ts ts' : List ℕ) (rx : Rx)
      → Unready r reads ts rx
      → Unready r reads ts' (run_reading reads ts rx)
      → Unready r reads (ts ++ ts') rx
  unfolding run_reading Unready
  Unready-append r [] ts' rx u u' = u'
  Unready-append r (t ∷ ts) ts' rx (now, u) u' = (now, Unready-append r ts ts' _ u u')

  -- A receiver that waits for a message hears only the last symbols of one, with 1 to 5 of the 31
  -- missing, sent as README.md describes, the first edge at least 864 microseconds after the last
  -- earlier edge and less than a wrap of the clock after it, and every edge seen up to 95
  -- microseconds late. The main loop may read the codes between any of the edges. The next edge,
  -- which comes at least 960 microseconds after the end of the message and less than a wrap of the
  -- clock after its beginning, makes the receiver hand over the symbols with zeros for the missing
  -- ones at the end; the code is marked ready and the receiver waits for the next message. Until
  -- that edge no code is marked ready unless one was at the beginning.
  pub cut_code_received :
      (symbols : List ℕ) (missing begin last next : ℕ) (ts : List ℕ) (rx : Rx)
      → length symbols + missing ≡ nc_data_size
      → (1 ≤ missing) × (missing ≤ max_incomplete_skip)
      → IsSymbols symbols
      → rx.nc.nc_count ≡ no_message
      → rx.old_time ≡ u32 last
      → (last + 864 ≤ begin) × (begin + 95 < last + 2 ^ 32)
      → Seen (sent_symbols symbols begin) ts
      → (begin + 3840 * length symbols + 960 ≤ next) × (next < begin + 2 ^ 32)
      → Heard rx.nc.new_code_ready reads (symbols ++ replicate missing 0) (ts ++ (next ∷ [])) rx
  unfolding run_reading Unready
  cut_code_received symbols zero begin last next ts rx l bounds small idle time quiet seen late =
      absurd (omega arith)
  cut_code_received symbols (suc k) begin last next ts rx l bounds small idle time quiet seen late =
      let r : Bool = rx.nc.new_code_ready in
      let p =
        run_reading-Pending r reads k symbols begin last ts rx l (omega arith) small
          (record { count = idle; time = time; unread = λ y. y }) quiet seen in
      let at = before-At r reads next _ _ _ _ _ _ p.at in
      record {
        delivered =
            subst (Delivered (symbols ++ replicate (suc k) 0))
              (sym (run_reading-append ts (next ∷ []) rx))
              (forced r symbols k p.base p.last next _ (omega arith)
                (omega (arith, p.base_late, p.last_late)) at);
        unready = Unready-append r ts (next ∷ []) rx p.unready (p.at.unread, tt);
      }
