-- ===== src/Rx433/SkipLoop.antt =====
-- The loop over skipped symbols: when it has anything to do.
use cpeclock.Base.{
  ltb→lt, ℕ, ◌+◌, ◌*◌, ◌/◌, ◌^◌, ◌<◌, ◌≤◌, ◌≡◌, ◌∙◌, inl, inr, refl, ap, arith, List, [], ◌∷◌, Bool,
  true, false, Bool-cases, ltb, if◌then◌else◌, if_both, u32, sub32,
}
use cpeclock.Rx433.{
  Skip, skip_loop, Rx, NewCode, is_close, he_step, start_code, accept_bit, within_message, nc_step,
  rx433_interrupt, before, run_reading, nc_pulse, nc_data_size,
}
use cpeclock.Rx433.Symbol.{skip_none}

-- The second part of the handler without the loop.
pub plain_step : ℕ → ℕ → NewCode → NewCode
plain_step new_time delta nc =
    if is_close delta (nc_pulse * 3)
    then start_code new_time 0 nc
    else if ltb nc.nc_count nc_data_size
    then within_message (sub32 new_time nc.nc_timebase) nc
    else nc

pub plain_interrupt : ℕ → Rx → Rx
plain_interrupt new_time rx =
    let delta = sub32 new_time rx.old_time in
    record { old_time = new_time; he = he_step delta rx.he; nc = plain_step new_time delta rx.nc }

unfoldable pub run_plain : (ℕ → Bool) → List ℕ → Rx → Rx
run_plain reads [] rx = rx
run_plain reads (t ∷ ts) rx = run_plain reads ts (plain_interrupt (u32 t) (before reads t rx))

-- No gap between two edges is close to three pulses where the one before it is. `prior` is whether
-- the one before the first gap is, and `last` is the edge before.
abbrev pub Alternates : Bool → ℕ → List ℕ → Type 0
Alternates prior last [] = Unit {0}
Alternates prior last (t ∷ ts) =
    let now = is_close (sub32 (u32 t) last) (nc_pulse * 3) in
    (prior ≡ true → now ≡ false) × Alternates now (u32 t) ts

-- The last edge was within a symbol, or no message has begun.
abbrev Recent : ℕ → NewCode → Type 0
Recent time nc = nc.nc_count < nc_data_size → sub32 time nc.nc_timebase < 3936

accept_bit-timebase : (bit : ℕ) (nc : NewCode) → (accept_bit bit nc).nc_timebase ≡ nc.nc_timebase
unfolding accept_bit
accept_bit-timebase bit nc = ground arith

within_message-Recent :
    (time : ℕ) (nc : NewCode) → Recent time (within_message (sub32 time nc.nc_timebase) nc)
unfolding within_message
within_message-Recent time nc =
    let d2 = sub32 time nc.nc_timebase in
    ground (arith, accept_bit-timebase (u32 (d2 + 256) / 512) nc)

plain_step-Recent :
    (time delta : ℕ) (nc : NewCode)
    → is_close delta (nc_pulse * 3) ≡ false
    → Recent time (plain_step time delta nc)
unfolding plain_step
plain_step-Recent time delta nc far = ground (arith, within_message-Recent time nc)

plain_step-timebase :
    (time delta : ℕ) (nc : NewCode)
    → time < 2 ^ 32
    → nc.nc_timebase < 2 ^ 32
    → (plain_step time delta nc).nc_timebase < 2 ^ 32
unfolding plain_step start_code within_message
plain_step-timebase time delta nc h l =
    let d2 = sub32 time nc.nc_timebase in
    ground (arith, accept_bit-timebase (u32 (d2 + 256) / 512) nc)

-- A start code soon after an edge within a symbol.
soon :
    (time last base : ℕ)
    → time < 2 ^ 32
    → last < 2 ^ 32
    → base < 2 ^ 32
    → is_close (sub32 time last) (nc_pulse * 3) ≡ true
    → sub32 last base < 3936
    → sub32 time base ≤ 5760
soon time last base h l b close recent =
    let d : ltb (sub32 (u32 (sub32 time last + 96)) 768) 192 ≡ true = close in
    let near : sub32 (u32 (sub32 time last + 96)) 768 < 192 = ltb→lt _ _ d in omega arith

nc_step-plain_step :
    (time last : ℕ) (nc : NewCode)
    → time < 2 ^ 32
    → last < 2 ^ 32
    → nc.nc_timebase < 2 ^ 32
    → (is_close (sub32 time last) (nc_pulse * 3) ≡ true → Recent last nc)
    → nc_step time (sub32 time last) nc ≡ plain_step time (sub32 time last) nc
unfolding nc_step plain_step
nc_step-plain_step time last nc h l b recent =
    elim (Bool-cases (is_close (sub32 time last) (nc_pulse * 3))) [
      | inr far ↦ rw (far, nc_step, plain_step) refl
      | inl close ↦
          let s : Skip = record { count = nc.nc_count; skip = 0; timebase = nc.nc_timebase } in
          let none_skipped : skip_loop 31 time s ≡ s =
            skip_none 30 time s (elim (Bool-cases (ltb nc.nc_count 31)) [
              | inl within ↦
                  inr (soon time last nc.nc_timebase h l b close (recent close (ltb→lt _ _ within)))
              | inr done ↦ inl (ground (arith, done))
            ]) in
          rw (close, nc_step, plain_step)
            (ap
              (λ (s : Skip).
                start_code time s.skip (record nc { nc_count = s.count; nc_timebase = s.timebase }))
              none_skipped)
    ]

-- `prior` is whether the last gap was close to three pulses.
record Timely (prior : Bool) (rx : Rx) : Type 0 where
  time : rx.old_time < 2 ^ 32
  base : rx.nc.nc_timebase < 2 ^ 32
  recent : prior ≡ false → Recent rx.old_time rx.nc

before-Timely :
    (reads : ℕ → Bool) (t : ℕ) (prior : Bool) (rx : Rx)
    → Timely prior rx
    → Timely prior (before reads t rx)
before-Timely reads t prior rx held =
    if_both (Timely prior) (reads t)
      (record { time = held.time; base = held.base; recent = held.recent }) held

before-old_time : (reads : ℕ → Bool) (t : ℕ) (rx : Rx) → (before reads t rx).old_time ≡ rx.old_time
before-old_time reads t rx = if_both (λ (r : Rx). r.old_time ≡ rx.old_time) (reads t) refl refl

rx433_interrupt-plain_interrupt :
    (t : ℕ) (prior : Bool) (rx : Rx)
    → t < 2 ^ 32
    → Timely prior rx
    → (prior ≡ true → is_close (sub32 t rx.old_time) (nc_pulse * 3) ≡ false)
    → rx433_interrupt t rx ≡ plain_interrupt t rx
unfolding rx433_interrupt plain_interrupt
rx433_interrupt-plain_interrupt t prior rx h held alone =
    let close→recent : is_close (sub32 t rx.old_time) (nc_pulse * 3) ≡ true
        → Recent rx.old_time rx.nc =
      λ close. elim (Bool-cases prior) [
        | inl p ↦ absurd (cc (alone p, close))
        | inr p ↦ held.recent p
      ] in
    ap
      (λ (nc : NewCode). record { old_time = t; he = he_step (sub32 t rx.old_time) rx.he; nc = nc })
      (nc_step-plain_step t rx.old_time rx.nc h held.time held.base close→recent)

plain_interrupt-Timely :
    (t : ℕ) (rx : Rx)
    → t < 2 ^ 32
    → rx.nc.nc_timebase < 2 ^ 32
    → Timely (is_close (sub32 t rx.old_time) (nc_pulse * 3)) (plain_interrupt t rx)
unfolding plain_interrupt
plain_interrupt-Timely t rx h b = record {
  time = h;
  base = plain_step-timebase t _ rx.nc h b;
  recent = plain_step-Recent t _ rx.nc;
}

run_reading-Timely :
    (reads : ℕ → Bool) (ts : List ℕ) (prior : Bool) (rx : Rx)
    → Timely prior rx
    → Alternates prior rx.old_time ts
    → run_reading reads ts rx ≡ run_plain reads ts rx
unfolding run_reading run_plain plain_interrupt
run_reading-Timely reads [] prior rx held gaps = refl
run_reading-Timely reads (t ∷ ts) prior rx held (alone, gaps) =
    let rx' : Rx = before reads t rx in
    let held' : Timely prior rx' = before-Timely reads t prior rx held in
    let e : rx'.old_time ≡ rx.old_time = before-old_time reads t rx in
    let fits : u32 t < 2 ^ 32 = omega arith in
    ap (run_reading reads ts)
      (rx433_interrupt-plain_interrupt (u32 t) prior rx' fits held' (rw e alone))
    ∙ run_reading-Timely reads ts _ (plain_interrupt (u32 t) rx')
        (plain_interrupt-Timely (u32 t) rx' fits held'.base) (rw e gaps)

-- X.
pub run_reading-run_plain :
    (reads : ℕ → Bool) (ts : List ℕ) (rx : Rx)
    → rx.old_time < 2 ^ 32
    → rx.nc.nc_timebase < 2 ^ 32
    → Alternates true rx.old_time ts
    → run_reading reads ts rx ≡ run_plain reads ts rx
run_reading-run_plain reads ts rx time base gaps =
    run_reading-Timely reads ts true rx
      (record { time = time; base = base; recent = λ e. absurd (cc e) }) gaps
