-- ===== src/Rx433/Message/Edges.antt =====
-- The edges before a message, between two symbols, and at the end.
use mathlib.Core.List.{append_assoc}
use cpeclock.Base.{
  if_both, ℕ, ◌+◌, ◌-◌, ◌*◌, ◌^◌, ◌<◌, ◌≤◌, ◌≡◌, inr, ◌∙◌, refl, sym, ap, arith, List, [], ◌∷◌,
  ◌++◌, Bool, true, length, length-append, replicate, u32, sub32,
}
use cpeclock.Rx433.{Rx, NewCode, rx433_interrupt, before, no_message, nc_data_size}
use cpeclock.Rx433.Symbol.{
  sub32_near, accept_bit_stop, accept_bit_last, nc_step_first, nc_step_next, nc_step_idle,
}
use cpeclock.Rx433.Message.{At, edge_bit}

-- The message has been handed over, and the receiver waits for the next one.
pub record Delivered (symbols : List ℕ) (rx : Rx) : Type 0 where
  pub code : rx.nc.new_code ≡ symbols
  pub ready : rx.nc.new_code_ready ≡ true
  pub idle : rx.nc.nc_count ≡ no_message

-- The edge that ends the last symbol.
pub last_edge :
    (r : Bool) (s nominal p base last t : ℕ) (done : List ℕ) (rx : Rx)
    → length done ≡ 30
    → (nominal ≤ base) × (base ≤ nominal + 95)
    → (nominal + 512 * p ≤ last) × (last ≤ nominal + 512 * p + 95)
    → p ≤ 5
    → (nominal + 512 * 6 ≤ t) × (t ≤ nominal + 512 * 6 + 95)
    → At r done s [] base last rx
    → Delivered (done ++ (s ∷ [])) (rx433_interrupt (u32 t) rx)
last_edge r s nominal p base last t done rx l b h few late at =
    let e =
      edge_bit r done s [] base last rx at t nominal p 6 b h late (omega arith) (omega arith)
      ∙ accept_bit_last rx.nc (omega (arith, at.count)) in
    record {
      code = ap (λ (n : NewCode). n.new_code) e ∙ at.buffer;
      ready = ap (λ (n : NewCode). n.new_code_ready) e;
      idle = ap (λ (n : NewCode). n.nc_count) e;
    }

-- The two edges between a symbol and the next one: the stop bit, which is the next start code's
-- first edge, and its second edge.
pub stop_edge :
    (r : Bool) (s nominal p base last t : ℕ) (done rest : List ℕ) (rx : Rx)
    → length done < 30
    → (nominal ≤ base) × (base ≤ nominal + 95)
    → (nominal + 512 * p ≤ last) × (last ≤ nominal + 512 * p + 95)
    → p ≤ 5
    → (nominal + 512 * 6 ≤ t) × (t ≤ nominal + 512 * 6 + 95)
    → At r done s (0 ∷ rest) base last rx
    → At r (done ++ (s ∷ [])) 0 rest base t (rx433_interrupt (u32 t) rx)
stop_edge r s nominal p base last t done rest rx l b h few late at =
    let e : (rx433_interrupt (u32 t) rx).nc ≡ record rx.nc { nc_count = rx.nc.nc_count + 1 } =
      edge_bit r done s (0 ∷ rest) base last rx at t nominal p 6 b h late (omega arith)
        (omega arith)
      ∙ accept_bit_stop rx.nc (omega (arith, at.count)) in
    record {
      count =
          ap (λ (n : NewCode). n.nc_count) e
          ∙ ap (λ k. k + 1) at.count
          ∙ (omega (arith, length-append done (s ∷ [])));
      room = omega (arith, length-append done (s ∷ []));
      timebase = ap (λ (n : NewCode). n.nc_timebase) e ∙ at.timebase;
      time = unfold rx433_interrupt in refl;
      buffer =
          ap (λ (n : NewCode). n.nc_buffer) e
          ∙ at.buffer
          ∙ sym (append_assoc done (s ∷ []) (0 ∷ rest));
      unread = λ y. at.unread (sym (ap (λ (n : NewCode). n.new_code_ready) e) ∙ y);
    }

pub start_edge :
    (r : Bool) (bits nominal base t t' : ℕ) (done rest : List ℕ) (rx : Rx)
    → (nominal ≤ base) × (base ≤ nominal + 95)
    → (nominal + 512 * 6 ≤ t) × (t ≤ nominal + 512 * 6 + 95)
    → (nominal + 3840 ≤ t') × (t' ≤ nominal + 3840 + 95)
    → At r done bits rest base t rx
    → At r done bits rest t' t' (rx433_interrupt (u32 t') rx)
start_edge r bits nominal base t t' done rest rx b late late' at =
    let d : sub32 (u32 t') rx.old_time ≡ t' - t =
      ap (sub32 (u32 t')) at.time ∙ sub32_near t' t (omega arith) (omega arith) in
    let d2 : sub32 (u32 t') rx.nc.nc_timebase ≡ t' - base =
      ap (sub32 (u32 t')) at.timebase ∙ sub32_near t' base (omega arith) (omega arith) in
    let e : (rx433_interrupt (u32 t') rx).nc ≡ record rx.nc { nc_timebase = u32 t' } =
      unfold rx433_interrupt in
      nc_step_next (u32 t') _ rx.nc (omega (arith, d)) (omega (arith, at.count, at.room))
        (omega (arith, d2)) in
    record {
      count = ap (λ (n : NewCode). n.nc_count) e ∙ at.count;
      room = at.room;
      timebase = ap (λ (n : NewCode). n.nc_timebase) e;
      time = unfold rx433_interrupt in refl;
      buffer = ap (λ (n : NewCode). n.nc_buffer) e ∙ at.buffer;
      unread = λ y. at.unread (sym (ap (λ (n : NewCode). n.new_code_ready) e) ∙ y);
    }

-- The receiver waits for a message, and has seen its last edge at `last`.
pub record Idle (r : Bool) (last : ℕ) (rx : Rx) : Type 0 where
  pub count : rx.nc.nc_count ≡ no_message
  pub time : rx.old_time ≡ u32 last
  pub unread : rx.nc.new_code_ready ≡ true → r ≡ true

pub before-Idle :
    (r : Bool) (reads : ℕ → Bool) (t last : ℕ) (rx : Rx)
    → Idle r last rx
    → Idle r last (before reads t rx)
before-Idle r reads t last rx idle =
    if_both (Idle r last) (reads t)
      (record { count = idle.count; time = idle.time; unread = λ y. absurd (ground (arith, y)) })
      idle

-- The first edge of the first start code, and the second one.
pub first_edge :
    (r : Bool) (last t : ℕ) (rx : Rx)
    → (last + 864 ≤ t) × (t < last + 2 ^ 32)
    → Idle r last rx
    → Idle r t (rx433_interrupt (u32 t) rx)
first_edge r last t rx quiet idle =
    let d : sub32 (u32 t) rx.old_time ≡ t - last =
      ap (sub32 (u32 t)) idle.time ∙ sub32_near t last (omega arith) (omega arith) in
    let e : (rx433_interrupt (u32 t) rx).nc ≡ rx.nc =
      unfold rx433_interrupt in
      nc_step_idle (u32 t) _ rx.nc (inr (omega (arith, d))) (omega arith) idle.count in
    record {
      count = ap (λ (n : NewCode). n.nc_count) e ∙ idle.count;
      time = unfold rx433_interrupt in refl;
      unread = λ y. idle.unread (sym (ap (λ (n : NewCode). n.new_code_ready) e) ∙ y);
    }

pub second_edge :
    (r : Bool) (t t' : ℕ) (rx : Rx)
    → (t + 673 ≤ t') × (t' ≤ t + 863)
    → Idle r t rx
    → At r [] 0 (replicate 30 0) t' t' (rx433_interrupt (u32 t') rx)
second_edge r t t' rx near idle =
    let d : sub32 (u32 t') rx.old_time ≡ t' - t =
      ap (sub32 (u32 t')) idle.time ∙ sub32_near t' t (omega arith) (omega arith) in
    let e : (rx433_interrupt (u32 t') rx).nc ≡ record rx.nc {
      nc_count = 0;
      nc_timebase = u32 t';
      nc_buffer = replicate nc_data_size 0;
    } =
      unfold rx433_interrupt in nc_step_first (u32 t') _ rx.nc (omega (arith, d)) idle.count in
    record {
      count = ap (λ (n : NewCode). n.nc_count) e;
      room = omega arith;
      timebase = ap (λ (n : NewCode). n.nc_timebase) e;
      time = unfold rx433_interrupt in refl;
      buffer = ap (λ (n : NewCode). n.nc_buffer) e;
      unread = λ y. idle.unread (sym (ap (λ (n : NewCode). n.new_code_ready) e) ∙ y);
    }
