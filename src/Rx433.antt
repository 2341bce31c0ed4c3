-- ===== src/Rx433.antt =====
-- rx433.c and rx433.h: the interrupt handler of the radio receiver. Each rising edge of the
-- receiver's output calls it once. The static variables of its two decoders are the records
-- `HomeEasy` and `NewCode`; the decoders share only `old_time`.
pub mod Invariant
pub mod HomeEasyCode
pub mod Pulses
pub mod Symbol
pub mod SkipLoop
pub mod LostEdges
pub mod Message
mod Tests
use cpeclock.Base.{
  ℕ, zero, suc, ◌+◌, ◌-◌, ◌*◌, ◌/◌, ◌%◌, ◌^◌, List, [], ◌∷◌, Bool, true, false, ◌&&◌, ltb, leb,
  ◌==◌, if◌then◌else◌, get_or, set, replicate, bit_or, u8, u32, sub32, ◌<<<◌, ◌>>>◌,
}

abbrev pub symbol_size : ℕ
symbol_size = 5

abbrev pub nc_data_size : ℕ
nc_data_size = 31

abbrev pub nc_pulse : ℕ
nc_pulse = 0x100

abbrev pub epsilon : ℕ
epsilon = nc_pulse * 3 / 8

abbrev pub nc_symbol_time : ℕ
nc_symbol_time = nc_pulse * 5 + nc_pulse * 2 * symbol_size

abbrev pub max_incomplete_skip : ℕ
max_incomplete_skip = 5

-- `~0` as a `uint32_t`: no message has begun.
abbrev pub no_message : ℕ
no_message = 2 ^ 32 - 1

-- IS_CLOSE, in the wrapping arithmetic of `uint32_t`.
abbrev pub is_close : ℕ → ℕ → Bool
is_close delta centre = ltb (sub32 (u32 (delta + epsilon)) centre) (epsilon * 2)

pub data HeState : Type 0 where
  he_reset he_received_long he_received_short he_ready_for_bit : HeState

pub record HomeEasy : Type 0 where
  pub he_state : HeState
  pub he_bit_count : ℕ
  pub he_bit_data : ℕ
  pub home_easy : ℕ

pub record NewCode : Type 0 where
  pub nc_buffer : List ℕ
  pub nc_timebase : ℕ
  pub nc_count : ℕ
  pub new_code : List ℕ
  pub new_code_ready : Bool

pub record Rx : Type 0 where
  pub old_time : ℕ
  pub he : HomeEasy
  pub nc : NewCode

unfoldable pub start : Rx
start = record {
  old_time = 0;
  he = record { he_state = he_reset; he_bit_count = 0; he_bit_data = 0; home_easy = 0 };
  nc = record {
    nc_buffer = replicate nc_data_size 0;
    nc_timebase = 0;
    nc_count = no_message;
    new_code = replicate nc_data_size 0;
    new_code_ready = false;
  };
}

-- A bit has come: `he_bit_count ++` and what follows it, with the bit data so far.
finish_bit : ℕ → HomeEasy → HomeEasy
finish_bit bits he =
    let count = u8 (he.he_bit_count + 1) in
    if leb 32 count
    then record { he_state = he_reset; he_bit_count = count; he_bit_data = bits; home_easy = bits }
    else record he { he_state = he_ready_for_bit; he_bit_count = count; he_bit_data = bits }

he_short : HeState → HomeEasy → HomeEasy
he_short he_ready_for_bit he = record he { he_state = he_received_short }
he_short he_received_long he =
    finish_bit (u32 (bit_or he.he_bit_data ((2 ^ 31) >>> he.he_bit_count))) he
he_short _ he = record he { he_state = he_reset }

he_long : HeState → HomeEasy → HomeEasy
he_long he_ready_for_bit he = record he { he_state = he_received_long }
he_long he_received_short he = finish_bit he.he_bit_data he
he_long _ he = record he { he_state = he_reset }

-- The first `switch` of the handler, on `delta / 128`.
unfoldable pub he_step : ℕ → HomeEasy → HomeEasy
unfolding he_short he_long finish_bit
he_step delta he =
    let q = delta / 128 in
    if leb 3 q && leb q 5
    then he_short he.he_state he
    else if leb 11 q && leb q 12
    then he_long he.he_state he
    else if leb 22 q && leb q 23
    then record he { he_state = he_ready_for_bit; he_bit_count = 0; he_bit_data = 0 }
    else record he { he_state = he_reset }

pub record Skip : Type 0 where
  pub count : ℕ
  pub skip : ℕ
  pub timebase : ℕ

-- The `while` loop over skipped symbols; `delta2` is `new_time - nc_timebase` at every test.
pub skip_loop : ℕ → ℕ → Skip → Skip
skip_loop zero new_time s = s
skip_loop (suc fuel) new_time s =
    let next : Skip = record {
      count = s.count + 1;
      skip = s.skip + 1;
      timebase = u32 (s.timebase + nc_symbol_time);
    } in
    let rest = skip_loop fuel new_time next in
    if ltb s.count nc_data_size && ltb (nc_symbol_time * 3 / 2) (sub32 new_time s.timebase)
    then rest
    else s

-- The message goes to the other side.
abbrev deliver : NewCode → NewCode
deliver nc = record nc { new_code = nc.nc_buffer; new_code_ready = true }

-- After the loop, in the case of a start code.
pub start_code : ℕ → ℕ → NewCode → NewCode
start_code new_time skip nc =
    let nc' =
      if nc.nc_count == nc_data_size && leb skip max_incomplete_skip then deliver nc else nc in
    let begun = record nc' {
      nc_count = 0;
      nc_timebase = new_time;
      nc_buffer = replicate nc_data_size 0;
    } in
    if leb nc_data_size nc.nc_count
    then begun
    else if is_close (sub32 new_time nc.nc_timebase) nc_symbol_time
    then record nc { nc_timebase = new_time }
    else nc

-- A data bit, or the stop bit that ends the symbol and perhaps the message.
pub accept_bit : ℕ → NewCode → NewCode
accept_bit bit nc =
    let value = u8 (bit_or (get_or nc.nc_buffer nc.nc_count 0) ((2 ^ symbol_size) >>> bit)) in
    let nc' = record nc { nc_count = nc.nc_count + 1 } in
    if ltb bit (symbol_size + 1)
    then record nc { nc_buffer = set nc.nc_buffer nc.nc_count value }
    else if nc'.nc_count == nc_data_size
    then record (deliver nc') { nc_count = no_message }
    else nc'

pub within_message : ℕ → NewCode → NewCode
within_message delta2 nc =
    let bit = u32 (delta2 + nc_pulse) / (nc_pulse * 2) in
    let expect = u32 (nc_pulse * 2 * bit) in
    let nc' = if leb nc_data_size (nc.nc_count + max_incomplete_skip) then deliver nc else nc in
    if ltb delta2 (nc_symbol_time + epsilon)
    then (if bit == 0 then nc else if is_close expect delta2 then accept_bit bit nc else nc)
    else record nc' { nc_count = no_message }

-- The second part of the handler.
unfoldable pub nc_step : ℕ → ℕ → NewCode → NewCode
nc_step new_time delta nc =
    let s =
      skip_loop nc_data_size new_time
        (record { count = nc.nc_count; skip = 0; timebase = nc.nc_timebase }) in
    if is_close delta (nc_pulse * 3)
    then start_code new_time s.skip (record nc { nc_count = s.count; nc_timebase = s.timebase })
    else if ltb nc.nc_count nc_data_size
    then within_message (sub32 new_time nc.nc_timebase) nc
    else nc

-- `new_time` is the result of `micros()`.
unfoldable pub rx433_interrupt : ℕ → Rx → Rx
rx433_interrupt new_time rx =
    let delta = sub32 new_time rx.old_time in
    record { old_time = new_time; he = he_step delta rx.he; nc = nc_step new_time delta rx.nc }

-- The receiver once `mail_receive_messages` has read the codes.
abbrev pub cleared : Rx → Rx
cleared rx = record rx {
  he = record (rx.he) { home_easy = 0 };
  nc = record (rx.nc) { new_code_ready = false };
}

-- The same with the codes read between the edges: `reads t` is whether they are read between the
-- edge at `t` and the one before.
abbrev pub before : (ℕ → Bool) → ℕ → Rx → Rx
before reads t rx = if reads t then cleared rx else rx

unfoldable pub run_reading : (ℕ → Bool) → List ℕ → Rx → Rx
run_reading reads [] rx = rx
run_reading reads (t ∷ ts) rx = run_reading reads ts (rx433_interrupt (u32 t) (before reads t rx))

-- One interrupt for each edge.
pub run : List ℕ → Rx → Rx
run [] rx = rx
run (t ∷ ts) rx = run ts (rx433_interrupt (u32 t) rx)
