-- ===== src/Rx433/Invariant.antt =====
-- What holds of the receiver's variables between two interrupts.
use cpeclock.Base.{
  ℕ, zero, suc, ◌+◌, ◌*◌, ◌/◌, ◌^◌, ◌<◌, ◌≤◌, ◌≡◌, ◌≢◌, ◌⊎◌, inl, inr, ◌∙◌, refl, arith, List, [],
  ◌∷◌, true, false, ◌&&◌, ltb, length, get_or, set, All, bit_or, u8, u32, sub32, ◌>>>◌, length-set,
  ltb→lt, Bool-cases,
}
use cpeclock.Base.Bits.{all_below, all_below_at}
use cpeclock.Rx433.{
  Rx, HomeEasy, NewCode, Skip, he_reset, no_message, nc_data_size, skip_loop, start_code,
  accept_bit, within_message, nc_step, he_step, rx433_interrupt, start, run, nc_symbol_time,
}

abbrev pub IsSymbols : List ℕ → Type 0
IsSymbols = All (λ x. x < 32)

pub record HeValid (he : HomeEasy) : Type 0 where
  pub counting : he.he_state ≢ he_reset → he.he_bit_count < 32
  pub data_fits : he.he_bit_data < 2 ^ 32
  pub code_fits : he.home_easy < 2 ^ 32

pub record NcValid (nc : NewCode) : Type 0 where
  pub buffer_size : length nc.nc_buffer ≡ nc_data_size
  pub buffer_symbols : IsSymbols nc.nc_buffer
  pub code_size : length nc.new_code ≡ nc_data_size
  pub code_symbols : IsSymbols nc.new_code
  pub counting : (nc.nc_count < nc_data_size) ⊎ (nc.nc_count ≡ no_message)
  pub time_fits : nc.nc_timebase < 2 ^ 32

he_step-HeValid : (delta : ℕ) (he : HomeEasy) → HeValid he → HeValid (he_step delta he)
unfolding he_step
he_step-HeValid delta he v = ground arith

-- The fuel of the loop over skipped symbols is enough: it stops by its own test, with at most as
-- many rounds as there are symbols in a message.
abbrev pub Ended : ℕ → Skip → Type 0
Ended new_time s =
    (ltb s.count nc_data_size && ltb (nc_symbol_time * 3 / 2) (sub32 new_time s.timebase)) ≡ false

-- If the count of symbols and the fuel together reach the size of a message, then the loop over
-- skipped symbols stops by its own test, and has skipped at most as many symbols as it has fuel.
pub skip_loop-Ended :
    (fuel new_time : ℕ) (s : Skip)
    → (nc_data_size ≤ s.count + fuel)
    → let s' = skip_loop fuel new_time s in Ended new_time s' × (s'.skip ≤ s.skip + fuel)
unfolding skip_loop
skip_loop-Ended zero new_time s h = ground arith
skip_loop-Ended (suc fuel) new_time s h = ground (
  arith,
  skip_loop-Ended fuel new_time
      (record {
        count = s.count + 1;
        skip = s.skip + 1;
        timebase = u32 (s.timebase + nc_symbol_time);
      })
      (omega arith),
)

skip_loop-count :
    (fuel new_time : ℕ) (s : Skip)
    → (s.count ≤ nc_data_size) ⊎ (s.count ≡ no_message)
    → s.timebase < 2 ^ 32
    → let s' = skip_loop fuel new_time s in
      ((s'.count ≤ nc_data_size) ⊎ (s'.count ≡ no_message)) × (s'.timebase < 2 ^ 32)
unfolding skip_loop
skip_loop-count zero new_time s h t = (h, t)
skip_loop-count (suc fuel) new_time s h t = ground (
  arith,
  skip_loop-count fuel new_time (record {
    count = s.count + 1;
    skip = s.skip + 1;
    timebase = u32 (s.timebase + nc_symbol_time);
  }),
)

or_table : all_below 32 (λ a. all_below 32 (λ b. ltb (bit_or a b) 32)) ≡ true
unfolding all_below
or_table = refl

bit_or-lt : (a b : ℕ) → a < 32 → b < 32 → bit_or a b < 32
bit_or-lt a b h k = ltb→lt _ _ (all_below_at 32 _ b (all_below_at 32 _ a or_table h) k)

get_or-IsSymbols : (xs : List ℕ) (i : ℕ) → IsSymbols xs → get_or xs i 0 < 32
get_or-IsSymbols [] i s = omega arith
get_or-IsSymbols (x ∷ xs) zero s = s.0
get_or-IsSymbols (x ∷ xs) (suc i) s = get_or-IsSymbols xs i s.1

set-IsSymbols : (xs : List ℕ) (i v : ℕ) → IsSymbols xs → v < 32 → IsSymbols (set xs i v)
set-IsSymbols [] i v s h = tt
set-IsSymbols (x ∷ xs) zero v s h = (h, s.1)
set-IsSymbols (x ∷ xs) (suc i) v s h = (s.0, set-IsSymbols xs i v s.1 h)

shift_lt : (bit : ℕ) → bit ≢ 0 → bit < 6 → (2 ^ 5) >>> bit < 32
shift_lt zero h k = absurd (h refl)
shift_lt (suc zero) h k = omega arith
shift_lt (suc (suc zero)) h k = omega arith
shift_lt (suc (suc (suc zero))) h k = omega arith
shift_lt (suc (suc (suc (suc zero)))) h k = omega arith
shift_lt (suc (suc (suc (suc (suc zero))))) h k = omega arith
shift_lt (suc (suc (suc (suc (suc (suc n)))))) h k = absurd (omega arith)

accept_bit-NcValid :
    (bit : ℕ) (nc : NewCode)
    → NcValid nc
    → bit ≢ 0
    → nc.nc_count < nc_data_size
    → NcValid (accept_bit bit nc)
unfolding accept_bit
accept_bit-NcValid bit nc v b c = elim (Bool-cases (ltb bit 6)) [
  | inl low ↦ rw low (record {
    buffer_size = length-set nc.nc_buffer nc.nc_count _ ∙ v.buffer_size;
    buffer_symbols = set-IsSymbols nc.nc_buffer nc.nc_count _ v.buffer_symbols (small low);
    code_size = v.code_size;
    code_symbols = v.code_symbols;
    counting = v.counting;
    time_fits = v.time_fits;
  })
  | inr stop ↦ rw stop (ground arith)
]
  where
    small :
        ltb bit 6 ≡ true → u8 (bit_or (get_or nc.nc_buffer nc.nc_count 0) ((2 ^ 5) >>> bit)) < 32
    small low = omega (
      arith,
      bit_or-lt _ _ (get_or-IsSymbols nc.nc_buffer nc.nc_count v.buffer_symbols)
          (shift_lt bit b (ltb→lt _ _ low)),
    )

within_message-NcValid :
    (delta2 : ℕ) (nc : NewCode)
    → NcValid nc
    → nc.nc_count < nc_data_size
    → NcValid (within_message delta2 nc)
unfolding within_message
within_message-NcValid delta2 nc v c =
    ground (arith, accept_bit-NcValid (u32 (delta2 + 256) / 512) nc v)

start_code-NcValid :
    (new_time skip count timebase : ℕ) (nc : NewCode)
    → NcValid nc
    → new_time < 2 ^ 32
    → timebase < 2 ^ 32
    → (count ≤ nc_data_size) ⊎ (count ≡ no_message)
    → NcValid (start_code new_time skip (record nc { nc_count = count; nc_timebase = timebase }))
unfolding start_code
start_code-NcValid new_time skip count timebase nc v h t c = ground arith

nc_step-NcValid :
    (new_time delta : ℕ) (nc : NewCode)
    → new_time < 2 ^ 32
    → NcValid nc
    → NcValid (nc_step new_time delta nc)
unfolding nc_step
nc_step-NcValid new_time delta nc h v = ground (
  arith,
  within_message-NcValid (sub32 new_time nc.nc_timebase) nc v,
  skip_loop-count 31 new_time (record { count = nc.nc_count; skip = 0; timebase = nc.nc_timebase }),
  start_code-NcValid new_time
      (skip_loop 31 new_time
        (record { count = nc.nc_count; skip = 0; timebase = nc.nc_timebase })).skip
      (skip_loop 31 new_time
        (record { count = nc.nc_count; skip = 0; timebase = nc.nc_timebase })).count
      (skip_loop 31 new_time
        (record { count = nc.nc_count; skip = 0; timebase = nc.nc_timebase })).timebase
      nc v,
)

pub record IsValid (rx : Rx) : Type 0 where
  pub he : HeValid rx.he
  pub nc : NcValid rx.nc

pub start-IsValid : IsValid start
unfolding start
start-IsValid = ground arith

pub rx433_interrupt-IsValid :
    (new_time : ℕ) (rx : Rx)
    → new_time < 2 ^ 32
    → IsValid rx
    → IsValid (rx433_interrupt new_time rx)
unfolding rx433_interrupt
rx433_interrupt-IsValid new_time rx h v = record {
  he = he_step-HeValid _ rx.he v.he;
  nc = nc_step-NcValid new_time _ rx.nc h v.nc;
}

-- From a valid state of the receiver, whatever edges come at whatever times, the state is valid
-- again: the buffer has 31 symbols of 5 bits, as has the code that was handed over; the symbol
-- being received is one of these, or no message has begun; and while a Home Easy code is being
-- received fewer than 32 of its bits are in.
pub run-IsValid : (times : List ℕ) (rx : Rx) → IsValid rx → IsValid (run times rx)
unfolding run
run-IsValid [] rx v = v
run-IsValid (t ∷ ts) rx v = run-IsValid ts _ (rx433_interrupt-IsValid (u32 t) rx (omega arith) v)
