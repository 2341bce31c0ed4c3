-- ===== src/Rx433/Symbol.antt =====
-- One edge of a new code at a time.
use cpeclock.Base.{
  ℕ, suc, ◌+◌, ◌-◌, ◌*◌, ◌/◌, ◌^◌, ◌<◌, ◌≤◌, ◌≡◌, ◌⊎◌, arith, true, get_or, set, replicate, bit_or,
  u8, u32, sub32, ◌>>>◌,
}
use cpeclock.Rx433.{
  NewCode, Skip, skip_loop, start_code, accept_bit, within_message, nc_step, no_message,
  nc_data_size, nc_symbol_time,
}

-- `d` is within the receiver's tolerance of a distance of `q` double pulses.
abbrev pub Near : ℕ → ℕ → Type 0
Near q d = (512 * q ≤ d + 95) × (d ≤ 512 * q + 95)

-- Wrapping subtraction gives the distance of two times that are near.
pub sub32_near : (a b : ℕ) → b ≤ a → a < b + 2 ^ 32 → sub32 (u32 a) (u32 b) ≡ a - b
sub32_near a b h l = omega arith

pub skip_none :
    (fuel new_time : ℕ) (s : Skip)
    → (nc_data_size ≤ s.count) ⊎ (sub32 new_time s.timebase ≤ 5760)
    → skip_loop (suc fuel) new_time s ≡ s
unfolding skip_loop
skip_none fuel new_time s h = ground arith

-- An edge that is no start code, within a message.
pub nc_step_within :
    (new_time delta q : ℕ) (nc : NewCode)
    → Near q delta
    → 1 ≤ q
    → nc.nc_count < nc_data_size
    → nc_step new_time delta nc ≡ within_message (sub32 new_time nc.nc_timebase) nc
unfolding nc_step
nc_step_within new_time delta q nc n h c = ground arith

-- It is bit 1 to 5 of the symbol, or its stop bit 6.
pub within_message_bit :
    (d i : ℕ) (nc : NewCode) → Near i d → 1 ≤ i → i ≤ 6 → within_message d nc ≡ accept_bit i nc
unfolding within_message
within_message_bit d i nc n h l =
    let e : u32 (d + 256) / 512 ≡ i = omega arith in rw (e, within_message) (ground arith)

pub accept_bit_data :
    (i : ℕ) (nc : NewCode)
    → i ≤ 5
    → accept_bit i nc ≡ record nc {
      nc_buffer =
          set nc.nc_buffer nc.nc_count
            (u8 (bit_or (get_or nc.nc_buffer nc.nc_count 0) ((2 ^ 5) >>> i)));
    }
unfolding accept_bit
accept_bit_data i nc h = ground arith

pub accept_bit_stop :
    (nc : NewCode) → nc.nc_count < 30 → accept_bit 6 nc ≡ record nc { nc_count = nc.nc_count + 1 }
unfolding accept_bit
accept_bit_stop nc h = ground arith

pub accept_bit_last :
    (nc : NewCode)
    → nc.nc_count ≡ 30
    → accept_bit 6 nc
      ≡ record nc { nc_count = no_message; new_code = nc.nc_buffer; new_code_ready = true }
unfolding accept_bit
accept_bit_last nc h = ground arith

-- The second edge of a start code: `delta` is within the tolerance of three pulses.
abbrev pub IsStartCode : ℕ → Type 0
IsStartCode delta = (768 ≤ delta + 95) × (delta ≤ 768 + 95)

pub nc_step_first :
    (new_time delta : ℕ) (nc : NewCode)
    → IsStartCode delta
    → nc.nc_count ≡ no_message
    → nc_step new_time delta nc
      ≡ record nc { nc_count = 0; nc_timebase = new_time; nc_buffer = replicate nc_data_size 0 }
unfolding nc_step start_code
nc_step_first new_time delta nc s c = ground (
  arith,
  skip_none 30 new_time (record { count = nc.nc_count; skip = 0; timebase = nc.nc_timebase }),
)

pub nc_step_next :
    (new_time delta : ℕ) (nc : NewCode)
    → IsStartCode delta
    → nc.nc_count < nc_data_size
    → (nc_symbol_time ≤ sub32 new_time nc.nc_timebase + 95)
      × (sub32 new_time nc.nc_timebase ≤ nc_symbol_time + 95)
    → nc_step new_time delta nc ≡ record nc { nc_timebase = new_time }
unfolding nc_step start_code
nc_step_next new_time delta nc s c n = ground (
  arith,
  skip_none 30 new_time (record { count = nc.nc_count; skip = 0; timebase = nc.nc_timebase }),
)

pub nc_step_idle :
    (new_time delta : ℕ) (nc : NewCode)
    → (delta < 672) ⊎ (864 ≤ delta)
    → delta < 2 ^ 32
    → nc.nc_count ≡ no_message
    → nc_step new_time delta nc ≡ nc
unfolding nc_step
nc_step_idle new_time delta nc d l c = ground arith
