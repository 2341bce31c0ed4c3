-- ===== src/NightDay/Persist.antt =====
-- What is kept in the battery-backed memory, and what `night_day_time_init` makes of it at boot.
use cpeclock.Base.{ℕ, List, [], ◌∷◌, ◌⊎◌, ◌/◌, ◌%◌, ◌^◌, ◌<◌, ◌≡◌, refl, arith}
use cpeclock.Base.Bits.{bit_or-shift}
use cpeclock.Hal
use cpeclock.Hal.{Hal, IsMemory, nvram_size, nvram_read}
use cpeclock.Hal.Writes.{write_all, stored, nvram_read-write_all}
use cpeclock.NightDay.{NightDay, save_to_nvram, night_day_time_set, night_day_time_init}
use cpeclock.NightDay.Interval.{IsValid}

pub record Saved {nv : Hal.Nvram} (t : NightDay) (h : Hal nv) : Type 0 where
  pub night_hi : nvram_read Hal.nvram_night_time_hi h ≡ t.start_night_time / 256
  pub night_lo : nvram_read Hal.nvram_night_time_lo h ≡ t.start_night_time % 256
  pub day_hi : nvram_read Hal.nvram_day_time_hi h ≡ t.start_day_time / 256
  pub day_lo : nvram_read Hal.nvram_day_time_lo h ≡ t.start_day_time % 256

abbrev saved_bytes : NightDay → List (ℕ × ℕ)
saved_bytes t =
    (Hal.nvram_night_time_hi, t.start_night_time / 2 ^ 8)
    ∷ (Hal.nvram_night_time_lo, t.start_night_time)
    ∷ (Hal.nvram_day_time_hi, t.start_day_time / 2 ^ 8)
    ∷ (Hal.nvram_day_time_lo, t.start_day_time)
    ∷ []

save_to_nvram-write_all :
    {nv : Hal.Nvram} (t : NightDay) (h : Hal nv) → save_to_nvram t h ≡ write_all (saved_bytes t) h
unfolding save_to_nvram
save_to_nvram-write_all t h = refl

-- At boot, whatever the memory holds, both starts lie within the day.
pub night_day_time_init-IsValid : {nv : Hal.Nvram} (h : Hal nv) → IsValid (night_day_time_init h).0
unfolding night_day_time_init
night_day_time_init-IsValid h = ground arith

module _ {nv : Hal.Nvram} (ok : IsMemory nv) where
  save_to_nvram-read :
      (t : NightDay) (h : Hal nv) (b : ℕ)
      → b < nvram_size
      → nvram_read b (save_to_nvram t h) ≡ stored b (saved_bytes t) (nvram_read b h)
  save_to_nvram-read t h b l =
      rw (save_to_nvram-write_all t h) (nvram_read-write_all ok (saved_bytes t) b h (omega arith) l)

  -- Only these four bytes are written.
  pub save_to_nvram-frame :
      (t : NightDay) (h : Hal nv) (b : ℕ)
      → b < nvram_size
      → (b < Hal.nvram_night_time_hi) ⊎ (Hal.nvram_day_time_lo < b)
      → nvram_read b (save_to_nvram t h) ≡ nvram_read b h
  save_to_nvram-frame t h b l o = ground (arith, save_to_nvram-read t h b l)

  pub save_to_nvram-Saved :
      (t : NightDay) (h : Hal nv)
      → t.start_night_time < 2 ^ 16
      → t.start_day_time < 2 ^ 16
      → Saved t (save_to_nvram t h)
  save_to_nvram-Saved t h p q = record {
    night_hi = ground (arith, save_to_nvram-read t h 0x16 (omega arith));
    night_lo = ground (arith, save_to_nvram-read t h 0x17 (omega arith));
    day_hi = ground (arith, save_to_nvram-read t h 0x18 (omega arith));
    day_lo = ground (arith, save_to_nvram-read t h 0x19 (omega arith));
  }

  pub night_day_time_init-Saved :
      (t : NightDay) (h : Hal nv) → IsValid t → Saved t h → (night_day_time_init h).0 ≡ t
  unfolding night_day_time_init
  night_day_time_init-Saved t h v s = ground (
    arith,
    s.night_hi,
    s.night_lo,
    s.day_hi,
    s.day_lo,
    bit_or-shift 8 (t.start_night_time / 256) (t.start_night_time % 256),
    bit_or-shift 8 (t.start_day_time / 256) (t.start_day_time % 256),
  )

  -- If the starts that `night_day_time_set` makes lie within the day, then booting from the memory
  -- that it left gives the same two starts. The memory keeps what is written.
  pub night_day_time_init-night_day_time_set :
      (nh nm dh dm : ℕ) (h : Hal nv)
      → IsValid (night_day_time_set nh nm dh dm h).0
      → (night_day_time_init (night_day_time_set nh nm dh dm h).1).0
        ≡ (night_day_time_set nh nm dh dm h).0
  unfolding night_day_time_set
  night_day_time_init-night_day_time_set nh nm dh dm h v =
      night_day_time_init-Saved _ _ v (save_to_nvram-Saved _ _ (omega arith) (omega arith))
