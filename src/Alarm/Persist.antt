-- ===== src/Alarm/Persist.antt =====
-- What the alarm keeps in the battery-backed memory, and what `alarm_init` makes of it at boot.
use cpeclock.Base.{ℕ, List, [], ◌∷◌, ◌⊎◌, inl, inr, ◌/◌, ◌%◌, ◌^◌, ◌<◌, ◌≡◌, refl, arith}
use cpeclock.Base.Bits.{bit_or-shift}
use cpeclock.Hal
use cpeclock.Hal.{Hal, IsMemory, nvram_size, nvram_read}
use cpeclock.Hal.Writes.{write_all, stored, nvram_read-write_all}
use cpeclock.Alarm.{
  State, disabled, enabled, active, reset, invalid_state, Alarm, to_byte, of_byte, save_to_nvram,
  alarm_set, alarm_unset, alarm_update, alarm_init,
}
use cpeclock.Alarm.Update.{IsValid, alarm_update_saves}

-- The memory holds the alarm.
pub record Saved {nv : Hal.Nvram} (a : Alarm) (h : Hal nv) : Type 0 where
  pub hi : nvram_read Hal.nvram_alarm_hi h ≡ a.time / 256
  pub lo : nvram_read Hal.nvram_alarm_lo h ≡ a.time % 256
  pub state : nvram_read Hal.nvram_alarm_state h ≡ to_byte a.state

abbrev saved_bytes : Alarm → List (ℕ × ℕ)
saved_bytes a =
    (Hal.nvram_alarm_hi, a.time / 2 ^ 8)
    ∷ (Hal.nvram_alarm_lo, a.time)
    ∷ (Hal.nvram_alarm_state, to_byte a.state)
    ∷ []

save_to_nvram-write_all :
    {nv : Hal.Nvram} (a : Alarm) (h : Hal nv) → save_to_nvram a h ≡ write_all (saved_bytes a) h
unfolding save_to_nvram
save_to_nvram-write_all a h = refl

of_byte-to_byte : (s : State) → of_byte (to_byte s) ≡ s
of_byte-to_byte disabled = refl
of_byte-to_byte enabled = refl
of_byte-to_byte active = refl
of_byte-to_byte reset = refl
of_byte-to_byte invalid_state = refl

to_byte-lt : (s : State) → to_byte s < 256
to_byte-lt s = ground arith

-- At boot, whatever the memory holds, the alarm has a time within the day and a known state.
pub alarm_init-IsValid : {nv : Hal.Nvram} (h : Hal nv) → IsValid (alarm_init h).0
unfolding alarm_init
alarm_init-IsValid h = ground arith

module _ {nv : Hal.Nvram} (ok : IsMemory nv) where
  save_to_nvram-read :
      (a : Alarm) (h : Hal nv) (b : ℕ)
      → b < nvram_size
      → nvram_read b (save_to_nvram a h) ≡ stored b (saved_bytes a) (nvram_read b h)
  save_to_nvram-read a h b l =
      rw (save_to_nvram-write_all a h) (nvram_read-write_all ok (saved_bytes a) b h (omega arith) l)

  -- The alarm writes only its three bytes.
  pub save_to_nvram-frame :
      (a : Alarm) (h : Hal nv) (b : ℕ)
      → b < nvram_size
      → (b < Hal.nvram_alarm_hi) ⊎ (Hal.nvram_alarm_state < b)
      → nvram_read b (save_to_nvram a h) ≡ nvram_read b h
  save_to_nvram-frame a h b l o = ground (arith, save_to_nvram-read a h b l)

  pub save_to_nvram-Saved : (a : Alarm) (h : Hal nv) → a.time < 2 ^ 16 → Saved a (save_to_nvram a h)
  save_to_nvram-Saved a h t = record {
    hi = ground (arith, save_to_nvram-read a h 0x13 (omega arith));
    lo = ground (arith, save_to_nvram-read a h 0x14 (omega arith));
    state = ground (arith, save_to_nvram-read a h 0x15 (omega arith), to_byte-lt a.state);
  }

  -- Setting, cancelling and booting leave the memory holding the new alarm.
  pub set_unset_init-Saved :
      (hour minute : ℕ) (a : Alarm) (h : Hal nv)
      → a.time < 2 ^ 16
      → (let (c, a', h') = alarm_set hour minute a h in Saved a' h')
        × (let (c, a', h') = alarm_unset a h in Saved a' h')
        × (let (a', h') = alarm_init h in Saved a' h')
  unfolding alarm_set alarm_unset alarm_init
  set_unset_init-Saved hour minute a h t = (
    save_to_nvram-Saved _ _ (omega arith),
    save_to_nvram-Saved _ _ t,
    save_to_nvram-Saved _ _ (ground arith),
  )

  -- If the memory, which keeps what is written, holds an alarm whose time has 16 bits, then after a
  -- call of `alarm_update` it holds the new alarm.
  pub alarm_update-Saved :
      (hour minute : ℕ) (a : Alarm) (h : Hal nv)
      → a.time < 2 ^ 16
      → Saved a h
      → let (r, a', h') = alarm_update hour minute a h in Saved a' h'
  alarm_update-Saved hour minute a h t s = elim (alarm_update_saves hour minute a h) [
    | inl (ea, eh) ↦ rw (ea, eh) s
    | inr (et, eh) ↦ rw eh (save_to_nvram-Saved _ h (rw et t))
  ]

  -- Booting from a memory that holds an alarm gives back its time and its state, if the time lies
  -- within the day and the state is a known one. The memory keeps what is written.
  pub alarm_init-Saved : (a : Alarm) (h : Hal nv) → IsValid a → Saved a h → (alarm_init h).0 ≡ a
  unfolding alarm_init
  alarm_init-Saved a h v s = ground (
    arith,
    s.hi,
    s.lo,
    s.state,
    of_byte-to_byte a.state,
    bit_or-shift 8 (a.time / 256) (a.time % 256),
  )
