-- ===== src/Mail/Receive.antt =====
-- The memory and the variables over a call of `mail_receive_messages`: what each part of it writes.
pub mod Step
pub mod Effect
pub mod PowerCycle
use cpeclock.Base.{
  ℕ, zero, suc, ◌+◌, ◌*◌, ◌^◌, ◌%◌, ◌<◌, ◌≤◌, ◌≡◌, ◌⊎◌, inl, inr, ◌∙◌, refl, sym, ap, subst, arith,
  List, [], ◌∷◌, ◌++◌, Bool, true, false, Option, some, none, length, memeq, eq→memeq,
  if◌then◌else◌, ◌==◌, get_or, bit_xor,
}
use cpeclock.Hal
use cpeclock.Hal.{
  Hal, IsMemory, nvram_size, nvram_read, nvram_write, nvram_read-nvram_write, display_message,
  display_message_lp, clock_set,
}
use cpeclock.Hal.Writes.{write_all, write_all-append}
use cpeclock.Alarm
use cpeclock.Alarm.Persist as AlarmMemory
use cpeclock.NightDay
use cpeclock.NightDay.Persist as NightDayMemory
use cpeclock.Hmac.{Sha256, le_bytes}
use cpeclock.Hmac433.{Packet, hmac433_authenticate}
use cpeclock.Ncrs.{Rs, ncrs_decode}
use cpeclock.Mail.{
  Device, packet_of_bytes, bytes_of_packet, of_le_bytes, read_bytes, slot, save_counter,
  new_home_easy_message, show_message, show_counter, new_packet, authenticated, decoded, new_code,
  mail_receive_messages,
}
use cpeclock.Mail.Counter.{
  Holds, counter_writes, byte_writes, save_counter-write_all, byte_writes-Within, read_other,
  read_bytes-eq,
}
use cpeclock.Mail.Boot.{save_counter-Holds, length-le_bytes, slots}

-- The memory reads the same from one address up to another.
abbrev pub Reads : {nv : Hal.Nvram} → ℕ → ℕ → Hal nv → Hal nv → Type 0
Reads lo hi h h' = (b : ℕ) → lo ≤ b → b < hi → nvram_read b h' ≡ nvram_read b h

module _ {nv : Hal.Nvram} (h h' : Hal nv) where
  pub Holds-Reads : (c : ℕ) → Holds c h → Reads 0 0x13 h h' → Holds c h'
  Holds-Reads c k r =
      let same = r Hal.nvram_state_addr (omega arith) (omega arith) in
      record {
        check_1 = r Hal.nvram_check_byte_1_addr (omega arith) (omega arith) ∙ k.check_1;
        check_2 = r Hal.nvram_check_byte_2_addr (omega arith) (omega arith) ∙ k.check_2;
        state = omega (arith, same, k.state);
        value =
            ap (λ s. of_le_bytes (read_bytes 8 (slot s) h')) same
            ∙ ap of_le_bytes (
                read_bytes-eq 8 (slot (nvram_read Hal.nvram_state_addr h)) h' h
                  (λ b l m. r b (omega arith) (omega (arith, (slots _ k.state).2))))
            ∙ k.value;
      }

  pub alarm-Reads :
      (a : Alarm.Alarm) → AlarmMemory.Saved a h → Reads 0x13 0x16 h h' → AlarmMemory.Saved a h'
  alarm-Reads a s r = record {
    hi = r Hal.nvram_alarm_hi (omega arith) (omega arith) ∙ s.hi;
    lo = r Hal.nvram_alarm_lo (omega arith) (omega arith) ∙ s.lo;
    state = r Hal.nvram_alarm_state (omega arith) (omega arith) ∙ s.state;
  }

  pub night_day-Reads :
      (t : NightDay.NightDay)
      → NightDayMemory.Saved t h
      → Reads 0x16 0x1a h h'
      → NightDayMemory.Saved t h'
  night_day-Reads t s r = record {
    night_hi = r Hal.nvram_night_time_hi (omega arith) (omega arith) ∙ s.night_hi;
    night_lo = r Hal.nvram_night_time_lo (omega arith) (omega arith) ∙ s.night_lo;
    day_hi = r Hal.nvram_day_time_hi (omega arith) (omega arith) ∙ s.day_hi;
    day_lo = r Hal.nvram_day_time_lo (omega arith) (omega arith) ∙ s.day_lo;
  }

  pub mem-Reads : (lo hi : ℕ) → h'.mem ≡ h.mem → Reads lo hi h h'
  unfolding nvram_read
  mem-Reads lo hi e b l m = cc

-- The memory holds the counter, the alarm and the night's times as the variables have them.
pub record Kept {nv : Hal.Nvram} (d : Device nv) : Type 0 where
  pub counter : Holds d.hmac_message_counter d.hal
  pub counter_fits : d.hmac_message_counter < 2 ^ 64
  pub alarm : AlarmMemory.Saved d.alarm d.hal
  pub alarm_fits : d.alarm.time < 2 ^ 16
  pub night_day : NightDayMemory.Saved d.night_day d.hal

module _ {nv : Hal.Nvram} (ok : IsMemory nv) (d : Device nv) (k : Kept d) where
  pub hal-Kept : (h' : Hal nv) → h'.mem ≡ d.hal.mem → Kept (record d { hal = h' })
  hal-Kept h' e = record {
    counter = Holds-Reads d.hal h' _ k.counter (mem-Reads d.hal h' 0 0x13 e);
    counter_fits = k.counter_fits;
    alarm = alarm-Reads d.hal h' _ k.alarm (mem-Reads d.hal h' 0x13 0x16 e);
    alarm_fits = k.alarm_fits;
    night_day = night_day-Reads d.hal h' _ k.night_day (mem-Reads d.hal h' 0x16 0x1a e);
  }

  pub alarm-Kept :
      (a : Alarm.Alarm)
      → a.time < 2 ^ 16
      → Kept (record d { alarm = a; hal = Alarm.save_to_nvram a d.hal })
  alarm-Kept a fits =
      let h' = Alarm.save_to_nvram a d.hal in
      let frame = AlarmMemory.save_to_nvram-frame ok a d.hal in
      record {
        counter =
            Holds-Reads d.hal h' _ k.counter (λ b l m. frame b (omega arith) (inl (omega arith)));
        counter_fits = k.counter_fits;
        alarm = AlarmMemory.save_to_nvram-Saved ok a d.hal fits;
        alarm_fits = fits;
        night_day =
            night_day-Reads d.hal h' _ k.night_day
              (λ b l m. frame b (omega arith) (inr (omega arith)));
      }

  pub night_day-Kept :
      (t : NightDay.NightDay)
      → t.start_night_time < 2 ^ 16
      → t.start_day_time < 2 ^ 16
      → Kept (record d { night_day = t; hal = NightDay.save_to_nvram t d.hal })
  night_day-Kept t night day =
      let h' = NightDay.save_to_nvram t d.hal in
      let frame = NightDayMemory.save_to_nvram-frame ok t d.hal in
      record {
        counter =
            Holds-Reads d.hal h' _ k.counter (λ b l m. frame b (omega arith) (inl (omega arith)));
        counter_fits = k.counter_fits;
        alarm = alarm-Reads d.hal h' _ k.alarm (λ b l m. frame b (omega arith) (inl (omega arith)));
        alarm_fits = k.alarm_fits;
        night_day = NightDayMemory.save_to_nvram-Saved ok t d.hal night day;
      }

  pub save_counter-Reads : (c : ℕ) → Reads 0x13 0x1a d.hal (save_counter c d.hal)
  save_counter-Reads c b l m =
      let state = nvram_read Hal.nvram_state_addr d.hal in
      let (apart, low, low', bit) = slots state k.counter.state in
      let other = slot (bit_xor state 1) in
      let bytes = byte_writes other (le_bytes 8 c) in
      let w =
        byte_writes-Within 0 other 0x10 (le_bytes 8 c) (omega arith)
          (omega (arith, length-le_bytes c)) in
      ap (nvram_read b) (save_counter-write_all c d.hal ∙ write_all-append bytes _ d.hal)
      ∙ ground (
        arith,
        nvram_read-nvram_write ok Hal.nvram_state_addr b (bit_xor state 1) (write_all bytes d.hal),
      )
      ∙ read_other ok 0 0x10 bytes b d.hal w (omega arith) (omega arith) (inr (omega arith))

  pub counter-Kept :
      (c : ℕ)
      → c < 2 ^ 64
      → Kept (record d { hmac_message_counter = c; hal = save_counter c d.hal })
  counter-Kept c fits = record {
    counter = save_counter-Holds ok d.hal d.hmac_message_counter c fits k.counter;
    counter_fits = fits;
    alarm =
        alarm-Reads d.hal _ _ k.alarm (λ b l m. save_counter-Reads c b (omega arith) (omega arith));
    alarm_fits = k.alarm_fits;
    night_day =
        night_day-Reads d.hal _ _ k.night_day
          (λ b l m. save_counter-Reads c b (omega arith) (omega arith));
  }
