-- ===== src/Firmware/Startup.antt =====
-- `setup` on a memory with any content, and on one that the firmware has left.
use cpeclock.Base.{
  ℕ, ◌^◌, ◌<◌, ◌≡◌, inl, inr, ◌∙◌, refl, sym, ap, subst, arith, [], Bool, true, false, not, ◌||◌,
  Option, some, if◌then◌else◌,
}
use cpeclock.Alarm
use cpeclock.Alarm.Update as AlarmUpdate
use cpeclock.Alarm.Persist as AlarmMemory
use cpeclock.NightDay
use cpeclock.NightDay.Interval as Interval
use cpeclock.NightDay.Persist as NightDayMemory
use cpeclock.Board.{Board}
use cpeclock.Hal
use cpeclock.Hal.{Hal, IsMemory}
use cpeclock.Mail.{Device}
use cpeclock.Mail.Counter.{Holds}
use cpeclock.Mail.Format.{Booted, mail_init-Booted, is_formatted}
use cpeclock.Mail.Receive.{Kept, Holds-Reads, alarm-Reads, night_day-Reads, mem-Reads}
use cpeclock.Ncrs.{Rs, symbol_size, nroots}
use cpeclock.Ncrs.Correct.{ncrs_init-some}
use cpeclock.Firmware.{Firmware, settle, carry_out}
use cpeclock.Firmware.Setup.{
  BootInputs, Boot, booted, started, ready, boot_mail, with_codec, boot_codec, setup, power_on,
}
use cpeclock.Firmware.Memory.{InStep}

module _ {nv : Hal.Nvram} (ok : IsMemory nv) (h : Hal nv) where
  abbrev alarm : Alarm.Alarm
  alarm = (Alarm.alarm_init h).0

  abbrev h1 : Hal nv
  h1 = (Alarm.alarm_init h).1

  abbrev night_day : NightDay.NightDay
  night_day = (NightDay.night_day_time_init h1).0

  abbrev h2 : Hal nv
  h2 = (NightDay.night_day_time_init h1).1

  saved_1 : h1 ≡ Alarm.save_to_nvram alarm h
  unfolding Alarm.alarm_init
  saved_1 = refl

  saved_2 : h2 ≡ NightDay.save_to_nvram night_day h1
  unfolding NightDay.night_day_time_init
  saved_2 = refl

  -- The alarm and the night's times are read, made valid and written back.
  init-Kept :
      (d : Device nv)
      → Holds d.hmac_message_counter h
      → d.hmac_message_counter < 2 ^ 64
      → Kept (record d { alarm = alarm; night_day = night_day; hal = h2 })
  init-Kept d k fits =
      let frame_1 = AlarmMemory.save_to_nvram-frame ok alarm h in
      let frame_2 = NightDayMemory.save_to_nvram-frame ok night_day h1 in
      let v = AlarmMemory.alarm_init-IsValid h in
      let w = NightDayMemory.night_day_time_init-IsValid h1 in
      let s1 = Alarm.save_to_nvram alarm h in
      let s2 = NightDay.save_to_nvram night_day h1 in
      record {
        counter = subst (Holds d.hmac_message_counter) (sym saved_2) (
            Holds-Reads h1 s2 d.hmac_message_counter
              (subst (Holds d.hmac_message_counter) (sym saved_1) (
                Holds-Reads h s1 d.hmac_message_counter k
                  (λ b l m. frame_1 b (omega arith) (inl (omega arith)))))
              (λ b l m. frame_2 b (omega arith) (inl (omega arith))));
        counter_fits = fits;
        alarm = subst (AlarmMemory.Saved alarm) (sym saved_2) (
            alarm-Reads h1 s2 alarm
              (subst (AlarmMemory.Saved alarm) (sym saved_1)
                (AlarmMemory.save_to_nvram-Saved ok alarm h (omega (arith, v.within_day))))
              (λ b l m. frame_2 b (omega arith) (inl (omega arith))));
        alarm_fits = omega (arith, v.within_day);
        night_day = subst (NightDayMemory.Saved night_day) (sym saved_2) (
            NightDayMemory.save_to_nvram-Saved ok night_day h1 (omega (arith, w.night_within))
              (omega (arith, w.day_within)));
      }

  -- Valid values that the memory holds are what is read.
  night_found :
      (t : NightDay.NightDay) → Interval.IsValid t → NightDayMemory.Saved t h → night_day ≡ t
  night_found t v s = NightDayMemory.night_day_time_init-Saved ok t h1 v (
      subst (NightDayMemory.Saved t) (sym saved_1) (
        night_day-Reads h (Alarm.save_to_nvram alarm h) t s (λ b l m.
          AlarmMemory.save_to_nvram-frame ok alarm h b (omega arith) (inr (omega arith)))))

-- `setup` ends, in step with the memory and with valid values, with no alarm sounding; and it has
-- the values that the memory `h` holds.
pub record Restarted {nv : Hal.Nvram} {b : Board} (ok : IsMemory nv) (rs : Rs) (c : rs.Control)
    (h : Hal nv) (boot : Boot nv b rs) : Type 0 where
  pub firmware : Firmware nv b
  pub result : boot ≡ booted c firmware
  pub in_step : InStep ok firmware
  pub alarm_valid : AlarmUpdate.IsValid firmware.device.alarm
  pub night_valid : Interval.IsValid firmware.device.night_day
  pub silent : firmware.alarm_active ≡ 0
  pub counter_found : (n : ℕ) → Holds n h → firmware.device.hmac_message_counter ≡ n
  pub counter_fresh : is_formatted h ≡ false → firmware.device.hmac_message_counter ≡ 1
  pub alarm_found :
      (n : ℕ) (a : Alarm.Alarm)
      → Holds n h
      → AlarmUpdate.IsValid a
      → AlarmMemory.Saved a h
      → firmware.device.alarm ≡ a
  pub night_found :
      (n : ℕ) (t : NightDay.NightDay)
      → Holds n h
      → Interval.IsValid t
      → NightDayMemory.Saved t h
      → firmware.device.night_day ≡ t

Holds-is_formatted : {nv : Hal.Nvram} (n : ℕ) (h : Hal nv) → Holds n h → is_formatted h ≡ true
Holds-is_formatted n h k = ground (arith, k.check_1, k.check_2, k.state)

module _ {nv : Hal.Nvram} {b : Board} (ok : IsMemory nv) (rs : Rs) (c : rs.Control)
    (fw : Firmware nv b) (silent : fw.alarm_active ≡ 0) where
  abbrev found : Booted fw.device.hal
  found = mail_init-Booted ok fw.device.hal

  -- The device once the counter is there, and the firmware then.
  abbrev counted : Firmware nv b
  counted = settle (record (fw.device) { hmac_message_counter = found.counter; hal = found.hal }) fw

  boot_mail-booted : boot_mail rs c fw ≡ booted c (ready counted)
  unfolding boot_mail
  boot_mail-booted = simp (found.result) refl

  -- With the calls carried out, the memory is the same.
  counted-Holds : Holds found.counter counted.device.hal
  unfolding settle carry_out
  counted-Holds =
      Holds-Reads found.hal counted.device.hal found.counter found.holds
        (mem-Reads found.hal counted.device.hal 0 0x13 refl)

  pub boot_mail-Restarted : Restarted ok rs c fw.device.hal (boot_mail rs c fw)
  unfolding ready settle carry_out
  boot_mail-Restarted =
      let same : (n : ℕ) → Holds n fw.device.hal → found.hal ≡ fw.device.hal =
        λ n k. (found.found (Holds-is_formatted n fw.device.hal k)).1 in
      record {
        firmware = ready counted;
        result = boot_mail-booted;
        in_step = init-Kept ok counted.device.hal counted.device counted-Holds found.fits;
        alarm_valid = AlarmMemory.alarm_init-IsValid counted.device.hal;
        night_valid =
            NightDayMemory.night_day_time_init-IsValid (Alarm.alarm_init counted.device.hal).1;
        silent = silent;
        counter_found = λ n k. (found.found (Holds-is_formatted n fw.device.hal k)).0 ∙ k.value;
        counter_fresh = found.fresh;
        alarm_found = λ n a k v s. AlarmMemory.alarm_init-Saved ok a counted.device.hal v (
            alarm-Reads fw.device.hal counted.device.hal a s (
              mem-Reads fw.device.hal counted.device.hal 0x13 0x16
                (ap (λ (x : Hal nv). x.mem) (same n k))));
        night_found = λ n t k v s. night_found ok counted.device.hal t v (
            night_day-Reads fw.device.hal counted.device.hal t s (
              mem-Reads fw.device.hal counted.device.hal 0x16 0x1a
                (ap (λ (x : Hal nv). x.mem) (same n k))));
      }

-- The tests of `setup`, where they pass.
if_running :
    {A : Type 0} (P : A → Type 0) (display rtc runs again : Bool) (a b c d e : A)
    → display ≡ true
    → rtc ≡ true
    → (runs || again) ≡ true
    → P c
    → P d
    → P (
        if not display
        then a
        else if not rtc
        then b
        else if runs
        then c
        else if again
        then d
        else e)
if_running P true true true again a b c d e h k m p q = p
if_running P true true false true a b c d e h k m p q = q
if_running P true true false false a b c d e h k m p q = absurd (ground (arith, m))
if_running P false rtc runs again a b c d e h k m p q = absurd (ground (arith, h))
if_running P true false runs again a b c d e h k m p q = absurd (ground (arith, k))

module _ {nv : Hal.Nvram} {b : Board} (ok : IsMemory nv) (rs : Rs) (c : rs.Control)
    (codec : rs.init_rs symbol_size 0x25 1 1 nroots ≡ some c) where
  pub boot_codec-boot_mail :
      (fw : Firmware nv b) → boot_codec rs fw ≡ boot_mail rs c (settle fw.device fw)
  unfolding boot_codec with_codec
  boot_codec-boot_mail fw =
      ap
        (λ (r : Option rs.Control × Hal nv).
          with_codec rs r.0 (settle (record (fw.device) { hal = r.1 }) fw))
        (ncrs_init-some rs c fw.device.hal codec)

  boot_codec-Restarted :
      (fw : Firmware nv b)
      → fw.alarm_active ≡ 0
      → Restarted ok rs c (record { mem = fw.device.hal.mem; out = [] }) (boot_codec rs fw)
  unfolding settle carry_out
  boot_codec-Restarted fw silent =
      subst (Restarted ok rs c (record { mem = fw.device.hal.mem; out = [] }))
        (sym (boot_codec-boot_mail fw)) (boot_mail-Restarted ok rs c (settle fw.device fw) silent)

  -- Power on.
  pub setup-Restarted :
      (i : BootInputs b) (mem : nv.Mem) (lights : b.Lights)
      → i.display_begins ≡ true
      → i.rtc_begins ≡ true
      → (i.rtc_runs || i.rtc_runs_again) ≡ true
      → Restarted ok rs c (record { mem = mem; out = [] }) (setup rs i (power_on b mem lights))
  unfolding setup started power_on
  setup-Restarted i mem lights display rtc runs =
      if_running (Restarted ok rs c (record { mem = mem; out = [] })) i.display_begins i.rtc_begins
        i.rtc_runs i.rtc_runs_again _ _ _ _ _ display rtc runs (boot_codec-Restarted _ refl)
        (boot_codec-Restarted _ refl)
