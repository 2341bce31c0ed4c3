-- ===== src/Firmware/Halts.antt =====
-- The errors of `setup`.
use cpeclock.Base.{
  ◌≡◌, ◌∙◌, refl, sym, subst, ap, Bool, true, false, not, ◌||◌, Option, some, none, if◌then◌else◌,
}
use cpeclock.Base.Text.{codes}
use cpeclock.Board.{Board}
use cpeclock.Hal
use cpeclock.Hal.{Hal, IsMemory, display_message}
use cpeclock.Ncrs.{Rs, ncrs_init, symbol_size, nroots}
use cpeclock.Firmware.{Firmware, carry_out, settle}
use cpeclock.Firmware.Setup.{
  BootInputs, Boot, booted, halted, Reason, no_display, no_rtc, rtc_stopped, no_codec, setup,
  boot_codec, with_codec, power_on, started,
}
use cpeclock.Firmware.Startup.{boot_mail-Restarted, boot_codec-boot_mail}

abbrev pub no_control : {A : Type 0} → Option A → Option Reason
no_control none = some no_codec
no_control (some c) = none

-- The first thing that is missing, if any.
abbrev pub missing : {b : Board} (rs : Rs) → BootInputs b → Option Reason
missing rs i =
    if not i.display_begins
    then some no_display
    else if not i.rtc_begins
    then some no_rtc
    else if not (i.rtc_runs || i.rtc_runs_again)
    then some rtc_stopped
    else no_control (rs.init_rs symbol_size 0x25 1 1 nroots)

-- `setup` halts for the reason given, with the memory as it was, or ends.
pub data Outcome {nv : Hal.Nvram} {b : Board} {rs : Rs} (mem : nv.Mem)
    : Option Reason → Boot nv b rs → Type 0 where
  halts :
      (why : Reason) (fw : Firmware nv b)
      → fw.device.hal.mem ≡ mem
      → Outcome mem (some why) (halted why fw)
  ends : (c : rs.Control) (fw : Firmware nv b) → Outcome mem none (booted c fw)

-- The tests of `setup`.
if_missing :
    {A : Type 0} (P : Option Reason → A → Type 0) (display rtc runs again : Bool)
    (codec : Option Reason) (a b c d e : A)
    → P (some no_display) a
    → P (some no_rtc) b
    → P codec c
    → P codec d
    → P (some rtc_stopped) e
    → P
        (if not display
          then some no_display
          else if not rtc
          then some no_rtc
          else if not (runs || again)
          then some rtc_stopped
          else codec)
        (if not display
          then a
          else if not rtc
          then b
          else if runs
          then c
          else if again
          then d
          else e)
if_missing P false rtc runs again codec a b c d e p q r s t = p
if_missing P true false runs again codec a b c d e p q r s t = q
if_missing P true true true again codec a b c d e p q r s t = r
if_missing P true true false true codec a b c d e p q r s t = s
if_missing P true true false false codec a b c d e p q r s t = t

abbrev broken : {nv : Hal.Nvram} → Hal nv → Hal nv
broken h = display_message (codes "RS INIT ERROR") h

ncrs_init-none :
    {nv : Hal.Nvram} (rs : Rs) (h : Hal nv)
    → rs.init_rs symbol_size 0x25 1 1 nroots ≡ none
    → ncrs_init rs h ≡ (none, broken h)
unfolding ncrs_init
ncrs_init-none rs h e = rw (e, ncrs_init) refl

module _ {nv : Hal.Nvram} {b : Board} (ok : IsMemory nv) (rs : Rs) where
  boot_codec-Outcome :
      (control : Option rs.Control) (fw : Firmware nv b)
      → rs.init_rs symbol_size 0x25 1 1 nroots ≡ control
      → fw.alarm_active ≡ 0
      → Outcome fw.device.hal.mem (no_control control) (boot_codec rs fw)
  unfolding boot_codec with_codec settle carry_out display_message
  boot_codec-Outcome none fw e silent =
      subst (Outcome fw.device.hal.mem (some no_codec))
        (sym (
          ap
            (λ (r : Option rs.Control × Hal nv).
              with_codec rs r.0 (settle (record (fw.device) { hal = r.1 }) fw))
            (ncrs_init-none rs fw.device.hal e)))
        (halts no_codec _ refl)
  boot_codec-Outcome (some c) fw e silent =
      let boot = boot_mail-Restarted ok rs c (settle fw.device fw) silent in
      subst (Outcome fw.device.hal.mem none) (sym (boot_codec-boot_mail ok rs c e fw ∙ boot.result))
        (ends c boot.firmware)

  -- With a memory that keeps what is written, `setup` stays for ever exactly when the display, the
  -- clock or the codec does not start, for the first of these that is missing, and the memory is
  -- then as it was; else it ends, whatever the memory holds. An attempt to start a clock that has
  -- stopped counts.
  pub setup-Outcome :
      (i : BootInputs b) (mem : nv.Mem) (lights : b.Lights)
      → Outcome {nv = nv} mem (missing rs i) (setup rs i (power_on b mem lights))
  unfolding setup power_on started carry_out
  setup-Outcome i mem lights =
      if_missing (Outcome {nv = nv} mem) i.display_begins i.rtc_begins i.rtc_runs i.rtc_runs_again
        (no_control (rs.init_rs symbol_size 0x25 1 1 nroots)) _ _ _ _ _ (halts no_display _ refl)
        (halts no_rtc _ refl) (boot_codec-Outcome _ _ refl refl) (boot_codec-Outcome _ _ refl refl)
        (halts rtc_stopped _ refl)
