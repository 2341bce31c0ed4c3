-- ===== src/Mail/Format.antt =====
-- `mail_init` on a memory with any content.
use cpeclock.Base.{
  ℕ, zero, suc, ◌+◌, ◌^◌, ◌<◌, ◌≡◌, inl, inr, refl, arith, Bool, true, false, not, ◌&&◌, ◌||◌, some,
  ltb, ◌==◌, if◌then◌else◌, Bool-cases,
}
use cpeclock.Base.Text.{codes}
use cpeclock.Hal
use cpeclock.Hal.{
  Hal, IsMemory, nvram_size, nvram_read, nvram_write, nvram_read-nvram_write, nvram_read-IsByte,
  display_message,
}
use native.Mathlib.Nat.{pow-suc}
use cpeclock.Mail.{
  of_le_bytes, slot, read_bytes, save_counter, mail_init, check_bytes_hold, reformat,
}
use cpeclock.Mail.Boot.{save_counter-Holds}
use cpeclock.Mail.Counter.{Holds, mail_init-Holds}
use cpeclock.Mail.Receive.{Holds-Reads, mem-Reads}

-- The test of `mail_init` passes: the memory has been formatted.
abbrev pub is_formatted : {nv : Hal.Nvram} → Hal nv → Bool
is_formatted h = check_bytes_hold h && not (ltb 1 (nvram_read Hal.nvram_state_addr h))

-- What the slot in use holds.
abbrev pub counter_in : {nv : Hal.Nvram} → Hal nv → ℕ
counter_in h = of_le_bytes (read_bytes 8 (slot (nvram_read Hal.nvram_state_addr h)) h)

of_le_bytes_lt :
    {nv : Hal.Nvram} (n addr : ℕ) (h : Hal nv) → of_le_bytes (read_bytes n addr h) < 256 ^ n
unfolding of_le_bytes read_bytes
of_le_bytes_lt zero addr h = omega arith
of_le_bytes_lt (suc n) addr h =
    omega (arith, pow-suc 256 n, nvram_read-IsByte addr h, of_le_bytes_lt n (addr + 1) h)

Holds-counter_in : {nv : Hal.Nvram} (h : Hal nv) → is_formatted h ≡ true → Holds (counter_in h) h
Holds-counter_in h f = record {
  check_1 = ground (arith, f);
  check_2 = ground (arith, f);
  state = ground (arith, f);
  value = refl;
}

module _ {nv : Hal.Nvram} (ok : IsMemory nv) (h : Hal nv) where
  reformat-read :
      (a : ℕ)
      → a < nvram_size
      → nvram_read a (reformat h) ≡ (
          if Hal.nvram_state_addr == a
          then 0
          else if Hal.nvram_check_byte_2_addr == a
          then Hal.check_byte_2_value
          else if Hal.nvram_check_byte_1_addr == a
          then Hal.check_byte_1_value
          else nvram_read a h)
  unfolding reformat
  reformat-read a l =
      let h1 = nvram_write Hal.nvram_check_byte_1_addr Hal.check_byte_1_value h in
      let h2 = nvram_write Hal.nvram_check_byte_2_addr Hal.check_byte_2_value h1 in
      ground (
        arith,
        nvram_read-nvram_write ok Hal.nvram_state_addr a 0 h2,
        nvram_read-nvram_write ok Hal.nvram_check_byte_2_addr a Hal.check_byte_2_value h1,
        nvram_read-nvram_write ok Hal.nvram_check_byte_1_addr a Hal.check_byte_1_value h,
      )

  reformat-Holds : Holds (counter_in (reformat h)) (reformat h)
  reformat-Holds = record {
    check_1 = reformat-read Hal.nvram_check_byte_1_addr (omega arith);
    check_2 = reformat-read Hal.nvram_check_byte_2_addr (omega arith);
    state = omega (arith, reformat-read Hal.nvram_state_addr (omega arith));
    value = refl;
  }

-- A boot that finds a counter in the memory or starts with 1.
pub record Booted {nv : Hal.Nvram} (h : Hal nv) : Type 0 where
  pub counter : ℕ
  pub hal : Hal nv
  pub result : mail_init h ≡ (true, some counter, hal)
  pub holds : Holds counter hal
  pub fits : counter < 2 ^ 64
  pub found : is_formatted h ≡ true → (counter ≡ counter_in h) × (hal ≡ h)
  pub fresh : is_formatted h ≡ false → counter ≡ 1

module _ {nv : Hal.Nvram} (ok : IsMemory nv) (h : Hal nv) where
  abbrev saved : Hal nv
  saved = save_counter 1 (reformat h)

  saved-Holds : Holds 1 (display_message (codes "NVRAM INIT") saved)
  unfolding display_message
  saved-Holds =
      let k =
        save_counter-Holds ok (reformat h) (counter_in (reformat h)) 1 (omega arith)
          (reformat-Holds ok h) in
      Holds-Reads saved (display_message (codes "NVRAM INIT") saved) 1 k
        (mem-Reads saved _ 0 0x13 refl)

  mail_init-fresh :
      is_formatted h ≡ false
      → mail_init h ≡ (true, some 1, display_message (codes "NVRAM INIT") saved)
  unfolding mail_init
  mail_init-fresh f =
      let holds : check_bytes_hold (reformat h) ≡ true =
        ground (arith, (reformat-Holds ok h).check_1, (reformat-Holds ok h).check_2) in
      let garbage : (not (check_bytes_hold h) || ltb 1 (nvram_read Hal.nvram_state_addr h)) ≡ true =
        ground (arith, f) in
      simp (holds, garbage) refl

  -- With a memory that keeps what is written, `mail_init` succeeds whatever is in it.
  pub mail_init-Booted : Booted h
  mail_init-Booted = elim (Bool-cases (is_formatted h)) [
    | inl f ↦
        let k = Holds-counter_in h f in
        record {
          counter = counter_in h;
          hal = h;
          result = mail_init-Holds (counter_in h) h k;
          holds = k;
          fits = of_le_bytes_lt 8 _ h;
          found = λ y. (refl, refl);
          fresh = λ y. absurd (ground (arith, f, y));
        }
    | inr f ↦ record {
      counter = 1;
      hal = display_message (codes "NVRAM INIT") saved;
      result = mail_init-fresh f;
      holds = saved-Holds;
      fits = omega arith;
      found = λ y. absurd (ground (arith, f, y));
      fresh = λ y. refl;
    }
  ]
