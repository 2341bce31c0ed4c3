-- ===== src/Mail/Boot.antt =====
-- Saving the counter and booting again, also when the power fails in between.
use cpeclock.Base.{
  ℕ, zero, suc, ◌+◌, ◌^◌, ◌<◌, ◌≤◌, ◌≡◌, ◌⊎◌, inl, inr, ◌∙◌, refl, sym, ap, subst, arith, List, [],
  ◌∷◌, ◌++◌, true, false, some, ◌==◌, ltb, if◌then◌else◌, length, take, All, bit_xor, u8,
}
use cpeclock.Hal
use cpeclock.Hal.{
  Hal, IsMemory, nvram_size, nvram_read, nvram_write, nvram_read-nvram_write, nvram_read-IsByte,
  display_message,
}
use cpeclock.Hal.Writes.{write_all, write_all-append}
use cpeclock.Hal.Failing.{with_power_failure, with_power_failure-write_all}
use native.Mathlib.Decide.{dec_le}
use cpeclock.Base.{length-append}
use cpeclock.Hmac.{le_bytes}
use cpeclock.Hmac.Standard.{le_bytes-IsBytes}
use cpeclock.Mail.{of_le_bytes, slot, read_bytes, save_counter, mail_init}
use cpeclock.Mail.Counter.{
  Holds, mail_init-Holds, byte_writes, counter_writes, save_counter-write_all, of_le_bytes-le_bytes,
  byte_writes-Within, take-Within, read_bytes-eq, read_other, read_bytes-write_all,
}

pub slots :
    (s : ℕ)
    → s ≤ 1
    → ((slot s + 8 ≤ slot (bit_xor s 1)) ⊎ (slot (bit_xor s 1) + 8 ≤ slot s))
      × (slot (bit_xor s 1) + 8 ≤ 16)
      × (slot s + 8 ≤ 16)
      × (bit_xor s 1 ≤ 1)
slots zero h = (inl (omega arith), omega arith, omega arith, omega arith)
slots (suc zero) h = (inr (omega arith), omega arith, omega arith, omega arith)
slots (suc (suc s)) h = absurd (omega arith)

pub take-append_short {ℓ} :
    {A : Type ℓ} (n : ℕ) (xs ys : List A) → n ≤ length xs → take n (xs ++ ys) ≡ take n xs
take-append_short zero xs ys h = refl
take-append_short (suc n) [] ys h = absurd (omega arith)
take-append_short (suc n) (x ∷ xs) ys h = ap (λ t. x ∷ t) (take-append_short n xs ys (omega arith))

pub take_all {ℓ} : {A : Type ℓ} (n : ℕ) (xs : List A) → length xs ≤ n → take n xs ≡ xs
take_all zero [] h = refl
take_all zero (x ∷ xs) h = absurd (omega arith)
take_all (suc n) [] h = refl
take_all (suc n) (x ∷ xs) h = ap (λ t. x ∷ t) (take_all n xs (omega arith))

length-byte_writes : (addr : ℕ) (bs : List ℕ) → length (byte_writes addr bs) ≡ length bs
length-byte_writes addr [] = refl
length-byte_writes addr (b ∷ bs) = ap suc (length-byte_writes (addr + 1) bs)

pub length-le_bytes : (x : ℕ) → length (le_bytes 8 x) ≡ 8
unfolding le_bytes
length-le_bytes x = refl

module _ {nv : Hal.Nvram} (ok : IsMemory nv) (h : Hal nv) where
  abbrev state : ℕ
  state = nvram_read Hal.nvram_state_addr h

  abbrev other : ℕ
  other = slot (bit_xor state 1)

  -- The bytes of the new counter do not touch what is in use.
  keeps_old :
      (old : ℕ) (ws : List (ℕ × ℕ))
      → Holds old h
      → All (λ w. (other ≤ w.0) × (w.0 < other + 8)) ws
      → Holds old (write_all ws h)
  keeps_old old ws k w =
      let (apart, low, low', _) = slots state k.state in
      let read : (b : ℕ)
          → b < nvram_size
          → (b < other) ⊎ (other + 8 ≤ b)
          → nvram_read b (write_all ws h) ≡ nvram_read b h =
        λ b l o. read_other ok other (other + 8) ws b h w (omega arith) l o in
      let same = read Hal.nvram_state_addr (omega arith) (inr (omega arith)) in
      record {
        check_1 = read Hal.nvram_check_byte_1_addr (omega arith) (inr (omega arith)) ∙ k.check_1;
        check_2 = read Hal.nvram_check_byte_2_addr (omega arith) (inr (omega arith)) ∙ k.check_2;
        state = omega (arith, same, k.state);
        value =
            ap (λ s. of_le_bytes (read_bytes 8 (slot s) (write_all ws h))) same
            ∙ ap of_le_bytes (
                read_bytes-eq 8 (slot state) (write_all ws h) h
                  (λ b l m. read b (omega arith) (omega arith)))
            ∙ k.value;
      }

  abbrev bytes_written : ℕ → Hal nv
  bytes_written counter = write_all (byte_writes other (le_bytes 8 counter)) h

  -- With the state byte written too, the new counter is in use.
  counter_written-Holds :
      (old counter : ℕ)
      → counter < 2 ^ 64
      → Holds old h
      → Holds counter (nvram_write Hal.nvram_state_addr (bit_xor state 1) (bytes_written counter))
  unfolding read_bytes of_le_bytes le_bytes
  counter_written-Holds old counter c k =
      let (apart, low, low', bit) = slots state k.state in
      let w =
        byte_writes-Within other other (other + 8) (le_bytes 8 counter) (omega arith)
          (omega (arith, length-le_bytes counter)) in
      let kept = keeps_old old (byte_writes other (le_bytes 8 counter)) k w in
      let read : (b : ℕ)
          → b < nvram_size
          → nvram_read b
              (nvram_write Hal.nvram_state_addr (bit_xor state 1) (bytes_written counter))
            ≡ (if Hal.nvram_state_addr == b
                then u8 (bit_xor state 1)
                else nvram_read b (bytes_written counter)) =
        λ b l.
          nvram_read-nvram_write ok Hal.nvram_state_addr b (bit_xor state 1) (bytes_written counter)
            (omega arith) l in
      let now : nvram_read Hal.nvram_state_addr
            (nvram_write Hal.nvram_state_addr (bit_xor state 1) (bytes_written counter))
          ≡ bit_xor state 1 =
        read Hal.nvram_state_addr (omega arith) ∙ omega arith in
      record {
        check_1 = read Hal.nvram_check_byte_1_addr (omega arith) ∙ kept.check_1;
        check_2 = read Hal.nvram_check_byte_2_addr (omega arith) ∙ kept.check_2;
        state = omega (arith, now, bit);
        value =
            ap
              (λ s. of_le_bytes (
                read_bytes 8 (slot s)
                  (nvram_write Hal.nvram_state_addr (bit_xor state 1) (bytes_written counter))))
              now
            ∙ ap of_le_bytes
                (read_bytes-eq 8 other _ (bytes_written counter) (λ b l m. ground (arith, read b)))
            ∙ ap of_le_bytes (
                read_bytes-write_all ok other (le_bytes 8 counter) h (le_bytes-IsBytes 8 counter)
                  (omega (arith, length-le_bytes counter)))
            ∙ of_le_bytes-le_bytes counter c;
      }

module _ {nv : Hal.Nvram} (ok : IsMemory nv) (h : Hal nv) (old counter : ℕ)
    (fits : counter < 2 ^ 64) (k : Holds old h) where
  pub save_counter-Holds : Holds counter (save_counter counter h)
  save_counter-Holds = subst (Holds counter) (sym (save_counter-write_all counter h)) (
      subst (Holds counter)
        (sym (write_all-append (byte_writes (other ok h) (le_bytes 8 counter)) _ h))
        (counter_written-Holds ok h old counter fits k))

  -- In a memory that holds a counter and keeps what is written, saving another counter of 64 bits
  -- and booting gives the new one, and the boot writes nothing.
  pub mail_init-save_counter :
      mail_init (save_counter counter h) ≡ (true, some counter, save_counter counter h)
  mail_init-save_counter = mail_init-Holds counter (save_counter counter h) save_counter-Holds

  abbrev writes : List (ℕ × ℕ)
  writes = counter_writes (nvram_read Hal.nvram_state_addr h) counter

  -- The writes before the failure.
  power_failure-write_all :
      (n : ℕ) → with_power_failure n (save_counter counter) h ≡ write_all (take n writes) h
  unfolding nvram_read
  power_failure-write_all n =
      ap (λ t. record { mem = t.mem.0; out = t.out })
        (save_counter-write_all counter (record { mem = (h.mem, n); out = h.out }))
      ∙ with_power_failure-write_all n _ h

  -- In a memory that holds a counter, `save_counter` runs for a new counter of 64 bits, and the
  -- power fails after any number of its writes: those before are made, and those after are lost. A
  -- boot from what is then in the memory succeeds and writes nothing. It finds the old counter if
  -- the power failed before the ninth write, and the new one otherwise, never a mixture. The memory
  -- keeps what is written.
  pub power_failure :
      (n : ℕ)
      → let h' = with_power_failure n (save_counter counter) h in
        mail_init h' ≡ (true, some (if ltb n 9 then old else counter), h')
  power_failure n =
      mail_init-Holds (if ltb n 9 then old else counter) _
        (subst (Holds (if ltb n 9 then old else counter)) (sym (power_failure-write_all n)) found)
    where
      size : length (byte_writes (other ok h) (le_bytes 8 counter)) ≡ 8
      size = length-byte_writes _ (le_bytes 8 counter) ∙ length-le_bytes counter

      partial : n ≤ 8 → Holds old (write_all (take n writes) h)
      partial few =
          rw
            (take-append_short n (byte_writes (other ok h) (le_bytes 8 counter))
              ((Hal.nvram_state_addr, bit_xor (state ok h) 1) ∷ []) (omega (arith, size)))
            (keeps_old ok h old _ k (
              take-Within _ _ n _ (
                byte_writes-Within _ _ _ (le_bytes 8 counter) (omega arith)
                  (omega (arith, length-le_bytes counter)))))

      whole : ¬ (n ≤ 8) → Holds counter (write_all (take n writes) h)
      whole all =
          rw
            (take_all n writes (
              omega (
                arith,
                size,
                length-append {0} (byte_writes (other ok h) (le_bytes 8 counter))
                    ((Hal.nvram_state_addr, bit_xor (state ok h) 1) ∷ []),
              )))
            (subst (Holds counter)
              (sym (write_all-append (byte_writes (other ok h) (le_bytes 8 counter)) _ h))
              (counter_written-Holds ok h old counter fits k))

      found : Holds (if ltb n 9 then old else counter) (write_all (take n writes) h)
      found = elim (dec_le n 8) [
        | yes few ↦ let before : ltb n 9 ≡ true = ground (arith, few) in rw before (partial few)
        | no all ↦ let after : ltb n 9 ≡ false = ground (arith, all) in rw after (whole all)
      ]
