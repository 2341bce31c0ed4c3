-- ===== src/Mail/Counter.antt =====
-- The counter in the battery-backed memory: two slots, and a state byte that says which one holds.
use cpeclock.Base.{
  ℕ, zero, suc, ◌+◌, ◌^◌, ◌<◌, ◌≤◌, ◌≡◌, ◌⊎◌, inl, ◌∙◌, refl, sym, ap, ap₂, arith, List, [], ◌∷◌,
  ◌++◌, true, some, length, take, All, IsBytes, bit_xor,
}
use cpeclock.Hal
use cpeclock.Hal.{
  Hal, IsMemory, nvram_size, nvram_read, nvram_write, nvram_read-nvram_write, nvram_read-IsByte,
}
use cpeclock.Hal.Writes.{write_all, stored, Fits, nvram_read-write_all, write_all-append}
use cpeclock.Hmac.{le_bytes}
use cpeclock.Mail.{of_le_bytes, slot, write_bytes, read_bytes, save_counter, mail_init}

-- The memory is formatted, and the slot in use holds the counter.
pub record Holds {nv : Hal.Nvram} (counter : ℕ) (h : Hal nv) : Type 0 where
  pub check_1 : nvram_read Hal.nvram_check_byte_1_addr h ≡ Hal.check_byte_1_value
  pub check_2 : nvram_read Hal.nvram_check_byte_2_addr h ≡ Hal.check_byte_2_value
  pub state : nvram_read Hal.nvram_state_addr h ≤ 1
  pub value : of_le_bytes (read_bytes 8 (slot (nvram_read Hal.nvram_state_addr h)) h) ≡ counter

-- Booting from such a memory gives the counter, and writes nothing.
pub mail_init-Holds :
    {nv : Hal.Nvram} (counter : ℕ) (h : Hal nv)
    → Holds counter h
    → mail_init h ≡ (true, some counter, h)
unfolding mail_init
mail_init-Holds counter h k = ground (arith, k.check_1, k.check_2, k.state, k.value)

abbrev pub byte_writes : ℕ → List ℕ → List (ℕ × ℕ)
byte_writes addr [] = []
byte_writes addr (b ∷ bs) = (addr, b) ∷ byte_writes (addr + 1) bs

-- The writes of `save_counter` in their order, from the state byte as it was.
abbrev pub counter_writes : ℕ → ℕ → List (ℕ × ℕ)
counter_writes state counter =
    byte_writes (slot (bit_xor state 1)) (le_bytes 8 counter)
    ++ ((Hal.nvram_state_addr, bit_xor state 1) ∷ [])

write_bytes-write_all :
    {nv : Hal.Nvram} (addr : ℕ) (bs : List ℕ) (h : Hal nv)
    → write_bytes addr bs h ≡ write_all (byte_writes addr bs) h
unfolding write_bytes
write_bytes-write_all addr [] h = refl
write_bytes-write_all addr (b ∷ bs) h = write_bytes-write_all (addr + 1) bs (nvram_write addr b h)

pub save_counter-write_all :
    {nv : Hal.Nvram} (counter : ℕ) (h : Hal nv)
    → save_counter counter h
      ≡ write_all (counter_writes (nvram_read Hal.nvram_state_addr h) counter) h
unfolding save_counter
save_counter-write_all counter h =
    let s = bit_xor (nvram_read Hal.nvram_state_addr h) 1 in
    ap (nvram_write Hal.nvram_state_addr s) (write_bytes-write_all (slot s) (le_bytes 8 counter) h)
    ∙ sym (
        write_all-append (byte_writes (slot s) (le_bytes 8 counter))
          ((Hal.nvram_state_addr, s) ∷ []) h)

pub of_le_bytes-le_bytes : (x : ℕ) → x < 2 ^ 64 → of_le_bytes (le_bytes 8 x) ≡ x
unfolding of_le_bytes le_bytes
of_le_bytes-le_bytes x h = omega arith

-- Writes to other addresses.
abbrev pub Within : ℕ → ℕ → List (ℕ × ℕ) → Type 0
Within lo hi = All (λ w. (lo ≤ w.0) × (w.0 < hi))

stored_other :
    (b lo hi : ℕ) (ws : List (ℕ × ℕ)) (old : ℕ)
    → Within lo hi ws
    → (b < lo) ⊎ (hi ≤ b)
    → stored b ws old ≡ old
stored_other b lo hi [] old w o = refl
stored_other b lo hi ((a, d) ∷ ws) old (p, w) o = ground (arith, stored_other b lo hi ws old w o)

Within-Fits : (lo hi : ℕ) (ws : List (ℕ × ℕ)) → hi ≤ nvram_size → Within lo hi ws → Fits ws
Within-Fits lo hi [] h w = tt
Within-Fits lo hi ((a, d) ∷ ws) h (p, w) = (omega arith, Within-Fits lo hi ws h w)

pub byte_writes-Within :
    (lo addr hi : ℕ) (bs : List ℕ)
    → lo ≤ addr
    → addr + length bs ≤ hi
    → Within lo hi (byte_writes addr bs)
byte_writes-Within lo addr hi [] h l = tt
byte_writes-Within lo addr hi (b ∷ bs) h l =
    (omega arith, byte_writes-Within lo (addr + 1) hi bs (omega arith) (omega arith))

pub take-Within : (lo hi n : ℕ) (ws : List (ℕ × ℕ)) → Within lo hi ws → Within lo hi (take n ws)
take-Within lo hi zero ws w = tt
take-Within lo hi (suc n) [] w = tt
take-Within lo hi (suc n) (x ∷ ws) (p, w) = (p, take-Within lo hi n ws w)

pub read_bytes-eq :
    {nv : Hal.Nvram} (n addr : ℕ) (h h' : Hal nv)
    → ((b : ℕ) → addr ≤ b → b < addr + n → nvram_read b h ≡ nvram_read b h')
    → read_bytes n addr h ≡ read_bytes n addr h'
unfolding read_bytes
read_bytes-eq zero addr h h' e = refl
read_bytes-eq (suc n) addr h h' e =
    ap₂ ◌∷◌ (e addr (omega arith) (omega arith))
      (read_bytes-eq n (addr + 1) h h' (λ b l m. e b (omega arith) (omega arith)))

module _ {nv : Hal.Nvram} (ok : IsMemory nv) where
  pub read_other :
      (lo hi : ℕ) (ws : List (ℕ × ℕ)) (b : ℕ) (h : Hal nv)
      → Within lo hi ws
      → hi ≤ nvram_size
      → b < nvram_size
      → (b < lo) ⊎ (hi ≤ b)
      → nvram_read b (write_all ws h) ≡ nvram_read b h
  read_other lo hi ws b h w f l o =
      nvram_read-write_all ok ws b h (Within-Fits lo hi ws f w) l ∙ stored_other b lo hi ws _ w o

  -- Bytes that were written are read back.
  pub read_bytes-write_all :
      (addr : ℕ) (bs : List ℕ) (h : Hal nv)
      → IsBytes bs
      → addr + length bs ≤ nvram_size
      → read_bytes (length bs) addr (write_all (byte_writes addr bs) h) ≡ bs
  unfolding read_bytes
  read_bytes-write_all addr [] h b l = refl
  read_bytes-write_all addr (x ∷ bs) h (p, b) l =
      ap₂ ◌∷◌ first (read_bytes-write_all (addr + 1) bs (nvram_write addr x h) b (omega arith))
    where
      first : nvram_read addr (write_all (byte_writes addr (x ∷ bs)) h) ≡ x
      first =
          read_other (addr + 1) nvram_size (byte_writes (addr + 1) bs) addr (nvram_write addr x h)
            (byte_writes-Within (addr + 1) (addr + 1) nvram_size bs (omega arith) (omega arith))
            (omega arith) (omega arith) (inl (omega arith))
          ∙ ground (arith, nvram_read-nvram_write ok addr addr x h)
