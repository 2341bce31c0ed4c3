-- ===== src/Hal/Writes.antt =====
-- Several writes to the battery-backed memory in order, and what a read finds after them.
use cpeclock.Base.{ℕ, ◌<◌, ◌≡◌, refl, arith, List, [], ◌∷◌, ◌++◌, All, ◌==◌, if◌then◌else◌, u8}
use cpeclock.Hal.{Hal, Nvram, IsMemory, nvram_size, nvram_read, nvram_write, nvram_read-nvram_write}

abbrev pub write_all : {nv : Nvram} → List (ℕ × ℕ) → Hal nv → Hal nv
write_all [] h = h
write_all ((a, d) ∷ ws) h = write_all ws (nvram_write a d h)

-- The byte at `b` after the writes, if it was `old` before.
abbrev pub stored : ℕ → List (ℕ × ℕ) → ℕ → ℕ
stored b [] old = old
stored b ((a, d) ∷ ws) old = stored b ws (if a == b then u8 d else old)

abbrev pub Fits : List (ℕ × ℕ) → Type 0
Fits = All (λ w. w.0 < nvram_size)

pub nvram_read-write_all :
    {nv : Nvram} (ok : IsMemory nv) (ws : List (ℕ × ℕ)) (b : ℕ) (h : Hal nv)
    → Fits ws
    → b < nvram_size
    → nvram_read b (write_all ws h) ≡ stored b ws (nvram_read b h)
nvram_read-write_all ok [] b h f l = refl
nvram_read-write_all ok ((a, d) ∷ ws) b h (p, f) l = ground (
  arith,
  nvram_read-write_all ok ws b (nvram_write a d h) f l,
  nvram_read-nvram_write ok a b d h p l,
)

pub write_all-append :
    {nv : Nvram} (xs ys : List (ℕ × ℕ)) (h : Hal nv)
    → write_all (xs ++ ys) h ≡ write_all ys (write_all xs h)
write_all-append [] ys h = refl
write_all-append ((a, d) ∷ xs) ys h = write_all-append xs ys (nvram_write a d h)
