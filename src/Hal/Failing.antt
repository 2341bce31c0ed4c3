-- ===== src/Hal/Failing.antt =====
-- The battery-backed memory when the power fails: the writes before the failure are made, and those
-- after it are lost.
use cpeclock.Base.{ℕ, zero, suc, ◌≡◌, refl, List, [], ◌∷◌, take}
use cpeclock.Hal.{Hal, Nvram, nvram_write}
use cpeclock.Hal.Writes.{write_all}

-- A write with so many writes left before the failure.
abbrev written : (nv : Nvram) → nv.Mem → ℕ → ℕ → ℕ → nv.Mem × ℕ
written nv m a d zero = (m, zero)
written nv m a d (suc left) = (nv.writenvram m a d, left)

abbrev pub failing : Nvram → Nvram
failing nv = record {
  Mem = nv.Mem × ℕ;
  readnvram = λ m a. nv.readnvram m.0 a;
  writenvram = λ m a d. written nv m.0 a d m.1;
}

-- What is left in the memory by code that ran when the power failed after `n` writes.
abbrev pub with_power_failure :
    {nv : Nvram} → ℕ → (Hal (failing nv) → Hal (failing nv)) → Hal nv → Hal nv
with_power_failure n code h =
    let h' = code (record { mem = (h.mem, n); out = h.out }) in
    record { mem = h'.mem.0; out = h'.out }

pub with_power_failure-write_all :
    {nv : Nvram} (n : ℕ) (ws : List (ℕ × ℕ)) (h : Hal nv)
    → with_power_failure n (write_all ws) h ≡ write_all (take n ws) h
unfolding nvram_write
with_power_failure-write_all zero [] h = refl
with_power_failure-write_all (suc n) [] h = refl
with_power_failure-write_all zero (w ∷ ws) h = with_power_failure-write_all zero ws h
with_power_failure-write_all (suc n) ((a, d) ∷ ws) h =
    with_power_failure-write_all n ws (nvram_write a d h)
