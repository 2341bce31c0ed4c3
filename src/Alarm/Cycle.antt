-- ===== src/Alarm/Cycle.antt =====
-- The alarm over many calls of `alarm_update`, as `loop` in cpeclock.ino makes them.
use cpeclock.Base.{
  ℕ, ◌+◌, ◌*◌, ◌≡◌, ◌≢◌, refl, arith, List, [], ◌∷◌, ◌++◌, map, length, replicate, All, u16,
}
use cpeclock.Hal
use cpeclock.Hal.{Hal}
use cpeclock.Alarm.{
  State, disabled, enabled, active, reset, Alarm, now, in_active_region, alarm_update, alarm_set,
  alarm_unset,
}

-- The results of one call for each time, and the state after the last.
module _ {nv : Hal.Nvram} where
  pub run : List (ℕ × ℕ) → Alarm → Hal nv → List ℕ × Alarm × Hal nv
  run [] a h = ([], a, h)
  run ((hour, minute) ∷ ts) a h =
      let (r, a', h') = alarm_update hour minute a h in
      let (rs, a'', h'') = run ts a' h' in (r ∷ rs, a'', h'')

abbrev pub position : ℕ → ℕ × ℕ → ℕ
position time (hour, minute) =
    in_active_region (record { time = time; state = active }) (now hour minute)

abbrev pub Inside : ℕ → ℕ × ℕ → Type 0
Inside time t = position time t ≢ 0

abbrev pub Outside : ℕ → ℕ × ℕ → Type 0
Outside time t = position time t ≡ 0

abbrev pub at : ℕ → State → Alarm
at time state = record { time = time; state = state }

-- What a run returns and leaves, whatever the board's state was.
abbrev pub Gives : {nv : Hal.Nvram} → List ℕ → Alarm → List ℕ × Alarm × Hal nv → Type 0
Gives rs a (rs', a', h) = (rs' ≡ rs) × (a' ≡ a)

run-append :
    {nv : Hal.Nvram} (xs ys : List (ℕ × ℕ)) (rs rs' : List ℕ) (a b c : Alarm) (h : Hal nv)
    → Gives rs b (run xs a h)
    → ((h' : Hal nv) → Gives rs' c (run ys b h'))
    → Gives (rs ++ rs') c (run (xs ++ ys) a h)
unfolding run
run-append [] ys [] rs' a b c h g k = ground (arith, k h)
run-append [] ys (r ∷ rs) rs' a b c h g k = cc
run-append (x ∷ xs) ys [] rs' a b c h g k = cc
run-append (x ∷ xs) ys (r ∷ rs) rs' a b c h g k =
    let (r', a', h') = alarm_update x.0 x.1 a h in
    ground (arith, run-append xs ys rs rs' a' b c h' (ground arith) k)

module _ {nv : Hal.Nvram} (time : ℕ) where
  silent_reset :
      (ts : List (ℕ × ℕ)) (h : Hal nv)
      → All (Inside time) ts
      → Gives (replicate (length ts) 0) (at time reset) (run ts (at time reset) h)
  unfolding run alarm_update in_active_region
  silent_reset [] h w = (refl, refl)
  silent_reset ((hour, minute) ∷ ts) h (i, w) = ground (arith, silent_reset ts h w)

  silent_enabled :
      (ts : List (ℕ × ℕ)) (h : Hal nv)
      → All (Outside time) ts
      → Gives (replicate (length ts) 0) (at time enabled) (run ts (at time enabled) h)
  unfolding run alarm_update in_active_region
  silent_enabled [] h w = (refl, refl)
  silent_enabled ((hour, minute) ∷ ts) h (i, w) = ground (arith, silent_enabled ts h w)

  leaves_region :
      (t : ℕ × ℕ) (ts : List (ℕ × ℕ)) (h : Hal nv)
      → Outside time t
      → All (Outside time) ts
      → Gives (0 ∷ replicate (length ts) 0) (at time enabled) (run (t ∷ ts) (at time reset) h)
  unfolding run alarm_update in_active_region
  leaves_region (hour, minute) ts h i w =
      let (r, a', h') = alarm_update hour minute (at time reset) h in
      ground (arith, silent_enabled ts h' w)

  sounds :
      (ts : List (ℕ × ℕ)) (h : Hal nv)
      → All (Inside time) ts
      → Gives (map (position time) ts) (at time active) (run ts (at time active) h)
  unfolding run alarm_update in_active_region
  sounds [] h w = (refl, refl)
  sounds ((hour, minute) ∷ ts) h (i, w) = ground (arith, sounds ts h w)

  starts :
      (t : ℕ × ℕ) (ts : List (ℕ × ℕ)) (h : Hal nv)
      → All (Inside time) (t ∷ ts)
      → Gives (map (position time) (t ∷ ts)) (at time active) (run (t ∷ ts) (at time enabled) h)
  unfolding run alarm_update in_active_region
  starts (hour, minute) ts h (i, w) =
      let (r, a', h') = alarm_update hour minute (at time enabled) h in
      ground (arith, sounds ts h' w)

  silent_disabled :
      (ts : List (ℕ × ℕ)) (h : Hal nv)
      → Gives (replicate (length ts) 0) (at time disabled) (run ts (at time disabled) h)
  unfolding run alarm_update
  silent_disabled [] h = (refl, refl)
  silent_disabled ((hour, minute) ∷ ts) h = ground (arith, silent_disabled ts h)

  times_out :
      (t : ℕ × ℕ) (ts : List (ℕ × ℕ)) (h : Hal nv)
      → Outside time t
      → Gives (0 ∷ replicate (length ts) 0) (at time disabled) (run (t ∷ ts) (at time active) h)
  unfolding run alarm_update in_active_region
  times_out (hour, minute) ts h i =
      let (r, a', h') = alarm_update hour minute (at time active) h in
      ground (arith, silent_disabled ts h')

-- A whole life of an alarm. After `alarm_set`, calls of `alarm_update` return 0 while the time of
-- day stays in the active region; once it has left, they return 0 until it comes back; then each
-- returns its position in the region; at the first call after the region the alarm is disabled, and
-- that call and every later one returns 0, at any time. The schedule may skip minutes or repeat
-- them.
pub alarm_cycle :
    {nv : Hal.Nvram} (hour minute : ℕ) (a : Alarm) (h : Hal nv)
    → (early : List (ℕ × ℕ)) (away : ℕ × ℕ) (waiting : List (ℕ × ℕ))
    → (first : ℕ × ℕ) (ringing : List (ℕ × ℕ)) (end : ℕ × ℕ) (after : List (ℕ × ℕ))
    → let time = u16 (hour * 60 + minute) in
      All (Inside time) early
      → All (Outside time) (away ∷ waiting)
      → All (Inside time) (first ∷ ringing)
      → Outside time end
      → let (changed, a', h') = alarm_set hour minute a h in
        Gives
          (replicate (length early) 0
            ++ ((0 ∷ replicate (length waiting) 0)
                ++ (map (position time) (first ∷ ringing) ++ (0 ∷ replicate (length after) 0))))
          (at time disabled)
          (run (early ++ ((away ∷ waiting) ++ ((first ∷ ringing) ++ (end ∷ after)))) a' h')
unfolding alarm_set
alarm_cycle hour minute a h early away waiting first ringing end after e (w, ws) r o =
    run-append early _ _ _ _ (at time reset) _ _ (silent_reset time early _ e) λ h1.
      run-append (away ∷ waiting) _ _ _ _ (at time enabled) _ _
        (leaves_region time away waiting h1 w ws)
        λ h2.
          run-append (first ∷ ringing) _ _ _ _ (at time active) _ _ (starts time first ringing h2 r)
            λ h3. times_out time end after h3 o
  where
    time : ℕ
    time = u16 (hour * 60 + minute)

-- After `alarm_unset` every call of `alarm_update` returns 0, whatever the times, and the alarm
-- stays disabled with its time.
pub alarm_unset_silent :
    {nv : Hal.Nvram} (a : Alarm) (h : Hal nv) (ts : List (ℕ × ℕ))
    → let (changed, a', h') = alarm_unset a h in
      Gives (replicate (length ts) 0) (at a.time disabled) (run ts a' h')
unfolding alarm_unset
alarm_unset_silent a h ts = silent_disabled a.time ts _
