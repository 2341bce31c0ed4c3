-- ===== src/Txnc433/SetTime.antt =====
-- The waiting loops of `set_time`, with a clock that goes on.
use cpeclock.Base.{
  ℕ, zero, suc, ◌+◌, ◌*◌, ◌/◌, ◌%◌, ◌≤◌, ◌<◌, ◌≡◌, ◌∙◌, refl, sym, ap, arith, List, [], ◌∷◌, Bool,
  true, false, Option, none, some, ltb, leb, ltb→lt, leb→le, if◌then◌else◌, u8, subst, drop, ◌++◌,
}
use cpeclock.Txnc433.{System, wait, set_time}

abbrev second : ℕ
second = 1000000

-- `now` is the microseconds of the clock: a call of `usleep` and `gettimeofday` takes 100 of them at
-- least and `step` at most, and gives the time after it.
pub record IsClock (sys : System) (step : ℕ) (now : sys.files.World → ℕ) : Type 0 where
  pub tells :
      (w : sys.files.World)
      → (sys.usleep w).0 ≡ some (now (sys.usleep w).1 / second, now (sys.usleep w).1 % second)
  pub passes :
      (w : sys.files.World)
      → (now w + 100 ≤ now (sys.usleep w).1) × (now (sys.usleep w).1 ≤ now w + step)

-- What is sent: the time of day.
abbrev pub time_payload : List ℕ → ℕ × ℕ × ℕ → List ℕ
time_payload payload (hour, minute, sec) =
    (b'T' ∷ u8 hour ∷ u8 minute ∷ u8 sec ∷ []) ++ drop 4 payload

if_cases :
    {X : Type 0} (P : X → Type 0) (b : Bool) (x y : X)
    → (b ≡ true → P x)
    → (b ≡ false → P y)
    → P (if b then x else y)
if_cases P true x y holds fails = holds refl
if_cases P false x y holds fails = fails refl

module _ (sys : System) (step : ℕ) (now : sys.files.World → ℕ) (clock : IsClock sys step now)
    (trigger : ℕ) where
  open sys use {files, usleep}

  abbrev test : Bool → files.World → Bool
  test below w = if below then ltb (now w % second) trigger else leb trigger (now w % second)

  -- The loop has ended by its own test, at a time that is `Good`, with some rounds left.
  record Ends (Good : ℕ → Type 0) (below : Bool) (w : files.World) (i : ℕ)
      (r : Option (ℕ × ℕ) × files.World) : Type 0 where
    left : ℕ
    time : r.0 ≡ some (now r.1 / second, left)
    met : test below r.1 ≡ true
    rounds : now w + 100 * i ≤ now r.1 + 100 * left
    good : Good (now r.1)

  wait_round :
      (below : Bool) (i : ℕ) (w : files.World)
      → let w' = (usleep w).1 in
        wait sys below (suc i) trigger w
        ≡ (if test below w' then (some (now w' / second, i), w') else wait sys below i trigger w')
  unfolding wait
  wait_round below i w = rw (clock.tells w, wait) refl

  wait_on :
      (Good : ℕ → Type 0) (below : Bool) (i : ℕ) (w : files.World)
      → let w' = (usleep w).1 in
        (test below w' ≡ true → Good (now w'))
        → (test below w' ≡ false → Ends Good below w' i (wait sys below i trigger w'))
        → Ends Good below w (suc i) (wait sys below (suc i) trigger w)
  wait_on Good below i w now_good rest =
      let w' = (usleep w).1 in
      let passed = clock.passes w in
      subst (Ends Good below w (suc i)) (sym (wait_round below i w)) (
        if_cases (Ends Good below w (suc i)) (test below w') (some (now w' / second, i), w')
          (wait sys below i trigger w')
          (λ holds. record {
            left = i;
            time = refl;
            met = holds;
            rounds = omega (arith, passed);
            good = now_good holds;
          })
          (λ fails.
            let r = rest fails in
            record {
              left = r.left;
              time = r.time;
              met = r.met;
              rounds = omega (arith, passed, r.rounds);
              good = r.good;
            }))

  -- The first loop: `k` is the next second.
  wait_below :
      (i k : ℕ) (w : files.World)
      → step ≤ trigger
      → trigger ≤ second
      → now w < k * second
      → k * second ≤ now w + 100 * i
      → Ends (λ t. t ≤ k * second + step) true w i (wait sys true i trigger w)
  wait_below zero k w h l before enough = absurd (omega arith)
  wait_below (suc i) k w h l before enough =
      let w' = (usleep w).1 in
      let passed = clock.passes w in
      wait_on (λ t. t ≤ k * second + step) true i w (λ holds. omega (arith, passed))
        (λ fails.
          let late : trigger ≤ now w' % second = ground (arith, fails) in
          wait_below i k w' h l (omega (arith, passed, late)) (omega (arith, passed)))

  -- The second loop: it ends in the same second, at most a step after the trigger.
  wait_above :
      (i k : ℕ) (w : files.World)
      → trigger + step ≤ second
      → now w / second ≡ k
      → now w % second < trigger
      → trigger ≤ now w % second + 100 * i
      → Ends
          (λ t. (t / second ≡ k) × (t % second < trigger + step))
          false
          w
          i
          (wait sys false i trigger w)
  wait_above zero k w h here before enough = absurd (omega arith)
  wait_above (suc i) k w h here before enough =
      let w' = (usleep w).1 in
      let passed = clock.passes w in
      wait_on (λ t. (t / second ≡ k) × (t % second < trigger + step)) false i w
        (λ holds. (omega (arith, passed), omega (arith, passed)))
        (λ fails.
          let early : now w' % second < trigger = ground (arith, fails) in
          wait_above i k w' h (omega (arith, passed)) early (omega (arith, passed)))

  -- `set_time` from the second loop's end, from its beginning, and from the first loop's end on.
  set_out : List ℕ → ℕ × ℕ × ℕ → Option (ℕ × ℕ) × files.World → Option (List ℕ) × files.World
  set_out payload time (reached, w) = elim reached [
    | none ↦ (none, w)
    | some t ↦ (some (time_payload payload time), w)
  ]

  set_from : List ℕ → ℕ → files.World → Option (ℕ × ℕ × ℕ) → Option (List ℕ) × files.World
  set_from payload left w time = elim time [
    | none ↦ (none, w)
    | some t ↦ set_out payload t (wait sys false left trigger w)
  ]

  set_after : List ℕ → files.World → Option (ℕ × ℕ) → Option (List ℕ) × files.World
  set_after payload w reached = elim reached [
    | none ↦ (none, w)
    | some (sec, left) ↦ set_from payload left w (sys.localtime (sec + 1))
  ]

  set_time-after :
      (payload : List ℕ) (w : files.World)
      → set_time sys payload trigger w
        ≡ set_after payload (wait sys true 20000 trigger w).1 (wait sys true 20000 trigger w).0
  unfolding set_time set_after set_from set_out
  set_time-after payload w = refl

  -- With a clock that goes on by at least 100 microseconds in each round of a waiting loop, and by
  -- no more than the trigger, nor than the rest of a second after it, the 20000 rounds are always
  -- enough: `set_time` succeeds. It ends at a time that lies at the trigger of its second or less
  -- than a round past it, and the payload is the hour, the minute and the second that `localtime`
  -- gives for the next second; the rest of the payload stays.
  pub set_time_lem :
      (local : ℕ → ℕ × ℕ × ℕ) (payload : List ℕ) (w : files.World)
      → ((sec : ℕ) → sys.localtime sec ≡ some (local sec))
      → step ≤ trigger
      → trigger + step ≤ second
      → let (sent, w') = set_time sys payload trigger w in
        (sent ≡ some (time_payload payload (local (now w' / second + 1))))
        × (trigger ≤ now w' % second)
        × (now w' % second < trigger + step)
  unfolding set_after set_from set_out
  set_time_lem local payload w calendar h l =
      let k = now w / second + 1 in
      let first = wait_below 20000 k w h (omega arith) (omega arith) (omega arith) in
      let w1 = (wait sys true 20000 trigger w).1 in
      let sec = now w1 / second in
      let below : now w1 % second < trigger = ltb→lt _ _ first.met in
      let rounds = first.rounds in
      let good = first.good in
      let next = wait_above first.left sec w1 l refl below (omega (arith, rounds, good)) in
      let (here, soon) = next.good in
      let w2 = (wait sys false first.left trigger w1).1 in
      let e : set_time sys payload trigger w ≡ (some (time_payload payload (local (sec + 1))), w2) =
        set_time-after payload w
        ∙ ap (set_after payload w1) first.time
        ∙ ap (set_from payload first.left w1) (calendar (sec + 1))
        ∙ ap (λ (o : Option (ℕ × ℕ)). set_out payload (local (sec + 1)) (o, w2)) next.time in
      let told = ap (λ (k : ℕ). some (time_payload payload (local (k + 1)))) (sym here) in
      rw e (told, leb→le _ _ next.met, soon)
