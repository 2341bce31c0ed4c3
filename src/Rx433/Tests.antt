-- ===== src/Rx433/Tests.antt =====
-- Codes on the air at concrete times.
use cpeclock.Base.{
  zero, suc, inl, inr, drop, ℕ, ◌+◌, ◌-◌, ◌^◌, ◌≤◌, ◌≡◌, refl, arith, List, [], ◌∷◌, ◌++◌, Bool,
  true, false, map, replicate, u32, ◌%◌, ◌==◌,
}
use cpeclock.Rx433.{start, run, run_reading, no_message}
use cpeclock.Rx433.Invariant.{IsSymbols, IsValid, start-IsValid, run-IsValid}
use cpeclock.Rx433.HomeEasyCode.{Encodes, times_from, value, home_easy_received}
use cpeclock.Rx433.Pulses.{sent_symbols, Seen, jitter}
use cpeclock.Rx433.SkipLoop.{run_plain}
use cpeclock.Rx433.LostEdges.{SeenOrLost, lost_edges}
use cpeclock.Rx433.Message.Cut.{cut_code_received}
use cpeclock.Rx433.Message.Whole.{Heard, new_code_received}

run-IsValid_example : IsValid (run (1000 ∷ 1768 ∷ 2 ^ 40 ∷ []) start)
run-IsValid_example = run-IsValid (1000 ∷ 1768 ∷ 2 ^ 40 ∷ []) start start-IsValid

-- Pulses in the middle of the bands.
abbrev pulses : List Bool → List ℕ
pulses [] = []
pulses (true ∷ bs) = 1500 ∷ 500 ∷ pulses bs
pulses (false ∷ bs) = 500 ∷ 1500 ∷ pulses bs

pulses-Encodes : (bs : List Bool) → Encodes bs (pulses bs)
pulses-Encodes [] = tt
pulses-Encodes (true ∷ bs) = (omega arith, pulses-Encodes bs)
pulses-Encodes (false ∷ bs) = (omega arith, pulses-Encodes bs)

abbrev code : List Bool
code = true ∷ false ∷ (replicate 29 true ++ (false ∷ []))

home_easy_received_example :
    (run
      (times_from (2 ^ 32 - 5000) (2900 ∷ pulses code))
      (record start { old_time = 2 ^ 32 - 5000 })).he.home_easy
    ≡ value 0 code
home_easy_received_example =
    home_easy_received code 2900 (pulses code) (2 ^ 32 - 5000)
      (record start { old_time = 2 ^ 32 - 5000 }) refl (omega arith) (pulses-Encodes code) refl

abbrev late : ℕ → List ℕ → List ℕ
late d es = map (λ e. e + d) es

late-Seen : (d : ℕ) (es : List ℕ) → d ≤ jitter → Seen es (late d es)
late-Seen d [] h = tt
late-Seen d (e ∷ es) h = (omega arith, late-Seen d es h)

abbrev symbols : List ℕ
symbols = 31 ∷ 0 ∷ 21 ∷ 10 ∷ replicate 27 5

symbols-IsSymbols : IsSymbols symbols
symbols-IsSymbols = ground arith

start-idle : start.nc.nc_count ≡ no_message
unfolding start
start-idle = refl

start-time : start.old_time ≡ u32 0
unfolding start
start-time = refl

-- The main loop reads the codes now and then.
abbrev now_and_then : ℕ → Bool
now_and_then t = t % 3 == 0

new_code_received_example :
    Heard start.nc.new_code_ready now_and_then symbols (late 40 (sent_symbols symbols 2000)) start
new_code_received_example =
    new_code_received now_and_then symbols 2000 0 (late 40 (sent_symbols symbols 2000)) start refl
      symbols-IsSymbols start-idle start-time (omega arith)
      (late-Seen 40 (sent_symbols symbols 2000) (omega arith))

-- The last 28 symbols of a message, and an edge some time after it.
abbrev received : List ℕ
received = replicate 28 5

cut_code_received_example :
    Heard start.nc.new_code_ready now_and_then
      (received ++ replicate 3 0)
      (late 40 (sent_symbols received 2000) ++ (200000 ∷ []))
      start
unfolding start
cut_code_received_example =
    cut_code_received now_and_then received 3 2000 0 200000 (late 40 (sent_symbols received 2000))
      start refl (omega arith) (ground arith) start-idle start-time (omega arith)
      (late-Seen 40 (sent_symbols received 2000) (omega arith)) (omega arith)

-- The first edges are lost, all others are seen late.
all_seen : (es : List ℕ) → SeenOrLost es (late 40 es)
all_seen [] = tt
all_seen (e ∷ es) = inl (omega arith, all_seen es)

some_lost : (n : ℕ) (es : List ℕ) → SeenOrLost es (late 40 (drop n es))
some_lost zero es = all_seen es
some_lost (suc n) [] = tt
some_lost (suc n) (e ∷ es) = lost_first e es (late 40 (drop n es)) (some_lost n es)
  where
    lost_first : (e : ℕ) (es ts : List ℕ) → SeenOrLost es ts → SeenOrLost (e ∷ es) ts
    lost_first e es [] seen = seen
    lost_first e es (t ∷ ts) seen = inr seen

lost_edges_example :
    let ts = late 40 (drop 5 (sent_symbols symbols 2000)) in
    run_reading now_and_then ts start ≡ run_plain now_and_then ts start
unfolding start
lost_edges_example =
    lost_edges now_and_then symbols 2000 0 (late 40 (drop 5 (sent_symbols symbols 2000))) start
      (omega arith) start-time (omega arith) (omega arith) (some_lost 5 (sent_symbols symbols 2000))
