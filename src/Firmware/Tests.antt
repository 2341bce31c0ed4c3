-- ===== src/Firmware/Tests.antt =====
-- The firmware with a message received, through a power cycle; a board without its clock; the extension
-- button held down; and a message on the air.
use cpeclock.Ncrs.{Rs, IsCodec}
use cpeclock.Base.{
  ◌∙◌, memeq, sym, subst, drop, length, ◌<◌, ◌++◌, none, ℕ, arith, zero, suc, ◌+◌, ◌*◌, ◌≡◌, ◌⊎◌,
  refl, ap, List, [], ◌∷◌, true, false, some, replicate, u16, ◌%◌, ◌==◌, if◌then◌else◌,
}
use cpeclock.Board.{plain, plain-IsStrip}
use cpeclock.Hal.{cells, cells-IsMemory}
use cpeclock.Hmac.Tests.{checksum, checksum-IsHash}
use cpeclock.Mail.{bytes_of_packet}
use cpeclock.Alarm
use cpeclock.Rx433
use cpeclock.Rx433.Pulses.{sent_symbols, Seen}
use cpeclock.Ncrs.{
  IsSymbols, differences, gather, interleave, ncrs_encode, pack, pack_symbol, pad, read_bit, try,
}
use cpeclock.Ncrs.Correct.{differences_self}
use cpeclock.Ncrs.Tests.{one_word, one_word-IsCodec}
use cpeclock.Firmware.Radio.{hear}
use cpeclock.Firmware.Radio.Request.{alarm_request_heard}
use cpeclock.Firmware.Radio.CutRequest.{cut_alarm_request_heard}
use cpeclock.Hmac.{Sha256, IsHash, hmac_sha256}
use cpeclock.Hmac433.{Packet, hmac433_encode}
use cpeclock.Mail.Link.{alarm_request}
use cpeclock.Firmware.{loop}
use cpeclock.Mail.Tests.{
  device, word, word_size, packet, packet_new, device-Kept, key, codec, has_received,
}
use cpeclock.Firmware.{Firmware, Inputs, tick}
use cpeclock.Firmware.Setup.{BootInputs, no_rtc, setup, power_on}
use cpeclock.Firmware.Memory.{Event, edge, round, run, InStep}
use cpeclock.Firmware.PowerCycle.{Resumed, setup-Resumed}
use cpeclock.Firmware.Halts.{Outcome, missing, setup-Outcome}
use cpeclock.Firmware.Buttons.{IsOff, IsSilent, HeldDown, rounds, run-IsOff}

abbrev fresh : Firmware cells plain
fresh = power_on plain (λ a. 0) 0

abbrev at_work : Firmware cells plain
at_work = record fresh { device = has_received; alarm_active = 3 }

at_work-InStep : InStep cells-IsMemory at_work
at_work-InStep = record {
  counter = device-Kept.counter;
  counter_fits = device-Kept.counter_fits;
  alarm = device-Kept.alarm;
  alarm_fits = device-Kept.alarm_fits;
  night_day = device-Kept.night_day;
}

-- A round with a new second, in which only the extension button is down.
abbrev inputs : Inputs plain
inputs = record {
  rtc_now = 7 * 3600 + 31;
  millis_minute = 1000;
  millis_tick = 1000;
  millis_right = 1001;
  millis_left = 1002;
  right_button = false;
  left_button = false;
  extension_button = true;
  slide_switch = false;
  slide_switch_again = false;
}

abbrev boot_inputs : BootInputs plain
boot_inputs = record {
  display_begins = true;
  rtc_begins = true;
  rtc_runs = false;
  rtc_runs_again = true;
  rtc_now = 7 * 3600 + 40;
  millis = 20;
  slide_switch = true;
}

-- The message is handled between two edges.
abbrev events : List (Event plain)
events = edge 500 ∷ round inputs ∷ edge 2000 ∷ []

setup-Resumed_example :
    let before = run codec tt checksum key events at_work in
    Resumed cells-IsMemory codec tt before
      (setup codec boot_inputs (power_on plain before.device.hal.mem 255))
setup-Resumed_example =
    setup-Resumed cells-IsMemory codec tt checksum key at_work events boot_inputs 255 at_work-InStep
      refl refl refl refl

abbrev no_clock : BootInputs plain
no_clock = record boot_inputs { rtc_begins = false }

setup-Outcome_example :
    Outcome {nv = cells}
      (λ a. a)
      (missing codec no_clock)
      (setup codec no_clock (power_on plain (λ a. a) 255))
setup-Outcome_example = setup-Outcome cells-IsMemory codec no_clock (λ a. a) 255

no_clock-missing : missing codec no_clock ≡ some no_rtc
no_clock-missing = refl

replicate-HeldDown : (n : ℕ) → HeldDown (replicate n (round inputs))
unfolding HeldDown
replicate-HeldDown zero = tt
replicate-HeldDown (suc n) = (refl, replicate-HeldDown n)

rounds-replicate : (n : ℕ) → rounds (replicate n (round inputs)) ≡ n
unfolding rounds
rounds-replicate zero = refl
rounds-replicate (suc n) = ap suc (rounds-replicate n)

run-IsOff_example :
    let held = run codec tt checksum key (replicate 100 (round inputs)) at_work in
    IsOff held
    × ((plain.second inputs.rtc_now ≡ plain.second held.screen.now_time)
        ⊎ IsSilent (tick inputs held))
unfolding power_on
run-IsOff_example =
    run-IsOff codec tt checksum key plain-IsStrip at_work (replicate 100 (round inputs)) inputs refl
      (replicate-HeldDown 100) (rounds-replicate 100)

-- An edge every now and then, with a round before some of them.
abbrev listening : Firmware cells plain
listening = record fresh { device = record device { hmac_message_counter = 0x1240 } }

abbrev some_rounds : ℕ → List (Inputs plain)
some_rounds t = if t % 3 == 0 then inputs ∷ [] else []

abbrev hands_off : Inputs plain
hands_off = record inputs { extension_button = false }

abbrev on_time : List ℕ
on_time = sent_symbols word 2000

on_time-Seen : (es : List ℕ) → Seen es es
on_time-Seen [] = tt
on_time-Seen (e ∷ es) = (omega arith, on_time-Seen es)

alarm_request_heard_example :
    let fw' =
      loop codec tt checksum key hands_off
        (run codec tt checksum key (hear some_rounds on_time) listening) in
    (fw'.device.alarm ≡ record { time = u16 (6 * 60 + 45); state = Alarm.reset })
    × (fw'.device.hmac_message_counter ≡ 0x1240 + 2)
unfolding Rx433.start
alarm_request_heard_example =
    alarm_request_heard checksum checksum-IsHash key 6 45 0x1240 (omega arith) (omega arith) codec
      tt listening some_rounds hands_off word 2000 0 on_time
      (one_word-IsCodec (pack 21 0 (bytes_of_packet packet))) word_size.0 word_size.1
      (omega (arith, differences_self word)) refl refl refl (omega arith) (on_time-Seen on_time)
      packet_new (omega arith) (omega arith) (omega arith) refl refl refl

-- The first symbol of a message with a simple HMAC was not received; another edge comes some time
-- after the message.
abbrev sevens : Sha256
sevens = record { Ctx = Unit {0}; init = tt; update = λ c xs. tt; final = λ c. replicate 32 7 }

sevens-IsHash : IsHash sevens
sevens-IsHash = record {
  update-update = λ c xs ys. refl;
  length-final = λ c. refl;
  final-IsBytes = λ c. ground arith;
}

abbrev simple : Packet
simple = (hmac433_encode sevens key (alarm_request 6 45) 0x1240).0

abbrev simple_bytes : List ℕ
simple_bytes = 65 ∷ 6 ∷ 45 ∷ 0 ∷ 0 ∷ 0 ∷ 65 ∷ 7 ∷ 7 ∷ 7 ∷ 7 ∷ 7 ∷ 7 ∷ 0 ∷ []

simple_is : bytes_of_packet simple ≡ simple_bytes
unfolding hmac433_encode hmac_sha256 bytes_of_packet
simple_is = refl

abbrev simple_codec : Rs
simple_codec = one_word (pack 21 0 simple_bytes)

abbrev cut_word : List ℕ
cut_word = drop 1 (ncrs_encode simple_codec tt simple_bytes)

simple_codec-IsCodec : IsCodec simple_codec tt (pack 21 0 (bytes_of_packet simple))
simple_codec-IsCodec =
    subst (λ m. IsCodec simple_codec tt (pack 21 0 m)) (sym simple_is)
      (one_word-IsCodec (pack 21 0 simple_bytes))

cut_fails : (a : ℕ) → a < 2 → try simple_codec tt (pad (cut_word ++ replicate 1 0)) a ≡ none
unfolding try gather differences pack pack_symbol read_bit ncrs_encode interleave
cut_fails zero h = refl
cut_fails (suc zero) h = refl
cut_fails (suc (suc a)) h = absurd (omega arith)

cut_word-IsSymbols : IsSymbols cut_word
unfolding pack pack_symbol read_bit ncrs_encode interleave
cut_word-IsSymbols = ground arith

cut_word-wrong :
    differences cut_word (drop 1 (ncrs_encode simple_codec tt (bytes_of_packet simple))) ≡ 0
cut_word-wrong =
    ap (λ m. differences cut_word (drop 1 (ncrs_encode simple_codec tt m))) simple_is
    ∙ differences_self cut_word

length-cut_word : length cut_word ≡ 30
unfolding pack ncrs_encode interleave
length-cut_word = refl

simple_new : memeq (bytes_of_packet device.previous_packet) (bytes_of_packet simple) ≡ false
unfolding memeq bytes_of_packet
simple_new = ap (memeq (bytes_of_packet device.previous_packet)) simple_is

cut_alarm_request_heard_example :
    let ts = sent_symbols cut_word 2000 in
    let fw' =
      loop simple_codec tt sevens key hands_off
        (run simple_codec tt sevens key (hear some_rounds (ts ++ (200000 ∷ []))) listening) in
    (fw'.device.alarm ≡ record { time = u16 (6 * 60 + 45); state = Alarm.reset })
    × (fw'.device.hmac_message_counter ≡ 0x1240 + 2)
unfolding Rx433.start
cut_alarm_request_heard_example =
    cut_alarm_request_heard sevens sevens-IsHash key 6 45 0x1240 (omega arith) (omega arith)
      simple_codec tt listening some_rounds hands_off 1 cut_word 2000 0 200000
      (sent_symbols cut_word 2000) simple_codec-IsCodec (omega arith) length-cut_word
      cut_word-IsSymbols (omega (arith, cut_word-wrong)) cut_fails refl refl refl (omega arith)
      (on_time-Seen (sent_symbols cut_word 2000)) (omega (arith, length-cut_word)) simple_new
      (omega arith) (omega arith) (omega arith) refl refl refl
