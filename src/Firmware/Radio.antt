-- ===== src/Firmware/Radio.antt =====
-- A message on the air while the firmware runs: edges at the receiver, with rounds of `loop` between.
pub mod Request
pub mod CutRequest
use cpeclock.Base.{
  ℕ, ◌+◌, ◌-◌, ◌*◌, ◌^◌, ◌%◌, ◌<◌, ◌≤◌, ◌≡◌, ◌∙◌, refl, sym, ap, subst, arith, List, [], ◌∷◌, Bool,
  true, false, not, if_both, if◌then◌else◌, ◌==◌, memeq, length, u16, u32, Bool-cases, inl, inr,
  IsByte,
}
use cpeclock.Alarm
use cpeclock.Board.{Board}
use cpeclock.Hal
use cpeclock.Hmac.{Sha256, IsHash}
use cpeclock.Hmac433.{Packet, hmac433_encode}
use cpeclock.Mail.{Device, bytes_of_packet, noticed, mail_receive_messages}
use cpeclock.Mail.Link.{alarm_request, alarm_request_received}
use cpeclock.Mail.Receive.Effect.{
  noticed-Unaffected, noticed-previous, noticed-rx, mail_receive_messages-ready,
}
use cpeclock.Ncrs.{
  Rs, IsCodec, IsSymbols, differences, pack, ncrs_encode, msg_symbols, nc_data_size,
}
use cpeclock.Rx433.{Rx, cleared, before, rx433_interrupt, run_reading, no_message}
use cpeclock.Rx433.Message.{Unready}
use cpeclock.Rx433.Message.Whole.{Heard, new_code_received}
use cpeclock.Rx433.Pulses.{sent_symbols, Seen}
use cpeclock.Firmware.{
  Firmware, Inputs, quiet, carry_out, settle, update_alarm, update_display, check_alarm, tick,
  extension, right, left, sound_switch, receive, loop, interrupt,
}
use cpeclock.Firmware.Memory.{Event, edge, round, run}

early_false :
    (rx : Rx) → (rx.nc.new_code_ready ≡ true → false ≡ true) → rx.nc.new_code_ready ≡ false
early_false rx h = elim (Bool-cases rx.nc.new_code_ready) [
  | inl y ↦ absurd (ground (arith, h y))
  | inr y ↦ y
]

-- Rounds of `loop`, and then some events.
pub between : {b : Board} → List (Inputs b) → List (Event b) → List (Event b)
between [] es = es
between (i ∷ is) es = round i ∷ between is es

-- An edge at each of the times, with the rounds `rounds t` before the one at `t`.
pub hear : {b : Board} → (ℕ → List (Inputs b)) → List ℕ → List (Event b)
hear rounds [] = []
hear rounds (t ∷ ts) = between (rounds t) (edge t ∷ hear rounds ts)

abbrev pub has_rounds : {b : Board} → List (Inputs b) → Bool
has_rounds [] = false
has_rounds (i ∷ is) = true

-- What the receiver and the check of a packet go by.
pub record Has {nv : Hal.Nvram} (rx : Rx) (counter : ℕ) (previous : Packet) (d : Device nv)
    : Type 0 where
  pub rx_is : d.rx ≡ rx
  pub counter_is : d.hmac_message_counter ≡ counter
  pub previous_is : d.previous_packet ≡ previous

module _ {nv : Hal.Nvram} {b : Board} (rx : Rx) (n : ℕ) (p : Packet) where
  abbrev Keeps : Firmware nv b → Type 0
  Keeps fw = Has rx n p fw.device

  check_alarm-Has : (fw : Firmware nv b) → Keeps fw → Keeps (check_alarm fw)
  unfolding check_alarm
  check_alarm-Has fw k = record {
    rx_is = k.rx_is;
    counter_is = k.counter_is;
    previous_is = k.previous_is;
  }

  pub tick-Has : (i : Inputs b) (fw : Firmware nv b) → Keeps fw → Keeps (tick i fw)
  unfolding tick update_alarm update_display
  tick-Has i fw k =
      if_both Keeps (b.second i.rtc_now == b.second fw.screen.now_time) k
        (check_alarm-Has _ (if_both Keeps (b.second i.rtc_now == 0) k k))

  extension-Has : (i : Inputs b) (fw : Firmware nv b) → Keeps fw → Keeps (extension i fw).0
  unfolding extension
  extension-Has i fw k =
      let P : Firmware nv b × Bool × Bool → Type 0 = λ x. Keeps x.0 in
      let pressed = u16 (fw.extension_button_pressed + 1) in
      if_both P (not i.extension_button) k
        (if_both P (pressed == 100) k (if_both P (pressed == 300) k k))

  settle-Has : (d : Device nv) (fw : Firmware nv b) → Has rx n p d → Keeps (settle d fw)
  unfolding settle carry_out
  settle-Has d fw k = record {
    rx_is = k.rx_is;
    counter_is = k.counter_is;
    previous_is = k.previous_is;
  }

  acted-Has :
      (changed : Bool) (millis : ℕ) (fw : Firmware nv b)
      → Keeps fw
      → Keeps (if changed then update_alarm millis (check_alarm fw) else fw)
  unfolding update_alarm
  acted-Has changed millis fw k = if_both Keeps changed (check_alarm-Has fw k) k

  right-Has :
      (pressed : Bool) (millis : ℕ) (fw : Firmware nv b)
      → Keeps fw
      → Keeps (right pressed millis fw)
  unfolding right
  right-Has pressed millis fw k = if_both Keeps (not pressed) k (
      acted-Has _ millis _ (
        settle-Has _ fw
          (record { rx_is = k.rx_is; counter_is = k.counter_is; previous_is = k.previous_is })))

  left-Has :
      (pressed : Bool) (millis : ℕ) (fw : Firmware nv b) → Keeps fw → Keeps (left pressed millis fw)
  unfolding left
  left-Has pressed millis fw k = if_both Keeps (not pressed) k (
      acted-Has _ millis _ (
        settle-Has _ fw
          (record { rx_is = k.rx_is; counter_is = k.counter_is; previous_is = k.previous_is })))

  sound_switch-Has :
      (switch again : Bool) (fw : Firmware nv b) → Keeps fw → Keeps (sound_switch switch again fw)
  unfolding sound_switch carry_out
  sound_switch-Has switch again fw k =
      if_both Keeps (if fw.allow_sound then switch else not switch) k k

module _ {nv : Hal.Nvram} {b : Board} (rs : Rs) (c : rs.Control) (sha : Sha256) (secret : List ℕ)
    (n : ℕ) (p : Packet) where
  -- With no code ready, a round does nothing but read.
  receive-Has :
      (rx : Rx) (fw : Firmware nv b)
      → rx.nc.new_code_ready ≡ false
      → Has rx n p fw.device
      → Has (cleared rx) n p (receive rs c sha secret fw).device
  unfolding receive carry_out
  receive-Has rx fw none k =
      let d = quiet fw.device in
      let same =
        mail_receive_messages-ready rs c sha secret false d
          (ap (λ (r : Rx). r.nc.new_code_ready) k.rx_is ∙ none) in
      record {
        rx_is =
            ap (λ (x : Device nv). x.rx) same ∙ noticed-rx rs c sha secret d ∙ ap cleared k.rx_is;
        counter_is =
            ap (λ (x : Device nv). x.hmac_message_counter) same
            ∙ (noticed-Unaffected rs c sha secret d).counter
            ∙ k.counter_is;
        previous_is =
            ap (λ (x : Device nv). x.previous_packet) same
            ∙ noticed-previous rs c sha secret d
            ∙ k.previous_is;
      }

  loop-Has :
      (i : Inputs b) (rx : Rx) (fw : Firmware nv b)
      → rx.nc.new_code_ready ≡ false
      → Has rx n p fw.device
      → Has (cleared rx) n p (loop rs c sha secret i fw).device
  unfolding loop
  loop-Has i rx fw none k =
      let r = cleared rx in
      sound_switch-Has r n p _ _ _ (
        left-Has r n p _ _ _ (
          right-Has r n p _ _ _
            (extension-Has r n p i _ (receive-Has rx _ none (tick-Has rx n p i fw k)))))

  module _ (rx : Rx) (es : List (Event b)) (P : Firmware nv b → Type 0) where
    between_cleared :
        (is : List (Inputs b)) (fw : Firmware nv b)
        → Has (cleared rx) n p fw.device
        → ((fw' : Firmware nv b) → Has (cleared rx) n p fw'.device → P (run rs c sha secret es fw'))
        → P (run rs c sha secret (between is es) fw)
    unfolding run between
    between_cleared [] fw k continue = continue fw k
    between_cleared (i ∷ is) fw k continue =
        between_cleared is _ (loop-Has i (cleared rx) fw refl k) continue

    between_rounds :
        (is : List (Inputs b)) (fw : Firmware nv b)
        → rx.nc.new_code_ready ≡ false
        → Has rx n p fw.device
        → ((fw' : Firmware nv b)
            → Has (if has_rounds is then cleared rx else rx) n p fw'.device
            → P (run rs c sha secret es fw'))
        → P (run rs c sha secret (between is es) fw)
    unfolding run between
    between_rounds [] fw none k continue = continue fw k
    between_rounds (i ∷ is) fw none k continue =
        between_cleared is _ (loop-Has i rx fw none k) continue

  interrupt-Has :
      (t : ℕ) (rx : Rx) (fw : Firmware nv b)
      → Has rx n p fw.device
      → Has (rx433_interrupt (u32 t) rx) n p (interrupt t fw).device
  unfolding interrupt
  interrupt-Has t rx fw k = record {
    rx_is = ap (rx433_interrupt (u32 t)) k.rx_is;
    counter_is = k.counter_is;
    previous_is = k.previous_is;
  }

  -- All edges of a message, up to the one that makes it ready.
  pub hear-Has :
      (rounds : ℕ → List (Inputs b)) (ts : List ℕ) (rx : Rx) (fw : Firmware nv b)
      → Unready false (λ t. has_rounds (rounds t)) ts rx
      → Has rx n p fw.device
      → Has
          (run_reading (λ t. has_rounds (rounds t)) ts rx)
          n
          p
          (run rs c sha secret (hear rounds ts) fw).device
  unfolding run hear run_reading Unready
  hear-Has rounds [] rx fw unready k = k
  hear-Has rounds (t ∷ ts) rx fw (early, unready) k =
      let reads : ℕ → Bool = λ t. has_rounds (rounds t) in
      let rx' = rx433_interrupt (u32 t) (before reads t rx) in
      between_rounds rx (edge t ∷ hear rounds ts)
        (λ fw'. Has (run_reading reads ts rx') n p fw'.device) (rounds t) fw (early_false rx early)
        k (λ fw' k'. hear-Has rounds ts rx' _ unready (interrupt-Has t (before reads t rx) fw' k'))
