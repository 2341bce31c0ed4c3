-- ===== src/Mail/Receive/Step.antt =====
-- The whole of `mail_receive_messages`, and what is in force after it.
use cpeclock.Base.{
  if_both, ℕ, ◌^◌, ◌<◌, ◌≡◌, refl, arith, List, Bool, not, Option, some, none, memeq, ◌==◌, get_or,
  u16,
}
use cpeclock.Hal
use cpeclock.Hal.{Hal, IsMemory, display_message, display_message_lp, clock_set}
use cpeclock.Alarm
use cpeclock.NightDay
use cpeclock.Hmac.{Sha256}
use cpeclock.Hmac433.{Packet, hmac433_authenticate}
use cpeclock.Ncrs.{Rs, ncrs_decode}
use cpeclock.Mail.{
  noticed, Device, packet_of_bytes, bytes_of_packet, new_home_easy_message, show_message,
  show_counter, new_packet, authenticated, decoded, new_code, collected, mail_receive_messages,
}
use cpeclock.Mail.Receive.{Kept, hal-Kept, alarm-Kept, night_day-Kept, counter-Kept}

hmac433_authenticate-fits :
    (sha : Sha256) (secret : List ℕ) (p : Packet) (counter : ℕ)
    → counter < 2 ^ 64
    → (hmac433_authenticate sha secret p counter).1 < 2 ^ 64
unfolding hmac433_authenticate
hmac433_authenticate-fits sha secret p counter h = ground arith

u16_fits : (x : ℕ) → u16 x < 2 ^ 16
u16_fits x = omega arith

module _ {nv : Hal.Nvram} (ok : IsMemory nv) where
  pub shown :
      (d : Device nv) (msg : List ℕ) → Kept d → Kept (record d { hal = display_message msg d.hal })
  unfolding display_message
  shown d msg k = hal-Kept ok d k _ refl

  new_packet-Kept :
      (payload : List ℕ) (rs_rc : ℕ) (d : Device nv) → Kept d → Kept (new_packet payload rs_rc d)
  unfolding new_packet show_message show_counter clock_set Alarm.alarm_set Alarm.alarm_unset
      NightDay.night_day_time_set
  new_packet-Kept payload rs_rc d k =
      let is : ℕ → Bool = λ c. get_or payload 0 0 == c in
      if_both Kept (is b'M') (shown d _ k) (
        if_both Kept (is b'C') (shown d _ k) (
          if_both Kept (is b'T') (hal-Kept ok d k _ refl) (
            if_both Kept (is b'A') (alarm-Kept ok _ (shown d _ k) _ (u16_fits _)) (
              if_both Kept (is b'N') (night_day-Kept ok _ (shown d _ k) _ (u16_fits _) (u16_fits _))
                (if_both Kept (is b'a') (alarm-Kept ok _ (shown d _ k) _ k.alarm_fits)
                  (shown d _ k))))))

  module _ (rs : Rs) (c : rs.Control) (sha : Sha256) (secret : List ℕ) where
    authenticated-Kept :
        (p : Packet) (rs_rc : ℕ) (d : Device nv)
        → Kept d
        → Kept (authenticated rs c sha secret p rs_rc d)
    unfolding authenticated display_message_lp
    authenticated-Kept p rs_rc d k =
        let counter' = (hmac433_authenticate sha secret p d.hmac_message_counter).1 in
        let saved =
          counter-Kept ok d k counter'
            (hmac433_authenticate-fits sha secret p d.hmac_message_counter k.counter_fits) in
        let taken = (hmac433_authenticate sha secret p d.hmac_message_counter).0 in
        if_both Kept (not taken) (hal-Kept ok d k _ refl) (
          if_both Kept (not (p.counter_resync_flag == 0)) (hal-Kept ok _ saved _ refl)
            (new_packet-Kept p.payload rs_rc _ saved))

    -- Variables that the memory does not keep.
    pub others-Kept :
        (d d' : Device nv)
        → d'.hmac_message_counter ≡ d.hmac_message_counter
        → d'.alarm ≡ d.alarm
        → d'.night_day ≡ d.night_day
        → d'.hal ≡ d.hal
        → Kept d
        → Kept d'
    others-Kept d d' e f g h k = record {
      counter = rw (e, h) k.counter;
      counter_fits = rw e k.counter_fits;
      alarm = rw (f, h) k.alarm;
      alarm_fits = rw f k.alarm_fits;
      night_day = rw (g, h) k.night_day;
    }

    new_code-Kept :
        (code : List ℕ) (d : Device nv) → Kept d → Kept (new_code rs c sha secret code d)
    unfolding new_code decoded
    new_code-Kept code d k = go (ncrs_decode rs c code)
      where
        go :
            (o : Option (ℕ × List ℕ))
            → Kept (elim o [
              | none ↦ d
              | some (rs_rc, message) ↦ decoded rs c sha secret (packet_of_bytes message) rs_rc d
            ])
        go none = k
        go (some (rs_rc, message)) =
            if_both Kept
              (memeq (bytes_of_packet d.previous_packet)
                (bytes_of_packet (packet_of_bytes message)))
              k
              (authenticated-Kept (packet_of_bytes message) rs_rc _ (
                others-Kept d (record d { previous_packet = packet_of_bytes message }) refl refl
                  refl refl k))

    -- Receiving keeps the memory in step with the variables.
    pub mail_receive_messages-Kept :
        (d : Device nv) → Kept d → Kept (mail_receive_messages rs c sha secret d)
    unfolding mail_receive_messages noticed new_home_easy_message display_message_lp
    mail_receive_messages-Kept d k =
        let d' = collected d in
        let k' = others-Kept d d' refl refl refl refl k in
        let k'' = if_both Kept (d.rx.he.home_easy == 0) k' (hal-Kept ok d' k' _ refl) in
        if_both Kept d.rx.nc.new_code_ready (new_code-Kept d.rx.nc.new_code _ k'') k''
