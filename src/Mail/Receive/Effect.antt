-- ===== src/Mail/Receive/Effect.antt =====
-- Which packets take effect.
use cpeclock.Base.{
  if_both, ℕ, ◌≡◌, ◌⊎◌, inl, inr, ◌∙◌, refl, sym, ap, List, Bool, true, false, not, some, none,
  Option-cases, Bool-cases, memeq, eq→memeq, if◌then◌else◌, ◌==◌, get_or,
}
use cpeclock.Base.Text.{codes}
use cpeclock.Hal
use cpeclock.Hal.{Hal, IsMemory, display_message_lp}
use cpeclock.Hmac.{Sha256}
use cpeclock.Hmac433.{Packet, hmac433_authenticate}
use cpeclock.Ncrs.{Rs, ncrs_decode}
use cpeclock.Rx433.{cleared}
use cpeclock.Mail.{
  noticed, Device, packet_of_bytes, bytes_of_packet, new_home_easy_message, new_packet,
  authenticated, decoded, new_code, mail_receive_messages, save_counter,
}

-- What messages may change, apart from the display, is as it was.
pub record Unaffected {nv : Hal.Nvram} (d d' : Device nv) : Type 0 where
  pub counter : d'.hmac_message_counter ≡ d.hmac_message_counter
  pub alarm : d'.alarm ≡ d.alarm
  pub night_day : d'.night_day ≡ d.night_day
  pub mem : d'.hal.mem ≡ d.hal.mem

module _ {nv : Hal.Nvram} (rs : Rs) (c : rs.Control) (sha : Sha256) (secret : List ℕ) where
  -- The packet is new, and authentic for the counter, which moves on.
  abbrev pub Accepted : Packet → Device nv → Device nv → Type 0
  Accepted p d d' =
      (memeq (bytes_of_packet d.previous_packet) (bytes_of_packet p) ≡ false)
      × (hmac433_authenticate sha secret p d.hmac_message_counter ≡ (true, d'.hmac_message_counter))

  new_packet-counter :
      (payload : List ℕ) (rs_rc : ℕ) (d : Device nv)
      → (new_packet payload rs_rc d).hmac_message_counter ≡ d.hmac_message_counter
  unfolding new_packet
  new_packet-counter payload rs_rc d =
      let is : ℕ → Bool = λ x. get_or payload 0 0 == x in
      let P : Device nv → Type 0 = λ x. x.hmac_message_counter ≡ d.hmac_message_counter in
      if_both P (is b'M') refl (
        if_both P (is b'C') refl (
          if_both P (is b'T') refl
            (if_both P (is b'A') refl (if_both P (is b'N') refl (if_both P (is b'a') refl refl)))))

  new_packet-previous :
      (payload : List ℕ) (rs_rc : ℕ) (d : Device nv)
      → (new_packet payload rs_rc d).previous_packet ≡ d.previous_packet
  unfolding new_packet
  new_packet-previous payload rs_rc d =
      let is : ℕ → Bool = λ x. get_or payload 0 0 == x in
      let P : Device nv → Type 0 = λ x. x.previous_packet ≡ d.previous_packet in
      if_both P (is b'M') refl (
        if_both P (is b'C') refl (
          if_both P (is b'T') refl
            (if_both P (is b'A') refl (if_both P (is b'N') refl (if_both P (is b'a') refl refl)))))

  authenticated-cases :
      (p : Packet) (rs_rc : ℕ) (d : Device nv)
      → Unaffected d (authenticated rs c sha secret p rs_rc d)
        ⊎ (hmac433_authenticate sha secret p d.hmac_message_counter
            ≡ (true, (authenticated rs c sha secret p rs_rc d).hmac_message_counter))
  unfolding authenticated display_message_lp
  authenticated-cases p rs_rc d = go (hmac433_authenticate sha secret p d.hmac_message_counter) refl
    where
      go :
          (r : Bool × ℕ)
          → hmac433_authenticate sha secret p d.hmac_message_counter ≡ r
          → Unaffected d (authenticated rs c sha secret p rs_rc d)
            ⊎ (hmac433_authenticate sha secret p d.hmac_message_counter
                ≡ (true, (authenticated rs c sha secret p rs_rc d).hmac_message_counter))
      go (false, n) e =
          inl (rw e (record { counter = refl; alarm = refl; night_day = refl; mem = refl }))
      go (true, n) e = inr (
          rw e (
            ap (λ x. (true, x))
              (if_both (λ (x : Device nv). n ≡ x.hmac_message_counter)
                (not (p.counter_resync_flag == 0)) refl
                (sym (new_packet-counter p.payload rs_rc _)))))

  decoded-cases :
      (p : Packet) (rs_rc : ℕ) (d : Device nv)
      → let d' = decoded rs c sha secret p rs_rc d in Unaffected d d' ⊎ Accepted p d d'
  unfolding decoded
  decoded-cases p rs_rc d =
      elim (Bool-cases (memeq (bytes_of_packet d.previous_packet) (bytes_of_packet p))) [
        | inl same ↦
            inl (rw same (record { counter = refl; alarm = refl; night_day = refl; mem = refl }))
        | inr new ↦ rw new (elim (authenticated-cases p rs_rc (record d { previous_packet = p })) [
          | inl u ↦ inl (record {
            counter = u.counter;
            alarm = u.alarm;
            night_day = u.night_day;
            mem = u.mem;
          })
          | inr a ↦ inr (refl, a)
        ])
      ]

  -- A new packet that is authentic and no resynchronisation is acted on.
  pub decoded-new :
      (p : Packet) (rs_rc n : ℕ) (d : Device nv)
      → memeq (bytes_of_packet d.previous_packet) (bytes_of_packet p) ≡ false
      → hmac433_authenticate sha secret p d.hmac_message_counter ≡ (true, n)
      → p.counter_resync_flag ≡ 0
      → decoded rs c sha secret p rs_rc d
        ≡ new_packet p.payload rs_rc
            (record d { previous_packet = p; hmac_message_counter = n; hal = save_counter n d.hal })
  unfolding decoded authenticated
  decoded-new p rs_rc n d e a f =
      ap
        (λ b.
          if b then d else authenticated rs c sha secret p rs_rc (record d { previous_packet = p }))
        e
      ∙ ap (λ (r : Bool × ℕ). after r (p.counter_resync_flag == 0)) a
      ∙ ap (λ x. after (true, n) (x == 0)) f
    where
      after : Bool × ℕ → Bool → Device nv
      after (taken, n) ordinary =
          let saved = record d {
            previous_packet = p;
            hmac_message_counter = n;
            hal = save_counter n d.hal;
          } in
          if not taken
          then record d { previous_packet = p; hal = display_message_lp (codes "HMAC ERROR") d.hal }
          else if not ordinary
          then record saved { hal = display_message_lp (codes "COUNTER\nRESYNCHED") saved.hal }
          else new_packet p.payload rs_rc saved

  decoded-previous :
      (p : Packet) (rs_rc : ℕ) (d : Device nv)
      → memeq
          (bytes_of_packet (decoded rs c sha secret p rs_rc d).previous_packet)
          (bytes_of_packet p)
        ≡ true
  unfolding decoded authenticated
  decoded-previous p rs_rc d =
      let same = eq→memeq (bytes_of_packet p) (bytes_of_packet p) refl in
      let P : Device nv → Type 0 =
        λ x. memeq (bytes_of_packet x.previous_packet) (bytes_of_packet p) ≡ true in
      elim (Bool-cases (memeq (bytes_of_packet d.previous_packet) (bytes_of_packet p))) [
        | inl s ↦ rw s s
        | inr n ↦ rw n (
            if_both P (not (hmac433_authenticate sha secret p d.hmac_message_counter).0) same (
              if_both P (not (p.counter_resync_flag == 0)) same (
                ap (λ q. memeq (bytes_of_packet q) (bytes_of_packet p))
                  (new_packet-previous p.payload rs_rc _)
                ∙ same)))
      ]

  decoded-same :
      (p : Packet) (rs_rc : ℕ) (d : Device nv)
      → memeq (bytes_of_packet d.previous_packet) (bytes_of_packet p) ≡ true
      → decoded rs c sha secret p rs_rc d ≡ d
  unfolding decoded
  decoded-same p rs_rc d e = rw e refl

  new_code-none :
      (code : List ℕ) (d : Device nv)
      → ncrs_decode rs c code ≡ none
      → new_code rs c sha secret code d ≡ d
  unfolding new_code
  new_code-none code d e = rw (e, new_code) refl

  pub new_code-some :
      (code message : List ℕ) (rs_rc : ℕ) (d : Device nv)
      → ncrs_decode rs c code ≡ some (rs_rc, message)
      → new_code rs c sha secret code d ≡ decoded rs c sha secret (packet_of_bytes message) rs_rc d
  unfolding new_code
  new_code-some code message rs_rc d e = rw (e, new_code) refl

  -- Handling a code and then the same code again does the same as handling it once: the second time
  -- nothing changes at all, not even the display.
  pub new_code-new_code :
      (code : List ℕ) (d : Device nv)
      → new_code rs c sha secret code (new_code rs c sha secret code d)
        ≡ new_code rs c sha secret code d
  new_code-new_code code d = elim (Option-cases (ncrs_decode rs c code)) [
    | inl e ↦ new_code-none code (new_code rs c sha secret code d) e
    | inr ((rs_rc, message), e) ↦
        let p = packet_of_bytes message in
        rw (new_code-some code message rs_rc d e) (
          new_code-some code message rs_rc (decoded rs c sha secret p rs_rc d) e
          ∙ decoded-same p rs_rc _ (decoded-previous p rs_rc d))
  ]

  pub noticed-Unaffected : (d : Device nv) → Unaffected d (noticed d)
  unfolding noticed new_home_easy_message display_message_lp
  noticed-Unaffected d =
      if_both (Unaffected d) (d.rx.he.home_easy == 0)
        (record { counter = refl; alarm = refl; night_day = refl; mem = refl })
        (record { counter = refl; alarm = refl; night_day = refl; mem = refl })

  pub noticed-previous : (d : Device nv) → (noticed d).previous_packet ≡ d.previous_packet
  unfolding noticed
  noticed-previous d =
      if_both (λ (x : Device nv). x.previous_packet ≡ d.previous_packet) (d.rx.he.home_easy == 0)
        refl refl

  pub noticed-rx : (d : Device nv) → (noticed d).rx ≡ cleared d.rx
  unfolding noticed
  noticed-rx d = if_both (λ (x : Device nv). x.rx ≡ cleared d.rx) (d.rx.he.home_easy == 0) refl refl

  pub mail_receive_messages-ready :
      (b : Bool) (d : Device nv)
      → d.rx.nc.new_code_ready ≡ b
      → mail_receive_messages rs c sha secret d
        ≡ (if b then new_code rs c sha secret d.rx.nc.new_code (noticed d) else noticed d)
  unfolding mail_receive_messages noticed
  mail_receive_messages-ready b d e =
      ap (λ x. if x then new_code rs c sha secret d.rx.nc.new_code (noticed d) else noticed d) e

  Unaffected-trans : (d d' d'' : Device nv) → Unaffected d d' → Unaffected d' d'' → Unaffected d d''
  Unaffected-trans d d' d'' u v = record {
    counter = v.counter ∙ u.counter;
    alarm = v.alarm ∙ u.alarm;
    night_day = v.night_day ∙ u.night_day;
    mem = v.mem ∙ u.mem;
  }

  abbrev pub Effect : Device nv → Device nv → Type 0
  Effect d d' =
      Unaffected d d'
      ⊎ ((message : List ℕ) × (rs_rc : ℕ) × (d.rx.nc.new_code_ready ≡ true)
          × (ncrs_decode rs c d.rx.nc.new_code ≡ some (rs_rc, message))
          × Accepted (packet_of_bytes message) d d')

  -- After a call of `mail_receive_messages`, the counter, the alarm, the night's times and the
  -- memory are as they were, unless a code was ready which was decoded to a packet that differs
  -- from the previous one and that `hmac433_authenticate` accepts; then the counter is the one that
  -- it goes to.
  pub mail_receive_messages-Effect :
      (d : Device nv) → Effect d (mail_receive_messages rs c sha secret d)
  mail_receive_messages-Effect d = elim (Bool-cases d.rx.nc.new_code_ready) [
    | inl r ↦ elim (Option-cases (ncrs_decode rs c d.rx.nc.new_code)) [
      | inl e ↦
          rw (mail_receive_messages-ready true d r)
            (rw (new_code-none d.rx.nc.new_code (noticed d) e) (inl (noticed-Unaffected d)))
      | inr ((rs_rc, message), e) ↦ rw (mail_receive_messages-ready true d r) (
          rw (new_code-some d.rx.nc.new_code message rs_rc (noticed d) e)
            (elim (decoded-cases (packet_of_bytes message) rs_rc (noticed d)) [
              | inl u ↦ inl (Unaffected-trans d (noticed d) _ (noticed-Unaffected d) u)
              | inr (new, a) ↦ inr (
                message,
                rs_rc,
                r,
                e,
                (
                  rw⁻¹ (noticed-previous d) new,
                  ap (hmac433_authenticate sha secret (packet_of_bytes message))
                        (sym ((noticed-Unaffected d).counter))
                      ∙ a,
                ),
              )
            ]))
    ]
    | inr r ↦ rw (mail_receive_messages-ready false d r) (inl (noticed-Unaffected d))
  ]
