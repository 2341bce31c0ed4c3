-- ===== src/Txnc433/SetNight.antt =====
-- The command `set_day_night_time`, from the command line to the clock's night.
use cpeclock.Base.{
  ℕ, ◌+◌, ◌*◌, ◌%◌, ◌^◌, ◌<◌, ◌≤◌, ◌≡◌, refl, arith, List, [], ◌∷◌, ◌++◌, true, false, some, memeq,
  IsByte, IsBytes, u16, length,
}
use cpeclock.Base.Text.{codes, padded}
use cpeclock.Hal.{Nvram}
use cpeclock.NightDay
use cpeclock.Alarm
use cpeclock.Mail.{Device, bytes_of_packet, mail_receive_messages, noticed}
use cpeclock.Mail
use cpeclock.Mail.Request.{request, taken, request_received}
use cpeclock.Mail.Receive.Effect.{noticed-Unaffected}
use cpeclock.Hmac.{Sha256, IsHash}
use cpeclock.Hmac433.{hmac433_encode}
use cpeclock.Ncrs.{
  Rs, IsCodec, IsSymbols, differences, pack, ncrs_encode, msg_symbols, nc_data_size,
}
use cpeclock.Libnc.{Sender, copy_payload, libnc_init}
use cpeclock.Txnc433.Sends.{IsLibrary, Succeeds, sent, main-command}
use cpeclock.Txnc433.{System, header, arguments, command, main}

-- Four numbers of the command line that are bytes.
pub record AreBytes (hn mn hd md : ℕ) : Type 0 where
  pub night_hour : IsByte hn
  pub night_minute : IsByte mn
  pub day_hour : IsByte hd
  pub day_minute : IsByte md

abbrev pub times : ℕ → ℕ → ℕ → ℕ → List (List ℕ)
times hn mn hd md = padded 1 10 hn ∷ padded 1 10 mn ∷ padded 1 10 hd ∷ padded 1 10 md ∷ []

abbrev pub night_payload : ℕ → ℕ → ℕ → ℕ → List ℕ
night_payload hn mn hd md = b'N' ∷ hn ∷ mn ∷ hd ∷ md ∷ 0 ∷ []

module _ (hn mn hd md : ℕ) (four : AreBytes hn mn hd md) where
  pub night_payload-IsBytes : IsBytes (night_payload hn mn hd md)
  night_payload-IsBytes = (
    omega arith,
    (four.night_hour, (four.night_minute, (four.day_hour, (four.day_minute, (omega arith, tt))))),
  )

  module _ (sys : System) (lib : IsLibrary sys) where
    command-times :
        (s : Sender sys.files)
        → command sys
            (codes "set_day_night_time")
            (codes "set_day_night_time" ∷ times hn mn hd md)
            s
          ≡ (some (night_payload hn mn hd md, 5), s)
    unfolding command memeq
    command-times s =
        let cmd = codes "set_day_night_time" in
        let a : hn % 2 ^ 8 ≡ hn = omega (arith, four.night_hour) in
        let b : mn % 2 ^ 8 ≡ mn = omega (arith, four.night_minute) in
        let c : hd % 2 ^ 8 ≡ hd = omega (arith, four.day_hour) in
        let d : md % 2 ^ 8 ≡ md = omega (arith, four.day_minute) in
        simp
          (
            lib.compares cmd (codes "set_time"),
            lib.compares cmd (codes "set_alarm"),
            lib.compares cmd (codes "unset_alarm"),
            lib.compares cmd (codes "set_day_night_time"),
            lib.reads hn (omega (arith, four.night_hour)),
            lib.reads mn (omega (arith, four.night_minute)),
            lib.reads hd (omega (arith, four.day_hour)),
            lib.reads md (omega (arith, four.day_minute)),
            a,
            b,
            c,
            d,
          )
          refl

    arguments-times :
        arguments sys (codes "set_day_night_time" ∷ times hn mn hd md)
        ≡ codes "set_day_night_time" ∷ times hn mn hd md
    unfolding arguments memeq
    arguments-times =
        let cmd = codes "set_day_night_time" in
        simp (lib.compares cmd (codes "local"), lib.compares cmd (codes "udp")) refl

  effect :
      {nv : Nvram} (rs_rc : ℕ) (d : Device nv) {alarm : Alarm.Alarm}
      → d.alarm ≡ alarm
      → let d' = Mail.new_packet (night_payload hn mn hd md) rs_rc d in
        (d'.night_day
          ≡ record { start_night_time = u16 (hn * 60 + mn); start_day_time = u16 (hd * 60 + md) })
        × (d'.hmac_message_counter ≡ d.hmac_message_counter)
        × (d'.alarm ≡ alarm)
  unfolding Mail.new_packet NightDay.night_day_time_set
  effect rs_rc d e = (refl, refl, e)

module _ (sys : System) (lib : IsLibrary sys) (rs : Rs) (c : rs.Control) (sha : Sha256)
    (hash : IsHash sha) (hn mn hd md : ℕ) (four : AreBytes hn mn hd md) where
  -- From the command line to the clock's night. `txnc433 set_day_night_time <hn> <mn> <hd> <md>`,
  -- with bytes written in decimal, exits with 0 and has broadcast the header and the encoded
  -- request, after it wrote its new counter into the secret file; and a clock with the same secret
  -- that receives these symbols with at most 5 of 31 wrong takes the first two for the start of the
  -- night and the others for the start of the day, with its counter one past the sender's, and
  -- keeps its alarm. The file is loaded; `strcasecmp` and `strtol` compare and read texts as
  -- documented; the socket, the file and the network do what is asked; the codec corrects up to 5
  -- wrong symbols in this message and the hash gives 32 bytes; the code is ready and the packet
  -- differs from the previous one; the clock's counter is not past the sender's, is less than 256
  -- behind it, and neither wraps.
  pub set_day_night_time_received :
      {nv : Nvram} (stack : List ℕ) (s s' : Sender sys.files) (fd : sys.files.Handle)
      → libnc_init rs s ≡ (true, some c, s')
      → s'.secret_fd ≡ some fd
      → s'.secret_file.counter + 257 < 2 ^ 64
      → let secret = s'.secret_file.secret_data in
        let (p, counter) =
          hmac433_encode sha secret (request (night_payload hn mn hd md)) s'.secret_file.counter in
        let file = record (s'.secret_file) { counter = counter } in
        let word = ncrs_encode rs c (bytes_of_packet p) in
        IsCodec rs c (pack msg_symbols 0 (bytes_of_packet p))
        → (ok : Succeeds sys fd s' file (header ++ word)) (d : Device nv)
        → d.rx.nc.new_code_ready ≡ true
        → length d.rx.nc.new_code ≡ nc_data_size
        → IsSymbols d.rx.nc.new_code
        → differences d.rx.nc.new_code word ≤ 5
        → memeq (bytes_of_packet d.previous_packet) (bytes_of_packet p) ≡ false
        → d.hmac_message_counter ≤ s'.secret_file.counter + 1
        → s'.secret_file.counter + 1 < d.hmac_message_counter + 256
        → let d' = mail_receive_messages rs c sha secret d in
          (main sys rs sha stack (codes "set_day_night_time" ∷ times hn mn hd md) s
            ≡ (0, sent sys fd s' file (header ++ word) ok.socket))
          × (d'.night_day ≡ record {
            start_night_time = u16 (hn * 60 + mn);
            start_day_time = u16 (hd * 60 + md);
          })
          × (d'.hmac_message_counter ≡ s'.secret_file.counter + 2)
          × (d'.alarm ≡ d.alarm)
  unfolding hmac433_encode copy_payload
  set_day_night_time_received stack s s' fd init opened fits codec ok d is_ready size symbols wrong
        new le near =
      let payload = night_payload hn mn hd md in
      let bytes = night_payload-IsBytes hn mn hd md four in
      let secret = s'.secret_file.secret_data in
      let n = s'.secret_file.counter in
      let took =
        request_received sha hash secret payload n refl bytes rs c codec d (omega arith) is_ready
          size symbols wrong new le near in
      let (night, counter, alarm) =
        effect hn mn hd md four _ (taken sha hash secret payload n refl bytes d)
          (noticed-Unaffected rs c sha secret d).alarm in
      (
        main-command sys rs c sha hash (codes "set_day_night_time") (times hn mn hd md)
            (arguments-times hn mn hd md four sys lib) stack payload 5 s s' fd
            (command-times hn mn hd md four sys lib s') init opened bytes fits codec ok,
        rw took night,
        rw took counter,
        rw took alarm,
      )
