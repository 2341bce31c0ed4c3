-- ===== src/Txnc433/SetAlarm.antt =====
-- The command `set_alarm`, from the command line to the datagram.
use cpeclock.Base.{
  ℕ, ◌+◌, ◌*◌, ◌%◌, ◌^◌, ◌<◌, ◌≤◌, ◌≡◌, refl, arith, List, [], ◌∷◌, ◌++◌, true, false, some, memeq,
  IsByte, u16, length,
}
use cpeclock.Base.Text.{codes, padded}
use cpeclock.Alarm
use cpeclock.Hal.{Nvram}
use cpeclock.Mail.{Device, mail_receive_messages}
use cpeclock.Mail.Link.{alarm_request, alarm_request_received}
use cpeclock.Hmac.{Sha256, IsHash}
use cpeclock.Hmac433.{hmac433_encode}
use cpeclock.Ncrs.{
  Rs, IsCodec, IsSymbols, differences, pack, ncrs_encode, msg_symbols, nc_data_size,
}
use cpeclock.Mail.{bytes_of_packet}
use cpeclock.Libnc.{Sender, copy_payload, libnc_init}
use cpeclock.Txnc433.Sends.{IsLibrary, Succeeds, sent, main-command}
use cpeclock.Txnc433.{System, header, arguments, command, main}

abbrev pub set_alarm : ℕ → ℕ → List (List ℕ)
set_alarm hour minute = codes "set_alarm" ∷ padded 1 10 hour ∷ padded 1 10 minute ∷ []

abbrev pub request : ℕ → ℕ → List ℕ
request hour minute = b'A' ∷ hour ∷ minute ∷ 0 ∷ 0 ∷ 0 ∷ []

module _ (sys : System) (lib : IsLibrary sys) (hour minute : ℕ) (hour_byte : IsByte hour)
    (minute_byte : IsByte minute) where
  command-set_alarm :
      (s : Sender sys.files)
      → command sys (codes "set_alarm") (set_alarm hour minute) s
        ≡ (some (request hour minute, 3), s)
  unfolding command memeq
  command-set_alarm s =
      let hour_same : hour % 2 ^ 8 ≡ hour = omega (arith, hour_byte) in
      let minute_same : minute % 2 ^ 8 ≡ minute = omega (arith, minute_byte) in
      simp
        (
          lib.compares (codes "set_alarm") (codes "set_time"),
          lib.compares (codes "set_alarm") (codes "set_alarm"),
          lib.reads hour (omega arith),
          lib.reads minute (omega arith),
          hour_same,
          minute_same,
        )
        refl

  arguments-set_alarm : arguments sys (set_alarm hour minute) ≡ set_alarm hour minute
  unfolding arguments memeq
  arguments-set_alarm =
      simp
        (
          lib.compares (codes "set_alarm") (codes "local"),
          lib.compares (codes "set_alarm") (codes "udp"),
        )
        refl

module _ (sys : System) (lib : IsLibrary sys) (rs : Rs) (c : rs.Control) (sha : Sha256)
    (hash : IsHash sha) (hour minute : ℕ) (hour_byte : IsByte hour)
    (minute_byte : IsByte minute) where
  -- From the command line to the alarm. `txnc433 set_alarm <h> <m>`, with bytes written in decimal,
  -- exits with 0 and has broadcast the header and the encoded request, after it wrote its new
  -- counter into the secret file; and a clock with the same secret that receives these symbols with
  -- at most 5 of 31 wrong sets its alarm to that time, in the state reset, with its counter one
  -- past the sender's. The file is loaded; `strcasecmp` and `strtol` compare and read texts as
  -- documented; the socket, the file and the network do what is asked; the codec corrects up to 5
  -- wrong symbols in this message and the hash gives 32 bytes; the code is ready and the packet
  -- differs from the previous one; the clock's counter is not past the sender's, is less than 256
  -- behind it, and neither wraps.
  pub set_alarm_received :
      {nv : Nvram} (stack : List ℕ) (s s' : Sender sys.files) (fd : sys.files.Handle)
      → libnc_init rs s ≡ (true, some c, s')
      → s'.secret_fd ≡ some fd
      → s'.secret_file.counter + 257 < 2 ^ 64
      → let secret = s'.secret_file.secret_data in
        let (p, counter) =
          hmac433_encode sha secret (alarm_request hour minute) s'.secret_file.counter in
        let file = record (s'.secret_file) { counter = counter } in
        let word = ncrs_encode rs c (bytes_of_packet p) in
        IsCodec rs c (pack msg_symbols 0 (bytes_of_packet p))
        → (ok : Succeeds sys fd s' file (header ++ word)) (d : Device nv)
        → d.rx.nc.new_code_ready ≡ true
        → length d.rx.nc.new_code ≡ nc_data_size
        → IsSymbols d.rx.nc.new_code
        → differences d.rx.nc.new_code word ≤ 5
        → memeq (bytes_of_packet d.previous_packet) (bytes_of_packet p) ≡ false
        → d.hmac_message_counter ≤ s'.secret_file.counter + 1
        → s'.secret_file.counter + 1 < d.hmac_message_counter + 256
        → let d' = mail_receive_messages rs c sha secret d in
          (main sys rs sha stack (set_alarm hour minute) s
            ≡ (0, sent sys fd s' file (header ++ word) ok.socket))
          × (d'.alarm ≡ record { time = u16 (hour * 60 + minute); state = Alarm.reset })
          × (d'.hmac_message_counter ≡ s'.secret_file.counter + 2)
  unfolding hmac433_encode copy_payload
  set_alarm_received stack s s' fd init opened fits codec ok d is_ready size symbols wrong new le
        near =
      let (alarm, counter, night) =
        alarm_request_received sha hash s'.secret_file.secret_data hour minute
          s'.secret_file.counter hour_byte minute_byte rs c codec d (omega arith) is_ready size
          symbols wrong new le near in
      (
        main-command sys rs c sha hash (codes "set_alarm")
            (padded 1 10 hour ∷ padded 1 10 minute ∷ [])
            (arguments-set_alarm sys lib hour minute hour_byte minute_byte) stack
            (request hour minute) 3 s s' fd
            (command-set_alarm sys lib hour minute hour_byte minute_byte s') init opened
            (
              omega arith,
              (hour_byte, (minute_byte, (omega arith, (omega arith, (omega arith, tt))))),
            )
            fits codec ok,
        alarm,
        omega (arith, counter),
      )
