-- ===== src/Txnc433/Tests.antt =====
-- Two commands on a concrete system, and the clock that hears them.
use cpeclock.Base.{
  none, ◌/◌, ◌%◌, ◌≤◌, ◌<◌, ◌∷◌, false, ℕ, ◌+◌, ◌*◌, ◌≡◌, refl, arith, List, [], ◌++◌, map, true,
  false, some, replicate, length, memeq, u16,
}
use cpeclock.Base.Text.{decimal, decimal-padded}
use cpeclock.Alarm
use cpeclock.Hal.{cells}
use cpeclock.Hmac.{le_bytes}
use cpeclock.Hmac.Tests.{checksum, checksum-IsHash}
use cpeclock.Hmac433.{Packet, hmac433_encode}
use cpeclock.Libnc.{
  Sender, SecretFile, load_secret_file, read_secret_file, save_secret_file, libnc_init,
}
use cpeclock.Libnc.Tests.{one_file, sender, closed}
use cpeclock.Mail.{Device, bytes_of_packet, of_le_bytes, mail_receive_messages}
use cpeclock.Mail.Link.{alarm_request, code-IsMessage}
use cpeclock.Mail.Tests.{device}
use cpeclock.Ncrs.{Rs, IsSymbols, pack, ncrs_encode, nc_data_size, ncrs_init}
use cpeclock.Ncrs.Correct.{ncrs_encode_size, differences_self}
use cpeclock.Ncrs.Tests.{one_word, one_word-IsCodec}
use cpeclock.Txnc433.{System, header, main}
use cpeclock.Txnc433.Sends.{IsLibrary, Succeeds, sent, to_lower}
use cpeclock.Base.Text.{codes}
use cpeclock.Mail.Request.{request, request-IsMessage}
use cpeclock.Txnc433.SetNight.{
  AreBytes, night_payload, night_payload-IsBytes, times, set_day_night_time_received,
}
use cpeclock.Txnc433.{set_time}
use cpeclock.Txnc433.SetTime.{IsClock, time_payload, set_time_lem}
use cpeclock.Txnc433.SetAlarm.{set_alarm, set_alarm_received}

-- The network takes everything, and the clock stands still.
abbrev network : System
network = record {
  files = one_file;
  Socket = Unit {0};
  socket = λ w. (some tt, w);
  setsockopt = λ s w. (true, w);
  sendto = λ s datagram w. (true, w);
  close = λ s w. w;
  usleep = λ w. (some (0, 0), w);
  localtime = λ sec. some (0, 0, 0);
  strtol = λ text. decimal 0 text;
  strcasecmp = λ a b. memeq (map to_lower a) (map to_lower b);
}

network-IsLibrary : IsLibrary network
network-IsLibrary = record {
  compares = λ a b. refl;
  reads = λ n h. decimal-padded 1 n (omega (arith, h));
}

abbrev key : List ℕ
key = replicate 56 9

abbrev packet : Packet
packet = (hmac433_encode checksum key (alarm_request 6 45) 41).0

abbrev codec : Rs
codec = one_word (pack 21 0 (bytes_of_packet packet))

abbrev word : List ℕ
word = ncrs_encode codec tt (bytes_of_packet packet)

abbrev loaded : Sender one_file
loaded = record sender { world = le_bytes 8 41 ++ key }

init : libnc_init codec closed ≡ (true, some tt, loaded)
unfolding libnc_init load_secret_file read_secret_file of_le_bytes le_bytes ncrs_init
init = refl

network-Succeeds :
    Succeeds network tt loaded
      (record {
        counter = (hmac433_encode checksum key (alarm_request 6 45) 41).1;
        secret_data = key;
      })
      (header ++ word)
unfolding save_secret_file
network-Succeeds = record {
  socket = tt;
  opens = refl;
  broadcasts = refl;
  saves = refl;
  sends = refl;
}

-- The clock is two messages behind.
abbrev clock : Device cells
clock = record device {
  hmac_message_counter = 40;
  rx = record (device.rx) { nc = record (device.rx.nc) { new_code = word; new_code_ready = true } };
}

word_size : (length word ≡ nc_data_size) × IsSymbols word
word_size =
    ncrs_encode_size codec tt (bytes_of_packet packet) (one_word-IsCodec _)
      (code-IsMessage checksum checksum-IsHash key 6 45 41 (omega arith) (omega arith))

packet_new : memeq (bytes_of_packet clock.previous_packet) (bytes_of_packet packet) ≡ false
unfolding memeq bytes_of_packet hmac433_encode
packet_new = refl

set_alarm_received_example :
    let d' = mail_receive_messages codec tt checksum key clock in
    let file : SecretFile = record {
      counter = (hmac433_encode checksum key (alarm_request 6 45) 41).1;
      secret_data = key;
    } in
    (main network codec checksum [] (set_alarm 6 45) closed
      ≡ (0, sent network tt loaded file (header ++ word) tt))
    × (d'.alarm ≡ record { time = u16 (6 * 60 + 45); state = Alarm.reset })
    × (d'.hmac_message_counter ≡ 41 + 2)
set_alarm_received_example =
    set_alarm_received network network-IsLibrary codec tt checksum checksum-IsHash 6 45
      (omega arith) (omega arith) [] closed loaded tt init refl (omega arith)
      (one_word-IsCodec (pack 21 0 (bytes_of_packet packet))) network-Succeeds clock refl
      word_size.0 word_size.1 (omega (arith, differences_self word)) packet_new (omega arith)
      (omega arith)

-- The command `set_day_night_time 22 30 6 15`.
night_four : AreBytes 22 30 6 15
night_four = record {
  night_hour = omega arith;
  night_minute = omega arith;
  day_hour = omega arith;
  day_minute = omega arith;
}

abbrev night_packet : Packet
night_packet = (hmac433_encode checksum key (request (night_payload 22 30 6 15)) 41).0

abbrev night_codec : Rs
night_codec = one_word (pack 21 0 (bytes_of_packet night_packet))

abbrev night_word : List ℕ
night_word = ncrs_encode night_codec tt (bytes_of_packet night_packet)

abbrev night_file : SecretFile
night_file = record {
  counter = (hmac433_encode checksum key (request (night_payload 22 30 6 15)) 41).1;
  secret_data = key;
}

night_init : libnc_init night_codec closed ≡ (true, some tt, loaded)
unfolding libnc_init load_secret_file read_secret_file of_le_bytes le_bytes ncrs_init
night_init = refl

night-Succeeds : Succeeds network tt loaded night_file (header ++ night_word)
unfolding save_secret_file
night-Succeeds = record { socket = tt; opens = refl; broadcasts = refl; saves = refl; sends = refl }

abbrev night_clock : Device cells
night_clock = record clock {
  rx = record (device.rx) {
    nc = record (device.rx.nc) { new_code = night_word; new_code_ready = true };
  };
}

night_word_size : (length night_word ≡ nc_data_size) × IsSymbols night_word
night_word_size =
    ncrs_encode_size night_codec tt (bytes_of_packet night_packet) (one_word-IsCodec _) (
      request-IsMessage checksum checksum-IsHash key (night_payload 22 30 6 15) 41 refl
        (night_payload-IsBytes 22 30 6 15 night_four))

night_new :
    memeq (bytes_of_packet night_clock.previous_packet) (bytes_of_packet night_packet) ≡ false
unfolding memeq bytes_of_packet hmac433_encode
night_new = refl

set_day_night_time_received_example :
    let d' = mail_receive_messages night_codec tt checksum key night_clock in
    (main network night_codec checksum [] (codes "set_day_night_time" ∷ times 22 30 6 15) closed
      ≡ (0, sent network tt loaded night_file (header ++ night_word) tt))
    × (d'.night_day
        ≡ record { start_night_time = u16 (22 * 60 + 30); start_day_time = u16 (6 * 60 + 15) })
    × (d'.hmac_message_counter ≡ 41 + 2)
    × (d'.alarm ≡ night_clock.alarm)
set_day_night_time_received_example =
    set_day_night_time_received network network-IsLibrary night_codec tt checksum checksum-IsHash 22
      30 6 15 night_four [] closed loaded tt night_init refl (omega arith)
      (one_word-IsCodec (pack 21 0 (bytes_of_packet night_packet))) night-Succeeds night_clock refl
      night_word_size.0 night_word_size.1 (omega (arith, differences_self night_word)) night_new
      (omega arith) (omega arith)

-- A clock that goes on by 100 microseconds in each round.
abbrev ticking : System
ticking = record {
  files = record {
    World = ℕ;
    Handle = Unit {0};
    getenv = λ name w. none;
    fopen = λ path w. (none, w);
    fread = λ fd n w. ([], w);
    fwrite = λ fd bytes w. (false, w);
    rewind = λ fd w. w;
    fflush = λ fd w. (false, w);
    fclose = λ fd w. w;
  };
  Socket = Unit {0};
  socket = λ w. (none, w);
  setsockopt = λ s w. (true, w);
  sendto = λ s datagram w. (true, w);
  close = λ s w. w;
  usleep = λ w. (some ((w + 100) / 1000000, (w + 100) % 1000000), w + 100);
  localtime = λ sec. some (sec / 3600 % 24, sec / 60 % 60, sec % 60);
  strtol = λ text. decimal 0 text;
  strcasecmp = λ a b. memeq (map to_lower a) (map to_lower b);
}

ticking-IsClock : IsClock ticking 100 (λ w. w)
ticking-IsClock = record { tells = λ w. refl; passes = λ w. (omega arith, omega arith) }

abbrev of_day : ℕ → ℕ × ℕ × ℕ
of_day sec = (sec / 3600 % 24, sec / 60 % 60, sec % 60)

set_time_lem_example :
    let (told, w') = set_time ticking (replicate 6 0) 900000 12345678 in
    (told ≡ some (time_payload (replicate 6 0) (of_day (w' / 1000000 + 1))))
    × (900000 ≤ w' % 1000000)
    × (w' % 1000000 < 900000 + 100)
set_time_lem_example =
    set_time_lem ticking 100 (λ w. w) ticking-IsClock 900000 of_day (replicate 6 0) 12345678
      (λ sec. refl) (omega arith) (omega arith)
