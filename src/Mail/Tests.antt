-- ===== src/Mail/Tests.antt =====
-- A memory in use, and what becomes of it.
use cpeclock.Base.{
  IsBytes, ℕ, ◌+◌, ◌*◌, ◌≡◌, refl, arith, List, [], ◌∷◌, ◌++◌, true, false, some, get_or, replicate,
  length, memeq,
}
use cpeclock.Hal.{Hal, cells, cells-IsMemory, nvram_read, nvram_write}
use cpeclock.Alarm
use cpeclock.NightDay
use cpeclock.Rx433
use cpeclock.Hmac.Tests.{checksum, checksum-IsHash}
use cpeclock.Hmac433.{Packet, hmac433_encode}
use cpeclock.Ncrs.{Rs, IsSymbols, pack, ncrs_encode, nc_data_size}
use cpeclock.Ncrs.Correct.{IsMessage, ncrs_encode_size, differences_self}
use cpeclock.Ncrs.Tests.{one_word, one_word-IsCodec}
use cpeclock.Mail.{
  Device, bytes_of_packet, mail_init, save_counter, of_le_bytes, read_bytes, new_code,
  mail_receive_messages,
}
use cpeclock.Mail.Link.{alarm_request, code-IsMessage}
use cpeclock.Mail.Request.{taken, request_received}
use cpeclock.Ncrs.{differences}
use cpeclock.Mail.{new_packet}
use cpeclock.Mail.Receive.{Kept}
use cpeclock.Mail.Receive.Effect.{Effect, mail_receive_messages-Effect, new_code-new_code}
use cpeclock.Mail.Receive.PowerCycle.{Recovered, mail_receive_messages-Recovered}
use cpeclock.Mail.Counter.{Holds}
use cpeclock.Hal.Failing.{with_power_failure}
use cpeclock.Mail.Boot.{mail_init-save_counter, power_failure}

-- The second slot is in use.
abbrev used : Hal cells
used = record {
  mem =
      λ a. get_or (replicate 8 7 ++ (0x34 ∷ 0x12 ∷ replicate 6 0) ++ (0xae ∷ 1 ∷ 0xc2 ∷ [])) a 0xff;
  out = [];
}

used-Holds : Holds 0x1234 used
unfolding nvram_read read_bytes of_le_bytes
used-Holds = record { check_1 = refl; check_2 = refl; state = omega arith; value = refl }

mail_init-save_counter_example :
    mail_init (save_counter 0x1235 used) ≡ (true, some 0x1235, save_counter 0x1235 used)
mail_init-save_counter_example =
    mail_init-save_counter cells-IsMemory used 0x1234 0x1235 (omega arith) used-Holds

power_failure_example :
    let h' = with_power_failure 4 (save_counter 0x1235) used in
    mail_init h' ≡ (true, some 0x1234, h')
power_failure_example = power_failure cells-IsMemory used 0x1234 0x1235 (omega arith) used-Holds 4

-- The device's other variables, as they are after the boot.
abbrev pub device : Device cells
device = record {
  hmac_message_counter = 0x1234;
  previous_packet = record {
    payload = replicate 6 0;
    counter_low = 0;
    hmac = replicate 6 0;
    counter_resync_flag = 0;
  };
  alarm = record { time = 450; state = Alarm.enabled };
  night_day = record { start_night_time = 1350; start_day_time = 375 };
  rx = Rx433.start;
  hal =
      Alarm.save_to_nvram (record { time = 450; state = Alarm.enabled })
        (NightDay.save_to_nvram (record { start_night_time = 1350; start_day_time = 375 }) used);
}

pub device-Kept : Kept device
unfolding nvram_read read_bytes of_le_bytes Alarm.save_to_nvram NightDay.save_to_nvram nvram_write
device-Kept = record {
  counter = record { check_1 = refl; check_2 = refl; state = omega arith; value = refl };
  counter_fits = omega arith;
  alarm = record { hi = refl; lo = refl; state = refl };
  alarm_fits = omega arith;
  night_day = record { night_hi = refl; night_lo = refl; day_hi = refl; day_lo = refl };
}

abbrev pub key : List ℕ
key = 1 ∷ 2 ∷ 3 ∷ []

-- The sender was last at 0x1240, and asks for an alarm at 06:45.
abbrev pub packet : Packet
packet = (hmac433_encode checksum key (alarm_request 6 45) 0x1240).0

abbrev pub codec : Rs
codec = one_word (pack 21 0 (bytes_of_packet packet))

abbrev pub word : List ℕ
word = ncrs_encode codec tt (bytes_of_packet packet)

abbrev pub has_received : Device cells
has_received = record device {
  rx = record (device.rx) { nc = record (device.rx.nc) { new_code = word; new_code_ready = true } };
}

packet-IsMessage : IsMessage (bytes_of_packet packet)
packet-IsMessage =
    code-IsMessage checksum checksum-IsHash key 6 45 0x1240 (omega arith) (omega arith)

pub word_size : (length word ≡ nc_data_size) × IsSymbols word
word_size = ncrs_encode_size codec tt (bytes_of_packet packet) (one_word-IsCodec _) packet-IsMessage

pub packet_new : memeq (bytes_of_packet device.previous_packet) (bytes_of_packet packet) ≡ false
unfolding memeq bytes_of_packet hmac433_encode
packet_new = refl

abbrev asked : List ℕ
asked = b'A' ∷ 6 ∷ 45 ∷ 0 ∷ 0 ∷ 0 ∷ []

asked-IsBytes : IsBytes asked
asked-IsBytes = ground arith

request_received_example :
    mail_receive_messages codec tt checksum key has_received
    ≡ new_packet asked
        (1 + differences word (ncrs_encode codec tt (bytes_of_packet packet)) * 10)
        (taken checksum checksum-IsHash key asked 0x1240 refl asked-IsBytes has_received)
request_received_example =
    request_received checksum checksum-IsHash key asked 0x1240 refl asked-IsBytes codec tt
      (one_word-IsCodec (pack 21 0 (bytes_of_packet packet))) has_received (omega arith) refl
      word_size.0 word_size.1 (omega (arith, differences_self word)) packet_new (omega arith)
      (omega arith)

mail_receive_messages-Recovered_example :
    let d' = mail_receive_messages codec tt checksum key has_received in Kept d' × Recovered d'
mail_receive_messages-Recovered_example =
    mail_receive_messages-Recovered cells-IsMemory codec tt checksum key has_received (record {
      counter = device-Kept.counter;
      counter_fits = device-Kept.counter_fits;
      alarm = device-Kept.alarm;
      alarm_fits = device-Kept.alarm_fits;
      night_day = device-Kept.night_day;
    })

mail_receive_messages-Effect_example :
    Effect codec tt checksum key has_received
      (mail_receive_messages codec tt checksum key has_received)
mail_receive_messages-Effect_example =
    mail_receive_messages-Effect codec tt checksum key has_received

new_code-new_code_example :
    new_code codec tt checksum key word (new_code codec tt checksum key word device)
    ≡ new_code codec tt checksum key word device
new_code-new_code_example = new_code-new_code codec tt checksum key word device
