-- ===== src/Lib.antt =====
-- The firmware of an alarm clock that takes its messages by radio, and the sender's side of these
-- messages. Paths are those of the repository.
--
-- A rising edge of the 433 MHz receiver interrupts the clock. `rx433_interrupt` (rx433.c) measures
-- the time between edges and decodes two formats, Home Easy codes and "new codes" of 31 symbols.
-- The main loop calls `mail_receive_messages` (mail.c): it takes what has been decoded, corrects
-- the symbols and unpacks a packet (ncrs.c), checks the packet's HMAC against a message counter
-- (hmac433.c, hmac.c) and acts on it: it sets the alarm (alarm.c), the night's times
-- (night_day_time.c) or the clock, or shows a text. The loop also reads the clock and the buttons,
-- and runs the display, the lights and the sound (cpeclock.ino). Counter, alarm and night's times
-- are kept in the battery-backed memory of the DS1307 (nvram.h). The sender (txnc433) builds its
-- packets with the same hmac433.c and ncrs.c.
--
-- Which file models what:
--   Base       Boolean tests, lists, words of 8 to 64 bits, bit operations and text, shared by all
--   Hal        hal.h, nvram.h and the memory functions of cpeclock.ino. The DS1307 driver is the
--              parameter `Nvram`; that it keeps what is written is the law `IsMemory`.
--              Hal/Failing is a memory that loses the writes after a power failure
--   Alarm      alarm.c and alarm.h; Alarm/Region the loop over the ringing minutes, Alarm/Update
--              one call, Alarm/Cycle many calls, Alarm/Persist the memory
--   NightDay   night_day_time.c; NightDay/Interval the test, NightDay/Persist the memory
--   Hmac       hmac.c over the parameter `Sha256`; Hmac/Standard compares it with HMAC's definition
--   Hmac433    hmac433.c and hmac433.h; Hmac433/Counter the counter in a packet, Hmac433/RoundTrip
--              sender and receiver, Hmac433/Replay what a receiver accepts
--   Ncrs       ncrs.c and ncrs.h over the parameter `Rs`, the Reed-Solomon codec; Ncrs/Copy
--              and Ncrs/Bits the packing of bits, Ncrs/Order the interleaving, Ncrs/Correct both
--              directions, Ncrs/Attempts the loop over the shifts, Ncrs/Shift a shifted word
--   Rx433      rx433.c and rx433.h; Rx433/Invariant for any edges, Rx433/HomeEasyCode and
--              Rx433/Message for the two formats, with Rx433/Pulses saying what is on the air;
--              Rx433/Message/Cut a message that begins in the middle, Rx433/SkipLoop and
--              Rx433/LostEdges the loop over skipped symbols
--   Mail       mail.c; Mail/Counter and Mail/Boot the counter in the memory, Mail/Receive a whole
--              call of `mail_receive_messages`, Mail/Request the way of a packet from the sender to
--              its effect, Mail/Link a request for an alarm
--   Board      the libraries that cpeclock.ino calls, as the parameter `Board`: dates and times,
--              text widths, the strip of lights. `IsCalendar` and `IsStrip` are their laws
--   Screen     cpeclock.ino, the display and the clock; Screen/Split the two lines of a message,
--              Screen/Message what is on the display, Screen/Clock the loop of `clock_set`
--   Effects    cpeclock.ino, the lights and the sound of an alarm; Effects/Brightness describes what
--              the lights should show, Effects/Lights what the parts of the code leave and
--              Effects/Calls what they call, Effects/Bounds is about a whole call of `update_alarm`,
--              Effects/Tones how often it sounds, Effects/Strobe what becomes of a second alarm
--   Firmware   cpeclock.ino, `loop`, and `setup` in Firmware/Setup; Firmware/Memory any rounds of
--              `loop` and any interrupts, Firmware/Startup and Firmware/PowerCycle what `setup`
--              finds, Firmware/Halts where it stays for ever, Firmware/Buttons how an alarm is
--              cancelled, Firmware/Radio a message on the air while the loop runs
--   Libnc      txnc433/libnc.c and libnc.h over the parameter `Files`, the C library's files;
--              Libnc/Encode shows what `libnc_encode` makes of a request, Libnc/Disk how the secret
--              file is loaded, under the law `IsDisk`, and Libnc/Restart the next run of the program
--   Txnc433    txnc433/udp.c and txnc433/txnc433.c over the parameter `System`: the broadcast of a
--              message, and the commands, with the law `IsLibrary` of `strcasecmp` and `strtol`;
--              Txnc433/Sends the way from `main` to the datagram, Txnc433/SetAlarm and
--              Txnc433/SetNight from the command line to the clock, Txnc433/SetTime the waiting for
--              the right moment, with a clock under the law `IsClock`
-- A Tests module beside most of them holds runs on concrete data.
--
-- How the state is modelled: the static variables of a C file are a record, which an operation
-- takes and returns beside its result. `Hal` is the board: the memory, and the calls of the display
-- and of the clock in order. `Device` (Mail) holds the records of all parts. An interrupt is one
-- step, `rx433_interrupt`, on its time; the critical section of `mail_receive_messages` is one step
-- too, and no interrupt is modelled within the rest of the call, which reads nothing of the
-- receiver. Numbers are natural numbers, with the wrap of a C type written out (`u8`, `u16`,
-- `u32`, `u64`). What the hardware answers in a round of `loop` is the record `Inputs`. The calls
-- that the C files make of the display and the clock are carried out by cpeclock.ino's functions
-- when the C file's call is over; they read nothing that it changes in between. A failing call
-- returns an `Option` or a Boolean.
--
-- Bounds: the loop over skipped symbols in rx433.c runs on fuel for 31 rounds, one for each symbol
-- of a message, since each round counts a symbol. The waiting loops of txnc433.c stop after the
-- 20000 rounds that the source gives them, which last for two seconds at least. Decimal texts have
-- room for 20 digits, which hold every number of 64 bits. The loop of `clock_set` runs on fuel for
-- two tests, since one day added to a time of the same day passes the present. All other loops are
-- by structure.
--
-- Not modelled: sha256.c and reed_solomon.c with its headers are copies of public libraries and
-- parameters here (`Sha256`, `Rs`), with what is relied on as the laws `IsHash` and `IsCodec`. Of
-- cpeclock.ino the serial port, the built-in LED, the modes of the pins and the delay are left out,
-- as is an interrupt in the middle of a call. list.h and variant.h are third-party headers, eeprom.c
-- is empty, and the Python files drive the sender's hardware.
pub mod Base
pub mod Hal
pub mod Alarm
pub mod NightDay
pub mod Hmac
pub mod Hmac433
pub mod Ncrs
pub mod Rx433
pub mod Mail
pub mod Board
pub mod Screen
pub mod Effects
pub mod Firmware
pub mod Libnc
pub mod Txnc433
