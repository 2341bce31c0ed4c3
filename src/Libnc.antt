-- ===== src/Libnc.antt =====
-- txnc433/libnc.c and libnc.h: the sender's side, with its counter and secret in a file. The C
-- library's files are the parameter `Files`. Texts on stderr are left out, but for those of
-- `display_message`, which is the sender's own here.
pub mod Encode
pub mod Disk
pub mod Restart
pub mod Tests
use cpeclock.Base.{
  ℕ, ◌+◌, ◌-◌, ◌*◌, ◌^◌, ◌==◌, ◌++◌, List, [], ◌∷◌, Bool, true, false, not, Option, none, some,
  zero, suc, ltb, if◌then◌else◌, length, take, drop, replicate, memeq, u64,
}
use cpeclock.Base.Text.{codes, snprintf}
use cpeclock.Hal.{Hal, dead}
use cpeclock.Hmac.{Sha256, le_bytes}
use cpeclock.Hmac433.{
  Packet, packet_payload_size, packet_hmac_size, hmac433_authenticate, hmac433_encode,
}
use cpeclock.Ncrs.{Rs, nc_data_size, ncrs_init, ncrs_decode, ncrs_encode}
use cpeclock.Mail.{packet_of_bytes, bytes_of_packet, of_le_bytes}

-- The C library: the environment and the open files. `fread` gives the bytes read, `fwrite` and
-- `fflush` whether all went well.
pub record Files : Type 1 where
  pub World : Type 0
  pub Handle : Type 0
  pub getenv : List ℕ → World → Option (List ℕ)
  pub fopen : List ℕ → World → Option Handle × World
  pub fread : Handle → ℕ → World → List ℕ × World
  pub fwrite : Handle → List ℕ → World → Bool × World
  pub rewind : Handle → World → World
  pub fflush : Handle → World → Bool × World
  pub fclose : Handle → World → World

abbrev pub resync : ℕ
resync = 0

-- BUFSIZ of the GNU C library.
abbrev bufsiz : ℕ
bufsiz = 8192

abbrev pub secret_data_size : ℕ
secret_data_size = 56

abbrev pub secret_file_size : ℕ
secret_file_size = 8 + secret_data_size

pub record SecretFile : Type 0 where
  pub counter : ℕ
  pub secret_data : List ℕ

abbrev pub bytes_of_file : SecretFile → List ℕ
bytes_of_file f = le_bytes 8 f.counter ++ f.secret_data

abbrev pub file_of_bytes : List ℕ → SecretFile
file_of_bytes bytes = record { counter = of_le_bytes (take 8 bytes); secret_data = drop 8 bytes }

abbrev pub secret_file_name : List ℕ
secret_file_name = codes ".hmac433.dat"

-- The static variables, and the world outside.
pub record Sender (files : Files) : Type 0 where
  pub secret_fd : Option files.Handle
  pub secret_file : SecretFile
  pub stderr : Hal dead
  pub world : files.World

-- The loop that copies the payload into a packet of zeros.
unfoldable pub copy_payload : ℕ → ℕ → List ℕ → List ℕ
copy_payload zero size payload = []
copy_payload (suc room) zero payload = replicate (suc room) 0
copy_payload (suc room) (suc size) [] = replicate (suc room) 0
copy_payload (suc room) (suc size) (x ∷ xs) = x ∷ copy_payload room size xs

abbrev pub new_packet : List ℕ → ℕ → Packet
new_packet payload payload_size = record {
  payload = copy_payload packet_payload_size payload_size payload;
  counter_low = 0;
  hmac = replicate packet_hmac_size 0;
  counter_resync_flag = if payload_size == resync then 0x80 else 0;
}

module _ (rs : Rs) (c : rs.Control) (sha : Sha256) where
  -- The test that the packet can be decoded. `stack` is what `packet2` holds before.
  pub self_test : List ℕ → Packet → List ℕ → List ℕ → ℕ → Bool
  self_test stack packet message secret counter =
      let packet2 : List ℕ = elim (ncrs_decode rs c message) [
        | none ↦ stack
        | some (rs_rc, bytes) ↦ bytes
      ] in
      if not (memeq packet2 (bytes_of_packet packet))
      then false
      else (hmac433_authenticate sha secret (packet_of_bytes packet2)
          (u64 (counter + (2 ^ 64 - 1)))).0

module _ {files : Files} where
  open files use {Handle, getenv, fopen, fread, fwrite, rewind, fflush, fclose}

  -- The file is open: what was read of it goes over the first bytes of `secret_file`.
  unfoldable pub read_secret_file : Handle → Sender files → Bool × Sender files
  read_secret_file fd s =
      let (bytes, world) = fread fd secret_file_size s.world in
      let file = file_of_bytes (bytes ++ drop (length bytes) (bytes_of_file s.secret_file)) in
      if length bytes == secret_file_size
      then (true, record s { secret_fd = some fd; secret_file = file; world = world })
      else (false, record s { secret_fd = none; secret_file = file; world = fclose fd world })

  unfoldable pub load_secret_file : List ℕ → Sender files → Bool × Sender files
  load_secret_file env_name s = elim (getenv env_name s.world) [
    | none ↦ (false, s)
    | some env_value ↦
        let (opened, world) =
          fopen (snprintf bufsiz (env_value ++ codes "/" ++ secret_file_name)) s.world in
        elim opened [
          | none ↦ (false, record s { secret_fd = none; world = world })
          | some fd ↦ read_secret_file fd (record s { world = world })
        ]
  ]

  -- The handle is `secret_fd`, which is open at every call.
  unfoldable pub save_secret_file : Handle → Sender files → Bool × Sender files
  save_secret_file fd s =
      let (written, world) = fwrite fd (bytes_of_file s.secret_file) (rewind fd s.world) in
      let (flushed, world') = fflush fd world in
      if not written
      then (false, record s { world = world })
      else (flushed, record s { world = world' })

  unfoldable pub libnc_advance : Sender files → Bool × Sender files
  libnc_advance s = elim s.secret_fd [
    | none ↦ (false, s)
    | some fd ↦ save_secret_file fd (record s {
      secret_file = record (s.secret_file) { counter = u64 (s.secret_file.counter + 1 * 2 ^ 16) };
    })
  ]

  module _ (rs : Rs) where
    unfoldable pub libnc_init : Sender files → Bool × Option rs.Control × Sender files
    libnc_init s =
        let fresh = record s {
          secret_file = record { counter = 0; secret_data = replicate secret_data_size 0 };
        } in
        let (control, stderr) = ncrs_init rs fresh.stderr in
        let ready = record fresh { stderr = stderr } in
        let (found, s') = load_secret_file (codes "APPDATA") ready in
        let (found', s'') = load_secret_file (codes "HOME") s' in
        elim s.secret_fd [
          | some fd ↦ (false, none, s)
          | none ↦ elim control [
            | none ↦ (false, none, ready)
            | some c ↦ if found then (true, some c, s') else (found', some c, s'')
          ]
        ]

    module _ (c : rs.Control) (sha : Sha256) where
      -- The result, the message buffer and the sender.
      unfoldable pub libnc_encode :
          List ℕ → List ℕ → ℕ → List ℕ → ℕ → Sender files → Bool × List ℕ × Sender files
      libnc_encode stack payload payload_size message max_message_size s =
          let secret = s.secret_file.secret_data in
          let (packet, counter) =
            hmac433_encode sha secret (new_packet payload payload_size) s.secret_file.counter in
          let message' = ncrs_encode rs c (bytes_of_packet packet) in
          let s' = record s { secret_file = record (s.secret_file) { counter = counter } } in
          if ltb max_message_size nc_data_size then (false, message, s) else elim s.secret_fd [
            | none ↦ (false, message, s)
            | some fd ↦
                let (saved, s'') = save_secret_file fd s' in
                if not (self_test rs c sha stack packet message' secret counter)
                then (false, message', s')
                else (saved, message', s'')
          ]
