-- ===== src/Txnc433.antt =====
-- txnc433/udp.c and txnc433/txnc433.c: the broadcast of an encoded message, and the commands of the
-- sender's program. The network, the clock, `strtol` and `strcasecmp` are the parameter `System`.
pub mod Sends
pub mod SetAlarm
pub mod SetNight
pub mod SetTime
mod Tests
use cpeclock.Base.{
  ℕ, zero, suc, ◌+◌, ◌-◌, ◌++◌, List, [], ◌∷◌, Bool, true, false, not, Option, none, some, ltb, leb,
  if◌then◌else◌, length, map, ◌^◌, ◌||◌, u32, take, drop, replicate, u8,
}
use cpeclock.Base.Text.{codes}
use cpeclock.Hmac.{Sha256}
use cpeclock.Hmac433.{packet_payload_size}
use cpeclock.Ncrs.{Rs, nc_data_size}
use cpeclock.Libnc.{Files, Sender, resync, libnc_init, libnc_advance, libnc_encode}

-- `socket` with `setsockopt` for a broadcast, `sendto` to port 433 and `close`; `usleep` for 100
-- microseconds followed by `gettimeofday`, which gives the second and the microsecond;
-- `localtime`, which gives hour, minute and second; `strtol` with base 0, and `strcasecmp` for
-- equality. The C library's files are in the same world.
pub record System : Type 1 where
  pub files : Files
  pub Socket : Type 0
  pub socket : files.World → Option Socket × files.World
  pub setsockopt : Socket → files.World → Bool × files.World
  pub sendto : Socket → List ℕ → files.World → Bool × files.World
  pub close : Socket → files.World → files.World
  pub usleep : files.World → Option (ℕ × ℕ) × files.World
  pub localtime : ℕ → Option (ℕ × ℕ × ℕ)
  pub strtol : List ℕ → ℕ
  pub strcasecmp : List ℕ → List ℕ → Bool

abbrev pub nc_header_size : ℕ
nc_header_size = 2

abbrev pub header : List ℕ
header = codes "NC"

module _ (sys : System) (rs : Rs) (c : rs.Control) (sha : Sha256) where
  open sys use {files, socket, setsockopt, sendto, close}

  -- The socket is open and may broadcast.
  pub send : sys.Socket → List ℕ → List ℕ → ℕ → Sender files → Bool × Sender files
  send s stack payload payload_size sender =
      let (encoded, message, sender') =
        libnc_encode rs c sha stack payload payload_size (replicate nc_data_size 0) nc_data_size
          sender in
      let (sent, world) = sendto s (header ++ message) sender'.world in
      if not encoded
      then (false, record sender' { world = close s sender'.world })
      else (sent, record sender' { world = close s world })

  -- `stack` is what the self test of `libnc_encode` starts from.
  unfoldable pub udp_message : List ℕ → List ℕ → ℕ → Sender files → Bool × Sender files
  udp_message stack payload payload_size sender =
      let (opened, world) = socket sender.world in
      elim opened [
        | none ↦ (false, record sender { world = world })
        | some s ↦
            let (broadcast, world') = setsockopt s world in
            if not broadcast
            then (false, record sender { world = close s world' })
            else send s stack payload payload_size (record sender { world = world' })
      ]

abbrev no_command : List (List ℕ) → Bool
no_command [] = true
no_command (a ∷ args) = false

abbrev at_most : ℕ → ℕ → ℕ
at_most limit n = if ltb limit n then limit else n

module _ (sys : System) where
  open sys use {files, usleep, localtime, strtol, strcasecmp}

  -- The two waiting loops of `set_time`, with `i` rounds left between them: until the microsecond
  -- lies below the trigger, and until it does not. The outcome is the second and the rounds left.
  pub wait : Bool → ℕ → ℕ → files.World → Option (ℕ × ℕ) × files.World
  wait below zero trigger world = (none, world)
  wait below (suc i) trigger world =
      let (time, world') = usleep world in
      let rest = wait below i trigger world' in
      elim time [
        | none ↦ (none, world')
        | some (sec, usec) ↦
            if (if below then ltb usec trigger else leb trigger usec)
            then (some (sec, i), world')
            else rest
      ]

  abbrev overlay : List ℕ → List ℕ → List ℕ
  overlay new old = new ++ drop (length new) old

  pub set_time : List ℕ → ℕ → files.World → Option (List ℕ) × files.World
  set_time payload trigger world =
      let (before, world') = wait true 20000 trigger world in
      elim before [
        | none ↦ (none, world')
        | some (sec, left) ↦ elim (localtime (sec + 1)) [
          | none ↦ (none, world')
          | some (hour, minute, second) ↦
              let (after, world'') = wait false left trigger world' in
              elim after [
                | none ↦ (none, world'')
                | some t ↦
                    (some (overlay (b'T' ∷ u8 hour ∷ u8 minute ∷ u8 second ∷ []) payload), world'')
              ]
        ]
      ]

  -- `argv` from its second entry on, without the obsolete first word.
  pub arguments : List (List ℕ) → List (List ℕ)
  arguments (first ∷ second ∷ rest) =
      if strcasecmp first (codes "local") || strcasecmp first (codes "udp")
      then second ∷ rest
      else first ∷ second ∷ rest
  arguments args = args

  abbrev numbers : List (List ℕ) → List ℕ
  numbers args =
      let values = map (λ a. u8 (strtol a)) (take packet_payload_size args) in
      overlay values (replicate packet_payload_size 0)

  -- The command's payload and size, and the sender, which "advresync" changes. `none` is an exit
  -- with 1, or a "message" without its text, where the program reads from a null pointer.
  pub command : List ℕ → List (List ℕ) → Sender files → Option (List ℕ × ℕ) × Sender files
  command cmd args s =
      let payload = numbers args in
      let is : List ℕ → Bool = λ name. strcasecmp cmd name in
      let (payload', world) = set_time payload (trigger args) s.world in
      let (advanced, s') = libnc_advance s in
      if is (codes "set_time")
      then (elim payload' [ none ↦ none | some p ↦ some (p, 4) ], record s { world = world })
      else if is (codes "set_alarm")
      then (some (overlay (b'A' ∷ []) payload, 3), s)
      else if is (codes "unset_alarm")
      then (some (overlay (b'a' ∷ []) payload, 1), s)
      else if is (codes "set_day_night_time")
      then (some (overlay (b'N' ∷ []) payload, 5), s)
      else if is (codes "message")
      then (message (drop 1 args) payload, s)
      else if is (codes "counter")
      then (some (overlay (b'C' ∷ []) payload, 1), s)
      else if is (codes "resync")
      then (some (payload, resync), s)
      else if is (codes "advresync")
      then (if advanced then (some (payload, resync), s') else (none, s'))
      else (some (payload, at_most packet_payload_size (length args)), s)
    where
      -- `1000000 - latency`, as an unsigned number of 32 bits.
      trigger : List (List ℕ) → ℕ
      trigger (a ∷ b ∷ rest) = u32 (1000000 + (2 ^ 32 - u32 (strtol b)))
      trigger other = 900000

      message : List (List ℕ) → List ℕ → Option (List ℕ × ℕ)
      message [] payload = none
      message (text ∷ rest) payload =
          let size = at_most packet_payload_size (1 + length text) in
          some (overlay (b'M' ∷ take (packet_payload_size - 1) (text ++ (0 ∷ []))) payload, size)

  module _ (rs : Rs) (sha : Sha256) where
    -- From the call of `udp_message` on.
    broadcast : rs.Control → List ℕ → Option (List ℕ × ℕ) → Sender files → ℕ × Sender files
    broadcast c stack none s = (1, s)
    broadcast c stack (some (payload, size)) s =
        let (sent, s') = udp_message sys rs c sha stack payload size s in
        ((if sent then 0 else 1), s')

    -- What follows `libnc_init`, with its result.
    initialised :
        List ℕ → List (List ℕ) → Bool → Option rs.Control → Sender files → ℕ × Sender files
    initialised stack [] ready control s = (1, s)
    initialised stack (cmd ∷ rest) ready none s = (1, s)
    initialised stack (cmd ∷ rest) ready (some c) s =
        let (request, s') = command cmd (cmd ∷ rest) s in
        if not ready then (1, s) else broadcast c stack request s'

    -- `main`: the result is the exit code.
    pub main : List ℕ → List (List ℕ) → Sender files → ℕ × Sender files
    main stack args s =
        let args' = arguments args in
        let (ready, control, s') = libnc_init rs s in
        if no_command args' then (1, s) else initialised stack args' ready control s'
