-- ===== src/Txnc433/Sends.antt =====
-- From `main` to the datagram, whatever the command.
use cpeclock.Base.{
  ℕ, ◌+◌, ◌^◌, ◌<◌, ◌≡◌, ◌∙◌, refl, ap, arith, List, ◌∷◌, ◌++◌, Bool, true, false, not, Option,
  some, map, if◌then◌else◌, ◌&&◌, leb, memeq, IsBytes, replicate,
}
use cpeclock.Base.Text.{padded}
use cpeclock.Hmac.{Sha256, IsHash}
use cpeclock.Hmac433.{hmac433_encode}
use cpeclock.Ncrs.{Rs, IsCodec, pack, ncrs_encode, msg_symbols, nc_data_size}
use cpeclock.Mail.{bytes_of_packet}
use cpeclock.Libnc.{Sender, SecretFile, new_packet, save_secret_file, libnc_init}
use cpeclock.Libnc.Encode.{libnc_encode_lem}
use cpeclock.Txnc433.{
  no_command, System, header, send, udp_message, arguments, command, initialised, broadcast, main,
}

-- `tolower` on ASCII.
abbrev pub to_lower : ℕ → ℕ
to_lower ch = if leb 65 ch && leb ch 90 then ch + 32 else ch

-- `strcasecmp` compares but for case, and `strtol` reads decimal numbers.
pub record IsLibrary (sys : System) : Type 0 where
  pub compares : (a b : List ℕ) → sys.strcasecmp a b ≡ memeq (map to_lower a) (map to_lower b)
  pub reads : (n : ℕ) → n < 2 ^ 31 → sys.strtol (padded 1 10 n) ≡ n

module _ (sys : System) (fd : sys.files.Handle) (s : Sender sys.files) (file : SecretFile)
    (k : sys.Socket) where
  -- The sender once the socket may broadcast, and the result of writing the new secret file then.
  abbrev pub ready : Bool × Sender sys.files
  ready =
      let (allowed, world) = sys.setsockopt k (sys.socket s.world).1 in
      (allowed, record s { world = world })

  abbrev pub saved : Bool × Sender sys.files
  saved = save_secret_file fd (record (ready.1) { secret_file = file })

-- The C library does what is asked of it: the socket opens and may broadcast, the secret file is
-- written, and then the datagram is accepted.
pub record Succeeds (sys : System) (fd : sys.files.Handle) (s : Sender sys.files)
    (file : SecretFile) (datagram : List ℕ) : Type 0 where
  pub socket : sys.Socket
  pub opens : (sys.socket s.world).0 ≡ some socket
  pub broadcasts : (ready sys fd s file socket).0 ≡ true
  pub saves : (saved sys fd s file socket).0 ≡ true
  pub sends : (sys.sendto socket datagram (saved sys fd s file socket).1.world).0 ≡ true

-- The sender once the datagram has been sent.
abbrev pub sent :
    (sys : System)
    → sys.files.Handle
    → Sender sys.files
    → SecretFile
    → List ℕ
    → sys.Socket
    → Sender sys.files
sent sys fd s file datagram k =
    let s' = (saved sys fd s file k).1 in
    record s' { world = sys.close k (sys.sendto k datagram s'.world).1 }

module _ (sys : System) (rs : Rs) (c : rs.Control) (sha : Sha256) (hash : IsHash sha) where
  udp_message_sends :
      (stack payload : List ℕ) (payload_size : ℕ) (s : Sender sys.files) (fd : sys.files.Handle)
      → s.secret_fd ≡ some fd
      → (bytes : IsBytes payload) → s.secret_file.counter + 257 < 2 ^ 64
      → let (p, counter) =
          hmac433_encode sha s.secret_file.secret_data
            (new_packet payload payload_size)
            s.secret_file.counter in
        let file = record (s.secret_file) { counter = counter } in
        let datagram = header ++ ncrs_encode rs c (bytes_of_packet p) in
        IsCodec rs c (pack msg_symbols 0 (bytes_of_packet p))
        → (ok : Succeeds sys fd s file datagram)
        → udp_message sys rs c sha stack payload payload_size s
          ≡ (true, sent sys fd s file datagram ok.socket)
  unfolding udp_message send
  udp_message_sends stack payload size s fd opened bytes fits codec ok =
      let encoded =
        libnc_encode_lem rs c sha hash stack payload size (replicate nc_data_size 0) nc_data_size
          (ready sys fd s (s.secret_file) ok.socket).1 fd opened (omega arith) bytes fits codec in
      let after : Bool × List ℕ × Sender sys.files → Bool × Sender sys.files = λ r.
        if not r.0 then (false, record (r.2) { world = sys.close ok.socket r.2.world }) else (
          (sys.sendto ok.socket (header ++ r.1) r.2.world).0,
          record (r.2) {
            world = sys.close ok.socket (sys.sendto ok.socket (header ++ r.1) r.2.world).1;
          },
        ) in
      rw (ok.opens, udp_message)
        (rw (ok.broadcasts) (ap after encoded ∙ rw (ok.saves) (rw (ok.sends) refl)))

  -- The whole of `main`, for a command that leaves the sender as it is.
  pub main-command :
      (cmd : List ℕ) (rest : List (List ℕ))
      → arguments sys (cmd ∷ rest) ≡ cmd ∷ rest
      → (stack payload : List ℕ) (size : ℕ) (s s' : Sender sys.files) (fd : sys.files.Handle)
      → command sys cmd (cmd ∷ rest) s' ≡ (some (payload, size), s')
      → libnc_init rs s ≡ (true, some c, s')
      → s'.secret_fd ≡ some fd
      → IsBytes payload
      → s'.secret_file.counter + 257 < 2 ^ 64
      → let (p, counter) =
          hmac433_encode sha s'.secret_file.secret_data
            (new_packet payload size)
            s'.secret_file.counter in
        let file = record (s'.secret_file) { counter = counter } in
        let datagram = header ++ ncrs_encode rs c (bytes_of_packet p) in
        IsCodec rs c (pack msg_symbols 0 (bytes_of_packet p))
        → (ok : Succeeds sys fd s' file datagram)
        → main sys rs sha stack (cmd ∷ rest) s ≡ (0, sent sys fd s' file datagram ok.socket)
  unfolding main initialised broadcast
  main-command cmd rest plain stack payload size s s' fd asks init opened bytes fits codec ok =
      ap
        (λ (a : List (List ℕ)).
          if no_command a
          then (1, s)
          else initialised sys rs sha stack a (libnc_init rs s).0 (libnc_init rs s).1
              (libnc_init rs s).2)
        plain
      ∙ ap
          (λ (r : Bool × Option rs.Control × Sender sys.files).
            initialised sys rs sha stack (cmd ∷ rest) r.0 r.1 r.2)
          init
      ∙ ap (λ (r : Option (List ℕ × ℕ) × Sender sys.files). broadcast sys rs sha c stack r.0 r.1)
          asks
      ∙ ap (λ (r : Bool × Sender sys.files). ((if r.0 then 0 else 1), r.1))
          (udp_message_sends stack payload size s' fd opened bytes fits codec ok)
