-- ===== src/Libnc/Tests.antt =====
-- A sender with a file of its own.
use cpeclock.Base.{
  Bool, memeq, if◌then◌else◌, u64, ◌+◌, ◌<◌, ap, ℕ, ◌≡◌, refl, arith, List, [], ◌∷◌, ◌++◌, true,
  some, none, replicate, take,
}
use cpeclock.Base.Text.{codes}
use cpeclock.Hmac.{le_bytes}
use cpeclock.Hmac.Tests.{checksum, checksum-IsHash}
use cpeclock.Hmac433.{hmac433_encode}
use cpeclock.Ncrs.{Rs, pack, ncrs_encode}
use cpeclock.Ncrs.Tests.{one_word, one_word-IsCodec}
use cpeclock.Mail.{bytes_of_packet, of_le_bytes}
use cpeclock.Libnc.{
  Files, Sender, new_packet, read_secret_file, load_secret_file, save_secret_file, libnc_encode,
}
use cpeclock.Libnc.{libnc_advance, libnc_init}
use cpeclock.Libnc.Disk.{IsDisk, IsSecret}
use cpeclock.Libnc.Restart.{Loaded, started, libnc_init-libnc_advance, libnc_init-libnc_encode}
use cpeclock.Libnc.Encode.{libnc_encode_lem}

-- One file, which is found under HOME.
abbrev pub one_file : Files
one_file = record {
  World = List ℕ;
  Handle = Unit {0};
  getenv = λ name w. some name;
  fopen = λ path w. (some tt, w);
  fread = λ fd n w. (take n w, w);
  fwrite = λ fd bytes w. (true, bytes);
  rewind = λ fd w. w;
  fflush = λ fd w. (true, w);
  fclose = λ fd w. w;
}

abbrev pub sender : Sender one_file
sender = record {
  secret_fd = some tt;
  secret_file = record { counter = 41; secret_data = replicate 56 9 };
  stderr = record { mem = tt; out = [] };
  world = [];
}

abbrev pub closed : Sender one_file
closed = record sender {
  secret_fd = none;
  secret_file = record { counter = 0; secret_data = [] };
  world = le_bytes 8 41 ++ replicate 56 9;
}

loaded :
    load_secret_file (codes "HOME") closed
    ≡ (true, record sender { world = le_bytes 8 41 ++ replicate 56 9 })
unfolding load_secret_file read_secret_file of_le_bytes le_bytes
loaded = refl

abbrev codec : Rs
codec = one_word (
    pack 21 0
      (bytes_of_packet (hmac433_encode checksum (replicate 56 9) (new_packet (b'C' ∷ []) 1) 41).0))

libnc_encode_lem_example :
    let (p, sent) = hmac433_encode checksum (replicate 56 9) (new_packet (b'C' ∷ []) 1) 41 in
    let (saved, s') =
      save_secret_file tt
        (record sender { secret_file = record { counter = sent; secret_data = replicate 56 9 } }) in
    libnc_encode codec tt checksum [] (b'C' ∷ []) 1 (replicate 31 0) 31 sender
    ≡ (saved, ncrs_encode codec tt (bytes_of_packet p), s')
libnc_encode_lem_example =
    libnc_encode_lem codec tt checksum checksum-IsHash [] (b'C' ∷ []) 1 (replicate 31 0) 31 sender
      tt refl (omega arith) (omega arith, tt) (omega arith)
      (one_word-IsCodec (
        pack 21 0 (
          bytes_of_packet
            (hmac433_encode checksum (replicate 56 9) (new_packet (b'C' ∷ []) 1) 41).0)))

-- The same with one directory, under HOME.
abbrev in_home : Files
in_home = record one_file {
  getenv = λ name w. if memeq name (codes "HOME") then some (codes "/home") else none;
  fwrite = λ fd bytes w. (true, bytes);
}

in_home-IsDisk : IsDisk in_home (codes "/home") tt (λ w. w)
unfolding memeq
in_home-IsDisk = record {
  no_appdata = λ w. refl;
  home_is = λ w. refl;
  opens = λ w. refl;
  reads = λ w n. (refl, refl);
  writes = λ w bytes l wrote flushed. refl;
}

abbrev at_home : Sender in_home
at_home = record {
  secret_fd = some tt;
  secret_file = record { counter = 41; secret_data = replicate 56 9 };
  stderr = record { mem = tt; out = [] };
  world = replicate 64 0;
}

at_home-IsSecret : IsSecret at_home.secret_file
at_home-IsSecret = record { counter_fits = omega arith; data_size = refl }

libnc_init-libnc_advance_example :
    Loaded in_home tt
      (λ w. w)
      tt
      (record { counter = u64 (41 + 65536); secret_data = replicate 56 9 })
      (libnc_init codec (started (libnc_advance at_home).1.world))
unfolding libnc_advance save_secret_file
libnc_init-libnc_advance_example =
    libnc_init-libnc_advance (codes "/home") tt (λ w. w) in_home-IsDisk codec tt refl at_home refl
      refl at_home-IsSecret refl

at_home-saves :
    (libnc_encode codec tt checksum [] (b'C' ∷ []) 1 (replicate 31 0) 31 at_home).0 ≡ true
unfolding save_secret_file
at_home-saves =
    ap (λ (r : Bool × List ℕ × Sender in_home). r.0)
      (libnc_encode_lem codec tt checksum checksum-IsHash [] (b'C' ∷ []) 1 (replicate 31 0) 31
        at_home tt refl (omega arith) (omega arith, tt) (omega arith) (one_word-IsCodec _))

-- The first command of a program, and what the next one starts with.
libnc_init-libnc_encode_example :
    let s' = (libnc_encode codec tt checksum [] (b'C' ∷ []) 1 (replicate 31 0) 31 at_home).2 in
    (41 < s'.secret_file.counter)
    × Loaded in_home tt (λ w. w) tt s'.secret_file (libnc_init codec (started s'.world))
libnc_init-libnc_encode_example =
    libnc_init-libnc_encode (codes "/home") tt (λ w. w) in_home-IsDisk codec tt checksum []
      (b'C' ∷ []) 1 (replicate 31 0) 31 refl at_home refl refl at_home-IsSecret (omega arith)
      at_home-saves
