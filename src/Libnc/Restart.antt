-- ===== src/Libnc/Restart.antt =====
-- The secret file from one run of the sender to the next.
use cpeclock.Base.{
  ltb, ℕ, ◌+◌, ◌^◌, ◌<◌, ◌≡◌, ◌∙◌, refl, sym, ap, subst, arith, List, [], Bool, true, false, not,
  Option, none, some, length, replicate, u64, if◌then◌else◌,
}
use cpeclock.Base.Text.{codes}
use cpeclock.Hal.{Hal, dead}
use cpeclock.Hmac.{Sha256, le_bytes}
use cpeclock.Hmac433.{hmac433_encode}
use cpeclock.Mail.{bytes_of_packet}
use cpeclock.Ncrs.Correct.{ncrs_init-some}
use cpeclock.Ncrs.{Rs, ncrs_encode, nc_data_size, symbol_size, nroots}
use cpeclock.Libnc.Encode.{sent_bounds}
use cpeclock.Libnc.{
  Files, Sender, SecretFile, bytes_of_file, secret_data_size, load_secret_file, save_secret_file,
  new_packet, self_test, libnc_advance, libnc_init, libnc_encode,
}
use cpeclock.Libnc.Disk.{
  IsDisk, IsSecret, length-bytes_of_file, load_secret_file-some, load_secret_file-none,
}

-- The sender's variables when the program starts.
abbrev pub started : {files : Files} → files.World → Sender files
started w = record {
  secret_fd = none;
  secret_file = record { counter = 0; secret_data = replicate secret_data_size 0 };
  stderr = record { mem = tt; out = [] };
  world = w;
}

-- Both the writing and the flushing went well.
if_saved :
    {S : Type 0} (written flushed : Bool) (s s' : S) (P : S → Type 0)
    → (written ≡ true → flushed ≡ true → P s')
    → let r : Bool × S = if not written then (false, s) else (flushed, s') in r.0 ≡ true → P r.1
if_saved true flushed s s' P both saved = both refl saved
if_saved false flushed s s' P both saved = absurd (cc saved)

if_done :
    {X S : Type 0} (small tested saved : Bool) (x x' : X) (s s' s'' : S) (P : S → Type 0)
    → (saved ≡ true → P s'')
    → let r : Bool × X × S =
        if small then (false, x, s) else if not tested then (false, x', s') else (saved, x', s'') in
      r.0 ≡ true → P r.2
if_done true tested saved x x' s s' s'' P both done = absurd (cc done)
if_done false true saved x x' s s' s'' P both done = both done
if_done false false saved x x' s s' s'' P both done = absurd (cc done)

-- `libnc_init` has succeeded and loaded this file, which the disk still holds.
pub record Loaded (files : Files) (fd : files.Handle) (contents : files.World → List ℕ)
    {Control : Type 0} (c : Control) (f : SecretFile) (r : Bool × Option Control × Sender files)
    : Type 0 where
  pub ready : r.0 ≡ true
  pub control : r.1 ≡ some c
  pub is_open : r.2.secret_fd ≡ some fd
  pub file : r.2.secret_file ≡ f
  pub kept : contents r.2.world ≡ bytes_of_file f

module _ {files : Files} (home : List ℕ) (fd : files.Handle) (contents : files.World → List ℕ)
    (disk : IsDisk files home fd contents) where
  -- `libnc_init` after the codec, with what is open before.
  init_from :
      {Control : Type 0}
      → Sender files
      → Option Control × Hal dead
      → Option files.Handle
      → Bool × Option Control × Sender files
  init_from s (control, stderr) before =
      let ready = record s {
        secret_file = record { counter = 0; secret_data = replicate secret_data_size 0 };
        stderr = stderr;
      } in
      let (found, s') = load_secret_file (codes "APPDATA") ready in
      let (found', s'') = load_secret_file (codes "HOME") s' in
      elim before [
        | some fd ↦ (false, none, s)
        | none ↦ elim control [
          | none ↦ (false, none, ready)
          | some c ↦ if found then (true, some c, s') else (found', some c, s'')
        ]
      ]

  libnc_init-Loaded :
      (rs : Rs) (c : rs.Control) (f : SecretFile) (s : Sender files)
      → rs.init_rs symbol_size 0x25 1 1 nroots ≡ some c
      → s.secret_fd ≡ none
      → contents s.world ≡ bytes_of_file f
      → IsSecret f
      → Loaded files fd contents c f (libnc_init rs s)
  unfolding libnc_init init_from le_bytes
  libnc_init-Loaded rs c f s codec closed held ok =
      let Result : Type 0 = Bool × Sender files in
      let zeros = record s {
        secret_file = record { counter = 0; secret_data = replicate secret_data_size 0 };
      } in
      let e =
        ap (λ (r : Option rs.Control × Hal dead). init_from s r s.secret_fd)
          (ncrs_init-some rs c s.stderr codec)
        ∙ ap (init_from s (some c, s.stderr)) closed
        ∙ ap
            (λ (r : Result).
              let r' = load_secret_file (codes "HOME") r.1 in
              if r.0 then (true, some c, r.1) else (r'.0, some c, r'.1))
            (load_secret_file-none home fd contents disk zeros)
        ∙ ap (λ (r : Result). (r.0, some c, r.1))
            (load_secret_file-some home fd contents disk f zeros held ok refl) in
      subst (Loaded files fd contents c f) (sym e) (record {
        ready = refl;
        control = refl;
        is_open = refl;
        file = refl;
        kept = (disk.reads s.world 64).1 ∙ held;
      })

  save_secret_file-contents :
      (s : Sender files)
      → length (contents s.world) ≡ 64
      → IsSecret s.secret_file
      → let (saved, s') = save_secret_file fd s in
        saved ≡ true
        → (contents s'.world ≡ bytes_of_file s.secret_file) × (s'.secret_file ≡ s.secret_file)
  unfolding save_secret_file
  save_secret_file-contents s size ok saved =
      let bytes = bytes_of_file s.secret_file in
      let (written, w) = files.fwrite fd bytes (files.rewind fd s.world) in
      if_saved written (files.fflush fd w).0 _ (record s { world = (files.fflush fd w).1 })
        (λ (s' : Sender files). (contents s'.world ≡ bytes) × (s'.secret_file ≡ s.secret_file))
        (λ wrote flushed. (
          disk.writes s.world bytes (length-bytes_of_file s.secret_file ok ∙ sym size) wrote
              flushed,
          refl,
        ))
        saved

  -- A.
  pub libnc_init-save_secret_file :
      (rs : Rs) (c : rs.Control)
      → rs.init_rs symbol_size 0x25 1 1 nroots ≡ some c
      → (s : Sender files) → length (contents s.world) ≡ 64
      → IsSecret s.secret_file
      → let (saved, s') = save_secret_file fd s in
        saved ≡ true → Loaded files fd contents c s.secret_file (libnc_init rs (started s'.world))
  libnc_init-save_secret_file rs c codec s size ok saved =
      libnc_init-Loaded rs c s.secret_file _ codec refl
        (save_secret_file-contents s size ok saved).0 ok

  -- With a secret file of 64 bytes open, whose secret has 56 bytes and whose counter has 64 bits:
  -- if `libnc_advance` succeeds, then `libnc_init` in the next run of the program succeeds and
  -- loads the same secret, with the counter 65536 further, modulo 2 ^ 64; and the file still holds
  -- it. The file lies under HOME, with no APPDATA, opens and keeps what is written over it; the
  -- codec starts.
  pub libnc_init-libnc_advance :
      (rs : Rs) (c : rs.Control)
      → rs.init_rs symbol_size 0x25 1 1 nroots ≡ some c
      → (s : Sender files) → s.secret_fd ≡ some fd
      → length (contents s.world) ≡ 64
      → IsSecret s.secret_file
      → let (advanced, s') = libnc_advance s in
        advanced ≡ true
        → Loaded files fd contents c
            (record (s.secret_file) { counter = u64 (s.secret_file.counter + 65536) })
            (libnc_init rs (started s'.world))
  unfolding libnc_advance
  libnc_init-libnc_advance rs c codec s is_open size ok =
      let s' = record s {
        secret_file = record (s.secret_file) { counter = u64 (s.secret_file.counter + 65536) };
      } in
      let e : libnc_advance s ≡ save_secret_file fd s' =
        ap
          (λ (o : Option files.Handle). elim o [
            | none ↦ (false, s)
            | some fd ↦ save_secret_file fd s'
          ])
          is_open in
      subst
        (λ (r : Bool × Sender files).
          r.0 ≡ true
          → Loaded files fd contents c s'.secret_file (libnc_init rs (started r.1.world)))
        (sym e)
        (libnc_init-save_secret_file rs c codec s' size
          (record { counter_fits = omega arith; data_size = ok.data_size }))

  -- A counter value is not used again after a restart. With a secret file of 64 bytes open, whose
  -- secret has 56 bytes and whose counter is not within 257 of the wrap-around: if `libnc_encode`
  -- succeeds, whatever the codec, the hash and the payload, then its counter has grown, and
  -- `libnc_init` in the next run of the program succeeds and loads the counter and the secret that
  -- this run ended with; and the file still holds them. The file lies under HOME, with no APPDATA,
  -- opens and keeps what is written over it; the codec starts.
  pub libnc_init-libnc_encode :
      (rs : Rs) (c : rs.Control) (sha : Sha256) (stack payload : List ℕ) (payload_size : ℕ)
      (message : List ℕ) (max_message_size : ℕ)
      → rs.init_rs symbol_size 0x25 1 1 nroots ≡ some c
      → (s : Sender files) → s.secret_fd ≡ some fd
      → length (contents s.world) ≡ 64
      → IsSecret s.secret_file
      → s.secret_file.counter + 257 < 2 ^ 64
      → let (done, message', s') =
          libnc_encode rs c sha stack payload payload_size message max_message_size s in
        done ≡ true
        → (s.secret_file.counter < s'.secret_file.counter)
          × Loaded files fd contents c s'.secret_file (libnc_init rs (started s'.world))
  unfolding libnc_encode
  libnc_init-libnc_encode rs c sha stack payload payload_size message max codec s is_open size ok
        fits =
      let secret = s.secret_file.secret_data in
      let (packet, counter) =
        hmac433_encode sha secret (new_packet payload payload_size) s.secret_file.counter in
      let message' = ncrs_encode rs c (bytes_of_packet packet) in
      let s' = record s { secret_file = record (s.secret_file) { counter = counter } } in
      let (saved, s'') = save_secret_file fd s' in
      let tested = self_test rs c sha stack packet message' secret counter in
      let e : libnc_encode rs c sha stack payload payload_size message max s ≡ (
          if ltb max nc_data_size
          then (false, message, s)
          else if not tested
          then (false, message', s')
          else (saved, message', s'')) =
        ap
          (λ (o : Option files.Handle).
            if ltb max nc_data_size then (false, message, s) else elim o [
              | none ↦ (false, message, s)
              | some fd ↦
                  let (saved, s'') = save_secret_file fd s' in
                  if not tested then (false, message', s') else (saved, message', s'')
            ])
          is_open in
      let (later, near) =
        sent_bounds sha secret (new_packet payload payload_size) s.secret_file.counter fits in
      let ok' : IsSecret s'.secret_file = record {
        counter_fits = omega arith;
        data_size = ok.data_size;
      } in
      let Resumes : Sender files → Type 0 = λ r.
        (s.secret_file.counter < r.secret_file.counter)
        × Loaded files fd contents c r.secret_file (libnc_init rs (started r.world)) in
      subst (λ (r : Bool × List ℕ × Sender files). r.0 ≡ true → Resumes r.2) (sym e)
        (if_done (ltb max nc_data_size) tested saved message message' s s' s'' Resumes (λ done.
          let same = (save_secret_file-contents s' size ok' done).1 in
          (
            subst (λ (f : SecretFile). s.secret_file.counter < f.counter) (sym same) later,
            subst (λ f. Loaded files fd contents c f (libnc_init rs (started s''.world))) (sym same)
                (libnc_init-save_secret_file rs c codec s' size ok' done),
          )))
