-- ===== src/Libnc/Disk.antt =====
-- The secret file as it lies on the disk, and how it is loaded.
use mathlib.Core.List.{append-nil}
use cpeclock.Base.{
  zero, suc, ap₂, ==_iff, ℕ, ◌^◌, ◌<◌, ◌≡◌, ◌∙◌, refl, sym, ap, arith, List, [], ◌∷◌, ◌++◌, Bool,
  true, false, none, some, length, length-append, take, drop, ◌==◌, if◌then◌else◌,
}
use cpeclock.Base.Text.{codes, snprintf}
use cpeclock.Hmac.{le_bytes}
use cpeclock.Mail.{of_le_bytes}
use cpeclock.Mail.Boot.{length-le_bytes}
use cpeclock.Mail.Counter.{of_le_bytes-le_bytes}
use cpeclock.Libnc.{
  Files, Sender, SecretFile, bytes_of_file, file_of_bytes, secret_file_name, secret_file_size,
  secret_data_size, read_secret_file, load_secret_file,
}

-- The C library's files, of which one, under HOME with no APPDATA, is the secret file: `path` opens
-- it, and `contents` is what it holds. Reading starts at the beginning of a file just opened, and
-- opening and reading change no file; what is written over the whole of it from its beginning, and
-- flushed, is what it then holds.
pub record IsDisk (files : Files) (home : List ℕ) (fd : files.Handle)
    (contents : files.World → List ℕ) : Type 0 where
  pub no_appdata : (w : files.World) → files.getenv (codes "APPDATA") w ≡ none
  pub home_is : (w : files.World) → files.getenv (codes "HOME") w ≡ some home
  pub opens :
      (w : files.World)
      → (files.fopen (snprintf 8192 (home ++ codes "/" ++ secret_file_name)) w).0 ≡ some fd
  pub reads :
      (w : files.World) (n : ℕ)
      → let w' = (files.fopen (snprintf 8192 (home ++ codes "/" ++ secret_file_name)) w).1 in
        ((files.fread fd n w').0 ≡ take n (contents w))
        × (contents (files.fread fd n w').1 ≡ contents w)
  pub writes :
      (w : files.World) (bytes : List ℕ)
      → length bytes ≡ length (contents w)
      → let (written, w') = files.fwrite fd bytes (files.rewind fd w) in
        let (flushed, w'') = files.fflush fd w' in
        written ≡ true → flushed ≡ true → contents w'' ≡ bytes

-- A secret file as it fits its 64 bytes.
pub record IsSecret (f : SecretFile) : Type 0 where
  pub counter_fits : f.counter < 2 ^ 64
  pub data_size : length f.secret_data ≡ secret_data_size

take-append : (xs ys : List ℕ) → take (length xs) (xs ++ ys) ≡ xs
take-append [] ys = refl
take-append (x ∷ xs) ys = ap (λ t. x ∷ t) (take-append xs ys)

drop-append : (xs ys : List ℕ) → drop (length xs) (xs ++ ys) ≡ ys
drop-append [] ys = refl
drop-append (x ∷ xs) ys = drop-append xs ys

take_all : (xs : List ℕ) (n : ℕ) → length xs ≡ n → take n xs ≡ xs
take_all [] zero l = refl
take_all [] (suc n) l = refl
take_all (x ∷ xs) zero l = absurd (omega (arith, l))
take_all (x ∷ xs) (suc n) l = ap (λ t. x ∷ t) (take_all xs n (omega (arith, l)))

drop_all : (xs : List ℕ) (n : ℕ) → length xs ≡ n → drop n xs ≡ []
drop_all [] zero l = refl
drop_all [] (suc n) l = refl
drop_all (x ∷ xs) zero l = absurd (omega (arith, l))
drop_all (x ∷ xs) (suc n) l = drop_all xs n (omega (arith, l))

pub length-bytes_of_file : (f : SecretFile) → IsSecret f → length (bytes_of_file f) ≡ 64
length-bytes_of_file f ok = omega (
  arith,
  length-append (le_bytes 8 f.counter) f.secret_data,
  length-le_bytes f.counter,
  ok.data_size,
)

file_of_bytes-bytes_of_file : (f : SecretFile) → IsSecret f → file_of_bytes (bytes_of_file f) ≡ f
file_of_bytes-bytes_of_file f ok =
    let counter : of_le_bytes (take 8 (bytes_of_file f)) ≡ f.counter =
      ap (λ n. of_le_bytes (take n (bytes_of_file f))) (sym (length-le_bytes f.counter))
      ∙ ap of_le_bytes (take-append (le_bytes 8 f.counter) f.secret_data)
      ∙ of_le_bytes-le_bytes f.counter ok.counter_fits in
    let secret : drop 8 (bytes_of_file f) ≡ f.secret_data =
      ap (λ n. drop n (bytes_of_file f)) (sym (length-le_bytes f.counter))
      ∙ drop-append (le_bytes 8 f.counter) f.secret_data in
    ap₂ (λ n xs. record { counter = n; secret_data = xs }) counter secret

-- What `read_secret_file` does with the bytes read.
taken : {files : Files} → files.Handle → List ℕ → files.World → Sender files → Bool × Sender files
taken {files} fd bytes world s =
    let file = file_of_bytes (bytes ++ drop (length bytes) (bytes_of_file s.secret_file)) in
    if length bytes == secret_file_size
    then (true, record s { secret_fd = some fd; secret_file = file; world = world })
    else (false, record s { secret_fd = none; secret_file = file; world = files.fclose fd world })

taken-all :
    {files : Files} (fd : files.Handle) (f : SecretFile) (w : files.World) (s : Sender files)
    → IsSecret f
    → length (bytes_of_file s.secret_file) ≡ 64
    → taken fd (bytes_of_file f) w s
      ≡ (true, record s { secret_fd = some fd; secret_file = f; world = w })
unfolding taken
taken-all fd f w s ok l =
    let size = length-bytes_of_file f ok in
    let full : (length (bytes_of_file f) == 64) ≡ true = (==_iff _ _).1 size in
    let nothing : drop (length (bytes_of_file f)) (bytes_of_file s.secret_file) ≡ [] =
      drop_all _ _ (l ∙ sym size) in
    let same : file_of_bytes
          (bytes_of_file f ++ drop (length (bytes_of_file f)) (bytes_of_file s.secret_file))
        ≡ f =
      ap (λ t. file_of_bytes (bytes_of_file f ++ t)) nothing
      ∙ ap file_of_bytes (append-nil (bytes_of_file f))
      ∙ file_of_bytes-bytes_of_file f ok in
    rw full (ap (λ g. (true, record s { secret_fd = some fd; secret_file = g; world = w })) same)

module _ {files : Files} (home : List ℕ) (fd : files.Handle) (contents : files.World → List ℕ)
    (disk : IsDisk files home fd contents) where
  abbrev pub path : List ℕ
  path = snprintf 8192 (home ++ codes "/" ++ secret_file_name)

  abbrev pub opened : files.World → files.World
  opened w = (files.fopen path w).1

  load_secret_file-taken :
      (s : Sender files)
      → let (bytes, w) = files.fread fd secret_file_size (opened s.world) in
        load_secret_file (codes "HOME") s ≡ taken fd bytes w (record s { world = opened s.world })
  unfolding load_secret_file read_secret_file taken
  load_secret_file-taken s =
      rw (disk.home_is s.world, load_secret_file) (rw (disk.opens s.world) refl)

  pub load_secret_file-some :
      (f : SecretFile) (s : Sender files)
      → contents s.world ≡ bytes_of_file f
      → IsSecret f
      → length (bytes_of_file s.secret_file) ≡ 64
      → load_secret_file (codes "HOME") s ≡ (
        true,
        record s {
          secret_fd = some fd;
          secret_file = f;
          world = (files.fread fd secret_file_size (opened s.world)).1;
        },
      )
  load_secret_file-some f s held ok l =
      let w = opened s.world in
      let read : (files.fread fd 64 w).0 ≡ bytes_of_file f =
        (disk.reads s.world 64).0
        ∙ ap (take 64) held
        ∙ take_all (bytes_of_file f) 64 (length-bytes_of_file f ok) in
      load_secret_file-taken s
      ∙ ap (λ b. taken fd b (files.fread fd 64 w).1 (record s { world = w })) read
      ∙ taken-all fd f _ (record s { world = w }) ok l

  pub load_secret_file-none : (s : Sender files) → load_secret_file (codes "APPDATA") s ≡ (false, s)
  unfolding load_secret_file
  load_secret_file-none s = rw (disk.no_appdata s.world, load_secret_file) refl
