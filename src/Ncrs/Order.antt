-- ===== src/Ncrs/Order.antt =====
-- The order of the symbols on the air: reading it back from what was sent, or from a word that
-- differs in some places.
use cpeclock.Base.{
  ℕ, zero, suc, ◌+◌, ◌*◌, ◌/◌, ◌<◌, ◌≡◌, ◌∙◌, refl, ap, ap₂, arith, List, [], ◌∷◌, ◌++◌, length,
  get_or, drop, replicate, u8,
}
use cpeclock.Ncrs.{differences, interleave, gather, pad, IsSymbols}

get_or-drop : (i : ℕ) (xs : List ℕ) → i < length xs → drop i xs ≡ get_or xs i 0 ∷ drop (i + 1) xs
get_or-drop i [] h = absurd (omega arith)
get_or-drop zero (x ∷ xs) h = refl
get_or-drop (suc i) (x ∷ xs) h =
    let e : suc i + 1 ≡ suc (i + 1) = omega arith in rw e (get_or-drop i xs (omega arith))

drop-length : (xs : List ℕ) (i : ℕ) → i ≡ length xs → drop i xs ≡ []
drop-length [] zero e = refl
drop-length [] (suc i) e = refl
drop-length (x ∷ xs) zero e = absurd (omega arith)
drop-length (x ∷ xs) (suc i) e = drop-length xs i (omega arith)

-- The places of a block that the rounds from one place on read.
data_places : ℕ → ℕ → List ℕ → List ℕ
data_places zero j xs = get_or xs j 0 ∷ []
data_places (suc n) j xs = get_or xs j 0 ∷ get_or xs (j + 1) 0 ∷ data_places n (j + 2) xs

parity_places : ℕ → ℕ → List ℕ → List ℕ
parity_places zero j xs = []
parity_places (suc n) j xs = get_or xs (j / 2) 0 ∷ parity_places n (j + 2) xs

all_places : ℕ → ℕ → List ℕ → List ℕ
all_places zero i xs = get_or xs i 0 ∷ []
all_places (suc n) i xs =
    get_or xs i 0 ∷ get_or xs (i + 1) 0 ∷ get_or xs (i + 2) 0 ∷ all_places n (i + 3) xs

data_places-drop :
    (n j : ℕ) (xs : List ℕ) → length xs ≡ j + 2 * n + 1 → data_places n j xs ≡ drop j xs
unfolding data_places
data_places-drop zero j xs l =
    rw (get_or-drop j xs (omega arith), drop-length xs (j + 1) (omega arith)) refl
data_places-drop (suc n) j xs l =
    let e : j + 1 + 1 ≡ j + 2 = omega arith in
    rw (get_or-drop j xs (omega arith), get_or-drop (j + 1) xs (omega arith), e)
      (ap (λ t. get_or xs j 0 ∷ get_or xs (j + 1) 0 ∷ t)
        (data_places-drop n (j + 2) xs (omega arith)))

parity_places-drop :
    (n j : ℕ) (xs : List ℕ) → length xs ≡ j + n → parity_places n (2 * j) xs ≡ drop j xs
unfolding parity_places
parity_places-drop zero j xs l = rw (drop-length xs j (omega arith)) refl
parity_places-drop (suc n) j xs l =
    let e : 2 * j / 2 ≡ j = omega arith in
    let e' : 2 * j + 2 ≡ 2 * (j + 1) = omega arith in
    rw (get_or-drop j xs (omega arith), e, e')
      (ap (λ t. get_or xs j 0 ∷ t) (parity_places-drop n (j + 1) xs (omega arith)))

all_places-drop :
    (n i : ℕ) (xs : List ℕ) → length xs ≡ i + 3 * n + 1 → all_places n i xs ≡ drop i xs
unfolding all_places
all_places-drop zero i xs l =
    rw (get_or-drop i xs (omega arith), drop-length xs (i + 1) (omega arith)) refl
all_places-drop (suc n) i xs l =
    let e : i + 1 + 1 ≡ i + 2 = omega arith in
    let e' : i + 2 + 1 ≡ i + 3 = omega arith in
    rw
      (
        get_or-drop i xs (omega arith),
        get_or-drop (i + 1) xs (omega arith),
        e,
        get_or-drop (i + 2) xs (omega arith),
        e',
      )
      (ap (λ t. get_or xs i 0 ∷ get_or xs (i + 1) 0 ∷ get_or xs (i + 2) 0 ∷ t)
        (all_places-drop n (i + 3) xs (omega arith)))

-- Each wrong symbol of the received word is wrong in the data or in the parity.
map_u8 : List ℕ → List ℕ
map_u8 [] = []
map_u8 (x ∷ xs) = u8 x ∷ map_u8 xs

differences-gather :
    (n i j : ℕ) (word symbols parity : List ℕ)
    → let (ys, ps) = gather n i word in
      differences ys (data_places n j symbols) + differences ps (map_u8 (parity_places n j parity))
      ≡ differences (all_places n i word) (interleave n j symbols parity)
unfolding gather data_places parity_places all_places interleave differences map_u8
differences-gather zero i j word symbols parity = omega arith
differences-gather (suc n) i j word symbols parity =
    omega (arith, differences-gather n (i + 3) (j + 2) word symbols parity)

map_u8-IsSymbols : (xs : List ℕ) → IsSymbols xs → map_u8 xs ≡ xs
unfolding map_u8
map_u8-IsSymbols [] s = refl
map_u8-IsSymbols (x ∷ xs) (h, s) =
    let e : u8 x ≡ x = omega arith in ap₂ ◌∷◌ e (map_u8-IsSymbols xs s)

-- For a word of 31 symbols against a code word of 21 data and 10 parity symbols.
pub differences-gather_word :
    (word symbols parity : List ℕ)
    → length word ≡ 31
    → length symbols ≡ 21
    → length parity ≡ 10
    → IsSymbols parity
    → let (ys, ps) = gather 10 0 word in
      differences ys symbols + differences ps parity
      ≡ differences word (interleave 10 0 symbols parity)
differences-gather_word word symbols parity l m n s =
    let w : all_places 10 0 word ≡ word = all_places-drop 10 0 word (omega arith) in
    let d : data_places 10 0 symbols ≡ symbols = data_places-drop 10 0 symbols (omega arith) in
    let p : map_u8 (parity_places 10 0 parity) ≡ parity =
      ap map_u8 (parity_places-drop 10 0 parity (omega arith)) ∙ map_u8-IsSymbols parity s in
    let all = differences-gather 10 0 0 word symbols parity in rw (w, d, p) at all

pub length-gather :
    (n i : ℕ) (word : List ℕ)
    → let (ys, ps) = gather n i word in (length ys ≡ 2 * n + 1) × (length ps ≡ n)
unfolding gather
length-gather zero i word = omega arith
length-gather (suc n) i word = omega (arith, length-gather n (i + 3) word)

pub get_or-IsSymbols : (xs : List ℕ) (i : ℕ) → IsSymbols xs → get_or xs i 0 < 32
get_or-IsSymbols [] i s = omega arith
get_or-IsSymbols (x ∷ xs) zero s = s.0
get_or-IsSymbols (x ∷ xs) (suc i) s = get_or-IsSymbols xs i s.1

pub gather-IsSymbols :
    (n i : ℕ) (word : List ℕ)
    → IsSymbols word
    → let (ys, ps) = gather n i word in IsSymbols ys × IsSymbols ps
unfolding gather
gather-IsSymbols zero i word s = ((get_or-IsSymbols word i s, tt), tt)
gather-IsSymbols (suc n) i word s =
    let (ys, ps) = gather-IsSymbols n (i + 3) word s in
    (
      (get_or-IsSymbols word i s, (get_or-IsSymbols word (i + 1) s, ys)),
      (get_or-IsSymbols word (i + 2) s, ps),
    )

pub interleave-IsSymbols :
    (n j : ℕ) (xs ps : List ℕ) → IsSymbols xs → IsSymbols ps → IsSymbols (interleave n j xs ps)
unfolding interleave
interleave-IsSymbols zero j xs ps s t = (get_or-IsSymbols xs j s, tt)
interleave-IsSymbols (suc n) j xs ps s t = (
  get_or-IsSymbols xs j s,
  (
    get_or-IsSymbols xs (j + 1) s,
    (omega (arith, get_or-IsSymbols ps (j / 2) t), interleave-IsSymbols n (j + 2) xs ps s t),
  ),
)

pub length-interleave : (n j : ℕ) (xs ps : List ℕ) → length (interleave n j xs ps) ≡ 3 * n + 1
unfolding interleave
length-interleave zero j xs ps = omega arith
length-interleave (suc n) j xs ps = omega (arith, length-interleave n (j + 2) xs ps)

-- Reading depends only on the places that are read.
pub gather-eq :
    (n i k : ℕ) (xs ys : List ℕ)
    → ((x : ℕ) → x < 3 * n + 1 → get_or xs (i + x) 0 ≡ get_or ys (k + x) 0)
    → gather n i xs ≡ gather n k ys
unfolding gather
gather-eq zero i k xs ys h =
    let e : i + 0 ≡ i = omega arith in
    let e' : k + 0 ≡ k = omega arith in
    let f : get_or xs i 0 ≡ get_or ys k 0 = rw (e, e') at (h 0 (omega arith)) in cc
gather-eq (suc n) i k xs ys h =
    let e : i + 0 ≡ i = omega arith in
    let e' : k + 0 ≡ k = omega arith in
    let f : get_or xs i 0 ≡ get_or ys k 0 = rw (e, e') at (h 0 (omega arith)) in
    cc (f, h 1 (omega arith), h 2 (omega arith), gather-eq n (i + 3) (k + 3) xs ys rest)
  where
    rest : (x : ℕ) → x < 3 * n + 1 → get_or xs (i + 3 + x) 0 ≡ get_or ys (k + 3 + x) 0
    rest x l =
        let e : i + (3 + x) ≡ i + 3 + x = omega arith in
        let e' : k + (3 + x) ≡ k + 3 + x = omega arith in rw (e, e') at (h (3 + x) (omega arith))

pub get_or-append : (xs ys : List ℕ) (i : ℕ) → i < length xs → get_or (xs ++ ys) i 0 ≡ get_or xs i 0
get_or-append [] ys i h = absurd (omega arith)
get_or-append (x ∷ xs) ys zero h = refl
get_or-append (x ∷ xs) ys (suc i) h = get_or-append xs ys i (omega arith)

-- The first attempt reads the word as it came.
pub gather-pad : (word : List ℕ) → length word ≡ 31 → gather 10 3 (pad word) ≡ gather 10 0 word
gather-pad word l = gather-eq 10 3 0 (pad word) word λ x h.
    let e : 3 + x ≡ suc (suc (suc x)) = omega arith in
    let e' : 0 + x ≡ x = omega arith in
    rw (e, e') (get_or-append word (replicate 3 0) x (omega arith))
