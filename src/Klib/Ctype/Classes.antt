-- ===== src/Klib/Ctype/Classes.antt =====
-- The classes of ctypes.c on all ints, against the ranges of ASCII.
use model_lib.Base.{
  ℕ, ◌+◌, ◌-◌, ◌^◌, ◌<◌, ◌≡◌, Bool, true, false, ◌&&◌, ◌||◌, refl, List, [], ◌∷◌, arith, ltb, leb,
  ◌==◌, if◌then◌else◌,
}
use model_lib.Klib.Ctype.{
  isspace, isprint, isdigit, islower, isupper, isalpha, isalnum, ispunct, iscntrl, tolower, toupper,
}

abbrev between : ℕ → ℕ → ℕ → Bool
between a b c = leb a c && leb c b

islower-between : (c : ℕ) → c < 2 ^ 32 → islower c ≡ between 97 122 c
unfolding islower
islower-between c h = ground arith

isupper-between : (c : ℕ) → c < 2 ^ 32 → isupper c ≡ between 65 90 c
unfolding isupper
isupper-between c h = ground arith

isdigit-between : (c : ℕ) → c < 2 ^ 32 → isdigit c ≡ between 48 57 c
unfolding isdigit
isdigit-between c h = ground arith

isprint-between : (c : ℕ) → c < 2 ^ 32 → isprint c ≡ between 32 127 c
unfolding isprint
isprint-between c h = ground arith

iscntrl-between : (c : ℕ) → c < 2 ^ 32 → iscntrl c ≡ between 0 31 c
unfolding iscntrl
iscntrl-between c h = ground arith

pub data CharClass : Type 0 where
  control space digit capital small punctuation beyond : CharClass

-- The class of a character by its place in ASCII.
abbrev pub char_class : ℕ → CharClass
char_class c =
    if ltb c 32
    then control
    else if ltb c 33
    then space
    else if ltb c 48
    then punctuation
    else if ltb c 58
    then digit
    else if ltb c 65
    then punctuation
    else if ltb c 91
    then capital
    else if ltb c 97
    then punctuation
    else if ltb c 123
    then small
    else if ltb c 128
    then punctuation
    else beyond

-- The answers of islower, isupper, isdigit, ispunct and iscntrl on a class.
abbrev pub answers : CharClass → List Bool
answers small = true ∷ false ∷ false ∷ false ∷ false ∷ []
answers capital = false ∷ true ∷ false ∷ false ∷ false ∷ []
answers digit = false ∷ false ∷ true ∷ false ∷ false ∷ []
answers punctuation = false ∷ false ∷ false ∷ true ∷ false ∷ []
answers control = false ∷ false ∷ false ∷ false ∷ true ∷ []
answers space = false ∷ false ∷ false ∷ false ∷ false ∷ []
answers beyond = false ∷ false ∷ false ∷ false ∷ false ∷ []

-- On every int, islower, isupper, isdigit, ispunct and iscntrl tell the small letters, the
-- capitals, the digits, the punctuation and the control characters by their places in the table of
-- ASCII, except that 127 (DEL) counts as punctuation; isalpha, isalnum and isprint are the unions
-- that they should be.
pub ascii_partition :
    (c : ℕ)
    → c < 2 ^ 32
    → (islower c ∷ isupper c ∷ isdigit c ∷ ispunct c ∷ iscntrl c ∷ [] ≡ answers (char_class c))
      × (isalpha c ≡ islower c || isupper c)
      × (isalnum c ≡ isalpha c || isdigit c)
      × (isprint c ≡ isalnum c || ispunct c || (c == 32))
unfolding isalpha ispunct isalnum isspace
ascii_partition c h =
    rw
      (
        islower-between c h,
        isupper-between c h,
        isdigit-between c h,
        isprint-between c h,
        iscntrl-between c h,
      )
      (ground arith, refl, refl, ground arith)

tolower-value : (c : ℕ) → c < 2 ^ 32 → tolower c ≡ (if between 65 90 c then c + 32 else c)
unfolding tolower
tolower-value c h = rw (isupper-between c h) (ground arith)

toupper-value : (c : ℕ) → c < 2 ^ 32 → toupper c ≡ (if between 97 122 c then c - 32 else c)
unfolding toupper
toupper-value c h = rw (islower-between c h) (ground arith)

tolower_lt : (c : ℕ) → c < 2 ^ 32 → tolower c < 2 ^ 32
tolower_lt c h = ground (arith, tolower-value c h)

toupper_lt : (c : ℕ) → c < 2 ^ 32 → toupper c < 2 ^ 32
toupper_lt c h = ground (arith, toupper-value c h)

-- For every int: mapping to one case first does not change the map to the other case, no
-- capital is left by tolower and no small letter by toupper, and letters and digits stay so.
pub toupper-tolower :
    (c : ℕ)
    → c < 2 ^ 32
    → (toupper (tolower c) ≡ toupper c)
      × (tolower (toupper c) ≡ tolower c)
      × (isupper (tolower c) ≡ false)
      × (islower (toupper c) ≡ false)
      × (isalnum (tolower c) ≡ isalnum c)
unfolding isalnum isalpha
toupper-tolower c h =
    let l : tolower c < 2 ^ 32 = tolower_lt c h in
    let u : toupper c < 2 ^ 32 = toupper_lt c h in
    (
      ground (arith, tolower-value c h, toupper-value c h, toupper-value (tolower c) l),
      ground (arith, tolower-value c h, toupper-value c h, tolower-value (toupper c) u),
      ground (arith, tolower-value c h, isupper-between (tolower c) l),
      ground (arith, toupper-value c h, islower-between (toupper c) u),
      rw
          (
            islower-between c h,
            isupper-between c h,
            isdigit-between c h,
            islower-between (tolower c) l,
            isupper-between (tolower c) l,
            isdigit-between (tolower c) l,
          )
          (ground (arith, tolower-value c h)),
    )
