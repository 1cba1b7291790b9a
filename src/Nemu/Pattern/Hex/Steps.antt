-- ===== src/Nemu/Pattern/Hex/Steps.antt =====
-- A character of a hex pattern as four characters of a binary one.
use model_lib.Base.{
  ℕ, suc, ◌+◌, ◌*◌, ◌/◌, ◌%◌, ◌^◌, ◌<◌, bit_or, ◌≡◌, refl, ap, ◌∙◌, ◌≢◌, inl, inr, Bool, true, ◌||◌,
  some, List, [], ◌∷◌, arith, ◌==◌, if◌then◌else◌, Bool-cases,
}
use model_lib.Base.Words.{u64, ◌<<<◌}
use model_lib.Base.Bits.{bit_or_fields}
use model_lib.Nemu.Pattern.{Pattern, decode_char, decode_rounds}
use model_lib.Nemu.Pattern.Hex.{is_digit, is_hex_char, digit_key, decode_hex_char}

-- The character for bit `i` of the digit `d`, where `w` is 2 ^ i.
abbrev bit_char : ℕ → ℕ → ℕ
bit_char d w = if d / w % 2 == 1 then b'1' else b'0'

-- What a character stands for in the place `w`.
abbrev pub char_for : ℕ → ℕ → ℕ
char_for c w = if c == b' ' then b' ' else if c == b'?' then b'?' else bit_char (digit_key c) w

-- A string with each character written out in four.
abbrev pub expand : List ℕ → List ℕ
expand [] = []
expand (c ∷ cs) = char_for c 8 ∷ char_for c 4 ∷ char_for c 2 ∷ char_for c 1 ∷ expand cs

abbrev one_of : ℕ → ℕ
one_of c = if c == b'1' then 1 else 0

abbrev fixed_of : ℕ → ℕ
fixed_of c = if c == b'?' then 0 else 1

abbrev pub is_bit_char : ℕ → Bool
is_bit_char c = c == b'0' || c == b'1' || c == b'?'

-- The state behind a character of pattern_decode.
abbrev pub next : ℕ → Pattern → Pattern
next c p = record {
  key = 2 * p.key + one_of c;
  mask = 2 * p.mask + fixed_of c;
  shift = if c == b'?' then p.shift + 1 else 0;
}

double_or : (k b : ℕ) → k < 2 ^ 63 → b < 2 → bit_or (u64 (k <<< 1)) b ≡ 2 * k + b
double_or k b hk hb = ground (arith, bit_or_fields 1 (k % 2 ^ 63) b)

shift_or : (k d : ℕ) → k < 2 ^ 60 → d < 16 → bit_or (u64 (k <<< 4)) d ≡ 16 * k + d
shift_or k d hk hd = ground (arith, bit_or_fields 4 (k % 2 ^ 60) d)

decode_char-next :
    (c : ℕ) (p : Pattern)
    → is_bit_char c ≡ true
    → p.key < 2 ^ 63
    → p.mask < 2 ^ 63
    → decode_char c p ≡ some (next c p)
unfolding decode_char
decode_char-next c p h hk hm =
    ground (arith, double_or p.key (one_of c), double_or p.mask (fixed_of c))

round :
    (left c : ℕ) (cs : List ℕ) (p : Pattern)
    → is_bit_char c ≡ true
    → p.key < 2 ^ 63
    → p.mask < 2 ^ 63
    → decode_rounds (suc left) (c ∷ cs) p ≡ decode_rounds left cs (next c p)
unfolding decode_rounds
round left c cs p h hk hm = rw (decode_rounds, decode_char-next c p h hk hm) refl

pub four_rounds :
    (left a b c d : ℕ) (cs : List ℕ) (p : Pattern)
    → is_bit_char a ≡ true
    → is_bit_char b ≡ true
    → is_bit_char c ≡ true
    → is_bit_char d ≡ true
    → p.key < 2 ^ 60
    → p.mask < 2 ^ 60
    → decode_rounds (suc (suc (suc (suc left)))) (a ∷ b ∷ c ∷ d ∷ cs) p
      ≡ decode_rounds left cs (next d (next c (next b (next a p))))
four_rounds left a b c d cs p ha hb hc hd hk hm =
    round (suc (suc (suc left))) a (b ∷ c ∷ d ∷ cs) p ha (omega arith) (omega arith)
    ∙ round (suc (suc left)) b (c ∷ d ∷ cs) (next a p) hb (ground arith) (ground arith)
    ∙ round (suc left) c (d ∷ cs) (next b (next a p)) hc (ground arith) (ground arith)
    ∙ round left d cs (next c (next b (next a p))) hd (ground arith) (ground arith)

-- A character of pattern_decode_hex that is no space.
abbrev pub hex_next : ℕ → Pattern → Pattern
hex_next c p = record {
  key = 16 * p.key + digit_key c;
  mask = 16 * p.mask + (if c == b'?' then 0 else 15);
  shift = if c == b'?' then p.shift + 4 else 0;
}

pub digit_key-lt : (c : ℕ) → is_hex_char c ≡ true → digit_key c < 16
unfolding is_hex_char is_digit
digit_key-lt c h = ground arith

pub decode_hex_char-next :
    (c : ℕ) (p q : Pattern)
    → c ≢ b' '
    → p.key < 2 ^ 60
    → p.mask < 2 ^ 60
    → decode_hex_char c p ≡ some q
    → (is_hex_char c ≡ true) × (q ≡ hex_next c p)
unfolding decode_hex_char
decode_hex_char-next c p q ns hk hm e = elim (Bool-cases (is_hex_char c)) [
  | inl h ↦ (
    h,
    ground (
      arith,
      digit_key-lt c h,
      shift_or p.key (digit_key c),
      shift_or p.mask (if c == b'?' then 0 else 15),
    ),
  )
  | inr h ↦ ground arith
]

pub is_bit_char-char_for : (c w : ℕ) → c ≢ b' ' → is_bit_char (char_for c w) ≡ true
is_bit_char-char_for c w ns = ground arith

one_of-char_for : (c w : ℕ) → c ≢ b' ' → 0 < w → one_of (char_for c w) ≡ digit_key c / w % 2
one_of-char_for c w ns h = ground arith

fixed_of-char_for : (c w : ℕ) → c ≢ b' ' → fixed_of (char_for c w) ≡ fixed_of c
fixed_of-char_for c w ns = ground arith

wild-char_for : (c w : ℕ) → c ≢ b' ' → (char_for c w == b'?') ≡ (c == b'?')
wild-char_for c w ns = ground arith

key_of_bits :
    (k d a b c e : ℕ)
    → d < 16
    → a ≡ d / 8 % 2
    → b ≡ d / 4 % 2
    → c ≡ d / 2 % 2
    → e ≡ d / 1 % 2
    → 2 * (2 * (2 * (2 * k + a) + b) + c) + e ≡ 16 * k + d
key_of_bits k d a b c e h ha hb hc he = omega arith

mask_of_bits :
    (k a b c e x : ℕ)
    → a ≡ x
    → b ≡ x
    → c ≡ x
    → e ≡ x
    → 2 * (2 * (2 * (2 * k + a) + b) + c) + e ≡ 16 * k + 15 * x
mask_of_bits k a b c e x ha hb hc he = omega arith

shift_of_bits :
    (k : ℕ) (a b c e x : Bool)
    → a ≡ x
    → b ≡ x
    → c ≡ x
    → e ≡ x
    → (if e then (if c then (if b then (if a then k + 1 else 0) + 1 else 0) + 1 else 0) + 1 else 0)
      ≡ (if x then k + 4 else 0)
shift_of_bits k a b c e x ha hb hc he = rw (ha, hb, hc, he) (ground arith)

fifteen : (c : ℕ) → 15 * fixed_of c ≡ (if c == b'?' then 0 else 15)
fifteen c = ground arith

Pattern-eq :
    {k k' m m' s s' : ℕ}
    → k ≡ k'
    → m ≡ m'
    → s ≡ s'
    → Path Pattern
        (record { key = k; mask = m; shift = s })
        (record { key = k'; mask = m'; shift = s' })
Pattern-eq hk hm hs = cc

pub next-char_for :
    (c : ℕ) (p : Pattern)
    → c ≢ b' '
    → is_hex_char c ≡ true
    → next (char_for c 1) (next (char_for c 2) (next (char_for c 4) (next (char_for c 8) p)))
      ≡ hex_next c p
next-char_for c p ns h =
    Pattern-eq
      (key_of_bits p.key (digit_key c) (one_of (char_for c 8)) (one_of (char_for c 4))
        (one_of (char_for c 2)) (one_of (char_for c 1)) (digit_key-lt c h)
        (one_of-char_for c 8 ns (omega arith)) (one_of-char_for c 4 ns (omega arith))
        (one_of-char_for c 2 ns (omega arith)) (one_of-char_for c 1 ns (omega arith)))
      (mask_of_bits p.mask (fixed_of (char_for c 8)) (fixed_of (char_for c 4))
          (fixed_of (char_for c 2)) (fixed_of (char_for c 1)) (fixed_of c)
          (fixed_of-char_for c 8 ns) (fixed_of-char_for c 4 ns) (fixed_of-char_for c 2 ns)
          (fixed_of-char_for c 1 ns)
        ∙ ap (λ (t : ℕ). 16 * p.mask + t) (fifteen c))
      (shift_of_bits p.shift (char_for c 8 == b'?') (char_for c 4 == b'?') (char_for c 2 == b'?')
        (char_for c 1 == b'?') (c == b'?') (wild-char_for c 8 ns) (wild-char_for c 4 ns)
        (wild-char_for c 2 ns) (wild-char_for c 1 ns))
