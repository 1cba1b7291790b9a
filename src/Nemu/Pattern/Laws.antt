-- ===== src/Nemu/Pattern/Laws.antt =====
-- pattern_decode and the test of INSTPAT against the meaning of a pattern string.
use native.Mathlib.Nat.{
  pow-suc, one-le-pow, mul-div_right, pow-succ', mul-div-mul_left, pow-le-pow_right,
  div-div-eq-div-mul,
}
use native.Mathlib.Decide.{ℕ_discrete}
use model_lib.Base.{
  ℕ, zero, suc, ◌+◌, ◌*◌, ◌/◌, ◌%◌, ◌^◌, ◌≤◌, ◌<◌, min, bit_and, bit_or, ◌≡◌, refl, ap, ◌≢◌, inl,
  inr, Bool, true, false, ◌&&◌, some, List, [], ◌∷◌, arith, ◌==◌, if◌then◌else◌, Option-cases,
}
use model_lib.Base.Words.{u64, ◌<<<◌}
use model_lib.Base.Bits.{bit_and_shifted, bit_and-digit, bit_or_fields, bit_and-zero}
use model_lib.Nemu.Pattern.{Pattern, decode_char, decode_rounds, finish, pattern_decode, matches}
use model_lib.Nemu.Pattern.Fits.{width, bit_fits, fits}

-- The state after `n` bits: both numbers fit them, and end in `shift` zeros.
record IsRead (n : ℕ) (p : Pattern) : Type 0 where
  key_fits : p.key < 2 ^ n
  mask_fits : p.mask < 2 ^ n
  key_ends : p.key / 2 ^ p.shift * 2 ^ p.shift ≡ p.key
  mask_ends : p.mask / 2 ^ p.shift * 2 ^ p.shift ≡ p.mask

-- The test before the shift is taken out.
abbrev test : Pattern → ℕ → Bool
test p x = bit_and x p.mask == p.key

same_multiple : (a b k : ℕ) → 0 < k → (a * k == b * k) ≡ (a == b)
same_multiple a b k h = ground (arith, mul-div_right a h, mul-div_right b h)

matches-finish : (p : Pattern) (n x : ℕ) → IsRead n p → matches (finish p) x ≡ test p x
unfolding matches finish
matches-finish p n x r = rw (
  ← same_multiple (bit_and (x / 2 ^ p.shift) (p.mask / 2 ^ p.shift)) (p.key / 2 ^ p.shift)
      (2 ^ p.shift) (one-le-pow p.shift 2 (omega arith)),
  ← bit_and_shifted p.shift x (p.mask / 2 ^ p.shift),
  r.mask_ends,
  r.key_ends,
)

double_bit : (k b : ℕ) → k < 2 ^ 63 → b < 2 → bit_or (u64 (k <<< 1)) b ≡ 2 * k + b
double_bit k b hk hb = ground (arith, bit_or_fields 1 (k % 2 ^ 63) b)

-- A digit `d` of the mask and `b` of the key, appended.
test-double :
    (x m k d b : ℕ)
    → d < 2
    → b < 2
    → (bit_and x (2 * m + d) == 2 * k + b) ≡ ((min (x % 2) d == b) && (bit_and (x / 2) m == k))
test-double x m k d b hd hb = ground (arith, bit_and-digit x (2 * m + d))

ends-double : (k s : ℕ) → k / 2 ^ s * 2 ^ s ≡ k → (2 * k) / 2 ^ suc s * 2 ^ suc s ≡ 2 * k
ends-double k s h =
    rw (pow-succ' 2 s, mul-div-mul_left {m = 2} k (2 ^ s) (omega arith))
      (omega (arith, ap (λ (t : ℕ). 2 * t) h))

-- A character that is no space.
bit_of : ℕ → ℕ
bit_of c = if c == b'1' then 1 else 0

digit_of : ℕ → ℕ
digit_of c = if c == b'?' then 0 else 1

decode_char_bit :
    (c : ℕ) (p q : Pattern)
    → c ≢ b' '
    → p.key < 2 ^ 63
    → p.mask < 2 ^ 63
    → decode_char c p ≡ some q
    → (q.key ≡ 2 * p.key + bit_of c)
      × (q.mask ≡ 2 * p.mask + digit_of c)
      × (q.shift ≡ (if c == b'?' then p.shift + 1 else 0))
unfolding decode_char bit_of digit_of
decode_char_bit c p q ns hk hm e =
    ground (arith, double_bit p.key (bit_of c), double_bit p.mask (digit_of c))

decode_char_space : (p : Pattern) → decode_char b' ' p ≡ some p
unfolding decode_char
decode_char_space p = refl

-- A wild card lengthens the zeros at the end, any other character restarts them.
ends-append :
    (wild : Bool) (k b s q s' : ℕ)
    → k / 2 ^ s * 2 ^ s ≡ k
    → q ≡ 2 * k + b
    → s' ≡ (if wild then s + 1 else 0)
    → (wild ≡ true → b ≡ 0)
    → q / 2 ^ s' * 2 ^ s' ≡ q
ends-append true k b s q s' h eq es zb =
    let shift : s' ≡ suc s = omega (arith, es) in
    let double : q ≡ 2 * k = omega (arith, zb refl) in rw (shift, double) (ends-double k s h)
ends-append false k b s q s' h eq es zb = rw es (omega arith)

pow_bound : (n k : ℕ) → n < 64 → k < 2 ^ n → k < 2 ^ 63
pow_bound n k h f =
    omega (arith, pow-le-pow_right {n = 2} (omega arith) {i = n} {j = 63} (omega arith))

decode_char-IsRead :
    (n c : ℕ) (p q : Pattern)
    → n < 64
    → c ≢ b' '
    → IsRead n p
    → decode_char c p ≡ some q
    → IsRead (suc n) q
unfolding bit_of digit_of
decode_char-IsRead n c p q hn ns r e =
    let next =
      decode_char_bit c p q ns (pow_bound n p.key hn r.key_fits) (pow_bound n p.mask hn r.mask_fits)
        e in
    record {
      key_fits = ground (arith, next, pow-suc 2 n);
      mask_fits = ground (arith, next, pow-suc 2 n);
      key_ends =
          ends-append (c == b'?') p.key (bit_of c) p.shift q.key q.shift r.key_ends next.0 next.2
            (λ h. ground arith);
      mask_ends =
          ends-append (c == b'?') p.mask (digit_of c) p.shift q.mask q.shift r.mask_ends next.1
            next.2 (λ h. ground arith);
    }

test-decode_char :
    (c x : ℕ) (p q : Pattern)
    → c ≢ b' '
    → p.key < 2 ^ 63
    → p.mask < 2 ^ 63
    → decode_char c p ≡ some q
    → test q x ≡ (bit_fits c (x % 2) && test p (x / 2))
unfolding bit_of digit_of
test-decode_char c x p q ns hk hm e =
    ground
      (arith, decode_char_bit c p q ns hk hm e, test-double x p.mask p.key (digit_of c) (bit_of c))

-- All rounds: the string's own bits, and below them the test that the state started with.
matches-decode_rounds :
    (left : ℕ) (cs : List ℕ) (n x : ℕ) (p q : Pattern)
    → n + left ≤ 64
    → IsRead n p
    → decode_rounds left cs p ≡ some q
    → matches q x ≡ (fits cs x && test p (x / 2 ^ width cs))
unfolding decode_rounds fits
matches-decode_rounds zero cs n x p q hn r e = cc
matches-decode_rounds (suc left) [] n x p q hn r e = ground (arith, matches-finish p n x r)
matches-decode_rounds (suc left) (c ∷ cs) n x p q hn r e = elim (ℕ_discrete c b' ') [
  | yes space ↦ ground (
    arith,
    decode_char_space p,
    matches-decode_rounds left cs n x p q (omega arith) r,
    ap (λ (t : ℕ). decode_char t p) space,
  )
  | no ns ↦ elim (Option-cases (decode_char c p)) [
    | inl bad ↦ cc (rw (bad, decode_rounds) at e)
    | inr (p', step) ↦
        let deep = decode_char-IsRead n c p p' (omega arith) ns r step in
        ground (
          arith,
          matches-decode_rounds left cs (suc n) x p' q (omega arith) deep,
          test-decode_char c (x / 2 ^ width cs) p p' ns (pow_bound n p.key (omega arith) r.key_fits)
              (pow_bound n p.mask (omega arith) r.mask_fits) step,
          div-div-eq-div-mul x (2 ^ width cs) 2,
          ap (λ (t : ℕ). x / t) (pow-suc 2 (width cs)),
        )
  ]
]

abbrev start : Pattern
start = record { key = 0; mask = 0; shift = 0 }

start-IsRead : IsRead 0 start
start-IsRead = omega arith

-- For every string that pattern_decode accepts, the test of INSTPAT on the key, mask and shift
-- that it computes says of every instruction word exactly whether each bit is the one that the
-- string asks for.
pub matches-pattern_decode :
    (str : List ℕ) (q : Pattern) (inst : ℕ)
    → pattern_decode str ≡ some q
    → matches q inst ≡ fits str inst
unfolding pattern_decode
matches-pattern_decode str q inst e = ground (
  arith,
  matches-decode_rounds 64 str 0 inst start q (omega arith) start-IsRead e,
  bit_and-zero (inst / 2 ^ width str),
)
