-- ===== src/Nemu/Pattern/Hex/Rounds.antt =====
-- pattern_decode_hex does what pattern_decode does with the bits written out.
use native.Mathlib.Nat.{pow-suc, pow-le-pow_right}
use native.Mathlib.Decide.{ℕ_discrete}
use model_lib.Base.{
  ℕ, zero, suc, ◌+◌, ◌*◌, ◌^◌, ◌≤◌, ◌<◌, ◌≡◌, refl, sym, ap, ◌∙◌, inl, inr, Bool, true, false, ◌&&◌,
  ◌||◌, Option, none, some, List, [], ◌∷◌, arith, ltb, leb, ◌==◌, lt→ltb, Option-cases, length,
}
use model_lib.Nemu.Pattern.{Pattern, decode_char, decode_rounds, pattern_decode}
use model_lib.Nemu.Pattern.Hex.{
  is_digit, is_hex_char, decode_hex_char, decode_hex_rounds, pattern_decode_hex,
}
use model_lib.Nemu.Pattern.Hex.Steps.{
  char_for, expand, four_rounds, digit_key-lt, decode_hex_char-next, is_bit_char-char_for,
  next-char_for,
}

four_more : (left : ℕ) → 4 * suc left ≡ suc (suc (suc (suc (4 * left))))
four_more left = omega arith

four_spaces :
    (left c : ℕ) (cs : List ℕ) (p : Pattern)
    → c ≡ b' '
    → decode_rounds (suc (suc (suc (suc left)))) (expand (c ∷ cs)) p
      ≡ decode_rounds left (expand cs) p
unfolding decode_rounds decode_char
four_spaces left c cs p h = rw h refl

hex_space :
    (left c : ℕ) (cs : List ℕ) (p : Pattern)
    → c ≡ b' '
    → decode_hex_rounds (suc left) (c ∷ cs) p ≡ decode_hex_rounds left cs p
unfolding decode_hex_rounds decode_hex_char
hex_space left c cs p h = rw h refl

hex_step :
    (left c : ℕ) (cs : List ℕ) (p q : Pattern)
    → decode_hex_rounds (suc left) (c ∷ cs) p ≡ some q
    → (p' : Pattern) × (decode_hex_char c p ≡ some p') × (decode_hex_rounds left cs p' ≡ some q)
unfolding decode_hex_rounds
hex_step left c cs p q e = elim (Option-cases (decode_hex_char c p)) [
  | inl bad ↦ cc (rw (bad, decode_hex_rounds) at e)
  | inr (p', step) ↦ (p', step, rw (step, decode_hex_rounds) at e)
]

-- What n characters can reach.
abbrev limit : ℕ → ℕ
limit n = 2 ^ (4 * n)

limit-suc : (n : ℕ) → limit (suc n) ≡ 16 * limit n
limit-suc n =
    ap (λ (t : ℕ). 2 ^ t) (four_more n)
    ∙ omega (
      arith,
      pow-suc 2 (4 * n),
      pow-suc 2 (suc (4 * n)),
      pow-suc 2 (suc (suc (4 * n))),
      pow-suc 2 (suc (suc (suc (4 * n)))),
    )

limit-le : (n k : ℕ) → n < 16 → k < limit n → k < 2 ^ 60
limit-le n k h f =
    omega (arith, pow-le-pow_right {n = 2} (omega arith) {i = 4 * n} {j = 60} (omega arith))

decode_rounds-expand :
    (left : ℕ) (cs : List ℕ) (n : ℕ) (p q : Pattern)
    → n + left ≤ 16
    → p.key < limit n
    → p.mask < limit n
    → decode_hex_rounds left cs p ≡ some q
    → decode_rounds (4 * left) (expand cs) p ≡ some q
unfolding decode_rounds decode_hex_rounds
decode_rounds-expand zero cs n p q hn hk hm e = cc
decode_rounds-expand (suc left) [] n p q hn hk hm e =
    ap (λ (t : ℕ). decode_rounds t [] p) (four_more left) ∙ e
decode_rounds-expand (suc left) (c ∷ cs) n p q hn hk hm e =
    ap (λ (t : ℕ). decode_rounds t (expand (c ∷ cs)) p) (four_more left)
    ∙ elim (ℕ_discrete c b' ') [
      | yes space ↦
          four_spaces (4 * left) c cs p space
          ∙ decode_rounds-expand left cs n p q (omega arith) hk hm
              (sym (hex_space left c cs p space) ∙ e)
      | no ns ↦
          let (p', step, rest) = hex_step left c cs p q e in
          let small_key = limit-le n p.key (omega arith) hk in
          let small_mask = limit-le n p.mask (omega arith) hm in
          let (legal, same) = decode_hex_char-next c p p' ns small_key small_mask step in
          four_rounds (4 * left) (char_for c 8) (char_for c 4) (char_for c 2) (char_for c 1)
            (expand cs) p (is_bit_char-char_for c 8 ns) (is_bit_char-char_for c 4 ns)
            (is_bit_char-char_for c 2 ns) (is_bit_char-char_for c 1 ns) small_key small_mask
          ∙ ap (decode_rounds (4 * left) (expand cs)) (next-char_for c p ns legal ∙ sym same)
          ∙ decode_rounds-expand left cs (suc n) p' q (omega arith)
              (omega (arith, ap (λ (t : Pattern). t.key) same, digit_key-lt c legal, limit-suc n))
              (ground (arith, ap (λ (t : Pattern). t.mask) same, limit-suc n)) rest
    ]

abbrev start : Pattern
start = record { key = 0; mask = 0; shift = 0 }

-- Whether the code returns.
abbrev returns : Option Pattern → Bool
returns none = false
returns (some p) = true

returns-some : (o : Option Pattern) → returns o ≡ true → (q : Pattern) × (o ≡ some q)
returns-some none h = cc
returns-some (some q) h = (q, refl)

abbrev pub all_hex : List ℕ → Bool
all_hex [] = true
all_hex (c ∷ cs) =
    (c == b' ' || leb b'0' c && leb c b'9' || leb b'a' c && leb c b'f' || c == b'?') && all_hex cs

decode_hex_char-returns :
    (c : ℕ) (p : Pattern) → returns (decode_hex_char c p) ≡ (c == b' ' || is_hex_char c)
unfolding decode_hex_char
decode_hex_char-returns c p = ground arith

decode_hex_rounds-returns :
    (left : ℕ) (cs : List ℕ) (p : Pattern)
    → returns (decode_hex_rounds left cs p) ≡ (all_hex cs && ltb (length cs) left)
unfolding decode_hex_rounds is_hex_char is_digit
decode_hex_rounds-returns zero cs p = ground arith
decode_hex_rounds-returns (suc left) [] p = ground arith
decode_hex_rounds-returns (suc left) (c ∷ cs) p = elim (Option-cases (decode_hex_char c p)) [
  | inl bad ↦ ground (arith, decode_hex_char-returns c p, bad)
  | inr (p', step) ↦
      ground (arith, decode_hex_char-returns c p, step, decode_hex_rounds-returns left cs p')
]

-- pattern_decode_hex returns for every string of at most 15 characters that are all spaces, digits,
-- letters from a to f, or `?`; and pattern_decode then computes the same key, mask and shift from
-- the string with each character written out in four, a digit as its bits and a space or `?` as
-- four of them.
pub pattern_decode-expand :
    (str : List ℕ)
    → all_hex str ≡ true
    → length str < 16
    → (q : Pattern) × (pattern_decode_hex str ≡ some q) × (pattern_decode (expand str) ≡ some q)
unfolding pattern_decode_hex pattern_decode
pattern_decode-expand str legal short =
    let (q, e) =
      returns-some (pattern_decode_hex str)
        (decode_hex_rounds-returns 16 str start ∙ rw (legal, lt→ltb (length str) 16 short) refl) in
    (q, e, decode_rounds-expand 16 str 0 start q (omega arith) (omega arith) (omega arith) e)
