-- ===== src/Nemu/Pattern/Total.antt =====
-- Which strings pattern_decode accepts.
use model_lib.Base.{
  ℕ, zero, suc, ◌≡◌, inl, inr, Bool, true, false, ◌&&◌, ◌||◌, Option, none, some, List, [], ◌∷◌,
  arith, ltb, ◌==◌, Option-cases, length,
}
use model_lib.Nemu.Pattern.{Pattern, decode_char, decode_rounds, pattern_decode}

-- A space, or one of the three pattern characters.
abbrev pub is_legal : ℕ → Bool
is_legal c = c == b' ' || c == b'0' || c == b'1' || c == b'?'

abbrev pub all_legal : List ℕ → Bool
all_legal [] = true
all_legal (c ∷ cs) = is_legal c && all_legal cs

-- Whether the code returns.
abbrev pub returns : Option Pattern → Bool
returns none = false
returns (some p) = true

decode_char-is_legal : (c : ℕ) (p : Pattern) → returns (decode_char c p) ≡ is_legal c
unfolding decode_char
decode_char-is_legal c p = ground arith

decode_rounds-returns :
    (left : ℕ) (cs : List ℕ) (p : Pattern)
    → returns (decode_rounds left cs p) ≡ (all_legal cs && ltb (length cs) left)
unfolding decode_rounds
decode_rounds-returns zero cs p = ground arith
decode_rounds-returns (suc left) [] p = ground arith
decode_rounds-returns (suc left) (c ∷ cs) p = elim (Option-cases (decode_char c p)) [
  | inl bad ↦ ground (arith, decode_char-is_legal c p, bad)
  | inr (p', step) ↦
      ground (arith, decode_char-is_legal c p, step, decode_rounds-returns left cs p')
]

-- pattern_decode returns exactly for the strings of at most 63 characters that are all spaces,
-- `0`, `1` or `?`. For every other string it stops at an Assert or the panic "pattern too long".
pub pattern_decode-returns :
    (str : List ℕ) → returns (pattern_decode str) ≡ (all_legal str && ltb (length str) 64)
unfolding pattern_decode
pattern_decode-returns str = decode_rounds-returns 64 str (record { key = 0; mask = 0; shift = 0 })
