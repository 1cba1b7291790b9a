-- ===== src/Nemu/Pattern/Hex.antt =====
-- nemu/include/cpu/decode.h: pattern_decode_hex, whose characters stand for four bits each.
pub mod Steps
pub mod Rounds
use native.Mathlib.Nat.{pow-suc, pow-le-pow_right}
use native.Mathlib.Decide.{ℕ_discrete}
use model_lib.Base.{
  ℕ, zero, suc, ◌+◌, ◌-◌, ◌*◌, ◌/◌, ◌%◌, ◌^◌, ◌≤◌, ◌<◌, min, bit_and, bit_or, bit_xor, ◌≡◌, refl,
  sym, ap, ap₂, ◌∙◌, ◌≢◌, ◌↔◌, ◌⊎◌, inl, inr, Bool, true, false, not, ◌&&◌, ◌||◌, Option, none,
  some, List, [], ◌∷◌, ◌++◌, map, reverse, arith, ltb, leb, ◌==◌, ◌!=◌, if◌then◌else◌, ltb→lt,
  lt→ltb, le→ltb, ==_iff, ==_refl, ==_of_ne, Bool-cases, Option-cases, length, get_elem?, get_or,
  set, take, replicate, length-append, length-set, length-replicate, get_or-set_self, get_or-set_ne,
  get_or-append_left, get_or-append_length,
}
use model_lib.Base.Words.{u8, u16, u32, u64, sub32, ◌<<<◌, ◌>>>◌}
use model_lib.Base.Bits.{bit_or_fields}
use model_lib.Nemu.Pattern.{Pattern, decode_char, decode_rounds, finish, pattern_decode}

pub is_digit : ℕ → Bool
is_digit c = leb b'0' c && leb c b'9'

pub is_hex_char : ℕ → Bool
is_hex_char c = is_digit c || leb b'a' c && leb c b'f' || c == b'?'

abbrev pub digit_key : ℕ → ℕ
digit_key c = if c == b'?' then 0 else if leb b'0' c && leb c b'9' then c - b'0' else c - b'a' + 10

-- One round of `macro(i)` at a character inside the string; `none` is the failed Assert.
pub decode_hex_char : ℕ → Pattern → Option Pattern
unfolding is_hex_char is_digit
decode_hex_char c p =
    if c == b' '
    then some p
    else if is_hex_char c
    then some (record {
      key = bit_or (u64 (p.key <<< 4)) (digit_key c);
      mask = bit_or (u64 (p.mask <<< 4)) (if c == b'?' then 0 else 15);
      shift = if c == b'?' then p.shift + 4 else 0;
    })
    else none

-- The unrolled rounds `macro16(0)`.
pub decode_hex_rounds : ℕ → List ℕ → Pattern → Option Pattern
decode_hex_rounds zero cs p = none
decode_hex_rounds (suc left) [] p = some (finish p)
decode_hex_rounds (suc left) (c ∷ cs) p = elim (decode_hex_char c p) [
  | none ↦ none
  | some p' ↦ decode_hex_rounds left cs p'
]

unfoldable pub pattern_decode_hex : List ℕ → Option Pattern
unfolding decode_hex_rounds decode_hex_char finish
pattern_decode_hex str = decode_hex_rounds 16 str (record { key = 0; mask = 0; shift = 0 })
