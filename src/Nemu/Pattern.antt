-- ===== src/Nemu/Pattern.antt =====
-- nemu/include/cpu/decode.h: a pattern string becomes a key, a mask and a shift, and an
-- instruction word is tested against the three.
pub mod Hex
pub mod Fits
pub mod Laws
pub mod Fields
pub mod Total
pub mod Block
use Prim.Native.Char.{code}
use Prim.Native.String.{String}
use model_lib.Base.{
  ℕ, zero, suc, ◌+◌, ◌-◌, ◌*◌, ◌/◌, Bool, true, false, ◌||◌, Option, none, some, List, [], ◌∷◌,
  bit_and, bit_or, ◌==◌, if◌then◌else◌,
}
use model_lib.Base.Words.{u64, ◌<<<◌, ◌>>>◌}

-- The characters of a text.
abbrev pub codes : String → List ℕ
codes String.[] = []
codes (String.◌∷◌ c s) = code c ∷ codes s

-- `__key`, `__mask` and `__shift`, and what is stored through the three pointers.
pub record Pattern : Type 0 where
  pub key : ℕ
  pub mask : ℕ
  pub shift : ℕ

is_pattern_char : ℕ → Bool
is_pattern_char c = c == b'0' || c == b'1' || c == b'?'

-- One round of `macro(i)` at a character inside the string; `none` is the failed Assert.
pub decode_char : ℕ → Pattern → Option Pattern
unfolding is_pattern_char
decode_char c p =
    if c == b' '
    then some p
    else if is_pattern_char c
    then some (record {
      key = bit_or (u64 (p.key <<< 1)) (if c == b'1' then 1 else 0);
      mask = bit_or (u64 (p.mask <<< 1)) (if c == b'?' then 0 else 1);
      shift = if c == b'?' then p.shift + 1 else 0;
    })
    else none

-- `finish:`
pub finish : Pattern → Pattern
finish p = record { key = p.key >>> p.shift; mask = p.mask >>> p.shift; shift = p.shift }

-- The unrolled rounds `macro64(0)`: the first number counts those left, and running out of them
-- is the panic "pattern too long".
pub decode_rounds : ℕ → List ℕ → Pattern → Option Pattern
decode_rounds zero cs p = none
decode_rounds (suc left) [] p = some (finish p)
decode_rounds (suc left) (c ∷ cs) p = elim (decode_char c p) [
  | none ↦ none
  | some p' ↦ decode_rounds left cs p'
]

unfoldable pub pattern_decode : List ℕ → Option Pattern
unfolding decode_rounds decode_char finish
pattern_decode str = decode_rounds 64 str (record { key = 0; mask = 0; shift = 0 })

-- The test of INSTPAT.
unfoldable pub matches : Pattern → ℕ → Bool
matches p inst = bit_and (inst >>> p.shift) p.mask == p.key
