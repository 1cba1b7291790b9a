-- ===== src/Nemu/Pattern/Block.antt =====
-- nemu/include/cpu/decode.h: a block of INSTPAT lines, for any instruction set.
use model_lib.Base.{
  ℕ, ◌/◌, ◌%◌, ◌^◌, ◌≡◌, inl, inr, true, ◌&&◌, Option, none, some, List, [], ◌∷◌, ◌++◌, arith, ltb,
  ◌==◌, if◌then◌else◌, Option-cases, length,
}
use Prim.Native.String.{String}
use model_lib.Outcome.{Outcome, ok, panic}
use model_lib.Nemu.Pattern.{codes, pattern_decode, matches}
use model_lib.Nemu.Pattern.Fits.{width, fits}
use model_lib.Nemu.Pattern.Fields.{is_literal, is_wild, value, fits-append, fits-wild, fits-literal}
use model_lib.Nemu.Pattern.Laws.{matches-pattern_decode}
use model_lib.Nemu.Pattern.Total.{all_legal, pattern_decode-returns}

module _ {Op : Type 0} (pattern_of : Op → String) where
  -- The first line whose pattern fits; the others are jumped over. `ok none` is a fall through the
  -- whole block.
  unfoldable pub select_line : List Op → ℕ → Outcome (Option Op)
  select_line [] inst = ok none
  select_line (p ∷ ps) inst = elim (pattern_decode (codes (pattern_of p))) [
    | none ↦ panic
    | some k ↦ if matches k inst then ok (some p) else select_line ps inst
  ]

  -- One line, with the meaning of its pattern in place of the test.
  pub select_line-cons :
      (p : Op) (ps : List Op) (i : ℕ)
      → (all_legal (codes (pattern_of p)) && ltb (length (codes (pattern_of p))) 64) ≡ true
      → select_line (p ∷ ps) i
        ≡ (if fits (codes (pattern_of p)) i then ok (some p) else select_line ps i)
  unfolding select_line
  select_line-cons p ps i h = elim (Option-cases (pattern_decode (codes (pattern_of p)))) [
    | inl bad ↦ ground (arith, pattern_decode-returns (codes (pattern_of p)), bad)
    | inr (q, e) ↦ rw (e, select_line, matches-pattern_decode (codes (pattern_of p)) q i e)
  ]

-- A pattern that fixes the upper bits of a word alone.
pub fits-upper :
    (upper lower : List ℕ) (i : ℕ)
    → is_literal upper ≡ true
    → is_wild lower ≡ true
    → fits (upper ++ lower) i ≡ (i / 2 ^ width lower % 2 ^ width upper == value upper)
fits-upper upper lower i lit wild = ground (
  arith,
  fits-append upper lower i,
  fits-literal upper (i / 2 ^ width lower) lit,
  fits-wild lower i wild,
)
