-- ===== src/Nemu/Mips32/Select.antt =====
-- Which line of the MIPS block a word takes, read off its opcode and function fields.
use model_lib.Base.{
  ℕ, ◌/◌, ◌%◌, ◌^◌, ◌≡◌, refl, Bool, true, false, ◌&&◌, some, List, [], ◌∷◌, ◌++◌, arith, ◌==◌,
  if◌then◌else◌,
}
use model_lib.Outcome.{ok}
use model_lib.Nemu.Pattern.{codes}
use model_lib.Nemu.Pattern.Fits.{fits}
use model_lib.Nemu.Pattern.Fields.{fits-append, fits-wild, fits-literal}
use model_lib.Nemu.Pattern.Block.{select_line, select_line-cons, fits-upper}
use model_lib.Nemu.Mips32.{Op, lui, lw, sw, sdbbp, inv, pattern_of, inst_pats}

abbrev pub opcode : ℕ → ℕ
opcode i = i / 2 ^ 26 % 64

abbrev pub function : ℕ → ℕ
function i = i % 64

abbrev rest : List ℕ
rest = codes " ????? ????? ????? ????? ??????"

abbrev middle : List ℕ
middle = codes " ????? ????? ????? ????? "

fits-sdbbp : (i : ℕ) → fits (codes (pattern_of sdbbp)) i ≡ (opcode i == 0x1c && function i == 0x3f)
fits-sdbbp i = ground (
  arith,
  fits-append (codes "011100") (middle ++ codes "111111") i,
  fits-literal (codes "011100") (i / 2 ^ 26) refl,
  fits-append middle (codes "111111") i,
  fits-wild middle (i / 2 ^ 6) refl,
  fits-literal (codes "111111") i refl,
)

-- The line of a word.
abbrev pub op_of : ℕ → Op
op_of i =
    if opcode i == 0x0f
    then lui
    else if opcode i == 0x23
    then lw
    else if opcode i == 0x2b
    then sw
    else if opcode i == 0x1c && function i == 0x3f
    then sdbbp
    else inv

if_line :
    (b : Bool) (p q : Op)
    → (if b then ok (some p) else ok (some q)) ≡ ok (some (if b then p else q))
if_line true p q = refl
if_line false p q = refl

-- For every word the block takes exactly one line.
pub mips_select_lem : (i : ℕ) → select_line pattern_of inst_pats i ≡ ok (some (op_of i))
mips_select_lem i =
    rw
      (
        select_line-cons pattern_of lui (lw ∷ sw ∷ sdbbp ∷ inv ∷ []) i refl,
        select_line-cons pattern_of lw (sw ∷ sdbbp ∷ inv ∷ []) i refl,
        select_line-cons pattern_of sw (sdbbp ∷ inv ∷ []) i refl,
        select_line-cons pattern_of sdbbp (inv ∷ []) i refl,
        select_line-cons pattern_of inv [] i refl,
        fits-upper (codes "001111") rest i refl refl,
        fits-upper (codes "100011") rest i refl refl,
        fits-upper (codes "101011") rest i refl refl,
        fits-sdbbp i,
        fits-wild (codes (pattern_of inv)) i refl,
      )
      (simp if_line)
