-- ===== src/Nemu/X86/Select.antt =====
-- Which line of the x86 block an opcode takes.
use model_lib.Base.{
  ℕ, ◌/◌, ◌%◌, ◌≡◌, refl, ap, ◌∙◌, Bool, true, false, ◌&&◌, Option, none, some, List, [], ◌∷◌, ◌++◌,
  arith, ltb, ◌==◌, if◌then◌else◌, length,
}
use model_lib.Outcome.{ok}
use model_lib.Nemu.Pattern.{codes}
use model_lib.Nemu.Pattern.Fits.{width, fits}
use model_lib.Nemu.Pattern.Total.{all_legal}
use model_lib.Nemu.Pattern.Fields.{is_literal, value, fits-wild, fits-literal}
use model_lib.Nemu.Pattern.Block.{select_line, select_line-cons, fits-upper}
use model_lib.Nemu.X86.Inst.{
  Line, two_byte_esc, data_size, plain, gp1, mov_g2e_b, mov_g2e, mov_e2g_b, mov_e2g, mov_o2a_b,
  mov_o2a, mov_a2o_b, mov_a2o, mov_i2r_b, mov_i2r, mov_i2e_b, mov_i2e, nemu_trap, inv, pattern_of,
  inst_pats,
}

-- The line of an opcode.
abbrev pub line_of : ℕ → Line
line_of i =
    let b = i % 256 in
    if b == 0x0f
    then two_byte_esc
    else if b == 0x66
    then data_size
    else if b == 0x80
    then plain gp1
    else if b == 0x88
    then plain mov_g2e_b
    else if b == 0x89
    then plain mov_g2e
    else if b == 0x8a
    then plain mov_e2g_b
    else if b == 0x8b
    then plain mov_e2g
    else if b == 0xa0
    then plain mov_o2a_b
    else if b == 0xa1
    then plain mov_o2a
    else if b == 0xa2
    then plain mov_a2o_b
    else if b == 0xa3
    then plain mov_a2o
    else if b / 8 == 0x16
    then plain mov_i2r_b
    else if b / 8 == 0x17
    then plain mov_i2r
    else if b == 0xc6
    then plain mov_i2e_b
    else if b == 0xc7
    then plain mov_i2e
    else if b == 0xcc
    then plain nemu_trap
    else plain inv

-- The opcodes that a pattern allows.
abbrev fits_line : Line → ℕ → Bool
fits_line two_byte_esc b = b == 0x0f
fits_line data_size b = b == 0x66
fits_line (plain gp1) b = b == 0x80
fits_line (plain mov_g2e_b) b = b == 0x88
fits_line (plain mov_g2e) b = b == 0x89
fits_line (plain mov_e2g_b) b = b == 0x8a
fits_line (plain mov_e2g) b = b == 0x8b
fits_line (plain mov_o2a_b) b = b == 0xa0
fits_line (plain mov_o2a) b = b == 0xa1
fits_line (plain mov_a2o_b) b = b == 0xa2
fits_line (plain mov_a2o) b = b == 0xa3
fits_line (plain mov_i2e_b) b = b == 0xc6
fits_line (plain mov_i2e) b = b == 0xc7
fits_line (plain nemu_trap) b = b == 0xcc
fits_line (plain mov_i2r_b) b = b / 8 == 0x16
fits_line (plain mov_i2r) b = b / 8 == 0x17
fits_line (plain inv) b = true

literal_line :
    (cs : List ℕ) (i v : ℕ)
    → is_literal cs ≡ true
    → width cs ≡ 8
    → value cs ≡ v
    → fits cs i ≡ (i % 256 == v)
literal_line cs i v lit w e = fits-literal cs i lit ∙ rw (w, e) refl

upper_line :
    (upper : List ℕ) (i v : ℕ)
    → is_literal upper ≡ true
    → width upper ≡ 5
    → value upper ≡ v
    → fits (upper ++ codes "???") i ≡ (i % 256 / 8 == v)
upper_line upper i v lit w e =
    let fields : i / 8 % 32 ≡ i % 256 / 8 = omega arith in
    fits-upper upper (codes "???") i lit refl ∙ rw (w, e, fields) refl

fits-fits_line : (p : Line) (i : ℕ) → fits (codes (pattern_of p)) i ≡ fits_line p (i % 256)
fits-fits_line two_byte_esc i = literal_line (codes "0000 1111") i 0x0f refl refl refl
fits-fits_line data_size i = literal_line (codes "0110 0110") i 0x66 refl refl refl
fits-fits_line (plain gp1) i = literal_line (codes (pattern_of (plain gp1))) i 0x80 refl refl refl
fits-fits_line (plain mov_g2e_b) i =
    literal_line (codes (pattern_of (plain mov_g2e_b))) i 0x88 refl refl refl
fits-fits_line (plain mov_g2e) i =
    literal_line (codes (pattern_of (plain mov_g2e))) i 0x89 refl refl refl
fits-fits_line (plain mov_e2g_b) i =
    literal_line (codes (pattern_of (plain mov_e2g_b))) i 0x8a refl refl refl
fits-fits_line (plain mov_e2g) i =
    literal_line (codes (pattern_of (plain mov_e2g))) i 0x8b refl refl refl
fits-fits_line (plain mov_o2a_b) i =
    literal_line (codes (pattern_of (plain mov_o2a_b))) i 0xa0 refl refl refl
fits-fits_line (plain mov_o2a) i =
    literal_line (codes (pattern_of (plain mov_o2a))) i 0xa1 refl refl refl
fits-fits_line (plain mov_a2o_b) i =
    literal_line (codes (pattern_of (plain mov_a2o_b))) i 0xa2 refl refl refl
fits-fits_line (plain mov_a2o) i =
    literal_line (codes (pattern_of (plain mov_a2o))) i 0xa3 refl refl refl
fits-fits_line (plain mov_i2e_b) i =
    literal_line (codes (pattern_of (plain mov_i2e_b))) i 0xc6 refl refl refl
fits-fits_line (plain mov_i2e) i =
    literal_line (codes (pattern_of (plain mov_i2e))) i 0xc7 refl refl refl
fits-fits_line (plain nemu_trap) i =
    literal_line (codes (pattern_of (plain nemu_trap))) i 0xcc refl refl refl
fits-fits_line (plain mov_i2r_b) i = upper_line (codes "1011 0") i 0x16 refl refl refl
fits-fits_line (plain mov_i2r) i = upper_line (codes "1011 1") i 0x17 refl refl refl
fits-fits_line (plain inv) i = fits-wild (codes (pattern_of (plain inv))) i refl

legal_line :
    (p : Line) → (all_legal (codes (pattern_of p)) && ltb (length (codes (pattern_of p))) 64) ≡ true
legal_line two_byte_esc = refl
legal_line data_size = refl
legal_line (plain gp1) = refl
legal_line (plain mov_g2e_b) = refl
legal_line (plain mov_g2e) = refl
legal_line (plain mov_e2g_b) = refl
legal_line (plain mov_e2g) = refl
legal_line (plain mov_o2a_b) = refl
legal_line (plain mov_o2a) = refl
legal_line (plain mov_a2o_b) = refl
legal_line (plain mov_a2o) = refl
legal_line (plain mov_i2e_b) = refl
legal_line (plain mov_i2e) = refl
legal_line (plain nemu_trap) = refl
legal_line (plain mov_i2r_b) = refl
legal_line (plain mov_i2r) = refl
legal_line (plain inv) = refl

abbrev pick : List Line → ℕ → Option Line
pick [] b = none
pick (p ∷ ps) b = if fits_line p b then some p else pick ps b

select_line-pick : (ps : List Line) (i : ℕ) → select_line pattern_of ps i ≡ ok (pick ps (i % 256))
unfolding select_line
select_line-pick [] i = refl
select_line-pick (p ∷ ps) i =
    select_line-cons pattern_of p ps i (legal_line p)
    ∙ rw (fits-fits_line p i, select_line-pick ps i) (ground arith)

if_line : (b : Bool) (p q : Line) → (if b then some p else some q) ≡ some (if b then p else q)
if_line true p q = refl
if_line false p q = refl

-- For every opcode the block takes exactly one line, and which one depends on the lower byte.
pub x86_select_lem : (i : ℕ) → select_line pattern_of inst_pats i ≡ ok (some (line_of i))
x86_select_lem i = select_line-pick inst_pats i ∙ ap ok (simp if_line)
