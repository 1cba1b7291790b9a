-- ===== src/Nemu/Pattern/Fields.antt =====
-- A pattern string read by fields: a run of `0` and `1` fixes a field of the word to a number,
-- a run of `?` fixes nothing.
use native.Mathlib.Nat.{one-le-pow, pow-suc, mod-lt, div-div-eq-div-mul}
use model_lib.Base.{
  ℕ, zero, suc, ◌+◌, ◌*◌, ◌/◌, ◌%◌, ◌^◌, ◌<◌, ◌≡◌, refl, ap, ◌∙◌, Bool, true, ◌&&◌, ◌||◌, List, [],
  ◌∷◌, ◌++◌, arith, ◌==◌, if◌then◌else◌,
}
use model_lib.Base.Bits.{pow_add}
use model_lib.Nemu.Pattern.Fits.{width, fits}

abbrev pub is_literal : List ℕ → Bool
is_literal [] = true
is_literal (c ∷ cs) = (c == b' ' || c == b'0' || c == b'1') && is_literal cs

abbrev pub is_wild : List ℕ → Bool
is_wild [] = true
is_wild (c ∷ cs) = (c == b' ' || c == b'?') && is_wild cs

-- The number that a run of `0` and `1` spells.
abbrev pub value : List ℕ → ℕ
value [] = 0
value (c ∷ cs) =
    if c == b' ' then value cs else if c == b'1' then 2 ^ width cs + value cs else value cs

value-lt : (cs : List ℕ) → value cs < 2 ^ width cs
value-lt [] = omega arith
value-lt (c ∷ cs) = ground (arith, value-lt cs, pow-suc 2 (width cs))

pub fits-wild : (cs : List ℕ) (i : ℕ) → is_wild cs ≡ true → fits cs i ≡ true
unfolding fits
fits-wild [] i h = refl
fits-wild (c ∷ cs) i h = ground (arith, fits-wild cs i)

-- The remainder by twice a number shows one more digit.
mod_digit : (i w : ℕ) → 0 < w → i % (w * 2) ≡ i / w % 2 * w + i % w
mod_digit i w h =
    omega (arith, ap (λ (t : ℕ). t * w) digit, ap (λ (t : ℕ). t * w) (div-div-eq-div-mul i w 2))
  where
    digit : i / w ≡ 2 * (i / w / 2) + i / w % 2
    digit = omega arith

two_digits :
    (d b w r v : ℕ)
    → d < 2
    → r < w
    → v < w
    → (d * w + r == (if b == b'1' then w + v else v))
      ≡ ((if b == b'1' then d == 1 else d == 0) && (r == v))
two_digits zero b w r v hd hr hv = ground arith
two_digits (suc zero) b w r v hd hr hv = ground arith
two_digits (suc (suc d)) b w r v hd hr hv = absurd (omega arith)

pub fits-literal :
    (cs : List ℕ) (i : ℕ) → is_literal cs ≡ true → fits cs i ≡ (i % 2 ^ width cs == value cs)
unfolding fits
fits-literal [] i h = ground arith
fits-literal (c ∷ cs) i h = ground (
  arith,
  fits-literal cs i,
  value-lt cs,
  one-le-pow (width cs) 2,
  mod-lt i {m = 2 ^ width cs},
  mod_digit i (2 ^ width cs),
  ap (λ (t : ℕ). i % t) (pow-suc 2 (width cs)),
  two_digits (i / 2 ^ width cs % 2) c (2 ^ width cs) (i % 2 ^ width cs) (value cs),
)

width-append : (cs ds : List ℕ) → width (cs ++ ds) ≡ width cs + width ds
width-append [] ds = omega arith
width-append (c ∷ cs) ds = ground (arith, width-append cs ds)

pub fits-append :
    (cs ds : List ℕ) (i : ℕ) → fits (cs ++ ds) i ≡ (fits cs (i / 2 ^ width ds) && fits ds i)
unfolding fits
fits-append [] ds i = refl
fits-append (c ∷ cs) ds i = ground (
  arith,
  fits-append cs ds i,
  ap (λ (t : ℕ). i / t)
      (ap (λ (t : ℕ). 2 ^ t) (width-append cs ds ∙ swap) ∙ pow_add (width ds) (width cs)),
  div-div-eq-div-mul i (2 ^ width ds) (2 ^ width cs),
)
  where
    swap : width cs + width ds ≡ width ds + width cs
    swap = omega arith
