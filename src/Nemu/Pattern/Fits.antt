-- ===== src/Nemu/Pattern/Fits.antt =====
-- What a pattern string means: each character but a space stands for one bit, the last one for
-- bit 0; `0` and `1` ask for that bit, `?` for nothing.
use model_lib.Base.{ℕ, suc, ◌/◌, ◌%◌, ◌^◌, Bool, true, ◌&&◌, List, [], ◌∷◌, ◌==◌, if◌then◌else◌}

-- The number of bits that a string stands for.
abbrev pub width : List ℕ → ℕ
width [] = 0
width (c ∷ cs) = if c == b' ' then width cs else suc (width cs)

abbrev pub bit_fits : ℕ → ℕ → Bool
bit_fits c bit = if c == b'?' then true else if c == b'1' then bit == 1 else bit == 0

unfoldable pub fits : List ℕ → ℕ → Bool
fits [] inst = true
fits (c ∷ cs) inst =
    (if c == b' ' then true else bit_fits c (inst / 2 ^ width cs % 2)) && fits cs inst
