-- ===== src/Klib/Stdio/Scan.antt =====
-- abstract-machine/klib/src/stdio.c, the input half: __am_vsscanf_internal. A string is the list of
-- its characters; the arguments are the values that are stored through them, in their order.
use model_lib.Base.{
  ℕ, zero, suc, ◌+◌, ◌-◌, ◌^◌, ◌≤◌, ◌<◌, ◌≡◌, refl, ap, ◌∙◌, inl, inr, Bool, true, false, Option,
  none, some, List, [], ◌∷◌, ◌++◌, arith, ◌==◌, if◌then◌else◌, Bool-cases, length,
}
use model_lib.Base.Words.{u32}
use model_lib.Outcome.{Outcome, ok, panic, undefined, ◌>>=◌, >>=-cong}
use model_lib.Klib.Ctype.{isspace}
use model_lib.Klib.Stdlib.{signed_bits, strto, strtol, skip_space}
use model_lib.Klib.Stdlib.Numbers.{strto-digits, first-digit}
use model_lib.Klib.Stdio.Text.{backwards}
use model_lib.Klib.Stdio.{reversed_digits}

-- What is left of the text, the count (the word of an int) and the stored values. `none` stands for
-- a pointer behind the NUL, which only `%c` makes.
pub record Scanned : Type 0 where
  pub pstr : Option (List ℕ)
  pub item : ℕ
  pub stored : List ℕ

abbrev pub count_item : Scanned → Scanned
count_item s = record s { item = u32 (s.item + 1) }

-- A conversion: whether the loop goes on, and its effect.
unfoldable pub scan_conversion : ℕ → Scanned → Outcome (Bool × Scanned)
scan_conversion ch s =
    if ch == 100
    then elim s.pstr [
      | none ↦ undefined
      | some str ↦ strtol str 10 >>= λ r.
          let s1 = record s { stored = s.stored ++ r.0 ∷ [] } in
          ok (
            if length r.1 == length str
            then (false, s1)
            else (true, count_item (record s1 { pstr = some r.1 })))
    ]
    else if ch == 99
    then elim s.pstr [
      | none ↦ undefined
      | some [] ↦ ok (true, count_item (record s { pstr = none; stored = s.stored ++ 0 ∷ [] }))
      | some (c ∷ cs) ↦
          ok (true, count_item (record s { pstr = some cs; stored = s.stored ++ c ∷ [] }))
    ]
    else panic

-- A space of the format, and another character of it.
unfoldable pub scan_space : Scanned → Outcome Scanned
scan_space s = elim s.pstr [
  | none ↦ undefined
  | some str ↦ ok (count_item (record s { pstr = some (skip_space str) }))
]

unfoldable pub scan_literal : ℕ → Scanned → Outcome (Bool × Scanned)
scan_literal ch s = elim s.pstr [
  | none ↦ undefined
  | some [] ↦ ok (false, s)
  | some (c ∷ cs) ↦
      ok (if c == ch then (true, count_item (record s { pstr = some cs })) else (false, s))
]

-- The loop, with fuel; the first argument is the answer without it. A `%` at the end meets the NUL, which is no conversion.
unfoldable pub scan_from : Outcome Scanned → ℕ → List ℕ → Scanned → Outcome Scanned
scan_from exhausted fuel [] s = ok s
scan_from exhausted zero (ch ∷ fmt) s = exhausted
scan_from exhausted (suc fuel) (ch ∷ fmt) s =
    if isspace ch
    then scan_space s >>= scan_from exhausted fuel (skip_space fmt)
    else (if ch == 37
        then elim fmt [
          | [] ↦ panic
          | conv ∷ fmt1 ↦ scan_conversion conv s >>= λ r.
              (if r.0 then scan_from exhausted fuel fmt1 r.1 else ok r.1)
        ]
        else (scan_literal ch s >>= λ r.
            (if r.0 then scan_from exhausted fuel fmt r.1 else ok r.1)))

-- vsscanf and sscanf: the result, and the stored values.
unfoldable pub vsscanf : List ℕ → List ℕ → Outcome (ℕ × List ℕ)
vsscanf str fmt = do
  s ←
      scan_from undefined (length fmt) fmt
        (record { pstr = some str; item = 2 ^ 32 - 1; stored = [] })
  ok (s.item, s.stored)

zero_or_more : (n : ℕ) → (0 == suc n) ≡ false
zero_or_more n = ground arith

-- The decimal digits of a number below 2 ^ 31 are read back by "%d"; the result is 0 and not 1, since the count
-- starts at -1.
pub vsscanf-reversed_digits :
    (value : ℕ) (upper : Bool)
    → value < 2 ^ 31
    → vsscanf (backwards (reversed_digits 32 value 10 upper)) (37 ∷ 100 ∷ []) ≡ ok (0, value ∷ [])
unfolding vsscanf scan_from scan_conversion isspace
vsscanf-reversed_digits value upper small =
    let text = backwards (reversed_digits 32 value 10 upper) in
    let read : strto (signed_bits 32) text 10 ≡ ok (value, []) =
      strto-digits (signed_bits 32) value upper (omega arith) small in
    let some_text : (0 == length text) ≡ false =
      ap (λ (t : List ℕ). 0 == length t) (first-digit 31 value upper).2
      ∙ zero_or_more (length (first-digit 31 value upper).1) in
    rw (read, some_text) refl

length-skip_space : (s : List ℕ) → length (skip_space s) ≤ length s
unfolding skip_space
length-skip_space [] = omega arith
length-skip_space (c ∷ cs) = elim (Bool-cases (isspace c)) [
  | inl e ↦ rw e (omega (arith, length-skip_space cs))
  | inr e ↦ rw e (omega arith)
]

if_if :
    (a b : Bool) {x x' y y' z z' : Outcome Scanned}
    → x ≡ x'
    → y ≡ y'
    → z ≡ z'
    → (if a then x else (if b then y else z)) ≡ (if a then x' else (if b then y' else z'))
if_if true b p q r = p
if_if false true p q r = q
if_if false false p q r = r

go_on :
    (first : Outcome (Bool × Scanned)) (next next' : Scanned → Outcome Scanned)
    → ((u : Scanned) → next u ≡ next' u)
    → (first >>= λ r. (if r.0 then next r.1 else ok r.1))
      ≡ (first >>= λ r. (if r.0 then next' r.1 else ok r.1))
go_on first next next' h =
    >>=-cong first (λ r. if r.0 then next r.1 else ok r.1) (λ r. if r.0 then next' r.1 else ok r.1)
      (λ r. ap (λ (u : Outcome Scanned). if r.0 then u else ok r.1) (h r.1))

scan_from-any :
    (x y : Outcome Scanned) (fuel more : ℕ) (fmt : List ℕ) (s : Scanned)
    → length fmt ≤ fuel
    → length fmt ≤ more
    → scan_from x fuel fmt s ≡ scan_from y more fmt s
unfolding scan_from
scan_from-any x y fuel more [] s h k = refl
scan_from-any x y zero more (ch ∷ fmt) s h k = absurd (omega arith)
scan_from-any x y (suc fuel) zero (ch ∷ fmt) s h k = absurd (omega arith)
scan_from-any x y (suc fuel) (suc more) (ch ∷ []) s h k =
    if_if (isspace ch) (ch == 37)
      (>>=-cong (scan_space s) (scan_from x fuel (skip_space ([])))
        (scan_from y more (skip_space ([])))
        (λ u.
          scan_from-any x y fuel more (skip_space ([])) u (omega (arith, length-skip_space ([])))
            (omega (arith, length-skip_space ([])))))
      refl
      (go_on (scan_literal ch s) (scan_from x fuel ([])) (scan_from y more ([]))
        (λ u. scan_from-any x y fuel more ([]) u (omega arith) (omega arith)))
scan_from-any x y (suc fuel) (suc more) (ch ∷ d ∷ fmt) s h k =
    if_if (isspace ch) (ch == 37)
      (>>=-cong (scan_space s) (scan_from x fuel (skip_space (d ∷ fmt)))
        (scan_from y more (skip_space (d ∷ fmt)))
        (λ u.
          scan_from-any x y fuel more (skip_space (d ∷ fmt)) u
            (omega (arith, length-skip_space (d ∷ fmt)))
            (omega (arith, length-skip_space (d ∷ fmt)))))
      (go_on (scan_conversion d s) (scan_from x fuel fmt) (scan_from y more fmt)
        (λ u. scan_from-any x y fuel more fmt u (omega arith) (omega arith)))
      (go_on (scan_literal ch s) (scan_from x fuel (d ∷ fmt)) (scan_from y more (d ∷ fmt))
        (λ u. scan_from-any x y fuel more (d ∷ fmt) u (omega arith) (omega arith)))

-- The length of the format is enough fuel: from there on the loop never runs out of it, and comes to
-- the same end whatever the fuel and whatever it would answer without.
pub scan_from-enough :
    (x y : Outcome Scanned) (fuel : ℕ) (fmt : List ℕ) (s : Scanned)
    → length fmt ≤ fuel
    → scan_from x fuel fmt s ≡ scan_from y (length fmt) fmt s
scan_from-enough x y fuel fmt s h = scan_from-any x y fuel (length fmt) fmt s h (omega arith)
