-- ===== src/Klib/Stdio/Fuel.antt =====
-- The fuel that `format` gives its loop is enough.
use model_lib.Base.{
  ℕ, zero, suc, ◌+◌, ◌-◌, ◌*◌, ◌≤◌, ◌<◌, ◌≡◌, refl, ap₂, Bool, true, false, List, [], ◌∷◌, arith,
  ◌==◌, ◌!=◌, if◌then◌else◌, length,
}
use model_lib.Outcome.{Outcome, ok, ◌>>=◌, >>=-cong, >>=-cong_ok, >>=-eq-ok}
use model_lib.Klib.Stdio.{
  Output, emit, Arg, Conversion, parse_flags, parse_width, parse_length, parse_spec,
  parse_conversion,
}
use model_lib.Klib.Stdio.Format.{convert, format_from}

length-parse_flags :
    (left : Bool) (padding : ℕ) (fmt : List ℕ)
    → length (parse_flags left padding fmt).2 ≤ length fmt
length-parse_flags left padding [] = omega arith
length-parse_flags left padding (c ∷ cs) =
    ground (arith, length-parse_flags true padding cs, length-parse_flags left 48 cs)

length-parse_width :
    (w : ℕ) (fmt : List ℕ) (r : ℕ × List ℕ) → parse_width w fmt ≡ ok r → length r.1 ≤ length fmt
length-parse_width w [] r h = ground arith
length-parse_width w (c ∷ cs) r h = ground (arith, length-parse_width (w * 10 + (c - 48)) cs r)

length-parse_length : (fmt : List ℕ) → length (parse_length fmt).1 ≤ length fmt
length-parse_length [] = omega arith
length-parse_length (c ∷ []) = ground arith
length-parse_length (c ∷ d ∷ cs) = ground arith

length-parse_spec : (fmt : List ℕ) → length (parse_spec fmt).1 ≤ length fmt
length-parse_spec [] = omega arith
length-parse_spec (c ∷ cs) = omega arith

length-parse_conversion :
    (fmt : List ℕ) (r : Conversion × List ℕ) → parse_conversion fmt ≡ ok r → length r.1 ≤ length fmt
length-parse_conversion fmt r h =
    let ((w, fmt2), wide, done) = >>=-eq-ok (parse_width 0 (parse_flags false 32 fmt).2) _ h in
    ground (
      arith,
      length-parse_flags false 32 fmt,
      length-parse_width 0 (parse_flags false 32 fmt).2 (w, fmt2) wide,
      length-parse_length fmt2,
      length-parse_spec (parse_length fmt2).1,
    )

-- With more fuel than the format has characters, as `format` gives it, the loop never runs out of
-- it: it comes to the same end whatever the fuel and whatever it would answer without.
pub format_from-enough :
    (x y : Outcome Output) (f g : ℕ) (fmt : List ℕ) (va : List Arg) (out : Output)
    → length fmt < f
    → length fmt < g
    → format_from x f fmt va out ≡ format_from y g fmt va out
unfolding format_from
format_from-enough x y zero g fmt va out h k = absurd (omega arith)
format_from-enough x y (suc f) zero fmt va out h k = absurd (omega arith)
format_from-enough x y (suc f) (suc g) [] va out h k = refl
format_from-enough x y (suc f) (suc g) (c ∷ []) va out h k =
    ap₂ (λ (a b : Outcome Output). if c != 37 then a else b)
      (format_from-enough x y f g [] va (emit c out) (omega arith) (omega arith))
      (format_from-enough x y f g [] va out (omega arith) (omega arith))
format_from-enough x y (suc f) (suc g) (c ∷ d ∷ cs) va out h k =
    let turns : (parse_conversion (d ∷ cs) >>= λ p.
    convert p.0 va out >>= λ r. format_from x f p.1 r.0 r.1)
        ≡ (parse_conversion (d ∷ cs) >>= λ p.
            convert p.0 va out >>= λ r. format_from y g p.1 r.0 r.1) =
      >>=-cong_ok (parse_conversion (d ∷ cs)) _ _ (λ p e.
        let shorter = length-parse_conversion (d ∷ cs) p e in
        >>=-cong (convert p.0 va out) _ _
          (λ r. format_from-enough x y f g p.1 r.0 r.1 (omega arith) (omega arith))) in
    ap₂ (λ (a b : Outcome Output). if c != 37 then a else b)
      (format_from-enough x y f g (d ∷ cs) va (emit c out) (omega arith) (omega arith))
      (ap₂ (λ (a b : Outcome Output). if d == 37 then a else b)
        (format_from-enough x y f g cs va (emit d out) (omega arith) (omega arith)) turns)
