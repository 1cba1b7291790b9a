-- ===== src/Klib/Stdio/Text.antt =====
-- The text that a format and its arguments stand for, and that the output functions emit it.
use model_lib.Base.{
  ℕ, zero, suc, ◌+◌, ◌-◌, ◌≡◌, refl, sym, ap, ◌∙◌, inl, inr, Bool, true, false, not, ◌&&◌, ◌||◌,
  List, [], ◌∷◌, ◌++◌, ltb, ◌==◌, ◌!=◌, if◌then◌else◌, Bool-cases, length, replicate,
}
use model_lib.Base.Words.{u8}
use model_lib.Outcome.{Outcome, ok, panic, undefined, ◌>>=◌, >>=-assoc, >>=-cong}
use model_lib.Klib.Stdio.{
  Output, emit, emit_repeat, emit_string, emit_reversed, reversed_digits, emit_unsigned, Arg,
  arg_word, arg_string, Conversion, parse_conversion,
}
use model_lib.Klib.Stdio.Format.{
  arg_unsigned, arg_signed, is_negative, magnitude, convert_string, convert_char, convert_signed,
  convert_unsigned, convert_pointer, convert, format_from,
}

abbrev pub backwards : List ℕ → List ℕ
backwards [] = []
backwards (d ∷ ds) = backwards ds ++ (d ∷ [])

-- A number with its prefix, filled to the width.
abbrev pub number_text : ℕ → ℕ → Bool → ℕ → ℕ → Bool → List ℕ → List ℕ
number_text value base upper width padding left_align prefix =
    let digits = backwards (reversed_digits 32 value base upper) in
    let used = length (reversed_digits 32 value base upper) + length prefix in
    let pad = if ltb used width then width - used else 0 in
    let spaces = if not left_align && (padding == 32) then replicate pad 32 else [] in
    let zeros = if not left_align && (padding == 48) then replicate pad 48 else [] in
    let behind = if left_align then replicate pad 32 else [] in
    spaces ++ (prefix ++ (zeros ++ (digits ++ behind)))

-- A string, filled to the width.
abbrev pub string_text : List ℕ → ℕ → Bool → List ℕ
string_text str width left_align =
    let pad = if ltb (length str) width then width - length str else 0 in
    (if not left_align then replicate pad 32 else [])
    ++ (str ++ (if left_align then replicate pad 32 else []))

abbrev pub conversion_text : Conversion → List Arg → Outcome (List Arg × List ℕ)
conversion_text conv va =
    if conv.spec == 115
    then (do (str, va1) ← arg_string va; ok (va1, string_text str conv.width conv.left_align))
    else (if conv.spec == 99
        then (do (v, va1) ← arg_word va; ok (va1, u8 v ∷ []))
        else (if (conv.spec == 100) || (conv.spec == 105)
            then (do
              (v, va1) ← arg_signed conv.length va
              ok (
                va1,
                number_text (magnitude v) 10 false conv.width conv.padding conv.left_align
                    (if is_negative v then 45 ∷ [] else []),
              ))
            else (if (conv.spec == 117) || (conv.spec == 120) || (conv.spec == 88)
                then (do
                  (v, va1) ← arg_unsigned conv.length va
                  ok (
                    va1,
                    number_text v (if conv.spec == 117 then 10 else 16) (conv.spec == 88) conv.width
                        conv.padding conv.left_align [],
                  ))
                else (if conv.spec == 112
                    then (do
                      (v, va1) ← arg_word va
                      ok (
                        va1,
                        number_text v 16 false (if conv.width == 0 then 10 else conv.width) 48 false
                            (48 ∷ 120 ∷ []),
                      ))
                    else (if conv.spec == 0 then ok (va, []) else ok (va, 37 ∷ conv.spec ∷ []))))))

abbrev pub format_text : ℕ → List ℕ → List Arg → Outcome (List ℕ)
format_text zero fmt va = undefined
format_text (suc fuel) [] va = ok []
format_text (suc fuel) (c ∷ []) va = do
  t ← format_text fuel [] va
  ok (if c != 37 then c ∷ t else t)
format_text (suc fuel) (c ∷ d ∷ cs) va =
    let rest = format_text fuel in
    if c != 37
    then (do t ← rest (d ∷ cs) va; ok (c ∷ t))
    else (if d == 37 then (do t ← rest cs va; ok (d ∷ t)) else (do
      (conv, fmt) ← parse_conversion (d ∷ cs)
      (va1, t) ← conversion_text conv va
      t2 ← rest fmt va1
      ok (t ++ t2)))

emit_string-append :
    (xs ys : List ℕ) (out : Output)
    → emit_string (xs ++ ys) out ≡ emit_string ys (emit_string xs out)
unfolding emit_string
emit_string-append [] ys out = refl
emit_string-append (x ∷ xs) ys out = emit_string-append xs ys (emit x out)

emit_repeat-emit_string :
    (ch n : ℕ) (out : Output) → emit_repeat ch n out ≡ emit_string (replicate n ch) out
unfolding emit_repeat emit_string
emit_repeat-emit_string ch zero out = refl
emit_repeat-emit_string ch (suc n) out = emit_repeat-emit_string ch n (emit ch out)

emit_reversed-emit_string :
    (ds : List ℕ) (out : Output) → emit_reversed ds out ≡ emit_string (backwards ds) out
unfolding emit_reversed emit_string
emit_reversed-emit_string [] out = refl
emit_reversed-emit_string (d ∷ ds) out =
    ap (emit d) (emit_reversed-emit_string ds out)
    ∙ sym (emit_string-append (backwards ds) (d ∷ []) out)

-- A filler under a condition.
emit-if :
    (b : Bool) (ch n : ℕ) (out : Output)
    → (if b then emit_repeat ch n out else out) ≡ emit_string (if b then replicate n ch else []) out
unfolding emit_string
emit-if true ch n out = emit_repeat-emit_string ch n out
emit-if false ch n out = refl

-- Five parts one after the other, as emit_unsigned writes them.
emit-parts :
    (b1 b2 b3 : Bool) (n : ℕ) (prefix ds : List ℕ) (out : Output)
    → (let out1 = if b1 then emit_repeat 32 n out else out in
        let out2 = emit_string prefix out1 in
        let out3 = if b2 then emit_repeat 48 n out2 else out2 in
        let out4 = emit_reversed ds out3 in if b3 then emit_repeat 32 n out4 else out4)
      ≡ emit_string
          ((if b1 then replicate n 32 else [])
            ++ (prefix
                ++ ((if b2 then replicate n 48 else [])
                    ++ (backwards ds ++ (if b3 then replicate n 32 else [])))))
          out
emit-parts b1 b2 b3 n prefix ds out =
    simp (emit_string-append, emit-if, emit_reversed-emit_string) refl

emit_unsigned-emit_string :
    (value base : ℕ) (upper : Bool) (width padding : ℕ) (left : Bool) (prefix : List ℕ)
    (out : Output)
    → emit_unsigned value base upper width padding left prefix out
      ≡ emit_string (number_text value base upper width padding left prefix) out
unfolding emit_unsigned
emit_unsigned-emit_string value base upper width padding left prefix out =
    emit-parts (not left && (padding == 32)) (not left && (padding == 48)) left
      (if ltb (length (reversed_digits 32 value base upper) + length prefix) width
        then width - (length (reversed_digits 32 value base upper) + length prefix)
        else 0)
      prefix (reversed_digits 32 value base upper) out

-- A text's outcome, emitted.
abbrev emitted : Output → Outcome (List Arg × List ℕ) → Outcome (List Arg × Output)
emitted out m = m >>= λ r. ok (r.0, emit_string r.1 out)

emitted-if :
    (out : Output) (b : Bool) (x y : Outcome (List Arg × Output))
    (s t : Outcome (List Arg × List ℕ))
    → x ≡ emitted out s
    → y ≡ emitted out t
    → (if b then x else y) ≡ emitted out (if b then s else t)
emitted-if out true x y s t h k = h
emitted-if out false x y s t h k = k

-- An argument taken, and a text made of it.
emitted-arg :
    {A : Type 0} (out : Output) (m : Outcome (A × List Arg)) (t : A → List ℕ) (f : A → Output)
    → ((a : A) → f a ≡ emit_string (t a) out)
    → (m >>= λ r. ok (r.1, f r.0)) ≡ emitted out (m >>= λ r. ok (r.1, t r.0))
emitted-arg out (ok (a, va1)) t f h = ap (λ (o : Output). ok (va1, o)) (h a)
emitted-arg out panic t f h = refl
emitted-arg out undefined t f h = refl

convert_string-emitted :
    (str : List ℕ) (width : ℕ) (left : Bool) (out : Output)
    → (let pad = if ltb (length str) width then width - length str else 0 in
        let out1 = if not left then emit_repeat 32 pad out else out in
        let out2 = emit_string str out1 in if left then emit_repeat 32 pad out2 else out2)
      ≡ emit_string (string_text str width left) out
convert_string-emitted str width left out = simp (emit_string-append, emit-if) refl

convert-emitted :
    (conv : Conversion) (va : List Arg) (out : Output)
    → convert conv va out ≡ emitted out (conversion_text conv va)
unfolding convert convert_string convert_char convert_signed convert_unsigned convert_pointer
    emit_string
convert-emitted conv va out =
    let number =
      λ (value base : ℕ) (upper : Bool) (width padding : ℕ) (left : Bool) (prefix : List ℕ).
        emit_unsigned-emit_string value base upper width padding left prefix out in
    emitted-if out (conv.spec == 115) _ _ _ _
      (emitted-arg out (arg_string va) _ _
        (λ str. convert_string-emitted str conv.width conv.left_align out))
      (emitted-if out (conv.spec == 99) _ _ _ _ (emitted-arg out (arg_word va) _ _ (λ v. refl)) (
        emitted-if out ((conv.spec == 100) || (conv.spec == 105)) _ _ _ _
          (emitted-arg out (arg_signed conv.length va) _ _ (λ v. number _ _ _ _ _ _ _))
          (emitted-if out ((conv.spec == 117) || (conv.spec == 120) || (conv.spec == 88)) _ _ _ _
            (emitted-arg out (arg_unsigned conv.length va) _ _ (λ v. number _ _ _ _ _ _ _))
            (emitted-if out (conv.spec == 112) _ _ _ _
              (emitted-arg out (arg_word va) _ _ (λ v. number _ _ _ _ _ _ _))
              (emitted-if out (conv.spec == 0) _ _ _ _ refl refl)))))

-- A conversion, and then the rest of the format.
turn-emitted :
    (fuel : ℕ) (fmt : List ℕ) (va : List Arg) (out : Output)
    → ((fmt2 : List ℕ) (va2 : List Arg) (out2 : Output)
        → format_from undefined fuel fmt2 va2 out2
          ≡ (format_text fuel fmt2 va2 >>= λ t. ok (emit_string t out2)))
    → (parse_conversion fmt >>= λ p.
        convert p.0 va out >>= λ r. format_from undefined fuel p.1 r.0 r.1)
      ≡ ((parse_conversion fmt >>= λ p.
            conversion_text p.0 va >>= λ r. format_text fuel p.1 r.0 >>= λ t2. ok (r.1 ++ t2))
          >>= λ t. ok (emit_string t out))
turn-emitted fuel fmt va out rest =
    >>=-cong (parse_conversion fmt) _ _ (λ p.
      ap (λ (m : Outcome (List Arg × Output)). m >>= λ r. format_from undefined fuel p.1 r.0 r.1)
        (convert-emitted p.0 va out)
      ∙ >>=-assoc (conversion_text p.0 va) _ _
      ∙ >>=-cong (conversion_text p.0 va) _ _ (λ r.
        rest p.1 r.0 (emit_string r.1 out)
        ∙ >>=-cong (format_text fuel p.1 r.0) _ _
            (λ t2. ap ok (sym (emit_string-append r.1 t2 out)))
        ∙ sym (>>=-assoc (format_text fuel p.1 r.0) _ _))
      ∙ sym (>>=-assoc (conversion_text p.0 va) _ _))
    ∙ sym (>>=-assoc (parse_conversion fmt) _ _)

-- The loop emits the text.
pub format_from-format_text :
    (fuel : ℕ) (fmt : List ℕ) (va : List Arg) (out : Output)
    → format_from undefined fuel fmt va out
      ≡ (format_text fuel fmt va >>= λ t. ok (emit_string t out))
unfolding format_from emit_string
format_from-format_text zero fmt va out = refl
format_from-format_text (suc fuel) [] va out = refl
format_from-format_text (suc zero) (c ∷ []) va out = elim (Bool-cases (c != 37)) [
  | inl e ↦ rw e refl
  | inr e ↦ rw e refl
]
format_from-format_text (suc (suc fuel)) (c ∷ []) va out = elim (Bool-cases (c != 37)) [
  | inl e ↦ rw e refl
  | inr e ↦ rw e refl
]
format_from-format_text (suc fuel) (c ∷ d ∷ cs) va out = elim (Bool-cases (c != 37)) [
  | inl e ↦ rw e (
      format_from-format_text fuel (d ∷ cs) va (emit c out)
      ∙ sym (
          >>=-assoc (format_text fuel (d ∷ cs) va) (λ t. ok (c ∷ t)) (λ t. ok (emit_string t out))))
  | inr e ↦ elim (Bool-cases (d == 37)) [
    | inl k ↦
        rw (e, k)
          (format_from-format_text fuel cs va (emit d out)
            ∙ sym (
                >>=-assoc (format_text fuel cs va) (λ t. ok (d ∷ t)) (λ t. ok (emit_string t out))))
    | inr k ↦ rw (e, k) (turn-emitted fuel (d ∷ cs) va out (format_from-format_text fuel))
  ]
]
