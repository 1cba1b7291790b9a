-- ===== src/Klib/Stdio/Format.antt =====
-- abstract-machine/klib/src/stdio.c: the conversions and the loop of `format`.
use model_lib.Base.{
  ℕ, zero, suc, ◌+◌, ◌-◌, ◌^◌, Bool, true, false, not, ◌&&◌, ◌||◌, List, [], ◌∷◌, ltb, leb, ◌==◌,
  ◌!=◌, if◌then◌else◌, length,
}
use model_lib.Base.Words.{u8, u32, u64}
use model_lib.Outcome.{Outcome, ok, undefined, ◌>>=◌}
use model_lib.Base.Memory.{Bytes, update}
use model_lib.Klib.Stdio.{
  Output, emit, emit_repeat, emit_string, emit_unsigned, Arg, arg_word, arg_long_long, arg_string,
  Conversion, parse_conversion,
}

-- The number for an unsigned and for a signed conversion: int64_t and uint64_t as patterns.
abbrev pub arg_unsigned : ℕ → List Arg → Outcome (ℕ × List Arg)
arg_unsigned length va = if length == 2 then arg_long_long va else arg_word va

abbrev pub widen : ℕ → ℕ
widen v = if ltb v (2 ^ 31) then v else v + (2 ^ 64 - 2 ^ 32)

abbrev pub arg_signed : ℕ → List Arg → Outcome (ℕ × List Arg)
arg_signed length va =
    if length == 2 then arg_long_long va else (do (v, rest) ← arg_word va; ok (widen v, rest))

abbrev pub is_negative : ℕ → Bool
is_negative value = leb (2 ^ 63) value

-- (uint64_t)(-(value + 1)) + 1
abbrev pub magnitude : ℕ → ℕ
magnitude value = if is_negative value then u64 (u64 (2 ^ 64 - u64 (value + 1)) + 1) else value

-- The branches of `format`, for a conversion whose letter is s, c, d or i, u or x or X, and p.
unfoldable pub convert_string : Conversion → List Arg → Output → Outcome (List Arg × Output)
convert_string conv va out = do
  (str, va1) ← arg_string va
  let len = length str
  let pad = if ltb len conv.width then conv.width - len else 0
  let out1 = if not conv.left_align then emit_repeat 32 pad out else out
  let out2 = emit_string str out1
  ok (va1, if conv.left_align then emit_repeat 32 pad out2 else out2)

unfoldable pub convert_char : Conversion → List Arg → Output → Outcome (List Arg × Output)
convert_char conv va out = do (v, va1) ← arg_word va; ok (va1, emit (u8 v) out)

unfoldable pub convert_signed : Conversion → List Arg → Output → Outcome (List Arg × Output)
convert_signed conv va out = do
  (value, va1) ← arg_signed conv.length va
  let sign = if is_negative value then 45 ∷ [] else []
  ok (
    va1,
    emit_unsigned (magnitude value) 10 false conv.width conv.padding conv.left_align sign out,
  )

unfoldable pub convert_unsigned : Conversion → List Arg → Output → Outcome (List Arg × Output)
convert_unsigned conv va out = do
  (value, va1) ← arg_unsigned conv.length va
  let base = if conv.spec == 117 then 10 else 16
  ok (
    va1,
    emit_unsigned value base (conv.spec == 88) conv.width conv.padding conv.left_align [] out,
  )

unfoldable pub convert_pointer : Conversion → List Arg → Output → Outcome (List Arg × Output)
convert_pointer conv va out = do
  (value, va1) ← arg_word va
  let pointer_width = if conv.width == 0 then 10 else conv.width
  ok (va1, emit_unsigned value 16 false pointer_width 48 false (48 ∷ 120 ∷ []) out)

-- A NUL is the end of the format, where the loop ends too.
unfoldable pub convert : Conversion → List Arg → Output → Outcome (List Arg × Output)
convert conv va out =
    if conv.spec == 115
    then convert_string conv va out
    else (if conv.spec == 99
        then convert_char conv va out
        else (if (conv.spec == 100) || (conv.spec == 105)
            then convert_signed conv va out
            else (if (conv.spec == 117) || (conv.spec == 120) || (conv.spec == 88)
                then convert_unsigned conv va out
                else (if conv.spec == 112
                    then convert_pointer conv va out
                    else (if conv.spec == 0
                        then ok (va, out)
                        else ok (va, emit conv.spec (emit 37 out)))))))

-- The loop, on fuel: each turn consumes a character of the format. The first argument is the answer
-- without fuel.
unfoldable pub format_from : Outcome Output → ℕ → List ℕ → List Arg → Output → Outcome Output
format_from exhausted zero fmt va out = exhausted
format_from exhausted (suc fuel) [] va out = ok out
format_from exhausted (suc fuel) (c ∷ []) va out =
    let rest = format_from exhausted fuel [] va in if c != 37 then rest (emit c out) else rest out
format_from exhausted (suc fuel) (c ∷ d ∷ cs) va out =
    let rest = format_from exhausted fuel in
    if c != 37
    then rest (d ∷ cs) va (emit c out)
    else (if d == 37 then rest cs va (emit d out) else (do
      (conv, fmt) ← parse_conversion (d ∷ cs)
      (va1, out1) ← convert conv va out
      rest fmt va1 out1))

-- The terminating NUL, then the result as an int.
unfoldable pub terminate : Output → ℕ × Output
terminate out =
    let end = if ltb out.count out.size then out.count else out.size - 1 in
    (
      out.count,
      if not out.console && (out.size != 0)
          then record out { mem = update out.mem (u32 (out.buffer + end)) 0 }
          else out,
    )

unfoldable pub format : List ℕ → List Arg → Output → Outcome (ℕ × Output)
format fmt va out = do
  out1 ← format_from undefined (suc (length fmt)) fmt va out
  ok (terminate out1)

-- vprintf, which printf hands its arguments to, from a memory and the characters printed before.
unfoldable pub vprintf : Bytes → List ℕ → List ℕ → List Arg → Outcome (ℕ × Output)
vprintf m printed fmt va =
    format fmt va
      (record { buffer = 0; size = 0; count = 0; console = true; mem = m; printed = printed })

unfoldable pub vsnprintf : Bytes → List ℕ → ℕ → ℕ → List ℕ → List Arg → Outcome (ℕ × Output)
vsnprintf m printed buf n fmt va =
    format fmt va
      (record { buffer = buf; size = n; count = 0; console = false; mem = m; printed = printed })

-- vsprintf passes (size_t)-1.
unfoldable pub vsprintf : Bytes → List ℕ → ℕ → List ℕ → List Arg → Outcome (ℕ × Output)
vsprintf m printed buf fmt va = vsnprintf m printed buf (2 ^ 32 - 1) fmt va
