-- ===== src/Klib/Stdio.antt =====
-- abstract-machine/klib/src/stdio.c, the output half. The format and the string arguments are
-- lists of characters that the output does not overlap. An int, a long and a pointer are 32-bit
-- patterns. An argument of another kind than the conversion's, and a field width that an int does
-- not hold, are undefined.
pub mod Format
pub mod Text
pub mod Fuel
pub mod Printf
pub mod Scan
use model_lib.Base.{
  ℕ, zero, suc, ◌+◌, ◌-◌, ◌*◌, ◌/◌, ◌%◌, ◌^◌, ◌≤◌, ◌<◌, min, bit_and, bit_or, bit_xor, ◌≡◌, refl,
  sym, ap, ap₂, ◌∙◌, ◌≢◌, ◌↔◌, ◌⊎◌, inl, inr, Bool, true, false, not, ◌&&◌, ◌||◌, Option, none,
  some, List, [], ◌∷◌, ◌++◌, map, reverse, arith, ltb, leb, ◌==◌, ◌!=◌, if◌then◌else◌, ltb→lt,
  lt→ltb, le→ltb, ==_iff, ==_refl, ==_of_ne, Bool-cases, Option-cases, length, get_elem?, get_or,
  set, take, replicate, length-append, length-set, length-replicate, get_or-set_self, get_or-set_ne,
  get_or-append_left, get_or-append_length,
}
use model_lib.Base.Words.{u8, u16, u32, u64, sub32, ◌<<<◌, ◌>>>◌}
use model_lib.Outcome.{Outcome, ok, undefined, ◌>>=◌, ◌>>◌, inside}
use model_lib.Base.Memory.{Bytes, update}
use model_lib.Klib.Ctype.{isdigit}

-- Output, with the memory that `buffer` points into and the characters that putch has got.
pub record Output : Type 0 where
  pub buffer : ℕ
  pub size : ℕ
  pub count : ℕ
  pub console : Bool
  pub mem : Bytes
  pub printed : List ℕ

unfoldable pub emit : ℕ → Output → Output
emit ch out =
    let out1 =
      if out.console
      then record out { printed = out.printed ++ (ch ∷ []) }
      else (if (out.size != 0) && ltb (u32 (out.count + 1)) out.size
          then record out { mem = update out.mem (u32 (out.buffer + out.count)) ch }
          else out) in
    record out1 { count = u32 (out.count + 1) }

unfoldable pub emit_repeat : ℕ → ℕ → Output → Output
emit_repeat ch zero out = out
emit_repeat ch (suc count) out = emit_repeat ch count (emit ch out)

-- `while (*str) emit(out, *str++)`
unfoldable pub emit_string : List ℕ → Output → Output
emit_string [] out = out
emit_string (c ∷ cs) out = emit_string cs (emit c out)

-- `while (length > 0) emit(out, reversed[--length])`
unfoldable pub emit_reversed : List ℕ → Output → Output
emit_reversed [] out = out
emit_reversed (d ∷ ds) out = emit d (emit_reversed ds out)

abbrev pub alphabet : Bool → ℕ → ℕ
alphabet upper d = if ltb d 10 then 48 + d else (if upper then 55 + d else 87 + d)

-- `reversed`, which has room for `room` digits.
unfoldable pub reversed_digits : ℕ → ℕ → ℕ → Bool → List ℕ
reversed_digits zero value base upper = []
reversed_digits (suc room) value base upper =
    let rest = reversed_digits room (value / base) base upper in
    alphabet upper (value % base) ∷ (if value / base != 0 then rest else [])

-- A prefix of NULL is the empty one.
unfoldable pub emit_unsigned : ℕ → ℕ → Bool → ℕ → ℕ → Bool → List ℕ → Output → Output
emit_unsigned value base upper width padding left_align prefix out =
    let reversed = reversed_digits 32 value base upper in
    let used = length reversed + length prefix in
    let pad = if ltb used width then width - used else 0 in
    let out1 = if not left_align && (padding == 32) then emit_repeat 32 pad out else out in
    let out2 = emit_string prefix out1 in
    let out3 = if not left_align && (padding == 48) then emit_repeat 48 pad out2 else out2 in
    let out4 = emit_reversed reversed out3 in if left_align then emit_repeat 32 pad out4 else out4

pub data Arg : Type 0 where
  word : ℕ → Arg
  long_long : ℕ → Arg
  string : Option (List ℕ) → Arg

-- va_arg of a type of 32 bits, of a long long, and of a char pointer.
abbrev pub arg_word : List Arg → Outcome (ℕ × List Arg)
arg_word (word v ∷ va) = ok (u32 v, va)
arg_word (long_long v ∷ va) = undefined
arg_word (string s ∷ va) = undefined
arg_word [] = undefined

abbrev pub arg_long_long : List Arg → Outcome (ℕ × List Arg)
arg_long_long (word v ∷ va) = undefined
arg_long_long (long_long v ∷ va) = ok (u64 v, va)
arg_long_long (string s ∷ va) = undefined
arg_long_long [] = undefined

-- NULL is printed as "(null)".
abbrev pub arg_string : List Arg → Outcome (List ℕ × List Arg)
arg_string (word v ∷ va) = undefined
arg_string (long_long v ∷ va) = undefined
arg_string (string none ∷ va) = ok (40 ∷ 110 ∷ 117 ∷ 108 ∷ 108 ∷ 41 ∷ [], va)
arg_string (string (some s) ∷ va) = ok (s, va)
arg_string [] = undefined

-- What stands between the % and the end of the conversion.
pub record Conversion : Type 0 where
  pub left_align : Bool
  pub padding : ℕ
  pub width : ℕ
  pub length : ℕ
  pub spec : ℕ

abbrev pub parse_flags : Bool → ℕ → List ℕ → Bool × ℕ × List ℕ
parse_flags left padding [] = (left, padding, [])
parse_flags left padding (c ∷ cs) =
    if c == 45
    then parse_flags true padding cs
    else (if c == 48 then parse_flags left 48 cs else (left, padding, c ∷ cs))

abbrev pub parse_width : ℕ → List ℕ → Outcome (ℕ × List ℕ)
parse_width width [] = ok (width, [])
parse_width width (c ∷ cs) =
    let wider = width * 10 + (c - 48) in
    if isdigit c then (do inside (ltb wider (2 ^ 31)); parse_width wider cs) else ok (width, c ∷ cs)

abbrev pub parse_length : List ℕ → ℕ × List ℕ
parse_length [] = (0, [])
parse_length (c ∷ []) = if (c == 108) || (c == 122) then (1, []) else (0, c ∷ [])
parse_length (c ∷ d ∷ cs) =
    if c == 108
    then (if d == 108 then (2, cs) else (1, d ∷ cs))
    else (if c == 122 then (1, d ∷ cs) else (0, c ∷ d ∷ cs))

-- At the end of the format the conversion is NUL and the end stays.
abbrev pub parse_spec : List ℕ → ℕ × List ℕ
parse_spec [] = (0, [])
parse_spec (c ∷ cs) = (c, cs)

abbrev pub parse_conversion : List ℕ → Outcome (Conversion × List ℕ)
parse_conversion fmt = do
  let (left_align, padding, fmt1) = parse_flags false 32 fmt
  (width, fmt2) ← parse_width 0 fmt1
  let (length, fmt3) = parse_length fmt2
  let (spec, fmt4) = parse_spec fmt3
  ok (
    record {
      left_align = left_align;
      padding = padding;
      width = width;
      length = length;
      spec = spec;
    },
    fmt4,
  )
