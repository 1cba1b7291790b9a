-- ===== src/Examples/Klib.antt =====
-- The C library at concrete inputs.
use model_lib.Base.{
  ℕ, suc, ◌+◌, ◌-◌, ◌^◌, ◌<◌, min, ◌≡◌, refl, true, false, ◌&&◌, ◌||◌, some, List, [], ◌∷◌, arith,
  ltb, leb, ◌==◌, ◌!=◌, if◌then◌else◌, length, get_or,
}
use model_lib.Outcome.{ok, panic, undefined}
use model_lib.Base.Memory.{Bytes}
use model_lib.Klib.Ctype.{
  isalnum, isalpha, iscntrl, isdigit, islower, isprint, ispunct, isspace, isupper,
}
use model_lib.Klib.Ctype.Classes.{answers, char_class, ascii_partition}
use model_lib.Klib.Strings.{memmove, strcmp}
use model_lib.Klib.Strings.Blocks.{in_block, memmove_lem}
use model_lib.Klib.Strings.Content.{StringAt}
use model_lib.Klib.Strings.Compare.{before, same, strcmp_lem}
use model_lib.Klib.Stdio.{Output, word, reversed_digits}
use model_lib.Klib.Stdio.Format.{format_from, vsnprintf}
use model_lib.Klib.Stdio.Text.{backwards, format_text}
use model_lib.Klib.Stdio.Fuel.{format_from-enough}
use model_lib.Klib.Stdio.Printf.{vsnprintf_lem}
use model_lib.Klib.Stdlib.{unsigned_bits, strto, strto_loop, skip_space}
use model_lib.Klib.Stdlib.Alloc.{atoi}
use model_lib.Klib.Stdlib.Numbers.{strto-reversed_digits}
use model_lib.Klib.Stdio.Scan.{
  vsscanf, scan_from, Scanned, vsscanf-reversed_digits, scan_from-enough,
}

-- "ab" at 10, "ac" at 20, zeros elsewhere.
abbrev words : Bytes
words i =
    if i == 10
    then 97
    else (if i == 11 then 98 else (if i == 20 then 97 else (if i == 21 then 99 else 0)))

abbrev ab : List ℕ
ab = 97 ∷ 98 ∷ []

abbrev ac : List ℕ
ac = 97 ∷ 99 ∷ []

words-ab : StringAt words 10 ab
words-ab = (refl, λ e. absurd (omega arith), (refl, λ e. absurd (omega arith), refl))

words-ac : StringAt words 20 ac
words-ac = (refl, λ e. absurd (omega arith), (refl, λ e. absurd (omega arith), refl))

words_bytes : (i : ℕ) → words i < 256
words_bytes i = ground arith

ascii_partition_example :
    (islower 65 ∷ isupper 65 ∷ isdigit 65 ∷ ispunct 65 ∷ iscntrl 65 ∷ [] ≡ answers (char_class 65))
    × (isalpha 65 ≡ islower 65 || isupper 65)
    × (isalnum 65 ≡ isalpha 65 || isdigit 65)
    × (isprint 65 ≡ isalnum 65 || ispunct 65 || (65 == 32))
ascii_partition_example = ascii_partition 65 (omega arith)

-- A move up by one byte, into itself.
memmove_lem_example :
    memmove words 11 10 2 12 ≡ (if in_block 11 2 12 then words (10 + (12 - 11)) else words 12)
memmove_lem_example = memmove_lem words 11 10 2 12

strcmp_lem_example :
    (r : ℕ) × (strcmp 3 words 10 20 ≡ some r)
    × ((r == 0) ≡ same ab ac)
    × (leb (2 ^ 31) r ≡ before ab ac)
strcmp_lem_example = strcmp_lem words ab ac 10 20 3 words_bytes words-ab words-ac (omega arith)

-- "%03d%%" on 7, and its text.
abbrev fmt : List ℕ
fmt = 37 ∷ 48 ∷ 51 ∷ 100 ∷ 37 ∷ 37 ∷ []

abbrev fmt_text : List ℕ
fmt_text = 48 ∷ 48 ∷ 55 ∷ 37 ∷ []

fmt-format_text : format_text (suc (length fmt)) fmt (word 7 ∷ []) ≡ ok fmt_text
unfolding reversed_digits isdigit
fmt-format_text = refl

vsnprintf_lem_example :
    (out : Output) × (vsnprintf words [] 100 3 fmt (word 7 ∷ []) ≡ ok (length fmt_text, out))
    × (out.printed ≡ [])
    × ((j : ℕ)
        → out.mem j ≡ (
            if leb 100 j && ltb j (100 + min (length fmt_text) (3 - 1))
            then get_or fmt_text (j - 100) 0
            else (if (j == 100 + min (length fmt_text) (3 - 1)) && (3 != 0) then 0 else words j)))
vsnprintf_lem_example =
    vsnprintf_lem words [] 100 3 fmt (word 7 ∷ []) fmt_text fmt-format_text (omega arith)
      (omega arith) (omega arith)

abbrev console : Output
console = record { buffer = 0; size = 0; count = 0; console = true; mem = words; printed = [] }

format_from-enough_example :
    format_from undefined 7 fmt (word 7 ∷ []) console
    ≡ format_from panic 20 fmt (word 7 ∷ []) console
format_from-enough_example =
    format_from-enough undefined panic 7 20 fmt (word 7 ∷ []) console (omega arith) (omega arith)

strto-reversed_digits_example :
    strto (unsigned_bits 32) (backwards (reversed_digits 32 4096 10 false)) 10 ≡ ok (4096, [])
strto-reversed_digits_example = strto-reversed_digits 32 4096 false (omega arith) (omega arith)

vsscanf-reversed_digits_example :
    vsscanf (backwards (reversed_digits 32 4096 10 false)) (37 ∷ 100 ∷ []) ≡ ok (0, 4096 ∷ [])
vsscanf-reversed_digits_example = vsscanf-reversed_digits 4096 false (omega arith)

-- "%c %d" on "x 12".
abbrev at_start : Scanned
at_start = record { pstr = some (120 ∷ 32 ∷ 49 ∷ 50 ∷ []); item = 2 ^ 32 - 1; stored = [] }

scan_from-enough_example :
    scan_from undefined 9 (37 ∷ 99 ∷ 32 ∷ 37 ∷ 100 ∷ []) at_start
    ≡ scan_from panic 5 (37 ∷ 99 ∷ 32 ∷ 37 ∷ 100 ∷ []) at_start
scan_from-enough_example =
    scan_from-enough undefined panic 9 (37 ∷ 99 ∷ 32 ∷ 37 ∷ 100 ∷ []) at_start (omega arith)

-- The least number that an int does not hold has no value: "2147483648".
atoi_of_large : atoi (50 ∷ 49 ∷ 52 ∷ 55 ∷ 52 ∷ 56 ∷ 51 ∷ 54 ∷ 52 ∷ 56 ∷ []) ≡ undefined
unfolding strto strto_loop skip_space isalnum isdigit isspace isalpha islower isupper
atoi_of_large = refl

-- No sign is read: "-5" is 0, and "5" is 5.
atoi_of_sign : (atoi (45 ∷ 53 ∷ []) ≡ ok 0) × (atoi (53 ∷ []) ≡ ok 5)
unfolding strto strto_loop skip_space isalnum isdigit isspace isalpha islower isupper
atoi_of_sign = (refl, refl)
