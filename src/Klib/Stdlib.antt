-- ===== src/Klib/Stdlib.antt =====
-- abstract-machine/klib/src/stdlib.c: the numbers. A string is the list of its characters, behind
-- which stands a NUL.
pub mod Numbers
pub mod Alloc
use model_lib.Base.{
  ℕ, zero, suc, ◌+◌, ◌-◌, ◌*◌, ◌/◌, ◌%◌, ◌^◌, ◌≤◌, ◌<◌, min, bit_and, bit_or, bit_xor, ◌≡◌, refl,
  sym, ap, ap₂, ◌∙◌, ◌≢◌, ◌↔◌, ◌⊎◌, inl, inr, Bool, true, false, not, ◌&&◌, ◌||◌, Option, none,
  some, List, [], ◌∷◌, ◌++◌, map, reverse, arith, ltb, leb, ◌==◌, ◌!=◌, if◌then◌else◌, ltb→lt,
  lt→ltb, le→ltb, ==_iff, ==_refl, ==_of_ne, Bool-cases, Option-cases, length, get_elem?, get_or,
  set, take, replicate, length-append, length-set, length-replicate, get_or-set_self, get_or-set_ne,
  get_or-append_left, get_or-append_length,
}
use model_lib.Base.Words.{u8, u16, u32, u64, sub32, ◌<<<◌, ◌>>>◌}
use model_lib.Outcome.{Outcome, ok, undefined, ◌>>=◌}
use model_lib.Klib.Ctype.{isspace, isdigit, isxdigit, isalpha, isalnum, tolower}

-- `next`, an unsigned long of 32 bits.
unfoldable pub rand : ℕ → ℕ × ℕ
rand next = let next1 = u32 (next * 1103515245 + 12345) in (next1 / 65536 % 32768, next1)

unfoldable pub srand : ℕ → ℕ
srand seed = u32 seed

-- The negation of the least int has no value.
unfoldable pub abs : ℕ → Outcome ℕ
abs x = if x == 2 ^ 31 then undefined else ok (if leb (2 ^ 31) x then sub32 0 x else x)

-- nptr[i]
abbrev pub char_at : List ℕ → ℕ → ℕ
char_at s i = get_or s i 0

unfoldable pub skip_space : List ℕ → List ℕ
skip_space [] = []
skip_space (c ∷ cs) = if isspace c then skip_space cs else c ∷ cs

abbrev pub guess_base : ℕ → List ℕ → ℕ
guess_base base s =
    if base == 0
    then (if char_at s 0 != 48 then 10 else (if tolower (char_at s 1) == 120 then 16 else 8))
    else base

abbrev pub drop2 : List ℕ → List ℕ
drop2 [] = []
drop2 (c ∷ []) = []
drop2 (c ∷ d ∷ cs) = cs

abbrev pub skip_prefix : ℕ → List ℕ → List ℕ
skip_prefix base s =
    if (base == 16) && ((char_at s 0 == 48) && (tolower (char_at s 1) == 120)) then drop2 s else s

-- The three breaks of the loop.
abbrev pub is_outside : ℕ → ℕ → Bool
is_outside base c =
    (base == 8) && not (leb 48 c && leb c 55)
    || (base == 10) && not (isdigit c)
    || (base == 16) && not (isxdigit c)

abbrev pub digit_value : ℕ → ℕ
digit_value c = if isalpha c then tolower c - 97 + 10 else c - 48

-- `type` of def_strtoXXX, by its bits.
pub data IntType : Type 0 where
  unsigned_bits signed_bits : ℕ → IntType

-- An assignment to `x`: an unsigned type wraps, a signed one has no value behind its largest.
abbrev pub assign : IntType → ℕ → Outcome ℕ
assign (unsigned_bits bits) v = ok (v % 2 ^ bits)
assign (signed_bits bits) v = if ltb v (2 ^ (bits - 1)) then ok v else undefined

-- `x` and `nptr` at the end of the loop.
unfoldable pub strto_loop : IntType → ℕ → ℕ → List ℕ → Outcome (ℕ × List ℕ)
strto_loop t base x [] = ok (x, [])
strto_loop t base x (c ∷ cs) =
    let rest = assign t (x * base + digit_value c) >>= λ v. strto_loop t base v cs in
    if isalnum c && not (is_outside base c) then rest else ok (x, c ∷ cs)

-- def_strtoXXX: the value and *endptr.
unfoldable pub strto : IntType → List ℕ → ℕ → Outcome (ℕ × List ℕ)
strto t nptr base =
    let s = skip_space nptr in
    let base1 = guess_base base s in strto_loop t base1 0 (skip_prefix base1 s)

abbrev pub strtol : List ℕ → ℕ → Outcome (ℕ × List ℕ)
strtol nptr base = strto (signed_bits 32) nptr base

abbrev pub strtoll : List ℕ → ℕ → Outcome (ℕ × List ℕ)
strtoll nptr base = strto (signed_bits 64) nptr base

abbrev pub strtoul : List ℕ → ℕ → Outcome (ℕ × List ℕ)
strtoul nptr base = strto (unsigned_bits 32) nptr base

abbrev pub strtoull : List ℕ → ℕ → Outcome (ℕ × List ℕ)
strtoull nptr base = strto (unsigned_bits 64) nptr base
