-- ===== src/Klib/Ctype.antt =====
-- abstract-machine/klib/src/ctypes.c. An int is its 32-bit pattern, and a test is a Bool.
pub mod Classes
use model_lib.Base.{
  ℕ, zero, suc, ◌+◌, ◌-◌, ◌*◌, ◌/◌, ◌%◌, ◌^◌, ◌≤◌, ◌<◌, min, bit_and, bit_or, bit_xor, ◌≡◌, refl,
  sym, ap, ap₂, ◌∙◌, ◌≢◌, ◌↔◌, ◌⊎◌, inl, inr, Bool, true, false, not, ◌&&◌, ◌||◌, Option, none,
  some, List, [], ◌∷◌, ◌++◌, map, reverse, arith, ltb, leb, ◌==◌, ◌!=◌, if◌then◌else◌, ltb→lt,
  lt→ltb, le→ltb, ==_iff, ==_refl, ==_of_ne, Bool-cases, Option-cases, length, get_elem?, get_or,
  set, take, replicate, length-append, length-set, length-replicate, get_or-set_self, get_or-set_ne,
  get_or-append_left, get_or-append_length,
}
use model_lib.Base.Words.{u8, u16, u32, u64, sub32, ◌<<<◌, ◌>>>◌}

-- a <= b and a < b for ints
abbrev pub int_leb : ℕ → ℕ → Bool
int_leb a b = leb ((a + 2 ^ 31) % 2 ^ 32) ((b + 2 ^ 31) % 2 ^ 32)

abbrev pub int_ltb : ℕ → ℕ → Bool
int_ltb a b = ltb ((a + 2 ^ 31) % 2 ^ 32) ((b + 2 ^ 31) % 2 ^ 32)

abbrev pub in_range : ℕ → ℕ → ℕ → Bool
in_range first last c = int_leb first c && int_leb c last

unfoldable pub isspace : ℕ → Bool
isspace c = (c == 32) || (c == 12) || (c == 10) || (c == 13) || (c == 9) || (c == 11)

unfoldable pub isprint : ℕ → Bool
isprint c = int_leb 0x20 c && int_ltb c 128

unfoldable pub isdigit : ℕ → Bool
isdigit c = in_range 48 57 c

unfoldable pub islower : ℕ → Bool
islower c = in_range 97 122 c

unfoldable pub isupper : ℕ → Bool
isupper c = in_range 65 90 c

unfoldable pub isxdigit : ℕ → Bool
isxdigit c = isdigit c || in_range 65 70 c || in_range 97 102 c

unfoldable pub isalpha : ℕ → Bool
isalpha c = islower c || isupper c

unfoldable pub isalnum : ℕ → Bool
isalnum c = isalpha c || isdigit c

unfoldable pub ispunct : ℕ → Bool
ispunct c = isprint c && not (isspace c) && not (isalnum c)

unfoldable pub iscntrl : ℕ → Bool
iscntrl c = int_leb 0 c && int_ltb c 0x20

unfoldable pub isgraph : ℕ → Bool
isgraph c = isprint c && not (isspace c)

unfoldable pub tolower : ℕ → ℕ
tolower c = if isupper c then u32 (c + 97 - 65) else c

unfoldable pub toupper : ℕ → ℕ
toupper c = if islower c then sub32 (u32 (c + 65)) 97 else c
