-- ===== src/Klib/Strings.antt =====
-- abstract-machine/klib/src/string.c. A pointer is an address, an object does not reach past the
-- end of the address space, and NULL is `none`. A loop that ends at a NUL takes fuel, and gives
-- `none` without it.
pub mod Blocks
pub mod Content
pub mod Copy
pub mod Compare
pub mod Search
use model_lib.Base.{
  ℕ, zero, suc, ◌+◌, ◌-◌, ◌*◌, ◌/◌, ◌%◌, ◌^◌, ◌≤◌, ◌<◌, min, bit_and, bit_or, bit_xor, ◌≡◌, refl,
  sym, ap, ap₂, ◌∙◌, ◌≢◌, ◌↔◌, ◌⊎◌, inl, inr, Bool, true, false, not, ◌&&◌, ◌||◌, Option, none,
  some, List, [], ◌∷◌, ◌++◌, map, reverse, arith, ltb, leb, ◌==◌, ◌!=◌, if◌then◌else◌, ltb→lt,
  lt→ltb, le→ltb, ==_iff, ==_refl, ==_of_ne, Bool-cases, Option-cases, length, get_elem?, get_or,
  set, take, replicate, length-append, length-set, length-replicate, get_or-set_self, get_or-set_ne,
  get_or-append_left, get_or-append_length,
}
use model_lib.Base.Words.{u8, u16, u32, u64, sub32, ◌<<<◌, ◌>>>◌}
use model_lib.Base.Memory.{Bytes, update}

-- `end`
unfoldable pub strlen_from : ℕ → Bytes → ℕ → Option ℕ
strlen_from zero m end = none
strlen_from (suc fuel) m end =
    let rest = strlen_from fuel m (end + 1) in if m end != 0 then rest else some end

unfoldable pub strlen : ℕ → Bytes → ℕ → Option ℕ
strlen fuel m s = elim (strlen_from fuel m s) [ none ↦ none | some end ↦ some (end - s) ]

unfoldable pub strcpy : ℕ → Bytes → ℕ → ℕ → Option Bytes
strcpy zero m dst src = none
strcpy (suc fuel) m dst src =
    let copied = update m dst (m src) in
    let rest = strcpy fuel copied (dst + 1) (src + 1) in if m src != 0 then rest else some copied

unfoldable pub strcat : ℕ → Bytes → ℕ → ℕ → Option Bytes
strcat fuel m dst src = elim (strlen fuel m dst) [
  | none ↦ none
  | some n ↦ strcpy fuel m (dst + n) src
]

-- The bytes that are left, and `i`.
unfoldable pub fill : ℕ → ℕ → ℕ → ℕ → Bytes → Bytes
fill zero i dst c m = m
fill (suc left) i dst c m = fill left (i + 1) dst c (update m (dst + i) c)

unfoldable pub memset : Bytes → ℕ → ℕ → ℕ → Bytes
memset m s c n = fill n 0 s (u8 c) m

-- The first loop of strncpy, then the second.
unfoldable pub strncpy_from : ℕ → ℕ → ℕ → ℕ → Bytes → Bytes
strncpy_from zero i dst src m = m
strncpy_from (suc left) i dst src m =
    let rest = strncpy_from left (i + 1) dst src (update m (dst + i) (m (src + i))) in
    if m (src + i) != 0 then rest else fill (suc left) i dst 0 m

unfoldable pub strncpy : Bytes → ℕ → ℕ → ℕ → Bytes
strncpy m dst src n = strncpy_from n 0 dst src m

unfoldable pub copy_up : ℕ → ℕ → ℕ → ℕ → Bytes → Bytes
copy_up zero i out src m = m
copy_up (suc left) i out src m = copy_up left (i + 1) out src (update m (out + i) (m (src + i)))

unfoldable pub copy_down : ℕ → ℕ → ℕ → Bytes → Bytes
copy_down zero out src m = m
copy_down (suc i) out src m = copy_down i out src (update m (out + i) (m (src + i)))

unfoldable pub memmove : Bytes → ℕ → ℕ → ℕ → Bytes
memmove m out src n =
    if leb out src || leb (src + n) out then copy_up n 0 out src m else copy_down n out src m

unfoldable pub memcpy : Bytes → ℕ → ℕ → ℕ → Bytes
memcpy m out src n = copy_up n 0 out src m

unfoldable pub memcmp : Bytes → ℕ → ℕ → ℕ → ℕ
memcmp m a b zero = 0
memcmp m a b (suc n) =
    let rest = memcmp m (a + 1) (b + 1) n in if m a != m b then sub32 (m a) (m b) else rest

unfoldable pub strcmp : ℕ → Bytes → ℕ → ℕ → Option ℕ
strcmp zero m s1 s2 = none
strcmp (suc fuel) m s1 s2 =
    let rest = strcmp fuel m (s1 + 1) (s2 + 1) in
    if (m s1 != 0) && (m s1 == m s2) then rest else some (sub32 (m s1) (m s2))

unfoldable pub strncmp : Bytes → ℕ → ℕ → ℕ → ℕ
strncmp m s1 s2 zero = 0
strncmp m s1 s2 (suc n) =
    let rest = strncmp m (s1 + 1) (s2 + 1) n in
    if m s1 != m s2 then sub32 (m s1) (m s2) else (if m s1 == 0 then 0 else rest)

-- The inner option is the pointer.
unfoldable pub strchr : ℕ → Bytes → ℕ → ℕ → Option (Option ℕ)
strchr zero m s c = none
strchr (suc fuel) m s c =
    let rest = strchr fuel m (s + 1) c in
    if m s == c then some (some s) else (if m s != 0 then rest else some none)

unfoldable pub strrchr_from : ℕ → Bytes → ℕ → ℕ → Option ℕ → Option (Option ℕ)
strrchr_from zero m s c last = none
strrchr_from (suc fuel) m s c last =
    let found = if m s == c then some s else last in
    let rest = strrchr_from fuel m (s + 1) c found in if m s != 0 then rest else some found

unfoldable pub strrchr : ℕ → Bytes → ℕ → ℕ → Option (Option ℕ)
strrchr fuel m s c = strrchr_from fuel m s c none
