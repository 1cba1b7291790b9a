-- ===== src/Klib/Strings/Search.antt =====
-- The routines that look for a character.
use model_lib.Base.{
  ℕ, zero, suc, ◌+◌, ◌<◌, ◌≡◌, Option, none, some, List, [], ◌∷◌, ◌++◌, arith, ◌==◌, if◌then◌else◌,
  length,
}
use model_lib.Base.Memory.{Bytes}
use model_lib.Klib.Strings.{strchr, strrchr_from, strrchr}
use model_lib.Klib.Strings.Content.{StringAt}

-- The address of the first and of the last `c` in characters that start at `s`.
abbrev pub first_at : ℕ → ℕ → List ℕ → Option ℕ
first_at c s [] = none
first_at c s (d ∷ ds) = if d == c then some s else first_at c (s + 1) ds

abbrev pub last_at : ℕ → ℕ → List ℕ → Option ℕ → Option ℕ
last_at c s [] last = last
last_at c s (d ∷ ds) last = last_at c (s + 1) ds (if d == c then some s else last)

-- strchr finds the first place of the character in the string, its NUL included.
pub strchr_lem :
    (m : Bytes) (s c : ℕ) (cs : List ℕ) (fuel : ℕ)
    → StringAt m s cs
    → length cs < fuel
    → strchr fuel m s c ≡ some (first_at c s (cs ++ (0 ∷ [])))
unfolding strchr
strchr_lem m s c cs zero h enough = absurd (omega arith)
strchr_lem m s c [] (suc fuel) h enough = ground arith
strchr_lem m s c (d ∷ ds) (suc fuel) (here, nonzero, rest) enough =
    ground (arith, strchr_lem m (s + 1) c ds fuel rest (omega arith))

strrchr_from_lem :
    (m : Bytes) (s c : ℕ) (cs : List ℕ) (fuel : ℕ) (last : Option ℕ)
    → StringAt m s cs
    → length cs < fuel
    → strrchr_from fuel m s c last ≡ some (last_at c s (cs ++ (0 ∷ [])) last)
unfolding strrchr_from
strrchr_from_lem m s c cs zero last h enough = absurd (omega arith)
strrchr_from_lem m s c [] (suc fuel) last h enough = ground arith
strrchr_from_lem m s c (d ∷ ds) (suc fuel) last (here, nonzero, rest) enough = ground (
  arith,
  strrchr_from_lem m (s + 1) c ds fuel (if m s == c then some s else last) rest (omega arith),
)

-- strrchr finds the last place of the character in the string, its NUL included.
pub strrchr_lem :
    (m : Bytes) (s c : ℕ) (cs : List ℕ) (fuel : ℕ)
    → StringAt m s cs
    → length cs < fuel
    → strrchr fuel m s c ≡ some (last_at c s (cs ++ (0 ∷ [])) none)
unfolding strrchr
strrchr_lem m s c cs fuel h enough = strrchr_from_lem m s c cs fuel none h enough
