-- ===== src/Klib/Strings/Compare.antt =====
-- The routines that compare.
use model_lib.Base.{
  ℕ, zero, suc, ◌+◌, ◌^◌, ◌<◌, ◌≡◌, refl, Bool, true, false, ◌&&◌, ◌||◌, some, List, [], ◌∷◌, arith,
  ltb, leb, ◌==◌, if◌then◌else◌, length, take,
}
use model_lib.Base.Words.{sub32}
use model_lib.Base.Memory.{Bytes}
use model_lib.Klib.Strings.{strcmp, strncmp, memcmp}
use model_lib.Klib.Strings.Content.{StringAt}

-- The first pair of characters that differ, a NUL behind the last, subtracted as ints.
abbrev pub difference : List ℕ → List ℕ → ℕ
difference [] [] = 0
difference [] (d ∷ ds) = sub32 0 d
difference (c ∷ cs) [] = sub32 c 0
difference (c ∷ cs) (d ∷ ds) = if c == d then difference cs ds else sub32 c d

-- The order of dictionaries.
abbrev pub before : List ℕ → List ℕ → Bool
before [] [] = false
before [] (d ∷ ds) = true
before (c ∷ cs) [] = false
before (c ∷ cs) (d ∷ ds) = ltb c d || ((c == d) && before cs ds)

abbrev pub same : List ℕ → List ℕ → Bool
same [] [] = true
same [] (d ∷ ds) = false
same (c ∷ cs) [] = false
same (c ∷ cs) (d ∷ ds) = (c == d) && same cs ds

strcmp-difference :
    (m : Bytes) (cs ds : List ℕ) (s t fuel : ℕ)
    → StringAt m s cs
    → StringAt m t ds
    → length cs < fuel
    → strcmp fuel m s t ≡ some (difference cs ds)
unfolding strcmp
strcmp-difference m cs ds s t zero h k enough = absurd (omega arith)
strcmp-difference m [] [] s t (suc fuel) h k enough = ground arith
strcmp-difference m [] (d ∷ ds) s t (suc fuel) h (k, nonzero, rest) enough = ground arith
strcmp-difference m (c ∷ cs) [] s t (suc fuel) (h, nonzero, rest) k enough = ground arith
strcmp-difference m (c ∷ cs) (d ∷ ds) s t (suc fuel) (h, nonzero, rest) (k, nonzero2, rest2)
      enough =
    ground (arith, strcmp-difference m cs ds (s + 1) (t + 1) fuel rest rest2 (omega arith))

difference-sign :
    (m : Bytes) (cs ds : List ℕ) (s t : ℕ)
    → ((i : ℕ) → m i < 256)
    → StringAt m s cs
    → StringAt m t ds
    → ((difference cs ds == 0) ≡ same cs ds) × (leb (2 ^ 31) (difference cs ds) ≡ before cs ds)
difference-sign m [] [] s t bytes h k = (refl, refl)
difference-sign m [] (d ∷ ds) s t bytes h (k, nonzero, rest) =
    (ground (arith, bytes t), ground (arith, bytes t))
difference-sign m (c ∷ cs) [] s t bytes (h, nonzero, rest) k =
    (ground (arith, bytes s), ground (arith, bytes s))
difference-sign m (c ∷ cs) (d ∷ ds) s t bytes (h, _, rest) (k, _, rest2) =
    let (zero_same, less_before) = difference-sign m cs ds (s + 1) (t + 1) bytes rest rest2 in
    (ground (arith, bytes s, bytes t), ground (arith, bytes s, bytes t))

-- In a memory of bytes, with fuel for the first string: strcmp gives an int that is zero just when
-- the two strings are the same, and negative just when the first stands before the second.
pub strcmp_lem :
    (m : Bytes) (cs ds : List ℕ) (s t fuel : ℕ)
    → ((i : ℕ) → m i < 256)
    → StringAt m s cs
    → StringAt m t ds
    → length cs < fuel
    → (r : ℕ) × (strcmp fuel m s t ≡ some r)
      × ((r == 0) ≡ same cs ds)
      × (leb (2 ^ 31) r ≡ before cs ds)
strcmp_lem m cs ds s t fuel bytes h k enough =
    let (zero_same, less_before) = difference-sign m cs ds s t bytes h k in
    (difference cs ds, strcmp-difference m cs ds s t fuel h k enough, zero_same, less_before)

-- strncmp compares the first n characters as strcmp compares whole strings.
pub strncmp-difference :
    (m : Bytes) (n : ℕ) (cs ds : List ℕ) (s t : ℕ)
    → StringAt m s cs
    → StringAt m t ds
    → strncmp m s t n ≡ difference (take n cs) (take n ds)
unfolding strncmp
strncmp-difference m zero cs ds s t h k = refl
strncmp-difference m (suc n) [] [] s t h k = ground arith
strncmp-difference m (suc n) [] (d ∷ ds) s t h (k, nonzero, rest) = ground arith
strncmp-difference m (suc n) (c ∷ cs) [] s t (h, nonzero, rest) k = ground arith
strncmp-difference m (suc n) (c ∷ cs) (d ∷ ds) s t (h, nonzero, rest) (k, nonzero2, rest2) =
    ground (arith, strncmp-difference m n cs ds (s + 1) (t + 1) rest rest2)

abbrev pub block : Bytes → ℕ → ℕ → List ℕ
block m a zero = []
block m a (suc n) = m a ∷ block m (a + 1) n

-- memcmp compares the n bytes as strcmp compares strings, zeros among them included.
pub memcmp-difference :
    (m : Bytes) (a b n : ℕ) → memcmp m a b n ≡ difference (block m a n) (block m b n)
unfolding memcmp
memcmp-difference m a b zero = refl
memcmp-difference m a b (suc n) = ground (arith, memcmp-difference m (a + 1) (b + 1) n)
