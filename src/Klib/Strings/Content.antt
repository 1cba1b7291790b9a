-- ===== src/Klib/Strings/Content.antt =====
-- What a string in memory is: its characters, none of them NUL, then a NUL.
use model_lib.Base.{
  ℕ, zero, suc, ◌+◌, ◌≤◌, ◌<◌, ◌≡◌, ap, ◌∙◌, ◌≢◌, some, List, [], ◌∷◌, arith, length,
}
use model_lib.Base.Memory.{Bytes}
use model_lib.Klib.Strings.{strlen_from, strlen}

abbrev pub StringAt : Bytes → ℕ → List ℕ → Type 0
StringAt m s [] = m s ≡ 0
StringAt m s (c ∷ cs) = (m s ≡ c) × (c ≢ 0) × StringAt m (s + 1) cs

-- The same bytes elsewhere hold the same string.
pub StringAt-move :
    (m m2 : Bytes) (s t : ℕ) (cs : List ℕ)
    → StringAt m s cs
    → ((i : ℕ) → i ≤ length cs → m2 (t + i) ≡ m (s + i))
    → StringAt m2 t cs
StringAt-move m m2 s t [] h same =
    ap m2 (omega arith) ∙ same 0 (omega arith) ∙ ap m (omega arith) ∙ h
StringAt-move m m2 s t (c ∷ cs) (here, nonzero, rest) same =
    let next : (i : ℕ) → i ≤ length cs → m2 (t + 1 + i) ≡ m (s + 1 + i) =
      λ i h. ap m2 (omega arith) ∙ same (i + 1) (omega arith) ∙ ap m (omega arith) in
    (
      ap m2 (omega arith) ∙ same 0 (omega arith) ∙ ap m (omega arith) ∙ here,
      nonzero,
      StringAt-move m m2 (s + 1) (t + 1) cs rest next,
    )

strlen_from_lem :
    (m : Bytes) (cs : List ℕ) (s fuel : ℕ)
    → StringAt m s cs
    → length cs < fuel
    → strlen_from fuel m s ≡ some (s + length cs)
unfolding strlen_from
strlen_from_lem m cs s zero h enough = absurd (omega arith)
strlen_from_lem m [] s (suc fuel) h enough = ground arith
strlen_from_lem m (c ∷ cs) s (suc fuel) (here, nonzero, rest) enough =
    let end : strlen_from fuel m (s + 1) ≡ some (s + 1 + length cs) =
      strlen_from_lem m cs (s + 1) fuel rest (omega arith) in
    ground arith

-- With fuel for the characters and the NUL, strlen gives the number of the characters.
pub strlen_lem :
    (m : Bytes) (s : ℕ) (cs : List ℕ) (fuel : ℕ)
    → StringAt m s cs
    → length cs < fuel
    → strlen fuel m s ≡ some (length cs)
unfolding strlen
strlen_lem m s cs fuel h enough =
    rw (strlen_from_lem m cs s fuel h enough, strlen) (ap some (omega arith))
