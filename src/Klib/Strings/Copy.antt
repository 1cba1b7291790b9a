-- ===== src/Klib/Strings/Copy.antt =====
-- The routines that copy strings.
use model_lib.Base.{
  ℕ, zero, suc, ◌+◌, ◌-◌, ◌≤◌, ◌<◌, ◌≡◌, ap, ◌∙◌, ◌≢◌, ◌⊎◌, some, List, [], ◌∷◌, ◌++◌, arith,
  if◌then◌else◌, length, get_or,
}
use model_lib.Base.Memory.{Bytes, update, update_at, update_off}
use model_lib.Klib.Strings.{strcpy, strcat, strncpy_from, strncpy}
use model_lib.Klib.Strings.Content.{StringAt, StringAt-move, strlen_lem}
use model_lib.Klib.Strings.Blocks.{in_block, fill_lem}

-- The `a` bytes at `s` and the `b` bytes at `t` share none.
abbrev pub Apart : ℕ → ℕ → ℕ → ℕ → Type 0
Apart s a t b = (s + a ≤ t) ⊎ (t + b ≤ s)

-- `m2` is `m` with the string `cs` and its NUL, which stand at `src`, copied to `dst`.
abbrev Copied : Bytes → Bytes → ℕ → ℕ → ℕ → Type 0
Copied m m2 dst src size =
    (j : ℕ) → m2 j ≡ (if in_block dst size j then m (src + (j - dst)) else m j)

-- The first byte of a copy, then the rest, is the copy.
Copied-first :
    (m : Bytes) (dst src j : ℕ)
    → update m dst (m src) j ≡ (if in_block dst 1 j then m (src + (j - dst)) else m j)
unfolding update
Copied-first m dst src j =
    let here : j ≡ dst → m (src + (j - dst)) ≡ m src = λ (e : j ≡ dst). ap m (omega arith) in
    ground (arith, here)

Copied-next :
    (m m2 : Bytes) (dst src n j : ℕ)
    → Apart dst (suc n) src (suc n)
    → Copied (update m dst (m src)) m2 (dst + 1) (src + 1) n
    → m2 j ≡ (if in_block dst (suc n) j then m (src + (j - dst)) else m j)
unfolding update
Copied-next m m2 dst src n j apart copied =
    let here : j ≡ dst → m (src + (j - dst)) ≡ m src = λ (e : j ≡ dst). ap m (omega arith) in
    let next : dst < j → m (src + 1 + (j - (dst + 1))) ≡ m (src + (j - dst)) =
      λ (h : dst < j). ap m (omega arith) in
    ground (arith, here, next, copied j)

strcpy-Copied :
    (m : Bytes) (cs : List ℕ) (dst src fuel : ℕ)
    → StringAt m src cs
    → length cs < fuel
    → Apart dst (suc (length cs)) src (suc (length cs))
    → (m2 : Bytes) × (strcpy fuel m dst src ≡ some m2) × Copied m m2 dst src (suc (length cs))
unfolding strcpy
strcpy-Copied m cs dst src zero h enough apart = absurd (omega arith)
strcpy-Copied m [] dst src (suc fuel) h enough apart =
    (update m dst (m src), ground arith, Copied-first m dst src)
strcpy-Copied m (c ∷ cs) dst src (suc fuel) (here, nonzero, rest) enough apart =
    let m1 : Bytes = update m dst (m src) in
    let rest1 : StringAt m1 (src + 1) cs =
      StringAt-move m m1 (src + 1) (src + 1) cs rest
        (λ i h. update_off m dst (m src) (src + 1 + i) (omega arith)) in
    let (m2, done, copied) =
      strcpy-Copied m1 cs (dst + 1) (src + 1) fuel rest1 (omega arith) (omega arith) in
    (m2, ground arith, λ j. Copied-next m m2 dst src (suc (length cs)) j apart copied)

-- With fuel for the string and its NUL, on places apart: strcpy returns, the string then stands
-- at both places, and no other byte changes.
pub strcpy_lem :
    (m : Bytes) (cs : List ℕ) (dst src fuel : ℕ)
    → StringAt m src cs
    → length cs < fuel
    → Apart dst (suc (length cs)) src (suc (length cs))
    → (m2 : Bytes) × (strcpy fuel m dst src ≡ some m2)
      × StringAt m2 dst cs
      × StringAt m2 src cs
      × ((j : ℕ) → m2 j ≡ (if in_block dst (suc (length cs)) j then m2 j else m j))
strcpy_lem m cs dst src fuel h enough apart =
    let (m2, done, copied) = strcpy-Copied m cs dst src fuel h enough apart in
    let moved : (i : ℕ) → i ≤ length cs → m2 (dst + i) ≡ m (src + i) = λ i k.
      ground
        (arith, copied (dst + i), ap m {x = src + (dst + i - dst)} {y = src + i} (omega arith)) in
    let kept : (i : ℕ) → i ≤ length cs → m2 (src + i) ≡ m (src + i) =
      λ i k. ground (arith, copied (src + i)) in
    (
      m2,
      done,
      StringAt-move m m2 src dst cs h moved,
      StringAt-move m m2 src src cs h kept,
      λ j. ground (arith, copied j),
    )

-- A string of two parts, the first read before the second.
StringAt-append :
    (m : Bytes) (ds cs : List ℕ) (s : ℕ) (m0 : Bytes)
    → StringAt m0 s ds
    → ((i : ℕ) → i < length ds → m (s + i) ≡ m0 (s + i))
    → StringAt m (s + length ds) cs
    → StringAt m s (ds ++ cs)
StringAt-append m [] cs s m0 h same k = StringAt-move m m (s + 0) s cs k (λ i h. ap m (omega arith))
StringAt-append m (d ∷ ds) cs s m0 (here, nonzero, rest) same k = (
  ap m (omega arith) ∙ same 0 (omega arith) ∙ ap m0 (omega arith) ∙ here,
  nonzero,
  StringAt-append m ds cs (s + 1) m0 rest
      (λ i h. ap m (omega arith) ∙ same (i + 1) (omega arith) ∙ ap m0 (omega arith))
      (StringAt-move m m (s + suc (length ds)) (s + 1 + length ds) cs k
        (λ i h. ap m (omega arith))),
)

-- With fuel for each of the two strings, when the joined string has room apart from the second:
-- strcat returns, the joined string stands at `dst`, and no byte outside of it changes.
pub strcat_lem :
    (m : Bytes) (ds cs : List ℕ) (dst src fuel : ℕ)
    → StringAt m dst ds
    → StringAt m src cs
    → length ds < fuel
    → length cs < fuel
    → Apart dst (length ds + suc (length cs)) src (suc (length cs))
    → (m2 : Bytes) × (strcat fuel m dst src ≡ some m2)
      × StringAt m2 dst (ds ++ cs)
      × StringAt m2 src cs
      × ((j : ℕ) → m2 j ≡ (if in_block dst (length ds + suc (length cs)) j then m2 j else m j))
unfolding strcat
strcat_lem m ds cs dst src fuel hd hs enough1 enough2 apart =
    let (m2, done, copied) =
      strcpy-Copied m cs (dst + length ds) src fuel hs enough2 (omega arith) in
    let n = suc (length cs) in
    let moved : (i : ℕ) → i ≤ length cs → m2 (dst + length ds + i) ≡ m (src + i) = λ i k. ground (
      arith,
      copied (dst + length ds + i),
      ap m {x = src + (dst + length ds + i - (dst + length ds))} {y = src + i} (omega arith),
    ) in
    let kept : (i : ℕ) → i ≤ length cs → m2 (src + i) ≡ m (src + i) =
      λ i k. ground (arith, copied (src + i)) in
    let front : (i : ℕ) → i < length ds → m2 (dst + i) ≡ m (dst + i) =
      λ i k. ground (arith, copied (dst + i)) in
    (
      m2,
      rw (strlen_lem m dst ds fuel hd enough1, strcat) done,
      StringAt-append m2 ds cs dst m hd front
          (StringAt-move m m2 src (dst + length ds) cs hs moved),
      StringAt-move m m2 src src cs hs kept,
      λ j. ground (arith, copied j),
    )

-- The character at `i`, or the NUL that strncpy puts behind the last.
abbrev pub padded : List ℕ → ℕ → ℕ
padded cs i = get_or cs i 0

strncpy_from_lem :
    (left i : ℕ) (m : Bytes) (cs : List ℕ) (dst src j : ℕ)
    → StringAt m (src + i) cs
    → Apart dst (i + left) src (i + suc (length cs))
    → strncpy_from left i dst src m j
      ≡ (if in_block (dst + i) left j then padded cs (j - (dst + i)) else m j)
unfolding strncpy_from
strncpy_from_lem zero i m cs dst src j h apart = ground arith
strncpy_from_lem (suc left) i m [] dst src j h apart =
    ground (arith, fill_lem (suc left) i dst 0 m j)
strncpy_from_lem (suc left) i m (c ∷ cs) dst src j (here, nonzero, rest) apart =
    let m1 : Bytes = update m (dst + i) (m (src + i)) in
    let rest1 : StringAt m1 (src + (i + 1)) cs =
      StringAt-move m m1 (src + i + 1) (src + (i + 1)) cs rest (λ k h.
        update_off m (dst + i) (m (src + i)) (src + (i + 1) + k) (omega arith)
        ∙ ap m (omega arith)) in
    let first : j ≡ dst + i → padded (c ∷ cs) (j - (dst + i)) ≡ c =
      λ (e : j ≡ dst + i). ap (padded (c ∷ cs)) {x = j - (dst + i)} {y = 0} (omega arith) in
    let later : dst + i < j → padded (c ∷ cs) (j - (dst + i)) ≡ padded cs (j - (dst + (i + 1))) =
      λ (h : dst + i < j).
        ap (padded (c ∷ cs)) {x = j - (dst + i)} {y = suc (j - (dst + (i + 1)))} (omega arith) in
    let on : j ≡ dst + i → m1 j ≡ m (src + i) = λ e. update_at m (dst + i) (m (src + i)) j e in
    let off : j ≢ dst + i → m1 j ≡ m j = λ e. update_off m (dst + i) (m (src + i)) j e in
    ground (
      arith,
      first,
      later,
      on,
      off,
      strncpy_from_lem left (i + 1) m1 cs dst src j rest1 (omega arith),
    )

-- On places apart: strncpy writes n bytes, the string's first characters and NULs behind its
-- end, and no other byte.
pub strncpy_lem :
    (m : Bytes) (cs : List ℕ) (dst src n j : ℕ)
    → StringAt m src cs
    → Apart dst n src (suc (length cs))
    → strncpy m dst src n j ≡ (if in_block dst n j then padded cs (j - dst) else m j)
unfolding strncpy
strncpy_lem m cs dst src n j h apart =
    let here : StringAt m (src + 0) cs =
      StringAt-move m m src (src + 0) cs h (λ i k. ap m (omega arith)) in
    let same : padded cs (j - (dst + 0)) ≡ padded cs (j - dst) = ap (padded cs) (omega arith) in
    ground (arith, same, strncpy_from_lem n 0 m cs dst src j here (omega arith))
