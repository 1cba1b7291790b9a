-- ===== src/Klib/Strings/Blocks.antt =====
-- The routines on blocks of bytes.
use model_lib.Base.{
  ℕ, zero, suc, ◌+◌, ◌-◌, ◌%◌, ◌≤◌, ◌≡◌, ap, ◌⊎◌, inl, inr, Bool, ◌&&◌, ◌||◌, arith, ltb, leb,
  if◌then◌else◌, Bool-cases,
}
use model_lib.Base.Memory.{Bytes, update}
use model_lib.Klib.Strings.{fill, memset, copy_up, copy_down, memmove, memcpy}

-- The byte at `j` is in the block of `n` bytes at `a`.
abbrev pub in_block : ℕ → ℕ → ℕ → Bool
in_block a n j = leb a j && ltb j (a + n)

pub fill_lem :
    (left i dst c : ℕ) (m : Bytes) (j : ℕ)
    → fill left i dst c m j ≡ (if in_block (dst + i) left j then c else m j)
unfolding fill update
fill_lem zero i dst c m j = ground arith
fill_lem (suc left) i dst c m j =
    ground (arith, fill_lem left (i + 1) dst c (update m (dst + i) c) j)

-- memset writes the low byte of its argument in the block, and nothing else.
pub memset_lem :
    (m : Bytes) (s c n j : ℕ) → memset m s c n j ≡ (if in_block s n j then c % 256 else m j)
unfolding memset
memset_lem m s c n j = ground (arith, fill_lem n 0 s (c % 256) m j)

-- Going up is right when no byte is read after it is written.
copy_up_lem :
    (left i out src : ℕ) (m : Bytes) (j : ℕ)
    → (out ≤ src) ⊎ (src + (i + left) ≤ out)
    → copy_up left i out src m j ≡ (if in_block (out + i) left j then m (src + (j - out)) else m j)
unfolding copy_up update
copy_up_lem zero i out src m j h = ground arith
copy_up_lem (suc left) i out src m j h =
    let same : j ≡ out + i → m (src + (j - out)) ≡ m (src + i) =
      λ (e : j ≡ out + i). ap m (omega arith) in
    ground (
      arith,
      same,
      copy_up_lem left (i + 1) out src (update m (out + i) (m (src + i))) j (ground arith),
    )

copy_down_lem :
    (i out src : ℕ) (m : Bytes) (j : ℕ)
    → src ≤ out
    → copy_down i out src m j ≡ (if in_block out i j then m (src + (j - out)) else m j)
unfolding copy_down update
copy_down_lem zero out src m j h = ground arith
copy_down_lem (suc i) out src m j h =
    let same : j ≡ out + i → m (src + (j - out)) ≡ m (src + i) =
      λ (e : j ≡ out + i). ap m (omega arith) in
    ground (arith, same, copy_down_lem i out src (update m (out + i) (m (src + i))) j h)

-- memmove gives the block at `out` what the block at `src` held before, whichever way the two
-- overlap, and changes nothing else.
pub memmove_lem :
    (m : Bytes) (out src n j : ℕ)
    → memmove m out src n j ≡ (if in_block out n j then m (src + (j - out)) else m j)
unfolding memmove
memmove_lem m out src n j = elim (Bool-cases (leb out src || leb (src + n) out)) [
  | inl up ↦ ground (arith, copy_up_lem n 0 out src m j (ground arith))
  | inr down ↦ ground (arith, copy_down_lem n out src m j (ground arith))
]

-- On blocks that memcpy is for, apart from each other, it does what memmove does.
pub memcpy-memmove :
    (m : Bytes) (out src n j : ℕ)
    → (out + n ≤ src) ⊎ (src + n ≤ out)
    → memcpy m out src n j ≡ memmove m out src n j
unfolding memcpy
memcpy-memmove m out src n j apart =
    ground (arith, memmove_lem m out src n j, copy_up_lem n 0 out src m j (ground arith))
