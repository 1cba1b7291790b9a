-- ===== src/Am/Vme/Mmu.antt =====
-- The manual on the memory management unit, and the shape that a tree of page tables has.
use model_lib.Base.{
  ℕ, ◌+◌, ◌*◌, ◌%◌, ◌^◌, ◌<◌, ◌≡◌, ◌≢◌, true, ◌&&◌, Option, none, some, if◌then◌else◌,
}
use model_lib.Base.Memory.{Bytes}
use model_lib.Am.Vme.Words.{pd_index, pt_index, base, present}

-- The entry of the directory `pd` for an address, and that of a table.
abbrev pub pd_slot : ℕ → ℕ → ℕ
pd_slot pd va = pd + 4 * pd_index va

abbrev pub pt_slot : ℕ → ℕ → ℕ
pt_slot pt va = pt + 4 * pt_index va

-- The address in memory that the unit makes of `va`; `none` is a page fault.
abbrev pub translate : Bytes → ℕ → ℕ → Option ℕ
translate mem cr3 va =
    let pde = mem (pd_slot (base cr3) va) in
    let pte = mem (pt_slot (base pde) va) in
    if present pde && present pte then some (base pte + va % 4096) else none

-- A page.
abbrev pub IsPage : ℕ → Type 0
IsPage p = (p % 4096 ≡ 0) × (p < 2 ^ 32) × (0 < p)

-- The entries of the directory that `c` points to.
abbrev pub entries : Bytes → ℕ → ℕ → ℕ
entries mem c i = mem (base c + 4 * i)

abbrev pub IsEntry : (ℕ → ℕ) → ℕ → Type 0
IsEntry d i = (i < 1024) × (present (d i) ≡ true)

-- `c`, the word at `slot`, points to a directory with the entries `d`. The directory, its tables
-- and the word are in different pages.
pub record IsTree (slot c : ℕ) (d : ℕ → ℕ) : Type 0 where
  pub pointer : present c ≡ true
  pub slot_apart : base slot ≢ base c
  pub slot_table : (i : ℕ) → IsEntry d i → base slot ≢ base (d i)
  pub directory : (i : ℕ) → IsEntry d i → base (d i) ≢ base c
  pub apart : (i j : ℕ) → IsEntry d i → IsEntry d j → i ≢ j → base (d i) ≢ base (d j)

-- The page `p` is none of the pages of the tree.
pub record IsFresh (p slot c : ℕ) (d : ℕ → ℕ) : Type 0 where
  pub page : IsPage p
  pub no_slot : p ≢ base slot
  pub no_directory : p ≢ base c
  pub no_table : (i : ℕ) → IsEntry d i → p ≢ base (d i)

-- The tree whose word is at `slot` of the memory.
abbrev pub IsSpace : ℕ → Bytes → Type 0
IsSpace slot mem = IsTree slot (mem slot) (entries mem (mem slot))

abbrev pub IsFreshFor : ℕ → ℕ → Bytes → Type 0
IsFreshFor p slot mem = IsFresh p slot (mem slot) (entries mem (mem slot))
