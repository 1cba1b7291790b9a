-- ===== src/Examples/Paging.antt =====
-- The address spaces of the machine with page tables at a concrete memory.
use model_lib.Base.{
  ℕ, ◌+◌, ◌/◌, ◌^◌, ◌<◌, ◌≡◌, refl, sym, ap, ◌∙◌, ◌≢◌, none, some, [], ◌∷◌, ◌++◌, arith,
  if◌then◌else◌,
}
use model_lib.Outcome.{ok, panic}
use model_lib.Base.Memory.{Bytes, update}
use model_lib.Am.Vme.{Space, mmap_none, map_page, unprotect}
use model_lib.Am.Vme.Words.{base}
use model_lib.Am.Vme.Mmu.{translate, entries, IsEntry, IsSpace, IsFreshFor}
use model_lib.Am.Vme.Teardown.{is_user, user_tables, unprotect_lem}
use model_lib.Am.Vme.Translation.{map_page-translate, map_page-unmap, map_page-misuse}

-- The word at 0x100000 points to a directory at 0x200000, whose entry 256 points to a table at
-- 0x400000, whose first entry is the page at 0x500000.
abbrev memory : Bytes
memory = update (update (update (λ i. 0) 0x100000 0x200007) 0x200400 0x400007) 0x400000 0x500007

abbrev space : Space
space = record { mem = memory; pages = 0x600000 ∷ []; freed = [] }

abbrev slot : ℕ
slot = 0x100000

only_entry : (i : ℕ) → IsEntry (entries memory (memory slot)) i → i ≡ 256
unfolding update
only_entry i h = ground arith

-- The table of every entry.
only_table :
    (i : ℕ)
    → IsEntry (entries memory (memory slot)) i
    → base (entries memory (memory slot) i) ≡ 0x400000
unfolding update
only_table i h = ap (λ (t : ℕ). base (entries memory (memory slot) t)) (only_entry i h)

memory-IsSpace : IsSpace slot memory
unfolding update
memory-IsSpace = record {
  pointer = refl;
  slot_apart = λ e. omega (arith, e);
  slot_table = λ i h e. omega (arith, e, only_table i h);
  directory = λ i h e. omega (arith, e, only_table i h);
  apart = λ i j h k ne e. ne (only_entry i h ∙ sym (only_entry j k));
}

next_page-IsFresh : IsFreshFor 0x600000 slot memory
unfolding update
next_page-IsFresh = record {
  page = (omega arith, omega arith, omega arith);
  no_slot = λ e. omega (arith, e);
  no_directory = λ e. omega (arith, e);
  no_table = λ i h e. omega (arith, e, only_table i h);
}

map_page-translate_example :
    (s' : Space) × (map_page slot 0x40001000 0x700000 2 space ≡ ok s')
    × IsSpace slot s'.mem
    × (s'.mem slot ≡ memory slot)
    × ((off : ℕ)
        → off < 4096
        → translate s'.mem (memory slot) (0x40001000 + off) ≡ some (0x700000 + off))
    × ((v : ℕ)
        → v < 2 ^ 32
        → v / 4096 ≢ 0x40001000 / 4096
        → translate s'.mem (memory slot) v ≡ translate memory (memory slot) v)
unfolding update
map_page-translate_example =
    map_page-translate slot 0x40001000 0x700000 2 0x600000 [] space memory-IsSpace refl
      next_page-IsFresh (omega arith, omega arith, omega arith) (omega arith) (omega arith)
      (λ e. omega (arith, e)) refl

map_page-unmap_example :
    (s' : Space) × (map_page slot 0x40000000 0 mmap_none space ≡ ok s')
    × IsSpace slot s'.mem
    × (s'.mem slot ≡ memory slot)
    × ((v : ℕ) → v / 4096 ≡ 0x40000000 / 4096 → translate s'.mem (memory slot) v ≡ none)
    × ((v : ℕ)
        → v < 2 ^ 32
        → v / 4096 ≢ 0x40000000 / 4096
        → translate s'.mem (memory slot) v ≡ translate memory (memory slot) v)
unfolding update
map_page-unmap_example =
    map_page-unmap slot 0x40000000 0 0x600000 0x500000 [] space memory-IsSpace refl
      next_page-IsFresh (omega arith, omega arith, omega arith) (omega arith) (omega arith) refl

map_page-misuse_example :
    (translate memory (memory slot) 0x40000000 ≡ none
      → map_page slot 0x40000000 0x700000 mmap_none space ≡ panic)
    × ((x : ℕ)
        → translate memory (memory slot) 0x40000000 ≡ some x
        → 1 ≢ mmap_none
        → map_page slot 0x40000000 0x700000 1 space ≡ panic)
map_page-misuse_example =
    map_page-misuse slot 0x40000000 0x700000 1 0x600000 [] space memory-IsSpace refl
      next_page-IsFresh (omega arith, omega arith, omega arith) (omega arith) (omega arith)

unprotect_lem_example : unprotect slot space ≡ record space {
  freed =
      []
      ++ (if is_user (memory slot)
          then user_tables 1024 0 (base (memory slot)) memory ++ (base (memory slot) ∷ [])
          else []);
}
unprotect_lem_example = unprotect_lem slot space
