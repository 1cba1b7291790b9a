-- ===== src/Am/Vme/Translation.antt =====
-- map against the memory management unit.
use model_lib.Base.{
  ℕ, ◌+◌, ◌/◌, ◌%◌, ◌^◌, ◌<◌, ◌≡◌, refl, sym, ap, ◌∙◌, ◌≢◌, inl, inr, Bool, true, false, not, none,
  some, List, ◌∷◌, arith, if◌then◌else◌, ==_of_ne, Bool-cases,
}
use model_lib.Outcome.{ok, panic}
use model_lib.Base.Memory.{Bytes, update}
use model_lib.Am.Vme.{Space, mmap_none, mmap_write, has, map_page}
use model_lib.Am.Vme.Words.{base, present}
use model_lib.Am.Vme.Mmu.{pd_slot, pt_slot, translate, IsSpace, IsFreshFor}
use model_lib.Am.Vme.Keeps.{entry_of, walk}
use model_lib.Am.Vme.Map.{
  IsUserPage, written-slot, written-IsSpace, written-translate, written-others, written-walk,
  map_page-walk, set_entry-free, set_entry-none, set_entry-misuse,
}

-- The unit on an entry that is present.
translate-present :
    (mem : Bytes) (c v w : ℕ)
    → present (mem (pd_slot (base c) v)) ≡ true
    → mem (pt_slot (base (mem (pd_slot (base c) v))) v) ≡ w
    → present w ≡ true
    → translate mem c v ≡ some (base w + v % 4096)
translate-present mem c v w h e there = rw (h, e, there) refl

translate-absent :
    (mem : Bytes) (c v w : ℕ)
    → present (mem (pd_slot (base c) v)) ≡ true
    → mem (pt_slot (base (mem (pd_slot (base c) v))) v) ≡ w
    → present w ≡ false
    → translate mem c v ≡ none
translate-absent mem c v w h e absent = rw (h, e, absent) refl

-- A page fault at a page whose table is there is an entry that is not present.
unmapped_entry :
    (mem : Bytes) (c v : ℕ)
    → present (mem (pd_slot (base c) v)) ≡ true
    → translate mem c v ≡ none
    → present (mem (pt_slot (base (mem (pd_slot (base c) v))) v)) ≡ false
unmapped_entry mem c v h e =
    elim (Bool-cases (present (mem (pt_slot (base (mem (pd_slot (base c) v))) v)))) [
      | inl there ↦ cc (translate-present mem c v _ h refl there, e)
      | inr absent ↦ absent
    ]

page_word :
    (pa : ℕ) (b : Bool)
    → pa % 4096 ≡ 0
    → pa < 2 ^ 32
    → (present (pa + (if b then 7 else 5)) ≡ true) × (base (pa + (if b then 7 else 5)) ≡ pa)
page_word pa true h small = (ground arith, omega (arith, h))
page_word pa false h small = (ground arith, omega (arith, h))

-- On an address space whose directory, tables and word lie in different pages, and whose next page
-- of pgalloc is another one: if a page of the program's area is not mapped yet, then map to a page
-- of the memory, with read or write permission, returns; the pages of the address space still lie
-- apart, and its word is as before; every address of the page is translated to the one with the
-- same offset in the page of the memory, and every address of another page as before.
pub map_page-translate :
    (slot va pa prot p : ℕ) (ps : List ℕ) (s : Space)
    → IsSpace slot s.mem
    → s.pages ≡ p ∷ ps
    → IsFreshFor p slot s.mem
    → IsUserPage va
    → pa % 4096 ≡ 0
    → pa < 2 ^ 32
    → prot ≢ mmap_none
    → translate s.mem (s.mem slot) va ≡ none
    → (s' : Space) × (map_page slot va pa prot s ≡ ok s')
      × IsSpace slot s'.mem
      × (s'.mem slot ≡ s.mem slot)
      × ((off : ℕ) → off < 4096 → translate s'.mem (s.mem slot) (va + off) ≡ some (pa + off))
      × ((v : ℕ)
          → v < 2 ^ 32
          → v / 4096 ≢ va / 4096
          → translate s'.mem (s.mem slot) v ≡ translate s.mem (s.mem slot) v)
map_page-translate slot va pa prot p ps s t e f user ha small used fault =
    let (s1, walked, same, there, t1, agree) = walk slot va p ps s t e f in
    let entry = pt_slot (base (s1.mem (entry_of slot va s1.mem))) va in
    let w = pa + (if has prot mmap_write then 7 else 5) in
    let fault1 : translate s1.mem (s1.mem slot) va ≡ none =
      ap (λ (c : ℕ). translate s1.mem c va) same ∙ agree va ∙ fault in
    let free = unmapped_entry s1.mem (s1.mem slot) va there fault1 in
    let s2 : Space = record s1 { mem = update s1.mem entry w } in
    let (again, walked2) = written-walk slot va w s1.mem t1 there s1 in
    let (there_w, base_w) = page_word pa (has prot mmap_write) ha small in
    (
      s2,
      map_page-walk slot va pa prot entry s s1 user ha small walked
          ∙ rw (set_entry-free entry pa prot s1 used ha free, walked2) refl,
      written-IsSpace slot va w s1.mem t1 there,
      written-slot slot va w s1.mem t1 there ∙ same,
      λ off h.
          ap (λ (c : ℕ). translate s2.mem c (va + off)) (sym same)
          ∙ written-translate slot va w s1.mem t1 there (va + off) (omega (arith, user.0))
          ∙ rw (there_w, base_w) (ap some (omega (arith, user.0))),
      λ v hv ne.
          ap (λ (c : ℕ). translate s2.mem c v) (sym same)
          ∙ written-others slot va w s1.mem t1 there v hv (omega (arith, user.2)) ne
          ∙ ap (λ (c : ℕ). translate s1.mem c v) same
          ∙ agree v,
    )

mapped_entry :
    (mem : Bytes) (c v x : ℕ)
    → present (mem (pd_slot (base c) v)) ≡ true
    → translate mem c v ≡ some x
    → present (mem (pt_slot (base (mem (pd_slot (base c) v))) v)) ≡ true
mapped_entry mem c v x h e =
    elim (Bool-cases (present (mem (pt_slot (base (mem (pd_slot (base c) v))) v)))) [
      | inl there ↦ there
      | inr absent ↦ cc (translate-absent mem c v _ h refl absent, e)
    ]

-- On the same address spaces: if a page of the program's area is mapped, then map with MMAP_NONE
-- returns; the pages still lie apart and the word is as before; every address of the page is a
-- page fault, and every address of another page is translated as before.
pub map_page-unmap :
    (slot va pa p x : ℕ) (ps : List ℕ) (s : Space)
    → IsSpace slot s.mem
    → s.pages ≡ p ∷ ps
    → IsFreshFor p slot s.mem
    → IsUserPage va
    → pa % 4096 ≡ 0
    → pa < 2 ^ 32
    → translate s.mem (s.mem slot) va ≡ some x
    → (s' : Space) × (map_page slot va pa mmap_none s ≡ ok s')
      × IsSpace slot s'.mem
      × (s'.mem slot ≡ s.mem slot)
      × ((v : ℕ) → v / 4096 ≡ va / 4096 → translate s'.mem (s.mem slot) v ≡ none)
      × ((v : ℕ)
          → v < 2 ^ 32
          → v / 4096 ≢ va / 4096
          → translate s'.mem (s.mem slot) v ≡ translate s.mem (s.mem slot) v)
map_page-unmap slot va pa p x ps s t e f user ha small mapped =
    let (s1, walked, same, there, t1, agree) = walk slot va p ps s t e f in
    let entry = pt_slot (base (s1.mem (entry_of slot va s1.mem))) va in
    let mapped1 : translate s1.mem (s1.mem slot) va ≡ some x =
      ap (λ (c : ℕ). translate s1.mem c va) same ∙ agree va ∙ mapped in
    let used = mapped_entry s1.mem (s1.mem slot) va x there mapped1 in
    let s2 : Space = record s1 { mem = update s1.mem entry 0 } in
    let (again, walked2) = written-walk slot va 0 s1.mem t1 there s1 in
    (
      s2,
      map_page-walk slot va pa mmap_none entry s s1 user ha small walked
          ∙ rw (set_entry-none entry pa s1 used, walked2) refl,
      written-IsSpace slot va 0 s1.mem t1 there,
      written-slot slot va 0 s1.mem t1 there ∙ same,
      λ v h.
          ap (λ (c : ℕ). translate s2.mem c v) (sym same)
          ∙ written-translate slot va 0 s1.mem t1 there v h,
      λ v hv ne.
          ap (λ (c : ℕ). translate s2.mem c v) (sym same)
          ∙ written-others slot va 0 s1.mem t1 there v hv (omega (arith, user.2)) ne
          ∙ ap (λ (c : ℕ). translate s1.mem c v) same
          ∙ agree v,
    )

-- On the same address spaces: map panics where it is to unmap a page that is not mapped, and where
-- it is to map a page that is.
pub map_page-misuse :
    (slot va pa prot p : ℕ) (ps : List ℕ) (s : Space)
    → IsSpace slot s.mem
    → s.pages ≡ p ∷ ps
    → IsFreshFor p slot s.mem
    → IsUserPage va
    → pa % 4096 ≡ 0
    → pa < 2 ^ 32
    → (translate s.mem (s.mem slot) va ≡ none → map_page slot va pa mmap_none s ≡ panic)
      × ((x : ℕ)
          → translate s.mem (s.mem slot) va ≡ some x
          → prot ≢ mmap_none
          → map_page slot va pa prot s ≡ panic)
map_page-misuse slot va pa prot p ps s t e f user ha small =
    let (s1, walked, same, there, t1, agree) = walk slot va p ps s t e f in
    let entry = pt_slot (base (s1.mem (entry_of slot va s1.mem))) va in
    let agree1 : translate s1.mem (s1.mem slot) va ≡ translate s.mem (s.mem slot) va =
      ap (λ (c : ℕ). translate s1.mem c va) same ∙ agree va in
    (
      λ fault.
          map_page-walk slot va pa mmap_none entry s s1 user ha small walked
          ∙ rw
              (set_entry-misuse entry pa mmap_none s1
                (unmapped_entry s1.mem (s1.mem slot) va there (agree1 ∙ fault)))
              refl,
      λ x mapped used.
          map_page-walk slot va pa prot entry s s1 user ha small walked
          ∙ rw
              (set_entry-misuse entry pa prot s1 (
                mapped_entry s1.mem (s1.mem slot) va x there (agree1 ∙ mapped)
                ∙ ap not (sym (==_of_ne prot mmap_none used))))
              refl,
    )
