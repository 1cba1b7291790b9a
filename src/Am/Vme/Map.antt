-- ===== src/Am/Vme/Map.antt =====
-- What map does to the addresses that the unit translates.
use model_lib.Base.{
  ℕ, ◌+◌, ◌*◌, ◌/◌, ◌%◌, ◌^◌, ◌≤◌, ◌<◌, bit_or, ◌≡◌, refl, sym, ap, ap₂, ◌∙◌, ◌≢◌, inl, inr, true,
  false, not, none, some, arith, ◌==◌, if◌then◌else◌, ==_of_ne, Bool-cases,
}
use native.Mathlib.Decide.{ℕ_discrete}
use model_lib.Base.Bits.{bit_and_high}
use model_lib.Outcome.{ok, panic, ◌>>=◌}
use model_lib.Base.Memory.{Bytes, update, update_at, update_off}
use model_lib.Am.Vme.{
  Space, pte_p, pte_w, pte_u, mmap_none, mmap_write, user_flags, has, in_range, rounddown, uvm_area,
  load, store, ptwalk, set_entry, map_page,
}
use model_lib.Am.Vme.Words.{pd_index, pt_index, base, present, has-present, page_entry}
use model_lib.Am.Vme.Mmu.{pd_slot, pt_slot, translate, entries, IsEntry, IsSpace}
use model_lib.Am.Vme.Walk.{next_table-present, ptwalk_lem}
use model_lib.Am.Vme.Tree.{base-IsAligned, other_page, slot_off, IsTree-agree}
use model_lib.Am.Vme.Keeps.{translate-agree, translate-entry, entry_of}

-- A page of the addresses of a program.
abbrev pub IsUserPage : ℕ → Type 0
IsUserPage va = (va % 4096 ≡ 0) × (0x40000000 ≤ va) × (va < 0x80000000)

-- A write of `w` to the entry for `va` of a tree that has a table for it.
module _ (slot va w : ℕ) (mem : Bytes) (t : IsSpace slot mem)
    (there : present (mem (entry_of slot va mem)) ≡ true) where
  abbrev c : ℕ
  c = mem slot

  abbrev pt : ℕ
  pt = base (mem (pd_slot (base c) va))

  abbrev mem2 : Bytes
  mem2 = update mem (pt_slot pt va) w

  is_entry : IsEntry (entries mem c) (pd_index va)
  is_entry = (omega arith, there)

  pub written-slot : mem2 slot ≡ c
  written-slot = update_off mem (pt_slot pt va) w slot (
      slot_off slot pt (pt_index va) (base-IsAligned _).0 (base-IsAligned _).1 (omega arith)
        (t.slot_table (pd_index va) is_entry))

  written-entries : (i : ℕ) → i < 1024 → entries mem2 c i ≡ entries mem c i
  written-entries i h = update_off mem (pt_slot pt va) w (base c + 4 * i) (
      other_page (base c) pt i (pt_index va) (base-IsAligned c).0 (base-IsAligned _).0 h
        (omega arith) (λ e. t.directory (pd_index va) is_entry (sym e)))

  pub written-IsSpace : IsSpace slot mem2
  written-IsSpace =
      IsTree-agree slot c (mem2 slot) (entries mem c) (entries mem2 (mem2 slot)) written-slot
        (λ i h. ap (λ (x : ℕ). entries mem2 x i) written-slot ∙ written-entries i h) t

  -- The address itself, and those of other pages.
  pub written-translate :
      (v : ℕ)
      → v / 4096 ≡ va / 4096
      → translate mem2 c v ≡ (if present w then some (base w + v % 4096) else none)
  written-translate v e =
      let same_pd : pd_index v ≡ pd_index va = omega (arith, e) in
      let same_pt : pt_index v ≡ pt_index va = ap (λ (x : ℕ). x % 1024) e in
      let pde : mem2 (pd_slot (base c) v) ≡ mem (pd_slot (base c) va) =
        written-entries (pd_index v) (omega arith) ∙ ap (entries mem c) same_pd in
      translate-entry mem2 c v w (ap present pde ∙ there) (
        ap₂ (λ (b j : ℕ). mem2 (b + 4 * j)) (ap base pde) same_pt
        ∙ update_at mem (pt_slot pt va) w (pt_slot pt va) refl)

  pub written-others :
      (v : ℕ)
      → v < 2 ^ 32
      → va < 2 ^ 32
      → v / 4096 ≢ va / 4096
      → translate mem2 c v ≡ translate mem c v
  written-others v small small_va ne =
      translate-agree mem mem2 c v (written-entries (pd_index v) (omega arith)) (λ there_v.
        update_off mem (pt_slot pt va) w (pt_slot (base (mem (pd_slot (base c) v))) v)
          (elim (ℕ_discrete (pd_index v) (pd_index va)) [
            | yes same ↦ λ e.
                let tables : base (mem (pd_slot (base c) v)) ≡ pt =
                  ap (λ (i : ℕ). base (entries mem c i)) same in
                ne (omega (arith, same, e, tables))
            | no other ↦
                other_page (base (mem (pd_slot (base c) v))) pt (pt_index v) (pt_index va)
                  (base-IsAligned _).0 (base-IsAligned _).0 (omega arith) (omega arith)
                  (t.apart (pd_index v) (pd_index va) (omega arith, there_v) is_entry other)
          ]))

  -- Another walk leaves all as it is.
  pub written-walk :
      (s : Space)
      → (e : ℕ) × (ptwalk slot va user_flags (record s { mem = mem2 })
          ≡ ok (e, record s { mem = mem2 }))
  written-walk s =
      let s2 : Space = record s { mem = mem2 } in
      let pde : mem2 (entry_of slot va mem2) ≡ mem (pd_slot (base c) va) =
        ap (λ (x : ℕ). mem2 (pd_slot (base x) va)) written-slot
        ∙ written-entries (pd_index va) (omega arith) in
      (
        _,
        ptwalk_lem slot va (base (mem2 slot)) (base (mem2 (entry_of slot va mem2))) user_flags s2 s2
            (next_table-present slot user_flags s2 written-IsSpace.pointer)
            (next_table-present (entry_of slot va mem2) user_flags s2 (ap present pde ∙ there)),
      )

rounddown_lem : (a : ℕ) → a % 4096 ≡ 0 → a < 2 ^ 32 → (a == rounddown a) ≡ true
rounddown_lem a h small = ground (arith, bit_and_high 12 20 a)

-- map up to the change of the entry: the address is accepted and the walk made.
pub map_page-walk :
    (slot va pa prot entry : ℕ) (s s1 : Space)
    → IsUserPage va
    → pa % 4096 ≡ 0
    → pa < 2 ^ 32
    → ptwalk slot va user_flags s ≡ ok (entry, s1)
    → map_page slot va pa prot s
      ≡ (do s2 ← set_entry entry pa prot s1; (again, s3) ← ptwalk slot va user_flags s2; ok s3)
unfolding map_page
map_page-walk slot va pa prot entry s s1 user ha small e =
    let in_area : in_range va uvm_area ≡ true = ground (arith, user.1, user.2) in
    rw (in_area, rounddown_lem va user.0 (omega (arith, user.2)), rounddown_lem pa ha small, e) refl

pub set_entry-free :
    (entry pa prot : ℕ) (s : Space)
    → prot ≢ mmap_none
    → pa % 4096 ≡ 0
    → present (s.mem entry) ≡ false
    → set_entry entry pa prot s
      ≡ ok (record s { mem = update s.mem entry (pa + (if has prot mmap_write then 7 else 5)) })
unfolding set_entry load store
set_entry-free entry pa prot s used ha free =
    let page : pa ≡ pa / 4096 * 4096 = omega (arith, ha) in
    let word : bit_or (bit_or (bit_or pa pte_p) pte_u) (if has prot mmap_write then pte_w else 0)
        ≡ pa + (if has prot mmap_write then 7 else 5) =
      ap
        (λ (t : ℕ).
          bit_or (bit_or (bit_or t pte_p) pte_u) (if has prot mmap_write then pte_w else 0))
        page
      ∙ page_entry (pa / 4096) prot
      ∙ ap (λ (t : ℕ). t + (if has prot mmap_write then 7 else 5)) (sym page) in
    rw (==_of_ne prot mmap_none used, has-present (s.mem entry), free, word) refl

pub set_entry-none :
    (entry pa : ℕ) (s : Space)
    → present (s.mem entry) ≡ true
    → set_entry entry pa mmap_none s ≡ ok (record s { mem = update s.mem entry 0 })
unfolding set_entry load store
set_entry-none entry pa s there = rw (has-present (s.mem entry), there) refl

-- The two panics of map behind the walk.
pub set_entry-misuse :
    (entry pa prot : ℕ) (s : Space)
    → present (s.mem entry) ≡ not (prot == mmap_none)
    → set_entry entry pa prot s ≡ panic
unfolding set_entry load
set_entry-misuse entry pa prot s e = elim (Bool-cases (prot == mmap_none)) [
  | inl none_ ↦ rw (has-present (s.mem entry), e, none_) refl
  | inr used ↦ rw (has-present (s.mem entry), e, used) refl
]
