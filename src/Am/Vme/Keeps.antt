-- ===== src/Am/Vme/Keeps.antt =====
-- What a walk and a write to an entry leave of the tree and of the addresses that it translates.
use model_lib.Base.{
  ℕ, ◌+◌, ◌*◌, ◌/◌, ◌%◌, ◌≤◌, ◌<◌, ◌≡◌, refl, sym, ap, ◌∙◌, ◌≢◌, ◌⊎◌, inl, inr, true, false, none,
  some, List, ◌∷◌, arith, if◌then◌else◌, Bool-cases,
}
use native.Mathlib.Decide.{ℕ_discrete}
use model_lib.Outcome.{ok}
use model_lib.Base.Memory.{Bytes, update_at, update_off}
use model_lib.Am.Vme.{Space, clear, ptwalk, user_flags}
use model_lib.Am.Vme.Words.{pd_index, pt_index, base, present}
use model_lib.Am.Vme.Mmu.{pd_slot, pt_slot, translate, IsPage, entries, IsSpace, IsFreshFor}
use model_lib.Am.Vme.Walk.{
  clear_at, clear_off, grown, next_table-present, next_table-absent, ptwalk_lem,
}
use model_lib.Am.Vme.Tree.{base-IsAligned, other_page, slot_off, IsTree-agree, IsTree-grown}

-- Two memories that agree on the words that the unit reads.
pub translate-agree :
    (mem mem' : Bytes) (c v : ℕ)
    → mem' (pd_slot (base c) v) ≡ mem (pd_slot (base c) v)
    → (present (mem (pd_slot (base c) v)) ≡ true
        → mem' (pt_slot (base (mem (pd_slot (base c) v))) v)
          ≡ mem (pt_slot (base (mem (pd_slot (base c) v))) v))
    → translate mem' c v ≡ translate mem c v
translate-agree mem mem' c v e h = elim (Bool-cases (present (mem (pd_slot (base c) v)))) [
  | inl there ↦ rw (e, h there) refl
  | inr absent ↦ rw (e, absent) refl
]

-- The unit on the entry that it reads last.
pub translate-entry :
    (mem : Bytes) (c v w : ℕ)
    → present (mem (pd_slot (base c) v)) ≡ true
    → mem (pt_slot (base (mem (pd_slot (base c) v))) v) ≡ w
    → translate mem c v ≡ (if present w then some (base w + v % 4096) else none)
translate-entry mem c v w h e = rw (h, e) refl

translate-absent :
    (mem : Bytes) (c v : ℕ) → present (mem (pd_slot (base c) v)) ≡ false → translate mem c v ≡ none
translate-absent mem c v h = rw h refl

-- An address of another page is no word of the page `p`.
outside_page :
    (a p : ℕ) → p % 4096 ≡ 0 → a / 4096 ≢ p / 4096 → (a < p + 4 * 0) ⊎ (p + 4 * (0 + 1024) ≤ a)
outside_page a p hp ne = ground arith

module _ (slot c k p : ℕ) (ps : List ℕ) (s : Space) (hk : k < 1024) (is_page : IsPage p) where
  abbrev mem1 : Bytes
  mem1 = (grown (base c + 4 * k) p ps s).mem

  -- A word outside of the new page and the entry.
  grown_word :
      (q j : ℕ)
      → q % 4096 ≡ 0
      → j < 1024
      → q ≢ p
      → q + 4 * j ≢ base c + 4 * k
      → mem1 (q + 4 * j) ≡ s.mem (q + 4 * j)
  grown_word q j hq hj ne off =
      update_off (clear 1024 0 p s.mem) (base c + 4 * k) (p + 7) (q + 4 * j) off
      ∙ clear_off 1024 0 p (q + 4 * j) s.mem
          (outside_page (q + 4 * j) p is_page.0 (λ e. ne (omega (arith, hq, is_page.0, e))))

  grown_slot : base slot ≢ base c → base slot ≢ p → mem1 slot ≡ s.mem slot
  grown_slot apart fresh =
      update_off (clear 1024 0 p s.mem) (base c + 4 * k) (p + 7) slot
        (slot_off slot (base c) k (base-IsAligned c).0 (base-IsAligned c).1 hk apart)
      ∙ clear_off 1024 0 p slot s.mem
          (outside_page slot p is_page.0 (λ e. fresh (omega (arith, is_page.0, is_page.1, e))))

  grown_new : (j : ℕ) → j < 1024 → p ≢ base c → mem1 (p + 4 * j) ≡ 0
  grown_new j hj ne =
      update_off (clear 1024 0 p s.mem) (base c + 4 * k) (p + 7) (p + 4 * j)
        (other_page p (base c) j k is_page.0 (base-IsAligned c).0 hj hk ne)
      ∙ clear_at 1024 0 p j s.mem (omega arith) (omega arith)

  grown_entry : mem1 (base c + 4 * k) ≡ p + 7
  grown_entry = update_at (clear 1024 0 p s.mem) (base c + 4 * k) (p + 7) (base c + 4 * k) refl

  grown_entries : (i : ℕ) → i < 1024 → i ≢ k → p ≢ base c → entries mem1 c i ≡ entries s.mem c i
  grown_entries i hi ne fresh =
      grown_word (base c) i (base-IsAligned c).0 hi (λ e. fresh (sym e))
        (λ e. ne (omega (arith, e)))

-- The directory of the slot, and the entry in it for `va`.
abbrev pub entry_of : ℕ → ℕ → Bytes → ℕ
entry_of slot va mem = pd_slot (base (mem slot)) va

abbrev pub Walked : ℕ → ℕ → Space → Type 0
Walked slot va s =
    (s1 : Space) × (ptwalk slot va user_flags s
      ≡ ok (pt_slot (base (s1.mem (entry_of slot va s1.mem))) va, s1))
    × (s1.mem slot ≡ s.mem slot)
    × (present (s1.mem (entry_of slot va s1.mem)) ≡ true)
    × IsSpace slot s1.mem
    × ((v : ℕ) → translate s1.mem (s.mem slot) v ≡ translate s.mem (s.mem slot) v)

walk_present :
    (slot va : ℕ) (s : Space)
    → IsSpace slot s.mem
    → present (s.mem (entry_of slot va s.mem)) ≡ true
    → Walked slot va s
walk_present slot va s t h = (
  s,
  ptwalk_lem slot va (base (s.mem slot)) (base (s.mem (entry_of slot va s.mem))) user_flags s s
      (next_table-present slot user_flags s t.pointer)
      (next_table-present (entry_of slot va s.mem) user_flags s h),
  refl,
  h,
  t,
  λ v. refl,
)

module _ (slot va p : ℕ) (ps : List ℕ) (s : Space) (t : IsSpace slot s.mem)
    (f : IsFreshFor p slot s.mem) (absent : present (s.mem (entry_of slot va s.mem)) ≡ false) where
  abbrev c : ℕ
  c = s.mem slot

  abbrev k : ℕ
  k = pd_index va

  hk : k < 1024
  hk = omega arith

  abbrev s1 : Space
  s1 = grown (base c + 4 * k) p ps s

  same_slot : s1.mem slot ≡ c
  same_slot = grown_slot slot c k p ps s hk f.page t.slot_apart (λ e. f.no_slot (sym e))

  new_entry : s1.mem (base c + 4 * k) ≡ p + 7
  new_entry = grown_entry slot c k p ps s hk f.page

  base-new : base (p + 7) ≡ p
  base-new = omega (arith, f.page.0, f.page.1)

  present-new : present (p + 7) ≡ true
  present-new = ground (arith, f.page.0)

  translate-grown : (v : ℕ) → translate s1.mem c v ≡ translate s.mem c v
  translate-grown v = elim (ℕ_discrete (pd_index v) k) [
    | yes same ↦
        let slots : pd_slot (base c) v ≡ base c + 4 * k = omega (arith, same) in
        let pde : s1.mem (pd_slot (base c) v) ≡ p + 7 = ap s1.mem slots ∙ new_entry in
        let empty : s1.mem (pt_slot (base (s1.mem (pd_slot (base c) v))) v) ≡ 0 =
          ap (λ (b : ℕ). s1.mem (pt_slot b v)) (ap base pde ∙ base-new)
          ∙ grown_new slot c k p ps s hk f.page (pt_index v) (omega arith) f.no_directory in
        translate-entry s1.mem c v 0 (ap present pde ∙ present-new) empty
        ∙ sym (translate-absent s.mem c v (ap (λ (a : ℕ). present (s.mem a)) slots ∙ absent))
    | no ne ↦
        translate-agree s.mem s1.mem c v
          (grown_entries slot c k p ps s hk f.page (pd_index v) (omega arith) ne f.no_directory)
          (λ there.
            grown_word slot c k p ps s hk f.page (base (s.mem (pd_slot (base c) v))) (pt_index v)
              (base-IsAligned (s.mem (pd_slot (base c) v))).0 (omega arith)
              (λ e. f.no_table (pd_index v) (omega arith, there) (sym e))
              (other_page (base (s.mem (pd_slot (base c) v))) (base c) (pt_index v) k
                (base-IsAligned (s.mem (pd_slot (base c) v))).0 (base-IsAligned c).0 (omega arith)
                hk (t.directory (pd_index v) (omega arith, there))))
  ]

  IsSpace-grown : IsSpace slot s1.mem
  IsSpace-grown =
      IsTree-agree slot c (s1.mem slot) (entries s1.mem c) (entries s1.mem (s1.mem slot)) same_slot
        (λ i h. ap (λ (w : ℕ). entries s1.mem w i) same_slot)
        (IsTree-grown slot c k p (entries s.mem c) (entries s1.mem c) new_entry
          (λ i h ne. grown_entries slot c k p ps s hk f.page i h ne f.no_directory) f t)

  walk_absent : s.pages ≡ p ∷ ps → Walked slot va s
  walk_absent e =
      let at_entry : s1.mem (entry_of slot va s1.mem) ≡ p + 7 =
        ap (λ (w : ℕ). s1.mem (pd_slot (base w) va)) same_slot ∙ new_entry in
      (
        s1,
        ptwalk_lem slot va (base c) p user_flags s s1
              (next_table-present slot user_flags s t.pointer)
              (next_table-absent (base c + 4 * k) p ps s absent e f.page)
            ∙ ap (λ (b : ℕ). ok (pt_slot b va, s1)) (sym (ap base at_entry ∙ base-new)),
        same_slot,
        ap present at_entry ∙ present-new,
        IsSpace-grown,
        translate-grown,
      )

-- A walk in a tree whose next page is fresh.
pub walk :
    (slot va p : ℕ) (ps : List ℕ) (s : Space)
    → IsSpace slot s.mem
    → s.pages ≡ p ∷ ps
    → IsFreshFor p slot s.mem
    → Walked slot va s
walk slot va p ps s t e f = elim (Bool-cases (present (s.mem (entry_of slot va s.mem)))) [
  | inl there ↦ walk_present slot va s t there
  | inr absent ↦ walk_absent slot va p ps s t f absent e
]
