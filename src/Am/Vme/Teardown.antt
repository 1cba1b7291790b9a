-- ===== src/Am/Vme/Teardown.antt =====
-- What unprotect gives back.
use model_lib.Base.{
  ℕ, zero, suc, ◌+◌, ◌*◌, ◌≡◌, refl, sym, ap, ◌∙◌, inl, inr, Bool, true, false, ◌&&◌, List, [], ◌∷◌,
  ◌++◌, arith, if◌then◌else◌, Bool-cases,
}
use mathlib.Core.List.{append-nil, append_assoc}
use model_lib.Base.Memory.{Bytes}
use model_lib.Am.Vme.{
  Space, PtInfo, cr3_info, pd_info, pt_info, pte_p, pte_u, has, load, teardown, teardown_from,
  unprotect,
}
use model_lib.Am.Vme.Words.{base, baseof_lem}

-- An entry that is present and for the program.
abbrev pub is_user : ℕ → Bool
is_user w = has w pte_p && has w pte_u

-- The pages that such entries point to, from entry `i` on.
abbrev pub user_tables : ℕ → ℕ → ℕ → Bytes → List ℕ
user_tables zero i pd mem = []
user_tables (suc left) i pd mem =
    if is_user (mem (pd + 4 * i))
    then base (mem (pd + 4 * i)) ∷ user_tables left (i + 1) pd mem
    else user_tables left (i + 1) pd mem

abbrev add_freed : List ℕ → Space → Space
add_freed ps s = record s { freed = s.freed ++ ps }

-- The last level has no pages of its own to go down to.
leaf : (left index pt : ℕ) (s : Space) → teardown_from (teardown [] 3) left index pt s ≡ s
unfolding teardown_from teardown load
leaf zero index pt s = refl
leaf (suc left) index pt s = elim (Bool-cases (is_user (s.mem (pt + 4 * index)))) [
  | inl yes_ ↦ rw yes_ (leaf left (index + 1) pt s)
  | inr no_ ↦ rw no_ (leaf left (index + 1) pt s)
]

teardown-table : (pt : ℕ) (s : Space) → teardown (pt_info ∷ []) 2 pt s ≡ add_freed (pt ∷ []) s
unfolding teardown
teardown-table pt s = ap (add_freed (pt ∷ [])) (leaf 1024 0 pt s)

tables :
    (left index pd : ℕ) (s : Space)
    → teardown_from (teardown (pt_info ∷ []) 2) left index pd s
      ≡ add_freed (user_tables left index pd s.mem) s
unfolding teardown_from load
tables zero index pd s = ap (λ (l : List ℕ). record s { freed = l }) (sym (append-nil s.freed))
tables (suc left) index pd s = elim (Bool-cases (is_user (s.mem (pd + 4 * index)))) [
  | inl yes_ ↦
      let w = s.mem (pd + 4 * index) in
      rw (yes_, baseof_lem w, teardown-table (base w) s)
        (tables left (index + 1) pd (add_freed (base w ∷ []) s)
          ∙ ap (λ (l : List ℕ). record s { freed = l })
              (append_assoc s.freed (base w ∷ []) (user_tables left (index + 1) pd s.mem)))
  | inr no_ ↦ rw no_ (tables left (index + 1) pd s)
]

teardown-directory :
    (pd : ℕ) (s : Space)
    → teardown (pd_info ∷ pt_info ∷ []) 1 pd s
      ≡ add_freed (user_tables 1024 0 pd s.mem ++ (pd ∷ [])) s
unfolding teardown
teardown-directory pd s =
    ap (add_freed (pd ∷ [])) (tables 1024 0 pd s)
    ∙ ap (λ (l : List ℕ). record s { freed = l })
        (append_assoc s.freed (user_tables 1024 0 pd s.mem) (pd ∷ []))

-- The loop over a single entry.
one_entry :
    (down : ℕ → Space → Space) (pt : ℕ) (s : Space)
    → teardown_from down 1 0 pt s ≡ (if is_user (s.mem pt) then down (base (s.mem pt)) s else s)
unfolding teardown_from load
one_entry down pt s =
    let here : pt + 4 * 0 ≡ pt = omega arith in rw (here, baseof_lem (s.mem pt)) refl

teardown-slot :
    (infos : List PtInfo) (slot : ℕ) (s : Space)
    → teardown (cr3_info ∷ infos) 0 slot s
      ≡ (if is_user (s.mem slot) then teardown infos 1 (base (s.mem slot)) s else s)
unfolding teardown
teardown-slot infos slot s = one_entry (teardown infos 1) slot s

freed_if :
    (b : Bool) (ps : List ℕ) (s : Space)
    → (if b then add_freed ps s else s) ≡ add_freed (if b then ps else []) s
freed_if true ps s = refl
freed_if false ps s = ap (λ (l : List ℕ). record s { freed = l }) (sym (append-nil s.freed))

-- For every memory: if the word of an address space is present and for the program, unprotect
-- gives back the tables that such entries of its directory point to, in the order of the entries,
-- and then the directory; else nothing. It writes no memory and frees no page of the program.
pub unprotect_lem :
    (slot : ℕ) (s : Space)
    → unprotect slot s ≡ record s {
      freed =
          s.freed
          ++ (if is_user (s.mem slot)
              then user_tables 1024 0 (base (s.mem slot)) s.mem ++ (base (s.mem slot) ∷ [])
              else []);
    }
unfolding unprotect
unprotect_lem slot s =
    teardown-slot (pd_info ∷ pt_info ∷ []) slot s
    ∙ ap (λ (t : Space). if is_user (s.mem slot) then t else s)
        (teardown-directory (base (s.mem slot)) s)
    ∙ freed_if (is_user (s.mem slot))
        (user_tables 1024 0 (base (s.mem slot)) s.mem ++ (base (s.mem slot) ∷ [])) s
