-- ===== src/Am/Vme/Walk.antt =====
-- What ptwalk does on a tree of page tables.
use model_lib.Base.{
  ℕ, zero, suc, ◌+◌, ◌*◌, ◌/◌, ◌≤◌, ◌<◌, bit_or, ◌≡◌, refl, ap, ◌∙◌, ◌⊎◌, inl, true, false, List,
  ◌∷◌, arith, ◌!=◌,
}
use native.Mathlib.Decide.{ℕ_discrete}
use model_lib.Outcome.{ok}
use model_lib.Base.Memory.{Bytes, update, update_at, update_off}
use model_lib.Am.Vme.{
  Space, pte_p, user_flags, load, store, clear, pgallocz, next_table, ptwalk_from, ptwalk,
}
use model_lib.Am.Vme.Words.{
  base, present, indexof-cr3, indexof-pd, indexof-pt, baseof_lem, has-present, table_entry,
}
use model_lib.Am.Vme.Mmu.{pd_slot, pt_slot, IsPage}

-- The words outside of a cleared page, and those inside.
pub clear_off :
    (left i base a : ℕ) (m : Bytes)
    → (a < base + 4 * i) ⊎ (base + 4 * (i + left) ≤ a)
    → clear left i base m a ≡ m a
unfolding clear
clear_off zero i base a m h = refl
clear_off (suc left) i base a m h =
    clear_off left (i + 1) base a (update m (base + 4 * i) 0) (ground arith)
    ∙ update_off m (base + 4 * i) 0 a (ground arith)

pub clear_at :
    (left i base k : ℕ) (m : Bytes) → i ≤ k → k < i + left → clear left i base m (base + 4 * k) ≡ 0
unfolding clear
clear_at zero i base k m low high = absurd (omega arith)
clear_at (suc left) i base k m low high = elim (ℕ_discrete i k) [
  | yes same ↦
      clear_off left (i + 1) base (base + 4 * k) (update m (base + 4 * i) 0) (inl (omega arith))
      ∙ update_at m (base + 4 * i) 0 (base + 4 * k) (omega (arith, same))
  | no ne ↦
      clear_at left (i + 1) base k (update m (base + 4 * i) 0) (omega (arith, ne)) (omega arith)
]

pub next_table-present :
    (entry flags : ℕ) (s : Space)
    → present (s.mem entry) ≡ true
    → next_table entry flags s ≡ ok (base (s.mem entry), s)
unfolding next_table load
next_table-present entry flags s h =
    rw (has-present (s.mem entry), h, baseof_lem (s.mem entry)) refl

-- The state after a page was taken for the word at `entry`.
abbrev pub grown : ℕ → ℕ → List ℕ → Space → Space
grown entry p ps s = record s { mem = update (clear 1024 0 p s.mem) entry (p + 7); pages = ps }

pub next_table-absent :
    (entry p : ℕ) (ps : List ℕ) (s : Space)
    → present (s.mem entry) ≡ false
    → s.pages ≡ p ∷ ps
    → IsPage p
    → next_table entry user_flags s ≡ ok (p, grown entry p ps s)
unfolding next_table load store pgallocz
next_table-absent entry p ps s h e page =
    let nonzero : (p != 0) ≡ true = ground arith in
    let multiple : p ≡ p / 4096 * 4096 = omega (arith, page.0) in
    let word : bit_or (bit_or p pte_p) user_flags ≡ p + 7 =
      ap (λ (t : ℕ). bit_or (bit_or t pte_p) user_flags) multiple
      ∙ table_entry (p / 4096)
      ∙ omega (arith, page.0) in
    rw (has-present (s.mem entry), h, e, nonzero, word) refl

-- The slot points to a directory, which points to a table.
pub ptwalk_lem :
    (slot va pd pt : ℕ) (flags : ℕ) (s s' : Space)
    → next_table slot flags s ≡ ok (pd, s)
    → next_table (pd_slot pd va) flags s ≡ ok (pt, s')
    → ptwalk slot va flags s ≡ ok (pt_slot pt va, s')
unfolding ptwalk ptwalk_from
ptwalk_lem slot va pd pt flags s s' h hd =
    let zero_off : slot + 4 * 0 ≡ slot = omega arith in
    rw (indexof-cr3 va, zero_off, h, indexof-pd va, hd, indexof-pt va) refl
