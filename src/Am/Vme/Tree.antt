-- ===== src/Am/Vme/Tree.antt =====
-- Writes to a tree of page tables that keep it one.
use model_lib.Base.{ℕ, ◌+◌, ◌*◌, ◌%◌, ◌^◌, ◌<◌, ◌≡◌, sym, ap, ◌∙◌, ◌≢◌, arith}
use native.Mathlib.Decide.{ℕ_discrete}
use model_lib.Am.Vme.Words.{base, present}
use model_lib.Am.Vme.Mmu.{IsEntry, IsTree, IsFresh}

pub base-IsAligned : (w : ℕ) → (base w % 4096 ≡ 0) × (base w < 2 ^ 32)
base-IsAligned w = (omega arith, omega arith)

-- Words of different pages have different addresses.
pub other_page :
    (p q i j : ℕ)
    → p % 4096 ≡ 0
    → q % 4096 ≡ 0
    → i < 1024
    → j < 1024
    → p ≢ q
    → p + 4 * i ≢ q + 4 * j
other_page p q i j hp hq hi hj ne e = ne (omega (arith, hp, hq, e))

pub base-word : (p i : ℕ) → p % 4096 ≡ 0 → p < 2 ^ 32 → i < 1024 → base (p + 4 * i) ≡ p
base-word p i h small hi = omega (arith, h)

-- The slot is no word of another page.
pub slot_off :
    (slot p i : ℕ) → p % 4096 ≡ 0 → p < 2 ^ 32 → i < 1024 → base slot ≢ p → slot ≢ p + 4 * i
slot_off slot p i h small hi ne e = ne (ap base e ∙ base-word p i h small hi)

pub IsTree-agree :
    (slot c c' : ℕ) (d d' : ℕ → ℕ)
    → c' ≡ c
    → ((i : ℕ) → i < 1024 → d' i ≡ d i)
    → IsTree slot c d
    → IsTree slot c' d'
IsTree-agree slot c c' d d' ec ed t = record {
  pointer = ap present ec ∙ t.pointer;
  slot_apart = λ e. t.slot_apart (e ∙ ap base ec);
  slot_table = λ i h e. t.slot_table i (old i h) (e ∙ ap base (ed i h.0));
  directory = λ i h e. t.directory i (old i h) (sym (ap base (ed i h.0)) ∙ e ∙ ap base ec);
  apart = λ i j h k ne e.
      t.apart i j (old i h) (old j k) ne (sym (ap base (ed i h.0)) ∙ e ∙ ap base (ed j k.0));
}
  where
    old : (i : ℕ) → IsEntry d' i → IsEntry d i
    old i h = (h.0, ap present (sym (ed i h.0)) ∙ h.1)

-- A table that is new at entry `k`.
pub IsTree-grown :
    (slot c k p : ℕ) (d d' : ℕ → ℕ)
    → d' k ≡ p + 7
    → ((i : ℕ) → i < 1024 → i ≢ k → d' i ≡ d i)
    → IsFresh p slot c d
    → IsTree slot c d
    → IsTree slot c d'
IsTree-grown slot c k p d d' ek ed f t = record {
  pointer = t.pointer;
  slot_apart = t.slot_apart;
  slot_table = λ i h. elim (ℕ_discrete i k) [
    | yes same ↦ λ e. f.no_slot (sym (new i same) ∙ sym e)
    | no ne ↦ λ e. t.slot_table i (old i h ne) (e ∙ ap base (ed i h.0 ne))
  ];
  directory = λ i h. elim (ℕ_discrete i k) [
    | yes same ↦ λ e. f.no_directory (sym (new i same) ∙ e)
    | no ne ↦ λ e. t.directory i (old i h ne) (sym (ap base (ed i h.0 ne)) ∙ e)
  ];
  apart = λ i j h m ij. elim (ℕ_discrete i k) [
    | yes same ↦ λ e.
        let jk : j ≢ k = λ jk. ij (same ∙ sym jk) in
        f.no_table j (old j m jk) (sym (new i same) ∙ e ∙ ap base (ed j m.0 jk))
    | no ne ↦ elim (ℕ_discrete j k) [
      | yes same ↦ λ e. f.no_table i (old i h ne) (sym (new j same) ∙ sym e ∙ ap base (ed i h.0 ne))
      | no nj ↦ λ e.
          t.apart i j (old i h ne) (old j m nj) ij
            (sym (ap base (ed i h.0 ne)) ∙ e ∙ ap base (ed j m.0 nj))
    ]
  ];
}
  where
    old : (i : ℕ) → IsEntry d' i → i ≢ k → IsEntry d i
    old i h ne = (h.0, ap present (sym (ed i h.0 ne)) ∙ h.1)

    new : (i : ℕ) → i ≡ k → base (d' i) ≡ p
    new i same = ap base (ap d' same ∙ ek) ∙ omega (arith, f.page.0, f.page.1)
