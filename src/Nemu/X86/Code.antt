-- ===== src/Nemu/X86/Code.antt =====
-- Bytes of a program in memory, and their fetches.
use model_lib.Base.{
  ℕ, suc, ◌+◌, ◌-◌, ◌/◌, ◌%◌, ◌^◌, ◌≤◌, ◌<◌, ◌≡◌, refl, ap, ◌∙◌, List, [], ◌∷◌, arith, length,
  get_or,
}
use model_lib.Base.Words.{u32}
use model_lib.Outcome.{ok}
use model_lib.Nemu.Config.{mbase, msize}
use model_lib.Nemu.Host.{load_le}
use model_lib.Nemu.Paddr.{Mem, vaddr_ifetch}
use model_lib.Nemu.Paddr.Laws.{IsInMemory, paddr_read_pmem}
use model_lib.Nemu.Riscv32.{inst_fetch}

-- The memory holds `code` from `pc` on.
pub record IsCode {D : Type 0} (code : List ℕ) (pc : ℕ) (s : Mem D) : Type 0 where
  pub above : mbase ≤ pc
  pub below : pc + length code ≤ mbase + msize
  pub holds : (k : ℕ) → k < length code → s.pmem (pc - mbase + k) ≡ get_or code k 0

-- The four bytes of a word.
abbrev pub le32 : ℕ → List ℕ
le32 d = d % 256 ∷ d / 256 % 256 ∷ d / 65536 % 256 ∷ d / 16777216 % 256 ∷ []

module _ {D : Type 0} where
  pub IsCode-tail :
      (b : ℕ) (code : List ℕ) (pc : ℕ) (s : Mem D) → IsCode (b ∷ code) pc s → IsCode code (pc + 1) s
  IsCode-tail b code pc s h = record {
    above = omega (arith, h.above);
    below = omega (arith, h.below);
    holds = λ k small. ap s.pmem (place k) ∙ h.holds (suc k) (omega arith);
  }
    where
      place : (k : ℕ) → pc + 1 - mbase + k ≡ pc - mbase + suc k
      place k = omega (arith, h.above)

  fetch_pmem :
      (len pc v : ℕ) (s : Mem D)
      → IsInMemory pc len
      → load_le len s.pmem (pc - mbase) ≡ v
      → inst_fetch pc len s ≡ ok (v, pc + len, s)
  unfolding inst_fetch vaddr_ifetch
  fetch_pmem len pc v s h e =
      rw (paddr_read_pmem pc len s h, e) (ap (λ (t : ℕ). ok (v, t, s)) small)
    where
      small : u32 (pc + len) ≡ pc + len
      small = omega (arith, h.below)

  pub fetch_byte :
      (b : ℕ) (code : List ℕ) (pc : ℕ) (s : Mem D)
      → IsCode (b ∷ code) pc s
      → inst_fetch pc 1 s ≡ ok (b, pc + 1, s)
  unfolding load_le
  fetch_byte b code pc s h =
      fetch_pmem 1 pc b s (record { legal = refl; above = h.above; below = omega (arith, h.below) })
        (omega (arith, h.holds 0 (omega arith), ap s.pmem zero_off))
    where
      zero_off : pc - mbase + 0 ≡ pc - mbase
      zero_off = omega arith

  pub fetch_word :
      (d : ℕ) (pc : ℕ) (s : Mem D)
      → d < 2 ^ 32
      → IsCode (le32 d) pc s
      → inst_fetch pc 4 s ≡ ok (d, pc + 4, s)
  unfolding load_le
  fetch_word d pc s small h =
      fetch_pmem 4 pc d s (record { legal = refl; above = h.above; below = omega (arith, h.below) })
        (omega (
          arith,
          byte 0 (pc - mbase) (omega arith) (omega arith),
          byte 1 (pc - mbase + 1) (omega arith) (omega arith),
          byte 2 (pc - mbase + 1 + 1) (omega arith) (omega arith),
          byte 3 (pc - mbase + 1 + 1 + 1) (omega arith) (omega arith),
        ))
    where
      byte : (k i : ℕ) → k < 4 → i ≡ pc - mbase + k → s.pmem i ≡ get_or (le32 d) k 0
      byte k i in_word e = ap s.pmem e ∙ h.holds k in_word
