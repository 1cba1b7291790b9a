-- ===== src/Nemu/Boot.antt =====
-- nemu/src/isa/*/init.c: the built-in program and the state that the emulator starts in. The three
-- files differ in their program alone; PC_RESET_OFFSET is 0 for them (nemu/src/memory/Kconfig).
use model_lib.Base.{
  ℕ, zero, suc, ◌+◌, ◌-◌, ◌*◌, ◌%◌, ◌^◌, ◌≤◌, ◌<◌, ◌≡◌, refl, ap, ap₂, ◌∙◌, ◌⊎◌, inl, List, [], ◌∷◌,
  arith, ltb, leb, length, get_or, set, length-set, get_or-set_self,
}
use model_lib.Base.Words.{u32}
use model_lib.Outcome.{Outcome, ok, ◌>>=◌, ◌>>◌, inside}
use model_lib.Base.Memory.{Bytes}
use model_lib.Nemu.Config.{mbase, msize, guest_to_host}
use model_lib.Nemu.Host.{load_le, store_le}
use model_lib.Nemu.Host.Laws.{load_le-store_le, store_le_frame, load_le_local}
use model_lib.Nemu.Paddr.{Mem, vaddr_ifetch}
use model_lib.Nemu.Paddr.Laws.{paddr_read_pmem}
use model_lib.Nemu.Riscv32.{Cpu, Machine, inst_fetch}
use model_lib.Nemu.Riscv32.Exec.{IsReady}

abbrev pub reset_vector : ℕ
reset_vector = mbase + 0

-- `img` of riscv32, mips32 and loongarch32r.
abbrev pub riscv32_img : List ℕ
riscv32_img = 0x00000297 ∷ 0x00028823 ∷ 0x0102c503 ∷ 0x00100073 ∷ 0xdeadbeef ∷ []

abbrev pub mips32_img : List ℕ
mips32_img = 0x3c048000 ∷ 0xac800000 ∷ 0x8c820000 ∷ 0x7000003f ∷ []

abbrev pub loongarch32r_img : List ℕ
loongarch32r_img = 0x1c00000c ∷ 0x29804180 ∷ 0x28804184 ∷ 0x002a0000 ∷ 0xdeadbeef ∷ []

-- memcpy of an array of words to the offset `a`.
unfoldable pub store_words : List ℕ → ℕ → Bytes → Bytes
store_words [] a m = m
store_words (w ∷ ws) a m = store_words ws (a + 4) (store_le 4 m a w)

unfoldable pub restart : Cpu → Outcome Cpu
restart c = do inside (ltb 0 (length c.gpr)); ok (record { gpr = set c.gpr 0 0; pc = reset_vector })

module _ {D : Type 0} where
  unfoldable pub init_isa : List ℕ → Machine D → Outcome (Machine D)
  init_isa img m = do
    inside (leb (guest_to_host reset_vector + 4 * length img) msize)
    let pmem = store_words img (guest_to_host reset_vector) m.mem.pmem
    cpu ← restart m.cpu
    ok (record m { cpu = cpu; mem = record (m.mem) { pmem = pmem } })

store_words_frame :
    (ws : List ℕ) (a : ℕ) (m : Bytes) (i : ℕ)
    → (i < a) ⊎ (a + 4 * length ws ≤ i)
    → store_words ws a m i ≡ m i
unfolding store_words
store_words_frame [] a m i h = refl
store_words_frame (w ∷ ws) a m i h =
    store_words_frame ws (a + 4) (store_le 4 m a w) i (ground arith)
    ∙ store_le_frame 4 m a w i (ground arith)

-- Each word of the program is where the copy puts it.
load_le-store_words :
    (ws : List ℕ) (a : ℕ) (m : Bytes) (k : ℕ)
    → k < length ws
    → load_le 4 (store_words ws a m) (a + 4 * k) ≡ get_or ws k 0 % 2 ^ 32
unfolding store_words
load_le-store_words [] a m k h = omega arith
load_le-store_words (w ∷ ws) a m zero h =
    ap (load_le 4 (store_words ws (a + 4) (store_le 4 m a w))) zero_off
    ∙ load_le_local 4 (store_words ws (a + 4) (store_le 4 m a w)) (store_le 4 m a w) a
        (λ i p q. store_words_frame ws (a + 4) (store_le 4 m a w) i (inl q))
    ∙ load_le-store_le 4 m a w
  where
    zero_off : a + 4 * 0 ≡ a
    zero_off = omega arith
load_le-store_words (w ∷ ws) a m (suc k) h =
    ap (load_le 4 (store_words ws (a + 4) (store_le 4 m a w))) next
    ∙ load_le-store_words ws (a + 4) (store_le 4 m a w) k (omega arith)
  where
    next : a + 4 * suc k ≡ a + 4 + 4 * k
    next = omega arith

module _ {D : Type 0} where
  -- The machine that a program of `img` starts on.
  abbrev pub started : List ℕ → Machine D → Machine D
  started img m = record m {
    cpu = record { gpr = set m.cpu.gpr 0 0; pc = reset_vector };
    mem = record (m.mem) { pmem = store_words img (guest_to_host reset_vector) m.mem.pmem };
  }

  -- On a processor that has 1 to 32 registers, and with a program that fits into the memory,
  -- init_isa returns; then the program counter is the reset vector, register 0 holds 0, and the
  -- fetch of the k-th word behind the reset vector gives the k-th word of the program, cut to 32
  -- bits, and leaves the memory as it is.
  pub init_isa-inst_fetch :
      (img : List ℕ) (m : Machine D)
      → 4 * length img ≤ msize
      → 0 < length m.cpu.gpr
      → length m.cpu.gpr ≤ 32
      → (m' : Machine D) × (init_isa img m ≡ ok m')
        × (m'.cpu.pc ≡ reset_vector)
        × IsReady m'
        × ((k : ℕ)
            → k < length img
            → inst_fetch (reset_vector + 4 * k) 4 m'.mem
              ≡ ok (get_or img k 0 % 2 ^ 32, reset_vector + 4 * k + 4, m'.mem))
  unfolding init_isa restart inst_fetch vaddr_ifetch guest_to_host
  init_isa-inst_fetch img m fits nonempty few = (
    started img m,
    ground arith,
    refl,
    record {
      zero_reg = get_or-set_self m.cpu.gpr 0 0 0 nonempty;
      some_reg = rw (length-set m.cpu.gpr 0 0) nonempty;
      few_regs = rw (length-set m.cpu.gpr 0 0) few;
    },
    λ k h. read k h,
  )
    where
      mem : Mem D
      mem = (started img m).mem

      word :
          (k : ℕ)
          → k < length img
          → load_le 4 mem.pmem (reset_vector + 4 * k - mbase) ≡ get_or img k 0 % 2 ^ 32
      word k h = ap (load_le 4 mem.pmem) (offset k) ∙ load_le-store_words img 0 m.mem.pmem k h
        where
          offset : (j : ℕ) → reset_vector + 4 * j - mbase ≡ 0 + 4 * j
          offset j = omega arith

      read :
          (k : ℕ)
          → k < length img
          → inst_fetch (reset_vector + 4 * k) 4 mem
            ≡ ok (get_or img k 0 % 2 ^ 32, reset_vector + 4 * k + 4, mem)
      read k h =
          ap
            (λ (t : Outcome (ℕ × Mem D)). do
              (inst, s') ← t
              ok (inst, u32 (reset_vector + 4 * k + 4), s'))
            (paddr_read_pmem (reset_vector + 4 * k) 4 mem
              (record { legal = refl; above = omega arith; below = omega arith }))
          ∙ ap₂ (λ (w : ℕ) (p : ℕ). ok (w, p, mem)) (word k h) small
        where
          small : u32 (reset_vector + 4 * k + 4) ≡ reset_vector + 4 * k + 4
          small = omega arith
