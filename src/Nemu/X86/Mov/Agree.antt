-- ===== src/Nemu/X86/Mov/Agree.antt =====
-- Where the registers of the code, whose parts do not overlap, still do what the manual says.
use model_lib.Base.{
  ℕ, suc, ◌+◌, ◌%◌, ◌^◌, ◌<◌, ◌≡◌, sym, ap, ◌∙◌, ◌≢◌, inl, inr, Option, none, some, arith, length,
  get_or-set_self, get_or-set_ne, Bool-cases, ◌==◌,
}
use mathlib.Core.Path.{fun_ext}
use model_lib.Base.Memory.{update_at, update_off}
use model_lib.Outcome.{Outcome, ok, ◌>>=◌, >>=-assoc, >>=-cong}
use model_lib.Nemu.Paddr.{vaddr_read, vaddr_write}
use model_lib.Nemu.X86.{Cpu, Gpr, Decode, Machine, zero_gpr}
use model_lib.Nemu.X86.Code.{IsCode}
use model_lib.Nemu.X86.Inst.{isa_exec_once}
use model_lib.Nemu.X86.Address.Manual.{registers, effective}
use model_lib.Nemu.X86.Mov.{
  Operand, in_reg, in_mem, IsOperand, Size, byte, word, long, Way, store, load, mov_code, behind,
  get_part, set_part, mov_parts,
}
use model_lib.Nemu.X86.Mov.Manual.{State, Registers, get_reg, set_reg, mov}
use model_lib.Nemu.X86.Mov.Refine.{x86_isa_exec_once-parts}

-- The movs that the separate parts do not spoil: those of four bytes, and the stores to memory of a
-- register whose part of that size agrees with its 32 bits.
abbrev pub IsUnspoilt : Way → Size → ℕ → Operand → Cpu → Type 0
IsUnspoilt store long reg op c = Unit {0}
IsUnspoilt load long reg op c = Unit {0}
IsUnspoilt store byte reg (in_mem p) c = get_part byte reg c ≡ get_reg byte reg (registers c)
IsUnspoilt store word reg (in_mem p) c = get_part word reg c ≡ get_reg word reg (registers c)
IsUnspoilt store byte reg (in_reg r) c = ⊥
IsUnspoilt store word reg (in_reg r) c = ⊥
IsUnspoilt load byte reg op c = ⊥
IsUnspoilt load word reg op c = ⊥

set_long :
    (c : Cpu) (r v : ℕ)
    → r < length c.gpr
    → registers (set_part long r v c) ≡ set_reg long r v (registers c)
set_long c r v h = fun_ext λ i. elim (Bool-cases (r == i)) [
  | inl e ↦
      let same : i ≡ r = ground arith in
      ap (λ (j : ℕ). registers (set_part long r v c) j) same
      ∙ ap (λ (g : Gpr). g.long) (get_or-set_self c.gpr r _ zero_gpr h)
      ∙ sym (update_at (registers c) r (v % 2 ^ 32) i same)
  | inr e ↦
      let apart : i ≢ r = ground arith in
      ap (λ (g : Gpr). g.long) (get_or-set_ne c.gpr r i _ zero_gpr (λ q. apart (sym q)))
      ∙ sym (update_off (registers c) r (v % 2 ^ 32) i apart)
]

module _ {D : Type 0} where
  abbrev pub state_of : Machine D → State D
  state_of m = record { regs = registers m.cpu; mem = m.mem }

  -- The result of isa_exec_once, of whose machine the manual knows the registers and the memory.
  abbrev pub shown : Option (Decode × Machine D) → Option (Decode × State D)
  shown none = none
  shown (some (s, m)) = some (s, state_of m)

  mov_parts-mov :
      (way : Way) (size : Size) (reg : ℕ) (op : Operand) (m : Machine D)
      → length m.cpu.gpr ≡ 8
      → reg < 8
      → IsOperand op
      → IsUnspoilt way size reg op m.cpu
      → (mov_parts way size reg op m >>= λ m'. ok (state_of m')) ≡ mov way size reg op (state_of m)
  mov_parts-mov store long reg (in_reg r) m eight hr h u =
      ap (λ (t : Registers). ok (record { regs = t; mem = m.mem }))
        (set_long m.cpu r (get_part long reg m.cpu) (omega (arith, eight, h)))
  mov_parts-mov store long reg (in_mem p) m eight hr h u =
      >>=-assoc (vaddr_write (effective p m.cpu) 4 (get_part long reg m.cpu) m.mem) _ _
  mov_parts-mov store byte reg (in_mem p) m eight hr h u =
      >>=-assoc (vaddr_write (effective p m.cpu) 1 (get_part byte reg m.cpu) m.mem) _ _
      ∙ ap
          (λ (v : ℕ). do
            mem ← vaddr_write (effective p m.cpu) 1 v m.mem
            ok (record { regs = registers m.cpu; mem = mem }))
          u
  mov_parts-mov store word reg (in_mem p) m eight hr h u =
      >>=-assoc (vaddr_write (effective p m.cpu) 2 (get_part word reg m.cpu) m.mem) _ _
      ∙ ap
          (λ (v : ℕ). do
            mem ← vaddr_write (effective p m.cpu) 2 v m.mem
            ok (record { regs = registers m.cpu; mem = mem }))
          u
  mov_parts-mov store byte reg (in_reg r) m eight hr h u = absurd u
  mov_parts-mov store word reg (in_reg r) m eight hr h u = absurd u
  mov_parts-mov load byte reg op m eight hr h u = absurd u
  mov_parts-mov load word reg op m eight hr h u = absurd u
  mov_parts-mov load long reg (in_reg r) m eight hr h u =
      ap (λ (t : Registers). ok (record { regs = t; mem = m.mem }))
        (set_long m.cpu reg (get_part long r m.cpu) (omega (arith, eight, hr)))
  mov_parts-mov load long reg (in_mem p) m eight hr h u =
      >>=-assoc (vaddr_read (effective p m.cpu) 4 m.mem >>= λ x. ok (x.0, record m { mem = x.1 })) _
        _
      ∙ >>=-assoc (vaddr_read (effective p m.cpu) 4 m.mem) _ _
      ∙ >>=-cong (vaddr_read (effective p m.cpu) 4 m.mem) _ _ (λ x.
        ap (λ (t : Registers). ok (record { regs = t; mem = x.1 }))
          (set_long m.cpu reg x.0 (omega (arith, eight, hr))))
      ∙ sym (>>=-assoc (vaddr_read (effective p m.cpu) 4 m.mem) _ _)

  -- For a mov of four bytes between a register and an operand in a register or in memory, and for
  -- a store of one or two bytes of a register to memory while that part of the register agrees
  -- with its 32 bits, with eight registers and with numbers that fit their fields: isa_exec_once
  -- on its bytes (with a prefix for two) changes the registers of 32 bits and the memory as the
  -- manual's mov does, which has the smaller registers lie in them, panics included, and goes on
  -- behind the bytes; two opcodes are enough for its loop.
  pub x86_isa_exec_once-mov :
      (fuel : ℕ) (way : Way) (size : Size) (reg : ℕ) (op : Operand) (s : Decode) (m : Machine D)
      → length m.cpu.gpr ≡ 8
      → reg < 8
      → IsOperand op
      → IsUnspoilt way size reg op m.cpu
      → IsCode (mov_code way size reg op) s.snpc m.mem
      → (isa_exec_once (suc (suc fuel)) s m >>= λ r. ok (shown r)) ≡ (do
        t ← mov way size reg op (state_of m)
        ok (some (behind (s.snpc + length (mov_code way size reg op)) s, t)))
  x86_isa_exec_once-mov fuel way size reg op s m eight hr h u code =
      let next = behind (s.snpc + length (mov_code way size reg op)) s in
      ap (λ (o : Outcome (Option (Decode × Machine D))). o >>= λ r. ok (shown r))
        (x86_isa_exec_once-parts fuel way size reg op s m hr h code)
      ∙ >>=-assoc (mov_parts way size reg op m) _ _
      ∙ sym (>>=-assoc (mov_parts way size reg op m) _ _)
      ∙ ap (λ (o : Outcome (State D)). o >>= λ t. ok (some (next, t)))
          (mov_parts-mov way size reg op m eight hr h u)
