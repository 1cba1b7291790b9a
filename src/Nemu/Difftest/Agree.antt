-- ===== src/Nemu/Difftest/Agree.antt =====
-- What the difference test finds.
use native.Mathlib.Decide.{ℕ_discrete}
use model_lib.Base.{
  ℕ, zero, suc, ◌+◌, ◌≤◌, ◌<◌, ◌≡◌, refl, ap₂, ◌↔◌, ◌⊎◌, inl, inr, Bool, true, List, [], ◌∷◌, arith,
  if◌then◌else◌, ==_iff, ==_refl, Bool-cases, length, get_or,
}
use model_lib.Outcome.{ok}
use model_lib.Nemu.State.{RunState}
use model_lib.Nemu.Riscv32.{Cpu}
use model_lib.Nemu.Difftest.{
  Reference, check_gprs, isa_difftest_checkregs, Dut, skip_of, checkregs, skip_check,
  exec_and_check, difftest_step,
}

-- The registers from `i` on, as many as there are rounds.
abbrev SameFrom : ℕ → ℕ → List ℕ → List ℕ → Type 0
SameFrom left i ref dut = (j : ℕ) → i ≤ j → j < i + left → get_or ref j 0 ≡ get_or dut j 0

-- The loop finds the registers equal from `i` on, and keeps what was found before.
check_gprs_sound :
    (left i : ℕ) (ref dut : List ℕ) (b : Bool)
    → check_gprs left i ref dut b ≡ true
    → (b ≡ true) × SameFrom left i ref dut
unfolding check_gprs
check_gprs_sound zero i ref dut b h = (h, λ j p q. absurd (omega arith))
check_gprs_sound (suc left) i ref dut b h =
    let (found, rest) = check_gprs_sound left (i + 1) ref dut _ h in
    (
      ground arith,
      λ j p q. elim (ℕ_discrete j i) [
        | yes e ↦ rw e (ground arith)
        | no ne ↦ rest j (omega arith) (omega arith)
      ],
    )

check_gprs_complete :
    (left i : ℕ) (ref dut : List ℕ)
    → SameFrom left i ref dut
    → check_gprs left i ref dut true ≡ true
unfolding check_gprs
check_gprs_complete zero i ref dut h = refl
check_gprs_complete (suc left) i ref dut h =
    rw (h i (omega arith) (omega arith), ==_refl (get_or dut i 0))
      (check_gprs_complete left (i + 1) ref dut (λ j p q. h j (omega arith) (omega arith)))

lists_eq :
    (xs ys : List ℕ)
    → length xs ≡ length ys
    → ((j : ℕ) → j < length ys → get_or xs j 0 ≡ get_or ys j 0)
    → xs ≡ ys
lists_eq [] [] e h = refl
lists_eq [] (y ∷ ys) e h = absurd (omega arith)
lists_eq (x ∷ xs) [] e h = absurd (omega arith)
lists_eq (x ∷ xs) (y ∷ ys) e h =
    ap₂ ◌∷◌ (h 0 (omega arith)) (lists_eq xs ys (omega arith) (λ j p. h (suc j) (omega arith)))

-- isa_difftest_checkregs passes exactly if program counter and registers are the same, where
-- both sides have as many registers.
pub checkregs_iff :
    (ref cpu : Cpu)
    → length ref.gpr ≡ length cpu.gpr
    → (isa_difftest_checkregs ref cpu ≡ true) ↔ (ref ≡ cpu)
unfolding isa_difftest_checkregs
checkregs_iff ref cpu same = (there, back)
  where
    there : isa_difftest_checkregs ref cpu ≡ true → ref ≡ cpu
    there h =
        let (pcs, regs) = check_gprs_sound (length cpu.gpr) 0 ref.gpr cpu.gpr _ h in
        let gprs = lists_eq ref.gpr cpu.gpr same (λ j p. regs j (omega arith) (omega arith)) in
        let pc = (==_iff ref.pc cpu.pc).0 pcs in λ i. record { gpr = gprs i; pc = pc i }

    back : ref ≡ cpu → isa_difftest_checkregs ref cpu ≡ true
    back e = rw e (
        rw (==_refl cpu.pc)
          (check_gprs_complete (length cpu.gpr) 0 cpu.gpr cpu.gpr (λ j p q. refl)))

module _ {D R : Type 0} (host : Reference R) where
  -- The reference's registers are those of the emulator.
  abbrev pub InStep : Dut D R → Type 0
  InStep d = host.to_dut d.ref ≡ d.machine.cpu

  -- A check that finds no difference changes nothing. One that finds a difference stops the
  -- emulator at NEMU_ABORT.
  checkregs-cases :
      (ref : Cpu) (pc : ℕ) (d : Dut D R)
      → length ref.gpr ≡ length d.machine.cpu.gpr
      → ((ref ≡ d.machine.cpu) × (checkregs ref pc d ≡ d))
        ⊎ ((checkregs ref pc d).machine.nemu.state ≡ RunState.abort)
  unfolding checkregs
  checkregs-cases ref pc d same = elim (Bool-cases (isa_difftest_checkregs ref d.machine.cpu)) [
    | inl e ↦ inl ((checkregs_iff ref d.machine.cpu same).0 e, rw e)
    | inr e ↦ inr (rw e)
  ]

  checkregs-keeps :
      (ref : Cpu) (pc : ℕ) (d : Dut D R)
      → ((checkregs ref pc d).machine.cpu ≡ d.machine.cpu) × ((checkregs ref pc d).ref ≡ d.ref)
  unfolding checkregs
  checkregs-keeps ref pc d = elim (Bool-cases (isa_difftest_checkregs ref d.machine.cpu)) [
    | inl e ↦ rw e (refl, refl)
    | inr e ↦ rw e (refl, refl)
  ]

  difftest_step-now :
      (pc npc : ℕ) (d : Dut D R)
      → (skip_of d).skip_dut_nr_inst ≡ 0
      → difftest_step host pc npc d ≡ (
          if (skip_of d).is_skip_ref then ok (skip_check host d) else ok (exec_and_check host pc d))
  unfolding difftest_step
  difftest_step-now pc npc d now = rw now

  exec_and_check_sound :
      (pc : ℕ) (d : Dut D R)
      → ((r : R) → length (host.to_dut r).gpr ≡ length d.machine.cpu.gpr)
      → (InStep (exec_and_check host pc d)
          ⊎ ((exec_and_check host pc d).machine.nemu.state ≡ RunState.abort))
        × ((exec_and_check host pc d).machine.cpu ≡ d.machine.cpu)
  unfolding exec_and_check
  exec_and_check_sound pc d same =
      let d1 : Dut D R = record d { ref = host.exec d.ref } in
      let seen = host.to_dut d1.ref in
      let (cpu, ref) = checkregs-keeps seen pc d1 in
      (
        elim (checkregs-cases seen pc d1 (same d1.ref)) [
          | inl (e, k) ↦ inl (rw (ref, cpu) e)
          | inr a ↦ inr a
        ],
        cpu,
      )

  -- While the emulator does not wait to catch up, a step of the difference test that returns
  -- leaves the reference in step with the emulator or the emulator at NEMU_ABORT, and does not
  -- change the emulator's registers. The reference is taken to have as many registers as the
  -- emulator, and to copy so many faithfully.
  pub difftest_step_sound :
      (pc npc : ℕ) (d d' : Dut D R)
      → ((c : Cpu) (r : R)
          → length c.gpr ≡ length d.machine.cpu.gpr
          → host.to_dut (host.to_ref c r) ≡ c)
      → ((r : R) → length (host.to_dut r).gpr ≡ length d.machine.cpu.gpr)
      → (skip_of d).skip_dut_nr_inst ≡ 0
      → difftest_step host pc npc d ≡ ok d'
      → (InStep d' ⊎ (d'.machine.nemu.state ≡ RunState.abort)) × (d'.machine.cpu ≡ d.machine.cpu)
  unfolding skip_check
  difftest_step_sound pc npc d d' copies same now e = elim (Bool-cases (skip_of d).is_skip_ref) [
    | inl skips ↦
        let out : skip_check host d ≡ d' = cc (difftest_step-now pc npc d now, skips) in
        rw (← out) (inl (copies d.machine.cpu d.ref refl), refl)
    | inr checks ↦
        let out : exec_and_check host pc d ≡ d' = cc (difftest_step-now pc npc d now, checks) in
        rw (← out) (exec_and_check_sound pc d same)
  ]
