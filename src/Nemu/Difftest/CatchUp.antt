-- ===== src/Nemu/Difftest/CatchUp.antt =====
-- After difftest_skip_dut the emulator has a number of instructions in which it must reach the
-- program counter of the reference.
use native.Mathlib.Decide.{ℕ_discrete}
use model_lib.Base.{
  ℕ, zero, suc, ◌-◌, ◌≤◌, ◌<◌, ◌≡◌, ap, ◌∙◌, ◌≢◌, Bool, List, [], ◌∷◌, arith, ◌==◌, if◌then◌else◌,
  ==_of_ne, length,
}
use model_lib.Outcome.{Outcome, ok, panic, ◌>>=◌}
use model_lib.Nemu.Difftest.{Reference, Dut, skip_of, with_skip, catch_up, difftest_step}

-- None of the instructions goes to the reference's program counter.
abbrev pub Misses : ℕ → List (ℕ × ℕ) → Type 0
Misses target [] = Unit {0}
Misses target ((pc, npc) ∷ calls) = (target ≢ npc) × Misses target calls

module _ {D R : Type 0} (host : Reference R) where
  -- The calls for a run of instructions, each with its address and the next one.
  abbrev pub steps : List (ℕ × ℕ) → Dut D R → Outcome (Dut D R)
  steps [] d = ok d
  steps ((pc, npc) ∷ calls) d = difftest_step host pc npc d >>= steps calls

  abbrev pub waiting : ℕ → Dut D R → Dut D R
  waiting n d = with_skip (record (skip_of d) { skip_dut_nr_inst = n }) d

  miss :
      (n pc npc : ℕ) (d : Dut D R)
      → (host.to_dut d.ref).pc ≢ npc
      → difftest_step host pc npc (waiting (suc n) d) ≡ (if n == 0 then panic else ok (waiting n d))
  unfolding difftest_step catch_up
  miss n pc npc d ne = ground (arith, ==_of_ne (host.to_dut d.ref).pc npc ne)

  -- With `n` instructions to catch up in, fewer than `n` that miss the reference's program
  -- counter are passed over: nothing changes but that the number falls by theirs. The `n`-th that
  -- misses it panics.
  pub steps_miss :
      (calls : List (ℕ × ℕ)) (n : ℕ) (d : Dut D R)
      → 0 < n
      → length calls ≤ n
      → Misses (host.to_dut d.ref).pc calls
      → steps calls (waiting n d)
        ≡ (if length calls == n then panic else ok (waiting (n - length calls) d))
  steps_miss [] n d pos le m = ground arith
  steps_miss ((pc, npc) ∷ calls) zero d pos le m = absurd (omega arith)
  steps_miss ((pc, npc) ∷ calls) (suc n) d pos le m =
      rw (miss n pc npc d m.0) (elim (ℕ_discrete n 0) [
        | yes e ↦ ground arith
        | no ne ↦ rw (==_of_ne n 0 ne) (
            steps_miss calls n d (omega arith) (omega arith) m.1
            ∙ ap (λ (t : Bool). if t then panic else ok (waiting (n - length calls) d)) shorter
            ∙ ap (λ (t : ℕ). if suc (length calls) == suc n then panic else ok (waiting t d)) left)
      ])
    where
      shorter : (length calls == n) ≡ (suc (length calls) == suc n)
      shorter = ground arith

      left : n - length calls ≡ suc n - suc (length calls)
      left = omega arith
