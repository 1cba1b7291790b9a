-- ===== src/Nemu/CpuExec/Run.antt =====
-- How a run ends, and how many instructions it has taken.
use model_lib.Base.{
  ℕ, zero, suc, ◌+◌, ◌^◌, ◌≤◌, ◌<◌, ◌≡◌, refl, ◌⊎◌, inl, inr, true, false, List, [], ◌∷◌, arith,
  Bool-cases, if◌then◌else◌,
}
use model_lib.Base.Words.{u8, u64}
use model_lib.Outcome.{Outcome, ok, panic, undefined, >>=-eq-ok}
use model_lib.Nemu.State.{RunState, running, stop, end, abort, quit}
use model_lib.Nemu.CpuExec.{
  SdlEvent, sdl_quit, key_down, key_up, other, Tick, Emu, Host, is_running, state_of, with_state,
  exec_round, key_event, handle_events, device_update, execute, after_execute, run_from, start_from,
  cpu_exec,
}

module _ {D R : Type 0} where
  after_execute-stops : (e : Emu D R) → is_running (state_of (after_execute e)) ≡ false
  unfolding after_execute
  after_execute-stops e = elim (Bool-cases (is_running (state_of e))) [
    | inl r ↦ rw r
    | inr r ↦ rw (r, after_execute) r
  ]

module _ {D R : Type 0} (host : Host D R) where
  run_from-stops :
      (n : ℕ) (ticks : ℕ → Tick) (e e' : Emu D R)
      → run_from host n ticks e ≡ ok e'
      → is_running (state_of e') ≡ false
  unfolding run_from
  run_from-stops n ticks e e' h =
      let (e1, run, out) = >>=-eq-ok (execute host n 0 ticks (with_state running e)) _ h in
      ground (arith, after_execute-stops e1)

  start_from-stops :
      (n : ℕ) (ticks : ℕ → Tick) (e e' : Emu D R) (s : RunState)
      → state_of e ≡ s
      → start_from host s n ticks e ≡ ok e'
      → (is_running (state_of e') ≡ false)
        × ((e' ≡ e) ⊎ ((state_of e ≡ running) ⊎ (state_of e ≡ stop)))
  unfolding start_from
  start_from-stops n ticks e e' end q h = ground arith
  start_from-stops n ticks e e' abort q h = ground arith
  start_from-stops n ticks e e' quit q h = ground arith
  start_from-stops n ticks e e' running q h = (run_from-stops n ticks e e' h, inr (inl q))
  start_from-stops n ticks e e' stop q h = (run_from-stops n ticks e e' h, inr (inr q))

  -- A program that has ended, has been aborted or was left is not run again: cpu_exec changes
  -- nothing. From the other states a call that returns leaves the emulator not running.
  pub cpu_exec-stops :
      (n : ℕ) (ticks : ℕ → Tick) (e e' : Emu D R)
      → cpu_exec host n ticks e ≡ ok e'
      → (is_running (state_of e') ≡ false)
        × ((e' ≡ e) ⊎ ((state_of e ≡ running) ⊎ (state_of e ≡ stop)))
  unfolding cpu_exec
  cpu_exec-stops n ticks e e' h = start_from-stops n ticks e e' (state_of e) refl h

  count-exec_round :
      (e e1 : Emu D R)
      → exec_round host e ≡ ok e1
      → e1.g_nr_guest_inst ≡ u64 (e.g_nr_guest_inst + 1)
  unfolding exec_round
  count-exec_round e e1 h = ground arith

  count-handle_events :
      (evs : List SdlEvent) (e e1 : Emu D R)
      → handle_events host evs e ≡ ok e1
      → e1.g_nr_guest_inst ≡ e.g_nr_guest_inst
  unfolding handle_events
  count-handle_events [] e e1 h = ground arith
  count-handle_events (sdl_quit ∷ evs) e e1 h = count-handle_events evs (with_state quit e) e1 h
  count-handle_events (key_down k ∷ evs) e e1 h =
      let (e2, key, rest) = >>=-eq-ok (key_event host (u8 k) true e) _ h in
      ground (arith, count-handle_events evs e2 e1 rest)
  count-handle_events (key_up k ∷ evs) e e1 h =
      let (e2, key, rest) = >>=-eq-ok (key_event host (u8 k) false e) _ h in
      ground (arith, count-handle_events evs e2 e1 rest)
  count-handle_events (other ∷ evs) e e1 h = count-handle_events evs e e1 h

  count-device_update :
      (t : Tick) (e e1 : Emu D R)
      → device_update host t e ≡ ok e1
      → e1.g_nr_guest_inst ≡ e.g_nr_guest_inst
  unfolding device_update
  count-device_update t e e1 h =
      ground (arith, count-handle_events t.events (record e { last = t.now }) e1)

  -- How many instructions a run of at most `n` executes, told from the states alone: `after` is
  -- that behind an update of the devices.
  abbrev executed_after : Outcome (Emu D R) → (Emu D R → ℕ) → ℕ
  executed_after (ok e) after = after e
  executed_after panic after = 0
  executed_after undefined after = 0

  abbrev pub executed : ℕ → ℕ → (ℕ → Tick) → Emu D R → ℕ
  executed zero k ticks e = 0
  executed (suc n) k ticks e = executed_after (exec_round host e) λ e1.
      let rest = executed_after (device_update host (ticks k) e1) (executed n (k + 1) ticks) in
      if is_running (state_of e1) then 1 + rest else 1

  -- A run of at most `n` instructions that returns, from a counter with room for them, has added
  -- to the counter exactly the number of instructions that it executed, the one that ends the
  -- program included; they are no more than `n`, and fewer only because the emulator is no longer
  -- running.
  pub execute-count :
      (n k : ℕ) (ticks : ℕ → Tick) (e e' : Emu D R)
      → e.g_nr_guest_inst + n < 2 ^ 64
      → execute host n k ticks e ≡ ok e'
      → (e'.g_nr_guest_inst ≡ e.g_nr_guest_inst + executed n k ticks e)
        × (executed n k ticks e ≤ n)
        × ((executed n k ticks e ≡ n) ⊎ (is_running (state_of e') ≡ false))
  unfolding execute
  execute-count zero k ticks e e' small h = ground arith
  execute-count (suc n) k ticks e e' small h =
      let (e1, round, rest) = >>=-eq-ok (exec_round host e) _ h in
      let one = count-exec_round e e1 round in
      elim (Bool-cases (is_running (state_of e1))) [
        | inl r ↦
            let (e2, update, later) =
              >>=-eq-ok (device_update host (ticks k) e1) _ (rw r at rest) in
            let same = count-device_update (ticks k) e1 e2 update in
            let (total, few, last) =
              execute-count n (k + 1) ticks e2 e' (omega (arith, one, same)) later in
            rw (round, r, update) (ground (arith, one, same, total, few, last))
        | inr r ↦ rw (round, r) (ground (arith, one, rw r at rest))
      ]
