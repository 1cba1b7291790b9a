-- ===== src/Nemu/CpuExec.antt =====
-- nemu/src/cpu/cpu-exec.c and device_update of nemu/src/device/device.c: the loop that runs the
-- program and looks after the devices. CONFIG_DIFFTEST, CONFIG_DEVICE and CONFIG_HAS_KEYBOARD are
-- on; traces, statistics and messages are output alone and are left out.
pub mod Run
use model_lib.Base.{
  ℕ, zero, suc, ◌+◌, ◌-◌, ◌*◌, ◌/◌, ◌%◌, ◌^◌, ◌≤◌, ◌<◌, min, bit_and, bit_or, bit_xor, ◌≡◌, refl,
  sym, ap, ap₂, ◌∙◌, ◌≢◌, ◌↔◌, ◌⊎◌, inl, inr, Bool, true, false, not, ◌&&◌, ◌||◌, Option, none,
  some, List, [], ◌∷◌, ◌++◌, map, reverse, arith, ltb, leb, ◌==◌, ◌!=◌, if◌then◌else◌, ltb→lt,
  lt→ltb, le→ltb, ==_iff, ==_refl, ==_of_ne, Bool-cases, Option-cases, length, get_elem?, get_or,
  set, take, replicate, length-append, length-set, length-replicate, get_or-set_self, get_or-set_ne,
  get_or-append_left, get_or-append_length,
}
use model_lib.Base.Words.{u8, u16, u32, u64, sub32, ◌<<<◌, ◌>>>◌}
use model_lib.Outcome.{Outcome, ok, panic, undefined, ◌>>=◌, ◌>>◌, check}
use model_lib.Nemu.State.{NemuState, RunState, running, stop, end, abort, quit}
use model_lib.Nemu.Io.{Space}
use model_lib.Nemu.Paddr.{Mem}
use model_lib.Nemu.Riscv32.{Cpu, Decode, Machine}
use model_lib.Nemu.Riscv32.Inst.{isa_exec_once}
use model_lib.Nemu.Difftest.{Reference, Dut, difftest_step}

-- What SDL_PollEvent hands over.
pub data SdlEvent : Type 0 where
  sdl_quit : SdlEvent
  key_down : ℕ → SdlEvent
  key_up : ℕ → SdlEvent
  other : SdlEvent

-- What one call of device_update meets: get_time, and the events in the queue.
pub record Tick : Type 0 where
  pub now : ℕ
  pub events : List SdlEvent

-- The globals of cpu-exec.c and device.c with all below them.
pub record Emu (D R : Type 0) : Type 0 where
  pub dut : Dut D R
  pub g_nr_guest_inst : ℕ
  pub last : ℕ

-- The parts that are parameters: the reference, and send_key, which works on whatever devices are
-- there; the one of the keyboard is in Nemu/Keyboard.
pub record Host (D R : Type 0) : Type 0 where
  pub reference : Reference R
  pub send_key : RunState → ℕ → Bool → Space D → Outcome (Space D)

abbrev pub is_running : RunState → Bool
is_running running = true
is_running stop = false
is_running end = false
is_running abort = false
is_running quit = false

module _ {D R : Type 0} where
  abbrev pub state_of : Emu D R → RunState
  state_of e = e.dut.machine.nemu.state

  abbrev pub with_machine : (Machine D → Machine D) → Emu D R → Emu D R
  with_machine f e = record e { dut = record (e.dut) { machine = f e.dut.machine } }

  abbrev pub with_state : RunState → Emu D R → Emu D R
  with_state s = with_machine λ m. record m { nemu = record (m.nemu) { state = s } }

  -- The switch behind `execute`: NEMU_RUNNING becomes NEMU_STOP, the others stay.
  unfoldable pub after_execute : Emu D R → Emu D R
  after_execute e = if is_running (state_of e) then with_state stop e else e

  module _ (host : Host D R) where
    -- exec_once; the Decode of `execute` lives on between the rounds, but each round sets all of
    -- its fields before it reads them.
    unfoldable pub exec_once : ℕ → Machine D → Outcome (Decode × Machine D)
    exec_once pc m = do
      (s, m') ← isa_exec_once (record { pc = pc; snpc = pc; dnpc = 0; inst = 0 }) m
      ok (s, record m' { cpu = record (m'.cpu) { pc = s.dnpc } })

    -- One round of `execute` up to the test of the state.
    unfoldable pub exec_round : Emu D R → Outcome (Emu D R)
    exec_round e = do
      (s, m) ← exec_once e.dut.machine.cpu.pc e.dut.machine
      d ← difftest_step host.reference s.pc m.cpu.pc (record (e.dut) { machine = m })
      ok (record e { dut = d; g_nr_guest_inst = u64 (e.g_nr_guest_inst + 1) })

    -- `k` is a byte of the scancode.
    key_event : ℕ → Bool → Emu D R → Outcome (Emu D R)
    key_event k is_keydown e = do
      space ← host.send_key (state_of e) k is_keydown e.dut.machine.mem.space
      ok (with_machine (λ m. record m { mem = record (m.mem) { space = space } }) e)

    unfoldable pub handle_events : List SdlEvent → Emu D R → Outcome (Emu D R)
    unfolding key_event
    handle_events [] e = ok e
    handle_events (sdl_quit ∷ evs) e = handle_events evs (with_state quit e)
    handle_events (key_down k ∷ evs) e = key_event (u8 k) true e >>= handle_events evs
    handle_events (key_up k ∷ evs) e = key_event (u8 k) false e >>= handle_events evs
    handle_events (other ∷ evs) e = handle_events evs e

    -- TIMER_HZ is 60. vga_update_screen does nothing yet.
    unfoldable pub device_update : Tick → Emu D R → Outcome (Emu D R)
    device_update t e =
        if ltb (u64 (t.now + 2 ^ 64 - e.last)) (1000000 / 60)
        then ok e
        else handle_events t.events (record e { last = t.now })

    -- `for (;n > 0;n --)`; `ticks` are what the calls of device_update meet, by their number.
    unfoldable pub execute : ℕ → ℕ → (ℕ → Tick) → Emu D R → Outcome (Emu D R)
    execute zero k ticks e = ok e
    execute (suc n) k ticks e = exec_round e >>= λ e1. elim (is_running (state_of e1)) [
      | true ↦ device_update (ticks k) e1 >>= execute n (k + 1) ticks
      | false ↦ ok e1
    ]

    run_from : ℕ → (ℕ → Tick) → Emu D R → Outcome (Emu D R)
    run_from n ticks e = do e' ← execute n 0 ticks (with_state running e); ok (after_execute e')

    -- The switch before it: a program that has ended is not run again.
    unfoldable pub start_from : RunState → ℕ → (ℕ → Tick) → Emu D R → Outcome (Emu D R)
    unfolding run_from
    start_from end n ticks e = ok e
    start_from abort n ticks e = ok e
    start_from quit n ticks e = ok e
    start_from running n ticks e = run_from n ticks e
    start_from stop n ticks e = run_from n ticks e

    unfoldable pub cpu_exec : ℕ → (ℕ → Tick) → Emu D R → Outcome (Emu D R)
    cpu_exec n ticks e = start_from (state_of e) n ticks e
