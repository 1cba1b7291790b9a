-- ===== src/Nemu/State.antt =====
-- nemu/include/utils.h and nemu/src/utils/state.c: how the emulator stands, and with what status
-- its process exits.
use model_lib.Base.{ℕ, Bool, true, false, not, ◌==◌}

-- NEMU_RUNNING, NEMU_STOP, NEMU_END, NEMU_ABORT and NEMU_QUIT.
pub data RunState : Type 0 where
  running stop end abort quit : RunState

pub record NemuState : Type 0 where
  pub state : RunState
  pub halt_pc : ℕ
  pub halt_ret : ℕ

-- The state that the process starts in.
abbrev pub nemu_state : NemuState
nemu_state = record { state = stop; halt_pc = 0; halt_ret = 0 }

unfoldable pub is_good : RunState → ℕ → Bool
is_good end halt_ret = halt_ret == 0
is_good quit halt_ret = true
is_good _ halt_ret = false

unfoldable pub is_exit_status_bad : NemuState → Bool
unfolding is_good
is_exit_status_bad s = not (is_good s.state s.halt_ret)
