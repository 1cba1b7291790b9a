-- ===== src/Examples/X86.antt =====
-- The x86 processor at concrete inputs.
use model_lib.Base.{
  ℕ, ◌+◌, ◌≤◌, ◌≡◌, refl, ap, ◌≢◌, false, none, some, List, [], ◌∷◌, arith, length, get_or,
  replicate,
}
use model_lib.Outcome.{ok, panic, ◌>>=◌}
use model_lib.Nemu.Config.{mbase}
use model_lib.Nemu.Paddr.{Mem}
use model_lib.Nemu.State.{nemu_state}
use model_lib.Nemu.X86.{Cpu, Decode, Machine, zero_gpr}
use model_lib.Nemu.X86.Code.{IsCode}
use model_lib.Nemu.X86.Address.{decode_rm}
use model_lib.Nemu.X86.Address.Manual.{Place, disp8, disp32, indexed, based, effective}
use model_lib.Nemu.X86.Address.Decode.{decode_rm-encode}
use model_lib.Nemu.X86.Inst.{exec_again, isa_exec_once}
use model_lib.Nemu.X86.Mov.{in_mem, word, store, behind}
use model_lib.Nemu.X86.Mov.Manual.{mov}
use model_lib.Nemu.X86.Mov.Agree.{state_of, shown, x86_isa_exec_once-mov}
use model_lib.Nemu.X86.Prefixes.{exec_again-enough}
use model_lib.Nemu.X86.RegTest.{reg_test, reg_test-panics}

abbrev cpu : Cpu
cpu = record {
  gpr = replicate 8 zero_gpr;
  eax = 0;
  ecx = 0;
  edx = 0;
  ebx = 0;
  esp = 0;
  ebp = 0;
  esi = 0;
  edi = 0;
  pc = mbase;
}

-- A memory that starts with a program.
abbrev holding : List ℕ → Mem ℕ
holding code = record {
  pmem = λ i. get_or code i 0;
  maps = [];
  space = record { bytes = λ i. 0; dev = 0 };
  skip = record { is_skip_ref = false; skip_dut_nr_inst = 0 };
}

holding-IsCode : (code : List ℕ) → length code ≤ 100 → IsCode code mbase (holding code)
holding-IsCode code h = record {
  above = omega arith;
  below = omega (arith, h);
  holds = λ k small. ap (λ (t : ℕ). get_or code t 0) (omega arith);
}

abbrev machine : List ℕ → Machine ℕ
machine code = record { cpu = cpu; mem = holding code; nemu = nemu_state }

abbrev at_start : Decode
at_start = record { pc = mbase; snpc = mbase; dnpc = 0 }

-- -0x2000(%ecx,%ebx,4), from the built-in program.
abbrev scaled_place : Place
scaled_place = indexed 1 3 2 (disp32 0xffffe000)

abbrev place_code : List ℕ
place_code = 0x84 ∷ 0x99 ∷ 0x00 ∷ 0xe0 ∷ 0xff ∷ 0xff ∷ []

decode_rm-encode_example :
    decode_rm cpu mbase (holding place_code)
    ≡ ok ((none, effective scaled_place cpu, 0), mbase + 6, holding place_code)
decode_rm-encode_example =
    decode_rm-encode scaled_place 0 cpu mbase (holding place_code) (omega arith)
      (omega arith, omega arith, λ e. omega (arith, e), omega arith, omega arith)
      (holding-IsCode place_code (omega arith))

-- movw %ax,0x4(%ecx)
abbrev movw_code : List ℕ
movw_code = 0x66 ∷ 0x89 ∷ 0x41 ∷ 0x04 ∷ []

x86_isa_exec_once-mov_example :
    (isa_exec_once 2 at_start (machine movw_code) >>= λ r. ok (shown r)) ≡ (do
      t ← mov store word 0 (in_mem (based 1 (disp8 4))) (state_of (machine movw_code))
      ok (some (behind (mbase + 4) at_start, t)))
x86_isa_exec_once-mov_example =
    x86_isa_exec_once-mov 0 store word 0 (in_mem (based 1 (disp8 4))) at_start (machine movw_code)
      refl (omega arith) (λ e. omega (arith, e), omega arith, omega arith) refl
      (holding-IsCode movw_code (omega arith))

-- Two prefixes and an opcode that is none.
abbrev prefixed : List ℕ
prefixed = 0x66 ∷ 0x66 ∷ 0x90 ∷ []

exec_again-enough_example : exec_again 3 false at_start (machine prefixed) ≢ ok none
exec_again-enough_example =
    exec_again-enough 2 0 0x90 false at_start (machine prefixed) (omega arith)
      (λ e. omega (arith, e)) (holding-IsCode prefixed (omega arith))

reg_test-panics_example : reg_test 0 (λ i. 7) cpu ≡ panic
reg_test-panics_example = reg_test-panics 0 (λ i. 7) cpu refl
