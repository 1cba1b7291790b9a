-- ===== src/Nemu/X86/RegTest.antt =====
-- nemu/src/isa/x86/reg.c: the test of the registers that init_isa runs. The numbers that rand gives
-- are a function of the register, and one more for the program counter.
use model_lib.Base.{
  ℕ, zero, suc, ◌+◌, ◌≤◌, ◌<◌, bit_and, ◌≡◌, refl, ◌⊎◌, inl, inr, Bool, true, false, ◌&&◌, arith,
  ◌==◌, lt→ltb,
}
use model_lib.Base.Words.{u32, ◌>>>◌}
use model_lib.Outcome.{Outcome, ok, panic, ◌>>=◌, ◌>>◌, check}
use model_lib.Nemu.X86.{Cpu, entry, put, reg_w, reg_b, set_reg_l}

-- The loop over the registers: the number counts those left.
unfoldable pub reg_loop : ℕ → ℕ → (ℕ → ℕ) → Cpu → Outcome Cpu
reg_loop zero i sample c = ok c
reg_loop (suc left) i sample c = do
  c' ← set_reg_l i (sample i) c
  w ← reg_w i c'
  check (w == bit_and (sample i) 0xffff)
  reg_loop left (suc i) sample c'

-- reg_b(i) against a byte of a sample.
abbrev pub check_byte : ℕ → ℕ → Cpu → Outcome (Unit {0})
check_byte i v c = do b ← reg_b i c; check (b == bit_and v 0xff)

unfoldable pub check_bytes : (ℕ → ℕ) → Cpu → Outcome (Unit {0})
check_bytes sample c = do
  check_byte 0 (sample 0) c
  check_byte 4 (sample 0 >>> 8) c
  check_byte 3 (sample 3) c
  check_byte 7 (sample 3 >>> 8) c
  check_byte 1 (sample 1) c
  check_byte 5 (sample 1 >>> 8) c
  check_byte 2 (sample 2) c
  check_byte 6 (sample 2 >>> 8) c

unfoldable pub check_names : (ℕ → ℕ) → Cpu → Outcome (Unit {0})
check_names sample c = do
  check (sample 0 == c.eax)
  check (sample 1 == c.ecx)
  check (sample 2 == c.edx)
  check (sample 3 == c.ebx)
  check (sample 4 == c.esp)
  check (sample 5 == c.ebp)
  check (sample 6 == c.esi)
  check (sample 7 == c.edi)

unfoldable pub reg_test : ℕ → (ℕ → ℕ) → Cpu → Outcome Cpu
reg_test pc_sample sample c = do
  c' ← reg_loop 8 0 sample (record c { pc = pc_sample })
  check_bytes sample c'
  check_names sample c'
  check (pc_sample == c'.pc)
  ok c'

-- Whether the fields eax to edi hold the samples.
abbrev pub agrees : (ℕ → ℕ) → Cpu → Bool
agrees sample c =
    sample 0 == c.eax
    && sample 1 == c.ecx
    && sample 2 == c.edx
    && sample 3 == c.ebx
    && sample 4 == c.esp
    && sample 5 == c.ebp
    && sample 6 == c.esi
    && sample 7 == c.edi

check_names_lem :
    (sample : ℕ → ℕ) (c : Cpu) → agrees sample c ≡ false → check_names sample c ≡ panic
unfolding check_names
check_names_lem sample c h = ground arith

check-cases : (b : Bool) → (check b ≡ ok tt) ⊎ (check b ≡ panic)
check-cases true = inl refl
check-cases false = inr refl

-- A chain of asserts returns or panics.
abbrev IsTest : Outcome (Unit {0}) → Type 0
IsTest o = (o ≡ ok tt) ⊎ (o ≡ panic)

IsTest->> : (a b : Outcome (Unit {0})) → IsTest a → IsTest b → IsTest (a >> b)
IsTest->> a b (inl h) hb = rw h hb
IsTest->> a b (inr h) hb = rw h (inr refl)

check_byte-IsTest : (i v : ℕ) (c : Cpu) → i < 8 → IsTest (check_byte i v c)
unfolding reg_b
check_byte-IsTest i v c h = rw (lt→ltb i 8 h) (check-cases _)

check_bytes-IsTest : (sample : ℕ → ℕ) (c : Cpu) → IsTest (check_bytes sample c)
unfolding check_bytes
check_bytes-IsTest sample c = IsTest->> _ _ (check_byte-IsTest 0 (sample 0) c (omega arith)) (
    IsTest->> _ _ (check_byte-IsTest 4 (sample 0 >>> 8) c (omega arith)) (
      IsTest->> _ _ (check_byte-IsTest 3 (sample 3) c (omega arith)) (
        IsTest->> _ _ (check_byte-IsTest 7 (sample 3 >>> 8) c (omega arith)) (
          IsTest->> _ _ (check_byte-IsTest 1 (sample 1) c (omega arith)) (
            IsTest->> _ _ (check_byte-IsTest 5 (sample 1 >>> 8) c (omega arith)) (
              IsTest->> _ _ (check_byte-IsTest 2 (sample 2) c (omega arith))
                (check_byte-IsTest 6 (sample 2 >>> 8) c (omega arith))))))))

-- The state after the write of a round.
abbrev written : ℕ → ℕ → Cpu → Cpu
written i v c = put i (record (entry c i) { long = u32 v }) c

abbrev word_test : ℕ → (ℕ → ℕ) → Cpu → Bool
word_test i sample c = (entry (written i (sample i) c) i).word == bit_and (sample i) 0xffff

reg_loop-suc :
    (left i : ℕ) (sample : ℕ → ℕ) (c : Cpu)
    → i < 8
    → reg_loop (suc left) i sample c
      ≡ (check (word_test i sample c) >> reg_loop left (suc i) sample (written i (sample i) c))
unfolding reg_loop set_reg_l reg_w
reg_loop-suc left i sample c h = rw (lt→ltb i 8 h) refl

reg_loop-agrees :
    (left i : ℕ) (sample : ℕ → ℕ) (c : Cpu)
    → i + left ≤ 8
    → agrees sample c ≡ false
    → (reg_loop left i sample c ≡ panic)
      ⊎ ((c' : Cpu) × (reg_loop left i sample c ≡ ok c') × (agrees sample c' ≡ false))
unfolding reg_loop
reg_loop-agrees zero i sample c small h = inr (c, refl, h)
reg_loop-agrees (suc left) i sample c small h = elim (check-cases (word_test i sample c)) [
  | inl pass ↦
      rw (reg_loop-suc left i sample c (omega arith), pass)
        (reg_loop-agrees left (suc i) sample (written i (sample i) c) (omega arith) h)
  | inr fail ↦ inl (rw (reg_loop-suc left i sample c (omega arith), fail) refl)
]

-- Whatever the registers hold and rand gives: unless eax to edi hold the random numbers before
-- the test, which writes other fields, the test ends at a failed assert.
pub reg_test-panics :
    (pc_sample : ℕ) (sample : ℕ → ℕ) (c : Cpu)
    → agrees sample c ≡ false
    → reg_test pc_sample sample c ≡ panic
unfolding reg_test
reg_test-panics pc_sample sample c h =
    elim (reg_loop-agrees 8 0 sample (record c { pc = pc_sample }) (omega arith) h) [
      | inl stop ↦ rw stop refl
      | inr (c', run, differs) ↦ rw run (elim (check_bytes-IsTest sample c') [
        | inl pass ↦ rw (pass, check_names_lem sample c' differs) refl
        | inr fail ↦ rw fail refl
      ])
    ]
