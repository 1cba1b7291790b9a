-- ===== src/Nemu/X86/Address/Decode.antt =====
-- decode_rm on the bytes of an operand.
use model_lib.Base.{
  ℕ, ◌+◌, ◌<◌, ◌≡◌, refl, ap, ap₂, ◌∙◌, ◌≢◌, none, some, List, ◌∷◌, arith, ==_of_ne, length,
}
use model_lib.Outcome.{ok}
use model_lib.Nemu.Paddr.{Mem}
use model_lib.Nemu.X86.{Cpu}
use model_lib.Nemu.X86.Code.{IsCode, IsCode-tail, fetch_byte, le32}
use model_lib.Nemu.X86.Address.{ModRm, mod_rm, load_addr, rm_operand, decode_rm}
use model_lib.Nemu.X86.Address.Manual.{
  disp32, Place, absolute, based, based_sib, indexed, scaled, IsPlace, mode_of, disp_bytes,
  mod_rm_byte, encode, effective,
}
use model_lib.Nemu.X86.Address.Laws.{
  mod_rm-byte, mode_of-lt, IsBase-lt, load_addr-parts, load_addr-base, load_addr-scaled,
  load_addr-indexed, read_sib-none, read_sib-byte, read_sib-index,
}

module _ {D : Type 0} where
  -- A ModR/M byte for an operand in memory.
  decode_rm-place :
      (b : ℕ) (code : List ℕ) (m : ModRm) (c : Cpu) (pc addr next : ℕ) (s : Mem D)
      → IsCode (b ∷ code) pc s
      → mod_rm b ≡ m
      → m.mode ≢ 3
      → load_addr m c (pc + 1) s ≡ ok (addr, next, s)
      → decode_rm c pc s ≡ ok ((none, addr, m.reg), next, s)
  unfolding decode_rm
  decode_rm-place b code m c pc addr next s h e ne loaded =
      rw (fetch_byte b code pc s h)
        (ap (λ (t : ModRm). rm_operand t c (pc + 1) s) e ∙ rw (==_of_ne m.mode 3 ne, loaded) refl)

  -- For every operand in memory of the manual whose registers and constants fit their fields, and
  -- every register field, decode_rm on the operand's bytes gives the address that the manual gives
  -- and the register field, no register in place of the address, and goes on behind the bytes.
  pub decode_rm-encode :
      (p : Place) (reg : ℕ) (c : Cpu) (pc : ℕ) (s : Mem D)
      → reg < 8
      → IsPlace p
      → IsCode (encode reg p) pc s
      → decode_rm c pc s ≡ ok ((none, effective p c, reg), pc + length (encode reg p), s)
  decode_rm-encode (absolute d) reg c pc s hr h code =
      decode_rm-place (mod_rm_byte 0 reg 5) (le32 d) (record { rm = 5; reg = reg; mode = 0 }) c pc d
        (pc + 5) s code (mod_rm-byte 0 reg 5 (omega arith) hr (omega arith)) (λ t. omega (arith, t))
        (load_addr-parts (record { rm = 5; reg = reg; mode = 0 }) c
            (record { base = some 5; index = none; scale = 0 }) none (disp32 d) (pc + 1) (pc + 1) s
            (λ t. omega (arith, t))
            (read_sib-none (record { rm = 5; reg = reg; mode = 0 }) (pc + 1) s
              (λ t. omega (arith, t)))
            refl h (IsCode-tail (mod_rm_byte 0 reg 5) (le32 d) pc s code)
          ∙ ap₂ (λ (t n : ℕ). ok (t, n, s)) (omega (arith, h)) (omega arith))
  decode_rm-encode (based b d) reg c pc s hr h code =
      let m : ModRm = record { rm = b; reg = reg; mode = mode_of d } in
      let ne : mode_of d ≢ 3 = λ t. omega (arith, t, mode_of-lt d) in
      decode_rm-place (mod_rm_byte (mode_of d) reg b) (disp_bytes d) m c pc _ _ s code
        (mod_rm-byte (mode_of d) reg b (omega (arith, mode_of-lt d)) hr (IsBase-lt b d h.1)) ne
        (load_addr-base m b d c (pc + 1) (pc + 1) s refl (read_sib-none m (pc + 1) s h.0) h.1 h.2
          (IsCode-tail (mod_rm_byte (mode_of d) reg b) (disp_bytes d) pc s code))
      ∙ ap (λ (n : ℕ). ok ((none, effective (based b d) c, reg), n, s)) (omega arith)
  decode_rm-encode (based_sib b d) reg c pc s hr h code =
      let m : ModRm = record { rm = 4; reg = reg; mode = mode_of d } in
      let ne : mode_of d ≢ 3 = λ t. omega (arith, t, mode_of-lt d) in
      let sib_code = IsCode-tail (mod_rm_byte (mode_of d) reg 4) _ pc s code in
      decode_rm-place (mod_rm_byte (mode_of d) reg 4) _ m c pc _ _ s code
        (mod_rm-byte (mode_of d) reg 4 (omega (arith, mode_of-lt d)) hr (omega arith)) ne
        (load_addr-base m b d c (pc + 1) (pc + 1 + 1) s refl
          (read_sib-byte m 0 4 b (disp_bytes d) (pc + 1) s refl (omega arith) (omega arith)
            (IsBase-lt b d h.0) sib_code)
          h.0 h.1 (IsCode-tail (mod_rm_byte 0 4 b) (disp_bytes d) (pc + 1) s sib_code))
      ∙ ap (λ (n : ℕ). ok ((none, effective (based_sib b d) c, reg), n, s)) (omega arith)
  decode_rm-encode (indexed b i ss d) reg c pc s hr h code =
      let m : ModRm = record { rm = 4; reg = reg; mode = mode_of d } in
      let ne : mode_of d ≢ 3 = λ t. omega (arith, t, mode_of-lt d) in
      let sib_code = IsCode-tail (mod_rm_byte (mode_of d) reg 4) _ pc s code in
      decode_rm-place (mod_rm_byte (mode_of d) reg 4) _ m c pc _ _ s code
        (mod_rm-byte (mode_of d) reg 4 (omega (arith, mode_of-lt d)) hr (omega arith)) ne
        (load_addr-indexed m b i ss d c (pc + 1) (pc + 1 + 1) s refl
          (read_sib-index m ss i b (disp_bytes d) (pc + 1) s refl h.3 h.1 h.2 (IsBase-lt b d h.0)
            sib_code)
          h.0 h.1 h.4 (IsCode-tail (mod_rm_byte ss i b) (disp_bytes d) (pc + 1) s sib_code))
      ∙ ap (λ (n : ℕ). ok ((none, effective (indexed b i ss d) c, reg), n, s)) (omega arith)
  decode_rm-encode (scaled i ss d) reg c pc s hr h code =
      let m : ModRm = record { rm = 4; reg = reg; mode = 0 } in
      let sib_code = IsCode-tail (mod_rm_byte 0 reg 4) _ pc s code in
      decode_rm-place (mod_rm_byte 0 reg 4) _ m c pc _ _ s code
        (mod_rm-byte 0 reg 4 (omega arith) hr (omega arith)) (λ t. omega (arith, t))
        (load_addr-scaled m i ss d c (pc + 1) (pc + 1 + 1) s refl
          (read_sib-index m ss i 5 (le32 d) (pc + 1) s refl h.2 h.0 h.1 (omega arith) sib_code) h.0
          h.3 (IsCode-tail (mod_rm_byte ss i 5) (le32 d) (pc + 1) s sib_code))
      ∙ ap (λ (n : ℕ). ok ((none, effective (scaled i ss d) c, reg), n, s)) (omega arith)
