-- ===== src/Nemu/X86/Address/Laws.antt =====
-- load_addr and decode_rm on the bytes of an operand.
use model_lib.Base.{
  ℕ, ◌+◌, ◌*◌, ◌/◌, ◌%◌, ◌^◌, ◌<◌, ◌≡◌, refl, ap, ◌∙◌, ◌≢◌, true, Option, none, some, List, [], ◌∷◌,
  arith, ◌!=◌, if◌then◌else◌, lt→ltb, ==_of_ne, length,
}
use model_lib.Base.Words.{u32, ◌<<<◌}
use model_lib.Outcome.{ok, ◌>>=◌}
use model_lib.Nemu.Paddr.{Mem}
use model_lib.Nemu.X86.{Cpu, reg_l, r_esp, r_ebp}
use model_lib.Nemu.X86.Code.{IsCode, fetch_byte, fetch_word, le32}
use model_lib.Nemu.X86.Address.{
  ModRm, mod_rm, Sib, sib, Scaled, scaled_of, disp_of, sext8, reg_or, read_sib, read_disp,
  load_addr,
}
use model_lib.Nemu.X86.Address.Manual.{
  Disp, none_, disp8, disp32, IsDisp, IsBase, mode_of, disp_bytes, mod_rm_byte, disp_value,
  registers,
}

reg_l_lem : (i : ℕ) (c : Cpu) → i < 8 → reg_l i c ≡ ok (registers c i)
unfolding reg_l
reg_l_lem i c h = rw (lt→ltb i 8 h) refl

pub mod_rm-byte :
    (mode reg rm : ℕ)
    → mode < 4
    → reg < 8
    → rm < 8
    → mod_rm (mod_rm_byte mode reg rm) ≡ record { rm = rm; reg = reg; mode = mode }
mod_rm-byte mode reg rm hm hr h =
    let rm_field : mod_rm_byte mode reg rm % 8 ≡ rm = omega arith in
    let reg_field : mod_rm_byte mode reg rm / 8 % 8 ≡ reg = omega arith in
    let mode_field : mod_rm_byte mode reg rm / 64 % 4 ≡ mode = omega arith in
    rw (rm_field, reg_field, mode_field) refl

sib-byte :
    (ss i b : ℕ)
    → ss < 4
    → i < 8
    → b < 8
    → sib (mod_rm_byte ss i b) ≡ record { base = b; index = i; ss = ss }
sib-byte ss i b hs hi hb =
    let b_field : mod_rm_byte ss i b % 8 ≡ b = omega arith in
    let i_field : mod_rm_byte ss i b / 8 % 8 ≡ i = omega arith in
    let ss_field : mod_rm_byte ss i b / 64 % 4 ≡ ss = omega arith in
    rw (b_field, i_field, ss_field) refl

pub mode_of-lt : (d : Disp) → mode_of d < 3
mode_of-lt none_ = omega arith
mode_of-lt (disp8 d) = omega arith
mode_of-lt (disp32 d) = omega arith

pub IsBase-lt : (b : ℕ) (d : Disp) → IsBase b d → b < 8
IsBase-lt b none_ h = h.0
IsBase-lt b (disp8 d) h = h
IsBase-lt b (disp32 d) h = h

-- How many bytes the constant has.
abbrev size : Disp → ℕ
size none_ = 0
size (disp8 d) = 1
size (disp32 d) = 4

disp_of-base : (b : ℕ) (d : Disp) → IsBase b d → disp_of (mode_of d) (some b) ≡ (some b, size d)
disp_of-base b none_ h = rw (==_of_ne b r_ebp h.1) refl
disp_of-base b (disp8 d) h = refl
disp_of-base b (disp32 d) h = refl

sext8_lem : (d : ℕ) → d < 256 → sext8 d ≡ disp_value (disp8 d)
sext8_lem d h = ground arith

module _ {D : Type 0} where
  read_disp-bytes :
      (d : Disp) (pc : ℕ) (s : Mem D)
      → IsDisp d
      → IsCode (disp_bytes d) pc s
      → read_disp (size d) pc s ≡ ok (disp_value d, pc + length (disp_bytes d), s)
  unfolding read_disp
  read_disp-bytes none_ pc s h code = ap (λ (t : ℕ). ok (0, t, s)) (omega arith)
  read_disp-bytes (disp8 d) pc s h code =
      rw (fetch_byte d [] pc s code) (ap (λ (t : ℕ). ok (t, pc + 1, s)) (sext8_lem d h))
  read_disp-bytes (disp32 d) pc s h code = rw (fetch_word d pc s h code) refl

  pub read_sib-none :
      (m : ModRm) (pc : ℕ) (s : Mem D)
      → m.rm ≢ r_esp
      → read_sib m pc s ≡ ok (record { base = some m.rm; index = none; scale = 0 }, pc, s)
  unfolding read_sib
  read_sib-none m pc s h = rw (==_of_ne m.rm r_esp h) refl

  pub read_sib-byte :
      (m : ModRm) (ss i b : ℕ) (code : List ℕ) (pc : ℕ) (s : Mem D)
      → m.rm ≡ r_esp
      → ss < 4
      → i < 8
      → b < 8
      → IsCode (mod_rm_byte ss i b ∷ code) pc s
      → read_sib m pc s
        ≡ ok (
          record { base = some b; index = if i != r_esp then some i else none; scale = ss },
          pc + 1,
          s,
        )
  unfolding read_sib
  read_sib-byte m ss i b code pc s e hs hi hb h =
      rw (e, fetch_byte (mod_rm_byte ss i b) code pc s h)
        (ap (λ (t : Sib). ok (scaled_of t, pc + 1, s)) (sib-byte ss i b hs hi hb))

  pub read_sib-index :
      (m : ModRm) (ss i b : ℕ) (code : List ℕ) (pc : ℕ) (s : Mem D)
      → m.rm ≡ r_esp
      → ss < 4
      → i < 8
      → i ≢ r_esp
      → b < 8
      → IsCode (mod_rm_byte ss i b ∷ code) pc s
      → read_sib m pc s ≡ ok (record { base = some b; index = some i; scale = ss }, pc + 1, s)
  read_sib-index m ss i b code pc s e hs hi ne hb h =
      let used : (i != r_esp) ≡ true = ground arith in
      read_sib-byte m ss i b code pc s e hs hi hb h ∙ rw used refl

  pub load_addr-parts :
      (m : ModRm) (c : Cpu) (x : Scaled) (base : Option ℕ) (d : Disp) (pc pc1 : ℕ) (s : Mem D)
      → m.mode ≢ 3
      → read_sib m pc s ≡ ok (x, pc1, s)
      → disp_of m.mode x.base ≡ (base, size d)
      → IsDisp d
      → IsCode (disp_bytes d) pc1 s
      → load_addr m c pc s ≡ (do
        b ← reg_or base c
        i ← reg_or x.index c
        ok (u32 (disp_value d + b + i <<< x.scale), pc1 + length (disp_bytes d), s))
  unfolding load_addr
  load_addr-parts m c x base d pc pc1 s h e_sib e_disp hd code =
      let in_memory : (m.mode != 3) ≡ true = ground arith in
      rw (in_memory, e_sib, e_disp, read_disp-bytes d pc1 s hd code) refl

  -- One base register and no index, behind a ModR/M byte or a SIB byte.
  pub load_addr-base :
      (m : ModRm) (b : ℕ) (d : Disp) (c : Cpu) (pc pc1 : ℕ) (s : Mem D)
      → m.mode ≡ mode_of d
      → read_sib m pc s ≡ ok (record { base = some b; index = none; scale = 0 }, pc1, s)
      → IsBase b d
      → IsDisp d
      → IsCode (disp_bytes d) pc1 s
      → load_addr m c pc s ≡ ok (u32 (registers c b + disp_value d), pc1 + length (disp_bytes d), s)
  load_addr-base m b d c pc pc1 s e sib_read hb hd code =
      load_addr-parts m c (record { base = some b; index = none; scale = 0 }) (some b) d pc pc1 s
        (λ t. omega (arith, e, t, mode_of-lt d)) sib_read (rw e (disp_of-base b d hb)) hd code
      ∙ rw (reg_l_lem b c (IsBase-lt b d hb))
          (ap (λ (t : ℕ). ok (u32 t, pc1 + length (disp_bytes d), s)) (omega arith))

  pub load_addr-scaled :
      (m : ModRm) (i ss d : ℕ) (c : Cpu) (pc pc1 : ℕ) (s : Mem D)
      → m.mode ≡ 0
      → read_sib m pc s ≡ ok (record { base = some 5; index = some i; scale = ss }, pc1, s)
      → i < 8
      → d < 2 ^ 32
      → IsCode (le32 d) pc1 s
      → load_addr m c pc s ≡ ok (u32 (registers c i * 2 ^ ss + d), pc1 + 4, s)
  load_addr-scaled m i ss d c pc pc1 s e sib_read hi hd code =
      load_addr-parts m c (record { base = some 5; index = some i; scale = ss }) none (disp32 d) pc
        pc1 s (λ t. omega (arith, e, t)) sib_read (rw e refl) hd code
      ∙ rw (reg_l_lem i c hi) (ap (λ (t : ℕ). ok (u32 t, pc1 + 4, s)) (omega arith))

  pub load_addr-indexed :
      (m : ModRm) (b i ss : ℕ) (d : Disp) (c : Cpu) (pc pc1 : ℕ) (s : Mem D)
      → m.mode ≡ mode_of d
      → read_sib m pc s ≡ ok (record { base = some b; index = some i; scale = ss }, pc1, s)
      → IsBase b d
      → i < 8
      → IsDisp d
      → IsCode (disp_bytes d) pc1 s
      → load_addr m c pc s
        ≡ ok (
          u32 (registers c b + registers c i * 2 ^ ss + disp_value d),
          pc1 + length (disp_bytes d),
          s,
        )
  load_addr-indexed m b i ss d c pc pc1 s e sib_read hb hi hd code =
      load_addr-parts m c (record { base = some b; index = some i; scale = ss }) (some b) d pc pc1 s
        (λ t. omega (arith, e, t, mode_of-lt d)) sib_read (rw e (disp_of-base b d hb)) hd code
      ∙ rw (reg_l_lem b c (IsBase-lt b d hb), reg_l_lem i c hi)
          (ap (λ (t : ℕ). ok (u32 t, pc1 + length (disp_bytes d), s)) (omega arith))
