-- ===== src/Minirv/Macros/Words.antt =====
-- The macros on words, run.
use model_lib.Base.{
  ℕ, ◌+◌, ◌-◌, ◌*◌, ◌/◌, ◌%◌, ◌^◌, ◌≤◌, ◌<◌, bit_xor, ◌≡◌, refl, ap, ap₂, ◌∙◌, true, false, List,
  [], ◌∷◌, ◌++◌, arith,
}
use mathlib.Core.Path.{fun_ext}
use model_lib.Base.Words.{u32, sub32}
use model_lib.Base.Memory.{Bytes, update}
use model_lib.Base.Bits.{bit_xor_ones}
use model_lib.Minirv.{
  Reg, x0, ra, sp, gp, tp, s0, s1, other, Regs, State, slot, Instr, add, addi, lw, get, put,
  same_reg, set_reg, step, run, write_word,
}
use model_lib.Minirv.Linked.{TableAt, byte_at-table}
use model_lib.Minirv.Macros.{xor8_table, Symbols, hi, lo, la, not_byte, not_macro, sub}

-- Code after code.
pub run-append :
    (link : ℕ) (xs ys : List Instr) (s : State)
    → run link (xs ++ ys) s ≡ run link ys (run link xs s)
run-append link [] ys s = refl
run-append link (x ∷ xs) ys s = run-append link xs ys (step link x s)

-- A register that was just written, and those beside it.
pub get-put : (r : Reg) (v : ℕ) (regs : Regs) → same_reg r x0 ≡ false → get r (put r v regs) ≡ v
unfolding update
get-put x0 v regs live = absurd (ground (arith, live))
get-put ra v regs live = refl
get-put sp v regs live = refl
get-put gp v regs live = refl
get-put tp v regs live = refl
get-put s0 v regs live = refl
get-put s1 v regs live = refl
get-put (other n) v regs live = ground arith

pub get-put_gp :
    (r : Reg) (v : ℕ) (regs : Regs) → same_reg r gp ≡ false → get r (put gp v regs) ≡ get r regs
get-put_gp x0 v regs free = refl
get-put_gp ra v regs free = refl
get-put_gp sp v regs free = refl
get-put_gp gp v regs free = absurd (ground (arith, free))
get-put_gp tp v regs free = refl
get-put_gp s0 v regs free = refl
get-put_gp s1 v regs free = refl
get-put_gp (other n) v regs free = refl

pub get_of_zero : (r : Reg) (regs : Regs) → same_reg r x0 ≡ true → get r regs ≡ 0
get_of_zero x0 regs e = refl
get_of_zero ra regs e = absurd (ground (arith, e))
get_of_zero sp regs e = absurd (ground (arith, e))
get_of_zero gp regs e = absurd (ground (arith, e))
get_of_zero tp regs e = absurd (ground (arith, e))
get_of_zero s0 regs e = absurd (ground (arith, e))
get_of_zero s1 regs e = absurd (ground (arith, e))
get_of_zero (other n) regs e = absurd (ground (arith, e))

pub get-put_tp :
    (r : Reg) (v : ℕ) (regs : Regs) → same_reg r tp ≡ false → get r (put tp v regs) ≡ get r regs
get-put_tp x0 v regs free = refl
get-put_tp ra v regs free = refl
get-put_tp sp v regs free = refl
get-put_tp gp v regs free = refl
get-put_tp tp v regs free = absurd (ground (arith, free))
get-put_tp s0 v regs free = refl
get-put_tp s1 v regs free = refl
get-put_tp (other n) v regs free = refl

overwrite : (m : Bytes) (a v w i : ℕ) → update (update m a w) a v i ≡ update m a v i
unfolding update
overwrite m a v w i = ground arith

pub put-put : (r : Reg) (v w : ℕ) (regs : Regs) → put r v (put r w regs) ≡ put r v regs
put-put x0 v w regs = refl
put-put ra v w regs = refl
put-put sp v w regs = refl
put-put gp v w regs = refl
put-put tp v w regs = refl
put-put s0 v w regs = refl
put-put s1 v w regs = refl
put-put (other n) v w regs =
    ap (λ (o : ℕ → ℕ). record regs { others = o }) (fun_ext (λ i. overwrite regs.others n v w i))

-- la loads the address.
pub hi-lo : (addr : ℕ) → addr < 2 ^ 32 → u32 (u32 (hi addr * 4096) + lo addr) ≡ addr
hi-lo addr h = ground arith

-- A word is its four bytes, and its complement those of its bytes.
pub word_kept :
    (g : ℕ)
    → g < 2 ^ 32
    → g % 256 + 256 * (g / 256 % 256 + 256 * (g / 65536 % 256 + 256 * (g / 16777216 % 256))) ≡ g
word_kept g h = omega arith

byte_not : (b : ℕ) → b < 256 → bit_xor 255 b % 256 ≡ 255 - b
byte_not b h = omega (arith, bit_xor_ones 8 b h)

word_not :
    (x : ℕ)
    → x < 2 ^ 32
    → bit_xor 255 (x % 256) % 256
        + 256
          * (bit_xor 255 (x / 256 % 256) % 256
              + 256
                * (bit_xor 255 (x / 65536 % 256) % 256
                    + 256 * (bit_xor 255 (x / 16777216 % 256) % 256)))
      ≡ 2 ^ 32 - 1 - x
word_not x h = omega (
  arith,
  byte_not (x % 256) (omega arith),
  byte_not (x / 256 % 256) (omega arith),
  byte_not (x / 65536 % 256) (omega arith),
  byte_not (x / 16777216 % 256) (omega arith),
)

module _ (link : ℕ) (sym : Symbols) where
  not_byte-run :
      (b : ℕ) (s : State)
      → TableAt s.mem s.regs.sp_val s.regs.tp_val 256 (bit_xor 255)
      → s.scratch (4 + b) < 256
      → run link (not_byte sym b) s ≡ record (set_reg gp (bit_xor 255 (s.scratch (4 + b))) s) {
        scratch = update s.scratch (0 + b) (bit_xor 255 (s.scratch (4 + b)) % 256);
      }
  not_byte-run b s t h =
      let a : u32 (u32 (s.scratch (4 + b) + s.regs.tp_val) + 0)
          ≡ s.regs.tp_val + s.scratch (4 + b) =
        omega (arith, t.inside) in
      rw
        (byte_at-table (set_reg gp (u32 (s.scratch (4 + b) + s.regs.tp_val)) s) s.regs.tp_val 256
          (bit_xor 255) (s.scratch (4 + b)) _ t h a)
        refl

  -- `not`: the word whose every bit is turned, in any register; tp and the scratch bytes are used.
  pub not_macro-run :
      (rd rs : Reg) (s : State)
      → TableAt s.mem s.regs.sp_val (xor8_table sym + 0xff * 256) 256 (bit_xor 255)
      → get rs s.regs < 2 ^ 32
      → s.regs.gp_val < 2 ^ 32
      → (scratch : Bytes) × (t : ℕ) × ((i : ℕ) → 20 ≤ i → scratch i ≡ s.scratch i)
        × (run link (not_macro sym rd rs) s
            ≡ set_reg rd
                (2 ^ 32 - 1 - get rs s.regs)
                (set_reg tp t (record s { scratch = scratch })))
  unfolding not_macro la update
  not_macro-run rd rs s t small kept =
      let x = get rs s.regs in
      let base = xor8_table sym + 0xff * 256 in
      let sc0 : Bytes = write_word (write_word s.scratch 16 s.regs.gp_val) 4 x in
      let st0 : State = set_reg tp base (record s { scratch = sc0 }) in
      let rest = lw gp (slot 3 0) ∷ lw rd (slot 7 0) ∷ [] in
      let table : u32 (u32 (hi base * 4096) + lo base) ≡ base =
        hi-lo base (omega (arith, t.inside)) in
      let st1 = record (set_reg gp (bit_xor 255 (sc0 7)) st0) {
        scratch = update sc0 3 (bit_xor 255 (sc0 7) % 256);
      } in
      let st2 = record (set_reg gp (bit_xor 255 (sc0 6)) st1) {
        scratch = update st1.scratch 2 (bit_xor 255 (sc0 6) % 256);
      } in
      let st3 = record (set_reg gp (bit_xor 255 (sc0 5)) st2) {
        scratch = update st2.scratch 1 (bit_xor 255 (sc0 5) % 256);
      } in
      let st4 = record (set_reg gp (bit_xor 255 (sc0 4)) st3) {
        scratch = update st3.scratch 0 (bit_xor 255 (sc0 4) % 256);
      } in
      (
        st4.scratch,
        base,
        (λ i h. ground arith),
        ap
              (λ (a : ℕ).
                run link
                  (not_byte sym 3 ++ not_byte sym 2 ++ not_byte sym 1 ++ not_byte sym 0 ++ rest)
                  (set_reg tp a (record s { scratch = sc0 })))
              table
            ∙ ap
                (λ (u : State).
                  run link (not_byte sym 2 ++ not_byte sym 1 ++ not_byte sym 0 ++ rest) u)
                (not_byte-run 3 st0 t (omega arith))
            ∙ ap (λ (u : State). run link (not_byte sym 1 ++ not_byte sym 0 ++ rest) u)
                (not_byte-run 2 st1 t (omega arith))
            ∙ ap (λ (u : State). run link (not_byte sym 0 ++ rest) u)
                (not_byte-run 1 st2 t (omega arith))
            ∙ ap (λ (u : State). run link rest u) (not_byte-run 0 st3 t (omega arith))
            ∙ ap₂
                (λ (v g : ℕ).
                  set_reg rd v
                    (set_reg gp g (set_reg tp base (record s { scratch = st4.scratch }))))
                (word_not x small) (word_kept s.regs.gp_val kept),
      )

  -- sub leaves the difference of rs1 and rs2 in rd, for any three registers but x0 as rd and tp as
  -- rs1, where the row 255 of the xor table stands in memory and rs2 and gp hold words. Of all else
  -- only tp and scratch bytes can change, and of those not the last eight.
  pub sub-run :
      (rd rs1 rs2 : Reg) (s : State)
      → TableAt s.mem s.regs.sp_val (xor8_table sym + 0xff * 256) 256 (bit_xor 255)
      → get rs2 s.regs < 2 ^ 32
      → s.regs.gp_val < 2 ^ 32
      → same_reg rs1 tp ≡ false
      → same_reg rd x0 ≡ false
      → (scratch : Bytes) × (t : ℕ) × ((i : ℕ) → 20 ≤ i → scratch i ≡ s.scratch i)
        × (run link (sub sym rd rs1 rs2) s
            ≡ set_reg rd
                (sub32 (get rs1 s.regs) (get rs2 s.regs))
                (set_reg tp t (record s { scratch = scratch })))
  unfolding sub
  sub-run rd rs1 rs2 s t small kept free live =
      let n = not_macro-run tp rs2 s t small kept in
      let a = get rs1 s.regs in
      let b = get rs2 s.regs in
      let end = add rd rs1 tp ∷ addi rd rd 1 ∷ [] in
      let u = record s { scratch = n.0 } in
      let other_tp : get rs1 (put tp (2 ^ 32 - 1 - b) u.regs) ≡ a =
        get-put_tp rs1 (2 ^ 32 - 1 - b) u.regs free in
      (
        n.0,
        2 ^ 32 - 1 - b,
        n.2,
        run-append link (not_macro sym tp rs2) end s
            ∙ ap (run link end) n.3
            ∙ (let value : u32 (u32 (a + (2 ^ 32 - 1 - b)) + 1) ≡ sub32 a b = omega arith in
                rw
                  (
                    other_tp,
                    get-put rd (u32 (a + (2 ^ 32 - 1 - b))) (put tp (2 ^ 32 - 1 - b) u.regs) live,
                    value,
                  )
                  (ap (λ (r : Regs). record u { regs = r })
                    (put-put rd (sub32 a b) (u32 (a + (2 ^ 32 - 1 - b)))
                      (put tp (2 ^ 32 - 1 - b) u.regs)))),
      )
