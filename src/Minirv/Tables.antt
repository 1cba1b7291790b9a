-- ===== src/Minirv/Tables.antt =====
-- abstract-machine/tools/minirv/gen-lut.c, the bytes of lut.bin, and the tables that stand in
-- inst-replace.h itself: each is the byte at an offset.
use model_lib.Base.{
  ℕ, ◌+◌, ◌-◌, ◌*◌, ◌/◌, ◌%◌, ◌^◌, bit_and, bit_or, bit_xor, [], ◌∷◌, ltb, if◌then◌else◌, get_or,
  replicate,
}
use model_lib.Base.Words.{u32}

-- gen_table: row after row, each entry with its lowest byte first.
abbrev pub gen_table : ℕ → ℕ → (ℕ → ℕ → ℕ) → ℕ → ℕ
gen_table col entry_size expr k =
    let entry = k / entry_size in
    let byte = k % entry_size in expr (entry / col) (entry % col) / 256 ^ byte % 256

-- One table and the rest of the file after it.
abbrev pub followed_by : ℕ → (ℕ → ℕ) → (ℕ → ℕ) → ℕ → ℕ
followed_by size first rest k = if ltb k size then first k else rest (k - size)

abbrev pub shift_right_signed : ℕ → ℕ → ℕ
shift_right_signed x n = if ltb x (2 ^ 31) then x / 2 ^ n else 2 ^ 32 - 1 - (2 ^ 32 - 1 - x) / 2 ^ n

abbrev pub sll8 : ℕ → ℕ → ℕ
sll8 j i = u32 (i * 2 ^ j)

abbrev pub srl8 : ℕ → ℕ → ℕ
srl8 j i = u32 (i * 2 ^ 24) / 2 ^ j

abbrev pub sra8 : ℕ → ℕ → ℕ
sra8 j i = shift_right_signed (u32 (i * 2 ^ 24)) j

abbrev pub logic_size : ℕ
logic_size = 256 * 256

abbrev pub shift_size : ℕ
shift_size = 32 * 256 * 4

-- What `main` writes.
unfoldable pub lut_bin : ℕ → ℕ
lut_bin k =
    followed_by logic_size (gen_table 256 1 bit_and)
      (followed_by logic_size (gen_table 256 1 bit_or) (
        followed_by logic_size (gen_table 256 1 bit_xor) (
          followed_by shift_size (gen_table 256 4 sll8)
            (followed_by shift_size (gen_table 256 4 srl8) (gen_table 256 4 sra8)))))
      k

abbrev pub lut_size : ℕ
lut_size = 3 * logic_size + 3 * shift_size

abbrev pub same_result_table : ℕ → ℕ
same_result_table k = get_or (1 ∷ 0 ∷ 0 ∷ 0 ∷ 0 ∷ 0 ∷ 0 ∷ 0 ∷ []) k 0

abbrev pub check_8bit_0_table : ℕ → ℕ
check_8bit_0_table k = get_or (0 ∷ replicate 255 1) k 0

abbrev pub slt1_table : ℕ → ℕ
slt1_table k = get_or (0 ∷ 1 ∷ 0 ∷ 0 ∷ 1 ∷ 1 ∷ 0 ∷ 1 ∷ []) k 0

abbrev pub sltu1_table : ℕ → ℕ
sltu1_table k = get_or (0 ∷ 1 ∷ 1 ∷ 1 ∷ 0 ∷ 0 ∷ 0 ∷ 1 ∷ []) k 0

abbrev pub or1_table : ℕ → ℕ
or1_table k = get_or (0 ∷ 1 ∷ 1 ∷ 1 ∷ []) k 0
