-- ===== src/Am/Vme.antt =====
-- abstract-machine/am/src/x86/qemu/vme.c: the address spaces of the machine with two levels of page
-- tables (without __x86_64__). The memory is a map from the addresses of words to words.
pub mod Words
pub mod Mmu
pub mod Walk
pub mod Tree
pub mod Keeps
pub mod Map
pub mod Teardown
pub mod Translation
use model_lib.Base.{
  ℕ, zero, suc, ◌+◌, ◌-◌, ◌*◌, ◌/◌, ◌%◌, ◌^◌, ◌≤◌, ◌<◌, min, bit_and, bit_or, bit_xor, ◌≡◌, refl,
  sym, ap, ap₂, ◌∙◌, ◌≢◌, ◌↔◌, ◌⊎◌, inl, inr, Bool, true, false, not, ◌&&◌, ◌||◌, Option, none,
  some, List, [], ◌∷◌, ◌++◌, map, reverse, arith, ltb, leb, ◌==◌, ◌!=◌, if◌then◌else◌, ltb→lt,
  lt→ltb, le→ltb, ==_iff, ==_refl, ==_of_ne, Bool-cases, Option-cases, length, get_elem?, get_or,
  set, take, replicate, length-append, length-set, length-replicate, get_or-set_self, get_or-set_ne,
  get_or-append_left, get_or-append_length,
}
use model_lib.Base.Words.{u8, u16, u32, u64, sub32, ◌<<<◌, ◌>>>◌}
use model_lib.Outcome.{Outcome, ok, panic, ◌>>=◌, ◌>>◌, check}
use model_lib.Base.Memory.{Bytes, update}

-- What stands for pgalloc and pgfree is the caller's: `pages` are the results of the next calls of
-- pgalloc, 0 or the end of the list being NULL, and `freed` the arguments of pgfree.
pub record Space : Type 0 where
  pub mem : Bytes
  pub pages : List ℕ
  pub freed : List ℕ

-- `mask`, `shift` and `bits` of a `ptinfo`.
pub record PtInfo : Type 0 where
  pub mask : ℕ
  pub shift : ℕ
  pub bits : ℕ

abbrev pub pgsize : ℕ
pgsize = 4096

abbrev pub cr3_info : PtInfo
cr3_info = record { mask = 0; shift = 0; bits = 0 }

abbrev pub pd_info : PtInfo
pd_info = record { mask = 0xffc00000; shift = 22; bits = 10 }

abbrev pub pt_info : PtInfo
pt_info = record { mask = 0x003ff000; shift = 12; bits = 10 }

-- mmu.pgtables; its length is mmu.ptlevels + 1.
abbrev pub pgtables : List PtInfo
pgtables = cr3_info ∷ pd_info ∷ pt_info ∷ []

pub record VmArea : Type 0 where
  pub start : ℕ
  pub end : ℕ
  pub kernel : Bool

abbrev pub uvm_area : VmArea
uvm_area = record { start = 0x40000000; end = 0x80000000; kernel = false }

abbrev pub vm_areas : List VmArea
vm_areas =
    uvm_area
    ∷ (record { start = 0; end = 0x40000000; kernel = true })
    ∷ (record { start = 0xfd000000; end = 0; kernel = true })
    ∷ []

abbrev pub pte_p : ℕ
pte_p = 1

abbrev pub pte_w : ℕ
pte_w = 2

abbrev pub pte_u : ℕ
pte_u = 4

unfoldable pub has : ℕ → ℕ → Bool
has word flag = bit_and word flag != 0

unfoldable pub load : Space → ℕ → ℕ
load s a = s.mem a

unfoldable pub store : ℕ → ℕ → Space → Space
store a v s = record s { mem = update s.mem a v }

-- The loop of pgallocz: the words that are left, and `i`.
unfoldable pub clear : ℕ → ℕ → ℕ → Bytes → Bytes
clear zero i base m = m
clear (suc left) i base m = clear left (i + 1) base (update m (base + 4 * i) 0)

-- The result of pgalloc, and the pages that are left.
abbrev pub pgalloc : List ℕ → ℕ × List ℕ
pgalloc [] = (0, [])
pgalloc (p ∷ ps) = (p, ps)

unfoldable pub pgallocz : Space → Outcome (ℕ × Space)
pgallocz s = do
  let (base, pages) = pgalloc s.pages
  check (base != 0)
  ok (base, record s { mem = clear (pgsize / 4) 0 base s.mem; pages = pages })

unfoldable pub indexof : ℕ → PtInfo → ℕ
indexof addr info = bit_and addr info.mask >>> info.shift

-- `~(mmu.pgsize - 1)` on 32 bits.
unfoldable pub baseof : ℕ → ℕ
baseof addr = bit_and addr 0xfffff000

-- The table that the word at `entry` points to, made if there is none.
unfoldable pub next_table : ℕ → ℕ → Space → Outcome (ℕ × Space)
next_table entry flags s = if has (load s entry) pte_p then ok (baseof (load s entry), s) else (do
  (next_page, s') ← pgallocz s
  ok (next_page, store entry (bit_or (bit_or next_page pte_p) flags) s'))

-- The tables that are left, and `cur`; the end of the list is bug().
unfoldable pub ptwalk_from : List PtInfo → ℕ → ℕ → ℕ → Space → Outcome (ℕ × Space)
ptwalk_from [] cur addr flags s = panic
ptwalk_from (info ∷ []) cur addr flags s = ok (cur + 4 * indexof addr info, s)
ptwalk_from (info ∷ next_info ∷ infos) cur addr flags s = do
  (next_page, s') ← next_table (cur + 4 * indexof addr info) flags s
  ptwalk_from (next_info ∷ infos) next_page addr flags s'

-- `ptr` is the address of as->ptr.
unfoldable pub ptwalk : ℕ → ℕ → ℕ → Space → Outcome (ℕ × Space)
unfolding ptwalk_from
ptwalk ptr addr flags s = ptwalk_from pgtables ptr addr flags s

abbrev pub mmap_none : ℕ
mmap_none = 0

abbrev pub mmap_write : ℕ
mmap_write = 2

abbrev pub in_range : ℕ → VmArea → Bool
in_range a area = leb area.start a && ltb a area.end

abbrev pub rounddown : ℕ → ℕ
rounddown a = bit_and a 0xfffff000

abbrev pub user_flags : ℕ
user_flags = bit_or pte_w pte_u

-- The change of the entry that map has found.
unfoldable pub set_entry : ℕ → ℕ → ℕ → Space → Outcome Space
set_entry entry pa prot s =
    if prot == mmap_none then (do check (has (load s entry) pte_p); ok (store entry 0 s)) else (do
      check (not (has (load s entry) pte_p))
      ok (
          store entry
            (bit_or (bit_or (bit_or pa pte_p) pte_u) (if has prot mmap_write then pte_w else 0)) s))

unfoldable pub map_page : ℕ → ℕ → ℕ → ℕ → Space → Outcome Space
map_page ptr va pa prot s = do
  check (in_range va uvm_area)
  check (va == rounddown va && pa == rounddown pa)
  (entry, s1) ← ptwalk ptr va user_flags s
  s2 ← set_entry entry pa prot s1
  (again, s3) ← ptwalk ptr va user_flags s2
  ok s3

-- The loop of teardown over `index`; `down` is its call for the next level.
unfoldable pub teardown_from : (ℕ → Space → Space) → ℕ → ℕ → ℕ → Space → Space
teardown_from down zero index pt s = s
teardown_from down (suc left) index pt s =
    let word = load s (pt + 4 * index) in
    let s' = down (baseof word) s in
    teardown_from down left (index + 1) pt (if has word pte_p && has word pte_u then s' else s)

-- The tables that are left; there is none above mmu.ptlevels.
unfoldable pub teardown : List PtInfo → ℕ → ℕ → Space → Space
teardown [] level pt s = s
teardown (info ∷ infos) level pt s =
    let s' = teardown_from (teardown infos (level + 1)) (2 ^ info.bits) 0 pt s in
    if leb 1 level then record s' { freed = s'.freed ++ (pt ∷ []) } else s'

unfoldable pub unprotect : ℕ → Space → Space
unprotect ptr s = teardown pgtables 0 ptr s

-- protect: the entries of one area of the kernel, from `cur` on, then the areas.
unfoldable pub copy_entries : ℕ → ℕ → ℕ → ℕ → Space → Space
copy_entries zero cur upt kpt s = s
copy_entries (suc left) cur upt kpt s =
    let index = indexof cur pd_info in
    copy_entries left (u32 (cur + 2 ^ 22)) upt kpt
      (store (upt + 4 * index) (load s (kpt + 4 * index)) s)

-- The rounds of `for (cur = start; cur != end; cur += step)`.
abbrev pub rounds : VmArea → ℕ → ℕ
rounds area step = sub32 area.end area.start / step

unfoldable pub copy_areas : List VmArea → ℕ → ℕ → Space → Space
copy_areas [] upt kpt s = s
copy_areas (area ∷ areas) upt kpt s =
    copy_areas areas upt kpt
      (if area.kernel then copy_entries (rounds area (2 ^ 22)) area.start upt kpt s else s)

unfoldable pub protect : ℕ → ℕ → Space → Outcome Space
protect ptr kpt s = do
  (upt, s1) ← pgallocz s
  ok (store ptr (bit_or (bit_or upt pte_p) pte_u) (copy_areas vm_areas upt kpt s1))

-- vme_init: the pages of one area, then the areas; the result is `kpt`, which set_cr3 takes.
unfoldable pub map_identity : ℕ → ℕ → ℕ → Space → Outcome Space
map_identity zero cur ptr s = ok s
map_identity (suc left) cur ptr s = do
  (entry, s') ← ptwalk ptr cur pte_w s
  map_identity left (u32 (cur + pgsize)) ptr (store entry (bit_or (bit_or cur pte_p) pte_w) s')

unfoldable pub map_areas : List VmArea → ℕ → Space → Outcome Space
map_areas [] ptr s = ok s
map_areas (area ∷ areas) ptr s = do
  s' ← (if area.kernel then map_identity (rounds area pgsize) area.start ptr s else ok s)
  map_areas areas ptr s'

-- `ptr` is the address of the ptr of the function's own AddrSpace.
unfoldable pub vme_init : ℕ → ℕ → Space → Outcome (ℕ × Space)
vme_init cpu ptr s = do
  check (cpu == 0)
  s' ← map_areas vm_areas ptr (store ptr 0 s)
  ok (baseof (load s' ptr), s')
