-- ===== src/Am/Vme/Words.antt =====
-- The fields of an address and of an entry of a page table.
use model_lib.Base.{
  ℕ, ◌+◌, ◌*◌, ◌/◌, ◌%◌, ◌^◌, ◌<◌, bit_or, ◌≡◌, ap, ◌∙◌, Bool, true, false, arith, ◌==◌,
  if◌then◌else◌,
}
use model_lib.Base.Bits.{bit_and_mask, bit_and_high, bit_or_fields, bit_or-digit, bit_or-zero}
use model_lib.Am.Vme.{
  cr3_info, pd_info, pt_info, pte_p, pte_w, pte_u, has, indexof, baseof, user_flags, mmap_write,
}

abbrev pub pd_index : ℕ → ℕ
pd_index va = va / 2 ^ 22 % 1024

abbrev pub pt_index : ℕ → ℕ
pt_index va = va / 4096 % 1024

-- The base of the page that an entry points to.
abbrev pub base : ℕ → ℕ
base w = w / 4096 % 2 ^ 20 * 4096

abbrev pub present : ℕ → Bool
present w = w % 2 == 1

pub indexof-cr3 : (a : ℕ) → indexof a cr3_info ≡ 0
unfolding indexof
indexof-cr3 a = omega (arith, bit_and_mask 0 a)

pub indexof-pd : (a : ℕ) → indexof a pd_info ≡ pd_index a
unfolding indexof
indexof-pd a = omega (arith, bit_and_high 22 10 a)

pub indexof-pt : (a : ℕ) → indexof a pt_info ≡ pt_index a
unfolding indexof
indexof-pt a = omega (arith, bit_and_high 12 10 a)

pub baseof_lem : (w : ℕ) → baseof w ≡ base w
unfolding baseof
baseof_lem w = bit_and_high 12 20 w

pub has-present : (w : ℕ) → has w pte_p ≡ present w
unfolding has
has-present w = ground (arith, bit_and_mask 1 w)

-- The bits that are set in an entry for a page at `p * 4096`.
or_present : (p : ℕ) → bit_or (p * 4096) 1 ≡ p * 4096 + 1
or_present p = bit_or_fields 12 p 1 (omega arith)

odd_or : (x f : ℕ) → bit_or (2 * x + 1) (2 * f) ≡ 2 * bit_or x f + 1
odd_or x f =
    let half : (2 * x + 1) / 2 ≡ x = omega arith in
    let half_f : 2 * f / 2 ≡ f = omega arith in
    let odd : (2 * x + 1) % 2 ≡ 1 = omega arith in
    let even : 2 * f % 2 ≡ 0 = omega arith in
    bit_or-digit (2 * x + 1) (2 * f) ∙ rw (half, half_f, odd, even) (omega arith)

-- Bits that an odd word does not have, of which `f` is the half.
or_odd : (k q f : ℕ) → f < 2 ^ k → bit_or (2 * (q * 2 ^ k) + 1) (2 * f) ≡ 2 * (q * 2 ^ k + f) + 1
or_odd k q f h = odd_or (q * 2 ^ k) f ∙ ap (λ (t : ℕ). 2 * t + 1) (bit_or_fields k q f h)

pub table_entry : (p : ℕ) → bit_or (bit_or (p * 4096) pte_p) user_flags ≡ p * 4096 + 7
table_entry p =
    ap (λ (t : ℕ). bit_or t 6) (or_present p ∙ split)
    ∙ or_odd 2 (p * 512) 3 (omega arith)
    ∙ omega arith
  where
    split : p * 4096 + 1 ≡ 2 * (p * 512 * 2 ^ 2) + 1
    split = omega arith

user_entry : (p : ℕ) → bit_or (bit_or (p * 4096) pte_p) pte_u ≡ p * 4096 + 5
user_entry p =
    ap (λ (t : ℕ). bit_or t 4) (or_present p ∙ split)
    ∙ or_odd 2 (p * 512) 2 (omega arith)
    ∙ omega arith
  where
    split : p * 4096 + 1 ≡ 2 * (p * 512 * 2 ^ 2) + 1
    split = omega arith

writable_entry : (p : ℕ) → bit_or (p * 4096 + 5) pte_w ≡ p * 4096 + 7
writable_entry p =
    ap (λ (t : ℕ). bit_or t 2) split ∙ or_odd 1 (p * 1024 + 1) 1 (omega arith) ∙ omega arith
  where
    split : p * 4096 + 5 ≡ 2 * ((p * 1024 + 1) * 2 ^ 1) + 1
    split = omega arith

with_write :
    (p : ℕ) (b : Bool)
    → bit_or (p * 4096 + 5) (if b then pte_w else 0) ≡ p * 4096 + (if b then 7 else 5)
with_write p true = writable_entry p
with_write p false = bit_or-zero (p * 4096 + 5)

pub page_entry :
    (p prot : ℕ)
    → bit_or (bit_or (bit_or (p * 4096) pte_p) pte_u) (if has prot mmap_write then pte_w else 0)
      ≡ p * 4096 + (if has prot mmap_write then 7 else 5)
page_entry p prot =
    ap (λ (t : ℕ). bit_or t (if has prot mmap_write then pte_w else 0)) (user_entry p)
    ∙ with_write p (has prot mmap_write)
