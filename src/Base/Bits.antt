-- ===== src/Base/Bits.antt =====
-- `&` and `|` at variables: one equation for the lowest digit, masks as remainders, disjoint
-- fields as sums.
use Prim.Native.Nat.{ℕ, zero, suc, ◌+◌, ◌-◌, ◌*◌, ◌/◌, ◌%◌, ◌^◌, ◌≤◌, ◌<◌, min, max}
use Prim.Native.Nat.{
  bit_and, bit_or, bit_xor, digits, differ, bit_and-bitwise, bit_or-bitwise, bit_xor-bitwise,
}
use mathlib.Core.Path.{◌≡◌, refl, sym, ap, ◌∙◌}
use native.Mathlib.Nat.{pow-suc, one-le-pow, div-div-eq-div-mul}
use native.Mathlib.Omega.{arith}

-- More fuel than the first number has digits changes nothing.
module _ (rest : ℕ → ℕ) (op : ℕ → ℕ → ℕ) where
  digits_enough : (k l : ℕ) (x y : ℕ) → x ≤ k → x ≤ l → digits rest op k x y ≡ digits rest op l x y
  digits_enough zero zero x y hk hl = refl
  digits_enough zero (suc l) zero y hk hl = refl
  digits_enough (suc k) zero zero y hk hl = refl
  digits_enough (suc k) (suc l) zero y hk hl = refl
  digits_enough zero (suc l) (suc x) y hk hl = absurd (omega arith)
  digits_enough (suc k) zero (suc x) y hk hl = absurd (omega arith)
  digits_enough (suc k) (suc l) (suc x) y hk hl =
      ap (λ (t : ℕ). t * 2 + op (suc x % 2) (y % 2))
        (digits_enough k l (suc x / 2) (y / 2) (omega arith) (omega arith))

zero-bit_and : (y : ℕ) → bit_and 0 y ≡ 0
zero-bit_and y = bit_and-bitwise 0 y

zero-bit_or : (y : ℕ) → bit_or 0 y ≡ y
zero-bit_or y = bit_or-bitwise 0 y

pub bit_and-digit : (x y : ℕ) → bit_and x y ≡ bit_and (x / 2) (y / 2) * 2 + min (x % 2) (y % 2)
bit_and-digit zero y = omega (arith, zero-bit_and y, zero-bit_and (y / 2))
bit_and-digit (suc x) y = omega (
  arith,
  bit_and-bitwise (suc x) y,
  bit_and-bitwise (suc x / 2) (y / 2),
  digits_enough (λ b. 0) min x (suc x / 2) (suc x / 2) (y / 2) (omega arith) (omega arith),
)

pub bit_or-digit : (x y : ℕ) → bit_or x y ≡ bit_or (x / 2) (y / 2) * 2 + max (x % 2) (y % 2)
bit_or-digit zero y = omega (arith, zero-bit_or y, zero-bit_or (y / 2))
bit_or-digit (suc x) y = omega (
  arith,
  bit_or-bitwise (suc x) y,
  bit_or-bitwise (suc x / 2) (y / 2),
  digits_enough (λ b. b) max x (suc x / 2) (suc x / 2) (y / 2) (omega arith) (omega arith),
)

zero-bit_xor : (y : ℕ) → bit_xor 0 y ≡ y
zero-bit_xor y = bit_xor-bitwise 0 y

differ_one : (d : ℕ) → d < 2 → differ 1 d ≡ 1 - d
differ_one zero h = refl
differ_one (suc zero) h = refl
differ_one (suc (suc d)) h = absurd (omega arith)

pub bit_xor-digit : (x y : ℕ) → bit_xor x y ≡ bit_xor (x / 2) (y / 2) * 2 + differ (x % 2) (y % 2)
bit_xor-digit zero y = omega (arith, zero-bit_xor y, zero-bit_xor (y / 2))
bit_xor-digit (suc x) y = omega (
  arith,
  bit_xor-bitwise (suc x) y,
  bit_xor-bitwise (suc x / 2) (y / 2),
  digits_enough (λ b. b) differ x (suc x / 2) (suc x / 2) (y / 2) (omega arith) (omega arith),
)

-- Against ones only, every digit is turned.
pub bit_xor_ones : (k x : ℕ) → x < 2 ^ k → bit_xor (2 ^ k - 1) x ≡ 2 ^ k - 1 - x
bit_xor_ones zero x h = omega (arith, zero-bit_xor x)
bit_xor_ones (suc k) x h =
    let low : (2 ^ suc k - 1) % 2 ≡ 1 = omega (arith, pow-suc 2 k, one-le-pow k 2) in
    let high : (2 ^ suc k - 1) / 2 ≡ 2 ^ k - 1 = omega (arith, pow-suc 2 k, one-le-pow k 2) in
    bit_xor-digit (2 ^ suc k - 1) x
    ∙ ap (λ (h : ℕ). bit_xor h (x / 2) * 2 + differ ((2 ^ suc k - 1) % 2) (x % 2)) high
    ∙ ap (λ (l : ℕ). bit_xor (2 ^ k - 1) (x / 2) * 2 + differ l (x % 2)) low
    ∙ omega (
      arith,
      bit_xor_ones k (x / 2) (omega (arith, pow-suc 2 k)),
      differ_one (x % 2) (omega arith),
      pow-suc 2 k,
      one-le-pow k 2,
    )

-- Induction on a number of digits that covers the first operand.
bit_and-zero_below : (k x : ℕ) → x ≤ k → bit_and x 0 ≡ 0
bit_and-zero_below k zero h = refl
bit_and-zero_below zero (suc x) h = absurd (omega arith)
bit_and-zero_below (suc k) (suc x) h =
    omega (arith, bit_and-digit (suc x) 0, bit_and-zero_below k (suc x / 2) (omega arith))

pub bit_and-zero : (x : ℕ) → bit_and x 0 ≡ 0
bit_and-zero x = bit_and-zero_below x x (omega arith)

bit_or-zero_below : (k x : ℕ) → x ≤ k → bit_or x 0 ≡ x
bit_or-zero_below k zero h = refl
bit_or-zero_below zero (suc x) h = absurd (omega arith)
bit_or-zero_below (suc k) (suc x) h =
    omega (arith, bit_or-digit (suc x) 0, bit_or-zero_below k (suc x / 2) (omega arith))

pub bit_or-zero : (x : ℕ) → bit_or x 0 ≡ x
bit_or-zero x = bit_or-zero_below x x (omega arith)

pub mod_double : (x m : ℕ) → 0 < m → x / 2 % m * 2 + x % 2 ≡ x % (2 * m)
mod_double x m h = grind arith

bit_or_comm_below : (k x y : ℕ) → x ≤ k → bit_or x y ≡ bit_or y x
bit_or_comm_below k zero y h = zero-bit_or y ∙ sym (bit_or-zero y)
bit_or_comm_below zero (suc x) y h = absurd (omega arith)
bit_or_comm_below (suc k) (suc x) y h = omega (
  arith,
  bit_or-digit (suc x) y,
  bit_or-digit y (suc x),
  bit_or_comm_below k (suc x / 2) (y / 2) (omega arith),
)

pub bit_or_comm : (x y : ℕ) → bit_or x y ≡ bit_or y x
bit_or_comm x y = bit_or_comm_below x x y (omega arith)

-- A mask of `k` low bits is the remainder by `2 ^ k`.
pub bit_and_mask : (k x : ℕ) → bit_and x (2 ^ k - 1) ≡ x % 2 ^ k
bit_and_mask zero x = omega (arith, bit_and-zero x)
bit_and_mask (suc k) x = ground (
  arith,
  bit_and-digit x (2 ^ suc k - 1),
  pow-suc 2 k,
  one-le-pow k 2,
  bit_and_mask k (x / 2),
  ap (λ (t : ℕ). x % t) (pow-suc 2 k),
  mod_double x (2 ^ k),
)

-- A shifted mask tests the shifted number.
pub bit_and_shifted : (s x m : ℕ) → bit_and x (m * 2 ^ s) ≡ bit_and (x / 2 ^ s) m * 2 ^ s
bit_and_shifted zero x m = ground arith
bit_and_shifted (suc s) x m = ground (
  arith,
  bit_and-digit x (m * 2 ^ suc s),
  ap (λ (t : ℕ). m * t) (pow-suc 2 s),
  ap (λ (t : ℕ). x / t) (pow-suc 2 s),
  ap (λ (t : ℕ). bit_and (x / 2 ^ suc s) m * t) (pow-suc 2 s),
  bit_and_shifted s (x / 2) m,
  div-div-eq-div-mul x 2 (2 ^ s),
)

-- `x & ~(2^k - 1)` on a word of `k + l` bits clears the low `k` bits.
pub bit_and_high : (k l x : ℕ) → bit_and x ((2 ^ l - 1) * 2 ^ k) ≡ x / 2 ^ k % 2 ^ l * 2 ^ k
bit_and_high k l x =
    bit_and_shifted k x (2 ^ l - 1) ∙ ap (λ (t : ℕ). t * 2 ^ k) (bit_and_mask l (x / 2 ^ k))

-- `(q << k) | r` is a sum when `r` fits `k` bits.
pub bit_or_fields : (k q r : ℕ) → r < 2 ^ k → bit_or (q * 2 ^ k) r ≡ q * 2 ^ k + r
bit_or_fields zero q r fits = ground (arith, bit_or-zero q)
bit_or_fields (suc k) q r fits = ground (
  arith,
  bit_or-digit (q * 2 ^ suc k) r,
  ap (λ (t : ℕ). q * t) (pow-suc 2 k),
  pow-suc 2 k,
  bit_or_fields k q (r / 2) (omega (arith, pow-suc 2 k)),
)

pub pow_add : (a b : ℕ) → 2 ^ (a + b) ≡ 2 ^ a * 2 ^ b
pow_add zero b = ap (λ (t : ℕ). 2 ^ t) zero_first ∙ omega arith
  where
    zero_first : 0 + b ≡ b
    zero_first = omega arith
pow_add (suc a) b =
    ap (λ (t : ℕ). 2 ^ t) shift
    ∙ omega (arith, pow-suc 2 (a + b), pow_add a b, ap (λ (t : ℕ). t * 2 ^ b) (pow-suc 2 a))
  where
    shift : suc a + b ≡ suc (a + b)
    shift = omega arith
