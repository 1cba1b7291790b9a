-- ===== src/Base/Bytes.antt =====
-- A bitwise operation on words, byte by byte.
use Prim.Native.Nat.{ℕ, zero, suc, ◌+◌, ◌*◌, ◌/◌, ◌%◌, ◌^◌, ◌<◌, min, max}
use Prim.Native.Nat.{bit_and, bit_or, bit_xor, differ}
use mathlib.Core.Path.{◌≡◌, refl, ap, ap₂, ◌∙◌}
use native.Mathlib.Nat.{pow-suc}
use native.Mathlib.Omega.{arith}
use model_lib.Base.Bits.{bit_and-digit, bit_or-digit, bit_xor-digit}

-- An operation that works digit by digit.
pub record Bitwise (op digit : ℕ → ℕ → ℕ) : Type 0 where
  pub digits_eq : (x y : ℕ) → op x y ≡ op (x / 2) (y / 2) * 2 + digit (x % 2) (y % 2)
  pub digit_small : (a b : ℕ) → a < 2 → b < 2 → digit a b < 2
  pub at_zero : op 0 0 ≡ 0

module _ {op digit : ℕ → ℕ → ℕ} (bitwise : Bitwise op digit) where
  bitwise_fields :
      (k q r p s : ℕ)
      → r < 2 ^ k
      → s < 2 ^ k
      → op (q * 2 ^ k + r) (p * 2 ^ k + s) ≡ op q p * 2 ^ k + op r s
  bitwise_fields zero q r p s hr hs =
      let qe : q * 2 ^ 0 + r ≡ q = omega arith in
      let pe : p * 2 ^ 0 + s ≡ p = omega arith in
      let re : r ≡ 0 = omega arith in
      let se : s ≡ 0 = omega arith in ap₂ op qe pe ∙ omega (arith, ap₂ op re se, bitwise.at_zero)
  bitwise_fields (suc k) q r p s hr hs =
      let x = q * 2 ^ suc k + r in
      let y = p * 2 ^ suc k + s in
      let qk : q * 2 ^ suc k ≡ q * 2 ^ k * 2 = ap (λ (t : ℕ). q * t) (pow-suc 2 k) ∙ omega arith in
      let pk : p * 2 ^ suc k ≡ p * 2 ^ k * 2 = ap (λ (t : ℕ). p * t) (pow-suc 2 k) ∙ omega arith in
      let ok : op q p * 2 ^ suc k ≡ op q p * 2 ^ k * 2 =
        ap (λ (t : ℕ). op q p * t) (pow-suc 2 k) ∙ omega arith in
      let xh : x / 2 ≡ q * 2 ^ k + r / 2 = omega (arith, qk) in
      let yh : y / 2 ≡ p * 2 ^ k + s / 2 = omega (arith, pk) in
      let xl : x % 2 ≡ r % 2 = omega (arith, qk) in
      let yl : y % 2 ≡ s % 2 = omega (arith, pk) in
      omega (
        arith,
        bitwise.digits_eq x y,
        bitwise.digits_eq r s,
        ap₂ op xh yh,
        ap₂ digit xl yl,
        ok,
        bitwise_fields k q (r / 2) p (s / 2) (omega (arith, pow-suc 2 k))
            (omega (arith, pow-suc 2 k)),
      )

  -- The result is no longer than the operands.
  pub bitwise_small : (k x y : ℕ) → x < 2 ^ k → y < 2 ^ k → op x y < 2 ^ k
  bitwise_small zero x y hx hy =
      let xe : x ≡ 0 = omega arith in
      let ye : y ≡ 0 = omega arith in omega (arith, ap₂ op xe ye, bitwise.at_zero)
  bitwise_small (suc k) x y hx hy = omega (
    arith,
    pow-suc 2 k,
    bitwise.digits_eq x y,
    bitwise.digit_small (x % 2) (y % 2) (omega arith) (omega arith),
    bitwise_small k (x / 2) (y / 2) (omega (arith, pow-suc 2 k)) (omega (arith, pow-suc 2 k)),
  )

  bitwise_byte : (x y : ℕ) → op x y ≡ op (x / 256) (y / 256) * 256 + op (x % 256) (y % 256)
  bitwise_byte x y =
      let xe : x ≡ x / 256 * 2 ^ 8 + x % 256 = omega arith in
      let ye : y ≡ y / 256 * 2 ^ 8 + y % 256 = omega arith in
      ap₂ op xe ye
      ∙ bitwise_fields 8 (x / 256) (x % 256) (y / 256) (y % 256) (omega arith) (omega arith)

  -- A word from the results on its four bytes.
  pub bitwise_word :
      (x y : ℕ)
      → x < 2 ^ 32
      → y < 2 ^ 32
      → op (x % 256) (y % 256)
          + 256
            * (op (x / 256 % 256) (y / 256 % 256)
                + 256
                  * (op (x / 65536 % 256) (y / 65536 % 256)
                      + 256 * op (x / 16777216 % 256) (y / 16777216 % 256)))
        ≡ op x y
  bitwise_word x y hx hy =
      let x2 : x / 256 / 256 ≡ x / 65536 = omega arith in
      let y2 : y / 256 / 256 ≡ y / 65536 = omega arith in
      let x3 : x / 65536 / 256 ≡ x / 16777216 % 256 = omega arith in
      let y3 : y / 65536 / 256 ≡ y / 16777216 % 256 = omega arith in
      omega (
        arith,
        bitwise_byte x y,
        bitwise_byte (x / 256) (y / 256),
        bitwise_byte (x / 65536) (y / 65536),
        ap₂ op x2 y2,
        ap₂ op x3 y3,
      )

pub bit_and-Bitwise : Bitwise bit_and min
bit_and-Bitwise = record {
  digits_eq = bit_and-digit;
  digit_small = λ a b ha hb. ground arith;
  at_zero = refl;
}

pub bit_or-Bitwise : Bitwise bit_or max
bit_or-Bitwise = record {
  digits_eq = bit_or-digit;
  digit_small = λ a b ha hb. ground arith;
  at_zero = refl;
}

differ_small : (a b : ℕ) → a < 2 → b < 2 → differ a b < 2
differ_small zero b ha hb = hb
differ_small (suc zero) zero ha hb = omega arith
differ_small (suc zero) (suc zero) ha hb = omega arith
differ_small (suc zero) (suc (suc b)) ha hb = absurd (omega arith)
differ_small (suc (suc a)) b ha hb = absurd (omega arith)

pub bit_xor-Bitwise : Bitwise bit_xor differ
bit_xor-Bitwise = record { digits_eq = bit_xor-digit; digit_small = differ_small; at_zero = refl }
