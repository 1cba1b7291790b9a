-- ===== src/Klib/Stdlib/Numbers.antt =====
-- Reading back the numbers that the formatter writes.
use model_lib.Base.{
  ℕ, zero, suc, ◌+◌, ◌-◌, ◌*◌, ◌/◌, ◌%◌, ◌^◌, ◌≤◌, ◌<◌, ◌≡◌, refl, sym, ap, ◌∙◌, ◌⊎◌, inl, inr,
  Bool, true, false, List, [], ◌∷◌, ◌++◌, arith, ◌!=◌, Bool-cases, lt→ltb,
}
use native.Mathlib.Nat.{pow-suc}
use mathlib.Core.Path.{subst}
use model_lib.Klib.Ctype.{isspace, isdigit, isxdigit, isalpha, isalnum, tolower}
use model_lib.Klib.Stdio.{reversed_digits, alphabet}
use model_lib.Klib.Stdio.Text.{backwards}
use model_lib.Outcome.{Outcome, ok, ◌>>=◌}
use model_lib.Klib.Stdlib.{
  IntType, unsigned_bits, signed_bits, assign, skip_space, strto_loop, strto, digit_value,
  is_outside,
}

-- One character of the alphabet is a digit of the base, of its value.
alphabet-digit :
    (base d : ℕ) (upper : Bool)
    → (base ≡ 10) ⊎ (base ≡ 16)
    → d < base
    → (isalnum (alphabet upper d) ≡ true)
      × (is_outside base (alphabet upper d) ≡ false)
      × (digit_value (alphabet upper d) ≡ d)
unfolding isalnum isalpha isdigit isxdigit tolower model_lib.Klib.Ctype.islower
    model_lib.Klib.Ctype.isupper
alphabet-digit base d true h small = (ground arith, ground arith, ground arith)
alphabet-digit base d false h small = (ground arith, ground arith, ground arith)

mod_small : (a n : ℕ) → a < n → a % n ≡ a
mod_small a n h = grind arith

-- The numbers that a type holds, without those below zero.
abbrev pub bound : IntType → ℕ
bound (unsigned_bits bits) = 2 ^ bits
bound (signed_bits bits) = 2 ^ (bits - 1)

assign_small : (t : IntType) (v : ℕ) → v < bound t → assign t v ≡ ok v
assign_small (unsigned_bits bits) v h = ap ok (mod_small v (2 ^ bits) h)
assign_small (signed_bits bits) v h = rw (lt→ltb v (2 ^ (bits - 1)) h) refl

loop-alphabet :
    (t : IntType) (base x d : ℕ) (upper : Bool) (rest : List ℕ)
    → (base ≡ 10) ⊎ (base ≡ 16)
    → d < base
    → x * base + d < bound t
    → strto_loop t base x (alphabet upper d ∷ rest) ≡ strto_loop t base (x * base + d) rest
unfolding strto_loop
loop-alphabet t base x d upper rest h small fits =
    let (known, inside, value) = alphabet-digit base d upper h small in
    rw (known, inside, value)
      (ap (λ (o : Outcome ℕ). o >>= λ v. strto_loop t base v rest)
        (assign_small t (x * base + d) fits))

append_assoc : (xs ys zs : List ℕ) → (xs ++ ys) ++ zs ≡ xs ++ (ys ++ zs)
append_assoc [] ys zs = refl
append_assoc (x ∷ xs) ys zs = ap (λ (l : List ℕ). x ∷ l) (append_assoc xs ys zs)

base-digits :
    (base v : ℕ) → (base ≡ 10) ⊎ (base ≡ 16) → (v / base * base + v % base ≡ v) × (v % base < base)
base-digits base v (inl e) = rw e (omega arith, omega arith)
base-digits base v (inr e) = rw e (omega arith, omega arith)

base-quotient : (base v n : ℕ) → (base ≡ 10) ⊎ (base ≡ 16) → v < base * n → v / base < n
base-quotient base v n (inl e) h =
    let low : v < 10 * n = subst (λ (b : ℕ). v < b * n) e h in rw e (omega arith)
base-quotient base v n (inr e) h =
    let low : v < 16 * n = subst (λ (b : ℕ). v < b * n) e h in rw e (omega arith)

pow_one : (base : ℕ) → (base ≡ 10) ⊎ (base ≡ 16) → base ^ 1 ≡ base
pow_one base (inl e) = rw e refl
pow_one base (inr e) = rw e refl

quotient_le : (base v : ℕ) → (base ≡ 10) ⊎ (base ≡ 16) → v / base ≤ v
quotient_le base v (inl e) = rw e (omega arith)
quotient_le base v (inr e) = rw e (omega arith)

loop-last :
    (t : IntType) (base value : ℕ) (upper : Bool) (rest : List ℕ)
    → (base ≡ 10) ⊎ (base ≡ 16)
    → value / base ≡ 0
    → value < bound t
    → strto_loop t base 0 (alphabet upper (value % base) ∷ rest) ≡ strto_loop t base value rest
loop-last t base value upper rest h single fits =
    let (whole, low) = base-digits base value h in
    let same : 0 * base + value % base ≡ value =
      omega (arith, ap (λ (q : ℕ). q * base) single, whole) in
    loop-alphabet t base 0 (value % base) upper rest h low (omega arith)
    ∙ ap (λ (v : ℕ). strto_loop t base v rest) same

-- The loop of strtoX reads the digits of a number.
loop-reversed_digits :
    (t : IntType) (base room value : ℕ) (upper : Bool) (rest : List ℕ)
    → (base ≡ 10) ⊎ (base ≡ 16)
    → value < base ^ suc room
    → value < bound t
    → strto_loop t base 0 (backwards (reversed_digits (suc room) value base upper) ++ rest)
      ≡ strto_loop t base value rest
unfolding reversed_digits
loop-reversed_digits t base zero value upper rest h small fits =
    let single : value / base ≡ 0 =
      omega (arith, base-quotient base value 1 h (omega (arith, small, pow_one base h))) in
    rw single (loop-last t base value upper rest h single fits)
loop-reversed_digits t base (suc room) value upper rest h small fits =
    elim (Bool-cases (value / base != 0)) [
      | inl e ↦
          let less =
            base-quotient base value (base ^ suc room) h
              (omega (arith, small, pow-suc base (suc room))) in
          rw e (
            ap (strto_loop t base 0) (
              append_assoc (backwards (reversed_digits (suc room) (value / base) base upper))
                (alphabet upper (value % base) ∷ []) rest)
            ∙ loop-reversed_digits t base room (value / base) upper
                (alphabet upper (value % base) ∷ rest) h less
                (omega (arith, quotient_le base value h))
            ∙ loop-alphabet t base (value / base) (value % base) upper rest h
                (base-digits base value h).1 (omega (arith, (base-digits base value h).0))
            ∙ ap (λ (v : ℕ). strto_loop t base v rest) (base-digits base value h).0)
      | inr e ↦ rw e (loop-last t base value upper rest h (ground arith) fits)
    ]

append-nil : (xs : List ℕ) → xs ++ [] ≡ xs
append-nil [] = refl
append-nil (x ∷ xs) = ap (λ (l : List ℕ). x ∷ l) (append-nil xs)

strto_loop-nil : (t : IntType) (base x : ℕ) → strto_loop t base x [] ≡ ok (x, [])
unfolding strto_loop
strto_loop-nil t base x = refl

skip_space-alphabet :
    (d : ℕ) (upper : Bool) (t : List ℕ)
    → d < 10
    → skip_space (alphabet upper d ∷ t) ≡ alphabet upper d ∷ t
unfolding skip_space isspace
skip_space-alphabet d upper t h =
    let solid : isspace (alphabet upper d) ≡ false = ground arith in rw solid refl

pub first-digit :
    (room value : ℕ) (upper : Bool)
    → (d : ℕ) × (t : List ℕ) × (backwards (reversed_digits (suc room) value 10 upper)
        ≡ alphabet upper d ∷ t)
      × (d < 10)
unfolding reversed_digits
first-digit zero value upper = (
  value % 10,
  [],
  elim (Bool-cases (value / 10 != 0)) [ inl e ↦ rw e refl | inr e ↦ rw e refl ],
  omega arith,
)
first-digit (suc room) value upper = elim (Bool-cases (value / 10 != 0)) [
  | inl e ↦
      let (d, t, same, small) = first-digit room (value / 10) upper in
      (
        d,
        t ++ (alphabet upper (value % 10) ∷ []),
        rw e (ap (λ (l : List ℕ). l ++ (alphabet upper (value % 10) ∷ [])) same),
        small,
      )
  | inr e ↦ (value % 10, [], rw e refl, omega arith)
]

pub strto-digits :
    (type : IntType) (value : ℕ) (upper : Bool)
    → value < 10 ^ 32
    → value < bound type
    → strto type (backwards (reversed_digits 32 value 10 upper)) 10 ≡ ok (value, [])
unfolding strto
strto-digits type value upper small fits =
    let (d, t, same, low) = first-digit 31 value upper in
    let text = backwards (reversed_digits 32 value 10 upper) in
    let start : skip_space text ≡ text =
      ap skip_space same ∙ skip_space-alphabet d upper t low ∙ sym same in
    ap (λ (s : List ℕ). strto_loop type 10 0 s) (start ∙ sym (append-nil text))
    ∙ loop-reversed_digits type 10 31 value upper [] (inl refl) small fits
    ∙ strto_loop-nil type 10 value

-- The decimal digits that the formatter writes for a number are read back by strtoul and strtoull,
-- each for the numbers of its type, up to the end of the text.
pub strto-reversed_digits :
    (bits value : ℕ) (upper : Bool)
    → value < 10 ^ 32
    → value < 2 ^ bits
    → strto (unsigned_bits bits) (backwards (reversed_digits 32 value 10 upper)) 10 ≡ ok (value, [])
strto-reversed_digits bits value upper small fits =
    strto-digits (unsigned_bits bits) value upper small fits
