-- ===== src/Outcome.antt =====
-- How a call ends: with a value, at a failed assert or a panic (which ends the process),
-- or in behaviour that C leaves undefined, such as an access outside of an array.
use model_lib.Base.{◌≡◌, refl, ◌⊎◌, inl, inr, Bool, true, false}

pub data Outcome {ℓ} (A : Type ℓ) : Type ℓ where
  ok : A → Outcome A
  panic : Outcome A
  undefined : Outcome A

infixl 5 ◌>>=◌ ◌>>◌
abbrev pub ◌>>=◌ {ℓ κ} : {A : Type ℓ} {B : Type κ} → Outcome A → (A → Outcome B) → Outcome B
ok a >>= f = f a
panic >>= f = panic
undefined >>= f = undefined

abbrev pub ◌>>◌ {ℓ} : {B : Type ℓ} → Outcome (Unit {0}) → Outcome B → Outcome B
m >> k = m >>= λ _. k

-- `assert(cond)` and `Assert(cond, ...)`.
abbrev pub check : Bool → Outcome (Unit {0})
check true = ok tt
check false = panic

-- An access that stays inside its object.
abbrev pub inside : Bool → Outcome (Unit {0})
inside true = ok tt
inside false = undefined

pub Outcome-cases {ℓ} :
    {A : Type ℓ} (o : Outcome A) → ((a : A) × (o ≡ ok a)) ⊎ ((o ≡ panic) ⊎ (o ≡ undefined))
Outcome-cases (ok a) = inl (a, refl)
Outcome-cases panic = inr (inl refl)
Outcome-cases undefined = inr (inr refl)

-- A chain that comes to a value: its first part has, and the second one from there.
pub >>=-eq-ok {ℓ κ} :
    {A : Type ℓ} {B : Type κ} (first : Outcome A) (next : A → Outcome B) {out : B}
    → (first >>= next) ≡ ok out
    → (mid : A) × (first ≡ ok mid) × (next mid ≡ ok out)
>>=-eq-ok (ok mid) next e = (mid, refl, e)
>>=-eq-ok panic next e = cc
>>=-eq-ok undefined next e = cc

pub >>=-assoc {ℓ κ μ} :
    {A : Type ℓ} {B : Type κ} {C : Type μ} (m : Outcome A) (f : A → Outcome B) (g : B → Outcome C)
    → (m >>= f >>= g) ≡ (m >>= λ a. f a >>= g)
>>=-assoc (ok a) f g = refl
>>=-assoc panic f g = refl
>>=-assoc undefined f g = refl

-- Two ways to go on that agree.
pub >>=-cong {ℓ κ} :
    {A : Type ℓ} {B : Type κ} (m : Outcome A) (f g : A → Outcome B)
    → ((a : A) → f a ≡ g a)
    → (m >>= f) ≡ (m >>= g)
>>=-cong (ok a) f g h = h a
>>=-cong panic f g h = refl
>>=-cong undefined f g h = refl

-- Two ways to go on that agree on the value that comes.
pub >>=-cong_ok {ℓ κ} :
    {A : Type ℓ} {B : Type κ} (m : Outcome A) (f g : A → Outcome B)
    → ((a : A) → m ≡ ok a → f a ≡ g a)
    → (m >>= f) ≡ (m >>= g)
>>=-cong_ok (ok a) f g h = h a refl
>>=-cong_ok panic f g h = refl
>>=-cong_ok undefined f g h = refl
