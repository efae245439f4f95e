-- ===== src/Prelude/Results.antt =====
-- What Python code raises, and computations that may raise.
use mathlib.Core.Path.{◌≡◌, refl, sym, subst}

-- The exceptions by class. `library` is an exception of a client library.
pub data Error : Type 0 where
  value_error key_error runtime_error type_error illegal_transition integrity_error : Error
  assertion_error system_exit library : Error

pub data Result {ℓ} (A : Type ℓ) : Type ℓ where
  ok : A → Result A
  raise : Error → Result A

pub ok-injective {ℓ} : {A : Type ℓ} {x y : A} → ok x ≡ ok y → x ≡ y
ok-injective same = cc

infixl 5 ◌>>=◌
-- the rest of a program runs on what was returned, and not after an exception
abbrev pub ◌>>=◌ {κ ℓ} : {B : Type κ} {A : Type ℓ} → Result A → (A → Result B) → Result B
ok x >>= rest = rest x
raise error >>= rest = raise error

infixl 5 ◌>>◌
abbrev pub ◌>>◌ {ℓ} : {B : Type ℓ} → Result (Unit {0}) → Result B → Result B
check >> rest = check >>= λ _. rest

module _ {ℓ κ} {A : Type ℓ} {B : Type κ} where
  -- If a program returns, both parts do.
  pub >>=-eq-ok :
      (first : Result A) (rest : A → Result B) {y : B}
      → (first >>= rest) ≡ ok y
      → (x : A) × (first ≡ ok x) × (rest x ≡ ok y)
  >>=-eq-ok (ok x) rest returned = (x, refl, returned)
  >>=-eq-ok (raise error) rest returned = cc

-- The result, if there is one, satisfies `P`.
abbrev pub Ensures {ℓ κ} : {A : Type ℓ} → (A → Type κ) → Result A → Type κ
Ensures P (ok a) = P a
Ensures P (raise e) = Unit

pub >>=-Ensures {ℓ κ μ} :
    {A : Type ℓ} {B : Type κ} (P : B → Type μ) (m : Result A) (f : A → Result B)
    → ((a : A) → m ≡ ok a → Ensures P (f a))
    → Ensures P (m >>= f)
>>=-Ensures P (ok a) f h = h a refl
>>=-Ensures P (raise e) f h = tt

pub Ensures-ok {ℓ κ} :
    {A : Type ℓ} (P : A → Type κ) (m : Result A) {a : A} → m ≡ ok a → Ensures P m → P a
Ensures-ok P m e h = subst (Ensures P) e h

-- The program returns, and what it returns satisfies `P`.
abbrev pub Returns {ℓ κ} : {A : Type ℓ} → (A → Type κ) → Result A → Type (ℓ ⊔ κ)
Returns {A = A} P result = (a : A) × (result ≡ ok a) × P a

pub Returns->>= {ℓ κ μ ν} :
    {A : Type ℓ} {B : Type κ} (P : A → Type μ) (Q : B → Type ν) (m : Result A) (f : A → Result B)
    → Returns P m
    → ((a : A) → P a → Returns Q (f a))
    → Returns Q (m >>= f)
Returns->>= P Q m f (a, e, p) next = subst (λ x. Returns Q (x >>= f)) (sym e) (next a p)

-- What follows may be replaced by what does the same.
pub >>=-ap {ℓ κ} :
    {A : Type ℓ} {B : Type κ} (m : Result A) (f g : A → Result B)
    → ((a : A) → f a ≡ g a)
    → (m >>= f) ≡ (m >>= g)
>>=-ap (ok a) f g same = same a
>>=-ap (raise e) f g same = refl

pub >>=->>= {ℓ κ μ} :
    {A : Type ℓ} {B : Type κ} {C : Type μ} (m : Result A) (f : A → Result B) (g : B → Result C)
    → (m >>= f >>= g) ≡ (m >>= λ a. f a >>= g)
>>=->>= (ok a) f g = refl
>>=->>= (raise e) f g = refl
