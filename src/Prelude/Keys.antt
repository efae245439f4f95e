-- ===== src/Prelude/Keys.antt =====
-- Keys: types whose equality is decided, as an instance argument.
use Prim.Native.Nat.{ℕ}
use Prim.Native.String.{String}
use mathlib.Core.Path.{◌≡◌, ap}
use mathlib.Core.Bool.{Bool, true, false}
use native.Mathlib.Decide.{ℕ_discrete}
use text.Mathlib.Text.{◌==◌}
use text.Mathlib.TextEquality.{eq_iff}

pub record DecEq {ℓ} (A : Type ℓ) : Type ℓ where
  pub dec : (a b : A) → Dec (a ≡ b)

pub differ : (s t : String) → (s == t) ≡ false → ¬ (s ≡ t)
differ s t e p = cc ((eq_iff s t).1 p)

dec_text_by : (s t : String) (b : Bool) → (s == t) ≡ b → Dec (s ≡ t)
dec_text_by s t true e = yes ((eq_iff s t).0 e)
dec_text_by s t false e = no (differ s t e)

unfoldable pub dec_text : (s t : String) → Dec (s ≡ t)
unfolding dec_text_by
dec_text s t = dec_text_by s t (s == t) (λ i. s == t)

module _ {ℓ κ} {A : Type ℓ} {B : Type κ} where
  pair_by :
      {a a' : A} {b b' : B} → Dec (a ≡ a') → Dec (b ≡ b') → Dec (◌≡◌ {A = A × B} (a, b) (a', b'))
  pair_by (yes p) (yes q) = yes (λ i. (p i, q i))
  pair_by (no n) d = no (λ p. n (ap (λ (x : A × B). x.0) p))
  pair_by (yes p) (no n) = no (λ p. n (ap (λ (x : A × B). x.1) p))

  unfoldable pub dec_pair : (DecEq A) → (DecEq B) → (x y : A × B) → Dec (x ≡ y)
  unfolding pair_by
  dec_pair d e x y = pair_by (d.dec x.0 y.0) (e.dec x.1 y.1)

instance abbrev pub nat_key : DecEq ℕ
nat_key = record { dec = ℕ_discrete }

instance abbrev pub text_key : DecEq String
text_key = record { dec = dec_text }

instance abbrev pub pair_key {ℓ κ} :
    {A : Type ℓ} {B : Type κ} ⦃d : DecEq A⦄ ⦃e : DecEq B⦄ → DecEq (A × B)
pair_key ⦃d⦄ ⦃e⦄ = record { dec = dec_pair d e }
