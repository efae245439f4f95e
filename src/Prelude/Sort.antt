-- ===== src/Prelude/Sort.antt =====
-- `sorted` on numbers, and on the pairs of a dict by their key.
use Prim.Native.Nat.{ℕ, suc, max}
use mathlib.Core.Path.{◌≡◌, refl, ap, ◌∙◌}
use mathlib.Core.List.{List, [], ◌∷◌, map}
use native.Mathlib.Omega.{arith}
use stream_pipeline.Prelude.Tests.{leb, if◌then◌else◌, Bool-cases}
use stream_pipeline.Prelude.Lists.{length, max_of, All}
use mathlib.Core.Logic.{◌⊎◌, inl, inr}
use stream_pipeline.Prelude.Members.{In, All-In, All_In}

module _ {ℓ} {A : Type ℓ} (key : A → ℕ) where
  unfoldable pub insort : A → List A → List A
  insort a [] = a ∷ []
  insort a (x ∷ xs) = let rest = insort a xs in if leb (key a) (key x) then a ∷ x ∷ xs else x ∷ rest

  -- `sorted(xs, key=key)`
  unfoldable pub sorted : List A → List A
  unfolding insort
  sorted [] = []
  sorted (x ∷ xs) = insort x (sorted xs)

  length-insort : (a : A) (xs : List A) → length (insort a xs) ≡ suc (length xs)
  unfolding insort
  length-insort a [] = refl
  length-insort a (x ∷ xs) = ground (arith, length-insort a xs)

  pub length-sorted : (xs : List A) → length (sorted xs) ≡ length xs
  unfolding sorted
  length-sorted [] = refl
  length-sorted (x ∷ xs) = length-insort x (sorted xs) ∙ ap suc (length-sorted xs)

  All-insort {κ} : (P : A → Type κ) (a : A) (xs : List A) → P a → All P xs → All P (insort a xs)
  unfolding insort
  All-insort P a [] p h = (p, tt)
  All-insort P a (x ∷ xs) p h = elim (Bool-cases (leb (key a) (key x))) [
    | inl e ↦ rw e (p, h)
    | inr e ↦ rw e (h.0, All-insort P a xs p h.1)
  ]

  pub All-sorted {κ} : (P : A → Type κ) (xs : List A) → All P xs → All P (sorted xs)
  unfolding sorted
  All-sorted P [] h = tt
  All-sorted P (x ∷ xs) h = All-insort P x (sorted xs) h.0 (All-sorted P xs h.1)

  max_of-insort :
      (f : A → ℕ) (a : A) (xs : List A)
      → max_of (map f (insort a xs)) ≡ max (f a) (max_of (map f xs))
  unfolding insort
  max_of-insort f a [] = refl
  max_of-insort f a (x ∷ xs) = ground (arith, max_of-insort f a xs)

  pub max_of-sorted : (f : A → ℕ) (xs : List A) → max_of (map f (sorted xs)) ≡ max_of (map f xs)
  unfolding sorted
  max_of-sorted f [] = refl
  max_of-sorted f (x ∷ xs) = max_of-insort f x (sorted xs) ∙ ap (max (f x)) (max_of-sorted f xs)

module _ {A : Type 0} (key : A → ℕ) where
  In-insort : (x a : A) (xs : List A) → (a ≡ x) ⊎ In x xs → In x (insort key a xs)
  unfolding insort
  In-insort x a [] i = i
  In-insort x a (y ∷ ys) i = elim (Bool-cases (leb (key a) (key y))) [
    | inl e ↦ rw e i
    | inr e ↦ rw e (elim i [
      | inl p ↦ inr (In-insort x a ys (inl p))
      | inr (inl p) ↦ inl p
      | inr (inr j) ↦ inr (In-insort x a ys (inr j))
    ])
  ]

  -- `sorted` has the elements of the list,
  pub In-sorted : (x : A) (xs : List A) → In x xs → In x (sorted key xs)
  unfolding sorted
  In-sorted x [] i = i
  In-sorted x (a ∷ xs) (inl e) = In-insort x a (sorted key xs) (inl e)
  In-sorted x (a ∷ xs) (inr i) = In-insort x a (sorted key xs) (inr (In-sorted x xs i))

  -- and no others.
  pub sorted-In : (x : A) (xs : List A) → In x (sorted key xs) → In x xs
  sorted-In x xs i =
      All-In (λ y. In y xs) x (sorted key xs)
        (All-sorted key (λ y. In y xs) xs (All_In xs (λ y j. j))) i

module _ {ℓ κ} {A : Type ℓ} {B : Type κ} (key : A → ℕ) (key' : B → ℕ) (g : A → B) where
  map-insort :
      (a : A) (xs : List A)
      → ((x : A) → key' (g x) ≡ key x)
      → map g (insort key a xs) ≡ insort key' (g a) (map g xs)
  unfolding insort
  map-insort a [] h = refl
  map-insort a (x ∷ xs) h = ground (arith, map-insort a xs h, h a, h x)

  -- A map that keeps the keys goes under `sorted`.
  pub map-sorted :
      (xs : List A)
      → ((x : A) → key' (g x) ≡ key x)
      → map g (sorted key xs) ≡ sorted key' (map g xs)
  unfolding sorted
  map-sorted [] h = refl
  map-sorted (x ∷ xs) h = map-insort x (sorted key xs) h ∙ ap (insort key' (g x)) (map-sorted xs h)
