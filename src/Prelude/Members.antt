-- ===== src/Prelude/Members.antt =====
-- Membership in a list by recursion, and lists without duplicates.
use mathlib.Core.Path.{◌≡◌, refl, sym, ap, ◌∙◌, subst}
use mathlib.Core.Logic.{◌≢◌, ◌⊎◌, inl, inr}
use mathlib.Core.Bool.{Bool, true}
use mathlib.Core.List.{List, [], ◌∷◌, ◌++◌, map}
use stream_pipeline.Prelude.Tests.{Bool-cases}
use stream_pipeline.Prelude.Lists.{All, select, All-append}

module _ {A : Type 0} where
  abbrev pub In : A → List A → Type 0
  In a [] = ⊥
  In a (x ∷ xs) = (x ≡ a) ⊎ In a xs

  pub In-append_left : (a : A) (xs ys : List A) → In a xs → In a (xs ++ ys)
  In-append_left a (x ∷ xs) ys (inl e) = inl e
  In-append_left a (x ∷ xs) ys (inr i) = inr (In-append_left a xs ys i)
  In-append_left a [] ys i = elim i [ ]

  pub In-append_right : (a : A) (xs ys : List A) → In a ys → In a (xs ++ ys)
  In-append_right a [] ys i = i
  In-append_right a (x ∷ xs) ys i = inr (In-append_right a xs ys i)

  pub In-append_or : (a : A) (xs ys : List A) → In a (xs ++ ys) → In a xs ⊎ In a ys
  In-append_or a [] ys i = inr i
  In-append_or a (x ∷ xs) ys (inl e) = inl (inl e)
  In-append_or a (x ∷ xs) ys (inr i) = elim (In-append_or a xs ys i) [
    | inl j ↦ inl (inr j)
    | inr j ↦ inr j
  ]

  pub In-select : (p : A → Bool) (a : A) (xs : List A) → In a xs → p a ≡ true → In a (select p xs)
  unfolding select
  In-select p a [] i h = elim i [ ]
  In-select p a (x ∷ xs) (inl e) h = rw (ap p e ∙ h) (inl e)
  In-select p a (x ∷ xs) (inr i) h = elim (Bool-cases (p x)) [
    | inl b ↦ rw b (inr (In-select p a xs i h))
    | inr b ↦ rw b (In-select p a xs i h)
  ]

  pub select-In : (p : A → Bool) (a : A) (xs : List A) → In a (select p xs) → In a xs × (p a ≡ true)
  unfolding select
  select-In p a [] i = elim i [ ]
  select-In p a (x ∷ xs) i = elim (Bool-cases (p x)) [
    | inl b ↦ elim (rw b at i) [
      | inl e ↦ (inl e, ap p (sym e) ∙ b)
      | inr j ↦ let (k, h) = select-In p a xs j in (inr k, h)
    ]
    | inr b ↦ let (k, h) = select-In p a xs (rw b at i) in (inr k, h)
  ]

  pub All-In {κ} : (P : A → Type κ) (a : A) (xs : List A) → All P xs → In a xs → P a
  All-In P a (x ∷ xs) h (inl e) = subst P e h.0
  All-In P a (x ∷ xs) h (inr i) = All-In P a xs h.1 i
  All-In P a [] h i = elim i [ ]

  pub All_In {κ} : {P : A → Type κ} (xs : List A) → ((a : A) → In a xs → P a) → All P xs
  All_In [] f = tt
  All_In (x ∷ xs) f = (f x (inl refl), All_In xs (λ a i. f a (inr i)))

  -- No element twice.
  abbrev pub IsNodup : List A → Type 0
  IsNodup [] = Unit
  IsNodup (x ∷ xs) = All (λ y. y ≢ x) xs × IsNodup xs

  pub IsNodup-append :
      (xs ys : List A)
      → IsNodup xs
      → IsNodup ys
      → All (λ x. All (λ y. y ≢ x) ys) xs
      → IsNodup (xs ++ ys)
  IsNodup-append [] ys hx hy h = hy
  IsNodup-append (x ∷ xs) ys hx hy h =
      (All-append _ xs ys hx.0 h.0, IsNodup-append xs ys hx.1 hy h.1)

pub All-of-map {κ} :
    {A B : Type 0} (P : B → Type κ) (f : A → B) (xs : List A)
    → All (λ x. P (f x)) xs
    → All P (map f xs)
All-of-map P f [] h = tt
All-of-map P f (x ∷ xs) h = (h.0, All-of-map P f xs h.1)

module _ {A B : Type 0} (f : A → B) where
  pub In-map : (x : A) (xs : List A) → In x xs → In (f x) (map f xs)
  In-map x [] i = elim i [ ]
  In-map x (y ∷ ys) (inl e) = inl (ap f e)
  In-map x (y ∷ ys) (inr i) = inr (In-map x ys i)

  pub map-In : (b : B) (xs : List A) → In b (map f xs) → (x : A) × In x xs × (f x ≡ b)
  map-In b [] i = elim i [ ]
  map-In b (y ∷ ys) (inl e) = (y, inl refl, e)
  map-In b (y ∷ ys) (inr i) = let (x, j, e) = map-In b ys i in (x, inr j, e)
