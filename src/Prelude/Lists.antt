-- ===== src/Prelude/Lists.antt =====
-- Lists measured by native numbers, and predicates by recursion on a list.
use Prim.Native.Nat.{ℕ, zero, suc, ◌+◌, ◌-◌, ◌≤◌, max}
use mathlib.Core.Path.{◌∙◌, ◌≡◌, refl, ap, subst}
use mathlib.Core.Bool.{Bool, true, false, ◌&&◌}
use mathlib.Core.List.{List, [], ◌∷◌, ◌++◌, map}
use native.Mathlib.Omega.{arith}
use stream_pipeline.Prelude.Tests.{if◌then◌else◌, Bool-cases}
use mathlib.Core.Logic.{inl, inr}
use mathlib.Core.Option.{Option, none, some}

module _ {ℓ} {A : Type ℓ} where
  abbrev pub length : List A → ℕ
  length [] = 0
  length (x ∷ xs) = suc (length xs)

  pub length-append : (xs ys : List A) → length (xs ++ ys) ≡ length xs + length ys
  length-append [] ys = omega arith
  length-append (x ∷ xs) ys = omega (arith, length-append xs ys)

  -- `[x for x in xs if p(x)]`
  unfoldable pub select : (A → Bool) → List A → List A
  select p [] = []
  select p (x ∷ xs) = let rest = select p xs in if p x then x ∷ rest else rest

  -- what every element satisfies
  abbrev pub All {κ} : (A → Type κ) → List A → Type κ
  All P (x ∷ rest) = P x × All P rest
  All P [] = Unit

  pub All-append {κ} :
      (P : A → Type κ) (front back : List A) → All P front → All P back → All P (front ++ back)
  All-append P [] back _ of_back = of_back
  All-append P (x ∷ front) back of_front of_back =
      (of_front.0, All-append P front back of_front.1 of_back)

  pub select-append :
      (p : A → Bool) (xs ys : List A) → select p (xs ++ ys) ≡ select p xs ++ select p ys
  unfolding select
  select-append p [] ys = refl
  select-append p (x ∷ xs) ys = ground (arith, select-append p xs ys)

  pub select-select :
      (p q : A → Bool) (xs : List A) → select p (select q xs) ≡ select (λ x. q x && p x) xs
  unfolding select
  select-select p q [] = refl
  select-select p q (x ∷ xs) = ground (arith, select-select p q xs)

  pub select_congr :
      (p q : A → Bool) (xs : List A) → All (λ x. p x ≡ q x) xs → select p xs ≡ select q xs
  unfolding select
  select_congr p q [] h = refl
  select_congr p q (x ∷ xs) h = ground (arith, select_congr p q xs h.1, h.0)

  pub select-true : (xs : List A) → select (λ _. true) xs ≡ xs
  unfolding select
  select-true [] = refl
  select-true (x ∷ xs) = ap (◌∷◌ x) (select-true xs)

  pub length-select-le : (p : A → Bool) (xs : List A) → length (select p xs) ≤ length xs
  unfolding select
  length-select-le p [] = omega arith
  length-select-le p (x ∷ xs) = ground (arith, length-select-le p xs)

  pub select-all : (p : A → Bool) (xs : List A) → All (λ x. p x ≡ true) xs → select p xs ≡ xs
  unfolding select
  select-all p [] h = refl
  select-all p (x ∷ xs) h = ground (arith, select-all p xs h.1, h.0)

  pub select-none : (p : A → Bool) (xs : List A) → All (λ x. p x ≡ false) xs → select p xs ≡ []
  unfolding select
  select-none p [] h = refl
  select-none p (x ∷ xs) h = ground (arith, select-none p xs h.1, h.0)

  pub All-select {κ} :
      (P : A → Type κ) (p : A → Bool) (xs : List A) → All P xs → All P (select p xs)
  unfolding select
  All-select P p [] h = tt
  All-select P p (x ∷ xs) h = elim (Bool-cases (p x)) [
    | inl e ↦ rw e (h.0, All-select P p xs h.1)
    | inr e ↦ rw e (All-select P p xs h.1)
  ]

  pub All-map {κ μ} :
      {P : A → Type κ} {Q : A → Type μ} (xs : List A) → ((x : A) → P x → Q x) → All P xs → All Q xs
  All-map [] f h = tt
  All-map (x ∷ xs) f h = (f x h.0, All-map xs f h.1)

pub All_of {ℓ κ} : {A : Type ℓ} {P : A → Type κ} (xs : List A) → ((x : A) → P x) → All P xs
All_of [] f = tt
All_of (x ∷ xs) f = (f x, All_of xs f)

-- `max(ns)`, with 0 for the empty list
abbrev pub max_of : List ℕ → ℕ
max_of [] = 0
max_of (n ∷ ns) = max n (max_of ns)

module _ {ℓ} {A : Type ℓ} where
  abbrev pub take : ℕ → List A → List A
  take zero xs = []
  take (suc n) [] = []
  take (suc n) (x ∷ xs) = x ∷ take n xs

  abbrev pub drop : ℕ → List A → List A
  drop zero xs = xs
  drop (suc n) [] = []
  drop (suc n) (x ∷ xs) = drop n xs

  -- `xs[-n:]`, for a positive n
  unfoldable pub last_n : ℕ → List A → List A
  last_n n xs = drop (length xs - n) xs

  -- `xs[i]`
  abbrev pub get_elem? : List A → ℕ → Option A
  get_elem? [] i = none
  get_elem? (x ∷ xs) zero = some x
  get_elem? (x ∷ xs) (suc i) = get_elem? xs i

  -- `[x] * n`
  abbrev pub replicate : ℕ → A → List A
  replicate zero x = []
  replicate (suc n) x = x ∷ replicate n x

  length-replicate : (n : ℕ) (x : A) → length (replicate n x) ≡ n
  length-replicate zero x = refl
  length-replicate (suc n) x = ap suc (length-replicate n x)

  drop-append : (xs ys : List A) → drop (length xs) (xs ++ ys) ≡ ys
  drop-append [] ys = refl
  drop-append (x ∷ xs) ys = drop-append xs ys

  -- The last n items of a list that ends in n items.
  pub last_n-append : (xs ys : List A) → last_n (length ys) (xs ++ ys) ≡ ys
  unfolding last_n
  last_n-append xs ys =
      let e : length (xs ++ ys) - length ys ≡ length xs = omega (arith, length-append xs ys) in
      rw e (drop-append xs ys)

  drop-append_more : (k : ℕ) (xs ys : List A) → drop (length xs + k) (xs ++ ys) ≡ drop k ys
  drop-append_more k [] ys = ap (λ n. drop n ys) (omega arith)
  drop-append_more k (x ∷ xs) ys =
      let e : length (x ∷ xs) + k ≡ suc (length xs + k) = omega arith in
      ap (λ n. drop n (x ∷ (xs ++ ys))) e ∙ drop-append_more k xs ys

  -- The last n items of a list whose end is long enough.
  pub last_n-append_long :
      (n : ℕ) (xs ys : List A) → n ≤ length ys → last_n n (xs ++ ys) ≡ last_n n ys
  unfolding last_n
  last_n-append_long n xs ys le =
      let e : length (xs ++ ys) - n ≡ length xs + (length ys - n) =
        omega (arith, le, length-append xs ys) in
      rw e (drop-append_more (length ys - n) xs ys)

  pub last_n-append_replicate :
      (xs : List A) (n : ℕ) (x : A) → last_n n (xs ++ replicate n x) ≡ replicate n x
  last_n-append_replicate xs n x =
      subst (λ k. last_n k (xs ++ replicate n x) ≡ replicate n x) (length-replicate n x)
        (last_n-append xs (replicate n x))

  pub All-drop {κ} : (P : A → Type κ) (n : ℕ) (xs : List A) → All P xs → All P (drop n xs)
  All-drop P zero xs h = h
  All-drop P (suc n) [] h = tt
  All-drop P (suc n) (x ∷ xs) h = All-drop P n xs h.1

  pub All-replicate {κ} : (P : A → Type κ) (n : ℕ) (x : A) → P x → All P (replicate n x)
  All-replicate P zero x p = tt
  All-replicate P (suc n) x p = (p, All-replicate P n x p)

pub map-drop {ℓ κ} :
    {A : Type ℓ} {B : Type κ} (f : A → B) (n : ℕ) (xs : List A)
    → map f (drop n xs) ≡ drop n (map f xs)
map-drop f zero xs = refl
map-drop f (suc n) [] = refl
map-drop f (suc n) (x ∷ xs) = map-drop f n xs

pub map-take {ℓ κ} :
    {A : Type ℓ} {B : Type κ} (f : A → B) (n : ℕ) (xs : List A)
    → map f (take n xs) ≡ take n (map f xs)
map-take f zero xs = refl
map-take f (suc n) [] = refl
map-take f (suc n) (x ∷ xs) = ap (◌∷◌ (f x)) (map-take f n xs)

abbrev pub is_empty {ℓ} : {A : Type ℓ} → List A → Bool
is_empty [] = true
is_empty (x ∷ xs) = false

abbrev pub get_or {ℓ} : {A : Type ℓ} → Option A → A → A
get_or none d = d
get_or (some a) d = a

pub select-All {ℓ} : {A : Type ℓ} (p : A → Bool) (xs : List A) → All (λ x. p x ≡ true) (select p xs)
unfolding select
select-All p [] = tt
select-All p (x ∷ xs) = elim (Bool-cases (p x)) [
  | inl e ↦ rw e (e, select-All p xs)
  | inr e ↦ rw e (select-All p xs)
]
