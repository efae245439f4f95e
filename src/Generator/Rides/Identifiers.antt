-- ===== src/Generator/Rides/Identifiers.antt =====
-- The identifiers of rides, by their numbers: `f"r-{token}-{counter:06d}"`.
use text.Mathlib.TextLemmas.{append_cancel_left}
use stream_pipeline.Prelude.Dict.{Dict, Fresh}
use stream_pipeline.Prelude.{
  ℕ, zero, suc, ◌+◌, ◌≤◌, ◌<◌, ◌≡◌, ◌≢◌, refl, sym, ◌∙◌, String, List, [], ◌∷◌, All, All-map,
  IsNodup, text_key, arith,
}
use stream_pipeline.Common.Numerals.Values.{padded-injective}
use stream_pipeline.Generator.Rides.Creation.{ride_id_of}

pub ride_id_of-injective :
    (token : String) (m n : ℕ) → ride_id_of token m ≡ ride_id_of token n → m ≡ n
ride_id_of-injective token m n same =
    padded-injective 6 m n
      (append_cancel_left "-" _ _ (append_cancel_left token _ _ (append_cancel_left "r-" _ _ same)))

-- The identifiers of the next rides after the first `c`.
unfoldable pub ids : String → ℕ → ℕ → List String
ids token c zero = []
ids token c (suc n) = ride_id_of token (c + 1) ∷ ids token (c + 1) n

-- no identifier of the first `c` rides
pub ids-later :
    (token : String) (c n k : ℕ) → k ≤ c → All (λ id. id ≢ ride_id_of token k) (ids token c n)
unfolding ids
ids-later token c zero k le = tt
ids-later token c (suc n) k le = (
  λ same. absurd (omega (arith, le, ride_id_of-injective token (c + 1) k same)),
  ids-later token (c + 1) n k (omega (arith, le)),
)

-- The identifier of a ride that comes after the first `c`, up to the first `c'`.
abbrev pub IsBetween : String → ℕ → ℕ → String → Type 0
IsBetween token c c' id = (k : ℕ) × (c < k) × (k ≤ c') × (id ≡ ride_id_of token k)

pub ids-IsBetween :
    (token : String) (c n c' : ℕ) → c + n ≤ c' → All (IsBetween token c c') (ids token c n)
unfolding ids
ids-IsBetween token c zero c' le = tt
ids-IsBetween token c (suc n) c' le = (
  (c + 1, omega arith, omega (arith, le), refl),
  All-map (ids token (c + 1) n) (λ id (k, above, below, own). (k, omega (arith, above), below, own))
      (ids-IsBetween token (c + 1) n c' (omega (arith, le))),
)

-- So it is not that of any of the first `c`.
pub IsBetween-new :
    (token : String) (c c' : ℕ) (id : String)
    → IsBetween token c c' id
    → (k : ℕ) → k ≤ c
    → id ≢ ride_id_of token k
IsBetween-new token c c' id (j, above, below, own) k le same =
    absurd (omega (arith, above, le, ride_id_of-injective token j k (sym own ∙ same)))

pub ids-IsNodup : (token : String) (c n : ℕ) → IsNodup (ids token c n)
unfolding ids
ids-IsNodup token c zero = tt
ids-IsNodup token c (suc n) =
    (ids-later token (c + 1) n (c + 1) (omega arith), ids-IsNodup token (c + 1) n)

-- The rides under these keys are among the first `c`.
abbrev pub IsNumbered : {V : Type 0} → String → ℕ → Dict String V → Type 0
IsNumbered token c active = All (λ e. (k : ℕ) × (k ≤ c) × (e.0 ≡ ride_id_of token k)) active

pub IsNumbered-later :
    {V : Type 0} (token : String) (c c' : ℕ) (active : Dict String V)
    → c ≤ c'
    → IsNumbered token c active
    → IsNumbered token c' active
IsNumbered-later token c c' active le h =
    All-map active (λ e (k, le', same). (k, omega (arith, le, le'), same)) h

pub ids-Fresh :
    {V : Type 0} (token : String) (c n : ℕ) (active : Dict String V)
    → IsNumbered token c active
    → All (λ id. Fresh id active) (ids token c n)
unfolding ids
ids-Fresh token c zero active h = tt
ids-Fresh token c (suc n) active h = (
  All-map active
      (λ e (k, le, own) same.
        absurd (omega (arith, le, ride_id_of-injective token (c + 1) k (sym same ∙ own))))
      h,
  ids-Fresh token (c + 1) n active (IsNumbered-later token c (c + 1) active (omega arith) h),
)
