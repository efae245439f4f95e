-- ===== src/Prelude/Dict.antt =====
-- A Python `dict`: its pairs in insertion order. To assign to a key that is there keeps its place.
use stream_pipeline.Prelude.Keys.{DecEq}
use stream_pipeline.Prelude.Lists.{All}
use mathlib.Core.Path.{◌≡◌, refl, sym, subst, subst₂, ◌∙◌}
use mathlib.Core.Logic.{◌≢◌, if_pos, if_neg}
unfoldable use mathlib.Core.Logic.{ite}
use mathlib.Core.Option.{Option, none, some}
use mathlib.Core.List.{List, [], ◌∷◌, map}
use native.Mathlib.Omega.{arith}

abbrev pub Dict {ℓ κ} : Type ℓ → Type κ → Type (ℓ ⊔ κ)
Dict K V = List (K × V)

module _ {ℓ κ} {K : Type ℓ} {V : Type κ} where
  -- `d.values()`
  abbrev pub values : Dict K V → List V
  values = map (λ e. e.1)

  -- `list(d)`
  abbrev pub keys : Dict K V → List K
  keys = map (λ e. e.0)

module _ {ℓ} {K V : Type ℓ} ⦃e : DecEq K⦄ where
  -- `d.get(k)`
  unfoldable pub get : K → Dict K V → Option V
  get k [] = none
  get k ((j, v) ∷ d) = ite (e.dec j k) (some v) (get k d)

  -- `d[k] = v`
  unfoldable pub put : K → V → Dict K V → Dict K V
  put k v [] = (k, v) ∷ []
  put k v ((j, w) ∷ d) = ite (e.dec j k) ((j, v) ∷ d) ((j, w) ∷ put k v d)

  -- `d.setdefault(k, v)`, for its effect
  unfoldable pub set_default : K → V → Dict K V → Dict K V
  set_default k v d = elim (get k d) [ none ↦ put k v d | some _ ↦ d ]

  -- `d.pop(k, None)`
  unfoldable pub pop : K → Dict K V → Dict K V
  pop k [] = []
  pop k ((j, w) ∷ d) = ite (e.dec j k) (pop k d) ((j, w) ∷ pop k d)

  pub get-put :
      (k j : K) (v : V) (d : Dict K V) → get j (put k v d) ≡ ite (e.dec k j) (some v) (get j d)
  unfolding get put
  get-put k j v [] = refl
  get-put k j v ((i, w) ∷ d) = ground (arith, get-put k j v d)

  pub get-pop : (k j : K) (d : Dict K V) → get j (pop k d) ≡ ite (e.dec k j) none (get j d)
  unfolding get pop
  get-pop k j [] = ground arith
  get-pop k j ((i, w) ∷ d) = ground (arith, get-pop k j d)

module _ {ℓ} {K V : Type ℓ} where
  abbrev pub Fresh : K → Dict K V → Type ℓ
  Fresh k d = All (λ (x : K × V). x.0 ≢ k) d

  -- No key twice, which holds of every `dict`.
  abbrev pub IsDict : Dict K V → Type ℓ
  IsDict [] = Unit
  IsDict ((k, v) ∷ d) = Fresh k d × IsDict d

module _ {ℓ} {K V : Type ℓ} ⦃e : DecEq K⦄ where
  pub get_of_Fresh : (k : K) (d : Dict K V) → Fresh k d → get k d ≡ none
  unfolding get
  get_of_Fresh k [] h = refl
  get_of_Fresh k ((j, w) ∷ d) h = rw (if_neg (e.dec j k) h.0) (get_of_Fresh k d h.1)

  Fresh-put : (k j : K) (v : V) (d : Dict K V) → Fresh j d → k ≢ j → Fresh j (put k v d)
  unfolding put
  Fresh-put k j v [] h n = (n, tt)
  Fresh-put k j v ((i, w) ∷ d) h n = elim (e.dec i k) [
    | yes p ↦ rw (if_pos (e.dec i k) p) h
    | no q ↦ rw (if_neg (e.dec i k) q) (h.0, Fresh-put k j v d h.1 n)
  ]

  pub put-IsDict : (k : K) (v : V) (d : Dict K V) → IsDict d → IsDict (put k v d)
  unfolding put
  put-IsDict k v [] h = (tt, tt)
  put-IsDict k v ((i, w) ∷ d) h = elim (e.dec i k) [
    | yes p ↦ rw (if_pos (e.dec i k) p) h
    | no q ↦
        rw (if_neg (e.dec i k) q) (Fresh-put k i v d h.0 (λ p. q (sym p)), put-IsDict k v d h.1)
  ]

module _ {ℓ} {K V : Type ℓ} ⦃e : DecEq K⦄ where
  pub All-put :
      (P : K × V → Type ℓ) (k : K) (v : V) (d : Dict K V) → P (k, v) → All P d → All P (put k v d)
  unfolding put
  All-put P k v [] p h = (p, tt)
  All-put P k v ((i, w) ∷ d) p h = elim (e.dec i k) [
    | yes q ↦ rw (if_pos (e.dec i k) q) (subst (λ j. P (j, v)) (sym q) p, h.1)
    | no q ↦ rw (if_neg (e.dec i k) q) (h.0, All-put P k v d p h.1)
  ]

  pub All_at :
      (P : K × V → Type ℓ) (k : K) (v : V) (d : Dict K V) → All P d → get k d ≡ some v → P (k, v)
  unfolding get
  All_at P k v [] h g = cc
  All_at P k v ((i, w) ∷ d) h g = elim (e.dec i k) [
    | yes q ↦ let same : w ≡ v = ground arith in subst₂ (λ j u. P (j, u)) q same h.0
    | no q ↦ All_at P k v d h.1 (ground arith)
  ]

module _ {ℓ} {K V : Type ℓ} ⦃e : DecEq K⦄ where
  pub All-pop : (P : K × V → Type ℓ) (k : K) (d : Dict K V) → All P d → All P (pop k d)
  unfolding pop
  All-pop P k [] h = tt
  All-pop P k ((j, w) ∷ d) h = elim (e.dec j k) [
    | yes q ↦ rw (if_pos (e.dec j k) q) (All-pop P k d h.1)
    | no q ↦ rw (if_neg (e.dec j k) q) (h.0, All-pop P k d h.1)
  ]

  pub pop-IsDict : (k : K) (d : Dict K V) → IsDict d → IsDict (pop k d)
  unfolding pop
  pop-IsDict k [] h = tt
  pop-IsDict k ((j, w) ∷ d) h = elim (e.dec j k) [
    | yes q ↦ rw (if_pos (e.dec j k) q) (pop-IsDict k d h.1)
    | no q ↦ rw (if_neg (e.dec j k) q) (All-pop (λ x. x.0 ≢ j) k d h.0, pop-IsDict k d h.1)
  ]

  pub pop-Fresh : (k : K) (d : Dict K V) → Fresh k (pop k d)
  unfolding pop
  pop-Fresh k [] = tt
  pop-Fresh k ((j, w) ∷ d) = elim (e.dec j k) [
    | yes q ↦ rw (if_pos (e.dec j k) q) (pop-Fresh k d)
    | no q ↦ rw (if_neg (e.dec j k) q) (q, pop-Fresh k d)
  ]

  pub Fresh-of_get : (k : K) (d : Dict K V) → get k d ≡ none → Fresh k d
  unfolding get
  Fresh-of_get k [] h = tt
  Fresh-of_get k ((j, w) ∷ d) h = elim (e.dec j k) [
    | yes q ↦ let no_way : some w ≡ none = sym (if_pos (e.dec j k) q _ _) ∙ h in cc
    | no q ↦ (q, Fresh-of_get k d (sym (if_neg (e.dec j k) q _ _) ∙ h))
  ]
