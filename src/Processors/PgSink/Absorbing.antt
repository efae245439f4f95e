-- ===== src/Processors/PgSink/Absorbing.antt =====
-- Statements that may be executed again: what they share, and tables by a key.
use stream_pipeline.Prelude.Dict
use stream_pipeline.Prelude.Dict.{Dict, get-put}
use stream_pipeline.Prelude.{
  ◌≡◌, refl, sym, ap, ◌∙◌, inl, inr, some, List, [], ◌∷◌, All, Result, ok, >>=-eq-ok, ok-injective,
  some-injective, subst, Option-cases, nat_key, text_key, pair_key, if_pos, if_neg, DecEq,
}
use stream_pipeline.Processors.PgSink.Tables.{for_each}

-- A statement that has no effect where its row was absorbed, and that keeps rows absorbed.
pub record Absorbing {T R : Type 0} (f : T → R → Result T) : Type 1 where
  pub Absorbs : R → T → Type 0
  pub done : (t : T) (r : R) {t' : T} → f t r ≡ ok t' → Absorbs r t'
  pub keeps : (t : T) (r q : R) {t' : T} → f t q ≡ ok t' → Absorbs r t → Absorbs r t'
  pub again : (t : T) (r : R) → Absorbs r t → f t r ≡ ok t

module _ {T R : Type 0} (f : T → R → Result T) (a : Absorbing f) where
  pub for_each-keeps :
      (rs : List R) (t : T) (r : R) {t' : T}
      → for_each f t rs ≡ ok t'
      → a.Absorbs r t
      → a.Absorbs r t'
  unfolding for_each
  for_each-keeps [] t r h k = subst (a.Absorbs r) (ok-injective h) k
  for_each-keeps (q ∷ rs) t r h k =
      let (next, one, rest) = >>=-eq-ok (f t q) _ h in
      for_each-keeps rs next r rest (a.keeps t r q one k)

  pub for_each-keeps_all :
      (qs : List R) (rs : List R) (t : T) {t' : T}
      → for_each f t qs ≡ ok t'
      → All (λ r. a.Absorbs r t) rs
      → All (λ r. a.Absorbs r t') rs
  for_each-keeps_all qs [] t h k = tt
  for_each-keeps_all qs (r ∷ rs) t h k =
      (for_each-keeps qs t r h k.0, for_each-keeps_all qs rs t h k.1)

  pub for_each-done :
      (rs : List R) (t : T) {t' : T} → for_each f t rs ≡ ok t' → All (λ r. a.Absorbs r t') rs
  unfolding for_each
  for_each-done [] t h = tt
  for_each-done (r ∷ rs) t h =
      let (next, one, rest) = >>=-eq-ok (f t r) _ h in
      (for_each-keeps rs next r rest (a.done t r one), for_each-done rs next rest)

  pub for_each-again : (rs : List R) (t : T) → All (λ r. a.Absorbs r t) rs → for_each f t rs ≡ ok t
  unfolding for_each
  for_each-again [] t h = refl
  for_each-again (r ∷ rs) t h = rw (a.again t r h.0) (for_each-again rs t h.1)

module _ {K V : Type 0} ⦃e : DecEq K⦄ where
  -- The key is in the table.
  unfoldable pub HasKey : K → Dict K V → Type 0
  HasKey k d = (v : V) × (Dict.get k d ≡ some v)

  pub put-HasKey : (k j : K) (v : V) (d : Dict K V) → HasKey k d → HasKey k (Dict.put j v d)
  unfolding HasKey
  put-HasKey k j v d (w, h) = elim (e.dec j k) [
    | yes p ↦ (v, Dict.get-put j k v d ∙ if_pos (e.dec j k) p _ _)
    | no n ↦ (w, Dict.get-put j k v d ∙ if_neg (e.dec j k) n _ _ ∙ h)
  ]

  pub put-same : (k : K) (v : V) (d : Dict K V) → Dict.get k (Dict.put k v d) ≡ some v
  put-same k v d = Dict.get-put k k v d ∙ if_pos (e.dec k k) refl _ _

  pub put-HasKey_same : (k : K) (v : V) (d : Dict K V) → HasKey k (Dict.put k v d)
  unfolding HasKey
  put-HasKey_same k v d = (v, put-same k v d)

  -- To put what is there changes nothing.
  pub put-again : (k : K) (v : V) (d : Dict K V) → Dict.get k d ≡ some v → Dict.put k v d ≡ d
  unfolding Dict.put Dict.get
  put-again k v [] h = cc
  put-again k v ((j, w) ∷ d) h = elim (e.dec j k) [
    | yes p ↦
        if_pos (e.dec j k) p _ _
        ∙ ap (λ x. (j, x) ∷ d) (some-injective (sym h ∙ if_pos (e.dec j k) p _ _))
    | no n ↦
        if_neg (e.dec j k) n _ _
        ∙ ap (◌∷◌ (j, w)) (put-again k v d (sym (if_neg (e.dec j k) n _ _) ∙ h))
  ]

  kept_default :
      (k : K) (v : V) {w : V} (d : Dict K V) → Dict.get k d ≡ some w → Dict.set_default k v d ≡ d
  unfolding Dict.set_default
  kept_default k v d e = rw (Dict.set_default, e) refl

  set_default-done : (k : K) (v : V) (d : Dict K V) → HasKey k (Dict.set_default k v d)
  unfolding Dict.set_default HasKey
  set_default-done k v d = elim (Option-cases (Dict.get k d)) [
    | inl e ↦ rw (Dict.set_default, e) (v, put-same k v d)
    | inr (w, e) ↦ subst (HasKey k) (sym (kept_default k v d e)) (w, e)
  ]

  set_default-keeps :
      (k j : K) (v : V) (d : Dict K V) → HasKey k d → HasKey k (Dict.set_default j v d)
  unfolding Dict.set_default
  set_default-keeps k j v d h = elim (Option-cases (Dict.get j d)) [
    | inl e ↦ rw (Dict.set_default, e) (put-HasKey k j v d h)
    | inr (w, e) ↦ subst (HasKey k) (sym (kept_default j v d e)) h
  ]

  set_default-again : (k : K) (v : V) (d : Dict K V) → HasKey k d → Dict.set_default k v d ≡ d
  unfolding Dict.set_default HasKey
  set_default-again k v d (w, e) = kept_default k v d e

  pub set_default-absorbing :
      {R : Type 0} (key : R → K) (val : R → V)
      → Absorbing {T = Dict K V} {R = R} (λ t r. ok (Dict.set_default (key r) (val r) t))
  set_default-absorbing key val = record {
    Absorbs = λ r t. HasKey (key r) t;
    done = λ t r h. subst (HasKey (key r)) (ok-injective h) (set_default-done (key r) (val r) t);
    keeps = λ t r q h k.
        subst (HasKey (key r)) (ok-injective h) (set_default-keeps (key r) (key q) (val q) t k);
    again = λ t r k. ap ok (set_default-again (key r) (val r) t k);
  }
