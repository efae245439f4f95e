-- ===== src/Processors/PgSink/MaxOffsets.antt =====
-- The maximal offsets of a batch, and the table of offsets they are upserted into, as maps that
-- only grow.
use stream_pipeline.Prelude.Dict
use stream_pipeline.Prelude.Dict.{Dict}
use stream_pipeline.Prelude.{
  ℕ, ◌≡◌, ◌⊎◌, refl, sym, ap, ◌∙◌, inl, inr, none, some, max, Option-cases, arith, if_pos, if_neg,
  DecEq, List, [], ◌∷◌, String, text_key, nat_key, pair_key, ok,
}
unfoldable use mathlib.Core.Logic.{ite}
use stream_pipeline.Dlq.Envelope.{Message}
use stream_pipeline.Processors.PgSink.Tables.{Position, upsert_offset, for_each}
use stream_pipeline.Processors.PgSink.Sink.{note_offset, positions}

module _ {K : Type 0} ⦃e : DecEq K⦄ where
  -- the value of a key, raised to at least `v`
  unfoldable pub raised : K → ℕ → Dict K ℕ → Dict K ℕ
  raised k v [] = (k, v) ∷ []
  raised k v ((j, w) ∷ d) = ite (e.dec j k) ((j, max v w) ∷ d) ((j, w) ∷ raised k v d)

  -- each of a list of pairs in turn
  unfoldable pub all_raised : Dict K ℕ → List (K × ℕ) → Dict K ℕ
  all_raised t [] = t
  all_raised t ((k, v) ∷ d) = all_raised (raised k v t) d

  HasKey : K → Dict K ℕ → Type 0
  HasKey k [] = ⊥
  HasKey k ((j, w) ∷ d) = (j ≡ k) ⊎ HasKey k d

  raised-HasKey : (k : K) (v : ℕ) (t : Dict K ℕ) → HasKey k (raised k v t)
  unfolding raised HasKey
  raised-HasKey k v [] = inl refl
  raised-HasKey k v ((j, w) ∷ t) = elim (e.dec j k) [
    | yes p ↦ rw (if_pos (e.dec j k) p) (inl p)
    | no n ↦ rw (if_neg (e.dec j k) n) (inr (raised-HasKey k v t))
  ]

  HasKey-raised : (k j : K) (v : ℕ) (t : Dict K ℕ) → HasKey k t → HasKey k (raised j v t)
  unfolding raised HasKey
  HasKey-raised k j v [] h = absurd h
  HasKey-raised k j v ((i, w) ∷ t) h = elim (e.dec i j) [
    | yes p ↦ rw (if_pos (e.dec i j) p) h
    | no n ↦
        rw (if_neg (e.dec i j) n) (elim h [ inl q ↦ inl q | inr q ↦ inr (HasKey-raised k j v t q) ])
  ]

  raised-raised_same :
      (k : K) (v w : ℕ) (t : Dict K ℕ) → raised k v (raised k w t) ≡ raised k (max v w) t
  unfolding raised
  raised-raised_same k v w [] = ground arith
  raised-raised_same k v w ((i, x) ∷ t) = ground (arith, raised-raised_same k v w t)

  raised-raised :
      (k j : K) (v w : ℕ) (t : Dict K ℕ)
      → HasKey k t
      → raised k v (raised j w t) ≡ raised j w (raised k v t)
  unfolding raised HasKey
  raised-raised k j v w [] h = absurd h
  raised-raised k j v w ((i, x) ∷ t) (inl p) = ground (arith, p)
  raised-raised k j v w ((i, x) ∷ t) (inr later) = ground (arith, raised-raised k j v w t later)

  raised-all_raised :
      (k : K) (v : ℕ) (t : Dict K ℕ) (d : List (K × ℕ))
      → HasKey k t
      → raised k v (all_raised t d) ≡ all_raised (raised k v t) d
  unfolding all_raised
  raised-all_raised k v t [] h = refl
  raised-all_raised k v t ((j, w) ∷ d) h =
      raised-all_raised k v (raised j w t) d (HasKey-raised k j w t h)
      ∙ ap (λ s. all_raised s d) (raised-raised k j v w t h)

  -- To raise a key among those to be upserted is to upsert it last.
  pub all_raised-raised :
      (k : K) (v : ℕ) (t : Dict K ℕ) (d : List (K × ℕ))
      → all_raised t (raised k v d) ≡ raised k v (all_raised t d)
  unfolding all_raised raised
  all_raised-raised k v t [] = refl
  all_raised-raised k v t ((j, w) ∷ d) = elim (e.dec j k) [
    | yes p ↦ rw (if_pos (e.dec j k) p) (
        ap (λ i. all_raised (raised i (max v w) t) d) p
        ∙ (ap (λ s. all_raised s d) (sym (raised-raised_same k v w t))
            ∙ (sym (raised-all_raised k v (raised k w t) d (raised-HasKey k w t))
                ∙ ap (λ i. raised k v (all_raised (raised i w t) d)) (sym p))))
    | no n ↦ rw (if_neg (e.dec j k) n) (all_raised-raised k v (raised j w t) d)
  ]

module _ {K : Type 0} ⦃e : DecEq K⦄ where
  raised_at :
      (k j : K) (v w : ℕ) (d : Dict K ℕ) → j ≡ k → raised k v ((j, w) ∷ d) ≡ (j, max v w) ∷ d
  unfolding raised
  raised_at k j v w d p = if_pos (e.dec j k) p _ _

  raised_past :
      (k j : K) (v w : ℕ) (d : Dict K ℕ)
      → ¬ (j ≡ k)
      → raised k v ((j, w) ∷ d) ≡ (j, w) ∷ raised k v d
  unfolding raised
  raised_past k j v w d n = if_neg (e.dec j k) n _ _

  put-raised :
      (k : K) (v : ℕ) (d : Dict K ℕ)
      → (Dict.get k d ≡ none → Dict.put k v d ≡ raised k v d)
        × ((old : ℕ) → Dict.get k d ≡ some old → Dict.put k (max v old) d ≡ raised k v d)
  unfolding Dict.get Dict.put raised
  put-raised k v [] = (λ h. refl, λ old h. cc)
  put-raised k v ((j, w) ∷ d) =
      let (absent, present) = put-raised k v d in
      elim (e.dec j k) [
        | yes p ↦ (λ h. ground (arith, p, h), λ old h. ground (arith, p, h))
        | no n ↦ (λ h. ground (arith, n, h, absent), λ old h. ground (arith, n, h, present old))
      ]

upsert_offset-raised :
    (t : Dict Position ℕ) (k : Position) (v : ℕ) → upsert_offset t (k, v) ≡ raised k v t
unfolding upsert_offset
upsert_offset-raised t k v =
    let (absent, present) = put-raised k v t in
    elim (Option-cases (Dict.get k t)) [
      | inl h ↦ rw (upsert_offset, h) (absent h)
      | inr (old, h) ↦ rw (upsert_offset, h) (present old h)
    ]

pub note_offset-raised :
    (d : Dict (String × ℕ) ℕ) (m : Message)
    → note_offset d m ≡ raised (m.topic, m.partition) m.offset d
unfolding note_offset
note_offset-raised d m =
    let (absent, present) = put-raised (m.topic, m.partition) m.offset d in
    elim (Option-cases (Dict.get (m.topic, m.partition) d)) [
      | inl h ↦ rw (note_offset, h) (absent h)
      | inr (old, h) ↦
          let same : max old m.offset ≡ max m.offset old = omega arith in
          rw (note_offset, h, same) (present old h)
    ]

pub for_each-all_raised :
    (t : Dict Position ℕ) (ps : List (Position × ℕ))
    → for_each (λ t r. ok (upsert_offset t r)) t ps ≡ ok (all_raised t ps)
unfolding for_each all_raised
for_each-all_raised t [] = refl
for_each-all_raised t ((k, v) ∷ ps) =
    for_each-all_raised (upsert_offset t (k, v)) ps
    ∙ ap (λ s. ok (all_raised s ps)) (upsert_offset-raised t k v)

pub positions-raised :
    (group_id : String) (k : String × ℕ) (v : ℕ) (d : Dict (String × ℕ) ℕ)
    → positions group_id (raised k v d) ≡ raised (group_id, k) v (positions group_id d)
unfolding raised
positions-raised group_id k v [] = refl
positions-raised group_id k v ((j, w) ∷ d) =
    let part : DecEq (String × ℕ) = pair_key in
    let there : List (Position × ℕ) = positions group_id d in
    elim (part.dec j k) [
      | yes p ↦
          ap (positions group_id) (raised_at k j v w d p)
          ∙ sym (raised_at (group_id, k) (group_id, j) v w there (ap (λ i. (group_id, i)) p))
      | no n ↦
          ap (positions group_id) (raised_past k j v w d n)
          ∙ (ap (λ x. ((group_id, j), w) ∷ x) (positions-raised group_id k v d)
              ∙ sym (
                  raised_past (group_id, k) (group_id, j) v w there
                    (λ q. n (ap (λ (i : Position). i.1) q))))
    ]
