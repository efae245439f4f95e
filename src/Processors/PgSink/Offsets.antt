-- ===== src/Processors/PgSink/Offsets.antt =====
-- The table of offsets: an upsert never takes a position back.
use mathlib.Core.Option
use stream_pipeline.Prelude.Dict
use stream_pipeline.Prelude.Dict.{Dict}
use stream_pipeline.Prelude.{
  ℕ, refl, List, [], ◌∷◌, ◌≡◌, ◌≤◌, sym, ap, ◌∙◌, inl, inr, none, some, max, ok, ok-injective,
  some-injective, subst, Option-cases, arith, if_pos, if_neg, text_key, nat_key, pair_key, DecEq,
}
use stream_pipeline.Processors.PgSink.Tables.{
  Position, StoredOffset, offset_upsert, kafka_offsets, upsert_offset, for_each,
}
use stream_pipeline.Processors.PgSink.Absorbing.{Absorbing, put-same, put-again}

abbrev position_key : DecEq Position
position_key = pair_key

-- The stored offset of the position is there and at least this one.
unfoldable pub HasOffset : Position × ℕ → Dict Position ℕ → Type 0
HasOffset (k, o) t = (w : ℕ) × (Dict.get k t ≡ some w) × (o ≤ w)

pub offset-done : (t : Dict Position ℕ) (r : Position × ℕ) → HasOffset r (upsert_offset t r)
unfolding HasOffset upsert_offset
offset-done t (k, o) = elim (Option-cases (Dict.get k t)) [
  | inl e ↦ rw (upsert_offset, e) (o, put-same k o t, omega arith)
  | inr (old, e) ↦ rw (upsert_offset, e) (max o old, put-same k (max o old) t, omega arith)
]

put-HasOffset :
    (k j : Position) (o x : ℕ) (t : Dict Position ℕ)
    → (j ≡ k → o ≤ x)
    → HasOffset (k, o) t
    → HasOffset (k, o) (Dict.put j x t)
unfolding HasOffset
put-HasOffset k j o x t f (w, g, le) = elim (pair_key.dec j k) [
  | yes p ↦ (x, Dict.get-put j k x t ∙ if_pos (pair_key.dec j k) p _ _, f p)
  | no n ↦ (w, Dict.get-put j k x t ∙ if_neg (pair_key.dec j k) n _ _ ∙ g, le)
]

pub offset-keeps :
    (t : Dict Position ℕ) (r q : Position × ℕ) → HasOffset r t → HasOffset r (upsert_offset t q)
unfolding HasOffset upsert_offset
offset-keeps t (k, o) (j, x) h = elim (Option-cases (Dict.get j t)) [
  | inl e ↦ rw (upsert_offset, e) (put-HasOffset k j o x t (λ p. absent p h e) h)
  | inr (old, e) ↦ rw (upsert_offset, e) (put-HasOffset k j o (max x old) t (λ p. later p h e) h)
]
  where
    absent : j ≡ k → HasOffset (k, o) t → Dict.get j t ≡ none → o ≤ x
    absent p (w, g, le) e =
        let never : some w ≡ none = sym g ∙ (ap (λ i. Dict.get i t) (sym p) ∙ e) in cc

    later : {old : ℕ} → j ≡ k → HasOffset (k, o) t → Dict.get j t ≡ some old → o ≤ max x old
    later {old} p (w, g, le) e =
        let same : w ≡ old = some-injective (sym g ∙ (ap (λ i. Dict.get i t) (sym p) ∙ e)) in
        omega (arith, le, same)

pub offset-again : (t : Dict Position ℕ) (r : Position × ℕ) → HasOffset r t → upsert_offset t r ≡ t
unfolding HasOffset upsert_offset
offset-again t (k, o) (w, e, le) =
    let same : max o w ≡ w = omega (arith, le) in rw (upsert_offset, e, same) (put-again k w t e)

unfoldable pub offset_absorbing :
    Absorbing {T = Dict Position ℕ} {R = Position × ℕ} (λ t r. ok (upsert_offset t r))
offset_absorbing = record {
  Absorbs = HasOffset;
  done = λ t r h. subst (HasOffset r) (ok-injective h) (offset-done t r);
  keeps = λ t r q h k. subst (HasOffset r) (ok-injective h) (offset-keeps t r q k);
  again = λ t r k. ap ok (offset-again t r k);
}

get-kafka_offsets :
    (k : Position) (t : Dict Position StoredOffset)
    → Dict.get k (kafka_offsets t)
      ≡ Option.map (λ (o : StoredOffset). o.kafka_offset) (Dict.get k t)
unfolding Dict.get
get-kafka_offsets k [] = refl
get-kafka_offsets k ((j, o) ∷ t) = elim (position_key.dec j k) [
  | yes p ↦
      if_pos (position_key.dec j k) p (some o.kafka_offset) _
      ∙ sym (
          ap (Option.map (λ (o : StoredOffset). o.kafka_offset))
            (if_pos (position_key.dec j k) p (some o) _))
  | no n ↦
      if_neg (position_key.dec j k) n (some o.kafka_offset) _
      ∙ (get-kafka_offsets k t
          ∙ sym (
              ap (Option.map (λ (o : StoredOffset). o.kafka_offset))
                (if_neg (position_key.dec j k) n (some o) _)))
]

kafka_offsets-put :
    (k : Position) (o : StoredOffset) (t : Dict Position StoredOffset)
    → kafka_offsets (Dict.put k o t) ≡ Dict.put k o.kafka_offset (kafka_offsets t)
unfolding Dict.put
kafka_offsets-put k o [] = refl
kafka_offsets-put k o ((j, q) ∷ t) = elim (position_key.dec j k) [
  | yes p ↦
      ap kafka_offsets (if_pos (position_key.dec j k) p ((j, o) ∷ t) _)
      ∙ sym (if_pos (position_key.dec j k) p _ _)
  | no n ↦
      ap kafka_offsets (if_neg (position_key.dec j k) n ((j, o) ∷ t) _)
      ∙ (ap (λ d. (j, q.kafka_offset) ∷ d) (kafka_offsets-put k o t)
          ∙ sym (if_neg (position_key.dec j k) n _ _))
]

-- What the statement does to the offsets does not depend on the times.
kafka_offsets-offset_upsert :
    (now : ℕ) (t : Dict Position StoredOffset) (r : Position × ℕ)
    → kafka_offsets (offset_upsert now t r) ≡ upsert_offset (kafka_offsets t) r
unfolding offset_upsert upsert_offset
kafka_offsets-offset_upsert now t (k, offset) = elim (Option-cases (Dict.get k t)) [
  | inl e ↦
      let absent : Dict.get k (kafka_offsets t) ≡ none =
        get-kafka_offsets k t ∙ ap (Option.map _) e in
      rw (offset_upsert, e, upsert_offset, absent) (kafka_offsets-put k _ t)
  | inr (old, e) ↦
      let found : Dict.get k (kafka_offsets t) ≡ some old.kafka_offset =
        get-kafka_offsets k t ∙ ap (Option.map _) e in
      rw (offset_upsert, e, upsert_offset, found) (kafka_offsets-put k _ t)
]

pub kafka_offsets-offset_upserts :
    (now : ℕ) (rs : List (Position × ℕ)) (t t' : Dict Position StoredOffset)
    → for_each (λ t r. ok (offset_upsert now t r)) t rs ≡ ok t'
    → for_each (λ t r. ok (upsert_offset t r)) (kafka_offsets t) rs ≡ ok (kafka_offsets t')
unfolding for_each
kafka_offsets-offset_upserts now [] t t' h = ap (λ x. ok (kafka_offsets x)) (ok-injective h)
kafka_offsets-offset_upserts now (r ∷ rs) t t' h =
    rw (sym (kafka_offsets-offset_upsert now t r))
      (kafka_offsets-offset_upserts now rs (offset_upsert now t r) t' h)
