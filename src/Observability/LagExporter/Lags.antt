-- ===== src/Observability/LagExporter/Lags.antt =====
-- Which samples the exporter reports, and that it agrees with the sink on where the sink stands.
use mathlib.Core.Option
use stream_pipeline.Prelude.Dict
use stream_pipeline.Prelude.Dict.{Dict, Fresh, IsDict}
use stream_pipeline.Prelude.{
  DecEq, ite, ℕ, ◌≡◌, ◌≢◌, ◌+◌, ◌-◌, refl, sym, ap, ◌∙◌, ◌⊎◌, inl, inr, ◌↔◌, String, Option, none,
  some, List, [], ◌∷◌, In, In-append_left, In-append_right, In-append_or, Bool-cases, subst, if_pos,
  if_neg, text_key, nat_key, pair_key,
}
use stream_pipeline.Observability.LagExporter.{
  LagSample, Place, put_all, next_of, committed_next_from_pg, place_le, insert_place, sorted_items,
  sample_of, samples_of, compute_lags,
}
use stream_pipeline.Processors.PgSink.Tables.{Database, Position}
use stream_pipeline.Processors.PgSink.Sink.{seek}

insert_place-In :
    (a e : Place × ℕ) (xs : List (Place × ℕ)) → In a (insert_place e xs) → (e ≡ a) ⊎ In a xs
unfolding insert_place
insert_place-In a e [] (inl p) = inl p
insert_place-In a e [] (inr i) = inr i
insert_place-In a e (x ∷ xs) i = elim (Bool-cases (place_le e.0 x.0)) [
  | inl le ↦ rw (insert_place, le) at i
  | inr gt ↦ elim (rw (insert_place, gt) at i) [
    | inl p ↦ inr (inl p)
    | inr j ↦ elim (insert_place-In a e xs j) [ inl p ↦ inl p | inr k ↦ inr (inr k) ]
  ]
]

In-insert_place :
    (a e : Place × ℕ) (xs : List (Place × ℕ)) → (e ≡ a) ⊎ In a xs → In a (insert_place e xs)
unfolding insert_place
In-insert_place a e [] i = i
In-insert_place a e (x ∷ xs) i = elim (Bool-cases (place_le e.0 x.0)) [
  | inl le ↦ rw (insert_place, le) i
  | inr gt ↦
      let moved : (x ≡ a) ⊎ In a (insert_place e xs) = elim i [
        | inl p ↦ inr (In-insert_place a e xs (inl p))
        | inr (inl p) ↦ inl p
        | inr (inr j) ↦ inr (In-insert_place a e xs (inr j))
      ] in
      rw (insert_place, gt) moved
]

sorted_items-In : (a : Place × ℕ) (d : Dict Place ℕ) → In a (sorted_items d) → In a d
unfolding sorted_items
sorted_items-In a [] i = i
sorted_items-In a (e ∷ d) i = elim (insert_place-In a e (sorted_items d) i) [
  | inl p ↦ inl p
  | inr j ↦ inr (sorted_items-In a d j)
]

In-sorted_items : (a : Place × ℕ) (d : Dict Place ℕ) → In a d → In a (sorted_items d)
unfolding sorted_items
In-sorted_items a [] i = i
In-sorted_items a (e ∷ d) (inl p) = In-insert_place a e (sorted_items d) (inl p)
In-sorted_items a (e ∷ d) (inr j) =
    In-insert_place a e (sorted_items d) (inr (In-sorted_items a d j))

-- The sample is of a partition that has an end and a committed offset, and its lag is what lies
-- between them.
abbrev pub IsSample : String → Dict Place (Option ℕ) → List (Place × ℕ) → LagSample → Type 0
IsSample group committed_next ends s =
    (place : Place) × (end : ℕ) × (next : ℕ) × In (place, end) ends
    × (Dict.get place committed_next ≡ some (some next))
    × (record { group = group; topic = place.0; partition = place.1; lag = end - next } ≡ s)

samples_of-IsSample :
    (group : String) (committed_next : Dict Place (Option ℕ)) (ends : List (Place × ℕ))
    (s : LagSample)
    → In s (samples_of group committed_next ends)
    → IsSample group committed_next ends s
unfolding samples_of
samples_of-IsSample group committed_next [] s i = elim i [ ]
samples_of-IsSample group committed_next ((place, end) ∷ ends) s i =
    elim (In-append_or s (sample_of group place end (Dict.get place committed_next)) _ i) [
      | inl j ↦ here (Dict.get place committed_next) refl j
      | inr j ↦
          let (p, e, n, k, g, same) = samples_of-IsSample group committed_next ends s j in
          (p, e, n, inr k, g, same)
    ]
  where
    here :
        (o : Option (Option ℕ))
        → Dict.get place committed_next ≡ o
        → In s (sample_of group place end o)
        → IsSample group committed_next ((place, end) ∷ ends) s
    here (some (some next)) g (inl same) = (place, end, next, inl refl, g, same)
    here (some (some next)) g (inr j) = elim j [ ]
    here (some none) g j = elim j [ ]
    here none g j = elim j [ ]

IsSample-samples_of :
    (group : String) (committed_next : Dict Place (Option ℕ)) (ends : List (Place × ℕ))
    (s : LagSample)
    → IsSample group committed_next ends s
    → In s (samples_of group committed_next ends)
unfolding samples_of
IsSample-samples_of group committed_next [] s (p, e, n, i, g, same) = i
IsSample-samples_of group committed_next ((place, end) ∷ ends) s (p, e, n, inl q, g, same) =
    let place_same = ap (λ (x : Place × ℕ). x.0) q in
    let end_same = ap (λ (x : Place × ℕ). x.1) q in
    let found = ap (λ x. Dict.get x committed_next) place_same ∙ g in
    In-append_left s (sample_of group place end (Dict.get place committed_next)) _ (
      subst (λ o. In s (sample_of group place end o)) (sym found)
        (inl (
          (λ i. record {
            group = group;
            topic = (place_same i).0;
            partition = (place_same i).1;
            lag = end_same i - n;
          })
          ∙ same)))
IsSample-samples_of group committed_next ((place, end) ∷ ends) s (p, e, n, inr i, g, same) =
    In-append_right s (sample_of group place end (Dict.get place committed_next)) _
      (IsSample-samples_of group committed_next ends s (p, e, n, i, g, same))

-- A sample is reported of the partitions that have an end and a committed offset, and of no other,
-- and its lag is the distance from the next offset to the end, 0 where the end is not after it.
pub compute_lags-In :
    (group : String) (end_offsets : Dict Place ℕ) (committed_next : Dict Place (Option ℕ))
    (s : LagSample)
    → In s (compute_lags group end_offsets committed_next)
      ↔ IsSample group committed_next end_offsets s
unfolding compute_lags
compute_lags-In group end_offsets committed_next s = (
  λ i.
      let (p, e, n, k, g, same) =
        samples_of-IsSample group committed_next (sorted_items end_offsets) s i in
      (p, e, n, sorted_items-In (p, e) end_offsets k, g, same),
  λ (p, e, n, k, g, same).
      IsSample-samples_of group committed_next (sorted_items end_offsets) s
        (p, e, n, In-sorted_items (p, e) end_offsets k, g, same),
)

abbrev position_key : DecEq Position
position_key = pair_key

-- `SELECT topic, partition, kafka_offset ... WHERE consumer_group = group`
unfoldable pub rows_of : String → Dict Position ℕ → List (Place × ℕ)
rows_of group [] = []
rows_of group (((g, place), offset) ∷ table) =
    let rest = rows_of group table in ite (text_key.dec g group) ((place, offset) ∷ rest) rest

abbrev pub found_or : Option ℕ → Option (Option ℕ) → Option (Option ℕ)
found_or none old = old
found_or (some last) old = some (some (last + 1))

put_all-other :
    (group : String) (place : Place) (table : Dict Position ℕ) (d : Dict Place (Option ℕ))
    → Fresh (group, place) table
    → Dict.get place (put_all d (next_of (rows_of group table))) ≡ Dict.get place d
unfolding put_all next_of rows_of
put_all-other group place [] d h = refl
put_all-other group place (((g, p), offset) ∷ table) d h = elim (text_key.dec g group) [
  | no n ↦ rw (if_neg (text_key.dec g group) n) (put_all-other group place table d h.1)
  | yes e ↦
      let differ : p ≢ place = λ q. h.0 (λ i. (e i, q i)) in
      rw (if_pos (text_key.dec g group) e) (
        put_all-other group place table (Dict.put p (some (offset + 1)) d) h.1
        ∙ (Dict.get-put p place (some (offset + 1)) d ∙ if_neg (pair_key.dec p place) differ _ _))
]

put_all-rows_of :
    (group : String) (place : Place) (table : Dict Position ℕ) (d : Dict Place (Option ℕ))
    → IsDict table
    → Dict.get place (put_all d (next_of (rows_of group table)))
      ≡ found_or (Dict.get (group, place) table) (Dict.get place d)
unfolding put_all next_of rows_of Dict.get
put_all-rows_of group place [] d h = refl
put_all-rows_of group place (((g, p), offset) ∷ table) d h =
    elim (position_key.dec (g, p) (group, place)) [
      | yes q ↦
          let d' = Dict.put p (some (offset + 1)) d in
          rw
            (
              if_pos (text_key.dec g group) (ap (λ (x : Position). x.0) q),
              if_pos (position_key.dec (g, p) (group, place)) q,
            )
            (put_all-other group place table d' (subst (λ k. Fresh k table) q h.0)
              ∙ (Dict.get-put p place (some (offset + 1)) d
                  ∙ if_pos (pair_key.dec p place) (ap (λ (x : Position). x.1) q) _ _))
      | no n ↦ rw (if_neg (position_key.dec (g, p) (group, place)) n) (elim (text_key.dec g group) [
        | no m ↦ rw (if_neg (text_key.dec g group) m) (put_all-rows_of group place table d h.1)
        | yes e ↦
            let differ : p ≢ place = λ q. n (λ i. (e i, q i)) in
            rw (if_pos (text_key.dec g group) e) (
              put_all-rows_of group place table (Dict.put p (some (offset + 1)) d) h.1
              ∙ ap (found_or (Dict.get (group, place) table)) (
                  Dict.get-put p place (some (offset + 1)) d
                  ∙ if_neg (pair_key.dec p place) differ _ _))
      ])
    ]

-- The exporter's next offset of a partition of the sink's group is where the sink would seek to;
-- where the sink would start at the beginning, it has none.
pub committed_next_from_pg-seek :
    {F : Type 0} (group topic : String) (partition : ℕ) (db : Database F)
    → IsDict db.consumer_offsets
    → Dict.get (topic, partition) (committed_next_from_pg (rows_of group db.consumer_offsets))
      ≡ Option.map some (seek group db topic partition)
unfolding committed_next_from_pg seek Dict.get
committed_next_from_pg-seek group topic partition db h =
    put_all-rows_of group (topic, partition) db.consumer_offsets [] h
    ∙ shaped (Dict.get (group, (topic, partition)) db.consumer_offsets)
  where
    shaped :
        (o : Option ℕ)
        → found_or o none ≡ Option.map some (elim o [ none ↦ none | some last ↦ some (last + 1) ])
    shaped none = refl
    shaped (some last) = refl
