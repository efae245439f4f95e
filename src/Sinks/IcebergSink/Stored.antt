-- ===== src/Sinks/IcebergSink/Stored.antt =====
-- What a flush stores of the buffer: the rows of `to_arrow` after the schema update.
use stream_pipeline.Prelude.{
  ◌≡◌, ◌<◌, refl, sym, ap, ◌⊎◌, inl, inr, true, false, List, [], ◌∷◌, map, In, In-append_left,
  In-append_right, Bool-cases, subst, arith, nat_key,
}
use stream_pipeline.Common.Times.{Timestamp}
use stream_pipeline.Common.Events.{RideEvent}
use stream_pipeline.Dlq.Envelope.{Failure}
use stream_pipeline.Sinks.IcebergSink.{
  LakeRow, Lake, IcebergSink, Decoded, value, broken, any_v2, should_evolve, to_row, to_arrow,
  evolve, append_rows,
}

module _ {F : Type 0} where
  -- The row of an event: its promotion code is there, or the event is one of version 1.
  abbrev pub IsRowOf : RideEvent F Timestamp → LakeRow F → Type 0
  IsRowOf v r = (r ≡ to_row true v) ⊎ ((r ≡ to_row false v) × (v.payload_version < 2))

  abbrev pub IsStored : Lake F → RideEvent F Timestamp → Type 0
  IsStored lake v = (r : LakeRow F) × In r lake.rows × IsRowOf v r

pub value-injective :
    {F : Type 0} (w v : RideEvent F Timestamp) → ◌≡◌ {A = Decoded F} (value w) (value v) → w ≡ v
value-injective w v p = cc

pub broken-ne-value :
    {F : Type 0} (x : Failure) (v : RideEvent F Timestamp)
    → ¬ (◌≡◌ {A = Decoded F} (broken x) (value v))
broken-ne-value x v p = cc

In-map : {A B : Type 0} (f : A → B) (a : A) (xs : List A) → In a xs → In (f a) (map f xs)
In-map f a [] i = i
In-map f a (x ∷ xs) (inl e) = inl (ap f e)
In-map f a (x ∷ xs) (inr i) = inr (In-map f a xs i)

module _ {F : Type 0} where
  any_v2-false :
      (v : RideEvent F Timestamp) (vs : List (RideEvent F Timestamp))
      → any_v2 vs ≡ false
      → In v vs
      → v.payload_version < 2
  unfolding any_v2
  any_v2-false v [] h i = elim i [ ]
  any_v2-false v (w ∷ vs) h (inl e) =
      subst (λ (x : RideEvent F Timestamp). x.payload_version < 2) e (ground (arith, h))
  any_v2-false v (w ∷ vs) h (inr i) = any_v2-false v vs (ground (arith, h)) i

  -- After the schema update the rows of the buffer lose no promotion code.
  pub evolve-IsRowOf :
      (s : IcebergSink F) (lake : Lake F) (v : RideEvent F Timestamp)
      → In v s.buffer
      → IsRowOf v (to_row (evolve s lake).0.has_promo v)
  unfolding evolve should_evolve
  evolve-IsRowOf s lake v i = elim (Bool-cases s.has_promo) [
    | inl p ↦ rw (evolve, should_evolve, p) (inl refl)
    | inr n ↦ elim (Bool-cases (any_v2 s.buffer)) [
      | inl a ↦ rw (evolve, should_evolve, n, a) (inl refl)
      | inr b ↦ rw (evolve, should_evolve, n, b) (inr (refl, any_v2-false v s.buffer b i))
    ]
  ]

  pub evolve-same :
      (s : IcebergSink F) (lake : Lake F)
      → ((evolve s lake).0.buffer ≡ s.buffer) × ((evolve s lake).1.rows ≡ lake.rows)
  unfolding evolve
  evolve-same s lake = elim (Bool-cases (should_evolve s.buffer s.has_promo)) [
    | inl e ↦ rw (evolve, e) (refl, refl)
    | inr e ↦ rw (evolve, e) (refl, refl)
  ]

  -- What was stored before an append still is,
  pub append-IsStored :
      (s : IcebergSink F) (lake : Lake F) (v : RideEvent F Timestamp)
      → IsStored lake v
      → IsStored (append_rows s lake) v
  append-IsStored s lake v (r, i, e) = (r, In-append_left r lake.rows _ i, e)

  -- and so is every event of the buffer.
  pub flushed-IsStored :
      (s : IcebergSink F) (lake : Lake F) (v : RideEvent F Timestamp)
      → In v s.buffer
      → IsStored (append_rows (evolve s lake).0 (evolve s lake).1) v
  unfolding to_arrow
  flushed-IsStored s lake v i =
      let after_update = (evolve s lake).0 in
      (
        to_row after_update.has_promo v,
        In-append_right _ (evolve s lake).1.rows _ (
            In-map (to_row after_update.has_promo) v after_update.buffer
              (subst (In v) (sym (evolve-same s lake).0) i)),
        evolve-IsRowOf s lake v i,
      )
