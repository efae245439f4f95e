-- ===== src/Sinks/IcebergSink/Run/Rows.antt =====
-- The rows of events, one for each in order.
use stream_pipeline.Prelude.{
  ◌≡◌, refl, inl, inr, Bool, true, false, Bool-cases, List, [], ◌∷◌, ◌++◌, map, In, is_empty, ◌&&◌,
}
use stream_pipeline.Common.Times.{Timestamp}
use stream_pipeline.Common.Events.{RideEvent}
use stream_pipeline.Sinks.IcebergSink.{LakeRow, Lake, IcebergSink, should_evolve, evolve}
use stream_pipeline.Sinks.IcebergSink.Stored.{IsRowOf}

pub &&-false : (b : Bool) → (b && false) ≡ false
&&-false true = refl
&&-false false = refl

pub is_empty-true : {A : Type 0} (xs : List A) → is_empty xs ≡ true → xs ≡ []
is_empty-true [] h = refl
is_empty-true (x ∷ xs) h = cc

module _ {F : Type 0} where
  -- Row by row, the rows of the events.
  abbrev pub AreRowsOf : List (RideEvent F Timestamp) → List (LakeRow F) → Type 0
  AreRowsOf [] [] = Unit
  AreRowsOf [] (r ∷ rs) = ⊥
  AreRowsOf (v ∷ vs) [] = ⊥
  AreRowsOf (v ∷ vs) (r ∷ rs) = IsRowOf v r × AreRowsOf vs rs

  pub AreRowsOf-append :
      (vs ws : List (RideEvent F Timestamp)) (rs qs : List (LakeRow F))
      → AreRowsOf vs rs
      → AreRowsOf ws qs
      → AreRowsOf (vs ++ ws) (rs ++ qs)
  AreRowsOf-append [] ws [] qs h k = k
  AreRowsOf-append [] ws (r ∷ rs) qs h k = absurd h
  AreRowsOf-append (v ∷ vs) ws [] qs h k = absurd h
  AreRowsOf-append (v ∷ vs) ws (r ∷ rs) qs h k = (h.0, AreRowsOf-append vs ws rs qs h.1 k)

  pub map-AreRowsOf :
      (f : RideEvent F Timestamp → LakeRow F) (vs : List (RideEvent F Timestamp))
      → ((v : RideEvent F Timestamp) → In v vs → IsRowOf v (f v))
      → AreRowsOf vs (map f vs)
  map-AreRowsOf f [] h = tt
  map-AreRowsOf f (v ∷ vs) h = (h v (inl refl), map-AreRowsOf f vs (λ w i. h w (inr i)))

  pub evolve-rows_appended :
      (s : IcebergSink F) (lake : Lake F) → (evolve s lake).0.rows_appended ≡ s.rows_appended
  unfolding evolve
  evolve-rows_appended s lake = elim (Bool-cases (should_evolve s.buffer s.has_promo)) [
    | inl e ↦ rw (evolve, e) refl
    | inr e ↦ rw (evolve, e) refl
  ]
