-- ===== src/Processors/SessionBuilder/Orders.antt =====
-- The order in which events arrive, and how often, does not change the session.
use stream_pipeline.Prelude.Dict
use stream_pipeline.Prelude.{
  In, ℕ, ◌≡◌, inl, inr, Bool, some, List, [], ◌∷◌, ok, ◌>>◌, >>=-eq-ok, String, ap, ap₂, sym, ◌∙◌,
  subst, ok-injective, fun_ext,
}
use stream_pipeline.Common.Floats.{Floats}
use stream_pipeline.Common.Events.{RideEvent}
use stream_pipeline.Processors.SessionBuilder.{
  RideAccumulator, new_accumulator, kind_of, add, build_session, closable,
}
use stream_pipeline.Processors.SessionBuilder.Slots.{
  HasSeq, add_all, add_all-IsFiled, get-add_all, new_accumulator-IsFiled,
}
use stream_pipeline.Processors.SessionBuilder.View.{
  view, HasOneEnd, state_of, session_of, build_session-session_of,
}

module _ {F : Type 0} where
  -- What the events of one ride satisfy: one event for each type, and not two ends.
  pub record IsRide (vs : List (RideEvent F ℕ)) : Type 0 where
    pub one_each :
        (k : ℕ) (u v : RideEvent F ℕ) → In u vs → HasSeq k u → In v vs → HasSeq k v → u ≡ v
    pub one_end : (u v : RideEvent F ℕ) → In u vs → HasSeq 5 u → In v vs → HasSeq 6 v → ⊥

  add_all-ride_id :
      (acc : RideAccumulator F) (vs : List (RideEvent F ℕ)) {acc' : RideAccumulator F}
      → add_all acc vs ≡ ok acc'
      → acc'.ride_id ≡ acc.ride_id
  unfolding add_all add
  add_all-ride_id acc [] h = ap (λ (a : RideAccumulator F). a.ride_id) (sym (ok-injective h))
  add_all-ride_id acc (v ∷ vs) h =
      let (next, added, rest) = >>=-eq-ok (add acc v) _ h in
      let (kind, _, done) = >>=-eq-ok (kind_of v) _ added in
      add_all-ride_id next vs rest
      ∙ ap (λ (a : RideAccumulator F). a.ride_id) (sym (ok-injective done))

module _ {F : Type 0} (ride_id : String) (xs ys : List (RideEvent F ℕ)) {a b : RideAccumulator F}
    (left : add_all (new_accumulator ride_id) xs ≡ ok a)
    (right : add_all (new_accumulator ride_id) ys ≡ ok b) where
  same_slot :
      IsRide xs
      → ((v : RideEvent F ℕ) → In v xs → In v ys)
      → ((v : RideEvent F ℕ) → In v ys → In v xs)
      → (k : ℕ) → view a k ≡ view b k
  same_slot ride to from k = elim (get-add_all (new_accumulator ride_id) xs k left) [
    | inl (e, absent) ↦ elim (get-add_all (new_accumulator ride_id) ys k right) [
      | inl (e', _) ↦ e ∙ sym e'
      | inr (v, _, i, s) ↦ absurd (absent v (from v i) s)
    ]
    | inr (u, e, i, s) ↦ elim (get-add_all (new_accumulator ride_id) ys k right) [
      | inl (_, absent) ↦ absurd (absent u (to u i) s)
      | inr (v, e', j, t) ↦ e ∙ ap some (ride.one_each k u v i s (from v j) t) ∙ sym e'
    ]
  ]

  ride-HasOneEnd : IsRide xs → HasOneEnd (view a)
  ride-HasOneEnd ride = elim (get-add_all (new_accumulator ride_id) xs 5 left) [
    | inl (e, _) ↦ inl (unfold Dict.get in e)
    | inr (u, _, i, s) ↦ elim (get-add_all (new_accumulator ride_id) xs 6 left) [
      | inl (e, _) ↦ inr (unfold Dict.get in e)
      | inr (v, _, j, t) ↦ absurd (ride.one_end u v i s j t)
    ]
  ]

-- Two sequences of a ride's events with the same members, in whatever order and however often
-- each arrives, give the same session, or both give ValueError.
pub build_session-order :
    (fl : Floats) (ride_id : String) (xs ys : List (RideEvent fl.Float ℕ)) (closed : Bool)
    {a b : RideAccumulator fl.Float}
    → add_all (new_accumulator ride_id) xs ≡ ok a
    → add_all (new_accumulator ride_id) ys ≡ ok b
    → IsRide xs
    → ((v : RideEvent fl.Float ℕ) → In v xs → In v ys)
    → ((v : RideEvent fl.Float ℕ) → In v ys → In v xs)
    → build_session fl a closed ≡ build_session fl b closed
build_session-order fl ride_id xs ys closed {a} {b} left right ride to from =
    let start = new_accumulator-IsFiled ride_id in
    let same = fun_ext (same_slot ride_id xs ys left right ride to from) in
    let one = ride-HasOneEnd ride_id xs ys left right ride in
    let ids = add_all-ride_id _ xs left ∙ sym (add_all-ride_id _ ys right) in
    build_session-session_of fl a closed (add_all-IsFiled _ xs left start) one
    ∙ ap₂ (λ id w. closable (state_of w) closed >> ok (session_of fl id w)) ids same
    ∙ sym (
        build_session-session_of fl b closed (add_all-IsFiled _ ys right start)
          (subst HasOneEnd same one))
