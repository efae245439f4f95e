-- ===== src/Tests/Rides.antt =====
-- The lifecycle and the session builder.
use stream_pipeline.Prelude.Dict
use stream_pipeline.Prelude.{
  ℕ, ◌≡◌, refl, inl, inr, true, false, some, List, [], ◌∷◌, In, arith, ok, raise,
  illegal_transition, if◌then◌else◌, ◌↔◌, ◌>>◌, nat_key, dec_text, ℕ_discrete, sym, ◌∙◌, subst,
  ok-injective,
}
use stream_pipeline.Common.Events.{RideEvent}
use stream_pipeline.Generator.StateMachine.{
  RideEventType, requested, matched, cancelled, completed, advance, legal_next, is_terminal,
  contains, fresh, run, ride_event_type, event_seq, RideStateMachine,
}
use stream_pipeline.Generator.StateMachine.Legality.{advance-legal_next, legal_next-is_terminal}
use stream_pipeline.Generator.StateMachine.Lifecycle.{ordinals, IsLifecycle, run-IsLifecycle}
use stream_pipeline.Processors.SessionBuilder.{
  RideAccumulator, new_accumulator, add, build_session, closable, kind_of,
}
use stream_pipeline.Processors.SessionBuilder.Slots.{HasSeq, IsFiled, add_all}
use stream_pipeline.Processors.SessionBuilder.View.{
  view, state_of, session_of, HasOneEnd, build_session-session_of,
}
use stream_pipeline.Processors.SessionBuilder.Orders.{IsRide, build_session-order}
use stream_pipeline.Tests.Samples.{nat_floats, event_of}

abbrev waiting : RideStateMachine
waiting = record { state = some requested }

advance-legal_next_example : advance waiting completed ≡ (
    if contains completed (legal_next waiting)
    then ok (record { state = some completed })
    else raise illegal_transition)
advance-legal_next_example = advance-legal_next waiting completed

legal_next-is_terminal_example : (legal_next waiting ≡ []) ↔ (is_terminal waiting ≡ true)
legal_next-is_terminal_example = legal_next-is_terminal waiting

abbrev cancelled_ride : List RideEventType
cancelled_ride = requested ∷ matched ∷ cancelled ∷ []

cancelled_ride-run : run fresh cancelled_ride ≡ ok (record { state = some cancelled })
unfolding run advance
cancelled_ride-run = refl

run-IsLifecycle_example : IsLifecycle (ordinals cancelled_ride)
run-IsLifecycle_example = run-IsLifecycle cancelled_ride cancelled_ride-run

abbrev first_event : RideEvent ℕ ℕ
first_event = event_of "e1" "requested" 5

abbrev last_event : RideEvent ℕ ℕ
last_event = event_of "e2" "cancelled" 9

abbrev in_order : RideAccumulator ℕ
in_order = record { ride_id = "r1"; slots = (1, first_event) ∷ (6, last_event) ∷ [] }

abbrev out_of_order : RideAccumulator ℕ
out_of_order = record { ride_id = "r1"; slots = (6, last_event) ∷ (1, first_event) ∷ [] }

first_event-kind_of : kind_of first_event ≡ ok requested
unfolding ride_event_type dec_text
first_event-kind_of = refl

last_event-kind_of : kind_of last_event ≡ ok cancelled
unfolding ride_event_type dec_text
last_event-kind_of = refl

in_order-IsFiled : IsFiled in_order
unfolding event_seq
in_order-IsFiled = record {
  distinct = (((λ p. omega (arith, p)), tt), (tt, tt));
  in_slot = ((requested, first_event-kind_of, refl), ((cancelled, last_event-kind_of, refl), tt));
}

in_order-HasOneEnd : HasOneEnd (view in_order)
unfolding Dict.get ℕ_discrete
in_order-HasOneEnd = inl refl

build_session-session_of_example :
    build_session nat_floats in_order false
    ≡ (closable (state_of (view in_order)) false >> ok (session_of nat_floats "r1" (view in_order)))
build_session-session_of_example =
    build_session-session_of nat_floats in_order false in_order-IsFiled in_order-HasOneEnd

abbrev forth : List (RideEvent ℕ ℕ)
forth = first_event ∷ last_event ∷ []

-- Another order, with a duplicate.
abbrev back : List (RideEvent ℕ ℕ)
back = last_event ∷ first_event ∷ last_event ∷ []

forth-add_all : add_all (new_accumulator "r1") forth ≡ ok in_order
unfolding add_all add ride_event_type dec_text event_seq Dict.put ℕ_discrete
forth-add_all = refl

back-add_all : add_all (new_accumulator "r1") back ≡ ok out_of_order
unfolding add_all add ride_event_type dec_text event_seq Dict.put ℕ_discrete
back-add_all = refl

-- The ordinal of an event is that of its type.
only_seq :
    (k : RideEventType) (v : RideEvent ℕ ℕ) (n : ℕ)
    → kind_of v ≡ ok k
    → HasSeq n v
    → event_seq k ≡ n
only_seq k v n h (kind, known, seq) =
    subst (λ x. event_seq x ≡ n) (ok-injective (sym known ∙ h)) seq

starts : (k : ℕ) (u : RideEvent ℕ ℕ) → first_event ≡ u → HasSeq k u → 1 ≡ k
unfolding event_seq
starts k u e s = only_seq requested first_event k first_event-kind_of (subst (HasSeq k) (sym e) s)

ends : (k : ℕ) (u : RideEvent ℕ ℕ) → last_event ≡ u → HasSeq k u → 6 ≡ k
unfolding event_seq
ends k u e s = only_seq cancelled last_event k last_event-kind_of (subst (HasSeq k) (sym e) s)

forth-one_each :
    (k : ℕ) (u v : RideEvent ℕ ℕ) → In u forth → HasSeq k u → In v forth → HasSeq k v → u ≡ v
forth-one_each k u v (inl p) s (inl q) t = sym p ∙ q
forth-one_each k u v (inr (inl p)) s (inr (inl q)) t = sym p ∙ q
forth-one_each k u v (inl p) s (inr (inl q)) t =
    let a = starts k u p s in let b = ends k v q t in absurd (omega (arith, a, b))
forth-one_each k u v (inr (inl p)) s (inl q) t =
    let a = ends k u p s in let b = starts k v q t in absurd (omega (arith, a, b))
forth-one_each k u v (inr (inr x)) s j t = elim x [ ]
forth-one_each k u v i s (inr (inr x)) t = elim x [ ]

forth-one_end : (u v : RideEvent ℕ ℕ) → In u forth → HasSeq 5 u → In v forth → HasSeq 6 v → ⊥
forth-one_end u v (inl p) s j t = let a = starts 5 u p s in omega (arith, a)
forth-one_end u v (inr (inl p)) s j t = let a = ends 5 u p s in omega (arith, a)
forth-one_end u v (inr (inr x)) s j t = x

forth-IsRide : IsRide forth
forth-IsRide = record { one_each = forth-one_each; one_end = forth-one_end }

forth-back : (v : RideEvent ℕ ℕ) → In v forth → In v back
forth-back v (inl p) = inr (inl p)
forth-back v (inr (inl p)) = inl p
forth-back v (inr (inr x)) = elim x [ ]

back-forth : (v : RideEvent ℕ ℕ) → In v back → In v forth
back-forth v (inl p) = inr (inl p)
back-forth v (inr (inl p)) = inl p
back-forth v (inr (inr (inl p))) = inr (inl p)
back-forth v (inr (inr (inr x))) = elim x [ ]

build_session-order_example :
    build_session nat_floats in_order false ≡ build_session nat_floats out_of_order false
build_session-order_example =
    build_session-order nat_floats "r1" forth back false forth-add_all back-add_all forth-IsRide
      forth-back back-forth
