-- ===== src/Generator/Rides/Identity.antt =====
-- A ride keeps its identifier through all its events.
use stream_pipeline.Prelude.{
  ℕ, zero, suc, ◌+◌, ◌≡◌, refl, ◌∙◌, inl, inr, Bool, Bool-cases, String, Option, none, some, List,
  ok, ◌>>=◌, Ensures, >>=-Ensures, Ensures-ok,
}
use stream_pipeline.Common.Floats.{Floats}
use stream_pipeline.Generator.StateMachine.{
  RideEventType, requested, matched, driver_arrived, started, completed, cancelled, advance,
}
use stream_pipeline.Generator.Random.{Random}
use stream_pipeline.Generator.Config.{GeneratorConfig, cancel_prob}
use stream_pipeline.Generator.Events.{SourceEvent}
use stream_pipeline.Generator.Fleet.{Fleet}
use stream_pipeline.Generator.Rides.{
  ActiveRide, stops_at, Sim, Moved, release_driver, start_known, after_assigned, after_matched,
  after_arrived, with_duration, end_planned, after_started, has_due_event,
}
use stream_pipeline.Generator.Rides.Firing.{
  fare, queue_payment, after_event, fire_next, fire, is_done, fire_due,
}

module _ (fl : Floats) (r : Random fl) (fleet : Fleet fl) (cfg : GeneratorConfig fl.Float) where
  open fl use {Float, lt}

  abbrev pub Keeps : String → Moved fl r fleet cfg → Type 0
  Keeps id x = x.0.ride_id ≡ id

  released-Keeps :
      (ride : ActiveRide Float) (sim : Sim fl r fleet cfg) (at_ms : ℕ) (at : Option (Float × Float))
      → Ensures
          (Keeps ride.ride_id)
          (release_driver fl r fleet cfg ride sim at_ms at >>= λ s. ok (ride, s))
  released-Keeps ride sim at_ms at =
      >>=-Ensures (Keeps ride.ride_id) (release_driver fl r fleet cfg ride sim at_ms at) _
        (λ s e. refl)

  after_assigned-Keeps :
      (ride : ActiveRide Float) (sim : Sim fl r fleet cfg) (travel : Float) (at_ms : ℕ)
      → Ensures (Keeps ride.ride_id) (after_assigned fl r fleet cfg ride sim travel at_ms)
  unfolding after_assigned
  after_assigned-Keeps ride sim travel at_ms =
      elim (Bool-cases (stops_at ride.stop_after matched)) [
        | inl a ↦ rw (after_assigned, a) (released-Keeps ride sim at_ms none)
        | inr a ↦ elim (Bool-cases (lt (r.random sim.rng).0 (cancel_prob fl cfg "matched"))) [
          | inl b ↦ rw (after_assigned, a, b) refl
          | inr b ↦ rw (after_assigned, a, b) refl
        ]
      ]

  after_arrived-Keeps :
      (ride : ActiveRide Float) (sim : Sim fl r fleet cfg) (at_ms : ℕ)
      → Keeps ride.ride_id (after_arrived fl r fleet cfg ride sim at_ms)
  unfolding after_arrived
  after_arrived-Keeps ride sim at_ms =
      elim (Bool-cases (lt (r.random sim.rng).0 (cancel_prob fl cfg "driver_arrived"))) [
        | inl b ↦ rw (after_arrived, b) refl
        | inr b ↦ rw (after_arrived, b) refl
      ]

  end_planned-Keeps :
      (ride : ActiveRide Float) (sim : Sim fl r fleet cfg) (at_ms : ℕ)
      → Keeps ride.ride_id (end_planned fl r fleet cfg ride sim at_ms)
  unfolding end_planned
  end_planned-Keeps ride sim at_ms =
      elim (Bool-cases (lt (r.random sim.rng).0 (cancel_prob fl cfg "started"))) [
        | inl b ↦ rw (end_planned, b) refl
        | inr b ↦ rw (end_planned, b) refl
      ]

  after_event-Keeps :
      (event : RideEventType) (ride : ActiveRide Float) (sim : Sim fl r fleet cfg) (at_ms : ℕ)
      → Ensures (Keeps ride.ride_id) (after_event fl r fleet cfg event ride sim at_ms)
  unfolding after_event after_matched after_started with_duration queue_payment
  after_event-Keeps requested ride sim at_ms = refl
  after_event-Keeps matched ride sim at_ms =
      >>=-Ensures (Keeps ride.ride_id) (fleet.assign ride.city_id ride.pickup at_ms sim.fleet) _
        (λ x e.
          after_assigned-Keeps (record ride { driver_id = some x.0.0 }) (record sim { fleet = x.1 })
            x.0.1 at_ms)
  after_event-Keeps driver_arrived ride sim at_ms =
      elim (Bool-cases (stops_at ride.stop_after driver_arrived)) [
        | inl a ↦ rw (after_event, a) (released-Keeps ride sim at_ms none)
        | inr a ↦ rw (after_event, a) (after_arrived-Keeps ride sim at_ms)
      ]
  after_event-Keeps started ride sim at_ms =
      let (timed, sim') = with_duration fl r fleet cfg (record ride { started_ms = at_ms }) sim in
      >>=-Ensures (Keeps ride.ride_id) (start_known fl r fleet cfg timed.driver_id timed sim' at_ms)
        _ (λ s e. end_planned-Keeps timed s at_ms)
  after_event-Keeps completed ride sim at_ms =
      released-Keeps (record ride { fare_cents = some (fare fl r fleet cfg ride) }) _ at_ms
        (some ride.dropoff)
  after_event-Keeps cancelled ride sim at_ms =
      released-Keeps ride (record sim { cancelled_rides = sim.cancelled_rides + 1 }) at_ms none

  fire_next-Keeps :
      (next : Option RideEventType) (ride : ActiveRide Float) (sim : Sim fl r fleet cfg)
      → Ensures
          (λ (x : SourceEvent Float × Moved fl r fleet cfg). Keeps ride.ride_id x.1)
          (fire_next fl r fleet cfg next ride sim)
  fire_next-Keeps none ride sim = tt
  fire_next-Keeps (some event) ride sim =
      >>=-Ensures (λ (x : SourceEvent Float × Moved fl r fleet cfg). Keeps ride.ride_id x.1)
        (advance ride.machine event) _
        (λ machine e.
          let moved = record ride { machine = machine; next_event = none } in
          >>=-Ensures (λ (x : SourceEvent Float × Moved fl r fleet cfg). Keeps ride.ride_id x.1)
            (after_event fl r fleet cfg event moved sim ride.next_at_ms) _
            (λ x e'.
              Ensures-ok (Keeps ride.ride_id)
                (after_event fl r fleet cfg event moved sim ride.next_at_ms) e'
                (after_event-Keeps event moved sim ride.next_at_ms)))

  abbrev pub Ended : String → List (SourceEvent Float) × (Bool × Moved fl r fleet cfg) → Type 0
  Ended id x = Keeps id x.1.1

  pub fire_due-ride_id :
      (fuel : ℕ) (ride : ActiveRide Float) (sim : Sim fl r fleet cfg) (now_ms : ℕ)
      → Ensures (Ended ride.ride_id) (fire_due fl r fleet cfg fuel ride sim now_ms)
  unfolding fire_due fire
  fire_due-ride_id zero ride sim now_ms = tt
  fire_due-ride_id (suc fuel) ride sim now_ms =
      elim (Bool-cases (has_due_event fl r fleet cfg ride now_ms)) [
        | inr a ↦ rw (fire_due, a) refl
        | inl a ↦
            rw (fire_due, a)
              (>>=-Ensures (Ended ride.ride_id) (fire fl r fleet cfg ride sim) _ (λ x e.
                let kept : Keeps ride.ride_id x.1 =
                  Ensures-ok
                    (λ (y : SourceEvent Float × Moved fl r fleet cfg). Keeps ride.ride_id y.1)
                    (fire_next fl r fleet cfg ride.next_event ride sim) e
                    (fire_next-Keeps ride.next_event ride sim) in
                elim (Bool-cases (is_done fl r fleet cfg x.1.0)) [
                  | inl b ↦ rw b kept
                  | inr b ↦ rw b (
                      >>=-Ensures (Ended ride.ride_id)
                        (fire_due fl r fleet cfg fuel x.1.0 x.1.1 now_ms) _
                        (λ y e'.
                          Ensures-ok (Ended x.1.0.ride_id)
                            (fire_due fl r fleet cfg fuel x.1.0 x.1.1 now_ms) e'
                            (fire_due-ride_id fuel x.1.0 x.1.1 now_ms)
                          ∙ kept))
                ]))
      ]
