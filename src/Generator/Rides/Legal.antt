-- ===== src/Generator/Rides/Legal.antt =====
-- The simulator never asks a ride's machine for a transition that it refuses.
use stream_pipeline.Prelude.{
  Returns, ℕ, ◌≡◌, refl, ap, ◌∙◌, ◌+◌, subst, inl, inr, true, none, some, ok, raise, Bool-cases,
  illegal_transition, if◌then◌else◌,
}
use stream_pipeline.Common.Floats.{Floats}
use stream_pipeline.Generator.StateMachine.{
  RideEventType, requested, matched, driver_arrived, started, completed, cancelled, contains,
  advance, legal_next,
}
use stream_pipeline.Generator.StateMachine.Legality.{advance-legal_next}
use stream_pipeline.Generator.Random.{Random}
use stream_pipeline.Generator.Config.{GeneratorConfig}
use stream_pipeline.Generator.Events.{SourceEvent, ride_event}
use stream_pipeline.Generator.Fleet.{Fleet, Dependable}
use stream_pipeline.Generator.Rides.{ActiveRide, stops_at, Sim, Moved}
use stream_pipeline.Generator.Rides.Firing.{queue_payment, after_event, fired_event, fire, fare}
use stream_pipeline.Generator.Rides.Moves.{
  accepts, IsPlanned, IsEventOf, IsStaffed, IsMove, released-IsMove, at_state, after_matched-IsMove,
  after_arrived-IsMove, after_started-IsMove,
}

module _ (fl : Floats) (r : Random fl) (fleet : Fleet fl) (cfg : GeneratorConfig fl.Float)
    (d : Dependable fl fleet) where
  open fl use {Float}

  completed-IsMove :
      (ride : ActiveRide Float) (sim : Sim fl r fleet cfg) (at_ms : ℕ)
      → IsStaffed fl r fleet cfg d ride sim
      → Returns (IsMove fl r fleet cfg d (record { state = some completed }) sim) (
          after_event fl r fleet cfg completed (at_state fl r fleet cfg d ride completed) sim at_ms)
  unfolding after_event queue_payment
  completed-IsMove ride sim at_ms staff =
      let (x, returned, moved) =
        released-IsMove fl r fleet cfg d
          (record (at_state fl r fleet cfg d ride completed) {
            fare_cents = some (fare fl r fleet cfg ride);
          })
          _ at_ms (some ride.dropoff) refl staff in
      (x, returned, moved)

  after_event-IsMove :
      (event : RideEventType) (ride : ActiveRide Float) (sim : Sim fl r fleet cfg) (at_ms : ℕ)
      → IsStaffed fl r fleet cfg d ride sim
      → Returns
          (IsMove fl r fleet cfg d (record { state = some event }) sim)
          (after_event fl r fleet cfg event (at_state fl r fleet cfg d ride event) sim at_ms)
  unfolding after_event
  after_event-IsMove requested ride sim at_ms staff = (_, refl, (refl, refl, staff, λ x h. h))
  after_event-IsMove matched ride sim at_ms staff =
      after_matched-IsMove fl r fleet cfg d ride sim at_ms staff.0
  after_event-IsMove driver_arrived ride sim at_ms staff =
      elim (Bool-cases (stops_at ride.stop_after driver_arrived)) [
        | inl a ↦
            rw (after_event, a)
              (released-IsMove fl r fleet cfg d (at_state fl r fleet cfg d ride driver_arrived) sim
                at_ms none refl staff)
        | inr a ↦
            rw (after_event, a)
              (_, refl, after_arrived-IsMove fl r fleet cfg d ride sim at_ms staff)
      ]
  after_event-IsMove started ride sim at_ms staff =
      after_started-IsMove fl r fleet cfg d
        (record (at_state fl r fleet cfg d ride started) { started_ms = at_ms }) sim at_ms refl
        staff
  after_event-IsMove completed ride sim at_ms staff = completed-IsMove ride sim at_ms staff
  after_event-IsMove cancelled ride sim at_ms staff =
      released-IsMove fl r fleet cfg d (at_state fl r fleet cfg d ride cancelled)
        (record sim { cancelled_rides = sim.cancelled_rides + 1 }) at_ms none refl staff

  -- Firing a planned event of a ride never raises: if the event is one that the machine accepts,
  -- and the fleet is dependable, serves the ride's city and knows its driver, the machine moves to
  -- that event, the returned event is of that type, ride and planned time, and what is planned next, if
  -- anything, is again an event that the machine accepts, with the city and the driver known and
  -- no other driver forgotten.
  pub fire-IsPlanned :
      (ride : ActiveRide Float) (sim : Sim fl r fleet cfg) (event : RideEventType)
      → ride.next_event ≡ some event
      → IsPlanned ride
      → IsStaffed fl r fleet cfg d ride sim
      → Returns
          (λ (x : SourceEvent Float × Moved fl r fleet cfg).
            IsEventOf event x.1.0 ride.next_at_ms x.0
            × IsMove fl r fleet cfg d (record { state = some event }) sim x.1)
          (fire fl r fleet cfg ride sim)
  unfolding fire fired_event ride_event
  fire-IsPlanned ride sim event h planned staff =
      let legal : contains event (legal_next ride.machine) ≡ true =
        subst (λ e. accepts ride.machine e ≡ true) h planned in
      let accepted : advance ride.machine event ≡ ok (record { state = some event }) =
        advance-legal_next ride.machine event
        ∙ ap (λ b. if b then ok (record { state = some event }) else raise illegal_transition)
            legal in
      let (x, returned, moved) = after_event-IsMove event ride sim ride.next_at_ms staff in
      rw (fire, h, accepted, returned) (_, refl, ((refl, refl, refl), moved))
