-- ===== src/Generator/Rides/Firing.antt =====
-- src/generator/rides.py: `_fire`, the payments, and the due events of a ride.
use Prim.Native.String.{◌++◌ as text_append}
use stream_pipeline.Prelude.{
  ℕ, ◌+◌, ℤ, pos, String, Bool, true, false, not, ◌||◌, Option, none, some, List, [], ◌∷◌, ◌++◌,
  select, leb, zero, suc, Result, ok, raise, runtime_error, assertion_error, ◌>>=◌, if◌then◌else◌,
}
use stream_pipeline.Common.Floats.{Floats}
use stream_pipeline.Generator.StateMachine.{
  RideEventType, requested, matched, driver_arrived, started, completed, cancelled, is_kind,
  advance, is_terminal,
}
use stream_pipeline.Generator.Random.{Random}
use stream_pipeline.Generator.Config.{GeneratorConfig}
use stream_pipeline.Generator.Events.{SourceEvent, ride_event, payment_event}
use stream_pipeline.Generator.Fleet.{Fleet}
use stream_pipeline.Generator.Rides.{
  ActiveRide, stops_at, include_dropoff, due_by, Sim, Moved, to_ms, has_due_event, payload_version,
  release_driver, after_matched, after_arrived, after_started,
}

module _ (fl : Floats) (r : Random fl) (fleet : Fleet fl) (cfg : GeneratorConfig fl.Float) where
  open fl use {Float, of_int, lit, add, sub, mul, div, lt, to_int}

  -- `_fare`, of what is not negative
  unfoldable pub fare : ActiveRide Float → ℤ
  fare ride =
      let minutes = div ride.duration_sec (of_int 60) in
      let raw =
        add (add (of_int 5000) (mul (of_int 1500) ride.distance_km)) (mul (of_int 200) minutes) in
      pos (to_int (mul raw ride.surge))

  abbrev payment_status : Float → String
  payment_status roll =
      if lt roll (lit 96 2)
      then "completed"
      else (if lt roll (lit 99 2) then "failed" else "refunded")

  abbrev payment_method : Float → String
  payment_method roll =
      if lt roll (lit 55 2) then "card" else (if lt roll (lit 85 2) then "wallet" else "cash")

  abbrev queued :
      Option ℤ → ActiveRide Float → (Sim fl r fleet cfg) → ℕ → Result (Sim fl r fleet cfg)
  queued none ride sim completed_ms = raise assertion_error
  queued (some cents) ride sim completed_ms =
      let (sec, rng) = r.uniform (of_int 5) (of_int 90) sim.rng in
      let (roll, rng') = r.random rng in
      let (method_roll, rng'') = r.random rng' in
      let due_ms = completed_ms + to_ms fl r fleet cfg sec in
      let payment = payment_event (record {
        txn_id = text_append "t-" ride.ride_id;
        ride_id = ride.ride_id;
        amount_cents = cents;
        status = payment_status roll;
        method = payment_method method_roll;
        ts = due_ms;
      }) in
      ok (record sim { rng = rng''; payments = sim.payments ++ (due_ms, payment) ∷ [] })

  unfoldable pub queue_payment :
      ActiveRide Float → (Sim fl r fleet cfg) → ℕ → Result (Sim fl r fleet cfg)
  queue_payment ride sim completed_ms = queued ride.fare_cents ride sim completed_ms

  -- `_due_payments`
  unfoldable pub due_payments :
      (Sim fl r fleet cfg) → ℕ → List (SourceEvent Float) × (Sim fl r fleet cfg)
  unfolding due_by
  due_payments sim now_ms = (
    due_by now_ms sim.payments,
    record sim { payments = select (λ e. not (leb e.0 now_ms)) sim.payments },
  )

  -- the branches of `_fire`, for the ride that has moved
  unfoldable pub after_event :
      RideEventType → ActiveRide Float → (Sim fl r fleet cfg) → ℕ → Result (Moved fl r fleet cfg)
  unfolding after_matched after_arrived after_started fare queue_payment
  after_event requested ride sim at_ms = ok (ride, sim)
  after_event matched ride sim at_ms = after_matched fl r fleet cfg ride sim at_ms
  after_event driver_arrived ride sim at_ms =
      if stops_at ride.stop_after driver_arrived
      then (release_driver fl r fleet cfg ride sim at_ms none >>= λ s. ok (ride, s))
      else ok (after_arrived fl r fleet cfg ride sim at_ms)
  after_event started ride sim at_ms =
      after_started fl r fleet cfg (record ride { started_ms = at_ms }) sim at_ms
  after_event completed ride sim at_ms =
      let priced = record ride { fare_cents = some (fare ride) } in
      let counted = record sim { completed_rides = sim.completed_rides + 1 } in
      queue_payment priced counted at_ms >>= λ s.
      release_driver fl r fleet cfg priced s at_ms (some priced.dropoff) >>= λ s'. ok (priced, s')
  after_event cancelled ride sim at_ms =
      release_driver fl r fleet cfg ride (record sim { cancelled_rides = sim.cancelled_rides + 1 })
        at_ms none
      >>= λ s. ok (ride, s)

  -- the event that `_fire` returns
  unfoldable pub fired_event :
      RideEventType → ActiveRide Float → (Sim fl r fleet cfg) → ℕ → SourceEvent Float
  unfolding payload_version
  fired_event event ride sim at_ms =
      let version = payload_version fl r fleet cfg sim at_ms in
      ride_event (record {
        ride_id = ride.ride_id;
        event_type = event;
        event_ts_ms = at_ms;
        rider_id = ride.rider_id;
        city_id = ride.city_id;
        pickup = ride.pickup;
        surge_multiplier = ride.surge;
        driver_id = ride.driver_id;
        dropoff = if include_dropoff event then some ride.dropoff else none;
        fare_cents = if is_kind event completed then ride.fare_cents else none;
        payload_version = version;
        promo_code = if leb 2 version then ride.promo_code else none;
      })

  abbrev pub fire_next :
      Option RideEventType
      → ActiveRide Float
      → (Sim fl r fleet cfg)
      → Result (SourceEvent Float × (Moved fl r fleet cfg))
  fire_next none ride sim = raise assertion_error
  fire_next (some event) ride sim = advance ride.machine event >>= λ machine.
      after_event event (record ride { machine = machine; next_event = none }) sim ride.next_at_ms
      >>= λ x. ok (fired_event event x.0 x.1 ride.next_at_ms, x)

  unfoldable pub fire :
      ActiveRide Float → (Sim fl r fleet cfg) → Result (SourceEvent Float × (Moved fl r fleet cfg))
  unfolding after_event fired_event
  fire ride sim = fire_next ride.next_event ride sim

  -- `stop_after == state`
  abbrev is_same : Option RideEventType → Option RideEventType → Bool
  is_same none none = true
  is_same none (some b) = false
  is_same (some a) none = false
  is_same (some a) (some b) = is_kind a b

  -- whether the ride leaves the active ones
  unfoldable pub is_done : ActiveRide Float → Bool
  is_done ride = is_terminal ride.machine || is_same ride.stop_after ride.machine.state

  -- The loop of `_progress` over the due events of a ride: they and whether the ride is done.
  unfoldable pub fire_due :
      ℕ
      → ActiveRide Float
      → (Sim fl r fleet cfg)
      → ℕ
      → Result (List (SourceEvent Float) × (Bool × (Moved fl r fleet cfg)))
  unfolding has_due_event fire is_done
  fire_due zero ride sim now_ms = raise runtime_error
  fire_due (suc fuel) ride sim now_ms =
      if has_due_event fl r fleet cfg ride now_ms
      then (fire ride sim >>= λ x.
          if is_done x.1.0
          then ok (x.0 ∷ [], (true, x.1))
          else (fire_due fuel x.1.0 x.1.1 now_ms >>= λ y. ok (x.0 ∷ y.0, y.1)))
      else ok ([], (false, (ride, sim)))
