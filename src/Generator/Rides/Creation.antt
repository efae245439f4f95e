-- ===== src/Generator/Rides/Creation.antt =====
-- src/generator/rides.py: the rides that a tick creates.
use Prim.Native.String.{◌++◌ as text_append}
use stream_pipeline.Prelude.Dict
use stream_pipeline.Prelude.Dict.{Dict}
use stream_pipeline.Prelude.{
  ℕ, zero, suc, ◌+◌, String, Option, none, some, List, [], ◌∷◌, leb, Result, ok, raise,
  runtime_error, ◌>>=◌, get_elem?, text_key, if◌then◌else◌,
}
use stream_pipeline.Common.Floats.{Floats, lower, higher}
use stream_pipeline.Common.Geo.{haversine_km}
use stream_pipeline.Common.Numerals.{padded}
use stream_pipeline.Generator.StateMachine.{
  RideEventType, requested, matched, driver_arrived, fresh, advance,
}
use stream_pipeline.Generator.Random.{Random}
use stream_pipeline.Generator.Config.{GeneratorConfig}
use stream_pipeline.Generator.Diurnal
use stream_pipeline.Generator.Cities.{
  City, cities, chennai, pick_city, total_demand_weight, sample_hotspot_point,
}
use stream_pipeline.Generator.Events.{SourceEvent, ride_event}
use stream_pipeline.Generator.Fleet.{Fleet}
use stream_pipeline.Generator.Rides.{ActiveRide, Sim, payload_version, schedule_after_requested}

-- The other attributes of the simulator: the rides that are active, by their identifiers, and what
-- makes new ones. `run_token` is six digits of a checksum of the seed and the anchor.
pub record RideBook (F : Type 0) : Type 0 where
  pub run_token : String
  pub active : Dict String (ActiveRide F)
  pub counter : ℕ
  pub spawn_carry : F

abbrev pub promo_codes : List String
promo_codes = "SAVE10" ∷ "FIRST50" ∷ "WKND20" ∷ "MONSOON15" ∷ []

abbrev pub stops : List RideEventType
stops = matched ∷ driver_arrived ∷ []

abbrev pub ride_id_of : String → ℕ → String
ride_id_of token n = text_append "r-" (text_append token (text_append "-" (padded 6 n)))

module _ (fl : Floats) (r : Random fl) (fleet : Fleet fl) (cfg : GeneratorConfig fl.Float) where
  open fl use {Float, of_int, lit, add, sub, mul, div, lt, round, to_int}

  unfoldable pub demand_factor : ℕ → Float
  unfolding Diurnal.demand_factor
  demand_factor now_ms = if cfg.diurnal then Diurnal.demand_factor fl now_ms else lit 10 1

  unfoldable pub surge_for : ℕ → r.State → Float × r.State
  unfolding demand_factor
  surge_for now_ms rng =
      let (noise, rng') = r.gauss (lit 0 1) (lit 10 2) rng in
      let surge = add (add (lit 55 2) (mul (lit 45 2) (demand_factor now_ms))) noise in
      (round (lower fl (higher fl surge (lit 10 1)) (lit 30 1)) 2, rng')

  -- the city of a ride, its pickup and its drop-off, which is drawn again if it is too near
  unfoldable pub places : r.State → City Float × (Float × Float) × (Float × Float) × r.State
  unfolding pick_city sample_hotspot_point
  places rng =
      let (roll, rng1) = r.random rng in
      let city =
        pick_city fl (mul roll (total_demand_weight fl)) (lit 0 1) (chennai fl) (cities fl) in
      let (pickup, rng2) = sample_hotspot_point fl r city rng1 in
      let (dropoff, rng3) = sample_hotspot_point fl r city rng2 in
      let (again, rng4) = sample_hotspot_point fl r city rng3 in
      if lt (haversine_km fl pickup.0 pickup.1 dropoff.0 dropoff.1) (lit 5 1)
      then (city, pickup, again, rng4)
      else (city, pickup, dropoff, rng3)

  -- `rng.choice(xs)` with the given probability: like `randrange`, it draws an index
  abbrev pub perhaps : {A : Type 0} → Float → List A → ℕ → r.State → Option A × r.State
  perhaps rate xs n rng =
      let (roll, rng1) = r.random rng in
      let (index, rng2) = r.randrange n rng1 in
      if lt roll rate then (get_elem? xs index, rng2) else (none, rng1)

  -- the ride before its machine is advanced
  unfoldable pub new_ride : String → ℕ → r.State → ActiveRide Float × r.State
  unfolding places surge_for
  new_ride ride_id now_ms rng =
      let (city, pickup, dropoff, rng1) = places rng in
      let (rider, rng2) = r.randrange 200000 rng1 in
      let (surge, rng3) = surge_for now_ms rng2 in
      let (offset, rng4) = r.randrange cfg.tick_ms rng3 in
      let (promo, rng5) = perhaps (lit 15 2) promo_codes 4 rng4 in
      let (stop, rng6) = perhaps cfg.abandon_rate stops 2 rng5 in
      (
        record {
          ride_id = ride_id;
          rider_id = text_append "u-" (padded 6 rider);
          city_id = city.city_id;
          pickup = pickup;
          dropoff = dropoff;
          surge = surge;
          machine = fresh;
          driver_id = none;
          requested_ms = now_ms + offset;
          started_ms = 0;
          fare_cents = none;
          next_at_ms = 0;
          next_event = none;
          stop_after = stop;
          distance_km = haversine_km fl pickup.0 pickup.1 dropoff.0 dropoff.1;
          duration_sec = lit 0 1;
          promo_code = promo;
        },
        rng6,
      )

  -- the event of the request
  unfoldable pub request_event : ActiveRide Float → ℕ → SourceEvent Float
  request_event ride version = ride_event (record {
    ride_id = ride.ride_id;
    event_type = requested;
    event_ts_ms = ride.requested_ms;
    rider_id = ride.rider_id;
    city_id = ride.city_id;
    pickup = ride.pickup;
    surge_multiplier = ride.surge;
    driver_id = none;
    dropoff = some ride.dropoff;
    fare_cents = none;
    payload_version = version;
    promo_code = if leb 2 version then ride.promo_code else none;
  })

  unfoldable pub create_ride :
      RideBook Float
      → Sim fl r fleet cfg
      → ℕ
      → Result (SourceEvent Float × RideBook Float × Sim fl r fleet cfg)
  unfolding new_ride request_event
  create_ride book sim now_ms =
      let counter = book.counter + 1 in
      let (made, rng) = new_ride (ride_id_of book.run_token counter) now_ms sim.rng in
      advance made.machine requested >>= λ machine.
      let (ride, sim') =
        schedule_after_requested fl r fleet cfg (record made { machine = machine })
          (record sim { rng = rng }) in
      ok (
        request_event ride (payload_version fl r fleet cfg sim' ride.requested_ms),
        record book { counter = counter; active = Dict.put ride.ride_id ride book.active },
        sim',
      )

  -- The loop of `_spawn`, with fuel for its rounds.
  unfoldable pub spawn_rounds :
      ℕ
      → RideBook Float
      → Sim fl r fleet cfg
      → ℕ
      → Result (List (SourceEvent Float) × RideBook Float × Sim fl r fleet cfg)
  unfolding create_ride
  spawn_rounds zero book sim now_ms = raise runtime_error
  spawn_rounds (suc fuel) book sim now_ms =
      let spent = record book { spawn_carry = sub book.spawn_carry (lit 10 1) } in
      let more = create_ride spent sim now_ms >>= λ x.
      spawn_rounds fuel x.1 x.2 now_ms >>= λ y. ok (x.0 ∷ y.0, y.1, y.2) in
      if lt book.spawn_carry (lit 10 1) then ok ([], book, sim) else more

  unfoldable pub rate_per_tick : ℕ → Float
  unfolding demand_factor
  rate_per_tick now_ms =
      mul (mul (div cfg.base_rides_per_min (lit 600 1)) (div (of_int cfg.tick_ms) (lit 10000 1)))
        (demand_factor now_ms)

  unfoldable pub spawn :
      RideBook Float
      → Sim fl r fleet cfg
      → ℕ
      → Result (List (SourceEvent Float) × RideBook Float × Sim fl r fleet cfg)
  unfolding rate_per_tick spawn_rounds
  spawn book sim now_ms =
      let carry = add book.spawn_carry (rate_per_tick now_ms) in
      spawn_rounds (suc (to_int carry)) (record book { spawn_carry = carry }) sim now_ms
