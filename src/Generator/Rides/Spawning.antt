-- ===== src/Generator/Rides/Spawning.antt =====
-- The rides that a tick creates, and the end of the loop of `_spawn`.
use stream_pipeline.Prelude.Dict
use stream_pipeline.Prelude.Dict.{Dict, IsDict}
use stream_pipeline.Prelude.{
  ℕ, zero, suc, ◌+◌, ◌^◌, ◌<◌, ◌≡◌, refl, sym, subst, ◌∙◌, inl, inr, true, false, Bool-cases,
  String, none, some, List, [], ◌∷◌, All, inl, inr, Returns, text_key, arith,
}
use stream_pipeline.Common.Floats.{Floats}
use stream_pipeline.Generator.StateMachine.{requested, contains, legal_next, advance}
use stream_pipeline.Generator.Random.{Random}
use stream_pipeline.Generator.Config.{GeneratorConfig, cancel_prob}
use stream_pipeline.Generator.Cities.{
  City, cities, chennai, pick_city, total_demand_weight, sample_hotspot_point,
}
use stream_pipeline.Common.Geo.{haversine_km}
use stream_pipeline.Generator.Events.{SourceEvent}
use stream_pipeline.Generator.Fleet.{Fleet, Dependable}
use stream_pipeline.Generator.Rides.{ActiveRide, Sim, schedule_after_requested}
use stream_pipeline.Generator.Rides.Moves.{IsPlanned, KnowsOf}
use stream_pipeline.Generator.Rides.Creation.{
  RideBook, ride_id_of, places, new_ride, create_ride, spawn_rounds, spawn, rate_per_tick,
}

pick_city-All :
    (fl : Floats) (P : City fl.Float → Type 0) (roll acc : fl.Float) (last : City fl.Float)
    (cs : List (City fl.Float))
    → P last
    → All P cs
    → P (pick_city fl roll acc last cs)
unfolding pick_city
pick_city-All fl P roll acc last [] p h = p
pick_city-All fl P roll acc last (c ∷ cs) p h =
    elim (Bool-cases (fl.lt (fl.add acc c.demand_weight) roll)) [
      | inl b ↦
          rw (pick_city, b) (pick_city-All fl P roll (fl.add acc c.demand_weight) last cs p h.1)
      | inr b ↦ rw (pick_city, b) h.0
    ]

module _ (fl : Floats) (r : Random fl) (fleet : Fleet fl) (cfg : GeneratorConfig fl.Float)
    (d : Dependable fl fleet) where
  open fl use {Float, lt, lit, sub, add, to_int}

  -- An active ride: it stands under its identifier, its next event is legal, and the fleet serves
  -- its city and knows its driver.
  abbrev pub IsActive : fleet.State → String × ActiveRide Float → Type 0
  IsActive s (id, ride) =
      (ride.ride_id ≡ id)
      × IsPlanned ride
      × d.Serves ride.city_id
      × KnowsOf fl r fleet cfg d s ride.driver_id

  abbrev pub AllServed : Type 0
  AllServed = All (λ (c : City Float). d.Serves c.city_id) (cities fl)

  places-Serves : (rng : r.State) → AllServed → d.Serves (places fl r fleet cfg rng).0.city_id
  unfolding places
  places-Serves rng served =
      let (roll, rng1) = r.random rng in
      let city =
        pick_city fl (fl.mul roll (total_demand_weight fl)) (lit 0 1) (chennai fl) (cities fl) in
      let (pickup, rng2) = sample_hotspot_point fl r city rng1 in
      let (dropoff, rng3) = sample_hotspot_point fl r city rng2 in
      let serves : d.Serves city.city_id =
        pick_city-All fl (λ c. d.Serves c.city_id) _ _ (chennai fl) (cities fl) served.1.1.1.1.0
          served in
      elim (Bool-cases (lt (haversine_km fl pickup.0 pickup.1 dropoff.0 dropoff.1) (lit 5 1))) [
        | inl b ↦ rw (places, b) serves
        | inr b ↦ rw (places, b) serves
      ]

  schedule-IsActive :
      (ride : ActiveRide Float) (sim : Sim fl r fleet cfg)
      → ride.machine ≡ record { state = some requested }
      → d.Serves ride.city_id
      → ride.driver_id ≡ none
      → let (ride', sim') = schedule_after_requested fl r fleet cfg ride sim in
        (ride'.ride_id ≡ ride.ride_id)
        × IsActive sim.fleet (ride.ride_id, ride')
        × (sim'.fleet ≡ sim.fleet)
  unfolding schedule_after_requested contains legal_next
  schedule-IsActive ride sim at_request serves free =
      elim (Bool-cases (lt (r.random sim.rng).0 (cancel_prob fl cfg "requested"))) [
        | inl b ↦
            rw (schedule_after_requested, b)
              (refl, (refl, rw at_request refl, serves, rw free tt), refl)
        | inr b ↦
            rw (schedule_after_requested, b)
              (refl, (refl, rw at_request refl, serves, rw free tt), refl)
      ]

  abbrev pub Made :
      RideBook Float → Sim fl r fleet cfg → RideBook Float → Sim fl r fleet cfg → Type 0
  Made book sim book' sim' =
      IsDict book'.active
      × All (IsActive sim'.fleet) book'.active
      × (sim'.fleet ≡ sim.fleet)
      × (book'.spawn_carry ≡ book.spawn_carry)

  create_ride-Returns :
      (book : RideBook Float) (sim : Sim fl r fleet cfg) (now_ms : ℕ)
      → AllServed
      → IsDict book.active
      → All (IsActive sim.fleet) book.active
      → Returns
          (λ (x : SourceEvent Float × RideBook Float × Sim fl r fleet cfg). Made book sim x.1 x.2)
          (create_ride fl r fleet cfg book sim now_ms)
  unfolding create_ride new_ride advance
  create_ride-Returns book sim now_ms served unique active =
      let id = ride_id_of book.run_token (book.counter + 1) in
      let (made, rng) = new_ride fl r fleet cfg id now_ms sim.rng in
      let asked = record made { machine = record { state = some requested } } in
      let (ride, sim') = schedule_after_requested fl r fleet cfg asked (record sim { rng = rng }) in
      let (same, fit, left) =
        schedule-IsActive asked (record sim { rng = rng }) refl (places-Serves sim.rng served)
          refl in
      (
        _,
        refl,
        (
          Dict.put-IsDict ride.ride_id ride book.active unique,
          subst (λ s. All (IsActive s) (Dict.put ride.ride_id ride book.active)) (sym left)
              (Dict.All-put (IsActive sim.fleet) ride.ride_id ride book.active
                (subst (λ i. IsActive sim.fleet (i, ride)) (sym same) fit) active),
          left,
          refl,
        ),
      )

  -- Of the floats: to take one from a number that is at least one, and small enough for a float to
  -- hold its neighbours, lowers its whole part.
  abbrev pub Spends : Type 0
  Spends =
      (x : Float)
      → lt x (lit 10 1) ≡ false
      → to_int x < 2 ^ 53
      → to_int (sub x (lit 10 1)) < to_int x

  -- What a spawn leaves: less than one ride's worth of carry, and only active rides.
  abbrev pub Spawned :
      Sim fl r fleet cfg → List (SourceEvent Float) × RideBook Float × Sim fl r fleet cfg → Type 0
  Spawned sim (events, book', sim') =
      IsDict book'.active
      × All (IsActive sim'.fleet) book'.active
      × (sim'.fleet ≡ sim.fleet)
      × (lt book'.spawn_carry (lit 10 1) ≡ true)

  -- The loop of `_spawn` ends: its fuel exceeds the whole part of the carry.
  spawn_rounds-Returns :
      (fuel : ℕ) (book : RideBook Float) (sim : Sim fl r fleet cfg) (now_ms : ℕ)
      → Spends
      → AllServed
      → to_int book.spawn_carry < 2 ^ 53
      → to_int book.spawn_carry < fuel
      → IsDict book.active
      → All (IsActive sim.fleet) book.active
      → Returns (Spawned sim) (spawn_rounds fl r fleet cfg fuel book sim now_ms)
  unfolding spawn_rounds
  spawn_rounds-Returns zero book sim now_ms spends served small enough unique active =
      absurd (omega (arith, enough))
  spawn_rounds-Returns (suc fuel) book sim now_ms spends served small enough unique active =
      elim (Bool-cases (lt book.spawn_carry (lit 10 1))) [
        | inl b ↦ rw (spawn_rounds, b) (_, refl, (unique, active, refl, b))
        | inr b ↦
            let spent = record book { spawn_carry = sub book.spawn_carry (lit 10 1) } in
            let less = spends book.spawn_carry b small in
            let (x, e, (unique', active', left, carry)) =
              create_ride-Returns spent sim now_ms served unique active in
            let less' : to_int x.1.spawn_carry < to_int book.spawn_carry =
              subst (λ c. to_int c < to_int book.spawn_carry) (sym carry) less in
            let (y, e', (unique'', active'', left', done)) =
              spawn_rounds-Returns fuel x.1 x.2 now_ms spends served (omega (arith, less', small))
                (omega (arith, less', enough)) unique' active' in
            rw (spawn_rounds, b, e, e') (_, refl, (unique'', active'', left' ∙ left, done))
      ]

  pub spawn-Returns :
      (book : RideBook Float) (sim : Sim fl r fleet cfg) (now_ms : ℕ)
      → Spends
      → AllServed
      → to_int (add book.spawn_carry (rate_per_tick fl r fleet cfg now_ms)) < 2 ^ 53
      → IsDict book.active
      → All (IsActive sim.fleet) book.active
      → Returns (Spawned sim) (spawn fl r fleet cfg book sim now_ms)
  unfolding spawn
  spawn-Returns book sim now_ms spends served small unique active =
      let carry = add book.spawn_carry (rate_per_tick fl r fleet cfg now_ms) in
      spawn_rounds-Returns (suc (to_int carry)) (record book { spawn_carry = carry }) sim now_ms
        spends served small (omega arith) unique active
