-- ===== src/Generator/Rides/Moves.antt =====
-- What a ride, its plan and its driver are after each of its events.
use stream_pipeline.Prelude.{
  Returns, Returns->>=, ℕ, ◌≡◌, refl, inl, inr, String, Bool, true, Option, none, some, ok, ◌>>=◌,
  Bool-cases,
}
use stream_pipeline.Common.Floats.{Floats}
use stream_pipeline.Generator.StateMachine.{
  RideEventType, RideStateMachine, matched, driver_arrived, started, contains, legal_next,
  value as kind_value,
}
use stream_pipeline.Generator.Random.{Random}
use stream_pipeline.Generator.Config.{GeneratorConfig, cancel_prob}
use stream_pipeline.Generator.Events.{SourceEvent, Value, ride_event}
use stream_pipeline.Generator.Events
use stream_pipeline.Generator.Fleet.{Fleet, Fact, knows, Dependable}
use stream_pipeline.Generator.Rides.{
  ActiveRide, stops_at, Sim, Moved, release_driver, release_known, after_assigned, after_matched,
  after_arrived, start_known, with_duration, end_planned, after_started,
}

-- The planned event, if there is one, is one that the machine accepts.
abbrev pub accepts : RideStateMachine → Option RideEventType → Bool
accepts m none = true
accepts m (some event) = contains event (legal_next m)

abbrev pub IsPlanned : {F : Type 0} → ActiveRide F → Type 0
IsPlanned ride = accepts ride.machine ride.next_event ≡ true

abbrev pub event_type_of : {F : Type 0} → Value F → Option String
event_type_of (Events.Value.ride v) = some v.event_type
event_type_of other = none

-- An event of the ride, of that type and at that time.
abbrev pub IsEventOf : {F : Type 0} → RideEventType → ActiveRide F → ℕ → SourceEvent F → Type 0
IsEventOf event r at_ms e =
    (event_type_of e.value ≡ some (kind_value event)) × (e.key ≡ r.ride_id) × (e.ts_ms ≡ at_ms)

module _ (fl : Floats) (r : Random fl) (fleet : Fleet fl) (cfg : GeneratorConfig fl.Float)
    (d : Dependable fl fleet) where
  open fl use {Float}

  abbrev pub KnowsOf : fleet.State → Option String → Type 0
  KnowsOf s none = Unit
  KnowsOf s (some driver) = d.Holds s (knows driver)

  -- The fleet serves the ride's city and knows its driver.
  abbrev pub IsStaffed : ActiveRide Float → Sim fl r fleet cfg → Type 0
  IsStaffed ride sim = d.Serves ride.city_id × KnowsOf sim.fleet ride.driver_id

  -- What a move keeps: the machine, a legal plan, the staff, and every driver that was known.
  abbrev pub IsMove : RideStateMachine → Sim fl r fleet cfg → Moved fl r fleet cfg → Type 0
  IsMove m sim (ride, sim') =
      (ride.machine ≡ m)
      × IsPlanned ride
      × IsStaffed ride sim'
      × ((x : Fact) → d.Holds sim.fleet x → d.Holds sim'.fleet x)

  pub KnowsOf-kept :
      (s s' : fleet.State) (driver : Option String)
      → ((x : Fact) → d.Holds s x → d.Holds s' x)
      → KnowsOf s driver
      → KnowsOf s' driver
  KnowsOf-kept s s' none keep k = tt
  KnowsOf-kept s s' (some x) keep k = keep (knows x) k

  pub release_known-Returns :
      (driver : Option String) (sim : Sim fl r fleet cfg) (at_ms : ℕ) (at : Option (Float × Float))
      → KnowsOf sim.fleet driver
      → Returns
          (λ (s : Sim fl r fleet cfg). (x : Fact) → d.Holds sim.fleet x → d.Holds s.fleet x)
          (release_known fl r fleet cfg driver sim at_ms at)
  release_known-Returns none sim at_ms at k = (sim, refl, λ x h. h)
  release_known-Returns (some driver) sim at_ms at k =
      let (s', e, keep) = d.releases driver at_ms at sim.fleet k in
      rw e (record sim { fleet = s' }, refl, keep)

  pub start_known-Returns :
      (driver : Option String) (ride : ActiveRide Float) (sim : Sim fl r fleet cfg) (at_ms : ℕ)
      → KnowsOf sim.fleet driver
      → Returns
          (λ (s : Sim fl r fleet cfg). (x : Fact) → d.Holds sim.fleet x → d.Holds s.fleet x)
          (start_known fl r fleet cfg driver ride sim at_ms)
  start_known-Returns none ride sim at_ms k = (sim, refl, λ x h. h)
  start_known-Returns (some driver) ride sim at_ms k =
      let (s', e, keep) = d.starts driver ride.dropoff ride.duration_sec at_ms sim.fleet k in
      rw e (record sim { fleet = s' }, refl, keep)

  -- A ride without a plan whose driver is released
  pub released-IsMove :
      (ride : ActiveRide Float) (sim : Sim fl r fleet cfg) (at_ms : ℕ) (at : Option (Float × Float))
      → ride.next_event ≡ none
      → IsStaffed ride sim
      → Returns
          (IsMove ride.machine sim)
          (release_driver fl r fleet cfg ride sim at_ms at >>= λ s. ok (ride, s))
  released-IsMove ride sim at_ms at h (serves, k) =
      Returns->>= _ (IsMove ride.machine sim) (release_driver fl r fleet cfg ride sim at_ms at) _
        (release_known-Returns ride.driver_id sim at_ms at k)
        (λ s keep. (
          (ride, s),
          refl,
          (refl, rw h refl, (serves, KnowsOf-kept sim.fleet s.fleet ride.driver_id keep k), keep),
        ))

  -- The ride after the machine has accepted an event.
  abbrev pub at_state : ActiveRide Float → RideEventType → ActiveRide Float
  at_state ride event = record ride { machine = record { state = some event }; next_event = none }

  pub after_assigned-IsMove :
      (ride : ActiveRide Float) (sim : Sim fl r fleet cfg) (travel : Float) (at_ms : ℕ)
      → IsStaffed ride sim
      → Returns
          (IsMove (record { state = some matched }) sim)
          (after_assigned fl r fleet cfg (at_state ride matched) sim travel at_ms)
  unfolding after_assigned contains legal_next
  after_assigned-IsMove ride sim travel at_ms staff =
      elim (Bool-cases (stops_at ride.stop_after matched)) [
        | inl a ↦
            rw (after_assigned, a)
              (released-IsMove (at_state ride matched) sim at_ms none refl staff)
        | inr a ↦ elim (Bool-cases (fl.lt (r.random sim.rng).0 (cancel_prob fl cfg "matched"))) [
          | inl b ↦ rw (after_assigned, a, b) (_, refl, (refl, refl, staff, λ x h. h))
          | inr b ↦ rw (after_assigned, a, b) (_, refl, (refl, refl, staff, λ x h. h))
        ]
      ]

  pub after_matched-IsMove :
      (ride : ActiveRide Float) (sim : Sim fl r fleet cfg) (at_ms : ℕ)
      → d.Serves ride.city_id
      → Returns
          (IsMove (record { state = some matched }) sim)
          (after_matched fl r fleet cfg (at_state ride matched) sim at_ms)
  unfolding after_matched
  after_matched-IsMove ride sim at_ms serves =
      let (driver, travel, s', e, known, keep) =
        d.assigns ride.city_id ride.pickup at_ms sim.fleet serves in
      let (x, returned, (machine, planned, staff, kept)) =
        after_assigned-IsMove (record ride { driver_id = some driver }) (record sim { fleet = s' })
          travel at_ms (serves, known) in
      rw (after_matched, e) (x, returned, (machine, planned, staff, λ y h. kept y (keep y h)))

  pub after_arrived-IsMove :
      (ride : ActiveRide Float) (sim : Sim fl r fleet cfg) (at_ms : ℕ)
      → IsStaffed ride sim
      → IsMove
          (record { state = some driver_arrived })
          sim
          (after_arrived fl r fleet cfg (at_state ride driver_arrived) sim at_ms)
  unfolding after_arrived contains legal_next
  after_arrived-IsMove ride sim at_ms staff =
      elim (Bool-cases (fl.lt (r.random sim.rng).0 (cancel_prob fl cfg "driver_arrived"))) [
        | inl b ↦ rw (after_arrived, b) (refl, refl, staff, λ x h. h)
        | inr b ↦ rw (after_arrived, b) (refl, refl, staff, λ x h. h)
      ]

  pub end_planned-IsMove :
      (ride : ActiveRide Float) (sim : Sim fl r fleet cfg) (at_ms : ℕ)
      → ride.machine ≡ record { state = some started }
      → IsStaffed ride sim
      → IsMove (record { state = some started }) sim (end_planned fl r fleet cfg ride sim at_ms)
  unfolding end_planned contains legal_next
  end_planned-IsMove ride sim at_ms h staff =
      elim (Bool-cases (fl.lt (r.random sim.rng).0 (cancel_prob fl cfg "started"))) [
        | inl b ↦ rw (end_planned, b) (h, rw h refl, staff, λ x k. k)
        | inr b ↦ rw (end_planned, b) (h, rw h refl, staff, λ x k. k)
      ]

  pub after_started-IsMove :
      (ride : ActiveRide Float) (sim : Sim fl r fleet cfg) (at_ms : ℕ)
      → ride.machine ≡ record { state = some started }
      → IsStaffed ride sim
      → Returns
          (IsMove (record { state = some started }) sim)
          (after_started fl r fleet cfg ride sim at_ms)
  unfolding after_started with_duration
  after_started-IsMove ride sim at_ms h (serves, k) =
      let (timed, sim') = with_duration fl r fleet cfg ride sim in
      Returns->>= _ (IsMove (record { state = some started }) sim)
        (start_known fl r fleet cfg timed.driver_id timed sim' at_ms) _
        (start_known-Returns timed.driver_id timed sim' at_ms k)
        (λ s keep.
          let (machine, planned, staff, kept) =
            end_planned-IsMove timed s at_ms h
              (serves, KnowsOf-kept sim.fleet s.fleet ride.driver_id keep k) in
          (_, refl, (machine, planned, staff, λ x y. kept x (keep x y))))
