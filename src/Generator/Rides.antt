-- ===== src/Generator/Rides.antt =====
-- src/generator/rides.py: a ride and what it plans after each event, over a fleet and random draws.
pub mod Creation
pub mod Firing
pub mod Moves
pub mod Legal
pub mod Progress
pub mod Identity
pub mod Spawning
pub mod Ticks
pub mod Deletions
pub mod Steady
pub mod Identifiers
pub mod Numbers
pub mod Numbering
use Prim.Native.String.{◌++◌ as text_append}
use stream_pipeline.Prelude.{
  ℕ, ◌+◌, ℤ, pos, String, Bool, true, false, not, ◌||◌, Option, none, some, List, [], ◌∷◌, ◌++◌,
  map, select, leb, zero, suc, Result, ok, raise, runtime_error, assertion_error, ◌>>=◌,
  if◌then◌else◌,
}
use stream_pipeline.Common.Floats.{Floats, lower, higher}
use stream_pipeline.Generator.StateMachine.{
  RideEventType, RideStateMachine, requested, matched, driver_arrived, started, completed,
  cancelled, is_kind, advance, is_terminal,
}
use stream_pipeline.Generator.Random.{Random}
use stream_pipeline.Generator.Config.{GeneratorConfig, cancel_prob}
use stream_pipeline.Generator.Events.{SourceEvent, ride_event, payment_event}
use stream_pipeline.Generator.Fleet.{Fleet}

pub record ActiveRide (F : Type 0) : Type 0 where
  pub ride_id : String
  pub rider_id : String
  pub city_id : ℕ
  pub pickup : F × F
  pub dropoff : F × F
  pub surge : F
  pub machine : RideStateMachine
  pub driver_id : Option String
  pub requested_ms : ℕ
  pub started_ms : ℕ
  pub fare_cents : Option ℤ
  pub next_at_ms : ℕ
  pub next_event : Option RideEventType
  pub stop_after : Option RideEventType
  pub distance_km : F
  pub duration_sec : F
  pub promo_code : Option String

-- The attributes of the simulator that the events of a ride change.
pub record RideSimulator (F S D : Type 0) : Type 0 where
  pub rng : S
  pub fleet : D
  pub anchor_ms : ℕ
  pub payments : List (ℕ × SourceEvent F)
  pub completed_rides : ℕ
  pub cancelled_rides : ℕ

-- `event is stop_after`
abbrev pub stops_at : Option RideEventType → RideEventType → Bool
stops_at none event = false
stops_at (some stop) event = is_kind stop event

-- `_plan`
abbrev pub plan : {F : Type 0} → ActiveRide F → RideEventType → ℕ → ActiveRide F
plan ride event at_ms = record ride { next_event = some event; next_at_ms = at_ms }

-- whether the event carries the drop-off
abbrev pub include_dropoff : RideEventType → Bool
include_dropoff event =
    is_kind event requested || (is_kind event started || is_kind event completed)

unfoldable pub due_by : {A : Type 0} → ℕ → List (ℕ × A) → List A
due_by now_ms entries = map (λ e. e.1) (select (λ e. leb e.0 now_ms) entries)

module _ (fl : Floats) (r : Random fl) (fleet : Fleet fl) (cfg : GeneratorConfig fl.Float) where
  open fl use {Float, of_int, lit, add, sub, mul, div, lt, to_int}

  abbrev pub Sim : Type 0
  Sim = RideSimulator Float r.State fleet.State

  abbrev pub Moved : Type 0
  Moved = ActiveRide Float × Sim

  -- `int(sec * 1000)`
  abbrev pub to_ms : Float → ℕ
  to_ms sec = to_int (mul sec (of_int 1000))

  abbrev pub exp : Float → r.State → Float × r.State
  exp mean rng = r.expovariate (div (of_int 1) mean) rng

  unfoldable pub has_due_event : ActiveRide Float → ℕ → Bool
  has_due_event ride now_ms = planned ride.next_event
    where
      planned : Option RideEventType → Bool
      planned none = false
      planned (some event) = leb ride.next_at_ms now_ms

  unfoldable pub payload_version : Sim → ℕ → ℕ
  payload_version sim at_ms = of_config cfg.evolve_after_sec
    where
      of_config : Option Float → ℕ
      of_config none = 1
      of_config (some after_sec) =
          let elapsed = div (sub (of_int at_ms) (of_int sim.anchor_ms)) (of_int 1000) in
          if lt elapsed (mul after_sec cfg.speed) then 1 else 2

  unfoldable pub schedule_after_requested : ActiveRide Float → Sim → Moved
  schedule_after_requested ride sim =
      let (roll, rng) = r.random sim.rng in
      if lt roll (cancel_prob fl cfg "requested")
      then (let (sec, rng') = exp (of_int 90) rng in
          (
            plan ride cancelled (ride.requested_ms + to_ms (lower fl sec (of_int 600))),
            record sim { rng = rng' },
          ))
      else (let (sec, rng') = exp (of_int 30) rng in
          (
            plan ride matched
                (ride.requested_ms + to_ms (lower fl (higher fl sec (of_int 3)) (of_int 240))),
            record sim { rng = rng' },
          ))

  abbrev release_known : Option String → Sim → ℕ → Option (Float × Float) → Result Sim
  release_known none sim at_ms at = ok sim
  release_known (some driver) sim at_ms at =
      fleet.release driver at_ms at sim.fleet >>= λ left. ok (record sim { fleet = left })

  abbrev pub release_driver : ActiveRide Float → Sim → ℕ → Option (Float × Float) → Result Sim
  release_driver ride sim at_ms at = release_known ride.driver_id sim at_ms at

  -- cancelled after `exp(mean)` seconds
  abbrev pub cancel_later : ActiveRide Float → Sim → Float → ℕ → Moved
  cancel_later ride sim mean at_ms =
      let (sec, rng) = exp mean sim.rng in
      (plan ride cancelled (at_ms + to_ms sec), record sim { rng = rng })

  -- `_after_matched` once a driver is assigned
  unfoldable pub after_assigned : ActiveRide Float → Sim → Float → ℕ → Result Moved
  after_assigned ride sim travel at_ms =
      let (roll, rng) = r.random sim.rng in
      let sim' = record sim { rng = rng } in
      if stops_at ride.stop_after matched
      then (release_driver ride sim at_ms none >>= λ s. ok (ride, s))
      else (if lt roll (cancel_prob fl cfg "matched")
          then ok (cancel_later ride sim' (of_int 60) at_ms)
          else ok (plan ride driver_arrived (at_ms + to_ms travel), sim'))

  unfoldable pub after_matched : ActiveRide Float → Sim → ℕ → Result Moved
  unfolding after_assigned
  after_matched ride sim at_ms = fleet.assign ride.city_id ride.pickup at_ms sim.fleet >>= λ x.
      after_assigned (record ride { driver_id = some x.0.0 }) (record sim { fleet = x.1 }) x.0.1
        at_ms

  unfoldable pub after_arrived : ActiveRide Float → Sim → ℕ → Moved
  after_arrived ride sim at_ms =
      let (roll, rng) = r.random sim.rng in
      let sim' = record sim { rng = rng } in
      if lt roll (cancel_prob fl cfg "driver_arrived")
      then cancel_later ride sim' (of_int 45) at_ms
      else (let (sec, rng') = r.uniform (of_int 10) (of_int 90) rng in
          (plan ride started (at_ms + to_ms sec), record sim { rng = rng' }))

  abbrev pub start_known : Option String → ActiveRide Float → Sim → ℕ → Result Sim
  start_known none ride sim at_ms = ok sim
  start_known (some driver) ride sim at_ms =
      fleet.ride_started driver ride.dropoff ride.duration_sec at_ms sim.fleet >>= λ going.
      ok (record sim { fleet = going })

  -- `_after_started`: the duration, the fleet, then what comes next
  unfoldable pub with_duration : ActiveRide Float → Sim → Moved
  with_duration ride sim =
      let (speed, rng) = r.gauss (of_int 26) (of_int 7) sim.rng in
      let (noise, rng') = r.gauss (of_int 0) (lit 10 2) rng in
      let speed_kmh = lower fl (higher fl speed (of_int 10)) (of_int 55) in
      let duration =
        mul (mul (div ride.distance_km speed_kmh) (of_int 3600)) (add (of_int 1) noise) in
      (record ride { duration_sec = higher fl duration (of_int 60) }, record sim { rng = rng' })

  unfoldable pub end_planned : ActiveRide Float → Sim → ℕ → Moved
  end_planned ride sim at_ms =
      let (roll, rng) = r.random sim.rng in
      if lt roll (cancel_prob fl cfg "started")
      then (let (share, rng') = r.uniform (lit 1 1) (lit 8 1) rng in
          (
            plan ride cancelled (at_ms + to_int (mul (mul ride.duration_sec share) (of_int 1000))),
            record sim { rng = rng' },
          ))
      else (plan ride completed (at_ms + to_ms ride.duration_sec), record sim { rng = rng })

  unfoldable pub after_started : ActiveRide Float → Sim → ℕ → Result Moved
  unfolding with_duration end_planned
  after_started ride sim at_ms =
      let (timed, sim') = with_duration ride sim in
      start_known timed.driver_id timed sim' at_ms >>= λ s. ok (end_planned timed s at_ms)
