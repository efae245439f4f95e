-- ===== src/Generator/Rides/Ticks.antt =====
-- src/generator/rides.py: a tick of the simulator.
use stream_pipeline.Prelude.Dict
use stream_pipeline.Prelude.Dict.{Dict}
use stream_pipeline.Prelude.{
  ℕ, String, Option, none, some, List, [], ◌∷◌, ◌++◌, Result, ok, raise, key_error, ◌>>=◌, text_key,
  if◌then◌else◌, length,
}
use stream_pipeline.Common.Floats.{Floats}
use stream_pipeline.Generator.Random.{Random}
use stream_pipeline.Generator.Config.{GeneratorConfig}
use stream_pipeline.Generator.Events.{SourceEvent}
use stream_pipeline.Generator.Fleet.{Fleet}
use stream_pipeline.Generator.Rides.{ActiveRide, Sim}
use stream_pipeline.Generator.Rides.Firing.{fire_due, due_payments}
use stream_pipeline.Generator.Rides.Creation.{RideBook, spawn}

-- `del self._active[ride_id]`
abbrev pub delete_found :
    {F : Type 0}
    → Option (ActiveRide F)
    → String
    → Dict String (ActiveRide F)
    → Result (Dict String (ActiveRide F))
delete_found none id active = raise key_error
delete_found (some ride) id active = ok (Dict.pop id active)

-- for each of the rides that are done
unfoldable pub delete_all :
    {F : Type 0} → List String → Dict String (ActiveRide F) → Result (Dict String (ActiveRide F))
delete_all [] active = ok active
delete_all (id ∷ ids) active =
    delete_found (Dict.get id active) id active >>= λ left. delete_all ids left

module _ (fl : Floats) (r : Random fl) (fleet : Fleet fl) (cfg : GeneratorConfig fl.Float) where
  open fl use {Float}

  -- What the loop over the active rides leaves: the events, the rides, those that are done, and
  -- the other attributes.
  pub record Progress : Type 0 where
    pub events : List (SourceEvent Float)
    pub rides : Dict String (ActiveRide Float)
    pub done : List String
    pub sim : Sim fl r fleet cfg

  -- A ride has five events at most, so that six rounds are enough.
  unfoldable pub progress_all :
      Dict String (ActiveRide Float) → Sim fl r fleet cfg → ℕ → Result Progress
  unfolding fire_due
  progress_all [] sim now_ms = ok (record { events = []; rides = []; done = []; sim = sim })
  progress_all ((id, ride) ∷ rest) sim now_ms = fire_due fl r fleet cfg 6 ride sim now_ms >>= λ x.
      let (ended, (ride', sim')) = x.1 in
      progress_all rest sim' now_ms >>= λ p. ok (record p {
        events = x.0 ++ p.events;
        rides = (id, ride') ∷ p.rides;
        done = if ended then ride'.ride_id ∷ p.done else p.done;
      })

  unfoldable pub progress :
      RideBook Float
      → Sim fl r fleet cfg
      → ℕ
      → Result (List (SourceEvent Float) × RideBook Float × Sim fl r fleet cfg)
  unfolding progress_all delete_all
  progress book sim now_ms = progress_all book.active sim now_ms >>= λ p.
      delete_all p.done p.rides >>= λ active. ok (p.events, record book { active = active }, p.sim)

  unfoldable pub on_tick :
      RideBook Float
      → Sim fl r fleet cfg
      → ℕ
      → Result (List (SourceEvent Float) × RideBook Float × Sim fl r fleet cfg)
  unfolding spawn progress due_payments
  on_tick book sim now_ms = fleet.on_tick now_ms sim.fleet >>= λ pings.
      spawn fl r fleet cfg book (record sim { fleet = pings.1 }) now_ms >>= λ made.
      progress made.1 made.2 now_ms >>= λ moved.
      let (paid, sim') = due_payments fl r fleet cfg moved.2 now_ms in
      ok (pings.0 ++ (made.0 ++ (moved.0 ++ paid)), moved.1, sim')

  unfoldable pub active_count : RideBook Float → ℕ
  active_count book = length book.active
