-- ===== src/Generator/Fleet.antt =====
-- src/generator/drivers.py, as an interface: what the ride simulator calls of `DriverFleet`.
use stream_pipeline.Prelude.{ℕ, String, Option, List, Result, ok, ◌≡◌}
use stream_pipeline.Generator.Events.{SourceEvent}
use stream_pipeline.Common.Floats.{Floats}

pub record Fleet (fl : Floats) : Type 1 where
  pub State : Type 0
  -- the pings of a tick
  pub on_tick : ℕ → State → Result (List (SourceEvent fl.Float) × State)
  -- the city, the pickup and the time; the driver and the seconds of travel
  pub assign : ℕ → fl.Float × fl.Float → ℕ → State → Result ((String × fl.Float) × State)
  pub ride_started : String → fl.Float × fl.Float → fl.Float → ℕ → State → Result State
  pub release : String → ℕ → Option (fl.Float × fl.Float) → State → Result State

-- What a client may rely on of a fleet: that a driver is in its table, or that all its drivers are
-- fit to move.
pub data Fact : Type 0 where
  knows : String → Fact
  sound : Fact

-- What a fleet promises: it serves its cities, knows the drivers that it assigned, a call on a
-- driver that it knows returns, a tick of a sound fleet returns, and no call forgets a fact.
pub record Dependable (fl : Floats) (fleet : Fleet fl) : Type 1 where
  pub Serves : ℕ → Type 0
  pub Holds : fleet.State → Fact → Type 0
  pub assigns :
      (city : ℕ) (pickup : fl.Float × fl.Float) (now_ms : ℕ) (s : fleet.State)
      → Serves city
      → (driver : String) × (travel : fl.Float) × (s' : fleet.State) × (fleet.assign city pickup
            now_ms s
          ≡ ok ((driver, travel), s'))
        × Holds s' (knows driver)
        × ((x : Fact) → Holds s x → Holds s' x)
  pub starts :
      (driver : String) (dropoff : fl.Float × fl.Float) (sec : fl.Float) (now_ms : ℕ)
      (s : fleet.State)
      → Holds s (knows driver)
      → (s' : fleet.State) × (fleet.ride_started driver dropoff sec now_ms s ≡ ok s')
        × ((x : Fact) → Holds s x → Holds s' x)
  pub releases :
      (driver : String) (now_ms : ℕ) (at : Option (fl.Float × fl.Float)) (s : fleet.State)
      → Holds s (knows driver)
      → (s' : fleet.State) × (fleet.release driver now_ms at s ≡ ok s')
        × ((x : Fact) → Holds s x → Holds s' x)
  pub ticks :
      (now_ms : ℕ) (s : fleet.State)
      → Holds s sound
      → (events : List (SourceEvent fl.Float)) × (s' : fleet.State) × (fleet.on_tick now_ms s
          ≡ ok (events, s'))
        × ((x : Fact) → Holds s x → Holds s' x)
