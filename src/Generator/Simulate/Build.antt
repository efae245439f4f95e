-- ===== src/Generator/Simulate/Build.antt =====
-- src/generator/simulate.py: a run from a configuration, by a simulator that is built for it.
use Prim.Native.String.{◌++◌ as text_append}
use stream_pipeline.Prelude.{
  ℕ, ◌+◌, ◌^◌, ◌<◌, ◌≡◌, ◌%◌, refl, true, String, Option, List, [], length, Result, ok, Returns,
  arith,
}
use stream_pipeline.Common.Floats.{Floats}
use stream_pipeline.Common.Numerals.{decimal, hexadecimal}
use stream_pipeline.Generator.Random.{Random}
use stream_pipeline.Generator.Config.{GeneratorConfig}
use stream_pipeline.Generator.Cities.{city_by_id}
use stream_pipeline.Generator.Events.{SourceEvent}
use stream_pipeline.Generator.Drivers.{Drivers}
use stream_pipeline.Generator.Drivers.Movement.{driver_fleet, interval_ms}
use stream_pipeline.Generator.Drivers.Initial.{new_fleet, new_fleet-AllFit}
use stream_pipeline.Generator.Drivers.Dependability.{
  driver_fleet-Dependable, driver_fleet-Serves, driver_fleet-sound,
}
use stream_pipeline.Generator.Imperfections.{Imperfector, pending}
use stream_pipeline.Generator.Rides.{Sim}
use stream_pipeline.Generator.Rides.Creation.{RideBook, rate_per_tick}
use stream_pipeline.Generator.Rides.Spawning.{AllServed, Spends}
use stream_pipeline.Generator.Rides.Steady.{IsSteady}
use stream_pipeline.Generator.Simulate.{
  SimClock, Yielded, flat, anchor_of, raw_ticks, simulate_ticks,
}
use stream_pipeline.Generator.Simulate.Pipeline.{simulate_ticks-piped}
use stream_pipeline.Generator.Simulate.Conservation.{piped-Balanced}
use stream_pipeline.Generator.Simulate.Total.{raw_ticks-Returns}

-- `Random(seed)` and `getrandbits`, and `crc32` of the standard library.
pub record Seeding (S : Type 0) : Type 0 where
  pub seeded : ℕ → S
  pub getrandbits : ℕ → S → ℕ × S
  pub crc32 : String → ℕ

unfoldable pub run_token_of : {S : Type 0} → Seeding S → ℕ → ℕ → String
run_token_of lib seed anchor_ms =
    hexadecimal 6
      (lib.crc32 (text_append (decimal seed) (text_append ":" (decimal anchor_ms))) % 2 ^ 24)

module _ (fl : Floats) (r : Random fl) (lib : Seeding r.State)
    (cfg : GeneratorConfig fl.Float) where
  open fl use {Float, lt, lit, add, to_int}

  abbrev pub Simulators : Type 0
  Simulators = RideBook Float × Sim fl r (driver_fleet fl r cfg) cfg × Imperfector Float r.State

  abbrev pub new_book : ℕ → RideBook Float
  new_book anchor_ms = record {
    run_token = run_token_of lib cfg.seed anchor_ms;
    active = [];
    counter = 0;
    spawn_carry = lit 0 1;
  }

  abbrev pub new_simulator : r.State → Drivers fl r cfg → ℕ → Sim fl r (driver_fleet fl r cfg) cfg
  new_simulator rng fleet anchor_ms = record {
    rng = rng;
    fleet = fleet;
    anchor_ms = anchor_ms;
    payments = [];
    completed_rides = 0;
    cancelled_rides = 0;
  }

  abbrev pub new_imperfector : r.State → Imperfector Float r.State
  new_imperfector rng = record {
    rng = rng;
    held = [];
    stats = record {
      duplicate = 0;
      out_of_order = 0;
      late = 0;
      malformed = 0;
      null_field = 0;
      bad_data = 0;
      clean = 0;
    };
  }

  unfoldable pub build_simulator : ℕ → Simulators
  unfolding run_token_of new_fleet
  build_simulator anchor_ms =
      let (rides_seed, master1) = lib.getrandbits 64 (lib.seeded cfg.seed) in
      let (fleet_seed, master2) = lib.getrandbits 64 master1 in
      let (imperfection_seed, master3) = lib.getrandbits 64 master2 in
      let fleet = new_fleet fl r cfg (lib.seeded fleet_seed) anchor_ms in
      (
        new_book anchor_ms,
        new_simulator (lib.seeded rides_seed) fleet anchor_ms,
        new_imperfector (lib.seeded imperfection_seed),
      )

  -- `simulate_ticks(cfg, ticks=n, anchor_ms=given)`, where `wall` is the anchor by the wall clock
  unfoldable pub run_ticks : ℕ → Option ℕ → ℕ → Result (Yielded fl r (driver_fleet fl r cfg) cfg)
  unfolding build_simulator simulate_ticks
  run_ticks n given wall =
      let anchor = anchor_of given cfg.anchor_ms wall in
      let (book, sim, m) = build_simulator anchor in
      simulate_ticks fl r (driver_fleet fl r cfg) cfg n
        (record { anchor_ms = anchor; tick_ms = cfg.tick_ms; ticks = 0 }) book sim m

  -- the ticks of that simulator itself
  unfoldable pub own_ticks : ℕ → Option ℕ → ℕ → Result (List (ℕ × List (SourceEvent Float)))
  unfolding build_simulator raw_ticks
  own_ticks n given wall =
      let anchor = anchor_of given cfg.anchor_ms wall in
      let (book, sim, m) = build_simulator anchor in
      raw_ticks fl r (driver_fleet fl r cfg) cfg n
        (record { anchor_ms = anchor; tick_ms = cfg.tick_ms; ticks = 0 }) book sim

  served :
      (apart : 0 < interval_ms fl r cfg)
      → AllServed fl r (driver_fleet fl r cfg) cfg (driver_fleet-Dependable fl r cfg apart)
  unfolding city_by_id
  served apart =
      let serves = driver_fleet-Serves fl r cfg apart in
      (
        serves 1 _ refl,
        (serves 2 _ refl, (serves 3 _ refl, (serves 4 _ refl, (serves 5 _ refl, tt)))),
      )

  build_simulator-IsSteady :
      (apart : 0 < interval_ms fl r cfg) (anchor_ms : ℕ)
      → lt (lit 0 1) (lit 10 1) ≡ true
      → let (book, sim, m) = build_simulator anchor_ms in
        IsSteady fl r (driver_fleet fl r cfg) cfg (driver_fleet-Dependable fl r cfg apart) book sim
  unfolding build_simulator
  build_simulator-IsSteady apart anchor_ms positive = (
    tt,
    tt,
    driver_fleet-sound fl r cfg apart _ (new_fleet-AllFit fl r cfg _ anchor_ms),
    positive,
  )

  -- A run from a configuration returns, for any number of ticks and any seed, if pings are at least
  -- a millisecond apart and the rate of rides stays in the range in which the carry is exact; and
  -- its books balance: the events yielded and those still held at its end are as many as the
  -- simulator made and, once more, the duplicates counted.
  pub run_ticks-Returns :
      (apart : 0 < interval_ms fl r cfg)
      → lt (lit 0 1) (lit 10 1) ≡ true
      → Spends fl r (driver_fleet fl r cfg) cfg (driver_fleet-Dependable fl r cfg apart)
      → ((now : ℕ) (x : Float)
          → lt x (lit 10 1) ≡ true
          → to_int (add x (rate_per_tick fl r (driver_fleet fl r cfg) cfg now)) < 2 ^ 53)
      → (n : ℕ) (given : Option ℕ) (wall : ℕ)
      → (ticks : List (ℕ × List (SourceEvent Float))) × (own_ticks n given wall ≡ ok ticks)
        × Returns
            (λ (x : Yielded fl r (driver_fleet fl r cfg) cfg).
              length (flat fl r (driver_fleet fl r cfg) cfg x.0) + pending x.1
              ≡ length (flat fl r (driver_fleet fl r cfg) cfg ticks) + x.1.stats.duplicate)
            (run_ticks n given wall)
  unfolding run_ticks own_ticks build_simulator pending
  run_ticks-Returns apart positive spends modest n given wall =
      let fleet = driver_fleet fl r cfg in
      let anchor = anchor_of given cfg.anchor_ms wall in
      let (book, sim, m) = build_simulator anchor in
      let clock : SimClock = record { anchor_ms = anchor; tick_ms = cfg.tick_ms; ticks = 0 } in
      let (ticks, raw) =
        raw_ticks-Returns fl r fleet cfg (driver_fleet-Dependable fl r cfg apart) spends
          (served apart) modest n clock book sim (build_simulator-IsSteady apart anchor positive) in
      (
        ticks,
        raw,
        (
          _,
          simulate_ticks-piped fl r fleet cfg n clock book sim m ticks raw,
          omega (arith, piped-Balanced fl r fleet cfg ticks m),
        ),
      )
