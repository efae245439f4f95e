-- ===== src/Tests/Ticks.antt =====
-- The simulator's ticks, and a run of the generator.
use stream_pipeline.Prelude.{
  ℕ, ◌+◌, ◌<◌, ◌^◌, ◌≡◌, refl, true, false, inl, length, ◌>>=◌, some, [], List, Returns, ok, arith,
  ltb,
}
use stream_pipeline.Generator.Fleet.{Fleet, Dependable}
use stream_pipeline.Generator.Config.{GeneratorConfig, perfect}
use stream_pipeline.Generator.Cities.{city_by_id}
use stream_pipeline.Generator.Events.{SourceEvent}
use stream_pipeline.Generator.Drivers.{DriverFleet}
use stream_pipeline.Generator.Drivers.Movement.{driver_fleet, interval_ms}
use stream_pipeline.Generator.Drivers.Dependability.{
  driver_fleet-Dependable, driver_fleet-Serves, driver_fleet-sound,
}
use stream_pipeline.Generator.Rides.{RideSimulator, Sim}
use stream_pipeline.Generator.Rides.Creation.{RideBook, rate_per_tick, demand_factor, spawn}
use stream_pipeline.Generator.Rides.Spawning.{AllServed, Spends}
use stream_pipeline.Generator.Rides.Ticks.{on_tick}
use stream_pipeline.Generator.Rides.Numbers.{IsNew, spawn-IsNew}
use stream_pipeline.Generator.Rides.Steady.{IsSteady, on_tick-IsSteady}
use stream_pipeline.Generator.Imperfections.{Imperfector, pending}
use stream_pipeline.Generator.Simulate.{SimClock, Yielded, flat, raw_ticks, simulate_ticks}
use stream_pipeline.Generator.Simulate.Pipeline.{piped, simulate_ticks-raw_ticks}
use stream_pipeline.Generator.Simulate.Conservation.{Balanced, simulate_ticks-Balanced}
use stream_pipeline.Generator.Simulate.Release.{IsAwaited, all_before, simulate_ticks-IsAwaited}
use stream_pipeline.Generator.Simulate.Perfect.{simulate_ticks-perfect}
use stream_pipeline.Generator.Simulate.Total.{simulate_ticks-Returns}
use stream_pipeline.Generator.Simulate.Build.{Seeding, own_ticks, run_ticks, run_ticks-Returns}
use stream_pipeline.Tests.Samples.{nat_floats}
use stream_pipeline.Tests.Lakes.{counter, config, a_ride, imperfector}

-- A ride is asked for in each tick.
abbrev busy : GeneratorConfig ℕ
busy = record config { base_rides_per_min = 600; tick_ms = 10000 }

abbrev fleet : Fleet nat_floats
fleet = driver_fleet nat_floats counter busy

apart : 0 < interval_ms nat_floats counter busy
apart = omega arith

abbrev dependable : Dependable nat_floats fleet
dependable = driver_fleet-Dependable nat_floats counter busy apart

spends : Spends nat_floats counter fleet busy dependable
spends = λ x least small. ground (arith, least)

all_served : AllServed nat_floats counter fleet busy dependable
unfolding city_by_id
all_served = (
  driver_fleet-Serves nat_floats counter busy apart 1 _ refl,
  (
    driver_fleet-Serves nat_floats counter busy apart 2 _ refl,
    (
      driver_fleet-Serves nat_floats counter busy apart 3 _ refl,
      (
        driver_fleet-Serves nat_floats counter busy apart 4 _ refl,
        (driver_fleet-Serves nat_floats counter busy apart 5 _ refl, tt),
      ),
    ),
  ),
)

abbrev book : RideBook ℕ
book = record { run_token = "123456"; active = []; counter = 0; spawn_carry = 0 }

abbrev simulator : RideSimulator ℕ ℕ (DriverFleet ℕ ℕ)
simulator = record {
  rng = 50;
  fleet = record { rng = 3; drivers = []; overflow = 0 };
  anchor_ms = 0;
  payments = [];
  completed_rides = 0;
  cancelled_rides = 0;
}

steady : IsSteady nat_floats counter fleet busy dependable book simulator
steady = (tt, tt, driver_fleet-sound nat_floats counter busy apart simulator.fleet tt, refl)

modest :
    (now : ℕ) (x : ℕ)
    → ltb x 10 ≡ true
    → x + rate_per_tick nat_floats counter fleet busy now < 2 ^ 53
unfolding rate_per_tick demand_factor
modest now x less = ground (arith, less)

on_tick-IsSteady_example :
    Returns
      (λ (x : List (SourceEvent ℕ) × RideBook ℕ × Sim nat_floats counter fleet busy).
        IsSteady nat_floats counter fleet busy dependable x.1 x.2)
      (on_tick nat_floats counter fleet busy book simulator 60000)
on_tick-IsSteady_example =
    on_tick-IsSteady nat_floats counter fleet busy dependable book simulator 60000 spends all_served
      (modest 60000) steady

abbrev clock : SimClock
clock = record { anchor_ms = 60000; tick_ms = 10000; ticks = 0 }

simulate_ticks-Returns_example :
    (ticks : List (ℕ × List (SourceEvent ℕ))) × (raw_ticks nat_floats counter fleet busy 3 clock
        book simulator
      ≡ ok ticks)
    × (simulate_ticks nat_floats counter fleet busy 3 clock book simulator imperfector
        ≡ ok (piped nat_floats counter fleet busy ticks imperfector))
simulate_ticks-Returns_example =
    simulate_ticks-Returns nat_floats counter fleet busy dependable spends all_served modest 3 clock
      book simulator imperfector steady

-- The simulator's own three ticks.
made :
    (ticks : List (ℕ × List (SourceEvent ℕ))) × (raw_ticks nat_floats counter fleet busy 3 clock
        book simulator
      ≡ ok ticks)
made =
    let (ticks, raw, run) =
      simulate_ticks-Returns nat_floats counter fleet busy dependable spends all_served modest 3
        clock book simulator imperfector steady in
    (ticks, raw)

simulate_ticks-Balanced_example :
    Returns
      (λ (x : Yielded nat_floats counter fleet busy).
        Balanced imperfector
          (length (flat nat_floats counter fleet busy made.0))
          (flat nat_floats counter fleet busy x.0, x.1))
      (simulate_ticks nat_floats counter fleet busy 3 clock book simulator imperfector)
simulate_ticks-Balanced_example =
    simulate_ticks-Balanced nat_floats counter fleet busy 3 clock book simulator imperfector made.0
      made.1

simulate_ticks-IsAwaited_example :
    Returns
      (IsAwaited nat_floats counter fleet busy 40 a_ride
        (all_before nat_floats counter fleet busy 40 made.0))
      (simulate_ticks nat_floats counter fleet busy 3 clock book simulator imperfector)
simulate_ticks-IsAwaited_example =
    simulate_ticks-IsAwaited nat_floats counter fleet busy 3 clock book simulator imperfector made.0
      40 a_ride made.1 (inl refl)

never_below : (s : ℕ) → ltb s 0 ≡ false
never_below s = ground (arith)

abbrev clean : Imperfector ℕ ℕ
clean = record imperfector { held = [] }

abbrev none_wrong : GeneratorConfig ℕ
none_wrong = perfect nat_floats busy

simulate_ticks-perfect_example :
    let fleet' = driver_fleet nat_floats counter busy in
    (simulate_ticks nat_floats counter fleet' none_wrong 3 clock book simulator clean >>= λ x.
    ok x.0)
    ≡ raw_ticks nat_floats counter fleet' none_wrong 3 clock book simulator
simulate_ticks-perfect_example =
    simulate_ticks-perfect nat_floats counter (driver_fleet nat_floats counter busy) busy
      never_below refl 3 clock book simulator clean refl

simulate_ticks-raw_ticks_example :
    simulate_ticks nat_floats counter fleet busy 3 clock book simulator imperfector ≡ (
      raw_ticks nat_floats counter fleet busy 3 clock book simulator >>= λ ticks.
      ok (piped nat_floats counter fleet busy ticks imperfector))
simulate_ticks-raw_ticks_example =
    simulate_ticks-raw_ticks nat_floats counter fleet busy 3 clock book simulator imperfector

abbrev seeding : Seeding ℕ
seeding = record {
  seeded = λ seed. seed;
  getrandbits = λ bits s. (s + bits, s + 1);
  crc32 = λ text. 74565;
}

run_ticks-Returns_example :
    (ticks : List (ℕ × List (SourceEvent ℕ))) × (own_ticks nat_floats counter seeding busy 3
        (some 60000)
        0
      ≡ ok ticks)
    × Returns
        (λ (x : Yielded nat_floats counter fleet busy).
          length (flat nat_floats counter fleet busy x.0) + pending x.1
          ≡ length (flat nat_floats counter fleet busy ticks) + x.1.stats.duplicate)
        (run_ticks nat_floats counter seeding busy 3 (some 60000) 0)
run_ticks-Returns_example =
    run_ticks-Returns nat_floats counter seeding busy apart refl spends modest 3 (some 60000) 0

spawn-IsNew_example :
    Returns
      (IsNew nat_floats counter fleet busy book)
      (spawn nat_floats counter fleet busy book simulator 60000)
spawn-IsNew_example =
    spawn-IsNew nat_floats counter fleet busy dependable book simulator 60000 spends all_served
      (modest 60000 0 refl) tt tt tt
