-- ===== src/Generator/Simulate/Total.antt =====
-- A run of any number of ticks ends, and is the simulator's run piped through the imperfections.
use stream_pipeline.Prelude.{ℕ, zero, suc, ◌^◌, ◌<◌, ◌≡◌, refl, true, List, [], ◌∷◌, ok}
use stream_pipeline.Common.Floats.{Floats}
use stream_pipeline.Generator.Random.{Random}
use stream_pipeline.Generator.Config.{GeneratorConfig}
use stream_pipeline.Generator.Events.{SourceEvent}
use stream_pipeline.Generator.Fleet.{Fleet, Dependable}
use stream_pipeline.Generator.Imperfections.{Imperfector}
use stream_pipeline.Generator.Rides.{Sim}
use stream_pipeline.Generator.Rides.Creation.{RideBook, rate_per_tick}
use stream_pipeline.Generator.Rides.Spawning.{AllServed, Spends}
use stream_pipeline.Generator.Rides.Steady.{IsSteady, on_tick-IsSteady}
use stream_pipeline.Generator.Simulate.Pipeline.{piped, simulate_ticks-piped}
use stream_pipeline.Generator.Simulate.{SimClock, now_ms, advance, raw_ticks, simulate_ticks}

module _ (fl : Floats) (r : Random fl) (fleet : Fleet fl) (cfg : GeneratorConfig fl.Float) where
  open fl use {Float, lt, lit, add, to_int}

  pub raw_ticks-Returns :
      (d : Dependable fl fleet)
      → Spends fl r fleet cfg d
      → AllServed fl r fleet cfg d
      → ((now : ℕ) (x : Float)
          → lt x (lit 10 1) ≡ true
          → to_int (add x (rate_per_tick fl r fleet cfg now)) < 2 ^ 53)
      → (n : ℕ) (clock : SimClock) (book : RideBook Float) (sim : Sim fl r fleet cfg)
      → IsSteady fl r fleet cfg d book sim
      → (ticks : List (ℕ × List (SourceEvent Float))) × (raw_ticks fl r fleet cfg n clock book sim
          ≡ ok ticks)
  unfolding raw_ticks
  raw_ticks-Returns d spends served modest zero clock book sim steady = ([], refl)
  raw_ticks-Returns d spends served modest (suc n) clock book sim steady =
      let (x, e, steady') =
        on_tick-IsSteady fl r fleet cfg d book sim (now_ms clock) spends served
          (modest (now_ms clock)) steady in
      let (ticks, raw) =
        raw_ticks-Returns d spends served modest n (advance clock) x.1 x.2 steady' in
      rw (raw_ticks, e, raw) ((now_ms clock, x.0) ∷ ticks, refl)

  -- From a simulator that is fit for a tick, a run of any number of ticks returns, and yields the
  -- simulator's own ticks, each piped through the imperfections in turn. The assumptions are those
  -- under which a tick returns, at every time.
  pub simulate_ticks-Returns :
      (d : Dependable fl fleet)
      → Spends fl r fleet cfg d
      → AllServed fl r fleet cfg d
      → ((now : ℕ) (x : Float)
          → lt x (lit 10 1) ≡ true
          → to_int (add x (rate_per_tick fl r fleet cfg now)) < 2 ^ 53)
      → (n : ℕ) (clock : SimClock) (book : RideBook Float) (sim : Sim fl r fleet cfg)
        (m : Imperfector Float r.State)
      → IsSteady fl r fleet cfg d book sim
      → (ticks : List (ℕ × List (SourceEvent Float))) × (raw_ticks fl r fleet cfg n clock book sim
          ≡ ok ticks)
        × (simulate_ticks fl r fleet cfg n clock book sim m ≡ ok (piped fl r fleet cfg ticks m))
  simulate_ticks-Returns d spends served modest n clock book sim m steady =
      let (ticks, raw) = raw_ticks-Returns d spends served modest n clock book sim steady in
      (ticks, raw, simulate_ticks-piped fl r fleet cfg n clock book sim m ticks raw)
