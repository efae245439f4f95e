-- ===== src/Generator/Simulate.antt =====
-- src/generator/simulate.py and src/generator/clock.py: the loop over ticks, the simulator's events
-- piped through the imperfections.
pub mod Pipeline
pub mod Conservation
pub mod Release
pub mod Perfect
pub mod Total
pub mod Build
use stream_pipeline.Prelude.{
  ℕ, zero, suc, ◌+◌, ◌*◌, max, List, [], ◌∷◌, ◌++◌, Option, none, some, Result, ok, ◌>>=◌,
  if◌then◌else◌, get_or,
}
use stream_pipeline.Common.Floats.{Floats}
use stream_pipeline.Generator.Random.{Random}
use stream_pipeline.Generator.Config.{GeneratorConfig}
use stream_pipeline.Generator.Events.{SourceEvent}
use stream_pipeline.Generator.Fleet.{Fleet}
use stream_pipeline.Generator.Imperfections.{Stats, Imperfector, process, release_due}
use stream_pipeline.Generator.Rides.{RideSimulator, Sim}
use stream_pipeline.Generator.Rides.Creation.{RideBook}
use stream_pipeline.Generator.Rides.Ticks.{on_tick}

pub record SimClock : Type 0 where
  pub anchor_ms : ℕ
  pub tick_ms : ℕ
  pub ticks : ℕ

unfoldable pub now_ms : SimClock → ℕ
now_ms clock = clock.anchor_ms + clock.ticks * clock.tick_ms

unfoldable pub advance : SimClock → SimClock
advance clock = record clock { ticks = clock.ticks + 1 }

-- `anchor_ms`, or the configuration's, or that of the wall clock
abbrev pub anchor_of : Option ℕ → Option ℕ → ℕ → ℕ
anchor_of given configured wall = get_or given (get_or configured wall)

module _ (fl : Floats) (r : Random fl) (fleet : Fleet fl) (cfg : GeneratorConfig fl.Float) where
  open fl use {Float, of_int, mul, div, to_int}

  -- real_seconds_per_tick
  unfoldable pub real_seconds_per_tick : SimClock → Float → Float
  real_seconds_per_tick clock speed = div (div (of_int clock.tick_ms) (of_int 1000)) speed

  unfoldable pub ticks_for : ℕ
  ticks_for =
      max (to_int (div (mul (mul cfg.duration_sec cfg.speed) (of_int 1000)) (of_int cfg.tick_ms))) 1

  -- `batch.extend(imperfector.process(event, now_ms))` for each event
  unfoldable pub process_all :
      List (SourceEvent Float)
      → Imperfector Float r.State
      → ℕ
      → List (SourceEvent Float) × Imperfector Float r.State
  unfolding process
  process_all [] m now = ([], m)
  process_all (event ∷ events) m now =
      let (out, m') = process fl r cfg m event now in
      let (rest, m'') = process_all events m' now in (out ++ rest, m'')

  -- The events of a tick as they are emitted: what is due of the held ones, then the new ones.
  unfoldable pub imperfect :
      List (SourceEvent Float)
      → Imperfector Float r.State
      → ℕ
      → List (SourceEvent Float) × Imperfector Float r.State
  unfolding release_due process_all
  imperfect events m now =
      let (due, m') = release_due m now in
      let (rest, m'') = process_all events m' now in (due ++ rest, m'')

  -- The simulator's own ticks: the time and the events of each.
  unfoldable pub raw_ticks :
      ℕ
      → SimClock
      → RideBook Float
      → Sim fl r fleet cfg
      → Result (List (ℕ × List (SourceEvent Float)))
  unfolding now_ms advance
  raw_ticks zero clock book sim = ok []
  raw_ticks (suc n) clock book sim = on_tick fl r fleet cfg book sim (now_ms clock) >>= λ x.
      raw_ticks n (advance clock) x.1 x.2 >>= λ rest. ok ((now_ms clock, x.0) ∷ rest)

  -- What a run has yielded, and the imperfections at its end.
  abbrev pub Yielded : Type 0
  Yielded = List (ℕ × List (SourceEvent Float)) × Imperfector Float r.State

  -- `simulate_ticks`, with the number of ticks that are left
  unfoldable pub simulate_ticks :
      ℕ
      → SimClock
      → RideBook Float
      → Sim fl r fleet cfg
      → Imperfector Float r.State
      → Result Yielded
  unfolding now_ms advance imperfect
  simulate_ticks zero clock book sim m = ok ([], m)
  simulate_ticks (suc n) clock book sim m = on_tick fl r fleet cfg book sim (now_ms clock) >>= λ x.
      let (batch, m') = imperfect x.0 m (now_ms clock) in
      simulate_ticks n (advance clock) x.1 x.2 m' >>= λ rest.
      ok ((now_ms clock, batch) ∷ rest.0, rest.1)

  abbrev pub flat : List (ℕ × List (SourceEvent Float)) → List (SourceEvent Float)
  flat [] = []
  flat ((now, batch) ∷ batches) = batch ++ flat batches

  -- `simulate`
  unfoldable pub simulate :
      ℕ
      → SimClock
      → RideBook Float
      → Sim fl r fleet cfg
      → Imperfector Float r.State
      → Result (List (SourceEvent Float))
  unfolding simulate_ticks
  simulate n clock book sim m = simulate_ticks n clock book sim m >>= λ x. ok (flat x.0)
