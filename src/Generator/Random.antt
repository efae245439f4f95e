-- ===== src/Generator/Random.antt =====
-- Python's `random.Random`, as an interface: a state, and the draws that the generator makes.
use stream_pipeline.Prelude.{ℕ}
use stream_pipeline.Common.Floats.{Floats}

pub record Random (fl : Floats) : Type 1 where
  pub State : Type 0
  pub random : State → fl.Float × State
  pub uniform : fl.Float → fl.Float → State → fl.Float × State
  pub gauss : fl.Float → fl.Float → State → fl.Float × State
  pub expovariate : fl.Float → State → fl.Float × State
  pub randrange : ℕ → State → ℕ × State
