-- ===== src/Common/Floats.antt =====
-- Python's floats and `math`, as an interface: the programs use these operations of IEEE doubles,
-- and the proofs use none of their laws.
use stream_pipeline.Prelude.{ℕ, Bool, if◌then◌else◌}

pub record Floats : Type 1 where
  pub Float : Type 0
  -- `float(n)`, and the literal `m * 10 ** -k`
  pub of_int : ℕ → Float
  pub lit : ℕ → ℕ → Float
  -- `int(x)`, of what is not negative
  pub to_int : Float → ℕ
  pub add : Float → Float → Float
  pub sub : Float → Float → Float
  pub mul : Float → Float → Float
  pub div : Float → Float → Float
  pub fmod : Float → Float → Float
  -- `<` and `==`
  pub lt : Float → Float → Bool
  pub eq : Float → Float → Bool
  pub sqrt : Float → Float
  pub sin : Float → Float
  pub cos : Float → Float
  pub asin : Float → Float
  pub atan2 : Float → Float → Float
  pub radians : Float → Float
  pub degrees : Float → Float
  pub exp : Float → Float
  pub abs : Float → Float
  pub neg : Float → Float
  -- `round(x, n)`
  pub round : Float → ℕ → Float

-- `min(a, b)` and `max(a, b)`: the first, unless the second is below or above it
abbrev pub lower : (fl : Floats) → fl.Float → fl.Float → fl.Float
lower fl a b = if fl.lt b a then b else a

abbrev pub higher : (fl : Floats) → fl.Float → fl.Float → fl.Float
higher fl a b = if fl.lt a b then b else a
