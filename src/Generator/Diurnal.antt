-- ===== src/Generator/Diurnal.antt =====
-- src/generator/diurnal.py: the demand over a day.
use stream_pipeline.Prelude.{ℕ}
use stream_pipeline.Common.Floats.{Floats, lower}

module _ (fl : Floats) where
  open fl use {Float, of_int, lit, add, sub, mul, div, fmod, exp, abs, neg}

  unfoldable pub hour_of_day : ℕ → Float
  hour_of_day ts_ms = fmod (div (of_int ts_ms) (lit 36000000 1)) (lit 240 1)

  unfoldable pub peak : Float → Float → Float → Float
  peak hour centre width =
      let away = abs (sub hour centre) in
      let delta = lower fl away (sub (lit 240 1) away) in
      let ratio = div delta width in exp (neg (mul ratio ratio))

  unfoldable pub demand_factor : ℕ → Float
  unfolding hour_of_day peak
  demand_factor ts_ms =
      let hour = hour_of_day ts_ms in
      add (add (lit 45 2) (mul (lit 85 2) (peak hour (lit 85 1) (lit 18 1))))
        (mul (lit 105 2) (peak hour (lit 185 1) (lit 22 1)))
