-- ===== src/Generator/Config.antt =====
-- src/generator/config.py: what configures a run, and the run without imperfections.
use stream_pipeline.Prelude.{
  ℕ, String, Bool, Option, none, some, [], ◌∷◌, get_or, is_empty, text_key, if◌then◌else◌,
}
use stream_pipeline.Prelude.Dict
use stream_pipeline.Prelude.Dict.{Dict}
use stream_pipeline.Common.Floats.{Floats}

pub record GeneratorConfig (F : Type 0) : Type 0 where
  pub seed : ℕ
  pub speed : F
  pub duration_sec : F
  pub anchor_ms : Option ℕ
  pub tick_ms : ℕ
  pub base_rides_per_min : F
  pub abandon_rate : F
  pub cancel_probability : Option (Dict String F)
  pub drivers_total : ℕ
  pub ping_interval_sec : F
  pub offline_prob_per_ping : F
  pub diurnal : Bool
  pub dup_rate : F
  pub ooo_rate : F
  pub ooo_max_skew_sec : F
  pub late_rate : F
  pub late_max_sec : F
  pub malformed_rate : F
  pub null_field_rate : F
  pub bad_data_rate : F
  pub evolve_after_sec : Option F

module _ (fl : Floats) where
  open fl use {Float, of_int, lit}

  unfoldable pub perfect : GeneratorConfig Float → GeneratorConfig Float
  perfect cfg = record cfg {
    dup_rate = of_int 0;
    ooo_rate = of_int 0;
    late_rate = of_int 0;
    malformed_rate = of_int 0;
    null_field_rate = of_int 0;
    abandon_rate = of_int 0;
    bad_data_rate = of_int 0;
  }

  abbrev pub default_cancel_probability : Dict String Float
  default_cancel_probability =
      ("requested", lit 40 3)
      ∷ ("matched", lit 25 3)
      ∷ ("driver_arrived", lit 10 3)
      ∷ ("started", lit 5 3)
      ∷ []

  -- `self.cancel_probability or {...}`: an empty table is the default one, too
  abbrev pub cancel_table : Option (Dict String Float) → Dict String Float
  cancel_table none = default_cancel_probability
  cancel_table (some table) = if is_empty table then default_cancel_probability else table

  unfoldable pub cancel_prob : GeneratorConfig Float → String → Float
  cancel_prob cfg stage = get_or (Dict.get stage (cancel_table cfg.cancel_probability)) (of_int 0)
