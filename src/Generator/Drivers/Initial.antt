-- ===== src/Generator/Drivers/Initial.antt =====
-- src/generator/drivers.py: the first drivers of a fleet.
use Prim.Native.String.{◌++◌ as text_append}
use stream_pipeline.Prelude.{
  ℕ, zero, suc, ◌+◌, ◌≡◌, refl, max, String, some, List, [], ◌∷◌, All, text_key,
}
use stream_pipeline.Prelude.Dict
use stream_pipeline.Common.Floats.{Floats}
use stream_pipeline.Common.Numerals.{decimal, padded}
use stream_pipeline.Generator.Random.{Random}
use stream_pipeline.Generator.Config.{GeneratorConfig}
use stream_pipeline.Generator.Cities.{City, cities, city_by_id, total_demand_weight}
use stream_pipeline.Generator.Drivers.{Drivers, spawn_driver}
use stream_pipeline.Generator.Drivers.Fit.{IsFit, AllFit}

abbrev pub first_id : ℕ → ℕ → String
first_id city_id n = text_append "d-" (text_append (decimal city_id) (text_append "-" (padded 4 n)))

module _ (fl : Floats) (r : Random fl) (cfg : GeneratorConfig fl.Float) where
  open fl use {Float, of_int, mul, div, round, to_int}

  -- `round(x)` is the whole number `round(x, 0)`
  unfoldable pub drivers_of : City Float → ℕ
  drivers_of city =
      let share = div city.demand_weight (total_demand_weight fl) in
      max (to_int (round (mul (of_int cfg.drivers_total) share) 0)) 4

  -- `count` drivers, from number n on
  unfoldable pub spawn_drivers : City Float → ℕ → ℕ → ℕ → Drivers fl r cfg → Drivers fl r cfg
  unfolding spawn_driver
  spawn_drivers city n zero anchor_ms s = s
  spawn_drivers city n (suc count) anchor_ms s =
      spawn_drivers city (n + 1) count anchor_ms
        (spawn_driver fl r cfg city (first_id city.city_id n) anchor_ms s).1

  unfoldable pub spawn_in : List (City Float) → ℕ → Drivers fl r cfg → Drivers fl r cfg
  unfolding spawn_drivers drivers_of
  spawn_in [] anchor_ms s = s
  spawn_in (city ∷ rest) anchor_ms s =
      spawn_in rest anchor_ms (spawn_drivers city 0 (drivers_of city) anchor_ms s)

  -- `DriverFleet(cfg, rng, anchor_ms)`
  unfoldable pub new_fleet : r.State → ℕ → Drivers fl r cfg
  unfolding spawn_in
  new_fleet rng anchor_ms =
      spawn_in (cities fl) anchor_ms (record { rng = rng; drivers = []; overflow = 0 })

  spawn_drivers-AllFit :
      (city : City Float) (n count anchor_ms : ℕ) (s : Drivers fl r cfg)
      → city_by_id fl city.city_id ≡ some city
      → AllFit fl r cfg s.drivers
      → AllFit fl r cfg (spawn_drivers city n count anchor_ms s).drivers
  unfolding spawn_drivers spawn_driver
  spawn_drivers-AllFit city n zero anchor_ms s e fits = fits
  spawn_drivers-AllFit city n (suc count) anchor_ms s e fits =
      spawn_drivers-AllFit city (n + 1) count anchor_ms _ e (
        Dict.All-put (λ x. IsFit fl r cfg x.1) (first_id city.city_id n) _ s.drivers ((city, e), tt)
          fits)

  spawn_in-AllFit :
      (some_cities : List (City Float)) (anchor_ms : ℕ) (s : Drivers fl r cfg)
      → All (λ (c : City Float). city_by_id fl c.city_id ≡ some c) some_cities
      → AllFit fl r cfg s.drivers
      → AllFit fl r cfg (spawn_in some_cities anchor_ms s).drivers
  unfolding spawn_in
  spawn_in-AllFit [] anchor_ms s own fits = fits
  spawn_in-AllFit (city ∷ rest) anchor_ms s (e, own) fits =
      spawn_in-AllFit rest anchor_ms _ own
        (spawn_drivers-AllFit city 0 (drivers_of city) anchor_ms s e fits)

  -- All drivers of a new fleet can move.
  pub new_fleet-AllFit :
      (rng : r.State) (anchor_ms : ℕ) → AllFit fl r cfg (new_fleet rng anchor_ms).drivers
  unfolding new_fleet city_by_id
  new_fleet-AllFit rng anchor_ms =
      spawn_in-AllFit (cities fl) anchor_ms (record { rng = rng; drivers = []; overflow = 0 })
        (refl, (refl, (refl, (refl, (refl, tt))))) tt
