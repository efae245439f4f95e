-- ===== src/Generator/Drivers.antt =====
-- src/generator/drivers.py: the fleet, as the rides use it.
pub mod Movement
pub mod Initial
pub mod Fit
pub mod Assignments
pub mod Dependability
use Prim.Native.String.{◌++◌ as text_append}
use stream_pipeline.Prelude.Dict
use stream_pipeline.Prelude.Dict.{Dict}
use stream_pipeline.Prelude.{
  ℕ, zero, suc, ◌+◌, ◌/◌, ◌%◌, max, String, Bool, Option, none, some, List, [], ◌∷◌, select, Result,
  ok, raise, key_error, ◌>>=◌, ◌==◌, ◌&&◌, ltb, str_eq, if◌then◌else◌, text_key,
}
use stream_pipeline.Common.Floats.{Floats, lower, higher}
use stream_pipeline.Common.Numerals.{decimal, padded}
use stream_pipeline.Common.Geo.{haversine_km}
use stream_pipeline.Generator.Random.{Random}
use stream_pipeline.Generator.Config.{GeneratorConfig}
use stream_pipeline.Generator.Cities.{City, city_by_id, sample_hotspot_point}

abbrev pub idle : String
idle = "idle"

abbrev pub en_route : String
en_route = "en_route_to_pickup"

abbrev pub on_trip : String
on_trip = "on_trip"

abbrev pub offline : String
offline = "offline"

pub record Driver (F : Type 0) : Type 0 where
  pub driver_id : String
  pub city_id : ℕ
  pub lat : F
  pub lon : F
  pub heading : F
  pub speed_kmh : F
  pub status : String
  pub ride_id : Option String
  pub target : Option (F × F)
  pub leg_start : Option (F × F)
  pub leg_start_ms : ℕ
  pub leg_end_ms : ℕ
  pub next_ping_ms : ℕ
  pub back_online_ms : ℕ

-- `_by_city[c]` holds the drivers of `_drivers` in city c, the same objects, in the order in which
-- they were spawned; only a spawn changes it, so it is read off `drivers`.
pub record DriverFleet (F S : Type 0) : Type 0 where
  pub rng : S
  pub drivers : Dict String (Driver F)
  pub overflow : ℕ

abbrev pub spawned_id : ℕ → ℕ → String
spawned_id city_id n =
    text_append "d-" (text_append (decimal city_id) (text_append "-x" (padded 4 n)))

module _ (fl : Floats) (r : Random fl) (cfg : GeneratorConfig fl.Float) where
  open fl use {Float, of_int, lit, mul, div, lt, to_int}

  abbrev pub Drivers : Type 0
  Drivers = DriverFleet Float r.State

  unfoldable pub spawn_driver : City Float → String → ℕ → Drivers → Driver Float × Drivers
  unfolding sample_hotspot_point
  spawn_driver city driver_id now_ms s =
      let (point, rng) = sample_hotspot_point fl r city s.rng in
      let (heading, rng') = r.uniform (of_int 0) (of_int 360) rng in
      let (sec, rng'') = r.uniform (of_int 0) cfg.ping_interval_sec rng' in
      let driver : Driver Float = record {
        driver_id = driver_id;
        city_id = city.city_id;
        lat = point.0;
        lon = point.1;
        heading = heading;
        speed_kmh = of_int 0;
        status = idle;
        ride_id = none;
        target = none;
        leg_start = none;
        leg_start_ms = 0;
        leg_end_ms = 0;
        next_ping_ms = now_ms + to_int (mul sec (of_int 1000));
        back_online_ms = 0;
      } in
      (driver, record s { rng = rng''; drivers = Dict.put driver_id driver s.drivers })

  unfoldable pub begin_leg : Driver Float → String → Float × Float → ℕ → ℕ → Driver Float
  begin_leg driver status target now_ms leg_ms = record driver {
    status = status;
    target = some target;
    leg_start = some (driver.lat, driver.lon);
    leg_start_ms = now_ms;
    leg_end_ms = now_ms + max leg_ms 1000;
  }

  abbrev pub distance_to : Float × Float → Driver Float → Float
  distance_to (lat, lon) driver = haversine_km fl driver.lat driver.lon lat lon

  -- `min(idle, key=...)`: the first of the nearest
  unfoldable pub nearest : Float × Float → Driver Float → List (Driver Float) → Driver Float
  nearest pickup best [] = best
  nearest pickup best (x ∷ xs) =
      nearest pickup (if lt (distance_to pickup x) (distance_to pickup best) then x else best) xs

  unfoldable pub idle_in : ℕ → Drivers → List (Driver Float)
  idle_in city_id s =
      select (λ x. (x.city_id == city_id) && str_eq x.status idle) (Dict.values s.drivers)

  -- the driver of an assignment, spawned if the city is dry
  abbrev pub chosen :
      City Float → Float × Float → ℕ → Drivers → List (Driver Float) → Driver Float × Drivers
  chosen city pickup now_ms s [] =
      let overflow = s.overflow + 1 in
      spawn_driver city (spawned_id city.city_id overflow) now_ms (record s { overflow = overflow })
  chosen city pickup now_ms s (x ∷ xs) = (nearest pickup x xs, s)

  -- the leg to the pickup
  unfoldable pub send : Float × Float → ℕ → Driver Float → Drivers → (String × Float) × Drivers
  unfolding begin_leg
  send pickup now_ms driver s =
      let (drawn, rng) = r.gauss (of_int 30) (of_int 6) s.rng in
      let speed = lower fl (higher fl drawn (of_int 15)) (of_int 50) in
      let travel_sec =
        higher fl (mul (div (distance_to pickup driver) speed) (of_int 3600)) (of_int 20) in
      let leg = begin_leg driver en_route pickup now_ms (to_int (mul travel_sec (of_int 1000))) in
      (
        (driver.driver_id, travel_sec),
        record s { rng = rng; drivers = Dict.put driver.driver_id leg s.drivers },
      )

  abbrev assign_in :
      Option (City Float) → Float × Float → ℕ → Drivers → Result ((String × Float) × Drivers)
  assign_in none pickup now_ms s = raise key_error
  assign_in (some city) pickup now_ms s =
      let (driver, s') = chosen city pickup now_ms s (idle_in city.city_id s) in
      ok (send pickup now_ms driver s')

  unfoldable pub assign : ℕ → Float × Float → ℕ → Drivers → Result ((String × Float) × Drivers)
  unfolding spawn_driver nearest idle_in send
  assign city_id pickup now_ms s = assign_in (city_by_id fl city_id) pickup now_ms s

  abbrev of_known : Option (Driver Float) → (Driver Float → Drivers) → Result Drivers
  of_known none change = raise key_error
  of_known (some driver) change = ok (change driver)

  unfoldable pub ride_started : String → Float × Float → Float → ℕ → Drivers → Result Drivers
  unfolding begin_leg
  ride_started driver_id dropoff duration_sec now_ms s =
      of_known (Dict.get driver_id s.drivers) (λ driver. record s {
        drivers =
            Dict.put driver_id
              (begin_leg driver on_trip dropoff now_ms (to_int (mul duration_sec (of_int 1000))))
              s.drivers;
      })

  abbrev moved_to : Driver Float → Option (Float × Float) → Driver Float
  moved_to driver none = driver
  moved_to driver (some (lat, lon)) = record driver { lat = lat; lon = lon }

  unfoldable pub release : String → ℕ → Option (Float × Float) → Drivers → Result Drivers
  release driver_id now_ms at s = of_known (Dict.get driver_id s.drivers) (λ driver.
      let (drawn, rng) = r.gauss (of_int 12) (of_int 5) s.rng in
      record s {
        rng = rng;
        drivers =
            Dict.put driver_id
              (record (moved_to driver at) {
                status = idle;
                ride_id = none;
                target = none;
                speed_kmh = lower fl (higher fl drawn (of_int 0)) (of_int 30);
              })
              s.drivers;
      })
