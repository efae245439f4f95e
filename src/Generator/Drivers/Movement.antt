-- ===== src/Generator/Drivers/Movement.antt =====
-- src/generator/drivers.py: the pings of a tick, and how drivers move.
use stream_pipeline.Prelude.Dict.{Dict}
use stream_pipeline.Prelude.{
  ℕ, zero, suc, ◌+◌, ◌-◌, max, String, Bool, true, false, not, ◌||◌, Option, none, some, List, [],
  ◌∷◌, ◌++◌, Result, ok, raise, key_error, assertion_error, runtime_error, ◌>>=◌, leb, str_eq,
  if◌then◌else◌,
}
use stream_pipeline.Common.Floats.{Floats, lower, higher}
use stream_pipeline.Common.Geo.{haversine_km, initial_bearing_deg, destination_point}
use stream_pipeline.Generator.Random.{Random}
use stream_pipeline.Generator.Config.{GeneratorConfig}
use stream_pipeline.Generator.Cities.{City, clamp, city_by_id}
use stream_pipeline.Generator.Events.{SourceEvent, driver_location_event}
use stream_pipeline.Generator.Fleet.{Fleet}
use stream_pipeline.Generator.Drivers.{
  Driver, Drivers, idle, en_route, on_trip, offline, assign, ride_started, release,
}

module _ (fl : Floats) (r : Random fl) (cfg : GeneratorConfig fl.Float) where
  open fl use {Float, of_int, lit, add, sub, mul, div, fmod, lt, eq, to_int, round}

  -- a driver, and the random state after the draws
  abbrev pub Drawn : Type 0
  Drawn = Driver Float × r.State

  abbrev at_point : Driver Float → Float × Float → Driver Float
  at_point driver (lat, lon) = record driver { lat = lat; lon = lon }

  -- `_move_along_leg`, for a driver in a city with a leg
  unfoldable pub move_on_leg :
      City Float → Float × Float → Float × Float → Driver Float → ℕ → r.State → Drawn
  unfolding clamp
  move_on_leg city (start_lat, start_lon) (target_lat, target_lon) driver now_ms rng =
      let span = max (driver.leg_end_ms - driver.leg_start_ms) 1 in
      let since = div (sub (of_int now_ms) (of_int driver.leg_start_ms)) (of_int span) in
      let progress = lower fl (higher fl since (of_int 0)) (of_int 1) in
      let (jitter, rng1) = r.gauss (of_int 0) (lit 3 4) rng in
      let moved = at_point driver (
        clamp fl city (add (add start_lat (mul (sub target_lat start_lat) progress)) jitter)
          (add (add start_lon (mul (sub target_lon start_lon) progress)) jitter)) in
      let remaining_km = haversine_km fl moved.lat moved.lon target_lat target_lon in
      let remaining_h =
        higher fl (div (sub (of_int driver.leg_end_ms) (of_int now_ms)) (lit 36000000 1))
          (lit 1 4) in
      let base = if str_eq driver.status en_route then of_int 45 else of_int 50 in
      (
        record moved {
          speed_kmh =
              lower fl (higher fl (div remaining_km remaining_h) (of_int 8)) (add base (of_int 10));
          heading = initial_bearing_deg fl moved.lat moved.lon target_lat target_lon;
        },
        rng1,
      )

  -- `_cruise`, in a city
  unfoldable pub cruise : City Float → Driver Float → r.State → Drawn
  unfolding clamp
  cruise city driver rng =
      let (turn, rng1) = r.gauss (of_int 0) (of_int 30) rng in
      let heading = fmod (add driver.heading turn) (of_int 360) in
      let (drawn, rng2) = r.gauss (of_int 14) (of_int 6) rng1 in
      let speed_kmh = lower fl (higher fl drawn (of_int 0)) (of_int 30) in
      let step_km = div (mul speed_kmh cfg.ping_interval_sec) (of_int 3600) in
      let (lat, lon) = destination_point fl driver.lat driver.lon heading step_km in
      let (clamped_lat, clamped_lon) = clamp fl city lat lon in
      let outside = not (eq clamped_lat lat) || not (eq clamped_lon lon) in
      (
        record driver {
          heading = if outside then fmod (add heading (of_int 180)) (of_int 360) else heading;
          speed_kmh = speed_kmh;
          lat = clamped_lat;
          lon = clamped_lon;
        },
        rng2,
      )

  abbrev pub in_city : Option (City Float) → (City Float → Drawn) → Result Drawn
  in_city none move = raise key_error
  in_city (some city) move = ok (move city)

  -- `_move_along_leg` and its assertions; the draw comes before the city is looked up
  abbrev pub along :
      Option (Float × Float) → Float × Float → Driver Float → ℕ → r.State → Result Drawn
  along none target driver now_ms rng = raise assertion_error
  along (some start) target driver now_ms rng =
      in_city (city_by_id fl driver.city_id)
        (λ city. move_on_leg city start target driver now_ms rng)

  abbrev pub resting : Driver Float → r.State → Result Drawn
  resting driver rng =
      if str_eq driver.status idle
      then in_city (city_by_id fl driver.city_id) (λ city. cruise city driver rng)
      else ok (driver, rng)

  abbrev pub move_to : Option (Float × Float) → Driver Float → ℕ → r.State → Result Drawn
  move_to none driver now_ms rng = resting driver rng
  move_to (some target) driver now_ms rng =
      if str_eq driver.status en_route || str_eq driver.status on_trip
      then along driver.leg_start target driver now_ms rng
      else resting driver rng

  -- `_move`
  unfoldable pub move : Driver Float → ℕ → r.State → Result Drawn
  unfolding move_on_leg cruise
  move driver now_ms rng = move_to driver.target driver now_ms rng

  -- `_maybe_go_offline`: the driver after it, and whether it went
  unfoldable pub maybe_go_offline : Driver Float → ℕ → r.State → Bool × Drawn
  maybe_go_offline driver now_ms rng =
      let (roll, rng1) = r.random rng in
      let (away, rng2) = r.expovariate (div (of_int 1) (of_int 900)) rng1 in
      let back =
        now_ms
        + to_int (mul (lower fl (higher fl away (of_int 120)) (of_int 3600)) (of_int 1000)) in
      if not (str_eq driver.status idle)
      then (false, (driver, rng))
      else (if not (lt roll cfg.offline_prob_per_ping) then (false, (driver, rng1)) else (
        true,
        (record driver { status = offline; speed_kmh = of_int 0; back_online_ms = back }, rng2),
      ))

  -- `_ping`
  unfoldable pub ping : Driver Float → ℕ → SourceEvent Float
  ping driver ts_ms = driver_location_event (record {
    driver_id = driver.driver_id;
    ts = ts_ms;
    lat = driver.lat;
    lon = driver.lon;
    speed_kmh = round driver.speed_kmh 1;
    heading = round driver.heading 1;
    status = driver.status;
    city_id = driver.city_id;
  })

  abbrev pub interval_ms : ℕ
  interval_ms = to_int (mul cfg.ping_interval_sec (of_int 1000))

  -- The loop over the due pings of a driver, with fuel for them.
  unfoldable pub pings : ℕ → Driver Float → ℕ → r.State → Result (List (SourceEvent Float) × Drawn)
  unfolding move maybe_go_offline ping
  pings zero driver now_ms rng = raise runtime_error
  pings (suc fuel) driver now_ms rng =
      let ping_ms = driver.next_ping_ms in
      let due = move driver ping_ms rng >>= λ moved.
      let first = ping moved.0 ping_ms in
      let (gone, (left, rng')) =
        maybe_go_offline (record (moved.0) { next_ping_ms = ping_ms + interval_ms }) ping_ms
          moved.1 in
      if gone
      then ok (first ∷ ping left ping_ms ∷ [], (left, rng'))
      else (pings fuel left now_ms rng' >>= λ rest. ok (first ∷ rest.0, rest.1)) in
      if leb ping_ms now_ms then due else ok ([], (driver, rng))

  -- the body of the loop over the drivers
  unfoldable pub tick_driver :
      Driver Float → ℕ → r.State → Result (List (SourceEvent Float) × Drawn)
  unfolding pings
  tick_driver driver now_ms rng =
      if str_eq driver.status offline
      then (if leb driver.back_online_ms now_ms
          then pings 2 (record driver { status = idle; next_ping_ms = now_ms }) now_ms rng
          else ok ([], (driver, rng)))
      else pings (suc (now_ms + 1 - driver.next_ping_ms)) driver now_ms rng

  unfoldable pub tick_all :
      Dict String (Driver Float)
      → ℕ
      → r.State
      → Result (List (SourceEvent Float) × Dict String (Driver Float) × r.State)
  unfolding tick_driver
  tick_all [] now_ms rng = ok ([], [], rng)
  tick_all ((id, driver) ∷ rest) now_ms rng = tick_driver driver now_ms rng >>= λ x.
      tick_all rest now_ms x.1.1 >>= λ y. ok (x.0 ++ y.0, (id, x.1.0) ∷ y.1, y.2)

  unfoldable pub on_tick :
      ℕ → Drivers fl r cfg → Result (List (SourceEvent Float) × Drivers fl r cfg)
  unfolding tick_all
  on_tick now_ms s =
      tick_all s.drivers now_ms s.rng >>= λ x. ok (x.0, record s { drivers = x.1; rng = x.2 })

  -- The interface that the rides use.
  abbrev pub driver_fleet : Fleet fl
  driver_fleet = record {
    State = Drivers fl r cfg;
    on_tick = on_tick;
    assign = assign fl r cfg;
    ride_started = ride_started fl r cfg;
    release = release fl r cfg;
  }
