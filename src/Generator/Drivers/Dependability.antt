-- ===== src/Generator/Drivers/Dependability.antt =====
-- The fleet keeps what its interface promises.
use stream_pipeline.Prelude.Dict
use stream_pipeline.Prelude.{
  ℕ, ◌+◌, ◌<◌, ◌≡◌, refl, sym, subst, ◌∙◌, String, Option, none, some, List, [], ◌∷◌, All, All-In,
  All-select, All-of-map, dec_text, text_key, if_pos, if_neg, arith,
}
use stream_pipeline.Common.Floats.{Floats}
use stream_pipeline.Generator.Random.{Random}
use stream_pipeline.Generator.Config.{GeneratorConfig}
use stream_pipeline.Generator.Cities.{City, city_in, city_by_id, cities}
use stream_pipeline.Generator.Fleet.{Fact, knows, sound, Dependable}
use stream_pipeline.Generator.Drivers.{
  Driver, Drivers, spawn_driver, begin_leg, nearest, chosen, send, idle_in, assign, ride_started,
  release, spawned_id, moved_to,
}
use stream_pipeline.Generator.Drivers.Movement.{interval_ms, driver_fleet}
use stream_pipeline.Generator.Drivers.Fit.{IsFit, AllFit, Listed, on_tick-Returns}
use stream_pipeline.Generator.Drivers.Assignments.{nearest-In}

city_in-city_id :
    {F : Type 0} (id : ℕ) (cs : List (City F)) (c : City F)
    → city_in id cs ≡ some c
    → c.city_id ≡ id
city_in-city_id id [] c h = cc
city_in-city_id id (x ∷ cs) c h = ground (arith, h, city_in-city_id id cs c)

city_by_id-city_id :
    (fl : Floats) (id : ℕ) (c : City fl.Float) → city_by_id fl id ≡ some c → c.city_id ≡ id
unfolding city_by_id
city_by_id-city_id fl id c h = city_in-city_id id (cities fl) c h

module _ (fl : Floats) (r : Random fl) (cfg : GeneratorConfig fl.Float) where
  open fl use {Float}

  abbrev Holds : Drivers fl r cfg → Fact → Type 0
  Holds s (knows driver) = Listed fl r cfg s.drivers driver
  Holds s sound = AllFit fl r cfg s.drivers

  -- To put a driver, fit if all were, keeps every fact.
  put-Holds :
      (s : Drivers fl r cfg) (k : String) (v : Driver Float) (x : Fact)
      → (AllFit fl r cfg s.drivers → IsFit fl r cfg v)
      → Holds s x
      → Holds (record s { drivers = Dict.put k v s.drivers }) x
  put-Holds s k v (knows j) fit known = elim (dec_text k j) [
    | yes e ↦ (v, Dict.get-put k j v s.drivers ∙ if_pos (dec_text k j) e _ _)
    | no e ↦ (known.0, Dict.get-put k j v s.drivers ∙ (if_neg (dec_text k j) e _ _ ∙ known.1))
  ]
  put-Holds s k v sound fit fits =
      Dict.All-put (λ (e : String × Driver Float). IsFit fl r cfg e.1) k v s.drivers (fit fits) fits

  put-Listed :
      (s : Drivers fl r cfg) (k : String) (v : Driver Float)
      → Listed fl r cfg (Dict.put k v s.drivers) k
  put-Listed s k v = (v, Dict.get-put k k v s.drivers ∙ if_pos (dec_text k k) refl _ _)

  -- The driver that an assignment chooses is fit if all were,
  chosen-IsFit :
      (city : City Float) (pickup : Float × Float) (now_ms : ℕ) (s : Drivers fl r cfg)
      (idles : List (Driver Float))
      → city_by_id fl city.city_id ≡ some city
      → (AllFit fl r cfg s.drivers → All (IsFit fl r cfg) idles)
      → AllFit fl r cfg (chosen fl r cfg city pickup now_ms s idles).1.drivers
      → IsFit fl r cfg (chosen fl r cfg city pickup now_ms s idles).0
  unfolding spawn_driver
  chosen-IsFit city pickup now_ms s [] e of_idle fits = ((city, e), tt)
  chosen-IsFit city pickup now_ms s (x ∷ xs) e of_idle fits =
      All-In (IsFit fl r cfg) (nearest fl r cfg pickup x xs) (x ∷ xs) (of_idle fits)
        (nearest-In fl r cfg pickup x xs)

  -- and the choice forgets no fact.
  chosen-Holds :
      (city : City Float) (pickup : Float × Float) (now_ms : ℕ) (s : Drivers fl r cfg)
      (idles : List (Driver Float)) (x : Fact)
      → city_by_id fl city.city_id ≡ some city
      → Holds s x
      → Holds (chosen fl r cfg city pickup now_ms s idles).1 x
  unfolding spawn_driver
  chosen-Holds city pickup now_ms s [] x e h =
      put-Holds s (spawned_id city.city_id (s.overflow + 1)) _ x (λ fits. ((city, e), tt)) h
  chosen-Holds city pickup now_ms s (y ∷ ys) x e h = h

  idle_in-IsFit :
      (city_id : ℕ) (s : Drivers fl r cfg)
      → AllFit fl r cfg s.drivers
      → All (IsFit fl r cfg) (idle_in fl r cfg city_id s)
  unfolding idle_in
  idle_in-IsFit city_id s fits =
      All-select (IsFit fl r cfg) _ (Dict.values s.drivers)
        (All-of-map (IsFit fl r cfg) (λ (e : String × Driver Float). e.1) s.drivers fits)

  get-IsFit :
      (s : Drivers fl r cfg) (k : String) (v : Driver Float)
      → Dict.get k s.drivers ≡ some v
      → AllFit fl r cfg s.drivers
      → IsFit fl r cfg v
  get-IsFit s k v e fits =
      Dict.All_at (λ (x : String × Driver Float). IsFit fl r cfg x.1) k v s.drivers fits e

  moved_to-city :
      (driver : Driver Float) (at : Option (Float × Float))
      → (c : City Float) × (city_by_id fl driver.city_id ≡ some c)
      → (c : City Float) × (city_by_id fl (moved_to fl r cfg driver at).city_id ≡ some c)
  moved_to-city driver none h = h
  moved_to-city driver (some (lat, lon)) h = h

  ticked-Holds :
      (s s' : Drivers fl r cfg)
      → AllFit fl r cfg s'.drivers
      → ((id : String) → Listed fl r cfg s.drivers id → Listed fl r cfg s'.drivers id)
      → (x : Fact) → Holds s x
      → Holds s' x
  ticked-Holds s s' fits keep (knows id) h = keep id h
  ticked-Holds s s' fits keep sound h = fits

  -- A driver fleet whose pings are at least a millisecond apart is dependable for the rides: it
  -- serves every city of the table, a driver that it has assigned is in its table from then on, no
  -- call makes it forget a driver or raises for a driver of the table, and while all drivers are
  -- fit a tick returns and leaves them so.
  pub driver_fleet-Dependable : 0 < interval_ms fl r cfg → Dependable fl (driver_fleet fl r cfg)
  unfolding assign ride_started release send begin_leg
  driver_fleet-Dependable apart = record {
    Serves = λ city_id. (c : City Float) × (city_by_id fl city_id ≡ some c);
    Holds = Holds;
    assigns = λ city_id pickup now_ms s serves.
        let (c, e) = serves in
        let own : city_by_id fl c.city_id ≡ some c =
          subst (λ i. city_by_id fl i ≡ some c) (sym (city_by_id-city_id fl city_id c e)) e in
        let idles = idle_in fl r cfg c.city_id s in
        let (driver, s') = chosen fl r cfg c pickup now_ms s idles in
        let ((id, travel), s'') = send fl r cfg pickup now_ms driver s' in
        rw e (
          id,
          travel,
          s'',
          refl,
          put-Listed s' driver.driver_id _,
          λ x h.
              put-Holds s' driver.driver_id _ x
                (λ fits. (
                  (chosen-IsFit c pickup now_ms s idles own (idle_in-IsFit c.city_id s) fits).0,
                  tt,
                ))
                (chosen-Holds c pickup now_ms s idles x own h),
        );
    starts = λ driver dropoff sec now_ms s known.
        let (x, e) = known in
        rw e (
          _,
          refl,
          λ y h. put-Holds s driver _ y (λ fits. ((get-IsFit s driver x e fits).0, tt)) h,
        );
    releases = λ driver now_ms at s known.
        let (x, e) = known in
        rw e (
          _,
          refl,
          λ y h.
              put-Holds s driver _ y
                (λ fits. (moved_to-city x at (get-IsFit s driver x e fits).0, tt)) h,
        );
    ticks = λ now_ms s fits.
        let (x, e, (fits', keep)) = on_tick-Returns fl r cfg now_ms s apart fits in
        (x.0, x.1, e, ticked-Holds s x.1 fits' keep);
  }

  -- A city of the table is served.
  pub driver_fleet-Serves :
      (apart : 0 < interval_ms fl r cfg) (city_id : ℕ) (c : City Float)
      → city_by_id fl city_id ≡ some c
      → (driver_fleet-Dependable apart).Serves city_id
  unfolding driver_fleet-Dependable
  driver_fleet-Serves apart city_id c e = (c, e)

  -- A fleet whose drivers are all fit is sound.
  pub driver_fleet-sound :
      (apart : 0 < interval_ms fl r cfg) (s : Drivers fl r cfg)
      → AllFit fl r cfg s.drivers
      → (driver_fleet-Dependable apart).Holds s sound
  unfolding driver_fleet-Dependable
  driver_fleet-sound apart s fits = fits
