-- ===== src/Generator/Drivers/Fit.antt =====
-- Drivers that can move: their city is in the table, and a target comes with the start of a leg.
use stream_pipeline.Prelude.Dict
use stream_pipeline.Prelude.{
  ℕ, zero, suc, ◌+◌, ◌-◌, ◌<◌, ◌≡◌, refl, sym, ◌∙◌, inl, inr, String, ◌||◌, Bool-cases, Option,
  none, some, List, [], ◌∷◌, All, Returns, arith, leb, str_eq, text_key, dec_text, if_pos, if_neg,
}
use stream_pipeline.Common.Floats.{Floats}
use stream_pipeline.Generator.Random.{Random}
use stream_pipeline.Generator.Config.{GeneratorConfig}
use stream_pipeline.Generator.Cities.{City, city_by_id}
use stream_pipeline.Generator.Events.{SourceEvent}
use stream_pipeline.Generator.Drivers.{Driver, Drivers, idle, en_route, on_trip, offline}
use stream_pipeline.Generator.Drivers.Movement.{
  Drawn, in_city, along, resting, move_to, move_on_leg, cruise, move, maybe_go_offline, interval_ms,
  pings, tick_driver, tick_all, on_tick,
}

abbrev pub HasStart : {F : Type 0} → Option (F × F) → Option (F × F) → Type 0
HasStart none start = Unit
HasStart (some target) none = ⊥
HasStart (some target) (some start) = Unit

module _ (fl : Floats) (r : Random fl) (cfg : GeneratorConfig fl.Float) where
  open fl use {Float, lt}

  abbrev pub IsFit : Driver Float → Type 0
  IsFit driver =
      ((c : City Float) × (city_by_id fl driver.city_id ≡ some c))
      × HasStart driver.target driver.leg_start

  abbrev pub IsFitOf : Drawn fl r cfg → Type 0
  IsFitOf x = IsFit x.0

  in_city-Returns :
      (driver : Driver Float) (next : City Float → Drawn fl r cfg)
      → IsFit driver
      → ((city : City Float) → IsFitOf (next city))
      → Returns IsFitOf (in_city fl r cfg (city_by_id fl driver.city_id) next)
  in_city-Returns driver next ((city, e), start) fit = rw e (next city, refl, fit city)

  resting-Returns :
      (driver : Driver Float) (rng : r.State)
      → IsFit driver
      → Returns IsFitOf (resting fl r cfg driver rng)
  unfolding cruise
  resting-Returns driver rng fit = elim (Bool-cases (str_eq driver.status idle)) [
    | inl b ↦
        rw b (in_city-Returns driver (λ city. cruise fl r cfg city driver rng) fit (λ city. fit))
    | inr b ↦ rw b ((driver, rng), refl, fit)
  ]

  along-Returns :
      (start : Option (Float × Float)) (target : Float × Float) (driver : Driver Float) (now_ms : ℕ)
      (rng : r.State)
      → HasStart (some target) start
      → IsFit driver
      → Returns IsFitOf (along fl r cfg start target driver now_ms rng)
  unfolding move_on_leg
  along-Returns none target driver now_ms rng h fit = absurd h
  along-Returns (some start) target driver now_ms rng h fit =
      in_city-Returns driver (λ city. move_on_leg fl r cfg city start target driver now_ms rng) fit
        (λ city. fit)

  move_to-Returns :
      (target : Option (Float × Float)) (driver : Driver Float) (now_ms : ℕ) (rng : r.State)
      → HasStart target driver.leg_start
      → IsFit driver
      → Returns IsFitOf (move_to fl r cfg target driver now_ms rng)
  move_to-Returns none driver now_ms rng h fit = resting-Returns driver rng fit
  move_to-Returns (some target) driver now_ms rng h fit =
      elim (Bool-cases (str_eq driver.status en_route || str_eq driver.status on_trip)) [
        | inl b ↦ rw b (along-Returns driver.leg_start target driver now_ms rng h fit)
        | inr b ↦ rw b (resting-Returns driver rng fit)
      ]

  move-Returns :
      (driver : Driver Float) (now_ms : ℕ) (rng : r.State)
      → IsFit driver
      → Returns IsFitOf (move fl r cfg driver now_ms rng)
  unfolding move
  move-Returns driver now_ms rng fit = move_to-Returns driver.target driver now_ms rng fit.1 fit

  -- Going offline leaves the city, the leg and the next ping as they are.
  maybe_go_offline-same :
      (driver : Driver Float) (now_ms : ℕ) (rng : r.State)
      → IsFit driver
      → let (gone, (left, rng')) = maybe_go_offline fl r cfg driver now_ms rng in
        IsFit left × (left.next_ping_ms ≡ driver.next_ping_ms)
  unfolding maybe_go_offline
  maybe_go_offline-same driver now_ms rng fit = elim (Bool-cases (str_eq driver.status idle)) [
    | inr b ↦ rw (maybe_go_offline, b) (fit, refl)
    | inl b ↦ elim (Bool-cases (lt (r.random rng).0 cfg.offline_prob_per_ping)) [
      | inl p ↦ rw (maybe_go_offline, b, p) (fit, refl)
      | inr p ↦ rw (maybe_go_offline, b, p) (fit, refl)
    ]
  ]

  abbrev IsTicked : List (SourceEvent Float) × Drawn fl r cfg → Type 0
  IsTicked x = IsFit x.1.0

  -- Where the pings are at least a millisecond apart, the loop over the due ones ends.
  pings-Returns :
      (fuel : ℕ) (driver : Driver Float) (now_ms : ℕ) (rng : r.State)
      → 0 < interval_ms fl r cfg
      → now_ms + 1 < fuel + driver.next_ping_ms
      → 0 < fuel
      → IsFit driver
      → Returns IsTicked (pings fl r cfg fuel driver now_ms rng)
  unfolding pings
  pings-Returns zero driver now_ms rng apart enough some_fuel fit =
      absurd (omega (arith, some_fuel))
  pings-Returns (suc fuel) driver now_ms rng apart enough some_fuel fit =
      elim (Bool-cases (leb driver.next_ping_ms now_ms)) [
        | inr late ↦ rw (pings, late) (([], (driver, rng)), refl, fit)
        | inl due ↦
            let (moved, e, fit') = move-Returns driver driver.next_ping_ms rng fit in
            let later = record (moved.0) {
              next_ping_ms = driver.next_ping_ms + interval_ms fl r cfg;
            } in
            let (fit'', same) = maybe_go_offline-same later driver.next_ping_ms moved.1 fit' in
            elim (Bool-cases (maybe_go_offline fl r cfg later driver.next_ping_ms moved.1).0) [
              | inl gone ↦ rw (pings, due, e, gone) (_, refl, fit'')
              | inr stays ↦
                  let (left, rng') =
                    (maybe_go_offline fl r cfg later driver.next_ping_ms moved.1).1 in
                  let (x, e', fit3) =
                    pings-Returns fuel left now_ms rng' apart
                      (ground (arith, enough, due, same, apart)) (ground (arith, enough, due))
                      fit'' in
                  rw (pings, due, e, stays, e') (_, refl, fit3)
            ]
      ]

  tick_driver-Returns :
      (driver : Driver Float) (now_ms : ℕ) (rng : r.State)
      → 0 < interval_ms fl r cfg
      → IsFit driver
      → Returns IsTicked (tick_driver fl r cfg driver now_ms rng)
  unfolding tick_driver
  tick_driver-Returns driver now_ms rng apart fit =
      elim (Bool-cases (str_eq driver.status offline)) [
        | inr b ↦
            rw (tick_driver, b)
              (pings-Returns (suc (now_ms + 1 - driver.next_ping_ms)) driver now_ms rng apart
                (omega arith) (omega arith) fit)
        | inl b ↦ elim (Bool-cases (leb driver.back_online_ms now_ms)) [
          | inl p ↦
              rw (tick_driver, b, p)
                (pings-Returns 2 (record driver { status = idle; next_ping_ms = now_ms }) now_ms rng
                  apart (omega arith) (omega arith) fit)
          | inr p ↦ rw (tick_driver, b, p) (([], (driver, rng)), refl, fit)
        ]
      ]

  abbrev pub AllFit : Dict.Dict String (Driver Float) → Type 0
  AllFit drivers = All (λ (e : String × Driver Float). IsFit e.1) drivers

  abbrev pub Listed : Dict.Dict String (Driver Float) → String → Type 0
  Listed drivers id = (x : Driver Float) × (Dict.get id drivers ≡ some x)

  -- A tick keeps every driver in the table, and fit.
  abbrev pub IsKeptBy : Dict.Dict String (Driver Float) → Dict.Dict String (Driver Float) → Type 0
  IsKeptBy drivers drivers' =
      AllFit drivers' × ((id : String) → Listed drivers id → Listed drivers' id)

  Listed-cons :
      (k : String) (v v' : Driver Float) (d d' : Dict.Dict String (Driver Float))
      → ((id : String) → Listed d id → Listed d' id)
      → (id : String) → Listed ((k, v) ∷ d) id
      → Listed ((k, v') ∷ d') id
  unfolding Dict.get
  Listed-cons k v v' d d' keep id (x, e) = elim (dec_text k id) [
    | yes p ↦ (v', if_pos (dec_text k id) p _ _)
    | no p ↦
        let (x', e') = keep id (x, sym (if_neg (dec_text k id) p _ _) ∙ e) in
        (x', if_neg (dec_text k id) p _ _ ∙ e')
  ]

  tick_all-Returns :
      (drivers : Dict.Dict String (Driver Float)) (now_ms : ℕ) (rng : r.State)
      → 0 < interval_ms fl r cfg
      → AllFit drivers
      → Returns
          (λ (x : List (SourceEvent Float) × Dict.Dict String (Driver Float) × r.State).
            IsKeptBy drivers x.1)
          (tick_all fl r cfg drivers now_ms rng)
  unfolding tick_all
  tick_all-Returns [] now_ms rng apart fit = (_, refl, (tt, λ id h. h))
  tick_all-Returns ((id, driver) ∷ rest) now_ms rng apart (fit, fits) =
      let (x, e, fit') = tick_driver-Returns driver now_ms rng apart fit in
      let (y, e', (fits', keep)) = tick_all-Returns rest now_ms x.1.1 apart fits in
      rw (tick_all, e, e') (_, refl, ((fit', fits'), Listed-cons id driver x.1.0 rest y.1 keep))

  pub on_tick-Returns :
      (now_ms : ℕ) (s : Drivers fl r cfg)
      → 0 < interval_ms fl r cfg
      → AllFit s.drivers
      → Returns
          (λ (x : List (SourceEvent Float) × Drivers fl r cfg). IsKeptBy s.drivers x.1.drivers)
          (on_tick fl r cfg now_ms s)
  unfolding on_tick
  on_tick-Returns now_ms s apart fit =
      let (x, e, kept) = tick_all-Returns s.drivers now_ms s.rng apart fit in
      rw (on_tick, e) (_, refl, kept)
