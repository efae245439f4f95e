-- ===== src/Generator/Drivers/Assignments.antt =====
-- What an assignment does to the fleet.
use stream_pipeline.Prelude.Dict
use stream_pipeline.Prelude.{
  ℕ, ◌+◌, ◌≡◌, ◌≢◌, ◌≤◌, ◌⊎◌, inl, inr, refl, sym, ◌∙◌, String, Bool, true, false, if◌then◌else◌,
  some, List, [], ◌∷◌, ok, dec_text, text_key, if_pos, if_neg, In, select-In, In-select, All,
  All_In, Bool-cases, ◌==◌, ◌&&◌, str_eq, eq_iff, subst, arith,
}
use stream_pipeline.Common.Floats.{Floats}
use stream_pipeline.Generator.Random.{Random}
use stream_pipeline.Generator.Config.{GeneratorConfig}
use stream_pipeline.Generator.Cities.{City, city_by_id}
use stream_pipeline.Generator.Drivers.{
  Driver, Drivers, idle, en_route, distance_to, nearest, spawn_driver, begin_leg, chosen, send,
  idle_in, assign, spawned_id,
}

if-either :
    {A : Type 0} (b : Bool) (x y : A) → ((if b then x else y) ≡ x) ⊎ ((if b then x else y) ≡ y)
if-either true x y = inl refl
if-either false x y = inr refl

module _ (fl : Floats) (r : Random fl) (cfg : GeneratorConfig fl.Float) where
  open fl use {Float, lt}

  pub nearest-In :
      (pickup : Float × Float) (best : Driver Float) (xs : List (Driver Float))
      → In (nearest fl r cfg pickup best xs) (best ∷ xs)
  unfolding nearest
  nearest-In pickup best [] = inl refl
  nearest-In pickup best (x ∷ xs) =
      let nearer = lt (distance_to fl r cfg pickup x) (distance_to fl r cfg pickup best) in
      elim (nearest-In pickup (if nearer then x else best) xs) [
        | inr i ↦ inr (inr i)
        | inl e ↦ elim (if-either nearer x best) [
          | inl p ↦ inr (inl (sym p ∙ e))
          | inr p ↦ inl (sym p ∙ e)
        ]
      ]

  -- A driver who waits in the city.
  abbrev pub IsIdleIn : ℕ → Driver Float → Type 0
  IsIdleIn city_id x = (x.city_id ≡ city_id) × (x.status ≡ idle)

  tests-IsIdleIn :
      (city_id : ℕ) (x : Driver Float)
      → ((x.city_id == city_id) && str_eq x.status idle) ≡ true
      → IsIdleIn city_id x
  tests-IsIdleIn city_id x h = elim (Bool-cases (x.city_id == city_id)) [
    | inl e ↦
        let same : str_eq x.status idle ≡ true = rw e at h in
        (ground (arith, e), (eq_iff x.status idle).0 same)
    | inr e ↦ let never : false ≡ true = rw e at h in cc
  ]

  IsIdleIn-tests :
      (city_id : ℕ) (x : Driver Float)
      → IsIdleIn city_id x
      → ((x.city_id == city_id) && str_eq x.status idle) ≡ true
  IsIdleIn-tests city_id x (here, waits) =
      let e : (x.city_id == city_id) ≡ true = ground (arith, here) in
      rw e ((eq_iff x.status idle).1 waits)

  -- the drivers that `assign` takes its minimum of
  idle_in-IsIdleIn :
      (city_id : ℕ) (s : Drivers fl r cfg) (x : Driver Float)
      → In x (idle_in fl r cfg city_id s)
      → In x (Dict.values s.drivers) × IsIdleIn city_id x
  unfolding idle_in
  idle_in-IsIdleIn city_id s x i =
      let (there, h) = select-In _ x (Dict.values s.drivers) i in
      (there, tests-IsIdleIn city_id x h)

  none_idle :
      (city_id : ℕ) (s : Drivers fl r cfg)
      → idle_in fl r cfg city_id s ≡ []
      → All (λ x. ¬ IsIdleIn city_id x) (Dict.values s.drivers)
  unfolding idle_in
  none_idle city_id s h = All_In (Dict.values s.drivers) (λ x i waits.
      let there : In x (idle_in fl r cfg city_id s) =
        In-select _ x (Dict.values s.drivers) i (IsIdleIn-tests city_id x waits) in
      subst (In x) h there)

  -- The driver is one who waits in the city, or a new one if nobody does,
  abbrev pub IsChosen : ℕ → Drivers fl r cfg → String → Drivers fl r cfg → Type 0
  IsChosen city_id s id s' =
      (All (λ x. ¬ IsIdleIn city_id x) (Dict.values s.drivers)
        × (id ≡ spawned_id city_id (s.overflow + 1))
        × (s'.overflow ≡ s.overflow + 1))
      ⊎ ((old : Driver Float) × In old (Dict.values s.drivers)
          × IsIdleIn city_id old
          × (old.driver_id ≡ id)
          × (s'.overflow ≡ s.overflow))

  -- and every other driver is as before.
  abbrev pub IsAlone : Drivers fl r cfg → String → Drivers fl r cfg → Type 0
  IsAlone s id s' = (j : String) → id ≢ j → Dict.get j s'.drivers ≡ Dict.get j s.drivers

  chosen-IsChosen :
      (city : City Float) (pickup : Float × Float) (now_ms : ℕ) (s : Drivers fl r cfg)
      (idles : List (Driver Float))
      → idle_in fl r cfg city.city_id s ≡ idles
      → let (driver, s') = chosen fl r cfg city pickup now_ms s idles in
        IsChosen city.city_id s driver.driver_id s' × IsAlone s driver.driver_id s'
  unfolding spawn_driver
  chosen-IsChosen city pickup now_ms s [] e = (
    inl (none_idle city.city_id s e, refl, refl),
    λ j ne.
        Dict.get-put (spawned_id city.city_id (s.overflow + 1)) j _ s.drivers
        ∙ if_neg (dec_text (spawned_id city.city_id (s.overflow + 1)) j) ne _ _,
  )
  chosen-IsChosen city pickup now_ms s (x ∷ xs) e =
      let old = nearest fl r cfg pickup x xs in
      let (there, waits) =
        idle_in-IsIdleIn city.city_id s old (subst (In old) (sym e) (nearest-In pickup x xs)) in
      (inr (old, there, waits, refl, refl), λ j ne. refl)

  -- The driver on the leg to the pickup.
  abbrev pub IsSent : Float × Float → ℕ → String → Drivers fl r cfg → Type 0
  IsSent pickup now_ms id s =
      (driver : Driver Float) × (Dict.get id s.drivers ≡ some driver)
      × (driver.status ≡ en_route)
      × (driver.target ≡ some pickup)
      × (driver.leg_start_ms ≡ now_ms)
      × (now_ms + 1000 ≤ driver.leg_end_ms)

  send-IsSent :
      (pickup : Float × Float) (now_ms : ℕ) (driver : Driver Float) (s : Drivers fl r cfg)
      → let s' = (send fl r cfg pickup now_ms driver s).1 in
        IsSent pickup now_ms driver.driver_id s'
        × IsAlone s driver.driver_id s'
        × (s'.overflow ≡ s.overflow)
  unfolding send begin_leg
  send-IsSent pickup now_ms driver s =
      let k = driver.driver_id in
      (
        (
          _,
          Dict.get-put k k _ s.drivers ∙ if_pos (dec_text k k) refl _ _,
          refl,
          refl,
          refl,
          omega arith,
        ),
        λ j ne. Dict.get-put k j _ s.drivers ∙ if_neg (dec_text k j) ne _ _,
        refl,
      )

  -- An assignment in a city of the table returns a driver of the fleet who is of that city and whose
  -- status is `idle`, and a new driver only if the fleet has none such. That driver is then en route to the pickup, on a leg of
  -- at least a second from now, and the records of all other drivers are as before.
  pub assign-IsChosen :
      (city_id : ℕ) (city : City Float) (pickup : Float × Float) (now_ms : ℕ) (s : Drivers fl r cfg)
      → city_by_id fl city_id ≡ some city
      → (id : String) × (travel_sec : Float) × (s' : Drivers fl r cfg) × (assign fl r cfg city_id
            pickup now_ms s
          ≡ ok ((id, travel_sec), s'))
        × IsChosen city.city_id s id s'
        × IsSent pickup now_ms id s'
        × IsAlone s id s'
  unfolding assign
  assign-IsChosen city_id city pickup now_ms s e =
      let idles = idle_in fl r cfg city.city_id s in
      let (driver, s') = chosen fl r cfg city pickup now_ms s idles in
      let (from, alone) = chosen-IsChosen city pickup now_ms s idles refl in
      let (sent, alone', same) = send-IsSent pickup now_ms driver s' in
      rw (assign, e)
        (
          _,
          _,
          _,
          refl,
          elim from [
            | inl (nobody, id, more) ↦ inl (nobody, id, same ∙ more)
            | inr (old, i, waits, id, more) ↦ inr (old, i, waits, id, same ∙ more)
          ],
          sent,
          λ j ne. alone' j ne ∙ alone j ne,
        )
