-- ===== src/Generator/Rides/Numbering.antt =====
-- The identifiers stay numbered by the counter through whole ticks.
use stream_pipeline.Prelude.Dict
use stream_pipeline.Prelude.Dict.{Dict}
use stream_pipeline.Prelude.{
  ℕ, ◌≤◌, ◌≡◌, subst, sym, String, Option, none, some, List, [], ◌∷◌, Ensures, Ensures-ok,
  >>=-Ensures, text_key,
}
use stream_pipeline.Common.Floats.{Floats}
use stream_pipeline.Generator.Random.{Random}
use stream_pipeline.Generator.Config.{GeneratorConfig}
use stream_pipeline.Generator.Events.{SourceEvent}
use stream_pipeline.Generator.Fleet.{Fleet}
use stream_pipeline.Generator.Rides.{ActiveRide, Sim}
use stream_pipeline.Generator.Rides.Firing.{fire_due, due_payments}
use stream_pipeline.Generator.Rides.Creation.{RideBook, ride_id_of, spawn}
use stream_pipeline.Generator.Rides.Ticks.{
  delete_all, delete_found, Progress, progress_all, progress, on_tick,
}
use stream_pipeline.Generator.Rides.Identifiers.{IsNumbered}
use stream_pipeline.Generator.Rides.Numbers.{Numbered, spawn-Numbered}

module _ {F : Type 0} (token : String) (c : ℕ) where
  delete_all-IsNumbered :
      (ids : List String) (active : Dict String (ActiveRide F))
      → IsNumbered token c active
      → Ensures (IsNumbered token c) (delete_all ids active)
  unfolding delete_all
  delete_all-IsNumbered [] active h = h
  delete_all-IsNumbered (id ∷ ids) active h =
      >>=-Ensures (IsNumbered token c) (delete_found (Dict.get id active) id active) _ (λ left e.
        delete_all-IsNumbered ids left (
          Ensures-ok (IsNumbered token c) (delete_found (Dict.get id active) id active) e
            (found (Dict.get id active) id active h)))
    where
      found :
          (ride : Option (ActiveRide F)) (id : String) (active : Dict String (ActiveRide F))
          → IsNumbered token c active
          → Ensures (IsNumbered token c) (delete_found ride id active)
      found none id active h = tt
      found (some ride) id active h =
          Dict.All-pop (λ e. (k : ℕ) × (k ≤ c) × (e.0 ≡ ride_id_of token k)) id active h

module _ (fl : Floats) (r : Random fl) (fleet : Fleet fl) (cfg : GeneratorConfig fl.Float) where
  open fl use {Float}

  progress_all-IsNumbered :
      (token : String) (c : ℕ) (rides : Dict String (ActiveRide Float)) (sim : Sim fl r fleet cfg)
      (now_ms : ℕ)
      → IsNumbered token c rides
      → Ensures
          (λ (p : Progress fl r fleet cfg). IsNumbered token c p.rides)
          (progress_all fl r fleet cfg rides sim now_ms)
  unfolding progress_all
  progress_all-IsNumbered token c [] sim now_ms h = tt
  progress_all-IsNumbered token c ((id, ride) ∷ rest) sim now_ms (one, h) =
      let P : Progress fl r fleet cfg → Type 0 = λ p. IsNumbered token c p.rides in
      >>=-Ensures P (fire_due fl r fleet cfg 6 ride sim now_ms) _ (λ x e.
        >>=-Ensures P (progress_all fl r fleet cfg rest x.1.1.1 now_ms) _ (λ p e'. (
          one,
          Ensures-ok P (progress_all fl r fleet cfg rest x.1.1.1 now_ms) e'
              (progress_all-IsNumbered token c rest x.1.1.1 now_ms h),
        )))

  -- The active rides are numbered by the counter.
  abbrev pub Counted : RideBook Float → Type 0
  Counted book = IsNumbered book.run_token book.counter book.active

  progress-Counted :
      (book : RideBook Float) (sim : Sim fl r fleet cfg) (now_ms : ℕ)
      → Counted book
      → Ensures
          (λ (x : List (SourceEvent Float) × RideBook Float × Sim fl r fleet cfg). Counted x.1)
          (progress fl r fleet cfg book sim now_ms)
  unfolding progress
  progress-Counted book sim now_ms h =
      let Q : List (SourceEvent Float) × RideBook Float × Sim fl r fleet cfg → Type 0 =
        λ x. Counted x.1 in
      >>=-Ensures Q (progress_all fl r fleet cfg book.active sim now_ms) _ (λ p e.
        let rides =
          Ensures-ok
            (λ (p : Progress fl r fleet cfg). IsNumbered book.run_token book.counter p.rides)
            (progress_all fl r fleet cfg book.active sim now_ms) e
            (progress_all-IsNumbered book.run_token book.counter book.active sim now_ms h) in
        >>=-Ensures Q (delete_all p.done p.rides) _ (λ active e'.
          Ensures-ok (IsNumbered book.run_token book.counter) (delete_all p.done p.rides) e'
            (delete_all-IsNumbered book.run_token book.counter p.done p.rides rides)))

  -- A tick leaves the active rides numbered by the counter, if it found them so.
  pub on_tick-Counted :
      (book : RideBook Float) (sim : Sim fl r fleet cfg) (now_ms : ℕ)
      → Counted book
      → Ensures
          (λ (x : List (SourceEvent Float) × RideBook Float × Sim fl r fleet cfg). Counted x.1)
          (on_tick fl r fleet cfg book sim now_ms)
  unfolding on_tick progress due_payments
  on_tick-Counted book sim now_ms h =
      let Q : List (SourceEvent Float) × RideBook Float × Sim fl r fleet cfg → Type 0 =
        λ x. Counted x.1 in
      >>=-Ensures Q (fleet.on_tick now_ms sim.fleet) _ (λ pings e.
        let sim' = record sim { fleet = pings.1 } in
        >>=-Ensures Q (spawn fl r fleet cfg book sim' now_ms) _ (λ made e'.
          let (keys, counter, token, numbered) =
            Ensures-ok (Numbered fl r fleet cfg book) (spawn fl r fleet cfg book sim' now_ms) e'
              (spawn-Numbered fl r fleet cfg book sim' now_ms h) in
          let counted : Counted made.1 =
            subst (λ t. IsNumbered t made.1.counter made.1.active) (sym token) numbered in
          >>=-Ensures Q (progress fl r fleet cfg made.1 made.2 now_ms) _ (λ moved e''.
            Ensures-ok Q (progress fl r fleet cfg made.1 made.2 now_ms) e''
              (progress-Counted made.1 made.2 now_ms counted))))
