-- ===== src/Generator/Rides/Numbers.antt =====
-- The identifiers of new rides.
use stream_pipeline.Prelude.Dict
use stream_pipeline.Prelude.Dict.{Dict, IsDict, Fresh}
use stream_pipeline.Prelude.{
  ℕ, zero, suc, ◌+◌, ◌^◌, ◌≤◌, ◌<◌, ◌≡◌, ◌≢◌, refl, sym, ap, subst, ◌∙◌, inl, inr, Bool-cases, some,
  List, ◌∷◌, map, length, All, All-map, IsNodup, Returns, Ensures, Ensures-ok, >>=-Ensures,
  text_key, arith,
}
use stream_pipeline.Common.Floats.{Floats}
use stream_pipeline.Generator.StateMachine.{requested, advance}
use stream_pipeline.Generator.Random.{Random}
use stream_pipeline.Generator.Config.{GeneratorConfig, cancel_prob}
use stream_pipeline.Generator.Events.{SourceEvent, ride_event}
use stream_pipeline.Generator.Fleet.{Fleet, Dependable}
use stream_pipeline.Generator.Rides.{ActiveRide, Sim, schedule_after_requested}
use stream_pipeline.Generator.Rides.Creation.{
  RideBook, ride_id_of, new_ride, request_event, create_ride, spawn_rounds, spawn, rate_per_tick,
}
use stream_pipeline.Generator.Rides.Identifiers.{
  ids, IsBetween, ids-IsBetween, IsBetween-new, ids-IsNodup, IsNumbered, IsNumbered-later,
  ids-Fresh,
}
use stream_pipeline.Generator.Rides.Spawning.{IsActive, AllServed, Spends, spawn-Returns}

module _ (fl : Floats) (r : Random fl) (fleet : Fleet fl) (cfg : GeneratorConfig fl.Float) where
  open fl use {Float, lt, lit, add, sub, to_int}

  schedule-ride_id :
      (ride : ActiveRide Float) (sim : Sim fl r fleet cfg)
      → (schedule_after_requested fl r fleet cfg ride sim).0.ride_id ≡ ride.ride_id
  unfolding schedule_after_requested
  schedule-ride_id ride sim =
      elim (Bool-cases (lt (r.random sim.rng).0 (cancel_prob fl cfg "requested"))) [
        | inl b ↦ rw (schedule_after_requested, b) refl
        | inr b ↦ rw (schedule_after_requested, b) refl
      ]

  -- What a spawn makes of a book: rides under the next identifiers.
  abbrev pub Numbered :
      RideBook Float → List (SourceEvent Float) × RideBook Float × Sim fl r fleet cfg → Type 0
  Numbered book (events, book', sim') =
      (map (λ e. e.key) events ≡ ids book.run_token book.counter (length events))
      × (book'.counter ≡ book.counter + length events)
      × (book'.run_token ≡ book.run_token)
      × IsNumbered book.run_token book'.counter book'.active

  abbrev OneMore : RideBook Float → SourceEvent Float × RideBook Float × Sim fl r fleet cfg → Type 0
  OneMore book (event, book', sim') =
      (event.key ≡ ride_id_of book.run_token (book.counter + 1))
      × (book'.counter ≡ book.counter + 1)
      × (book'.run_token ≡ book.run_token)
      × IsNumbered book.run_token (book.counter + 1) book'.active

  create_ride-OneMore :
      (book : RideBook Float) (sim : Sim fl r fleet cfg) (now_ms : ℕ)
      → IsNumbered book.run_token book.counter book.active
      → Ensures (OneMore book) (create_ride fl r fleet cfg book sim now_ms)
  unfolding create_ride new_ride advance request_event ride_event
  create_ride-OneMore book sim now_ms h =
      let id = ride_id_of book.run_token (book.counter + 1) in
      let (made, rng) = new_ride fl r fleet cfg id now_ms sim.rng in
      let asked = record made { machine = record { state = some requested } } in
      let (ride, sim') = schedule_after_requested fl r fleet cfg asked (record sim { rng = rng }) in
      let same : ride.ride_id ≡ id = schedule-ride_id asked (record sim { rng = rng }) in
      (
        same,
        refl,
        refl,
        Dict.All-put (λ e. (k : ℕ) × (k ≤ book.counter + 1) × (e.0 ≡ ride_id_of book.run_token k))
            ride.ride_id ride book.active (book.counter + 1, omega arith, same)
            (IsNumbered-later book.run_token book.counter (book.counter + 1) book.active
              (omega arith) h),
      )

  spawn_rounds-Numbered :
      (fuel : ℕ) (book : RideBook Float) (sim : Sim fl r fleet cfg) (now_ms : ℕ)
      → IsNumbered book.run_token book.counter book.active
      → Ensures (Numbered book) (spawn_rounds fl r fleet cfg fuel book sim now_ms)
  unfolding spawn_rounds ids
  spawn_rounds-Numbered zero book sim now_ms h = tt
  spawn_rounds-Numbered (suc fuel) book sim now_ms h =
      let spent = record book { spawn_carry = sub book.spawn_carry (lit 10 1) } in
      elim (Bool-cases (lt book.spawn_carry (lit 10 1))) [
        | inl b ↦ rw (spawn_rounds, b) (refl, omega arith, refl, h)
        | inr b ↦
            rw (spawn_rounds, b)
              (>>=-Ensures (Numbered book) (create_ride fl r fleet cfg spent sim now_ms) _ (λ x e.
                let (key, counter, token, numbered) =
                  Ensures-ok (OneMore spent) (create_ride fl r fleet cfg spent sim now_ms) e
                    (create_ride-OneMore spent sim now_ms h) in
                let next : IsNumbered x.1.run_token x.1.counter x.1.active =
                  rw (token, counter) numbered in
                >>=-Ensures (Numbered book) (spawn_rounds fl r fleet cfg fuel x.1 x.2 now_ms) _
                  (λ y e'.
                    let (keys, counter', token', numbered') =
                      Ensures-ok (Numbered x.1) (spawn_rounds fl r fleet cfg fuel x.1 x.2 now_ms) e'
                        (spawn_rounds-Numbered fuel x.1 x.2 now_ms next) in
                    (
                      ap (λ k. k ∷ map (λ e. e.key) y.0) key
                          ∙ ap (λ l. ride_id_of book.run_token (book.counter + 1) ∷ l)
                              (keys
                                ∙ (ap (λ t. ids t x.1.counter (length y.0)) token
                                    ∙ ap (λ c. ids book.run_token c (length y.0)) counter)),
                      omega (arith, counter, counter'),
                      token' ∙ token,
                      subst (λ t. IsNumbered t y.1.counter y.1.active) token numbered',
                    ))))
      ]

  pub spawn-Numbered :
      (book : RideBook Float) (sim : Sim fl r fleet cfg) (now_ms : ℕ)
      → IsNumbered book.run_token book.counter book.active
      → Ensures (Numbered book) (spawn fl r fleet cfg book sim now_ms)
  unfolding spawn
  spawn-Numbered book sim now_ms h =
      let carry = add book.spawn_carry (rate_per_tick fl r fleet cfg now_ms) in
      spawn_rounds-Numbered (suc (to_int carry)) (record book { spawn_carry = carry }) sim now_ms h

  -- The rides that a spawn makes are new: no two of its requests have the same key, none has that
  -- of an active ride, and none that of any ride numbered so far; the keys are those of the numbers
  -- that the counter goes through; and the active rides are numbered again, from the same token.
  abbrev pub IsNew :
      RideBook Float → List (SourceEvent Float) × RideBook Float × Sim fl r fleet cfg → Type 0
  IsNew book (events, book', sim') =
      IsNodup (map (λ e. e.key) events)
      × All (λ id. Fresh id book.active) (map (λ e. e.key) events)
      × All (λ id. (k : ℕ) → k ≤ book.counter → id ≢ ride_id_of book.run_token k)
          (map (λ e. e.key) events)
      × All (IsBetween book.run_token book.counter book'.counter) (map (λ e. e.key) events)
      × (book'.run_token ≡ book.run_token)
      × (book'.counter ≡ book.counter + length events)
      × IsNumbered book'.run_token book'.counter book'.active

  -- From active rides numbered by the counter, a spawn returns, and the requests it makes have keys
  -- that differ from each other, from those of all active rides, and from the identifiers of all
  -- numbers up to the counter before it; each key is the identifier of a number after that counter
  -- and up to the new one; and the rides that are active then are numbered by the new counter. The
  -- assumptions are those under which a spawn returns.
  pub spawn-IsNew :
      (d : Dependable fl fleet) (book : RideBook Float) (sim : Sim fl r fleet cfg) (now_ms : ℕ)
      → Spends fl r fleet cfg d
      → AllServed fl r fleet cfg d
      → to_int (add book.spawn_carry (rate_per_tick fl r fleet cfg now_ms)) < 2 ^ 53
      → IsDict book.active
      → All (IsActive fl r fleet cfg d sim.fleet) book.active
      → IsNumbered book.run_token book.counter book.active
      → Returns (IsNew book) (spawn fl r fleet cfg book sim now_ms)
  spawn-IsNew d book sim now_ms spends served small unique active h =
      let (x, e, done) =
        spawn-Returns fl r fleet cfg d book sim now_ms spends served small unique active in
      let (keys, counter, token, numbered) =
        Ensures-ok (Numbered book) (spawn fl r fleet cfg book sim now_ms) e
          (spawn-Numbered book sim now_ms h) in
      (
        x,
        e,
        (
          subst IsNodup (sym keys) (ids-IsNodup book.run_token book.counter (length x.0)),
          subst (All (λ id. Fresh id book.active)) (sym keys)
              (ids-Fresh book.run_token book.counter (length x.0) book.active h),
          All-map (map (λ e. e.key) x.0) (IsBetween-new book.run_token book.counter x.1.counter)
              (between x keys counter),
          between x keys counter,
          token,
          counter,
          subst (λ t. IsNumbered t x.1.counter x.1.active) (sym token) numbered,
        ),
      )
    where
      between :
          (x : List (SourceEvent Float) × RideBook Float × Sim fl r fleet cfg)
          → map (λ e. e.key) x.0 ≡ ids book.run_token book.counter (length x.0)
          → x.1.counter ≡ book.counter + length x.0
          → All (IsBetween book.run_token book.counter x.1.counter) (map (λ e. e.key) x.0)
      between x keys counter =
          subst (All (IsBetween book.run_token book.counter x.1.counter)) (sym keys) (
            ids-IsBetween book.run_token book.counter (length x.0) x.1.counter
              (omega (arith, counter)))
