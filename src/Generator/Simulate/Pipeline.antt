-- ===== src/Generator/Simulate/Pipeline.antt =====
-- A run is the simulator's own run, piped through the imperfections.
use stream_pipeline.Prelude.{
  ℕ, zero, suc, ◌≡◌, refl, sym, ap, ◌∙◌, >>=-ap, >>=->>=, List, [], ◌∷◌, Result, ok, raise, ◌>>=◌,
}
use stream_pipeline.Common.Floats.{Floats}
use stream_pipeline.Generator.Random.{Random}
use stream_pipeline.Generator.Config.{GeneratorConfig}
use stream_pipeline.Generator.Events.{SourceEvent}
use stream_pipeline.Generator.Fleet.{Fleet}
use stream_pipeline.Generator.Imperfections.{Imperfector}
use stream_pipeline.Generator.Rides.{Sim}
use stream_pipeline.Generator.Rides.Creation.{RideBook}
use stream_pipeline.Generator.Rides.Ticks.{on_tick}
use stream_pipeline.Generator.Simulate.{
  SimClock, Yielded, now_ms, advance, imperfect, raw_ticks, simulate_ticks,
}

module _ (fl : Floats) (r : Random fl) (fleet : Fleet fl) (cfg : GeneratorConfig fl.Float) where
  open fl use {Float}

  -- The batches of the simulator's ticks, each through the imperfections that the earlier left.
  unfoldable pub piped :
      List (ℕ × List (SourceEvent Float))
      → Imperfector Float r.State
      → List (ℕ × List (SourceEvent Float)) × Imperfector Float r.State
  unfolding imperfect
  piped [] m = ([], m)
  piped ((now, events) ∷ ticks) m =
      let (batch, m') = imperfect fl r fleet cfg events m now in
      let (batches, m'') = piped ticks m' in ((now, batch) ∷ batches, m'')

  one_more :
      (now : ℕ) (events : List (SourceEvent Float)) (m : Imperfector Float r.State)
      (rest : Result (List (ℕ × List (SourceEvent Float))))
      → let (batch, m') = imperfect fl r fleet cfg events m now in
        (rest >>= (λ ticks. ok (piped ticks m')) >>= λ y. ok ((now, batch) ∷ y.0, y.1))
        ≡ (rest >>= (λ ticks. ok ((now, events) ∷ ticks)) >>= λ ticks. ok (piped ticks m))
  unfolding piped
  one_more now events m (ok ticks) = refl
  one_more now events m (raise error) = refl

  -- The imperfections have no effect on the simulator.
  pub simulate_ticks-raw_ticks :
      (n : ℕ) (clock : SimClock) (book : RideBook Float) (sim : Sim fl r fleet cfg)
      (m : Imperfector Float r.State)
      → simulate_ticks fl r fleet cfg n clock book sim m
        ≡ (raw_ticks fl r fleet cfg n clock book sim >>= λ ticks. ok (piped ticks m))
  unfolding simulate_ticks raw_ticks piped
  simulate_ticks-raw_ticks zero clock book sim m = refl
  simulate_ticks-raw_ticks (suc n) clock book sim m =
      let now = now_ms clock in
      let through = λ (events : List (SourceEvent Float)). imperfect fl r fleet cfg events m now in
      >>=-ap (on_tick fl r fleet cfg book sim now) _ _ (λ x.
        ap
          (λ (run : Result (Yielded fl r fleet cfg)).
            run >>= λ y. ok ((now, (through x.0).0) ∷ y.0, y.1))
          (simulate_ticks-raw_ticks n (advance clock) x.1 x.2 (through x.0).1)
        ∙ one_more now x.0 m (raw_ticks fl r fleet cfg n (advance clock) x.1 x.2))
      ∙ sym (>>=->>= (on_tick fl r fleet cfg book sim now) _ _)

  pub simulate_ticks-piped :
      (n : ℕ) (clock : SimClock) (book : RideBook Float) (sim : Sim fl r fleet cfg)
      (m : Imperfector Float r.State) (ticks : List (ℕ × List (SourceEvent Float)))
      → raw_ticks fl r fleet cfg n clock book sim ≡ ok ticks
      → simulate_ticks fl r fleet cfg n clock book sim m ≡ ok (piped ticks m)
  simulate_ticks-piped n clock book sim m ticks raw =
      simulate_ticks-raw_ticks n clock book sim m
      ∙ ap (λ run. run >>= λ ticks. ok (piped ticks m)) raw
