-- ===== src/Generator/Simulate/Conservation.antt =====
-- No event of a run is lost, and only duplicates are more.
use stream_pipeline.Prelude.{
  ℕ, ◌+◌, ◌≡◌, refl, ap, Bool-cases, inl, inr, List, [], ◌∷◌, length, length-append, ok, Returns,
  arith, str_eq,
}
use stream_pipeline.Common.Floats.{Floats}
use stream_pipeline.Common.Topics.{rides_events, payments_transactions}
use stream_pipeline.Generator.Random.{Random}
use stream_pipeline.Generator.Config.{GeneratorConfig}
use stream_pipeline.Generator.Events.{SourceEvent}
use stream_pipeline.Generator.Fleet.{Fleet}
use stream_pipeline.Generator.Imperfections.{
  Imperfector, maybe_null_fields, maybe_bad_data, maybe_corrupt_only, altered, to_dup, to_ooo,
  to_late, bucket, process, release_due, pending,
}
use stream_pipeline.Generator.Imperfections.Fates.{release_due-pending}
use stream_pipeline.Generator.Rides.{Sim}
use stream_pipeline.Generator.Rides.Creation.{RideBook}
use stream_pipeline.Generator.Simulate.{
  SimClock, Yielded, flat, process_all, imperfect, raw_ticks, simulate_ticks,
}
use stream_pipeline.Generator.Simulate.Pipeline.{piped, simulate_ticks-piped}

module _ {F S : Type 0} where
  -- The books balance: what is sent and held is what was held and came in, and the duplicates.
  abbrev pub Balanced : Imperfector F S → ℕ → List (SourceEvent F) × Imperfector F S → Type 0
  Balanced m came (out, m') =
      length out + (pending m' + m.stats.duplicate) ≡ came + (pending m + m'.stats.duplicate)

module _ (fl : Floats) (r : Random fl) (fleet : Fleet fl) (cfg : GeneratorConfig fl.Float) where
  open fl use {Float, lt}

  bucket-Balanced :
      (m : Imperfector Float r.State) (event : SourceEvent Float) (now : ℕ) (roll : Float)
      → Balanced m 1 (bucket fl r cfg m event now roll)
  unfolding bucket pending
  bucket-Balanced m event now roll = elim (Bool-cases (lt roll cfg.malformed_rate)) [
    | inl a ↦ rw (bucket, a) (omega arith)
    | inr a ↦ elim (Bool-cases (lt roll (to_dup fl r cfg))) [
      | inl b ↦ rw (bucket, a, b, length-append) (omega arith)
      | inr b ↦ elim (Bool-cases (lt roll (to_ooo fl r cfg))) [
        | inl c ↦ rw (bucket, a, b, c, length-append) (omega arith)
        | inr c ↦ elim (Bool-cases (lt roll (to_late fl r cfg))) [
          | inl d ↦ rw (bucket, a, b, c, d, length-append) (omega arith)
          | inr d ↦ rw (bucket, a, b, c, d) (omega arith)
        ]
      ]
    ]
  ]

  -- The changes of a value, and those of a payment, neither hold an event nor count a duplicate.
  abbrev pub Quiet : Imperfector Float r.State → Imperfector Float r.State → Type 0
  Quiet m m' = (m'.held ≡ m.held) × (m'.stats.duplicate ≡ m.stats.duplicate)

  maybe_null_fields-Quiet :
      (m : Imperfector Float r.State) (event : SourceEvent Float)
      → Quiet m (maybe_null_fields fl r cfg m event).1
  unfolding maybe_null_fields
  maybe_null_fields-Quiet m event = ground (arith)

  pub altered-Quiet :
      (m : Imperfector Float r.State) (event : SourceEvent Float)
      → Quiet m (altered fl r cfg m event).1
  unfolding altered maybe_bad_data
  altered-Quiet m event = ground (arith, maybe_null_fields-Quiet m event)

  pub maybe_corrupt_only-Quiet :
      (m : Imperfector Float r.State) (event : SourceEvent Float)
      → Quiet m (maybe_corrupt_only fl r cfg m event).1
  unfolding maybe_corrupt_only
  maybe_corrupt_only-Quiet m event = ground (arith)

  process-Balanced :
      (m : Imperfector Float r.State) (event : SourceEvent Float) (now : ℕ)
      → Balanced m 1 (process fl r cfg m event now)
  unfolding process pending
  process-Balanced m event now =
      let (paid, quiet) = maybe_corrupt_only fl r cfg m event in
      let (kept, same) = maybe_corrupt_only-Quiet m event in
      let (e, m') = altered fl r cfg m event in
      let (kept', same') = altered-Quiet m event in
      let (roll, rng) = r.random m'.rng in
      let balanced = bucket-Balanced (record m' { rng = rng }) e now roll in
      elim (Bool-cases (str_eq event.topic payments_transactions)) [
        | inl a ↦ rw (process, a, kept, same) refl
        | inr a ↦ elim (Bool-cases (str_eq event.topic rides_events)) [
          | inl b ↦ rw (process, a, b) (omega (arith, balanced, ap length kept', same'))
          | inr b ↦ rw (process, a, b) refl
        ]
      ]

  process_all-Balanced :
      (events : List (SourceEvent Float)) (m : Imperfector Float r.State) (now : ℕ)
      → Balanced m (length events) (process_all fl r fleet cfg events m now)
  unfolding process_all
  process_all-Balanced [] m now = omega arith
  process_all-Balanced (event ∷ events) m now =
      let (out, m') = process fl r cfg m event now in
      let (rest, m'') = process_all fl r fleet cfg events m' now in
      omega (
        arith,
        length-append out rest,
        process-Balanced m event now,
        process_all-Balanced events m' now,
      )

  imperfect-Balanced :
      (events : List (SourceEvent Float)) (m : Imperfector Float r.State) (now : ℕ)
      → Balanced m (length events) (imperfect fl r fleet cfg events m now)
  unfolding imperfect release_due
  imperfect-Balanced events m now =
      let (due, m') = release_due m now in
      let (rest, m'') = process_all fl r fleet cfg events m' now in
      omega (
        arith,
        length-append due rest,
        (release_due-pending now m).0,
        process_all-Balanced events m' now,
      )

  pub piped-Balanced :
      (ticks : List (ℕ × List (SourceEvent Float))) (m : Imperfector Float r.State)
      → let (batches, m') = piped fl r fleet cfg ticks m in
        Balanced m (length (flat fl r fleet cfg ticks)) (flat fl r fleet cfg batches, m')
  unfolding piped
  piped-Balanced [] m = omega arith
  piped-Balanced ((now, events) ∷ ticks) m =
      let (batch, m') = imperfect fl r fleet cfg events m now in
      let (batches, m'') = piped fl r fleet cfg ticks m' in
      omega (
        arith,
        length-append batch (flat fl r fleet cfg batches),
        length-append events (flat fl r fleet cfg ticks),
        imperfect-Balanced events m now,
        piped-Balanced ticks m',
      )

  -- If the simulator's own ticks return, so does the run with imperfections, and no event of the
  -- run is lost: what the run has yielded and what is still held at its end are together what was
  -- held at its start, what the simulator made, and one more for each duplicate counted.
  pub simulate_ticks-Balanced :
      (n : ℕ) (clock : SimClock) (book : RideBook Float) (sim : Sim fl r fleet cfg)
      (m : Imperfector Float r.State) (ticks : List (ℕ × List (SourceEvent Float)))
      → raw_ticks fl r fleet cfg n clock book sim ≡ ok ticks
      → Returns
          (λ (x : Yielded fl r fleet cfg).
            Balanced m (length (flat fl r fleet cfg ticks)) (flat fl r fleet cfg x.0, x.1))
          (simulate_ticks fl r fleet cfg n clock book sim m)
  simulate_ticks-Balanced n clock book sim m ticks raw =
      (_, simulate_ticks-piped fl r fleet cfg n clock book sim m ticks raw, piped-Balanced ticks m)
