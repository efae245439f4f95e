-- ===== src/Generator/Simulate/Release.antt =====
-- An event that was held back is sent when its time comes.
use stream_pipeline.Prelude.{
  ℕ, ◌≡◌, ◌<◌, ◌≤◌, Bool, true, false, ◌&&◌, ltb, Bool-cases, inl, inr, List, [], ◌∷◌, In,
  In-append_left, In-append_right, ok, Returns, arith, str_eq,
}
use stream_pipeline.Common.Floats.{Floats}
use stream_pipeline.Common.Topics.{rides_events, payments_transactions}
use stream_pipeline.Generator.Random.{Random}
use stream_pipeline.Generator.Config.{GeneratorConfig}
use stream_pipeline.Generator.Events.{SourceEvent}
use stream_pipeline.Generator.Fleet.{Fleet}
use stream_pipeline.Generator.Imperfections.{
  Imperfector, altered, to_dup, to_ooo, to_late, bucket, process, release_due,
}
use stream_pipeline.Generator.Imperfections.Fates.{release_due-pending}
use stream_pipeline.Generator.Rides.{Sim}
use stream_pipeline.Generator.Rides.Creation.{RideBook}
use stream_pipeline.Generator.Simulate.{
  SimClock, Yielded, flat, process_all, imperfect, raw_ticks, simulate_ticks,
}
use stream_pipeline.Generator.Simulate.Pipeline.{piped, simulate_ticks-piped}
use stream_pipeline.Generator.Simulate.Conservation.{maybe_corrupt_only-Quiet, altered-Quiet}

module _ (fl : Floats) (r : Random fl) (fleet : Fleet fl) (cfg : GeneratorConfig fl.Float) where
  open fl use {Float, lt}

  -- What was held still is.
  abbrev Keeps : Imperfector Float r.State → Imperfector Float r.State → Type 0
  Keeps m m' = (x : ℕ × SourceEvent Float) → In x m.held → In x m'.held

  bucket-Keeps :
      (m : Imperfector Float r.State) (event : SourceEvent Float) (now : ℕ) (roll : Float)
      → Keeps m (bucket fl r cfg m event now roll).1
  unfolding bucket
  bucket-Keeps m event now roll x i = elim (Bool-cases (lt roll cfg.malformed_rate)) [
    | inl a ↦ rw (bucket, a) i
    | inr a ↦ elim (Bool-cases (lt roll (to_dup fl r cfg))) [
      | inl b ↦ rw (bucket, a, b) (In-append_left x m.held _ i)
      | inr b ↦ elim (Bool-cases (lt roll (to_ooo fl r cfg))) [
        | inl c ↦ rw (bucket, a, b, c) (In-append_left x m.held _ i)
        | inr c ↦ elim (Bool-cases (lt roll (to_late fl r cfg))) [
          | inl d ↦ rw (bucket, a, b, c, d) (In-append_left x m.held _ i)
          | inr d ↦ rw (bucket, a, b, c, d) i
        ]
      ]
    ]
  ]

  process-Keeps :
      (m : Imperfector Float r.State) (event : SourceEvent Float) (now : ℕ)
      → Keeps m (process fl r cfg m event now).1
  unfolding process
  process-Keeps m event now x i =
      let (e, m') = altered fl r cfg m event in
      let (roll, rng) = r.random m'.rng in
      elim (Bool-cases (str_eq event.topic payments_transactions)) [
        | inl a ↦ rw (process, a, (maybe_corrupt_only-Quiet fl r fleet cfg m event).0) i
        | inr a ↦ elim (Bool-cases (str_eq event.topic rides_events)) [
          | inl b ↦
              rw (process, a, b)
                (bucket-Keeps (record m' { rng = rng }) e now roll x
                  (rw (altered-Quiet fl r fleet cfg m event).0 i))
          | inr b ↦ rw (process, a, b) i
        ]
      ]

  process_all-Keeps :
      (events : List (SourceEvent Float)) (m : Imperfector Float r.State) (now : ℕ)
      → Keeps m (process_all fl r fleet cfg events m now).1
  unfolding process_all
  process_all-Keeps [] m now x i = i
  process_all-Keeps (event ∷ events) m now x i =
      process_all-Keeps events (process fl r cfg m event now).1 now x
        (process-Keeps m event now x i)

  -- Once its time has come a held event is sent,
  imperfect-sends :
      (at_ms : ℕ) (event : SourceEvent Float) (events : List (SourceEvent Float))
      (m : Imperfector Float r.State) (now : ℕ)
      → In (at_ms, event) m.held
      → at_ms ≤ now
      → In event (imperfect fl r fleet cfg events m now).0
  unfolding imperfect release_due
  imperfect-sends at_ms event events m now i due =
      let (sent, m') = release_due m now in
      In-append_left event sent (process_all fl r fleet cfg events m' now).0
        (((release_due-pending now m).1 at_ms event i).0 due)

  -- and until then it is held.
  imperfect-keeps :
      (at_ms : ℕ) (event : SourceEvent Float) (events : List (SourceEvent Float))
      (m : Imperfector Float r.State) (now : ℕ)
      → In (at_ms, event) m.held
      → now < at_ms
      → In (at_ms, event) (imperfect fl r fleet cfg events m now).1.held
  unfolding imperfect release_due
  imperfect-keeps at_ms event events m now i later =
      process_all-Keeps events (release_due m now).1 now (at_ms, event)
        (((release_due-pending now m).1 at_ms event i).1 later)

  -- no tick of the run has reached `at_ms`
  abbrev pub all_before : ℕ → List (ℕ × List (SourceEvent Float)) → Bool
  all_before at_ms [] = true
  all_before at_ms ((now, events) ∷ ticks) = ltb now at_ms && all_before at_ms ticks

  -- What has become of an event that was held until `at_ms`: it is held at the end of a run that
  -- has not reached that time, and is yielded by one that has.
  abbrev pub IsAwaited : ℕ → SourceEvent Float → Bool → Yielded fl r fleet cfg → Type 0
  IsAwaited at_ms event true (batches, m') = In (at_ms, event) m'.held
  IsAwaited at_ms event false (batches, m') = In event (flat fl r fleet cfg batches)

  later-IsAwaited :
      (at_ms : ℕ) (event : SourceEvent Float) (before : Bool) (now : ℕ)
      (batch : List (SourceEvent Float)) (batches : List (ℕ × List (SourceEvent Float)))
      (m : Imperfector Float r.State)
      → IsAwaited at_ms event before (batches, m)
      → IsAwaited at_ms event before ((now, batch) ∷ batches, m)
  later-IsAwaited at_ms event true now batch batches m h = h
  later-IsAwaited at_ms event false now batch batches m h =
      In-append_right event batch (flat fl r fleet cfg batches) h

  piped-IsAwaited :
      (at_ms : ℕ) (event : SourceEvent Float) (ticks : List (ℕ × List (SourceEvent Float)))
      (m : Imperfector Float r.State)
      → In (at_ms, event) m.held
      → IsAwaited at_ms event (all_before at_ms ticks) (piped fl r fleet cfg ticks m)
  unfolding piped
  piped-IsAwaited at_ms event [] m i = i
  piped-IsAwaited at_ms event ((now, events) ∷ ticks) m i =
      let (batch, m') = imperfect fl r fleet cfg events m now in
      let (batches, m'') = piped fl r fleet cfg ticks m' in
      elim (Bool-cases (ltb now at_ms)) [
        | inl b ↦ rw b (
            later-IsAwaited at_ms event (all_before at_ms ticks) now batch batches m'' (
              piped-IsAwaited at_ms event ticks m'
                (imperfect-keeps at_ms event events m now i (ground (arith, b)))))
        | inr b ↦ rw b (
            In-append_left event batch (flat fl r fleet cfg batches)
              (imperfect-sends at_ms event events m now i (ground (arith, b))))
      ]

  -- An event that is held until `at_ms` when a run starts is sent when that time comes: if the
  -- simulator's own ticks return, so does the run; if all its ticks are before `at_ms`, the event
  -- is still held at its end, and otherwise the run yields it.
  pub simulate_ticks-IsAwaited :
      (n : ℕ) (clock : SimClock) (book : RideBook Float) (sim : Sim fl r fleet cfg)
      (m : Imperfector Float r.State) (ticks : List (ℕ × List (SourceEvent Float))) (at_ms : ℕ)
      (event : SourceEvent Float)
      → raw_ticks fl r fleet cfg n clock book sim ≡ ok ticks
      → In (at_ms, event) m.held
      → Returns
          (IsAwaited at_ms event (all_before at_ms ticks))
          (simulate_ticks fl r fleet cfg n clock book sim m)
  simulate_ticks-IsAwaited n clock book sim m ticks at_ms event raw i = (
    _,
    simulate_ticks-piped fl r fleet cfg n clock book sim m ticks raw,
    piped-IsAwaited at_ms event ticks m i,
  )
