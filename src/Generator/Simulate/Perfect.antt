-- ===== src/Generator/Simulate/Perfect.antt =====
-- A run without imperfections is the simulator's own run.
use stream_pipeline.Prelude.{
  ℕ, ◌≡◌, refl, ap, ◌∙◌, false, Bool-cases, inl, inr, List, [], ◌∷◌, select, Result, ok, raise,
  ◌>>=◌, str_eq,
}
use stream_pipeline.Common.Floats.{Floats}
use stream_pipeline.Common.Topics.{rides_events, payments_transactions}
use stream_pipeline.Generator.Random.{Random}
use stream_pipeline.Generator.Config.{GeneratorConfig, perfect}
use stream_pipeline.Generator.Events.{SourceEvent}
use stream_pipeline.Generator.Fleet.{Fleet}
use stream_pipeline.Generator.Imperfections.{
  Imperfector, is_requested, maybe_null_fields, maybe_bad_data, maybe_corrupt_only, altered, to_dup,
  to_ooo, to_late, bucket, process, release_due,
}
use stream_pipeline.Generator.Rides.{Sim}
use stream_pipeline.Generator.Rides.Creation.{RideBook}
use stream_pipeline.Generator.Simulate.{SimClock, process_all, imperfect, raw_ticks, simulate_ticks}
use stream_pipeline.Generator.Simulate.Pipeline.{piped, simulate_ticks-raw_ticks}

module _ (fl : Floats) (r : Random fl) (fleet : Fleet fl) (given : GeneratorConfig fl.Float)
    (never : (s : r.State) → fl.lt (r.random s).0 (fl.of_int 0) ≡ false)
    (zeros : fl.add (fl.of_int 0) (fl.of_int 0) ≡ fl.of_int 0) where
  open fl use {Float, lt, of_int, add}

  abbrev cfg : GeneratorConfig Float
  cfg = perfect fl given

  -- The event alone is sent, and nothing is held.
  abbrev Untouched :
      Imperfector Float r.State
      → List (SourceEvent Float)
      → List (SourceEvent Float) × Imperfector Float r.State
      → Type 0
  Untouched m events (out, m') = (out ≡ events) × (m'.held ≡ m.held)

  altered-perfect :
      (m : Imperfector Float r.State) (event : SourceEvent Float)
      → let (e, m') = altered fl r cfg m event in (e ≡ event) × (m'.held ≡ m.held)
  unfolding altered maybe_null_fields maybe_bad_data perfect
  altered-perfect m event = elim (Bool-cases (is_requested fl r cfg event.value)) [
    | inl a ↦ rw (altered, maybe_null_fields, a, never m.rng, never) (refl, refl)
    | inr a ↦ rw (altered, maybe_null_fields, a, never) (refl, refl)
  ]

  bucket-perfect :
      (m : Imperfector Float r.State) (event : SourceEvent Float) (now : ℕ) (roll : Float)
      → lt roll (of_int 0) ≡ false
      → Untouched m (event ∷ []) (bucket fl r cfg m event now roll)
  unfolding bucket perfect
  bucket-perfect m event now roll least =
      let two : add (add (of_int 0) (of_int 0)) (of_int 0) ≡ of_int 0 =
        ap (λ x. add x (of_int 0)) zeros ∙ zeros in
      let three : add (add (add (of_int 0) (of_int 0)) (of_int 0)) (of_int 0) ≡ of_int 0 =
        ap (λ x. add x (of_int 0)) two ∙ zeros in
      let in_dup : lt roll (to_dup fl r cfg) ≡ false = ap (lt roll) zeros ∙ least in
      let in_ooo : lt roll (to_ooo fl r cfg) ≡ false = ap (lt roll) two ∙ least in
      let in_late : lt roll (to_late fl r cfg) ≡ false = ap (lt roll) three ∙ least in
      rw (bucket, least, in_dup, in_ooo, in_late) (refl, refl)

  process-Untouched :
      (m : Imperfector Float r.State) (event : SourceEvent Float) (now : ℕ)
      → Untouched m (event ∷ []) (process fl r cfg m event now)
  unfolding process maybe_corrupt_only perfect
  process-Untouched m event now =
      let (e, m') = altered fl r cfg m event in
      let (roll, rng) = r.random m'.rng in
      let (same, kept) = altered-perfect m event in
      let (alone, none_held) = bucket-perfect (record m' { rng = rng }) e now roll (never m'.rng) in
      elim (Bool-cases (str_eq event.topic payments_transactions)) [
        | inl a ↦ rw (process, a, maybe_corrupt_only, never m.rng) (refl, refl)
        | inr a ↦ elim (Bool-cases (str_eq event.topic rides_events)) [
          | inl b ↦ rw (process, a, b) (alone ∙ ap (λ x. x ∷ []) same, none_held ∙ kept)
          | inr b ↦ rw (process, a, b) (refl, refl)
        ]
      ]

  process_all-Untouched :
      (events : List (SourceEvent Float)) (m : Imperfector Float r.State) (now : ℕ)
      → Untouched m events (process_all fl r fleet cfg events m now)
  unfolding process_all
  process_all-Untouched [] m now = (refl, refl)
  process_all-Untouched (event ∷ events) m now =
      let (first, kept) = process-Untouched m event now in
      let (others, kept') = process_all-Untouched events (process fl r cfg m event now).1 now in
      (rw (process_all, first, others) refl, kept' ∙ kept)

  piped-perfect :
      (ticks : List (ℕ × List (SourceEvent Float))) (m : Imperfector Float r.State)
      → m.held ≡ []
      → (piped fl r fleet cfg ticks m).0 ≡ ticks
  unfolding piped imperfect release_due select
  piped-perfect [] m empty = refl
  piped-perfect ((now, events) ∷ ticks) m empty =
      let (due, m') = release_due m now in
      let due_none : due ≡ [] = rw (release_due, empty) refl in
      let held_none : m'.held ≡ [] = rw (release_due, empty) refl in
      let (all, kept) = process_all-Untouched events m' now in
      let later =
        piped-perfect ticks (process_all fl r fleet cfg events m' now).1 (kept ∙ held_none) in
      rw (piped, imperfect, due_none, all, later) refl

  -- With the configuration of `perfect` and nothing held, the batches of a run are exactly the
  -- simulator's own: no event is dropped, repeated, delayed or changed, whatever the draws. Of the
  -- floats it is assumed that a draw is not below 0 and that 0 + 0 is 0.
  pub simulate_ticks-perfect :
      (n : ℕ) (clock : SimClock) (book : RideBook Float) (sim : Sim fl r fleet cfg)
      (m : Imperfector Float r.State)
      → m.held ≡ []
      → (simulate_ticks fl r fleet cfg n clock book sim m >>= λ x. ok x.0)
        ≡ raw_ticks fl r fleet cfg n clock book sim
  simulate_ticks-perfect n clock book sim m empty =
      ap (λ run. run >>= λ x. ok x.0) (simulate_ticks-raw_ticks fl r fleet cfg n clock book sim m)
      ∙ by_ticks (raw_ticks fl r fleet cfg n clock book sim)
    where
      by_ticks :
          (ticks : Result (List (ℕ × List (SourceEvent Float))))
          → (ticks >>= (λ t. ok (piped fl r fleet cfg t m)) >>= λ x. ok x.0) ≡ ticks
      by_ticks (raise e) = refl
      by_ticks (ok t) = ap ok (piped-perfect t m empty)
