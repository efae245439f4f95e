-- ===== src/Processors/Sessionizer/Unknown.antt =====
-- An event of unknown type raises out of the loop of `process_batch`.
use stream_pipeline.Prelude.Dict
use stream_pipeline.Prelude.{
  ℕ, ◌≡◌, refl, ap, inl, inr, false, List, [], ◌∷◌, Result, ok, raise, Error, text_key,
  Option-cases, Ensures, In, ◌>>=◌, ◌∙◌, nat_key,
}
use stream_pipeline.Common.Events.{RideEvent}
use stream_pipeline.Common.Times.{Timestamp}
use stream_pipeline.Dlq.Envelope.{Message}
use stream_pipeline.Generator.StateMachine.{ride_event_type}
use stream_pipeline.Processors.SessionBuilder.{add}
use stream_pipeline.Processors.StateStore.{is_closed}
use stream_pipeline.Processors.Sessionizer.State.{Sessionizer}
use stream_pipeline.Processors.Sessionizer.Batch.{
  Batch, Setting, Polled, message, value, take, take_all, take_value, accumulate, normalise,
}
use stream_pipeline.Processors.Sessionizer.Contents.{take-store}

module _ {F : Type 0} where
  add-unknown :
      (s : Sessionizer F) (partition : ℕ) (v : RideEvent F ℕ) {e : Error}
      → ride_event_type v.event_type ≡ raise e
      → accumulate s partition v ≡ raise e
  unfolding accumulate add
  add-unknown s partition v h = elim (Option-cases (Dict.get v.ride_id s.accs)) [
    | inl n ↦ rw (accumulate, add, n, h) refl
    | inr (old, n) ↦ rw (accumulate, add, n, h) refl
  ]

  pub take_all-unknown :
      (c : Setting F) (m : Message) (v : RideEvent F Timestamp) (e : Error) (s : Sessionizer F)
      (b : Batch F) (ps : List Polled)
      → c.decode m ≡ value v
      → ride_event_type v.event_type ≡ raise e
      → is_closed s.store v.ride_id ≡ false
      → In (message m) ps
      → (e' : Error) × (take_all c s b ps ≡ raise e')
  unfolding take_all take take_value normalise
  take_all-unknown c m v e s b [] decoded unknown still_open i = elim i [ ]
  take_all-unknown c m v e s b (p ∷ ps) decoded unknown still_open (inl here) =
      let raises : take c s b (message m) ≡ raise e =
        rw (take, decoded, take_value, still_open, add-unknown _ m.partition (normalise v) unknown)
          refl in
      (e, rw (here, raises) refl)
  take_all-unknown c m v e s b (p ∷ ps) decoded unknown still_open (inr i) =
      by_result (take c s b p) (take-store c s b p)
        (λ s' b' open'. take_all-unknown c m v e s' b' ps decoded unknown open' i)
    where
      by_result :
          (r : Result (Sessionizer F × Batch F))
          → Ensures (λ (x : Sessionizer F × Batch F). x.0.store ≡ s.store) r
          → ((s' : Sessionizer F) (b' : Batch F)
              → is_closed s'.store v.ride_id ≡ false
              → (e' : Error) × (take_all c s' b' ps ≡ raise e'))
          → (e' : Error) × ((r >>= λ x. take_all c x.0 x.1 ps) ≡ raise e')
      by_result (raise e') h later = (e', refl)
      by_result (ok (s', b')) same later =
          later s' b' (ap (λ x. is_closed x v.ride_id) same ∙ still_open)
