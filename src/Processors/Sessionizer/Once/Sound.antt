-- ===== src/Processors/Sessionizer/Once/Sound.antt =====
-- What holds of the two stores at any moment, and what `gather` finds over them.
use stream_pipeline.Prelude.Dict
use stream_pipeline.Prelude.Dict.{Dict, IsDict, All_at, Fresh-of_get}
use stream_pipeline.Prelude.{
  ℕ, ◌≡◌, refl, sym, ◌∙◌, String, false, some, List, In, IsNodup, All, All-map, nat_key, text_key,
  subst, ok, >>=-eq-ok, ok-injective, Ensures-ok,
}
use stream_pipeline.Common.Floats.{Floats}
use stream_pipeline.Processors.SessionBuilder.{RideAccumulator}
use stream_pipeline.Processors.StateStore.{StateStore, CloseRow, is_closed}
use stream_pipeline.Processors.Sessionizer.State.{Sessionizer, PartitionState, Broker}
use stream_pipeline.Processors.Sessionizer.Batch.{Batch, Setting, Polled, take_all, empty_batch}
use stream_pipeline.Processors.Sessionizer.Process.{gather, collect_closes}
use stream_pipeline.Processors.Sessionizer.Once.Stores.{IsConfirmed, Outlives, IsApart}
use stream_pipeline.Processors.Sessionizer.Once.Closes.{
  IsCloseOf, collect_closes-All, collect_closes-IsApart,
}
use stream_pipeline.Processors.Sessionizer.Once.Folds.{
  IsOpen, IsOpenRide, IsDelivered, Fits, take_all-Kept,
}
use stream_pipeline.Processors.Sessionizer.Once.Steps.{published}

module _ {F : Type 0} where
  -- A confirmed close of the ride is in the store.
  abbrev pub IsCovered : StateStore F → Dict ℕ ℕ → String → Type 0
  IsCovered store committed ride_id =
      (c : CloseRow F) × In c store.closes × (c.ride_id ≡ ride_id) × IsConfirmed committed c

  -- What holds of the two stores at any moment.
  pub record IsSound (store : StateStore F) (broker : Broker F) : Type 0 where
    pub once : IsNodup (published broker.log)
    pub covered : All (IsCovered store broker.committed) (published broker.log)
    pub backed :
        (c : CloseRow F)
        → In c store.closes
        → IsConfirmed broker.committed c
        → In c.ride_id (published broker.log)

  -- And while a process runs.
  pub record IsLive (assigned : List ℕ) (s : Sessionizer F) (broker : Broker F) : Type 0 where
    pub sound : IsSound s.store broker
    pub all_open : IsOpen s.store s.accs
    pub settled :
        (c : CloseRow F)
        → In c s.store.closes
        → In c.partition assigned
        → IsConfirmed broker.committed c

  -- A store with the confirmed closes of another and no more closes is as sound.
  pub IsSound-of :
      (store store' : StateStore F) (broker : Broker F)
      → Outlives broker.committed store store'
      → ((c : CloseRow F) → In c store'.closes → In c store.closes)
      → IsSound store broker
      → IsSound store' broker
  IsSound-of store store' broker keeps fewer h = record {
    once = h.once;
    covered = All-map (published broker.log) (λ r (c, i, e, k). (c, keeps c k i, e, k)) h.covered;
    backed = λ c i k. h.backed c (fewer c i) k;
  }

-- What `gather` finds, over a store and the committed offsets.
pub record IsGathered {F : Type 0} (assigned : List ℕ) (store : StateStore F) (committed : Dict ℕ ℕ)
    (s : Sessionizer F) (b : Batch F) (closes : List (CloseRow F)) : Type 0 where
  pub same : s.store ≡ store
  pub all_open : IsOpen store s.accs
  pub distinct : IsDict b.batch_state
  pub all_fit : All (Fits (λ p. In p assigned) committed) b.batch_state
  pub apart : IsApart closes
  pub new_rides : All (λ (c : CloseRow F). is_closed store c.ride_id ≡ false) closes
  pub own_rides : All (λ (c : CloseRow F). c.session.ride_id ≡ c.ride_id) closes
  pub tagged :
      All
        (λ (c : CloseRow F).
          (state : PartitionState) × (Dict.get c.partition b.batch_state ≡ some state)
          × (state.max_offset_in_batch ≡ some c.offset))
        closes

module _ (fl : Floats) where
  open fl use {Float}

  pub gather-IsGathered :
      (assigned : List ℕ) (committed : Dict ℕ ℕ) (c : Setting Float) (s : Sessionizer Float)
      (msgs : List Polled) {s' : Sessionizer Float} {b : Batch Float}
      {closes : List (CloseRow Float)}
      → gather fl c s msgs ≡ ok (s', (b, closes))
      → All (IsDelivered (λ p. In p assigned) committed) msgs
      → IsOpen s.store s.accs
      → IsGathered assigned s.store committed s' b closes
  unfolding gather
  gather-IsGathered assigned committed c s msgs h d o =
      let (r, taken, rest) = >>=-eq-ok (take_all c s empty_batch msgs) _ h in
      let k =
        take_all-Kept (λ p. In p assigned) committed s.store c s empty_batch msgs taken d
          (record { same = refl; all_open = o; distinct = tt; all_fit = tt }) in
      let (closes', collected, done) =
        >>=-eq-ok (collect_closes fl r.0 r.1.batch_state c.session_timeout_ms r.0.accs) _ rest in
      let of_open =
        collect_closes-All fl r.0 r.1.batch_state c.session_timeout_ms (IsOpenRide s.store) in
      let every : (Q : CloseRow Float → Type 0)
          → ((e : String × RideAccumulator Float) (x : CloseRow Float)
              → IsOpenRide s.store e
              → IsCloseOf fl r.1.batch_state e x
              → Q x)
          → All Q closes' =
        λ Q f. Ensures-ok (All Q) _ collected (of_open Q f r.0.accs k.all_open.all_open) in
      subst
        (λ (x : Sessionizer Float × (Batch Float × List (CloseRow Float))).
          IsGathered assigned s.store committed x.0 x.1.0 x.1.1)
        (ok-injective done)
        (record {
          same = k.same;
          all_open = k.all_open;
          distinct = k.distinct;
          all_fit = k.all_fit;
          apart = Ensures-ok IsApart _ collected (
              collect_closes-IsApart fl r.0 r.1.batch_state c.session_timeout_ms r.0.accs
                k.all_open.distinct);
          new_rides =
              every _ (λ e x p i. subst (λ q. is_closed s.store q ≡ false) (sym i.ride) p.1);
          own_rides = every _ (λ e x p i. i.session_ride ∙ (p.0 ∙ sym i.ride));
          tagged = every _ (λ e x p i. i.tagged);
        })
