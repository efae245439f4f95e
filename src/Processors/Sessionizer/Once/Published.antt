-- ===== src/Processors/Sessionizer/Once/Published.antt =====
-- Across crashes, aborts, restarts and rebalances, no session is published twice, and the closes
-- that the broker confirms are exactly the published ones.
use stream_pipeline.Prelude.{
  ℕ, ◌≡◌, refl, inl, inr, String, Bool, not, ◌&&◌, List, is_empty, In, IsNodup, All, All-In,
  nat_key, Bool-cases, subst, Result, ok, raise, >>=-eq-ok, ok-injective, ◌↔◌, library,
}
use stream_pipeline.Common.Floats.{Floats}
use stream_pipeline.Processors.StateStore.{CloseRow, append_batch}
use stream_pipeline.Processors.Sessionizer.State.{Sessionizer, Broker}
use stream_pipeline.Processors.Sessionizer.Batch.{Batch, Setting, Polled}
use stream_pipeline.Processors.Sessionizer.Process.{
  gather, finish_gathered, finish, transact, transaction, end_transaction, all_encode, then_forget,
  records, sessions_of, next_offsets, process_batch,
}
use stream_pipeline.Processors.Sessionizer.Once.Stores.{
  IsConfirmed, rollback-Outlives, rollback-old,
}
use stream_pipeline.Processors.Sessionizer.Once.Folds.{IsDelivered}
use stream_pipeline.Processors.Sessionizer.Once.Sound.{
  IsSound, IsSound-of, IsLive, IsGathered, gather-IsGathered,
}
use stream_pipeline.Processors.Sessionizer.Once.Shown.{published-records}
use stream_pipeline.Processors.Sessionizer.Once.Commits.{
  roll_back-IsSound, gap-IsSound, commit-IsLive,
}
use stream_pipeline.Processors.Sessionizer.Once.Assignments.{
  IsGood, recovered-IsSound, on_assign-IsLive, on_revoke-IsLive,
}
use stream_pipeline.Processors.Sessionizer.Once.Steps.{
  System, up, down, broker_of, store_of, after, published, Step, processed, interrupted, crashed,
  restarted, assigned_to, died_rolled_back, died_purged, revoked, Reachable, at_start, then_step,
}

module _ {F : Type 0} (assigned : List ℕ) (s0 : Sessionizer F) (broker : Broker F)
    (live : IsLive assigned s0 broker) (s : Sessionizer F) (b : Batch F)
    (closes : List (CloseRow F)) (g : IsGathered assigned s0.store broker.committed s b closes)
    (c : Setting F) (commits : Bool) where
  abbrev stored : Sessionizer F
  stored = record s { store = append_batch s.store b.journal closes }

  transaction-IsGood :
      (t : Result (Broker F))
      → transaction c.encodes commits broker (sessions_of closes) b ≡ t
      → IsGood (
          after assigned
            (then_forget closes (end_transaction stored broker (sessions_of closes) b t)))
  unfolding transaction
  transaction-IsGood (raise e) h =
      roll_back-IsSound assigned s0 broker live s b closes g (next_offsets b.batch_state)
  transaction-IsGood (ok broker') h =
      let (rs, made, rest) = >>=-eq-ok (records (sessions_of closes) b) _ h in
      elim (Bool-cases (all_encode c.encodes rs && commits)) [
        | inl e ↦
            subst
              (λ x. IsGood (
                after assigned (
                  then_forget closes
                    (end_transaction stored broker (sessions_of closes) b (ok x)))))
              (ok-injective (rw (transaction, e) at rest))
              (commit-IsLive assigned s0 broker live s b closes g rs
                (published-records closes b made g.own_rides) _)
        | inr e ↦ let never : raise library ≡ ok broker' = rw (transaction, e) at rest in cc
      ]

  finish-IsGood : IsGood (after assigned (finish c commits s broker b closes))
  unfolding finish transact
  finish-IsGood = elim (Bool-cases (c.crash_after_state_commit && not (is_empty closes))) [
    | inl e ↦ rw e (gap-IsSound assigned s0 broker live s b closes g)
    | inr e ↦ rw e (transaction-IsGood _ refl)
  ]

module _ (fl : Floats) where
  open fl use {Float}

  gathered-IsGood :
      (assigned : List ℕ) (s : Sessionizer Float) (broker : Broker Float) (c : Setting Float)
      (commits : Bool) (msgs : List Polled)
      (r : Result (Sessionizer Float × (Batch Float × List (CloseRow Float))))
      → gather fl c s msgs ≡ r
      → All (IsDelivered (λ p. In p assigned) broker.committed) msgs
      → IsLive assigned s broker
      → IsGood (after assigned (finish_gathered fl c commits s broker r))
  gathered-IsGood assigned s broker c commits msgs (raise e) h d live = live.sound
  gathered-IsGood assigned s broker c commits msgs (ok (s', (b, closes))) h d live =
      finish-IsGood assigned s broker live s' b closes
        (gather-IsGathered fl assigned broker.committed c s msgs h d live.all_open) c commits

  Step-IsGood : (x y : System Float) → Step fl x y → IsGood x → IsGood y
  unfolding process_batch
  Step-IsGood _ _ (processed assigned s broker c commits msgs d) live =
      gathered-IsGood assigned s broker c commits msgs _ refl d live
  Step-IsGood _ _ (interrupted assigned s broker c msgs s' b closes done d h) live =
      roll_back-IsSound assigned s broker live s' b closes
        (gather-IsGathered fl assigned broker.committed c s msgs h d live.all_open) done
  Step-IsGood _ _ (crashed assigned s broker) live = live.sound
  Step-IsGood _ _ (restarted store broker) sound = record {
    sound = sound;
    all_open = record { distinct = tt; all_open = tt };
    settled = λ c i a. elim a [ ];
  }
  Step-IsGood _ _ (assigned_to assigned s s' broker ps h) live =
      on_assign-IsLive assigned s broker ps h live
  Step-IsGood _ _ (died_rolled_back assigned s broker p) live =
      IsSound-of s.store _ broker (rollback-Outlives broker.committed s.store p)
        (λ c i. (rollback-old s.store p _ c i).0) live.sound
  Step-IsGood _ _ (died_purged assigned s broker p) live =
      recovered-IsSound s.store broker p live.sound
  Step-IsGood _ _ (revoked assigned s broker ps) live = on_revoke-IsLive assigned s broker ps live

  Reachable-IsGood : (x : System Float) → Reachable fl x → IsGood x
  unfolding published
  Reachable-IsGood _ at_start = record { once = tt; covered = tt; backed = λ c i k. elim i [ ] }
  Reachable-IsGood _ (then_step {a} {b} r step) = Step-IsGood a b step (Reachable-IsGood a r)

  Reachable-IsSound : (x : System Float) → Reachable fl x → IsSound (store_of x) (broker_of x)
  Reachable-IsSound (up assigned s broker) r = (Reachable-IsGood (up assigned s broker) r).sound
  Reachable-IsSound (down store broker) r = Reachable-IsGood (down store broker) r

  -- Whatever sequence of batches, committed and aborted transactions, deaths at any point of a
  -- batch or of a recovery, restarts and rebalances the process and its two stores go through, a
  -- reader of committed records sees no ride's session twice.
  pub Reachable-IsNodup :
      (x : System Float) → Reachable fl x → IsNodup (published (broker_of x).log)
  Reachable-IsNodup x r = (Reachable-IsSound x r).once

  -- In every such state the session of a ride is published exactly if the store has a close of the
  -- ride that is tagged below the committed offset of its partition.
  pub Reachable-published :
      (x : System Float) (ride_id : String)
      → Reachable fl x
      → In ride_id (published (broker_of x).log) ↔ (
          (c : CloseRow Float) × In c (store_of x).closes
          × (c.ride_id ≡ ride_id)
          × IsConfirmed (broker_of x).committed c)
  Reachable-published x ride_id r =
      let sound = Reachable-IsSound x r in
      (
        All-In _ ride_id (published (broker_of x).log) sound.covered,
        λ (c, i, e, k). subst (λ q. In q (published (broker_of x).log)) e (sound.backed c i k),
      )
