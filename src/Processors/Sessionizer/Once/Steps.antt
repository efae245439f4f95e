-- ===== src/Processors/Sessionizer/Once/Steps.antt =====
-- The life of a sessionizer over its store and its broker, with a death at every point where the
-- two stores may disagree, and what a reader of the sessions sees.
use stream_pipeline.Prelude.Dict
use stream_pipeline.Prelude.{
  ℕ, ◌≡◌, ◌==◌, not, String, List, [], ◌∷◌, ◌++◌, In, All, get_or, nat_key, ok, Bool, select,
}
use stream_pipeline.Common.Floats.{Floats}
use stream_pipeline.Processors.StateStore.{
  StateStore, CloseRow, append_batch, rollback_from, exists,
}
use stream_pipeline.Processors.Sessionizer.State.{
  Sessionizer, Produced, Payload, session as session_payload, clean, letter, Broker, start,
}
use stream_pipeline.Processors.Sessionizer.Batch.{Batch, Setting, Polled}
use stream_pipeline.Processors.Sessionizer.Process.{
  After, running, dead, gather, process_batch, roll_back,
}
use stream_pipeline.Processors.Sessionizer.Recovery.{on_assign, on_revoke}
use stream_pipeline.Processors.Sessionizer.Once.Folds.{IsDelivered}
use stream_pipeline.Processors.Sessionizer.Once.Rides.{recovered}

-- A process that runs, with the partitions that the group assigned to it, or the two stores that
-- outlive it.
pub data System (F : Type 0) : Type 0 where
  up : List ℕ → Sessionizer F → Broker F → System F
  down : StateStore F → Broker F → System F

module _ {F : Type 0} where
  abbrev pub broker_of : System F → Broker F
  broker_of (up assigned s broker) = broker
  broker_of (down store broker) = broker

  abbrev pub store_of : System F → StateStore F
  store_of (up assigned s broker) = s.store
  store_of (down store broker) = store

  abbrev pub after : List ℕ → After F → System F
  after assigned (running s broker sessions) = up assigned s broker
  after assigned (dead store broker e) = down store broker

  -- the ride of a session record, before those of later records
  abbrev pub with_ride : Payload F → List String → List String
  with_ride (session_payload s) rest = s.ride_id ∷ rest
  with_ride (clean v) rest = rest
  with_ride (letter e) rest = rest

  -- The rides whose sessions a `read_committed` reader sees, in order.
  unfoldable pub published : List (Produced F) → List String
  published [] = []
  published (r ∷ rs) = with_ride r.payload (published rs)

-- The partitions that are left after some are revoked.
abbrev pub without : List ℕ → List ℕ → List ℕ
without revoked assigned = select (λ p. not (exists (λ q. q == p) revoked)) assigned

module _ (fl : Floats) where
  open fl use {Float}

  pub data Step : System Float → System Float → Type 0 where
    -- a batch, whatever becomes of it, the crash hook and an aborted transaction included
    processed :
        (assigned : List ℕ) (s : Sessionizer Float) (broker : Broker Float) (c : Setting Float)
        (commits : Bool) (msgs : List Polled)
        → All (IsDelivered (λ p. In p assigned) broker.committed) msgs
        → Step (up assigned s broker) (after assigned (process_batch fl c commits s broker msgs))
    -- a death after the SQLite commit and before the Kafka commit, with any part of the rollback
    -- of the handler done
    interrupted :
        (assigned : List ℕ) (s : Sessionizer Float) (broker : Broker Float) (c : Setting Float)
        (msgs : List Polled) (s' : Sessionizer Float) (b : Batch Float)
        (closes : List (CloseRow Float)) (done : List (ℕ × ℕ))
        → All (IsDelivered (λ p. In p assigned) broker.committed) msgs
        → gather fl c s msgs ≡ ok (s', (b, closes))
        → Step
            (up assigned s broker)
            (down (roll_back (append_batch s'.store b.journal closes) broker.committed done) broker)
    -- a death at any other moment
    crashed :
        (assigned : List ℕ) (s : Sessionizer Float) (broker : Broker Float)
        → Step (up assigned s broker) (down s.store broker)
    restarted :
        (store : StateStore Float) (broker : Broker Float)
        → Step (down store broker) (up [] (start store) broker)
    assigned_to :
        (assigned : List ℕ) (s s' : Sessionizer Float) (broker : Broker Float) (ps : List ℕ)
        → on_assign s broker ps ≡ ok s'
        → Step (up assigned s broker) (up (ps ++ assigned) s' broker)
    -- a death in the recovery of a partition, after its rollback or after its purge
    died_rolled_back :
        (assigned : List ℕ) (s : Sessionizer Float) (broker : Broker Float) (p : ℕ)
        → Step
            (up assigned s broker)
            (down (rollback_from s.store p (get_or (Dict.get p broker.committed) 0)).0 broker)
    died_purged :
        (assigned : List ℕ) (s : Sessionizer Float) (broker : Broker Float) (p : ℕ)
        → Step (up assigned s broker) (down (recovered s.store broker p) broker)
    revoked :
        (assigned : List ℕ) (s : Sessionizer Float) (broker : Broker Float) (ps : List ℕ)
        → Step (up assigned s broker) (up (without ps assigned) (on_revoke s ps) broker)

  -- From an empty store and a broker that has nothing.
  abbrev pub system_start : System Float
  system_start = down (record { journal = []; closes = [] }) (record { log = []; committed = [] })

  pub data Reachable : System Float → Type 0 where
    at_start : Reachable system_start
    then_step : {a b : System Float} → Reachable a → Step a b → Reachable b
