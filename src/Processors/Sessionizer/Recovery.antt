-- ===== src/Processors/Sessionizer/Recovery.antt =====
-- `on_assign` and `on_revoke`: what a process knows of a partition, from the store.
use stream_pipeline.Prelude.Dict
use stream_pipeline.Prelude.Dict.{Dict}
use stream_pipeline.Prelude.{
  ℕ, String, Option, none, List, [], ◌∷◌, Result, ok, ◌>>=◌, get_or, nat_key, text_key, ◌==◌,
  if◌then◌else◌,
}
use stream_pipeline.Common.Events.{RideEvent}
use stream_pipeline.Processors.SessionBuilder.{new_accumulator}
use stream_pipeline.Processors.SessionBuilder.Slots.{add_all}
use stream_pipeline.Processors.StateStore.{
  rollback_from, purge_confirmed, open_rides, max_journal_ts,
}
use stream_pipeline.Processors.Sessionizer.State.{Sessionizer, Broker}

-- `[r for r, p in self._acc_partition.items() if p == tp.partition]`
unfoldable pub rides_of : ℕ → Dict String ℕ → List String
rides_of partition [] = []
rides_of partition ((ride_id, p) ∷ rides) =
    let rest = rides_of partition rides in if p == partition then ride_id ∷ rest else rest

module _ {F : Type 0} where
  -- the loop over the open rides of a partition
  unfoldable pub load_rides :
      Sessionizer F → ℕ → Dict String (List (RideEvent F ℕ)) → Result (Sessionizer F)
  load_rides s partition [] = ok s
  load_rides s partition ((ride_id, events) ∷ rides) =
      add_all (new_accumulator ride_id) events >>= λ acc.
      load_rides
        (record s {
          accs = Dict.put ride_id acc s.accs;
          acc_partition = Dict.put ride_id partition s.acc_partition;
        })
        partition rides

  unfoldable pub assign_one : Sessionizer F → ℕ → Option ℕ → Result (Sessionizer F)
  unfolding load_rides
  assign_one s partition committed = do
    let resume = get_or committed 0
    let rolled = (rollback_from s.store partition resume).0
    let store = (purge_confirmed rolled partition resume).0
    loaded ← load_rides (record s { store = store }) partition (open_rides store partition)
    let watermark = get_or (max_journal_ts store partition) 0
    ok (record loaded {
      partitions =
          Dict.put partition (record { watermark_ms = watermark; max_offset_in_batch = none })
            loaded.partitions;
    })

  -- The offsets that the broker reports: `none` where nothing is committed (a negative offset).
  unfoldable pub on_assign : Sessionizer F → Broker F → List ℕ → Result (Sessionizer F)
  unfolding assign_one
  on_assign s broker [] = ok s
  on_assign s broker (partition ∷ rest) =
      assign_one s partition (Dict.get partition broker.committed) >>= λ s'.
      on_assign s' broker rest

  unfoldable pub drop_rides : Sessionizer F → List String → Sessionizer F
  drop_rides s [] = s
  drop_rides s (ride_id ∷ rides) =
      drop_rides
        (record s {
          accs = Dict.pop ride_id s.accs;
          acc_partition = Dict.pop ride_id s.acc_partition;
        })
        rides

  unfoldable pub on_revoke : Sessionizer F → List ℕ → Sessionizer F
  unfolding rides_of drop_rides
  on_revoke s [] = s
  on_revoke s (partition ∷ rest) =
      let left = drop_rides s (rides_of partition s.acc_partition) in
      on_revoke (record left { partitions = Dict.pop partition left.partitions }) rest
