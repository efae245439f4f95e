-- ===== src/Processors/Sessionizer/Process.antt =====
-- `_collect_closes`, `_transact` and the whole of `process_batch`.
use stream_pipeline.Prelude.Dict
use stream_pipeline.Prelude.Dict.{Dict}
use stream_pipeline.Prelude.{
  ℕ, ◌+◌, String, Bool, true, false, ◌&&◌, not, Option, none, some, List, [], ◌∷◌, ◌++◌, map,
  length, is_empty, Result, ok, raise, Error, system_exit, library, ◌>>=◌, get_or, nat_key,
  text_key, if◌then◌else◌,
}
use stream_pipeline.Common.Floats.{Floats}
use stream_pipeline.Common.Topics.{rides_sessions, rides_events_clean, dlq_topic}
use stream_pipeline.Common.Events.{RideEvent}
use stream_pipeline.Dlq.Envelope
use stream_pipeline.Dlq.Envelope.{Envelope}
use stream_pipeline.Generator.StateMachine.{RideEventType}
use stream_pipeline.Processors.SessionBuilder.{
  RideAccumulator, Session, terminal, build_session, timed_out, index,
}
use stream_pipeline.Processors.StateStore.{StateStore, CloseRow, append_batch, rollback_from}
use stream_pipeline.Processors.Sessionizer.State.{
  PartitionState, Sessionizer, session, clean, letter, text, bytes, Produced, Broker,
}
use stream_pipeline.Processors.Sessionizer.Batch.{Setting, Batch, empty_batch, Polled, take_all}

-- TopicPartition(rides.events, partition, max_offset_in_batch + 1), where there is an offset
unfoldable pub next_offsets : Dict ℕ PartitionState → List (ℕ × ℕ)
next_offsets [] = []
next_offsets ((partition, state) ∷ states) =
    let rest = next_offsets states in
    elim state.max_offset_in_batch [ none ↦ rest | some offset ↦ (partition, offset + 1) ∷ rest ]

unfoldable pub commit_offsets : Dict ℕ ℕ → List (ℕ × ℕ) → Dict ℕ ℕ
commit_offsets committed [] = committed
commit_offsets committed ((partition, next) ∷ offsets) =
    commit_offsets (Dict.put partition next committed) offsets

module _ (fl : Floats) where
  open fl use {Float}

  abbrev built : RideAccumulator Float → Bool → Result (Option (Session Float))
  built acc by_timeout = build_session fl acc by_timeout >>= λ done. ok (some done)

  unfoldable pub close_by :
      RideAccumulator Float → Bool → Option RideEventType → Result (Option (Session Float))
  close_by acc late (some _) = built acc false
  close_by acc true none = built acc true
  close_by acc false none = ok none

  -- the session of an accumulator, if it closes now
  unfoldable pub close_now : RideAccumulator Float → ℕ → ℕ → Result (Option (Session Float))
  unfolding close_by
  close_now acc watermark_ms timeout_ms =
      terminal acc >>= λ state. close_by acc (timed_out acc watermark_ms timeout_ms) state

  -- the body of the loop: the close of one ride, or nothing. A partition of the batch has an
  -- offset, so the tag is there.
  unfoldable pub close_one :
      Sessionizer Float
      → Dict ℕ PartitionState
      → ℕ
      → String
      → RideAccumulator Float
      → Result (List (CloseRow Float))
  unfolding close_now
  close_one s batch_state timeout_ms ride_id acc =
      index (Dict.get ride_id s.acc_partition) >>= λ partition.
      elim (Dict.get partition batch_state) [
        | none ↦ ok []
        | some bstate ↦ index bstate.max_offset_in_batch >>= λ tag_offset.
            index (Dict.get partition s.partitions) >>= λ pstate.
            close_now acc pstate.watermark_ms timeout_ms >>= λ closed. elim closed [
              | none ↦ ok []
              | some done ↦ ok (
                  (record {
                    ride_id = ride_id;
                    partition = partition;
                    offset = tag_offset;
                    session = done;
                  })
                  ∷ [])
            ]
      ]

  unfoldable pub collect_closes :
      Sessionizer Float
      → Dict ℕ PartitionState
      → ℕ
      → Dict String (RideAccumulator Float)
      → Result (List (CloseRow Float))
  unfolding close_one
  collect_closes s batch_state timeout_ms [] = ok []
  collect_closes s batch_state timeout_ms ((ride_id, acc) ∷ accs) =
      close_one s batch_state timeout_ms ride_id acc >>= λ close.
      collect_closes s batch_state timeout_ms accs >>= λ closes. ok (close ++ closes)

module _ {F : Type 0} where
  abbrev pub session_record : Session F → Produced F
  session_record s = record { topic = rides_sessions; key = text s.ride_id; payload = session s }

  abbrev pub clean_record : RideEvent F ℕ → Produced F
  clean_record v = record { topic = rides_events_clean; key = text v.ride_id; payload = clean v }

  unfoldable pub letter_records : List Envelope → Result (List (Produced F))
  letter_records [] = ok []
  letter_records (e ∷ es) = Envelope.key e >>= λ k. letter_records es >>= λ rest.
      ok ((record { topic = dlq_topic e.source_topic; key = bytes k; payload = letter e }) ∷ rest)

  -- all that a transaction produces, in order
  unfoldable pub records : List (Session F) → Batch F → Result (List (Produced F))
  unfolding letter_records
  records sessions b = letter_records b.poisons >>= λ letters.
      ok (map session_record sessions ++ (map clean_record b.clean_forward ++ letters))

-- What the process leaves: it goes on, with the sessions that `process_batch` returns, or it ends
-- by an exception, and only the store and the broker remain.
pub data After (F : Type 0) : Type 0 where
  running : Sessionizer F → Broker F → List (Session F) → After F
  dead : StateStore F → Broker F → Error → After F

module _ {F : Type 0} where
  unfoldable pub all_encode : (Produced F → Bool) → List (Produced F) → Bool
  all_encode encodes [] = true
  all_encode encodes (r ∷ rs) = encodes r && all_encode encodes rs

  -- the rollback of the handler, for every partition of the batch
  unfoldable pub roll_back : StateStore F → Dict ℕ ℕ → List (ℕ × ℕ) → StateStore F
  roll_back store committed [] = store
  roll_back store committed ((partition, _) ∷ offsets) =
      roll_back (rollback_from store partition (get_or (Dict.get partition committed) 0)).0
        committed offsets

  -- The try-block: the records become visible and the offsets committed together, or an exception
  -- is raised and nothing is. `commits` is whether all calls of the producer succeed.
  unfoldable pub transaction :
      (Produced F → Bool) → Bool → Broker F → List (Session F) → Batch F → Result (Broker F)
  unfolding all_encode
  transaction encodes commits broker sessions b = records sessions b >>= λ rs.
      if all_encode encodes rs && commits
      then ok (record {
        log = broker.log ++ rs;
        committed = commit_offsets broker.committed (next_offsets b.batch_state);
      })
      else raise library

  abbrev pub end_transaction :
      Sessionizer F → Broker F → List (Session F) → Batch F → Result (Broker F) → After F
  end_transaction s broker sessions b (ok broker') =
      running (record s { sessions_emitted = s.sessions_emitted + length sessions }) broker'
        sessions
  end_transaction s broker sessions b (raise e) =
      dead (roll_back s.store broker.committed (next_offsets b.batch_state)) broker e

  unfoldable pub transact :
      Setting F → Bool → Sessionizer F → Broker F → List (Session F) → Batch F → After F
  unfolding transaction roll_back
  transact c commits s broker sessions b =
      end_transaction s broker sessions b (transaction c.encodes commits broker sessions b)

  -- `self._accs.pop(close.ride_id, None)`, for every close
  unfoldable pub forget : List (CloseRow F) → Sessionizer F → Sessionizer F
  forget [] s = s
  forget (c ∷ cs) s = forget cs (record s {
    accs = Dict.pop c.ride_id s.accs;
    acc_partition = Dict.pop c.ride_id s.acc_partition;
  })

  abbrev pub then_forget : List (CloseRow F) → After F → After F
  then_forget closes (running s broker sessions) = running (forget closes s) broker sessions
  then_forget closes (dead store broker e) = dead store broker e

  abbrev pub sessions_of : List (CloseRow F) → List (Session F)
  sessions_of = map (λ c. c.session)

  -- from the SQLite commit on
  unfoldable pub finish :
      Setting F → Bool → Sessionizer F → Broker F → Batch F → List (CloseRow F) → After F
  unfolding transact forget
  finish c commits s broker b closes =
      let stored = record s { store = append_batch s.store b.journal closes } in
      if c.crash_after_state_commit && not (is_empty closes)
      then dead stored.store broker system_exit
      else then_forget closes (transact c commits stored broker (sessions_of closes) b)

module _ (fl : Floats) where
  open fl use {Float}

  -- the closes of the batch, with the state and the batch that the messages leave
  unfoldable pub gather :
      Setting Float
      → Sessionizer Float
      → List Polled
      → Result (Sessionizer Float × (Batch Float × List (CloseRow Float)))
  unfolding collect_closes
  gather c s msgs = take_all c s empty_batch msgs >>= λ r.
      collect_closes fl r.0 r.1.batch_state c.session_timeout_ms r.0.accs >>= λ closes.
      ok (r.0, (r.1, closes))

  abbrev pub finish_gathered :
      Setting Float
      → Bool
      → Sessionizer Float
      → Broker Float
      → Result (Sessionizer Float × (Batch Float × List (CloseRow Float)))
      → After Float
  finish_gathered c commits s broker (ok (s', (b, closes))) = finish c commits s' broker b closes
  finish_gathered c commits s broker (raise e) = dead s.store broker e

  unfoldable pub process_batch :
      Setting Float → Bool → Sessionizer Float → Broker Float → List Polled → After Float
  unfolding gather finish
  process_batch c commits s broker msgs = finish_gathered c commits s broker (gather c s msgs)
