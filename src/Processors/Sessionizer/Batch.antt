-- ===== src/Processors/Sessionizer/Batch.antt =====
-- The loop of `process_batch` over the messages, and `_collect_closes`.
use stream_pipeline.Prelude.Dict
use stream_pipeline.Prelude.Dict.{Dict}
use stream_pipeline.Prelude.{
  ℕ, ◌+◌, String, Bool, Option, none, some, List, [], ◌∷◌, ◌++◌, max, Result, ok, raise,
  runtime_error, ◌>>=◌, get_or, nat_key, text_key, if◌then◌else◌,
}
use stream_pipeline.Common.Times.{Timestamp, to_epoch_ms}
use stream_pipeline.Common.Events.{RideEvent}
use stream_pipeline.Dlq.Envelope.{Message, Failure, Envelope, build_envelope}
use stream_pipeline.Processors.SessionBuilder.{new_accumulator, add}
use stream_pipeline.Processors.StateStore.{JournalRow, is_closed}
use stream_pipeline.Processors.Sessionizer.State.{
  PartitionState, new_partition, Sessionizer, Produced,
}

-- What `consume` returns: a message, the end of a partition, or another error of the consumer.
pub data Polled : Type 0 where
  message : Message → Polled
  partition_eof : Polled
  failed : Polled

pub data Decoded (F : Type 0) : Type 0 where
  value : RideEvent F Timestamp → Decoded F
  broken : Failure → Decoded F

-- The external parts: what the deserialiser makes of a message, whether the serialisers accept
-- what is produced, and the clock. The other fields are the configuration.
pub record Setting (F : Type 0) : Type 0 where
  pub decode : Message → Decoded F
  pub encodes : Produced F → Bool
  pub now : String
  pub group_id : String
  pub session_timeout_ms : ℕ
  pub crash_after_state_commit : Bool

-- The local variables of `process_batch`.
pub record Batch (F : Type 0) : Type 0 where
  pub journal : List (JournalRow F)
  pub batch_state : Dict ℕ PartitionState
  pub poisons : List Envelope
  pub clean_forward : List (RideEvent F ℕ)

abbrev pub empty_batch : {F : Type 0} → Batch F
empty_batch = record { journal = []; batch_state = []; poisons = []; clean_forward = [] }

-- `max(m, offset)`, where `none` is -1
abbrev pub max_offset : Option ℕ → ℕ → Option ℕ
max_offset none offset = some offset
max_offset (some m) offset = some (max m offset)

-- `bstate = batch_state.setdefault(...)`, with its maximal offset raised
unfoldable pub note_offset : Dict ℕ PartitionState → ℕ → ℕ → Dict ℕ PartitionState
note_offset states partition offset =
    let bstate = get_or (Dict.get partition states) new_partition in
    Dict.put partition
      (record bstate { max_offset_in_batch = max_offset bstate.max_offset_in_batch offset }) states

-- `pstate = self._partitions.setdefault(...)`, with its watermark raised by `ts`
unfoldable pub note_time : Dict ℕ PartitionState → ℕ → ℕ → Dict ℕ PartitionState
note_time states partition ts =
    let pstate = get_or (Dict.get partition states) new_partition in
    Dict.put partition (record pstate { watermark_ms = max pstate.watermark_ms ts }) states

-- `{**value, "event_ts": to_epoch_ms(value["event_ts"])}`
unfoldable pub normalise : {F : Type 0} → RideEvent F Timestamp → RideEvent F ℕ
normalise v = record {
  event_id = v.event_id;
  ride_id = v.ride_id;
  event_type = v.event_type;
  event_ts = to_epoch_ms v.event_ts;
  rider_id = v.rider_id;
  driver_id = v.driver_id;
  city_id = v.city_id;
  pickup_lat = v.pickup_lat;
  pickup_lon = v.pickup_lon;
  dropoff_lat = v.dropoff_lat;
  dropoff_lon = v.dropoff_lon;
  fare_cents = v.fare_cents;
  surge_multiplier = v.surge_multiplier;
  payload_version = v.payload_version;
  promo_code = v.promo_code;
}

module _ {F : Type 0} where
  -- the accumulator of a ride takes the event, and is made if there is none
  unfoldable pub accumulate : Sessionizer F → ℕ → RideEvent F ℕ → Result (Sessionizer F)
  accumulate s partition v = elim (Dict.get v.ride_id s.accs) [
    | none ↦ add (new_accumulator v.ride_id) v >>= λ acc. ok (record s {
      accs = Dict.put v.ride_id acc s.accs;
      acc_partition = Dict.put v.ride_id partition s.acc_partition;
    })
    | some old ↦ add old v >>= λ acc. ok (record s { accs = Dict.put v.ride_id acc s.accs })
  ]

  -- the part of the loop's body after the deserialisation
  unfoldable pub take_value :
      Sessionizer F → Batch F → Message → RideEvent F ℕ → Result (Sessionizer F × Batch F)
  unfolding accumulate note_time
  take_value s b m v =
      let s1 = record s { partitions = note_time s.partitions m.partition v.event_ts } in
      let b1 = record b { clean_forward = b.clean_forward ++ v ∷ [] } in
      if is_closed s.store v.ride_id
      then ok (s1, b1)
      else accumulate s1 m.partition v >>= λ s2. ok (
        s2,
        record b1 {
          journal =
              b.journal
              ++ (record {
                partition = m.partition;
                offset = m.offset;
                ride_id = v.ride_id;
                value = v;
              })
                ∷ [];
        },
      )

  abbrev pub take_decoded :
      Setting F → Sessionizer F → Batch F → Message → Decoded F → Result (Sessionizer F × Batch F)
  take_decoded c s b m (broken error) = ok (
    record s { poison_seen = s.poison_seen + 1 },
    record b { poisons = b.poisons ++ build_envelope m error c.group_id c.now ∷ [] },
  )
  take_decoded c s b m (value v) = take_value s b m (normalise v)

  -- one round of the loop
  unfoldable pub take :
      Setting F → Sessionizer F → Batch F → Polled → Result (Sessionizer F × Batch F)
  unfolding note_offset
  take c s b partition_eof = ok (s, b)
  take c s b failed = raise runtime_error
  take c s b (message m) =
      take_decoded c
        (record s { partitions = Dict.set_default m.partition new_partition s.partitions })
        (record b { batch_state = note_offset b.batch_state m.partition m.offset }) m (c.decode m)

  unfoldable pub take_all :
      Setting F → Sessionizer F → Batch F → List Polled → Result (Sessionizer F × Batch F)
  unfolding take
  take_all c s b [] = ok (s, b)
  take_all c s b (p ∷ ps) = take c s b p >>= λ r. take_all c r.0 r.1 ps
