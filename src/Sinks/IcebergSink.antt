-- ===== src/Sinks/IcebergSink.antt =====
-- src/sinks/iceberg_sink.py: the sink of ride events into an Iceberg table.
pub mod Stored
pub mod NoLoss
pub mod Run
use stream_pipeline.Prelude.Dict
use stream_pipeline.Prelude.Dict.{Dict}
use stream_pipeline.Prelude.{
  ℕ, ℤ, ◌+◌, String, Bool, true, false, not, ◌&&◌, ◌||◌, Option, none, some, List, [], ◌∷◌, ◌++◌,
  map, length, is_empty, Result, ok, raise, Error, runtime_error, library, ◌>>=◌, if◌then◌else◌,
  leb, ltb, nat_key,
}
use stream_pipeline.Common.Times.{Timestamp, to_epoch_ms}
use stream_pipeline.Common.Events.{RideEvent}
use stream_pipeline.Dlq.Envelope.{Message, Failure, DlqProducer, handle}

-- A row of the table; `promo_code` reads as null where the row was written without the column.
pub record LakeRow (F : Type 0) : Type 0 where
  pub event_id : String
  pub ride_id : String
  pub event_type : String
  pub event_ts : ℕ
  pub rider_id : String
  pub driver_id : Option String
  pub city_id : ℕ
  pub pickup_lat : F
  pub pickup_lon : F
  pub dropoff_lat : Option F
  pub dropoff_lon : Option F
  pub fare_cents : Option ℤ
  pub surge_multiplier : F
  pub payload_version : ℕ
  pub is_synthetic : Bool
  pub promo_code : Option String

-- The table, and whether it has the column `promo_code`.
pub record Lake (F : Type 0) : Type 0 where
  pub rows : List (LakeRow F)
  pub has_promo : Bool

pub record IcebergSink (F : Type 0) : Type 0 where
  pub buffer : List (RideEvent F Timestamp)
  pub has_promo : Bool
  pub rows_appended : ℕ
  pub poison_seen : ℕ
  pub evolutions : ℕ
  pub dlq : DlqProducer

-- Of each partition, the next offset that the consumer delivers, and the committed one.
pub record Consumer : Type 0 where
  pub position : Dict ℕ ℕ
  pub committed : Dict ℕ ℕ

pub data Decoded (F : Type 0) : Type 0 where
  value : RideEvent F Timestamp → Decoded F
  broken : Failure → Decoded F

-- The deserialiser, and the clock's reading for an envelope.
pub record Setting (F : Type 0) : Type 0 where
  pub decode : Message → Decoded F
  pub now : String

module _ {F : Type 0} where
  -- `any(int(value.get("payload_version", 1)) >= 2 for value in values)`
  unfoldable pub any_v2 : List (RideEvent F Timestamp) → Bool
  any_v2 [] = false
  any_v2 (v ∷ vs) = leb 2 v.payload_version || any_v2 vs

  unfoldable pub should_evolve : List (RideEvent F Timestamp) → Bool → Bool
  unfolding any_v2
  should_evolve values already_evolved = if already_evolved then false else any_v2 values

  -- one row of `to_arrow`
  unfoldable pub to_row : Bool → RideEvent F Timestamp → LakeRow F
  to_row with_promo v = record {
    event_id = v.event_id;
    ride_id = v.ride_id;
    event_type = v.event_type;
    event_ts = to_epoch_ms v.event_ts;
    rider_id = v.rider_id;
    driver_id = v.driver_id;
    city_id = v.city_id;
    pickup_lat = v.pickup_lat;
    pickup_lon = v.pickup_lon;
    dropoff_lat = v.dropoff_lat;
    dropoff_lon = v.dropoff_lon;
    fare_cents = v.fare_cents;
    surge_multiplier = v.surge_multiplier;
    payload_version = v.payload_version;
    is_synthetic = true;
    promo_code = if with_promo then v.promo_code else none;
  }

  unfoldable pub to_arrow : List (RideEvent F Timestamp) → Bool → List (LakeRow F)
  unfolding to_row
  to_arrow values with_promo = map (to_row with_promo) values

  -- A sink that has just loaded or made the table.
  abbrev pub start : Lake F → DlqProducer → IcebergSink F
  start lake dlq = record {
    buffer = [];
    has_promo = lake.has_promo;
    rows_appended = 0;
    poison_seen = 0;
    evolutions = 0;
    dlq = dlq;
  }

  -- one message of `_ingest`
  abbrev pub ingest_decoded :
      Setting F → IcebergSink F → Message → Decoded F → Result (IcebergSink F)
  ingest_decoded c s m (value v) = ok (record s { buffer = s.buffer ++ v ∷ [] })
  ingest_decoded c s m (broken error) = handle s.dlq m error c.now >>= λ dlq.
      ok (record s { poison_seen = s.poison_seen + 1; dlq = dlq })

  unfoldable pub ingest_one : Setting F → IcebergSink F → Message → Result (IcebergSink F)
  ingest_one c s m = ingest_decoded c s m (c.decode m)

  unfoldable pub should_flush : IcebergSink F → ℕ → ℕ → ℕ → Bool
  should_flush s batch_max_records elapsed_ms flush_interval_ms =
      if leb batch_max_records (length s.buffer)
      then true
      else not (is_empty s.buffer) && ltb flush_interval_ms elapsed_ms

-- What a flush leaves: a sink that goes on, or one that an exception ended.
pub data After (F : Type 0) : Type 0 where
  running : IcebergSink F → Lake F → Consumer → After F
  dead : Lake F → Consumer → Error → After F

-- Whether the calls of a flush succeed: the schema update, the append and the commit.
pub record Calls : Type 0 where
  pub evolves : Bool
  pub appends : Bool
  pub commits : Bool

module _ {F : Type 0} where
  -- the schema update
  unfoldable pub evolve : IcebergSink F → Lake F → IcebergSink F × Lake F
  unfolding should_evolve
  evolve s lake =
      if should_evolve s.buffer s.has_promo
      then (
        record s { has_promo = true; evolutions = s.evolutions + 1 },
        record lake { has_promo = true },
      )
      else (s, lake)

  abbrev pub append_rows : IcebergSink F → Lake F → Lake F
  append_rows s lake = record lake { rows = lake.rows ++ to_arrow s.buffer s.has_promo }

  -- the append, then the commit of all positions
  unfoldable pub append_commit : Calls → IcebergSink F → Lake F → Consumer → After F
  append_commit calls s lake consumer =
      let appended = append_rows s lake in
      if calls.appends
      then (if calls.commits
          then running
              (record s {
                buffer = [];
                rows_appended = s.rows_appended + length (to_arrow s.buffer s.has_promo);
              })
              appended (record consumer { committed = consumer.position })
          else dead appended consumer library)
      else dead lake consumer library

  unfoldable pub flush : Calls → IcebergSink F → Lake F → Consumer → After F
  unfolding should_evolve evolve append_commit
  flush calls s lake consumer =
      let evolved = evolve s lake in
      if is_empty s.buffer
      then running s lake consumer
      else (if should_evolve s.buffer s.has_promo && not calls.evolves
          then dead lake consumer library
          else append_commit calls evolved.0 evolved.1 consumer)
