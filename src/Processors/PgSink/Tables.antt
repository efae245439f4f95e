-- ===== src/Processors/PgSink/Tables.antt =====
-- src/processors/pg_sink.py: the tables by their primary keys, and the statements of `UPSERTS` and
-- `OFFSET_UPSERT`. The tables have the columns to which a statement gives a value of its own: not
-- `ingested_at` of the raw tables, which is `now()` by default when a row is inserted, nor
-- `updated_at` of the offsets, which every `OFFSET_UPSERT` sets to `now()`. The whole of that
-- statement is `offset_upsert`, and `upsert_offset` is what it does to the other columns.
use stream_pipeline.Prelude.Dict
use stream_pipeline.Prelude.Dict.{Dict, values}
use stream_pipeline.Prelude.{
  ℕ, String, Bool, none, some, List, [], ◌∷◌, map, Result, ok, raise, integrity_error, ◌>>=◌,
  if◌then◌else◌, ltb, max, str_eq, nat_key, text_key, pair_key,
}
use stream_pipeline.Processors.StateStore.{exists}
use stream_pipeline.Processors.PgSink.Rows.{EventRow, SessionRow, PaymentRow, LocationRow}

-- consumer group, topic, partition
abbrev pub Position : Type 0
Position = String × (String × ℕ)

pub record Database (F : Type 0) : Type 0 where
  pub rides_events : Dict (String × ℕ) (EventRow F)
  pub ride_sessions : Dict String (SessionRow F ℕ)
  pub payments_transactions : Dict String (PaymentRow ℕ)
  pub driver_locations : Dict (String × ℕ) (LocationRow F ℕ)
  pub consumer_offsets : Dict Position ℕ

module _ {F : Type 0} where
  -- the unique index `rides_events_event_id`
  abbrev pub has_event_id : String → List (EventRow F) → Bool
  has_event_id event_id rows = exists (λ (r : EventRow F). str_eq r.event_id event_id) rows

  -- `ON CONFLICT (ride_id, event_seq) DO NOTHING`: a clash on the other index is an error.
  unfoldable pub insert_event :
      Dict (String × ℕ) (EventRow F) → EventRow F → Result (Dict (String × ℕ) (EventRow F))
  insert_event table r = elim (Dict.get (r.ride_id, r.event_seq) table) [
    | some _ ↦ ok table
    | none ↦
        if has_event_id r.event_id (values table)
        then raise integrity_error
        else ok (Dict.put (r.ride_id, r.event_seq) r table)
  ]

  -- the columns that `DO UPDATE SET` names
  abbrev pub updated : SessionRow F ℕ → SessionRow F ℕ → SessionRow F ℕ
  updated old excluded = record old {
    terminal_state = excluded.terminal_state;
    event_seq = excluded.event_seq;
    ended_ts = excluded.ended_ts;
    time_to_match_sec = excluded.time_to_match_sec;
    time_to_pickup_sec = excluded.time_to_pickup_sec;
    ride_duration_sec = excluded.ride_duration_sec;
    haversine_distance_km = excluded.haversine_distance_km;
    avg_speed_kmh = excluded.avg_speed_kmh;
    is_late_arrival = excluded.is_late_arrival;
    fare_cents = excluded.fare_cents;
    promo_code = excluded.promo_code;
  }

  -- `ON CONFLICT (ride_id) DO UPDATE SET ... WHERE EXCLUDED.event_seq > ride_sessions.event_seq`
  unfoldable pub upsert_session :
      Dict String (SessionRow F ℕ) → SessionRow F ℕ → Dict String (SessionRow F ℕ)
  upsert_session table r = elim (Dict.get r.ride_id table) [
    | none ↦ Dict.put r.ride_id r table
    | some old ↦
        if ltb old.event_seq r.event_seq then Dict.put r.ride_id (updated old r) table else table
  ]

  -- `ON CONFLICT ... DO NOTHING`
  unfoldable pub insert_location :
      Dict (String × ℕ) (LocationRow F ℕ) → LocationRow F ℕ → Dict (String × ℕ) (LocationRow F ℕ)
  insert_location table r = Dict.set_default (r.driver_id, r.ts) r table

unfoldable pub insert_payment :
    Dict String (PaymentRow ℕ) → PaymentRow ℕ → Dict String (PaymentRow ℕ)
insert_payment table r = Dict.set_default r.txn_id r table

-- a row of `serving.consumer_offsets`, without its key
pub record StoredOffset : Type 0 where
  pub kafka_offset : ℕ
  pub updated_at : ℕ

-- `OFFSET_UPSERT`, at the time `now`
unfoldable pub offset_upsert :
    ℕ → Dict Position StoredOffset → Position × ℕ → Dict Position StoredOffset
offset_upsert now table (k, offset) = elim (Dict.get k table) [
  | none ↦ Dict.put k (record { kafka_offset = offset; updated_at = now }) table
  | some old ↦
      Dict.put k (record { kafka_offset = max offset old.kafka_offset; updated_at = now }) table
]

-- the column `kafka_offset`
abbrev pub kafka_offsets : Dict Position StoredOffset → Dict Position ℕ
kafka_offsets table = map (λ e. (e.0, e.1.kafka_offset)) table

-- `kafka_offset = GREATEST(EXCLUDED.kafka_offset, consumer_offsets.kafka_offset)`
unfoldable pub upsert_offset : Dict Position ℕ → Position × ℕ → Dict Position ℕ
upsert_offset table (k, offset) = elim (Dict.get k table) [
  | none ↦ Dict.put k offset table
  | some old ↦ Dict.put k (max offset old) table
]

-- `executemany`: the statement once for each parameter
unfoldable pub for_each : {T R : Type 0} → (T → R → Result T) → T → List R → Result T
for_each f table [] = ok table
for_each f table (r ∷ rs) = f table r >>= λ table'. for_each f table' rs
