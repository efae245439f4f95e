-- ===== src/Processors/PgSink/Sink.antt =====
-- src/processors/pg_sink.py: `PgSink.process_batch` and the positions that `on_assign` seeks to.
use stream_pipeline.Prelude.Dict
use stream_pipeline.Prelude.Dict.{Dict}
use stream_pipeline.Prelude.{
  ℕ, ◌+◌, String, Bool, true, false, Option, none, some, List, [], ◌∷◌, ◌++◌, map, length, max,
  Result, ok, raise, Error, runtime_error, library, ◌>>=◌, text_key, pair_key, nat_key,
}
use stream_pipeline.Common.Times.{Timestamp}
use stream_pipeline.Common.Events.{RideEvent}
use stream_pipeline.Dlq.Envelope.{Message, Failure, DlqProducer, handle}
use stream_pipeline.Processors.PgSink.Rows.{
  EventRow, SessionRow, PaymentRow, LocationRow, rides_event_row, session_row, payment_row,
  location_row,
}
use stream_pipeline.Processors.PgSink.Tables.{
  Database, Position, insert_event, upsert_session, insert_payment, insert_location, upsert_offset,
  for_each,
}

-- What the deserialiser of the message's topic makes of it; a topic without one is broken, too.
pub data Decoded (F : Type 0) : Type 0 where
  event : RideEvent F Timestamp → Decoded F
  session : SessionRow F Timestamp → Decoded F
  payment : PaymentRow Timestamp → Decoded F
  location : LocationRow F Timestamp → Decoded F
  broken : Failure → Decoded F

-- The external parts, and the configuration. `unknown_type` is the text of the `ValueError` that a
-- row of an unknown event type raises.
pub record Setting (F : Type 0) : Type 0 where
  pub decode : Message → Decoded F
  pub unknown_type : Message → Failure
  pub now : String
  pub group_id : String

pub data Polled : Type 0 where
  message : Message → Polled
  failed : Polled

-- The rows of a batch by topic, and its maximal offsets.
pub record Rows (F : Type 0) : Type 0 where
  pub events : List (EventRow F)
  pub sessions : List (SessionRow F ℕ)
  pub payments : List (PaymentRow ℕ)
  pub locations : List (LocationRow F ℕ)
  pub max_offsets : Dict (String × ℕ) ℕ

abbrev pub no_rows : {F : Type 0} → Rows F
no_rows = record { events = []; sessions = []; payments = []; locations = []; max_offsets = [] }

pub record PgSink : Type 0 where
  pub dlq : DlqProducer
  pub rows_written : ℕ
  pub poison_seen : ℕ

-- `max(max_offsets.get(key, -1), msg.offset())`
unfoldable pub note_offset : Dict (String × ℕ) ℕ → Message → Dict (String × ℕ) ℕ
note_offset offsets m =
    let k : String × ℕ = (m.topic, m.partition) in
    elim (Dict.get k offsets) [
      | none ↦ Dict.put k m.offset offsets
      | some old ↦ Dict.put k (max old m.offset) offsets
    ]

-- the parameters of `OFFSET_UPSERT`
abbrev pub positions : String → Dict (String × ℕ) ℕ → List (Position × ℕ)
positions group_id = map (λ e. ((group_id, e.0), e.1))

module _ {F : Type 0} where
  -- the handler of a message that has no row
  abbrev pub poison : Setting F → PgSink → Rows F → Message → Failure → Result (PgSink × Rows F)
  poison c s rows m error = handle s.dlq m error c.now >>= λ dlq.
      ok (record s { dlq = dlq; poison_seen = s.poison_seen + 1 }, rows)

  abbrev pub add_event :
      Setting F → PgSink → Rows F → Message → Result (EventRow F) → Result (PgSink × Rows F)
  add_event c s rows m (ok r) = ok (s, record rows { events = rows.events ++ r ∷ [] })
  add_event c s rows m (raise e) = poison c s rows m (c.unknown_type m)

  abbrev pub add_row : Setting F → PgSink → Rows F → Message → Decoded F → Result (PgSink × Rows F)
  add_row c s rows m (event v) = add_event c s rows m (rides_event_row v m.partition m.offset)
  add_row c s rows m (session v) =
      ok (s, record rows { sessions = rows.sessions ++ session_row v ∷ [] })
  add_row c s rows m (payment v) =
      ok (s, record rows { payments = rows.payments ++ payment_row v ∷ [] })
  add_row c s rows m (location v) =
      ok (s, record rows { locations = rows.locations ++ location_row v ∷ [] })
  add_row c s rows m (broken error) = poison c s rows m error

  -- one round of the loop over the messages
  unfoldable pub take : Setting F → PgSink → Rows F → Polled → Result (PgSink × Rows F)
  unfolding note_offset
  take c s rows failed = raise runtime_error
  take c s rows (message m) =
      add_row c s (record rows { max_offsets = note_offset rows.max_offsets m }) m (c.decode m)

  unfoldable pub take_all : Setting F → PgSink → Rows F → List Polled → Result (PgSink × Rows F)
  unfolding take
  take_all c s rows [] = ok (s, rows)
  take_all c s rows (p ∷ ps) = take c s rows p >>= λ r. take_all c r.0 r.1 ps

  -- the statements of the transaction, in the order of SINK_TOPICS
  unfoldable pub statements : String → Database F → Rows F → Result (Database F)
  statements group_id db rows = do
    events ← for_each insert_event db.rides_events rows.events
    sessions ← for_each (λ t r. ok (upsert_session t r)) db.ride_sessions rows.sessions
    payments ← for_each (λ t r. ok (insert_payment t r)) db.payments_transactions rows.payments
    locations ← for_each (λ t r. ok (insert_location t r)) db.driver_locations rows.locations
    offsets ←
        for_each (λ t r. ok (upsert_offset t r)) db.consumer_offsets
          (positions group_id rows.max_offsets)
    ok (record {
      rides_events = events;
      ride_sessions = sessions;
      payments_transactions = payments;
      driver_locations = locations;
      consumer_offsets = offsets;
    })

  -- `sum(written.values())`
  abbrev pub written : Rows F → ℕ
  written rows =
      length rows.events + length rows.sessions + length rows.payments + length rows.locations

-- What is left: a sink that goes on, or the database of one that an exception ended.
pub data After (F : Type 0) : Type 0 where
  running : PgSink → Database F → After F
  dead : Database F → Error → After F

module _ {F : Type 0} where
  -- `commits` is whether the connection commits.
  abbrev pub end_batch : PgSink → Database F → Rows F → Bool → Result (Database F) → After F
  end_batch s db rows commits (raise e) = dead db e
  end_batch s db rows false (ok db') = dead db library
  end_batch s db rows true (ok db') =
      running (record s { rows_written = s.rows_written + written rows }) db'

  abbrev pub store_batch : Setting F → Bool → Database F → Result (PgSink × Rows F) → After F
  store_batch c commits db (raise e) = dead db e
  store_batch c commits db (ok (s, rows)) =
      end_batch s db rows commits (statements c.group_id db rows)

  unfoldable pub process_batch : Setting F → Bool → PgSink → Database F → List Polled → After F
  unfolding take_all statements
  process_batch c commits s db msgs = store_batch c commits db (take_all c s no_rows msgs)

  -- Where a partition is sought to: `none` is OFFSET_BEGINNING.
  unfoldable pub seek : String → Database F → String → ℕ → Option ℕ
  seek group_id db topic partition =
      elim (Dict.get (group_id, (topic, partition)) db.consumer_offsets) [
        | none ↦ none
        | some last ↦ some (last + 1)
      ]
