-- ===== src/Tests/Sinks.antt =====
-- The Postgres sink, and the exporter that watches it.
use stream_pipeline.Prelude.Dict
use stream_pipeline.Prelude.Dict.{Dict, IsDict}
use stream_pipeline.Prelude.{
  ℕ, ◌≡◌, ◌≤◌, ◌+◌, ◌↔◌, refl, false, Option, none, some, [], ◌∷◌, In, ok, dec_text, dec_pair,
  ℕ_discrete, text_key, nat_key, pair_key,
}
use mathlib.Core.Option
use stream_pipeline.Processors.PgSink.Rows.{SessionRow}
use stream_pipeline.Processors.PgSink.Tables.{
  Database, Position, StoredOffset, offset_upsert, kafka_offsets, for_each, upsert_session,
  upsert_offset,
}
use stream_pipeline.Processors.PgSink.Sink.{Rows, no_rows, statements, positions, seek}
use stream_pipeline.Processors.PgSink.Replay.{at_once, after_batch, statements-again, Later-seek}
use stream_pipeline.Observability.LagExporter.{compute_lags, committed_next_from_pg, LagSample}
use stream_pipeline.Observability.LagExporter.Lags.{
  IsSample, rows_of, compute_lags-In, committed_next_from_pg-seek,
}

abbrev session_at : ℕ → Option ℕ → SessionRow ℕ ℕ
session_at event_seq matched_ts = record {
  ride_id = "r1";
  rider_id = "u1";
  driver_id = none;
  city_id = 1;
  terminal_state = "cancelled";
  event_seq = event_seq;
  requested_ts = 5;
  matched_ts = matched_ts;
  driver_arrived_ts = none;
  started_ts = none;
  ended_ts = some 9;
  time_to_match_sec = none;
  time_to_pickup_sec = none;
  ride_duration_sec = none;
  haversine_distance_km = none;
  avg_speed_kmh = none;
  is_late_arrival = false;
  fare_cents = none;
  surge_multiplier = 1;
  promo_code = none;
  pickup_lat = 3;
  pickup_lon = 4;
  dropoff_lat = none;
  dropoff_lon = none;
}

abbrev empty_database : Database ℕ
empty_database = record {
  rides_events = [];
  ride_sessions = [];
  payments_transactions = [];
  driver_locations = [];
  consumer_offsets = [];
}

abbrev one_session : Rows ℕ
one_session = record no_rows {
  sessions = session_at 2 none ∷ [];
  max_offsets = (("rides.sessions", 0), 7) ∷ [];
}

abbrev with_session : Database ℕ
with_session = record empty_database {
  ride_sessions = ("r1", session_at 2 none) ∷ [];
  consumer_offsets = (("pg-sink", ("rides.sessions", 0)), 7) ∷ [];
}

one_session-statements : statements "pg-sink" empty_database one_session ≡ ok with_session
unfolding statements for_each upsert_session upsert_offset Dict.put Dict.get
one_session-statements = refl

-- the stored offset, at the times of the first delivery and of the second
abbrev stored_at : ℕ → Dict Position StoredOffset
stored_at now =
    (("pg-sink", ("rides.sessions", 0)), record { kafka_offset = 7; updated_at = now }) ∷ []

one_session-offset_upserts :
    for_each
      (λ t r. ok (offset_upsert 50 t r))
      (stored_at 20)
      (positions "pg-sink" one_session.max_offsets)
    ≡ ok (stored_at 50)
unfolding for_each offset_upsert Dict.put Dict.get dec_pair dec_text ℕ_discrete
one_session-offset_upserts = refl

statements-again_example :
    (statements "pg-sink" with_session one_session ≡ ok with_session)
    × (kafka_offsets (stored_at 50) ≡ kafka_offsets (stored_at 20))
statements-again_example =
    statements-again "pg-sink" one_session empty_database with_session with_session 50
      (stored_at 20) (stored_at 50) one_session-statements at_once refl one_session-offset_upserts

with_session-seek : seek "pg-sink" with_session "rides.sessions" 0 ≡ some (7 + 1)
unfolding seek Dict.get dec_pair dec_text ℕ_discrete
with_session-seek = refl

Later-seek_example :
    (last' : ℕ) × (seek "pg-sink" with_session "rides.sessions" 0 ≡ some (last' + 1)) × (7 ≤ last')
Later-seek_example =
    Later-seek "pg-sink" "rides.sessions" 0 7 with_session with_session
      (after_batch "pg-sink" one_session at_once statements-again_again) with_session-seek
  where
    statements-again_again : statements "pg-sink" with_session one_session ≡ ok with_session
    statements-again_again =
        (statements-again "pg-sink" one_session empty_database with_session with_session 50
          (stored_at 20) (stored_at 50) one_session-statements at_once refl
          one_session-offset_upserts).0

committed_next_from_pg-seek_example :
    Dict.get
      ("rides.sessions", 0)
      (committed_next_from_pg (rows_of "pg-sink" with_session.consumer_offsets))
    ≡ Option.map some (seek "pg-sink" with_session "rides.sessions" 0)
committed_next_from_pg-seek_example =
    committed_next_from_pg-seek "pg-sink" "rides.sessions" 0 with_session (tt, tt)

abbrev sample : LagSample
sample = record { group = "pg-sink"; topic = "rides.sessions"; partition = 0; lag = 2 }

compute_lags-In_example :
    In sample (
      compute_lags "pg-sink"
        ((("rides.sessions", 0), 10) ∷ [])
        ((("rides.sessions", 0), some 8) ∷ []))
    ↔ IsSample "pg-sink"
        ((("rides.sessions", 0), some 8) ∷ [])
        ((("rides.sessions", 0), 10) ∷ [])
        sample
compute_lags-In_example =
    compute_lags-In "pg-sink" ((("rides.sessions", 0), 10) ∷ [])
      ((("rides.sessions", 0), some 8) ∷ []) sample

-- A richer close replaces the columns that the statement lists, and no other: the time of the match
-- stays as it was.
upsert_session-mixed :
    upsert_session (("r1", session_at 2 none) ∷ []) (session_at 3 (some 6))
    ≡ ("r1", session_at 3 none) ∷ []
unfolding upsert_session Dict.put Dict.get dec_text
upsert_session-mixed = refl
