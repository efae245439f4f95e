-- ===== src/Tests/Batches.antt =====
-- A run of the Postgres sink, over two polls with messages and one without.
use stream_pipeline.Prelude.Dict
use stream_pipeline.Prelude.{
  ℕ, pos, ◌≡◌, refl, true, none, [], ◌∷◌, dec_text, dec_pair, ℕ_discrete, text_key, nat_key,
  pair_key,
}
use stream_pipeline.Common.Times.{Timestamp, millis, to_epoch_ms}
use stream_pipeline.Processors.PgSink.Rows.{PaymentRow, payment_row}
use stream_pipeline.Processors.PgSink.Tables.{Database, for_each, insert_payment, upsert_offset}
use stream_pipeline.Processors.PgSink.Sink.{
  payment, message, Setting, PgSink, running, note_offset, take, take_all, statements,
  process_batch,
}
use stream_pipeline.Processors.PgSink.Run.{Polls, messages, run_from, run_from-process_batch}
use stream_pipeline.Tests.Samples.{message_at}

abbrev paid : PaymentRow Timestamp
paid = record {
  txn_id = "t-r1";
  ride_id = "r1";
  amount_cents = pos 100;
  method = "upi";
  status = "captured";
  ts = millis 5;
}

abbrev setting : Setting ℕ
setting = record {
  decode = λ m. payment paid;
  unknown_type = λ m. record { kind = "ValueError"; text = "" };
  now = "now";
  group_id = "pg-sink";
}

abbrev at_start : PgSink
at_start = record {
  dlq = record { produced = []; group = "pg-sink"; sent = 0 };
  rows_written = 0;
  poison_seen = 0;
}

abbrev empty_database : Database ℕ
empty_database = record {
  rides_events = [];
  ride_sessions = [];
  payments_transactions = [];
  driver_locations = [];
  consumer_offsets = [];
}

abbrev stored : Database ℕ
stored = record empty_database {
  payments_transactions = ("t-r1", payment_row paid) ∷ [];
  consumer_offsets = (("pg-sink", ("rides.events", 0)), 6) ∷ [];
}

abbrev polls : Polls
polls =
    (true, message (message_at 4) ∷ message (message_at 5) ∷ [])
    ∷ (true, [])
    ∷ (true, message (message_at 6) ∷ [])
    ∷ []

run_three :
    run_from setting none 0 at_start empty_database polls
    ≡ running (record at_start { rows_written = 3 }) stored
unfolding run_from process_batch take_all take note_offset statements for_each insert_payment
    upsert_offset Dict.put Dict.get Dict.set_default dec_text dec_pair ℕ_discrete payment_row
    to_epoch_ms
run_three = refl

run_from-process_batch_example :
    process_batch setting true at_start empty_database (messages polls)
    ≡ running (record at_start { rows_written = 3 }) stored
run_from-process_batch_example =
    run_from-process_batch setting 0 at_start (record at_start { rows_written = 3 }) empty_database
      stored polls (refl, (refl, (refl, tt))) run_three
