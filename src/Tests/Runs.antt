-- ===== src/Tests/Runs.antt =====
-- A run of the Iceberg sink over two polls.
use stream_pipeline.Prelude.{ℕ, [], ◌∷◌, refl, ◌<◌, ◌++◌, List, arith}
use stream_pipeline.Sinks.IcebergSink.{start}
use stream_pipeline.Sinks.IcebergSink.Run.{message, Round, Limits, run}
use stream_pipeline.Sinks.IcebergSink.Run.Written.{
  all_succeed, IsSound, Written, readable_in, run-Written,
}
use stream_pipeline.Tests.Samples.{message_at}
use stream_pipeline.Tests.Lakes.{setting, producer, nowhere, no_rows}

abbrev limits : Limits
limits = record { batch_max_records = 2; flush_interval_ms = 5000 }

abbrev rounds : List Round
rounds =
    (record {
      polled = message (message_at 0) ∷ message (message_at 1) ∷ [];
      elapsed_ms = 0;
      calls = all_succeed;
    })
    ∷ (record { polled = message (message_at 2) ∷ []; elapsed_ms = 100; calls = all_succeed })
    ∷ []

message_at-IsSound : (n : ℕ) → n < 256 → IsSound (message (message_at n))
message_at-IsSound n lt = ((omega arith, (omega arith, (lt, tt))), (omega arith, (omega arith, tt)))

run-Written_example :
    let s = start no_rows producer in
    Written setting limits s no_rows
      (s.buffer ++ readable_in setting limits rounds)
      (run setting limits rounds all_succeed s no_rows nowhere)
run-Written_example = run-Written setting limits rounds (start no_rows producer) no_rows nowhere (
  ((message_at-IsSound 0 (omega arith), (message_at-IsSound 1 (omega arith), tt)), refl),
  (((message_at-IsSound 2 (omega arith), tt), refl), tt),
)
