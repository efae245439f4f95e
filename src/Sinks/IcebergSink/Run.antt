-- ===== src/Sinks/IcebergSink/Run.antt =====
-- src/sinks/iceberg_sink.py: `run`, over what the consumer returns in each poll.
pub mod Rows
pub mod Written
use stream_pipeline.Prelude.Dict
use stream_pipeline.Prelude.{
  ℕ, ◌+◌, Bool, List, [], ◌∷◌, Result, ok, raise, Error, runtime_error, ◌>>=◌, if◌then◌else◌,
  nat_key,
}
use stream_pipeline.Dlq.Envelope.{Message}
use stream_pipeline.Sinks.IcebergSink.{
  Lake, IcebergSink, Consumer, Setting, ingest_one, should_flush, After, running, dead, Calls,
  flush,
}

pub data Polled : Type 0 where
  message : Message → Polled
  failed : Polled

-- A round of the loop: what the poll returns, the time since the last flush, and whether the calls
-- of a flush succeed then.
pub record Round : Type 0 where
  pub polled : List Polled
  pub elapsed_ms : ℕ
  pub calls : Calls

-- `IcebergSinkConfig`
pub record Limits : Type 0 where
  pub batch_max_records : ℕ
  pub flush_interval_ms : ℕ

-- the position of the consumer after a poll
abbrev pub past : Consumer → List Polled → Consumer
past consumer [] = consumer
past consumer (failed ∷ ps) = past consumer ps
past consumer (message m ∷ ps) =
    past (record consumer { position = Dict.put m.partition (m.offset + 1) consumer.position }) ps

module _ {F : Type 0} (c : Setting F) (limits : Limits) where
  -- `_ingest`
  unfoldable pub ingest : IcebergSink F → List Polled → Result (IcebergSink F)
  unfolding ingest_one
  ingest s [] = ok s
  ingest s (failed ∷ ps) = raise runtime_error
  ingest s (message m ∷ ps) = ingest_one c s m >>= λ s'. ingest s' ps

  -- an exception ends the run
  abbrev pub goes_on : After F → (IcebergSink F → Lake F → Consumer → After F) → After F
  goes_on (running s lake consumer) next = next s lake consumer
  goes_on (dead lake consumer e) next = dead lake consumer e

  abbrev pub after_ingest :
      Lake F → Consumer → Result (IcebergSink F) → (IcebergSink F → After F) → After F
  after_ingest lake consumer (raise e) next = dead lake consumer e
  after_ingest lake consumer (ok s) next = next s

  -- `run`: the loop ends with these rounds, and then all that is left is flushed
  unfoldable pub run : List Round → Calls → IcebergSink F → Lake F → Consumer → After F
  unfolding ingest should_flush flush
  run [] last s lake consumer = flush last s lake consumer
  run (round ∷ rounds) last s lake consumer =
      let consumer' = past consumer round.polled in
      after_ingest lake consumer' (ingest s round.polled) (λ s'.
        let flushed =
          goes_on (flush round.calls s' lake consumer')
            (λ s'' lake' consumer''. run rounds last s'' lake' consumer'') in
        let kept = run rounds last s' lake consumer' in
        if should_flush s' limits.batch_max_records round.elapsed_ms limits.flush_interval_ms
        then flushed
        else kept)
