-- ===== src/Tests/Lakes.antt =====
-- The Iceberg sink, and the imperfections of the generator.
use stream_pipeline.Prelude.Dict
use stream_pipeline.Prelude.{
  ℕ, ◌≡◌, ◌≤◌, ◌<◌, ◌+◌, refl, sym, inl, inr, true, false, none, List, [], ◌∷◌, length, In, arith,
  ok,
}
use stream_pipeline.Common.Times.{millis}
use stream_pipeline.Common.Topics.{rides_events}
use stream_pipeline.Dlq.Envelope.{Message, DlqProducer}
use stream_pipeline.Sinks.IcebergSink.{
  Lake, IcebergSink, Consumer, value, Setting, start, ingest_one, Calls, flush,
}
use stream_pipeline.Sinks.IcebergSink.NoLoss.{
  Reachable, restarted, ingested, flushed, at_start, then_step, IsKept, passed, after, lake_of,
  consumer_of, Reachable-IsKept,
}
use stream_pipeline.Generator.Random.{Random}
use stream_pipeline.Generator.Config.{GeneratorConfig}
use stream_pipeline.Generator.Events.{SourceEvent, ride}
use stream_pipeline.Generator.Imperfections.{Imperfector, altered, process, release_due, pending}
use stream_pipeline.Generator.Imperfections.Fates.{
  Fate, IsCounted, process-Fate, release_due-pending,
}
use stream_pipeline.Tests.Samples.{nat_floats, event_of, message_at}

abbrev pub setting : Setting ℕ
setting = record { decode = λ m. value (event_of "e1" "requested" (millis m.offset)); now = "now" }

abbrev log : List Message
log = message_at 0 ∷ []

abbrev pub producer : DlqProducer
producer = record { produced = []; group = "iceberg-sink"; sent = 0 }

abbrev calls_ok : Calls
calls_ok = record { evolves = true; appends = true; commits = true }

abbrev pub nowhere : Consumer
nowhere = record { position = []; committed = [] }

abbrev pub no_rows : Lake ℕ
no_rows = record { rows = []; has_promo = false }

abbrev one_held : IcebergSink ℕ
one_held = record (start no_rows producer) { buffer = event_of "e1" "requested" (millis 0) ∷ [] }

ingest_one-once : ingest_one setting (start no_rows producer) (message_at 0) ≡ ok one_held
unfolding ingest_one
ingest_one-once = refl

-- Started, one message ingested, and flushed.
flushed_once :
    Reachable setting log
      (after (flush calls_ok one_held no_rows (passed setting log nowhere (message_at 0))))
unfolding Dict.get
flushed_once =
    then_step
      (then_step (then_step at_start (restarted no_rows nowhere producer)) (
        ingested (start no_rows producer) one_held no_rows nowhere (message_at 0)
          (
            omega arith,
            λ n i p lt. absurd (omega (arith, lt)),
            λ n i p o. elim i [ inl e ↦ sym e | inr j ↦ absurd j ],
          )
          ingest_one-once))
      (flushed calls_ok one_held no_rows (passed setting log nowhere (message_at 0)))

Reachable-IsKept_example :
    let x = after (flush calls_ok one_held no_rows (passed setting log nowhere (message_at 0))) in
    IsKept setting log (lake_of setting log x) (consumer_of setting log x)
Reachable-IsKept_example = Reachable-IsKept setting log _ flushed_once

-- Draws that count.
abbrev pub counter : Random nat_floats
counter = record {
  State = ℕ;
  random = λ s. (s, s + 1);
  uniform = λ low high s. (low, s + 1);
  gauss = λ mean sigma s. (mean, s + 1);
  expovariate = λ rate s. (rate, s + 1);
  randrange = λ n s. (0, s + 1);
}

abbrev pub config : GeneratorConfig ℕ
config = record {
  seed = 1;
  speed = 1;
  duration_sec = 1;
  anchor_ms = none;
  tick_ms = 1000;
  base_rides_per_min = 1;
  abandon_rate = 0;
  cancel_probability = none;
  drivers_total = 4;
  ping_interval_sec = 5;
  offline_prob_per_ping = 0;
  diurnal = false;
  dup_rate = 2;
  ooo_rate = 3;
  ooo_max_skew_sec = 30;
  late_rate = 0;
  late_max_sec = 60;
  malformed_rate = 1;
  null_field_rate = 0;
  bad_data_rate = 0;
  evolve_after_sec = none;
}

abbrev pub a_ride : SourceEvent ℕ
a_ride = record {
  topic = rides_events;
  key = "r1";
  value = ride (event_of "r1.1" "requested" 5);
  ts_ms = 5;
  corrupt = false;
}

abbrev pub imperfector : Imperfector ℕ ℕ
imperfector = record {
  rng = 1;
  held = (40, a_ride) ∷ [];
  stats = record {
    duplicate = 0;
    out_of_order = 0;
    late = 0;
    malformed = 0;
    null_field = 0;
    bad_data = 0;
    clean = 0;
  };
}

process-Fate_example :
    let e = (altered nat_floats counter config imperfector a_ride).0 in
    Fate imperfector e 7 (process nat_floats counter config imperfector a_ride 7)
    × IsCounted imperfector (process nat_floats counter config imperfector a_ride 7)
process-Fate_example = process-Fate nat_floats counter config imperfector a_ride 7 refl

release_due-pending_example :
    let (due, m') = release_due imperfector 40 in
    (length due + pending m' ≡ pending imperfector)
    × ((at_ms : ℕ) (event : SourceEvent ℕ)
        → In (at_ms, event) imperfector.held
        → (at_ms ≤ 40 → In event due) × (40 < at_ms → In (at_ms, event) m'.held))
    × ((at_ms : ℕ) (event : SourceEvent ℕ) → In (at_ms, event) m'.held → 40 < at_ms)
release_due-pending_example = release_due-pending 40 imperfector
