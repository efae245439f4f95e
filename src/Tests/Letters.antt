-- ===== src/Tests/Letters.antt =====
-- Dead letters and their replay.
use stream_pipeline.Prelude.{
  ℕ, ◌≡◌, ◌<◌, ◌+◌, false, not, none, some, List, [], ◌∷◌, map, length, select, All, arith, ok,
  ◌>>=◌,
}
use stream_pipeline.Common.Topics.{dlq_topic}
use stream_pipeline.Dlq.Base64.{b64encode, b64decode, b64decode-b64encode}
use stream_pipeline.Dlq.Envelope.{
  Message, Failure, DlqProducer, DeadLetter, build_envelope, handle, payload, key,
}
use stream_pipeline.Dlq.Envelope.Roundtrip.{build_envelope-payload, handle-dead_letter}
use stream_pipeline.Scripts.ReplayDlq.{repair_magic_byte, corrupt_payload, Options, replay}
use stream_pipeline.Scripts.ReplayDlq.Drain.{
  Item, poisoned, error, polls_of, drain_dlq, drain_dlq-replay,
}
use stream_pipeline.Scripts.ReplayDlq.Replays.{
  Poison, envelope_of, is_selected, resent, sent_if, replay-poisons,
  repair_magic_byte-corrupt_payload,
}
use stream_pipeline.Tests.Samples.{message_at}

abbrev failure : Failure
failure = record { kind = "SerializationError"; text = "unknown magic byte" }

abbrev bytes : List ℕ
bytes = 255 ∷ 1 ∷ 3 ∷ 7 ∷ []

abbrev poison : Message
poison = record (message_at 3) { value = some bytes }

bytes-All : All (λ b. b < 256) bytes
bytes-All = (omega arith, (omega arith, (omega arith, (omega arith, tt))))

poison_key-All : All (λ b. b < 256) (114 ∷ 49 ∷ [])
poison_key-All = (omega arith, (omega arith, tt))

b64decode-b64encode_example : b64decode (b64encode bytes) ≡ some bytes
b64decode-b64encode_example = b64decode-b64encode bytes bytes-All

build_envelope-payload_example :
    let e = build_envelope poison failure "pg-sink" "now" in
    (payload e ≡ ok bytes)
    × (key e ≡ ok poison.key)
    × (e.source_topic ≡ poison.topic)
    × (e.partition ≡ poison.partition)
    × (e.offset ≡ poison.offset)
build_envelope-payload_example =
    build_envelope-payload poison failure "pg-sink" "now" bytes-All poison_key-All

abbrev producer : DlqProducer
producer = record { produced = []; group = "pg-sink"; sent = 0 }

handle-dead_letter_example :
    (letter : DeadLetter) × (handle producer poison failure "now"
      ≡ ok (record { produced = letter ∷ []; group = "pg-sink"; sent = 0 + 1 }))
    × (letter.topic ≡ dlq_topic poison.topic)
    × (letter.key ≡ poison.key)
    × (payload letter.envelope ≡ ok bytes)
handle-dead_letter_example =
    handle-dead_letter producer poison failure "now" bytes-All poison_key-All

abbrev options : Options
options = record { predicate = none; transform = some repair_magic_byte; dry_run = false }

abbrev poisons : List Poison
poisons = (poison, (failure, "now")) ∷ []

replay-poisons_example :
    replay options (map (envelope_of "pg-sink") poisons)
    ≡ ok (
      record {
        seen = length poisons;
        filtered_out = length (select (λ p. not (is_selected options "pg-sink" p)) poisons);
        replayed = length (select (is_selected options "pg-sink") poisons);
        dry_run = false;
      },
      sent_if false (map (resent options) (select (is_selected options "pg-sink") poisons)),
    )
replay-poisons_example = replay-poisons options "pg-sink" poisons ((bytes-All, poison_key-All), tt)

repair_magic_byte-corrupt_payload_example :
    repair_magic_byte (corrupt_payload (0 ∷ 1 ∷ [])) ≡ 0 ∷ 1 ∷ []
repair_magic_byte-corrupt_payload_example = repair_magic_byte-corrupt_payload (1 ∷ [])

-- A quiet poll, one with a letter and an error, and a quiet one.
abbrev polls : List (List Item)
polls = [] ∷ (error ∷ poisoned (poison, (failure, "now")) ∷ []) ∷ [] ∷ []

drain_dlq-replay_example :
    (drain_dlq 5 (polls_of "pg-sink" polls) >>= replay options)
    ≡ ok (
      record {
        seen = length poisons;
        filtered_out = length (select (λ p. not (is_selected options "pg-sink" p)) poisons);
        replayed = length (select (is_selected options "pg-sink") poisons);
        dry_run = false;
      },
      sent_if false (map (resent options) (select (is_selected options "pg-sink") poisons)),
    )
drain_dlq-replay_example =
    drain_dlq-replay "pg-sink" options 5 polls (omega arith, (omega arith, (omega arith, tt)))
      ((bytes-All, poison_key-All), tt)
