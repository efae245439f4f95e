-- ===== src/Dlq/Envelope.antt =====
-- src/dlq/envelope.py: the envelope of a dead letter. `envelope_bytes` and `parse_envelope` are
-- JSON text and not modelled: a produced envelope is kept as a value.
pub mod Roundtrip
use Prim.Native.String.{◌++◌}
use stream_pipeline.Prelude.{
  ℕ, ◌+◌, String, Option, none, some, List, [], ◌∷◌, Result, ok, raise, value_error, ◌>>=◌, get_or,
}
use stream_pipeline.Common.Topics.{dlq_topic}
use stream_pipeline.Dlq.Base64.{b64encode, b64decode}

abbrev pub Bytes : Type 0
Bytes = List ℕ

-- What a consumer delivers; `value` is `None` for a tombstone.
pub record Message : Type 0 where
  pub topic : String
  pub partition : ℕ
  pub offset : ℕ
  pub key : Option Bytes
  pub value : Option Bytes

-- An exception: the name of its class, and its text.
pub record Failure : Type 0 where
  pub kind : String
  pub text : String

pub record Envelope : Type 0 where
  pub source_topic : String
  pub partition : ℕ
  pub offset : ℕ
  pub key_b64 : Option Bytes
  pub payload_b64 : Bytes
  pub error : String
  pub consumer_group : String
  pub failed_at : String

abbrev pub decoded : Option Bytes → Result Bytes
decoded none = raise value_error
decoded (some bytes) = ok bytes

unfoldable pub payload : Envelope → Result Bytes
payload e = decoded (b64decode e.payload_b64)

unfoldable pub key : Envelope → Result (Option Bytes)
key e = elim e.key_b64 [
  | none ↦ ok none
  | some text ↦ decoded (b64decode text) >>= λ bytes. ok (some bytes)
]

abbrev pub encoded : Option Bytes → Option Bytes
encoded none = none
encoded (some bytes) = some (b64encode bytes)

-- `now` is the clock's reading as ISO text.
unfoldable pub build_envelope : Message → Failure → String → String → Envelope
build_envelope msg error consumer_group now = record {
  source_topic = msg.topic;
  partition = msg.partition;
  offset = msg.offset;
  key_b64 = encoded msg.key;
  payload_b64 = b64encode (get_or msg.value []);
  error = error.kind ++ ": " ++ error.text;
  consumer_group = consumer_group;
  failed_at = now;
}

-- A record handed to a producer, with the envelope for its value.
pub record DeadLetter : Type 0 where
  pub topic : String
  pub key : Option Bytes
  pub envelope : Envelope

-- `DlqProducer`: its producer's queue of records, and the count of what was sent.
pub record DlqProducer : Type 0 where
  pub produced : List DeadLetter
  pub group : String
  pub sent : ℕ

unfoldable pub dead_letter : Envelope → Result DeadLetter
dead_letter e = do
  k ← key e
  ok (record { topic = dlq_topic e.source_topic; key = k; envelope = e })

unfoldable pub handle : DlqProducer → Message → Failure → String → Result DlqProducer
unfolding dead_letter
handle p msg error now = do
  letter ← dead_letter (build_envelope msg error p.group now)
  ok (record p { produced = letter ∷ p.produced; sent = p.sent + 1 })
