-- ===== src/Generator/Producer.antt =====
-- src/generator/producer.py: `KafkaTransport`, its delivery callbacks and the manifest.
pub mod Counts
pub mod Deliveries
use stream_pipeline.Prelude.Dict
use stream_pipeline.Prelude.Dict.{Dict}
use stream_pipeline.Prelude.{
  ℕ, ◌+◌, String, Bool, true, false, not, ◌&&◌, Option, none, some, List, [], ◌∷◌, ◌++◌, Result, ok,
  raise, key_error, library, ◌>>=◌, str_eq, text_key, if◌then◌else◌, get_or,
}
use stream_pipeline.Common.Topics.{rides_events, payments_transactions}
use stream_pipeline.Dlq.Envelope.{Bytes}
use stream_pipeline.Scripts.ReplayDlq.{corrupt_payload}
use stream_pipeline.Generator.Events.{SourceEvent, Value, Payment, ride, payment, location}

-- A message that the client library has and will report on, with what the callback closes over.
pub record Flight : Type 0 where
  pub topic : String
  pub key : String
  pub payload : Bytes
  pub stable_id : Option String
  pub corrupt : Bool

-- `manifest` holds the lines written, a topic and an identifier each, where there is a file.
pub record KafkaTransport : Type 0 where
  pub acked : Dict String ℕ
  pub failed : Dict String ℕ
  pub corrupted : ℕ
  pub manifest : Option (List (String × String))
  pub in_flight : List Flight

-- The serialisers by topic, and whether the library's queue takes a message.
pub record Setting (F : Type 0) : Type 0 where
  pub serializers : String → Option (Value F → Result Bytes)
  pub accepts : Flight → Bool

-- `counter[topic] += 1`
abbrev pub bump : String → Dict String ℕ → Dict String ℕ
bump topic counter = Dict.put topic (get_or (Dict.get topic counter) 0 + 1) counter

abbrev event_id_of : {F : Type 0} → Value F → Result (Option String)
event_id_of (ride v) = ok (some v.event_id)
event_id_of (payment p) = raise key_error
event_id_of (location l) = raise key_error

abbrev txn_id_of : {F : Type 0} → Value F → Result (Option String)
txn_id_of (payment p) = ok (some p.txn_id)
txn_id_of (ride v) = raise key_error
txn_id_of (location l) = raise key_error

-- `_stable_id`
unfoldable pub stable_id : {F : Type 0} → SourceEvent F → Result (Option String)
stable_id event =
    if str_eq event.topic rides_events
    then event_id_of event.value
    else (if str_eq event.topic payments_transactions then txn_id_of event.value else ok none)

abbrev serialised : {F : Type 0} → Option (Value F → Result Bytes) → Value F → Result Bytes
serialised none value = raise key_error
serialised (some serialize) value = serialize value

unfoldable pub flight_of : {F : Type 0} → SourceEvent F → Bytes → Option String → Flight
unfolding corrupt_payload
flight_of event payload id = record {
  topic = event.topic;
  key = event.key;
  payload = if event.corrupt then corrupt_payload payload else payload;
  stable_id = id;
  corrupt = event.corrupt;
}

-- `self._producer.produce`, which raises where the queue is full
unfoldable pub produce : {F : Type 0} → Setting F → Flight → KafkaTransport → Result KafkaTransport
produce c f t =
    if c.accepts f
    then ok (record t {
      corrupted = if f.corrupt then t.corrupted + 1 else t.corrupted;
      in_flight = t.in_flight ++ f ∷ [];
    })
    else raise library

-- `send`, up to the callbacks that `poll` runs; an exception ends the generator
unfoldable pub send :
    {F : Type 0} → Setting F → SourceEvent F → KafkaTransport → Result KafkaTransport
unfolding stable_id flight_of produce
send c event t = serialised (c.serializers event.topic) event.value >>= λ payload.
    stable_id event >>= λ id. produce c (flight_of event payload id) t

abbrev pub line_of : Flight → Option String → Bool → List (String × String)
line_of f none corrupt = []
line_of f (some id) corrupt = if corrupt then [] else (f.topic, id) ∷ []

abbrev pub noted : Flight → Option (List (String × String)) → Option (List (String × String))
noted f none = none
noted f (some lines) = some (lines ++ line_of f f.stable_id f.corrupt)

-- the callback of `_on_delivery`, with whether the broker acknowledged the message
unfoldable pub callback : Bool → Flight → KafkaTransport → KafkaTransport
callback acked f t =
    if acked
    then record t { acked = bump f.topic t.acked; manifest = noted f t.manifest }
    else record t { failed = bump f.topic t.failed }
