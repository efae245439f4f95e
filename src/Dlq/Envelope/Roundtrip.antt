-- ===== src/Dlq/Envelope/Roundtrip.antt =====
-- An envelope preserves the bytes of its message.
use stream_pipeline.Prelude.{
  ◌<◌, ◌≡◌, ◌+◌, refl, ap, String, Option, none, some, [], ◌∷◌, ok, get_or, All,
}
use stream_pipeline.Common.Topics.{dlq_topic}
use stream_pipeline.Dlq.Base64.{b64encode, b64decode, b64decode-b64encode}
use stream_pipeline.Dlq.Envelope.{
  Bytes, Message, Failure, DlqProducer, DeadLetter, build_envelope, payload, key, handle, decoded,
  encoded,
}

abbrev pub IsBytes : Option Bytes → Type 0
IsBytes none = Unit
IsBytes (some bytes) = All (λ b. b < 256) bytes

decoded-value :
    (value : Option Bytes)
    → IsBytes value
    → decoded (b64decode (b64encode (get_or value []))) ≡ ok (get_or value [])
decoded-value none h = rw (b64decode-b64encode [] tt)
decoded-value (some bytes) h = rw (b64decode-b64encode bytes h)

key-encoded :
    (msg : Message) (error : Failure) (group now : String) (k : Option Bytes)
    → IsBytes k
    → key (record (build_envelope msg error group now) { key_b64 = encoded k }) ≡ ok k
unfolding key
key-encoded msg error group now none h = refl
key-encoded msg error group now (some bytes) h = rw (b64decode-b64encode bytes h)

-- The envelope of a message gives back its payload (empty for a tombstone) and its key, and
-- carries its topic, partition and offset.
pub build_envelope-payload :
    (msg : Message) (error : Failure) (group now : String)
    → IsBytes msg.value
    → IsBytes msg.key
    → let e = build_envelope msg error group now in
      (payload e ≡ ok (get_or msg.value []))
      × (key e ≡ ok msg.key)
      × (e.source_topic ≡ msg.topic)
      × (e.partition ≡ msg.partition)
      × (e.offset ≡ msg.offset)
unfolding build_envelope payload key
build_envelope-payload msg error group now hv hk =
    (decoded-value msg.value hv, key-encoded msg error group now msg.key hk, refl, refl, refl)

-- A handled message puts one record in front of the producer's queue, for the dead-letter topic of
-- its topic, under its own key, with an envelope that gives back its payload; and it is counted.
pub handle-dead_letter :
    (p : DlqProducer) (msg : Message) (error : Failure) (now : String)
    → IsBytes msg.value
    → IsBytes msg.key
    → (letter : DeadLetter) × (handle p msg error now
        ≡ ok (record { produced = letter ∷ p.produced; group = p.group; sent = p.sent + 1 }))
      × (letter.topic ≡ dlq_topic msg.topic)
      × (letter.key ≡ msg.key)
      × (payload letter.envelope ≡ ok (get_or msg.value []))
unfolding handle
handle-dead_letter p msg error now hv hk =
    let (value, k, topic, _, _) = build_envelope-payload msg error p.group now hv hk in
    let e = build_envelope msg error p.group now in
    (
      record { topic = dlq_topic e.source_topic; key = msg.key; envelope = e },
      rw k,
      ap dlq_topic topic,
      refl,
      value,
    )
