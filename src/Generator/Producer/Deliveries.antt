-- ===== src/Generator/Producer/Deliveries.antt =====
-- Sends and deliveries in any order: what the counters and the manifest say of the messages.
use stream_pipeline.Prelude.Dict
use stream_pipeline.Prelude.{
  ◌+◌, ◌≡◌, refl, sym, ap, ◌∙◌, inl, inr, String, Bool, true, false, Bool-cases, Option, none, some,
  some-injective, List, [], ◌∷◌, ◌++◌, select, ok, Ensures, Ensures-ok, >>=-Ensures, text_key,
  arith,
}
use stream_pipeline.Dlq.Envelope.{Bytes}
use stream_pipeline.Generator.Events.{SourceEvent}
use stream_pipeline.Generator.Producer.{
  Flight, KafkaTransport, Setting, stable_id, serialised, flight_of, produce, send, callback,
}
use stream_pipeline.Generator.Producer.Counts.{
  acks, nacks, count_by, of_topic, lines_of, counter_of, counter_of-bump, count_by-snoc,
  count_by-middle, acks-snoc, noted-lines_of,
}

-- What the broker has said so far: each message that was reported on, and whether it was
-- acknowledged, in the order of the callbacks.
pub record Exchange : Type 0 where
  pub transport : KafkaTransport
  pub reported : List (Flight × Bool)
  pub sends : List Flight

module _ {F : Type 0} (c : Setting F) where
  -- `poll` and `flush` run the callback of any message that is in flight.
  pub data Step : Exchange → Exchange → Type 0 where
    sent :
        (x : Exchange) (event : SourceEvent F) (t : KafkaTransport) (f : Flight)
        → send c event x.transport ≡ ok t
        → t.in_flight ≡ x.transport.in_flight ++ f ∷ []
        → Step x (record { transport = t; reported = x.reported; sends = x.sends ++ f ∷ [] })
    delivered :
        (x : Exchange) (before after : List Flight) (f : Flight) (acked : Bool)
        → x.transport.in_flight ≡ before ++ f ∷ after
        → Step x (record x {
          transport = record (callback acked f x.transport) { in_flight = before ++ after };
          reported = x.reported ++ (f, acked) ∷ [];
        })

  abbrev pub start : Option (List (String × String)) → Exchange
  start manifest = record {
    transport = record {
      acked = [];
      failed = [];
      corrupted = 0;
      manifest = manifest;
      in_flight = [];
    };
    reported = [];
    sends = [];
  }

  -- A transport that has just been made, with or without a manifest, which is empty.
  pub data Reachable : Exchange → Type 0 where
    at_start : Reachable (start none)
    with_manifest : Reachable (start (some []))
    then_step : {x y : Exchange} → Reachable x → Step x y → Reachable y

-- What holds of the transport and the reports at every moment.
pub record IsHonest (x : Exchange) : Type 0 where
  pub acked :
      (topic : String)
      → counter_of x.transport.acked topic ≡ count_by (of_topic topic) (acks x.reported)
  pub failed :
      (topic : String)
      → counter_of x.transport.failed topic ≡ count_by (of_topic topic) (nacks x.reported)
  pub manifest :
      (lines : List (String × String))
      → x.transport.manifest ≡ some lines
      → lines ≡ lines_of (acks x.reported)
  pub conserved :
      (p : Flight → Bool)
      → count_by p x.sends
        ≡ count_by p x.transport.in_flight
          + count_by p (acks x.reported)
          + count_by p (nacks x.reported)

-- What a send that returned has done: one more message in flight, made of the event.
abbrev pub IsSent : {F : Type 0} → SourceEvent F → KafkaTransport → KafkaTransport → Type 0
IsSent event t t' =
    (t'.acked ≡ t.acked)
    × (t'.failed ≡ t.failed)
    × (t'.manifest ≡ t.manifest)
    × ((payload : Bytes) × (id : Option String) × (stable_id event ≡ ok id)
        × (t'.in_flight ≡ t.in_flight ++ flight_of event payload id ∷ []))

send-IsSent :
    {F : Type 0} (c : Setting F) (event : SourceEvent F) (t : KafkaTransport)
    → Ensures (IsSent event t) (send c event t)
unfolding send
send-IsSent c event t =
    >>=-Ensures (IsSent event t) (serialised (c.serializers event.topic) event.value) _ λ payload e.
      >>=-Ensures (IsSent event t) (stable_id event) _ λ id e'.
        elim (Bool-cases (c.accepts (flight_of event payload id))) [
          | inl b ↦ rw (produce, b) (refl, refl, refl, (payload, id, e', refl))
          | inr b ↦ rw (produce, b) tt
        ]

module _ {F : Type 0} (c : Setting F) where
  sent-IsHonest :
      (x : Exchange) (event : SourceEvent F) (t : KafkaTransport) (f : Flight)
      → send c event x.transport ≡ ok t
      → t.in_flight ≡ x.transport.in_flight ++ f ∷ []
      → IsHonest x
      → IsHonest (record { transport = t; reported = x.reported; sends = x.sends ++ f ∷ [] })
  sent-IsHonest x event t f h joined honest =
      let (acked, failed, manifest, _) =
        Ensures-ok (IsSent event x.transport) (send c event x.transport) h
          (send-IsSent c event x.transport) in
      record {
        acked = λ topic. ap (λ d. counter_of d topic) acked ∙ honest.acked topic;
        failed = λ topic. ap (λ d. counter_of d topic) failed ∙ honest.failed topic;
        manifest = λ lines e. honest.manifest lines (sym manifest ∙ e);
        conserved = λ p. omega (
          arith,
          honest.conserved p,
          count_by-snoc p x.sends f,
          ap (count_by p) joined,
          count_by-snoc p x.transport.in_flight f,
        );
      }

  delivered-IsHonest :
      (x : Exchange) (before after : List Flight) (f : Flight) (acked : Bool)
      → x.transport.in_flight ≡ before ++ f ∷ after
      → IsHonest x
      → IsHonest (record x {
        transport = record (callback acked f x.transport) { in_flight = before ++ after };
        reported = x.reported ++ (f, acked) ∷ [];
      })
  unfolding callback
  delivered-IsHonest x before after f true there honest =
      let (a, _, n, _) = acks-snoc x.reported f in
      record {
        acked = λ topic. omega (
          arith,
          counter_of-bump f.topic topic x.transport.acked,
          honest.acked topic,
          ap (count_by (of_topic topic)) a,
          count_by-snoc (of_topic topic) (acks x.reported) f,
        );
        failed = λ topic. honest.failed topic ∙ ap (count_by (of_topic topic)) (sym n);
        manifest = λ lines e.
            noted-lines_of f x.transport.manifest (acks x.reported) honest.manifest lines e
            ∙ ap lines_of (sym a);
        conserved = λ p. omega (
          arith,
          honest.conserved p,
          ap (count_by p) there,
          count_by-middle p before after f,
          ap (count_by p) a,
          ap (count_by p) n,
          count_by-snoc p (acks x.reported) f,
        );
      }
  delivered-IsHonest x before after f false there honest =
      let (_, a, _, n) = acks-snoc x.reported f in
      record {
        acked = λ topic. honest.acked topic ∙ ap (count_by (of_topic topic)) (sym a);
        failed = λ topic. omega (
          arith,
          counter_of-bump f.topic topic x.transport.failed,
          honest.failed topic,
          ap (count_by (of_topic topic)) n,
          count_by-snoc (of_topic topic) (nacks x.reported) f,
        );
        manifest = λ lines e. honest.manifest lines e ∙ ap lines_of (sym a);
        conserved = λ p. omega (
          arith,
          honest.conserved p,
          ap (count_by p) there,
          count_by-middle p before after f,
          ap (count_by p) a,
          ap (count_by p) n,
          count_by-snoc p (nacks x.reported) f,
        );
      }

  -- The books of the transport are true at every moment, whatever is sent and in whichever order
  -- and with whichever outcome the broker reports: for every topic the two counters are the numbers
  -- of its acknowledged and of its failed messages; the manifest, where there is one, holds exactly
  -- the topic and identifier of each acknowledged message that has an identifier and is not
  -- corrupt, in the order of the reports; and of any kind of message as many were sent as are in
  -- flight, acknowledged or failed.
  pub Reachable-IsHonest : (x : Exchange) → Reachable c x → IsHonest x
  unfolding Dict.get select
  Reachable-IsHonest _ at_start = record {
    acked = λ topic. refl;
    failed = λ topic. refl;
    manifest = λ lines e. cc;
    conserved = λ p. omega arith;
  }
  Reachable-IsHonest _ with_manifest = record {
    acked = λ topic. refl;
    failed = λ topic. refl;
    manifest = λ lines e. some-injective (sym e);
    conserved = λ p. omega arith;
  }
  Reachable-IsHonest _ (then_step {x} r (sent _ event t f h joined)) =
      sent-IsHonest x event t f h joined (Reachable-IsHonest x r)
  Reachable-IsHonest _ (then_step {x} r (delivered _ before after f acked there)) =
      delivered-IsHonest x before after f acked there (Reachable-IsHonest x r)
