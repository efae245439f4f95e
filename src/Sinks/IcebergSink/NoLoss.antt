-- ===== src/Sinks/IcebergSink/NoLoss.antt =====
-- The offsets are committed after the append: no readable message before a committed offset is
-- missing from the table.
use stream_pipeline.Prelude.Dict
use stream_pipeline.Prelude.Dict.{Dict}
use stream_pipeline.Prelude.{
  ◌≢◌, ℕ, ◌≡◌, ◌≤◌, ◌<◌, ◌+◌, refl, sym, ap, ◌∙◌, ◌⊎◌, inl, inr, false, not, ◌&&◌, List, [], ◌∷◌,
  In, In-append_left, In-append_right, ok, >>=-eq-ok, ok-injective, Bool-cases, subst, arith,
  get_or, nat_key, is_empty, if_pos, if_neg, ℕ_discrete,
}
use stream_pipeline.Common.Times.{Timestamp}
use stream_pipeline.Common.Events.{RideEvent}
use stream_pipeline.Dlq.Envelope.{Message, DlqProducer, handle}
use stream_pipeline.Sinks.IcebergSink.{
  Lake, IcebergSink, Consumer, Decoded, value, broken, Setting, should_evolve, start,
  ingest_decoded, ingest_one, After, running, dead, Calls, evolve, append_rows, append_commit,
  flush,
}
use stream_pipeline.Sinks.IcebergSink.Stored.{
  IsStored, value-injective, broken-ne-value, evolve-same, append-IsStored, flushed-IsStored,
}

-- A sink that runs, or the table and the offsets that outlive it.
pub data System (F : Type 0) : Type 0 where
  up : IcebergSink F → Lake F → Consumer → System F
  down : Lake F → Consumer → System F

abbrev pub after : {F : Type 0} → After F → System F
after (running s lake consumer) = up s lake consumer
after (dead lake consumer e) = down lake consumer

abbrev pub next_of : Dict ℕ ℕ → ℕ → ℕ
next_of positions partition = get_or (Dict.get partition positions) 0

-- The topic is a list of messages, and each partition is read in the order of its offsets.
module _ {F : Type 0} (c : Setting F) (log : List Message) where
  -- The message is the next one of its partition.
  abbrev pub IsNext : Consumer → Message → Type 0
  IsNext consumer m =
      (next_of consumer.position m.partition ≤ m.offset)
      × ((n : Message)
          → In n log
          → n.partition ≡ m.partition
          → n.offset < m.offset
          → n.offset < next_of consumer.position m.partition)
      × ((n : Message) → In n log → n.partition ≡ m.partition → n.offset ≡ m.offset → n ≡ m)

  abbrev pub passed : Consumer → Message → Consumer
  passed consumer m = record consumer {
    position = Dict.put m.partition (m.offset + 1) consumer.position;
  }

  pub data Step : System F → System F → Type 0 where
    ingested :
        (s s' : IcebergSink F) (lake : Lake F) (consumer : Consumer) (m : Message)
        → IsNext consumer m
        → ingest_one c s m ≡ ok s'
        → Step (up s lake consumer) (up s' lake (passed consumer m))
    flushed :
        (calls : Calls) (s : IcebergSink F) (lake : Lake F) (consumer : Consumer)
        → Step (up s lake consumer) (after (flush calls s lake consumer))
    crashed :
        (s : IcebergSink F) (lake : Lake F) (consumer : Consumer)
        → Step (up s lake consumer) (down lake consumer)
    restarted :
        (lake : Lake F) (consumer : Consumer) (dlq : DlqProducer)
        → Step
            (down lake consumer)
            (up (start lake dlq) lake (record consumer { position = consumer.committed }))

  abbrev pub system_start : System F
  system_start =
      down (record { rows = []; has_promo = false }) (record { position = []; committed = [] })

  pub data Reachable : System F → Type 0 where
    at_start : Reachable system_start
    then_step : {a b : System F} → Reachable a → Step a b → Reachable b

  -- The readable messages before the committed offsets are in the table,
  abbrev pub IsKept : Lake F → Consumer → Type 0
  IsKept lake consumer =
      (m : Message) (v : RideEvent F Timestamp)
      → In m log
      → c.decode m ≡ value v
      → m.offset < next_of consumer.committed m.partition
      → IsStored lake v

  -- and those before the position are in the table or in the buffer.
  abbrev IsHeld : IcebergSink F → Lake F → Consumer → Type 0
  IsHeld s lake consumer =
      (m : Message) (v : RideEvent F Timestamp)
      → In m log
      → c.decode m ≡ value v
      → m.offset < next_of consumer.position m.partition
      → IsStored lake v ⊎ In v s.buffer

  abbrev IsGood : System F → Type 0
  IsGood (up s lake consumer) = IsKept lake consumer × IsHeld s lake consumer
  IsGood (down lake consumer) = IsKept lake consumer

  ingest_one-buffer :
      (s : IcebergSink F) (m : Message) {s' : IcebergSink F}
      → ingest_one c s m ≡ ok s'
      → ((v : RideEvent F Timestamp) → In v s.buffer → In v s'.buffer)
        × ((v : RideEvent F Timestamp) → c.decode m ≡ value v → In v s'.buffer)
  unfolding ingest_one
  ingest_one-buffer s m h = by (c.decode m) refl h
    where
      by :
          {s' : IcebergSink F} (d : Decoded F)
          → c.decode m ≡ d
          → ingest_decoded c s m d ≡ ok s'
          → ((v : RideEvent F Timestamp) → In v s.buffer → In v s'.buffer)
            × ((v : RideEvent F Timestamp) → c.decode m ≡ value v → In v s'.buffer)
      by (value w) e k =
          subst
            (λ (x : IcebergSink F).
              ((v : RideEvent F Timestamp) → In v s.buffer → In v x.buffer)
              × ((v : RideEvent F Timestamp) → c.decode m ≡ value v → In v x.buffer))
            (ok-injective k)
            (
              λ v i. In-append_left v s.buffer (w ∷ []) i,
              λ v f. In-append_right v s.buffer (w ∷ []) (inl (value-injective w v (sym e ∙ f))),
            )
      by (broken x) e k =
          let (dlq, sent, done) = >>=-eq-ok (handle s.dlq m x c.now) _ k in
          subst
            (λ (y : IcebergSink F).
              ((v : RideEvent F Timestamp) → In v s.buffer → In v y.buffer)
              × ((v : RideEvent F Timestamp) → c.decode m ≡ value v → In v y.buffer))
            (ok-injective done) (λ v i. i, λ v f. absurd (broken-ne-value x v (sym e ∙ f)))

  next_of-put :
      (d : Dict ℕ ℕ) (p q n : ℕ)
      → (p ≡ q → next_of (Dict.put p n d) q ≡ n)
        × (p ≢ q → next_of (Dict.put p n d) q ≡ next_of d q)
  next_of-put d p q n = (
    λ e. ap (λ o. get_or o 0) (Dict.get-put p q n d ∙ if_pos (ℕ_discrete p q) e _ _),
    λ e. ap (λ o. get_or o 0) (Dict.get-put p q n d ∙ if_neg (ℕ_discrete p q) e _ _),
  )

  ingested-IsHeld :
      (s s' : IcebergSink F) (lake : Lake F) (consumer : Consumer) (m : Message)
      → IsNext consumer m
      → ingest_one c s m ≡ ok s'
      → IsHeld s lake consumer
      → IsHeld s' lake (passed consumer m)
  ingested-IsHeld s s' lake consumer m (at_least, none_between, one_each) h held n v i d lt =
      let (keeps, adds) = ingest_one-buffer s m h in
      let (same_partition, other_partition) =
        next_of-put consumer.position m.partition n.partition (m.offset + 1) in
      let widen : IsStored lake v ⊎ In v s.buffer → IsStored lake v ⊎ In v s'.buffer =
        λ x. elim x [ inl k ↦ inl k | inr j ↦ inr (keeps v j) ] in
      elim (ℕ_discrete m.partition n.partition) [
        | no q ↦ widen (held n v i d (subst (λ x. n.offset < x) (other_partition q) lt))
        | yes e ↦
            let le : n.offset < m.offset + 1 = subst (λ x. n.offset < x) (same_partition e) lt in
            elim (ℕ_discrete n.offset m.offset) [
              | yes o ↦ inr (adds v (ap c.decode (sym (one_each n i (sym e) o)) ∙ d))
              | no o ↦
                  let earlier : n.offset < m.offset = omega (arith, le, o) in
                  widen (
                    held n v i d (
                      subst (λ x. n.offset < next_of consumer.position x) e
                        (none_between n i (sym e) earlier)))
            ]
      ]

  flush-IsGood :
      (calls : Calls) (s : IcebergSink F) (lake : Lake F) (consumer : Consumer)
      → IsGood (up s lake consumer)
      → IsGood (after (flush calls s lake consumer))
  unfolding flush append_commit
  flush-IsGood calls s lake consumer (kept, held) = elim (Bool-cases (is_empty s.buffer)) [
    | inl e ↦ rw (flush, e) (kept, held)
    | inr e ↦ elim (Bool-cases (should_evolve s.buffer s.has_promo && not calls.evolves)) [
      | inl f ↦ rw (flush, e, f) kept
      | inr f ↦ elim (Bool-cases calls.appends) [
        | inr g ↦ rw (flush, append_commit, e, f, g) kept_update
        | inl g ↦ elim (Bool-cases calls.commits) [
          | inr h ↦ rw (flush, append_commit, e, f, g, h) kept_append
          | inl h ↦
              rw (flush, append_commit, e, f, g, h)
                (all_kept, λ m v i d lt. inl (all_kept m v i d lt))
        ]
      ]
    ]
  ]
    where
      updated : (v : RideEvent F Timestamp) → IsStored lake v → IsStored (evolve s lake).1 v
      updated v (r, i, x) = (r, subst (In r) (sym (evolve-same s lake).1) i, x)

      kept_update : IsKept (evolve s lake).1 consumer
      kept_update m v i d lt = updated v (kept m v i d lt)

      kept_append : IsKept (append_rows (evolve s lake).0 (evolve s lake).1) consumer
      kept_append m v i d lt =
          append-IsStored (evolve s lake).0 (evolve s lake).1 v (kept_update m v i d lt)

      all_kept :
          IsKept
            (append_rows (evolve s lake).0 (evolve s lake).1)
            (record consumer { committed = consumer.position })
      all_kept m v i d lt = elim (held m v i d lt) [
        | inl k ↦ append-IsStored (evolve s lake).0 (evolve s lake).1 v (updated v k)
        | inr j ↦ flushed-IsStored s lake v j
      ]

  Step-IsGood : (x y : System F) → Step x y → IsGood x → IsGood y
  Step-IsGood _ _ (ingested s s' lake consumer m next h) (kept, held) =
      (kept, ingested-IsHeld s s' lake consumer m next h held)
  Step-IsGood _ _ (flushed calls s lake consumer) g = flush-IsGood calls s lake consumer g
  Step-IsGood _ _ (crashed s lake consumer) g = g.0
  Step-IsGood _ _ (restarted lake consumer dlq) kept = (kept, λ m v i d lt. inl (kept m v i d lt))

  Reachable-IsGood : (x : System F) → Reachable x → IsGood x
  unfolding Dict.get
  Reachable-IsGood _ at_start = λ m v i d lt. absurd (omega (arith, lt))
  Reachable-IsGood _ (then_step {a} {b} r step) = Step-IsGood a b step (Reachable-IsGood a r)

  abbrev pub lake_of : System F → Lake F
  lake_of (up s lake consumer) = lake
  lake_of (down lake consumer) = lake

  abbrev pub consumer_of : System F → Consumer
  consumer_of (up s lake consumer) = consumer
  consumer_of (down lake consumer) = consumer

  -- At least once: if the messages of the topic are delivered in the order of their offsets, then
  -- whatever flushes fail at whichever call and whenever the process dies and restarts, every
  -- message before a committed offset that the deserialiser reads has its row in the table, with
  -- its promotion code unless it is an event of version 1.
  pub Reachable-IsKept : (x : System F) → Reachable x → IsKept (lake_of x) (consumer_of x)
  Reachable-IsKept (up s lake consumer) r = (Reachable-IsGood (up s lake consumer) r).0
  Reachable-IsKept (down lake consumer) r = Reachable-IsGood (down lake consumer) r
