-- ===== src/Processors/Sessionizer/Outcomes.antt =====
-- The two outcomes of `process_batch`: all that its messages stand for is visible, or nothing is.
use stream_pipeline.Prelude.Dict
use stream_pipeline.Prelude.{
  ℕ, ◌≡◌, refl, sym, ap, inl, inr, Bool, false, not, ◌&&◌, List, [], ◌∷◌, ◌++◌, is_empty,
  Bool-cases, Result, ok, raise, Error, >>=-eq-ok, ok-injective, library, text_key, Ensures-ok, map,
  In, ◌∙◌, subst, nat_key,
}
use stream_pipeline.Common.Floats.{Floats}
use stream_pipeline.Common.Events.{RideEvent}
use stream_pipeline.Common.Times.{Timestamp}
use stream_pipeline.Dlq.Envelope.{Message}
use stream_pipeline.Generator.StateMachine.{ride_event_type}
use stream_pipeline.Processors.SessionBuilder.{Session}
use stream_pipeline.Processors.StateStore.{StateStore, CloseRow, append_batch, is_closed}
use stream_pipeline.Processors.Sessionizer.State.{
  Sessionizer, Produced, Broker, session, clean, text,
}
use stream_pipeline.Processors.Sessionizer.Batch.{
  Batch, empty_batch, Setting, Polled, message, value, take_all,
}
use stream_pipeline.Processors.Sessionizer.Unknown.{take_all-unknown}
use stream_pipeline.Processors.Sessionizer.Letters.{AreLetters, letter_records-AreLetters}
use stream_pipeline.Processors.Sessionizer.Noted.{offsets_in, next_after, commit_offsets-next_after}
use stream_pipeline.Processors.Sessionizer.Contents.{events_of, envelopes_of, Grown, take_all-Taken}
use stream_pipeline.Processors.Sessionizer.Process.{
  collect_closes, letter_records, session_record, clean_record, After, running, dead, gather,
  finish_gathered, finish, transact, transaction, end_transaction, all_encode, then_forget, records,
  sessions_of, process_batch, forget,
}

module _ {F : Type 0} where
  -- The records of the messages are in the log: the sessions, then the events as they were read,
  -- then the dead letters, each in order. Of each partition the committed offset is the one after
  -- its largest, or as before if it has none.
  pub record IsCommitted (c : Setting F) (msgs : List Polled) (store : StateStore F) (b : Batch F)
      (closes : List (CloseRow F)) (broker broker' : Broker F) (s' : Sessionizer F)
      (sessions : List (Session F)) : Type 0 where
    pub letters : List (Produced F)
    pub are_letters : AreLetters (envelopes_of c msgs) letters
    pub log :
        broker'.log
        ≡ broker.log
          ++ (map
                (λ x. record {
                  topic = "rides.sessions";
                  key = text x.ride_id;
                  payload = session x;
                })
                sessions
              ++ (map
                    (λ v. record {
                      topic = "rides.events.clean";
                      key = text v.ride_id;
                      payload = clean v;
                    })
                    (events_of c msgs)
                  ++ letters))
    pub committed :
        (p : ℕ)
        → Dict.get p broker'.committed
          ≡ next_after (Dict.get p broker.committed) (offsets_in p msgs)
    pub returned : sessions ≡ sessions_of closes
    pub stored : s'.store ≡ append_batch store b.journal closes

  abbrev pub IsOutcome :
      Setting F
      → List Polled
      → StateStore F
      → Batch F
      → List (CloseRow F)
      → Broker F
      → After F
      → Type 0
  IsOutcome c msgs store b closes broker (running s' broker' sessions) =
      IsCommitted c msgs store b closes broker broker' s' sessions
  IsOutcome c msgs store b closes broker (dead store' broker' e) = broker' ≡ broker

  forget-store : (cs : List (CloseRow F)) (s : Sessionizer F) → (forget cs s).store ≡ s.store
  unfolding forget
  forget-store [] s = refl
  forget-store (c ∷ cs) s = forget-store cs (record s {
    accs = Dict.pop c.ride_id s.accs;
    acc_partition = Dict.pop c.ride_id s.acc_partition;
  })

  module _ (c : Setting F) (commits : Bool) (s : Sessionizer F) (broker : Broker F)
      (msgs : List Polled) (store : StateStore F) (b : Batch F) (closes : List (CloseRow F))
      (same : s.store ≡ store)
      (grown : Grown empty_batch b
        (events_of c msgs)
        (envelopes_of c msgs)
        (λ p. offsets_in p msgs)) where
    abbrev stored : Sessionizer F
    stored = record s { store = append_batch s.store b.journal closes }

    transaction-IsOutcome :
        (t : Result (Broker F))
        → transaction c.encodes commits broker (sessions_of closes) b ≡ t
        → IsOutcome c msgs store b closes broker
            (then_forget closes (end_transaction stored broker (sessions_of closes) b t))
    unfolding transaction records Dict.get
    transaction-IsOutcome (raise e) h = refl
    transaction-IsOutcome (ok broker') h =
        let (rs, made, rest) = >>=-eq-ok (records (sessions_of closes) b) _ h in
        let (letters, lettered, all) = >>=-eq-ok (letter_records b.poisons) _ made in
        elim (Bool-cases (all_encode c.encodes rs && commits)) [
          | inl e ↦
              let done = ok-injective (rw (transaction, e) at rest) in
              record {
                letters = letters;
                are_letters =
                    subst (λ es. AreLetters es letters) grown.letters
                      (Ensures-ok (AreLetters b.poisons) (letter_records b.poisons) lettered
                        (letter_records-AreLetters F b.poisons));
                log =
                    ap (λ (x : Broker F). x.log) (sym done)
                    ∙ ap (λ l. broker.log ++ l)
                        (sym (ok-injective all)
                          ∙ ap
                              (λ vs.
                                map session_record (sessions_of closes)
                                ++ (map clean_record vs ++ letters))
                              grown.clean);
                committed = λ p.
                    ap (λ (x : Broker F). Dict.get p x.committed) (sym done)
                    ∙ commit_offsets-next_after broker.committed b.batch_state p (offsets_in p msgs)
                        (grown.distinct tt) (grown.noted p [] refl);
                returned = refl;
                stored = forget-store closes _ ∙ ap (λ x. append_batch x b.journal closes) same;
              }
          | inr e ↦ let never : raise library ≡ ok broker' = rw (transaction, e) at rest in cc
        ]

    finish-IsOutcome : IsOutcome c msgs store b closes broker (finish c commits s broker b closes)
    unfolding finish transact
    finish-IsOutcome = elim (Bool-cases (c.crash_after_state_commit && not (is_empty closes))) [
      | inl e ↦ rw e refl
      | inr e ↦ rw e (transaction-IsOutcome _ refl)
    ]

module _ (fl : Floats) where
  open fl use {Float}

  -- The batch was gathered, and either committed as a whole or given up; or it was not gathered,
  -- and the process is dead with the store as it was.
  abbrev pub IsOutcomeOf :
      Setting Float
      → List Polled
      → Sessionizer Float
      → Broker Float
      → After Float
      → Result (Sessionizer Float × (Batch Float × List (CloseRow Float)))
      → Type 0
  IsOutcomeOf c msgs s broker a (ok (s', (b, closes))) = IsOutcome c msgs s.store b closes broker a
  IsOutcomeOf c msgs s broker a (raise e) = a ≡ dead s.store broker e

  -- If the process goes on after a batch, then there are appended to the log, in this order, the
  -- sessions that it returns, the events of all messages that can be read, with their times
  -- normalised, and a dead letter for each message that cannot, under its raw key; of each
  -- partition the committed offset is one after the largest offset of its messages, and as before
  -- if there is none; and the journal and the closes are in the store. If it dies, the broker is
  -- exactly as it was, and where the messages could not be gathered so is the store.
  pub process_batch-outcome :
      (c : Setting Float) (commits : Bool) (s : Sessionizer Float) (broker : Broker Float)
      (msgs : List Polled)
      → IsOutcomeOf c msgs s broker (process_batch fl c commits s broker msgs) (gather fl c s msgs)
  unfolding process_batch gather
  process_batch-outcome c commits s broker msgs = of (gather fl c s msgs) refl
    where
      of :
          (r : Result (Sessionizer Float × (Batch Float × List (CloseRow Float))))
          → gather fl c s msgs ≡ r
          → IsOutcomeOf c msgs s broker (finish_gathered fl c commits s broker r) r
      of (raise e) h = refl
      of (ok (s', (b, closes))) h =
          let ((s1, b1), taken, rest) = >>=-eq-ok (take_all c s empty_batch msgs) _ h in
          let (same, grown) =
            Ensures-ok _ (take_all c s empty_batch msgs) taken
              (take_all-Taken c s empty_batch msgs) in
          let (closed, found, done) =
            >>=-eq-ok (collect_closes fl s1 b1.batch_state c.session_timeout_ms s1.accs) _ rest in
          let left = ok-injective done in
          finish-IsOutcome c commits s' broker msgs s.store b closes
            (ap (λ x. x.0.store) (sym left) ∙ same)
            (subst
              (λ x.
                Grown empty_batch x (events_of c msgs) (envelopes_of c msgs)
                  (λ p. offsets_in p msgs))
              (ap (λ x. x.1.0) left) grown)

module _ (fl : Floats) where
  open fl use {Float}

  -- A message that decodes to an event of no known type, of a ride that the store has not closed,
  -- ends every process that consumes it, wherever it stands in a batch and whatever the batch holds
  -- besides: the store and the broker are left unchanged, so no other message of the batch is
  -- committed either, and none is dead-lettered.
  pub process_batch-unknown_type :
      (c : Setting Float) (commits : Bool) (s : Sessionizer Float) (broker : Broker Float)
      (m : Message) (msgs : List Polled) (v : RideEvent Float Timestamp) (e : Error)
      → c.decode m ≡ value v
      → ride_event_type v.event_type ≡ raise e
      → is_closed s.store v.ride_id ≡ false
      → In (message m) msgs
      → (e' : Error) × (process_batch fl c commits s broker msgs ≡ dead s.store broker e')
  unfolding process_batch gather
  process_batch-unknown_type c commits s broker m msgs v e decoded unknown still_open i =
      let (e', raised) = take_all-unknown c m v e s empty_batch msgs decoded unknown still_open i in
      (e', rw raised refl)
