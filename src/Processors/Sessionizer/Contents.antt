-- ===== src/Processors/Sessionizer/Contents.antt =====
-- What the loop of `process_batch` makes of its messages, described by the messages alone.
use stream_pipeline.Prelude.Dict
use stream_pipeline.Prelude.Dict.{Dict, IsDict}
use stream_pipeline.Prelude.{
  ℕ, ◌≡◌, refl, sym, ap, ◌∙◌, subst, inl, inr, Bool-cases, List, [], ◌∷◌, ◌++◌, append_assoc,
  append-nil, Result, ok, raise, Ensures, Ensures-ok, >>=-Ensures, nat_key, Option-cases, text_key,
}
use stream_pipeline.Common.Events.{RideEvent}
use stream_pipeline.Dlq.Envelope.{Message, Envelope, build_envelope}
use stream_pipeline.Processors.SessionBuilder.{add, new_accumulator}
use stream_pipeline.Processors.StateStore.{is_closed}
use stream_pipeline.Processors.Sessionizer.State.{new_partition, Sessionizer}
use stream_pipeline.Processors.Sessionizer.Batch.{
  Setting, Batch, Polled, message, partition_eof, failed, Decoded, value, broken, note_offset,
  note_time, normalise, accumulate, take_value, take_decoded, take, take_all,
}
use stream_pipeline.Processors.Sessionizer.Noted.{offsets_in, Noted, offset_of, note_offset-Noted}

module _ {F : Type 0} (c : Setting F) where
  abbrev event_in : Decoded F → List (RideEvent F ℕ)
  event_in (value v) = normalise v ∷ []
  event_in (broken error) = []

  -- The events of the messages that can be read, in order.
  abbrev pub events_of : List Polled → List (RideEvent F ℕ)
  events_of [] = []
  events_of (message m ∷ ps) = event_in (c.decode m) ++ events_of ps
  events_of (partition_eof ∷ ps) = events_of ps
  events_of (failed ∷ ps) = events_of ps

  abbrev envelope_in : Message → Decoded F → List Envelope
  envelope_in m (value v) = []
  envelope_in m (broken error) = build_envelope m error c.group_id c.now ∷ []

  -- The envelopes of the messages that cannot be read, in order.
  abbrev pub envelopes_of : List Polled → List Envelope
  envelopes_of [] = []
  envelopes_of (message m ∷ ps) = envelope_in m (c.decode m) ++ envelopes_of ps
  envelopes_of (partition_eof ∷ ps) = envelopes_of ps
  envelopes_of (failed ∷ ps) = envelopes_of ps

module _ {F : Type 0} where
  -- What some messages add to a batch.
  pub record Grown (b b' : Batch F) (vs : List (RideEvent F ℕ)) (es : List Envelope)
      (offsets : ℕ → List ℕ) : Type 0 where
    pub clean : b'.clean_forward ≡ b.clean_forward ++ vs
    pub letters : b'.poisons ≡ b.poisons ++ es
    pub noted :
        (p : ℕ) (os : List ℕ)
        → Noted os (Dict.get p b.batch_state)
        → Noted (os ++ offsets p) (Dict.get p b'.batch_state)
    pub distinct : IsDict b.batch_state → IsDict b'.batch_state

  Grown-then :
      (b b' b'' : Batch F) (vs ws : List (RideEvent F ℕ)) (es fs : List Envelope)
      (offsets others : ℕ → List ℕ)
      → Grown b b' vs es offsets
      → Grown b' b'' ws fs others
      → Grown b b'' (vs ++ ws) (es ++ fs) (λ p. offsets p ++ others p)
  Grown-then b b' b'' vs ws es fs offsets others g h = record {
    clean = h.clean ∙ (ap (λ l. l ++ ws) g.clean ∙ append_assoc b.clean_forward vs ws);
    letters = h.letters ∙ (ap (λ l. l ++ fs) g.letters ∙ append_assoc b.poisons es fs);
    noted = λ p os n.
        subst (λ l. Noted l (Dict.get p b''.batch_state)) (append_assoc os (offsets p) (others p))
          (h.noted p (os ++ offsets p) (g.noted p os n));
    distinct = λ d. h.distinct (g.distinct d);
  }

  Grown-none : (b : Batch F) → Grown b b [] [] (λ p. [])
  Grown-none b = record {
    clean = sym (append-nil b.clean_forward);
    letters = sym (append-nil b.poisons);
    noted = λ p os n. subst (λ l. Noted l (Dict.get p b.batch_state)) (sym (append-nil os)) n;
    distinct = λ d. d;
  }

  -- The loop does not write to the store.
  accumulate-store :
      (s : Sessionizer F) (partition : ℕ) (v : RideEvent F ℕ)
      → Ensures (λ (s' : Sessionizer F). s'.store ≡ s.store) (accumulate s partition v)
  unfolding accumulate
  accumulate-store s partition v = elim (Option-cases (Dict.get v.ride_id s.accs)) [
    | inl e ↦
        rw (accumulate, e) (>>=-Ensures _ (add (new_accumulator v.ride_id) v) _ (λ acc h. refl))
    | inr (old, e) ↦ rw (accumulate, e) (>>=-Ensures _ (add old v) _ (λ acc h. refl))
  ]

  abbrev Taken :
      Sessionizer F
      → Batch F
      → List (RideEvent F ℕ)
      → List Envelope
      → (ℕ → List ℕ)
      → Sessionizer F × Batch F
      → Type 0
  Taken s b vs es offsets (s', b') = (s'.store ≡ s.store) × Grown b b' vs es offsets

  Grown-one :
      (b b' : Batch F) (m : Message) (vs : List (RideEvent F ℕ)) (es : List Envelope)
      → b'.batch_state ≡ note_offset b.batch_state m.partition m.offset
      → b'.clean_forward ≡ b.clean_forward ++ vs
      → b'.poisons ≡ b.poisons ++ es
      → Grown b b' vs es (offset_of m.partition m.offset)
  unfolding note_offset
  Grown-one b b' m vs es states clean letters = record {
    clean = clean;
    letters = letters;
    noted = λ p os n.
        subst (λ d. Noted (os ++ offset_of m.partition m.offset p) (Dict.get p d)) (sym states)
          (note_offset-Noted b.batch_state p m.partition m.offset os n);
    distinct = λ d. subst IsDict (sym states) (Dict.put-IsDict m.partition _ b.batch_state d);
  }

  module _ (c : Setting F) where
    take-Taken :
        (s : Sessionizer F) (b : Batch F) (m : Message) (d : Decoded F)
        → Ensures (Taken s b (event_in c d) (envelope_in c m d) (offset_of m.partition m.offset)) (
            take_decoded c
              (record s { partitions = Dict.set_default m.partition new_partition s.partitions })
              (record b { batch_state = note_offset b.batch_state m.partition m.offset })
              m
              d)
    unfolding take_value note_time
    take-Taken s b m (broken error) =
        (refl, Grown-one b _ m [] _ refl (sym (append-nil b.clean_forward)) refl)
    take-Taken s b m (value v) =
        let s1 = record s {
          partitions =
              note_time (Dict.set_default m.partition new_partition s.partitions) m.partition
                (normalise v).event_ts;
        } in
        elim (Bool-cases (is_closed s.store (normalise v).ride_id)) [
          | inl e ↦
              rw (take_value, e) (refl, Grown-one b _ m _ [] refl refl (sym (append-nil b.poisons)))
          | inr e ↦
              rw (take_value, e)
                (>>=-Ensures _ (accumulate s1 m.partition (normalise v)) _ (λ s2 h. (
                  Ensures-ok (λ (s' : Sessionizer F). s'.store ≡ s.store) _ h
                      (accumulate-store s1 m.partition (normalise v)),
                  Grown-one b _ m _ [] refl refl (sym (append-nil b.poisons)),
                )))
        ]

    Taken-then :
        (s : Sessionizer F) (b : Batch F) (s' : Sessionizer F) (b' : Batch F)
        (vs : List (RideEvent F ℕ)) (es : List Envelope) (here : ℕ → List ℕ) (ps : List Polled)
        → s'.store ≡ s.store
        → Grown b b' vs es here
        → Ensures
            (Taken s' b' (events_of c ps) (envelopes_of c ps) (λ p. offsets_in p ps))
            (take_all c s' b' ps)
        → Ensures
            (Taken s b
              (vs ++ events_of c ps)
              (es ++ envelopes_of c ps)
              (λ p. here p ++ offsets_in p ps))
            (take_all c s' b' ps)
    Taken-then s b s' b' vs es here ps same grown later = by_result (take_all c s' b' ps) later
      where
        by_result :
            (r : Result (Sessionizer F × Batch F))
            → Ensures (Taken s' b' (events_of c ps) (envelopes_of c ps) (λ p. offsets_in p ps)) r
            → Ensures
                (Taken s b
                  (vs ++ events_of c ps)
                  (es ++ envelopes_of c ps)
                  (λ p. here p ++ offsets_in p ps))
                r
        by_result (raise e) h = tt
        by_result (ok (s'', b'')) (same', grown') = (
          same' ∙ same,
          Grown-then b b' b'' vs (events_of c ps) es (envelopes_of c ps) here (λ p. offsets_in p ps)
              grown grown',
        )

    -- The store is as it was, and the batch has grown by the events, the envelopes and the offsets
    -- of the messages.
    pub take_all-Taken :
        (s : Sessionizer F) (b : Batch F) (ps : List Polled)
        → Ensures
            (Taken s b (events_of c ps) (envelopes_of c ps) (λ p. offsets_in p ps))
            (take_all c s b ps)
    unfolding take_all take
    take_all-Taken s b [] = (refl, Grown-none b)
    take_all-Taken s b (partition_eof ∷ ps) = take_all-Taken s b ps
    take_all-Taken s b (failed ∷ ps) = tt
    take_all-Taken s b (message m ∷ ps) =
        let vs = event_in c (c.decode m) in
        let es = envelope_in c m (c.decode m) in
        let here = offset_of m.partition m.offset in
        let rest : ℕ → List ℕ = λ p. offsets_in p ps in
        >>=-Ensures
          (Taken s b (vs ++ events_of c ps) (es ++ envelopes_of c ps) (λ p. here p ++ rest p))
          (take c s b (message m)) _
          (λ (s', b') e.
            let (same, grown) =
              Ensures-ok (Taken s b vs es here) (take c s b (message m)) e
                (take-Taken s b m (c.decode m)) in
            Taken-then s b s' b' vs es here ps same grown (take_all-Taken s' b' ps))

    Taken-store :
        (s : Sessionizer F) (b : Batch F) (vs : List (RideEvent F ℕ)) (es : List Envelope)
        (here : ℕ → List ℕ) (r : Result (Sessionizer F × Batch F))
        → Ensures (Taken s b vs es here) r
        → Ensures (λ (x : Sessionizer F × Batch F). x.0.store ≡ s.store) r
    Taken-store s b vs es here (ok x) (same, grown) = same
    Taken-store s b vs es here (raise e) h = tt

    pub take-store :
        (s : Sessionizer F) (b : Batch F) (p : Polled)
        → Ensures (λ (x : Sessionizer F × Batch F). x.0.store ≡ s.store) (take c s b p)
    unfolding take
    take-store s b partition_eof = refl
    take-store s b failed = tt
    take-store s b (message m) = Taken-store s b _ _ _ _ (take-Taken s b m (c.decode m))
