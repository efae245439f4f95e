-- ===== src/Sinks/IcebergSink/Run/Written.antt =====
-- What a run without failures writes: one row for each message that can be read, in order.
use stream_pipeline.Prelude.{
  ◌+◌, ◌≡◌, refl, sym, ap, subst, ◌∙◌, inl, inr, true, Bool-cases, List, [], ◌∷◌, ◌++◌,
  append_assoc, append-nil, map, length, length-append, All, Returns, is_empty, arith,
}
use stream_pipeline.Common.Times.{Timestamp}
use stream_pipeline.Common.Events.{RideEvent}
use stream_pipeline.Dlq.Envelope.{Message}
use stream_pipeline.Dlq.Envelope.Roundtrip.{IsBytes, handle-dead_letter}
use stream_pipeline.Sinks.IcebergSink.{
  LakeRow, Lake, IcebergSink, Consumer, Decoded, value, broken, Setting, ingest_decoded, ingest_one,
  should_flush, to_row, to_arrow, evolve, append_commit, After, running, Calls, flush,
}
use stream_pipeline.Sinks.IcebergSink.Stored.{evolve-IsRowOf, evolve-same}
use stream_pipeline.Sinks.IcebergSink.Run.{
  Polled, message, failed, Round, Limits, past, ingest, run,
}
use stream_pipeline.Sinks.IcebergSink.Run.Rows.{
  AreRowsOf, AreRowsOf-append, map-AreRowsOf, &&-false, is_empty-true, evolve-rows_appended,
}

abbrev pub all_succeed : Calls
all_succeed = record { evolves = true; appends = true; commits = true }

abbrev pub IsSound : Polled → Type 0
IsSound failed = ⊥
IsSound (message m) = IsBytes m.value × IsBytes m.key

abbrev pub IsSmooth : Round → Type 0
IsSmooth round = All IsSound round.polled × (round.calls ≡ all_succeed)

module _ {F : Type 0} (c : Setting F) (limits : Limits) where
  abbrev pub event_in : Decoded F → List (RideEvent F Timestamp)
  event_in (value v) = v ∷ []
  event_in (broken error) = []

  -- the events of the messages that can be read
  abbrev pub readable : List Polled → List (RideEvent F Timestamp)
  readable [] = []
  readable (failed ∷ ps) = readable ps
  readable (message m ∷ ps) = event_in (c.decode m) ++ readable ps

  abbrev pub readable_in : List Round → List (RideEvent F Timestamp)
  readable_in [] = []
  readable_in (round ∷ rounds) = readable round.polled ++ readable_in rounds

  abbrev Buffered : IcebergSink F → List (RideEvent F Timestamp) → IcebergSink F → Type 0
  Buffered s vs s' = (s'.buffer ≡ s.buffer ++ vs) × (s'.rows_appended ≡ s.rows_appended)

  ingest_decoded-Returns :
      (s : IcebergSink F) (m : Message) (v : Decoded F)
      → IsSound (message m)
      → Returns (Buffered s (event_in v)) (ingest_decoded c s m v)
  ingest_decoded-Returns s m (value v) sound = (_, refl, (refl, refl))
  ingest_decoded-Returns s m (broken error) (hv, hk) =
      let (letter, e, topic, key, bytes) = handle-dead_letter s.dlq m error c.now hv hk in
      rw e (_, refl, (sym (append-nil s.buffer), refl))

  ingest-Returns :
      (s : IcebergSink F) (ps : List Polled)
      → All IsSound ps
      → Returns (Buffered s (readable ps)) (ingest c limits s ps)
  unfolding ingest ingest_one
  ingest-Returns s [] sound = (s, refl, (sym (append-nil s.buffer), refl))
  ingest-Returns s (failed ∷ ps) sound = absurd sound.0
  ingest-Returns s (message m ∷ ps) (sound, sounds) =
      let (s', e, (more, same)) = ingest_decoded-Returns s m (c.decode m) sound in
      let (s'', e', (more', same')) = ingest-Returns s' ps sounds in
      rw (ingest, e, e')
        (
          s'',
          refl,
          (
            more'
                ∙ (ap (λ b. b ++ readable ps) more
                    ∙ append_assoc s.buffer (event_in (c.decode m)) (readable ps)),
            same' ∙ same,
          ),
        )

  -- What has been written since: these events, and nothing is left in the buffer.
  abbrev pub Written : IcebergSink F → Lake F → List (RideEvent F Timestamp) → After F → Type 0
  Written s lake vs result =
      (s' : IcebergSink F) × (lake' : Lake F) × (consumer' : Consumer) × (result
        ≡ running s' lake' consumer')
      × (s'.buffer ≡ [])
      × (new : List (LakeRow F)) × (lake'.rows ≡ lake.rows ++ new)
      × AreRowsOf vs new
      × (s'.rows_appended ≡ s.rows_appended + length new)

  flush-Written :
      (s : IcebergSink F) (lake : Lake F) (consumer : Consumer)
      → Written s lake s.buffer (flush all_succeed s lake consumer)
  unfolding flush append_commit to_arrow
  flush-Written s lake consumer =
      let (evolved, lake') = evolve s lake in
      let (same, kept) = evolve-same s lake in
      let new = map (to_row evolved.has_promo) evolved.buffer in
      elim (Bool-cases (is_empty s.buffer)) [
        | inl e ↦
            let none_left : s.buffer ≡ [] = is_empty-true s.buffer e in
            rw (flush, e)
              (
                s,
                lake,
                consumer,
                refl,
                none_left,
                [],
                sym (append-nil lake.rows),
                rw none_left tt,
                omega arith,
              )
        | inr e ↦
            rw (flush, e, &&-false)
              (
                _,
                _,
                _,
                refl,
                refl,
                new,
                ap (λ rows. rows ++ new) kept,
                subst (λ b. AreRowsOf s.buffer (map (to_row evolved.has_promo) b)) (sym same)
                    (map-AreRowsOf (to_row evolved.has_promo) s.buffer (evolve-IsRowOf s lake)),
                ap (λ n. n + length new) (evolve-rows_appended s lake),
              )
      ]

  -- The chain of two stretches of a run.
  Written-then :
      (s s' : IcebergSink F) (lake lake' : Lake F) (vs ws : List (RideEvent F Timestamp))
      (new : List (LakeRow F)) (result : After F)
      → lake'.rows ≡ lake.rows ++ new
      → AreRowsOf vs new
      → s'.rows_appended ≡ s.rows_appended + length new
      → Written s' lake' ws result
      → Written s lake (vs ++ ws) result
  Written-then s s' lake lake' vs ws new result rows are count
        (s'', lake'', consumer'', e, empty, new', rows', are', count') =
      (
        s'',
        lake'',
        consumer'',
        e,
        empty,
        new ++ new',
        rows' ∙ (ap (λ l. l ++ new') rows ∙ append_assoc lake.rows new new'),
        AreRowsOf-append vs ws new new' are are',
        omega (arith, count, count', length-append new new'),
      )

  -- A run in which no poll and no call fails comes to its end, and writes one row for each message
  -- that can be read, in the order in which they were consumed: after the rows of the table, those
  -- of the events that were buffered, and those of the polls. A row has the promotion code of its
  -- event, unless that is an event of payload version 1: its code is left out if the table has no
  -- column for it. Nothing is left in the buffer, and the rows are counted.
  pub run-Written :
      (rounds : List Round) (s : IcebergSink F) (lake : Lake F) (consumer : Consumer)
      → All IsSmooth rounds
      → Written s lake
          (s.buffer ++ readable_in rounds)
          (run c limits rounds all_succeed s lake consumer)
  unfolding run
  run-Written [] s lake consumer smooth =
      subst (λ vs. Written s lake vs (flush all_succeed s lake consumer))
        (sym (append-nil s.buffer)) (flush-Written s lake consumer)
  run-Written (round ∷ rounds) s lake consumer ((sound, calls), smooth) =
      let (s', e, (more, same)) = ingest-Returns s round.polled sound in
      let consumer' = past consumer round.polled in
      let all : s'.buffer ++ readable_in rounds ≡ s.buffer ++ readable_in (round ∷ rounds) =
        ap (λ b. b ++ readable_in rounds) more
        ∙ append_assoc s.buffer (readable round.polled) (readable_in rounds) in
      let (s'', lake', consumer'', flushed, empty, new, rows, are, count) =
        flush-Written s' lake consumer' in
      let later = run-Written rounds s'' lake' consumer'' smooth in
      let later' = run-Written rounds s' lake consumer' smooth in
      let next = run c limits rounds all_succeed s'' lake' consumer'' in
      let kept = run c limits rounds all_succeed s' lake consumer' in
      elim (Bool-cases
        (should_flush s' limits.batch_max_records round.elapsed_ms limits.flush_interval_ms)) [
          | inl b ↦
              rw (run, e, b, calls, flushed)
                (subst (λ vs. Written s lake vs next) all
                  (Written-then s s'' lake lake' s'.buffer (readable_in rounds) new next rows are
                    (count ∙ ap (λ n. n + length new) same)
                    (subst (λ b. Written s'' lake' (b ++ readable_in rounds) next) empty later)))
          | inr b ↦
              rw (run, e, b)
                (subst (λ vs. Written s lake vs kept) all
                  (Written-then s s' lake lake [] (s'.buffer ++ readable_in rounds) [] kept
                    (sym (append-nil lake.rows)) tt (omega (arith, same)) later'))
        ]
