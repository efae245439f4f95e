-- ===== src/Processors/PgSink/Replay.antt =====
-- A batch that is delivered again, at once or after any other batches, changes no row and no offset.
use stream_pipeline.Prelude.Dict.{Dict}
use stream_pipeline.Prelude.Dict
use stream_pipeline.Prelude.{
  ℕ, ◌≡◌, ◌≤◌, ◌+◌, refl, sym, ap, ◌∙◌, String, All, ok, >>=-eq-ok, ok-injective, subst, none, some,
  some-injective, Option-cases, inl, inr, arith, text_key, nat_key, pair_key,
}
use stream_pipeline.Processors.PgSink.Tables.{
  Database, Position, StoredOffset, offset_upsert, kafka_offsets, insert_event, upsert_session,
  insert_payment, insert_location, upsert_offset, for_each,
}
use stream_pipeline.Processors.PgSink.Sink.{Rows, statements, positions, seek}
use stream_pipeline.Processors.PgSink.Absorbing.{
  for_each-keeps, for_each-keeps_all, for_each-done, for_each-again,
}
use stream_pipeline.Processors.PgSink.Absorbed.{
  event-absorbing, session-absorbing, payment-absorbing, location-absorbing,
}
use stream_pipeline.Processors.PgSink.Offsets.{
  offset_absorbing, HasOffset, kafka_offsets-offset_upserts,
}

module _ {F : Type 0} where
  -- Every statement of the batch has been absorbed.
  record IsStored (group_id : String) (rows : Rows F) (db : Database F) : Type 0 where
    pub events : All (λ r. event-absorbing.Absorbs r db.rides_events) rows.events
    pub sessions : All (λ r. session-absorbing.Absorbs r db.ride_sessions) rows.sessions
    pub payments : All (λ r. payment-absorbing.Absorbs r db.payments_transactions) rows.payments
    pub locations : All (λ r. location-absorbing.Absorbs r db.driver_locations) rows.locations
    pub offsets :
        All
          (λ r. offset_absorbing.Absorbs r db.consumer_offsets)
          (positions group_id rows.max_offsets)

  -- The five steps of a transaction.
  pub record IsRun (group_id : String) (rows : Rows F) (db db' : Database F) : Type 0 where
    pub events : for_each insert_event db.rides_events rows.events ≡ ok db'.rides_events
    pub sessions :
        for_each (λ t r. ok (upsert_session t r)) db.ride_sessions rows.sessions
        ≡ ok db'.ride_sessions
    pub payments :
        for_each (λ t r. ok (insert_payment t r)) db.payments_transactions rows.payments
        ≡ ok db'.payments_transactions
    pub locations :
        for_each (λ t r. ok (insert_location t r)) db.driver_locations rows.locations
        ≡ ok db'.driver_locations
    pub offsets :
        for_each
          (λ t r. ok (upsert_offset t r))
          db.consumer_offsets
          (positions group_id rows.max_offsets)
        ≡ ok db'.consumer_offsets

  pub statements-IsRun :
      (group_id : String) (db : Database F) (rows : Rows F) {db' : Database F}
      → statements group_id db rows ≡ ok db'
      → IsRun group_id rows db db'
  unfolding statements
  statements-IsRun group_id db rows h =
      let (events, e, h1) = >>=-eq-ok (for_each insert_event db.rides_events rows.events) _ h in
      let (sessions, s, h2) =
        >>=-eq-ok (for_each (λ t r. ok (upsert_session t r)) db.ride_sessions rows.sessions) _ h1 in
      let (payments, p, h3) =
        >>=-eq-ok (for_each (λ t r. ok (insert_payment t r)) db.payments_transactions rows.payments)
          _ h2 in
      let (locations, l, h4) =
        >>=-eq-ok (for_each (λ t r. ok (insert_location t r)) db.driver_locations rows.locations) _
          h3 in
      let (offsets, o, done) =
        >>=-eq-ok
          (for_each (λ t r. ok (upsert_offset t r)) db.consumer_offsets
            (positions group_id rows.max_offsets))
          _ h4 in
      subst (IsRun group_id rows db) (ok-injective done)
        (record { events = e; sessions = s; payments = p; locations = l; offsets = o })

  run-IsStored :
      (group_id : String) (rows : Rows F) (db db' : Database F)
      → IsRun group_id rows db db'
      → IsStored group_id rows db'
  run-IsStored group_id rows db db' r = record {
    events = for_each-done insert_event event-absorbing rows.events db.rides_events r.events;
    sessions = for_each-done _ session-absorbing rows.sessions db.ride_sessions r.sessions;
    payments = for_each-done _ payment-absorbing rows.payments db.payments_transactions r.payments;
    locations = for_each-done _ location-absorbing rows.locations db.driver_locations r.locations;
    offsets =
        for_each-done _ offset_absorbing (positions group_id rows.max_offsets) db.consumer_offsets
          r.offsets;
  }

  run-keeps :
      (group_id other : String) (rows qs : Rows F) (db db' : Database F)
      → IsRun other qs db db'
      → IsStored group_id rows db
      → IsStored group_id rows db'
  run-keeps group_id other rows qs db db' r k = record {
    events =
        for_each-keeps_all _ event-absorbing qs.events rows.events db.rides_events r.events
          k.events;
    sessions =
        for_each-keeps_all _ session-absorbing qs.sessions rows.sessions db.ride_sessions r.sessions
          k.sessions;
    payments =
        for_each-keeps_all _ payment-absorbing qs.payments rows.payments db.payments_transactions
          r.payments k.payments;
    locations =
        for_each-keeps_all _ location-absorbing qs.locations rows.locations db.driver_locations
          r.locations k.locations;
    offsets =
        for_each-keeps_all _ offset_absorbing (positions other qs.max_offsets)
          (positions group_id rows.max_offsets) db.consumer_offsets r.offsets k.offsets;
  }

  -- The second database comes of the first by committed batches.
  pub data Later : Database F → Database F → Type 0 where
    at_once : {db : Database F} → Later db db
    after_batch :
        {db db' db'' : Database F} (group_id : String) (rows : Rows F)
        → Later db db'
        → statements group_id db' rows ≡ ok db''
        → Later db db''

  Later-IsStored :
      (group_id : String) (rows : Rows F) {db db' : Database F}
      → Later db db'
      → IsStored group_id rows db
      → IsStored group_id rows db'
  Later-IsStored group_id rows at_once k = k
  Later-IsStored group_id rows (after_batch {db' = mid} {db'' = end} other qs before h) k =
      run-keeps group_id other rows qs mid end (statements-IsRun other mid qs h)
        (Later-IsStored group_id rows before k)

  -- Once the transaction of a batch has been committed, the same batch delivered again, at once or
  -- after any further committed batches, leaves every row of the four raw tables and the offset of
  -- every position as they are. The column `updated_at` of the offsets is apart from that: the whole
  -- `OFFSET_UPSERT`s of the batch, at whatever time, may change it, but not one `kafka_offset`.
  pub statements-again :
      (group_id : String) (rows : Rows F) (db db' later : Database F) (now : ℕ)
      (table table' : Dict Position StoredOffset)
      → statements group_id db rows ≡ ok db'
      → Later db' later
      → kafka_offsets table ≡ later.consumer_offsets
      → for_each (λ t r. ok (offset_upsert now t r)) table (positions group_id rows.max_offsets)
        ≡ ok table'
      → (statements group_id later rows ≡ ok later) × (kafka_offsets table' ≡ kafka_offsets table)
  unfolding statements
  statements-again group_id rows db db' later now table table' h l same upserts =
      let k =
        Later-IsStored group_id rows l
          (run-IsStored group_id rows db db' (statements-IsRun group_id db rows h)) in
      let kept =
        for_each-again _ offset_absorbing (positions group_id rows.max_offsets)
          later.consumer_offsets k.offsets in
      let columns =
        kafka_offsets-offset_upserts now (positions group_id rows.max_offsets) table table'
          upserts in
      (
        rw
            (
              for_each-again insert_event event-absorbing rows.events later.rides_events k.events,
              for_each-again _ session-absorbing rows.sessions later.ride_sessions k.sessions,
              for_each-again _ payment-absorbing rows.payments later.payments_transactions
                  k.payments,
              for_each-again _ location-absorbing rows.locations later.driver_locations k.locations,
              kept,
            )
            refl,
        ok-injective (
            sym columns
            ∙ (ap
                  (λ t.
                    for_each (λ t r. ok (upsert_offset t r)) t
                      (positions group_id rows.max_offsets))
                  same
                ∙ (kept ∙ ap ok (sym same)))),
      )

  Later-HasOffset :
      (r : Position × ℕ) {db later : Database F}
      → Later db later
      → HasOffset r db.consumer_offsets
      → HasOffset r later.consumer_offsets
  unfolding offset_absorbing
  Later-HasOffset r at_once k = k
  Later-HasOffset r (after_batch {db' = mid} other qs before h) k =
      for_each-keeps _ offset_absorbing (positions other qs.max_offsets) mid.consumer_offsets r
        (statements-IsRun other mid qs h).offsets (Later-HasOffset r before k)

  seek-HasOffset :
      (group_id : String) (db : Database F) (topic : String) (partition last : ℕ)
      → seek group_id db topic partition ≡ some (last + 1)
      → HasOffset ((group_id, (topic, partition)), last) db.consumer_offsets
  unfolding seek HasOffset
  seek-HasOffset group_id db topic partition last h =
      elim (Option-cases (Dict.get (group_id, (topic, partition)) db.consumer_offsets)) [
        | inl e ↦ let never : none ≡ some (last + 1) = rw (seek, e) at h in cc
        | inr (w, e) ↦
            let same : some (w + 1) ≡ some (last + 1) = rw (seek, e) at h in
            let next = some-injective same in (w, e, omega (arith, next))
      ]

  HasOffset-seek :
      (group_id : String) (db : Database F) (topic : String) (partition last : ℕ)
      → HasOffset ((group_id, (topic, partition)), last) db.consumer_offsets
      → (last' : ℕ) × (seek group_id db topic partition ≡ some (last' + 1)) × (last ≤ last')
  unfolding seek HasOffset
  HasOffset-seek group_id db topic partition last (w, e, le) = (w, rw (seek, e) refl, le)

  -- No sequence of committed batches takes a position back: a consumer that would start after some
  -- offset starts no earlier later on, and never at the beginning again.
  pub Later-seek :
      (group_id topic : String) (partition last : ℕ) (db later : Database F)
      → Later db later
      → seek group_id db topic partition ≡ some (last + 1)
      → (last' : ℕ) × (seek group_id later topic partition ≡ some (last' + 1)) × (last ≤ last')
  Later-seek group_id topic partition last db later l h =
      HasOffset-seek group_id later topic partition last (
        Later-HasOffset ((group_id, (topic, partition)), last) l
          (seek-HasOffset group_id db topic partition last h))
