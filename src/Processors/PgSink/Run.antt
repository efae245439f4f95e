-- ===== src/Processors/PgSink/Run.antt =====
-- src/processors/pg_sink.py: `run`, and why it does not matter where a batch ends.
use stream_pipeline.Prelude.Dict.{Dict}
use stream_pipeline.Prelude.{
  Option, none, some, All, ltb, if◌then◌else◌, text_key, nat_key, pair_key, ℕ, ◌+◌, ◌≡◌, refl, sym,
  ap, ◌∙◌, String, Bool, true, List, [], ◌∷◌, ◌++◌, length-append, append-nil, Result, ok, raise,
  ok-injective, ◌>>=◌, arith,
}
use stream_pipeline.Processors.PgSink.Tables.{
  Database, insert_event, upsert_session, insert_payment, insert_location, upsert_offset, for_each,
}
use stream_pipeline.Processors.PgSink.Sink.{
  Setting, Polled, Rows, no_rows, PgSink, positions, take_all, statements, written, After, running,
  dead, end_batch, store_batch, process_batch,
}
use stream_pipeline.Processors.PgSink.Replay.{statements-IsRun}
use stream_pipeline.Processors.PgSink.MaxOffsets.{all_raised, for_each-all_raised}
use stream_pipeline.Processors.PgSink.Batches.{
  noted, noted-all_raised, for_each-append, joined, counting, take_all-IsFree, take_all-append,
}

-- What the consumer returns in each poll, and whether the connection commits then.
abbrev pub Polls : Type 0
Polls = List (Bool × List Polled)

abbrev pub messages : Polls → List Polled
messages [] = []
messages ((commits, ms) ∷ polls) = ms ++ messages polls

-- The connection commits after every batch.
abbrev pub AllCommit : Polls → Type 0
AllCommit polls = All (λ (p : Bool × List Polled). p.0 ≡ true) polls

-- Whether `max_batches` is not reached.
abbrev below : Option ℕ → ℕ → Bool
below none batches = true
below (some limit) batches = ltb batches limit

module _ {F : Type 0} where
  -- The loop goes on unless an exception ended the batch.
  abbrev goes_on : After F → (PgSink → Database F → After F) → After F
  goes_on (running s db) next = next s db
  goes_on (dead db e) next = dead db e

  -- `run` until the end of these polls, after some batches
  unfoldable pub run_from : Setting F → Option ℕ → ℕ → PgSink → Database F → Polls → After F
  unfolding process_batch
  run_from c limit batches s db [] = running s db
  run_from c limit batches s db ((commits, []) ∷ polls) =
      let rest = run_from c limit batches s db polls in
      if below limit batches then rest else running s db
  run_from c limit batches s db ((commits, m ∷ ms) ∷ polls) =
      let next =
        goes_on (process_batch c commits s db (m ∷ ms))
          (λ s' db'. run_from c limit (batches + 1) s' db' polls) in
      if below limit batches then next else running s db

  -- The statements of two batches one after the other are those of the batch of both.
  statements-joined :
      (group_id : String) (db : Database F) {db' db'' : Database F} (a b : Rows F)
      (qs : List Polled)
      → b.max_offsets ≡ noted [] qs
      → statements group_id db a ≡ ok db'
      → statements group_id db' b ≡ ok db''
      → statements group_id db (joined a b (noted a.max_offsets qs)) ≡ ok db''
  unfolding statements
  statements-joined group_id db {db' = db'} {db'' = db''} a b qs offsets first second =
      let r = statements-IsRun group_id db a first in
      let r' = statements-IsRun group_id db' b second in
      let table = db.consumer_offsets in
      let stored : all_raised table (positions group_id a.max_offsets) ≡ db'.consumer_offsets =
        ok-injective
          (sym (for_each-all_raised table (positions group_id a.max_offsets)) ∙ r.offsets) in
      let stored' : all_raised db'.consumer_offsets (positions group_id (noted [] qs))
          ≡ db''.consumer_offsets =
        ap (λ d. all_raised db'.consumer_offsets (positions group_id d)) (sym offsets)
        ∙ ok-injective (
            sym (for_each-all_raised db'.consumer_offsets (positions group_id b.max_offsets))
            ∙ r'.offsets) in
      let both : for_each (λ t r. ok (upsert_offset t r)) table
            (positions group_id (noted a.max_offsets qs))
          ≡ ok db''.consumer_offsets =
        for_each-all_raised table (positions group_id (noted a.max_offsets qs))
        ∙ ap ok (
            noted-all_raised group_id table a.max_offsets qs
            ∙ (ap (λ t. all_raised t (positions group_id (noted [] qs))) stored ∙ stored')) in
      let events =
        for_each-append insert_event db.rides_events a.events b.events r.events r'.events in
      let sessions =
        for_each-append (λ t r. ok (upsert_session t r)) db.ride_sessions a.sessions b.sessions
          r.sessions r'.sessions in
      let payments =
        for_each-append (λ t r. ok (insert_payment t r)) db.payments_transactions a.payments
          b.payments r.payments r'.payments in
      let locations =
        for_each-append (λ t r. ok (insert_location t r)) db.driver_locations a.locations
          b.locations r.locations r'.locations in
      rw (statements, events, sessions, payments, locations, both) refl

  -- The sink after a batch.
  abbrev counted : PgSink × Rows F → PgSink
  counted (s, rows) = record s { rows_written = s.rows_written + written rows }

  abbrev Committed : Setting F → PgSink → Database F → List Polled → PgSink → Database F → Type 0
  Committed c s db ps s' db' =
      (x : PgSink × Rows F) × (take_all c s no_rows ps ≡ ok x)
      × (statements c.group_id db x.1 ≡ ok db')
      × (counted x ≡ s')

  end_batch-running :
      (s : PgSink) (db : Database F) (rows : Rows F) (stored : Result (Database F)) {s' : PgSink}
      {db' : Database F}
      → end_batch s db rows true stored ≡ running s' db'
      → (stored ≡ ok db') × (counted (s, rows) ≡ s')
  end_batch-running s db rows (raise e) h = cc
  end_batch-running s db rows (ok x) h = (cc, cc)

  process_batch-Committed :
      (c : Setting F) (s : PgSink) (db : Database F) (ps : List Polled) {s' : PgSink}
      {db' : Database F}
      → process_batch c true s db ps ≡ running s' db'
      → Committed c s db ps s' db'
  unfolding process_batch
  process_batch-Committed c s db ps {s' = s'} {db' = db'} h =
      by_taken (take_all c s no_rows ps) refl h
    where
      by_taken :
          (taken : Result (PgSink × Rows F))
          → take_all c s no_rows ps ≡ taken
          → store_batch c true db taken ≡ running s' db'
          → Committed c s db ps s' db'
      by_taken (raise e) same h = cc
      by_taken (ok x) same h =
          let (stored, left) = end_batch-running x.0 db x.1 (statements c.group_id db x.1) h in
          (x, same, stored, left)

  joined-no_rows :
      (a : Rows F) (d : Dict (String × ℕ) ℕ) → joined a no_rows d ≡ record a { max_offsets = d }
  joined-no_rows a d =
      rw (append-nil a.events, append-nil a.sessions, append-nil a.payments, append-nil a.locations)
        refl

  -- Where a batch ends does not matter. If two batches are stored one after the other, then one
  -- batch of the messages of both is stored too, and leaves the same tables, the same stored
  -- offsets, the same dead letters and the same counts, all in the same order.
  process_batch-append :
      (c : Setting F) (s s' s'' : PgSink) (db db' db'' : Database F) (ps qs : List Polled)
      → process_batch c true s db ps ≡ running s' db'
      → process_batch c true s' db' qs ≡ running s'' db''
      → process_batch c true s db (ps ++ qs) ≡ running s'' db''
  unfolding process_batch
  process_batch-append c s s' s'' db db' db'' ps qs first second =
      let (x, e, stored, left) = process_batch-Committed c s db ps first in
      let (y, e', stored', left') = process_batch-Committed c s' db' qs second in
      let (offsets, count, free) = take_all-IsFree c s' no_rows qs e' in
      let taken : take_all c x.0 x.1 qs
          ≡ ok (counting x.0.rows_written y.0, joined x.1 y.1 (noted x.1.max_offsets qs)) =
        ap (λ t. take_all c t x.1 qs) (ap (counting x.0.rows_written) left)
        ∙ (ap (λ b. take_all c (counting x.0.rows_written s') b qs)
              (sym (joined-no_rows x.1 x.1.max_offsets))
            ∙ free x.0.rows_written x.1 x.1.max_offsets) in
      let all : take_all c s no_rows (ps ++ qs)
          ≡ ok (counting x.0.rows_written y.0, joined x.1 y.1 (noted x.1.max_offsets qs)) =
        take_all-append c s no_rows ps qs
        ∙ (ap (λ r. r >>= λ r. take_all c r.0 r.1 qs) e ∙ taken) in
      let both = statements-joined c.group_id db x.1 y.1 qs offsets stored stored' in
      let total : x.0.rows_written + written (joined x.1 y.1 (noted x.1.max_offsets qs))
          ≡ y.0.rows_written + written y.1 =
        omega (
          arith,
          length-append x.1.events y.1.events,
          length-append x.1.sessions y.1.sessions,
          length-append x.1.payments y.1.payments,
          length-append x.1.locations y.1.locations,
          count,
          ap (λ (t : PgSink). t.rows_written) left,
        ) in
      rw (process_batch, all, both)
        (ap (λ k. running (counting k y.0) db'') total ∙ ap (λ t. running t db'') left')

  process_batch-none :
      (c : Setting F) (s : PgSink) (db : Database F) → process_batch c true s db [] ≡ running s db
  unfolding process_batch take_all statements for_each
  process_batch-none c s db =
      let same : s.rows_written + (0 + 0 + 0 + 0) ≡ s.rows_written = omega arith in
      ap (λ n. running (record s { rows_written = n }) db) same

  goes_on-running :
      (x : After F) (next : PgSink → Database F → After F) {s' : PgSink} {db' : Database F}
      → goes_on x next ≡ running s' db'
      → (s : PgSink) × (db : Database F) × (x ≡ running s db) × (next s db ≡ running s' db')
  goes_on-running (running s db) next h = (s, db, refl, h)
  goes_on-running (dead db e) next h = cc

  -- Where a batch ends does not matter. If a run without a limit goes through some polls and every
  -- batch commits, then one batch of all their messages leaves exactly what the run has left: the
  -- same rows and stored offsets (the columns of `now()` apart), the same dead letters and the same
  -- counts, in the same order.
  pub run_from-process_batch :
      (c : Setting F) (batches : ℕ) (s s' : PgSink) (db db' : Database F) (polls : Polls)
      → AllCommit polls
      → run_from c none batches s db polls ≡ running s' db'
      → process_batch c true s db (messages polls) ≡ running s' db'
  unfolding run_from
  run_from-process_batch c batches s s' db db' [] commit h = process_batch-none c s db ∙ h
  run_from-process_batch c batches s s' db db' ((commits, []) ∷ polls) (commits_now, commit) h =
      run_from-process_batch c batches s s' db db' polls commit h
  run_from-process_batch c batches s s' db db' ((commits, m ∷ ms) ∷ polls) (commits_now, commit) h =
      let (s1, db1, first, rest) = goes_on-running (process_batch c commits s db (m ∷ ms)) _ h in
      let first' : process_batch c true s db (m ∷ ms) ≡ running s1 db1 =
        ap (λ b. process_batch c b s db (m ∷ ms)) (sym commits_now) ∙ first in
      process_batch-append c s s1 s' db db1 db' (m ∷ ms) (messages polls) first'
        (run_from-process_batch c (batches + 1) s1 s' db1 db' polls commit rest)
