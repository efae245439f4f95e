-- ===== src/Processors/PgSink/Batches.antt =====
-- What the loop over the messages of a batch gathers does not depend on the batch before.
use stream_pipeline.Prelude.Dict.{Dict}
use stream_pipeline.Prelude.{
  text_key, nat_key, pair_key, ℕ, ◌+◌, ◌≡◌, refl, sym, ap, subst, ◌∙◌, String, List, [], ◌∷◌, ◌++◌,
  append_assoc, Result, ok, raise, ok-injective, >>=-eq-ok, >>=->>=, >>=-ap, ◌>>=◌,
}
use stream_pipeline.Dlq.Envelope.{Message, Failure, DlqProducer, handle}
use stream_pipeline.Processors.PgSink.Rows.{
  EventRow, rides_event_row, session_row, payment_row, location_row,
}
use stream_pipeline.Processors.PgSink.Tables.{Position, for_each}
use stream_pipeline.Processors.PgSink.Sink.{
  Decoded, event, session, payment, location, broken, Setting, Polled, message, failed, Rows,
  PgSink, note_offset, positions, poison, add_event, add_row, take, take_all,
}
use stream_pipeline.Processors.PgSink.MaxOffsets.{
  raised, all_raised, all_raised-raised, note_offset-raised, positions-raised,
}

-- the maximal offsets after some messages
unfoldable pub noted : Dict (String × ℕ) ℕ → List Polled → Dict (String × ℕ) ℕ
noted d [] = d
noted d (failed ∷ ps) = noted d ps
noted d (message m ∷ ps) = noted (note_offset d m) ps

pub noted-all_raised :
    (group_id : String) (t : Dict Position ℕ) (d : Dict (String × ℕ) ℕ) (ps : List Polled)
    → all_raised t (positions group_id (noted d ps))
      ≡ all_raised (all_raised t (positions group_id d)) (positions group_id (noted [] ps))
unfolding noted all_raised
noted-all_raised group_id t d [] = refl
noted-all_raised group_id t d (failed ∷ ps) = noted-all_raised group_id t d ps
noted-all_raised group_id t d (message m ∷ ps) =
    let k : String × ℕ = (m.topic, m.partition) in
    let once : all_raised t (positions group_id (note_offset d m))
        ≡ raised (group_id, k) m.offset (all_raised t (positions group_id d)) =
      ap (λ x. all_raised t (positions group_id x)) (note_offset-raised d m)
      ∙ (ap (all_raised t) (positions-raised group_id k m.offset d)
          ∙ all_raised-raised (group_id, k) m.offset t (positions group_id d)) in
    let before = all_raised t (positions group_id d) in
    let again : all_raised before (positions group_id (note_offset [] m))
        ≡ raised (group_id, k) m.offset before =
      ap (λ x. all_raised before (positions group_id x)) (note_offset-raised [] m)
      ∙ (ap (all_raised before) (positions-raised group_id k m.offset [])
          ∙ all_raised-raised (group_id, k) m.offset before []) in
    noted-all_raised group_id t (note_offset d m) ps
    ∙ (ap (λ s. all_raised s (positions group_id (noted [] ps))) (once ∙ sym again)
        ∙ sym (noted-all_raised group_id before (note_offset [] m) ps))

pub for_each-append :
    {T R : Type 0} (f : T → R → Result T) (t : T) {t' t'' : T} (xs ys : List R)
    → for_each f t xs ≡ ok t'
    → for_each f t' ys ≡ ok t''
    → for_each f t (xs ++ ys) ≡ ok t''
unfolding for_each
for_each-append f t {t' = t'} {t'' = t''} [] ys first second =
    subst (λ s. for_each f s ys ≡ ok t'') (sym (ok-injective first)) second
for_each-append f t (x ∷ xs) ys first second =
    let (s, e, rest) = >>=-eq-ok (f t x) (λ s. for_each f s xs) first in
    rw (for_each, e) (for_each-append f s xs ys rest second)

abbrev pub counting : ℕ → PgSink → PgSink
counting n s = record s { rows_written = n }

module _ {F : Type 0} where
  -- the rows of a batch after those of another
  abbrev pub joined : Rows F → Rows F → Dict (String × ℕ) ℕ → Rows F
  joined a b offsets = record {
    events = a.events ++ b.events;
    sessions = a.sessions ++ b.sessions;
    payments = a.payments ++ b.payments;
    locations = a.locations ++ b.locations;
    max_offsets = offsets;
  }

  -- What the loop does with messages is independent of the rows before them and of the row count.
  abbrev pub IsFree :
      (PgSink → Rows F → Result (PgSink × Rows F))
      → (Dict (String × ℕ) ℕ → Dict (String × ℕ) ℕ)
      → PgSink
      → Rows F
      → PgSink × Rows F
      → Type 0
  IsFree step note s rows (s', rows') =
      (rows'.max_offsets ≡ note rows.max_offsets)
      × (s'.rows_written ≡ s.rows_written)
      × ((n : ℕ) (base : Rows F) (d : Dict (String × ℕ) ℕ)
          → step (counting n s) (joined base rows d)
            ≡ ok (counting n s', joined base rows' (note d)))

  abbrev Added : Setting F → Message → Decoded F → PgSink → Rows F → PgSink × Rows F → Type 0
  Added c m v s rows x = IsFree (λ s rows. add_row c s rows m v) (λ d. d) s rows x

  poison-IsFree :
      (c : Setting F) (s : PgSink) (rows : Rows F) (m : Message) (error : Failure)
      {x : PgSink × Rows F}
      → poison c s rows m error ≡ ok x
      → IsFree (λ s rows. poison c s rows m error) (λ d. d) s rows x
  poison-IsFree c s rows m error h =
      let (dlq, e, done) = >>=-eq-ok (handle s.dlq m error c.now) _ h in
      subst (IsFree (λ s rows. poison c s rows m error) (λ d. d) s rows) (ok-injective done) (
        refl,
        refl,
        λ n base d.
            ap
              (λ (sent : Result DlqProducer). sent >>= λ dlq. ok (
                record (counting n s) { dlq = dlq; poison_seen = s.poison_seen + 1 },
                joined base rows d,
              ))
              e,
      )

  add_row-IsFree :
      (c : Setting F) (s : PgSink) (rows : Rows F) (m : Message) (v : Decoded F)
      {x : PgSink × Rows F}
      → add_row c s rows m v ≡ ok x
      → Added c m v s rows x
  add_row-IsFree c s rows m (event v) h = by_row (rides_event_row v m.partition m.offset) h
    where
      by_row :
          (r : Result (EventRow F)) {x : PgSink × Rows F}
          → add_event c s rows m r ≡ ok x
          → IsFree (λ s rows. add_event c s rows m r) (λ d. d) s rows x
      by_row (raise e) h = poison-IsFree c s rows m (c.unknown_type m) h
      by_row (ok r) h =
          subst (IsFree (λ s rows. add_event c s rows m (ok r)) (λ d. d) s rows) (ok-injective h) (
            refl,
            refl,
            λ n base d.
                ap (λ l. ok (counting n s, record (joined base rows d) { events = l }))
                  (append_assoc base.events rows.events (r ∷ [])),
          )
  add_row-IsFree c s rows m (session v) h = subst (Added c m (session v) s rows) (ok-injective h) (
    refl,
    refl,
    λ n base d.
        ap (λ l. ok (counting n s, record (joined base rows d) { sessions = l }))
          (append_assoc base.sessions rows.sessions (session_row v ∷ [])),
  )
  add_row-IsFree c s rows m (payment v) h = subst (Added c m (payment v) s rows) (ok-injective h) (
    refl,
    refl,
    λ n base d.
        ap (λ l. ok (counting n s, record (joined base rows d) { payments = l }))
          (append_assoc base.payments rows.payments (payment_row v ∷ [])),
  )
  add_row-IsFree c s rows m (location v) h =
      subst (Added c m (location v) s rows) (ok-injective h) (
        refl,
        refl,
        λ n base d.
            ap (λ l. ok (counting n s, record (joined base rows d) { locations = l }))
              (append_assoc base.locations rows.locations (location_row v ∷ [])),
      )
  add_row-IsFree c s rows m (broken error) h = poison-IsFree c s rows m error h

  abbrev pub TakenAll : Setting F → List Polled → PgSink → Rows F → PgSink × Rows F → Type 0
  TakenAll c ps s rows x = IsFree (λ s rows. take_all c s rows ps) (λ d. noted d ps) s rows x

  pub take_all-IsFree :
      (c : Setting F) (s : PgSink) (rows : Rows F) (ps : List Polled) {x : PgSink × Rows F}
      → take_all c s rows ps ≡ ok x
      → TakenAll c ps s rows x
  unfolding take_all take noted
  take_all-IsFree c s rows [] h =
      subst (TakenAll c [] s rows) (ok-injective h) (refl, refl, λ n base d. refl)
  take_all-IsFree c s rows (failed ∷ ps) h = cc
  take_all-IsFree c s rows (message m ∷ ps) h =
      let here = record rows { max_offsets = note_offset rows.max_offsets m } in
      let (y, e, rest) =
        >>=-eq-ok (add_row c s here m (c.decode m)) (λ r. take_all c r.0 r.1 ps) h in
      let (offsets, count, free) = add_row-IsFree c s here m (c.decode m) e in
      let (offsets', count', free') = take_all-IsFree c y.0 y.1 ps rest in
      (
        offsets' ∙ ap (λ d. noted d ps) offsets,
        count' ∙ count,
        λ n base d.
            ap (λ r. r >>= λ r. take_all c r.0 r.1 ps) (free n base (note_offset d m))
            ∙ free' n base (note_offset d m),
      )

  pub take_all-append :
      (c : Setting F) (s : PgSink) (rows : Rows F) (ps qs : List Polled)
      → take_all c s rows (ps ++ qs) ≡ (take_all c s rows ps >>= λ r. take_all c r.0 r.1 qs)
  unfolding take_all
  take_all-append c s rows [] qs = refl
  take_all-append c s rows (p ∷ ps) qs =
      >>=-ap (take c s rows p) _ _ (λ r. take_all-append c r.0 r.1 ps qs)
      ∙ sym (>>=->>= (take c s rows p) _ _)
