-- ===== src/Processors/Sessionizer/Once/Shown.antt =====
-- The rides that the records of a transaction show.
use stream_pipeline.Prelude.{
  ℕ, ◌≡◌, ◌≢◌, refl, sym, ap, ◌∙◌, inl, inr, String, List, [], ◌∷◌, ◌++◌, map, In, IsNodup, All,
  All-map, All-of-map, nat_key, text_key, ok, >>=-eq-ok, append-nil, ap₂, ok-injective,
}
use stream_pipeline.Dlq.Envelope
use stream_pipeline.Dlq.Envelope.{Envelope}
use stream_pipeline.Common.Events.{RideEvent}
use stream_pipeline.Processors.SessionBuilder.{Session}
use stream_pipeline.Processors.StateStore.{CloseRow}
use stream_pipeline.Processors.Sessionizer.State.{Produced, Payload, session, clean, letter}
use stream_pipeline.Processors.Sessionizer.Batch.{Batch}
use stream_pipeline.Processors.Sessionizer.Process.{
  records, letter_records, session_record, clean_record, sessions_of,
}
use stream_pipeline.Processors.Sessionizer.Once.Stores.{IsApart}
use stream_pipeline.Processors.Sessionizer.Once.Steps.{published, with_ride}

module _ {F : Type 0} where
  with_ride-append :
      (p : Payload F) (xs ys : List String) → with_ride p (xs ++ ys) ≡ with_ride p xs ++ ys
  with_ride-append (session s) xs ys = refl
  with_ride-append (clean v) xs ys = refl
  with_ride-append (letter e) xs ys = refl

  pub published-append :
      (xs ys : List (Produced F)) → published (xs ++ ys) ≡ published xs ++ published ys
  unfolding published
  published-append [] ys = refl
  published-append (r ∷ xs) ys =
      ap (with_ride r.payload) (published-append xs ys)
      ∙ with_ride-append r.payload (published xs) (published ys)

  published-letters :
      (es : List Envelope) {rs : List (Produced F)} → letter_records es ≡ ok rs → published rs ≡ []
  unfolding published letter_records
  published-letters [] h = ap published (ok-injective (sym h))
  published-letters (e ∷ es) h =
      let (k, keyed, rest) = >>=-eq-ok (Envelope.key e) _ h in
      let (ls, made, done) = >>=-eq-ok (letter_records es) _ rest in
      ap published (ok-injective (sym done)) ∙ published-letters es made

  published-clean : (vs : List (RideEvent F ℕ)) → published (map clean_record vs) ≡ []
  unfolding published
  published-clean [] = refl
  published-clean (v ∷ vs) = published-clean vs

  published-sessions :
      (ss : List (Session F)) → published (map session_record ss) ≡ map (λ s. s.ride_id) ss
  unfolding published
  published-sessions [] = refl
  published-sessions (s ∷ ss) = ap (◌∷◌ s.ride_id) (published-sessions ss)

  own_rides :
      (closes : List (CloseRow F))
      → All (λ (c : CloseRow F). c.session.ride_id ≡ c.ride_id) closes
      → map (λ (s : Session F). s.ride_id) (sessions_of closes)
        ≡ map (λ (c : CloseRow F). c.ride_id) closes
  own_rides [] h = refl
  own_rides (c ∷ cs) h = ap₂ (◌∷◌) h.0 (own_rides cs h.1)

  -- The records of a transaction show the rides of its closes.
  pub published-records :
      (closes : List (CloseRow F)) (b : Batch F) {rs : List (Produced F)}
      → records (sessions_of closes) b ≡ ok rs
      → All (λ (c : CloseRow F). c.session.ride_id ≡ c.ride_id) closes
      → published rs ≡ map (λ c. c.ride_id) closes
  unfolding records
  published-records closes b h own =
      let (ls, made, done) = >>=-eq-ok (letter_records b.poisons) _ h in
      let sessions = map session_record (sessions_of closes) in
      let cleaned = map clean_record b.clean_forward in
      ap published (ok-injective (sym done))
      ∙ published-append sessions (cleaned ++ ls)
      ∙ ap₂ (◌++◌) (published-sessions (sessions_of closes)) (
          published-append cleaned ls
          ∙ ap₂ (◌++◌) (published-clean b.clean_forward) (published-letters b.poisons made))
      ∙ append-nil (map (λ (s : Session F). s.ride_id) (sessions_of closes))
      ∙ own_rides closes own

  pub rides-IsNodup :
      (closes : List (CloseRow F)) → IsApart closes → IsNodup (map (λ c. c.ride_id) closes)
  unfolding IsApart
  rides-IsNodup [] h = tt
  rides-IsNodup (c ∷ cs) h = (
    All-of-map (λ r. r ≢ c.ride_id) (λ (d : CloseRow F). d.ride_id) cs
        (All-map cs (λ d n p. n (sym p)) h.0),
    rides-IsNodup cs h.1,
  )

  pub In-rides :
      (c : CloseRow F) (cs : List (CloseRow F)) → In c cs → In c.ride_id (map (λ d. d.ride_id) cs)
  In-rides c [] i = elim i [ ]
  In-rides c (d ∷ cs) (inl e) = inl (ap (λ (x : CloseRow F). x.ride_id) e)
  In-rides c (d ∷ cs) (inr i) = inr (In-rides c cs i)
