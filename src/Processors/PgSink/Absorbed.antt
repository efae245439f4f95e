-- ===== src/Processors/PgSink/Absorbed.antt =====
-- The tables of the sink absorb their rows.
use stream_pipeline.Prelude.Dict
use stream_pipeline.Prelude.Dict.{Dict, get-put}
use stream_pipeline.Prelude.{
  integrity_error, ℕ, ◌≡◌, ◌≤◌, refl, sym, ap, ◌∙◌, ◌⊎◌, inl, inr, String, true, false, none, some,
  ok, raise, ok-injective, some-injective, subst, Option-cases, Bool-cases, arith, nat_key,
  text_key, pair_key, ltb, if_pos, if_neg,
}
use stream_pipeline.Processors.PgSink.Rows.{EventRow, SessionRow, PaymentRow, LocationRow}
use stream_pipeline.Processors.PgSink.Tables.{
  insert_event, upsert_session, updated, insert_payment, insert_location, has_event_id,
}
use stream_pipeline.Processors.PgSink.Absorbing.{
  Absorbing, HasKey, put-HasKey, put-same, put-HasKey_same, set_default-absorbing,
}

module _ {F : Type 0} where
  abbrev event_key : EventRow F → String × ℕ
  event_key r = (r.ride_id, r.event_seq)

  insert_event-cases :
      (t : Dict (String × ℕ) (EventRow F)) (q : EventRow F) {t' : Dict (String × ℕ) (EventRow F)}
      → insert_event t q ≡ ok t'
      → HasKey (event_key q) t × (t ≡ t') ⊎ (Dict.put (event_key q) q t ≡ t')
  unfolding insert_event HasKey
  insert_event-cases t q {t'} h = elim (Option-cases (Dict.get (event_key q) t)) [
    | inr (w, e) ↦ inl ((w, e), ok-injective (rw (insert_event, e) at h))
    | inl e ↦ elim (Bool-cases (has_event_id q.event_id (Dict.values t))) [
      | inl clash ↦
          let never : raise integrity_error ≡ ok t' = rw (insert_event, e, clash) at h in cc
      | inr free ↦ inr (ok-injective (rw (insert_event, e, free) at h))
    ]
  ]

  pub event-absorbing : Absorbing (insert_event {F = F})
  unfolding HasKey insert_event
  event-absorbing = record {
    Absorbs = λ r t. HasKey (event_key r) t;
    done = λ t r h. elim (insert_event-cases t r h) [
      | inl (k, e) ↦ subst (HasKey (event_key r)) e k
      | inr e ↦ subst (HasKey (event_key r)) e (there r t)
    ];
    keeps = λ t r q h k. elim (insert_event-cases t q h) [
      | inl (_, e) ↦ subst (HasKey (event_key r)) e k
      | inr e ↦ subst (HasKey (event_key r)) e (put-HasKey (event_key r) (event_key q) q t k)
    ];
    again = λ t r k. same t r k;
  }
    where
      there :
          (r : EventRow F) (t : Dict (String × ℕ) (EventRow F))
          → HasKey (event_key r) (Dict.put (event_key r) r t)
      there r t = put-HasKey_same (event_key r) r t

      same :
          (t : Dict (String × ℕ) (EventRow F)) (r : EventRow F)
          → HasKey (event_key r) t
          → insert_event t r ≡ ok t
      same t r (w, e) = rw (insert_event, e) refl

  -- A session of the ride is there that is at least as rich.
  HasRicher : SessionRow F ℕ → Dict String (SessionRow F ℕ) → Type 0
  HasRicher r t =
      (w : SessionRow F ℕ) × (Dict.get r.ride_id t ≡ some w) × (r.event_seq ≤ w.event_seq)

  put-HasRicher :
      (r q : SessionRow F ℕ) (x : SessionRow F ℕ) (t : Dict String (SessionRow F ℕ))
      → (q.ride_id ≡ r.ride_id → r.event_seq ≤ x.event_seq)
      → HasRicher r t
      → HasRicher r (Dict.put q.ride_id x t)
  unfolding HasRicher
  put-HasRicher r q x t f (w, g, le) = elim (text_key.dec q.ride_id r.ride_id) [
    | yes p ↦ (
      x,
      Dict.get-put q.ride_id r.ride_id x t ∙ if_pos (text_key.dec q.ride_id r.ride_id) p _ _,
      f p,
    )
    | no n ↦ (
      w,
      Dict.get-put q.ride_id r.ride_id x t ∙ if_neg (text_key.dec q.ride_id r.ride_id) n _ _ ∙ g,
      le,
    )
  ]

  session-done :
      (t : Dict String (SessionRow F ℕ)) (r : SessionRow F ℕ) → HasRicher r (upsert_session t r)
  unfolding HasRicher upsert_session
  session-done t r = elim (Option-cases (Dict.get r.ride_id t)) [
    | inl e ↦ rw (upsert_session, e) (r, put-same r.ride_id r t, omega arith)
    | inr (old, e) ↦ elim (Bool-cases (ltb old.event_seq r.event_seq)) [
      | inl lt ↦
          rw (upsert_session, e, lt)
            (updated old r, put-same r.ride_id (updated old r) t, omega arith)
      | inr ge ↦ rw (upsert_session, e, ge) (old, e, ground (arith, ge))
    ]
  ]

  session-keeps :
      (t : Dict String (SessionRow F ℕ)) (r q : SessionRow F ℕ)
      → HasRicher r t
      → HasRicher r (upsert_session t q)
  unfolding upsert_session HasRicher
  session-keeps t r q k = elim (Option-cases (Dict.get q.ride_id t)) [
    | inl e ↦ rw (upsert_session, e) (put-HasRicher r q q t (λ p. absent p k e) k)
    | inr (old, e) ↦ elim (Bool-cases (ltb old.event_seq q.event_seq)) [
      | inl lt ↦
          rw (upsert_session, e, lt) (put-HasRicher r q (updated old q) t (λ p. richer p k e lt) k)
      | inr ge ↦ rw (upsert_session, e, ge) k
    ]
  ]
    where
      absent :
          q.ride_id ≡ r.ride_id
          → HasRicher r t
          → Dict.get q.ride_id t ≡ none
          → r.event_seq ≤ q.event_seq
      absent p (w, g, le) e =
          let never : some w ≡ none = sym g ∙ (ap (λ x. Dict.get x t) (sym p) ∙ e) in cc

      richer :
          {old : SessionRow F ℕ}
          → q.ride_id ≡ r.ride_id
          → HasRicher r t
          → Dict.get q.ride_id t ≡ some old
          → ltb old.event_seq q.event_seq ≡ true
          → r.event_seq ≤ q.event_seq
      richer {old} p (w, g, le) e lt =
          let same : w ≡ old = some-injective (sym g ∙ (ap (λ x. Dict.get x t) (sym p) ∙ e)) in
          let le' : r.event_seq ≤ old.event_seq =
            subst (λ (x : SessionRow F ℕ). r.event_seq ≤ x.event_seq) same le in
          ground (arith, lt, le')

  session-again :
      (t : Dict String (SessionRow F ℕ)) (r : SessionRow F ℕ)
      → HasRicher r t
      → upsert_session t r ≡ t
  unfolding HasRicher upsert_session
  session-again t r (w, e, le) =
      let ge : ltb w.event_seq r.event_seq ≡ false = ground (arith, le) in
      rw (upsert_session, e, ge) refl

  pub session-absorbing :
      Absorbing {T = Dict String (SessionRow F ℕ)} {R = SessionRow F ℕ}
        (λ t r. ok (upsert_session t r))
  session-absorbing = record {
    Absorbs = HasRicher;
    done = λ t r h. subst (HasRicher r) (ok-injective h) (session-done t r);
    keeps = λ t r q h k. subst (HasRicher r) (ok-injective h) (session-keeps t r q k);
    again = λ t r k. ap ok (session-again t r k);
  }

  pub location-absorbing :
      Absorbing {T = Dict (String × ℕ) (LocationRow F ℕ)} {R = LocationRow F ℕ}
        (λ t r. ok (insert_location t r))
  unfolding insert_location
  location-absorbing = set_default-absorbing (λ r. (r.driver_id, r.ts)) (λ r. r)

pub payment-absorbing :
    Absorbing {T = Dict String (PaymentRow ℕ)} {R = PaymentRow ℕ} (λ t r. ok (insert_payment t r))
unfolding insert_payment
payment-absorbing = set_default-absorbing (λ r. r.txn_id) (λ r. r)
