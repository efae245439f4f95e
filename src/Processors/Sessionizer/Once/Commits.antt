-- ===== src/Processors/Sessionizer/Once/Commits.antt =====
-- A gathered batch over sound stores: what they are in the gap, and after the commit.
use stream_pipeline.Prelude.Dict
use stream_pipeline.Prelude.Dict.{Dict, All_at, Fresh-of_get}
use stream_pipeline.Prelude.{
  ℕ, ◌≡◌, ◌≢◌, ◌<◌, refl, sym, ap, ◌∙◌, ◌⊎◌, inl, inr, String, List, [], ◌∷◌, ◌++◌, map, In,
  In-append_left, In-append_right, IsNodup, IsNodup-append, All, All-In, All-map, All-append,
  All-of-map, get_or, arith, nat_key, text_key, Option-cases, subst, All_In,
}
use stream_pipeline.Processors.SessionBuilder.{RideAccumulator}
use stream_pipeline.Processors.StateStore.{StateStore, CloseRow, append_batch}
use stream_pipeline.Processors.Sessionizer.State.{Sessionizer, Produced, Broker}
use stream_pipeline.Processors.Sessionizer.Batch.{Batch}
use stream_pipeline.Processors.Sessionizer.Process.{commit_offsets, next_offsets, roll_back, forget}
use stream_pipeline.Processors.Sessionizer.Once.Stores.{
  IsConfirmed, not_closed, is_closed_none, insert_closes-In, insert_closes-new, insert_closes-old,
  roll_back-Outlives, roll_back-old,
}
use stream_pipeline.Processors.Sessionizer.Once.Offsets.{commit-same, commit-other, commit-le}
use stream_pipeline.Processors.Sessionizer.Once.Folds.{IsOpen, IsOpenRide, Fits}
use stream_pipeline.Processors.Sessionizer.Once.Rides.{forget-Forgot}
use stream_pipeline.Processors.Sessionizer.Once.Sound.{
  IsCovered, IsSound, IsSound-of, IsLive, IsGathered,
}
use stream_pipeline.Processors.Sessionizer.Once.Steps.{published}
use stream_pipeline.Processors.Sessionizer.Once.Shown.{published-append, rides-IsNodup, In-rides}

module _ {F : Type 0} (assigned : List ℕ) (s0 : Sessionizer F) (broker : Broker F)
    (live : IsLive assigned s0 broker) (s : Sessionizer F) (b : Batch F)
    (closes : List (CloseRow F))
    (g : IsGathered assigned s0.store broker.committed s b closes) where
  -- the store after the SQLite commit
  abbrev stored : StateStore F
  stored = append_batch s.store b.journal closes

  abbrev committed' : Dict ℕ ℕ
  committed' = commit_offsets broker.committed (next_offsets b.batch_state)

  -- A close that was there stays: the batch closes only rides without one.
  keeps : (c : CloseRow F) → In c s0.store.closes → In c stored.closes
  unfolding append_batch
  keeps c i =
      insert_closes-In s.store.closes closes c
        (All-map closes (λ d open_ride. not_closed s0.store d.ride_id c open_ride i) g.new_rides)
        (subst (λ (st : StateStore F). In c st.closes) (sym g.same) i)

  old_or_new : (c : CloseRow F) → In c stored.closes → In c s0.store.closes ⊎ In c closes
  unfolding append_batch
  old_or_new c i = elim (insert_closes-old s.store.closes closes c i) [
    | inl j ↦ inl (subst (λ (st : StateStore F). In c st.closes) g.same j)
    | inr j ↦ inr j
  ]

  -- A new close is not confirmed in the gap,
  new_unconfirmed : (c : CloseRow F) → In c closes → ¬ IsConfirmed broker.committed c
  new_unconfirmed c i k =
      let (state, found, tag) = All-In _ c closes g.tagged i in
      let (_, ahead) =
        All_at (Fits (λ p. In p assigned) broker.committed) c.partition state b.batch_state
          g.all_fit found in
      let le = ahead c.offset tag in omega (arith, k, le)

  -- but it is after the commit.
  new-IsConfirmed : (c : CloseRow F) → In c closes → IsConfirmed committed' c
  new-IsConfirmed c i =
      let (state, found, tag) = All-In _ c closes g.tagged i in
      rw
        (commit-same broker.committed b.batch_state c.partition c.offset state g.distinct found tag)
        (omega arith)

  still-IsConfirmed : (c : CloseRow F) → IsConfirmed broker.committed c → IsConfirmed committed' c
  still-IsConfirmed c k =
      let le =
        commit-le broker.committed b.batch_state c.partition (All-map _ (λ e p. p.1) g.all_fit) in
      omega (arith, k, le)

  -- An old close that the commit confirms was confirmed before.
  was-IsConfirmed :
      (c : CloseRow F)
      → In c s0.store.closes
      → IsConfirmed committed' c
      → IsConfirmed broker.committed c
  was-IsConfirmed c i k = elim (Option-cases (Dict.get c.partition b.batch_state)) [
    | inl e ↦
        subst (λ o. c.offset < get_or o 0)
          (commit-other broker.committed b.batch_state c.partition
            (Fresh-of_get c.partition b.batch_state e))
          k
    | inr (state, e) ↦
        live.settled c i
          (All_at (Fits (λ p. In p assigned) broker.committed) c.partition state b.batch_state
            g.all_fit e).0
  ]

  pub gap-IsSound : IsSound stored broker
  gap-IsSound = record {
    once = live.sound.once;
    covered =
        All-map (published broker.log) (λ r (c, i, e, k). (c, keeps c i, e, k)) live.sound.covered;
    backed = λ c i k. elim (old_or_new c i) [
      | inl j ↦ live.sound.backed c j k
      | inr j ↦ elim (new_unconfirmed c j k) [ ]
    ];
  }

  pub roll_back-IsSound :
      (done : List (ℕ × ℕ)) → IsSound (roll_back stored broker.committed done) broker
  roll_back-IsSound done =
      IsSound-of stored _ broker (roll_back-Outlives broker.committed stored done)
        (roll_back-old broker.committed stored done) gap-IsSound

  module _ (rs : List (Produced F)) (shown : published rs ≡ map (λ c. c.ride_id) closes) where
    abbrev broker' : Broker F
    broker' = record { log = broker.log ++ rs; committed = committed' }

    all_shown : published broker'.log ≡ published broker.log ++ map (λ c. c.ride_id) closes
    all_shown = published-append broker.log rs ∙ ap (λ ys. published broker.log ++ ys) shown

    -- No ride of the batch was published before.
    unpublished :
        All
          (λ x. All (λ y. y ≢ x) (map (λ (c : CloseRow F). c.ride_id) closes))
          (published broker.log)
    unpublished =
        All-map (published broker.log)
          (λ x (c, i, e, k).
            All-of-map (λ y. y ≢ x) (λ (d : CloseRow F). d.ride_id) closes
              (All-map closes
                (λ d open_ride p. not_closed s0.store d.ride_id c open_ride i (e ∙ sym p))
                g.new_rides))
          live.sound.covered

    commit-IsCovered :
        All (IsCovered stored committed') (published broker.log ++ map (λ c. c.ride_id) closes)
    unfolding append_batch
    commit-IsCovered =
        All-append _ (published broker.log) (map (λ (c : CloseRow F). c.ride_id) closes)
          (All-map (published broker.log)
            (λ r (c, i, e, k). (c, keeps c i, e, still-IsConfirmed c k)) live.sound.covered)
          (All-of-map (IsCovered stored committed') (λ (c : CloseRow F). c.ride_id) closes
            (All_In closes (λ c i.
              (c, insert_closes-new s.store.closes closes c g.apart i, refl, new-IsConfirmed c i))))

    commit-backed :
        (c : CloseRow F)
        → In c stored.closes
        → IsConfirmed committed' c
        → In c.ride_id (published broker.log ++ map (λ c. c.ride_id) closes)
    commit-backed c i k = elim (old_or_new c i) [
      | inl j ↦
          In-append_left c.ride_id (published broker.log) _
            (live.sound.backed c j (was-IsConfirmed c j k))
      | inr j ↦ In-append_right c.ride_id (published broker.log) _ (In-rides c closes j)
    ]

    pub commit-IsSound : IsSound stored broker'
    commit-IsSound = record {
      once = subst IsNodup (sym all_shown) (
          IsNodup-append (published broker.log) _ live.sound.once (rides-IsNodup closes g.apart)
            unpublished);
      covered = subst (All (IsCovered stored committed')) (sym all_shown) commit-IsCovered;
      backed = λ c i k. subst (In c.ride_id) (sym all_shown) (commit-backed c i k);
    }

    commit-settled :
        (c : CloseRow F) → In c stored.closes → In c.partition assigned → IsConfirmed committed' c
    commit-settled c i a = elim (old_or_new c i) [
      | inl j ↦ still-IsConfirmed c (live.settled c j a)
      | inr j ↦ new-IsConfirmed c j
    ]

    pub commit-IsLive :
        (n : ℕ)
        → IsLive assigned
            (forget closes (record s { store = stored; sessions_emitted = n }))
            broker'
    commit-IsLive n =
        let next = record s { store = stored; sessions_emitted = n } in
        let f =
          forget-Forgot closes (IsOpenRide s0.store) next g.all_open.all_open g.all_open.distinct in
        record {
          sound = subst (λ st. IsSound st broker') (sym f.same) commit-IsSound;
          settled =
              λ c i a. commit-settled c (subst (λ (st : StateStore F). In c st.closes) f.same i) a;
          all_open =
              subst (λ st. IsOpen st (forget closes next).accs) (sym f.same)
                (record {
                  distinct = f.distinct;
                  all_open = open_after (forget closes next).accs f.all_keep f.none_closes;
                });
        }
      where
        open_after :
            (accs : Dict String (RideAccumulator F))
            → All (IsOpenRide s0.store) accs
            → All
                (λ (e : String × RideAccumulator F).
                  All (λ (c : CloseRow F). c.ride_id ≢ e.0) closes)
                accs
            → All (IsOpenRide stored) accs
        open_after [] x y = tt
        open_after (e ∷ accs) x y = (
          (
            x.0.0,
            is_closed_none stored e.0 (λ c i. elim (old_or_new c i) [
              | inl j ↦ not_closed s0.store e.0 c x.0.1 j
              | inr j ↦ All-In _ c closes y.0 j
            ]),
          ),
          open_after accs x.1 y.1,
        )
