-- ===== src/Processors/Sessionizer/Once/Closes.antt =====
-- The closes of a batch: of rides in memory, no ride twice, tagged with the batch's offsets.
use stream_pipeline.Prelude.Dict
use stream_pipeline.Prelude.Dict.{Dict, IsDict}
use stream_pipeline.Prelude.{
  ℕ, ◌≡◌, ◌≢◌, refl, sym, ap, ◌∙◌, inl, inr, String, Bool, true, false, Option, none, some, List,
  [], ◌∷◌, All, All-append, All-map, nat_key, text_key, Option-cases, ok, >>=-Ensures, Ensures,
  Ensures-ok, ok-injective,
}
use stream_pipeline.Common.Floats.{Floats}
use stream_pipeline.Generator.StateMachine.{RideEventType}
use stream_pipeline.Processors.SessionBuilder.{
  RideAccumulator, Session, index, terminal, timed_out, build_session, closable, first,
}
use stream_pipeline.Processors.StateStore.{CloseRow}
use stream_pipeline.Processors.Sessionizer.State.{PartitionState, Sessionizer}
use stream_pipeline.Processors.Sessionizer.Process.{close_by, close_now, close_one, collect_closes}
use stream_pipeline.Processors.Sessionizer.Once.Stores.{IsApart, IsApart-append}

index-ok : {A : Type 0} (o : Option A) {a : A} → index o ≡ ok a → o ≡ some a
index-ok none h = cc
index-ok (some a) h = ap some (ok-injective h)

module _ (fl : Floats) where
  open fl use {Float}

  abbrev IsSessionOf : RideAccumulator Float → Session Float → Type 0
  IsSessionOf acc s = s.ride_id ≡ acc.ride_id

  build_session-ride_id :
      (acc : RideAccumulator Float) (late : Bool)
      → Ensures (IsSessionOf acc) (build_session fl acc late)
  unfolding build_session
  build_session-ride_id acc late = >>=-Ensures _ (terminal acc) _ λ state _.
      >>=-Ensures _ (closable state late) _ λ _ _. >>=-Ensures _ (first acc.slots _) _ λ _ _.
        >>=-Ensures _ (first acc.slots _) _ λ _ _. >>=-Ensures _ (first acc.slots _) _ λ _ _.
          >>=-Ensures _ (first acc.slots _) _ λ _ _. >>=-Ensures _ (first acc.slots _) _ λ _ _.
            >>=-Ensures _ (first acc.slots _) _ λ _ _. >>=-Ensures _ (first acc.slots _) _ λ _ _.
              >>=-Ensures _ (first acc.slots _) _
                λ _ _. >>=-Ensures _ (first acc.slots _) _ λ _ _. refl

  abbrev MaybeSessionOf : RideAccumulator Float → Option (Session Float) → Type 0
  MaybeSessionOf acc none = Unit
  MaybeSessionOf acc (some s) = IsSessionOf acc s

  close_by-ride_id :
      (acc : RideAccumulator Float) (late : Bool) (state : Option RideEventType)
      → Ensures (MaybeSessionOf acc) (close_by fl acc late state)
  unfolding close_by
  close_by-ride_id acc late (some _) =
      >>=-Ensures _ (build_session fl acc false) _
        λ s e. Ensures-ok _ (build_session fl acc false) e (build_session-ride_id acc false)
  close_by-ride_id acc true none =
      >>=-Ensures _ (build_session fl acc true) _
        λ s e. Ensures-ok _ (build_session fl acc true) e (build_session-ride_id acc true)
  close_by-ride_id acc false none = tt

  close_now-ride_id :
      (acc : RideAccumulator Float) (watermark_ms timeout_ms : ℕ)
      → Ensures (MaybeSessionOf acc) (close_now fl acc watermark_ms timeout_ms)
  unfolding close_now
  close_now-ride_id acc watermark_ms timeout_ms =
      >>=-Ensures _ (terminal acc) _
        λ state _. close_by-ride_id acc (timed_out acc watermark_ms timeout_ms) state

  -- The offset of the batch in the partition of the close is its tag.
  abbrev pub IsTagged : Dict ℕ PartitionState → CloseRow Float → Type 0
  IsTagged states c =
      (state : PartitionState) × (Dict.get c.partition states ≡ some state)
      × (state.max_offset_in_batch ≡ some c.offset)

  pub record IsCloseOf (states : Dict ℕ PartitionState) (e : String × RideAccumulator Float)
      (c : CloseRow Float) : Type 0 where
    pub ride : c.ride_id ≡ e.0
    pub session_ride : c.session.ride_id ≡ e.1.ride_id
    pub tagged : IsTagged states c

  module _ (s : Sessionizer Float) (states : Dict ℕ PartitionState) (timeout_ms : ℕ) where
    close_one-Ensures :
        (P : List (CloseRow Float) → Type 0) (ride_id : String) (acc : RideAccumulator Float)
        → P []
        → ((c : CloseRow Float) → IsCloseOf states (ride_id, acc) c → P (c ∷ []))
        → Ensures P (close_one fl s states timeout_ms ride_id acc)
    unfolding close_one
    close_one-Ensures P ride_id acc z f =
        >>=-Ensures P (index (Dict.get ride_id s.acc_partition)) _ λ partition _.
          elim (Option-cases (Dict.get partition states)) [
            | inl e ↦ rw e z
            | inr (state, e) ↦ rw e (
                >>=-Ensures P (index state.max_offset_in_batch) _ λ tag t.
                  >>=-Ensures P (index (Dict.get partition s.partitions)) _ λ pstate _.
                    >>=-Ensures P (close_now fl acc pstate.watermark_ms timeout_ms) _ λ closed k.
                      made partition tag state e (index-ok state.max_offset_in_batch t) closed (
                        Ensures-ok (MaybeSessionOf acc)
                          (close_now fl acc pstate.watermark_ms timeout_ms) k
                          (close_now-ride_id acc pstate.watermark_ms timeout_ms)))
          ]
      where
        made :
            (partition tag : ℕ) (state : PartitionState)
            → Dict.get partition states ≡ some state
            → state.max_offset_in_batch ≡ some tag
            → (closed : Option (Session Float)) → MaybeSessionOf acc closed
            → Ensures P (elim closed [
              | none ↦ ok []
              | some done ↦ ok (
                  (record {
                    ride_id = ride_id;
                    partition = partition;
                    offset = tag;
                    session = done;
                  })
                  ∷ [])
            ])
        made partition tag state g t none r = z
        made partition tag state g t (some done) r =
            f _ (record { ride = refl; session_ride = r; tagged = (state, g, t) })

    -- What holds of every close of an entry that `P` holds of, holds of all closes.
    pub collect_closes-All :
        (P : String × RideAccumulator Float → Type 0) (Q : CloseRow Float → Type 0)
        → ((e : String × RideAccumulator Float) (c : CloseRow Float)
            → P e
            → IsCloseOf states e c
            → Q c)
        → (accs : Dict String (RideAccumulator Float)) → All P accs
        → Ensures (All Q) (collect_closes fl s states timeout_ms accs)
    unfolding collect_closes
    collect_closes-All P Q f [] h = tt
    collect_closes-All P Q f ((ride_id, acc) ∷ accs) h =
        >>=-Ensures _ (close_one fl s states timeout_ms ride_id acc) _ λ close e.
          >>=-Ensures _ (collect_closes fl s states timeout_ms accs) _ λ closes es.
            All-append Q close closes
              (Ensures-ok _ _ e
                (close_one-Ensures (All Q) ride_id acc tt (λ c i. (f (ride_id, acc) c h.0 i, tt))))
              (Ensures-ok _ _ es (collect_closes-All P Q f accs h.1))

    -- No ride is closed twice in a batch.
    pub collect_closes-IsApart :
        (accs : Dict String (RideAccumulator Float))
        → IsDict accs
        → Ensures (IsApart {F = Float}) (collect_closes fl s states timeout_ms accs)
    unfolding collect_closes IsApart
    collect_closes-IsApart [] h = tt
    collect_closes-IsApart ((ride_id, acc) ∷ accs) h =
        >>=-Ensures _ (close_one fl s states timeout_ms ride_id acc) _ λ close e.
          >>=-Ensures _ (collect_closes fl s states timeout_ms accs) _ λ closes es.
            let Here : List (CloseRow Float) → Type 0 =
              λ cs. IsApart cs × All (λ (c : CloseRow Float). c.ride_id ≡ ride_id) cs in
            let here : Here close =
              Ensures-ok Here _ e
                (close_one-Ensures Here ride_id acc (tt, tt) (λ c i. ((tt, tt), (i.ride, tt)))) in
            let other = Ensures-ok (All (λ (d : CloseRow Float). d.ride_id ≢ ride_id)) _ es (
              collect_closes-All (λ x. x.0 ≢ ride_id) _ (λ x c n i p. n (sym i.ride ∙ p)) accs
                h.0) in
            IsApart-append close closes here.0
              (Ensures-ok IsApart _ es (collect_closes-IsApart accs h.1))
              (All-map close (λ c own. All-map closes (λ d n p. n (sym p ∙ own)) other) here.1)
