-- ===== src/Processors/Sessionizer/Once/Folds.antt =====
-- What the messages of a batch leave in place: the store, and accumulators of open rides only.
use stream_pipeline.Prelude.Dict
use stream_pipeline.Prelude.Dict.{Dict, IsDict, put-IsDict, All-put, All_at}
use stream_pipeline.Prelude.{
  ℕ, ◌≡◌, ◌≤◌, refl, sym, ap, ◌∙◌, inl, inr, String, false, List, [], ◌∷◌, All, get_or, arith,
  nat_key, text_key, Option-cases, Bool-cases, subst, ok, >>=-eq-ok, ok-injective,
}
use stream_pipeline.Common.Events.{RideEvent}
use stream_pipeline.Dlq.Envelope.{Message}
use stream_pipeline.Processors.SessionBuilder.{RideAccumulator, new_accumulator, add, kind_of}
use stream_pipeline.Processors.SessionBuilder.Slots.{add_all}
use stream_pipeline.Processors.StateStore.{StateStore, is_closed}
use stream_pipeline.Processors.Sessionizer.State.{Sessionizer, PartitionState}
use stream_pipeline.Processors.Sessionizer.Batch.{
  Batch, Setting, Polled, message, partition_eof, failed, Decoded, value, broken, normalise,
  note_offset, accumulate, take_value, take_decoded, take, take_all,
}
use stream_pipeline.Processors.Sessionizer.Once.Offsets.{IsAhead}

module _ {F : Type 0} where
  pub add-ride_id :
      (acc : RideAccumulator F) (v : RideEvent F ℕ) {acc' : RideAccumulator F}
      → add acc v ≡ ok acc'
      → acc'.ride_id ≡ acc.ride_id
  unfolding add
  add-ride_id acc v h =
      let (kind, known, done) = >>=-eq-ok (kind_of v) _ h in
      ap (λ (a : RideAccumulator F). a.ride_id) (sym (ok-injective done))

  pub add_all-ride_id :
      (acc : RideAccumulator F) (vs : List (RideEvent F ℕ)) {acc' : RideAccumulator F}
      → add_all acc vs ≡ ok acc'
      → acc'.ride_id ≡ acc.ride_id
  unfolding add_all
  add_all-ride_id acc [] h = ap (λ (a : RideAccumulator F). a.ride_id) (sym (ok-injective h))
  add_all-ride_id acc (v ∷ vs) h =
      let (next, added, rest) = >>=-eq-ok (add acc v) _ h in
      add_all-ride_id next vs rest ∙ add-ride_id acc v added

  -- The accumulator is filed under its ride, and the ride has no close.
  abbrev pub IsOpenRide : StateStore F → String × RideAccumulator F → Type 0
  IsOpenRide store e = (e.1.ride_id ≡ e.0) × (is_closed store e.0 ≡ false)

  pub record IsOpen (store : StateStore F) (accs : Dict String (RideAccumulator F)) : Type 0 where
    pub distinct : IsDict accs
    pub all_open : All (IsOpenRide store) accs

  pub put-IsOpen :
      (store : StateStore F) (accs : Dict String (RideAccumulator F)) (ride_id : String)
      (acc : RideAccumulator F)
      → acc.ride_id ≡ ride_id
      → is_closed store ride_id ≡ false
      → IsOpen store accs
      → IsOpen store (Dict.put ride_id acc accs)
  put-IsOpen store accs ride_id acc e c h = record {
    distinct = put-IsDict ride_id acc accs h.distinct;
    all_open = All-put (IsOpenRide store) ride_id acc accs (e, c) h.all_open;
  }

-- What the consumer guarantees of the messages of a poll: they are of partitions assigned to it,
-- and it starts at the committed offset.
module _ (assigned : ℕ → Type 0) (committed : Dict ℕ ℕ) where
  abbrev pub IsDelivered : Polled → Type 0
  IsDelivered (message m) =
      assigned m.partition × (get_or (Dict.get m.partition committed) 0 ≤ m.offset)
  IsDelivered _ = Unit

  abbrev pub Fits : ℕ × PartitionState → Type 0
  Fits e = assigned e.0 × IsAhead committed e

  note_offset-Fits :
      (states : Dict ℕ PartitionState) (partition offset : ℕ)
      → assigned partition
      → get_or (Dict.get partition committed) 0 ≤ offset
      → All Fits states
      → All Fits (note_offset states partition offset)
  unfolding note_offset
  note_offset-Fits states partition offset a le h =
      All-put Fits partition _ states
        (
          a,
          elim (Option-cases (Dict.get partition states)) [
            | inl e ↦ rw e (λ o m. ground (arith, le, m))
            | inr (st, e) ↦
                let (_, ahead) = All_at Fits partition st states h e in
                rw e (λ o m. elim (Option-cases st.max_offset_in_batch) [
                  | inl k ↦ ground (arith, le, k, m)
                  | inr (x, k) ↦ ground (arith, le, k, m, ahead x k)
                ])
          ],
        )
        h

  module _ {F : Type 0} (store : StateStore F) where
    pub record Kept (s : Sessionizer F) (b : Batch F) : Type 0 where
      pub same : s.store ≡ store
      pub all_open : IsOpen store s.accs
      pub distinct : IsDict b.batch_state
      pub all_fit : All Fits b.batch_state

    abbrev pub BothKept : Sessionizer F × Batch F → Type 0
    BothKept r = Kept r.0 r.1

    accumulate-IsOpen :
        (s : Sessionizer F) (partition : ℕ) (v : RideEvent F ℕ) {s' : Sessionizer F}
        → accumulate s partition v ≡ ok s'
        → is_closed store v.ride_id ≡ false
        → IsOpen store s.accs
        → (s'.store ≡ s.store) × IsOpen store s'.accs
    unfolding accumulate
    accumulate-IsOpen s partition v h c o = elim (Option-cases (Dict.get v.ride_id s.accs)) [
      | inl e ↦
          let (acc, added, done) =
            >>=-eq-ok (add (new_accumulator v.ride_id) v) _ (rw (accumulate, e) at h) in
          subst (λ (x : Sessionizer F). (x.store ≡ s.store) × IsOpen store x.accs)
            (ok-injective done)
            (refl, put-IsOpen store s.accs v.ride_id acc (add-ride_id _ v added) c o)
      | inr (old, e) ↦
          let (acc, added, done) = >>=-eq-ok (add old v) _ (rw (accumulate, e) at h) in
          subst (λ (x : Sessionizer F). (x.store ≡ s.store) × IsOpen store x.accs)
            (ok-injective done)
            (
              refl,
              put-IsOpen store s.accs v.ride_id acc
                  (add-ride_id old v added
                    ∙ (All_at (IsOpenRide store) v.ride_id old s.accs o.all_open e).0)
                  c o,
            )
    ]

    take_value-Kept :
        (s : Sessionizer F) (b : Batch F) (m : Message) (v : RideEvent F ℕ)
        {r : Sessionizer F × Batch F}
        → take_value s b m v ≡ ok r
        → Kept s b
        → BothKept r
    unfolding take_value
    take_value-Kept s b m v h k = elim (Bool-cases (is_closed s.store v.ride_id)) [
      | inl closed ↦ subst BothKept (ok-injective (rw (take_value, closed) at h)) (record {
        same = k.same;
        all_open = k.all_open;
        distinct = k.distinct;
        all_fit = k.all_fit;
      })
      | inr still_open ↦
          let (s2, done, rest) =
            >>=-eq-ok (accumulate _ m.partition v) _ (rw (take_value, still_open) at h) in
          let (same, all_open) =
            accumulate-IsOpen _ m.partition v done
              (subst (λ st. is_closed st v.ride_id ≡ false) k.same still_open) k.all_open in
          subst BothKept (ok-injective rest) (record {
            same = same ∙ k.same;
            all_open = all_open;
            distinct = k.distinct;
            all_fit = k.all_fit;
          })
    ]

    take_decoded-Kept :
        (c : Setting F) (s : Sessionizer F) (b : Batch F) (m : Message) (d : Decoded F)
        {r : Sessionizer F × Batch F}
        → take_decoded c s b m d ≡ ok r
        → Kept s b
        → BothKept r
    take_decoded-Kept c s b m (value v) h k = take_value-Kept s b m (normalise v) h k
    take_decoded-Kept c s b m (broken e) h k = subst BothKept (ok-injective h) (record {
      same = k.same;
      all_open = k.all_open;
      distinct = k.distinct;
      all_fit = k.all_fit;
    })

    take-Kept :
        (c : Setting F) (s : Sessionizer F) (b : Batch F) (p : Polled) {r : Sessionizer F × Batch F}
        → take c s b p ≡ ok r
        → IsDelivered p
        → Kept s b
        → BothKept r
    unfolding take note_offset
    take-Kept c s b partition_eof h d k = subst BothKept (ok-injective h) k
    take-Kept c s b failed h d k = cc
    take-Kept c s b (message m) h d k = take_decoded-Kept c _ _ m (c.decode m) h (record {
      same = k.same;
      all_open = k.all_open;
      distinct = put-IsDict m.partition _ b.batch_state k.distinct;
      all_fit = note_offset-Fits b.batch_state m.partition m.offset d.0 d.1 k.all_fit;
    })

    pub take_all-Kept :
        (c : Setting F) (s : Sessionizer F) (b : Batch F) (ps : List Polled)
        {r : Sessionizer F × Batch F}
        → take_all c s b ps ≡ ok r
        → All IsDelivered ps
        → Kept s b
        → BothKept r
    unfolding take_all
    take_all-Kept c s b [] h d k = subst BothKept (ok-injective h) k
    take_all-Kept c s b (p ∷ ps) h d k =
        let (r, taken, rest) = >>=-eq-ok (take c s b p) _ h in
        take_all-Kept c r.0 r.1 ps rest d.1 (take-Kept c s b p taken d.0 k)
