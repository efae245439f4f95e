-- ===== src/Processors/Sessionizer/Once/Rides.antt =====
-- The accumulators in memory are of open rides, whatever the process does to them.
use stream_pipeline.Prelude.Dict
use stream_pipeline.Prelude.Dict.{Dict, IsDict, All-pop, pop-IsDict, pop-Fresh, All-put}
use stream_pipeline.Prelude.Sort.{All-sorted}
use stream_pipeline.Prelude.{
  ℕ, ◌≡◌, ◌≢◌, ◌<◌, refl, sym, ◌∙◌, String, false, List, [], ◌∷◌, ◌++◌, In, All, All-map, All_of,
  get_or, arith, nat_key, text_key, subst, ok, >>=-eq-ok, ok-injective, select-All,
}
use stream_pipeline.Common.Events.{RideEvent}
use stream_pipeline.Processors.SessionBuilder.{RideAccumulator, new_accumulator}
use stream_pipeline.Processors.SessionBuilder.Slots.{add_all}
use stream_pipeline.Processors.StateStore.{
  StateStore, JournalRow, CloseRow, is_closed, group, open_rows, open_rides, rollback_from,
  purge_confirmed,
}
use stream_pipeline.Processors.Sessionizer.State.{Sessionizer, Broker}
use stream_pipeline.Processors.Sessionizer.Process.{forget}
use stream_pipeline.Processors.Sessionizer.Recovery.{
  load_rides, assign_one, rides_of, drop_rides, on_revoke,
}
use stream_pipeline.Processors.Sessionizer.Once.Stores.{not_closed, is_closed_none, rollback-old}
use stream_pipeline.Processors.Sessionizer.Once.Folds.{
  IsOpen, IsOpenRide, put-IsOpen, add_all-ride_id,
}

module _ {F : Type 0} where
  -- What `forget` leaves: the store, and the accumulators of the rides that have no close.
  pub record Forgot (closes : List (CloseRow F)) (P : String × RideAccumulator F → Type 0)
      (s s' : Sessionizer F) : Type 0 where
    pub same : s'.store ≡ s.store
    pub all_keep : All P s'.accs
    pub distinct : IsDict s'.accs
    pub none_closes :
        All
          (λ (e : String × RideAccumulator F). All (λ (c : CloseRow F). c.ride_id ≢ e.0) closes)
          s'.accs

  pub forget-Forgot :
      (closes : List (CloseRow F)) (P : String × RideAccumulator F → Type 0) (s : Sessionizer F)
      → All P s.accs
      → IsDict s.accs
      → Forgot closes P s (forget closes s)
  unfolding forget
  forget-Forgot [] P s h d = record {
    same = refl;
    all_keep = h;
    distinct = d;
    none_closes = All_of s.accs (λ _. tt);
  }
  forget-Forgot (c ∷ cs) P s h d =
      let rest =
        forget-Forgot cs (λ e. P e × (e.0 ≢ c.ride_id))
          (record s {
            accs = Dict.pop c.ride_id s.accs;
            acc_partition = Dict.pop c.ride_id s.acc_partition;
          })
          (both (Dict.pop c.ride_id s.accs) (All-pop P c.ride_id s.accs h)
            (pop-Fresh c.ride_id s.accs))
          (pop-IsDict c.ride_id s.accs d) in
      record {
        same = rest.same;
        all_keep = All-map _ (λ e p. p.0) rest.all_keep;
        distinct = rest.distinct;
        none_closes = both' _ (All-map _ (λ e p q. p.1 (sym q)) rest.all_keep) rest.none_closes;
      }
    where
      both :
          (accs : Dict String (RideAccumulator F))
          → All P accs
          → All (λ e. e.0 ≢ c.ride_id) accs
          → All (λ e. P e × (e.0 ≢ c.ride_id)) accs
      both [] x y = tt
      both (e ∷ accs) x y = ((x.0, y.0), both accs x.1 y.1)

      both' :
          (accs : Dict String (RideAccumulator F))
          → All (λ (e : String × RideAccumulator F). c.ride_id ≢ e.0) accs
          → All
              (λ (e : String × RideAccumulator F). All (λ (x : CloseRow F). x.ride_id ≢ e.0) cs)
              accs
          → All
              (λ (e : String × RideAccumulator F).
                (c.ride_id ≢ e.0) × All (λ (x : CloseRow F). x.ride_id ≢ e.0) cs)
              accs
      both' [] x y = tt
      both' (e ∷ accs) x y = ((x.0, y.0), both' accs x.1 y.1)

  -- A store that has fewer closes closes fewer rides.
  pub fewer-IsOpen :
      (s s' : StateStore F) (accs : Dict String (RideAccumulator F))
      → ((c : CloseRow F) → In c s'.closes → In c s.closes)
      → IsOpen s accs
      → IsOpen s' accs
  fewer-IsOpen s s' accs f h = record {
    distinct = h.distinct;
    all_open =
        All-map accs (λ e p. (p.0, is_closed_none s' e.0 (λ c i. not_closed s e.0 c p.1 (f c i))))
          h.all_open;
  }

  drop_rides-IsOpen :
      (s : Sessionizer F) (rides : List String)
      → IsOpen s.store s.accs
      → ((drop_rides s rides).store ≡ s.store) × IsOpen s.store (drop_rides s rides).accs
  unfolding drop_rides
  drop_rides-IsOpen s [] h = (refl, h)
  drop_rides-IsOpen s (r ∷ rides) h =
      drop_rides-IsOpen
        (record s { accs = Dict.pop r s.accs; acc_partition = Dict.pop r s.acc_partition }) rides
        (record {
          distinct = pop-IsDict r s.accs h.distinct;
          all_open = All-pop (IsOpenRide s.store) r s.accs h.all_open;
        })

  pub on_revoke-IsOpen :
      (s : Sessionizer F) (ps : List ℕ)
      → IsOpen s.store s.accs
      → ((on_revoke s ps).store ≡ s.store) × IsOpen s.store (on_revoke s ps).accs
  unfolding on_revoke rides_of
  on_revoke-IsOpen s [] h = (refl, h)
  on_revoke-IsOpen s (p ∷ ps) h =
      let rides = rides_of p s.acc_partition in
      let left = drop_rides s rides in
      let (same, o) = drop_rides-IsOpen s rides h in
      let (same', o') =
        on_revoke-IsOpen (record left { partitions = Dict.pop p left.partitions }) ps
          (subst (λ st. IsOpen st left.accs) (sym same) o) in
      (same' ∙ same, subst (λ st. IsOpen st (on_revoke s (p ∷ ps)).accs) same o')

  group-All :
      (Q : String → Type 0) (grouped : Dict String (List (RideEvent F ℕ)))
      (rows : List (JournalRow F))
      → All (λ e. Q e.0) grouped
      → All (λ (r : JournalRow F). Q r.ride_id) rows
      → All (λ e. Q e.0) (group grouped rows)
  unfolding group
  group-All Q grouped [] h k = h
  group-All Q grouped (r ∷ rows) h k =
      group-All Q
        (Dict.put r.ride_id (get_or (Dict.get r.ride_id grouped) [] ++ r.value ∷ []) grouped) rows
        (All-put (λ e. Q e.0) r.ride_id _ grouped k.0 h) k.1

  open_rides-All :
      (s : StateStore F) (p : ℕ)
      → All (λ (e : String × List (RideEvent F ℕ)). is_closed s e.0 ≡ false) (open_rides s p)
  unfolding open_rides open_rows
  open_rides-All s p =
      group-All (λ r. is_closed s r ≡ false) [] _ tt
        (All-sorted _ _ _ (All-map _ (λ r e. ground (arith, e)) (select-All _ s.journal)))

  load_rides-IsOpen :
      (s : Sessionizer F) (p : ℕ) (rides : Dict String (List (RideEvent F ℕ))) {s' : Sessionizer F}
      → load_rides s p rides ≡ ok s'
      → All (λ (e : String × List (RideEvent F ℕ)). is_closed s.store e.0 ≡ false) rides
      → IsOpen s.store s.accs
      → (s'.store ≡ s.store) × IsOpen s.store s'.accs
  unfolding load_rides
  load_rides-IsOpen s p [] h k o =
      subst (λ (x : Sessionizer F). (x.store ≡ s.store) × IsOpen s.store x.accs) (ok-injective h)
        (refl, o)
  load_rides-IsOpen s p ((ride_id, events) ∷ rides) h k o =
      let (acc, added, rest) = >>=-eq-ok (add_all (new_accumulator ride_id) events) _ h in
      load_rides-IsOpen
        (record s {
          accs = Dict.put ride_id acc s.accs;
          acc_partition = Dict.put ride_id p s.acc_partition;
        })
        p rides rest k.1
        (put-IsOpen s.store s.accs ride_id acc (add_all-ride_id _ events added) k.0 o)

  -- The store that the assignment of a partition leaves.
  abbrev pub recovered : StateStore F → Broker F → ℕ → StateStore F
  recovered store broker p =
      let resume = get_or (Dict.get p broker.committed) 0 in
      (purge_confirmed (rollback_from store p resume).0 p resume).0

  pub recovered-old :
      (store : StateStore F) (broker : Broker F) (p : ℕ) (c : CloseRow F)
      → In c (recovered store broker p).closes
      → In c store.closes × (c.partition ≡ p → c.offset < get_or (Dict.get p broker.committed) 0)
  unfolding purge_confirmed
  recovered-old store broker p c i = rollback-old store p _ c i

  pub assign_one-IsOpen :
      (s : Sessionizer F) (broker : Broker F) (p : ℕ) {s' : Sessionizer F}
      → assign_one s p (Dict.get p broker.committed) ≡ ok s'
      → IsOpen s.store s.accs
      → (s'.store ≡ recovered s.store broker p) × IsOpen (recovered s.store broker p) s'.accs
  unfolding assign_one
  assign_one-IsOpen s broker p h o =
      let store = recovered s.store broker p in
      let (loaded, got, done) = >>=-eq-ok (load_rides (record s { store = store }) p _) _ h in
      subst (λ (x : Sessionizer F). (x.store ≡ store) × IsOpen store x.accs) (ok-injective done)
        (load_rides-IsOpen (record s { store = store }) p _ got (open_rides-All store p)
          (fewer-IsOpen s.store store s.accs (λ c i. (recovered-old s.store broker p c i).0) o))
