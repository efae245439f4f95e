-- ===== src/Processors/Sessionizer/Once/Assignments.antt =====
-- What a recovery, a rebalance and a death in either keep.
use stream_pipeline.Prelude.Dict
use stream_pipeline.Prelude.Dict.{Dict}
use stream_pipeline.Prelude.{
  ℕ, ◌≡◌, ◌<◌, sym, inl, inr, List, [], ◌∷◌, ◌++◌, In, In-append_left, In-append_right,
  In-append_or, select-In, get_or, nat_key, subst, ok, ok-injective, >>=-eq-ok,
}
use stream_pipeline.Processors.StateStore.{StateStore}
use stream_pipeline.Processors.Sessionizer.State.{Sessionizer, Broker}
use stream_pipeline.Processors.Sessionizer.Recovery.{assign_one, on_assign, on_revoke}
use stream_pipeline.Processors.Sessionizer.Once.Stores.{rollback-Outlives, purge-Outlives}
use stream_pipeline.Processors.Sessionizer.Once.Folds.{IsOpen}
use stream_pipeline.Processors.Sessionizer.Once.Rides.{
  recovered, recovered-old, assign_one-IsOpen, on_revoke-IsOpen,
}
use stream_pipeline.Processors.Sessionizer.Once.Sound.{IsSound, IsSound-of, IsLive}
use stream_pipeline.Processors.Sessionizer.Once.Steps.{System, up, down, without}

module _ {F : Type 0} where
  abbrev pub IsGood : System F → Type 0
  IsGood (up assigned s broker) = IsLive assigned s broker
  IsGood (down store broker) = IsSound store broker

  fewer-IsLive :
      (few many : List ℕ) (s : Sessionizer F) (broker : Broker F)
      → ((p : ℕ) → In p few → In p many)
      → IsLive many s broker
      → IsLive few s broker
  fewer-IsLive few many s broker f h = record {
    sound = h.sound;
    all_open = h.all_open;
    settled = λ c i a. h.settled c i (f c.partition a);
  }

  pub recovered-IsSound :
      (store : StateStore F) (broker : Broker F) (p : ℕ)
      → IsSound store broker
      → IsSound (recovered store broker p) broker
  recovered-IsSound store broker p =
      IsSound-of store (recovered store broker p) broker
        (λ c k i.
          purge-Outlives broker.committed _ p _ c k
            (rollback-Outlives broker.committed store p c k i))
        (λ c i. (recovered-old store broker p c i).0)

  assign_one-IsLive :
      (assigned : List ℕ) (s : Sessionizer F) (broker : Broker F) (p : ℕ) {s' : Sessionizer F}
      → assign_one s p (Dict.get p broker.committed) ≡ ok s'
      → IsLive assigned s broker
      → IsLive (p ∷ assigned) s' broker
  assign_one-IsLive assigned s broker p {s'} h live =
      let store = recovered s.store broker p in
      let (same, o) = assign_one-IsOpen s broker p h live.all_open in
      record {
        sound =
            subst (λ st. IsSound st broker) (sym same)
              (recovered-IsSound s.store broker p live.sound);
        all_open = subst (λ st. IsOpen st s'.accs) (sym same) o;
        settled = λ c i a.
            let (j, k) =
              recovered-old s.store broker p c
                (subst (λ (st : StateStore F). In c st.closes) same i) in
            elim a [
              | inl e ↦ subst (λ q. c.offset < get_or (Dict.get q broker.committed) 0) e (k (sym e))
              | inr t ↦ live.settled c j t
            ];
      }

  pub on_assign-IsLive :
      (assigned : List ℕ) (s : Sessionizer F) (broker : Broker F) (ps : List ℕ) {s' : Sessionizer F}
      → on_assign s broker ps ≡ ok s'
      → IsLive assigned s broker
      → IsLive (ps ++ assigned) s' broker
  unfolding on_assign
  on_assign-IsLive assigned s broker [] h live =
      subst (λ x. IsLive assigned x broker) (ok-injective h) live
  on_assign-IsLive assigned s broker (p ∷ ps) {s'} h live =
      let (one, got, rest) = >>=-eq-ok (assign_one s p (Dict.get p broker.committed)) _ h in
      fewer-IsLive (p ∷ ps ++ assigned) (ps ++ p ∷ assigned) s' broker
        (λ q. elim [
          | inl e ↦ In-append_right q ps (p ∷ assigned) (inl e)
          | inr i ↦ elim (In-append_or q ps assigned i) [
            | inl j ↦ In-append_left q ps (p ∷ assigned) j
            | inr j ↦ In-append_right q ps (p ∷ assigned) (inr j)
          ]
        ])
        (on_assign-IsLive (p ∷ assigned) one broker ps rest
          (assign_one-IsLive assigned s broker p got live))

  pub on_revoke-IsLive :
      (assigned : List ℕ) (s : Sessionizer F) (broker : Broker F) (ps : List ℕ)
      → IsLive assigned s broker
      → IsLive (without ps assigned) (on_revoke s ps) broker
  on_revoke-IsLive assigned s broker ps live =
      let (same, o) = on_revoke-IsOpen s ps live.all_open in
      record {
        sound = subst (λ st. IsSound st broker) (sym same) live.sound;
        all_open = subst (λ st. IsOpen st (on_revoke s ps).accs) (sym same) o;
        settled = λ c i a.
            live.settled c (subst (λ (st : StateStore F). In c st.closes) same i)
              (select-In _ c.partition assigned a).0;
      }
