-- ===== src/Processors/SessionBuilder/Slots.antt =====
-- What holds of the slots of an accumulator: no ordinal twice, and each event in the slot of its
-- own type.
use stream_pipeline.Prelude.Dict
use stream_pipeline.Prelude.Dict.{IsDict, put-IsDict, All-put, get-put}
use stream_pipeline.Prelude.Entries.{Within}
use stream_pipeline.Prelude.{
  In, ℕ, ◌≡◌, ◌≤◌, ◌<◌, ◌+◌, refl, ◌⊎◌, inl, inr, some, List, [], ◌∷◌, Result, ok, ◌>>=◌, >>=-eq-ok,
  arith, All, All-map, nat_key, if_pos, if_neg, ap, sym, ◌∙◌, subst, ok-injective, ℕ_discrete,
  String,
}
use stream_pipeline.Common.Events.{RideEvent}
use stream_pipeline.Generator.StateMachine.{RideEventType, event_seq}
use stream_pipeline.Processors.SessionBuilder.{RideAccumulator, new_accumulator, kind_of, add}

module _ {F : Type 0} where
  -- The event's type is the one with this ordinal.
  abbrev pub HasSeq : ℕ → RideEvent F ℕ → Type 0
  HasSeq k v = (kind : RideEventType) × (kind_of v ≡ ok kind) × (event_seq kind ≡ k)

  pub record IsFiled (acc : RideAccumulator F) : Type 0 where
    pub distinct : IsDict acc.slots
    pub in_slot : All (λ (e : ℕ × RideEvent F ℕ). HasSeq e.0 e.1) acc.slots

  pub add-IsFiled :
      (acc : RideAccumulator F) (v : RideEvent F ℕ) {acc' : RideAccumulator F}
      → add acc v ≡ ok acc'
      → IsFiled acc
      → IsFiled acc'
  unfolding add
  add-IsFiled acc v h f =
      let (kind, known, done) = >>=-eq-ok (kind_of v) _ h in
      subst IsFiled (ok-injective done) (record {
        distinct = put-IsDict (event_seq kind) v acc.slots f.distinct;
        in_slot =
            All-put (λ e. HasSeq e.0 e.1) (event_seq kind) v acc.slots (kind, known, refl)
              f.in_slot;
      })

  pub new_accumulator-IsFiled : (ride_id : String) → IsFiled (new_accumulator ride_id)
  new_accumulator-IsFiled ride_id = record { distinct = tt; in_slot = tt }

  -- There are six ordinals.
  pub IsFiled-Within : (acc : RideAccumulator F) → IsFiled acc → Within 1 6 acc.slots
  unfolding event_seq
  IsFiled-Within acc f = All-map acc.slots (λ e (kind, known, seq). in_range e.0 kind seq) f.in_slot
    where
      in_range : (k : ℕ) (kind : RideEventType) → event_seq kind ≡ k → (1 ≤ k) × (k < 1 + 6)
      in_range k kind h = ground arith

-- The fold of a sequence of events.
unfoldable pub add_all :
    {F : Type 0} → RideAccumulator F → List (RideEvent F ℕ) → Result (RideAccumulator F)
add_all acc [] = ok acc
add_all acc (v ∷ vs) = add acc v >>= λ acc'. add_all acc' vs

module _ {F : Type 0} where
  pub add_all-IsFiled :
      (acc : RideAccumulator F) (vs : List (RideEvent F ℕ)) {acc' : RideAccumulator F}
      → add_all acc vs ≡ ok acc'
      → IsFiled acc
      → IsFiled acc'
  unfolding add_all
  add_all-IsFiled acc [] h f = subst IsFiled (ok-injective h) f
  add_all-IsFiled acc (v ∷ vs) h f =
      let (next, added, rest) = >>=-eq-ok (add acc v) _ h in
      add_all-IsFiled next vs rest (add-IsFiled acc v added f)

  get-add :
      (acc : RideAccumulator F) (v : RideEvent F ℕ) {acc' : RideAccumulator F} (k : ℕ)
      → add acc v ≡ ok acc'
      → (Dict.get k acc'.slots ≡ Dict.get k acc.slots) × (¬ HasSeq k v)
        ⊎ (Dict.get k acc'.slots ≡ some v) × HasSeq k v
  unfolding add
  get-add acc v {acc'} k h =
      let (kind, known, done) = >>=-eq-ok (kind_of v) _ h in
      let seq = event_seq kind in
      let same : acc'.slots ≡ Dict.put seq v acc.slots =
        ap (λ (a : RideAccumulator F). a.slots) (sym (ok-injective done)) in
      let found = ap (Dict.get k) same ∙ get-put seq k v acc.slots in
      elim (ℕ_discrete seq k) [
        | yes p ↦ inr (found ∙ if_pos (ℕ_discrete seq k) p _ _, (kind, known, p))
        | no q ↦ inl (
          found ∙ if_neg (ℕ_discrete seq k) q _ _,
          λ (kind', known', p). q (ap event_seq (ok-injective (sym known ∙ known')) ∙ p),
        )
      ]

  -- After the fold a slot holds an event of the sequence, if one of that ordinal is in it, and
  -- otherwise what it held before.
  pub get-add_all :
      (acc : RideAccumulator F) (vs : List (RideEvent F ℕ)) {acc' : RideAccumulator F} (k : ℕ)
      → add_all acc vs ≡ ok acc'
      → (Dict.get k acc'.slots ≡ Dict.get k acc.slots)
          × ((v : RideEvent F ℕ) → In v vs → ¬ HasSeq k v)
        ⊎ ((v : RideEvent F ℕ) × (Dict.get k acc'.slots ≡ some v) × In v vs × HasSeq k v)
  unfolding add_all
  get-add_all acc [] k h =
      inl (ap (λ (a : RideAccumulator F). Dict.get k a.slots) (sym (ok-injective h)), λ v i _. i)
  get-add_all acc (x ∷ vs) k h =
      let (next, added, rest) = >>=-eq-ok (add acc x) _ h in
      elim (get-add_all next vs k rest) [
        | inr (v, found, i, s) ↦ inr (v, found, inr i, s)
        | inl (same, absent) ↦ elim (get-add acc x k added) [
          | inl (same', not_x) ↦ inl (
            same ∙ same',
            λ v. elim [ inl e ↦ λ s. not_x (subst (HasSeq k) (sym e) s) | inr i ↦ absent v i ],
          )
          | inr (found, s) ↦ inr (x, same ∙ found, inl refl, s)
        ]
      ]
