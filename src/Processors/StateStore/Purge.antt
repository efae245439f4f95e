-- ===== src/Processors/StateStore/Purge.antt =====
-- A purge deletes only the journal of rides that are closed.
use stream_pipeline.Prelude.{
  ℕ, ◌≡◌, refl, ap, Bool, false, not, ◌&&◌, List, [], ◌∷◌, select-select, select_congr, All_of, ◌∙◌,
  arith, str_eq, ◌==◌, ltb, Bool-cases, inl, inr,
}
use stream_pipeline.Prelude.Sort.{sorted}
use stream_pipeline.Processors.StateStore.{
  StateStore, JournalRow, CloseRow, exists, is_confirmed, is_closed, purge_confirmed, open_rides,
  group,
}

exists_weaken {ℓ} :
    {A : Type ℓ} (p q : A → Bool) (xs : List A)
    → exists p xs ≡ false
    → exists (λ x. p x && q x) xs ≡ false
unfolding exists
exists_weaken p q [] h = refl
exists_weaken p q (x ∷ xs) h = ground (arith, exists_weaken p q xs)

module _ {F : Type 0} (s : StateStore F) (partition below : ℕ) where
  open_not_purged :
      (r : JournalRow F) (other : ℕ)
      → (not (is_confirmed s partition below r.ride_id)
          && (r.partition == other && not (is_closed s r.ride_id)))
        ≡ (r.partition == other && not (is_closed s r.ride_id))
  unfolding is_closed
  open_not_purged r other = elim (Bool-cases (is_closed s r.ride_id)) [
    | inl closed ↦ ground (arith, closed)
    | inr open_ride ↦ ground (
      arith,
      open_ride,
      exists_weaken (λ (c : CloseRow F). str_eq c.ride_id r.ride_id)
          (λ c. c.partition == partition && ltb c.offset below) s.closes open_ride,
    )
  ]

  -- Purging the confirmed rides of one partition changes the open rides of no partition, and no
  -- close: the fold input of a recovery is the same before and after.
  pub open_rides-purge_confirmed :
      (other : ℕ)
      → (open_rides (purge_confirmed s partition below).0 other ≡ open_rides s other)
        × ((purge_confirmed s partition below).0.closes ≡ s.closes)
  unfolding open_rides purge_confirmed is_closed
  open_rides-purge_confirmed other = (
    ap (λ rows. group [] (sorted (λ (r : JournalRow F). r.offset) rows))
        (select-select _ _ s.journal
          ∙ select_congr _ _ s.journal (All_of s.journal (λ r. open_not_purged r other))),
    refl,
  )
