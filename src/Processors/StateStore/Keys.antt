-- ===== src/Processors/StateStore/Keys.antt =====
-- The primary keys of the two tables hold in every store that the methods build.
use stream_pipeline.Prelude.{
  ℕ, ◌≡◌, Bool, false, not, List, [], ◌∷◌, ◌++◌, select, All, All-map, All-append, All-select,
  arith, str_eq, Bool-cases, inl, inr,
}
use stream_pipeline.Processors.StateStore.{
  StateStore, JournalRow, CloseRow, empty_store, exists, same_position, insert_or_ignore,
  insert_or_replace, insert_journal, insert_closes, append_batch, rollback_from, purge_confirmed,
}

-- No two elements are the same by a test.
module _ {ℓ} {A : Type ℓ} (same : A → A → Bool) where
  abbrev pub IsDistinct : List A → Type 0
  IsDistinct [] = Unit
  IsDistinct (x ∷ xs) = All (λ y. same x y ≡ false) xs × IsDistinct xs

  IsDistinct-select : (p : A → Bool) (xs : List A) → IsDistinct xs → IsDistinct (select p xs)
  unfolding select
  IsDistinct-select p [] h = tt
  IsDistinct-select p (x ∷ xs) h = elim (Bool-cases (p x)) [
    | inl e ↦ rw e (All-select _ p xs h.0, IsDistinct-select p xs h.1)
    | inr e ↦ rw e (IsDistinct-select p xs h.1)
  ]

  IsDistinct-snoc :
      (xs : List A) (y : A)
      → IsDistinct xs
      → All (λ x. same x y ≡ false) xs
      → IsDistinct (xs ++ y ∷ [])
  IsDistinct-snoc [] y h n = (tt, tt)
  IsDistinct-snoc (x ∷ xs) y h n =
      (All-append _ xs (y ∷ []) h.0 (n.0, tt), IsDistinct-snoc xs y h.1 n.1)

none_exists {ℓ} :
    {A : Type ℓ} (p : A → Bool) (xs : List A) → exists p xs ≡ false → All (λ x. p x ≡ false) xs
unfolding exists
none_exists p [] h = tt
none_exists p (x ∷ xs) h = (ground arith, none_exists p xs (ground arith))

-- The primary key of `closes`.
abbrev pub same_ride : {F : Type 0} → CloseRow F → CloseRow F → Bool
same_ride c d = str_eq c.ride_id d.ride_id

-- The calls that write to the store.
pub data Write (F : Type 0) : Type 0 where
  batch : List (JournalRow F) → List (CloseRow F) → Write F
  rollback : ℕ → ℕ → Write F
  purge : ℕ → ℕ → Write F

module _ {F : Type 0} where
  pub record IsKeyed (s : StateStore F) : Type 0 where
    pub positions : IsDistinct same_position s.journal
    pub rides : IsDistinct same_ride s.closes

  same_position_symm : (r x : JournalRow F) → same_position r x ≡ false → same_position x r ≡ false
  same_position_symm r x h = ground arith

  ignore-IsDistinct :
      (table : List (JournalRow F)) (r : JournalRow F)
      → IsDistinct same_position table
      → IsDistinct same_position (insert_or_ignore table r)
  unfolding insert_or_ignore
  ignore-IsDistinct table r h = elim (Bool-cases (exists (same_position r) table)) [
    | inl there ↦ rw there h
    | inr new ↦ rw new (
        IsDistinct-snoc same_position table r h
          (All-map table (same_position_symm r) (none_exists (same_position r) table new)))
  ]

  All-others :
      (c : CloseRow F) (table : List (CloseRow F))
      → All (λ d. same_ride d c ≡ false) (select (λ d. not (str_eq d.ride_id c.ride_id)) table)
  unfolding select
  All-others c [] = tt
  All-others c (d ∷ table) = elim (Bool-cases (same_ride d c)) [
    | inl e ↦ rw e (All-others c table)
    | inr e ↦ rw e (e, All-others c table)
  ]

  replace-IsDistinct :
      (table : List (CloseRow F)) (c : CloseRow F)
      → IsDistinct same_ride table
      → IsDistinct same_ride (insert_or_replace table c)
  unfolding insert_or_replace
  replace-IsDistinct table c h =
      IsDistinct-snoc same_ride _ c (IsDistinct-select same_ride _ table h) (All-others c table)

  insert_journal-IsDistinct :
      (rows table : List (JournalRow F))
      → IsDistinct same_position table
      → IsDistinct same_position (insert_journal table rows)
  unfolding insert_journal
  insert_journal-IsDistinct [] table h = h
  insert_journal-IsDistinct (r ∷ rows) table h =
      insert_journal-IsDistinct rows (insert_or_ignore table r) (ignore-IsDistinct table r h)

  insert_closes-IsDistinct :
      (rows table : List (CloseRow F))
      → IsDistinct same_ride table
      → IsDistinct same_ride (insert_closes table rows)
  unfolding insert_closes
  insert_closes-IsDistinct [] table h = h
  insert_closes-IsDistinct (c ∷ rows) table h =
      insert_closes-IsDistinct rows (insert_or_replace table c) (replace-IsDistinct table c h)

  unfoldable pub write : StateStore F → Write F → StateStore F
  write s (batch journal closes) = append_batch s journal closes
  write s (rollback partition resume) = (rollback_from s partition resume).0
  write s (purge partition below) = (purge_confirmed s partition below).0

  unfoldable pub write_all : StateStore F → List (Write F) → StateStore F
  unfolding write
  write_all s [] = s
  write_all s (w ∷ ws) = write_all (write s w) ws

  pub write-IsKeyed : (s : StateStore F) (w : Write F) → IsKeyed s → IsKeyed (write s w)
  unfolding write append_batch rollback_from purge_confirmed
  write-IsKeyed s (batch journal closes) k = record {
    positions = insert_journal-IsDistinct journal s.journal k.positions;
    rides = insert_closes-IsDistinct closes s.closes k.rides;
  }
  write-IsKeyed s (rollback partition resume) k = record {
    positions = IsDistinct-select same_position _ s.journal k.positions;
    rides = IsDistinct-select same_ride _ s.closes k.rides;
  }
  write-IsKeyed s (purge partition below) k = record {
    positions = IsDistinct-select same_position _ s.journal k.positions;
    rides = k.rides;
  }

  write_all-keeps : (ws : List (Write F)) (s : StateStore F) → IsKeyed s → IsKeyed (write_all s ws)
  unfolding write_all
  write_all-keeps [] s k = k
  write_all-keeps (w ∷ ws) s k = write_all-keeps ws (write s w) (write-IsKeyed s w k)

  -- After any sequence of batches, rollbacks and purges from the empty store, no two journal rows
  -- have one (partition, offset) and no two closes one ride.
  pub write_all-IsKeyed : (ws : List (Write F)) → IsKeyed (write_all empty_store ws)
  write_all-IsKeyed ws = write_all-keeps ws empty_store (record { positions = tt; rides = tt })
