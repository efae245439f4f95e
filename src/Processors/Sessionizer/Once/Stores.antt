-- ===== src/Processors/Sessionizer/Once/Stores.antt =====
-- Which closes survive what happens to the store.
use stream_pipeline.Prelude.Dict
use stream_pipeline.Prelude.Dict.{Dict}
use stream_pipeline.Prelude.{
  ℕ, ◌≡◌, ◌≢◌, ◌<◌, refl, sym, ap, ◌∙◌, ◌⊎◌, inl, inr, String, true, false, not, List, [], ◌∷◌,
  ◌++◌, All-append, In, In-select, In-append_left, In-append_right, In-append_or, subst, select-In,
  All, get_or, arith, str_eq, eq_iff, Bool-cases, nat_key, ◌==◌,
}
use stream_pipeline.Processors.StateStore.{
  StateStore, CloseRow, exists, is_closed, insert_or_replace, insert_closes, rollback_from,
  close_from, purge_confirmed,
}
use stream_pipeline.Processors.Sessionizer.Process.{roll_back}

module _ {F : Type 0} where
  -- The Kafka transaction of the close is committed.
  abbrev pub IsConfirmed : Dict ℕ ℕ → CloseRow F → Type 0
  IsConfirmed committed c = c.offset < get_or (Dict.get c.partition committed) 0

  -- Every confirmed close of one store is in the other.
  abbrev pub Outlives : Dict ℕ ℕ → StateStore F → StateStore F → Type 0
  Outlives committed s s' =
      (c : CloseRow F) → IsConfirmed committed c → In c s.closes → In c s'.closes

  not_from :
      (committed : Dict ℕ ℕ) (partition : ℕ) (c : CloseRow F)
      → IsConfirmed committed c
      → not (close_from partition (get_or (Dict.get partition committed) 0) c) ≡ true
  not_from committed partition c h = elim (Bool-cases (c.partition == partition)) [
    | inl e ↦
        let same : c.partition ≡ partition = ground (arith, e) in
        let below : c.offset < get_or (Dict.get partition committed) 0 = rw (sym same) h in
        ground (arith, e, below)
    | inr n ↦ rw n refl
  ]

  pub rollback-Outlives :
      (committed : Dict ℕ ℕ) (s : StateStore F) (partition : ℕ)
      → Outlives committed s (rollback_from s partition (get_or (Dict.get partition committed) 0)).0
  unfolding rollback_from
  rollback-Outlives committed s partition c h i =
      In-select _ c s.closes i (not_from committed partition c h)

  pub purge-Outlives :
      (committed : Dict ℕ ℕ) (s : StateStore F) (partition below : ℕ)
      → Outlives committed s (purge_confirmed s partition below).0
  unfolding purge_confirmed
  purge-Outlives committed s partition below c h i = i

  pub roll_back-Outlives :
      (committed : Dict ℕ ℕ) (s : StateStore F) (offsets : List (ℕ × ℕ))
      → Outlives committed s (roll_back s committed offsets)
  unfolding roll_back
  roll_back-Outlives committed s [] c h i = i
  roll_back-Outlives committed s ((partition, n) ∷ offsets) c h i =
      roll_back-Outlives committed
        (rollback_from s partition (get_or (Dict.get partition committed) 0)).0 offsets c h
        (rollback-Outlives committed s partition c h i)

  replace-In :
      (table : List (CloseRow F)) (new c : CloseRow F)
      → c.ride_id ≢ new.ride_id
      → In c table
      → In c (insert_or_replace table new)
  unfolding insert_or_replace
  replace-In table new c n i =
      In-append_left c _ (new ∷ [])
        (In-select _ c table i (ground (arith, n, eq_iff c.ride_id new.ride_id)))

  pub insert_closes-In :
      (table rows : List (CloseRow F)) (c : CloseRow F)
      → All (λ (d : CloseRow F). c.ride_id ≢ d.ride_id) rows
      → In c table
      → In c (insert_closes table rows)
  unfolding insert_closes
  insert_closes-In table [] c h i = i
  insert_closes-In table (d ∷ rows) c h i =
      insert_closes-In (insert_or_replace table d) rows c h.1 (replace-In table d c h.0 i)

  replace-new : (table : List (CloseRow F)) (c : CloseRow F) → In c (insert_or_replace table c)
  unfolding insert_or_replace
  replace-new table c = In-append_right c _ (c ∷ []) (inl refl)

  -- Closes of distinct rides are all in the table after they are inserted.
  unfoldable pub IsApart : List (CloseRow F) → Type 0
  IsApart [] = Unit
  IsApart (c ∷ cs) = All (λ (d : CloseRow F). c.ride_id ≢ d.ride_id) cs × IsApart cs

  pub IsApart-append :
      (cs ds : List (CloseRow F))
      → IsApart cs
      → IsApart ds
      → All (λ (c : CloseRow F). All (λ (d : CloseRow F). c.ride_id ≢ d.ride_id) ds) cs
      → IsApart (cs ++ ds)
  unfolding IsApart
  IsApart-append [] ds h k n = k
  IsApart-append (c ∷ cs) ds h k n = (All-append _ cs ds h.0 n.0, IsApart-append cs ds h.1 k n.1)

  -- A ride of a stored close is closed.
  pub not_closed :
      (s : StateStore F) (ride_id : String) (c : CloseRow F)
      → is_closed s ride_id ≡ false
      → In c s.closes
      → c.ride_id ≢ ride_id
  unfolding is_closed exists
  not_closed s ride_id c h i = among s.closes h i
    where
      among :
          (cs : List (CloseRow F))
          → exists (λ (d : CloseRow F). str_eq d.ride_id ride_id) cs ≡ false
          → In c cs
          → c.ride_id ≢ ride_id
      among (d ∷ cs) none_closed (inl e) p =
          ground
            (arith, none_closed, eq_iff d.ride_id ride_id, ap (λ (x : CloseRow F). x.ride_id) e ∙ p)
      among (d ∷ cs) none_closed (inr j) p = among cs (ground (arith, none_closed)) j p
      among [] none_closed j p = j

  pub insert_closes-new :
      (table rows : List (CloseRow F)) (c : CloseRow F)
      → IsApart rows
      → In c rows
      → In c (insert_closes table rows)
  unfolding insert_closes IsApart
  insert_closes-new table (d ∷ rows) c h (inl e) =
      subst (λ (x : CloseRow F). In x (insert_closes (insert_or_replace table d) rows)) e
        (insert_closes-In (insert_or_replace table d) rows d h.0 (replace-new table d))
  insert_closes-new table (d ∷ rows) c h (inr i) =
      insert_closes-new (insert_or_replace table d) rows c h.1 i
  insert_closes-new table [] c h i = elim i [ ]

  -- Nothing else is in the table.
  pub insert_closes-old :
      (table rows : List (CloseRow F)) (c : CloseRow F)
      → In c (insert_closes table rows)
      → In c table ⊎ In c rows
  unfolding insert_closes insert_or_replace
  insert_closes-old table [] c i = inl i
  insert_closes-old table (d ∷ rows) c i =
      elim (insert_closes-old (insert_or_replace table d) rows c i) [
        | inr j ↦ inr (inr j)
        | inl j ↦ elim (In-append_or c _ (d ∷ []) j) [
          | inl k ↦ inl (select-In _ c table k).0
          | inr (inl e) ↦ inr (inl e)
          | inr (inr x) ↦ elim x [ ]
        ]
      ]

  pub roll_back-old :
      (committed : Dict ℕ ℕ) (s : StateStore F) (offsets : List (ℕ × ℕ)) (c : CloseRow F)
      → In c (roll_back s committed offsets).closes
      → In c s.closes
  unfolding roll_back rollback_from
  roll_back-old committed s [] c i = i
  roll_back-old committed s ((partition, n) ∷ offsets) c i =
      (select-In _ c s.closes (
        roll_back-old committed
          (rollback_from s partition (get_or (Dict.get partition committed) 0)).0 offsets c i)).0

  -- After the rollback of a partition its closes are all confirmed, and no close is new.
  pub rollback-old :
      (s : StateStore F) (partition resume : ℕ) (c : CloseRow F)
      → In c (rollback_from s partition resume).0.closes
      → In c s.closes × (c.partition ≡ partition → c.offset < resume)
  unfolding rollback_from
  rollback-old s partition resume c i =
      let (j, h) = select-In _ c s.closes i in (j, λ p. ground (arith, h, p))

  pub is_closed_none :
      (s : StateStore F) (ride_id : String)
      → ((c : CloseRow F) → In c s.closes → c.ride_id ≢ ride_id)
      → is_closed s ride_id ≡ false
  unfolding is_closed exists
  is_closed_none s ride_id h = among s.closes h
    where
      among :
          (cs : List (CloseRow F))
          → ((c : CloseRow F) → In c cs → c.ride_id ≢ ride_id)
          → exists (λ (d : CloseRow F). str_eq d.ride_id ride_id) cs ≡ false
      among [] f = refl
      among (d ∷ cs) f =
          ground (arith, among cs (λ c i. f c (inr i)), f d (inl refl), eq_iff d.ride_id ride_id)
