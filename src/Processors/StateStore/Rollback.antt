-- ===== src/Processors/StateStore/Rollback.antt =====
-- The two-store gap: to roll back a batch that the Kafka transaction never confirmed erases it.
use stream_pipeline.Prelude.{
  ℕ, ◌≡◌, refl, sym, ◌∙◌, Bool, true, false, not, ◌&&◌, List, [], ◌∷◌, append-nil, select,
  select-select, select-true, select_congr, select-append, select-none, All, All-map, All-append,
  All-select, arith, Bool-cases, inl, inr, str_eq, eq_iff, ◌≢◌,
}
use stream_pipeline.Processors.StateStore.{
  StateStore, JournalRow, CloseRow, journal_from, close_from, exists, same_position,
  insert_or_ignore, insert_or_replace, insert_journal, insert_closes, append_batch, rollback_from,
}

-- The rollbacks of a recovery: one for each partition, with its resume offset.
unfoldable pub rollback_all : {F : Type 0} → StateStore F → List (ℕ × ℕ) → StateStore F
rollback_all s [] = s
rollback_all s ((partition, resume) ∷ rs) = rollback_all (rollback_from s partition resume).0 rs

module _ {F : Type 0} where
  -- The rows that no rollback of the list deletes.
  abbrev pub journal_kept : List (ℕ × ℕ) → JournalRow F → Bool
  journal_kept [] r = true
  journal_kept ((partition, resume) ∷ rs) r =
      not (journal_from partition resume r) && journal_kept rs r

  abbrev pub close_kept : List (ℕ × ℕ) → CloseRow F → Bool
  close_kept [] c = true
  close_kept ((partition, resume) ∷ rs) c = not (close_from partition resume c) && close_kept rs c

  abbrev pub kept : StateStore F → List (ℕ × ℕ) → StateStore F
  kept s rs = record {
    journal = select (journal_kept rs) s.journal;
    closes = select (close_kept rs) s.closes;
  }

  pub rollback_all-kept : (s : StateStore F) (rs : List (ℕ × ℕ)) → rollback_all s rs ≡ kept s rs
  unfolding rollback_all rollback_from
  rollback_all-kept s [] =
      λ i. record { journal = sym (select-true s.journal) i; closes = sym (select-true s.closes) i }
  rollback_all-kept s ((partition, resume) ∷ rs) =
      rollback_all-kept (rollback_from s partition resume).0 rs ∙ λ i. record {
        journal =
            select-select (journal_kept rs) (λ r. not (journal_from partition resume r)) s.journal
              i;
        closes =
            select-select (close_kept rs) (λ c. not (close_from partition resume c)) s.closes i;
      }

  -- A row that the rollbacks delete leaves no trace in the journal.
  ignore-kept :
      (rs : List (ℕ × ℕ)) (table : List (JournalRow F)) (r : JournalRow F)
      → journal_kept rs r ≡ false
      → select (journal_kept rs) (insert_or_ignore table r) ≡ select (journal_kept rs) table
  unfolding insert_or_ignore
  ignore-kept rs table r dead = elim (Bool-cases (exists (same_position r) table)) [
    | inl there ↦ rw there
    | inr new ↦
        rw (new, select-append, select-none (journal_kept rs) (r ∷ []) (dead, tt), append-nil)
  ]

  insert_journal-kept :
      (rs : List (ℕ × ℕ)) (table rows : List (JournalRow F))
      → All (λ r. journal_kept rs r ≡ false) rows
      → select (journal_kept rs) (insert_journal table rows) ≡ select (journal_kept rs) table
  unfolding insert_journal
  insert_journal-kept rs table [] h = refl
  insert_journal-kept rs table (r ∷ rows) h =
      insert_journal-kept rs (insert_or_ignore table r) rows h.1 ∙ ignore-kept rs table r h.0

  -- No close that survives is of the ride that `c` closes.
  abbrev pub IsUntouched : List (ℕ × ℕ) → List (CloseRow F) → CloseRow F → Type 0
  IsUntouched rs table c =
      All (λ (d : CloseRow F). close_kept rs d ≡ true → d.ride_id ≢ c.ride_id) table

  other_ride :
      (rs : List (ℕ × ℕ)) (c d : CloseRow F)
      → (close_kept rs d ≡ true → d.ride_id ≢ c.ride_id)
      → (not (str_eq d.ride_id c.ride_id) && close_kept rs d) ≡ close_kept rs d
  other_ride rs c d free = elim (Bool-cases (close_kept rs d)) [
    | inl alive ↦ ground (arith, free alive, eq_iff d.ride_id c.ride_id)
    | inr dead ↦ ground (arith, dead)
  ]

  replace-kept :
      (rs : List (ℕ × ℕ)) (table : List (CloseRow F)) (c : CloseRow F)
      → close_kept rs c ≡ false
      → IsUntouched rs table c
      → select (close_kept rs) (insert_or_replace table c) ≡ select (close_kept rs) table
  unfolding insert_or_replace
  replace-kept rs table c dead free =
      rw (select-append, select-none (close_kept rs) (c ∷ []) (dead, tt), append-nil, select-select)
        (select_congr _ (close_kept rs) table (All-map table (λ d. other_ride rs c d) free))

  replace-IsUntouched :
      (rs : List (ℕ × ℕ)) (table : List (CloseRow F)) (c e : CloseRow F)
      → close_kept rs c ≡ false
      → IsUntouched rs table e
      → IsUntouched rs (insert_or_replace table c) e
  unfolding insert_or_replace
  replace-IsUntouched rs table c e dead free =
      All-append _ _ (c ∷ []) (All-select _ _ table free) ((λ alive. cc), tt)

  insert_closes-kept :
      (rs : List (ℕ × ℕ)) (table rows : List (CloseRow F))
      → All (λ c. (close_kept rs c ≡ false) × IsUntouched rs table c) rows
      → select (close_kept rs) (insert_closes table rows) ≡ select (close_kept rs) table
  unfolding insert_closes
  insert_closes-kept rs table [] h = refl
  insert_closes-kept rs table (c ∷ rows) h =
      insert_closes-kept rs (insert_or_replace table c) rows
        (All-map rows (λ e p. (p.0, replace-IsUntouched rs table c e h.0.0 p.1)) h.1)
      ∙ replace-kept rs table c h.0.0 h.0.1

  -- Whatever the batch, if its rows and closes are all tagged with positions that the recovery
  -- rolls back, and if no close that the recovery keeps is of a ride that the batch closes, then
  -- after the recovery the store is what it would be had the batch never been appended.
  pub rollback-append_batch :
      (s : StateStore F) (journal : List (JournalRow F)) (closes : List (CloseRow F))
      (rs : List (ℕ × ℕ))
      → All (λ r. journal_kept rs r ≡ false) journal
      → All (λ c. (close_kept rs c ≡ false) × IsUntouched rs s.closes c) closes
      → rollback_all (append_batch s journal closes) rs ≡ rollback_all s rs
  unfolding append_batch
  rollback-append_batch s journal closes rs dead free =
      rollback_all-kept (append_batch s journal closes) rs
      ∙ (λ i. record {
        journal = insert_journal-kept rs s.journal journal dead i;
        closes = insert_closes-kept rs s.closes closes free i;
      })
      ∙ sym (rollback_all-kept s rs)
