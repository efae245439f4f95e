-- ===== src/Processors/StateStore.antt =====
-- src/processors/state_store.py: the SQLite store of the sessionizer. A table is the list of its
-- rows in the order of insertion; each method is one SQLite transaction, so one function.
pub mod Keys
pub mod Rollback
pub mod Purge
use stream_pipeline.Prelude.Dict
use stream_pipeline.Prelude.Dict.{Dict}
use stream_pipeline.Prelude.Sort.{sorted}
use stream_pipeline.Prelude.{
  ℕ, ◌-◌, String, Bool, true, false, not, ◌&&◌, ◌||◌, Option, none, some, List, [], ◌∷◌, ◌++◌, map,
  length, max_of, select, is_empty, get_or, ltb, leb, ◌==◌, if◌then◌else◌, str_eq, text_key,
}
use stream_pipeline.Common.Events.{RideEvent}
use stream_pipeline.Processors.SessionBuilder.{Session}

pub record JournalRow (F : Type 0) : Type 0 where
  pub partition : ℕ
  pub offset : ℕ
  pub ride_id : String
  pub value : RideEvent F ℕ

pub record CloseRow (F : Type 0) : Type 0 where
  pub ride_id : String
  pub partition : ℕ
  pub offset : ℕ
  pub session : Session F

-- `event_json` and `session_json` hold the values that `json.loads` reads back.
pub record StateStore (F : Type 0) : Type 0 where
  pub journal : List (JournalRow F)
  pub closes : List (CloseRow F)

abbrev pub empty_store : {F : Type 0} → StateStore F
empty_store = record { journal = []; closes = [] }

-- the primary key of `journal`
abbrev pub same_position : {F : Type 0} → JournalRow F → JournalRow F → Bool
same_position r s = r.partition == s.partition && r.offset == s.offset

-- `EXISTS (SELECT 1 FROM xs WHERE p)`
unfoldable pub exists {ℓ} : {A : Type ℓ} → (A → Bool) → List A → Bool
exists p [] = false
exists p (x ∷ xs) = p x || exists p xs

module _ {F : Type 0} where
  unfoldable pub insert_or_ignore : List (JournalRow F) → JournalRow F → List (JournalRow F)
  insert_or_ignore table r = if exists (same_position r) table then table else table ++ r ∷ []

  unfoldable pub insert_or_replace : List (CloseRow F) → CloseRow F → List (CloseRow F)
  insert_or_replace table c = select (λ d. not (str_eq d.ride_id c.ride_id)) table ++ c ∷ []

  -- `executemany`
  unfoldable pub insert_journal : List (JournalRow F) → List (JournalRow F) → List (JournalRow F)
  insert_journal table [] = table
  insert_journal table (r ∷ rs) = insert_journal (insert_or_ignore table r) rs

  unfoldable pub insert_closes : List (CloseRow F) → List (CloseRow F) → List (CloseRow F)
  insert_closes table [] = table
  insert_closes table (c ∷ cs) = insert_closes (insert_or_replace table c) cs

  unfoldable pub append_batch :
      StateStore F → List (JournalRow F) → List (CloseRow F) → StateStore F
  append_batch s journal closes = record {
    journal = insert_journal s.journal journal;
    closes = insert_closes s.closes closes;
  }

  -- the rows that `partition = ? AND kafka_offset >= ?` deletes
  abbrev pub journal_from : ℕ → ℕ → JournalRow F → Bool
  journal_from partition resume r = r.partition == partition && leb resume r.offset

  abbrev pub close_from : ℕ → ℕ → CloseRow F → Bool
  close_from partition resume c = c.partition == partition && leb resume c.offset

  unfoldable pub rollback_from : StateStore F → ℕ → ℕ → StateStore F × (ℕ × ℕ)
  rollback_from s partition resume =
      let journal = select (λ r. not (journal_from partition resume r)) s.journal in
      let closes = select (λ c. not (close_from partition resume c)) s.closes in
      (
        record { journal = journal; closes = closes },
        (length s.journal - length journal, length s.closes - length closes),
      )

  -- `ride_id IN (SELECT ride_id FROM closes WHERE partition = ? AND kafka_offset < ?)`
  abbrev pub is_confirmed : StateStore F → ℕ → ℕ → String → Bool
  is_confirmed s partition below ride_id =
      exists
        (λ (c : CloseRow F).
          str_eq c.ride_id ride_id && (c.partition == partition && ltb c.offset below))
        s.closes

  unfoldable pub purge_confirmed : StateStore F → ℕ → ℕ → StateStore F × ℕ
  purge_confirmed s partition below =
      let journal = select (λ r. not (is_confirmed s partition below r.ride_id)) s.journal in
      (record s { journal = journal }, length s.journal - length journal)

  unfoldable pub is_closed : StateStore F → String → Bool
  is_closed s ride_id = exists (λ (c : CloseRow F). str_eq c.ride_id ride_id) s.closes

  -- `grouped.setdefault(ride_id, []).append(value)`
  unfoldable pub group :
      Dict String (List (RideEvent F ℕ)) → List (JournalRow F) → Dict String (List (RideEvent F ℕ))
  group grouped [] = grouped
  group grouped (r ∷ rs) =
      group (Dict.put r.ride_id (get_or (Dict.get r.ride_id grouped) [] ++ r.value ∷ []) grouped) rs

  unfoldable pub open_rows : StateStore F → ℕ → List (JournalRow F)
  open_rows s partition =
      sorted (λ r. r.offset)
        (select (λ r. r.partition == partition && not (is_closed s r.ride_id)) s.journal)

  unfoldable pub open_rides : StateStore F → ℕ → Dict String (List (RideEvent F ℕ))
  unfolding group open_rows
  open_rides s partition = group [] (open_rows s partition)

  unfoldable pub max_journal_ts : StateStore F → ℕ → Option ℕ
  max_journal_ts s partition =
      let stamps = map (λ r. r.value.event_ts) (select (λ r. r.partition == partition) s.journal) in
      if is_empty stamps then none else some (max_of stamps)

  unfoldable pub counts : StateStore F → ℕ × ℕ
  counts s = (length s.journal, length s.closes)
