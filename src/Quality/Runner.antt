-- ===== src/Quality/Runner.antt =====
-- src/quality/runner.py: a run of the suites, its rows in `serving.dq_results`, and the exit code.
pub mod Gate
pub mod Baseline
use stream_pipeline.Prelude.{
  ℕ, ◌+◌, ◌-◌, String, Bool, true, false, not, ◌&&◌, Option, none, some, List, [], ◌∷◌, ◌++◌, map,
  select, length, last_n, ◌==◌, str_eq, if◌then◌else◌,
}
use stream_pipeline.Common.Floats.{Floats}
use stream_pipeline.Quality.Suites.{
  Expectation, columns_to_match_set, values_to_not_be_null, values_to_be_unique, texts_to_be_in_set,
  numbers_to_be_in_set, values_to_be_between, row_count_to_be_between, max_to_be_at_least,
  raw_rides_events_expectations, fct_rides_expectations,
}

-- An observed value as JSON: an integer, or the text of anything that `int` refuses.
pub data Observed : Type 0 where
  number : ℕ → Observed
  opaque : String → Observed

pub data Mode : Type 0 where
  warn fail : Mode

-- One result of a validation.
pub record GxResult : Type 0 where
  pub kind : String
  pub column : Option String
  pub success : Bool
  pub element_count : Option ℕ
  pub unexpected_count : Option ℕ
  pub observed_value : Option Observed

-- A row of `serving.dq_results`, in the order of `run_at`: a run inserts after the earlier ones.
pub record DqRow : Type 0 where
  pub run_id : String
  pub suite : String
  pub expectation : String
  pub column_name : Option String
  pub success : Bool
  pub element_count : Option ℕ
  pub unexpected_count : Option ℕ
  pub observed : Option Observed
  pub mode : Mode

pub record SuiteOutcome : Type 0 where
  pub suite : String
  pub passed : ℕ
  pub failed : ℕ
  pub rows : List DqRow

pub record QualityRunner : Type 0 where
  pub mode : Mode
  pub freshness_minutes : ℕ
  pub dq_results : List DqRow

-- What a run finds: its identifier, the time, and the tables, over a type of their contents.
pub record Round (W : Type 0) : Type 0 where
  pub run_id : String
  pub now : ℕ
  pub tables : W

unfoldable pub result_row : String → String → Mode → GxResult → DqRow
result_row run_id suite_name mode result = record {
  run_id = run_id;
  suite = suite_name;
  expectation = result.kind;
  column_name = result.column;
  success = result.success;
  element_count = result.element_count;
  unexpected_count = result.unexpected_count;
  observed = result.observed_value;
  mode = mode;
}

unfoldable pub result_rows : String → String → Mode → List GxResult → List DqRow
unfolding result_row
result_rows run_id suite_name mode results = map (result_row run_id suite_name mode) results

-- `observed IS NOT NULL`
abbrev pub is_some : Option Observed → Bool
is_some none = false
is_some (some o) = true

abbrev pub row_count_kind : String
row_count_kind = "expect_table_row_count_to_be_between"

-- the WHERE of the history
abbrev pub is_observation : String → DqRow → Bool
is_observation suite row =
    str_eq row.suite suite && (str_eq row.expectation row_count_kind && is_some row.observed)

-- `int(json.loads(observed))`, skipped where it raises
abbrev pub numbers : List (Option Observed) → List ℕ
numbers [] = []
numbers (some (number n) ∷ os) = n ∷ numbers os
numbers (some (opaque text) ∷ os) = numbers os
numbers (none ∷ os) = numbers os

abbrev pub observations : String → List DqRow → List (Option Observed)
observations suite rows = map (λ row. row.observed) (select (is_observation suite) rows)

-- the last ten, oldest first
unfoldable pub rowcount_history : QualityRunner → String → List ℕ
rowcount_history s suite = numbers (last_n 10 (observations suite s.dq_results))

unfoldable pub outcome_of : String → List DqRow → SuiteOutcome
outcome_of suite_name rows =
    let passed = length (select (λ row. row.success) rows) in
    record { suite = suite_name; passed = passed; failed = length rows - passed; rows = rows }

-- `_persist`
unfoldable pub persist : SuiteOutcome → QualityRunner → QualityRunner
persist outcome s = record s { dq_results = s.dq_results ++ outcome.rows }

abbrev pub failures : List SuiteOutcome → ℕ
failures [] = 0
failures (o ∷ os) = o.failed + failures os

abbrev pub exit_by : Mode → ℕ → ℕ
exit_by warn failed = 0
exit_by fail failed = if failed == 0 then 0 else 2

-- Great Expectations: what a suite's expectation gives on the tables. A validation has one result
-- for each expectation of its suite.
module _ (fl : Floats) {W : Type 0} (check : String → Expectation fl.Float → W → GxResult) where
  open fl use {Float, of_int, div}

  unfoldable pub pass_rate : SuiteOutcome → Float
  pass_rate outcome =
      let total = outcome.passed + outcome.failed in
      if total == 0 then of_int 1 else div (of_int outcome.passed) (of_int total)

  -- the body of the loop over the suites
  unfoldable pub run_suite :
      Round W → String → List (Expectation Float) → QualityRunner → SuiteOutcome × QualityRunner
  unfolding result_rows outcome_of persist
  run_suite round suite_name expectations s =
      let results = map (λ e. check suite_name e round.tables) expectations in
      let outcome = outcome_of suite_name (result_rows round.run_id suite_name s.mode results) in
      (outcome, persist outcome s)

  unfoldable pub run_once : Round W → QualityRunner → List SuiteOutcome × QualityRunner
  unfolding run_suite raw_rides_events_expectations fct_rides_expectations rowcount_history
  run_once round s =
      let fct =
        fct_rides_expectations fl (rowcount_history s "fct_rides") s.freshness_minutes round.now in
      let (raw_outcome, s') =
        run_suite round "raw_rides_events" (raw_rides_events_expectations fl) s in
      let (fct_outcome, s'') = run_suite round "fct_rides" fct s' in
      (raw_outcome ∷ fct_outcome ∷ [], s'')

  -- `main` without an interval: the exit code
  unfoldable pub main : Round W → QualityRunner → ℕ × QualityRunner
  unfolding run_once
  main round s = let (outcomes, s') = run_once round s in (exit_by s.mode (failures outcomes), s')

  -- `main` with an interval: the state after some of its rounds
  unfoldable pub run_rounds : List (Round W) → QualityRunner → QualityRunner
  unfolding run_once
  run_rounds [] s = s
  run_rounds (round ∷ rounds) s = run_rounds rounds (run_once round s).1
