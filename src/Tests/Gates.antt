-- ===== src/Tests/Gates.antt =====
-- The quality gates, on tables of which the number of rows is known.
use stream_pipeline.Prelude.{
  ℕ, ◌+◌, ◌*◌, ◌≤◌, ◌≡◌, ◌↔◌, ◌⊎◌, inl, refl, String, Bool, true, ◌&&◌, Option, none, some, List,
  [], ◌∷◌, ◌++◌, map, In, All, max_of, last_n, replicate, leb, arith,
}
use stream_pipeline.Quality.Suites.{
  Expectation, columns_to_match_set, values_to_not_be_null, values_to_be_unique, texts_to_be_in_set,
  numbers_to_be_in_set, values_to_be_between, row_count_to_be_between, max_to_be_at_least,
  int_median, rowcount_bounds,
}
use stream_pipeline.Quality.Suites.Bounds.{Within, rowcount_bounds-Within}
use stream_pipeline.Quality.Runner.{
  Observed, number, warn, fail, GxResult, DqRow, QualityRunner, Round, result_row, rowcount_history,
  run_rounds, main,
}
use stream_pipeline.Quality.Runner.Baseline.{kind_of, Checks, rowcount_history-run_rounds}
use stream_pipeline.Quality.Runner.Gate.{main-All}
use stream_pipeline.Tests.Samples.{nat_floats}

int_median_odd : int_median (9 ∷ 1 ∷ 4 ∷ []) ≡ 4
unfolding int_median
int_median_odd = refl

int_median_even : int_median (9 ∷ 1 ∷ 4 ∷ 6 ∷ []) ≡ 5
unfolding int_median
int_median_even = refl

rowcount_bounds_run : rowcount_bounds (100 ∷ 700 ∷ 800 ∷ []) ≡ (800, some 3800)
unfolding rowcount_bounds
rowcount_bounds_run = refl

rowcount_bounds-Within_example :
    let history : List ℕ = 100 ∷ 700 ∷ [] in
    Within 900 (rowcount_bounds history) ↔ (
      All (λ old. old ≤ 900) history
      × ((history ≡ [])
          ⊎ ((900 ≤ max_of history + 1000) ⊎ (900 ≤ int_median (last_n 10 history) * 4 + 1000))))
rowcount_bounds-Within_example = rowcount_bounds-Within (100 ∷ 700 ∷ []) 900

abbrev in_bounds : ℕ → ℕ → Option ℕ → Bool
in_bounds n floor none = leb floor n
in_bounds n floor (some ceiling) = leb floor n && leb n ceiling

abbrev success_of : Expectation ℕ → ℕ → Bool
success_of (row_count_to_be_between floor ceiling) n = in_bounds n floor ceiling
success_of (columns_to_match_set cs exact) n = true
success_of (values_to_not_be_null c) n = true
success_of (values_to_be_unique c) n = true
success_of (texts_to_be_in_set c vs) n = true
success_of (numbers_to_be_in_set c vs) n = true
success_of (values_to_be_between c lo hi) n = true
success_of (max_to_be_at_least c lo) n = true

abbrev observed_of : Expectation ℕ → ℕ → Option Observed
observed_of (row_count_to_be_between floor ceiling) n = some (number n)
observed_of other n = none

abbrev check : String → Expectation ℕ → ℕ → GxResult
check suite e n = record {
  kind = kind_of e;
  column = none;
  success = success_of e n;
  element_count = none;
  unexpected_count = none;
  observed_value = observed_of e n;
}

in_bounds-Within :
    (n floor : ℕ) (ceiling : Option ℕ)
    → (in_bounds n floor ceiling ≡ true) ↔ Within n (floor, ceiling)
in_bounds-Within n floor none = (λ h. ground (arith, h), λ h. ground (arith, h))
in_bounds-Within n floor (some ceiling) = (λ h. ground (arith, h), λ h. ground (arith, h))

check-Checks : Checks check (λ n. n)
check-Checks = record {
  kinds = λ suite e n. refl;
  observes = λ suite floor ceiling n. refl;
  succeeds = λ suite floor ceiling n. in_bounds-Within n floor ceiling;
}

abbrev round_at : ℕ → Round ℕ
round_at n = record { run_id = "run"; now = 1000000; tables = n }

abbrev gate : QualityRunner
gate = record { mode = fail; freshness_minutes = 5; dq_results = [] }

rowcount_history-run_rounds_example :
    let rounds = replicate 12 (round_at 7) in
    let history = rowcount_history (run_rounds nat_floats check rounds gate) "fct_rides" in
    (history ≡ map (λ (round : Round ℕ). round.tables) (last_n 10 rounds))
    × (All (λ (round : Round ℕ). round.tables ≡ 7) rounds → Within 7 (rowcount_bounds history))
rowcount_history-run_rounds_example =
    rowcount_history-run_rounds nat_floats check (λ n. n) check-Checks (replicate 12 (round_at 7))
      gate 7 (inl (omega arith))

main-All_example :
    let (code, s') = main nat_floats check (round_at 7) gate in
    let bounds = rowcount_bounds (rowcount_history gate "fct_rides") in
    let row_count =
      result_row "run" "fct_rides" fail
        (check "fct_rides" (row_count_to_be_between bounds.0 bounds.1) 7) in
    (rows : List DqRow) × (s'.dq_results ≡ gate.dq_results ++ rows)
    × In row_count rows
    × ((code ≡ 0) ⊎ (code ≡ 2))
    × (gate.mode ≡ warn → code ≡ 0)
    × (gate.mode ≡ fail → (code ≡ 0) ↔ All (λ row. row.success ≡ true) rows)
main-All_example = main-All nat_floats check (round_at 7) gate
