-- ===== src/Quality/Runner/Baseline.antt =====
-- The rolling baseline of the row count, over runs.
use stream_pipeline.Prelude.{
  ℕ, suc, ◌-◌, ◌≤◌, ◌⊎◌, inl, inr, drop, map-drop, All-drop, last_n-append_long, All-of-map,
  All-map, ◌≡◌, refl, sym, ap, ap₂, subst, ◌∙◌, ◌↔◌, String, true, false, Option, some, List, [],
  ◌∷◌, ◌++◌, map, map-append, append_assoc, append-nil, select, select-append, length, last_n, All,
  str_eq, arith,
}
use stream_pipeline.Common.Floats.{Floats}
use stream_pipeline.Quality.Suites.{
  Expectation, columns_to_match_set, values_to_not_be_null, values_to_be_unique, texts_to_be_in_set,
  numbers_to_be_in_set, values_to_be_between, row_count_to_be_between, max_to_be_at_least,
  rowcount_bounds, raw_rides_events_expectations, fct_rides_expectations,
}
use stream_pipeline.Quality.Suites.Bounds.{Within, rowcount_bounds-Within}
use stream_pipeline.Quality.Runner.{
  Observed, number, GxResult, DqRow, QualityRunner, Round, result_row, result_rows, row_count_kind,
  is_observation, numbers, observations, rowcount_history, run_once, run_rounds,
}

-- `config["type"]` of the expectations.
abbrev pub kind_of : {F : Type 0} → Expectation F → String
kind_of (columns_to_match_set cs exact) = "expect_table_columns_to_match_set"
kind_of (values_to_not_be_null c) = "expect_column_values_to_not_be_null"
kind_of (values_to_be_unique c) = "expect_column_values_to_be_unique"
kind_of (texts_to_be_in_set c vs) = "expect_column_values_to_be_in_set"
kind_of (numbers_to_be_in_set c vs) = "expect_column_values_to_be_in_set"
kind_of (values_to_be_between c lo hi) = "expect_column_values_to_be_between"
kind_of (row_count_to_be_between lo hi) = row_count_kind
kind_of (max_to_be_at_least c lo) = "expect_column_max_to_be_between"

-- What the gates rely on of Great Expectations: a result carries the type of its expectation, and
-- a row count is observed as a number and succeeds exactly within its bounds.
pub record Checks {F W : Type 0} (check : String → Expectation F → W → GxResult) (count : W → ℕ)
    : Type 0 where
  pub kinds : (suite : String) (e : Expectation F) (w : W) → (check suite e w).kind ≡ kind_of e
  pub observes :
      (suite : String) (floor : ℕ) (ceiling : Option ℕ) (w : W)
      → (check suite (row_count_to_be_between floor ceiling) w).observed_value
        ≡ some (number (count w))
  pub succeeds :
      (suite : String) (floor : ℕ) (ceiling : Option ℕ) (w : W)
      → ((check suite (row_count_to_be_between floor ceiling) w).success ≡ true)
        ↔ Within (count w) (floor, ceiling)

length-map : {A B : Type 0} (f : A → B) (xs : List A) → length (map f xs) ≡ length xs
length-map f [] = refl
length-map f (x ∷ xs) = ap suc (length-map f xs)

observations-append :
    (suite : String) (xs ys : List DqRow)
    → observations suite (xs ++ ys) ≡ observations suite xs ++ observations suite ys
observations-append suite xs ys =
    ap (map (λ (row : DqRow). row.observed)) (select-append (is_observation suite) xs ys)
    ∙ map-append _ (select (is_observation suite) xs) (select (is_observation suite) ys)

module _ (fl : Floats) {W : Type 0} (check : String → Expectation fl.Float → W → GxResult)
    (count : W → ℕ) (checks : Checks check count) where
  open fl use {Float}

  -- the observations that a list of expectations leaves
  abbrev counted : W → List (Expectation Float) → List (Option Observed)
  counted w [] = []
  counted w (row_count_to_be_between floor ceiling ∷ es) = some (number (count w)) ∷ counted w es
  counted w (columns_to_match_set cs exact ∷ es) = counted w es
  counted w (values_to_not_be_null c ∷ es) = counted w es
  counted w (values_to_be_unique c ∷ es) = counted w es
  counted w (texts_to_be_in_set c vs ∷ es) = counted w es
  counted w (numbers_to_be_in_set c vs ∷ es) = counted w es
  counted w (values_to_be_between c lo hi ∷ es) = counted w es
  counted w (max_to_be_at_least c lo ∷ es) = counted w es

  abbrev rows_of : Round W → String → QualityRunner → List (Expectation Float) → List DqRow
  rows_of round suite s es =
      result_rows round.run_id suite s.mode (map (λ e. check suite e round.tables) es)

  -- An expectation of another kind leaves none.
  observations-other :
      (round : Round W) (s : QualityRunner) (e : Expectation Float) (rows : List DqRow)
      → str_eq (kind_of e) row_count_kind ≡ false
      → observations "fct_rides"
          (result_row round.run_id "fct_rides" s.mode (check "fct_rides" e round.tables) ∷ rows)
        ≡ observations "fct_rides" rows
  unfolding select result_row
  observations-other round s e rows h = rw (select, checks.kinds "fct_rides" e round.tables, h) refl

  observations-rows_of :
      (round : Round W) (s : QualityRunner) (es : List (Expectation Float))
      → observations "fct_rides" (rows_of round "fct_rides" s es) ≡ counted round.tables es
  unfolding select result_rows result_row
  observations-rows_of round s [] = refl
  observations-rows_of round s (row_count_to_be_between floor ceiling ∷ es) =
      rw
        (
          select,
          checks.kinds "fct_rides" (row_count_to_be_between floor ceiling) round.tables,
          checks.observes "fct_rides" floor ceiling round.tables,
        )
        (ap (◌∷◌ (some (number (count round.tables)))) (observations-rows_of round s es))
  observations-rows_of round s (e ∷ es) =
      observations-other round s e (rows_of round "fct_rides" s es) refl
      ∙ observations-rows_of round s es

  -- The rows of another suite are none of its observations.
  observations-raw :
      (round : Round W) (s : QualityRunner) (es : List (Expectation Float))
      → observations "fct_rides" (rows_of round "raw_rides_events" s es) ≡ []
  unfolding select result_rows result_row
  observations-raw round s [] = refl
  observations-raw round s (e ∷ es) = observations-raw round s es

  -- A run adds its row count to the observations, and nothing else.
  observations-run_once :
      (round : Round W) (s : QualityRunner)
      → observations "fct_rides" (run_once fl check round s).1.dq_results
        ≡ observations "fct_rides" s.dq_results ++ some (number (count round.tables)) ∷ []
  unfolding run_once
  observations-run_once round s =
      let es = raw_rides_events_expectations fl in
      let fs =
        fct_rides_expectations fl (rowcount_history s "fct_rides") s.freshness_minutes round.now in
      let raw = rows_of round "raw_rides_events" s es in
      let fct = rows_of round "fct_rides" s fs in
      observations-append "fct_rides" (s.dq_results ++ raw) fct
      ∙ ap₂ ◌++◌
          (observations-append "fct_rides" s.dq_results raw
            ∙ (ap (◌++◌ (observations "fct_rides" s.dq_results)) (observations-raw round s es)
                ∙ append-nil _))
          (observations-rows_of round s fs)

  -- so that the history after some runs is of the last ten of all.
  observations-run_rounds :
      (rounds : List (Round W)) (s : QualityRunner)
      → observations "fct_rides" (run_rounds fl check rounds s).dq_results
        ≡ observations "fct_rides" s.dq_results
          ++ map (λ (round : Round W). some (number (count round.tables))) rounds
  unfolding run_rounds
  observations-run_rounds [] s = sym (append-nil _)
  observations-run_rounds (round ∷ rounds) s =
      observations-run_rounds rounds (run_once fl check round s).1
      ∙ (ap (λ os. os ++ map (λ (r : Round W). some (number (count r.tables))) rounds)
            (observations-run_once round s)
          ∙ append_assoc (observations "fct_rides" s.dq_results)
              (some (number (count round.tables)) ∷ [])
              (map (λ (r : Round W). some (number (count r.tables))) rounds))

  numbers-map :
      (rounds : List (Round W))
      → numbers (map (λ (round : Round W). some (number (count round.tables))) rounds)
        ≡ map (λ (round : Round W). count round.tables) rounds
  numbers-map [] = refl
  numbers-map (round ∷ rounds) = ap (◌∷◌ (count round.tables)) (numbers-map rounds)

  -- the last ten observations, where they are all of these runs
  last_counts :
      (before : List (Option Observed)) (rounds : List (Round W))
      → (10 ≤ length rounds) ⊎ (before ≡ [])
      → numbers (
          last_n 10
            (before ++ map (λ (round : Round W). some (number (count round.tables))) rounds))
        ≡ map (λ (round : Round W). count round.tables) (last_n 10 rounds)
  unfolding last_n
  last_counts before rounds enough =
      let seen : Round W → Option Observed = λ round. some (number (count round.tables)) in
      let same : length (map seen rounds) ≡ length rounds = length-map seen rounds in
      let last : last_n 10 (before ++ map seen rounds) ≡ last_n 10 (map seen rounds) = elim enough [
        | inl ten ↦ last_n-append_long 10 before (map seen rounds) (omega (arith, ten, same))
        | inr none_yet ↦ ap (λ os. last_n 10 (os ++ map seen rounds)) none_yet
      ] in
      let moved : last_n 10 (map seen rounds) ≡ map seen (last_n 10 rounds) =
        ap (λ k. drop (k - 10) (map seen rounds)) same
        ∙ sym (map-drop seen (length rounds - 10) rounds) in
      ap numbers (last ∙ moved) ∙ numbers-map (last_n 10 rounds)

  -- Counts that are all the same lie within their own bounds.
  same-Within :
      (n : ℕ) (rounds : List (Round W))
      → All (λ (round : Round W). count round.tables ≡ n) rounds
      → Within n (rowcount_bounds (map (λ (round : Round W). count round.tables) rounds))
  same-Within n [] same = (rowcount_bounds-Within [] n).1 (tt, inl refl)
  same-Within n (round ∷ rounds) same =
      (rowcount_bounds-Within (map (λ (r : Round W). count r.tables) (round ∷ rounds)) n).1 (
        All-of-map _ _ (round ∷ rounds) (All-map (round ∷ rounds) (λ r e. omega (arith, e)) same),
        inr (inl (omega (arith, same.0))),
      )

  -- Ten runs replace the baseline. After any runs that are at least ten, or that start without an
  -- observation, the history of the next run is exactly the counts of the last ten of them, whether
  -- or not they passed. So a table that has had the same number of rows in all these runs is within
  -- the bounds at that count, whatever was observed before.
  pub rowcount_history-run_rounds :
      (rounds : List (Round W)) (s : QualityRunner) (n : ℕ)
      → (10 ≤ length rounds) ⊎ (observations "fct_rides" s.dq_results ≡ [])
      → let history = rowcount_history (run_rounds fl check rounds s) "fct_rides" in
        (history ≡ map (λ (round : Round W). count round.tables) (last_n 10 rounds))
        × (All (λ (round : Round W). count round.tables ≡ n) rounds
            → Within n (rowcount_bounds history))
  unfolding rowcount_history last_n
  rowcount_history-run_rounds rounds s n enough =
      let history : rowcount_history (run_rounds fl check rounds s) "fct_rides"
          ≡ map (λ (round : Round W). count round.tables) (last_n 10 rounds) =
        ap (λ os. numbers (last_n 10 os)) (observations-run_rounds rounds s)
        ∙ last_counts (observations "fct_rides" s.dq_results) rounds enough in
      (
        history,
        λ same.
            subst (λ h. Within n (rowcount_bounds h)) (sym history)
              (same-Within n (last_n 10 rounds) (All-drop _ (length rounds - 10) rounds same)),
      )
