-- ===== src/Quality/Runner/Gate.antt =====
-- What the exit code of a run says.
use stream_pipeline.Prelude.{
  ◌-◌, ◌≡◌, refl, ◌↔◌, ◌⊎◌, inl, inr, String, true, List, [], ◌∷◌, ◌++◌, map, append_assoc, select,
  length, length-select-le, All, All-append, In, In-append_right, Bool-cases, arith,
}
use stream_pipeline.Common.Floats.{Floats}
use stream_pipeline.Quality.Suites.{
  Expectation, row_count_to_be_between, rowcount_bounds, raw_rides_events_expectations,
  fct_rides_expectations,
}
use stream_pipeline.Quality.Runner.{
  GxResult, DqRow, QualityRunner, Mode, warn, fail, Round, result_row, result_rows,
  rowcount_history, outcome_of, failures, exit_by, main,
}

-- A suite has no failure exactly if all its rows succeeded.
failed-All :
    (rows : List DqRow)
    → (length rows - length (select (λ row. row.success) rows) ≡ 0)
      ↔ All (λ row. row.success ≡ true) rows
unfolding select
failed-All [] = (λ h. tt, λ h. omega arith)
failed-All (row ∷ rows) =
    let (to, from) = failed-All rows in
    let le = length-select-le (λ (r : DqRow). r.success) rows in
    elim (Bool-cases row.success) [
      | inl e ↦ rw (select, e) (λ h. (refl, to (omega (arith, h))), λ h. omega (arith, from h.1))
      | inr e ↦ rw (select, e) (λ h. absurd (omega (arith, h, le)), λ h. cc (h.0))
    ]

All-split : (P : DqRow → Type 0) (xs ys : List DqRow) → All P (xs ++ ys) → All P xs × All P ys
All-split P [] ys h = (tt, h)
All-split P (x ∷ xs) ys h = let (a, b) = All-split P xs ys h.1 in ((h.0, a), b)

exit_by-All :
    (mode : Mode) (xs ys : List DqRow)
    → let code =
        exit_by mode
          (failures (outcome_of "raw_rides_events" xs ∷ outcome_of "fct_rides" ys ∷ [])) in
      ((code ≡ 0) ⊎ (code ≡ 2))
      × (mode ≡ warn → code ≡ 0)
      × (mode ≡ fail → (code ≡ 0) ↔ All (λ row. row.success ≡ true) (xs ++ ys))
unfolding outcome_of
exit_by-All warn xs ys = (inl refl, λ h. refl, λ h. cc)
exit_by-All fail xs ys =
    let (to, from) = failed-All xs in
    let (to', from') = failed-All ys in
    (
      ground arith,
      λ h. cc,
      λ h. (
        λ none_failed.
            All-append _ xs ys (to (ground (arith, none_failed)))
              (to' (ground (arith, none_failed))),
        λ all_passed. let (a, b) = All-split _ xs ys all_passed in ground (arith, from a, from' b),
      ),
    )

module _ (fl : Floats) {W : Type 0} (check : String → Expectation fl.Float → W → GxResult) where
  -- The exit code is 0 or 2, and in the mode `warn` it is 0. In the mode `fail` it is 0 exactly if
  -- every row that the run has appended to the results succeeded. All rows are appended in either
  -- case, after the earlier ones; among them is that of the row count of `fct_rides` against the
  -- bounds of the history before the run.
  pub main-All :
      (round : Round W) (s : QualityRunner)
      → let (code, s') = main fl check round s in
        let bounds = rowcount_bounds (rowcount_history s "fct_rides") in
        let row_count =
          result_row round.run_id "fct_rides" s.mode
            (check "fct_rides" (row_count_to_be_between bounds.0 bounds.1) round.tables) in
        (rows : List DqRow) × (s'.dq_results ≡ s.dq_results ++ rows)
        × In row_count rows
        × ((code ≡ 0) ⊎ (code ≡ 2))
        × (s.mode ≡ warn → code ≡ 0)
        × (s.mode ≡ fail → (code ≡ 0) ↔ All (λ row. row.success ≡ true) rows)
  unfolding main fct_rides_expectations result_rows
  main-All round s =
      let results = λ (suite : String) (es : List (Expectation fl.Float)).
        result_rows round.run_id suite s.mode (map (λ e. check suite e round.tables) es) in
      let xs = results "raw_rides_events" (raw_rides_events_expectations fl) in
      let ys = results "fct_rides" (
        fct_rides_expectations fl (rowcount_history s "fct_rides") s.freshness_minutes round.now) in
      let (code, warns, fails) = exit_by-All s.mode xs ys in
      (
        xs ++ ys,
        append_assoc s.dq_results xs ys,
        In-append_right _ xs ys (inr (inr (inr (inr (inr (inl refl)))))),
        code,
        warns,
        fails,
      )
