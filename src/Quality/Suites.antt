-- ===== src/Quality/Suites.antt =====
-- src/quality/suites.py: the expectations of the two suites, and the bounds of a row count.
pub mod Bounds
use stream_pipeline.Prelude.{
  ℕ, ◌+◌, ◌-◌, ◌*◌, ◌/◌, ◌%◌, max, ◌==◌, String, Bool, true, Option, none, some, List, [], ◌∷◌,
  length, max_of, get_elem?, last_n, get_or, if◌then◌else◌,
}
use stream_pipeline.Prelude.Sort.{sorted}
use stream_pipeline.Common.Floats.{Floats}

-- The expectations that the suites use, with the arguments that they pass.
pub data Expectation (F : Type 0) : Type 0 where
  columns_to_match_set : List String → Bool → Expectation F
  values_to_not_be_null : String → Expectation F
  values_to_be_unique : String → Expectation F
  texts_to_be_in_set : String → List String → Expectation F
  numbers_to_be_in_set : String → List ℕ → Expectation F
  values_to_be_between : String → Option F → Option F → Expectation F
  row_count_to_be_between : ℕ → Option ℕ → Expectation F
  max_to_be_at_least : String → ℕ → Expectation F

abbrev pub ride_event_columns : List String
ride_event_columns =
    "ride_id" ∷ "event_seq" ∷ "event_id" ∷ "event_type" ∷ "event_ts" ∷ "rider_id" ∷ "driver_id"
    ∷ "city_id" ∷ "pickup_lat" ∷ "pickup_lon" ∷ "dropoff_lat" ∷ "dropoff_lon" ∷ "fare_cents"
    ∷ "surge_multiplier" ∷ "payload_version" ∷ "promo_code" ∷ "kafka_partition" ∷ "kafka_offset"
    ∷ "ingested_at" ∷ []

abbrev pub event_types : List String
event_types =
    "requested" ∷ "matched" ∷ "driver_arrived" ∷ "started" ∷ "completed" ∷ "cancelled" ∷ []

abbrev pub city_ids : List ℕ
city_ids = 1 ∷ 2 ∷ 3 ∷ 4 ∷ 5 ∷ []

-- `int(median(xs))`: the middle of the sorted list, or the mean of its two middles. The mean is
-- exact in a float below 2 ** 53.
unfoldable pub int_median : List ℕ → ℕ
unfolding sorted
int_median xs =
    let data_sorted = sorted (λ n. n) xs in
    let n = length xs in
    let upper = get_or (get_elem? data_sorted (n / 2)) 0 in
    if n % 2 == 1 then upper else (get_or (get_elem? data_sorted (n / 2 - 1)) 0 + upper) / 2

unfoldable pub rowcount_bounds : List ℕ → ℕ × Option ℕ
unfolding int_median last_n
rowcount_bounds [] = (0, none)
rowcount_bounds (x ∷ xs) =
    let floor = max_of (x ∷ xs) in
    let ceiling = int_median (last_n 10 (x ∷ xs)) * 4 + 1000 in
    (floor, some (max ceiling (floor + 1000)))

module _ (fl : Floats) where
  open fl use {Float, of_int, lit}

  abbrev lat_bounds : Option Float × Option Float
  lat_bounds = (some (lit 80 1), some (lit 320 1))

  abbrev lon_bounds : Option Float × Option Float
  lon_bounds = (some (lit 680 1), some (lit 920 1))

  unfoldable pub raw_rides_events_expectations : List (Expectation Float)
  raw_rides_events_expectations =
      columns_to_match_set ride_event_columns true
      ∷ values_to_not_be_null "ride_id"
      ∷ values_to_not_be_null "event_id"
      ∷ values_to_not_be_null "event_type"
      ∷ values_to_not_be_null "event_ts"
      ∷ values_to_not_be_null "rider_id"
      ∷ values_to_not_be_null "city_id"
      ∷ texts_to_be_in_set "event_type" event_types
      ∷ numbers_to_be_in_set "city_id" city_ids
      ∷ values_to_be_between "pickup_lat" lat_bounds.0 lat_bounds.1
      ∷ values_to_be_between "pickup_lon" lon_bounds.0 lon_bounds.1
      ∷ values_to_be_between "dropoff_lat" lat_bounds.0 lat_bounds.1
      ∷ values_to_be_between "dropoff_lon" lon_bounds.0 lon_bounds.1
      ∷ values_to_be_between "fare_cents" (some (of_int 0)) none
      ∷ values_to_be_between "surge_multiplier" (some (lit 10 1)) (some (lit 30 1))
      ∷ numbers_to_be_in_set "payload_version" (1 ∷ 2 ∷ [])
      ∷ []

  -- `now` in milliseconds
  unfoldable pub fct_rides_expectations : List ℕ → ℕ → ℕ → List (Expectation Float)
  unfolding rowcount_bounds
  fct_rides_expectations history freshness_minutes now =
      let (floor, ceiling) = rowcount_bounds history in
      values_to_be_unique "ride_id"
      ∷ values_to_not_be_null "ride_id"
      ∷ values_to_not_be_null "terminal_state"
      ∷ values_to_not_be_null "requested_at"
      ∷ texts_to_be_in_set "terminal_state" ("completed" ∷ "cancelled" ∷ "abandoned" ∷ [])
      ∷ row_count_to_be_between floor ceiling
      ∷ max_to_be_at_least "ingested_at" (now - freshness_minutes * 60000)
      ∷ []
