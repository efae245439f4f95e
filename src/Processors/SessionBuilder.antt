-- ===== src/Processors/SessionBuilder.antt =====
-- src/processors/session_builder.py: the fold of ride events into one session record.
-- Timestamps are epoch milliseconds here; a duration in seconds is kept as its milliseconds, so a
-- quotient by 1000.0 is not rounded.
pub mod Slots
pub mod View
pub mod Orders
use stream_pipeline.Prelude.Dict
use stream_pipeline.Prelude.Dict.{Dict, keys, values}
use stream_pipeline.Prelude.Sort.{sorted}
use stream_pipeline.Prelude.{
  ℕ, ◌-◌, ◌*◌, ◌+◌, ℤ, String, Bool, true, false, ◌&&◌, Option, none, some, List, [], ◌∷◌, map,
  length, max_of, Result, ok, raise, value_error, key_error, ◌>>=◌, ◌>>◌, is_empty, get_or, ltb,
  if◌then◌else◌, nat_key, not,
}
use stream_pipeline.Common.Floats.{Floats}
use stream_pipeline.Common.Geo.{haversine_km}
use stream_pipeline.Common.Events.{RideEvent}
use stream_pipeline.Generator.StateMachine.{
  RideEventType, requested, matched, driver_arrived, started, completed, cancelled, terminal_states,
  contains, event_seq, ride_event_type, is_kind, value as kind_value,
}

-- 600 seconds
abbrev pub late_arrival_threshold_ms : ℕ
late_arrival_threshold_ms = 600 * 1000

abbrev pub session_timeout_ms_default : ℕ
session_timeout_ms_default = 2 * 3600 * 1000

-- `d[k]`
abbrev pub index : {A : Type 0} → Option A → Result A
index none = raise key_error
index (some a) = ok a

abbrev pub closable : Option RideEventType → Bool → Result (Unit {0})
closable none false = raise value_error
closable _ _ = ok tt

pub record RideAccumulator (F : Type 0) : Type 0 where
  pub ride_id : String
  pub slots : Dict ℕ (RideEvent F ℕ)

abbrev pub new_accumulator : {F : Type 0} → String → RideAccumulator F
new_accumulator ride_id = record { ride_id = ride_id; slots = [] }

module _ {F : Type 0} where
  -- the event that a ride event announces, where its text names one
  abbrev pub kind_of : RideEvent F ℕ → Result RideEventType
  kind_of v = ride_event_type v.event_type

  -- The timestamps of the sessionizer are ints already, which `to_epoch_ms` leaves alone.
  unfoldable pub add : RideAccumulator F → RideEvent F ℕ → Result (RideAccumulator F)
  add acc v = do kind ← kind_of v; ok (record acc { slots = Dict.put (event_seq kind) v acc.slots })

  -- the loop of `terminal`, over `slots.values()`
  unfoldable pub terminal_in : List (RideEvent F ℕ) → Result (Option RideEventType)
  terminal_in [] = ok none
  terminal_in (v ∷ vs) =
      let rest = terminal_in vs in
      kind_of v >>= λ kind. if contains kind terminal_states then ok (some kind) else rest

  unfoldable pub terminal : RideAccumulator F → Result (Option RideEventType)
  unfolding terminal_in
  terminal acc = terminal_in (values acc.slots)

  unfoldable pub last_event_ts : RideAccumulator F → ℕ
  last_event_ts acc = max_of (map (λ v. v.event_ts) (values acc.slots))

  -- `[self.slots[seq] for seq in seqs]`
  events_at : Dict ℕ (RideEvent F ℕ) → List ℕ → Result (List (RideEvent F ℕ))
  events_at slots [] = ok []
  events_at slots (seq ∷ seqs) = do
    v ← index (Dict.get seq slots)
    vs ← events_at slots seqs
    ok (v ∷ vs)

  unfoldable pub events : RideAccumulator F → Result (List (RideEvent F ℕ))
  unfolding events_at
  events acc = events_at acc.slots (sorted (λ seq. seq) (keys acc.slots))

-- `_get` and `_first`: a field of the event in one slot, and of the first slot that has it
module _ {F A : Type 0} (slots : Dict ℕ (RideEvent F ℕ)) where
  unfoldable pub get_field : RideEventType → (RideEvent F ℕ → Option A) → Option A
  get_field event field = elim (Dict.get (event_seq event) slots) [ none ↦ none | some v ↦ field v ]

  unfoldable pub first_in : List ℕ → (RideEvent F ℕ → Option A) → Result (Option A)
  first_in [] field = ok none
  first_in (seq ∷ seqs) field =
      let rest = first_in seqs field in
      index (Dict.get seq slots) >>= λ v. elim (field v) [ none ↦ rest | some got ↦ ok (some got) ]

  unfoldable pub first : (RideEvent F ℕ → Option A) → Result (Option A)
  unfolding first_in
  first field = first_in (sorted (λ seq. seq) (keys slots)) field

pub record Session (F : Type 0) : Type 0 where
  pub ride_id : String
  pub rider_id : Option String
  pub driver_id : Option String
  pub city_id : Option ℕ
  pub terminal_state : String
  pub event_seq : ℕ
  pub requested_ts : ℕ
  pub matched_ts : Option ℕ
  pub driver_arrived_ts : Option ℕ
  pub started_ts : Option ℕ
  pub ended_ts : Option ℕ
  pub time_to_match_ms : Option ℕ
  pub time_to_pickup_ms : Option ℕ
  pub ride_duration_ms : Option ℕ
  pub haversine_distance_km : Option F
  pub avg_speed_kmh : Option F
  pub is_late_arrival : Bool
  pub fare_cents : Option ℤ
  pub surge_multiplier : F
  pub promo_code : Option String
  pub pickup_lat : F
  pub pickup_lon : F
  pub dropoff_lat : Option F
  pub dropoff_lon : Option F

-- `diff_sec`, in milliseconds: `max((a - b) / 1000.0, 0.0)` is 0 where `a` is before `b`, and so is
-- the difference of two numbers.
unfoldable pub diff_ms : Option ℕ → Option ℕ → Option ℕ
diff_ms (some a) (some b) = some (a - b)
diff_ms _ _ = none

-- The end of a ride is the event that its terminal state names.
abbrev pub ended_at : {F : Type 0} → Dict ℕ (RideEvent F ℕ) → Option RideEventType → Option ℕ
ended_at slots (some completed) = get_field slots completed (λ v. some v.event_ts)
ended_at slots (some cancelled) = get_field slots cancelled (λ v. some v.event_ts)
ended_at slots _ = none

abbrev pub only_completed : Option RideEventType → Option ℕ → Option ℕ
only_completed (some completed) duration = duration
only_completed _ _ = none

abbrev pub state_text : Option RideEventType → String
state_text none = "abandoned"
state_text (some kind) = kind_value kind

abbrev pub is_late : Option ℕ → Bool
is_late none = false
is_late (some ms) = ltb late_arrival_threshold_ms ms

module _ (fl : Floats) where
  open fl use {Float, of_int, lit, div, eq}

  unfoldable pub distance : Option Float → Option Float → Option Float → Option Float → Option Float
  distance (some lat1) (some lon1) (some lat2) (some lon2) =
      some (haversine_km fl lat1 lon1 lat2 lon2)
  distance _ _ _ _ = none

  unfoldable pub avg_speed : Option Float → Option ℕ → Option Float
  avg_speed (some km) (some ms) =
      if ltb 0 ms then some (div km (div (div (of_int ms) (of_int 1000)) (of_int 3600))) else none
  avg_speed _ _ = none

  -- `x or 1.0`
  unfoldable pub or_one : Option Float → Float
  or_one none = of_int 1
  or_one (some x) = if eq x (of_int 0) then of_int 1 else x

  unfoldable pub build_session : RideAccumulator Float → Bool → Result (Session Float)
  unfolding distance avg_speed or_one
  build_session acc closed_by_timeout = do
    let slots = acc.slots
    state ← terminal acc
    closable state closed_by_timeout
    let requested_ts = get_field slots requested (λ v. some v.event_ts)
    let matched_ts = get_field slots matched (λ v. some v.event_ts)
    let arrived_ts = get_field slots driver_arrived (λ v. some v.event_ts)
    let started_ts = get_field slots started (λ v. some v.event_ts)
    let ended_ts = ended_at slots state
    let time_to_match = diff_ms matched_ts requested_ts
    let time_to_pickup = diff_ms arrived_ts matched_ts
    let ride_duration = only_completed state (diff_ms ended_ts started_ts)
    pickup_lat ← first slots (λ v. some v.pickup_lat)
    pickup_lon ← first slots (λ v. some v.pickup_lon)
    dropoff_lat ← first slots (λ v. v.dropoff_lat)
    dropoff_lon ← first slots (λ v. v.dropoff_lon)
    let distance_km = distance pickup_lat pickup_lon dropoff_lat dropoff_lon
    rider_id ← first slots (λ v. some v.rider_id)
    driver_id ← first slots (λ v. v.driver_id)
    city_id ← first slots (λ v. some v.city_id)
    surge ← first slots (λ v. some v.surge_multiplier)
    promo_code ← first slots (λ v. v.promo_code)
    ok (record {
      ride_id = acc.ride_id;
      rider_id = rider_id;
      driver_id = driver_id;
      city_id = city_id;
      terminal_state = state_text state;
      event_seq = length slots;
      requested_ts = get_or requested_ts (last_event_ts acc);
      matched_ts = matched_ts;
      driver_arrived_ts = arrived_ts;
      started_ts = started_ts;
      ended_ts = ended_ts;
      time_to_match_ms = time_to_match;
      time_to_pickup_ms = time_to_pickup;
      ride_duration_ms = ride_duration;
      haversine_distance_km = distance_km;
      avg_speed_kmh = avg_speed distance_km ride_duration;
      is_late_arrival = is_late time_to_pickup;
      fare_cents = get_field slots completed (λ v. v.fare_cents);
      surge_multiplier = or_one surge;
      promo_code = promo_code;
      pickup_lat = get_or pickup_lat (of_int 0);
      pickup_lon = get_or pickup_lon (of_int 0);
      dropoff_lat = dropoff_lat;
      dropoff_lon = dropoff_lon;
    })

-- `watermark_ms - last_event_ts > timeout_ms`, where the difference may be negative
unfoldable pub timed_out : {F : Type 0} → RideAccumulator F → ℕ → ℕ → Bool
timed_out acc watermark_ms timeout_ms =
    not (is_empty acc.slots) && ltb (last_event_ts acc + timeout_ms) watermark_ms
