-- ===== src/Processors/SessionBuilder/View.antt =====
-- The abstract view of a ride: which event, if any, is known for each ordinal. A session is a
-- function of the view, whatever the order in which the slots were filled.
use stream_pipeline.Prelude.Dict
use stream_pipeline.Prelude.Dict.{Dict, IsDict, keys, values}
use stream_pipeline.Prelude.Entries.{entries, entries-get, sorted-entries}
use stream_pipeline.Prelude.Sort.{sorted, length-sorted, max_of-sorted, map-sorted}
use stream_pipeline.Prelude.{
  ℕ, ◌≡◌, refl, ◌⊎◌, Bool, Option, none, some, List, [], ◌∷◌, ok, ◌>>◌, arith, All, nat_key, String,
  ap, sym, ◌∙◌, map, length, max_of, get_or, map-map,
}
use stream_pipeline.Common.Floats.{Floats}
use stream_pipeline.Common.Events.{RideEvent}
use stream_pipeline.Generator.StateMachine.{
  RideEventType, requested, matched, driver_arrived, started, completed, cancelled, event_seq,
  contains,
}
use stream_pipeline.Processors.SessionBuilder.{
  RideAccumulator, Session, terminal, terminal_in, get_field, first, first_in, last_event_ts,
  closable, diff_ms, build_session, distance, avg_speed, or_one, state_text, is_late,
  only_completed, ended_at,
}
use stream_pipeline.Processors.SessionBuilder.Slots.{HasSeq, IsFiled, IsFiled-Within}

abbrev pub View : Type 0 → Type 0
View F = ℕ → Option (RideEvent F ℕ)

module _ {F : Type 0} where
  abbrev pub view : RideAccumulator F → View F
  view acc k = Dict.get k acc.slots

  -- the known events, by ordinal
  unfoldable pub known : View F → List (ℕ × RideEvent F ℕ)
  known w = entries w 1 6

  unfoldable pub state_of : View F → Option RideEventType
  state_of w = elim (w 5) [
    | some _ ↦ some completed
    | none ↦ elim (w 6) [ some _ ↦ some cancelled | none ↦ none ]
  ]

  -- A ride is not both completed and cancelled.
  abbrev pub HasOneEnd : View F → Type 0
  HasOneEnd w = (w 5 ≡ none) ⊎ (w 6 ≡ none)

  terminal_in-state_of :
      (d : Dict ℕ (RideEvent F ℕ))
      → All (λ (e : ℕ × RideEvent F ℕ). HasSeq e.0 e.1) d
      → HasOneEnd (λ k. Dict.get k d)
      → terminal_in (values d) ≡ ok (state_of (λ k. Dict.get k d))
  unfolding terminal_in state_of Dict.get event_seq contains
  terminal_in-state_of [] h one = refl
  terminal_in-state_of ((k, v) ∷ d) ((kind, found, seq), rest) one =
      ground (arith, terminal_in-state_of d rest)

-- The first known event that has the field.
unfoldable pub first_of :
    {F A : Type 0} → (RideEvent F ℕ → Option A) → List (ℕ × RideEvent F ℕ) → Option A
first_of field [] = none
first_of field ((k, v) ∷ es) = elim (field v) [ some a ↦ some a | none ↦ first_of field es ]

module _ {F A : Type 0} (d : Dict ℕ (RideEvent F ℕ)) (field : RideEvent F ℕ → Option A) where
  first_in-first_of :
      (es : List (ℕ × RideEvent F ℕ))
      → All (λ (e : ℕ × RideEvent F ℕ). Dict.get e.0 d ≡ some e.1) es
      → first_in d (map (λ e. e.0) es) field ≡ ok (first_of field es)
  unfolding first_in first_of
  first_in-first_of [] h = refl
  first_in-first_of ((k, v) ∷ es) h = ground (arith, h.0, first_in-first_of es h.1)

module _ {F : Type 0} (acc : RideAccumulator F) (f : IsFiled acc) where
  table : sorted (λ (e : ℕ × RideEvent F ℕ). e.0) acc.slots ≡ known (view acc)
  unfolding known
  table = sorted-entries acc.slots 1 6 f.distinct (IsFiled-Within acc f)

  sorted-keys : sorted (λ (k : ℕ). k) (keys acc.slots) ≡ map (λ e. e.0) (known (view acc))
  sorted-keys =
      sym (
        map-sorted (λ (e : ℕ × RideEvent F ℕ). e.0) (λ (k : ℕ). k) (λ e. e.0) acc.slots (λ e. refl))
      ∙ ap (map (λ e. e.0)) table

  pub first-first_of :
      {A : Type 0} (field : RideEvent F ℕ → Option A)
      → first acc.slots field ≡ ok (first_of field (known (view acc)))
  unfolding first known
  first-first_of field =
      ap (λ ks. first_in acc.slots ks field) sorted-keys
      ∙ first_in-first_of acc.slots field (known (view acc)) (entries-get (view acc) 1 6)

  pub length-known : length acc.slots ≡ length (known (view acc))
  length-known = sym (length-sorted (λ e. e.0) acc.slots) ∙ ap length table

  pub last_event_ts-known : last_event_ts acc ≡ max_of (map (λ e. e.1.event_ts) (known (view acc)))
  unfolding last_event_ts
  last_event_ts-known =
      ap max_of (map-map (λ v. v.event_ts) (λ (e : ℕ × RideEvent F ℕ). e.1) acc.slots)
      ∙ sym (max_of-sorted (λ e. e.0) (λ (e : ℕ × RideEvent F ℕ). e.1.event_ts) acc.slots)
      ∙ ap (λ es. max_of (map (λ e. e.1.event_ts) es)) table

  pub terminal-state_of : HasOneEnd (view acc) → terminal acc ≡ ok (state_of (view acc))
  unfolding terminal
  terminal-state_of one = terminal_in-state_of acc.slots f.in_slot one

-- A field of the event that is known for an ordinal.
abbrev at : {F A : Type 0} → View F → RideEventType → (RideEvent F ℕ → Option A) → Option A
at w kind field = elim (w (event_seq kind)) [ none ↦ none | some v ↦ field v ]

abbrev time_of : {F : Type 0} → View F → RideEventType → Option ℕ
time_of w kind = at w kind (λ v. some v.event_ts)

abbrev end_of : {F : Type 0} → View F → Option RideEventType → Option ℕ
end_of w none = none
end_of w (some kind) = time_of w kind

ended_at-end_of :
    {F : Type 0} (acc : RideAccumulator F)
    → ended_at acc.slots (state_of (view acc)) ≡ end_of (view acc) (state_of (view acc))
unfolding state_of get_field
ended_at-end_of acc = ground arith

module _ (fl : Floats) where
  open fl use {Float, of_int}

  abbrev place : View Float → (RideEvent Float ℕ → Option Float) → Option Float
  place w field = first_of field (known w)

  -- The session of a closed ride, read off its view.
  unfoldable pub session_of : String → View Float → Session Float
  unfolding distance avg_speed or_one
  session_of ride_id w =
      let state = state_of w in
      let km =
        distance fl (place w (λ v. some v.pickup_lat)) (place w (λ v. some v.pickup_lon))
          (place w (λ v. v.dropoff_lat)) (place w (λ v. v.dropoff_lon)) in
      let to_pickup = diff_ms (time_of w driver_arrived) (time_of w matched) in
      let ride = only_completed state (diff_ms (end_of w state) (time_of w started)) in
      record {
        ride_id = ride_id;
        rider_id = first_of (λ v. some v.rider_id) (known w);
        driver_id = first_of (λ v. v.driver_id) (known w);
        city_id = first_of (λ v. some v.city_id) (known w);
        terminal_state = state_text state;
        event_seq = length (known w);
        requested_ts = get_or (time_of w requested) (max_of (map (λ e. e.1.event_ts) (known w)));
        matched_ts = time_of w matched;
        driver_arrived_ts = time_of w driver_arrived;
        started_ts = time_of w started;
        ended_ts = end_of w state;
        time_to_match_ms = diff_ms (time_of w matched) (time_of w requested);
        time_to_pickup_ms = to_pickup;
        ride_duration_ms = ride;
        haversine_distance_km = km;
        avg_speed_kmh = avg_speed fl km ride;
        is_late_arrival = is_late to_pickup;
        fare_cents = at w completed (λ v. v.fare_cents);
        surge_multiplier = or_one fl (first_of (λ v. some v.surge_multiplier) (known w));
        promo_code = first_of (λ v. v.promo_code) (known w);
        pickup_lat = get_or (place w (λ v. some v.pickup_lat)) (of_int 0);
        pickup_lon = get_or (place w (λ v. some v.pickup_lon)) (of_int 0);
        dropoff_lat = place w (λ v. v.dropoff_lat);
        dropoff_lon = place w (λ v. v.dropoff_lon);
      }

  -- A ride that was filed properly and is not both completed and cancelled is built into the
  -- session of its view, if it is terminal or the timeout closes it; if neither, ValueError.
  pub build_session-session_of :
      (acc : RideAccumulator Float) (closed_by_timeout : Bool)
      → IsFiled acc
      → HasOneEnd (view acc)
      → build_session fl acc closed_by_timeout ≡ (
          closable (state_of (view acc)) closed_by_timeout
          >> ok (session_of acc.ride_id (view acc)))
  unfolding build_session session_of get_field
  build_session-session_of acc closed f one = simp (
    terminal-state_of acc f one,
    first-first_of acc f,
    length-known acc f,
    last_event_ts-known acc f,
    ended_at-end_of acc,
  )
