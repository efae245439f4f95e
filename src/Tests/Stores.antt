-- ===== src/Tests/Stores.antt =====
-- The store of the sessionizer.
use stream_pipeline.Prelude.{ℕ, ◌≡◌, refl, String, false, none, some, [], ◌∷◌, differ}
use stream_pipeline.Processors.SessionBuilder.{Session}
use stream_pipeline.Processors.StateStore.{
  StateStore, JournalRow, CloseRow, empty_store, append_batch, purge_confirmed, open_rides,
}
use stream_pipeline.Processors.StateStore.Keys.{
  IsKeyed, batch, rollback, purge, write_all, write_all-IsKeyed,
}
use stream_pipeline.Processors.StateStore.Rollback.{rollback_all, rollback-append_batch}
use stream_pipeline.Processors.StateStore.Purge.{open_rides-purge_confirmed}
use stream_pipeline.Tests.Samples.{event_of}

abbrev row_at : ℕ → JournalRow ℕ
row_at offset = record {
  partition = 0;
  offset = offset;
  ride_id = "r1";
  value = event_of "e1" "requested" 5;
}

abbrev a_session : Session ℕ
a_session = record {
  ride_id = "r1";
  rider_id = some "u1";
  driver_id = none;
  city_id = some 1;
  terminal_state = "cancelled";
  event_seq = 2;
  requested_ts = 5;
  matched_ts = none;
  driver_arrived_ts = none;
  started_ts = none;
  ended_ts = some 9;
  time_to_match_ms = none;
  time_to_pickup_ms = none;
  ride_duration_ms = none;
  haversine_distance_km = none;
  avg_speed_kmh = none;
  is_late_arrival = false;
  fare_cents = none;
  surge_multiplier = 1;
  promo_code = none;
  pickup_lat = 3;
  pickup_lon = 4;
  dropoff_lat = none;
  dropoff_lon = none;
}

abbrev close_at : String → ℕ → CloseRow ℕ
close_at ride_id offset = record {
  ride_id = ride_id;
  partition = 0;
  offset = offset;
  session = a_session;
}

-- A store whose close was confirmed below offset 3, and a batch from there on.
abbrev stored : StateStore ℕ
stored = record { journal = row_at 1 ∷ []; closes = close_at "r0" 2 ∷ [] }

rollback-append_batch_example :
    rollback_all (append_batch stored (row_at 3 ∷ []) (close_at "r1" 4 ∷ [])) ((0, 3) ∷ [])
    ≡ rollback_all stored ((0, 3) ∷ [])
rollback-append_batch_example =
    rollback-append_batch stored (row_at 3 ∷ []) (close_at "r1" 4 ∷ []) ((0, 3) ∷ []) (refl, tt)
      ((refl, ((λ alive same. differ "r0" "r1" refl same), tt)), tt)

write_all-IsKeyed_example : IsKeyed (
    write_all empty_store
      (batch (row_at 1 ∷ row_at 1 ∷ []) (close_at "r1" 1 ∷ []) ∷ rollback 0 1 ∷ purge 0 1 ∷ []))
write_all-IsKeyed_example =
    write_all-IsKeyed
      (batch (row_at 1 ∷ row_at 1 ∷ []) (close_at "r1" 1 ∷ []) ∷ rollback 0 1 ∷ purge 0 1 ∷ [])

open_rides-purge_confirmed_example :
    (open_rides (purge_confirmed stored 0 3).0 0 ≡ open_rides stored 0)
    × ((purge_confirmed stored 0 3).0.closes ≡ stored.closes)
open_rides-purge_confirmed_example = open_rides-purge_confirmed stored 0 3 0
