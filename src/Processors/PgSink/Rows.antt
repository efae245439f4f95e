-- ===== src/Processors/PgSink/Rows.antt =====
-- src/processors/pg_sink.py: the rows that the sink builds of decoded values. A `timestamptz` is
-- its epoch milliseconds. The builders give no value to `ingested_at`, which is `now()` by default.
use stream_pipeline.Prelude.{ℕ, ℤ, String, Bool, Option, Result, ok, ◌>>=◌}
use stream_pipeline.Common.Times.{Timestamp, to_epoch_ms, to_epoch_ms_opt}
use stream_pipeline.Common.Events.{RideEvent}
use stream_pipeline.Generator.StateMachine.{ride_event_type, event_seq}

pub record EventRow (F : Type 0) : Type 0 where
  pub ride_id : String
  pub event_seq : ℕ
  pub event_id : String
  pub event_type : String
  pub event_ts : ℕ
  pub rider_id : String
  pub driver_id : Option String
  pub city_id : ℕ
  pub pickup_lat : F
  pub pickup_lon : F
  pub dropoff_lat : Option F
  pub dropoff_lon : Option F
  pub fare_cents : Option ℤ
  pub surge_multiplier : F
  pub payload_version : ℕ
  pub promo_code : Option String
  pub kafka_partition : ℕ
  pub kafka_offset : ℕ

-- A decoded session, and the row of one: they differ in the type of the timestamps.
pub record SessionRow (F T : Type 0) : Type 0 where
  pub ride_id : String
  pub rider_id : String
  pub driver_id : Option String
  pub city_id : ℕ
  pub terminal_state : String
  pub event_seq : ℕ
  pub requested_ts : T
  pub matched_ts : Option T
  pub driver_arrived_ts : Option T
  pub started_ts : Option T
  pub ended_ts : Option T
  pub time_to_match_sec : Option F
  pub time_to_pickup_sec : Option F
  pub ride_duration_sec : Option F
  pub haversine_distance_km : Option F
  pub avg_speed_kmh : Option F
  pub is_late_arrival : Bool
  pub fare_cents : Option ℤ
  pub surge_multiplier : F
  pub promo_code : Option String
  pub pickup_lat : F
  pub pickup_lon : F
  pub dropoff_lat : Option F
  pub dropoff_lon : Option F

pub record PaymentRow (T : Type 0) : Type 0 where
  pub txn_id : String
  pub ride_id : String
  pub amount_cents : ℤ
  pub status : String
  pub method : String
  pub ts : T

pub record LocationRow (F T : Type 0) : Type 0 where
  pub driver_id : String
  pub ts : T
  pub lat : F
  pub lon : F
  pub speed_kmh : F
  pub heading : F
  pub status : String
  pub city_id : ℕ

module _ {F : Type 0} where
  unfoldable pub rides_event_row : RideEvent F Timestamp → ℕ → ℕ → Result (EventRow F)
  rides_event_row value partition offset = ride_event_type value.event_type >>= λ kind. ok (record {
    ride_id = value.ride_id;
    event_seq = event_seq kind;
    event_id = value.event_id;
    event_type = value.event_type;
    event_ts = to_epoch_ms value.event_ts;
    rider_id = value.rider_id;
    driver_id = value.driver_id;
    city_id = value.city_id;
    pickup_lat = value.pickup_lat;
    pickup_lon = value.pickup_lon;
    dropoff_lat = value.dropoff_lat;
    dropoff_lon = value.dropoff_lon;
    fare_cents = value.fare_cents;
    surge_multiplier = value.surge_multiplier;
    payload_version = value.payload_version;
    promo_code = value.promo_code;
    kafka_partition = partition;
    kafka_offset = offset;
  })

  unfoldable pub session_row : SessionRow F Timestamp → SessionRow F ℕ
  session_row value = record {
    ride_id = value.ride_id;
    rider_id = value.rider_id;
    driver_id = value.driver_id;
    city_id = value.city_id;
    terminal_state = value.terminal_state;
    event_seq = value.event_seq;
    requested_ts = to_epoch_ms value.requested_ts;
    matched_ts = to_epoch_ms_opt value.matched_ts;
    driver_arrived_ts = to_epoch_ms_opt value.driver_arrived_ts;
    started_ts = to_epoch_ms_opt value.started_ts;
    ended_ts = to_epoch_ms_opt value.ended_ts;
    time_to_match_sec = value.time_to_match_sec;
    time_to_pickup_sec = value.time_to_pickup_sec;
    ride_duration_sec = value.ride_duration_sec;
    haversine_distance_km = value.haversine_distance_km;
    avg_speed_kmh = value.avg_speed_kmh;
    is_late_arrival = value.is_late_arrival;
    fare_cents = value.fare_cents;
    surge_multiplier = value.surge_multiplier;
    promo_code = value.promo_code;
    pickup_lat = value.pickup_lat;
    pickup_lon = value.pickup_lon;
    dropoff_lat = value.dropoff_lat;
    dropoff_lon = value.dropoff_lon;
  }

  unfoldable pub location_row : LocationRow F Timestamp → LocationRow F ℕ
  location_row value = record {
    driver_id = value.driver_id;
    ts = to_epoch_ms value.ts;
    lat = value.lat;
    lon = value.lon;
    speed_kmh = value.speed_kmh;
    heading = value.heading;
    status = value.status;
    city_id = value.city_id;
  }

unfoldable pub payment_row : PaymentRow Timestamp → PaymentRow ℕ
payment_row value = record {
  txn_id = value.txn_id;
  ride_id = value.ride_id;
  amount_cents = value.amount_cents;
  status = value.status;
  method = value.method;
  ts = to_epoch_ms value.ts;
}
