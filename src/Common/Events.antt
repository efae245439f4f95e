-- ===== src/Common/Events.antt =====
-- schemas/avro/rides_events_v2.avsc: a ride event as the reader of version 2 decodes it, over a
-- type of floats and a type of timestamps.
use stream_pipeline.Prelude.{ℕ, ℤ, String, Option}

pub record RideEvent (F T : Type 0) : Type 0 where
  pub event_id : String
  pub ride_id : String
  pub event_type : String
  pub event_ts : T
  pub rider_id : String
  pub driver_id : Option String
  pub city_id : ℕ
  pub pickup_lat : F
  pub pickup_lon : F
  pub dropoff_lat : Option F
  pub dropoff_lon : Option F
  pub fare_cents : Option ℤ
  pub surge_multiplier : F
  pub payload_version : ℕ
  pub promo_code : Option String
