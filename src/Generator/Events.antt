-- ===== src/Generator/Events.antt =====
-- src/generator/events.py: the events of the simulator, and the builders of their values.
use Prim.Native.String.{◌++◌}
use stream_pipeline.Prelude.{ℕ, ℤ, String, Bool, false, Option, none, some, if◌then◌else◌, leb}
use stream_pipeline.Common.Events.{RideEvent}
use stream_pipeline.Common.Topics.{rides_events, payments_transactions, drivers_locations}
use stream_pipeline.Generator.StateMachine.{RideEventType, value as kind_value}

pub record Payment : Type 0 where
  pub txn_id : String
  pub ride_id : String
  pub amount_cents : ℤ
  pub status : String
  pub method : String
  pub ts : ℕ

pub record DriverLocation (F : Type 0) : Type 0 where
  pub driver_id : String
  pub ts : ℕ
  pub lat : F
  pub lon : F
  pub speed_kmh : F
  pub heading : F
  pub status : String
  pub city_id : ℕ

-- The values by topic. A ride event without `promo_code` has it null.
pub data Value (F : Type 0) : Type 0 where
  ride : RideEvent F ℕ → Value F
  payment : Payment → Value F
  location : DriverLocation F → Value F

pub record SourceEvent (F : Type 0) : Type 0 where
  pub topic : String
  pub key : String
  pub value : Value F
  pub ts_ms : ℕ
  pub corrupt : Bool

-- The decimal digits of an ordinal, which has one.
abbrev pub digit : RideEventType → String
digit RideEventType.requested = "1"
digit RideEventType.matched = "2"
digit RideEventType.driver_arrived = "3"
digit RideEventType.started = "4"
digit RideEventType.completed = "5"
digit RideEventType.cancelled = "6"

-- The arguments of `ride_event`.
pub record RideFields (F : Type 0) : Type 0 where
  pub ride_id : String
  pub event_type : RideEventType
  pub event_ts_ms : ℕ
  pub rider_id : String
  pub city_id : ℕ
  pub pickup : F × F
  pub surge_multiplier : F
  pub driver_id : Option String
  pub dropoff : Option (F × F)
  pub fare_cents : Option ℤ
  pub payload_version : ℕ
  pub promo_code : Option String

abbrev pub first_of : {F : Type 0} → Option (F × F) → Option F
first_of none = none
first_of (some (lat, lon)) = some lat

abbrev pub second_of : {F : Type 0} → Option (F × F) → Option F
second_of none = none
second_of (some (lat, lon)) = some lon

unfoldable pub ride_event : {F : Type 0} → RideFields F → SourceEvent F
ride_event f = record {
  topic = rides_events;
  key = f.ride_id;
  value = ride (record {
    event_id = f.ride_id ++ ("." ++ digit f.event_type);
    ride_id = f.ride_id;
    event_type = kind_value f.event_type;
    event_ts = f.event_ts_ms;
    rider_id = f.rider_id;
    driver_id = f.driver_id;
    city_id = f.city_id;
    pickup_lat = f.pickup.0;
    pickup_lon = f.pickup.1;
    dropoff_lat = first_of f.dropoff;
    dropoff_lon = second_of f.dropoff;
    fare_cents = f.fare_cents;
    surge_multiplier = f.surge_multiplier;
    payload_version = f.payload_version;
    promo_code = if leb 2 f.payload_version then f.promo_code else none;
  });
  ts_ms = f.event_ts_ms;
  corrupt = false;
}

unfoldable pub payment_event : {F : Type 0} → Payment → SourceEvent F
payment_event p = record {
  topic = payments_transactions;
  key = p.ride_id;
  value = payment p;
  ts_ms = p.ts;
  corrupt = false;
}

unfoldable pub driver_location_event : {F : Type 0} → DriverLocation F → SourceEvent F
driver_location_event d = record {
  topic = drivers_locations;
  key = d.driver_id;
  value = location d;
  ts_ms = d.ts;
  corrupt = false;
}
