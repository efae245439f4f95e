-- ===== src/Tests/Samples.antt =====
-- The inputs that the tests share. Floats are natural numbers here.
use stream_pipeline.Prelude.{ℕ, ◌+◌, ◌-◌, ◌*◌, ◌/◌, ◌%◌, String, none, some, [], ◌∷◌, ltb, ◌==◌}
use stream_pipeline.Common.Floats.{Floats}
use stream_pipeline.Common.Events.{RideEvent}
use stream_pipeline.Dlq.Envelope.{Message}

abbrev pub nat_floats : Floats
nat_floats = record {
  Float = ℕ;
  of_int = λ n. n;
  lit = λ m k. m;
  to_int = λ x. x;
  add = ◌+◌;
  sub = ◌-◌;
  mul = ◌*◌;
  div = ◌/◌;
  fmod = ◌%◌;
  lt = ltb;
  eq = ◌==◌;
  sqrt = λ x. x;
  sin = λ x. x;
  cos = λ x. x;
  asin = λ x. x;
  atan2 = λ y x. y;
  radians = λ x. x;
  degrees = λ x. x;
  exp = λ x. x;
  abs = λ x. x;
  neg = λ x. x;
  round = λ x n. x;
}

abbrev pub event_of : {T : Type 0} → String → String → T → RideEvent ℕ T
event_of event_id event_type ts = record {
  event_id = event_id;
  ride_id = "r1";
  event_type = event_type;
  event_ts = ts;
  rider_id = "u1";
  driver_id = none;
  city_id = 1;
  pickup_lat = 3;
  pickup_lon = 4;
  dropoff_lat = none;
  dropoff_lon = none;
  fare_cents = none;
  surge_multiplier = 1;
  payload_version = 2;
  promo_code = none;
}

abbrev pub message_at : ℕ → Message
message_at offset = record {
  topic = "rides.events";
  partition = 0;
  offset = offset;
  key = some (114 ∷ 49 ∷ []);
  value = some (0 ∷ 1 ∷ offset ∷ []);
}
