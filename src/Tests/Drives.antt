-- ===== src/Tests/Drives.antt =====
-- A ride of the generator, with its fleet.
use stream_pipeline.Prelude.{
  Returns, true, false, ◌∷◌, arith, ◌≡◌, ◌<◌, String, ok, ℕ, refl, none, some, [],
}
use stream_pipeline.Generator.StateMachine.{requested, matched, contains, legal_next}
use stream_pipeline.Generator.Events.{SourceEvent}
use stream_pipeline.Generator.Fleet.{Fleet, Dependable}
use stream_pipeline.Generator.Cities.{city_by_id, bengaluru}
use stream_pipeline.Generator.Drivers.{DriverFleet, assign}
use stream_pipeline.Generator.Drivers.Movement.{driver_fleet, interval_ms}
use stream_pipeline.Generator.Drivers.Assignments.{IsChosen, IsSent, IsAlone, assign-IsChosen}
use stream_pipeline.Generator.Drivers.Dependability.{driver_fleet-Dependable, driver_fleet-Serves}
use stream_pipeline.Generator.Rides.{ActiveRide, RideSimulator, Moved}
use stream_pipeline.Generator.Rides.Firing.{fire, fire_due}
use stream_pipeline.Generator.Rides.Legal.{fire-IsPlanned}
use stream_pipeline.Generator.Rides.Moves.{IsEventOf, IsMove, IsPlanned}
use stream_pipeline.Generator.Rides.Progress.{IsRound, fire_due-IsRound}
use stream_pipeline.Common.Topics.{rides_events}
use stream_pipeline.Generator.Producer.{Flight, KafkaTransport, Setting, send, callback}
use stream_pipeline.Generator.Producer.Deliveries.{
  Exchange, start, Reachable, sent, delivered, with_manifest, then_step, IsHonest,
  Reachable-IsHonest,
}
use stream_pipeline.Tests.Samples.{nat_floats}
use stream_pipeline.Tests.Lakes.{counter, config, a_ride}

-- No driver is idle: the first ride spawns one.
abbrev empty_fleet : DriverFleet ℕ ℕ
empty_fleet = record { rng = 3; drivers = []; overflow = 0 }

abbrev fleet : Fleet nat_floats
fleet = driver_fleet nat_floats counter config

apart : 0 < interval_ms nat_floats counter config
apart = omega arith

abbrev fleet-Dependable : Dependable nat_floats fleet
fleet-Dependable = driver_fleet-Dependable nat_floats counter config apart

abbrev waiting : ActiveRide ℕ
waiting = record {
  ride_id = "r1";
  rider_id = "u1";
  city_id = 1;
  pickup = (3, 4);
  dropoff = (5, 6);
  surge = 1;
  machine = record { state = some requested };
  driver_id = none;
  requested_ms = 5;
  started_ms = 0;
  fare_cents = none;
  next_at_ms = 9;
  next_event = some matched;
  stop_after = none;
  distance_km = 2;
  duration_sec = 0;
  promo_code = none;
}

abbrev simulator : RideSimulator ℕ ℕ (DriverFleet ℕ ℕ)
simulator = record {
  rng = 50;
  fleet = empty_fleet;
  anchor_ms = 0;
  payments = [];
  completed_rides = 0;
  cancelled_rides = 0;
}

waiting-IsPlanned : IsPlanned waiting
unfolding contains legal_next
waiting-IsPlanned = refl

served : fleet-Dependable.Serves 1
unfolding city_by_id
served = driver_fleet-Serves nat_floats counter config apart 1 _ refl

fire-IsPlanned_example :
    Returns
      (λ (x : SourceEvent ℕ × Moved nat_floats counter fleet config).
        IsEventOf matched x.1.0 9 x.0
        × IsMove nat_floats counter fleet config fleet-Dependable
            (record { state = some matched })
            simulator
            x.1)
      (fire nat_floats counter fleet config waiting simulator)
fire-IsPlanned_example =
    fire-IsPlanned nat_floats counter fleet config fleet-Dependable waiting simulator matched refl
      waiting-IsPlanned (served, tt)

bengaluru_by_id : city_by_id nat_floats 1 ≡ some (bengaluru nat_floats)
unfolding city_by_id
bengaluru_by_id = refl

assign-IsChosen_example :
    (id : String) × (travel_sec : ℕ) × (s' : DriverFleet ℕ ℕ) × (assign nat_floats counter config 1
        (3, 4)
        9
        empty_fleet
      ≡ ok ((id, travel_sec), s'))
    × IsChosen nat_floats counter config 1 empty_fleet id s'
    × IsSent nat_floats counter config (3, 4) 9 id s'
    × IsAlone nat_floats counter config empty_fleet id s'
assign-IsChosen_example =
    assign-IsChosen nat_floats counter config 1 (bengaluru nat_floats) (3, 4) 9 empty_fleet
      bengaluru_by_id

fire_due-IsRound_example :
    Returns
      (IsRound nat_floats counter fleet config fleet-Dependable 20 simulator)
      (fire_due nat_floats counter fleet config 5 waiting simulator 20)
fire_due-IsRound_example =
    fire_due-IsRound nat_floats counter fleet config fleet-Dependable 5 waiting simulator 20
      (omega arith) waiting-IsPlanned (served, tt)

abbrev transport_setting : Setting ℕ
transport_setting = record {
  serializers = λ topic. some (λ v. ok (0 ∷ 7 ∷ []));
  accepts = λ f. true;
}

abbrev a_flight : Flight
a_flight = record {
  topic = rides_events;
  key = "r1";
  payload = 0 ∷ 7 ∷ [];
  stable_id = some "r1.1";
  corrupt = false;
}

abbrev in_air : KafkaTransport
in_air = record {
  acked = [];
  failed = [];
  corrupted = 0;
  manifest = some [];
  in_flight = a_flight ∷ [];
}

send_once : send transport_setting a_ride (start transport_setting (some [])).transport ≡ ok in_air
unfolding send
send_once = refl

abbrev landed : Exchange
landed = record {
  transport = record (callback true a_flight in_air) { in_flight = [] };
  reported = (a_flight, true) ∷ [];
  sends = a_flight ∷ [];
}

landed_once : Reachable transport_setting landed
landed_once =
    then_step
      (then_step with_manifest
        (sent (start transport_setting (some [])) a_ride in_air a_flight send_once refl))
      (delivered (record { transport = in_air; reported = []; sends = a_flight ∷ [] }) [] []
        a_flight true refl)

Reachable-IsHonest_example : IsHonest landed
Reachable-IsHonest_example = Reachable-IsHonest transport_setting landed landed_once
