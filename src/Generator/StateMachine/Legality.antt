-- ===== src/Generator/StateMachine/Legality.antt =====
-- What `advance`, `legal_next` and `is_terminal` say of one another.
use stream_pipeline.Prelude.{
  String, ◌≡◌, refl, ◌↔◌, true, some, [], ok, raise, illegal_transition, arith, dec_text,
  if◌then◌else◌,
}
use stream_pipeline.Generator.StateMachine.{
  RideEventType, requested, matched, driver_arrived, started, completed, cancelled,
  RideStateMachine, contains, advance, legal_next, is_terminal, value, ride_event_type,
}

-- From any state `advance` moves to exactly the events that `legal_next` lists, and raises
-- IllegalTransitionError on every other.
pub advance-legal_next :
    (m : RideStateMachine) (e : RideEventType)
    → advance m e ≡ (
        if contains e (legal_next m)
        then ok (record { state = some e })
        else raise illegal_transition)
unfolding advance legal_next contains
advance-legal_next m e = ground arith

-- A machine has no legal next event exactly when it is terminal.
pub legal_next-is_terminal : (m : RideStateMachine) → (legal_next m ≡ []) ↔ (is_terminal m ≡ true)
unfolding legal_next is_terminal
legal_next-is_terminal m = ground arith

-- The text of every event type is read back as that type.
pub ride_event_type-value : (k : RideEventType) → ride_event_type (value k) ≡ ok k
unfolding ride_event_type value dec_text
ride_event_type-value requested = refl
ride_event_type-value matched = refl
ride_event_type-value driver_arrived = refl
ride_event_type-value started = refl
ride_event_type-value completed = refl
ride_event_type-value cancelled = refl

-- Only the text of an event type is read as that type.
pub value_of_ride_event_type :
    (s : String) (k : RideEventType) → ride_event_type s ≡ ok k → s ≡ value k
unfolding ride_event_type value
value_of_ride_event_type s k h = ground arith
