-- ===== src/Generator/StateMachine.antt =====
-- src/generator/state_machine.py: the lifecycle of a ride, `RideStateMachine` and its tables.
pub mod Legality
pub mod Lifecycle
use stream_pipeline.Prelude.{
  ℕ, String, ◌≡◌, Bool, true, false, Option, none, some, List, [], ◌∷◌, Result, ok, raise,
  value_error, illegal_transition, ◌>>=◌, ◌||◌, if◌then◌else◌, ite, dec_text,
}

pub data RideEventType : Type 0 where
  requested matched driver_arrived started completed cancelled : RideEventType

unfoldable pub value : RideEventType → String
value requested = "requested"
value matched = "matched"
value driver_arrived = "driver_arrived"
value started = "started"
value completed = "completed"
value cancelled = "cancelled"

-- `RideEventType(text)`
unfoldable pub ride_event_type : String → Result RideEventType
ride_event_type s = ite (dec_text s "requested") (ok requested) (
    ite (dec_text s "matched") (ok matched) (
      ite (dec_text s "driver_arrived") (ok driver_arrived) (
        ite (dec_text s "started") (ok started) (
          ite (dec_text s "completed") (ok completed)
            (ite (dec_text s "cancelled") (ok cancelled) (raise value_error))))))

-- `a is b` on the members of the enumeration
unfoldable pub is_kind : RideEventType → RideEventType → Bool
is_kind requested requested = true
is_kind matched matched = true
is_kind driver_arrived driver_arrived = true
is_kind started started = true
is_kind completed completed = true
is_kind cancelled cancelled = true
is_kind _ _ = false

-- `event in events`
unfoldable pub contains : RideEventType → List RideEventType → Bool
unfolding is_kind
contains a [] = false
contains a (b ∷ bs) = is_kind a b || contains a bs

abbrev pub terminal_states : List RideEventType
terminal_states = completed ∷ cancelled ∷ []

unfoldable pub legal_transitions : RideEventType → List RideEventType
legal_transitions requested = matched ∷ cancelled ∷ []
legal_transitions matched = driver_arrived ∷ cancelled ∷ []
legal_transitions driver_arrived = started ∷ cancelled ∷ []
legal_transitions started = completed ∷ cancelled ∷ []
legal_transitions completed = []
legal_transitions cancelled = []

unfoldable pub event_seq : RideEventType → ℕ
event_seq requested = 1
event_seq matched = 2
event_seq driver_arrived = 3
event_seq started = 4
event_seq completed = 5
event_seq cancelled = 6

pub record RideStateMachine : Type 0 where
  pub state : Option RideEventType

abbrev pub fresh : RideStateMachine
fresh = record { state = none }

advance_from : Option RideEventType → RideEventType → Result RideStateMachine
unfolding is_kind contains legal_transitions
advance_from none event =
    if is_kind event requested then ok (record { state = some event }) else raise illegal_transition
advance_from (some s) event =
    if contains event (legal_transitions s)
    then ok (record { state = some event })
    else raise illegal_transition

unfoldable pub advance : RideStateMachine → RideEventType → Result RideStateMachine
unfolding advance_from
advance m event = advance_from m.state event

terminal_kind : Option RideEventType → Bool
unfolding contains
terminal_kind none = false
terminal_kind (some s) = contains s terminal_states

unfoldable pub is_terminal : RideStateMachine → Bool
unfolding terminal_kind
is_terminal m = terminal_kind m.state

next_from : Option RideEventType → List RideEventType
unfolding legal_transitions
next_from none = requested ∷ []
next_from (some s) = legal_transitions s

unfoldable pub legal_next : RideStateMachine → List RideEventType
unfolding next_from
legal_next m = next_from m.state

-- A machine driven through a sequence of events, as the simulator drives one for each ride.
unfoldable pub run : RideStateMachine → List RideEventType → Result RideStateMachine
unfolding advance
run m [] = ok m
run m (e ∷ es) = advance m e >>= λ m'. run m' es
