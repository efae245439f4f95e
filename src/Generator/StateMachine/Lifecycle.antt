-- ===== src/Generator/StateMachine/Lifecycle.antt =====
-- The sequences of events that the machine accepts.
use stream_pipeline.Prelude.{
  ℕ, suc, ◌≤◌, ◌<◌, ◌≡◌, refl, Bool, true, false, some, List, [], ◌∷◌, ◌++◌, map, ap, ◌∙◌,
  if◌then◌else◌, ok, arith, take, map-take, map-append, length,
}
use stream_pipeline.Generator.StateMachine.{
  RideEventType, requested, matched, driver_arrived, started, completed, cancelled,
  RideStateMachine, fresh, run, event_seq,
}

-- The lifecycle without a cancellation, after each event.
abbrev after : RideEventType → List RideEventType
after requested = matched ∷ driver_arrived ∷ started ∷ completed ∷ []
after matched = driver_arrived ∷ started ∷ completed ∷ []
after driver_arrived = started ∷ completed ∷ []
after started = completed ∷ []
after completed = []
after cancelled = []

abbrev ending : Bool → List RideEventType
ending true = cancelled ∷ []
ending false = []

-- `n` events of `path`, and then perhaps the cancellation of a ride that is not completed.
record Follows (path events : List RideEventType) : Type 0 where
  n : ℕ
  cut : Bool
  shape : events ≡ take n path ++ ending cut
  within : n ≤ length path
  open_end : cut ≡ true → n < length path

Follows-cons :
    (k : RideEventType) {path es : List RideEventType}
    → Follows path es
    → Follows (k ∷ path) (k ∷ es)
Follows-cons k f = record {
  n = suc f.n;
  cut = f.cut;
  shape = cc (f.shape);
  within = omega (arith, f.within);
  open_end = λ c. omega (arith, f.open_end c);
}

abbrev at : RideEventType → RideStateMachine
at k = record { state = some k }

Follows-nil : (path : List RideEventType) → Follows path []
Follows-nil path = record {
  n = 0;
  cut = false;
  shape = refl;
  within = omega arith;
  open_end = λ c. cc;
}

Follows-cancel :
    (k : RideEventType) (path es : List RideEventType) {m : RideStateMachine}
    → run (at cancelled) es ≡ ok m
    → Follows (k ∷ path) (cancelled ∷ es)
unfolding run
Follows-cancel k path [] h = record {
  n = 0;
  cut = true;
  shape = refl;
  within = omega arith;
  open_end = λ c. omega arith;
}
Follows-cancel k path (e ∷ es) h = cc

run_at-Follows :
    (es : List RideEventType) (k : RideEventType) {m : RideStateMachine}
    → run (at k) es ≡ ok m
    → Follows (after k) es
unfolding run
run_at-Follows [] k h = Follows-nil (after k)
run_at-Follows (matched ∷ es) requested h = Follows-cons matched (run_at-Follows es matched h)
run_at-Follows (driver_arrived ∷ es) matched h =
    Follows-cons driver_arrived (run_at-Follows es driver_arrived h)
run_at-Follows (started ∷ es) driver_arrived h = Follows-cons started (run_at-Follows es started h)
run_at-Follows (completed ∷ es) started h = Follows-cons completed (run_at-Follows es completed h)
run_at-Follows (cancelled ∷ es) requested h = Follows-cancel matched _ es h
run_at-Follows (cancelled ∷ es) matched h = Follows-cancel driver_arrived _ es h
run_at-Follows (cancelled ∷ es) driver_arrived h = Follows-cancel started _ es h
run_at-Follows (cancelled ∷ es) started h = Follows-cancel completed _ es h
run_at-Follows (e ∷ es) k h = absurd (ground arith)

-- The ordinals of the events of a ride.
abbrev pub ordinals : List RideEventType → List ℕ
ordinals = map event_seq

happy : List RideEventType
happy = requested ∷ after requested

-- The ordinals of a sequence that a fresh machine accepts.
abbrev pub IsLifecycle : List ℕ → Type 0
IsLifecycle ns =
    (n : ℕ) × (cut : Bool) × (ns ≡ take n (1 ∷ 2 ∷ 3 ∷ 4 ∷ 5 ∷ []) ++ (if cut then 6 ∷ [] else []))
    × (n ≤ 5)
    × (cut ≡ true → (1 ≤ n) × (n ≤ 4))

ordinals-take :
    (n : ℕ) (cut : Bool)
    → ordinals (take n happy ++ ending cut)
      ≡ take n (1 ∷ 2 ∷ 3 ∷ 4 ∷ 5 ∷ []) ++ (if cut then 6 ∷ [] else [])
unfolding happy event_seq
ordinals-take n true = rw (map-append, map-take)
ordinals-take n false = rw (map-append, map-take)

-- Whatever events a fresh machine accepts, their ordinals are the first n of 1, 2, 3, 4, 5, n at
-- most 5, and then perhaps 6 (cancelled), which needs n from 1 to 4: no event type twice, none
-- after a terminal one, and never both completed and cancelled.
pub run-IsLifecycle :
    (es : List RideEventType) {m : RideStateMachine}
    → run fresh es ≡ ok m
    → IsLifecycle (ordinals es)
unfolding run
run-IsLifecycle [] h = (0, false, refl, omega arith, λ c. cc)
run-IsLifecycle (requested ∷ es) h =
    let f = run_at-Follows es requested h in
    (
      suc f.n,
      f.cut,
      ap ordinals (ap (◌∷◌ requested) f.shape) ∙ unfold happy in ordinals-take (suc f.n) f.cut,
      omega (arith, f.within),
      λ c. omega (arith, f.open_end c),
    )
run-IsLifecycle (e ∷ es) h = absurd (ground arith)
