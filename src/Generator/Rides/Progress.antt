-- ===== src/Generator/Rides/Progress.antt =====
-- The loop of `_progress` over the due events of one ride ends.
use stream_pipeline.Prelude.{
  Returns, ℕ, zero, suc, ◌≡◌, ◌<◌, refl, sym, subst, ◌⊎◌, inl, inr, Bool, true, false, Bool-cases,
  Option, none, some, List, [], ◌∷◌, Option-cases, arith,
}
use stream_pipeline.Common.Floats.{Floats}
use stream_pipeline.Generator.StateMachine.{
  RideEventType, RideStateMachine, requested, matched, driver_arrived, started, completed,
  cancelled, contains, legal_next,
}
use stream_pipeline.Generator.Random.{Random}
use stream_pipeline.Generator.Config.{GeneratorConfig}
use stream_pipeline.Generator.Events.{SourceEvent}
use stream_pipeline.Generator.Fleet.{Fleet, Fact, Dependable}
use stream_pipeline.Generator.Rides.{ActiveRide, Sim, Moved, has_due_event}
use stream_pipeline.Generator.Rides.Firing.{is_done, fire_due}
use stream_pipeline.Generator.Rides.Legal.{fire-IsPlanned}
use stream_pipeline.Generator.Rides.Moves.{accepts, IsPlanned, IsStaffed}

-- How many events a ride in a state can still have.
abbrev pub left : Option RideEventType → ℕ
left none = 5
left (some requested) = 4
left (some matched) = 3
left (some driver_arrived) = 2
left (some started) = 1
left (some completed) = 0
left (some cancelled) = 0

left-legal_next :
    (m : RideStateMachine) (e : RideEventType)
    → contains e (legal_next m) ≡ true
    → left (some e) < left m.state
unfolding contains legal_next
left-legal_next m e h = ground (arith, h)

module _ (fl : Floats) (r : Random fl) (fleet : Fleet fl) (cfg : GeneratorConfig fl.Float)
    (d : Dependable fl fleet) where
  open fl use {Float}

  has_due_event-some :
      (ride : ActiveRide Float) (now_ms : ℕ)
      → has_due_event fl r fleet cfg ride now_ms ≡ true
      → (e : RideEventType) × (ride.next_event ≡ some e)
  unfolding has_due_event
  has_due_event-some ride now_ms h = elim (Option-cases ride.next_event) [
    | inl e ↦ ground (arith, h, e)
    | inr s ↦ s
  ]

  -- What the loop leaves: the ride is done, or no event of it is due; and the next round finds it
  -- as this one did.
  abbrev pub IsRound :
      ℕ → Sim fl r fleet cfg → List (SourceEvent Float) × (Bool × Moved fl r fleet cfg) → Type 0
  IsRound now_ms sim (events, (done, (ride, sim'))) =
      ((done ≡ true) × (is_done fl r fleet cfg ride ≡ true)
        ⊎ (done ≡ false) × (has_due_event fl r fleet cfg ride now_ms ≡ false))
      × IsPlanned ride
      × IsStaffed fl r fleet cfg d ride sim'
      × ((x : Fact) → d.Holds sim.fleet x → d.Holds sim'.fleet x)

  -- The loop over the due events of a ride ends, whatever is drawn, and raises nothing: with fuel
  -- for the events that the state of the ride leaves, at most four after the request, it stops
  -- with the ride done or with no event due, and keeps the plan legal and the staff known.
  pub fire_due-IsRound :
      (fuel : ℕ) (ride : ActiveRide Float) (sim : Sim fl r fleet cfg) (now_ms : ℕ)
      → left ride.machine.state < fuel
      → IsPlanned ride
      → IsStaffed fl r fleet cfg d ride sim
      → Returns (IsRound now_ms sim) (fire_due fl r fleet cfg fuel ride sim now_ms)
  unfolding fire_due
  fire_due-IsRound zero ride sim now_ms lt planned staff = absurd (omega (arith, lt))
  fire_due-IsRound (suc fuel) ride sim now_ms lt planned staff =
      elim (Bool-cases (has_due_event fl r fleet cfg ride now_ms)) [
        | inr a ↦
            rw (fire_due, a)
              (([], (false, (ride, sim))), refl, (inr (refl, a), planned, staff, λ x k. k))
        | inl a ↦
            let (e, next) = has_due_event-some ride now_ms a in
            let fewer : left (some e) < left ride.machine.state =
              left-legal_next ride.machine e
                (subst (λ x. accepts ride.machine x ≡ true) next planned) in
            let (x, fired, (event, (machine, planned', staff', keep))) =
              fire-IsPlanned fl r fleet cfg d ride sim e next planned staff in
            elim (Bool-cases (is_done fl r fleet cfg x.1.0)) [
              | inl b ↦
                  rw (fire_due, a, fired, b)
                    ((x.0 ∷ [], (true, x.1)), refl, (inl (refl, b), planned', staff', keep))
              | inr b ↦
                  let small : left x.1.0.machine.state < fuel =
                    subst (λ m. left m.state < fuel) (sym machine) (omega (arith, fewer, lt)) in
                  let (y, again, (end, planned'', staff'', keep')) =
                    fire_due-IsRound fuel x.1.0 x.1.1 now_ms small planned' staff' in
                  rw (fire_due, a, fired, b, again)
                    ((x.0 ∷ y.0, y.1), refl, (end, planned'', staff'', λ z k. keep' z (keep z k)))
            ]
      ]
