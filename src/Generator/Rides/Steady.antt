-- ===== src/Generator/Rides/Steady.antt =====
-- A tick returns, and leaves the simulator as fit for the next one.
use stream_pipeline.Prelude.Dict.{Dict, IsDict, Fresh}
use stream_pipeline.Prelude.{
  ℕ, ◌^◌, ◌<◌, ◌≡◌, refl, sym, subst, ◌∙◌, Bool, true, false, String, Option, none, some, List, [],
  ◌∷◌, All, All-map, Returns, Ensures-ok, if◌then◌else◌, text_key, arith,
}
use stream_pipeline.Common.Floats.{Floats}
use stream_pipeline.Generator.StateMachine.{
  RideEventType, requested, matched, driver_arrived, started, completed, cancelled,
}
use stream_pipeline.Generator.Random.{Random}
use stream_pipeline.Generator.Config.{GeneratorConfig}
use stream_pipeline.Generator.Events.{SourceEvent}
use stream_pipeline.Generator.Fleet.{Fleet, Fact, sound, Dependable}
use stream_pipeline.Generator.Rides.{ActiveRide, Sim}
use stream_pipeline.Generator.Rides.Firing.{fire_due, due_payments}
use stream_pipeline.Generator.Rides.Moves.{KnowsOf-kept}
use stream_pipeline.Generator.Rides.Progress.{left, fire_due-IsRound}
use stream_pipeline.Generator.Rides.Identity.{Ended, fire_due-ride_id}
use stream_pipeline.Generator.Rides.Creation.{RideBook, rate_per_tick}
use stream_pipeline.Generator.Rides.Spawning.{IsActive, AllServed, Spends, spawn-Returns}
use stream_pipeline.Generator.Rides.Ticks.{Progress, progress_all, progress, on_tick}
use stream_pipeline.Generator.Rides.Deletions.{
  Has-head, Marks, Marks-cons, Fresh-Marks, delete_all-Returns,
}

left-lt : (state : Option RideEventType) → left state < 6
left-lt none = omega arith
left-lt (some requested) = omega arith
left-lt (some matched) = omega arith
left-lt (some driver_arrived) = omega arith
left-lt (some started) = omega arith
left-lt (some completed) = omega arith
left-lt (some cancelled) = omega arith

module _ (fl : Floats) (r : Random fl) (fleet : Fleet fl) (cfg : GeneratorConfig fl.Float)
    (d : Dependable fl fleet) where
  open fl use {Float, lt, lit, add, to_int}

  abbrev Active : fleet.State → String × ActiveRide Float → Type 0
  Active s e = IsActive fl r fleet cfg d s e

  Active-kept :
      (s s' : fleet.State)
      → ((x : Fact) → d.Holds s x → d.Holds s' x)
      → (e : String × ActiveRide Float) → Active s e
      → Active s' e
  Active-kept s s' keep (id, ride) (same, planned, serves, knows) =
      (same, planned, serves, KnowsOf-kept fl r fleet cfg d s s' ride.driver_id keep knows)

  -- The loop over the active rides keeps their keys, and marks some of them as done.
  abbrev Progressed :
      Dict String (ActiveRide Float) → Sim fl r fleet cfg → Progress fl r fleet cfg → Type 0
  Progressed rides sim p =
      ((k : String) → Fresh k rides → Fresh k p.rides)
      × IsDict p.rides
      × All (Active p.sim.fleet) p.rides
      × Marks p.done p.rides
      × ((x : Fact) → d.Holds sim.fleet x → d.Holds p.sim.fleet x)

  progress_all-Returns :
      (rides : Dict String (ActiveRide Float)) (sim : Sim fl r fleet cfg) (now_ms : ℕ)
      → IsDict rides
      → All (Active sim.fleet) rides
      → Returns (Progressed rides sim) (progress_all fl r fleet cfg rides sim now_ms)
  unfolding progress_all
  progress_all-Returns [] sim now_ms unique active = (_, refl, (λ k h. h, tt, tt, tt, λ x h. h))
  progress_all-Returns ((id, ride) ∷ rest) sim now_ms (fresh, unique) (one, active) =
      let (same, planned, serves, known) = one in
      let (x, e, (ends, planned', staff', keep)) =
        fire_due-IsRound fl r fleet cfg d 6 ride sim now_ms (left-lt ride.machine.state) planned
          (serves, known) in
      let (ended, (ride', sim')) = x.1 in
      let id_same : ride'.ride_id ≡ id =
        Ensures-ok (Ended fl r fleet cfg ride.ride_id) (fire_due fl r fleet cfg 6 ride sim now_ms) e
          (fire_due-ride_id fl r fleet cfg 6 ride sim now_ms)
        ∙ same in
      let (p, e', (fresh_kept, unique', active', marked, keep')) =
        progress_all-Returns rest sim' now_ms unique
          (All-map rest (Active-kept sim.fleet sim'.fleet keep) active) in
      let mine : Active p.sim.fleet (id, ride') =
        Active-kept sim'.fleet p.sim.fleet keep' (id, ride')
          (id_same, planned', staff'.0, staff'.1) in
      rw (progress_all, e, e')
        (
          _,
          refl,
          (
            λ k h. (h.0, fresh_kept k h.1),
            (fresh_kept id fresh, unique'),
            (mine, active'),
            marks id ride' p.rides p.done ride'.ride_id id_same ended (fresh_kept id fresh) marked,
            λ y h. keep' y (keep y h),
          ),
        )
    where
      marks :
          (k : String) (v : ActiveRide Float) (rides : Dict String (ActiveRide Float))
          (ids : List String) (own : String)
          → own ≡ k
          → (ended : Bool) → Fresh k rides
          → Marks ids rides
          → Marks (if ended then own ∷ ids else ids) ((k, v) ∷ rides)
      marks k v rides ids own same false fresh m = Marks-cons k v rides ids m
      marks k v rides ids own same true fresh m =
          subst (λ i. Marks (i ∷ ids) ((k, v) ∷ rides)) (sym same)
            (Has-head k v rides, Fresh-Marks k rides ids fresh m, Marks-cons k v rides ids m)

  progress-Returns :
      (book : RideBook Float) (sim : Sim fl r fleet cfg) (now_ms : ℕ)
      → IsDict book.active
      → All (Active sim.fleet) book.active
      → Returns
          (λ (x : List (SourceEvent Float) × RideBook Float × Sim fl r fleet cfg).
            IsDict x.1.active
            × All (Active x.2.fleet) x.1.active
            × ((y : Fact) → d.Holds sim.fleet y → d.Holds x.2.fleet y)
            × (x.1.spawn_carry ≡ book.spawn_carry))
          (progress fl r fleet cfg book sim now_ms)
  unfolding progress
  progress-Returns book sim now_ms unique active =
      let (p, e, (fresh, unique', active', marked, keep)) =
        progress_all-Returns book.active sim now_ms unique active in
      let (left, e', (unique'', active'')) =
        delete_all-Returns (Active p.sim.fleet) p.done p.rides marked unique' active' in
      rw (progress, e, e') (_, refl, (unique'', active'', keep, refl))

  -- What every tick finds and leaves: the active rides stand under their identifiers, each once,
  -- with a legal next event, a served city and a known driver; the drivers are fit to move; and
  -- the carry is below one ride.
  abbrev pub IsSteady : RideBook Float → Sim fl r fleet cfg → Type 0
  IsSteady book sim =
      IsDict book.active
      × All (IsActive fl r fleet cfg d sim.fleet) book.active
      × d.Holds sim.fleet sound
      × (lt book.spawn_carry (lit 10 1) ≡ true)

  -- A tick of the simulator returns: none of its loops goes on for ever, no event is refused by a
  -- machine, no driver, city or ride is missing where it is looked up, and the simulator is as fit
  -- for the next tick. It is assumed that to take one from a float of at least one lowers its whole
  -- part, that a tick's rate does not take the carry out of the range in which this is so, and that
  -- the fleet is dependable and serves the cities of the table.
  pub on_tick-IsSteady :
      (book : RideBook Float) (sim : Sim fl r fleet cfg) (now_ms : ℕ)
      → Spends fl r fleet cfg d
      → AllServed fl r fleet cfg d
      → ((x : Float)
          → lt x (lit 10 1) ≡ true
          → to_int (add x (rate_per_tick fl r fleet cfg now_ms)) < 2 ^ 53)
      → IsSteady book sim
      → Returns
          (λ (x : List (SourceEvent Float) × RideBook Float × Sim fl r fleet cfg). IsSteady x.1 x.2)
          (on_tick fl r fleet cfg book sim now_ms)
  unfolding on_tick due_payments
  on_tick-IsSteady book sim now_ms spends served modest (unique, active, fit, carry) =
      let (pings, fleet', e, keep) = d.ticks now_ms sim.fleet fit in
      let sim' = record sim { fleet = fleet' } in
      let (made, e', (unique', active', same, carry')) =
        spawn-Returns fl r fleet cfg d book sim' now_ms spends served
          (modest book.spawn_carry carry) unique
          (All-map book.active (Active-kept sim.fleet fleet' keep) active) in
      let (moved, e'', (unique'', active'', keep', carry'')) =
        progress-Returns made.1 made.2 now_ms unique' active' in
      rw (on_tick, e, e', e'')
        (
          _,
          refl,
          (
            unique'',
            active'',
            keep' sound (subst (λ s. d.Holds s sound) (sym same) (keep sound fit)),
            subst (λ c. lt c (lit 10 1) ≡ true) (sym carry'') carry',
          ),
        )
