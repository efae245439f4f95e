-- ===== src/Generator/Imperfections.antt =====
-- src/generator/imperfections.py: `Imperfector`, over the draws of its random state.
pub mod Fates
use stream_pipeline.Prelude.{
  ℕ, suc, zero, ◌+◌, ◌*◌, ℤ, pos, negsuc, String, Bool, true, false, not, ◌&&◌, Option, none, some,
  List, [], ◌∷◌, ◌++◌, map, select, leb, ltb, str_eq, if◌then◌else◌, length,
}
use stream_pipeline.Common.Floats.{Floats}
use stream_pipeline.Common.Events.{RideEvent}
use stream_pipeline.Common.Topics.{rides_events, payments_transactions}
use stream_pipeline.Generator.Random.{Random}
use stream_pipeline.Generator.Config.{GeneratorConfig}
use stream_pipeline.Generator.Events.{SourceEvent, Value, ride, payment, location}

pub record Stats : Type 0 where
  pub duplicate : ℕ
  pub out_of_order : ℕ
  pub late : ℕ
  pub malformed : ℕ
  pub null_field : ℕ
  pub bad_data : ℕ
  pub clean : ℕ

pub record Imperfector (F S : Type 0) : Type 0 where
  pub rng : S
  pub held : List (ℕ × SourceEvent F)
  pub stats : Stats

-- `-abs(n)`
abbrev pub neg_abs : ℤ → ℤ
neg_abs (pos zero) = pos zero
neg_abs (pos (suc n)) = negsuc n
neg_abs (negsuc n) = negsuc n

abbrev pub spoil_fare : Option ℤ → Option ℤ
spoil_fare none = none
spoil_fare (some n) = some (neg_abs n)

abbrev pub corrupted : {F : Type 0} → SourceEvent F → SourceEvent F
corrupted event = record event { corrupt = true }

module _ (fl : Floats) (r : Random fl) (cfg : GeneratorConfig fl.Float) where
  open fl use {Float, of_int, lit, add, mul, lt, to_int}

  -- the value with its drop-off removed
  abbrev pub null_dropoff : Value Float → Value Float
  null_dropoff (ride v) = ride (record v { dropoff_lat = none; dropoff_lon = none })
  null_dropoff other = other

  abbrev pub is_requested : Value Float → Bool
  is_requested (ride v) = str_eq v.event_type "requested"
  is_requested _ = false

  abbrev pub spoiled : Value Float → Value Float
  spoiled (ride v) = ride (record v {
    pickup_lat = lit 999 1;
    pickup_lon = lit 1999 1;
    fare_cents = spoil_fare v.fare_cents;
  })
  spoiled other = other

  -- `_maybe_null_fields`: only a requested event draws
  unfoldable pub maybe_null_fields :
      Imperfector Float r.State → SourceEvent Float → SourceEvent Float × Imperfector Float r.State
  maybe_null_fields m event =
      let (roll, rng) = r.random m.rng in
      if is_requested event.value
      then (if lt roll cfg.null_field_rate
          then (
            record event { value = null_dropoff event.value },
            record m {
              rng = rng;
              stats = record (m.stats) { null_field = m.stats.null_field + 1 };
            },
          )
          else (event, record m { rng = rng }))
      else (event, m)

  unfoldable pub maybe_bad_data :
      Imperfector Float r.State → SourceEvent Float → SourceEvent Float × Imperfector Float r.State
  maybe_bad_data m event =
      let (roll, rng) = r.random m.rng in
      if lt roll cfg.bad_data_rate
      then (
        record event { value = spoiled event.value },
        record m { rng = rng; stats = record (m.stats) { bad_data = m.stats.bad_data + 1 } },
      )
      else (event, record m { rng = rng })

  unfoldable pub maybe_corrupt_only :
      Imperfector Float r.State → SourceEvent Float → SourceEvent Float × Imperfector Float r.State
  maybe_corrupt_only m event =
      let (roll, rng) = r.random m.rng in
      if lt roll cfg.malformed_rate
      then (
        corrupted event,
        record m { rng = rng; stats = record (m.stats) { malformed = m.stats.malformed + 1 } },
      )
      else (event, record m { rng = rng })

  -- `int(self._rng.uniform(low, high) * 1000)`
  abbrev pub delay_ms : Float → Float → r.State → ℕ × r.State
  delay_ms low high rng =
      let (sec, rng') = r.uniform low high rng in (to_int (mul sec (of_int 1000)), rng')

  -- an event that is held back until `now_ms + delay`
  abbrev pub hold :
      Imperfector Float r.State
      → SourceEvent Float
      → ℕ
      → ℕ × r.State
      → Stats
      → Imperfector Float r.State
  hold m event now_ms (delay, rng) stats = record {
    rng = rng;
    held = m.held ++ (now_ms + delay, event) ∷ [];
    stats = stats;
  }

  -- the upper ends of the buckets
  abbrev pub to_dup : Float
  to_dup = add cfg.malformed_rate cfg.dup_rate

  abbrev pub to_ooo : Float
  to_ooo = add to_dup cfg.ooo_rate

  abbrev pub to_late : Float
  to_late = add to_ooo cfg.late_rate

  -- the buckets of `process`, for a roll and the state after it
  unfoldable pub bucket :
      Imperfector Float r.State
      → SourceEvent Float
      → ℕ
      → Float
      → List (SourceEvent Float) × Imperfector Float r.State
  bucket m event now_ms roll =
      if lt roll cfg.malformed_rate
      then (
        corrupted event ∷ [],
        record m { stats = record (m.stats) { malformed = m.stats.malformed + 1 } },
      )
      else (if lt roll to_dup
          then (
            event ∷ [],
            hold m event now_ms (delay_ms (of_int 1) (of_int 10) m.rng)
                (record (m.stats) { duplicate = m.stats.duplicate + 1 }),
          )
          else (if lt roll to_ooo
              then (
                [],
                hold m event now_ms (delay_ms (of_int 1) cfg.ooo_max_skew_sec m.rng)
                    (record (m.stats) { out_of_order = m.stats.out_of_order + 1 }),
              )
              else (if lt roll to_late
                  then (
                    [],
                    hold m event now_ms
                        (delay_ms (add cfg.ooo_max_skew_sec (of_int 1)) cfg.late_max_sec m.rng)
                        (record (m.stats) { late = m.stats.late + 1 }),
                  )
                  else (
                    event ∷ [],
                    record m { stats = record (m.stats) { clean = m.stats.clean + 1 } },
                  ))))

  -- the two changes of a value, in order
  unfoldable pub altered :
      Imperfector Float r.State → SourceEvent Float → SourceEvent Float × Imperfector Float r.State
  unfolding maybe_null_fields maybe_bad_data
  altered m event = let (e, m') = maybe_null_fields m event in maybe_bad_data m' e

  unfoldable pub process :
      Imperfector Float r.State
      → SourceEvent Float
      → ℕ
      → List (SourceEvent Float) × Imperfector Float r.State
  unfolding maybe_corrupt_only altered bucket
  process m event now_ms =
      if str_eq event.topic payments_transactions
      then (let (e, m') = maybe_corrupt_only m event in (e ∷ [], m'))
      else (if not (str_eq event.topic rides_events)
          then (event ∷ [], m)
          else (let (e, m') = altered m event in
              let (roll, rng) = r.random m'.rng in bucket (record m' { rng = rng }) e now_ms roll))

-- `release_due`
abbrev pub is_due : {F : Type 0} → ℕ → ℕ × SourceEvent F → Bool
is_due now_ms (at_ms, event) = leb at_ms now_ms

unfoldable pub release_due :
    {F S : Type 0} → Imperfector F S → ℕ → List (SourceEvent F) × Imperfector F S
release_due m now_ms = (
  map (λ e. e.1) (select (is_due now_ms) m.held),
  record m { held = select (λ e. not (is_due now_ms e)) m.held },
)

unfoldable pub pending : {F S : Type 0} → Imperfector F S → ℕ
pending m = length m.held
