-- ===== src/Common/Times.antt =====
-- src/common/times.py: timestamps at the boundary to the serialisers.
use stream_pipeline.Prelude.{ℕ, ◌/◌, Option, none, some}

-- What a deserialiser yields for a timestamp: a `datetime`, here its microseconds since the epoch,
-- or an `int` of epoch milliseconds.
pub data Timestamp : Type 0 where
  datetime : ℕ → Timestamp
  millis : ℕ → Timestamp

-- `int(value.timestamp() * 1000)` drops the part of a millisecond.
unfoldable pub to_epoch_ms : Timestamp → ℕ
to_epoch_ms (datetime us) = us / 1000
to_epoch_ms (millis ms) = ms

unfoldable pub to_epoch_ms_opt : Option Timestamp → Option ℕ
unfolding to_epoch_ms
to_epoch_ms_opt none = none
to_epoch_ms_opt (some value) = some (to_epoch_ms value)
