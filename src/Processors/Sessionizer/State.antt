-- ===== src/Processors/Sessionizer/State.antt =====
-- The state of the sessionizer (`Sessionizer.__init__`), and what the broker keeps for it.
use stream_pipeline.Prelude.Dict.{Dict}
use stream_pipeline.Prelude.{ℕ, String, Option, none, List, []}
use stream_pipeline.Common.Events.{RideEvent}
use stream_pipeline.Dlq.Envelope.{Bytes, Envelope}
use stream_pipeline.Processors.SessionBuilder.{RideAccumulator, Session}
use stream_pipeline.Processors.StateStore.{StateStore}

-- `_PartitionState`; `none` is the maximal offset -1 of a batch that has none yet.
pub record PartitionState : Type 0 where
  pub watermark_ms : ℕ
  pub max_offset_in_batch : Option ℕ

abbrev pub new_partition : PartitionState
new_partition = record { watermark_ms = 0; max_offset_in_batch = none }

pub record Sessionizer (F : Type 0) : Type 0 where
  pub store : StateStore F
  pub accs : Dict String (RideAccumulator F)
  pub acc_partition : Dict String ℕ
  pub partitions : Dict ℕ PartitionState
  pub sessions_emitted : ℕ
  pub poison_seen : ℕ

-- A process that has just started over the store that it finds.
abbrev pub start : {F : Type 0} → StateStore F → Sessionizer F
start store = record {
  store = store;
  accs = [];
  acc_partition = [];
  partitions = [];
  sessions_emitted = 0;
  poison_seen = 0;
}

-- What is produced, before the serialisers: they are external, and may raise.
pub data Payload (F : Type 0) : Type 0 where
  session : Session F → Payload F
  clean : RideEvent F ℕ → Payload F
  letter : Envelope → Payload F

pub data Key : Type 0 where
  text : String → Key
  bytes : Option Bytes → Key

pub record Produced (F : Type 0) : Type 0 where
  pub topic : String
  pub key : Key
  pub payload : Payload F

-- The broker: what a `read_committed` consumer sees of the topics that the sessionizer produces
-- to, in order, and the committed offset (the next to consume) of each partition of its input.
pub record Broker (F : Type 0) : Type 0 where
  pub log : List (Produced F)
  pub committed : Dict ℕ ℕ
