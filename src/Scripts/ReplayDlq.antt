-- ===== src/Scripts/ReplayDlq.antt =====
-- scripts/replay_dlq.py: the replay of dead letters, and the corruption of generator/producer.py
-- that its repair undoes.
pub mod Replays
pub mod Drain
use stream_pipeline.Prelude.{
  ℕ, zero, suc, ◌+◌, String, Bool, true, false, not, Option, none, some, List, [], ◌∷◌, ◌++◌,
  Result, ok, ◌>>=◌, if◌then◌else◌, get_or,
}
use stream_pipeline.Dlq.Envelope
use stream_pipeline.Dlq.Envelope.{Bytes, Envelope}

-- `payload[1:]`
abbrev pub drop_first : Bytes → Bytes
drop_first [] = []
drop_first (b ∷ bytes) = bytes

unfoldable pub repair_magic_byte : Bytes → Bytes
repair_magic_byte [] = []
repair_magic_byte (b ∷ bytes) = 0 ∷ bytes

abbrev pub corrupt_first_byte : ℕ
corrupt_first_byte = 255

-- `corrupt_payload` of generator/producer.py
unfoldable pub corrupt_payload : Bytes → Bytes
corrupt_payload payload = corrupt_first_byte ∷ drop_first payload

pub record ReplayStats : Type 0 where
  pub seen : ℕ
  pub filtered_out : ℕ
  pub replayed : ℕ
  pub dry_run : Bool

abbrev pub new_stats : Bool → ReplayStats
new_stats dry_run = record { seen = 0; filtered_out = 0; replayed = 0; dry_run = dry_run }

-- topic, key, payload
abbrev pub Record : Type 0
Record = String × (Option Bytes × Bytes)

abbrev pub selected : Option (Envelope → Bool) → Envelope → Bool
selected none e = true
selected (some predicate) e = predicate e

abbrev pub transformed : Option (Bytes → Bytes) → Bytes → Bytes
transformed none payload = payload
transformed (some transform) payload = transform payload

-- The operator's predicate and transform, and whether the run is dry.
pub record Options : Type 0 where
  pub predicate : Option (Envelope → Bool)
  pub transform : Option (Bytes → Bytes)
  pub dry_run : Bool

-- the part of the loop's body after the filter, with what `produce` was called with so far
unfoldable pub resend :
    Options → Envelope → ReplayStats → List Record → Result (ReplayStats × List Record)
resend o e stats produced = Envelope.payload e >>= λ bytes.
    let counted = record stats { replayed = stats.replayed + 1 } in
    if o.dry_run
    then ok (counted, produced)
    else (Envelope.key e >>= λ key.
        ok (counted, produced ++ (e.source_topic, (key, transformed o.transform bytes)) ∷ []))

unfoldable pub replay_from :
    Options → List Envelope → ReplayStats → List Record → Result (ReplayStats × List Record)
unfolding resend
replay_from o [] stats produced = ok (stats, produced)
replay_from o (e ∷ es) stats produced =
    let counted = record stats { seen = stats.seen + 1 } in
    let filtered =
      replay_from o es (record counted { filtered_out = stats.filtered_out + 1 }) produced in
    if selected o.predicate e
    then (resend o e counted produced >>= λ r. replay_from o es r.0 r.1)
    else filtered

unfoldable pub replay : Options → List Envelope → Result (ReplayStats × List Record)
unfolding replay_from
replay o envelopes = replay_from o envelopes (new_stats o.dry_run) []
