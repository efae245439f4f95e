-- ===== src/Observability/LagExporter.antt =====
-- src/observability/lag_exporter.py: the lag of each group in each partition.
pub mod Lags
use Prim.Native.String.{compare}
use Prim.Native.Nat.{Ordering}
use stream_pipeline.Prelude.Dict
use stream_pipeline.Prelude.Dict.{Dict}
use stream_pipeline.Prelude.{
  ℕ, ◌+◌, ◌-◌, String, Bool, true, false, Option, none, some, List, [], ◌∷◌, ◌++◌, leb,
  if◌then◌else◌, text_key, nat_key, pair_key,
}

pub record LagSample : Type 0 where
  pub group : String
  pub topic : String
  pub partition : ℕ
  pub lag : ℕ

abbrev pub Place : Type 0
Place = String × ℕ

-- `{key: value for key, value in pairs}`
unfoldable pub put_all : {V : Type 0} → Dict Place V → List (Place × V) → Dict Place V
put_all shaped [] = shaped
put_all shaped ((place, v) ∷ rest) = put_all (Dict.put place v shaped) rest

-- What `committed` reports of a partition is `none` where it is a negative sentinel.
unfoldable pub committed_next_from_broker : List (Place × Option ℕ) → Dict Place (Option ℕ)
unfolding put_all
committed_next_from_broker offsets = put_all [] offsets

-- `(key, stored + 1)` for the rows
unfoldable pub next_of : List (Place × ℕ) → List (Place × Option ℕ)
next_of [] = []
next_of ((place, stored) ∷ rows) = (place, some (stored + 1)) ∷ next_of rows

unfoldable pub committed_next_from_pg : List (Place × ℕ) → Dict Place (Option ℕ)
unfolding put_all next_of
committed_next_from_pg rows = put_all [] (next_of rows)

-- The order of `sorted` on pairs of a text and a number.
abbrev pub place_le : Place → Place → Bool
place_le p q = elim (compare p.0 q.0) [
  | Ordering.lt ↦ true
  | Ordering.gt ↦ false
  | Ordering.eq ↦ leb p.1 q.1
]

unfoldable pub insert_place : Place × ℕ → List (Place × ℕ) → List (Place × ℕ)
insert_place e [] = e ∷ []
insert_place e (x ∷ xs) =
    let rest = insert_place e xs in if place_le e.0 x.0 then e ∷ x ∷ xs else x ∷ rest

-- `sorted(end_offsets.items())`
unfoldable pub sorted_items : Dict Place ℕ → List (Place × ℕ)
unfolding insert_place
sorted_items [] = []
sorted_items (e ∷ d) = insert_place e (sorted_items d)

-- The sample of one partition: none where nothing is committed. `max(end - next, 0)` is the
-- difference of two numbers.
abbrev pub sample_of : String → Place → ℕ → Option (Option ℕ) → List LagSample
sample_of group place end (some (some next)) =
    (record { group = group; topic = place.0; partition = place.1; lag = end - next }) ∷ []
sample_of group place end _ = []

unfoldable pub samples_of : String → Dict Place (Option ℕ) → List (Place × ℕ) → List LagSample
samples_of group committed_next [] = []
samples_of group committed_next ((place, end) ∷ rest) =
    sample_of group place end (Dict.get place committed_next)
    ++ samples_of group committed_next rest

unfoldable pub compute_lags : String → Dict Place ℕ → Dict Place (Option ℕ) → List LagSample
unfolding samples_of sorted_items
compute_lags group end_offsets committed_next =
    samples_of group committed_next (sorted_items end_offsets)

abbrev pub pg_group : String
pg_group = "pg-sink"

-- `collect`, over what the probe, the broker's groups and Postgres report.
unfoldable pub collect :
    Dict Place ℕ → List (String × List (Place × Option ℕ)) → List (Place × ℕ) → List LagSample
unfolding compute_lags committed_next_from_broker committed_next_from_pg
collect ends [] pg_rows = compute_lags pg_group ends (committed_next_from_pg pg_rows)
collect ends ((group, committed) ∷ groups) pg_rows =
    compute_lags group ends (committed_next_from_broker committed) ++ collect ends groups pg_rows
