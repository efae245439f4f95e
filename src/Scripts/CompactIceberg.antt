-- ===== src/Scripts/CompactIceberg.antt =====
-- scripts/compact_iceberg.py: the compaction of the lake, partition by partition. A day is its
-- number since 1970, where the code goes through its ISO text.
pub mod Inventory
pub mod Compactions
use stream_pipeline.Prelude.Dict
use stream_pipeline.Prelude.Dict.{Dict}
use stream_pipeline.Prelude.Sort.{sorted}
use stream_pipeline.Prelude.{
  ℕ, ◌+◌, ◌*◌, String, Bool, true, false, not, Option, none, some, List, [], ◌∷◌, ◌++◌, map, select,
  length, get_or, Result, ok, raise, Error, runtime_error, ◌==◌, ltb, if◌then◌else◌, nat_key,
  pair_key,
}

-- event day and city
abbrev pub Partition : Type 0
Partition = ℕ × ℕ

-- a row of `table.inspect.files()`
pub record FileRow : Type 0 where
  pub event_day : ℕ
  pub city_id_part : ℕ
  pub file_size_in_bytes : ℕ
  pub record_count : ℕ

pub record Stats : Type 0 where
  pub files : ℕ
  pub bytes : ℕ
  pub rows : ℕ

abbrev pub no_stats : Stats
no_stats = record { files = 0; bytes = 0; rows = 0 }

unfoldable pub note_file : Dict Partition Stats → FileRow → Dict Partition Stats
note_file inventory row =
    let key : Partition = (row.event_day, row.city_id_part) in
    let s = get_or (Dict.get key inventory) no_stats in
    Dict.put key
      (record {
        files = s.files + 1;
        bytes = s.bytes + row.file_size_in_bytes;
        rows = s.rows + row.record_count;
      })
      inventory

abbrev pub noted_from : Dict Partition Stats → List FileRow → Dict Partition Stats
noted_from inventory [] = inventory
noted_from inventory (row ∷ rows) = noted_from (note_file inventory row) rows

unfoldable pub partition_inventory : List FileRow → Dict Partition Stats
unfolding note_file
partition_inventory files = noted_from [] files

-- `event_ts >= since and event_ts < until and city_id == city_id`
pub record DayFilter : Type 0 where
  pub since_ms : ℕ
  pub until_ms : ℕ
  pub city_id : ℕ

unfoldable pub day_filter : Partition → DayFilter
day_filter (day, city_id) = record {
  since_ms = day * 86400000;
  until_ms = (day + 1) * 86400000;
  city_id = city_id;
}

-- What is called of a PyIceberg table, and of the frames that it returns.
pub record Lakehouse (R : Type 0) : Type 1 where
  pub Table : Type 0
  pub inspect_files : Table → List FileRow
  pub scan : DayFilter → Table → List R
  -- an overwrite that raises has changed nothing
  pub overwrite : List R → DayFilter → Table → Result Table

pub data Detail : Type 0 where
  would_rewrite : Partition → Stats → Detail
  rewritten : Partition → Stats → Stats → Detail

pub record Summary : Type 0 where
  pub partitions_total : ℕ
  pub partitions_compacted : ℕ
  pub files_before_total : ℕ
  pub files_after_total : ℕ
  pub dry_run : Bool
  pub details : List Detail

-- What is left: the result and the table, or the table and the exception.
pub data Ended (A T : Type 0) : Type 0 where
  finished : A → T → Ended A T
  stopped : T → Error → Ended A T

abbrev pub is_rewritten : Detail → Bool
is_rewritten (would_rewrite p s) = false
is_rewritten (rewritten p s t) = true

abbrev pub files_total : Dict Partition Stats → ℕ
files_total [] = 0
files_total ((p, s) ∷ rest) = s.files + files_total rest

unfoldable pub candidates : ℕ → Dict Partition Stats → List (Partition × Stats)
candidates min_files inventory = select (λ e. ltb min_files e.1.files) inventory

-- `sorted(candidates.items())`: by day and then by city; no partition occurs twice
unfoldable pub in_order : List (Partition × Stats) → List (Partition × Stats)
in_order items = sorted (λ e. e.0.0) (sorted (λ e. e.0.1) items)

module _ {R : Type 0} (lake : Lakehouse R) where
  abbrev pub stats_at : Partition → lake.Table → Stats
  stats_at key table =
      get_or (Dict.get key (partition_inventory (lake.inspect_files table))) no_stats

  -- after the overwrite
  abbrev pub confirmed :
      Partition → Stats → Result lake.Table → lake.Table → Ended Detail lake.Table
  confirmed key stats (raise e) table = stopped table e
  confirmed key stats (ok table') table =
      let after_part = stats_at key table' in
      if after_part.rows == stats.rows
      then finished (rewritten key stats after_part) table'
      else stopped table' runtime_error

  -- the body of the loop, without a dry run
  unfoldable pub compact_one : Partition → Stats → lake.Table → Ended Detail lake.Table
  unfolding partition_inventory day_filter
  compact_one key stats table =
      let predicate = day_filter key in
      let frame = lake.scan predicate table in
      if length frame == stats.rows
      then confirmed key stats (lake.overwrite frame predicate table) table
      else stopped table runtime_error

  -- the rest of the loop, after a round
  abbrev pub then_all :
      (lake.Table → Ended (List Detail) lake.Table)
      → Ended Detail lake.Table
      → Ended (List Detail) lake.Table
  then_all next (stopped table e) = stopped table e
  then_all next (finished detail table) = with_detail detail (next table)
    where
      with_detail : Detail → Ended (List Detail) lake.Table → Ended (List Detail) lake.Table
      with_detail detail (stopped table e) = stopped table e
      with_detail detail (finished details table) = finished (detail ∷ details) table

  unfoldable pub compact_all :
      Bool → List (Partition × Stats) → lake.Table → Ended (List Detail) lake.Table
  unfolding compact_one
  compact_all dry_run [] table = finished [] table
  compact_all dry_run ((key, stats) ∷ rest) table =
      then_all (compact_all dry_run rest)
        (if dry_run then finished (would_rewrite key stats) table else compact_one key stats table)

  abbrev pub summarised :
      Bool → Dict Partition Stats → Ended (List Detail) lake.Table → Ended Summary lake.Table
  summarised dry_run before (stopped table e) = stopped table e
  summarised dry_run before (finished details table) =
      finished
        (record {
          partitions_total = length before;
          partitions_compacted = length (select is_rewritten details);
          files_before_total = files_total before;
          files_after_total = files_total (partition_inventory (lake.inspect_files table));
          dry_run = dry_run;
          details = details;
        })
        table

  unfoldable pub compact : ℕ → Bool → lake.Table → Ended Summary lake.Table
  unfolding candidates in_order compact_all partition_inventory
  compact min_files dry_run table =
      let before = partition_inventory (lake.inspect_files table) in
      summarised dry_run before (compact_all dry_run (in_order (candidates min_files before)) table)
