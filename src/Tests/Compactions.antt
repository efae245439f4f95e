-- ===== src/Tests/Compactions.antt =====
-- A compaction of a lake with a file for each row.
use mathlib.Core.List.{Perm}
use mathlib.Core.List.Perm
use stream_pipeline.Prelude.{
  ℕ, ◌*◌, Bool, false, not, List, [], ◌∷◌, ◌++◌, map, select, ok, ◌&&◌, leb, ltb, ◌==◌, refl, subst,
  ok-injective,
}
use stream_pipeline.Scripts.CompactIceberg.{DayFilter, Lakehouse, compact}
use stream_pipeline.Scripts.CompactIceberg.Compactions.{IsLake, IsCompaction, compact-IsCompaction}

-- the day and the city of a row
abbrev within : DayFilter → ℕ × ℕ → Bool
within f (day, city) =
    leb f.since_ms (day * 86400000) && (ltb (day * 86400000) f.until_ms && (city == f.city_id))

abbrev lake : Lakehouse (ℕ × ℕ)
lake = record {
  Table = List (ℕ × ℕ);
  inspect_files = map (λ row. record {
    event_day = row.0;
    city_id_part = row.1;
    file_size_in_bytes = 100;
    record_count = 1;
  });
  scan = λ f rows. select (within f) rows;
  overwrite = λ frame f rows. ok (select (λ x. not (within f x)) rows ++ frame);
}

abbrev lake-IsLake : IsLake lake
lake-IsLake = record {
  contents = λ rows. rows;
  matches = within;
  scans = λ f rows. refl;
  overwrites = λ frame f rows rows' h.
      subst (λ after. Perm after (select (λ x. not (within f x)) rows ++ frame)) (ok-injective h)
        (Perm.refl (select (λ x. not (within f x)) rows ++ frame));
}

abbrev rows : List (ℕ × ℕ)
rows = (1, 1) ∷ (2, 3) ∷ (1, 1) ∷ []

compact-IsCompaction_example :
    IsCompaction lake lake-IsLake 1 false rows (compact lake 1 false rows)
compact-IsCompaction_example = compact-IsCompaction lake lake-IsLake 1 false rows
