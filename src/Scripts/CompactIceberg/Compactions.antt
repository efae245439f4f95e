-- ===== src/Scripts/CompactIceberg/Compactions.antt =====
-- A compaction loses no row of the lake, on any of its branches.
use mathlib.Core.List.{Perm, perm_middle}
use mathlib.Core.List.Perm
use stream_pipeline.Prelude.{
  ℕ, ◌<◌, ◌↔◌, sym, subst, In, ◌≡◌, refl, ap, ◌∙◌, Bool, true, false, not, Bool-cases, inl, inr,
  List, [], ◌∷◌, ◌++◌, map, select, length, All, Result, ok, raise, ◌==◌, arith,
}
use stream_pipeline.Scripts.CompactIceberg.{
  Partition, Stats, DayFilter, day_filter, Lakehouse, Detail, would_rewrite, rewritten, Summary,
  Ended, finished, stopped, candidates, in_order, partition_inventory, stats_at, confirmed,
  compact_one, then_all, compact_all, summarised, compact,
}
use stream_pipeline.Scripts.CompactIceberg.Inventory.{files_in, in_order-candidates}

select-Perm {ℓ} :
    {A : Type ℓ} (p : A → Bool) (xs : List A) → Perm (select (λ x. not (p x)) xs ++ select p xs) xs
unfolding select
select-Perm p [] = Perm.refl []
select-Perm p (x ∷ xs) = elim (Bool-cases (p x)) [
  | inl e ↦ rw e (
      Perm.trans (perm_middle (select (λ x. not (p x)) xs) (select p xs))
        (Perm.cons x (select-Perm p xs)))
  | inr e ↦ rw e (Perm.cons x (select-Perm p xs))
]

-- What the script relies on of PyIceberg: a scan returns the rows that the filter matches, and an
-- overwrite replaces those by the frame.
pub record IsLake {R : Type 0} (lake : Lakehouse R) : Type 0 where
  pub contents : lake.Table → List R
  pub matches : DayFilter → R → Bool
  pub scans : (f : DayFilter) (t : lake.Table) → lake.scan f t ≡ select (matches f) (contents t)
  pub overwrites :
      (frame : List R) (f : DayFilter) (t t' : lake.Table)
      → lake.overwrite frame f t ≡ ok t'
      → Perm (contents t') (select (λ x. not (matches f x)) (contents t) ++ frame)

abbrev pub partition_of : Detail → Partition
partition_of (would_rewrite p s) = p
partition_of (rewritten p s s') = p

abbrev pub RowsKept : Detail → Type 0
RowsKept (would_rewrite p s) = Unit
RowsKept (rewritten p s s') = s'.rows ≡ s.rows

module _ {R : Type 0} (lake : Lakehouse R) (law : IsLake lake) where
  abbrev pub Kept : lake.Table → lake.Table → Type 0
  Kept t t' = Perm (law.contents t') (law.contents t)

  -- The table has the same rows, and the script has either done what is listed or stopped.
  abbrev IsSafe :
      {A : Type 0} → (A → lake.Table → Type 0) → lake.Table → Ended A lake.Table → Type 0
  IsSafe Q t (finished a t') = Kept t t' × Q a t'
  IsSafe Q t (stopped t' e) = Kept t t'

  abbrev OneDone : Partition → Detail → lake.Table → Type 0
  OneDone key detail t' = (partition_of detail ≡ key) × RowsKept detail

  confirmed-IsSafe :
      (key : Partition) (stats : Stats) (t : lake.Table) (written : Result lake.Table)
      → lake.overwrite (lake.scan (day_filter key) t) (day_filter key) t ≡ written
      → IsSafe (OneDone key) t (confirmed lake key stats written t)
  confirmed-IsSafe key stats t (raise e) h = Perm.refl (law.contents t)
  confirmed-IsSafe key stats t (ok t') h =
      let f = day_filter key in
      let kept : Kept t t' =
        Perm.trans (law.overwrites (lake.scan f t) f t t' h)
          (rw (law.scans f t) (select-Perm (law.matches f) (law.contents t))) in
      elim (Bool-cases ((stats_at lake key t').rows == stats.rows)) [
        | inl e ↦ rw e (kept, (refl, ground (arith, e)))
        | inr e ↦ rw e kept
      ]

  compact_one-IsSafe :
      (key : Partition) (stats : Stats) (t : lake.Table)
      → IsSafe (OneDone key) t (compact_one lake key stats t)
  unfolding compact_one
  compact_one-IsSafe key stats t =
      let f = day_filter key in
      elim (Bool-cases (length (lake.scan f t) == stats.rows)) [
        | inl e ↦
            rw (compact_one, e)
              (confirmed-IsSafe key stats t (lake.overwrite (lake.scan f t) f t) refl)
        | inr e ↦ rw (compact_one, e) (Perm.refl (law.contents t))
      ]

  abbrev AllDone : Bool → List (Partition × Stats) → lake.Table → List Detail → lake.Table → Type 0
  AllDone dry_run items t details t' =
      (map partition_of details ≡ map (λ e. e.0) items)
      × All RowsKept details
      × (dry_run ≡ true → t' ≡ t)

  then_all-IsSafe :
      (dry_run : Bool) (key : Partition) (stats : Stats) (rest : List (Partition × Stats))
      (t : lake.Table) (one : Ended Detail lake.Table)
      → IsSafe (λ detail t'. OneDone key detail t' × (dry_run ≡ true → t' ≡ t)) t one
      → ((t : lake.Table) → IsSafe (AllDone dry_run rest t) t (compact_all lake dry_run rest t))
      → IsSafe
          (AllDone dry_run ((key, stats) ∷ rest) t)
          t
          (then_all lake (compact_all lake dry_run rest) one)
  then_all-IsSafe dry_run key stats rest t (stopped t' e) kept others = kept
  then_all-IsSafe dry_run key stats rest t (finished detail t') (kept, (done, dry)) others =
      by_rest (compact_all lake dry_run rest t') (others t')
    where
      by_rest :
          (next : Ended (List Detail) lake.Table)
          → IsSafe (AllDone dry_run rest t') t' next
          → IsSafe
              (AllDone dry_run ((key, stats) ∷ rest) t)
              t
              (then_all lake (λ t. next) (finished detail t'))
      by_rest (stopped t'' e) kept' = Perm.trans kept' kept
      by_rest (finished details t'') (kept', (same, rows, dry')) = (
        Perm.trans kept' kept,
        (
          ap (λ ps. partition_of detail ∷ ps) same ∙ ap (λ p. p ∷ map (λ e. e.0) rest) done.0,
          (done.1, rows),
          λ h. dry' h ∙ dry h,
        ),
      )

  compact_all-IsSafe :
      (dry_run : Bool) (items : List (Partition × Stats)) (t : lake.Table)
      → IsSafe (AllDone dry_run items t) t (compact_all lake dry_run items t)
  unfolding compact_all
  compact_all-IsSafe dry_run [] t = (Perm.refl (law.contents t), (refl, tt, λ h. refl))
  compact_all-IsSafe true ((key, stats) ∷ rest) t =
      then_all-IsSafe true key stats rest t (finished (would_rewrite key stats) t)
        (Perm.refl (law.contents t), ((refl, tt), λ h. refl)) (compact_all-IsSafe true rest)
  compact_all-IsSafe false ((key, stats) ∷ rest) t =
      then_all-IsSafe false key stats rest t (compact_one lake key stats t)
        (undry (compact_one lake key stats t) (compact_one-IsSafe key stats t))
        (compact_all-IsSafe false rest)
    where
      undry :
          (one : Ended Detail lake.Table)
          → IsSafe (OneDone key) t one
          → IsSafe (λ detail t'. OneDone key detail t' × (false ≡ true → t' ≡ t)) t one
      undry (stopped t' e) kept = kept
      undry (finished detail t') (kept, done) = (kept, (done, λ h. cc))

  -- What a compaction is: the table has the same rows, whatever is raised and wherever. If nothing
  -- is raised, then a partition is listed exactly if more than `min_files` data files were its own,
  -- and the list is in order; each partition rewritten has as many rows as before; and a dry run
  -- has changed nothing.
  abbrev pub IsCompaction : ℕ → Bool → lake.Table → Ended Summary lake.Table → Type 0
  IsCompaction min_files dry_run t (stopped t' e) = Kept t t'
  IsCompaction min_files dry_run t (finished summary t') =
      let before = partition_inventory (lake.inspect_files t) in
      Kept t t'
      × ((key : Partition)
          → In key (map partition_of summary.details)
            ↔ (min_files < files_in key (lake.inspect_files t)))
      × (map partition_of summary.details ≡ map (λ e. e.0) (in_order (candidates min_files before)))
      × All RowsKept summary.details
      × (dry_run ≡ true → t' ≡ t)

  -- On every branch, also where it raises, the compaction leaves the rows of the lake as they were,
  -- up to their order. If it returns, it has listed exactly the partitions of which the table's
  -- metadata lists more than `min_files` data files, by day and then by city, each rewritten one
  -- with as many rows as before, and a dry run has not changed the table. Of PyIceberg it is assumed that a scan returns the rows that its filter
  -- matches and that an overwrite replaces those by the frame.
  pub compact-IsCompaction :
      (min_files : ℕ) (dry_run : Bool) (t : lake.Table)
      → IsCompaction min_files dry_run t (compact lake min_files dry_run t)
  unfolding compact
  compact-IsCompaction min_files dry_run t =
      let before = partition_inventory (lake.inspect_files t) in
      let items = in_order (candidates min_files before) in
      by_all (compact_all lake dry_run items t) (compact_all-IsSafe dry_run items t)
    where
      by_all :
          (ended : Ended (List Detail) lake.Table)
          → IsSafe
              (AllDone dry_run
                (in_order (candidates min_files (partition_inventory (lake.inspect_files t))))
                t)
              t
              ended
          → IsCompaction min_files dry_run t
              (summarised lake dry_run (partition_inventory (lake.inspect_files t)) ended)
      by_all (stopped t' e) kept = kept
      by_all (finished details t') (kept, (same, rows, dry)) = (
        kept,
        λ key.
            subst (λ keys. In key keys ↔ (min_files < files_in key (lake.inspect_files t)))
              (sym same) (in_order-candidates min_files (lake.inspect_files t) key),
        same,
        rows,
        dry,
      )
