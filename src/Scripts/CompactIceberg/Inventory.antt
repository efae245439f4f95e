-- ===== src/Scripts/CompactIceberg/Inventory.antt =====
-- The inventory counts the files of each partition, and the candidates are those with too many.
use stream_pipeline.Prelude.Dict
use stream_pipeline.Prelude.Dict.{Dict, IsDict}
use stream_pipeline.Prelude.Sort.{In-sorted, sorted-In}
use stream_pipeline.Prelude.{
  ℕ, ◌+◌, ◌<◌, ◌≡◌, ◌≢◌, ◌↔◌, refl, sym, ap, ◌∙◌, subst, inl, inr, Bool, true, false, Bool-cases,
  ◌&&◌, ◌==◌, ltb, none, some, Option-cases, some-injective, get_or, List, [], ◌∷◌, map, select,
  length, In, In-map, map-In, In-select, select-In, All-In, nat_key, pair_key, if_pos, if_neg,
  arith,
}
use stream_pipeline.Scripts.CompactIceberg.{
  Partition, FileRow, Stats, no_stats, note_file, noted_from, partition_inventory, candidates,
  in_order,
}

module _ {V : Type 0} where
  -- What a dict lists is what its `get` finds.
  get_of_In :
      (k : Partition) (v : V) (d : Dict Partition V)
      → IsDict d
      → In (k, v) d
      → Dict.get k d ≡ some v
  unfolding Dict.get
  get_of_In k v [] h i = elim i [ ]
  get_of_In k v ((j, w) ∷ d) h (inl e) =
      if_pos (pair_key.dec j k) (ap (λ x. x.0) e) _ _ ∙ ap (λ x. some x.1) e
  get_of_In k v ((j, w) ∷ d) h (inr i) =
      if_neg (pair_key.dec j k) (λ p. All-In (λ x. x.0 ≢ j) (k, v) d h.0 i (sym p)) _ _
      ∙ get_of_In k v d h.1 i

  get-In : (k : Partition) (v : V) (d : Dict Partition V) → Dict.get k d ≡ some v → In (k, v) d
  unfolding Dict.get
  get-In k v [] h = let never : none ≡ some v = h in cc
  get-In k v ((j, w) ∷ d) h = elim (pair_key.dec j k) [
    | yes p ↦
        let same : w ≡ v = some-injective (sym (if_pos (pair_key.dec j k) p _ _) ∙ h) in
        inl (λ i. (p i, same i))
    | no q ↦ inr (get-In k v d (sym (if_neg (pair_key.dec j k) q _ _) ∙ h))
  ]

-- the row is of a data file of the partition
abbrev pub is_file_of : Partition → FileRow → Bool
is_file_of (day, city_id) row = (row.event_day == day) && (row.city_id_part == city_id)

-- How many data files a partition has.
abbrev pub files_in : Partition → List FileRow → ℕ
files_in key files = length (select (is_file_of key) files)

abbrev files_at : Partition → Dict Partition Stats → ℕ
files_at key inventory = (get_or (Dict.get key inventory) no_stats).files

is_file_of-own : (row : FileRow) → is_file_of (row.event_day, row.city_id_part) row ≡ true
is_file_of-own row =
    let day : (row.event_day == row.event_day) ≡ true = ground arith in
    let city : (row.city_id_part == row.city_id_part) ≡ true = ground arith in rw (day, city) refl

is_file_of-other :
    (key : Partition) (row : FileRow)
    → (row.event_day, row.city_id_part) ≢ key
    → is_file_of key row ≡ false
is_file_of-other (day, city_id) row ne = elim (Bool-cases (row.event_day == day)) [
  | inr e ↦ rw e refl
  | inl e ↦ elim (Bool-cases (row.city_id_part == city_id)) [
    | inr f ↦ rw (e, f) refl
    | inl f ↦
        let same_day : row.event_day ≡ day = ground (arith, e) in
        let same_city : row.city_id_part ≡ city_id = ground (arith, f) in
        absurd (ne (λ i. (same_day i, same_city i)))
  ]
]

files_at-note_file :
    (key : Partition) (inventory : Dict Partition Stats) (row : FileRow)
    → files_at key (note_file inventory row) ≡ files_at key inventory + files_in key (row ∷ [])
unfolding note_file select
files_at-note_file key inventory row =
    let own : Partition = (row.event_day, row.city_id_part) in
    let found = Dict.get-put own key _ inventory in
    elim (pair_key.dec own key) [
      | yes p ↦
          let counted : is_file_of key row ≡ true =
            subst (λ k. is_file_of k row ≡ true) p (is_file_of-own row) in
          ap (λ o. (get_or o no_stats).files) (found ∙ if_pos (pair_key.dec own key) p _ _)
          ∙ (ap (λ k. files_at k inventory + 1) p ∙ rw counted refl)
      | no q ↦
          ap (λ o. (get_or o no_stats).files) (found ∙ if_neg (pair_key.dec own key) q _ _)
          ∙ rw (is_file_of-other key row q) (omega arith)
    ]

noted_from-IsDict :
    (inventory : Dict Partition Stats) (files : List FileRow)
    → IsDict inventory
    → IsDict (noted_from inventory files)
unfolding note_file
noted_from-IsDict inventory [] h = h
noted_from-IsDict inventory (row ∷ rows) h =
    noted_from-IsDict (note_file inventory row) rows (Dict.put-IsDict _ _ inventory h)

files_at-noted_from :
    (key : Partition) (inventory : Dict Partition Stats) (files : List FileRow)
    → files_at key (noted_from inventory files) ≡ files_at key inventory + files_in key files
unfolding select
files_at-noted_from key inventory [] = omega arith
files_at-noted_from key inventory (row ∷ rows) =
    let here = files_at-note_file key inventory row in
    let later = files_at-noted_from key (note_file inventory row) rows in
    elim (Bool-cases (is_file_of key row)) [
      | inl e ↦
          let one : files_at key (note_file inventory row) ≡ files_at key inventory + 1 =
            rw e at here in
          rw e (omega (arith, one, later))
      | inr e ↦
          let none_more : files_at key (note_file inventory row) ≡ files_at key inventory + 0 =
            rw e at here in
          rw e (omega (arith, none_more, later))
    ]

files_at-partition_inventory :
    (key : Partition) (files : List FileRow)
    → files_at key (partition_inventory files) ≡ files_in key files
unfolding partition_inventory Dict.get
files_at-partition_inventory key files =
    let counted = files_at-noted_from key [] files in
    let nothing : files_at key [] ≡ 0 = refl in omega (arith, counted, nothing)

-- What the compaction goes through are the partitions with more than `min_files` data files.
pub in_order-candidates :
    (min_files : ℕ) (files : List FileRow) (key : Partition)
    → In key (map (λ e. e.0) (in_order (candidates min_files (partition_inventory files))))
      ↔ (min_files < files_in key files)
unfolding in_order candidates partition_inventory
in_order-candidates min_files files key =
    let before = partition_inventory files in
    let unique : IsDict before = noted_from-IsDict [] files tt in
    let counted = files_at-partition_inventory key files in
    let items = candidates min_files before in
    (
      λ i.
          let ((k, s), j, e) = map-In (λ e. e.0) key (in_order items) i in
          let chosen = sorted-In (λ e. e.0.1) (k, s) items (sorted-In (λ e. e.0.0) (k, s) _ j) in
          let (there, many) = select-In (λ e. ltb min_files e.1.files) (k, s) before chosen in
          let found : Dict.get key before ≡ some s =
            subst (λ k. Dict.get k before ≡ some s) e (get_of_In k s before unique there) in
          let files : files_at key before ≡ s.files = ap (λ o. (get_or o no_stats).files) found in
          let more : min_files < s.files = ground (arith, many) in
          omega (arith, files, more, counted),
      λ more. elim (Option-cases (Dict.get key before)) [
        | inl e ↦
            let nothing : files_at key before ≡ 0 = ap (λ o. (get_or o no_stats).files) e in
            absurd (omega (arith, nothing, more, counted))
        | inr (s, e) ↦
            let files : files_at key before ≡ s.files = ap (λ o. (get_or o no_stats).files) e in
            let enough : min_files < s.files = omega (arith, files, more, counted) in
            let chosen : In (key, s) items =
              In-select (λ e. ltb min_files e.1.files) (key, s) before (get-In key s before e)
                (ground (arith, enough)) in
            In-map (λ e. e.0) (key, s) (in_order items)
              (In-sorted (λ e. e.0.0) (key, s) _ (In-sorted (λ e. e.0.1) (key, s) items chosen))
      ],
    )
