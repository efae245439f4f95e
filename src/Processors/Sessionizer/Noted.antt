-- ===== src/Processors/Sessionizer/Noted.antt =====
-- The offsets of a batch, by the messages of each partition, and the offsets that are committed.
use stream_pipeline.Prelude.Dict
use stream_pipeline.Prelude.Dict.{Dict, IsDict, Fresh-of_get}
use stream_pipeline.Prelude.{
  ℕ, ◌+◌, ◌≡◌, refl, sym, ap, ◌∙◌, subst, true, false, Option, none, some, List, [], ◌∷◌, ◌++◌,
  append-nil, max, max_of, get_or, ◌==◌, if◌then◌else◌, nat_key, if_pos, if_neg, ℕ_discrete,
  text_key, arith,
}
use stream_pipeline.Processors.Sessionizer.State.{PartitionState, new_partition}
use stream_pipeline.Processors.Sessionizer.Batch.{
  Polled, message, partition_eof, failed, note_offset, max_offset,
}
use stream_pipeline.Processors.Sessionizer.Process.{next_offsets, commit_offsets}
use stream_pipeline.Processors.Sessionizer.Once.Offsets.{commit-same, commit-other}

-- The offsets of the messages of a partition.
abbrev pub offsets_in : ℕ → List Polled → List ℕ
offsets_in p [] = []
offsets_in p (message m ∷ ps) = (if m.partition == p then m.offset ∷ [] else []) ++ offsets_in p ps
offsets_in p (partition_eof ∷ ps) = offsets_in p ps
offsets_in p (failed ∷ ps) = offsets_in p ps

-- One after the largest offset, or what was there if there is no offset.
abbrev pub next_after : Option ℕ → List ℕ → Option ℕ
next_after old [] = old
next_after old (o ∷ os) = some (max_of (o ∷ os) + 1)

max_of-append : (ns ms : List ℕ) → max_of (ns ++ ms) ≡ max (max_of ns) (max_of ms)
max_of-append [] ms = omega arith
max_of-append (n ∷ ns) ms = omega (arith, max_of-append ns ms)

-- What the batch notes of a partition: nothing, or the largest of the offsets.
abbrev pub Noted : List ℕ → Option PartitionState → Type 0
Noted [] noted = noted ≡ none
Noted (o ∷ os) noted =
    (state : PartitionState) × (noted ≡ some state)
    × (state.max_offset_in_batch ≡ some (max_of (o ∷ os)))

raised-Noted :
    (os : List ℕ) (found : Option PartitionState) (offset : ℕ)
    → Noted os found
    → Noted (os ++ offset ∷ []) (
        some (record (get_or found new_partition) {
          max_offset_in_batch = max_offset (get_or found new_partition).max_offset_in_batch offset;
        }))
raised-Noted [] found offset h = (
  _,
  refl,
  ap (λ g. max_offset (get_or g new_partition).max_offset_in_batch offset) h
      ∙ ap some (omega arith),
)
raised-Noted (o ∷ os) found offset (state, e, top) = (
  _,
  refl,
  ap (λ g. max_offset (get_or g new_partition).max_offset_in_batch offset) e
      ∙ (ap (λ t. max_offset t offset) top
          ∙ ap some (omega (arith, max_of-append (o ∷ os) (offset ∷ [])))),
)

abbrev pub offset_of : ℕ → ℕ → ℕ → List ℕ
offset_of partition offset p = if partition == p then offset ∷ [] else []

pub note_offset-Noted :
    (states : Dict ℕ PartitionState) (p partition offset : ℕ) (os : List ℕ)
    → Noted os (Dict.get p states)
    → Noted (os ++ offset_of partition offset p) (Dict.get p (note_offset states partition offset))
unfolding note_offset
note_offset-Noted states p partition offset os h =
    let bstate = get_or (Dict.get partition states) new_partition in
    let found =
      Dict.get-put partition p
        (record bstate { max_offset_in_batch = max_offset bstate.max_offset_in_batch offset })
        states in
    elim (ℕ_discrete partition p) [
      | yes e ↦
          let b : (partition == p) ≡ true = ground (arith, e) in
          let same : Dict.get partition states ≡ Dict.get p states =
            ap (λ q. Dict.get q states) e in
          rw b (
            subst (Noted (os ++ offset ∷ [])) (sym (found ∙ if_pos (ℕ_discrete partition p) e _ _))
              (raised-Noted os (Dict.get partition states) offset (subst (Noted os) (sym same) h)))
      | no n ↦
          let b : (partition == p) ≡ false = ground (arith, n) in
          rw (b, append-nil os)
            (subst (Noted os) (sym (found ∙ if_neg (ℕ_discrete partition p) n _ _)) h)
    ]

-- So a batch commits the offset after the largest of each of its partitions, and no other.
pub commit_offsets-next_after :
    (committed : Dict ℕ ℕ) (states : Dict ℕ PartitionState) (p : ℕ) (os : List ℕ)
    → IsDict states
    → Noted os (Dict.get p states)
    → Dict.get p (commit_offsets committed (next_offsets states))
      ≡ next_after (Dict.get p committed) os
commit_offsets-next_after committed states p [] d n =
    commit-other committed states p (Fresh-of_get p states n)
commit_offsets-next_after committed states p (o ∷ os) d (state, e, top) =
    commit-same committed states p _ state d e top
