-- ===== src/Processors/Sessionizer/Once/Offsets.antt =====
-- The offsets that a batch commits, against those that were committed before.
use stream_pipeline.Prelude.Dict
use stream_pipeline.Prelude.Dict.{Dict, Fresh, IsDict}
use stream_pipeline.Prelude.{
  ℕ, ◌≡◌, ◌≤◌, ◌+◌, refl, sym, ap, ◌∙◌, inl, inr, some, [], ◌∷◌, All, get_or, arith, nat_key,
  Option-cases, subst, if_pos, if_neg, ℕ_discrete, All-map, some-injective,
}
use stream_pipeline.Processors.Sessionizer.State.{PartitionState}
use stream_pipeline.Processors.Sessionizer.Process.{next_offsets, commit_offsets}

-- The maximal offset of the partition, where the batch has one, is not before the committed one.
abbrev pub IsAhead : Dict ℕ ℕ → ℕ × PartitionState → Type 0
IsAhead committed (partition, state) =
    (o : ℕ) → state.max_offset_in_batch ≡ some o → get_or (Dict.get partition committed) 0 ≤ o

pub commit-other :
    (committed : Dict ℕ ℕ) (states : Dict ℕ PartitionState) (p : ℕ)
    → Fresh p states
    → Dict.get p (commit_offsets committed (next_offsets states)) ≡ Dict.get p committed
unfolding commit_offsets next_offsets
commit-other committed [] p h = refl
commit-other committed ((q, state) ∷ states) p h = elim (Option-cases state.max_offset_in_batch) [
  | inl e ↦ rw e (commit-other committed states p h.1)
  | inr (o, e) ↦ rw e (
      commit-other (Dict.put q (o + 1) committed) states p h.1
      ∙ (Dict.get-put q p (o + 1) committed ∙ if_neg (ℕ_discrete q p) h.0 _ _))
]

-- A partition of the batch gets the offset after its maximal one.
pub commit-same :
    (committed : Dict ℕ ℕ) (states : Dict ℕ PartitionState) (p o : ℕ) (state : PartitionState)
    → IsDict states
    → Dict.get p states ≡ some state
    → state.max_offset_in_batch ≡ some o
    → Dict.get p (commit_offsets committed (next_offsets states)) ≡ some (o + 1)
unfolding commit_offsets next_offsets Dict.get
commit-same committed [] p o state d g m = cc
commit-same committed ((q, here) ∷ states) p o state d g m = elim (ℕ_discrete q p) [
  | yes e ↦
      let same : here.max_offset_in_batch ≡ some o =
        ap (λ (s : PartitionState). s.max_offset_in_batch)
          (some-injective (sym (if_pos (ℕ_discrete q p) e _ _) ∙ g))
        ∙ m in
      rw same (
        commit-other (Dict.put q (o + 1) committed) states p (subst (λ r. Fresh r states) e d.0)
        ∙ (Dict.get-put q p (o + 1) committed ∙ if_pos (ℕ_discrete q p) e _ _))
  | no n ↦
      let found = sym (if_neg (ℕ_discrete q p) n _ _) ∙ g in
      elim (Option-cases here.max_offset_in_batch) [
        | inl e ↦ rw e (commit-same committed states p o state d.1 found m)
        | inr (x, e) ↦
            rw e (commit-same (Dict.put q (x + 1) committed) states p o state d.1 found m)
      ]
]

commit-ge :
    (committed : Dict ℕ ℕ) (states : Dict ℕ PartitionState) (p base : ℕ)
    → base ≤ get_or (Dict.get p committed) 0
    → All
        (λ (e : ℕ × PartitionState).
          e.0 ≡ p → (o : ℕ) → e.1.max_offset_in_batch ≡ some o → base ≤ o)
        states
    → base ≤ get_or (Dict.get p (commit_offsets committed (next_offsets states))) 0
unfolding commit_offsets next_offsets
commit-ge committed [] p base b h = b
commit-ge committed ((q, state) ∷ states) p base b h =
    elim (Option-cases state.max_offset_in_batch) [
      | inl e ↦ rw e (commit-ge committed states p base b h.1)
      | inr (o, e) ↦ rw e (
          commit-ge (Dict.put q (o + 1) committed) states p base
            (ground (arith, b, e, Dict.get-put q p (o + 1) committed, λ (k : q ≡ p). h.0 k o e))
            h.1)
    ]

-- The commit of a batch that is ahead takes no partition back.
pub commit-le :
    (committed : Dict ℕ ℕ) (states : Dict ℕ PartitionState) (p : ℕ)
    → All (IsAhead committed) states
    → get_or (Dict.get p committed) 0
      ≤ get_or (Dict.get p (commit_offsets committed (next_offsets states))) 0
commit-le committed states p h =
    commit-ge committed states p (get_or (Dict.get p committed) 0) (omega arith) (
      All-map states
        (λ e ahead k o m. subst (λ r. get_or (Dict.get r committed) 0 ≤ o) k (ahead o m)) h)
