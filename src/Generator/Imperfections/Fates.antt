-- ===== src/Generator/Imperfections/Fates.antt =====
-- What becomes of an event: one of the buckets, and of a held event its release.
use stream_pipeline.Prelude.{
  ℕ, ◌≡◌, ◌≤◌, ◌<◌, ◌+◌, refl, ap, ◌∙◌, ◌⊎◌, inl, inr, true, false, not, List, [], ◌∷◌, ◌++◌, map,
  select, length, In, Bool-cases, leb, arith, str_eq,
}
use stream_pipeline.Common.Floats.{Floats}
use stream_pipeline.Common.Topics.{rides_events, payments_transactions}
use stream_pipeline.Generator.Random.{Random}
use stream_pipeline.Generator.Config.{GeneratorConfig}
use stream_pipeline.Generator.Events.{SourceEvent}
use stream_pipeline.Generator.Imperfections.{
  Stats, Imperfector, corrupted, is_requested, maybe_null_fields, maybe_bad_data, to_dup, to_ooo,
  to_late, bucket, altered, process, is_due, release_due, pending,
}

-- The events that the five buckets have counted.
abbrev pub counted : Stats → ℕ
counted s = s.duplicate + (s.out_of_order + (s.late + (s.malformed + s.clean)))

module _ {F S : Type 0} where
  -- The fate of an event: what is sent at once, and what is held.
  abbrev pub Fate :
      Imperfector F S → SourceEvent F → ℕ → List (SourceEvent F) × Imperfector F S → Type 0
  Fate m event now_ms (out, m') =
      ((m'.held ≡ m.held) × ((out ≡ event ∷ []) ⊎ (out ≡ corrupted event ∷ [])))
      ⊎ ((delay : ℕ) × (m'.held ≡ m.held ++ (now_ms + delay, event) ∷ [])
          × ((out ≡ event ∷ []) ⊎ (out ≡ [])))

  abbrev pub IsCounted : Imperfector F S → List (SourceEvent F) × Imperfector F S → Type 0
  IsCounted m (out, m') = counted m'.stats ≡ counted m.stats + 1

module _ (fl : Floats) (r : Random fl) (cfg : GeneratorConfig fl.Float) where
  open fl use {Float, lt, of_int}

  bucket-Fate :
      (m : Imperfector Float r.State) (event : SourceEvent Float) (now_ms : ℕ) (roll : Float)
      → Fate m event now_ms (bucket fl r cfg m event now_ms roll)
        × IsCounted m (bucket fl r cfg m event now_ms roll)
  unfolding bucket
  bucket-Fate m event now_ms roll = elim (Bool-cases (lt roll cfg.malformed_rate)) [
    | inl a ↦ rw (bucket, a) (inl (refl, inr refl), omega arith)
    | inr a ↦ elim (Bool-cases (lt roll (to_dup fl r cfg))) [
      | inl b ↦ rw (bucket, a, b) (inr (_, refl, inl refl), omega arith)
      | inr b ↦ elim (Bool-cases (lt roll (to_ooo fl r cfg))) [
        | inl c ↦ rw (bucket, a, b, c) (inr (_, refl, inr refl), omega arith)
        | inr c ↦ elim (Bool-cases (lt roll (to_late fl r cfg))) [
          | inl d ↦ rw (bucket, a, b, c, d) (inr (_, refl, inr refl), omega arith)
          | inr d ↦ rw (bucket, a, b, c, d) (inl (refl, inl refl), omega arith)
        ]
      ]
    ]
  ]

  maybe_null_fields-same :
      (m : Imperfector Float r.State) (event : SourceEvent Float)
      → let (e, m') = maybe_null_fields fl r cfg m event in
        (m'.held ≡ m.held) × (counted m'.stats ≡ counted m.stats)
  unfolding maybe_null_fields
  maybe_null_fields-same m event = elim (Bool-cases (is_requested fl r cfg event.value)) [
    | inr a ↦ rw (maybe_null_fields, a) (refl, refl)
    | inl a ↦ elim (Bool-cases (lt (r.random m.rng).0 cfg.null_field_rate)) [
      | inl b ↦ rw (maybe_null_fields, a, b) (refl, refl)
      | inr b ↦ rw (maybe_null_fields, a, b) (refl, refl)
    ]
  ]

  maybe_bad_data-same :
      (m : Imperfector Float r.State) (event : SourceEvent Float)
      → let (e, m') = maybe_bad_data fl r cfg m event in
        (m'.held ≡ m.held) × (counted m'.stats ≡ counted m.stats)
  unfolding maybe_bad_data
  maybe_bad_data-same m event = elim (Bool-cases (lt (r.random m.rng).0 cfg.bad_data_rate)) [
    | inl b ↦ rw (maybe_bad_data, b) (refl, refl)
    | inr b ↦ rw (maybe_bad_data, b) (refl, refl)
  ]

  altered-same :
      (m : Imperfector Float r.State) (event : SourceEvent Float)
      → let (e, m') = altered fl r cfg m event in
        (m'.held ≡ m.held) × (counted m'.stats ≡ counted m.stats)
  unfolding altered
  altered-same m event =
      let (e, m') = maybe_null_fields fl r cfg m event in
      let (h, n) = maybe_null_fields-same m event in
      let (h', n') = maybe_bad_data-same m' e in (h' ∙ h, n' ∙ n)

  -- What `process` does with an event of a ride: `e` is the event after the two changes of its
  -- value. It is sent, sent corrupted, sent and also held, or only held, never lost; at most one
  -- copy joins the end of those held before, and exactly one of the five buckets counts it.
  pub process-Fate :
      (m : Imperfector Float r.State) (event : SourceEvent Float) (now_ms : ℕ)
      → event.topic ≡ rides_events
      → let e = (altered fl r cfg m event).0 in
        Fate m e now_ms (process fl r cfg m event now_ms)
        × IsCounted m (process fl r cfg m event now_ms)
  unfolding process
  process-Fate m event now_ms topic =
      let (e, m') = altered fl r cfg m event in
      let (roll, rng) = r.random m'.rng in
      let (h, n) = altered-same m event in
      let (fate, one) = bucket-Fate (record m' { rng = rng }) e now_ms roll in
      let p : str_eq event.topic payments_transactions ≡ false =
        ap (λ t. str_eq t payments_transactions) topic in
      let q : str_eq event.topic rides_events ≡ true = ap (λ t. str_eq t rides_events) topic in
      rw (process, p, q)
        (
          elim fate [
            | inl (same, sent) ↦ inl (same ∙ h, sent)
            | inr (delay, joined, sent) ↦
                inr (delay, joined ∙ ap (λ xs. xs ++ (now_ms + delay, e) ∷ []) h, sent)
          ],
          one ∙ ap (λ k. k + 1) n,
        )

module _ {F : Type 0} (now_ms : ℕ) where
  abbrev due_of : List (ℕ × SourceEvent F) → List (SourceEvent F)
  due_of held = map (λ e. e.1) (select (is_due now_ms) held)

  abbrev rest_of : List (ℕ × SourceEvent F) → List (ℕ × SourceEvent F)
  rest_of held = select (λ e. not (is_due now_ms e)) held

  due_of-rest_of :
      (held : List (ℕ × SourceEvent F)) (at_ms : ℕ) (event : SourceEvent F)
      → In (at_ms, event) held
      → (at_ms ≤ now_ms → In event (due_of held))
        × (now_ms < at_ms → In (at_ms, event) (rest_of held))
  unfolding select
  due_of-rest_of [] at_ms event i = absurd i
  due_of-rest_of ((t, x) ∷ held) at_ms event (inl e) = elim (Bool-cases (leb t now_ms)) [
    | inl a ↦
        rw a (λ le. inl (ap (λ y. y.1) e), λ lt. absurd (ground (arith, a, lt, ap (λ y. y.0) e)))
    | inr a ↦ rw a (λ le. absurd (ground (arith, a, le, ap (λ y. y.0) e)), λ lt. inl e)
  ]
  due_of-rest_of ((t, x) ∷ held) at_ms event (inr i) =
      let (due, rest) = due_of-rest_of held at_ms event i in
      elim (Bool-cases (leb t now_ms)) [
        | inl a ↦ rw a (λ le. inr (due le), rest)
        | inr a ↦ rw a (due, λ lt. inr (rest lt))
      ]

  due_of-length :
      (held : List (ℕ × SourceEvent F)) → length (due_of held) + length (rest_of held) ≡ length held
  unfolding select
  due_of-length [] = refl
  due_of-length ((t, x) ∷ held) =
      let ih = due_of-length held in
      elim (Bool-cases (leb t now_ms)) [
        | inl a ↦ rw a (omega (arith, ih))
        | inr a ↦ rw a (omega (arith, ih))
      ]

  rest_of-later :
      (held : List (ℕ × SourceEvent F)) (at_ms : ℕ) (event : SourceEvent F)
      → In (at_ms, event) (rest_of held)
      → now_ms < at_ms
  unfolding select
  rest_of-later [] at_ms event = λ i. absurd i
  rest_of-later ((t, x) ∷ held) at_ms event = elim (Bool-cases (leb t now_ms)) [
    | inl a ↦ rw a (rest_of-later held at_ms event)
    | inr a ↦ rw a (λ i. elim i [
      | inl e ↦ ground (arith, a, ap (λ y. y.0) e)
      | inr j ↦ rest_of-later held at_ms event j
    ])
  ]

  -- A release loses and repeats nothing: the released and the remaining events are together as
  -- many as were held, an event that is due is released, one that is not stays with its time, and
  -- all that stay are after `now_ms`.
  pub release_due-pending :
      {S : Type 0} (m : Imperfector F S)
      → let (due, m') = release_due m now_ms in
        (length due + pending m' ≡ pending m)
        × ((at_ms : ℕ) (event : SourceEvent F)
            → In (at_ms, event) m.held
            → (at_ms ≤ now_ms → In event due) × (now_ms < at_ms → In (at_ms, event) m'.held))
        × ((at_ms : ℕ) (event : SourceEvent F) → In (at_ms, event) m'.held → now_ms < at_ms)
  unfolding release_due pending
  release_due-pending m = (due_of-length m.held, due_of-rest_of m.held, rest_of-later m.held)
