-- ===== src/Scripts/ReplayDlq/Replays.antt =====
-- What a replay produces, and that the repair undoes the corruption.
use stream_pipeline.Prelude.{
  ℕ, ◌≡◌, ◌+◌, refl, sym, ap, ◌∙◌, inl, inr, Bool, true, false, not, List, [], ◌∷◌, ◌++◌, map, All,
  get_or, append_assoc, append-nil, length, select, Bool-cases, arith, Result, ok, String,
}
use stream_pipeline.Dlq.Envelope.{Bytes, Message, Failure, Envelope, build_envelope}
use stream_pipeline.Dlq.Envelope.Roundtrip.{IsBytes, build_envelope-payload}
use stream_pipeline.Scripts.ReplayDlq.{
  repair_magic_byte, corrupt_payload, ReplayStats, new_stats, Record, Options, selected,
  transformed, resend, replay_from, replay,
}

-- The repair gives back the bytes that a corruption took a framing byte of 0 from.
pub repair_magic_byte-corrupt_payload :
    (payload : Bytes) → repair_magic_byte (corrupt_payload (0 ∷ payload)) ≡ 0 ∷ payload
unfolding repair_magic_byte corrupt_payload
repair_magic_byte-corrupt_payload payload = refl

-- A message that was poison, why, and when.
abbrev pub Poison : Type 0
Poison = Message × (Failure × String)

abbrev pub envelope_of : String → Poison → Envelope
envelope_of group (m, (error, now)) = build_envelope m error group now

abbrev pub HasBytes : Poison → Type 0
HasBytes (m, _) = IsBytes m.value × IsBytes m.key

-- The message again, with its payload transformed.
abbrev pub resent : Options → Poison → Record
resent o (m, _) = (m.topic, (m.key, transformed o.transform (get_or m.value [])))

abbrev pub sent_if : Bool → List Record → List Record
sent_if true records = []
sent_if false records = records

sent_if-nil : (dry : Bool) → sent_if dry [] ≡ []
sent_if-nil true = refl
sent_if-nil false = refl

sent_if-cons :
    (dry : Bool) (x : Record) (xs : List Record)
    → sent_if dry (x ∷ []) ++ sent_if dry xs ≡ sent_if dry (x ∷ xs)
sent_if-cons true x xs = refl
sent_if-cons false x xs = refl

same_stats :
    {a a' b b' c c' : ℕ} {l l' : List Record} (dry : Bool)
    → a ≡ a'
    → b ≡ b'
    → c ≡ c'
    → l ≡ l'
    → ◌≡◌ {A = Result (ReplayStats × List Record)}
        (ok (record { seen = a; filtered_out = b; replayed = c; dry_run = dry }, l))
        (ok (record { seen = a'; filtered_out = b'; replayed = c'; dry_run = dry }, l'))
same_stats dry p q r s =
    λ i. ok (record { seen = p i; filtered_out = q i; replayed = r i; dry_run = dry }, s i)

module _ (o : Options) (group : String) where
  abbrev pub is_selected : Poison → Bool
  is_selected p = selected o.predicate (envelope_of group p)

  resend-poison :
      (p : Poison) (stats : ReplayStats) (produced : List Record)
      → HasBytes p
      → resend o (envelope_of group p) stats produced
        ≡ ok (
          record stats { replayed = stats.replayed + 1 },
          produced ++ sent_if o.dry_run (resent o p ∷ []),
        )
  unfolding resend
  resend-poison (m, (error, now)) stats produced (hv, hk) =
      let (value, key, topic, _, _) = build_envelope-payload m error group now hv hk in
      elim (Bool-cases o.dry_run) [
        | inl dry ↦ rw (value, dry, append-nil) refl
        | inr wet ↦ rw (value, wet, key, topic) refl
      ]

  abbrev total : ReplayStats → List Poison → ReplayStats
  total stats ps = record {
    seen = stats.seen + length ps;
    filtered_out = stats.filtered_out + length (select (λ p. not (is_selected p)) ps);
    replayed = stats.replayed + length (select is_selected ps);
    dry_run = stats.dry_run;
  }

  replay_from-poisons :
      (ps : List Poison) (stats : ReplayStats) (produced : List Record)
      → All HasBytes ps
      → replay_from o (map (envelope_of group) ps) stats produced
        ≡ ok
            (total stats ps, produced ++ sent_if o.dry_run (map (resent o) (select is_selected ps)))
  unfolding replay_from select
  replay_from-poisons [] stats produced h =
      same_stats stats.dry_run (omega arith) (omega arith) (omega arith)
        (sym (ap (λ xs. produced ++ xs) (sent_if-nil o.dry_run) ∙ append-nil produced))
  replay_from-poisons (p ∷ ps) stats produced h = elim (Bool-cases (is_selected p)) [
    | inl kept ↦
        let counted = record stats { seen = stats.seen + 1 } in
        let one = sent_if o.dry_run (resent o p ∷ []) in
        rw (kept, resend-poison p counted produced h.0)
          (replay_from-poisons ps (record counted { replayed = stats.replayed + 1 })
              (produced ++ sent_if o.dry_run (resent o p ∷ [])) h.1
            ∙ same_stats stats.dry_run (omega arith) (omega arith) (omega arith) (
                append_assoc produced one _
                ∙ ap (λ xs. produced ++ xs) (sent_if-cons o.dry_run (resent o p) _)))
    | inr dropped ↦ rw dropped (
        replay_from-poisons ps
          (record stats { seen = stats.seen + 1; filtered_out = stats.filtered_out + 1 }) produced
          h.1
        ∙ same_stats stats.dry_run (omega arith) (omega arith) (omega arith) refl)
  ]

  -- To replay the envelopes of any poison messages produces, in order, each message that the
  -- operator's predicate selects, to its topic, under its key, with its payload transformed, or
  -- nothing in a dry run; and the counts are those of all, the rejected and the selected messages.
  pub replay-poisons :
      (ps : List Poison)
      → All HasBytes ps
      → replay o (map (envelope_of group) ps)
        ≡ ok (
          record {
            seen = length ps;
            filtered_out = length (select (λ p. not (is_selected p)) ps);
            replayed = length (select is_selected ps);
            dry_run = o.dry_run;
          },
          sent_if o.dry_run (map (resent o) (select is_selected ps)),
        )
  unfolding replay
  replay-poisons ps h =
      replay_from-poisons ps (new_stats o.dry_run) [] h
      ∙ same_stats o.dry_run (omega arith) (omega arith) (omega arith) refl
