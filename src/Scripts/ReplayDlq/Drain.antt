-- ===== src/Scripts/ReplayDlq/Drain.antt =====
-- scripts/replay_dlq.py: `drain_dlq`, and what it hands to the replay.
use stream_pipeline.Prelude.{
  ℕ, ◌≡◌, ◌+◌, ◌<◌, refl, sym, ap, ◌∙◌, true, not, List, [], ◌∷◌, ◌++◌, map, map-append, All,
  length, select, is_empty, ltb, if◌then◌else◌, Result, ok, raise, Error, ◌>>=◌, String, arith,
}
use stream_pipeline.Dlq.Envelope.{Envelope}
use stream_pipeline.Scripts.ReplayDlq.{Options, replay}
use stream_pipeline.Scripts.ReplayDlq.Replays.{
  Poison, envelope_of, HasBytes, resent, sent_if, is_selected, replay-poisons,
}

-- A message of a poll: a letter, one that `parse_envelope` refuses, or an error of the consumer.
pub data Drained : Type 0 where
  letter : Envelope → Drained
  garbled : Error → Drained
  failed : Drained

-- the loop over the messages of a poll
unfoldable pub envelopes_in : List Drained → Result (List Envelope)
envelopes_in [] = ok []
envelopes_in (failed ∷ msgs) = envelopes_in msgs
envelopes_in (garbled e ∷ msgs) = raise e
envelopes_in (letter e ∷ msgs) = envelopes_in msgs >>= λ es. ok (e ∷ es)

-- the loop over what the consumer returns in each poll, with the number of quiet polls before
unfoldable pub drain_from : ℕ → ℕ → List (List Drained) → Result (List Envelope)
unfolding envelopes_in
drain_from idle_polls quiet [] = ok []
drain_from idle_polls quiet (msgs ∷ polls) =
    let quieter = drain_from idle_polls (quiet + 1) polls in
    let more =
      envelopes_in msgs >>= λ es. drain_from idle_polls 0 polls >>= λ rest. ok (es ++ rest) in
    if ltb quiet idle_polls then (if is_empty msgs then quieter else more) else ok []

-- `drain_dlq`, of a topic that is quiet after these polls
unfoldable pub drain_dlq : ℕ → List (List Drained) → Result (List Envelope)
unfolding drain_from
drain_dlq idle_polls polls = drain_from idle_polls 0 polls

-- The loop reads all of these polls: never are `idle_polls` in a row empty before the last of them.
abbrev pub IsLively : ℕ → ℕ → List (List Drained) → Type 0
IsLively idle_polls quiet [] = Unit
IsLively idle_polls quiet ([] ∷ polls) =
    (quiet < idle_polls) × IsLively idle_polls (quiet + 1) polls
IsLively idle_polls quiet ((m ∷ ms) ∷ polls) = (quiet < idle_polls) × IsLively idle_polls 0 polls

-- A poll of letters about poison messages, with errors of the consumer among them.
pub data Item : Type 0 where
  poisoned : Poison → Item
  error : Item

module _ (group : String) where
  abbrev pub drained : Item → Drained
  drained (poisoned p) = letter (envelope_of group p)
  drained error = failed

  abbrev pub poisons_in : List Item → List Poison
  poisons_in [] = []
  poisons_in (error ∷ items) = poisons_in items
  poisons_in (poisoned p ∷ items) = p ∷ poisons_in items

  abbrev pub all_poisons : List (List Item) → List Poison
  all_poisons [] = []
  all_poisons (items ∷ polls) = poisons_in items ++ all_poisons polls

  abbrev pub polls_of : List (List Item) → List (List Drained)
  polls_of = map (map drained)

  envelopes_in-poisons :
      (items : List Item)
      → envelopes_in (map drained items) ≡ ok (map (envelope_of group) (poisons_in items))
  unfolding envelopes_in
  envelopes_in-poisons [] = refl
  envelopes_in-poisons (error ∷ items) = envelopes_in-poisons items
  envelopes_in-poisons (poisoned p ∷ items) =
      ap (λ r. r >>= λ es. ok (envelope_of group p ∷ es)) (envelopes_in-poisons items)

  drain_from-poisons :
      (idle_polls quiet : ℕ) (polls : List (List Item))
      → IsLively idle_polls quiet (polls_of polls)
      → drain_from idle_polls quiet (polls_of polls)
        ≡ ok (map (envelope_of group) (all_poisons polls))
  unfolding drain_from
  drain_from-poisons idle_polls quiet [] lively = refl
  drain_from-poisons idle_polls quiet ([] ∷ polls) (busy, lively) =
      let b : ltb quiet idle_polls ≡ true = ground (arith, busy) in
      rw (drain_from, b) (drain_from-poisons idle_polls (quiet + 1) polls lively)
  drain_from-poisons idle_polls quiet ((i ∷ items) ∷ polls) (busy, lively) =
      let b : ltb quiet idle_polls ≡ true = ground (arith, busy) in
      rw
        (
          drain_from,
          b,
          envelopes_in-poisons (i ∷ items),
          drain_from-poisons idle_polls 0 polls lively,
        )
        (ap ok (sym (map-append (envelope_of group) (poisons_in (i ∷ items)) (all_poisons polls))))

  -- From the dead-letter topic to the replay: however the letters about poison messages are spread
  -- over the polls, with errors of the consumer among them, if no `idle_polls` polls in a row are
  -- empty before the last of them, then the drain ends and the replay of what it has read produces
  -- each selected message again, in order and with its payload transformed, or nothing in a dry
  -- run, and counts them all.
  pub drain_dlq-replay :
      (o : Options) (idle_polls : ℕ) (polls : List (List Item))
      → IsLively idle_polls 0 (polls_of polls)
      → All HasBytes (all_poisons polls)
      → let ps = all_poisons polls in
        (drain_dlq idle_polls (polls_of polls) >>= replay o)
        ≡ ok (
          record {
            seen = length ps;
            filtered_out = length (select (λ p. not (is_selected o group p)) ps);
            replayed = length (select (is_selected o group) ps);
            dry_run = o.dry_run;
          },
          sent_if o.dry_run (map (resent o) (select (is_selected o group) ps)),
        )
  unfolding drain_dlq
  drain_dlq-replay o idle_polls polls lively bytes =
      ap (λ r. r >>= replay o) (drain_from-poisons idle_polls 0 polls lively)
      ∙ replay-poisons o group (all_poisons polls) bytes
