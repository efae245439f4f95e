-- ===== src/Processors/Sessionizer/Letters.antt =====
-- The dead letters that `process_batch` produces, one for each envelope.
use stream_pipeline.Prelude.{◌≡◌, refl, Option, List, [], ◌∷◌, ok, Ensures, Ensures-ok, >>=-Ensures}
use stream_pipeline.Common.Topics.{dlq_topic}
use stream_pipeline.Dlq.Envelope
use stream_pipeline.Dlq.Envelope.{Bytes, Envelope}
use stream_pipeline.Processors.Sessionizer.State.{Produced, letter, bytes}
use stream_pipeline.Processors.Sessionizer.Process.{letter_records}

module _ {F : Type 0} where
  -- A record for each envelope: under the raw key of the message, in the topic for its dead letters.
  abbrev pub AreLetters : List Envelope → List (Produced F) → Type 0
  AreLetters [] [] = Unit
  AreLetters [] (r ∷ rs) = ⊥
  AreLetters (e ∷ es) [] = ⊥
  AreLetters (e ∷ es) (r ∷ rs) =
      (r.topic ≡ dlq_topic e.source_topic)
      × ((k : Option Bytes) × (Envelope.key e ≡ ok k) × (r.key ≡ bytes k))
      × (r.payload ≡ letter e)
      × AreLetters es rs

pub letter_records-AreLetters :
    (F : Type 0) (es : List Envelope) → Ensures (AreLetters es) (letter_records {F = F} es)
unfolding letter_records
letter_records-AreLetters F [] = tt
letter_records-AreLetters F (e ∷ es) =
    >>=-Ensures (AreLetters {F = F} (e ∷ es)) (Envelope.key e) _ (λ k found.
      >>=-Ensures (AreLetters {F = F} (e ∷ es)) (letter_records es) _ (λ rest made. (
        refl,
        (k, found, refl),
        refl,
        Ensures-ok (AreLetters {F = F} es) (letter_records es) made
            (letter_records-AreLetters F es),
      )))
