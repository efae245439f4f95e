-- ===== src/Prelude/Entries.antt =====
-- A dict with small numbers for keys, sorted: it is the table of its `get`, read from the least
-- key to the greatest.
use stream_pipeline.Prelude.Lists.{All}
use stream_pipeline.Prelude.Keys.{nat_key}
use stream_pipeline.Prelude.Dict
use stream_pipeline.Prelude.Dict.{Dict, Fresh, IsDict}
use stream_pipeline.Prelude.Sort.{insort, sorted}
use Prim.Native.Nat.{ℕ, zero, suc, ◌+◌, ◌≤◌, ◌<◌}
use mathlib.Core.Path.{◌≡◌, refl, ap, ◌∙◌}
use mathlib.Core.Logic.{if_neg}
unfoldable use mathlib.Core.Logic.{ite}
use mathlib.Core.Option.{Option, none, some}
use mathlib.Core.List.{List, [], ◌∷◌}
use native.Mathlib.Decide.{ℕ_discrete}
use native.Mathlib.Omega.{arith}

module _ {ℓ} {V : Type ℓ} where
  abbrev entry : ℕ → Option V → List (ℕ × V) → List (ℕ × V)
  entry k none l = l
  entry k (some v) l = (k, v) ∷ l

  -- the `n` keys from `lo` on that have a value
  unfoldable pub entries : (ℕ → Option V) → ℕ → ℕ → List (ℕ × V)
  entries p lo zero = []
  entries p lo (suc n) = entry lo (p lo) (entries p (suc lo) n)

  abbrev pub upd : ℕ → V → (ℕ → Option V) → ℕ → Option V
  upd k v p j = ite (ℕ_discrete k j) (some v) (p j)

  entries-upd_below :
      (p : ℕ → Option V) (k : ℕ) (v : V) (lo n : ℕ)
      → k < lo
      → entries (upd k v p) lo n ≡ entries p lo n
  unfolding entries
  entries-upd_below p k v lo zero h = refl
  entries-upd_below p k v lo (suc n) h = rw (
    if_neg (ℕ_discrete k lo) (omega arith) (some v) (p lo),
    entries-upd_below p k v (suc lo) n (omega arith),
  )

  insort_least :
      (p : ℕ → Option V) (k : ℕ) (v : V) (lo n : ℕ)
      → k < lo
      → insort (λ (e : ℕ × V). e.0) (k, v) (entries p lo n) ≡ (k, v) ∷ entries p lo n
  unfolding entries insort
  insort_least p k v lo zero h = refl
  insort_least p k v lo (suc n) h = ground (arith, insort_least p k v (suc lo) n)

  insort-entries :
      (p : ℕ → Option V) (k : ℕ) (v : V) (lo n : ℕ)
      → p k ≡ none
      → lo ≤ k
      → k < lo + n
      → insort (λ (e : ℕ × V). e.0) (k, v) (entries p lo n) ≡ entries (upd k v p) lo n
  unfolding entries insort
  insort-entries p k v lo zero absent h l = absurd (omega arith)
  insort-entries p k v lo (suc n) absent h l = elim (ℕ_discrete k lo) [
    | yes e ↦
        ground (arith, ap p e, insort_least p k v (suc lo) n, entries-upd_below p k v (suc lo) n)
    | no e ↦ ground (arith, insort-entries p k v (suc lo) n)
  ]

module _ {V : Type 0} where
  abbrev pub Within : ℕ → ℕ → Dict ℕ V → Type 0
  Within lo n = All (λ (e : ℕ × V). (lo ≤ e.0) × (e.0 < lo + n))

  entries-nil : (lo n : ℕ) → [] ≡ entries {V = V} (λ _. none) lo n
  unfolding entries
  entries-nil lo zero = refl
  entries-nil lo (suc n) = entries-nil (suc lo) n

  pub sorted-entries :
      (d : Dict ℕ V) (lo n : ℕ)
      → IsDict d
      → Within lo n d
      → sorted (λ (e : ℕ × V). e.0) d ≡ entries (λ k. Dict.get k d) lo n
  unfolding sorted Dict.get
  sorted-entries [] lo n h w = entries-nil lo n
  sorted-entries ((k, v) ∷ d) lo n h w =
      ap (insort (λ (e : ℕ × V). e.0) (k, v)) (sorted-entries d lo n h.1 w.1)
      ∙ insort-entries (λ j. Dict.get j d) k v lo n (Dict.get_of_Fresh k d h.0) w.0.0 w.0.1

module _ {ℓ} {V : Type ℓ} where
  entry-get :
      (p : ℕ → Option V) (k : ℕ) (o : Option V) (l : List (ℕ × V))
      → p k ≡ o
      → All (λ (e : ℕ × V). p e.0 ≡ some e.1) l
      → All (λ (e : ℕ × V). p e.0 ≡ some e.1) (entry k o l)
  entry-get p k none l e h = h
  entry-get p k (some v) l e h = (e, h)

  -- What the table lists is what the dict holds.
  pub entries-get :
      (p : ℕ → Option V) (lo n : ℕ) → All (λ (e : ℕ × V). p e.0 ≡ some e.1) (entries p lo n)
  unfolding entries
  entries-get p lo zero = tt
  entries-get p lo (suc n) = entry-get p lo (p lo) _ refl (entries-get p (suc lo) n)
