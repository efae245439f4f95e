-- ===== src/Quality/Suites/Bounds.antt =====
-- The bounds of a row count against the counts that were observed.
use stream_pipeline.Prelude.{
  ℕ, ◌+◌, ◌*◌, ◌≤◌, ◌<◌, ◌≡◌, ◌↔◌, refl, ◌⊎◌, inl, inr, Option, none, some, List, [], ◌∷◌, All,
  max_of, last_n, arith,
}
use stream_pipeline.Quality.Suites.{int_median, rowcount_bounds}

-- Whether a row count lies within bounds: no upper bound where there is none.
abbrev pub Within : ℕ → ℕ × Option ℕ → Type 0
Within n (floor, none) = floor ≤ n
Within n (floor, some ceiling) = (floor ≤ n) × (n ≤ ceiling)

le-max_of : (k : ℕ) (ns : List ℕ) → max_of ns ≤ k → All (λ n. n ≤ k) ns
le-max_of k [] h = tt
le-max_of k (n ∷ ns) h = (omega arith, le-max_of k ns (omega arith))

max_of-le : (k : ℕ) (ns : List ℕ) → All (λ n. n ≤ k) ns → max_of ns ≤ k
max_of-le k [] h = omega arith
max_of-le k (n ∷ ns) h = omega (arith, h.0, max_of-le k ns h.1)

le_or_lt : (a b : ℕ) → (a ≤ b) ⊎ (b < a)
le_or_lt a b = ground arith

-- A count lies within the bounds of a history exactly if the table has not shrunk below any count
-- of the history and, unless there is no history, has grown by no more than 1000 above the largest
-- count, or else to no more than 1000 above four times the median of the last ten. So without a
-- history every count lies within the bounds.
pub rowcount_bounds-Within :
    (history : List ℕ) (n : ℕ)
    → Within n (rowcount_bounds history) ↔ (
        All (λ old. old ≤ n) history
        × ((history ≡ [])
            ⊎ ((n ≤ max_of history + 1000) ⊎ (n ≤ int_median (last_n 10 history) * 4 + 1000))))
unfolding rowcount_bounds
rowcount_bounds-Within [] n = (λ h. (tt, inl refl), λ h. omega arith)
rowcount_bounds-Within (x ∷ xs) n = (
  λ h. (
    le-max_of n (x ∷ xs) h.0,
    inr (elim (le_or_lt n (max_of (x ∷ xs) + 1000)) [
      | inl le ↦ inl le
      | inr lt ↦ inr (omega (arith, h, lt))
    ]),
  ),
  λ (all, g). elim g [ inl never ↦ cc | inr g ↦ (max_of-le n (x ∷ xs) all, ground arith) ],
)
