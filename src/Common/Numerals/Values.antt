-- ===== src/Common/Numerals/Values.antt =====
-- A numeral can be read back, so that different numbers have different numerals.
use Prim.Native.Char.{code}
use Prim.Native.String.append
use Prim.Native.String.{[] as empty_text, ◌∷◌ as text_cons, ◌++◌}
use stream_pipeline.Prelude.{
  ℕ, zero, suc, ◌+◌, ◌-◌, ◌*◌, ◌/◌, ◌%◌, ◌<◌, ◌≤◌, ◌≡◌, refl, sym, ap, ◌∙◌, String, Bool-cases, inl,
  inr, ltb, arith,
}
use stream_pipeline.Common.Numerals.{digit, numeral, decimal, zeros, padded}

-- The number that a text of digits says, after those that say `acc`.
value_from : ℕ → String → ℕ
value_from acc empty_text = acc
value_from acc (text_cons c s) = value_from (acc * 10 + (code c - 48)) s

value_from-append :
    (acc : ℕ) (s t : String) → value_from acc (s ++ t) ≡ value_from (value_from acc s) t
unfolding value_from
value_from-append acc empty_text t = ap (value_from acc) (append.nil t)
value_from-append acc (text_cons c s) t =
    ap (value_from acc) (append.cons c s t) ∙ value_from-append (acc * 10 + (code c - 48)) s t

value_from-digit : (acc n : ℕ) → n < 10 → value_from acc (digit n) ≡ acc * 10 + n
unfolding value_from
value_from-digit acc zero lt = refl
value_from-digit acc (suc zero) lt = refl
value_from-digit acc (suc (suc zero)) lt = refl
value_from-digit acc (suc (suc (suc zero))) lt = refl
value_from-digit acc (suc (suc (suc (suc zero)))) lt = refl
value_from-digit acc (suc (suc (suc (suc (suc zero))))) lt = refl
value_from-digit acc (suc (suc (suc (suc (suc (suc zero)))))) lt = refl
value_from-digit acc (suc (suc (suc (suc (suc (suc (suc zero))))))) lt = refl
value_from-digit acc (suc (suc (suc (suc (suc (suc (suc (suc zero)))))))) lt = refl
value_from-digit acc (suc (suc (suc (suc (suc (suc (suc (suc (suc zero))))))))) lt = refl
value_from-digit acc (suc (suc (suc (suc (suc (suc (suc (suc (suc (suc n)))))))))) lt =
    absurd (omega (arith, lt))

value_from-numeral : (more n : ℕ) → n ≤ more → value_from 0 (numeral more n) ≡ n
value_from-numeral zero n le = value_from-digit 0 n (omega (arith, le)) ∙ omega arith
value_from-numeral (suc more) n le = elim (Bool-cases (ltb n 10)) [
  | inl b ↦ rw b (value_from-digit 0 n (ground (arith, b)) ∙ omega arith)
  | inr b ↦
      let leading = value_from-numeral more (n / 10) (ground (arith, b, le)) in
      rw b (
        value_from-append 0 (numeral more (n / 10)) (digit (n % 10))
        ∙ (ap (λ acc. value_from acc (digit (n % 10))) leading
            ∙ (value_from-digit (n / 10) (n % 10) (omega arith) ∙ omega arith)))
]

value_from-zeros : (n : ℕ) → value_from 0 (zeros n) ≡ 0
unfolding value_from
value_from-zeros zero = refl
value_from-zeros (suc n) = value_from-append 0 "0" (zeros n) ∙ value_from-zeros n

value_from-padded : (w n : ℕ) → value_from 0 (padded w n) ≡ n
value_from-padded w n =
    value_from-append 0 _ (decimal n)
    ∙ (ap (λ acc. value_from acc (decimal n)) (value_from-zeros _)
        ∙ value_from-numeral n n (omega arith))

-- Different numbers have different numerals, whatever the width.
pub padded-injective : (w m n : ℕ) → padded w m ≡ padded w n → m ≡ n
padded-injective w m n same =
    sym (value_from-padded w m) ∙ (ap (value_from 0) same ∙ value_from-padded w n)
