-- ===== src/Dlq/Base64.antt =====
-- `base64.b64encode` and `b64decode` of the standard library, on bytes as numbers.
use stream_pipeline.Prelude.{
  ℕ, ◌+◌, ◌-◌, ◌*◌, ◌/◌, ◌%◌, ◌<◌, ◌≡◌, refl, Bool, true, false, ◌&&◌, Option, none, some, List, [],
  ◌∷◌, ◌++◌, All, arith, ltb, leb, ◌==◌, if◌then◌else◌,
}

unfoldable pub symbol : ℕ → ℕ
symbol n =
    if ltb n 26
    then n + 65
    else if ltb n 52
    then n + 71
    else if ltb n 62
    then n - 52 + 48
    else if n == 62
    then 43
    else 47

unfoldable pub sextet : ℕ → Option ℕ
sextet c =
    if leb 65 c && leb c 90
    then some (c - 65)
    else if leb 97 c && leb c 122
    then some (c - 71)
    else if leb 48 c && leb c 57
    then some (c + 4)
    else if c == 43
    then some 62
    else if c == 47
    then some 63
    else none

abbrev pad : ℕ
pad = b'='

unfoldable pub b64encode : List ℕ → List ℕ
b64encode [] = []
b64encode (a ∷ []) = symbol (a / 4) ∷ symbol (a % 4 * 16) ∷ pad ∷ pad ∷ []
b64encode (a ∷ b ∷ []) =
    symbol (a / 4) ∷ symbol (a % 4 * 16 + b / 16) ∷ symbol (b % 16 * 4) ∷ pad ∷ []
b64encode (a ∷ b ∷ c ∷ rest) =
    symbol (a / 4)
    ∷ symbol (a % 4 * 16 + b / 16)
    ∷ symbol (b % 16 * 4 + c / 64)
    ∷ symbol (c % 64)
    ∷ b64encode rest

-- the three bytes, or two or one before padding, of four symbols
quantum : Option ℕ → Option ℕ → Option ℕ → Option ℕ → Bool → Bool → Option (List ℕ)
quantum (some p) (some q) _ _ true _ = some ((p * 4 + q / 16) ∷ [])
quantum (some p) (some q) (some r) _ false true =
    some ((p * 4 + q / 16) ∷ (q % 16 * 16 + r / 4) ∷ [])
quantum (some p) (some q) (some r) (some s) false false =
    some ((p * 4 + q / 16) ∷ (q % 16 * 16 + r / 4) ∷ (r % 4 * 64 + s) ∷ [])
quantum _ _ _ _ _ _ = none

prepend : Option (List ℕ) → Option (List ℕ) → Option (List ℕ)
prepend (some xs) (some ys) = some (xs ++ ys)
prepend _ _ = none

-- The text must have whole groups of four, padded at its end; any other is an error here.
unfoldable pub b64decode : List ℕ → Option (List ℕ)
unfolding quantum prepend
b64decode [] = some []
b64decode (p ∷ q ∷ r ∷ s ∷ rest) =
    prepend (quantum (sextet p) (sextet q) (sextet r) (sextet s) (r == pad && s == pad) (s == pad))
      (b64decode rest)
b64decode _ = none

sextet-symbol : (n : ℕ) → n < 64 → sextet (symbol n) ≡ some n
unfolding sextet symbol
sextet-symbol n h = ground arith

symbol-ne-pad : (n : ℕ) → n < 64 → (symbol n == pad) ≡ false
unfolding symbol
symbol-ne-pad n h = ground arith

sextet-pad : sextet pad ≡ none
unfolding sextet
sextet-pad = refl

group_of_three :
    (a b c : ℕ)
    → a < 256
    → b < 256
    → c < 256
    → ((a / 4 * 4 + (a % 4 * 16 + b / 16) / 16 ≡ a)
        × ((a % 4 * 16 + b / 16) % 16 * 16 + (b % 16 * 4 + c / 64) / 4 ≡ b)
        × ((b % 16 * 4 + c / 64) % 4 * 64 + c % 64 ≡ c))
group_of_three a b c ha hb hc = (omega arith, omega arith, omega arith)

-- Decoding what was encoded gives the bytes back.
pub b64decode-b64encode :
    (bytes : List ℕ) → All (λ b. b < 256) bytes → b64decode (b64encode bytes) ≡ some bytes
unfolding b64decode b64encode
b64decode-b64encode [] h = refl
b64decode-b64encode (a ∷ []) h = ground (arith, sextet-symbol (a / 4), sextet-symbol (a % 4 * 16))
b64decode-b64encode (a ∷ b ∷ []) h = ground (
  arith,
  sextet-symbol (a / 4),
  sextet-symbol (a % 4 * 16 + b / 16),
  sextet-symbol (b % 16 * 4),
  symbol-ne-pad (b % 16 * 4),
)
b64decode-b64encode (a ∷ b ∷ c ∷ rest) h =
    let (first, second, third) = group_of_three a b c h.0 h.1.0 h.1.1.0 in
    rw (
      sextet-symbol (a / 4) (omega (arith, h.0)),
      sextet-symbol (a % 4 * 16 + b / 16) (omega (arith, h.1.0)),
      sextet-symbol (b % 16 * 4 + c / 64) (omega (arith, h.1.1.0)),
      sextet-symbol (c % 64) (omega arith),
      symbol-ne-pad (b % 16 * 4 + c / 64) (omega (arith, h.1.1.0)),
      symbol-ne-pad (c % 64) (omega arith),
      b64decode-b64encode rest h.1.1.1,
      first,
      second,
      third,
    )
