-- ===== src/Common/Numerals.antt =====
-- The numerals that the programs put into texts, as Python formats them.
pub mod Values
use Prim.Native.String.{◌++◌}
use stream_pipeline.Prelude.{
  ℕ, zero, suc, ◌+◌, ◌-◌, ◌/◌, ◌%◌, String, List, [], ◌∷◌, ltb, if◌then◌else◌,
}

abbrev digit_in : ℕ → List String → String
digit_in n [] = ""
digit_in zero (x ∷ xs) = x
digit_in (suc n) (x ∷ xs) = digit_in n xs

abbrev pub digit : ℕ → String
digit n = digit_in n ("0" ∷ "1" ∷ "2" ∷ "3" ∷ "4" ∷ "5" ∷ "6" ∷ "7" ∷ "8" ∷ "9" ∷ [])

-- The decimal numeral of a number with at most `suc more` digits, and how many it has.
abbrev pub numeral : ℕ → ℕ → String
numeral zero n = digit n
numeral (suc more) n =
    let leading = numeral more (n / 10) in if ltb n 10 then digit n else leading ++ digit (n % 10)

abbrev width : ℕ → ℕ → ℕ
width zero n = 1
width (suc more) n = let leading = width more (n / 10) in if ltb n 10 then 1 else leading + 1

-- `f"{n}"`
abbrev pub decimal : ℕ → String
decimal n = numeral n n

abbrev pub zeros : ℕ → String
zeros zero = ""
zeros (suc n) = "0" ++ zeros n

-- `f"{n:0{w}d}"`
abbrev pub padded : ℕ → ℕ → String
padded w n = zeros (w - width n n) ++ decimal n

abbrev hex_digit : ℕ → String
hex_digit n = digit_in n (
    "0" ∷ "1" ∷ "2" ∷ "3" ∷ "4" ∷ "5" ∷ "6" ∷ "7" ∷ "8" ∷ "9" ∷ "a" ∷ "b" ∷ "c" ∷ "d" ∷ "e" ∷ "f"
    ∷ [])

-- `f"{n:0{w}x}"`, of a number below 16 ** w
abbrev pub hexadecimal : ℕ → ℕ → String
hexadecimal zero n = ""
hexadecimal (suc w) n = hexadecimal w (n / 16) ++ hex_digit (n % 16)
