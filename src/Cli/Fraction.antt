-- ===== src/Cli/Fraction.antt =====
-- Fractions in cmd/grafaincli/flag.go: `gov.Fraction` as a flag.
pub mod Laws
use grafain.Prelude.{
  ℕ, ◌%◌, ◌^◌, Bool, true, false, Option, none, some, List, [], ◌∷◌, ◌++◌, Bytes, codes, eqb, split,
  if◌then◌else◌,
}
use grafain.Prelude.Decimal.{Signed, atoi, print_uint}

-- `gov.Fraction`
pub record Fraction : Type 0 where
  pub numerator : ℕ
  pub denominator : ℕ

-- `uint32(n)` of an int that is not negative
unfoldable pub uint32 : ℕ → ℕ
uint32 n = n % 2 ^ 32

-- `unpackFraction`
unfoldable pub unpack_fraction : Bytes → Option Fraction
unpack_fraction s = elim (split b'/' s) [
  | a ∷ [] ↦ elim (atoi a) [
    | none ↦ none
    | some n ↦
        if n.minus
        then none
        else if eqb n.magnitude 0
        then some (record { numerator = 0; denominator = 0 })
        else some (record { numerator = uint32 n.magnitude; denominator = 1 })
  ]
  | a ∷ b ∷ [] ↦ elim (atoi a) [
    | none ↦ none
    | some n ↦ if n.minus then none else elim (atoi b) [
      | none ↦ none
      | some d ↦
          if d.minus
          then none
          else if eqb d.magnitude 0
          then none
          else some (record { numerator = uint32 n.magnitude; denominator = uint32 d.magnitude })
    ]
  ]
  | _ ↦ none
]

-- `flagfraction.String`
unfoldable pub fraction_string : Option Fraction → Bytes
fraction_string none = []
fraction_string (some f) =
    if eqb f.numerator 0
    then codes "0"
    else if eqb f.denominator 1
    then print_uint f.numerator
    else print_uint f.numerator ++ (b'/' ∷ print_uint f.denominator)

-- `flagfraction.Set`: the new value of the flag, or an error
unfoldable pub fraction_set : Bytes → Option (Option Fraction)
fraction_set raw = elim (unpack_fraction raw) [ none ↦ none | some f ↦ some (some f) ]
