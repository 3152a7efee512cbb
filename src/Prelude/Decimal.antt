-- ===== src/Prelude/Decimal.antt =====
-- Decimal numbers of Go: `fmt.Sprint` of an unsigned number, `strconv.ParseUint` and `strconv.Atoi`.
use Prim.Native.Nat.{ℕ, zero, suc, ◌+◌, ◌-◌, ◌*◌, ◌/◌, ◌%◌, ◌^◌, ◌<◌}
use mathlib.Core.Path.{◌≡◌, refl, ap, ◌∙◌}
use mathlib.Core.Bool.{Bool, true, false, ◌&&◌}
use mathlib.Core.List.{[], ◌∷◌}
use mathlib.Core.Option.{Option, none, some}
use native.Mathlib.Omega.{arith}
use native.Mathlib.Nat.{pow-succ'}
use mathlib.Core.Logic.{inl, inr}
use grafain.Prelude.Tests.{leb, ltb, eqb, if◌then◌else◌, Bool-cases}
use grafain.Prelude.Lists.{All}
use grafain.Prelude.Text.{Bytes}

abbrev pub is_digit : ℕ → Bool
is_digit c = leb b'0' c && leb c b'9'

-- the number that digits give behind those that have been read
unfoldable pub value_from : ℕ → Bytes → Option ℕ
value_from acc [] = some acc
value_from acc (c ∷ s) = if is_digit c then value_from (acc * 10 + (c - b'0')) s else none

-- a number of at most `fuel` digits, in front of a text
unfoldable pub digits : ℕ → ℕ → Bytes → Bytes
digits zero n rest = rest
digits (suc fuel) n rest =
    if ltb n 10 then (b'0' + n) ∷ rest else digits fuel (n / 10) ((b'0' + n % 10) ∷ rest)

-- `fmt.Sprint(n)` of a uint64; twenty digits are enough
unfoldable pub print_uint : ℕ → Bytes
print_uint n = digits 20 n []

-- `strconv.ParseUint(s, 10, 64)`
unfoldable pub parse_uint : Bytes → Option ℕ
parse_uint [] = none
parse_uint (c ∷ s) = elim (value_from 0 (c ∷ s)) [
  | none ↦ none
  | some n ↦ if ltb n (2 ^ 64) then some n else none
]

-- An int of Go: whether it is below 0, and its magnitude.
pub record Signed : Type 0 where
  pub minus : Bool
  pub magnitude : ℕ

-- the digits of `strconv.Atoi` behind the sign
unfoldable pub parse_magnitude : Bool → Bytes → Option Signed
parse_magnitude minus [] = none
parse_magnitude minus (c ∷ s) = elim (value_from 0 (c ∷ s)) [
  | none ↦ none
  | some n ↦
      if ltb n (if minus then 2 ^ 63 + 1 else 2 ^ 63)
      then some (record { minus = minus && ltb 0 n; magnitude = n })
      else none
]

-- `strconv.Atoi` on a machine of 64 bits
unfoldable pub atoi : Bytes → Option Signed
atoi [] = none
atoi (c ∷ s) =
    if eqb c b'-'
    then parse_magnitude true s
    else if eqb c b'+'
    then parse_magnitude false s
    else parse_magnitude false (c ∷ s)

power : (fuel n : ℕ) → n < 10 ^ suc fuel → n / 10 < 10 ^ fuel
power fuel n h = omega (arith, pow-succ' 10 fuel)

value_from-digits :
    (fuel n : ℕ) (rest : Bytes)
    → n < 10 ^ fuel
    → value_from 0 (digits fuel n rest) ≡ value_from n rest
unfolding value_from digits
value_from-digits zero n rest h = ap (λ (m : ℕ). value_from m rest) {x = 0} {y = n} (omega arith)
value_from-digits (suc fuel) n rest h = elim (Bool-cases (ltb n 10)) [
  | inl small ↦
      let code : is_digit (b'0' + n) ≡ true = ground arith in
      let back : 0 * 10 + (b'0' + n - b'0') ≡ n = omega arith in rw (small, code, back) refl
  | inr big ↦
      let code : is_digit (b'0' + n % 10) ≡ true = ground arith in
      let back : n / 10 * 10 + (b'0' + n % 10 - b'0') ≡ n = omega arith in
      rw big (
        value_from-digits fuel (n / 10) ((b'0' + n % 10) ∷ rest) (power fuel n h)
        ∙ rw (code, back) refl)
]

-- digits of a number that begin with a digit
digits-cons :
    (fuel n : ℕ) (rest : Bytes)
    → (c : ℕ) × (s : Bytes) × (digits (suc fuel) n rest ≡ c ∷ s) × (is_digit c ≡ true)
unfolding digits
digits-cons zero n rest = elim (Bool-cases (ltb n 10)) [
  | inl small ↦ (b'0' + n, rest, rw small refl, ground arith)
  | inr big ↦ (b'0' + n % 10, rest, rw big refl, ground arith)
]
digits-cons (suc fuel) n rest = elim (Bool-cases (ltb n 10)) [
  | inl small ↦ (b'0' + n, rest, rw small refl, ground arith)
  | inr big ↦
      let (c, s, starts, digit) = digits-cons fuel (n / 10) ((b'0' + n % 10) ∷ rest) in
      (c, s, rw big starts, digit)
]

pub parse_uint-print_uint : (n : ℕ) → n < 2 ^ 64 → parse_uint (print_uint n) ≡ some n
unfolding parse_uint print_uint
parse_uint-print_uint n h =
    let (c, s, starts, _) = digits-cons 19 n [] in
    let value : value_from 0 (digits 20 n []) ≡ some n =
      value_from-digits 20 n [] (omega arith) ∙ unfold value_from in refl in
    ground (arith, starts, value)

digits-All :
    (fuel n : ℕ) (rest : Bytes)
    → All (λ c. is_digit c ≡ true) rest
    → All (λ c. is_digit c ≡ true) (digits fuel n rest)
unfolding digits
digits-All zero n rest h = h
digits-All (suc fuel) n rest h = elim (Bool-cases (ltb n 10)) [
  | inl small ↦ let code : is_digit (b'0' + n) ≡ true = ground arith in rw small (code, h)
  | inr big ↦
      let code : is_digit (b'0' + n % 10) ≡ true = ground arith in
      rw big (digits-All fuel (n / 10) ((b'0' + n % 10) ∷ rest) (code, h))
]

-- A printed number has no other letters than digits.
pub print_uint-All : (n : ℕ) → All (λ c. is_digit c ≡ true) (print_uint n)
unfolding print_uint
print_uint-All n = digits-All 20 n [] tt

-- It is not empty, and begins with a digit.
pub print_uint-cons : (n : ℕ) → (c : ℕ) × (s : Bytes) × (print_uint n ≡ c ∷ s) × (is_digit c ≡ true)
unfolding print_uint
print_uint-cons n = digits-cons 19 n []

-- `Atoi` reads a printed number below 2 ^ 63 as it is.
pub atoi-print_uint :
    (n : ℕ) → n < 2 ^ 63 → atoi (print_uint n) ≡ some (record { minus = false; magnitude = n })
unfolding atoi parse_magnitude print_uint
atoi-print_uint n h =
    let (c, s, starts, digit) = digits-cons 19 n [] in
    let value : value_from 0 (digits 20 n []) ≡ some n =
      value_from-digits 20 n [] (omega arith) ∙ unfold value_from in refl in
    let value' : value_from 0 (c ∷ s) ≡ some n = rw (← starts) value in
    let fits : ltb n (2 ^ 63) ≡ true = ground arith in rw starts (ground (arith, value', fits))
