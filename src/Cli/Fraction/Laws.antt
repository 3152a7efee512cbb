-- ===== src/Cli/Fraction/Laws.antt =====
-- What a fraction flag prints, and what it reads back.
use grafain.Prelude.{
  ℕ, ◌%◌, ◌^◌, ◌<◌, ◌≡◌, ◌≢◌, ap, ◌∙◌, inl, inr, true, some, List, [], ◌∷◌, ◌++◌, Bytes, eqb, split,
  split_plain, split-append, All, arith, Bool-cases,
}
use grafain.Prelude.Decimal.{atoi-print_uint, print_uint, print_uint-All, is_digit}
use grafain.Cli.Fraction.{Fraction, uint32, unpack_fraction, fraction_string, fraction_set}

no_slash : (s : Bytes) → All (λ c. is_digit c ≡ true) s → All (λ c. c ≢ b'/') s
no_slash [] h = tt
no_slash (c ∷ s) (digit, h) = (λ e. absurd (ground arith), no_slash s h)

split_one : (n : ℕ) → split b'/' (print_uint n) ≡ print_uint n ∷ []
split_one n = split_plain b'/' (print_uint n) (no_slash (print_uint n) (print_uint-All n))

split_two :
    (n d : ℕ)
    → split b'/' (print_uint n ++ (b'/' ∷ print_uint d)) ≡ print_uint n ∷ print_uint d ∷ []
split_two n d =
    split-append b'/' (print_uint n) (print_uint d) (no_slash (print_uint n) (print_uint-All n))
    ∙ ap (λ (l : List Bytes). print_uint n ∷ l) (split_one d)

unpack_one :
    (n : ℕ)
    → 0 < n
    → n < 2 ^ 32
    → unpack_fraction (print_uint n) ≡ some (record { numerator = n; denominator = 1 })
unfolding unpack_fraction uint32
unpack_one n positive h =
    let fits : n % 2 ^ 32 ≡ n = omega arith in
    ground (arith, split_one n, atoi-print_uint n (omega arith), fits)

unpack_two :
    (n d : ℕ)
    → n < 2 ^ 32
    → 0 < d
    → d < 2 ^ 32
    → unpack_fraction (print_uint n ++ (b'/' ∷ print_uint d))
      ≡ some (record { numerator = n; denominator = d })
unfolding unpack_fraction uint32
unpack_two n d h positive h' =
    let fits : n % 2 ^ 32 ≡ n = omega arith in
    let fits' : d % 2 ^ 32 ≡ d = omega arith in
    ground (
      arith,
      split_two n d,
      atoi-print_uint n (omega arith),
      atoi-print_uint d (omega arith),
      fits,
      fits',
    )

-- A fraction of uint32 numbers other than 0 is read back as it was printed.
pub fraction_set-string :
    (f : Fraction)
    → 0 < f.numerator
    → f.numerator < 2 ^ 32
    → 0 < f.denominator
    → f.denominator < 2 ^ 32
    → fraction_set (fraction_string (some f)) ≡ some (some f)
unfolding fraction_set fraction_string
fraction_set-string f n n' d d' = elim (Bool-cases (eqb f.denominator 1)) [
  | inl whole ↦ ground (arith, unpack_one f.numerator n n')
  | inr part ↦ ground (arith, unpack_two f.numerator f.denominator n' d d')
]
