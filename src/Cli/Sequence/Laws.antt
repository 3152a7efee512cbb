-- ===== src/Cli/Sequence/Laws.antt =====
-- The notations of a sequence value are read back as the value.
use grafain.Prelude.{
  ℕ, ◌^◌, ◌<◌, ◌≡◌, refl, ap, inl, inr, true, Option, none, some, List, [], ◌∷◌, ◌++◌, map, Bytes,
  codes, ◌==◌, ==_refl, length, All, arith, Bool-cases, Option-cases, bytes_dec,
}
use grafain.Prelude.BigEndian.{put_uint64, uint64-put_uint64, length-put_uint64}
use grafain.Prelude.Decimal.{
  parse_uint, print_uint, parse_uint-print_uint, atoi-print_uint, print_uint-All, is_digit,
}
use grafain.Prelude.Hex.{hex_encode, hex_decode, base64_decode, hex_decode-hex_encode}
use grafain.Cli.Sequence.{
  sequence_id, from_sequence, split_colon, sized, decimal_sequence, unpack_format, unpack_sequence,
  flagseq_string, flagseq_set, parse_int64, cmd_as_sequence, cmd_from_sequence,
}

-- `fromSequence` is the opposite of `sequenceID`.
pub from_sequence-sequence_id : (n : ℕ) → n < 2 ^ 64 → from_sequence (sequence_id n) ≡ some n
unfolding from_sequence sequence_id
from_sequence-sequence_id n h = ground (arith, length-put_uint64 n, uint64-put_uint64 n h)

length-sized : (o : Option Bytes) {b : Bytes} → sized o ≡ some b → length b ≡ 8
unfolding sized
length-sized none h = cc
length-sized (some b) h = ground arith

length-unpack_format :
    (format raw : Bytes) {b : Bytes} → unpack_format format raw ≡ some b → length b ≡ 8
unfolding unpack_format decimal_sequence sequence_id
length-unpack_format format raw {b} h = elim (Bool-cases (format == codes "decimal")) [
  | inl decimal ↦ elim (Option-cases (parse_uint raw)) [
    | inl bad ↦ absurd (ground arith)
    | inr (n, read) ↦ ground (arith, length-put_uint64 n, ap (λ (o : Option Bytes). o) h)
  ]
  | inr other ↦
      ground
        (arith, length-sized (hex_decode raw) {b = b}, length-sized (base64_decode raw) {b = b})
]

length-sequence_id : (n : ℕ) → length (sequence_id n) ≡ 8
unfolding sequence_id
length-sequence_id n = length-put_uint64 n

-- A sequence value that is read has eight bytes, in whatever format it was given.
pub length-unpack_sequence : (raw : Bytes) {b : Bytes} → unpack_sequence raw ≡ some b → length b ≡ 8
unfolding unpack_sequence
length-unpack_sequence [] h = cc
length-unpack_sequence (c ∷ s) h = elim (Option-cases (split_colon (c ∷ s)).1) [
  | inl plain ↦ length-unpack_format (codes "decimal") (c ∷ s) (ground arith)
  | inr (raw, prefixed) ↦ length-unpack_format (split_colon (c ∷ s)).0 raw (ground arith)
]

split_colon-none : (s : Bytes) → All (λ c. is_digit c ≡ true) s → (split_colon s).1 ≡ none
unfolding split_colon
split_colon-none [] h = refl
split_colon-none (c ∷ s) (digit, h) = ground (arith, split_colon-none s h)

read_decimal :
    (text : Bytes) {n : ℕ}
    → 0 < n
    → All (λ c. is_digit c ≡ true) text
    → parse_uint text ≡ some n
    → unpack_sequence text ≡ some (sequence_id n)
unfolding unpack_sequence unpack_format decimal_sequence
read_decimal [] positive h read = absurd (unfold parse_uint in cc)
read_decimal (c ∷ s) positive h read =
    ground (arith, ==_refl (codes "decimal"), split_colon-none (c ∷ s) h)

put_uint64-All : (n : ℕ) → All (λ b. b < 256) (put_uint64 n)
unfolding put_uint64
put_uint64-All n = (
  omega arith,
  (
    omega arith,
    (omega arith, (omega arith, (omega arith, (omega arith, (omega arith, (omega arith, tt)))))),
  ),
)

string_of : (n : ℕ) → n < 2 ^ 64 → flagseq_string (sequence_id n) ≡ some (print_uint n)
unfolding flagseq_string
string_of n h = ground (arith, from_sequence-sequence_id n h, length-sequence_id n)

-- What a sequence flag prints, it reads back as the same value; this needs a number other than 0.
pub flagseq_set-string :
    (n : ℕ)
    → 0 < n
    → n < 2 ^ 64
    → (text : Bytes) × (flagseq_string (sequence_id n) ≡ some text)
      × (flagseq_set text ≡ some (sequence_id n))
unfolding flagseq_set
flagseq_set-string n positive h = (
  print_uint n,
  string_of n h,
  read_decimal (print_uint n) positive (print_uint-All n) (parse_uint-print_uint n h),
)

-- The hexadecimal form is read back too.
pub unpack_sequence-hex_encode :
    (n : ℕ) → unpack_sequence (codes "hex:" ++ hex_encode (sequence_id n)) ≡ some (sequence_id n)
unfolding unpack_sequence unpack_format sized sequence_id split_colon bytes_dec
unpack_sequence-hex_encode n =
    ground (arith, hex_decode-hex_encode (put_uint64 n) (put_uint64-All n), length-put_uint64 n)

hex_decode-sequence_id : (n : ℕ) → hex_decode (hex_encode (sequence_id n)) ≡ some (sequence_id n)
unfolding sequence_id
hex_decode-sequence_id n = hex_decode-hex_encode (put_uint64 n) (put_uint64-All n)

parse_int64-print_uint : (n : ℕ) → n < 2 ^ 63 → parse_int64 (print_uint n) ≡ some n
unfolding parse_int64
parse_int64-print_uint n h = ground (arith, atoi-print_uint n h)

-- The two commands are inverse: of what as-sequence prints for numbers, from-sequence prints the
-- numbers.
pub cmd_from-as_sequence :
    (ns : List ℕ)
    → All (λ n. n < 2 ^ 63) ns
    → cmd_from_sequence (cmd_as_sequence (map print_uint ns)).0 ≡ (map print_uint ns, true)
unfolding cmd_from_sequence cmd_as_sequence
cmd_from-as_sequence [] h = refl
cmd_from-as_sequence (n ∷ ns) (small, h) = ground (
  arith,
  parse_int64-print_uint n small,
  hex_decode-sequence_id n,
  from_sequence-sequence_id n (omega arith),
  cmd_from-as_sequence ns h,
)
