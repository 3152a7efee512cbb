-- ===== src/Cli/Sequence.antt =====
-- Sequence values, in cmd/grafaincli/common.go, the flag in flag.go and cmd_sequence.go.
pub mod Laws
use grafain.Prelude.{
  ℕ, ◌-◌, ◌%◌, ◌^◌, ◌<◌, Bool, true, false, Option, none, some, List, [], ◌∷◌, ◌++◌, map, Bytes,
  codes, ◌==◌, length, eqb, ltb, if◌then◌else◌,
}
use grafain.Prelude.BigEndian.{put_uint64, uint64}
use grafain.Prelude.Decimal.{parse_uint, print_uint, Signed, atoi}
use grafain.Prelude.Hex.{hex_encode, hex_decode, base64_decode}

abbrev pub sequence_binary_size : ℕ
sequence_binary_size = 8

-- `sequenceID`
unfoldable pub sequence_id : ℕ → Bytes
sequence_id n = put_uint64 n

-- `fromSequence`
unfoldable pub from_sequence : Bytes → Option ℕ
from_sequence b = if eqb (length b) sequence_binary_size then uint64 b else none

-- `strings.SplitN(s, ":", 2)`: the first part, and the rest if there is a colon
unfoldable pub split_colon : Bytes → Bytes × Option Bytes
split_colon [] = ([], none)
split_colon (c ∷ s) =
    let (part, rest) = split_colon s in if eqb c b':' then ([], some s) else (c ∷ part, rest)

unfoldable pub sized : Option Bytes → Option Bytes
sized none = none
sized (some b) = if eqb (length b) sequence_binary_size then some b else none

unfoldable pub decimal_sequence : Bytes → Option Bytes
decimal_sequence raw = elim (parse_uint raw) [
  | none ↦ none
  | some n ↦ if ltb n 1 then none else some (sequence_id n)
]

-- the switch over the format
unfoldable pub unpack_format : Bytes → Bytes → Option Bytes
unpack_format format raw =
    if format == codes "decimal"
    then decimal_sequence raw
    else if format == codes "hex"
    then sized (hex_decode raw)
    else if format == codes "base64"
    then sized (base64_decode raw)
    else none

-- `unpackSequence`
unfoldable pub unpack_sequence : Bytes → Option Bytes
unpack_sequence [] = none
unpack_sequence (c ∷ s) =
    let (part, rest) = split_colon (c ∷ s) in
    elim rest [ none ↦ unpack_format (codes "decimal") (c ∷ s) | some raw ↦ unpack_format part raw ]

-- `flagseq.String`; `none` is its panic
unfoldable pub flagseq_string : Bytes → Option Bytes
flagseq_string [] = some []
flagseq_string (b ∷ s) = elim (from_sequence (b ∷ s)) [ none ↦ none | some n ↦ some (print_uint n) ]

-- `flagseq.Set`: the new value of the flag, or an error
unfoldable pub flagseq_set : Bytes → Option Bytes
flagseq_set raw = unpack_sequence raw

-- What the loops over the arguments have written: the lines, and whether all went well.
abbrev pub Output : Type 0
Output = List Bytes × Bool

-- `strconv.ParseInt(raw, 10, 64)`, as an int64 bit pattern
unfoldable pub parse_int64 : Bytes → Option ℕ
parse_int64 raw = elim (atoi raw) [
  | none ↦ none
  | some i ↦ some (if i.minus then 2 ^ 64 - i.magnitude else i.magnitude)
]

-- the loop of `cmdAsSequence`
unfoldable pub cmd_as_sequence : List Bytes → Output
cmd_as_sequence [] = ([], true)
cmd_as_sequence (raw ∷ args) =
    let (lines, fine) = cmd_as_sequence args in
    elim (parse_int64 raw) [
      | none ↦ ([], false)
      | some n ↦ (hex_encode (sequence_id n) ∷ lines, fine)
    ]

-- the loop of `cmdFromSequence`
unfoldable pub cmd_from_sequence : List Bytes → Output
cmd_from_sequence [] = ([], true)
cmd_from_sequence (s ∷ args) =
    let (lines, fine) = cmd_from_sequence args in
    elim (hex_decode s) [
      | none ↦ ([], false)
      | some raw ↦ elim (from_sequence raw) [
        | none ↦ ([], false)
        | some n ↦ (print_uint n ∷ lines, fine)
      ]
    ]
