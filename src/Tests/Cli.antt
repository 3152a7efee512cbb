-- ===== src/Tests/Cli.antt =====
-- cmd/grafaincli on a few values.
use grafain.Prelude.{
  All, ◌≡◌, ◌≢◌, refl, true, false, none, some, [], ◌∷◌, ◌++◌, map, Bytes, codes, bytes_dec, split,
  arith,
}
use grafain.Prelude.BigEndian.{put_uint32, uint32, put_uint64}
use grafain.Prelude.Decimal.{print_uint, atoi, parse_magnitude, value_from, parse_uint}
use grafain.Prelude.Hex.{
  hex_decode, hex_value, base64_decode, base64_groups, base64_value, skip_newlines,
}
use grafain.Weave.{copy}
use grafain.Weave.Sample.{sample_weave}
use grafain.Rbac.Bindings.{build_key, new_binding}
use grafain.Cli.Query.{
  Remote, cmd_query, lookup_query, queries, enc_id, dec_key, key_values, query_path,
}
use grafain.Cli.Keys.{
  string_id, string_key, numeric_id, without_db_prefix, role_binding_key,
  role_binding_key-build_key,
}
use grafain.Cli.Sequence.{
  sequence_id, unpack_sequence, unpack_format, decimal_sequence, split_colon, sized,
  cmd_as_sequence, cmd_from_sequence,
}
use grafain.Cli.Sequence.Laws.{cmd_from-as_sequence}
use grafain.Cli.Fraction.{Fraction, unpack_fraction, uint32 as to_uint32, fraction_string}
use grafain.Cli.Stream.{read, read_full, read_all, read_body, read_header, read_tx, write_tx}
use grafain.Cli.Stream.Laws.{append_to, read_tx-write_tx}

no_colon : All (λ c. c ≢ b':') (codes "rolebind")
no_colon = (
  λ e. absurd (omega arith),
  (
    λ e. absurd (omega arith),
    (
      λ e. absurd (omega arith),
      (
        λ e. absurd (omega arith),
        (
          λ e. absurd (omega arith),
          (λ e. absurd (omega arith), (λ e. absurd (omega arith), (λ e. absurd (omega arith), tt))),
        ),
      ),
    ),
  ),
)

abbrev seven : Bytes
seven = 0 ∷ 0 ∷ 0 ∷ 0 ∷ 0 ∷ 0 ∷ 0 ∷ 7 ∷ []

decimal_seven : unpack_sequence (codes "7") ≡ some seven
unfolding unpack_sequence unpack_format decimal_sequence split_colon sequence_id put_uint64
    parse_uint value_from bytes_dec
decimal_seven = refl

test_unpack :
    (unpack_sequence (codes "hex:0000000000000007") ≡ some seven)
    × (unpack_sequence (codes "base64:AAAAAAAAAAc=") ≡ some seven)
    × (unpack_sequence (codes "0") ≡ none)
    × (unpack_sequence (codes "hex:07") ≡ none)
    × (unpack_sequence (codes "oct:7") ≡ none)
unfolding unpack_sequence unpack_format decimal_sequence split_colon sized sequence_id put_uint64
    parse_uint value_from bytes_dec hex_decode hex_value base64_decode base64_groups base64_value
    skip_newlines
test_unpack = (refl, refl, refl, refl, refl)

-- A numerator beyond uint32 is cut off with no error, and the fraction 0/2 loses its denominator.
test_fraction :
    (unpack_fraction (codes "4294967297/2") ≡ some (record { numerator = 1; denominator = 2 }))
    × (unpack_fraction (codes "1/0") ≡ none)
    × (unpack_fraction (codes "-1") ≡ none)
    × (fraction_string (some (record { numerator = 0; denominator = 2 })) ≡ codes "0")
unfolding unpack_fraction to_uint32 fraction_string split atoi parse_magnitude value_from
test_fraction = (refl, refl, refl, refl)

-- A header that comes in two chunks is not put together: the size is read as 0.
test_short_header :
    (read_tx (λ b. some b) none ((0 ∷ []) ∷ (0 ∷ 0 ∷ 2 ∷ 5 ∷ 6 ∷ []) ∷ [])).0 ≡ some ([], 4)
unfolding read_tx read_header read read_body read_full copy uint32
test_short_header = refl

cmd_from-as_sequence_example :
    cmd_from_sequence (cmd_as_sequence (map print_uint (1 ∷ 258 ∷ []))).0
    ≡ (map print_uint (1 ∷ 258 ∷ []), true)
cmd_from-as_sequence_example = cmd_from-as_sequence (1 ∷ 258 ∷ []) (omega arith, (omega arith, tt))

abbrev two_thirds : Fraction
two_thirds = record { numerator = 2; denominator = 3 }

-- a transaction of the bytes 5 and 6, in three chunks with one byte more
piped : none ≢ some false
piped e = cc

whole :
    read_all ((0 ∷ 0 ∷ 0 ∷ 2 ∷ 5 ∷ []) ∷ (6 ∷ 9 ∷ []) ∷ [])
    ≡ (write_tx append_to (λ b. some b) (5 ∷ 6 ∷ []) []).1 ++ (9 ∷ [])
unfolding read_all write_tx append_to put_uint32
whole = refl

read_tx-write_tx_example :
    ((read_tx (λ b. some b) none ((0 ∷ 0 ∷ 0 ∷ 2 ∷ 5 ∷ []) ∷ (6 ∷ 9 ∷ []) ∷ [])).0
      ≡ some (5 ∷ 6 ∷ [], (write_tx append_to (λ b. some b) (5 ∷ 6 ∷ []) []).0.0))
    × (read_all (read_tx (λ b. some b) none ((0 ∷ 0 ∷ 0 ∷ 2 ∷ 5 ∷ []) ∷ (6 ∷ 9 ∷ []) ∷ [])).1
        ≡ 9 ∷ [])
read_tx-write_tx_example =
    read_tx-write_tx (λ b. some b) (λ b. some b) (5 ∷ 6 ∷ []) (0 ∷ 0 ∷ 0 ∷ 2 ∷ 5 ∷ [])
      ((6 ∷ 9 ∷ []) ∷ []) (9 ∷ []) none piped refl refl (omega arith) (omega arith) whole

abbrev alice : Bytes
alice = codes "alice---------------"

role_binding_key-build_key_example :
    role_binding_key
      (λ a. a)
      (codes "rolebind" ++ b':' ∷ build_key (new_binding (put_uint64 3) alice))
    ≡ some (alice ++ (b'/' ∷ print_uint 3))
role_binding_key-build_key_example =
    role_binding_key-build_key (λ a. a) (codes "rolebind") alice 3 no_colon refl (omega arith)

-- a node with one artifact, whose models are their bytes
abbrev remote : Remote Bytes
remote = record {
  marshal_versioned_id = λ id version. id ++ version ∷ [];
  unmarshal_versioned_id = λ b. none;
  parse_address = λ s. none;
  address_string = λ a. a;
  abci_query = λ path id. (record { models = (codes "artifact:nginx", id) ∷ []; height = 1 }, none);
  unmarshal = λ path b. some b;
}

test_query :
    (cmd_query remote (codes "/artifacts") (codes "nginx") false
      ≡ some ((codes "nginx", codes "nginx") ∷ []))
    × (cmd_query remote (codes "/none") [] false ≡ none)
    × (cmd_query remote (codes "/rbac/roles") (codes "x") false ≡ none)
unfolding cmd_query lookup_query queries enc_id dec_key key_values query_path string_id string_key
    numeric_id without_db_prefix split_colon parse_uint value_from bytes_dec
test_query = (refl, refl, refl)
