-- ===== src/Tests/Commands.antt =====
-- The commands of cmd/grafaincli that read and write transactions.
use grafain.Prelude.{
  ℕ, ◌≡◌, ◌≢◌, ◌↔◌, ◌⊎◌, refl, true, false, none, some, Option, List, [], ◌∷◌, Bytes, codes, All,
  arith, bytes_dec,
}
use grafain.Prelude.BigEndian.{uint32, put_uint32}
use grafain.Weave.{panic, ok, err, copy}
use grafain.Weave.Sample.{sample_weave}
use grafain.App.Sums.{
  union_distribution_msg, Msg, escrow_return_msg, distribution_msg, execute_batch_msg,
  execute_proposal_batch_msg, BatchSum, ExecuteBatchMsg, ExecuteProposalBatchMsg,
  batch_escrow_return_msg, batch_msg, batch_distribution_msg, tx_msg,
}
use grafain.App.Tx.{get_msg, msg_list, batch_msgs, proposal_msg_list, decode_proposal_options}
use grafain.Cli.Stream.{
  read, read_full, read_all, read_body, read_header, read_tx, write_tx, at_eof, header_eof,
}
use grafain.Cli.Commands.{done, Tools, get_tx, put_tx, ignore_write}
use grafain.Cli.Batch.{batch_sum, read_batch}
use grafain.Cli.Batch.Ends.{read_batch-returns}
use grafain.Cli.Proposal.{proposal_sum, proposal_sums, proposal_option, to_option}
use grafain.Cli.Proposal.Laws.{VotableOf, decode_proposal_options-to_option}
use grafain.Cli.Multisig.{add_participant, cmd_with_multisig_participant}
use grafain.Cli.Multisig.Laws.{ForMultisig, cmd_with_multisig_participant-done_iff}
use grafain.Cli.Submit.{format_responses, formatters, formatter, Paths, Responses, response_at}
use grafain.Cli.Submit.Laws.{format_responses-in_range, formatters-Calm}
use grafain.Cli.Key.{Crypto, validate_mnemonic, join_space}
use grafain.Cli.Key.Laws.{IsWord, validate_mnemonic_iff}
use grafain.Tests.Messages.{
  SampleTx, sample_tools, sample_extract, sample_extract-IsExtract, sample_codec,
  decode_encode_option,
}

-- two transactions, in one chunk
abbrev two : List Bytes
two = (0 ∷ 0 ∷ 0 ∷ 1 ∷ 1 ∷ 0 ∷ 0 ∷ 0 ∷ 1 ∷ 2 ∷ []) ∷ []

read_batch-returns_example :
    (res : Option (List (Option (BatchSum ℕ)))) × (read_batch sample_tools 12 none two []
      ≡ some res)
read_batch-returns_example = read_batch-returns sample_tools none 12 two [] (omega arith)

-- A batch of two messages: a return of an escrow, which no proposal has, and a distribution. The
-- proposal holds the second only.
abbrev mixed : ExecuteBatchMsg ℕ
mixed = record {
  messages = some (batch_escrow_return_msg 7) ∷ some (batch_distribution_msg 9) ∷ [];
}

mixed_option : to_option sample_extract sample_codec (execute_batch_msg mixed) ≡ some (9 ∷ [])
unfolding to_option proposal_option msg_list batch_msgs proposal_sums proposal_sum batch_msg
mixed_option = refl

decode_proposal_options-to_option_example :
    (decode_proposal_options sample_extract sample_codec.unmarshal_option (9 ∷ [])
      ≡ ok (execute_batch_msg mixed))
    ⊎ ((b : ExecuteBatchMsg ℕ) × (msgs : List (Msg ℕ)) × (pb : ExecuteProposalBatchMsg ℕ)
        × (execute_batch_msg mixed ≡ execute_batch_msg b)
        × (msg_list sample_extract b ≡ ok msgs)
        × (decode_proposal_options sample_extract sample_codec.unmarshal_option (9 ∷ [])
            ≡ ok (execute_proposal_batch_msg pb))
        × ((votes : List (Msg ℕ)) × (proposal_msg_list sample_extract pb ≡ ok votes)
            × VotableOf msgs votes))
decode_proposal_options-to_option_example =
    decode_proposal_options-to_option sample_extract sample_extract-IsExtract sample_codec
      decode_encode_option (execute_batch_msg mixed) mixed_option

test_votable :
    proposal_sums {P = ℕ} (escrow_return_msg 7 ∷ distribution_msg 9 ∷ [])
    ≡ some (union_distribution_msg 9) ∷ []
unfolding proposal_sum proposal_sums
test_votable = refl

-- an output that fails
abbrev broken : Tools ℕ (Unit {0}) Bytes
broken = record sample_tools { write = λ b w. ((0, false), w) }

abbrev one : List Bytes
one = (0 ∷ 0 ∷ 0 ∷ 1 ∷ 3 ∷ []) ∷ []

cmd_with_multisig_participant-done_iff_example :
    ((cmd_with_multisig_participant broken (λ n. n) (codes "alice") 1 none one []).0 ≡ done) ↔ (
      (tx : SampleTx) × (size : ℕ) × (msg : Msg ℕ) × ((get_tx broken none one).0 ≡ some (tx, size))
      × (get_msg sample_extract tx ≡ ok msg)
      × ForMultisig msg)
cmd_with_multisig_participant-done_iff_example =
    cmd_with_multisig_participant-done_iff broken (λ n. n) (codes "alice") 1 none one []

-- The command reports success although nothing was written.
test_nothing_written :
    cmd_with_multisig_participant broken (λ n. n) (codes "alice") 1 none one [] ≡ (done, [])
unfolding cmd_with_multisig_participant add_participant get_tx read_tx read_header read_body read
    read_full uint32 copy get_msg tx_msg put_tx write_tx ignore_write put_uint32
test_nothing_written = refl

abbrev paths : Paths
paths = record {
  aswap_create = codes "aswap/create";
  distribution_create = codes "distribution/create";
  escrow_create = codes "escrow/create";
  gov_create_proposal = codes "gov/create_proposal";
  gov_create_text_resolution = codes "gov/create_text_resolution";
  paychan_create = codes "paychan/create";
}

abbrev responses : Responses ℕ
responses = record { path = λ m. codes "escrow/create"; byte_array_list = λ b. none }

format_responses-in_range_example :
    format_responses responses (formatters paths) (escrow_return_msg 7 ∷ []) ((0 ∷ []) ∷ [])
    ≢ err panic
format_responses-in_range_example =
    format_responses-in_range responses (formatters paths) (formatters-Calm paths)
      (escrow_return_msg 7 ∷ []) ((0 ∷ []) ∷ []) (omega arith)

-- A message without a response makes the command panic.
test_missing_response :
    format_responses responses (formatters paths) (escrow_return_msg 7 ∷ []) [] ≡ err panic
unfolding format_responses formatters formatter bytes_dec response_at
test_missing_response = refl

abbrev crypto : Crypto
crypto = record {
  entropy_from_mnemonic = λ m. some (1 ∷ []);
  new_seed = λ m. m;
  derive_for_path = λ p s. some s;
  generate_key = λ k. some k;
  new_entropy = λ n. none;
  new_mnemonic = λ e. none;
  public_key = λ k. k;
  address = λ k. k;
  address_string = λ k. k;
  sum256 = λ b. b;
  bech32_encode = λ p h. none;
}

validate_mnemonic_iff_example : (validate_mnemonic crypto (codes "shy fog") ≡ true) ↔ (
    (ws : List Bytes) × (entropy : Bytes) × All IsWord ws
    × (codes "shy fog" ≡ join_space ws)
    × (crypto.entropy_from_mnemonic (codes "shy fog") ≡ some entropy))
validate_mnemonic_iff_example = validate_mnemonic_iff crypto (codes "shy fog")

-- An input that is cut off behind the header of its second transaction makes a batch of the first.
test_cut_off :
    read_batch sample_tools 3 none ((0 ∷ 0 ∷ 0 ∷ 1 ∷ 1 ∷ 0 ∷ 0 ∷ 0 ∷ 1 ∷ []) ∷ []) []
    ≡ some (some (some (batch_escrow_return_msg 7) ∷ []))
unfolding read_batch batch_sum get_tx read_tx read_header read_body read read_full uint32 copy
    get_msg at_eof header_eof tx_msg read_all
test_cut_off = refl
