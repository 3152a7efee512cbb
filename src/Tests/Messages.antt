-- ===== src/Tests/Messages.antt =====
-- Transactions of weave's values as numbers, for the tests of pkg/app and of the commands.
use grafain.Prelude.{
  ℕ, ◌≡◌, refl, sym, ap, eqb, if◌then◌else◌, Option, none, some, List, [], ◌∷◌, Bytes, arith,
}
use grafain.Weave.{other, Result, ok, err}
use grafain.App.Messages.{MultisigCreateMsg}
use grafain.App.Sums.{
  ProposalBatchSum, ProposalOption, tx_msg, batch_msg, proposal_batch_msg, option_msg, cron_msg,
  tx_escrow_return_msg, tx_currency_create_msg, tx_multisig_create_msg, union_distribution_msg,
  option_execute_proposal_batch_msg,
}
use grafain.App.Extract.{Extract, IsExtract}
use grafain.App.Tx.{Tx, new_tx}
use grafain.Cli.Stream.Laws.{append_to}
use grafain.Cli.Commands.{Tools}
use grafain.Cli.Proposal.{Codec}

abbrev pub SampleTx : Type 0
SampleTx = Tx ℕ (Unit {0})

abbrev pub extract_with : {A B : Type 0} → (A → B) → Option A → Result B
extract_with f none = err (other 0)
extract_with f (some s) = ok (f s)

abbrev pub sample_extract : Extract ℕ
sample_extract = record {
  tx_sum = extract_with tx_msg;
  batch_sum = extract_with batch_msg;
  proposal_batch_sum = extract_with proposal_batch_msg;
  option_sum = extract_with option_msg;
  cron_sum = extract_with cron_msg;
}

pub sample_extract-IsExtract : IsExtract sample_extract
sample_extract-IsExtract = record {
  tx_sum-some = λ s. refl;
  batch_sum-some = λ s. refl;
  proposal_batch_sum-some = λ s. refl;
  option_sum-some = λ s. refl;
  cron_sum-some = λ s. refl;
  batch_sum-none = (other 0, refl);
  cron_sum-none = (other 0, refl);
}

abbrev pub contract : MultisigCreateMsg
contract = record {
  metadata = none;
  participants = [];
  activation_threshold = 1;
  admin_threshold = 1;
}

-- Transactions that are one byte long.
abbrev pub sample_unmarshal : Bytes → Option SampleTx
sample_unmarshal (n ∷ []) =
    if eqb n 1
    then some (new_tx (tx_escrow_return_msg 7))
    else if eqb n 2
    then some (new_tx (tx_currency_create_msg 8))
    else if eqb n 3
    then some (new_tx (tx_multisig_create_msg contract))
    else none
sample_unmarshal _ = none

abbrev pub sample_tools : Tools ℕ (Unit {0}) Bytes
sample_tools = record {
  extract = sample_extract;
  marshal = λ tx. some (5 ∷ []);
  unmarshal = sample_unmarshal;
  write = append_to;
}

-- Of the options only a batch of one distribution can be encoded.
abbrev pub encode_batch : List (Option (ProposalBatchSum ℕ)) → Option Bytes
encode_batch (some (union_distribution_msg n) ∷ []) = some (n ∷ [])
encode_batch _ = none

abbrev pub encode_option : ProposalOption ℕ → Option Bytes
encode_option (option_execute_proposal_batch_msg b) = encode_batch b.messages
encode_option _ = none

abbrev pub decode_option : Bytes → Result (Option (ProposalOption ℕ))
decode_option (n ∷ []) = ok (
    some (
      option_execute_proposal_batch_msg
        (record { messages = some (union_distribution_msg n) ∷ [] })))
decode_option _ = err (other 0)

abbrev pub sample_codec : Codec ℕ
sample_codec = record {
  marshal_option = encode_option;
  unmarshal_option = decode_option;
  marshal_text = λ m. some m.resolution;
  unmarshal_text = λ b. none;
}

decode-encode_batch :
    (ms : List (Option (ProposalBatchSum ℕ))) (raw : Bytes)
    → encode_batch ms ≡ some raw
    → decode_option raw ≡ ok (some (option_execute_proposal_batch_msg (record { messages = ms })))
decode-encode_batch (some (union_distribution_msg n) ∷ []) raw h =
    let same : n ∷ [] ≡ raw = ground (arith, h) in ap decode_option (sym same)
decode-encode_batch _ raw h = absurd (ground arith)

pub decode_encode_option :
    (o : ProposalOption ℕ) (raw : Bytes)
    → encode_option o ≡ some raw
    → decode_option raw ≡ ok (some o)
decode_encode_option (option_execute_proposal_batch_msg b) raw h =
    decode-encode_batch b.messages raw h
decode_encode_option _ raw h = absurd (ground arith)
