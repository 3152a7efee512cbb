-- ===== src/Cli/Proposal.antt =====
-- The command as-proposal of cmd/grafaincli/cmd_gov.go: a proposal to execute the message of a
-- transaction.
pub mod Laws
use grafain.Prelude.{ℕ, Bool, Option, none, some, List, [], ◌∷◌, Bytes}
use grafain.Weave.{Result, ok, err}
use grafain.App.Messages.{CreateProposalMsg, CreateTextResolutionMsg}
use grafain.App.Sums.{
  Msg, cash_send_msg, escrow_release_msg, escrow_update_parties_msg, multisig_update_msg,
  validators_apply_diff_msg, currency_create_msg, execute_batch_msg, distribution_create_msg,
  distribution_msg, distribution_reset_msg, migration_upgrade_schema_msg, gov_update_electorate_msg,
  gov_update_election_rule_msg, gov_create_text_resolution_msg, ProposalBatchSum, union_send_msg,
  union_escrow_release_msg, union_update_escrow_parties_msg, union_multisig_update_msg,
  union_validators_apply_diff_msg, union_distribution_create_msg, union_distribution_msg,
  union_distribution_reset_msg, union_gov_update_electorate_msg, union_gov_update_election_rule_msg,
  union_gov_create_text_resolution_msg, ExecuteProposalBatchMsg, ProposalOption,
  option_cash_send_msg, option_escrow_release_msg, option_update_escrow_parties_msg,
  option_multisig_update_msg, option_validators_apply_diff_msg, option_currency_create_msg,
  option_execute_proposal_batch_msg, option_distribution_create_msg, option_distribution_msg,
  option_distribution_reset_msg, option_migration_upgrade_schema_msg,
  option_gov_update_electorate_msg, option_gov_update_election_rule_msg,
  option_gov_create_text_resolution_msg, tx_gov_create_proposal_msg,
}
use grafain.App.Extract.{Extract}
use grafain.App.Tx.{Tx, new_tx, get_msg, msg_list}
use grafain.Cli.Stream.{read_all}
use grafain.Cli.Commands.{Outcome, returned_error, Tools, return_write, put_tx, get_tx, schema_one}

-- The generated encoding of `ProposalOptions` and of the text resolution.
pub record Codec (P : Type 0) : Type 0 where
  pub marshal_option : ProposalOption P → Option Bytes
  pub unmarshal_option : Bytes → Result (Option (ProposalOption P))
  pub marshal_text : CreateTextResolutionMsg → Option Bytes
  pub unmarshal_text : Bytes → Option CreateTextResolutionMsg

module _ {P : Type 0} where
  -- the inner switch of `toOption`, over a message of a batch; it has no default case
  unfoldable pub proposal_sum : Msg P → Option (ProposalBatchSum P)
  proposal_sum (cash_send_msg m) = some (union_send_msg m)
  proposal_sum (escrow_release_msg m) = some (union_escrow_release_msg m)
  proposal_sum (escrow_update_parties_msg m) = some (union_update_escrow_parties_msg m)
  proposal_sum (multisig_update_msg m) = some (union_multisig_update_msg m)
  proposal_sum (validators_apply_diff_msg m) = some (union_validators_apply_diff_msg m)
  proposal_sum (distribution_create_msg m) = some (union_distribution_create_msg m)
  proposal_sum (distribution_msg m) = some (union_distribution_msg m)
  proposal_sum (distribution_reset_msg m) = some (union_distribution_reset_msg m)
  proposal_sum (gov_update_electorate_msg m) = some (union_gov_update_electorate_msg m)
  proposal_sum (gov_update_election_rule_msg m) = some (union_gov_update_election_rule_msg m)
  proposal_sum (gov_create_text_resolution_msg m) = some (union_gov_create_text_resolution_msg m)
  proposal_sum _ = none

  -- the loop of `toOption` over the messages of a batch
  unfoldable pub proposal_sums : List (Msg P) → List (Option (ProposalBatchSum P))
  proposal_sums [] = []
  proposal_sums (m ∷ ms) = elim (proposal_sum m) [
    | none ↦ proposal_sums ms
    | some s ↦ some s ∷ proposal_sums ms
  ]

  module _ (X : Extract P) where
    -- the outer switch of `toOption`; `none` is an error
    unfoldable pub proposal_option : Msg P → Option (ProposalOption P)
    proposal_option (cash_send_msg m) = some (option_cash_send_msg m)
    proposal_option (escrow_release_msg m) = some (option_escrow_release_msg m)
    proposal_option (escrow_update_parties_msg m) = some (option_update_escrow_parties_msg m)
    proposal_option (multisig_update_msg m) = some (option_multisig_update_msg m)
    proposal_option (validators_apply_diff_msg m) = some (option_validators_apply_diff_msg m)
    proposal_option (currency_create_msg m) = some (option_currency_create_msg m)
    proposal_option (execute_batch_msg m) = elim (msg_list X m) [
      | err e ↦ none
      | ok msgs ↦
          some (option_execute_proposal_batch_msg (record { messages = proposal_sums msgs }))
    ]
    proposal_option (distribution_create_msg m) = some (option_distribution_create_msg m)
    proposal_option (distribution_msg m) = some (option_distribution_msg m)
    proposal_option (distribution_reset_msg m) = some (option_distribution_reset_msg m)
    proposal_option (migration_upgrade_schema_msg m) = some (option_migration_upgrade_schema_msg m)
    proposal_option (gov_update_electorate_msg m) = some (option_gov_update_electorate_msg m)
    proposal_option (gov_update_election_rule_msg m) = some (option_gov_update_election_rule_msg m)
    proposal_option (gov_create_text_resolution_msg m) =
        some (option_gov_create_text_resolution_msg m)
    proposal_option _ = none

    -- `toOption`
    unfoldable pub to_option : Codec P → Msg P → Option Bytes
    to_option codec msg = elim (proposal_option msg) [
      | none ↦ none
      | some option ↦ codec.marshal_option option
    ]

-- `bytes.NewReader`, which has no `Stat`
unfoldable pub bytes_reader : Bytes → List Bytes
bytes_reader [] = []
bytes_reader (c ∷ s) = (c ∷ s) ∷ []

module _ {P S O : Type 0} (t : Tools P S O) (codec : Codec P) where
  -- `readProposalPayloadMsg`
  unfoldable pub read_proposal_payload_msg : List Bytes → Option (Msg P)
  read_proposal_payload_msg input =
      let buf = read_all input in
      elim (get_tx t none (bytes_reader buf)).0 [
        | some (tx, n) ↦ elim (get_msg t.extract tx) [ err e ↦ none | ok msg ↦ some msg ]
        | none ↦ elim (codec.unmarshal_text buf) [
          | none ↦ none
          | some msg ↦ some (gov_create_text_resolution_msg msg)
        ]
      ]

  -- `cmdAsProposal`, of the title, the description, the start time and the election rule
  unfoldable pub cmd_as_proposal : Bytes → Bytes → ℕ → Bytes → List Bytes → O → Outcome × O
  cmd_as_proposal title desc start e_rule input w = elim (read_proposal_payload_msg input) [
    | none ↦ (returned_error, w)
    | some msg ↦ elim (to_option t.extract codec msg) [
      | none ↦ (returned_error, w)
      | some raw_option ↦
          let msg' : CreateProposalMsg = record {
            metadata = schema_one;
            title = title;
            description = desc;
            start_time = start;
            election_rule_id = e_rule;
            raw_option = raw_option;
          } in
          return_write (put_tx t (new_tx (tx_gov_create_proposal_msg msg')) w)
    ]
  ]
