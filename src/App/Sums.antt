-- ===== src/App/Sums.antt =====
-- The oneof fields of pkg/app/codec.proto, and the message in each. `weave.ExtractMsgFromSum`, which
-- takes the message out by reflection, is the parameter `Extract`. A nil field is `none`.
use grafain.Prelude.{Option, List}
use grafain.Artifact.Model.{CreateArtifactMsg, DeleteArtifactMsg}
use grafain.App.Messages.{
  SendMsg, ReleaseMsg, MultisigCreateMsg, MultisigUpdateMsg, ApplyDiffMsg, ResetMsg,
  CreateProposalMsg, DeleteProposalMsg, VoteMsg, UpdateElectorateMsg, UpdateElectionRuleMsg,
  CreateTextResolutionMsg,
}

-- `ExecuteBatchMsg_Union`, its sum
pub data BatchSum (P : Type 0) : Type 0 where
  batch_cash_send_msg : SendMsg P → BatchSum P
  batch_escrow_create_msg : P → BatchSum P
  batch_escrow_release_msg : ReleaseMsg P → BatchSum P
  batch_escrow_return_msg : P → BatchSum P
  batch_escrow_update_parties_msg : P → BatchSum P
  batch_multisig_create_msg : MultisigCreateMsg → BatchSum P
  batch_multisig_update_msg : MultisigUpdateMsg → BatchSum P
  batch_validators_apply_diff_msg : ApplyDiffMsg → BatchSum P
  batch_currency_create_msg : P → BatchSum P
  batch_distribution_create_msg : P → BatchSum P
  batch_distribution_msg : P → BatchSum P
  batch_distribution_reset_msg : ResetMsg → BatchSum P

-- `ExecuteBatchMsg`
pub record ExecuteBatchMsg (P : Type 0) : Type 0 where
  pub messages : List (Option (BatchSum P))

-- `ExecuteProposalBatchMsg_Union`, its sum
pub data ProposalBatchSum (P : Type 0) : Type 0 where
  union_send_msg : SendMsg P → ProposalBatchSum P
  union_escrow_release_msg : ReleaseMsg P → ProposalBatchSum P
  union_update_escrow_parties_msg : P → ProposalBatchSum P
  union_multisig_update_msg : MultisigUpdateMsg → ProposalBatchSum P
  union_validators_apply_diff_msg : ApplyDiffMsg → ProposalBatchSum P
  union_distribution_create_msg : P → ProposalBatchSum P
  union_distribution_msg : P → ProposalBatchSum P
  union_distribution_reset_msg : ResetMsg → ProposalBatchSum P
  union_gov_update_electorate_msg : UpdateElectorateMsg → ProposalBatchSum P
  union_gov_update_election_rule_msg : UpdateElectionRuleMsg → ProposalBatchSum P
  union_gov_create_text_resolution_msg : CreateTextResolutionMsg → ProposalBatchSum P

-- `ExecuteProposalBatchMsg`
pub record ExecuteProposalBatchMsg (P : Type 0) : Type 0 where
  pub messages : List (Option (ProposalBatchSum P))

-- `weave.Msg`, at the types that the source switches over; each constructor is one of them
pub data Msg (P : Type 0) : Type 0 where
  cash_send_msg : SendMsg P → Msg P
  escrow_create_msg : P → Msg P
  escrow_release_msg : ReleaseMsg P → Msg P
  escrow_return_msg : P → Msg P
  escrow_update_parties_msg : P → Msg P
  multisig_create_msg : MultisigCreateMsg → Msg P
  multisig_update_msg : MultisigUpdateMsg → Msg P
  validators_apply_diff_msg : ApplyDiffMsg → Msg P
  currency_create_msg : P → Msg P
  execute_batch_msg : ExecuteBatchMsg P → Msg P
  execute_proposal_batch_msg : ExecuteProposalBatchMsg P → Msg P
  distribution_create_msg : P → Msg P
  distribution_msg : P → Msg P
  distribution_reset_msg : ResetMsg → Msg P
  migration_upgrade_schema_msg : P → Msg P
  aswap_create_msg : P → Msg P
  aswap_release_msg : P → Msg P
  aswap_return_msg : P → Msg P
  gov_create_proposal_msg : CreateProposalMsg → Msg P
  gov_delete_proposal_msg : DeleteProposalMsg → Msg P
  gov_vote_msg : VoteMsg → Msg P
  gov_tally_msg : P → Msg P
  gov_update_electorate_msg : UpdateElectorateMsg → Msg P
  gov_update_election_rule_msg : UpdateElectionRuleMsg → Msg P
  gov_create_text_resolution_msg : CreateTextResolutionMsg → Msg P
  create_artifact_msg : CreateArtifactMsg → Msg P
  delete_artifact_msg : DeleteArtifactMsg → Msg P

-- `Tx`, its sum
pub data TxSum (P : Type 0) : Type 0 where
  tx_cash_send_msg : SendMsg P → TxSum P
  tx_escrow_create_msg : P → TxSum P
  tx_escrow_release_msg : ReleaseMsg P → TxSum P
  tx_escrow_return_msg : P → TxSum P
  tx_escrow_update_parties_msg : P → TxSum P
  tx_multisig_create_msg : MultisigCreateMsg → TxSum P
  tx_multisig_update_msg : MultisigUpdateMsg → TxSum P
  tx_validators_apply_diff_msg : ApplyDiffMsg → TxSum P
  tx_currency_create_msg : P → TxSum P
  tx_execute_batch_msg : ExecuteBatchMsg P → TxSum P
  tx_distribution_create_msg : P → TxSum P
  tx_distribution_msg : P → TxSum P
  tx_distribution_reset_msg : ResetMsg → TxSum P
  tx_migration_upgrade_schema_msg : P → TxSum P
  tx_aswap_create_msg : P → TxSum P
  tx_aswap_release_msg : P → TxSum P
  tx_aswap_return_msg : P → TxSum P
  tx_gov_create_proposal_msg : CreateProposalMsg → TxSum P
  tx_gov_delete_proposal_msg : DeleteProposalMsg → TxSum P
  tx_gov_vote_msg : VoteMsg → TxSum P
  tx_gov_update_electorate_msg : UpdateElectorateMsg → TxSum P
  tx_gov_update_election_rule_msg : UpdateElectionRuleMsg → TxSum P
  tx_create_artifact_msg : CreateArtifactMsg → TxSum P
  tx_delete_artifact_msg : DeleteArtifactMsg → TxSum P

-- `ProposalOptions`, its option
pub data ProposalOption (P : Type 0) : Type 0 where
  option_cash_send_msg : SendMsg P → ProposalOption P
  option_escrow_release_msg : ReleaseMsg P → ProposalOption P
  option_update_escrow_parties_msg : P → ProposalOption P
  option_multisig_update_msg : MultisigUpdateMsg → ProposalOption P
  option_validators_apply_diff_msg : ApplyDiffMsg → ProposalOption P
  option_currency_create_msg : P → ProposalOption P
  option_execute_proposal_batch_msg : ExecuteProposalBatchMsg P → ProposalOption P
  option_distribution_create_msg : P → ProposalOption P
  option_distribution_msg : P → ProposalOption P
  option_distribution_reset_msg : ResetMsg → ProposalOption P
  option_migration_upgrade_schema_msg : P → ProposalOption P
  option_gov_update_electorate_msg : UpdateElectorateMsg → ProposalOption P
  option_gov_update_election_rule_msg : UpdateElectionRuleMsg → ProposalOption P
  option_gov_create_text_resolution_msg : CreateTextResolutionMsg → ProposalOption P

-- `CronTask`, its sum
pub data CronSum (P : Type 0) : Type 0 where
  cron_escrow_release_msg : ReleaseMsg P → CronSum P
  cron_escrow_return_msg : P → CronSum P
  cron_distribution_distribute_msg : P → CronSum P
  cron_aswap_release_msg : P → CronSum P
  cron_gov_tally_msg : P → CronSum P

module _ {P : Type 0} where
  -- the message in a transaction
  unfoldable pub tx_msg : TxSum P → Msg P
  tx_msg (tx_cash_send_msg m) = cash_send_msg m
  tx_msg (tx_escrow_create_msg m) = escrow_create_msg m
  tx_msg (tx_escrow_release_msg m) = escrow_release_msg m
  tx_msg (tx_escrow_return_msg m) = escrow_return_msg m
  tx_msg (tx_escrow_update_parties_msg m) = escrow_update_parties_msg m
  tx_msg (tx_multisig_create_msg m) = multisig_create_msg m
  tx_msg (tx_multisig_update_msg m) = multisig_update_msg m
  tx_msg (tx_validators_apply_diff_msg m) = validators_apply_diff_msg m
  tx_msg (tx_currency_create_msg m) = currency_create_msg m
  tx_msg (tx_execute_batch_msg m) = execute_batch_msg m
  tx_msg (tx_distribution_create_msg m) = distribution_create_msg m
  tx_msg (tx_distribution_msg m) = distribution_msg m
  tx_msg (tx_distribution_reset_msg m) = distribution_reset_msg m
  tx_msg (tx_migration_upgrade_schema_msg m) = migration_upgrade_schema_msg m
  tx_msg (tx_aswap_create_msg m) = aswap_create_msg m
  tx_msg (tx_aswap_release_msg m) = aswap_release_msg m
  tx_msg (tx_aswap_return_msg m) = aswap_return_msg m
  tx_msg (tx_gov_create_proposal_msg m) = gov_create_proposal_msg m
  tx_msg (tx_gov_delete_proposal_msg m) = gov_delete_proposal_msg m
  tx_msg (tx_gov_vote_msg m) = gov_vote_msg m
  tx_msg (tx_gov_update_electorate_msg m) = gov_update_electorate_msg m
  tx_msg (tx_gov_update_election_rule_msg m) = gov_update_election_rule_msg m
  tx_msg (tx_create_artifact_msg m) = create_artifact_msg m
  tx_msg (tx_delete_artifact_msg m) = delete_artifact_msg m

  -- the message in an element of a batch
  unfoldable pub batch_msg : BatchSum P → Msg P
  batch_msg (batch_cash_send_msg m) = cash_send_msg m
  batch_msg (batch_escrow_create_msg m) = escrow_create_msg m
  batch_msg (batch_escrow_release_msg m) = escrow_release_msg m
  batch_msg (batch_escrow_return_msg m) = escrow_return_msg m
  batch_msg (batch_escrow_update_parties_msg m) = escrow_update_parties_msg m
  batch_msg (batch_multisig_create_msg m) = multisig_create_msg m
  batch_msg (batch_multisig_update_msg m) = multisig_update_msg m
  batch_msg (batch_validators_apply_diff_msg m) = validators_apply_diff_msg m
  batch_msg (batch_currency_create_msg m) = currency_create_msg m
  batch_msg (batch_distribution_create_msg m) = distribution_create_msg m
  batch_msg (batch_distribution_msg m) = distribution_msg m
  batch_msg (batch_distribution_reset_msg m) = distribution_reset_msg m

  -- the message in an element of a proposal's batch
  unfoldable pub proposal_batch_msg : ProposalBatchSum P → Msg P
  proposal_batch_msg (union_send_msg m) = cash_send_msg m
  proposal_batch_msg (union_escrow_release_msg m) = escrow_release_msg m
  proposal_batch_msg (union_update_escrow_parties_msg m) = escrow_update_parties_msg m
  proposal_batch_msg (union_multisig_update_msg m) = multisig_update_msg m
  proposal_batch_msg (union_validators_apply_diff_msg m) = validators_apply_diff_msg m
  proposal_batch_msg (union_distribution_create_msg m) = distribution_create_msg m
  proposal_batch_msg (union_distribution_msg m) = distribution_msg m
  proposal_batch_msg (union_distribution_reset_msg m) = distribution_reset_msg m
  proposal_batch_msg (union_gov_update_electorate_msg m) = gov_update_electorate_msg m
  proposal_batch_msg (union_gov_update_election_rule_msg m) = gov_update_election_rule_msg m
  proposal_batch_msg (union_gov_create_text_resolution_msg m) = gov_create_text_resolution_msg m

  -- the message in a proposal's option
  unfoldable pub option_msg : ProposalOption P → Msg P
  option_msg (option_cash_send_msg m) = cash_send_msg m
  option_msg (option_escrow_release_msg m) = escrow_release_msg m
  option_msg (option_update_escrow_parties_msg m) = escrow_update_parties_msg m
  option_msg (option_multisig_update_msg m) = multisig_update_msg m
  option_msg (option_validators_apply_diff_msg m) = validators_apply_diff_msg m
  option_msg (option_currency_create_msg m) = currency_create_msg m
  option_msg (option_execute_proposal_batch_msg m) = execute_proposal_batch_msg m
  option_msg (option_distribution_create_msg m) = distribution_create_msg m
  option_msg (option_distribution_msg m) = distribution_msg m
  option_msg (option_distribution_reset_msg m) = distribution_reset_msg m
  option_msg (option_migration_upgrade_schema_msg m) = migration_upgrade_schema_msg m
  option_msg (option_gov_update_electorate_msg m) = gov_update_electorate_msg m
  option_msg (option_gov_update_election_rule_msg m) = gov_update_election_rule_msg m
  option_msg (option_gov_create_text_resolution_msg m) = gov_create_text_resolution_msg m

  -- the message in a task
  unfoldable pub cron_msg : CronSum P → Msg P
  cron_msg (cron_escrow_release_msg m) = escrow_release_msg m
  cron_msg (cron_escrow_return_msg m) = escrow_return_msg m
  cron_msg (cron_distribution_distribute_msg m) = distribution_msg m
  cron_msg (cron_aswap_release_msg m) = aswap_release_msg m
  cron_msg (cron_gov_tally_msg m) = gov_tally_msg m
