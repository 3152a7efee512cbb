-- ===== src/App/Messages.antt =====
-- The messages that pkg/app/codec.proto names. They are types of weave, except those on artifacts:
-- here with the fields that cmd/grafaincli fills in. `P` stands for the values that are only passed
-- on: the coins, and the messages that no command builds or changes.
use grafain.Prelude.{ℕ, Option, List, Bytes}
use grafain.Weave.{Metadata}
use grafain.Cli.Fraction.{Fraction}

-- `cash.FeeInfo`
pub record FeeInfo (P : Type 0) : Type 0 where
  pub payer : Bytes
  pub fees : Option P

-- `cash.SendMsg`
pub record SendMsg (P : Type 0) : Type 0 where
  pub metadata : Option Metadata
  pub source : Bytes
  pub destination : Bytes
  pub amount : Option P
  pub memo : Bytes
  pub ref : Bytes

-- `escrow.ReleaseMsg`
pub record ReleaseMsg (P : Type 0) : Type 0 where
  pub metadata : Option Metadata
  pub escrow_id : Bytes
  pub amount : List P

-- `multisig.Participant`; a weight is an int32 bit pattern
pub record Participant : Type 0 where
  pub signature : Bytes
  pub weight : ℕ

-- `multisig.CreateMsg`
pub record MultisigCreateMsg : Type 0 where
  pub metadata : Option Metadata
  pub participants : List Participant
  pub activation_threshold : ℕ
  pub admin_threshold : ℕ

-- `multisig.UpdateMsg`
pub record MultisigUpdateMsg : Type 0 where
  pub metadata : Option Metadata
  pub contract_id : Bytes
  pub participants : List Participant
  pub activation_threshold : ℕ
  pub admin_threshold : ℕ

-- `weave.ValidatorUpdate`; the power is an int64 bit pattern
pub record ValidatorUpdate : Type 0 where
  pub key_type : Bytes
  pub key_bytes : Bytes
  pub power : ℕ

-- `validators.ApplyDiffMsg`
pub record ApplyDiffMsg : Type 0 where
  pub metadata : Option Metadata
  pub validator_updates : List ValidatorUpdate

-- `distribution.Destination`; the weight is an int32 bit pattern
pub record Destination : Type 0 where
  pub address : Bytes
  pub weight : ℕ

-- `distribution.ResetMsg`
pub record ResetMsg : Type 0 where
  pub metadata : Option Metadata
  pub revenue_id : Bytes
  pub destinations : List Destination

-- `gov.CreateProposalMsg`; the start time is that of `weave.AsUnixTime`
pub record CreateProposalMsg : Type 0 where
  pub metadata : Option Metadata
  pub title : Bytes
  pub description : Bytes
  pub start_time : ℕ
  pub election_rule_id : Bytes
  pub raw_option : Bytes

-- `gov.DeleteProposalMsg`
pub record DeleteProposalMsg : Type 0 where
  pub metadata : Option Metadata
  pub proposal_id : Bytes

-- `gov.VoteOption`
pub data VoteOption : Type 0 where
  vote_option_invalid vote_option_yes vote_option_no vote_option_abstain : VoteOption

-- `gov.VoteMsg`
pub record VoteMsg : Type 0 where
  pub metadata : Option Metadata
  pub proposal_id : Bytes
  pub voter : Bytes
  pub selected : VoteOption

-- `gov.Elector`; the weight is a uint32
pub record Elector : Type 0 where
  pub address : Bytes
  pub weight : ℕ

-- `gov.UpdateElectorateMsg`
pub record UpdateElectorateMsg : Type 0 where
  pub metadata : Option Metadata
  pub electorate_id : Bytes
  pub diff_electors : List Elector

-- `gov.UpdateElectionRuleMsg`; the period is that of `weave.AsUnixDuration`
pub record UpdateElectionRuleMsg : Type 0 where
  pub metadata : Option Metadata
  pub election_rule_id : Bytes
  pub voting_period : ℕ
  pub threshold : Fraction
  pub quorum : Option Fraction

-- `gov.CreateTextResolutionMsg`
pub record CreateTextResolutionMsg : Type 0 where
  pub metadata : Option Metadata
  pub resolution : Bytes
