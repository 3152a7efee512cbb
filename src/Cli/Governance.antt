-- ===== src/Cli/Governance.antt =====
-- The other commands of cmd/grafaincli/cmd_gov.go: proposals, votes, electorates and election rules.
pub mod Pipe
use grafain.Prelude.{
  ℕ, ◌*◌, ◌%◌, ◌^◌, Bool, ◌&&◌, not, Option, none, some, List, [], ◌∷◌, ◌++◌, Bytes, codes, ◌==◌,
  length, eqb, if◌then◌else◌,
}
use grafain.Weave.{ok, err}
use grafain.App.Messages.{
  DeleteProposalMsg, VoteOption, vote_option_yes, vote_option_no, vote_option_abstain, VoteMsg,
  Elector, UpdateElectorateMsg, UpdateElectionRuleMsg, CreateTextResolutionMsg,
}
use grafain.App.Sums.{
  gov_update_electorate_msg, tx_gov_delete_proposal_msg, tx_gov_vote_msg,
  tx_gov_update_electorate_msg, tx_gov_update_election_rule_msg,
}
use grafain.App.Tx.{new_tx, get_msg}
use grafain.Cli.Fraction.{Fraction, uint32}
use grafain.Cli.Commands.{
  Outcome, returned_error, died, Tools, return_write, ignore_write, put_tx, get_tx, schema_one,
}
use grafain.Cli.Proposal.{Codec}

-- `supportedVoteOptions`
unfoldable pub supported_vote_options : List (Bytes × VoteOption)
supported_vote_options =
    (codes "yes", vote_option_yes)
    ∷ (codes "no", vote_option_no)
    ∷ (codes "abstain", vote_option_abstain)
    ∷ []

-- the lookup in this map
unfoldable pub vote_option : Bytes → List (Bytes × VoteOption) → Option VoteOption
vote_option name [] = none
vote_option name ((key, value) ∷ rest) =
    let found = vote_option name rest in if key == name then some value else found

-- `msg.DiffElectors = append(msg.DiffElectors, ...)`
unfoldable pub add_elector : Elector → UpdateElectorateMsg → UpdateElectorateMsg
add_elector e msg = record msg { diff_electors = msg.diff_electors ++ (e ∷ []) }

module _ {P S O : Type 0} (t : Tools P S O) where
  -- `cmdDelProposal`
  unfoldable pub cmd_del_proposal : Bytes → O → Outcome × O
  cmd_del_proposal id w =
      let msg : DeleteProposalMsg = record { metadata = schema_one; proposal_id = id } in
      if eqb (length id) 0
      then (died, w)
      else return_write (put_tx t (new_tx (tx_gov_delete_proposal_msg msg)) w)

  -- `cmdVote`; `address_validate` is `weave.Address.Validate`, as far as it has an error
  unfoldable pub cmd_vote : (Bytes → Bool) → Bytes → Bytes → Bytes → O → Outcome × O
  cmd_vote address_validate id voter selected w =
      if eqb (length id) 0
      then (died, w)
      else if not (eqb (length voter) 0) && not (address_validate voter)
      then (died, w)
      else elim (vote_option selected supported_vote_options) [
        | none ↦ (died, w)
        | some option ↦
            let msg : VoteMsg = record {
              metadata = schema_one;
              proposal_id = id;
              voter = voter;
              selected = option;
            } in
            return_write (put_tx t (new_tx (tx_gov_vote_msg msg)) w)
      ]

  -- `cmdTextResolution`; it writes the message without a header
  unfoldable pub cmd_text_resolution : Codec P → Bytes → O → Outcome × O
  cmd_text_resolution codec text w =
      let msg : CreateTextResolutionMsg = record { metadata = schema_one; resolution = text } in
      if eqb (length text) 0 then (died, w) else elim (codec.marshal_text msg) [
        | none ↦ (returned_error, w)
        | some bytes ↦ return_write (t.write bytes w)
      ]

  -- `cmdUpdateElectorate`
  unfoldable pub cmd_update_electorate : Bytes → O → Outcome × O
  cmd_update_electorate id w =
      let msg : UpdateElectorateMsg = record {
        metadata = schema_one;
        electorate_id = id;
        diff_electors = [];
      } in
      if eqb (length id) 0
      then (died, w)
      else return_write (put_tx t (new_tx (tx_gov_update_electorate_msg msg)) w)

  -- `cmdWithElector`, of an address and a uint weight. The message is the one in the transaction,
  -- which is changed with it.
  unfoldable pub cmd_with_elector : Bytes → ℕ → Option Bool → List Bytes → O → Outcome × O
  cmd_with_elector address weight mode r w =
      if eqb (length address) 0 then (died, w) else elim (get_tx t mode r).0 [
        | none ↦ (returned_error, w)
        | some (tx, n) ↦ elim (get_msg t.extract tx) [
          | err e ↦ (returned_error, w)
          | ok msg ↦ elim msg [
            | gov_update_electorate_msg m ↦
                let e : Elector = record { address = address; weight = uint32 weight } in
                let sum = some (tx_gov_update_electorate_msg (add_elector e m)) in
                ignore_write (put_tx t (record tx { sum = sum }) w)
            | _ ↦ (returned_error, w)
          ]
        ]
      ]

  -- `cmdUpdateElectionRule`; ints are int64 bit patterns, `as_unix_duration` is
  -- `weave.AsUnixDuration`, of a number of nanoseconds
  unfoldable pub cmd_update_election_rule :
      (ℕ → ℕ) → (Fraction → Bool) → Bytes → ℕ → ℕ → ℕ → Option Fraction → O → Outcome × O
  cmd_update_election_rule as_unix_duration fraction_validate id duration num den quorum w =
      let fraction : Fraction = record { numerator = uint32 num; denominator = uint32 den } in
      let msg : UpdateElectionRuleMsg = record {
        metadata = schema_one;
        election_rule_id = id;
        voting_period = as_unix_duration ((duration * 1000000000) % 2 ^ 64);
        threshold = fraction;
        quorum = quorum;
      } in
      if eqb (length id) 0
      then (died, w)
      else if eqb duration 0
      then (died, w)
      else if not (fraction_validate fraction)
      then (died, w)
      else return_write (put_tx t (new_tx (tx_gov_update_election_rule_msg msg)) w)
