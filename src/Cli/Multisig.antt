-- ===== src/Cli/Multisig.antt =====
-- cmd/grafaincli/cmd_multisig.go: multisig contracts, and transactions that use them.
pub mod Laws
pub mod Pipe
use grafain.Prelude.{
  ℕ, Bool, Option, none, some, List, [], ◌∷◌, ◌++◌, Bytes, length, eqb, if◌then◌else◌,
}
use grafain.Weave.{ok, err}
use grafain.App.Messages.{Participant, MultisigCreateMsg, MultisigUpdateMsg}
use grafain.App.Sums.{
  Msg, multisig_create_msg, multisig_update_msg, TxSum, tx_multisig_create_msg,
  tx_multisig_update_msg,
}
use grafain.App.Tx.{Tx, new_tx, get_msg}
use grafain.Cli.Sequence.{unpack_sequence}
use grafain.Cli.Commands.{
  Outcome, done, returned_error, died, Tools, return_write, ignore_write, put_tx, get_tx,
  schema_one,
}

-- The switch of `cmdWithMultisigParticipant`: the message of the transaction with one participant
-- more; `none` is the default case.
unfoldable pub add_participant : {P : Type 0} → Participant → Msg P → Option (TxSum P)
add_participant p (multisig_create_msg m) =
    some (tx_multisig_create_msg (record m { participants = m.participants ++ (p ∷ []) }))
add_participant p (multisig_update_msg m) =
    some (tx_multisig_update_msg (record m { participants = m.participants ++ (p ∷ []) }))
add_participant p _ = none

-- the loop of `cmdWithMultisig` over the arguments, which extends the list of contracts
unfoldable pub attach_contracts : List Bytes → List Bytes → Option (List Bytes)
attach_contracts multisig [] = some multisig
attach_contracts multisig (mid ∷ args) = elim (unpack_sequence mid) [
  | none ↦ none
  | some seq ↦ attach_contracts (multisig ++ (seq ∷ [])) args
]

-- `weight` is the conversion of a uint into `multisig.Weight`
module _ {P S O : Type 0} (t : Tools P S O) (weight : ℕ → ℕ) where
  -- `cmdMultisig`
  unfoldable pub cmd_multisig : Bytes → ℕ → ℕ → O → Outcome × O
  cmd_multisig update activation admin w =
      let updated : MultisigUpdateMsg = record {
        metadata = schema_one;
        contract_id = update;
        participants = [];
        activation_threshold = weight activation;
        admin_threshold = weight admin;
      } in
      let created : MultisigCreateMsg = record {
        metadata = schema_one;
        participants = [];
        activation_threshold = weight activation;
        admin_threshold = weight admin;
      } in
      if eqb activation 0
      then (died, w)
      else if eqb admin 0
      then (died, w)
      else if eqb (length update) 0
      then return_write (put_tx t (new_tx (tx_multisig_create_msg created)) w)
      else return_write (put_tx t (new_tx (tx_multisig_update_msg updated)) w)

  -- `cmdWithMultisigParticipant`. The message is the one in the transaction, which is changed with
  -- it.
  unfoldable pub cmd_with_multisig_participant :
      Bytes → ℕ → Option Bool → List Bytes → O → Outcome × O
  cmd_with_multisig_participant sig n mode r w = elim (get_tx t mode r).0 [
    | none ↦ (returned_error, w)
    | some (tx, size) ↦ elim (get_msg t.extract tx) [
      | err e ↦ (returned_error, w)
      | ok msg ↦ elim (add_participant (record { signature = sig; weight = weight n }) msg) [
        | none ↦ (returned_error, w)
        | some s ↦ ignore_write (put_tx t (record tx { sum = some s }) w)
      ]
    ]
  ]

module _ {P S O : Type 0} (t : Tools P S O) where
  -- `cmdWithMultisig`
  unfoldable pub cmd_with_multisig : List Bytes → Option Bool → List Bytes → O → Outcome × O
  cmd_with_multisig args mode r w = elim (get_tx t mode r).0 [
    | none ↦ (returned_error, w)
    | some (tx, n) ↦ elim (attach_contracts tx.multisig args) [
      | none ↦ (returned_error, w)
      | some multisig ↦ return_write (put_tx t (record tx { multisig = multisig }) w)
    ]
  ]
