-- ===== src/Cli/Batch.antt =====
-- cmd/grafaincli/cmd_batch.go: one batch of the messages of any number of transactions.
pub mod Laws
pub mod Ends
use grafain.Prelude.{
  ℕ, zero, suc, Bool, Option, none, some, List, [], ◌∷◌, ◌++◌, Bytes, if◌then◌else◌,
}
use grafain.Weave.{ok, err}
use grafain.App.Sums.{
  Msg, cash_send_msg, escrow_create_msg, escrow_release_msg, escrow_return_msg,
  escrow_update_parties_msg, multisig_create_msg, multisig_update_msg, validators_apply_diff_msg,
  currency_create_msg, distribution_create_msg, distribution_msg, distribution_reset_msg, BatchSum,
  batch_cash_send_msg, batch_escrow_create_msg, batch_escrow_release_msg, batch_escrow_return_msg,
  batch_escrow_update_parties_msg, batch_multisig_create_msg, batch_multisig_update_msg,
  batch_validators_apply_diff_msg, batch_currency_create_msg, batch_distribution_create_msg,
  batch_distribution_msg, batch_distribution_reset_msg, ExecuteBatchMsg, tx_execute_batch_msg,
}
use grafain.App.Tx.{Tx, new_tx, get_msg}
use grafain.Cli.Stream.{at_eof}
use grafain.Cli.Commands.{Outcome, returned_error, Tools, return_write, put_tx, get_tx}

-- the switch over the message; `none` is its default case
unfoldable pub batch_sum : {P : Type 0} → Msg P → Option (BatchSum P)
batch_sum (cash_send_msg m) = some (batch_cash_send_msg m)
batch_sum (escrow_create_msg m) = some (batch_escrow_create_msg m)
batch_sum (escrow_release_msg m) = some (batch_escrow_release_msg m)
batch_sum (escrow_return_msg m) = some (batch_escrow_return_msg m)
batch_sum (escrow_update_parties_msg m) = some (batch_escrow_update_parties_msg m)
batch_sum (multisig_create_msg m) = some (batch_multisig_create_msg m)
batch_sum (multisig_update_msg m) = some (batch_multisig_update_msg m)
batch_sum (validators_apply_diff_msg m) = some (batch_validators_apply_diff_msg m)
batch_sum (currency_create_msg m) = some (batch_currency_create_msg m)
batch_sum (distribution_create_msg m) = some (batch_distribution_create_msg m)
batch_sum (distribution_msg m) = some (batch_distribution_msg m)
batch_sum (distribution_reset_msg m) = some (batch_distribution_reset_msg m)
batch_sum _ = none

module _ {P S O : Type 0} (t : Tools P S O) where
  -- The loop over the input: the elements of the batch, or an error. The outer `none` is out of fuel.
  unfoldable pub read_batch :
      ℕ
      → Option Bool
      → List Bytes
      → List (Option (BatchSum P))
      → Option (Option (List (Option (BatchSum P))))
  read_batch zero mode r batch = none
  read_batch (suc fuel) mode r batch =
      let (got, r') = get_tx t mode r in
      elim got [
        | none ↦ some (if at_eof mode r then some batch else none)
        | some (tx, n) ↦ elim (get_msg t.extract tx) [
          | err e ↦ some none
          | ok msg ↦ elim (batch_sum msg) [
            | none ↦ some none
            | some s ↦ read_batch fuel mode r' (batch ++ (some s ∷ []))
          ]
        ]
      ]

  -- `cmdAsBatch`
  unfoldable pub cmd_as_batch : ℕ → Option Bool → List Bytes → O → Option (Outcome × O)
  cmd_as_batch fuel mode r w = elim (read_batch fuel mode r []) [
    | none ↦ none
    | some res ↦ elim res [
      | none ↦ some (returned_error, w)
      | some batch ↦
          let msg : ExecuteBatchMsg P = record { messages = batch } in
          some (return_write (put_tx t (new_tx (tx_execute_batch_msg msg)) w))
    ]
  ]
