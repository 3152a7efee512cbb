-- ===== src/Cli/Create.antt =====
-- The commands of cmd/grafaincli that make or extend one transaction: cmd_artifact.go, cmd_cash.go,
-- cmd_escrow.go, cmd_distribution.go and cmd_validators.go.
pub mod Pipe
use grafain.Prelude.{
  ℕ, Bool, ◌&&◌, not, Option, none, some, List, [], ◌∷◌, ◌++◌, Bytes, codes, length, eqb,
  if◌then◌else◌,
}
use grafain.Prelude.Hex.{base64_decode}
use grafain.Weave.{ok, err}
use grafain.Artifact.Model.{CreateArtifactMsg, DeleteArtifactMsg}
use grafain.App.Messages.{SendMsg, ReleaseMsg, ValidatorUpdate, ApplyDiffMsg, Destination, ResetMsg}
use grafain.App.Sums.{
  validators_apply_diff_msg, tx_create_artifact_msg, tx_delete_artifact_msg, tx_cash_send_msg,
  tx_escrow_release_msg, tx_distribution_reset_msg, tx_validators_apply_diff_msg,
}
use grafain.App.Tx.{new_tx, get_msg}
use grafain.Cli.Keys.{parse_uint32}
use grafain.Cli.Stream.{at_eof}
use grafain.Cli.Commands.{
  Outcome, returned_error, died, Tools, return_write, put_tx, get_tx, schema_one,
}

-- `if len(row) != 2`, and what follows in the loop of `readDestinations`
unfoldable pub destination : (Bytes → Option Bytes) → List Bytes → Option Destination
destination parse_address (a ∷ b ∷ []) = elim (parse_address a) [
  | none ↦ none
  | some address ↦ elim (parse_uint32 b) [
    | none ↦ none
    | some weight ↦ some (record { address = address; weight = weight })
  ]
]
destination parse_address _ = none

-- The loop of `readDestinations`. The reader gives rows up to the end of the file; `none` is any other
-- error. `parse_address` is `weave.ParseAddress`.
unfoldable pub read_rows :
    (Bytes → Option Bytes)
    → List (Option (List Bytes))
    → List Destination
    → Option (List Destination)
read_rows parse_address [] destinations = some destinations
read_rows parse_address (none ∷ rows) destinations = none
read_rows parse_address (some row ∷ rows) destinations = elim (destination parse_address row) [
  | none ↦ none
  | some d ↦ read_rows parse_address rows (destinations ++ (d ∷ []))
]

-- `readDestinations`, of the rows of the file, if it can be opened
unfoldable pub read_destinations :
    (Bytes → Option Bytes) → Option (List (Option (List Bytes))) → Option (List Destination)
read_destinations parse_address none = none
read_destinations parse_address (some rows) = read_rows parse_address rows []

-- The coins that `cmdWithFee` asks for: `IsNonNegative`, `coin.IsEmpty`, and `cashGconf`, which
-- fetches the minimal fee from the node.
pub record Fees (P : Type 0) : Type 0 where
  pub is_non_negative : P → Bool
  pub is_empty : P → Bool
  pub cash_gconf : Option P

-- `if coin.IsEmpty(amountFl)`
unfoldable pub fee_amount : {P : Type 0} → Fees P → P → Option P
fee_amount fees amount = if fees.is_empty amount then fees.cash_gconf else some amount

module _ {P S O : Type 0} (t : Tools P S O) where
  -- `cmdCreateArtifact`
  unfoldable pub cmd_create_artifact : Bytes → Bytes → Bytes → O → Outcome × O
  cmd_create_artifact image digest owner w =
      let msg : CreateArtifactMsg = record {
        metadata = schema_one;
        image = image;
        checksum = digest;
        owner = owner;
      } in
      if eqb (length image) 0
      then (died, w)
      else if eqb (length digest) 0
      then (died, w)
      else return_write (put_tx t (new_tx (tx_create_artifact_msg msg)) w)

  -- `cmdDeleteArtifact`
  unfoldable pub cmd_delete_artifact : Bytes → O → Outcome × O
  cmd_delete_artifact image w =
      let msg : DeleteArtifactMsg = record { metadata = schema_one; image = image } in
      if eqb (length image) 0
      then (died, w)
      else return_write (put_tx t (new_tx (tx_delete_artifact_msg msg)) w)

  -- `cmdSendTokens`; `validate` is `cash.SendMsg.Validate`, as far as it has an error
  unfoldable pub cmd_send_tokens : (SendMsg P → Bool) → Bytes → Bytes → P → Bytes → O → Outcome × O
  cmd_send_tokens validate src dst amount memo w =
      let msg : SendMsg P = record {
        metadata = schema_one;
        source = src;
        destination = dst;
        amount = some amount;
        memo = memo;
        ref = [];
      } in
      if not (validate msg)
      then (died, w)
      else return_write (put_tx t (new_tx (tx_cash_send_msg msg)) w)

  -- `cmdReleaseEscrow`; `is_empty` is `coin.IsEmpty`
  unfoldable pub cmd_release_escrow : (P → Bool) → Bytes → P → O → Outcome × O
  cmd_release_escrow is_empty escrow amount w =
      let msg : ReleaseMsg P = record {
        metadata = schema_one;
        escrow_id = escrow;
        amount = if not (is_empty amount) then amount ∷ [] else [];
      } in
      return_write (put_tx t (new_tx (tx_escrow_release_msg msg)) w)

  -- `cmdResetRevenue`
  unfoldable pub cmd_reset_revenue :
      (Bytes → Option Bytes) → Bytes → Option (List (Option (List Bytes))) → O → Outcome × O
  cmd_reset_revenue parse_address revenue file w = elim (read_destinations parse_address file) [
    | none ↦ (returned_error, w)
    | some destinations ↦
        let msg : ResetMsg = record {
          metadata = none;
          revenue_id = revenue;
          destinations = destinations;
        } in
        return_write (put_tx t (new_tx (tx_distribution_reset_msg msg)) w)
  ]

  -- `cmdWithFee`; `address_validate` is `weave.Address.Validate`, as far as it has an error
  unfoldable pub cmd_with_fee :
      Fees P → (Bytes → Bool) → Bytes → P → Option Bool → List Bytes → O → Outcome × O
  cmd_with_fee fees address_validate payer amount mode r w =
      if not (eqb (length payer) 0) && not (address_validate payer)
      then (died, w)
      else if not (fees.is_non_negative amount)
      then (died, w)
      else elim (get_tx t mode r).0 [
        | none ↦ (returned_error, w)
        | some (tx, n) ↦ elim (fee_amount fees amount) [
          | none ↦ (returned_error, w)
          | some fee ↦
              let info = some (record { payer = payer; fees = some fee }) in
              return_write (put_tx t (record tx { fees = info }) w)
        ]
      ]

  -- The validators of the transaction on the input, if there is one: at the end of the input there
  -- are none; `none` is an error.
  unfoldable pub read_validators : Option Bool → List Bytes → Option (List ValidatorUpdate)
  read_validators mode r = elim (get_tx t mode r).0 [
    | none ↦ if at_eof mode r then some [] else none
    | some (tx, n) ↦ elim (get_msg t.extract tx) [
      | err e ↦ none
      | ok msg ↦ elim msg [ validators_apply_diff_msg m ↦ some m.validator_updates | _ ↦ none ]
    ]
  ]

  -- `cmdSetValidators`, of the base64 form of a key and a uint power
  unfoldable pub cmd_set_validators : Bytes → ℕ → Option Bool → List Bytes → O → Outcome × O
  cmd_set_validators pub_key power mode r w = elim (base64_decode pub_key) [
    | none ↦ (returned_error, w)
    | some key ↦ if eqb (length key) 0 then (returned_error, w) else elim (read_validators mode r) [
      | none ↦ (returned_error, w)
      | some set ↦
          let update : ValidatorUpdate = record {
            key_type = codes "ed25519";
            key_bytes = key;
            power = power;
          } in
          let msg : ApplyDiffMsg = record {
            metadata = schema_one;
            validator_updates = set ++ (update ∷ []);
          } in
          return_write (put_tx t (new_tx (tx_validators_apply_diff_msg msg)) w)
    ]
  ]
