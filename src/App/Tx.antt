-- ===== src/App/Tx.antt =====
-- The transaction and its batches: pkg/app/tx.go, msg.go and the decoder of gov_handler.go. The
-- generated `Marshal` and `Unmarshal` are parameters.
pub mod Laws
use grafain.Prelude.{ℕ, Option, none, some, List, [], ◌∷◌, Bytes, codes}
use grafain.Weave.{Weave, Error, Result, ok, err, failed}
use grafain.App.Messages.{FeeInfo}
use grafain.App.Sums.{
  BatchSum, ExecuteBatchMsg, ProposalBatchSum, ExecuteProposalBatchMsg, ProposalOption, Msg, TxSum,
}
use grafain.App.Extract.{Extract}

-- `Tx`; `S` stands for `sigs.StdSignature`
pub record Tx (P S : Type 0) : Type 0 where
  pub fees : Option (FeeInfo P)
  pub signatures : List S
  pub multisig : List Bytes
  pub sum : Option (TxSum P)

-- A transaction around a message, as the commands and the client make it.
abbrev pub new_tx : {P S : Type 0} → TxSum P → Tx P S
new_tx s = record { fees = none; signatures = []; multisig = []; sum = some s }

module _ {P S : Type 0} where
  -- `Tx.Fee`
  unfoldable pub fee : Bytes → P → Tx P S → Tx P S
  fee payer amount tx = record tx { fees = some (record { payer = payer; fees = some amount }) }

  -- `TxDecoder`
  unfoldable pub tx_decoder : (Bytes → Result (Tx P S)) → Bytes → Result (Tx P S)
  tx_decoder unmarshal bz = elim (unmarshal bz) [ err e ↦ err e | ok tx ↦ ok tx ]

  -- `Tx.GetSignBytes`: the bytes, and the transaction as it is left
  unfoldable pub get_sign_bytes : (Tx P S → Result Bytes) → Tx P S → Result Bytes × Tx P S
  get_sign_bytes marshal tx =
      let signatures = tx.signatures in
      let tx' = record tx { signatures = [] } in
      let bz = marshal tx' in (bz, record tx' { signatures = signatures })

module _ {P : Type 0} (X : Extract P) where
  -- `Tx.GetMsg`
  unfoldable pub get_msg : {S : Type 0} → Tx P S → Result (Msg P)
  get_msg tx = X.tx_sum tx.sum

  -- the loop of `ExecuteBatchMsg.MsgList`
  unfoldable pub batch_msgs : List (Option (BatchSum P)) → Result (List (Msg P))
  batch_msgs [] = ok []
  batch_msgs (m ∷ ms) =
      let rest = batch_msgs ms in
      elim (X.batch_sum m) [
        | err e ↦ err e
        | ok x ↦ elim rest [ err e ↦ err e | ok xs ↦ ok (x ∷ xs) ]
      ]

  -- `ExecuteBatchMsg.MsgList`
  unfoldable pub msg_list : ExecuteBatchMsg P → Result (List (Msg P))
  msg_list msg = batch_msgs msg.messages

  -- the loop of `ExecuteProposalBatchMsg.MsgList`
  unfoldable pub proposal_batch_msgs : List (Option (ProposalBatchSum P)) → Result (List (Msg P))
  proposal_batch_msgs [] = ok []
  proposal_batch_msgs (m ∷ ms) =
      let rest = proposal_batch_msgs ms in
      elim (X.proposal_batch_sum m) [
        | err e ↦ err e
        | ok x ↦ elim rest [ err e ↦ err e | ok xs ↦ ok (x ∷ xs) ]
      ]

  -- `ExecuteProposalBatchMsg.MsgList`
  unfoldable pub proposal_msg_list : ExecuteProposalBatchMsg P → Result (List (Msg P))
  proposal_msg_list msg = proposal_batch_msgs msg.messages

  -- `decodeProposalOptions`
  unfoldable pub decode_proposal_options :
      ⦃W : Weave⦄ → (Bytes → Result (Option (ProposalOption P))) → Bytes → Result (Msg P)
  decode_proposal_options ⦃W⦄ unmarshal raw = elim (unmarshal raw) [
    | err e ↦ failed (W.wrap (some e) "cannot parse data into ProposalOptions struct")
    | ok model ↦ X.option_sum model
  ]
