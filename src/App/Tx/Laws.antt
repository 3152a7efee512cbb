-- ===== src/App/Tx/Laws.antt =====
-- What is signed, and what a batch holds.
use mathlib.Core.List.{map}
use grafain.Prelude.{◌≡◌, refl, some, List, [], ◌∷◌, Bytes}
use grafain.Weave.{Result, ok}
use grafain.App.Sums.{BatchSum, ProposalBatchSum, batch_msg, proposal_batch_msg}
use grafain.App.Extract.{Extract, IsExtract}
use grafain.App.Tx.{
  Tx, get_sign_bytes, batch_msgs, msg_list, proposal_batch_msgs, proposal_msg_list,
}

module _ {P S : Type 0} (marshal : Tx P S → Result Bytes) where
  -- GetSignBytes leaves the transaction as it was, also on an error, and a transaction that differs
  -- in its signatures only has the same bytes to sign.
  pub get_sign_bytes-keeps :
      (tx : Tx P S) (signatures : List S)
      → ((get_sign_bytes marshal tx).1 ≡ tx)
        × ((get_sign_bytes marshal (record tx { signatures = signatures })).0
            ≡ (get_sign_bytes marshal tx).0)
  unfolding get_sign_bytes
  get_sign_bytes-keeps tx signatures = (refl, refl)

module _ {P : Type 0} (X : Extract P) (lawful : IsExtract X) where
  batch_msgs-map :
      (sums : List (BatchSum P)) → batch_msgs X (map some sums) ≡ ok (map batch_msg sums)
  unfolding batch_msgs
  batch_msgs-map [] = refl
  batch_msgs-map (s ∷ ss) = rw (lawful.batch_sum-some s, batch_msgs-map ss) refl

  -- MsgList of a batch gives the messages of its elements in their order.
  pub msg_list-map :
      (sums : List (BatchSum P))
      → msg_list X (record { messages = map some sums }) ≡ ok (map batch_msg sums)
  unfolding msg_list
  msg_list-map sums = batch_msgs-map sums

  proposal_batch_msgs-map :
      (sums : List (ProposalBatchSum P))
      → proposal_batch_msgs X (map some sums) ≡ ok (map proposal_batch_msg sums)
  unfolding proposal_batch_msgs
  proposal_batch_msgs-map [] = refl
  proposal_batch_msgs-map (s ∷ ss) =
      rw (lawful.proposal_batch_sum-some s, proposal_batch_msgs-map ss) refl

  -- the same of a proposal's batch
  pub proposal_msg_list-map :
      (sums : List (ProposalBatchSum P))
      → proposal_msg_list X (record { messages = map some sums }) ≡ ok (map proposal_batch_msg sums)
  unfolding proposal_msg_list
  proposal_msg_list-map sums = proposal_batch_msgs-map sums
