-- ===== src/Client/Node.antt =====
-- What pkg/client/base_client.go passes on to the node: its state, and the events that it sends.
use grafain.Prelude.{ℕ, Bool, true, false, Option, none, some, List, [], ◌∷◌, Bytes}
use grafain.Weave.{Result, ok, err}
use grafain.Client.{PkgErrors}
use grafain.Client.Broadcast.{Event}

-- `ctypes.ResultStatus` and `tmtypes.GenesisDoc`, as far as they are read
pub record Status : Type 0 where
  pub latest_block_height : ℕ

pub record GenesisDoc : Type 0 where
  pub chain_id : Bytes

-- A message of a subscription to new blocks: their header, or anything else.
pub data BlockEvent (H : Type 0) : Type 0 where
  new_block_header : H → BlockEvent H
  other_data : BlockEvent H

-- The connection, at one state of the node. `subscribe_once` is a subscription to a transaction: the
-- first event that comes before the timeout, if one does.
pub record Rpc : Type 0 where
  pub status : Result Status
  pub genesis : Result GenesisDoc
  pub subscribe_once : Bytes → Result (Option Event)

module _ (c : Rpc) where
  -- `Genesis`
  unfoldable pub genesis : Result GenesisDoc
  genesis = elim c.genesis [ err e ↦ err e | ok gen ↦ ok gen ]

  -- `ChainID`
  unfoldable pub chain_id : Result Bytes
  chain_id = elim genesis [ err e ↦ err e | ok gen ↦ ok gen.chain_id ]

  -- `Height`
  unfoldable pub height : Result ℕ
  height = elim c.status [ err e ↦ err e | ok status ↦ ok status.latest_block_height ]

  -- `WaitForTxEvent`
  unfoldable pub wait_for_tx_event : ⦃E : PkgErrors⦄ → Bytes → Result Event
  wait_for_tx_event ⦃E⦄ tx = elim (c.subscribe_once tx) [
    | err e ↦ err (E.wrap e "failed to subscribe")
    | ok first ↦ elim first [
      | none ↦ err (E.errorf "timed out waiting for event")
      | some evt ↦ ok evt
    ]
  ]

-- The goroutine of `SubscribeHeaders`: the headers that it has sent on, and whether it has closed the
-- channel; at any other event it panics.
unfoldable pub forward_headers : {H : Type 0} → List (BlockEvent H) → List H × Bool
forward_headers [] = ([], true)
forward_headers (new_block_header h ∷ events) =
    let (headers, closed) = forward_headers events in (h ∷ headers, closed)
forward_headers (other_data ∷ events) = ([], false)

-- `SubscribeHeaders`, of the events of the subscription, if there is one
unfoldable pub subscribe_headers :
    {H : Type 0} → Result (List (BlockEvent H)) → Result (List H × Bool)
subscribe_headers (err e) = err e
subscribe_headers (ok events) = ok (forward_headers events)
