-- ===== src/Client/Broadcast.antt =====
-- How pkg/client/base_client.go submits a transaction, and reads the node's answer.
use grafain.Prelude.{
  ℕ, ◌≡◌, ◌↔◌, ◌⊎◌, refl, inl, inr, Bool, not, Option, none, some, Bytes, eqb, arith, Bool-cases,
  Option-cases, if◌then◌else◌,
}
use grafain.Weave.{Error, panic, Result, ok, err, Result-cases}
use grafain.Client.{PkgErrors}

-- `ctypes.ResultBroadcastTxCommit`, as far as it is read: the codes of CheckTx and DeliverTx
pub record TxCommit : Type 0 where
  pub check_tx : ℕ
  pub deliver_tx : ℕ
  pub height : ℕ

-- `BroadcastTxResponse`; a nil response is `none`
pub record BroadcastTxResponse : Type 0 where
  pub failure : Option Error
  pub response : Option TxCommit

-- An event that the node sends: of a transaction, with its code and height, or any other.
pub data Event : Type 0 where
  tx_event : ℕ → ℕ → Event
  other_event : Event

-- The connection at one state of the node: the code that CheckTx gave, the result of a commit, and
-- the event that `WaitForTxEvent` returns in time.
pub record Node (T : Type 0) : Type 0 where
  pub marshal : T → Result Bytes
  pub broadcast_tx_sync : Bytes → Result ℕ
  pub broadcast_tx_commit : Bytes → Option TxCommit × Option Error
  pub wait_for_tx_event : Bytes → Result Event

-- `IsErr` of an ABCI response
unfoldable pub is_err : ℕ → Bool
is_err code = not (eqb code 0)

module _ ⦃E : PkgErrors⦄ where
  -- `IsError`
  unfoldable pub is_error : BroadcastTxResponse → Option Error
  is_error b = elim b.failure [
    | some e ↦ some e
    | none ↦ elim b.response [
      | none ↦ some panic
      | some r ↦
          if is_err r.check_tx
          then some (E.errorf "CheckTx error: (%d) %s")
          else if is_err r.deliver_tx
          then some (E.errorf "DeliverTx error: (%d) %s")
          else none
    ]
  ]

  module _ {T : Type 0} (c : Node T) where
    -- what `BroadcastTxAsync` sends to the channel
    unfoldable pub broadcast_tx_async : T → BroadcastTxResponse
    broadcast_tx_async tx = elim (c.marshal tx) [
      | err e ↦ record { failure = some e; response = none }
      | ok b ↦ let (res, e) = c.broadcast_tx_commit b in record { failure = e; response = res }
    ]

    -- `BroadcastTx`: it starts `BroadcastTxAsync` and returns what comes through the channel
    unfoldable pub broadcast_tx : T → BroadcastTxResponse
    broadcast_tx tx = broadcast_tx_async tx

    -- `BroadcastTxSync`; the CheckTx of the response is left as it is made
    unfoldable pub broadcast_tx_sync : T → BroadcastTxResponse
    broadcast_tx_sync tx = elim (c.marshal tx) [
      | err e ↦ record { failure = some e; response = none }
      | ok b ↦ elim (c.broadcast_tx_sync b) [
        | err e ↦ record { failure = some e; response = none }
        | ok code ↦
            if not (eqb code 0)
            then record {
              failure = some (E.with_message (E.errorf "checkTx failed with code %d") "log");
              response = none;
            }
            else elim (c.wait_for_tx_event b) [
              | err e ↦ record { failure = some e; response = none }
              | ok event ↦ elim event [
                | tx_event deliver at ↦ record {
                  failure = none;
                  response = some (record { check_tx = 0; deliver_tx = deliver; height = at });
                }
                | other_event ↦ record {
                  failure = some (E.errorf "unexpected event type %T ");
                  response = none;
                }
              ]
            ]
      ]
    ]

Event-cases : (e : Event) → ((code at : ℕ) × (e ≡ tx_event code at)) ⊎ (e ≡ other_event)
Event-cases (tx_event code at) = inl (code, at, refl)
Event-cases other_event = inr refl

module _ ⦃E : PkgErrors⦄ {T : Type 0} (c : Node T) where
  sync_arrives :
      (tx : T) {b : Bytes} {code height : ℕ}
      → c.marshal tx ≡ ok b
      → c.broadcast_tx_sync b ≡ ok 0
      → c.wait_for_tx_event b ≡ ok (tx_event code height)
      → broadcast_tx_sync c tx ≡ record {
        failure = none;
        response = some (record { check_tx = 0; deliver_tx = code; height = height });
      }
  unfolding broadcast_tx_sync
  sync_arrives tx good accepted came = rw (good, broadcast_tx_sync, accepted, came) refl

  -- A synchronous broadcast has no error exactly if CheckTx accepted the transaction and the event
  -- of the transaction came in time, with a DeliverTx that went well.
  pub is_error-broadcast_tx_sync :
      (tx : T)
      → (is_error (broadcast_tx_sync c tx) ≡ none) ↔ (
          (b : Bytes) × (height : ℕ) × (c.marshal tx ≡ ok b)
          × (c.broadcast_tx_sync b ≡ ok 0)
          × (c.wait_for_tx_event b ≡ ok (tx_event 0 height)))
  unfolding is_error is_err broadcast_tx_sync
  is_error-broadcast_tx_sync tx = elim (Result-cases (c.marshal tx)) [
    | inr (e, bad) ↦ (λ h. absurd (ground arith), λ (b, height, good, _, _). absurd (ground arith))
    | inl (b, good) ↦ (
      λ h. elim (Result-cases (c.broadcast_tx_sync b)) [
        | inr (e, bad) ↦ absurd (ground arith)
        | inl (code, answered) ↦ elim (Bool-cases (eqb code 0)) [
          | inr refused ↦ absurd (ground arith)
          | inl accepted ↦ elim (Result-cases (c.wait_for_tx_event b)) [
            | inr (e, bad) ↦ absurd (ground arith)
            | inl (event, came) ↦ elim (Event-cases event) [
              | inr strange ↦ absurd (ground arith)
              | inl (deliver, at, arrived) ↦ elim (Bool-cases (eqb deliver 0)) [
                | inr failing ↦ absurd (ground arith)
                | inl fine ↦ (b, at, good, ground arith, ground arith)
              ]
            ]
          ]
        ]
      ],
      λ (b', height, good', accepted, came). rw (sync_arrives tx good' accepted came) refl,
    )
  ]

  -- A broadcast that waits for the commit has no error exactly if the node answered with a commit
  -- whose CheckTx and DeliverTx went well.
  pub is_error-broadcast_tx :
      (tx : T)
      → (is_error (broadcast_tx c tx) ≡ none) ↔ (
          (b : Bytes) × (height : ℕ) × (c.marshal tx ≡ ok b)
          × (c.broadcast_tx_commit b
              ≡ (some (record { check_tx = 0; deliver_tx = 0; height = height }), none)))
  unfolding is_error is_err broadcast_tx broadcast_tx_async
  is_error-broadcast_tx tx = elim (Result-cases (c.marshal tx)) [
    | inr (e, bad) ↦ (λ h. absurd (ground arith), λ (b, height, good, _). absurd (ground arith))
    | inl (b, good) ↦ elim (Option-cases (c.broadcast_tx_commit b).1) [
      | inr (e, failing) ↦
          (λ h. absurd (ground arith), λ (b', height, good', committed). absurd (ground arith))
      | inl fine ↦ elim (Option-cases (c.broadcast_tx_commit b).0) [
        | inl nil ↦
            (λ h. absurd (ground arith), λ (b', height, good', committed). absurd (ground arith))
        | inr (r, answered) ↦
            (λ h. (b, r.height, good, ground arith), λ (b', height, good', committed). ground arith)
      ]
    ]
  ]
