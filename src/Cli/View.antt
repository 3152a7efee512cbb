-- ===== src/Cli/View.antt =====
-- cmd/grafaincli/cmd_view.go: transactions are printed. What `json.MarshalIndent` makes of a value is a
-- parameter.
use grafain.Prelude.{
  ℕ, zero, suc, ◌-◌, ◌<◌, ◌≡◌, Option, none, some, List, [], ◌∷◌, Bytes, codes, length, take, arith,
  Option-cases, Bool-cases, inl, inr, if◌then◌else◌,
}
use grafain.Weave.{ok, err}
use grafain.App.Sums.{Msg, gov_create_proposal_msg, ProposalOption}
use grafain.App.Tx.{Tx, get_msg}
use grafain.Cli.Stream.{read_all, at_eof}
use grafain.Cli.Commands.{Outcome, done, returned_error, Tools, get_tx}
use grafain.Cli.Proposal.{Codec, read_proposal_payload_msg}
use grafain.Cli.Batch.Ends.{left, left-read_tx}

pub record Json (P S : Type 0) : Type 0 where
  pub of_tx : Tx P S → Option Bytes
  pub of_msg : Msg P → Option Bytes
  pub of_option : Option (ProposalOption P) → Option Bytes

abbrev pub proposal_text : Bytes
proposal_text =
    codes "\n\nThe above transaction is a proposal for executing the following messages:\n"

module _ {P S O : Type 0} (t : Tools P S O) (codec : Codec P) (json : Json P S) where
  -- `printProposalMsg`; no caller looks at its error
  unfoldable pub print_proposal_msg : Tx P S → O → O
  print_proposal_msg tx w = elim (get_msg t.extract tx) [
    | err e ↦ w
    | ok msg ↦ elim msg [
      | gov_create_proposal_msg m ↦ elim (codec.unmarshal_option m.raw_option) [
        | err e ↦ w
        | ok option ↦ elim (json.of_option option) [
          | none ↦ w
          | some pretty ↦ (t.write pretty (t.write proposal_text w).1).1
        ]
      ]
      | _ ↦ w
    ]
  ]

  -- what the `io.TeeReader` has kept: the bytes that `readTx` has taken
  unfoldable pub kept : List Bytes → List Bytes → Bytes
  kept r r' = take (length (read_all r) - length (read_all r')) (read_all r)

  -- `cmdTransactionView`; `none` is out of fuel. The `io.TeeReader` has no `Stat`.
  unfoldable pub cmd_transaction_view : ℕ → List Bytes → O → Option (Outcome × O)
  cmd_transaction_view zero r w = none
  cmd_transaction_view (suc fuel) r w =
      let (got, r') = get_tx t none r in
      elim got [
        | some (tx, n) ↦ elim (json.of_tx tx) [
          | none ↦ some (returned_error, w)
          | some pretty ↦ cmd_transaction_view fuel r' (print_proposal_msg tx (t.write pretty w).1)
        ]
        | none ↦
            if at_eof none r
            then some (done, w)
            else elim (read_proposal_payload_msg t codec (kept r r' ∷ [])) [
              | none ↦ some (returned_error, w)
              | some msg ↦ elim (json.of_msg msg) [
                | none ↦ some (returned_error, w)
                | some pretty ↦ some (done, (t.write pretty w).1)
              ]
            ]
      ]

  -- The view of an input ends: fuel above its bytes and chunks is enough.
  pub cmd_transaction_view-returns :
      (fuel : ℕ) (r : List Bytes) (w : O)
      → left r < fuel
      → (res : Outcome × O) × (cmd_transaction_view fuel r w ≡ some res)
  unfolding cmd_transaction_view get_tx
  cmd_transaction_view-returns zero r w enough = absurd (omega arith)
  cmd_transaction_view-returns (suc fuel) r w enough = elim (Option-cases (get_tx t none r).0) [
    | inr ((tx, n), got) ↦ elim (Option-cases (json.of_tx tx)) [
      | inl bad ↦ ((returned_error, w), ground (arith, got, bad))
      | inr (pretty, good) ↦
          let less = left-read_tx t.unmarshal none r got in
          let (res, e) =
            cmd_transaction_view-returns fuel (get_tx t none r).1
              (print_proposal_msg tx (t.write pretty w).1) (omega (arith, less)) in
          (res, ground (arith, got, good, e))
    ]
    | inl stopped ↦ elim (Bool-cases (at_eof none r)) [
      | inl over ↦ ((done, w), ground (arith, stopped, over))
      | inr more ↦
          elim (Option-cases
            (read_proposal_payload_msg t codec (kept r (get_tx t none r).1 ∷ []))) [
              | inl bad ↦ ((returned_error, w), ground (arith, stopped, more, bad))
              | inr (msg, good) ↦ elim (Option-cases (json.of_msg msg)) [
                | inl bad ↦ ((returned_error, w), ground (arith, stopped, more, good, bad))
                | inr (pretty, printed) ↦
                    ((done, (t.write pretty w).1), ground (arith, stopped, more, good, printed))
              ]
            ]
    ]
  ]
