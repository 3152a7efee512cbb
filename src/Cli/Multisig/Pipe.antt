-- ===== src/Cli/Multisig/Pipe.antt =====
-- The command with-multisig-participant in a pipe.
use grafain.Prelude.{ℕ, ◌≡◌, some, List, ◌++◌, map, Bytes, arith, Option}
use grafain.App.Messages.{Participant, MultisigCreateMsg}
use grafain.App.Sums.{tx_multisig_create_msg, tx_msg}
use grafain.App.Extract.{Extract, IsExtract}
use grafain.App.Tx.{Tx, get_msg}
use grafain.Cli.Commands.{ignore_write}
use grafain.Cli.Commands.Pipe.{
  Command, tools, written, get_tx-written, pipe, AllCarried, pipe-written,
}
use grafain.Cli.Multisig.{add_participant, cmd_with_multisig_participant}

abbrev pub participant : (ℕ → ℕ) → Bytes × ℕ → Participant
participant weight (sig, n) = record { signature = sig; weight = weight n }

-- the transaction with a contract in place of its message
abbrev pub with_contract : {P S : Type 0} → Tx P S → MultisigCreateMsg → List Participant → Tx P S
with_contract tx m ps = record tx {
  sum = some (tx_multisig_create_msg (record m { participants = ps }));
}

module _ {P S : Type 0} (X : Extract P) (marshal : Tx P S → Option Bytes)
    (unmarshal : Bytes → Option (Tx P S)) (weight : ℕ → ℕ) where
  abbrev pub add : Command (Bytes × ℕ)
  add (sig, n) = cmd_with_multisig_participant (tools X marshal unmarshal) weight sig n

  -- A contract that goes through with-multisig-participant any number of times comes out with these
  -- participants behind its own, in their order, and nothing else of the transaction is changed.
  pub pipe-participants :
      IsExtract X
      → (tx : Tx P S) (m : MultisigCreateMsg) (args : List (Bytes × ℕ))
      → AllCarried X marshal unmarshal (participant weight) (with_contract tx m) m.participants args
      → pipe add args (written X marshal unmarshal (with_contract tx m m.participants))
        ≡ written X marshal unmarshal
            (with_contract tx m (m.participants ++ map (participant weight) args))
  unfolding cmd_with_multisig_participant add_participant get_msg tx_msg ignore_write
  pipe-participants lawful tx m args all =
      pipe-written X marshal unmarshal (participant weight) (with_contract tx m) add
        (λ (sig, n) ps carried.
          let (size, read) = get_tx-written X marshal unmarshal (with_contract tx m ps) carried in
          let found =
            lawful.tx_sum-some (tx_multisig_create_msg (record m { participants = ps })) in
          ground (arith, read, found))
        args m.participants all
