-- ===== src/Cli/Batch/Laws.antt =====
-- What the command as-batch makes of its input.
use mathlib.Core.List.{map}
use grafain.Prelude.{ℕ, ◌≡◌, Bool, true, Option, none, some, List, [], ◌∷◌, ◌++◌, Bytes}
use grafain.Weave.{ok}
use grafain.App.Sums.{Msg, BatchSum}
use grafain.App.Tx.{Tx, get_msg}
use grafain.Cli.Stream.{at_eof}
use grafain.Cli.Commands.{Tools, get_tx}
use grafain.Cli.Batch.{batch_sum}

-- the elements for a list of messages, if all are supported
abbrev pub batch_sums : {P : Type 0} → List (Msg P) → Option (List (BatchSum P))
batch_sums [] = some []
batch_sums (m ∷ ms) = elim (batch_sum m) [
  | none ↦ none
  | some s ↦ elim (batch_sums ms) [ none ↦ none | some ss ↦ some (s ∷ ss) ]
]

module _ {P : Type 0} where
  abbrev extend :
      List (Option (BatchSum P)) → Option (List (BatchSum P)) → Option (List (Option (BatchSum P)))
  extend batch none = none
  extend batch (some ss) = some (batch ++ map some ss)

module _ {P S O : Type 0} (t : Tools P S O) (mode : Option Bool) where
  -- The transactions that can be read from an input up to its end carry these messages.
  pub data Arrives : List Bytes → List (Msg P) → Type 0 where
    at_end : {r : List Bytes} → (get_tx t mode r).0 ≡ none → at_eof mode r ≡ true → Arrives r []
    arrived :
        {r : List Bytes} {tx : Tx P S} {n : ℕ} {msg : Msg P} {msgs : List (Msg P)}
        → (get_tx t mode r).0 ≡ some (tx, n)
        → get_msg t.extract tx ≡ ok msg
        → Arrives (get_tx t mode r).1 msgs
        → Arrives r (msg ∷ msgs)
