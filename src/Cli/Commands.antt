-- ===== src/Cli/Commands.antt =====
-- What the commands of cmd/grafaincli share: how a command ends, and the reading and writing of
-- transactions. The values of the flags are arguments of the commands.
pub mod Pipe
use grafain.Prelude.{ℕ, Bool, Option, some, Bytes, List, if◌then◌else◌}
use grafain.Weave.{Metadata}
use grafain.App.Extract.{Extract}
use grafain.App.Tx.{Tx}
use grafain.Cli.Stream.{write_tx, read_tx}

-- A command returns nil or an error, or the process ends in `flagDie` (with the status 2).
pub data Outcome : Type 0 where
  done returned_error died : Outcome

-- The code that is not in the repository: weave's extraction of messages, the generated encoding of
-- transactions, and a `Write` to the output, whose state is `O`.
pub record Tools (P S O : Type 0) : Type 0 where
  pub extract : Extract P
  pub marshal : Tx P S → Option Bytes
  pub unmarshal : Bytes → Option (Tx P S)
  pub write : Bytes → O → (ℕ × Bool) × O

-- `&weave.Metadata{Schema: 1}`
abbrev pub schema_one : Option Metadata
schema_one = some (record { schema = 1 })

-- `_, err := writeTx(output, tx); return err`
unfoldable pub return_write : {O : Type 0} → (ℕ × Bool) × O → Outcome × O
return_write ((n, fine), w) = (if fine then done else returned_error, w)

-- `_, err = writeTx(output, tx); return nil`
unfoldable pub ignore_write : {O : Type 0} → (ℕ × Bool) × O → Outcome × O
ignore_write ((n, fine), w) = (done, w)

module _ {P S O : Type 0} (t : Tools P S O) where
  unfoldable pub put_tx : Tx P S → O → (ℕ × Bool) × O
  put_tx tx w = write_tx t.write t.marshal tx w

  unfoldable pub get_tx : Option Bool → List Bytes → Option (Tx P S × ℕ) × List Bytes
  get_tx mode r = read_tx t.unmarshal mode r
