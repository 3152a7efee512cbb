-- ===== src/Client.antt =====
-- pkg/client: what a client asks a node for. The connection and the decoders of weave's and
-- tendermint's types are parameters.
pub mod Query
pub mod Nonce
pub mod Broadcast
pub mod Artifacts
pub mod Node
use Prim.Native.String.{String}
use grafain.Prelude.{ℕ, Option, List, Bytes}
use grafain.Weave.{Error, Result}

-- github.com/pkg/errors: all make an error that is not nil.
pub record PkgErrors : Type 0 where
  pub errorf : String → Error
  pub with_message : Error → String → Error
  pub wrap : Error → String → Error

-- `abci.ResponseQuery`, as far as it is read
pub record ResponseQuery : Type 0 where
  pub code : ℕ
  pub key : Bytes
  pub value : Bytes
  pub height : ℕ

-- `sigs.UserData`, as far as it is read; the int64 as a bit pattern
pub record UserData : Type 0 where
  pub sequence : ℕ

-- The connection at one state of the node, and the decoders of `app.ResultSet` and `sigs.UserData`.
pub record Conn : Type 0 where
  pub abci_query : Bytes → Bytes → Result ResponseQuery
  pub result_set : Bytes → Result (List Bytes)
  pub join_results : List Bytes → List Bytes → List (Bytes × Bytes) × Option Error
  pub user_data : Bytes → Result UserData
