-- ===== src/Artifact/Handler.antt =====
-- The handlers of pkg/artifact/handler.go, and `Put` of bucket.go, over the bucket of artifacts.
pub mod Laws
pub mod Create
pub mod Takeover
use Prim.Native.String.{String}
use grafain.Prelude.{ℕ, Option, none, some, [], Bytes, length, eqb, if◌then◌else◌}
use grafain.Weave.{
  Weave, Error, registered, err_input, err_unauthorized, Result, ok, err, Exec, ModelBucket,
  Authenticator, CheckResult, DeliverResult, failed,
}
use grafain.Artifact.Model.{Artifact, CreateArtifactMsg, DeleteArtifactMsg}

abbrev pub create_artifact_cost : ℕ
create_artifact_cost = 100

abbrev pub delete_artifact_cost : ℕ
delete_artifact_cost = 100

-- `CreateArtifactHandler`, `DeleteArtifactHandler`: who has signed, and the bucket. `load_create`
-- and `load_delete` are `weave.LoadMsg` at the two messages.
pub record Handler (C T DB : Type 0) : Type 0 where
  pub auth : Authenticator C
  pub b : ModelBucket DB Artifact
  pub load_create : T → Result CreateArtifactMsg
  pub load_delete : T → Result DeleteArtifactMsg

-- the artifact that `CreateArtifactHandler.Deliver` stores
unfoldable pub new_artifact : CreateArtifactMsg → Artifact
new_artifact msg = record {
  metadata = some (record { schema = 0 });
  owner = msg.owner;
  image = msg.image;
  checksum = msg.checksum;
}

module _ ⦃W : Weave⦄ {DB : Type 0} where
  -- `Bucket.Put`
  unfoldable pub put : ModelBucket DB Artifact → Bytes → Artifact → Exec DB Bytes
  put b image m db =
      if eqb (length image) 0
      then (failed (W.wrap (some (registered err_input)) "empty key not allowed"), db)
      else b.put image m db

module _ ⦃W : Weave⦄ {C T DB : Type 0} (h : Handler C T DB) where
  -- `CreateArtifactHandler.validate`
  unfoldable pub create_validate : C → T → Result CreateArtifactMsg
  create_validate ctx tx = elim (h.load_create tx) [
    | err e ↦ failed (W.wrap (some e) "load msg")
    | ok msg ↦
        if h.auth.has_address ctx msg.owner
        then ok msg
        else failed (W.wrap (some (registered err_unauthorized)) "owner's signature required")
  ]

  -- `CreateArtifactHandler.Check`
  unfoldable pub create_check : C → T → Result CheckResult
  create_check ctx tx = elim (create_validate ctx tx) [
    | err e ↦ err e
    | ok _ ↦ ok (record { gas_allocated = create_artifact_cost; gas_payment = 0 })
  ]

  -- `CreateArtifactHandler.Deliver`
  unfoldable pub create_deliver : C → T → Exec DB DeliverResult
  create_deliver ctx tx db = elim (create_validate ctx tx) [
    | err e ↦ (err e, db)
    | ok msg ↦
        let (stored, db') = put h.b msg.image (new_artifact msg) db in
        (
          elim stored [
            | err e ↦ failed (W.wrap (some e) "failed to store artifact")
            | ok _ ↦ ok (record { content = msg.image })
          ],
          db',
        )
  ]

  -- `DeleteArtifactHandler.validate`
  unfoldable pub delete_validate : C → T → DB → Result DeleteArtifactMsg
  delete_validate ctx tx db = elim (h.load_delete tx) [
    | err e ↦ failed (W.wrap (some e) "load msg")
    | ok msg ↦ elim (h.b.one msg.image db) [
      | err e ↦ failed (W.wrap (some e) "cannot load artifact entity from the store")
      | ok a ↦
          if h.auth.has_address ctx a.owner
          then ok msg
          else failed (W.wrap (some (registered err_unauthorized)) "owner's signature required")
    ]
  ]

  -- `DeleteArtifactHandler.Check`
  unfoldable pub delete_check : C → T → DB → Result CheckResult
  delete_check ctx tx db = elim (delete_validate ctx tx db) [
    | err e ↦ err e
    | ok _ ↦ ok (record { gas_allocated = delete_artifact_cost; gas_payment = 0 })
  ]

  -- `DeleteArtifactHandler.Deliver`
  unfoldable pub delete_deliver : C → T → Exec DB DeliverResult
  delete_deliver ctx tx db = elim (delete_validate ctx tx db) [
    | err e ↦ (err e, db)
    | ok msg ↦
        let (deleted, db') = h.b.delete msg.image db in
        (
          elim deleted [
            | err e ↦ failed (W.wrap (some e) "failed to delete entity")
            | ok _ ↦ ok (record { content = [] })
          ],
          db',
        )
  ]
