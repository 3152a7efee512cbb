-- ===== src/Artifact/Handler/Takeover.antt =====
-- `CreateArtifactHandler` does not look at what is stored under the image, so the owner that
-- `DeleteArtifactHandler` asks for can be replaced by anyone.
use grafain.Prelude.{◌≡◌, ◌≢◌, true, false, none, some, [], ==_refl, arith}
use grafain.Weave.{Weave, Error, registered, err_unauthorized, ok, err}
use grafain.Weave.Laws.{IsModelBucket}
use grafain.Artifact.Model.{Artifact, CreateArtifactMsg, DeleteArtifactMsg, artifact_validate}
use grafain.Artifact.Handler.{
  Handler, new_artifact, create_deliver, delete_validate, delete_deliver,
}
use grafain.Artifact.Handler.Laws.{create_deliver-stores, failed-err}

module _ ⦃W : Weave⦄ {C T DB : Type 0} (h : Handler C T DB) (ctx : C) (tx : T) where
  -- Without the stored owner's signature a deletion fails and writes nothing.
  pub delete_deliver-foreign :
      (db : DB) {msg : DeleteArtifactMsg} {a : Artifact}
      → h.load_delete tx ≡ ok msg
      → h.b.one msg.image db ≡ ok a
      → h.auth.has_address ctx a.owner ≡ false
      → (e : Error) × (delete_deliver h ctx tx db ≡ (err e, db))
  unfolding delete_deliver delete_validate
  delete_deliver-foreign db loaded found foreign =
      let (e, out) =
        failed-err {A = DeleteArtifactMsg}
          (W.wrap (some (registered err_unauthorized)) "owner's signature required") in
      (e, ground (arith, out))

  -- With it the deletion goes through.
  pub delete_deliver-owned :
      {upgrade : Artifact → Artifact}
      → IsModelBucket W artifact_validate upgrade h.b
      → (db : DB) {msg : DeleteArtifactMsg} {a : Artifact} → h.load_delete tx ≡ ok msg
      → h.b.one msg.image db ≡ ok a
      → h.auth.has_address ctx a.owner ≡ true
      → ((delete_deliver h ctx tx db).0 ≡ ok (record { content = [] }))
        × ((e : Error) × (h.b.one msg.image (delete_deliver h ctx tx db).1 ≡ err e))
  unfolding delete_deliver delete_validate
  delete_deliver-owned lawful db {msg} loaded found signed =
      let (deleted, rest, (e, gone)) = lawful.delete-found msg.image db found in
      (ground (arith, deleted), (e, ground (arith, gone, deleted)))

module _ ⦃W : Weave⦄ {C T DB : Type 0} (h : Handler C T DB) (ctx : C) (tx : T) where
  -- Whoever can sign for some address can delete any artifact, though a deletion asks for the
  -- owner's signature: a creation under the same image makes the signer its owner, and a deletion
  -- that failed before it succeeds after it. `tx` creates, `tx'` deletes.
  pub takeover :
      {upgrade : Artifact → Artifact}
      → IsModelBucket W artifact_validate upgrade h.b
      → ((a : Artifact) → (upgrade a).owner ≡ a.owner)
      → (db : DB) (tx' : T) {old : Artifact} {msg : CreateArtifactMsg} {msg' : DeleteArtifactMsg}
      → h.b.one msg.image db ≡ ok old
      → h.auth.has_address ctx old.owner ≡ false
      → h.load_create tx ≡ ok msg
      → h.auth.has_address ctx msg.owner ≡ true
      → msg.image ≢ []
      → artifact_validate (upgrade (new_artifact msg)) ≡ none
      → h.load_delete tx' ≡ ok msg'
      → msg'.image ≡ msg.image
      → let created = (create_deliver h ctx tx db).1 in
        ((e : Error) × (delete_deliver h ctx tx' db ≡ (err e, db)))
        × ((delete_deliver h ctx tx' created).0 ≡ ok (record { content = [] }))
        × ((e : Error) × (h.b.one msg.image (delete_deliver h ctx tx' created).1 ≡ err e))
  takeover {upgrade} lawful keeps db tx' {old} {msg} {msg'} found foreign loaded signed named valid
        loaded' same =
      let created = (create_deliver h ctx tx db).1 in
      let found' : h.b.one msg'.image db ≡ ok old = rw same found in
      let (_, all) = create_deliver-stores h ctx tx db lawful loaded signed named valid in
      let stored : h.b.one msg'.image created ≡ ok (upgrade (new_artifact msg)) =
        rw same (ground (arith, all msg.image, ==_refl msg.image)) in
      let signed' : h.auth.has_address ctx (upgrade (new_artifact msg)).owner ≡ true =
        rw keeps (unfold new_artifact in signed) in
      let (done, gone) = delete_deliver-owned h ctx tx' lawful created loaded' stored signed' in
      (delete_deliver-foreign h ctx tx' db loaded' found' foreign, done, rw (← same) gone)
