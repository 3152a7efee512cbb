-- ===== src/Artifact/Genesis.antt =====
-- pkg/artifact/init.go: the artifacts of the genesis file.
pub mod Laws
use Prim.Native.String.{String}
use grafain.Prelude.{ℕ, Bool, true, false, Option, none, some, List, [], ◌∷◌, Bytes, if◌then◌else◌}
use grafain.Weave.{Weave, Error, err_empty, err_not_found, Result, ok, err, ModelBucket}
use grafain.Artifact.Model.{Artifact, artifact_validate}
use grafain.Artifact.Handler.{put}

pub record GenesisArtifact : Type 0 where
  pub image : Bytes
  pub checksum : Bytes
  pub owner : Bytes

unfoldable pub of_genesis : GenesisArtifact → Artifact
of_genesis a = record {
  metadata = some (record { schema = 1 });
  owner = a.owner;
  image = a.image;
  checksum = a.checksum;
}

module _ ⦃W : Weave⦄ {DB : Type 0} (bucket : ModelBucket DB Artifact) where
  -- `FromGenesis`, as the loop over what `stream` gives; behind the last element that is ErrEmpty.
  unfoldable pub from_genesis : List (Result GenesisArtifact) → DB → Option Error × DB
  from_genesis [] db = (none, db)
  from_genesis (err e ∷ rest) db =
      if W.is err_empty (some e)
      then (none, db)
      else (W.wrap (some e) "cannot load username token", db)
  from_genesis (ok a ∷ rest) db =
      let new = of_genesis a in
      elim (artifact_validate new) [
        | some e ↦ (W.wrap (some e) "[%d] artifact %q is invalid", db)
        | none ↦ elim (W.is err_not_found (bucket.has new.image db)) [
          | false ↦ (W.wrap (bucket.has new.image db) "[%d]  image must %q not exist", db)
          | true ↦
              let (stored, db') = put bucket new.image new db in
              elim stored [
                | err e ↦ (W.wrap (some e) "[%d] failed to store artifact %q", db')
                | ok _ ↦ from_genesis rest db'
              ]
        ]
      ]
