-- ===== src/Client/Artifacts.antt =====
-- pkg/client/grafain_client.go: the transactions on artifacts, and the queries for them.
pub mod Signing
use grafain.Prelude.{
  ℕ, Option, none, some, List, [], ◌∷◌, ◌++◌, Bytes, codes, length, eqb, if◌then◌else◌,
}
use grafain.Weave.{Weave, Error, registered, err_not_found, Result, ok, err, failed}
use grafain.Artifact.Model.{Artifact}
use grafain.App.Sums.{tx_create_artifact_msg, tx_delete_artifact_msg}
use grafain.App.Tx.{Tx, new_tx}
use grafain.Client.{PkgErrors, Conn}
use grafain.Client.Query.{abci_query}

module _ {P S : Type 0} where
  -- `CreateArtifact`
  unfoldable pub create_artifact : Bytes → Bytes → Bytes → Tx P S
  create_artifact owner image checksum = new_tx (
      tx_create_artifact_msg (record {
        metadata = some (record { schema = 1 });
        image = image;
        checksum = checksum;
        owner = owner;
      }))

  -- `DeleteArtifact`
  unfoldable pub delete_artifact : Bytes → Tx P S
  delete_artifact image =
      new_tx
        (tx_delete_artifact_msg (record { metadata = some (record { schema = 1 }); image = image }))

  -- `SignTx`; `sign` is `sigs.SignTx` of weave, of the transaction, the chain and the nonce
  unfoldable pub sign_tx :
      (Tx P S → Bytes → ℕ → Result S) → Tx P S → Bytes → ℕ → Option Error × Tx P S
  sign_tx sign tx chain_id nonce = elim (sign tx chain_id nonce) [
    | err e ↦ (some e, tx)
    | ok sig ↦ (none, record tx { signatures = tx.signatures ++ (sig ∷ []) })
  ]

  -- `AddMultiSig`
  unfoldable pub add_multi_sig : Tx P S → Bytes → Tx P S
  add_multi_sig tx id = record tx { multisig = tx.multisig ++ (id ∷ []) }

module _ ⦃E : PkgErrors⦄ (c : Conn) (unmarshal : Bytes → Result Artifact) where
  -- the loops over the models, with the error of the first that is no artifact
  unfoldable pub artifacts_of : List (Bytes × Bytes) → Result (List Artifact)
  artifacts_of [] = ok []
  artifacts_of ((key, value) ∷ models) =
      let rest = artifacts_of models in
      elim (unmarshal value) [
        | err e ↦ err e
        | ok x ↦ elim rest [ err e ↦ err e | ok xs ↦ ok (x ∷ xs) ]
      ]

  -- `GetArtifactsByChecksum`
  unfoldable pub get_artifacts_by_checksum : Bytes → Result (List Artifact)
  get_artifacts_by_checksum checksum =
      let (resp, failure) = abci_query c (codes "/artifacts/checksum") checksum in
      elim failure [
        | some e ↦ err e
        | none ↦
            if eqb (length resp.models) 0
            then err (registered err_not_found)
            else artifacts_of resp.models
      ]

  -- `GetArtifactByImage`
  unfoldable pub get_artifact_by_image : Bytes → Result Artifact
  get_artifact_by_image id =
      let (resp, failure) = abci_query c (codes "/artifacts") id in
      elim failure [
        | some e ↦ err e
        | none ↦ elim resp.models [
          | [] ↦ err (registered err_not_found)
          | (key, value) ∷ _ ↦ unmarshal value
        ]
      ]

  -- `ListArtifact`
  unfoldable pub list_artifact : ⦃W : Weave⦄ → Result (List Artifact)
  list_artifact ⦃W⦄ =
      let (resp, failure) = abci_query c (codes "/artifacts?prefix") [] in
      elim failure [
        | some e ↦ err e
        | none ↦ elim (artifacts_of resp.models) [
          | ok xs ↦ ok xs
          | err e ↦ failed (W.wrap (some e) "failed to unmarshall element: %d")
        ]
      ]
