-- ===== src/Rbac/Bindings.antt =====
-- Role bindings: pkg/rbac/bucket.go. A binding is stored under the address followed by the role id.
pub mod Key
pub mod Find
use grafain.Prelude.{ℕ, ◌+◌, Option, none, some, List, [], ◌∷◌, ◌++◌, Bytes, length, take, drop}
use grafain.Weave.{
  Weave, Metadata, Error, registered, err_human, Result, ok, err, ◌>>=◌, Exec, Bucket, make_bytes,
  copy, slice_from, returned,
}
use grafain.Rbac.Model.{RoleBinding, NamedSignature, Principal}

-- the loop of `indexSignatures`
unfoldable pub signature_keys : List NamedSignature → List Bytes
signature_keys [] = []
signature_keys (v ∷ vs) = v.signature ∷ signature_keys vs

-- What the object store hands to an index function: nothing, a principal, or another model.
pub data Indexed : Type 0 where
  nil : Indexed
  principal : Principal → Indexed
  other_model : Indexed

-- the loop over the models in `FindRoleIDsByAddress`
unfoldable pub cut_keys : ℕ → List (Bytes × RoleBinding) → Result (List Bytes)
cut_keys n [] = ok []
cut_keys n ((key, _) ∷ models) = do id ← slice_from n key; ids ← cut_keys n models; ok (id ∷ ids)

module _ ⦃W : Weave⦄ where
  -- `indexSignatures`
  unfoldable pub index_signatures : Indexed → List Bytes × Option Error
  index_signatures nil = ([], W.wrap (some (registered err_human)) "cannot take index of nil")
  index_signatures (principal v) = (signature_keys v.signatures, none)
  index_signatures other_model =
      ([], W.wrap (some (registered err_human)) "Can only take index of Principal")

  -- `buildKey`: two copies into one slice; the second starts behind the address
  unfoldable pub build_key : RoleBinding → Bytes
  build_key b =
      let x = copy (make_bytes (W.address_length + 8)) b.signature in
      take W.address_length x ++ copy (drop W.address_length x) b.role_id

  unfoldable pub new_binding : Bytes → Bytes → RoleBinding
  new_binding role_id signature = record {
    metadata = some (record { schema = 1 });
    role_id = role_id;
    signature = signature;
  }

  module _ {DB : Type 0} (bindings : Bucket DB RoleBinding) where
    -- `RoleBindingBucket.Create`
    unfoldable pub create : Bytes → Bytes → Exec DB Bytes
    create role_id signature db =
        let r = new_binding role_id signature in
        let key = build_key r in
        let (saved, db') = bindings.save key r db in
        (elim saved [ ok _ ↦ ok key | err e ↦ err e ], db')

    -- `RoleBindingBucket.FindRoleIDsByAddress`
    unfoldable pub find_role_ids_by_address : DB → Bytes → Result (List Bytes)
    find_role_ids_by_address db a = elim (bindings.query_prefix a db) [
      | err e ↦ returned [] (W.wrap (some e) "can not query via prefix scan")
      | ok models ↦ cut_keys (length (bindings.db_key []) + W.address_length) models
    ]
