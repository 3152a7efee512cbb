-- ===== src/Rbac/Model.antt =====
-- The stored types of pkg/rbac (codec.pb.go) and how they are validated (model.go).
use grafain.Prelude.{
  ℕ, Option, none, some, List, [], ◌∷◌, Bytes, codes, length, eqb, ltb, if◌then◌else◌,
}
use grafain.Weave.{Weave, Metadata, Error, registered, err_empty, err_input}
use grafain.Rbac.Permission.{Permission, validate_all}

pub record Role : Type 0 where
  pub metadata : Option Metadata
  pub name : Bytes
  pub description : Bytes
  pub address : Bytes
  pub role_ids : List Bytes
  pub owner : Bytes
  pub permissions : List Permission

pub record RoleBinding : Type 0 where
  pub metadata : Option Metadata
  pub role_id : Bytes
  pub signature : Bytes

pub record NamedSignature : Type 0 where
  pub name : Bytes
  pub description : Bytes
  pub signature : Bytes

pub record Principal : Type 0 where
  pub metadata : Option Metadata
  pub name : Bytes
  pub description : Bytes
  pub signatures : List NamedSignature

abbrev pub max_name_length : ℕ
max_name_length = 64

module _ ⦃W : Weave⦄ where
  unfoldable pub role_condition : Bytes → Bytes
  role_condition id = W.new_condition (codes "rbac") (codes "role") id

  -- `Role.Validate`
  unfoldable pub role_validate : Role → Option Error
  role_validate m =
      let errs = W.append_field none "metadata" (W.metadata_validate m.metadata) in
      let errs' = W.append_field errs "address" (W.address_validate m.address) in
      let errs'' = W.append_field errs' "owner" (W.address_validate m.owner) in
      W.append_field errs'' "permissions" (validate_all m.permissions)

  -- `NamedSignature.Validate`. The bound is 64; the message names the bound of a permission.
  unfoldable pub signature_validate : NamedSignature → Option Error
  signature_validate m =
      if eqb (length m.name) 0
      then some (W.field "name" (registered err_empty) "")
      else if ltb max_name_length (length m.name)
      then some (W.field "name" (registered err_input) "must not exceed: 128 chars")
      else elim (W.address_validate m.signature) [
        | none ↦ none
        | some e ↦ some (W.field "signature" e "")
      ]

  -- the loop of `Principal.Validate`, with the errors so far
  unfoldable pub signatures_validate : Option Error → List NamedSignature → Option Error
  signatures_validate errs [] = errs
  signatures_validate errs (v ∷ vs) = elim (signature_validate v) [
    | none ↦ signatures_validate errs vs
    | some e ↦ signatures_validate (W.append errs (some e)) vs
  ]

  -- `Principal.Validate`
  unfoldable pub principal_validate : Principal → Option Error
  principal_validate m = signatures_validate none m.signatures

-- `RoleBinding.Validate`
unfoldable pub role_binding_validate : RoleBinding → Option Error
role_binding_validate m = none

-- `Role.Copy`
unfoldable pub role_copy : Role → Role
role_copy m = record {
  metadata = none;
  name = [];
  description = [];
  address = [];
  role_ids = [];
  owner = [];
  permissions = [];
}
