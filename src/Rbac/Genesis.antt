-- ===== src/Rbac/Genesis.antt =====
-- pkg/rbac/init.go: the roles, principals and bindings of the genesis file.
pub mod Laws
pub mod Numbered
pub mod Roles
pub mod Binds
use Prim.Native.String.{String}
use grafain.Prelude.{
  ℕ, Bool, true, false, Option, none, some, ◌⊎◌, inl, inr, List, [], ◌∷◌, Bytes, codes, length, eqb,
  if◌then◌else◌,
}
use grafain.Prelude.BigEndian.{put_uint64}
use grafain.Weave.{
  Weave, Metadata, Error, registered, err_human, err_not_found, Result, ok, err, ModelBucket,
  Bucket, Sequence,
}
use grafain.Rbac.Permission.{Permission}
use grafain.Rbac.Model.{Role, RoleBinding, NamedSignature, Principal, role_condition}
use grafain.Rbac.Bindings.{create}

pub record GenesisRole : Type 0 where
  pub name : Bytes
  pub role_ids : List ℕ
  pub owner : Bytes
  pub permissions : List Permission

pub record GenesisRoleBinding : Type 0 where
  pub role_id : ℕ
  pub signature : Bytes

pub record GenesisPrincipal : Type 0 where
  pub name : Bytes
  pub signatures : List NamedSignature

pub record GenesisRbac : Type 0 where
  pub roles : List GenesisRole
  pub principals : List GenesisPrincipal
  pub role_bindings : List GenesisRoleBinding

-- The buckets and the sequence of pkg/rbac/bucket.go that the initializer opens.
pub record Store (DB : Type 0) : Type 0 where
  pub roles : ModelBucket DB Role
  pub principals : ModelBucket DB Principal
  pub bindings : Bucket DB RoleBinding
  pub role_seq : Sequence DB

-- `encodeIDKey`
unfoldable pub encode_id_key : ℕ → Bytes
encode_id_key n = put_uint64 n

unfoldable pub of_principal : GenesisPrincipal → Principal
of_principal v = record {
  metadata = some (record { schema = 1 });
  name = v.name;
  description = [];
  signatures = v.signatures;
}

module _ ⦃W : Weave⦄ where
  unfoldable pub of_role : Bytes → List Bytes → GenesisRole → Role
  of_role key role_ids v = record {
    metadata = some (record { schema = 1 });
    name = v.name;
    description = [];
    address = W.address (role_condition key);
    role_ids = role_ids;
    owner = v.owner;
    permissions = v.permissions;
  }

  module _ {DB : Type 0} (store : Store DB) where
    -- the loop of `addPrincipals`; an empty key asks the bucket for a new one
    unfoldable pub add_principals : List GenesisPrincipal → DB → Option Error × DB
    add_principals [] db = (none, db)
    add_principals (v ∷ vs) db =
        let (saved, db') = store.principals.put [] (of_principal v) db in
        elim saved [
          | err e ↦ (W.wrap (some e) "cannot save #%d principal", db')
          | ok _ ↦ add_principals vs db'
        ]

    -- the loop over the included roles: what the function returns, or the keys
    unfoldable pub role_keys : List ℕ → DB → Option Error ⊎ List Bytes
    role_keys [] db = inr []
    role_keys (id ∷ ids) db =
        let rest = role_keys ids db in
        if W.is err_not_found (store.roles.has (encode_id_key id) db)
        then inl (
            W.wrap (some (registered err_human))
              "Role dependency not exists: id %d required for %q")
        else elim rest [ inl stop ↦ inl stop | inr keys ↦ inr (encode_id_key id ∷ keys) ]

    -- the loop of `addRoles`
    unfoldable pub add_roles : List GenesisRole → DB → Option Error × DB
    add_roles [] db = (none, db)
    add_roles (v ∷ vs) db = elim (role_keys v.role_ids db) [
      | inl stop ↦ (stop, db)
      | inr ids ↦
          let (next, db') = store.role_seq.next_val db in
          elim next [
            | err e ↦ (W.wrap (some e) "cannot acquire ID", db')
            | ok key ↦
                let (saved, db'') = store.roles.put key (of_role key ids v) db' in
                elim saved [
                  | err e ↦ (W.wrap (some e) "cannot save #%d role", db'')
                  | ok _ ↦ add_roles vs db''
                ]
          ]
    ]

    -- the loop of `addRoleBindings`
    unfoldable pub add_role_bindings : List GenesisRoleBinding → DB → Option Error × DB
    add_role_bindings [] db = (none, db)
    add_role_bindings (v ∷ vs) db =
        if W.is err_not_found (store.roles.has (encode_id_key v.role_id) db)
        then (
          W.wrap (some (registered err_human))
              "Role dependency not exists: id %d required for binding # %d",
          db,
        )
        else elim (store.principals.by_index "signature" v.signature db) [
          | err e ↦ (some e, db)
          | ok (ids, _) ↦
              if eqb (length ids) 0
              then (
                W.wrap (some (registered err_human))
                    "Principal dependency not exists: signature %q required for binding # %d",
                db,
              )
              else (let (saved, db') =
                    create store.bindings (encode_id_key v.role_id) v.signature db in
                  elim saved [
                    | err e ↦ (W.wrap (some e) "cannot save #%d role-binding", db')
                    | ok _ ↦ add_role_bindings vs db'
                  ])
        ]

    -- `FromGenesis`, of what `ReadOptions` gives for the key rbac
    unfoldable pub from_genesis : Result GenesisRbac → DB → Option Error × DB
    from_genesis (err e) db = (some e, db)
    from_genesis (ok genesis) db =
        let (failed, db') = add_roles genesis.roles db in
        elim failed [
          | some e ↦ (some e, db')
          | none ↦
              let (failed', db'') = add_principals genesis.principals db' in
              elim failed' [
                | some e ↦ (some e, db'')
                | none ↦ add_role_bindings genesis.role_bindings db''
              ]
        ]
