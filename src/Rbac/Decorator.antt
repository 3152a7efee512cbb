-- ===== src/Rbac/Decorator.antt =====
-- pkg/rbac/decorator.go: the two decorators in front of the handlers. `AuthNDecorator` puts the
-- roles of the signers into the context, `AuthZDecorator` asks it for the message's permission.
pub mod Granted
pub mod Guard
use Prim.Native.String.{String}
use grafain.Prelude.{
  ℕ, ◌+◌, ◌%◌, ◌^◌, Bool, true, false, Option, none, some, List, [], ◌∷◌, ◌++◌, Bytes, codes,
  if◌then◌else◌, replace_byte, to_lower,
}
use grafain.Weave.{
  Weave, Error, registered, err_unauthorized, Result, ok, err, Exec, Bucket, ModelBucket,
  Authenticator, CheckResult, failed,
}
use grafain.Rbac.Permission.{Permission}
use grafain.Rbac.Model.{Role, RoleBinding}
use grafain.Rbac.Context.{Context, Roles, with_rbac, has_permission}
use grafain.Rbac.Roles.{load_roles}
use grafain.Rbac.Bindings.{find_role_ids_by_address}

abbrev pub role_participant_gas_cost : ℕ
role_participant_gas_cost = 10

-- a + b of Go's int64, as bit patterns
unfoldable pub add64 : ℕ → ℕ → ℕ
add64 a b = (a + b) % 2 ^ 64

-- `AuthNDecorator`; `NewAuthNDecorator` fills in the buckets of this package
pub record AuthN (DB O : Type 0) : Type 0 where
  pub auth_n : Authenticator (Context O)
  pub role_bucket : ModelBucket DB Role
  pub role_bin_bucket : Bucket DB RoleBinding

-- `AuthZDecorator`; the repository's `Authorizator` is `has_permission`
pub record AuthZ (O : Type 0) : Type 0 where
  pub auth_z : Context O → Permission → Bool
  pub permission_prefix : Bytes

-- `NewAuthZDecorator(rbac.Authorize{}, prefix)`
unfoldable pub new_auth_z : {O : Type 0} → Bytes → AuthZ O
new_auth_z prefix = record { auth_z = has_permission; permission_prefix = prefix }

-- `if len(roleIdsProcessed) != 0`
unfoldable pub with_roles : ⦃W : Weave⦄ {O : Type 0} → Context O → Roles → Context O
with_roles ctx [] = ctx
with_roles ctx (p ∷ ps) = with_rbac ctx (p ∷ ps)

module _ ⦃W : Weave⦄ {DB O : Type 0} where
  -- The inner loop of `authRoles`, over the role ids of one condition. `none`: out of fuel.
  unfoldable pub load_ids :
      AuthN DB O → DB → ℕ → List Bytes → Roles × ℕ → Option (Result (Roles × ℕ))
  load_ids d db fuel [] state = some (ok state)
  load_ids d db fuel (id ∷ ids) (ps, costs) = elim (load_roles d.role_bucket db fuel id ps) [
    | none ↦ none
    | some r ↦ elim r [
      | err e ↦ some (err e)
      | ok ps' ↦ load_ids d db fuel ids (ps', add64 costs role_participant_gas_cost)
    ]
  ]

  -- The outer loop, over the conditions.
  unfoldable pub load_conditions :
      AuthN DB O → DB → ℕ → List Bytes → Roles × ℕ → Option (Result (Roles × ℕ))
  load_conditions d db fuel [] state = some (ok state)
  load_conditions d db fuel (c ∷ cs) state =
      elim (find_role_ids_by_address d.role_bin_bucket db (W.address c)) [
        | err e ↦ some (err e)
        | ok ids ↦ elim (load_ids d db fuel ids state) [
          | none ↦ none
          | some r ↦ elim r [
            | err e ↦ some (err e)
            | ok state' ↦ load_conditions d db fuel cs state'
          ]
        ]
      ]

  -- `authRoles`
  unfoldable pub auth_roles : AuthN DB O → Context O → DB → ℕ → Option (Result (Context O × ℕ))
  auth_roles d ctx db fuel =
      elim (load_conditions d db fuel (d.auth_n.get_conditions ctx) ([], 0)) [
        | none ↦ none
        | some r ↦ elim r [
          | err e ↦ some (err e)
          | ok state ↦ some (ok (with_roles ctx state.0, state.1))
        ]
      ]

  -- `AuthNDecorator.Check`
  unfoldable pub auth_n_check :
      {T : Type 0}
      → AuthN DB O
      → ℕ
      → (Context O → T → Exec DB CheckResult)
      → Context O
      → T
      → DB
      → Option (Result CheckResult × DB)
  auth_n_check d fuel next ctx tx db = elim (auth_roles d ctx db fuel) [
    | none ↦ none
    | some r ↦ elim r [
      | err e ↦ some (err e, db)
      | ok state ↦
          let (res, db') = next state.0 tx db in
          some (
            elim res [
              | err e ↦ err e
              | ok r' ↦ ok (record r' { gas_payment = add64 r'.gas_payment state.1 })
            ],
            db',
          )
    ]
  ]

  -- `AuthNDecorator.Deliver`
  unfoldable pub auth_n_deliver :
      {T R : Type 0}
      → AuthN DB O
      → ℕ
      → (Context O → T → Exec DB R)
      → Context O
      → T
      → DB
      → Option (Result R × DB)
  auth_n_deliver d fuel next ctx tx db = elim (auth_roles d ctx db fuel) [
    | none ↦ none
    | some r ↦ elim r [ err e ↦ some (err e, db) | ok state ↦ some (next state.0 tx db) ]
  ]

-- `resolvePermission`, of a message's path
unfoldable pub resolve_permission : Bytes → Bytes → Permission
resolve_permission prefix path = prefix ++ (codes "." ++ to_lower (replace_byte b'/' b'.' path))

module _ ⦃W : Weave⦄ {DB O T R : Type 0} where
  -- `AuthZDecorator.Check` and `AuthZDecorator.Deliver`: their texts differ in the type of `next`
  unfoldable pub auth_z_handle :
      AuthZ O → (T → Result Bytes) → (Context O → T → Exec DB R) → Context O → T → Exec DB R
  auth_z_handle d get_msg_path next ctx tx db = elim (get_msg_path tx) [
    | err e ↦ (err e, db)
    | ok path ↦
        if d.auth_z ctx (resolve_permission d.permission_prefix path)
        then next ctx tx db
        else (failed (W.wrap (some (registered err_unauthorized)) "insufficient permissions"), db)
  ]
