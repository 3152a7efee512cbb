-- ===== src/Rbac/Roles.antt =====
-- `loadRoles` of pkg/rbac/decorator.go: the roles that a role includes, at any depth, are loaded
-- into a map once each.
pub mod Reach
pub mod Ends
use grafain.Prelude.{
  ℕ, zero, suc, Bool, true, false, ◌||◌, Option, none, some, List, [], ◌∷◌, Bytes, ◌==◌,
  if◌then◌else◌,
}
use grafain.Weave.{Result, ok, err, ModelBucket}
use grafain.Rbac.Model.{Role}
use grafain.Rbac.Context.{Roles}

-- `_, ok := roleIdsProcessed[id]`
unfoldable pub has_role : Roles → Bytes → Bool
has_role [] id = false
has_role ((j, _) ∷ ps) id = j == id || has_role ps id

-- The loop over `r.RoleIds`: the first error ends it. `none` means that the fuel ran out.
unfoldable pub load_each :
    (Bytes → Roles → Option (Result Roles)) → List Bytes → Roles → Option (Result Roles)
load_each load [] ps = some (ok ps)
load_each load (id ∷ ids) ps = elim (load id ps) [
  | none ↦ none
  | some r ↦ elim r [ ok ps' ↦ load_each load ids ps' | err e ↦ some (err e) ]
]

module _ {DB : Type 0} (role_bucket : ModelBucket DB Role) (db : DB) where
  -- `loadRoles`, on fuel for the depth of its recursion
  unfoldable pub load_roles : ℕ → Bytes → Roles → Option (Result Roles)
  load_roles zero id ps = none
  load_roles (suc fuel) id ps = elim (has_role ps id) [
    | true ↦ some (ok ps)
    | false ↦ elim (role_bucket.one id db) [
      | err e ↦ some (err e)
      | ok r ↦ load_each (load_roles fuel) r.role_ids ((id, r) ∷ ps)
    ]
  ]
