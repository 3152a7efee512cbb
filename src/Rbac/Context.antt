-- ===== src/Rbac/Context.antt =====
-- pkg/rbac/context.go: the roles' conditions and permissions that a request carries.
pub mod Order
pub mod Laws
use grafain.Prelude.{
  ℕ, Bool, true, false, ◌&&◌, ◌||◌, Option, none, some, List, [], ◌∷◌, ◌++◌, map, Bytes, ◌==◌, ltb,
  eqb, if◌then◌else◌,
}
use grafain.Weave.{Weave}
use grafain.Rbac.Permission.{Permission, allows}
use grafain.Rbac.Model.{Role, role_condition}

-- A Go map from role ids to roles, as its entries in the order of an iteration.
abbrev pub Roles : Type 0
Roles = List (Bytes × Role)

-- A `weave.Context`: the two values that this package keeps in it, and all others.
pub record Context (O : Type 0) : Type 0 where
  pub outer : O
  pub conditions : Option (List Bytes)
  pub permissions : Option (List Permission)

-- `bytes.Compare(a, b) < 0`
unfoldable pub bytes_lt : Bytes → Bytes → Bool
bytes_lt [] [] = false
bytes_lt [] (b ∷ t) = true
bytes_lt (a ∷ s) [] = false
bytes_lt (a ∷ s) (b ∷ t) = ltb a b || (eqb a b && bytes_lt s t)

unfoldable pub insert_sorted : Bytes → List Bytes → List Bytes
insert_sorted x [] = x ∷ []
insert_sorted x (y ∷ ys) = if bytes_lt y x then y ∷ insert_sorted x ys else x ∷ y ∷ ys

-- `sortConditions`. Of equal conditions the order does not show, so any sort has this result.
unfoldable pub sort_conditions : List Bytes → List Bytes
sort_conditions [] = []
sort_conditions (x ∷ xs) = insert_sorted x (sort_conditions xs)

unfoldable pub contains : List Bytes → Bytes → Bool
contains [] p = false
contains (k ∷ ks) p = k == p || contains ks p

-- `perms[v] = struct{}{}`
unfoldable pub add_permission : List Permission → Permission → List Permission
add_permission perms v = if contains perms v then perms else v ∷ perms

unfoldable pub add_permissions : List Permission → List Permission → List Permission
add_permissions perms [] = perms
add_permissions perms (v ∷ vs) = add_permissions (add_permission perms v) vs

unfoldable pub or_empty {ℓ} : {A : Type ℓ} → Option (List A) → List A
or_empty none = []
or_empty (some xs) = xs

-- the loop over the roles in `withRBAC`, for the permissions
unfoldable pub collect_permissions : List Permission → Roles → List Permission
collect_permissions perms [] = perms
collect_permissions perms ((_, role) ∷ roles) =
    collect_permissions (add_permissions perms role.permissions) roles

module _ ⦃W : Weave⦄ where
  -- the same loop, for the conditions
  unfoldable pub append_conditions : List Bytes → Roles → List Bytes
  append_conditions conds [] = conds
  append_conditions conds ((id, _) ∷ roles) =
      append_conditions (conds ++ (role_condition id ∷ [])) roles

  module _ {O : Type 0} where
    -- `withRBAC`. The map of the parent context is extended, and so is the value here.
    unfoldable pub with_rbac : Context O → Roles → Context O
    with_rbac ctx roles = record ctx {
      conditions = some (sort_conditions (append_conditions (or_empty ctx.conditions) roles));
      permissions = some (collect_permissions (or_empty ctx.permissions) roles);
    }

-- the loop of `Authenticate.HasAddress`
unfoldable pub any_address : ⦃W : Weave⦄ → List Bytes → Bytes → Bool
any_address [] addr = false
any_address ⦃W⦄ (s ∷ rest) addr = W.address_equals addr (W.address s) || any_address rest addr

-- the loop over the wildcards in `Authorize.HasPermission`
unfoldable pub any_allows : List Permission → Permission → Bool
any_allows [] p = false
any_allows (k ∷ ks) p = allows k p || any_allows ks p

module _ {O : Type 0} where
  -- `Authenticate.GetConditions`
  unfoldable pub get_conditions : Context O → List Bytes
  unfolding or_empty
  get_conditions ctx = or_empty ctx.conditions

  -- `Authenticate.HasAddress`
  unfoldable pub has_address : ⦃W : Weave⦄ → Context O → Bytes → Bool
  has_address ctx addr = any_address (get_conditions ctx) addr

  -- `Authorize.HasPermission`
  unfoldable pub has_permission : Context O → Permission → Bool
  has_permission ctx p = elim ctx.permissions [
    | none ↦ false
    | some val ↦ if contains val p then true else any_allows val p
  ]
