-- ===== src/Tests/Permissions.antt =====
-- pkg/rbac/model.go on a few permissions, and pkg/rbac/context.go on a small context.
use mathlib.Core.List.{Permᴰ}
use grafain.Prelude.{
  ◌≡◌, refl, ◌↔◌, ◌⊎◌, true, false, none, some, [], ◌∷◌, ◌++◌, Bytes, codes, bytes_dec, has_prefix,
  has_suffix,
}
use grafain.Weave.Sample.{sample_weave}
use grafain.Rbac.Permission.{
  Permission, allows, is_wildcard, wildcard, is_name_byte, is_last_byte, is_permission, matches,
  validate,
}
use grafain.Rbac.Permission.Laws.{IsName, validate_iff, allows_iff}
use grafain.Rbac.Model.{Role}
use grafain.Rbac.Context.{Roles, Context, with_rbac, get_conditions, has_permission}
use grafain.Rbac.Context.Laws.{with_rbac_order}

abbrev all_of_a : Permission
all_of_a = codes "a.*"

abbrev one_of_a : Permission
one_of_a = codes "a.b"

test_allows :
    (allows all_of_a one_of_a ≡ true)
    × (allows all_of_a (codes "b.b") ≡ false)
    × (allows all_of_a (codes "a.b.*") ≡ false)
    × (allows one_of_a one_of_a ≡ true)
    × (allows one_of_a (codes "a.bc") ≡ false)
unfolding allows is_wildcard has_prefix has_suffix bytes_dec
test_allows = (refl, refl, refl, refl, refl)

test_validate :
    (validate all_of_a ≡ none)
    × (is_permission (codes "a") ≡ false)
    × (is_permission (codes "a b") ≡ false)
    × (is_permission (codes "a.") ≡ false)
    × (is_permission (codes "a*b") ≡ false)
unfolding validate is_permission matches is_name_byte is_last_byte
test_validate = (refl, refl, refl, refl, refl)

valid_wildcard : validate all_of_a ≡ none
unfolding validate is_permission matches is_name_byte is_last_byte
valid_wildcard = refl

allowed : allows all_of_a one_of_a ≡ true
unfolding allows is_wildcard has_prefix has_suffix bytes_dec
allowed = refl

allowed_self : allows one_of_a one_of_a ≡ true
unfolding allows is_wildcard has_prefix has_suffix bytes_dec
allowed_self = refl

validate_iff_example : (validate all_of_a ≡ none) ↔ IsName 127 all_of_a
validate_iff_example = validate_iff all_of_a

allows_iff_example : (allows all_of_a one_of_a ≡ true) ↔ (
    ((is_wildcard all_of_a ≡ false) × (all_of_a ≡ one_of_a))
    ⊎ ((q t : Bytes) × (all_of_a ≡ q ++ wildcard)
        × (one_of_a ≡ q ++ t)
        × (is_wildcard one_of_a ≡ false)))
allows_iff_example = allows_iff all_of_a one_of_a

abbrev role : Permission → Role
role p = record {
  metadata = some (record { schema = 1 });
  name = codes "role";
  description = [];
  address = [];
  role_ids = [];
  owner = [];
  permissions = p ∷ [];
}

abbrev two_roles : Roles
two_roles = (codes "1", role all_of_a) ∷ (codes "2", role (codes "c.d")) ∷ []

abbrev two_roles' : Roles
two_roles' = (codes "2", role (codes "c.d")) ∷ (codes "1", role all_of_a) ∷ []

abbrev empty_context : Context Unit
empty_context = record { outer = tt; conditions = none; permissions = none }

abbrev context : Context Unit
context = record { outer = tt; conditions = none; permissions = some (all_of_a ∷ []) }

swapped : Permᴰ two_roles two_roles'
swapped = Permᴰ.swap refl refl

with_rbac_order_example :
    (get_conditions (with_rbac empty_context two_roles)
      ≡ get_conditions (with_rbac empty_context two_roles'))
    × ((has_permission (with_rbac empty_context two_roles) one_of_a ≡ true)
        ↔ (has_permission (with_rbac empty_context two_roles') one_of_a ≡ true))
with_rbac_order_example = with_rbac_order empty_context one_of_a swapped
