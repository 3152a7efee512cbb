-- ===== src/Rbac/Permission.antt =====
-- Permissions: pkg/rbac/model.go, the type Permission and what it is validated and compared by.
pub mod Laws
use Prim.Native.String.{String}
use grafain.Prelude.{
  ℕ, ◌-◌, Bool, true, false, not, ◌&&◌, ◌||◌, Option, none, some, List, [], ◌∷◌, Bytes, codes, ◌==◌,
  length, take, ltb, leb, eqb, if◌then◌else◌, has_prefix, has_suffix,
}
use grafain.Weave.{Weave, Error, registered, err_empty, err_input}

abbrev pub Permission : Type 0
Permission = Bytes

abbrev pub max_permission_length : ℕ
max_permission_length = 128

-- `[0-9a-z.\-_]`
unfoldable pub is_name_byte : ℕ → Bool
is_name_byte c =
    (leb b'0' c && leb c b'9')
    || (leb b'a' c && leb c b'z')
    || eqb c b'.'
    || eqb c b'-'
    || eqb c b'_'

-- `[0-9a-z*]`
unfoldable pub is_last_byte : ℕ → Bool
is_last_byte c = (leb b'0' c && leb c b'9') || (leb b'a' c && leb c b'z') || eqb c b'*'

-- `[0-9a-z.\-_]{1,n}[0-9a-z*]$` from the start of the text, where `n` more name bytes are allowed
-- and one has been read if the flag is set.
unfoldable pub matches : ℕ → Bool → Bytes → Bool
matches n started [] = false
matches n started (c ∷ []) = started && is_last_byte c
matches ℕ.zero started (c ∷ s) = false
matches (ℕ.suc n) started (c ∷ s) = is_name_byte c && matches n true s

-- `isPermission`, the regular expression ^[0-9a-z.\-_]{1,127}[0-9a-z*]$
unfoldable pub is_permission : Bytes → Bool
is_permission = matches 127 false

abbrev pub wildcard : Bytes
wildcard = codes "*"

unfoldable pub is_wildcard : Permission → Bool
is_wildcard m = has_suffix m wildcard

-- `Permission.Allows`: the wildcard is dropped, and the dot before it is kept
unfoldable pub allows : Permission → Permission → Bool
allows m p =
    if is_wildcard m then has_prefix p (take (length m - 1) m) && not (is_wildcard p) else m == p

module _ ⦃W : Weave⦄ where
  -- `Permission.Validate`
  unfoldable pub validate : Permission → Option Error
  validate m =
      if eqb (length m) 0
      then some (W.field "permission" (registered err_empty) "")
      else if ltb max_permission_length (length m)
      then some (W.field "permission" (registered err_input) "must not exceed: 128 chars")
      else if not (is_permission m)
      then some (W.field "permission" (registered err_input) "invalid characters")
      else none

  -- `Permissions.Validate`, the loop over the list with the errors so far
  unfoldable pub validate_from : Option Error → List Permission → Option Error
  validate_from errs [] = errs
  validate_from errs (p ∷ ps) =
      validate_from (W.append errs (W.wrap (validate p) "permission %q")) ps

  unfoldable pub validate_all : List Permission → Option Error
  unfolding validate_from
  validate_all = validate_from none
