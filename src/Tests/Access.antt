-- ===== src/Tests/Access.antt =====
-- pkg/rbac/decorator.go on a store with three roles, two of which include each other.
use grafain.Prelude.{
  ℕ, ◌≡◌, refl, ◌↔◌, ◌⊎◌, inl, inr, true, none, some, List, [], ◌∷◌, ◌++◌, Bytes, codes, bytes_dec,
  Memᴰ, has_prefix, arith, ==_iff, Bool-cases, map, replace_byte, to_lower, ◌==◌,
}
use grafain.Weave.{
  Error, err_unauthorized, Result, ok, err, Exec, ModelBucket, Bucket, DeliverResult, copy,
  slice_from,
}
use grafain.Weave.Sample.{sample_weave, sample_weave-IsWeave, lookup_model, scan}
use grafain.Rbac.Permission.{Permission, allows}
use grafain.Rbac.Model.{Role, RoleBinding}
use grafain.Rbac.Context.{Roles, Context, with_rbac, has_permission, or_empty}
use grafain.Rbac.Roles.{has_role, load_each, load_roles}
use grafain.Rbac.Roles.Reach.{Reaches, load_roles-exact}
use grafain.Rbac.Bindings.{new_binding, cut_keys, find_role_ids_by_address}
use grafain.Rbac.Decorator.{
  AuthN, new_auth_z, with_roles, load_ids, load_conditions, auth_roles, auth_n_deliver,
  auth_z_handle, resolve_permission, add64,
}
use grafain.Rbac.Decorator.Granted.{Entitled, auth_roles-exact}
use grafain.Rbac.Decorator.Guard.{Authorized, auth_roles-returns, deliver_guarded}

abbrev Db : Type 0
Db = List (Bytes × Role) × List (Bytes × RoleBinding)

abbrev role_id : ℕ → Bytes
role_id n = 0 ∷ 0 ∷ 0 ∷ 0 ∷ 0 ∷ 0 ∷ 0 ∷ n ∷ []

abbrev role : List Bytes → Permission → Role
role ids p = record {
  metadata = some (record { schema = 1 });
  name = codes "role";
  description = [];
  address = [];
  role_ids = ids;
  owner = [];
  permissions = p ∷ [];
}

abbrev first : Role
first = role (role_id 2 ∷ []) (codes "x.y")

abbrev second : Role
second = role (role_id 1 ∷ []) (codes "prod.artifacts.*")

abbrev third : Role
third = role [] (codes "prod.*")

abbrev roles : List (Bytes × Role)
roles = (role_id 1, first) ∷ (role_id 2, second) ∷ (role_id 3, third) ∷ []

abbrev alice : Bytes
alice = codes "alice---------------"

abbrev db : Db
db = (roles, (codes "rb:" ++ (alice ++ role_id 1), new_binding (role_id 1) alice) ∷ [])

abbrev role_bucket : ModelBucket Db Role
role_bucket = record {
  one = λ k s. lookup_model k s.0;
  has = λ k s. none;
  put = λ k m s. (ok k, ((k, m) ∷ s.0, s.1));
  delete = λ k s. (ok tt, s);
  by_index = λ name k s. ok ([], []);
}

abbrev binding_bucket : Bucket Db RoleBinding
binding_bucket = record {
  query_prefix = λ p s. ok (scan (codes "rb:" ++ p) s.1);
  save = λ k m s. (ok tt, (s.0, (codes "rb:" ++ k, m) ∷ s.1));
  db_key = λ k. codes "rb:" ++ k;
}

abbrev decorator : AuthN Db Unit
decorator = record {
  auth_n = record { get_conditions = λ ctx. alice ∷ []; has_address = λ ctx a. true };
  role_bucket = role_bucket;
  role_bin_bucket = binding_bucket;
}

abbrev context : Context Unit
context = record { outer = tt; conditions = none; permissions = none }

abbrev reached : Roles
reached = (role_id 2, second) ∷ (role_id 1, first) ∷ []

abbrev handler : Context Unit → Unit {0} → Exec Db DeliverResult
handler ctx tx s = (ok (record { content = [] }), s)

abbrev message_path : Unit {0} → Result Bytes
message_path tx = ok (codes "artifacts/create")

loads : load_roles role_bucket db 4 (role_id 1) [] ≡ some (ok reached)
unfolding load_roles load_each has_role lookup_model bytes_dec
loads = refl

authenticated : auth_roles decorator context db 4 ≡ some (ok (with_rbac context reached, 10))
unfolding auth_roles load_conditions load_ids load_roles load_each has_role lookup_model bytes_dec
    find_role_ids_by_address cut_keys slice_from scan has_prefix copy with_roles add64
authenticated = refl

test_resolve :
    resolve_permission (codes "prod") (codes "artifacts/Create") ≡ codes "prod.artifacts.create"
unfolding resolve_permission replace_byte to_lower
test_resolve = refl

lookup-in :
    (k : Bytes) (r : Role) (s : List (Bytes × Role))
    → lookup_model k s ≡ ok r
    → Memᴰ k (map (λ x. x.0) s)
unfolding lookup_model
lookup-in k r [] h = cc
lookup-in k r ((j, m) ∷ s) h = elim (Bool-cases (k == j)) [
  | inl same ↦ Memᴰ.head ((==_iff k j).0 same)
  | inr differ ↦ Memᴰ.tail (lookup-in k r s (ground arith))
]

load_roles-exact_example :
    ((has_role reached (role_id 2) ≡ true) ↔ Reaches role_bucket db (role_id 1) (role_id 2))
    × ((r : Role) → Memᴰ (role_id 2, r) reached → role_bucket.one (role_id 2) db ≡ ok r)
load_roles-exact_example = load_roles-exact role_bucket db 4 (role_id 1) loads (role_id 2)

auth_roles-returns_example :
    (r : Result (Context Unit × ℕ)) × (auth_roles decorator context db 4 ≡ some r)
auth_roles-returns_example =
    auth_roles-returns decorator db (role_id 1 ∷ role_id 2 ∷ role_id 3 ∷ []) 4 (omega arith)
      (λ k r h. lookup-in k r roles h) context

auth_roles-exact_example :
    (has_permission (with_rbac context reached) (codes "prod.artifacts.create") ≡ true) ↔ (
      (k : Permission) × (Memᴰ k (or_empty context.permissions)
        ⊎ Entitled decorator db (decorator.auth_n.get_conditions context) k)
      × ((k ≡ codes "prod.artifacts.create") ⊎ (allows k (codes "prod.artifacts.create") ≡ true)))
auth_roles-exact_example =
    auth_roles-exact decorator db context (with_rbac context reached) 4 10 authenticated
      (codes "prod.artifacts.create")

deliver_guarded_example :
    let p = resolve_permission (codes "prod") (codes "artifacts/create") in
    let run =
      auth_n_deliver decorator 4
        (auth_z_handle (new_auth_z (codes "prod")) message_path handler)
        context
        tt
        db in
    (Authorized decorator db context p → run ≡ some (handler (with_rbac context reached) tt db))
    × (¬ Authorized decorator db context p
        → (e : Error) × (sample_weave.is err_unauthorized (some e) ≡ true)
          × (run ≡ some (err e, db)))
deliver_guarded_example =
    deliver_guarded decorator db sample_weave-IsWeave message_path (codes "prod") handler context
      (with_rbac context reached) tt 4 10 authenticated refl
