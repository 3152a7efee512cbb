-- ===== src/Tests/Bindings.antt =====
-- pkg/rbac/bucket.go on two bindings.
use grafain.Prelude.{
  ℕ, ◌≡◌, refl, ◌↔◌, ◌⊎◌, List, [], ◌∷◌, ◌++◌, Bytes, codes, bytes_dec, Memᴰ, has_prefix,
}
use grafain.Weave.{panic, ok, err, copy, slice_from, Bucket}
use grafain.Weave.Sample.{sample_weave, prefix_bucket, prefix_bucket-IsBucket, scan}
use grafain.Rbac.Model.{RoleBinding}
use grafain.Rbac.Bindings.{new_binding, build_key, create, cut_keys, find_role_ids_by_address}
use grafain.Rbac.Bindings.Find.{find_role_ids-returns, find_role_ids-create}

abbrev alice : Bytes
alice = codes "alice---------------"

abbrev bob : Bytes
bob = codes "bob-----------------"

abbrev role_id : ℕ → Bytes
role_id n = 0 ∷ 0 ∷ 0 ∷ 0 ∷ 0 ∷ 0 ∷ 0 ∷ n ∷ []

abbrev bindings : Bucket (List (Bytes × RoleBinding)) RoleBinding
bindings = prefix_bucket (codes "rolebinding:")

abbrev stored : Bytes → Bytes × RoleBinding
stored a = (codes "rolebinding:" ++ (a ++ role_id 1), new_binding (role_id 1) a)

abbrev db : List (Bytes × RoleBinding)
db = stored alice ∷ stored bob ∷ []

query_alice : bindings.query_prefix alice db ≡ ok (stored alice ∷ [])
unfolding scan has_prefix bytes_dec
query_alice = refl

find_alice : find_role_ids_by_address bindings db alice ≡ ok (role_id 1 ∷ [])
unfolding find_role_ids_by_address cut_keys slice_from scan has_prefix bytes_dec
find_alice = refl

created : (create bindings (role_id 2) alice db).0 ≡ ok (alice ++ role_id 2)
unfolding create new_binding build_key copy
created = refl

test_short :
    (find_role_ids_by_address bindings
        ((codes "rolebinding:al", new_binding (role_id 1) alice) ∷ [])
        (codes "al")
      ≡ err panic)
unfolding find_role_ids_by_address cut_keys slice_from scan has_prefix bytes_dec
test_short = refl

find_role_ids-returns_example :
    (ids : List Bytes) × (find_role_ids_by_address bindings db alice ≡ ok ids)
    × ((id : Bytes)
        → Memᴰ id ids
          ↔ ((m : RoleBinding) × Memᴰ (bindings.db_key (alice ++ id), m) (stored alice ∷ [])))
find_role_ids-returns_example =
    find_role_ids-returns bindings (prefix_bucket-IsBucket (codes "rolebinding:")) alice db refl
      query_alice

find_role_ids-create_example :
    (ids' : List Bytes) × (find_role_ids_by_address bindings
        (create bindings (role_id 2) alice db).1
        alice
      ≡ ok ids')
    × ((id : Bytes)
        → Memᴰ id ids' ↔ (Memᴰ id (role_id 1 ∷ []) ⊎ ((id ≡ role_id 2) × (alice ≡ alice))))
find_role_ids-create_example =
    find_role_ids-create bindings (prefix_bucket-IsBucket (codes "rolebinding:")) (role_id 2) alice
      alice db refl refl refl created query_alice find_alice
