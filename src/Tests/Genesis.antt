-- ===== src/Tests/Genesis.antt =====
-- pkg/rbac/init.go on a store in memory.
use grafain.Prelude.{
  ℕ, ◌+◌, ◌≡◌, ◌↔◌, ◌⊎◌, refl, none, some, List, [], ◌∷◌, Bytes, codes, bytes_dec, All, Memᴰ, arith,
  ap,
}
use grafain.Prelude.BigEndian.{put_uint64}
use grafain.Weave.{Error, registered, err_not_found, err_human, ok, err, ModelBucket, Bucket}
use grafain.Weave.Laws.{IsModelBucket}
use grafain.Weave.Sample.{
  sample_weave, sample_weave-IsWeave, lookup_model, scan, memory_bucket,
  memory_bucket-IsModelBucket, prefix_bucket, prefix_bucket-IsBucket,
}
use grafain.Rbac.Model.{Role, RoleBinding, role_validate}
use grafain.Rbac.Bindings.{find_role_ids_by_address, cut_keys}
use grafain.Rbac.Genesis.{
  GenesisRole, GenesisRoleBinding, Store, add_roles, add_role_bindings, role_keys, encode_id_key,
}
use grafain.Rbac.Genesis.Laws.{IsRoleStore}
use grafain.Rbac.Genesis.Numbered.{Numbered, Closed, role_of}
use grafain.Rbac.Genesis.Roles.{Accepted, add_roles-Accepted}
use grafain.Rbac.Genesis.Binds.{IsBindingStore, Ready, Binds, add_role_bindings-Binds}

-- the roles, the role bindings, and the last number of a role
abbrev Db : Type 0
Db = List (Bytes × Role) × List (Bytes × RoleBinding) × ℕ

abbrev role_map : ModelBucket (List (Bytes × Role)) Role
role_map = memory_bucket role_validate (λ r. r)

abbrev binding_map : Bucket (List (Bytes × RoleBinding)) RoleBinding
binding_map = prefix_bucket (codes "rolebind:")

abbrev key : ℕ → Bytes
key n = 0 ∷ 0 ∷ 0 ∷ 0 ∷ 0 ∷ 0 ∷ 0 ∷ n ∷ []

abbrev role_bucket : ModelBucket Db Role
role_bucket = record {
  one = λ k s. role_map.one k s.0;
  has = λ k s. role_map.has k s.0;
  put = λ k m s. ((role_map.put k m s.0).0, ((role_map.put k m s.0).1, s.1, s.2));
  delete = λ k s. ((role_map.delete k s.0).0, ((role_map.delete k s.0).1, s.1, s.2));
  by_index = λ name k s. ok ([], []);
}

abbrev binding_bucket : Bucket Db RoleBinding
binding_bucket = record {
  query_prefix = λ p s. binding_map.query_prefix p s.1;
  save = λ k m s. ((binding_map.save k m s.1).0, (s.0, (binding_map.save k m s.1).1, s.2));
  db_key = binding_map.db_key;
}

abbrev store : Store Db
store = record {
  roles = role_bucket;
  principals = record {
    one = λ k s. err (registered err_not_found);
    has = λ k s. some (registered err_not_found);
    put = λ k m s. (ok k, s);
    delete = λ k s. (ok tt, s);
    by_index = λ name k s. ok (key 1 ∷ [], []);
  };
  bindings = binding_bucket;
  role_seq = record { next_val = λ s. (ok (put_uint64 (s.2 + 1)), (s.0, s.1, s.2 + 1)) };
}

role_bucket-IsModelBucket : IsModelBucket sample_weave role_validate (λ r. r) role_bucket
role_bucket-IsModelBucket =
    let b = memory_bucket-IsModelBucket role_validate (λ r. r) in
    record {
      one-missing = λ k s e h. b.one-missing k s.0 e h;
      has-found = λ k s h. b.has-found k s.0 h;
      has-missing = λ k s h. b.has-missing k s.0 h;
      put-valid = λ k m s named valid. b.put-valid k m s.0 named valid;
      put-invalid = λ k m s bad.
          let ((e, failed), same) = b.put-invalid k m s.0 bad in
          ((e, failed), ap (λ (d : List (Bytes × Role)). (d, s.1, s.2)) same);
      delete-found = λ k s h. b.delete-found k s.0 h;
    }

abbrev sequence_store : IsRoleStore store
sequence_store = record {
  upgrade = λ r. r;
  current = λ r h. refl;
  roles = role_bucket-IsModelBucket;
  last = λ s. s.2;
  next_val-next = λ s small. (refl, refl, λ k. refl);
  last-put = λ k r s. refl;
}

store-IsBindingStore : IsBindingStore store
store-IsBindingStore =
    let b = prefix_bucket-IsBucket {M = RoleBinding} (codes "rolebind:") in
    record {
      bindings = record {
        db_key-eq = b.db_key-eq;
        query_prefix-key = λ p s found. b.query_prefix-key p s.1 found;
        query_prefix-save = λ k p m s saved found. b.query_prefix-save k p m s.1 saved found;
      };
      save-valid = λ k m s valid. refl;
      one-save = λ k m s k'. refl;
      by_index-save = λ k m s name k'. refl;
    }

abbrev empty : Db
empty = ([], [], 0)

abbrev role : List ℕ → GenesisRole
role ids = record {
  name = codes "role";
  role_ids = ids;
  owner = codes "alice---------------";
  permissions = codes "artifacts" ∷ [];
}

abbrev binding : GenesisRoleBinding
binding = record { role_id = 1; signature = codes "alice---------------" }

test_forward : (add_roles store (role (1 ∷ []) ∷ []) empty).0 ≡ some (registered err_human)
unfolding add_roles role_keys encode_id_key put_uint64 lookup_model bytes_dec
test_forward = refl

empty-Numbered : Numbered sample_weave-IsWeave store sequence_store 0 empty
unfolding lookup_model
empty-Numbered = record {
  counted = refl;
  stored_iff =
      λ id small. (λ (r, found). absurd (ground arith), λ (positive, below). absurd (omega arith));
}

add_roles-Accepted_example :
    Accepted sample_weave-IsWeave store sequence_store 0 (role [] ∷ role (1 ∷ []) ∷ []) empty
    ⊎ ((¬ Closed 0 (role [] ∷ role (1 ∷ []) ∷ []))
        × ((e : Error) × ((add_roles store (role [] ∷ role (1 ∷ []) ∷ []) empty).0 ≡ some e)))
add_roles-Accepted_example =
    add_roles-Accepted sample_weave-IsWeave store sequence_store 0 (role [] ∷ role (1 ∷ []) ∷ [])
      empty empty-Numbered (omega arith) (tt, ((omega arith, tt), tt))

abbrev with_role : Db
with_role = ((key 1, role_of 1 (role [])) ∷ [], [], 1)

abbrev alice : Bytes
alice = codes "alice---------------"

no_roles_yet : find_role_ids_by_address store.bindings with_role alice ≡ ok []
unfolding find_role_ids_by_address cut_keys scan
no_roles_yet = refl

no_bindings_yet : store.bindings.query_prefix alice with_role ≡ ok []
unfolding scan
no_bindings_yet = refl

add_role_bindings-Binds_example :
    (All
        (Ready sample_weave-IsWeave store sequence_store store-IsBindingStore with_role)
        (binding ∷ [])
      × ((add_role_bindings store (binding ∷ []) with_role).0 ≡ none)
      × ((ids : List Bytes) × (find_role_ids_by_address store.bindings
              (add_role_bindings store (binding ∷ []) with_role).1
              alice
            ≡ ok ids)
          × ((id : Bytes) → Memᴰ id ids ↔ (Memᴰ id [] ⊎ Binds (binding ∷ []) alice id))))
    ⊎ ((¬ All
          (Ready sample_weave-IsWeave store sequence_store store-IsBindingStore with_role)
          (binding ∷ []))
        × ((e : Error) × ((add_role_bindings store (binding ∷ []) with_role).0 ≡ some e)))
add_role_bindings-Binds_example =
    add_role_bindings-Binds sample_weave-IsWeave store sequence_store store-IsBindingStore
      (binding ∷ []) with_role alice (refl, tt) refl no_bindings_yet no_roles_yet
