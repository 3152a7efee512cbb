-- ===== src/Tests/Stack.antt =====
-- pkg/app: a deletion on its way through the stack.
use grafain.Prelude.{
  ℕ, ◌≡◌, refl, inl, inr, Bool, true, false, some, none, List, [], ◌∷◌, ◌++◌, Bytes, codes, arith,
  bytes_dec, ◌==◌, if◌then◌else◌, replace_byte, to_lower, Bool-cases, Memᴰ,
}
use grafain.Weave.{Error, other, Result, ok, err, Authenticator, ModelBucket, copy, slice_from}
use grafain.Weave.Sample.{
  sample_weave, memory_bucket, memory_bucket-IsModelBucket, lookup_model, remove_model,
}
use grafain.Rbac.Model.{Role}
use grafain.Rbac.Context.{
  Context, has_permission, with_rbac, contains, collect_permissions, add_permissions,
  add_permission, or_empty,
}
use grafain.Rbac.Roles.{load_roles, load_each, has_role}
use grafain.Rbac.Bindings.{new_binding, cut_keys, find_role_ids_by_address}
use grafain.Rbac.Decorator.{
  AuthN, auth_roles, load_conditions, load_ids, with_roles, add64, auth_n_deliver, auth_z_handle,
  new_auth_z, resolve_permission,
}
use grafain.Artifact.Model.{Artifact, DeleteArtifactMsg, artifact_validate}
use grafain.Artifact.Handler.{Handler, delete_deliver, delete_validate}
use grafain.App.Stack.{
  Deliver, Decorator, Middleware, authenticator, rbac_authenticate, auth_n, auth_z, chain, stack,
}
use grafain.App.Stack.Entries.{Enter, Entries, Passing, IsMiddleware}
use grafain.App.Stack.Laws.{StackAdmitted}
use grafain.App.Stack.Delete.{IsChain, OwnerKnown, stack-delete}

-- A store with one artifact of alice's, who has a role that lets her delete it.
abbrev Db : Type 0
Db = List (Bytes × Artifact)

abbrev alice : Bytes
alice = codes "alice---------------"

abbrev role_id : Bytes
role_id = 0 ∷ 0 ∷ 0 ∷ 0 ∷ 0 ∷ 0 ∷ 0 ∷ 1 ∷ []

abbrev deleter : Role
deleter = record {
  metadata = none;
  name = codes "deleter";
  description = [];
  address = [];
  role_ids = [];
  owner = [];
  permissions = codes "_grafain.artifacts.delete" ∷ [];
}

abbrev upgrade : Artifact → Artifact
upgrade m = m

abbrev bucket : ModelBucket Db Artifact
bucket = memory_bucket artifact_validate upgrade

-- The outer part of a context is the address that has signed.
abbrev by_signature : Authenticator (Context Bytes)
by_signature = record { get_conditions = λ c. c.outer ∷ []; has_address = λ c a. c.outer == a }

abbrev nobody : Authenticator (Context Bytes)
nobody = record { get_conditions = λ c. []; has_address = λ c a. false }

abbrev any_of : List (Authenticator (Context Bytes)) → Context Bytes → Bytes → Bool
any_of [] c a = false
any_of (auth ∷ auths) c a = if auth.has_address c a then true else any_of auths c a

abbrev all_conditions : List (Authenticator (Context Bytes)) → Context Bytes → List Bytes
all_conditions [] c = []
all_conditions (auth ∷ auths) c = auth.get_conditions c ++ all_conditions auths c

abbrev apply_all : List (Decorator Db Bytes Bytes) → Deliver Db Bytes Bytes → Deliver Db Bytes Bytes
apply_all [] h = h
apply_all (D ∷ Ds) h = D (apply_all Ds h)

abbrev hand_on : Decorator Db Bytes Bytes
hand_on next ctx tx db = next ctx tx db

abbrev sign : Decorator Db Bytes Bytes
sign next ctx tx db = next (record ctx { outer = alice }) tx db

abbrev middleware : Middleware Db Bytes Bytes ℕ
middleware = record {
  chain_auth =
      λ auths. record { get_conditions = all_conditions auths; has_address = any_of auths };
  sigs_authenticate = by_signature;
  multisig_authenticate = nobody;
  with_handler = apply_all;
  logging = hand_on;
  recovery = hand_on;
  key_tagger = hand_on;
  savepoint_on_check = hand_on;
  sigs_decorator = sign;
  multisig_decorator = λ auth. hand_on;
  dynamic_fee = λ auth. hand_on;
  antispam_fee = λ fee. hand_on;
  msg_fee = hand_on;
  batch = hand_on;
  action_tagger = hand_on;
}

abbrev go_in : Enter Db Bytes Bytes
go_in ctx tx db = some (ctx, db)

-- the signer is noted in the context
abbrev signed_by_alice : Enter Db Bytes Bytes
signed_by_alice ctx tx db = some (record ctx { outer = alice }, db)

abbrev entries : Entries Db Bytes Bytes ℕ
entries = record {
  logging = go_in;
  recovery = go_in;
  key_tagger = go_in;
  savepoint_on_check = go_in;
  sigs = signed_by_alice;
  multisig = λ auth. go_in;
  dynamic_fee = λ auth. go_in;
  antispam_fee = λ fee. go_in;
  msg_fee = go_in;
  batch = go_in;
  action_tagger = go_in;
}

hand_on-Passing : (tx : Bytes) → Passing tx hand_on go_in
hand_on-Passing tx next ctx db r db'' e = (ctx, db, r, db'', refl, e, refl, refl)

middleware-IsMiddleware : (tx : Bytes) → IsMiddleware middleware entries tx
middleware-IsMiddleware tx =
    let p = hand_on-Passing tx in
    record {
      with_handler-nil = λ h. refl;
      with_handler-cons = λ D Ds h. refl;
      logging = p;
      recovery = p;
      key_tagger = p;
      savepoint_on_check = p;
      sigs_decorator =
          λ next ctx db r db'' e. (record ctx { outer = alice }, db, r, db'', refl, e, refl, refl);
      multisig_decorator = λ a. p;
      dynamic_fee = λ a. p;
      antispam_fee = λ fee. p;
      msg_fee = p;
      batch = p;
      action_tagger = p;
    }

abbrev decorator : AuthN Db Bytes
decorator = record {
  auth_n = by_signature;
  role_bucket = record {
    one = λ k db. lookup_model k ((role_id, deleter) ∷ []);
    has = λ k db. none;
    put = λ k m db. (ok k, db);
    delete = λ k db. (ok tt, db);
    by_index = λ name k db. ok ([], []);
  };
  role_bin_bucket = record {
    query_prefix = λ p db. ok (
        if p == alice
        then (codes "rb:" ++ (alice ++ role_id), new_binding role_id alice) ∷ []
        else []);
    save = λ k m db. (ok tt, db);
    db_key = λ k. codes "rb:" ++ k;
  };
}

-- A transaction is the image to delete.
abbrev handlers : Handler (Context Bytes) Bytes Db
handlers = record {
  auth = authenticator middleware;
  b = bucket;
  load_create = λ tx. err (other 0);
  load_delete = λ tx. ok (record { metadata = none; image = tx });
}

abbrev router : Authenticator (Context Bytes) → Bytes → Deliver Db Bytes Bytes
router auth issuer = delete_deliver handlers

abbrev path_of : Bytes → Result Bytes
path_of tx = ok (codes "artifacts/delete")

abbrev image : Bytes
image = codes "nginx"

abbrev db : Db
db = (image, record { metadata = none; owner = alice; image = image; checksum = codes "abc" }) ∷ []

-- the context of a transaction whose signatures have not been verified yet
abbrev fresh_context : Context Bytes
fresh_context = record { outer = []; conditions = none; permissions = none }

delivered :
    stack middleware decorator 2 path_of router [] 0 fresh_context image db
    ≡ (ok (record { content = [] }), [])
unfolding stack chain authenticator rbac_authenticate auth_n auth_z auth_n_deliver auth_z_handle
    new_auth_z auth_roles load_conditions load_ids load_roles load_each has_role lookup_model
    bytes_dec find_role_ids_by_address cut_keys slice_from copy with_roles with_rbac add64
    resolve_permission replace_byte to_lower has_permission delete_deliver delete_validate contains
    collect_permissions add_permissions add_permission or_empty remove_model
delivered = refl

any_of-Memᴰ : IsChain middleware.chain_auth
any_of-Memᴰ [] ctx a h = absurd (ground arith)
any_of-Memᴰ (auth ∷ auths) ctx a h = elim (Bool-cases (auth.has_address ctx a)) [
  | inl known ↦ (auth, Memᴰ.head refl, known)
  | inr other_one ↦
      let (found, there, known) = any_of-Memᴰ auths ctx a (ground (arith, h, other_one)) in
      (found, Memᴰ.tail there, known)
]

stack-delete_example :
    (s : StackAdmitted middleware decorator 2 path_of entries router [] 0 image fresh_context db)
    × (msg : DeleteArtifactMsg) × (a : Artifact) × (handlers.load_delete image ≡ ok msg)
    × (handlers.b.one msg.image s.routed_store ≡ ok a)
    × OwnerKnown middleware s.routed a.owner
    × ((x : Error) × (handlers.b.one msg.image s.left ≡ err x))
stack-delete_example =
    stack-delete middleware decorator 2 path_of handlers
      (memory_bucket-IsModelBucket artifact_validate upgrade) entries router [] 0 image
      (middleware-IsMiddleware image) any_of-Memᴰ refl (λ ctx db. refl) fresh_context db refl
      delivered
