-- ===== src/Tests/Client.antt =====
-- pkg/client and pkg/webhook against a node that knows one user and one image.
use grafain.Prelude.{
  ℕ, ◌≡◌, ◌↔◌, refl, none, some, [], ◌∷◌, ◌++◌, Bytes, codes, bytes_dec, ◌==◌, All, arith,
  if◌then◌else◌,
}
use grafain.Weave.{other, ok, err, slice_from}
use grafain.Weave.Sample.{sample_weave, sample_weave-IsWeave}
use grafain.Client.{PkgErrors, Conn}
use grafain.Client.Query.{UserResponse, user_key_to_addr, abci_query, get_user}
use grafain.Client.Nonce.{new_nonce, next_all, sequence_of, counted, next_all-counts}
use grafain.Client.Broadcast.{
  Node, tx_event, is_error, broadcast_tx_sync, is_error-broadcast_tx_sync,
}
use grafain.Webhook.{Pod, allowed, PodValidator, handle, query_by_image}
use grafain.Webhook.Laws.{IsKnown, handle-allowed_iff}

instance abbrev sample_errors : PkgErrors
sample_errors = record { errorf = λ text. other 1; with_message = λ e text. e; wrap = λ e text. e }

abbrev alice : Bytes
alice = codes "alice---------------"

abbrev alice_user : UserResponse
alice_user = record { address = alice; user_data = record { sequence = 7 }; height = 3 }

-- The node knows alice. Of a result set only its bytes matter here.
abbrev conn : Conn
conn = record {
  abci_query = λ path input.
      ok (record { code = 0; key = codes "sigs:" ++ alice; value = 7 ∷ []; height = 3 });
  result_set = λ b. ok (b ∷ []);
  join_results = λ keys vals. elim keys [
    | [] ↦ ([], none)
    | k ∷ _ ↦ elim vals [ [] ↦ ([], none) | v ∷ _ ↦ ((k, v) ∷ [], none) ]
  ];
  user_data = λ b. ok (record { sequence = 7 });
}

found : get_user conn alice ≡ ok (some alice_user)
unfolding get_user abci_query user_key_to_addr slice_from bytes_dec
found = refl

next_all-counts_example :
    next_all (ok (some alice_user) ∷ err (other 2) ∷ ok none ∷ []) new_nonce
    ≡ ok 7 ∷ ok 8 ∷ ok 9 ∷ []
unfolding sequence_of counted
next_all-counts_example =
    next_all-counts (some alice_user) (err (other 2) ∷ ok none ∷ []) (omega arith)

abbrev node : Node Bytes
node = record {
  marshal = λ tx. ok tx;
  broadcast_tx_sync = λ b. ok 0;
  broadcast_tx_commit = λ b. (some (record { check_tx = 0; deliver_tx = 5; height = 9 }), none);
  wait_for_tx_event = λ b. ok (tx_event 0 9);
}

is_error-broadcast_tx_sync_example : (is_error (broadcast_tx_sync node alice) ≡ none) ↔ (
    (b : Bytes) × (height : ℕ) × (node.marshal alice ≡ ok b)
    × (node.broadcast_tx_sync b ≡ ok 0)
    × (node.wait_for_tx_event b ≡ ok (tx_event 0 height)))
is_error-broadcast_tx_sync_example = is_error-broadcast_tx_sync node alice

abbrev nginx : Bytes
nginx = codes "nginx"

abbrev redis : Bytes
redis = codes "redis"

abbrev pod : Pod
pod = record { containers = nginx ∷ []; init_containers = redis ∷ [] }

-- A node that knows nginx only.
abbrev validator : PodValidator Unit
validator = record {
  decode = λ req. ok pod;
  source = λ path image.
      if image == nginx
      then (record { models = (nginx, []) ∷ []; height = 1 }, none)
      else (record { models = []; height = 1 }, none);
  unmarshal = λ b. ok (record { metadata = none; owner = alice; image = nginx; checksum = [] });
}

nginx-IsKnown : IsKnown validator nginx
unfolding bytes_dec
nginx-IsKnown = record { answered = refl; found = λ e. cc; decoded = ((_, refl), tt) }

redis_answered : (validator.source query_by_image redis).1 ≡ none
unfolding bytes_dec
redis_answered = refl

redis_missing : (validator.source query_by_image redis).0.models ≡ []
unfolding bytes_dec
redis_missing = refl

handle-allowed_iff_example : (handle validator tt ≡ allowed) ↔ (
    (pod : Pod) × (validator.decode tt ≡ ok pod)
    × All (IsKnown validator) pod.containers
    × All (IsKnown validator) pod.init_containers)
handle-allowed_iff_example = handle-allowed_iff sample_weave-IsWeave validator tt
