-- ===== src/Tests/Artifacts.antt =====
-- pkg/artifact on a store with one artifact of alice's.
use grafain.Prelude.{
  ◌≡◌, ◌≢◌, ◌⊎◌, refl, ap, sym, Option, true, false, none, some, List, [], ◌∷◌, map, Bytes, codes,
  bytes_dec, ◌==◌,
}
use grafain.Weave.{Metadata, Kind, Error, registered, err_not_found, ok, err, ModelBucket}
use grafain.Weave.Laws.{IsModelBucket}
use grafain.Weave.Sample.{
  sample_weave, sample_weave-IsWeave, memory_bucket, memory_bucket-IsModelBucket, lookup_model,
}
use grafain.Artifact.Model.{
  Artifact, CreateArtifactMsg, DeleteArtifactMsg, artifact_validate, image_validate,
  append_checksum, is_checksum, sum_from, ends_sum, all_alnum, ends_alnum, is_alnum,
}
use grafain.Artifact.Handler.{
  Handler, new_artifact, create_validate, create_check, create_deliver, delete_validate,
  delete_deliver,
}
use grafain.Artifact.Handler.Laws.{delete_deliver-ok}
use grafain.Artifact.Handler.Create.{Created, Refused, create_deliver-Created}
use grafain.Artifact.Handler.Takeover.{takeover}
use grafain.Artifact.Genesis.{GenesisArtifact, of_genesis, from_genesis}
use grafain.Artifact.Genesis.Laws.{
  listed, artifact_of, IsFresh, from_genesis-duplicate, from_genesis-stores,
}

abbrev pub Db : Type 0
Db = List (Bytes × Artifact)

abbrev pub alice : Bytes
alice = codes "alice---------------"

abbrev pub bob : Bytes
bob = codes "bob-----------------"

abbrev pub artifact : Bytes → Artifact
artifact owner = record {
  metadata = some (record { schema = 1 });
  owner = owner;
  image = codes "nginx";
  checksum = codes "sha256:abc";
}

abbrev pub image : Bytes
image = codes "nginx"

test_validate :
    (artifact_validate (artifact alice) ≡ none)
    × (is_checksum (codes "sha256:") ≡ false)
    × (is_checksum (codes "") ≡ false)
unfolding artifact_validate image_validate append_checksum is_checksum sum_from ends_sum all_alnum
    ends_alnum is_alnum
test_validate = (refl, refl, refl)

abbrev upgrade : Artifact → Artifact
upgrade m = record m { metadata = some (record { schema = 1 }) }

abbrev pub bucket : ModelBucket Db Artifact
bucket = memory_bucket artifact_validate upgrade

pub bucket-IsModelBucket : IsModelBucket sample_weave artifact_validate upgrade bucket
bucket-IsModelBucket = memory_bucket-IsModelBucket artifact_validate upgrade

-- The context is the address that has signed; a transaction is its image and owner.
abbrev pub handlers : Handler Bytes (Bytes × Bytes) Db
handlers = record {
  auth = record { get_conditions = λ c. c ∷ []; has_address = λ c a. c == a };
  b = bucket;
  load_create = λ tx.
      ok (record { metadata = none; image = tx.0; checksum = codes "sha256:abc"; owner = tx.1 });
  load_delete = λ tx. ok (record { metadata = none; image = tx.0 });
}

abbrev pub db : Db
db = (image, artifact alice) ∷ []

abbrev pub by_alice : Bytes × Bytes
by_alice = (image, alice)

abbrev pub by_bob : Bytes × Bytes
by_bob = (image, bob)

abbrev created : Artifact
created =
    new_artifact
      (record { metadata = none; image = image; checksum = codes "sha256:abc"; owner = bob })

found : bucket.one image db ≡ ok (artifact alice)
unfolding lookup_model bytes_dec
found = refl

pub created_valid : artifact_validate (upgrade created) ≡ none
unfolding artifact_validate image_validate append_checksum is_checksum sum_from ends_sum all_alnum
    ends_alnum is_alnum new_artifact
created_valid = refl

pub bob_signed : (bob == bob) ≡ true
unfolding bytes_dec
bob_signed = refl

bob_foreign : (bob == alice) ≡ false
unfolding bytes_dec
bob_foreign = refl

pub named : image ≢ []
named e = cc

refused : create_check handlers bob by_alice ≡ err (registered Kind.err_unauthorized)
unfolding create_check create_validate bytes_dec
refused = refl

refused_deliver :
    (create_deliver handlers bob by_alice db).0 ≡ err (registered Kind.err_unauthorized)
unfolding create_deliver create_validate bytes_dec
refused_deliver = refl

pub deleted : (delete_deliver handlers alice by_alice db).0 ≡ ok (record { content = [] })
unfolding delete_deliver delete_validate lookup_model bytes_dec
deleted = refl

abbrev bobs : CreateArtifactMsg
bobs = record { metadata = none; image = image; checksum = codes "sha256:abc"; owner = bob }

create_deliver-Created_example :
    Created handlers bob by_bob db upgrade bobs ⊎ Refused handlers bob by_bob db upgrade bobs
create_deliver-Created_example =
    create_deliver-Created handlers bob by_bob db
      (record { owner = λ a. refl; image = λ a. refl; checksum = λ a. refl }) bucket-IsModelBucket
      bobs refl

delete_deliver-ok_example :
    (msg : DeleteArtifactMsg) × (a : Artifact) × (handlers.load_delete by_alice ≡ ok msg)
    × (bucket.one msg.image db ≡ ok a)
    × (handlers.auth.has_address alice a.owner ≡ true)
    × ((e : Error) × (bucket.one msg.image (delete_deliver handlers alice by_alice db).1 ≡ err e))
    × ((j : Bytes)
        → j ≢ msg.image
        → bucket.one j (delete_deliver handlers alice by_alice db).1 ≡ bucket.one j db)
delete_deliver-ok_example =
    delete_deliver-ok handlers alice by_alice db bucket-IsModelBucket deleted

takeover_example :
    let after = (create_deliver handlers bob by_bob db).1 in
    ((e : Error) × (delete_deliver handlers bob by_bob db ≡ (err e, db)))
    × ((delete_deliver handlers bob by_bob after).0 ≡ ok (record { content = [] }))
    × ((e : Error) × (bucket.one image (delete_deliver handlers bob by_bob after).1 ≡ err e))
takeover_example =
    takeover handlers bob by_bob bucket-IsModelBucket (λ a. refl) db by_bob found bob_foreign refl
      bob_signed named created_valid refl refl

abbrev entry : Bytes → GenesisArtifact
entry i = record { image = i; checksum = codes "sha256:abc"; owner = alice }

abbrev redis : Bytes
redis = codes "redis"

valid_entry : artifact_validate (of_genesis (entry image)) ≡ none
unfolding artifact_validate image_validate append_checksum is_checksum sum_from ends_sum all_alnum
    ends_alnum is_alnum of_genesis
valid_entry = refl

fresh : IsFresh bucket sample_weave-IsWeave bucket-IsModelBucket [] (entry redis)
unfolding artifact_validate image_validate append_checksum is_checksum sum_from ends_sum all_alnum
    ends_alnum is_alnum of_genesis lookup_model
fresh = record { valid = refl; named = λ e. cc; absent = (registered err_not_found, refl) }

from_genesis-duplicate_example :
    from_genesis bucket (ok (entry image) ∷ ok (entry redis) ∷ []) db ≡ (none, db)
from_genesis-duplicate_example =
    from_genesis-duplicate bucket sample_weave-IsWeave bucket-IsModelBucket (entry image)
      (ok (entry redis) ∷ []) db valid_entry found

upgrade_current : (a : Artifact) → a.metadata ≡ some (record { schema = 1 }) → upgrade a ≡ a
upgrade_current a h = ap (λ (m : Option Metadata). record a { metadata = m }) (sym h)

from_genesis-stores_example :
    ((from_genesis bucket (map ok (entry redis ∷ [])) []).0 ≡ none)
    × ((j : Bytes)
        → bucket.one j (from_genesis bucket (map ok (entry redis ∷ [])) []).1
          ≡ elim (listed (entry redis ∷ []) j) [
            | some a ↦ ok (artifact_of a)
            | none ↦ bucket.one j []
          ])
from_genesis-stores_example =
    from_genesis-stores bucket sample_weave-IsWeave bucket-IsModelBucket upgrade_current
      (entry redis ∷ []) [] (fresh, tt) (tt, tt)
