-- ===== src/Tests/Admission.antt =====
-- The webhook behind the handlers of artifacts: bob creates nginx, and alice deletes it.
use grafain.Prelude.{◌≡◌, ◌≢◌, ◌↔◌, ◌⊎◌, refl, Option, none, List, [], ◌∷◌, Bytes, codes, ap}
use grafain.Weave.{Error, Result, ok, err}
use grafain.Weave.Sample.{sample_weave, sample_weave-IsWeave}
use grafain.Client.Query.{AbciResponse}
use grafain.Artifact.Model.{Artifact, DeleteArtifactMsg}
use grafain.Artifact.Handler.{create_deliver, delete_deliver}
use grafain.Webhook.{Pod, allowed, handle}
use grafain.Webhook.Admission.{
  Stored, Serves, AllImages, validator_at, create-admits, delete-admits,
}
use grafain.Tests.Artifacts.{
  Db, alice, bob, image, bucket, bucket-IsModelBucket, handlers, db, by_alice, by_bob,
  created_valid, bob_signed, named, deleted, artifact,
}

abbrev decode : Bytes → Result Pod
decode req = ok (record { containers = req ∷ []; init_containers = [] })

abbrev unmarshal : Bytes → Result Artifact
unmarshal value = ok (artifact value)

abbrev models_of : Bytes → Result Artifact → List (Bytes × Bytes)
models_of key (ok a) = (key, a.owner) ∷ []
models_of key (err e) = []

abbrev ask : Db → Bytes → Bytes → AbciResponse × Option Error
ask db path key = (record { models = models_of key (bucket.one key db); height = 1 }, none)

ask-Serves : Serves bucket unmarshal ask
ask-Serves = record {
  answers = λ db key. refl;
  serves-found =
      λ db key {a} found. (key, a.owner, ap (models_of key) found, (artifact a.owner, refl));
  serves-missing = λ db key missing. ap (models_of key) missing;
}

create-admits_example :
    (handle
        (validator_at decode unmarshal ask (create_deliver handlers bob by_bob []).1)
        (codes "redis")
      ≡ allowed)
    ↔ AllImages decode (λ i. (i ≡ image) ⊎ Stored bucket [] i) (codes "redis")
create-admits_example =
    create-admits sample_weave-IsWeave handlers bob by_bob bucket-IsModelBucket decode unmarshal ask
      ask-Serves [] refl bob_signed named created_valid (codes "redis")

delete-admits_example :
    (msg : DeleteArtifactMsg) × (handlers.load_delete by_alice ≡ ok msg)
    × ((req : Bytes)
        → (handle
              (validator_at decode unmarshal ask (delete_deliver handlers alice by_alice db).1)
              req
            ≡ allowed)
          ↔ AllImages decode (λ i. (i ≢ msg.image) × Stored bucket db i) req)
delete-admits_example =
    delete-admits sample_weave-IsWeave handlers alice by_alice bucket-IsModelBucket decode unmarshal
      ask ask-Serves db deleted
