-- ===== src/Webhook/Admission.antt =====
-- The webhook of pkg/webhook, asking a node whose store the handlers of pkg/artifact write.
use grafain.Prelude.{
  ◌≡◌, ◌≢◌, ◌↔◌, ◌⊎◌, inl, inr, sym, ◌∙◌, true, Option, none, List, [], ◌∷◌, subst, Bool-cases,
  ==_iff, Bytes, All, arith, ◌==◌,
}
use grafain.Weave.{Weave, Error, Result, ok, err, ModelBucket, DeliverResult, Result-cases}
use grafain.Weave.Laws.{IsWeave, IsModelBucket}
use grafain.Client.Query.{AbciResponse}
use grafain.Artifact.Model.{Artifact, CreateArtifactMsg, DeleteArtifactMsg, artifact_validate}
use grafain.Artifact.Handler.{Handler, new_artifact, create_deliver, delete_deliver}
use grafain.Artifact.Handler.Laws.{create_deliver-stores, delete_deliver-ok}
use grafain.Webhook.{Pod, allowed, PodValidator, query_by_image, handle}
use grafain.Webhook.Laws.{IsKnown, handle-allowed_iff}

All-map :
    {A : Type 0} {P Q : A → Type 0} → ((x : A) → P x → Q x) → (xs : List A) → All P xs → All Q xs
All-map f [] h = tt
All-map f (x ∷ xs) (h, hs) = (f x h, All-map f xs hs)

-- there is an artifact under the image
abbrev pub Stored : {DB : Type 0} → ModelBucket DB Artifact → DB → Bytes → Type 0
Stored b db image = (a : Artifact) × (b.one image db ≡ ok a)

-- What weave's query of a bucket says: the model under the key, which can be read, or nothing.
pub record Serves {DB : Type 0} (b : ModelBucket DB Artifact) (unmarshal : Bytes → Result Artifact)
    (ask : DB → Bytes → Bytes → AbciResponse × Option Error) : Type 0 where
  pub answers : (db : DB) (image : Bytes) → (ask db query_by_image image).1 ≡ none
  pub serves-found :
      (db : DB) (image : Bytes) {a : Artifact}
      → b.one image db ≡ ok a
      → (key value : Bytes) × ((ask db query_by_image image).0.models ≡ (key, value) ∷ [])
        × ((a' : Artifact) × (unmarshal value ≡ ok a'))
  pub serves-missing :
      (db : DB) (image : Bytes) {e : Error}
      → b.one image db ≡ err e
      → (ask db query_by_image image).0.models ≡ []

module _ {R : Type 0} (decode : R → Result Pod) where
  -- a pod each of whose images satisfies P
  abbrev pub AllImages : (Bytes → Type 0) → R → Type 0
  AllImages P req =
      (pod : Pod) × (decode req ≡ ok pod) × All P pod.containers × All P pod.init_containers

  images_iff :
      {P Q : Bytes → Type 0}
      → ((image : Bytes) → P image ↔ Q image)
      → (req : R) → AllImages P req ↔ AllImages Q req
  images_iff f req = (
    λ (pod, good, outer, inner). (
      pod,
      good,
      All-map (λ i. (f i).0) pod.containers outer,
      All-map (λ i. (f i).0) pod.init_containers inner,
    ),
    λ (pod, good, outer, inner). (
      pod,
      good,
      All-map (λ i. (f i).1) pod.containers outer,
      All-map (λ i. (f i).1) pod.init_containers inner,
    ),
  )

module _ {DB R : Type 0} (decode : R → Result Pod) (unmarshal : Bytes → Result Artifact)
    (ask : DB → Bytes → Bytes → AbciResponse × Option Error) where
  -- the webhook while the node has the store
  abbrev pub validator_at : DB → PodValidator R
  validator_at db = record { decode = decode; source = ask db; unmarshal = unmarshal }

  module _ (b : ModelBucket DB Artifact) (serves : Serves b unmarshal ask) (db : DB) where
    Stored-IsKnown : (image : Bytes) → Stored b db image → IsKnown (validator_at db) image
    Stored-IsKnown image (a, found) =
        let (key, value, models, read) = serves.serves-found db image found in
        record {
          answered = serves.answers db image;
          found = λ e. ground (arith, models);
          decoded =
              subst (λ ms. All (λ (m : Bytes × Bytes). (a : Artifact) × (unmarshal m.1 ≡ ok a)) ms)
                (sym models) (read, tt);
        }

    IsKnown-Stored : (image : Bytes) → IsKnown (validator_at db) image → Stored b db image
    IsKnown-Stored image k = elim (Result-cases (b.one image db)) [
      | inl found ↦ found
      | inr (e, missing) ↦ absurd (k.found (serves.serves-missing db image missing))
    ]

    admitted_iff :
        ⦃W : Weave⦄ (lawful : IsWeave W) {Q : Bytes → Type 0}
        → ((image : Bytes) → Stored b db image ↔ Q image)
        → (req : R) → (handle (validator_at db) req ≡ allowed) ↔ AllImages decode Q req
    admitted_iff lawful {Q} stored req =
        let known = handle-allowed_iff lawful (validator_at db) req in
        let same : AllImages decode (IsKnown (validator_at db)) req ↔ AllImages decode Q req =
          images_iff decode
            (λ image. (
              λ k. (stored image).0 (IsKnown-Stored image k),
              λ q. Stored-IsKnown image ((stored image).1 q),
            ))
            req in
        (λ h. same.0 (known.0 h), λ h. known.1 (same.1 h))

module _ ⦃W : Weave⦄ (lawful : IsWeave W) {C T DB R : Type 0} (h : Handler C T DB) (ctx : C)
    (tx : T) {upgrade : Artifact → Artifact}
    (bucket : IsModelBucket W artifact_validate upgrade h.b) (decode : R → Result Pod)
    (unmarshal : Bytes → Result Artifact) (ask : DB → Bytes → Bytes → AbciResponse × Option Error)
    (serves : Serves h.b unmarshal ask) (db : DB) where
  -- After a valid creation that its owner has signed, the webhook admits exactly the pods each of
  -- whose images is the created one or had an artifact before.
  pub create-admits :
      {msg : CreateArtifactMsg}
      → h.load_create tx ≡ ok msg
      → h.auth.has_address ctx msg.owner ≡ true
      → msg.image ≢ []
      → artifact_validate (upgrade (new_artifact msg)) ≡ none
      → (req : R)
      → (handle (validator_at decode unmarshal ask (create_deliver h ctx tx db).1) req ≡ allowed)
        ↔ AllImages decode (λ i. (i ≡ msg.image) ⊎ Stored h.b db i) req
  create-admits {msg} loaded signed named valid req =
      let (_, all) = create_deliver-stores h ctx tx db bucket loaded signed named valid in
      let after = (create_deliver h ctx tx db).1 in
      let stored : (i : Bytes) → Stored h.b after i ↔ ((i ≡ msg.image) ⊎ Stored h.b db i) = λ i.
        elim (Bool-cases (i == msg.image)) [
          | inl same ↦ (
            λ _. inl ((==_iff i msg.image).0 same),
            λ _. (upgrade (new_artifact msg), ground (arith, all i)),
          )
          | inr differs ↦ (
            λ (a, found). inr (a, ground (arith, all i)),
            λ x. elim x [
              | inl same ↦ absurd (ground (arith, (==_iff i msg.image).1 same))
              | inr (a, found) ↦ (a, ground (arith, all i))
            ],
          )
        ] in
      admitted_iff decode unmarshal ask h.b serves after lawful stored req

  -- After a deletion that has gone well, the webhook admits exactly the pods that it would have
  -- admitted before and in which the image of the message is not.
  pub delete-admits :
      {r : DeliverResult}
      → (delete_deliver h ctx tx db).0 ≡ ok r
      → (msg : DeleteArtifactMsg) × (h.load_delete tx ≡ ok msg)
        × ((req : R)
            → (handle (validator_at decode unmarshal ask (delete_deliver h ctx tx db).1) req
                ≡ allowed)
              ↔ AllImages decode (λ i. (i ≢ msg.image) × Stored h.b db i) req)
  delete-admits deleted =
      let (msg, a, loaded, found, signed, (e, gone), rest) =
        delete_deliver-ok h ctx tx db bucket deleted in
      let after = (delete_deliver h ctx tx db).1 in
      let stored : (i : Bytes) → Stored h.b after i ↔ ((i ≢ msg.image) × Stored h.b db i) = λ i. (
        λ (x, there).
            let differs : i ≢ msg.image = λ same. absurd (ground (arith, gone, same, there)) in
            (differs, (x, sym (rest i differs) ∙ there)),
        λ (differs, (x, there)). (x, rest i differs ∙ there),
      ) in
      (msg, loaded, admitted_iff decode unmarshal ask h.b serves after lawful stored)
