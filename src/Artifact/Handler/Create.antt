-- ===== src/Artifact/Handler/Create.antt =====
-- A creation of an artifact on each of its paths, from the message to what the store has then.
use grafain.Prelude.{
  ◌≡◌, ◌≢◌, refl, ◌∙◌, ap, ◌⊎◌, inl, inr, true, false, none, some, [], ◌∷◌, Bytes, ◌==◌, length,
  eqb, arith, Bool-cases, Option-cases, if◌then◌else◌,
}
use grafain.Weave.{Weave, Error, registered, err_unauthorized, err_input, ok, err, DeliverResult}
use grafain.Weave.Laws.{IsModelBucket}
use grafain.Artifact.Model.{Artifact, CreateArtifactMsg, artifact_validate}
use grafain.Artifact.Handler.{Handler, put, new_artifact, create_validate, create_deliver}
use grafain.Artifact.Handler.Laws.{failed-err, ne_of_length, create_deliver-stores}

-- What a migration with `NoModification` leaves as it is: all but the metadata.
pub record IsNoModification (upgrade : Artifact → Artifact) : Type 0 where
  pub owner : (a : Artifact) → (upgrade a).owner ≡ a.owner
  pub image : (a : Artifact) → (upgrade a).image ≡ a.image
  pub checksum : (a : Artifact) → (upgrade a).checksum ≡ a.checksum

-- an artifact with an owner, an image and a checksum
pub record IsArtifactOf (owner image checksum : Bytes) (a : Artifact) : Type 0 where
  pub same_owner : a.owner ≡ owner
  pub same_image : a.image ≡ image
  pub same_checksum : a.checksum ≡ checksum

-- what the handler hands to the bucket, whose migration fills in the schema
abbrev pub submitted : CreateArtifactMsg → Artifact
submitted msg = record {
  metadata = some (record { schema = 0 });
  owner = msg.owner;
  image = msg.image;
  checksum = msg.checksum;
}

length_nil : (s : Bytes) → eqb (length s) 0 ≡ true → s ≡ []
length_nil [] h = refl
length_nil (c ∷ s) h = absurd (ground arith)

new_artifact-submitted : (msg : CreateArtifactMsg) → new_artifact msg ≡ submitted msg
unfolding new_artifact
new_artifact-submitted msg = refl

module _ ⦃W : Weave⦄ {C T DB : Type 0} (h : Handler C T DB) (ctx : C) (tx : T) (db : DB) where
  -- The message is signed by its owner, and its artifact is stored under the image as the migration
  -- leaves it; no other image changes.
  abbrev pub Created : (Artifact → Artifact) → CreateArtifactMsg → Type 0
  Created upgrade msg =
      (h.auth.has_address ctx msg.owner ≡ true)
      × (msg.image ≢ [])
      × (artifact_validate (upgrade (submitted msg)) ≡ none)
      × ((create_deliver h ctx tx db).0 ≡ ok (record { content = msg.image }))
      × IsArtifactOf msg.owner msg.image msg.checksum (upgrade (submitted msg))
      × ((j : Bytes)
          → h.b.one j (create_deliver h ctx tx db).1
            ≡ (if j == msg.image then ok (upgrade (submitted msg)) else h.b.one j db))

  -- The creation fails and has written nothing: the owner has not signed, there is no image, or the
  -- artifact is not valid.
  abbrev pub Refused : (Artifact → Artifact) → CreateArtifactMsg → Type 0
  Refused upgrade msg =
      ((e : Error) × (create_deliver h ctx tx db ≡ (err e, db)))
      × ((h.auth.has_address ctx msg.owner ≡ false)
          ⊎ ((msg.image ≡ []) ⊎ (artifact_validate (upgrade (submitted msg)) ≢ none)))

  foreign-Refused :
      (upgrade : Artifact → Artifact) (msg : CreateArtifactMsg)
      → h.load_create tx ≡ ok msg
      → h.auth.has_address ctx msg.owner ≡ false
      → Refused upgrade msg
  unfolding create_deliver create_validate
  foreign-Refused upgrade msg loaded foreign =
      let (e, fails) =
        failed-err {A = CreateArtifactMsg}
          (W.wrap (some (registered err_unauthorized)) "owner's signature required") in
      ((e, ground (arith, loaded, foreign, fails)), inl foreign)

  unnamed_fails :
      (msg : CreateArtifactMsg)
      → h.load_create tx ≡ ok msg
      → h.auth.has_address ctx msg.owner ≡ true
      → eqb (length msg.image) 0 ≡ true
      → (e : Error) × (create_deliver h ctx tx db ≡ (err e, db))
  unfolding create_deliver create_validate put
  unnamed_fails msg loaded signed unnamed =
      let (e, fails) =
        failed-err {A = Bytes} (W.wrap (some (registered err_input)) "empty key not allowed") in
      let (e', fails') =
        failed-err {A = DeliverResult} (W.wrap (some e) "failed to store artifact") in
      (e', ground (arith, loaded, signed, unnamed, fails, fails'))

  module _ {upgrade : Artifact → Artifact} (kept : IsNoModification upgrade)
      (bucket : IsModelBucket W artifact_validate upgrade h.b) where
    invalid-Refused :
        (msg : CreateArtifactMsg)
        → h.load_create tx ≡ ok msg
        → h.auth.has_address ctx msg.owner ≡ true
        → eqb (length msg.image) 0 ≡ false
        → artifact_validate (upgrade (submitted msg)) ≢ none
        → Refused upgrade msg
    unfolding create_deliver create_validate put
    invalid-Refused msg loaded signed named invalid =
        let ((e, refused), same) = bucket.put-invalid msg.image (submitted msg) db invalid in
        let same' = new_artifact-submitted msg in
        let (e', fails) =
          failed-err {A = DeliverResult} (W.wrap (some e) "failed to store artifact") in
        (
          (e', ground (arith, loaded, signed, named, refused, same, fails, same')),
          inr (inr invalid),
        )

    -- A creation with a message that can be loaded either is signed by the message's owner, and stores
    -- the valid artifact with the message's owner, image and checksum under this image and changes no
    -- other; or it fails and writes nothing, and the owner has not signed, the image is empty, or the
    -- artifact is not valid.
    pub create_deliver-Created :
        (msg : CreateArtifactMsg)
        → h.load_create tx ≡ ok msg
        → Created upgrade msg ⊎ Refused upgrade msg
    create_deliver-Created msg loaded = elim (Bool-cases (h.auth.has_address ctx msg.owner)) [
      | inr foreign ↦ inr (foreign-Refused upgrade msg loaded foreign)
      | inl signed ↦ elim (Bool-cases (eqb (length msg.image) 0)) [
        | inl empty ↦
            inr (unnamed_fails msg loaded signed empty, inr (inl (length_nil msg.image empty)))
        | inr full ↦ elim (Option-cases (artifact_validate (upgrade (submitted msg)))) [
          | inr (e, bad) ↦ inr (invalid-Refused msg loaded signed full (λ good. ground arith))
          | inl valid ↦
              let named = ne_of_length msg.image full in
              let (done, all) = create_deliver-stores h ctx tx db bucket loaded signed named (
                ap (λ (a : Artifact). artifact_validate (upgrade a)) (new_artifact-submitted msg)
                ∙ valid) in
              let same : IsArtifactOf msg.owner msg.image msg.checksum (upgrade (submitted msg)) =
                record {
                  same_owner = kept.owner (submitted msg);
                  same_image = kept.image (submitted msg);
                  same_checksum = kept.checksum (submitted msg);
                } in
              let stored : (j : Bytes)
                  → h.b.one j (create_deliver h ctx tx db).1
                    ≡ (if j == msg.image then ok (upgrade (submitted msg)) else h.b.one j db) =
                λ j.
                  all j
                  ∙ ap (λ (a : Artifact). if j == msg.image then ok (upgrade a) else h.b.one j db)
                      (new_artifact-submitted msg) in
              inl (signed, named, valid, done, same, stored)
        ]
      ]
    ]
