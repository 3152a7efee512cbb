-- ===== src/Artifact/Handler/Laws.antt =====
-- What the artifact handlers do to the store, on each of their paths.
use grafain.Prelude.{
  ◌≡◌, ◌≢◌, refl, inl, inr, true, false, Option, none, some, [], ◌∷◌, Bytes, ◌==◌, length, eqb,
  arith, Bool-cases, Option-cases, if◌then◌else◌,
}
use grafain.Weave.{
  Weave, Error, registered, err_unauthorized, ok, err, ModelBucket, DeliverResult, failed,
  Result-cases,
}
use grafain.Weave.Laws.{IsModelBucket}
use grafain.Artifact.Model.{Artifact, CreateArtifactMsg, DeleteArtifactMsg, artifact_validate}
use grafain.Artifact.Handler.{
  Handler, put, new_artifact, create_validate, create_check, create_deliver, delete_validate,
  delete_check, delete_deliver,
}

pub failed-err {ℓ} : {A : Type ℓ} (e : Option Error) → (x : Error) × (failed {A = A} e ≡ err x)
failed-err none = (_, refl)
failed-err (some e) = (e, refl)

pub length_ne : (s : Bytes) → s ≢ [] → eqb (length s) 0 ≡ false
length_ne [] h = absurd (h refl)
length_ne (c ∷ s) h = ground arith

pub ne_of_length : (s : Bytes) → eqb (length s) 0 ≡ false → s ≢ []
ne_of_length [] h = cc
ne_of_length (c ∷ s) h = λ e. cc

module _ ⦃W : Weave⦄ {DB : Type 0} (b : ModelBucket DB Artifact) {upgrade : Artifact → Artifact}
    (lawful : IsModelBucket W artifact_validate upgrade b) where
  -- `Put` writes all or nothing.
  pub put-failed :
      (image : Bytes) (m : Artifact) (db : DB) {e : Error}
      → (put b image m db).0 ≡ err e
      → (put b image m db).1 ≡ db
  unfolding put
  put-failed image m db out = elim (Bool-cases (eqb (length image) 0)) [
    | inl empty ↦ ground arith
    | inr named ↦ elim (Option-cases (artifact_validate (upgrade m))) [
      | inl valid ↦
          absurd (ground (arith, (lawful.put-valid image m db (ne_of_length image named) valid).0))
      | inr (e', invalid) ↦ ground (arith, (lawful.put-invalid image m db (λ none'. cc)).1)
    ]
  ]

module _ ⦃W : Weave⦄ {C T DB : Type 0} (h : Handler C T DB) (ctx : C) (tx : T) (db : DB) where
  delete_validate-ok :
      {msg : DeleteArtifactMsg}
      → delete_validate h ctx tx db ≡ ok msg
      → (a : Artifact) × (h.load_delete tx ≡ ok msg)
        × (h.b.one msg.image db ≡ ok a)
        × (h.auth.has_address ctx a.owner ≡ true)
  unfolding delete_validate
  delete_validate-ok {msg} valid = elim (Result-cases (h.load_delete tx)) [
    | inr (e, refused) ↦
        absurd (ground (arith, failed-err {A = DeleteArtifactMsg} (W.wrap (some e) "load msg")))
    | inl (msg', loaded) ↦ elim (Result-cases (h.b.one msg'.image db)) [
      | inr (e, missing) ↦ absurd (
          ground (
            arith,
            failed-err {A = DeleteArtifactMsg}
                (W.wrap (some e) "cannot load artifact entity from the store"),
          ))
      | inl (a, found) ↦ elim (Bool-cases (h.auth.has_address ctx a.owner)) [
        | inl signed ↦
            let same : msg' ≡ msg = ground arith in
            (a, rw (← same) loaded, rw (← same) found, signed)
        | inr foreign ↦ absurd (
            ground (
              arith,
              failed-err {A = DeleteArtifactMsg}
                  (W.wrap (some (registered err_unauthorized)) "owner's signature required"),
            ))
      ]
    ]
  ]

module _ ⦃W : Weave⦄ {C T DB : Type 0} (h : Handler C T DB) (ctx : C) (tx : T) (db : DB) where
  -- Check and Deliver of a creation agree: what Check refuses Deliver refuses with the same error,
  -- and it does not touch the store.
  pub create_check-refuses :
      {e : Error} → create_check h ctx tx ≡ err e → create_deliver h ctx tx db ≡ (err e, db)
  unfolding create_check create_deliver
  create_check-refuses refused = ground arith

  pub delete_check-refuses :
      {e : Error} → delete_check h ctx tx db ≡ err e → delete_deliver h ctx tx db ≡ (err e, db)
  unfolding delete_check delete_deliver
  delete_check-refuses refused = ground arith

  module _ {upgrade : Artifact → Artifact}
      (lawful : IsModelBucket W artifact_validate upgrade h.b) where
    -- A creation that its owner has signed is stored under its image, whatever stood there; no
    -- other image changes.
    pub create_deliver-stores :
        {msg : CreateArtifactMsg}
        → h.load_create tx ≡ ok msg
        → h.auth.has_address ctx msg.owner ≡ true
        → msg.image ≢ []
        → artifact_validate (upgrade (new_artifact msg)) ≡ none
        → ((create_deliver h ctx tx db).0 ≡ ok (record { content = msg.image }))
          × ((j : Bytes)
              → h.b.one j (create_deliver h ctx tx db).1
                ≡ (if j == msg.image then ok (upgrade (new_artifact msg)) else h.b.one j db))
    unfolding create_deliver create_validate put
    create_deliver-stores {msg} loaded signed named valid =
        let (stored, all) = lawful.put-valid msg.image (new_artifact msg) db named valid in
        let e = length_ne msg.image named in (ground arith, λ j. ground (arith, all j))

    -- A creation that fails has written nothing.
    pub create_deliver-failed :
        {e : Error} → (create_deliver h ctx tx db).0 ≡ err e → (create_deliver h ctx tx db).1 ≡ db
    unfolding create_deliver
    create_deliver-failed out = elim (Result-cases (create_validate h ctx tx)) [
      | inr (e', refused) ↦ ground arith
      | inl (msg, valid) ↦ elim (Result-cases (put h.b msg.image (new_artifact msg) db).0) [
        | inr (e', failing) ↦
            ground (arith, put-failed h.b lawful msg.image (new_artifact msg) db failing)
        | inl (k, stored) ↦ absurd (ground arith)
      ]
    ]

    -- A deletion that succeeds was signed by the owner of the stored artifact; the image is gone,
    -- and no other has changed.
    pub delete_deliver-ok :
        {r : DeliverResult}
        → (delete_deliver h ctx tx db).0 ≡ ok r
        → (msg : DeleteArtifactMsg) × (a : Artifact) × (h.load_delete tx ≡ ok msg)
          × (h.b.one msg.image db ≡ ok a)
          × (h.auth.has_address ctx a.owner ≡ true)
          × ((e : Error) × (h.b.one msg.image (delete_deliver h ctx tx db).1 ≡ err e))
          × ((j : Bytes) → j ≢ msg.image → h.b.one j (delete_deliver h ctx tx db).1 ≡ h.b.one j db)
    unfolding delete_deliver
    delete_deliver-ok {r} done = elim (Result-cases (delete_validate h ctx tx db)) [
      | inr (e', refused) ↦ absurd (ground arith)
      | inl (msg, valid) ↦
          let (a, loaded, found, signed) = delete_validate-ok h ctx tx db valid in
          let (deleted, rest, gone) = lawful.delete-found msg.image db found in
          (
            msg,
            a,
            loaded,
            found,
            signed,
            (gone.0, ground (arith, gone.1)),
            λ j differs. ground (arith, rest j differs),
          )
    ]
