-- ===== src/Artifact/Genesis/Laws.antt =====
-- What the genesis file leaves in the store, and what a repeated image does.
use grafain.Prelude.{
  ◌≡◌, ◌≢◌, refl, ap, ◌∙◌, Option, none, some, inl, inr, List, [], ◌∷◌, map, Bytes, ◌==◌, ==_iff,
  All, arith, Bool-cases, if◌then◌else◌,
}
use grafain.Weave.{Weave, Error, err_not_found, Result, ok, err, ModelBucket}
use grafain.Weave.Laws.{IsWeave, IsModelBucket}
use grafain.Artifact.Model.{Artifact, artifact_validate}
use grafain.Artifact.Handler.{put}
use grafain.Artifact.Handler.Laws.{length_ne}
use grafain.Artifact.Genesis.{GenesisArtifact, of_genesis, from_genesis}

-- the artifact that the file gives for an image
unfoldable pub listed : List GenesisArtifact → Bytes → Option GenesisArtifact
listed [] j = none
listed (a ∷ rest) j = if j == a.image then some a else listed rest j

-- the artifact that an entry of the file describes
abbrev pub artifact_of : GenesisArtifact → Artifact
artifact_of a = record {
  metadata = some (record { schema = 1 });
  owner = a.owner;
  image = a.image;
  checksum = a.checksum;
}

abbrev pub Distinct : List GenesisArtifact → Type 0
Distinct [] = Unit
Distinct (a ∷ rest) = All (λ b. b.image ≢ a.image) rest × Distinct rest

All-map {ℓ} :
    {A : Type ℓ} {P Q R : A → Type 0} (xs : List A)
    → ((x : A) → P x → Q x → R x)
    → All P xs
    → All Q xs
    → All R xs
All-map [] f p q = tt
All-map (x ∷ xs) f p q = (f x p.0 q.0, All-map xs f p.1 q.1)

listed-none :
    (file : List GenesisArtifact) (j : Bytes) → All (λ b. b.image ≢ j) file → listed file j ≡ none
unfolding listed
listed-none [] j h = refl
listed-none (a ∷ file) j (differs, h) = ground (arith, listed-none file j h, ==_iff j a.image)

module _ ⦃W : Weave⦄ {DB : Type 0} (bucket : ModelBucket DB Artifact)
    {upgrade : Artifact → Artifact} (weave : IsWeave W)
    (lawful : IsModelBucket W artifact_validate upgrade bucket) where
  -- The second artifact of an image, or one for an image that is stored already, ends the
  -- initialisation with no error: what follows it in the file is never stored.
  pub from_genesis-duplicate :
      (a : GenesisArtifact) (rest : List (Result GenesisArtifact)) (db : DB) {m : Artifact}
      → artifact_validate (of_genesis a) ≡ none
      → bucket.one a.image db ≡ ok m
      → from_genesis bucket (ok a ∷ rest) db ≡ (none, db)
  unfolding from_genesis of_genesis
  from_genesis-duplicate a rest db valid stored = ground (
    arith,
    lawful.has-found a.image db stored,
    weave.wrap-none "[%d]  image must %q not exist",
    weave.is-none err_not_found,
  )

  -- A file entry that can be stored: it is valid, it has an image, and none is stored for that
  -- image.
  pub record IsFresh (db : DB) (a : GenesisArtifact) : Type 0 where
    pub valid : artifact_validate (artifact_of a) ≡ none
    pub named : a.image ≢ []
    pub absent : (e : Error) × (bucket.one a.image db ≡ err e)

  -- The migration leaves a model of the current schema as it is.
  module _
      (current : (a : Artifact) → a.metadata ≡ some (record { schema = 1 }) → upgrade a ≡ a) where
    -- what a write of a fresh entry does
    put-fresh :
        (a : GenesisArtifact) (db : DB)
        → IsFresh db a
        → ((bucket.put a.image (artifact_of a) db).0 ≡ ok a.image)
          × ((j : Bytes)
              → bucket.one j (bucket.put a.image (artifact_of a) db).1
                ≡ (if j == a.image then ok (artifact_of a) else bucket.one j db))
    put-fresh a db fresh =
        let same = current (artifact_of a) refl in
        let (written, all) =
          lawful.put-valid a.image (artifact_of a) db fresh.named
            (ap (λ (m : Artifact). artifact_validate m) same ∙ fresh.valid) in
        (
          written,
          λ j. all j ∙ ap (λ (m : Artifact). if j == a.image then ok m else bucket.one j db) same,
        )

    IsFresh-put :
        (a : GenesisArtifact) (db : DB)
        → IsFresh db a
        → (rest : List GenesisArtifact) → All (λ b. b.image ≢ a.image) rest
        → All (IsFresh db) rest
        → All (IsFresh (bucket.put a.image (artifact_of a) db).1) rest
    IsFresh-put a db now rest = All-map rest (λ b differs fresh.
        let (_, all) = put-fresh a db now in
        record {
          valid = fresh.valid;
          named = fresh.named;
          absent =
              (fresh.absent.0, ground (arith, all b.image, ==_iff b.image a.image, fresh.absent.1));
        })

    -- A file of entries that can be stored, with different images, is stored as the file has it: each
    -- with its owner, image and checksum under its image. Nothing else changes.
    pub from_genesis-stores :
        (file : List GenesisArtifact) (db : DB)
        → All (IsFresh db) file
        → Distinct file
        → ((from_genesis bucket (map ok file) db).0 ≡ none)
          × ((j : Bytes)
              → bucket.one j (from_genesis bucket (map ok file) db).1
                ≡ elim (listed file j) [ some a ↦ ok (artifact_of a) | none ↦ bucket.one j db ])
    unfolding from_genesis of_genesis put listed
    from_genesis-stores [] db fresh distinct = (refl, λ j. refl)
    from_genesis-stores (a ∷ rest) db (now, later) (differ, distinct) =
        let (_, why) = now.absent in
        let (written, all) = put-fresh a db now in
        let db' = (bucket.put a.image (artifact_of a) db).1 in
        let named = length_ne a.image now.named in
        let missing = lawful.has-missing a.image db why in
        let valid = now.valid in
        let (ended, found) =
          from_genesis-stores rest db' (IsFresh-put a db now rest differ later) distinct in
        (
          ground (arith, ended),
          λ j. elim (Bool-cases (j == a.image)) [
            | inl same ↦
                ground (arith, found j, all j, ==_iff j a.image, listed-none rest a.image differ)
            | inr other ↦ ground (arith, found j, all j)
          ],
        )
