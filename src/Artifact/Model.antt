-- ===== src/Artifact/Model.antt =====
-- The stored type and the messages of pkg/artifact: model.go, msg.go and the index of bucket.go.
use grafain.Prelude.{
  ℕ, zero, suc, Bool, true, not, ◌&&◌, ◌||◌, Option, none, some, [], ◌∷◌, Bytes, codes, length, leb,
  ltb, eqb, if◌then◌else◌,
}
use grafain.Weave.{Weave, Metadata, Error, registered, err_empty, err_input, err_human}

pub record Artifact : Type 0 where
  pub metadata : Option Metadata
  pub owner : Bytes
  pub image : Bytes
  pub checksum : Bytes

pub record CreateArtifactMsg : Type 0 where
  pub metadata : Option Metadata
  pub image : Bytes
  pub checksum : Bytes
  pub owner : Bytes

pub record DeleteArtifactMsg : Type 0 where
  pub metadata : Option Metadata
  pub image : Bytes

-- `[0-9a-zA-Z]`
unfoldable pub is_alnum : ℕ → Bool
is_alnum c = (leb b'0' c && leb c b'9') || (leb b'a' c && leb c b'z') || (leb b'A' c && leb c b'Z')

unfoldable pub all_alnum : Bytes → Bool
all_alnum [] = true
all_alnum (c ∷ s) = is_alnum c && all_alnum s

-- `[0-9a-zA-Z]{1,100}$`
unfoldable pub ends_alnum : Bytes → Bool
ends_alnum s = leb 1 (length s) && leb (length s) 100 && all_alnum s

-- `:?[0-9a-zA-Z]{1,100}$`
unfoldable pub ends_sum : Bytes → Bool
ends_sum [] = ends_alnum []
ends_sum (c ∷ s) = (eqb c b':' && ends_alnum s) || ends_alnum (c ∷ s)

-- `[0-9a-zA-Z]{0,n}:?[0-9a-zA-Z]{1,100}$`, by trying each length of the first part
unfoldable pub sum_from : ℕ → Bytes → Bool
sum_from zero s = ends_sum s
sum_from (suc n) [] = ends_sum []
sum_from (suc n) (c ∷ s) = ends_sum (c ∷ s) || (is_alnum c && sum_from n s)

-- `isChecksum`, the regular expression ^[0-9a-zA-Z]{0,10}:?[0-9a-zA-Z]{1,100}$
unfoldable pub is_checksum : Bytes → Bool
is_checksum = sum_from 10

abbrev pub max_image_length : ℕ
max_image_length = 255

-- `Artifact.Copy`: the owner is not copied
unfoldable pub artifact_copy : Artifact → Artifact
artifact_copy m = record {
  metadata = m.metadata;
  owner = [];
  image = m.image;
  checksum = m.checksum;
}

-- What the object store hands to an index function: nothing, an artifact, or another model.
pub data Indexed : Type 0 where
  nil : Indexed
  artifact : Artifact → Indexed
  other_model : Indexed

-- `CreateArtifactMsg.Path`
unfoldable pub create_path : Bytes
create_path = codes "artifacts/create"

-- `DeleteArtifactMsg.Path`
unfoldable pub delete_path : Bytes
delete_path = codes "artifacts/delete"

module _ ⦃W : Weave⦄ where
  -- `Image.Validate`
  unfoldable pub image_validate : Bytes → Option Error
  image_validate i =
      if eqb (length i) 0
      then some (registered err_empty)
      else if ltb max_image_length (length i)
      then W.wrap (some (registered err_input)) "exceeds max length: 255"
      else none

  -- `if !isChecksum(m.Checksum)`
  unfoldable pub append_checksum : Option Error → Bytes → Option Error
  append_checksum errs checksum =
      if not (is_checksum checksum)
      then W.append_field errs "Checksum" (some (registered err_input))
      else errs

  -- `Artifact.Validate`
  unfoldable pub artifact_validate : Artifact → Option Error
  artifact_validate m =
      let errs = W.append_field none "Metadata" (W.metadata_validate m.metadata) in
      let errs' = W.append_field errs "owner" (W.address_validate m.owner) in
      let errs'' = W.append_field errs' "Image" (image_validate m.image) in
      append_checksum errs'' m.checksum

  -- `CreateArtifactMsg.Validate`
  unfoldable pub create_msg_validate : CreateArtifactMsg → Option Error
  create_msg_validate m =
      let errs = W.append_field none "Metadata" (W.metadata_validate m.metadata) in
      let errs' = W.append_field errs "Image" (image_validate m.image) in
      W.append_field (append_checksum errs' m.checksum) "Owner" (W.address_validate m.owner)

  -- `DeleteArtifactMsg.Validate`
  unfoldable pub delete_msg_validate : DeleteArtifactMsg → Option Error
  delete_msg_validate m =
      let errs = W.append_field none "Metadata" (W.metadata_validate m.metadata) in
      W.append_field errs "Image" (image_validate m.image)

  -- `indexChecksum`
  unfoldable pub index_checksum : Indexed → Bytes × Option Error
  index_checksum nil = ([], W.wrap (some (registered err_human)) "cannot take index of nil")
  index_checksum (artifact v) = (v.checksum, none)
  index_checksum other_model =
      ([], W.wrap (some (registered err_human)) "Can only take index of Artifacts")
