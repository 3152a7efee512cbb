-- ===== src/Board/Laws.antt =====
-- When the board can show the artifacts.
use grafain.Prelude.{
  ◌≡◌, ◌≢◌, refl, ◌↔◌, inl, inr, some, List, [], ◌∷◌, ◌++◌, map, ℕ, Bytes, All, length, eqb, arith,
  Option-cases, Bool-cases,
}
use grafain.Prelude.BigEndian.{uint64}
use grafain.Cli.Keys.{print_int64}
use grafain.Weave.{Result, ok}
use grafain.Artifact.Model.{Artifact}
use grafain.Board.{KeyVal, after_colon, skip_prefix, sequence_key, key_vals}

-- The key of an image, behind the name of the bucket.
abbrev pub image_key : Bytes → Bytes → Bytes
image_key bucket image = bucket ++ (b':' ∷ image)

after_colon-image_key :
    (bucket image : Bytes)
    → All (λ c. c ≢ b':') bucket
    → after_colon (image_key bucket image) ≡ some image
unfolding after_colon
after_colon-image_key [] image h = refl
after_colon-image_key (c ∷ bucket) image (h, hs) =
    ground (arith, h, after_colon-image_key bucket image hs)

uint64-eight : (s : Bytes) → length s ≡ 8 → (n : ℕ) × (uint64 s ≡ some n)
unfolding uint64
uint64-eight (a ∷ b ∷ c ∷ d ∷ e ∷ f ∷ g ∷ h ∷ s) eight = (_, refl)
uint64-eight _ eight = absurd (omega arith)

-- A key is printed exactly if the image has eight bytes.
sequence_key-image_key :
    (bucket image : Bytes)
    → All (λ c. c ≢ b':') bucket
    → ((s : Bytes) × (sequence_key (image_key bucket image) ≡ some s)) ↔ (length image ≡ 8)
unfolding sequence_key skip_prefix
sequence_key-image_key bucket image plain =
    let cut = after_colon-image_key bucket image plain in
    (
      λ (s, e). elim (Bool-cases (eqb (length image) 8)) [
        | inl eight ↦ ground (arith, eight)
        | inr differs ↦ absurd (ground (arith, e, cut, differs))
      ],
      λ eight.
          let (n, read) = uint64-eight image eight in
          (print_int64 n, ground (arith, cut, eight, read)),
    )

-- the models of artifacts, as the node gives them: of an image, the stored bytes and the artifact
abbrev pub model_of : Bytes → Bytes × Bytes × Artifact → Bytes × Bytes
model_of bucket (image, value, a) = (image_key bucket image, value)

module _ (unmarshal : Bytes → Result Artifact) (bucket : Bytes)
    (plain : All (λ c. c ≢ b':') bucket) where
  -- The board can show stored artifacts exactly if each of their images has eight bytes.
  pub key_vals-images :
      (stored : List (Bytes × Bytes × Artifact))
      → All (λ m. unmarshal m.1 ≡ ok m.2) stored
      → ((kvs : List KeyVal) × (key_vals unmarshal (map (model_of bucket) stored) ≡ some kvs))
        ↔ All (λ m. length m.0 ≡ 8) stored
  unfolding key_vals
  key_vals-images [] h = (λ _. tt, λ _. ([], refl))
  key_vals-images ((image, value, a) ∷ stored) (good, h) =
      let rest = key_vals-images stored h in
      let key = sequence_key-image_key bucket image plain in
      (
        λ (kvs, e). elim (Option-cases (sequence_key (image_key bucket image))) [
          | inl bad ↦ absurd (ground (arith, e, good, bad))
          | inr (s, printed) ↦
              elim (Option-cases (key_vals unmarshal (map (model_of bucket) stored))) [
                | inl bad ↦ absurd (ground (arith, e, good, printed, bad))
                | inr (more, fine) ↦ (key.0 (s, printed), rest.0 (more, fine))
              ]
        ],
        λ (eight, eights).
            let (s, printed) = key.1 eight in
            let (more, fine) = rest.1 eights in
            (record { key = s; value = a } ∷ more, ground (arith, good, printed, fine)),
      )
