-- ===== src/Webhook/Laws.antt =====
-- Which pods the webhook lets in.
use grafain.Prelude.{
  ap, ◌∙◌, ◌≡◌, ◌≢◌, ◌↔◌, refl, inl, inr, Option, none, some, List, [], ◌∷◌, ◌++◌, Bytes, All,
  arith, Option-cases, List-cases,
}
use grafain.Weave.{Weave, Error, registered, err_not_found, ok, Result-cases}
use grafain.Weave.Laws.{IsWeave}
use grafain.Artifact.Model.{Artifact}
use grafain.Webhook.{
  Pod, allowed, errored, PodValidator, internal_to_http_code, query_by_image, encode_err,
  unmarshal_all, inspect, do_with_containers, handle,
}

module _ {R : Type 0} (v : PodValidator R) where
  -- the models of a response are all artifacts
  abbrev pub AllDecode : List (Bytes × Bytes) → Type 0
  AllDecode models = All (λ (m : Bytes × Bytes). (a : Artifact) × (v.unmarshal m.1 ≡ ok a)) models

  -- The node has artifacts for the image, and each can be read.
  pub record IsKnown (image : Bytes) : Type 0 where
    pub answered : (v.source query_by_image image).1 ≡ none
    pub found : (v.source query_by_image image).0.models ≢ []
    pub decoded : AllDecode (v.source query_by_image image).0.models

module _ ⦃W : Weave⦄ (lawful : IsWeave W) {R : Type 0} (v : PodValidator R) where
  unmarshal_all_iff :
      (models : List (Bytes × Bytes)) → (unmarshal_all v models ≡ none) ↔ AllDecode v models
  unfolding unmarshal_all
  unmarshal_all_iff [] = (λ _. tt, λ _. refl)
  unmarshal_all_iff ((key, value) ∷ models) = elim (Result-cases (v.unmarshal value)) [
    | inl (a, fine) ↦
        let rest = unmarshal_all_iff models in
        (λ h. ((a, fine), rest.0 (ground arith)), λ (_, all). ground (arith, rest.1 all))
    | inr (e, bad) ↦ (λ h. absurd (ground arith), λ ((a, fine), _). absurd (ground arith))
  ]

  unmarshal_all-result :
      (models : List (Bytes × Bytes)) {r : Option Error}
      → unmarshal_all v models ≡ some r
      → r ≢ none
  unfolding unmarshal_all
  unmarshal_all-result [] h = cc
  unmarshal_all-result ((key, value) ∷ models) h = elim (Result-cases (v.unmarshal value)) [
    | inl (a, fine) ↦ unmarshal_all-result models (ground arith)
    | inr (e, bad) ↦ λ nil. ground (arith, lawful.wrap-some e "failed to unmarshal client response")
  ]

  inspect_iff : (image : Bytes) → (inspect v image ≡ none) ↔ IsKnown v image
  unfolding inspect
  inspect_iff image =
      let decode = unmarshal_all_iff (v.source query_by_image image).0.models in
      elim (Option-cases (v.source query_by_image image).1) [
        | inr (e, failing) ↦ (λ h. absurd (ground arith), λ k. absurd (ground (arith, k.answered)))
        | inl answered ↦ elim (List-cases (v.source query_by_image image).0.models) [
          | inl empty ↦ (λ h. absurd (ground arith), λ k. absurd (k.found empty))
          | inr (m, rest, full) ↦ (
            λ h. record {
              answered = answered;
              found = λ e. ground arith;
              decoded = decode.0 (ground arith);
            },
            λ k. ground (arith, decode.1 k.decoded),
          )
        ]
      ]

  inspect-result : (image : Bytes) {r : Option Error} → inspect v image ≡ some r → r ≢ none
  unfolding inspect
  inspect-result image h nil = elim (Option-cases (v.source query_by_image image).1) [
    | inr (e, failing) ↦ ground (arith, lawful.wrap-some e "failed to query backend")
    | inl answered ↦ elim (List-cases (v.source query_by_image image).0.models) [
      | inl empty ↦ ground arith
      | inr (m, rest, full) ↦
          unmarshal_all-result (v.source query_by_image image).0.models (ground arith) nil
    ]
  ]

  do_with_containers_iff :
      (images : List Bytes) → (do_with_containers v images ≡ none) ↔ All (IsKnown v) images
  unfolding do_with_containers
  do_with_containers_iff [] = (λ _. tt, λ _. refl)
  do_with_containers_iff (image ∷ images) =
      let rest = do_with_containers_iff images in
      elim (Option-cases (inspect v image)) [
        | inl fine ↦ (
          λ h. ((inspect_iff image).0 fine, rest.0 (ground arith)),
          λ (_, all). ground (arith, rest.1 all),
        )
        | inr (r, stops) ↦ (
          λ h. absurd (inspect-result image stops (ground arith)),
          λ (known, _). absurd (ground (arith, (inspect_iff image).1 known)),
        )
      ]

  do_with_containers-append :
      (images images' : List Bytes)
      → do_with_containers v (images ++ images') ≡ elim (do_with_containers v images) [
        | some e ↦ some e
        | none ↦ do_with_containers v images'
      ]
  unfolding do_with_containers
  do_with_containers-append [] images' = refl
  do_with_containers-append (image ∷ images) images' = elim (Option-cases (inspect v image)) [
    | inl fine ↦ ground (arith, do_with_containers-append images images')
    | inr (r, stops) ↦ elim (Option-cases r) [
      | inl nil ↦ absurd (inspect-result image stops nil)
      | inr (e, failing) ↦ ground arith
    ]
  ]

  do_with_containers-not_found :
      (before after : List Bytes) (image : Bytes)
      → All (IsKnown v) before
      → (v.source query_by_image image).1 ≡ none
      → (v.source query_by_image image).0.models ≡ []
      → do_with_containers v (before ++ image ∷ after) ≡ some (registered err_not_found)
  unfolding do_with_containers inspect
  do_with_containers-not_found before after image known answered missing =
      do_with_containers-append before (image ∷ after)
      ∙ ground (arith, (do_with_containers_iff before).1 known)

  -- A pod is admitted exactly if it can be decoded and the node has readable artifacts for the
  -- image of each of its containers and init containers.
  pub handle-allowed_iff :
      (req : R)
      → (handle v req ≡ allowed) ↔ (
          (pod : Pod) × (v.decode req ≡ ok pod)
          × All (IsKnown v) pod.containers
          × All (IsKnown v) pod.init_containers)
  unfolding handle encode_err
  handle-allowed_iff req = elim (Result-cases (v.decode req)) [
    | inr (e, bad) ↦ (λ h. absurd (ground arith), λ (pod, good, _, _). absurd (ground arith))
    | inl (pod, good) ↦ elim (Option-cases (do_with_containers v pod.containers)) [
      | inr (e, bad) ↦ (
        λ h. absurd (ground arith),
        λ (pod', good', known, _).
            absurd (ground (arith, (do_with_containers_iff pod'.containers).1 known)),
      )
      | inl fine ↦ elim (Option-cases (do_with_containers v pod.init_containers)) [
        | inr (e, bad) ↦ (
          λ h. absurd (ground arith),
          λ (pod', good', _, known).
              absurd (ground (arith, (do_with_containers_iff pod'.init_containers).1 known)),
        )
        | inl fine' ↦ (
          λ h. (
            pod,
            good,
            (do_with_containers_iff pod.containers).0 fine,
            (do_with_containers_iff pod.init_containers).0 fine',
          ),
          λ _. ground arith,
        )
      ]
    ]
  ]

  -- A pod whose first container with no readable artifacts is one that the node has nothing for is
  -- refused with the status 404.
  pub handle-not_found :
      (req : R) {pod : Pod} (before after : List Bytes) (image : Bytes)
      → v.decode req ≡ ok pod
      → pod.containers ++ pod.init_containers ≡ before ++ image ∷ after
      → All (IsKnown v) before
      → (v.source query_by_image image).1 ≡ none
      → (v.source query_by_image image).0.models ≡ []
      → handle v req ≡ errored 404 (registered err_not_found)
  unfolding handle encode_err internal_to_http_code
  handle-not_found req {pod} before after image decoded splits known answered missing = ground (
    arith,
    do_with_containers-append pod.containers pod.init_containers,
    ap (do_with_containers v) splits,
    do_with_containers-not_found before after image known answered missing,
    lawful.redact-registered err_not_found,
  )
