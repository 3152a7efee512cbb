-- ===== src/Webhook.antt =====
-- pkg/webhook: which pods are admitted (validatingwebhook.go), and how the server reads the
-- address that it listens at (server.go). The decoder of a request and the query of the node are
-- parameters.
pub mod Laws
pub mod Admission
use Prim.Native.String.{String}
use grafain.Prelude.{
  ℕ, Bool, true, false, not, Option, none, some, List, [], ◌∷◌, ◌++◌, Bytes, codes, length, eqb,
  split, if◌then◌else◌,
}
use grafain.Prelude.Decimal.{Signed, atoi}
use grafain.Weave.{
  Weave, Kind, err_empty, err_input, err_not_found, err_unauthorized, err_human, err_duplicate,
  err_type, Error, registered, other, panic, Result, ok, err, failed,
}
use grafain.Client.Query.{AbciResponse}
use grafain.Artifact.Model.{Artifact}

-- `corev1.Pod`, as far as it is read: the images of the two lists of containers
pub record Pod : Type 0 where
  pub containers : List Bytes
  pub init_containers : List Bytes

-- `admission.Response`
pub data Response : Type 0 where
  allowed : Response
  errored : ℕ → Error → Response

-- `PodValidator`, with `artifact.Artifact.Unmarshal`
pub record PodValidator (R : Type 0) : Type 0 where
  pub decode : R → Result Pod
  pub source : Bytes → Bytes → AbciResponse × Option Error
  pub unmarshal : Bytes → Result Artifact

-- `internalToHTTPCode`
unfoldable pub internal_to_http_code : Error → Option ℕ
internal_to_http_code (registered err_not_found) = some 404
internal_to_http_code (registered err_unauthorized) = some 401
internal_to_http_code (registered err_duplicate) = some 409
internal_to_http_code (registered err_empty) = none
internal_to_http_code (registered err_input) = none
internal_to_http_code (registered err_human) = none
internal_to_http_code (registered err_type) = none
internal_to_http_code (other n) = none
internal_to_http_code panic = none

abbrev pub query_by_image : Bytes
query_by_image = codes "/artifacts"

-- what `Start` sets the host and the port of the server to; the port is not checked for its range
unfoldable pub server_address : ⦃W : Weave⦄ → Bytes → Result (Bytes × Signed)
server_address ⦃W⦄ address = elim (split b':' address) [
  | host ∷ port ∷ [] ↦ elim (atoi port) [
    | some n ↦ ok (host, n)
    | none ↦ failed (W.wrap (some (registered err_input)) "Invalid port :%q")
  ]
  | _ ↦ failed (W.wrap (some (registered err_input)) "Invalid address :%q")
]

module _ ⦃W : Weave⦄ where
  -- `encodeErr`
  unfoldable pub encode_err : Error → ℕ × Error
  encode_err e = elim (internal_to_http_code (W.redact e)) [
    | some c ↦ (c, W.redact e)
    | none ↦ (500, W.redact e)
  ]

  module _ {R : Type 0} (v : PodValidator R) where
    -- the loop over the models: the artifacts are read and then dropped; `none` goes on behind it
    unfoldable pub unmarshal_all : List (Bytes × Bytes) → Option (Option Error)
    unmarshal_all [] = none
    unmarshal_all ((key, value) ∷ models) = elim (v.unmarshal value) [
      | err e ↦ some (W.wrap (some e) "failed to unmarshal client response")
      | ok artf ↦ unmarshal_all models
    ]

    -- the body of the loop of `doWithContainers`: `none` goes on to the next container
    unfoldable pub inspect : Bytes → Option (Option Error)
    inspect image =
        let (resp, failure) = v.source query_by_image image in
        elim failure [
          | some e ↦ some (W.wrap (some e) "failed to query backend")
          | none ↦
              if eqb (length resp.models) 0
              then some (some (registered err_not_found))
              else unmarshal_all resp.models
        ]

    -- `doWithContainers`
    unfoldable pub do_with_containers : List Bytes → Option Error
    do_with_containers [] = none
    do_with_containers (image ∷ images) = elim (inspect image) [
      | some result ↦ result
      | none ↦ do_with_containers images
    ]

    -- `Handle`
    unfoldable pub handle : R → Response
    handle req = elim (v.decode req) [
      | err e ↦ errored 400 e
      | ok pod ↦ elim (do_with_containers pod.containers) [
        | some e ↦ let (code, e') = encode_err e in errored code e'
        | none ↦ elim (do_with_containers pod.init_containers) [
          | some e ↦ let (code, e') = encode_err e in errored code e'
          | none ↦ allowed
        ]
      ]
    ]
