-- ===== src/Client/Query.antt =====
-- Queries of pkg/client/base_client.go: `AbciQuery`, `GetUser` and `Currencies`.
pub mod Laws
use Prim.Native.String.{String}
use grafain.Prelude.{
  ℕ, Bool, true, false, not, Option, none, some, List, [], ◌∷◌, Bytes, codes, ◌==◌, length, eqb,
  if◌then◌else◌,
}
use grafain.Weave.{Weave, Error, Result, ok, err, ◌>>=◌, slice_from}
use grafain.Client.{PkgErrors, ResponseQuery, UserData, Conn}

-- `AbciResponse`
pub record AbciResponse : Type 0 where
  pub models : List (Bytes × Bytes)
  pub height : ℕ

-- `UserResponse`
pub record UserResponse : Type 0 where
  pub address : Bytes
  pub user_data : UserData
  pub height : ℕ

-- `userKeyToAddr`
unfoldable pub user_key_to_addr : Bytes → Result Bytes
user_key_to_addr key = slice_from 5 key

-- `out.Currencies[key] = ti`
unfoldable pub set_currency : {T : Type 0} → Bytes → T → List (Bytes × T) → List (Bytes × T)
set_currency key ti [] = (key, ti) ∷ []
set_currency key ti ((k, t) ∷ out) =
    let rest = set_currency key ti out in if k == key then (key, ti) ∷ out else (k, t) ∷ rest

module _ ⦃E : PkgErrors⦄ (c : Conn) where
  -- `AbciQuery`: the response so far, and the error
  unfoldable pub abci_query : Bytes → Bytes → AbciResponse × Option Error
  abci_query path input = elim (c.abci_query path input) [
    | err e ↦ (record { models = []; height = 0 }, some e)
    | ok resp ↦
        if not (eqb resp.code 0)
        then (record { models = []; height = 0 }, some (E.errorf "(%d): %s"))
        else if eqb (length resp.key) 0
        then (record { models = []; height = resp.height }, none)
        else elim (c.result_set resp.key) [
          | err e ↦ (record { models = []; height = resp.height }, some e)
          | ok keys ↦ elim (c.result_set resp.value) [
            | err e ↦ (record { models = []; height = resp.height }, some e)
            | ok vals ↦
                let (models, e) = c.join_results keys vals in
                (record { models = models; height = resp.height }, e)
          ]
        ]
  ]

  -- `GetUser`; `ok none` is the `nil, nil` of an address that never signed
  unfoldable pub get_user : ⦃W : Weave⦄ → Bytes → Result (Option UserResponse)
  get_user ⦃W⦄ addr = elim (W.address_validate addr) [
    | some e ↦ err (E.with_message e "Invalid Address")
    | none ↦
        let (resp, failure) = abci_query (codes "/auth") addr in
        elim failure [
          | some e ↦ err e
          | none ↦ elim resp.models [
            | [] ↦ ok none
            | (key, value) ∷ _ ↦ elim (user_key_to_addr key) [
              | err e ↦ err e
              | ok acct ↦
                  if not (W.address_equals addr acct)
                  then err (E.errorf "Mismatch. Queried %s, returned %s")
                  else elim (c.user_data value) [
                    | err e ↦ err e
                    | ok user ↦
                        ok
                          (some (record { address = acct; user_data = user; height = resp.height }))
                  ]
            ]
          ]
        ]
  ]

  module _ {T : Type 0} (token_info : Bytes → Result T) where
    -- the loop of `Currencies`; a later token of the same key replaces an earlier one
    unfoldable pub add_currencies :
        List (Bytes × Bytes) → List (Bytes × T) → List (Bytes × T) × Option Error
    add_currencies [] out = (out, none)
    add_currencies ((key, value) ∷ models) out = elim (token_info value) [
      | err e ↦ (out, some (E.wrap e "failed to unmarshal value of key %q"))
      | ok ti ↦ add_currencies models (set_currency key ti out)
    ]

    -- `Currencies`: the height of the response stays 0
    unfoldable pub currencies : (ℕ × List (Bytes × T)) × Option Error
    currencies =
        let (resp, failure) = abci_query (codes "/tokens?prefix") [] in
        elim failure [
          | some e ↦ ((0, []), some (E.wrap e "failed to query for all currencies"))
          | none ↦ let (out, e) = add_currencies resp.models [] in ((0, out), e)
        ]
