-- ===== src/Client/Query/Laws.antt =====
-- What `GetUser` and `Currencies` return.
use grafain.Prelude.{
  ◌≡◌, ◌↔◌, inl, inr, none, some, List, [], ◌∷◌, Bytes, codes, drop, arith, Option-cases,
  List-cases,
}
use grafain.Weave.{Weave, ok, slice_from}
use grafain.Weave.Laws.{IsWeave}
use grafain.Client.{PkgErrors, Conn}
use grafain.Client.Query.{UserResponse, user_key_to_addr, abci_query, get_user}

module _ ⦃E : PkgErrors⦄ ⦃W : Weave⦄ (lawful : IsWeave W) (c : Conn) where
  -- A user that is returned is the one asked for: its address is, and its data are those of a
  -- model with five bytes and the address as its key.
  pub get_user-some :
      (addr : Bytes) {u : UserResponse}
      → get_user c addr ≡ ok (some u)
      → (u.address ≡ addr)
        × (W.address_validate addr ≡ none)
        × ((key value : Bytes) × (rest : List (Bytes × Bytes)) × ((abci_query c
                (codes "/auth")
                addr).0.models
              ≡ (key, value) ∷ rest)
            × (drop 5 key ≡ addr)
            × (c.user_data value ≡ ok u.user_data))
  unfolding get_user user_key_to_addr slice_from
  get_user-some addr {u} h = elim (Option-cases (W.address_validate addr)) [
    | inr (e, bad) ↦ absurd (ground arith)
    | inl valid ↦ elim (Option-cases (abci_query c (codes "/auth") addr).1) [
      | inr (e, bad) ↦ absurd (ground arith)
      | inl fine ↦ elim (List-cases (abci_query c (codes "/auth") addr).0.models) [
        | inl empty ↦ absurd (ground arith)
        | inr ((key, value), rest, found) ↦
            ground (arith, lawful.address_equals_iff addr (drop 5 key))
      ]
    ]
  ]

module _ ⦃E : PkgErrors⦄ ⦃W : Weave⦄ (c : Conn) where
  -- No user and no error means that the query went well and found nothing.
  pub get_user-none_iff :
      (addr : Bytes)
      → (get_user c addr ≡ ok none) ↔ (
          (W.address_validate addr ≡ none)
          × ((abci_query c (codes "/auth") addr).1 ≡ none)
          × ((abci_query c (codes "/auth") addr).0.models ≡ []))
  unfolding get_user
  get_user-none_iff addr = ground arith
