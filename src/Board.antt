-- ===== src/Board.antt =====
-- cmd/grafainboard/main.go: the page with the artifacts. The template, the HTTP server and the logger
-- are not modelled; `weave.Model`s are pairs of a key and a value.
pub mod Laws
use grafain.Prelude.{
  ℕ, suc, ◌+◌, Option, none, some, List, [], ◌∷◌, Bytes, codes, length, eqb, drop, if◌then◌else◌,
}
use grafain.Prelude.BigEndian.{uint64}
use grafain.Weave.{Error, other, Result, ok, err}
use grafain.Artifact.Model.{Artifact}
use grafain.Client.{PkgErrors, Conn}
use grafain.Client.Query.{abci_query}
use grafain.Cli.Keys.{print_int64}

-- `keyval`
pub record KeyVal : Type 0 where
  pub key : Bytes
  pub value : Artifact

-- `raw[bytes.Index(raw, []byte(":"))+1:]`: what follows the first colon, or all of it
unfoldable pub after_colon : Bytes → Option Bytes
after_colon [] = none
after_colon (c ∷ s) = let rest = after_colon s in if eqb c b':' then some s else rest

unfoldable pub skip_prefix : Bytes → Bytes
skip_prefix raw = elim (after_colon raw) [ none ↦ raw | some s ↦ s ]

-- `sequenceKey`
unfoldable pub sequence_key : Bytes → Option Bytes
sequence_key raw =
    let seq = skip_prefix raw in
    if eqb (length seq) 8
    then elim (uint64 seq) [ none ↦ none | some n ↦ some (print_int64 n) ]
    else none

module _ (unmarshal : Bytes → Result Artifact) where
  -- the loop of `query`
  unfoldable pub key_vals : List (Bytes × Bytes) → Option (List KeyVal)
  key_vals [] = some []
  key_vals ((k, v) ∷ models) =
      let rest = key_vals models in
      elim (unmarshal v) [
        | err e ↦ none
        | ok obj ↦ elim (sequence_key k) [
          | none ↦ none
          | some key ↦ elim rest [
            | none ↦ none
            | some kvs ↦ some (record { key = key; value = obj } ∷ kvs)
          ]
        ]
      ]

  -- `query`
  unfoldable pub query : ⦃E : PkgErrors⦄ → Conn → Option (List KeyVal)
  query c =
      let (resp, failure) = abci_query c (codes "/artifacts?prefix") [] in
      elim failure [ some e ↦ none | none ↦ key_vals resp.models ]

  -- The function that `board` returns: the status, and the items of the page. `render` says whether
  -- the template could be executed.
  unfoldable pub board : ⦃E : PkgErrors⦄ → Conn → (List KeyVal → Option Bytes) → ℕ × Bytes
  board c render = elim (query c) [
    | none ↦ (500, [])
    | some artfs ↦ elim (render artfs) [ none ↦ (500, []) | some page ↦ (200, page) ]
  ]
