-- ===== src/Cli/Query.antt =====
-- The query command of cmd/grafaincli/cmd_query.go. The node's answer, the decoders of the models, and
-- weave's parsers and printers are parameters; the result stands for the JSON text that is written.
use grafain.Prelude.{
  Bool, ◌||◌, Option, none, some, List, [], ◌∷◌, ◌++◌, Bytes, codes, ◌==◌, length, eqb, ℕ,
  if◌then◌else◌,
}
use grafain.Weave.{Weave, Error}
use grafain.Client.Query.{AbciResponse}
use grafain.Cli.Keys.{
  string_id, numeric_id, ref_id, string_key, sequence_key, ref_key, hex_key, role_binding_key,
}

-- `decKey` of a query
pub data KeyForm : Type 0 where
  string_form sequence_form ref_form hex_form binding_form : KeyForm

-- `encID` of a query
pub data IdForm : Type 0 where
  string_input numeric_input address_input ref_input : IdForm

-- `queries`; the type of the object goes by the path
unfoldable pub queries : List (Bytes × KeyForm × IdForm)
queries =
    (codes "/artifacts", string_form, string_input)
    ∷ (codes "/artifacts/checksum", string_form, string_input)
    ∷ (codes "/proposals", sequence_form, numeric_input)
    ∷ (codes "/proposals/author", sequence_form, address_input)
    ∷ (codes "/proposals/electorate", sequence_form, numeric_input)
    ∷ (codes "/electionrules", ref_form, ref_input)
    ∷ (codes "/electorates", ref_form, ref_input)
    ∷ (codes "/electorates/elector", ref_form, address_input)
    ∷ (codes "/votes", hex_form, address_input)
    ∷ (codes "/votes/proposals", hex_form, numeric_input)
    ∷ (codes "/votes/electors", hex_form, address_input)
    ∷ (codes "/wallets", hex_form, address_input)
    ∷ (codes "/escrows", sequence_form, numeric_input)
    ∷ (codes "/revenues", sequence_form, numeric_input)
    ∷ (codes "/contracts", sequence_form, numeric_input)
    ∷ (codes "/rbac/roles", sequence_form, numeric_input)
    ∷ (codes "/rbac/rolebindings", binding_form, address_input)
    ∷ (codes "/rbac/principals", sequence_form, numeric_input)
    ∷ (codes "/rbac/principals/signature", sequence_form, address_input)
    ∷ []

unfoldable pub lookup_query : Bytes → List (Bytes × KeyForm × IdForm) → Option (KeyForm × IdForm)
lookup_query path [] = none
lookup_query path ((p, form, id_form) ∷ rest) =
    if p == path then some (form, id_form) else lookup_query path rest

-- The parameters of the command: weave's versioned ids and addresses, the node, and for a path the
-- decoder of its models.
pub record Remote (M : Type 0) : Type 0 where
  pub marshal_versioned_id : Bytes → ℕ → Bytes
  pub unmarshal_versioned_id : Bytes → Option (Bytes × ℕ)
  pub parse_address : Bytes → Option Bytes
  pub address_string : Bytes → Bytes
  pub abci_query : Bytes → Bytes → AbciResponse × Option Error
  pub unmarshal : Bytes → Bytes → Option M

module _ {M : Type 0} (r : Remote M) where
  unfoldable pub enc_id : IdForm → Bytes → Option Bytes
  enc_id string_input s = string_id s
  enc_id numeric_input s = numeric_id s
  enc_id address_input s = r.parse_address s
  enc_id ref_input s = ref_id r.marshal_versioned_id s

  module _ ⦃W : Weave⦄ where
    unfoldable pub dec_key : KeyForm → Bytes → Option Bytes
    dec_key string_form raw = string_key raw
    dec_key sequence_form raw = sequence_key raw
    dec_key ref_form raw = ref_key r.unmarshal_versioned_id raw
    dec_key hex_form raw = hex_key raw
    dec_key binding_form raw = role_binding_key r.address_string raw

    -- the loop over the models; the first that cannot be read ends it
    unfoldable pub key_values : Bytes → KeyForm → List (Bytes × Bytes) → Option (List (Bytes × M))
    key_values path form [] = some []
    key_values path form ((k, v) ∷ models) =
        let rest = key_values path form models in
        elim (r.unmarshal path v) [
          | none ↦ none
          | some obj ↦ elim (dec_key form k) [
            | none ↦ none
            | some key ↦ elim rest [ none ↦ none | some result ↦ some ((key, obj) ∷ result) ]
          ]
        ]

    -- what is asked of the node: the path with its modifier, and the encoded id
    unfoldable pub query_path : Bytes → Bytes → Bool → Bytes
    query_path path input prefix =
        if prefix || eqb (length input) 0 then path ++ codes "?prefix" else path

    -- `cmdQuery`, of its flags for the path, the data and the prefix
    unfoldable pub cmd_query : Bytes → Bytes → Bool → Option (List (Bytes × M))
    cmd_query path input prefix = elim (lookup_query path queries) [
      | none ↦ none
      | some (form, id_form) ↦
          elim (if eqb (length input) 0 then some [] else enc_id id_form input) [
            | none ↦ none
            | some id ↦
                let (resp, failure) = r.abci_query (query_path path input prefix) id in
                elim failure [ some e ↦ none | none ↦ key_values path form resp.models ]
          ]
    ]
