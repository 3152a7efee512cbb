-- ===== src/Cli/Key.antt =====
-- cmd/grafaincli/cmd_key.go and cmd_sigs.go: keys, and the signing of a transaction. The cryptography,
-- the derivation of keys and the word lists are parameters; a file is its content.
pub mod Laws
use grafain.Prelude.{
  ℕ, Bool, Option, none, some, List, [], ◌∷◌, ◌++◌, Bytes, codes, ◌==◌, length, eqb, ◌||◌, ◌&&◌,
  true, false, leb, take, if◌then◌else◌,
}
use grafain.Weave.{Result, ok, err}
use grafain.App.Tx.{Tx}
use grafain.Client.Query.{UserResponse}
use grafain.Client.Nonce.{new_nonce, next}
use grafain.Cli.Stream.{read_input}
use grafain.Cli.Commands.{Outcome, done, returned_error, Tools, return_write, put_tx, get_tx}

-- `unicode.IsSpace` of an ASCII byte
unfoldable pub is_space : ℕ → Bool
is_space c = (leb 9 c && leb c 13) || eqb c 32

-- a field, unless it is empty
unfoldable pub add_field : Bytes → List Bytes → List Bytes
add_field [] words = words
add_field (c ∷ w) words = (c ∷ w) ∷ words

-- the text up to the first space, and the fields behind it
unfoldable pub fields_from : Bytes → Bytes × List Bytes
fields_from [] = ([], [])
fields_from (c ∷ s) =
    let (word, words) = fields_from s in
    if is_space c then ([], add_field word words) else (c ∷ word, words)

-- `strings.Fields` of an ASCII text
unfoldable pub fields : Bytes → List Bytes
fields s = let (word, words) = fields_from s in add_field word words

-- `strings.Join(words, " ")`
unfoldable pub join_space : List Bytes → Bytes
join_space [] = []
join_space (w ∷ ws) = elim ws [ [] ↦ w | _ ∷ _ ↦ w ++ (32 ∷ join_space ws) ]

-- go-bip39, stellar's derivation and ed25519. The public key of a private one, its address and the
-- hash belong to weave and the standard library.
pub record Crypto : Type 0 where
  pub entropy_from_mnemonic : Bytes → Option Bytes
  pub new_seed : Bytes → Bytes
  pub derive_for_path : Bytes → Bytes → Option Bytes
  pub generate_key : Bytes → Option Bytes
  pub new_entropy : ℕ → Option Bytes
  pub new_mnemonic : Bytes → Option Bytes
  pub public_key : Bytes → Bytes
  pub address : Bytes → Bytes
  pub address_string : Bytes → Bytes
  pub sum256 : Bytes → Bytes
  pub bech32_encode : Bytes → Bytes → Option Bytes

-- A file system at one path: the file, unless `Stat` says that there is none; whether `OpenFile` goes
-- well; and what a write that fails, or a failed `Close`, leaves of the bytes.
pub record Disk : Type 0 where
  pub file : Option Bytes
  pub opens : Bool
  pub fails : Option (Bytes → Bytes)

module _ (c : Crypto) where
  -- `validateMnemonic`: whether it has no error
  unfoldable pub validate_mnemonic : Bytes → Bool
  validate_mnemonic mnemonic =
      if mnemonic == join_space (fields mnemonic)
      then elim (c.entropy_from_mnemonic mnemonic) [ none ↦ false | some _ ↦ true ]
      else false

  -- `keygen`
  unfoldable pub keygen : Bytes → Bytes → Option Bytes
  keygen mnemonic path =
      if validate_mnemonic mnemonic
      then elim (c.derive_for_path path (c.new_seed mnemonic)) [
        | none ↦ none
        | some key ↦ c.generate_key key
      ]
      else none

  -- `cmdKeygen`, of the path of the derivation and the input: how it ends, and the file after it
  unfoldable pub cmd_keygen : Disk → Bytes → Option Bool → List Bytes → Outcome × Option Bytes
  cmd_keygen disk path mode input = elim disk.file [
    | some content ↦ (returned_error, some content)
    | none ↦ elim (read_input mode input) [
      | none ↦ (returned_error, none)
      | some mnemonic ↦ elim (keygen mnemonic path) [
        | none ↦ (returned_error, none)
        | some priv ↦
            if disk.opens
            then (elim disk.fails [
              | none ↦ (done, some priv)
              | some left ↦ (returned_error, some (left priv))
            ])
            else (returned_error, none)
      ]
    ]
  ]

  -- `toBech32`
  unfoldable pub to_bech32 : Bytes → Bytes → Option Bytes
  to_bech32 prefix pubkey =
      let hash = c.sum256 (codes "sigs/ed25519/" ++ pubkey) in c.bech32_encode prefix (take 20 hash)

  -- `cmdKeyaddr`, of the content of the key file and the prefix: the two lines that are printed
  unfoldable pub cmd_keyaddr : Option Bytes → Bytes → Option (Bytes × Bytes)
  cmd_keyaddr none prefix = none
  cmd_keyaddr (some raw) prefix =
      if eqb (length raw) 64
      then elim (to_bech32 prefix (c.public_key raw)) [
        | none ↦ none
        | some bech ↦ some (
          codes "bech32\t" ++ (bech ++ (10 ∷ [])),
          codes "hex\t" ++ (c.address_string (c.address (c.public_key raw)) ++ (10 ∷ [])),
        )
      ]
      else none

  -- `cmdMnemonic`: what is printed
  unfoldable pub cmd_mnemonic : ℕ → Option Bytes
  cmd_mnemonic bit_size = elim (c.new_entropy bit_size) [
    | none ↦ none
    | some entropy ↦ c.new_mnemonic entropy
  ]

-- `decodePrivateKey`, of the content of the file
unfoldable pub decode_private_key : Option Bytes → Option Bytes
decode_private_key none = none
decode_private_key (some content) = if eqb (length content) 64 then some content else none

-- The node, as far as a signature needs it: the chain id that `fetchGenesis` reads, and the account of
-- an address.
pub record Chain : Type 0 where
  pub fetch_genesis : Option Bytes
  pub get_user : Bytes → Result (Option UserResponse)

-- `cmdSignTransaction`, of the path and the content of the key file; `sign` is `sigs.SignTx` of weave
unfoldable pub cmd_sign_transaction :
    {P S O : Type 0}
    → Tools P S O
    → Crypto
    → Chain
    → (Bytes → Tx P S → Bytes → ℕ → Result S)
    → Bytes
    → Option Bytes
    → Option Bool
    → List Bytes
    → O
    → Outcome × O
cmd_sign_transaction t c node sign path file mode r w =
    if eqb (length path) 0 then (returned_error, w) else elim (decode_private_key file) [
      | none ↦ (returned_error, w)
      | some key ↦ elim (get_tx t mode r).0 [
        | none ↦ (returned_error, w)
        | some (tx, n) ↦ elim node.fetch_genesis [
          | none ↦ (returned_error, w)
          | some chain_id ↦ elim (next (node.get_user (c.address (c.public_key key))) new_nonce).0 [
            | err e ↦ (returned_error, w)
            | ok seq ↦ elim (sign key tx chain_id seq) [
              | err e ↦ (returned_error, w)
              | ok sig ↦
                  let signed = tx.signatures ++ (sig ∷ []) in
                  return_write (put_tx t (record tx { signatures = signed }) w)
            ]
          ]
        ]
      ]
    ]
