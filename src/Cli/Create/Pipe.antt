-- ===== src/Cli/Create/Pipe.antt =====
-- The command set-validators in a pipe, the first without an input.
use grafain.Prelude.{
  ℕ, ◌≡◌, ap, ◌∙◌, eqb, false, Option, none, some, List, [], ◌∷◌, map, Bytes, length, codes, arith,
}
use grafain.Prelude.Hex.{base64_decode}
use grafain.App.Messages.{ValidatorUpdate, ApplyDiffMsg}
use grafain.App.Sums.{tx_validators_apply_diff_msg, tx_msg}
use grafain.App.Extract.{Extract, IsExtract}
use grafain.App.Tx.{Tx, new_tx, get_msg}
use grafain.Cli.Stream.{read_tx, read_header, read, at_eof, header_eof}
use grafain.Cli.Commands.{return_write, schema_one, get_tx}
use grafain.Cli.Commands.Pipe.{
  Command, tools, written, get_tx-written, pipe, AllCarried, pipe-written,
}
use grafain.Cli.Create.{cmd_set_validators, read_validators}

-- arguments of set-validators: the base64 form of a key, which is not empty, and a power
pub record KeyPower : Type 0 where
  pub pub_key : Bytes
  pub power : ℕ
  pub key : Bytes
  pub decoded : base64_decode pub_key ≡ some key
  pub non_empty : eqb (length key) 0 ≡ false

abbrev pub update : KeyPower → ValidatorUpdate
update a = record { key_type = codes "ed25519"; key_bytes = a.key; power = a.power }

abbrev pub updates_tx : {P S : Type 0} → List ValidatorUpdate → Tx P S
updates_tx us =
    new_tx (tx_validators_apply_diff_msg (record { metadata = schema_one; validator_updates = us }))

module _ {P S : Type 0} (X : Extract P) (marshal : Tx P S → Option Bytes)
    (unmarshal : Bytes → Option (Tx P S)) where
  abbrev pub set_validators : Command KeyPower
  set_validators a = cmd_set_validators (tools X marshal unmarshal) a.pub_key a.power

  first_written :
      (a : KeyPower)
      → (set_validators a none [] []).1 ≡ written X marshal unmarshal (updates_tx (update a ∷ []))
  unfolding cmd_set_validators read_validators get_tx read_tx read_header read at_eof header_eof
      return_write
  first_written a = ground (arith, a.decoded, a.non_empty)

  -- set-validators without an input, and then any number of times in a pipe, writes one message with
  -- the updates of the validators in the order of the commands.
  pub pipe-updates :
      IsExtract X
      → (a : KeyPower) (args : List KeyPower)
      → AllCarried X marshal unmarshal update updates_tx (update a ∷ []) args
      → pipe set_validators args (set_validators a none [] []).1
        ≡ written X marshal unmarshal (updates_tx (map update (a ∷ args)))
  unfolding cmd_set_validators read_validators get_msg tx_msg return_write
  pipe-updates lawful a args all =
      ap (λ (buffer : Bytes). pipe set_validators args buffer) (first_written a)
      ∙ pipe-written X marshal unmarshal update updates_tx set_validators
          (λ b us carried.
            let (size, sent) = get_tx-written X marshal unmarshal (updates_tx us) carried in
            let msg : ApplyDiffMsg = record { metadata = schema_one; validator_updates = us } in
            let found = lawful.tx_sum-some (tx_validators_apply_diff_msg msg) in
            ground (arith, b.decoded, b.non_empty, sent, found))
          args (update a ∷ []) all
