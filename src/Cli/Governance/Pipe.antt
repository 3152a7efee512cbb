-- ===== src/Cli/Governance/Pipe.antt =====
-- The command update-electorate, and with-elector behind it in a pipe.
use grafain.Prelude.{ℕ, ◌≡◌, ap, ◌∙◌, eqb, false, List, [], map, Bytes, length, arith, Option}
use grafain.App.Messages.{Elector, UpdateElectorateMsg}
use grafain.App.Sums.{tx_gov_update_electorate_msg, tx_msg}
use grafain.App.Extract.{Extract, IsExtract}
use grafain.App.Tx.{Tx, new_tx, get_msg}
use grafain.Cli.Fraction.{uint32}
use grafain.Cli.Commands.{return_write, ignore_write, schema_one}
use grafain.Cli.Commands.Pipe.{
  Command, tools, written, get_tx-written, pipe, AllCarried, pipe-written,
}
use grafain.Cli.Governance.{add_elector, cmd_update_electorate, cmd_with_elector}

-- arguments of with-elector: an address, which is not empty, and a uint weight
pub record AddressWeight : Type 0 where
  pub address : Bytes
  pub weight : ℕ
  pub non_empty : eqb (length address) 0 ≡ false

abbrev pub elector : AddressWeight → Elector
elector a = record { address = a.address; weight = uint32 a.weight }

abbrev pub electorate_tx : {P S : Type 0} → Bytes → List Elector → Tx P S
electorate_tx id es = new_tx (
    tx_gov_update_electorate_msg
      (record { metadata = schema_one; electorate_id = id; diff_electors = es }))

module _ {P S : Type 0} (X : Extract P) (marshal : Tx P S → Option Bytes)
    (unmarshal : Bytes → Option (Tx P S)) where
  abbrev pub with_elector : Command AddressWeight
  with_elector a = cmd_with_elector (tools X marshal unmarshal) a.address a.weight

  -- update-electorate with an id, and then with-elector any number of times in a pipe, writes one
  -- message for this electorate with the electors in the order of the commands, their weights in
  -- 32 bits.
  pub pipe-electors :
      IsExtract X
      → (id : Bytes) → eqb (length id) 0 ≡ false
      → (args : List AddressWeight)
      → AllCarried X marshal unmarshal elector (electorate_tx id) [] args
      → pipe with_elector args (cmd_update_electorate (tools X marshal unmarshal) id []).1
        ≡ written X marshal unmarshal (electorate_tx id (map elector args))
  unfolding cmd_update_electorate cmd_with_elector add_elector get_msg tx_msg return_write
      ignore_write
  pipe-electors lawful id named args all =
      let first : (cmd_update_electorate (tools X marshal unmarshal) id []).1
          ≡ written X marshal unmarshal (electorate_tx id []) =
        ground (arith, named) in
      ap (λ (buffer : Bytes). pipe with_elector args buffer) first
      ∙ pipe-written X marshal unmarshal elector (electorate_tx id) with_elector
          (λ a es carried.
            let (size, sent) = get_tx-written X marshal unmarshal (electorate_tx id es) carried in
            let msg : UpdateElectorateMsg = record {
              metadata = schema_one;
              electorate_id = id;
              diff_electors = es;
            } in
            let found = lawful.tx_sum-some (tx_gov_update_electorate_msg msg) in
            ground (arith, a.non_empty, sent, found))
          args [] all
