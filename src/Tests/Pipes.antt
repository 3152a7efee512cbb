-- ===== src/Tests/Pipes.antt =====
-- Commands of cmd/grafaincli that read what others have written.
use grafain.Prelude.{
  ℕ, ◌≡◌, refl, none, some, Option, List, [], ◌∷◌, Bytes, codes, arith, length, map, eqb,
  if◌then◌else◌,
}
use grafain.Prelude.Hex.{base64_decode, base64_groups, base64_value, skip_newlines}
use grafain.App.Sums.{
  TxSum, tx_multisig_create_msg, tx_validators_apply_diff_msg, tx_gov_update_electorate_msg,
}
use grafain.App.Tx.{new_tx}
use grafain.Cli.Commands.Pipe.{tools, written, pipe}
use grafain.Cli.Create.Pipe.{KeyPower, update, set_validators, updates_tx, pipe-updates}
use grafain.Cli.Governance.{cmd_update_electorate}
use grafain.Cli.Governance.Pipe.{AddressWeight, elector, with_elector, electorate_tx, pipe-electors}
use grafain.Cli.Multisig.Pipe.{participant, with_contract, add, pipe-participants}
use grafain.Tests.Messages.{SampleTx, sample_extract, sample_extract-IsExtract, contract}

-- A message is encoded as its kind and the length of its list.
abbrev encode_sum : Option (TxSum ℕ) → Option Bytes
encode_sum (some (tx_multisig_create_msg m)) = some (1 ∷ length m.participants ∷ [])
encode_sum (some (tx_validators_apply_diff_msg m)) = some (2 ∷ length m.validator_updates ∷ [])
encode_sum (some (tx_gov_update_electorate_msg m)) = some (3 ∷ length m.diff_electors ∷ [])
encode_sum _ = none

abbrev encode : SampleTx → Option Bytes
encode tx = encode_sum tx.sum

root_key : base64_decode (codes "AQID") ≡ some (1 ∷ 2 ∷ 3 ∷ [])
unfolding base64_decode base64_groups base64_value skip_newlines
root_key = refl

abbrev root : KeyPower
root = record {
  pub_key = codes "AQID";
  power = 7;
  key = 1 ∷ 2 ∷ 3 ∷ [];
  decoded = root_key;
  non_empty = refl;
}

abbrev backup : KeyPower
backup = record root { power = 5 }

abbrev voter : AddressWeight
voter = record { address = codes "alice"; weight = 4294967297; non_empty = refl }

abbrev contract_with : SampleTx
contract_with = new_tx (tx_multisig_create_msg contract)

abbrev by_alice : SampleTx
by_alice =
    with_contract contract_with contract (record { signature = codes "alice"; weight = 1 } ∷ [])

abbrev decode : Bytes → Option SampleTx
decode (kind ∷ n ∷ []) =
    if eqb kind 1
    then some (if eqb n 0 then contract_with else by_alice)
    else if eqb kind 2
    then some (updates_tx (update root ∷ []))
    else some (electorate_tx (codes "board") [])
decode _ = none

abbrev pair : List (Bytes × ℕ)
pair = (codes "alice", 1) ∷ (codes "bob", 2) ∷ []

pipe-participants_example :
    pipe
      (add sample_extract encode decode (λ n. n))
      pair
      (written sample_extract encode decode (with_contract contract_with contract []))
    ≡ written sample_extract encode decode
        (with_contract contract_with contract (map (participant (λ n. n)) pair))
pipe-participants_example =
    pipe-participants sample_extract encode decode (λ n. n) sample_extract-IsExtract contract_with
      contract pair
      (
        record { bytes = 1 ∷ 0 ∷ []; marshalled = refl; unmarshalled = refl; small = omega arith },
        (
          record {
            bytes = 1 ∷ 1 ∷ [];
            marshalled = refl;
            unmarshalled = refl;
            small = omega arith;
          },
          tt,
        ),
      )

pipe-updates_example :
    pipe
      (set_validators sample_extract encode decode)
      (backup ∷ [])
      (set_validators sample_extract encode decode root none [] []).1
    ≡ written sample_extract encode decode (updates_tx (map update (root ∷ backup ∷ [])))
pipe-updates_example =
    pipe-updates sample_extract encode decode sample_extract-IsExtract root (backup ∷ []) (
      record { bytes = 2 ∷ 1 ∷ []; marshalled = refl; unmarshalled = refl; small = omega arith },
      tt,
    )

pipe-electors_example :
    pipe
      (with_elector sample_extract encode decode)
      (voter ∷ [])
      (cmd_update_electorate (tools sample_extract encode decode) (codes "board") []).1
    ≡ written sample_extract encode decode
        (electorate_tx (codes "board") (map elector (voter ∷ [])))
pipe-electors_example =
    pipe-electors sample_extract encode decode sample_extract-IsExtract (codes "board") refl
      (voter ∷ [])
      (
        record { bytes = 3 ∷ 0 ∷ []; marshalled = refl; unmarshalled = refl; small = omega arith },
        tt,
      )
