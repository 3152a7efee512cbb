-- ===== src/Cli/Main.antt =====
-- cmd/grafaincli/main.go and env.go: which command runs.
use mathlib.Core.List.{Permᴰ}
use grafain.Prelude.{
  ℕ, ◌≡◌, Option, none, some, List, [], ◌∷◌, Bytes, codes, ◌==◌, map, map_perm, if◌then◌else◌,
}
use grafain.Rbac.Context.{sort_conditions}
use grafain.Rbac.Context.Order.{sort_conditions_perm}
use grafain.Cli.Commands.{Outcome, done, returned_error, died}

-- `env`, of the value of the variable if it is set
unfoldable pub env : Option Bytes → Bytes → Bytes
env (some v) fallback = v
env none fallback = fallback

-- The names of the functions of the commands.
pub data Command : Type 0 where
  as_batch as_proposal as_sequence create_artifact del_artifact del_proposal : Command
  from_sequence keyaddr keygen mnemonic multisig query release_escrow reset_revenue : Command
  send_tokens set_validators sign submit text_resolution update_election_rule : Command
  update_electorate version view vote with_elector with_fee with_multisig : Command
  with_multisig_participant : Command

-- `commands`
unfoldable pub commands : List (Bytes × Command)
commands =
    (codes "as-batch", as_batch)
    ∷ (codes "as-proposal", as_proposal)
    ∷ (codes "as-sequence", as_sequence)
    ∷ (codes "create-artifact", create_artifact)
    ∷ (codes "del-artifact", del_artifact)
    ∷ (codes "del-proposal", del_proposal)
    ∷ (codes "from-sequence", from_sequence)
    ∷ (codes "keyaddr", keyaddr)
    ∷ (codes "keygen", keygen)
    ∷ (codes "mnemonic", mnemonic)
    ∷ (codes "multisig", multisig)
    ∷ (codes "query", query)
    ∷ (codes "release-escrow", release_escrow)
    ∷ (codes "reset-revenue", reset_revenue)
    ∷ (codes "send-tokens", send_tokens)
    ∷ (codes "set-validators", set_validators)
    ∷ (codes "sign", sign)
    ∷ (codes "submit", submit)
    ∷ (codes "text-resolution", text_resolution)
    ∷ (codes "update-election-rule", update_election_rule)
    ∷ (codes "update-electorate", update_electorate)
    ∷ (codes "version", version)
    ∷ (codes "view", view)
    ∷ (codes "vote", vote)
    ∷ (codes "with-elector", with_elector)
    ∷ (codes "with-fee", with_fee)
    ∷ (codes "with-multisig", with_multisig)
    ∷ (codes "with-multisig-participant", with_multisig_participant)
    ∷ []

-- `commands[name]`
unfoldable pub command : Bytes → List (Bytes × Command) → Option Command
command name [] = none
command name ((key, run) ∷ rest) =
    let found = command name rest in if key == name then some run else found

-- `main`, of the arguments behind the program's name: the status that the process ends with. `run` says
-- how a command with its arguments ends.
unfoldable pub main : (Command → List Bytes → Outcome) → List Bytes → ℕ
main run [] = 2
main run (name ∷ args) = elim (command name commands) [
  | none ↦ 2
  | some cmd ↦ elim (run cmd args) [ done ↦ 0 | returned_error ↦ 1 | died ↦ 2 ]
]

-- `availableCmds`, where the loop visits the map in the order of the list; `sort.Strings` is the order
-- of the bytes
unfoldable pub available_cmds : List (Bytes × Command) → List Bytes
available_cmds cmds = sort_conditions (map (λ entry. entry.0) cmds)

-- availableCmds lists the same names in the same order, in whatever order the loop visits the map.
pub available_cmds_perm :
    {cmds cmds' : List (Bytes × Command)}
    → Permᴰ cmds cmds'
    → available_cmds cmds ≡ available_cmds cmds'
unfolding available_cmds
available_cmds_perm same = sort_conditions_perm (map_perm (λ entry. entry.0) same)
