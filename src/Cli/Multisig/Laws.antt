-- ===== src/Cli/Multisig/Laws.antt =====
-- What the multisig commands do to a transaction, and when they end without an error.
use mathlib.Core.List.{append_assoc, append-nil}
use grafain.Prelude.{
  ℕ, ◌≡◌, refl, sym, ap, ◌↔◌, ◌⊎◌, inl, inr, Bool, Option, none, some, List, [], ◌∷◌, ◌++◌, Bytes,
  arith, Option-cases,
}
use grafain.Weave.{ok, Result-cases}
use grafain.App.Messages.{Participant, MultisigCreateMsg, MultisigUpdateMsg}
use grafain.App.Sums.{Msg, multisig_create_msg, multisig_update_msg, TxSum}
use grafain.App.Tx.{Tx, get_msg}
use grafain.Cli.Sequence.{unpack_sequence}
use grafain.Cli.Commands.{done, Tools, get_tx, ignore_write}
use grafain.Cli.Multisig.{add_participant, attach_contracts, cmd_with_multisig_participant}

-- the sequences of all arguments, if all can be read
abbrev pub unpack_all : List Bytes → Option (List Bytes)
unpack_all [] = some []
unpack_all (s ∷ args) = elim (unpack_sequence s) [
  | none ↦ none
  | some seq ↦ elim (unpack_all args) [ none ↦ none | some seqs ↦ some (seq ∷ seqs) ]
]

-- The command with-multisig attaches the contracts of its arguments behind those that the
-- transaction has, in their order, and fails if one argument is no sequence.
pub attach_contracts-unpack_all :
    (multisig args : List Bytes)
    → attach_contracts multisig args
      ≡ elim (unpack_all args) [ none ↦ none | some seqs ↦ some (multisig ++ seqs) ]
unfolding attach_contracts
attach_contracts-unpack_all multisig [] = ap some (sym (append-nil multisig))
attach_contracts-unpack_all multisig (s ∷ args) = elim (Option-cases (unpack_sequence s)) [
  | inl bad ↦ ground (arith, bad)
  | inr (seq, good) ↦ elim (Option-cases (unpack_all args)) [
    | inl no_more ↦ ground (arith, good, attach_contracts-unpack_all (multisig ++ (seq ∷ [])) args)
    | inr (seqs, all) ↦ ground (
      arith,
      good,
      attach_contracts-unpack_all (multisig ++ (seq ∷ [])) args,
      append_assoc multisig (seq ∷ []) seqs,
    )
  ]
]

-- The messages that create or update a multisig contract.
pub data ForMultisig {P : Type 0} : Msg P → Type 0 where
  creates : (m : MultisigCreateMsg) → ForMultisig (multisig_create_msg m)
  updates : (m : MultisigUpdateMsg) → ForMultisig (multisig_update_msg m)

add_participant-cases :
    {P : Type 0} (p : Participant) (msg : Msg P)
    → ((s : TxSum P) × (add_participant p msg ≡ some s) × ForMultisig msg)
      ⊎ (add_participant p msg ≡ none)
unfolding add_participant
add_participant-cases p (multisig_create_msg m) = inl (_, refl, creates m)
add_participant-cases p (multisig_update_msg m) = inl (_, refl, updates m)
add_participant-cases p _ = inr refl

add_participant-ForMultisig :
    {P : Type 0} (p : Participant) {msg : Msg P}
    → ForMultisig msg
    → (s : TxSum P) × (add_participant p msg ≡ some s)
unfolding add_participant
add_participant-ForMultisig p (creates m) = (_, refl)
add_participant-ForMultisig p (updates m) = (_, refl)

module _ {P S O : Type 0} (t : Tools P S O) (weight : ℕ → ℕ) (sig : Bytes) (n : ℕ)
    (mode : Option Bool) (r : List Bytes) (w : O) where
  -- The command with-multisig-participant returns nil exactly if it reads a transaction whose
  -- message creates or updates a multisig contract: whether the changed transaction could be written
  -- makes no difference.
  pub cmd_with_multisig_participant-done_iff :
      ((cmd_with_multisig_participant t weight sig n mode r w).0 ≡ done) ↔ (
        (tx : Tx P S) × (size : ℕ) × (msg : Msg P) × ((get_tx t mode r).0 ≡ some (tx, size))
        × (get_msg t.extract tx ≡ ok msg)
        × ForMultisig msg)
  unfolding cmd_with_multisig_participant ignore_write
  cmd_with_multisig_participant-done_iff = (
    λ h. elim (Option-cases (get_tx t mode r).0) [
      | inl nothing ↦ absurd (ground (arith, nothing))
      | inr ((tx, size), got) ↦ elim (Result-cases (get_msg t.extract tx)) [
        | inr (e, bad) ↦ absurd (ground (arith, got, bad))
        | inl (msg, good) ↦
            elim (add_participant-cases (record { signature = sig; weight = weight n }) msg) [
              | inl (s, added, kind) ↦ (tx, size, msg, got, good, kind)
              | inr refused ↦ absurd (ground (arith, got, good, refused))
            ]
      ]
    ],
    λ (tx, size, msg, got, good, kind).
        let (s, added) =
          add_participant-ForMultisig (record { signature = sig; weight = weight n }) kind in
        ground (arith, got, good, added),
  )
