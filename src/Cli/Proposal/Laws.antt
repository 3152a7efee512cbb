-- ===== src/Cli/Proposal/Laws.antt =====
-- What a proposal holds that as-proposal has made.
use mathlib.Core.List.{map}
use grafain.Prelude.{
  ◌≡◌, ◌≢◌, refl, ap, subst, ◌∙◌, ◌⊎◌, inl, inr, none, some, List, [], ◌∷◌, Bytes, arith,
}
use grafain.Weave.{Weave, ok, Result-cases}
use grafain.App.Sums.{
  Msg, ExecuteBatchMsg, ExecuteProposalBatchMsg, ProposalBatchSum, ProposalOption,
  proposal_batch_msg, option_msg, execute_batch_msg, execute_proposal_batch_msg,
  option_execute_proposal_batch_msg, cash_send_msg, currency_create_msg, distribution_create_msg,
  distribution_msg, distribution_reset_msg, escrow_release_msg, escrow_update_parties_msg,
  gov_create_text_resolution_msg, gov_update_election_rule_msg, gov_update_electorate_msg,
  migration_upgrade_schema_msg, multisig_update_msg, option_cash_send_msg,
  option_currency_create_msg, option_distribution_create_msg, option_distribution_msg,
  option_distribution_reset_msg, option_escrow_release_msg, option_gov_create_text_resolution_msg,
  option_gov_update_election_rule_msg, option_gov_update_electorate_msg,
  option_migration_upgrade_schema_msg, option_multisig_update_msg, option_update_escrow_parties_msg,
  option_validators_apply_diff_msg, union_distribution_create_msg, union_distribution_msg,
  union_distribution_reset_msg, union_escrow_release_msg, union_gov_create_text_resolution_msg,
  union_gov_update_election_rule_msg, union_gov_update_electorate_msg, union_multisig_update_msg,
  union_send_msg, union_update_escrow_parties_msg, union_validators_apply_diff_msg,
  validators_apply_diff_msg,
}
use grafain.App.Extract.{Extract, IsExtract}
use grafain.App.Tx.{msg_list, proposal_msg_list, decode_proposal_options}
use grafain.App.Tx.Laws.{proposal_msg_list-map}
use grafain.Cli.Proposal.{Codec, proposal_sum, proposal_sums, proposal_option, to_option}

module _ {P : Type 0} where
  -- Of the messages of a batch those that `ExecuteProposalBatchMsg` has a case for, in their order.
  pub data VotableOf : List (Msg P) → List (Msg P) → Type 0 where
    no_more : VotableOf [] []
    keep :
        (s : ProposalBatchSum P) {ms vs : List (Msg P)}
        → VotableOf ms vs
        → VotableOf (proposal_batch_msg s ∷ ms) (proposal_batch_msg s ∷ vs)
    drop :
        {m : Msg P} {ms vs : List (Msg P)}
        → ((s : ProposalBatchSum P) → proposal_batch_msg s ≢ m)
        → VotableOf ms vs
        → VotableOf (m ∷ ms) vs

  -- The switch finds each case of the proposal's batch by its message.
  proposal_sum-proposal_batch_msg :
      (s : ProposalBatchSum P) → proposal_sum (proposal_batch_msg s) ≡ some s
  unfolding proposal_sum proposal_batch_msg
  proposal_sum-proposal_batch_msg (union_send_msg m) = refl
  proposal_sum-proposal_batch_msg (union_escrow_release_msg m) = refl
  proposal_sum-proposal_batch_msg (union_update_escrow_parties_msg m) = refl
  proposal_sum-proposal_batch_msg (union_multisig_update_msg m) = refl
  proposal_sum-proposal_batch_msg (union_validators_apply_diff_msg m) = refl
  proposal_sum-proposal_batch_msg (union_distribution_create_msg m) = refl
  proposal_sum-proposal_batch_msg (union_distribution_msg m) = refl
  proposal_sum-proposal_batch_msg (union_distribution_reset_msg m) = refl
  proposal_sum-proposal_batch_msg (union_gov_update_electorate_msg m) = refl
  proposal_sum-proposal_batch_msg (union_gov_update_election_rule_msg m) = refl
  proposal_sum-proposal_batch_msg (union_gov_create_text_resolution_msg m) = refl

  proposal_sum-cases :
      (msg : Msg P)
      → ((s : ProposalBatchSum P) × (proposal_batch_msg s ≡ msg) × (proposal_sum msg ≡ some s))
        ⊎ (proposal_sum msg ≡ none)
  unfolding proposal_sum proposal_batch_msg
  proposal_sum-cases (cash_send_msg m) = inl (union_send_msg m, refl, refl)
  proposal_sum-cases (escrow_release_msg m) = inl (union_escrow_release_msg m, refl, refl)
  proposal_sum-cases (escrow_update_parties_msg m) =
      inl (union_update_escrow_parties_msg m, refl, refl)
  proposal_sum-cases (multisig_update_msg m) = inl (union_multisig_update_msg m, refl, refl)
  proposal_sum-cases (validators_apply_diff_msg m) =
      inl (union_validators_apply_diff_msg m, refl, refl)
  proposal_sum-cases (distribution_create_msg m) = inl (union_distribution_create_msg m, refl, refl)
  proposal_sum-cases (distribution_msg m) = inl (union_distribution_msg m, refl, refl)
  proposal_sum-cases (distribution_reset_msg m) = inl (union_distribution_reset_msg m, refl, refl)
  proposal_sum-cases (gov_update_electorate_msg m) =
      inl (union_gov_update_electorate_msg m, refl, refl)
  proposal_sum-cases (gov_update_election_rule_msg m) =
      inl (union_gov_update_election_rule_msg m, refl, refl)
  proposal_sum-cases (gov_create_text_resolution_msg m) =
      inl (union_gov_create_text_resolution_msg m, refl, refl)
  proposal_sum-cases _ = inr refl

  proposal_sums-VotableOf :
      (msgs : List (Msg P))
      → (ss : List (ProposalBatchSum P)) × (proposal_sums msgs ≡ map some ss)
        × VotableOf msgs (map proposal_batch_msg ss)
  unfolding proposal_sums
  proposal_sums-VotableOf [] = ([], refl, no_more)
  proposal_sums-VotableOf (m ∷ ms) =
      let (ss, sums, votable) = proposal_sums-VotableOf ms in
      elim (proposal_sum-cases m) [
        | inl (s, from, found) ↦ (
          s ∷ ss,
          ground (arith, sums, found),
          subst
              (λ (m' : Msg P).
                VotableOf (m' ∷ ms) (proposal_batch_msg s ∷ map proposal_batch_msg ss))
              from (keep s votable),
        )
        | inr dropped ↦ (
          ss,
          ground (arith, sums, dropped),
          drop
              (λ s same.
                absurd (
                  ground (arith, dropped, ap proposal_sum same, proposal_sum-proposal_batch_msg s)))
              votable,
        )
      ]

module _ {P : Type 0} (X : Extract P) where
  -- What the outer switch makes of a message: an option with the message itself, or of a batch the
  -- proposal's batch of its messages.
  proposal_option-cases :
      (msg : Msg P)
      → ((o : ProposalOption P) × (option_msg o ≡ msg) × (proposal_option X msg ≡ some o))
        ⊎ (((b : ExecuteBatchMsg P) × (msg ≡ execute_batch_msg b)) ⊎ (proposal_option X msg ≡ none))
  unfolding proposal_option option_msg
  proposal_option-cases (cash_send_msg m) = inl (option_cash_send_msg m, refl, refl)
  proposal_option-cases (escrow_release_msg m) = inl (option_escrow_release_msg m, refl, refl)
  proposal_option-cases (multisig_update_msg m) = inl (option_multisig_update_msg m, refl, refl)
  proposal_option-cases (validators_apply_diff_msg m) =
      inl (option_validators_apply_diff_msg m, refl, refl)
  proposal_option-cases (currency_create_msg m) = inl (option_currency_create_msg m, refl, refl)
  proposal_option-cases (distribution_create_msg m) =
      inl (option_distribution_create_msg m, refl, refl)
  proposal_option-cases (distribution_msg m) = inl (option_distribution_msg m, refl, refl)
  proposal_option-cases (distribution_reset_msg m) =
      inl (option_distribution_reset_msg m, refl, refl)
  proposal_option-cases (migration_upgrade_schema_msg m) =
      inl (option_migration_upgrade_schema_msg m, refl, refl)
  proposal_option-cases (gov_update_electorate_msg m) =
      inl (option_gov_update_electorate_msg m, refl, refl)
  proposal_option-cases (gov_update_election_rule_msg m) =
      inl (option_gov_update_election_rule_msg m, refl, refl)
  proposal_option-cases (gov_create_text_resolution_msg m) =
      inl (option_gov_create_text_resolution_msg m, refl, refl)
  proposal_option-cases (escrow_update_parties_msg m) =
      inl (option_update_escrow_parties_msg m, refl, refl)
  proposal_option-cases (execute_batch_msg b) = inr (inl (b, refl))
  proposal_option-cases _ = inr (inr refl)

module _ ⦃W : Weave⦄ {P : Type 0} (X : Extract P) (lawful : IsExtract X) (codec : Codec P)
    (back : (o : ProposalOption P) (raw : Bytes)
      → codec.marshal_option o ≡ some raw
      → codec.unmarshal_option raw ≡ ok (some o)) where
  decode_option :
      (o : ProposalOption P) {raw : Bytes}
      → codec.marshal_option o ≡ some raw
      → decode_proposal_options X codec.unmarshal_option raw ≡ ok (option_msg o)
  unfolding decode_proposal_options
  decode_option o {raw} h = ground (arith, back o raw h, lawful.option_sum-some o)

  decode_batch :
      (b : ExecuteBatchMsg P) {raw : Bytes}
      → to_option X codec (execute_batch_msg b) ≡ some raw
      → (msgs : List (Msg P)) × (pb : ExecuteProposalBatchMsg P) × (msg_list X b ≡ ok msgs)
        × (decode_proposal_options X codec.unmarshal_option raw
            ≡ ok (execute_proposal_batch_msg pb))
        × ((votes : List (Msg P)) × (proposal_msg_list X pb ≡ ok votes) × VotableOf msgs votes)
  unfolding to_option proposal_option option_msg
  decode_batch b h = elim (Result-cases (msg_list X b)) [
    | inr (e, bad) ↦ absurd (ground (arith, bad))
    | inl (msgs, listed) ↦
        let (ss, sums, votable) = proposal_sums-VotableOf msgs in
        let pb : ExecuteProposalBatchMsg P = record { messages = proposal_sums msgs } in
        let list = proposal_msg_list-map X lawful ss in
        (
          msgs,
          pb,
          listed,
          decode_option (option_execute_proposal_batch_msg pb) (ground (arith, listed)),
          (_, ap (λ ms. proposal_msg_list X (record { messages = ms })) sums ∙ list, votable),
        )
  ]

  -- The option that as-proposal puts into a proposal is decoded as the message that it was made of,
  -- or, of a batch, as a proposal's batch of those of its messages, in their order, that a proposal's
  -- batch has a case for.
  pub decode_proposal_options-to_option :
      (msg : Msg P) {raw : Bytes}
      → to_option X codec msg ≡ some raw
      → (decode_proposal_options X codec.unmarshal_option raw ≡ ok msg)
        ⊎ ((b : ExecuteBatchMsg P) × (msgs : List (Msg P)) × (pb : ExecuteProposalBatchMsg P) × (msg
              ≡ execute_batch_msg b)
            × (msg_list X b ≡ ok msgs)
            × (decode_proposal_options X codec.unmarshal_option raw
                ≡ ok (execute_proposal_batch_msg pb))
            × ((votes : List (Msg P)) × (proposal_msg_list X pb ≡ ok votes) × VotableOf msgs votes))
  unfolding to_option
  decode_proposal_options-to_option msg {raw} h = elim (proposal_option-cases X msg) [
    | inl (o, same, found) ↦ inl (decode_option o (ground (arith, found)) ∙ ap ok same)
    | inr (inr refused) ↦ absurd (ground (arith, refused))
    | inr (inl (b, same)) ↦
        let (msgs, pb, listed, decoded, list) =
          decode_batch b (subst (λ m. to_option X codec m ≡ some raw) same h) in
        inr (b, msgs, pb, same, listed, decoded, list)
  ]
