-- ===== src/App/Stack/Delete.antt =====
-- A transaction that deletes an artifact, on its way through the stack to the handler of pkg/artifact.
use mathlib.Core.List.Memᴰ
use grafain.Prelude.{
  ℕ, ◌≡◌, sym, ap, ◌∙◌, ◌⊎◌, inl, inr, true, none, List, Bytes, Memᴰ, Memᴰ-nil, subst,
}
use grafain.Weave.{Weave, Error, Result, ok, err, Authenticator, DeliverResult}
use grafain.Weave.Laws.{IsModelBucket}
use grafain.Rbac.Context.{Context, has_address}
use grafain.Rbac.Decorator.{AuthN}
use grafain.Artifact.Model.{Artifact, DeleteArtifactMsg, artifact_validate}
use grafain.Artifact.Handler.{Handler, delete_deliver}
use grafain.Artifact.Handler.Laws.{delete_deliver-ok}
use grafain.App.Stack.{Deliver, Middleware, authenticator, rbac_authenticate, stack}
use grafain.App.Stack.Entries.{Entries, IsMiddleware}
use grafain.App.Stack.Laws.{StackAdmitted, stack-Admitted}

-- `x.ChainAuth` finds an address that one of its authenticators finds.
abbrev pub IsChain : {C : Type 0} → (List (Authenticator C) → Authenticator C) → Type 0
IsChain {C = C} chain_auth =
    (auths : List (Authenticator C)) (ctx : C) (a : Bytes)
    → (chain_auth auths).has_address ctx a ≡ true
    → (auth : Authenticator C) × Memᴰ auth auths × (auth.has_address ctx a ≡ true)

module _ ⦃W : Weave⦄ {DB O T P : Type 0} (m : Middleware DB O T P) where
  -- The owner of an artifact is known to the context: by a signature, a multisig contract, or as a
  -- condition of a role.
  abbrev pub OwnerKnown : Context O → Bytes → Type 0
  OwnerKnown ctx owner =
      (m.sigs_authenticate.has_address ctx owner ≡ true)
      ⊎ ((m.multisig_authenticate.has_address ctx owner ≡ true) ⊎ (has_address ctx owner ≡ true))

  authenticator-OwnerKnown :
      IsChain m.chain_auth
      → (ctx : Context O) (owner : Bytes) → (authenticator m).has_address ctx owner ≡ true
      → OwnerKnown ctx owner
  unfolding authenticator rbac_authenticate
  authenticator-OwnerKnown chained ctx owner h =
      let (auth, there, known) = chained _ ctx owner h in
      elim (Memᴰ.cases_cons there) [
        | inl same ↦
            inl (ap (λ (a : Authenticator (Context O)). a.has_address ctx owner) (sym same) ∙ known)
        | inr rest ↦ elim (Memᴰ.cases_cons rest) [
          | inl same ↦ inr (
              inl (
                ap (λ (a : Authenticator (Context O)). a.has_address ctx owner) (sym same) ∙ known))
          | inr rest' ↦ elim (Memᴰ.cases_cons rest') [
            | inl same ↦ inr (
                inr (
                  ap (λ (a : Authenticator (Context O)). a.has_address ctx owner) (sym same)
                  ∙ known))
            | inr over ↦ absurd (Memᴰ-nil _ over)
          ]
        ]
      ]

  module _ (d : AuthN DB O) (fuel : ℕ) (get_msg_path : T → Result Bytes)
      (h : Handler (Context O) T DB) {upgrade : Artifact → Artifact}
      (bucket : IsModelBucket W artifact_validate upgrade h.b) (e : Entries DB O T P)
      (router : Authenticator (Context O) → Bytes → Deliver DB O T) (issuer : Bytes) (min_fee : P)
      (tx : T) where
    -- A deletion that the stack delivers without an error, from a context without permissions, has
    -- been let in by the decorators that verify its signatures, one of the signers that they have noted
    -- has a role that gives the permission, and with the context and the store that have reached the
    -- router, the owner of the stored artifact is one of those who have signed, a multisig contract or
    -- a condition of the loaded roles, and the artifact is gone in the store that the router leaves.
    pub stack-delete :
        IsMiddleware m e tx
        → IsChain m.chain_auth
        → h.auth ≡ authenticator m
        → ((ctx : Context O) (db : DB)
            → router (authenticator m) issuer ctx tx db ≡ delete_deliver h ctx tx db)
        → (ctx : Context O) (db : DB) {r : DeliverResult} {db'' : DB} → ctx.permissions ≡ none
        → stack m d fuel get_msg_path router issuer min_fee ctx tx db ≡ (ok r, db'')
        → (s : StackAdmitted m d fuel get_msg_path e router issuer min_fee tx ctx db)
          × (msg : DeleteArtifactMsg) × (a : Artifact) × (h.load_delete tx ≡ ok msg)
          × (h.b.one msg.image s.routed_store ≡ ok a)
          × OwnerKnown s.routed a.owner
          × ((x : Error) × (h.b.one msg.image s.left ≡ err x))
    stack-delete lawful chained same_auth routed ctx db fresh run =
        let s =
          stack-Admitted m d fuel get_msg_path e router issuer min_fee tx lawful ctx db fresh run in
        let whole = sym (routed s.routed s.routed_store) ∙ s.delivered in
        let ran = ap (λ (x : Result DeliverResult × DB). x.0) whole in
        let (msg, a, loaded, found, signed, (x, gone), _) =
          delete_deliver-ok h s.routed tx s.routed_store bucket ran in
        let known =
          subst (λ (auth : Authenticator (Context O)). auth.has_address s.routed a.owner ≡ true)
            same_auth signed in
        let after = ap (λ (y : Result DeliverResult × DB). h.b.one msg.image y.1) whole in
        (
          s,
          msg,
          a,
          loaded,
          found,
          authenticator-OwnerKnown chained s.routed a.owner known,
          (x, sym after ∙ gone),
        )
