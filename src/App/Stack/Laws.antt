-- ===== src/App/Stack/Laws.antt =====
-- Who gets through the stack.
use grafain.Prelude.{
  ℕ, ◌≡◌, ap, ◌∙◌, ◌⊎◌, inl, inr, true, Option, none, some, List, [], ◌∷◌, Bytes, arith, Memᴰ,
  Memᴰ-nil, Option-cases, Bool-cases, subst,
}
use grafain.Weave.{
  Weave, Result, ok, Authenticator, DeliverResult, Result-cases, failed-ok, registered,
  err_unauthorized,
}
use grafain.Rbac.Permission.{Permission, allows}
use grafain.Rbac.Context.{Context, has_permission, or_empty}
use grafain.Rbac.Decorator.{
  AuthN, auth_roles, auth_n_deliver, auth_z_handle, new_auth_z, resolve_permission,
}
use grafain.Rbac.Decorator.Granted.{Entitled, auth_roles-exact}
use grafain.Rbac.Decorator.Guard.{Authorized}
use grafain.App.Stack.Entries.{
  Enter, enter_all, Entries, before_roles, behind_roles, IsMiddleware, run_by, with_handler-Passing,
  with_handler-append,
}
use grafain.App.Stack.{
  Deliver, Decorator, Middleware, global_permission_prefix, authenticator, auth_n, auth_z, chain,
  stack,
}

-- What the stack has checked where it succeeds on a transaction from a context and a store: the outer
-- decorators, which verify the signatures, have let it in; one of the signers that they have noted is
-- entitled to the message; AuthN has loaded the signers' roles into the context that the inner
-- decorators have got, and the router has run with what these have handed on.
pub record Admitted ⦃W : Weave⦄ {DB O T : Type 0} (d : AuthN DB O) (fuel : ℕ)
    (get_msg_path : T → Result Bytes) (outer inner : List (Enter DB O T)) (run : Deliver DB O T)
    (tx : T) (ctx : Context O) (db : DB) : Type 0 where
  pub signed : Context O
  pub store : DB
  pub entered : enter_all outer ctx tx db ≡ some (signed, store)
  pub path : Bytes
  pub permission : Permission
  pub has_path : get_msg_path tx ≡ ok path
  pub entitled : Entitled d store (d.auth_n.get_conditions signed) permission
  pub suffices :
      let p = resolve_permission global_permission_prefix path in
      (permission ≡ p) ⊎ (allows permission p ≡ true)
  pub with_roles : Context O
  pub cost : ℕ
  pub loaded : auth_roles d signed store fuel ≡ some (ok (with_roles, cost))
  pub routed : Context O
  pub routed_store : DB
  pub passed : enter_all inner with_roles tx store ≡ some (routed, routed_store)
  pub result : DeliverResult
  pub left : DB
  pub delivered : run routed tx routed_store ≡ (ok result, left)

module _ ⦃W : Weave⦄ {DB O T P : Type 0} (m : Middleware DB O T P) (d : AuthN DB O) (fuel : ℕ)
    (get_msg_path : T → Result Bytes) where
  -- the two decorators of pkg/rbac in a row
  guard-ok :
      (next : Deliver DB O T) (ctx : Context O) (tx : T) (db : DB) {r : DeliverResult} {db'' : DB}
      → auth_n m d fuel (auth_z m get_msg_path next) ctx tx db ≡ (ok r, db'')
      → (ctx' : Context O) × (cost : ℕ) × (path : Bytes) × (auth_roles d ctx db fuel
          ≡ some (ok (ctx', cost)))
        × (get_msg_path tx ≡ ok path)
        × Authorized d db ctx (resolve_permission global_permission_prefix path)
        × (next ctx' tx db ≡ (ok r, db''))
  unfolding auth_n auth_z auth_n_deliver auth_z_handle new_auth_z
  guard-ok next ctx tx db {r} {db''} e = elim (Option-cases (auth_roles d ctx db fuel)) [
    | inl no_fuel ↦ absurd (ground (arith, ap (λ (x : Result DeliverResult × DB). x.0) e, no_fuel))
    | inr (res, ran) ↦ elim (Result-cases res) [
      | inr (x, bad) ↦
          absurd (ground (arith, ap (λ (x : Result DeliverResult × DB). x.0) e, ran, bad))
      | inl ((ctx', cost), good) ↦ elim (Result-cases (get_msg_path tx)) [
        | inr (x, no_path) ↦
            absurd
              (ground (arith, ran, good, no_path, ap (λ (x : Result DeliverResult × DB). x.0) e))
        | inl (path, found) ↦
            let p = resolve_permission global_permission_prefix path in
            elim (Bool-cases (has_permission ctx' p)) [
              | inl granted ↦ (
                ctx',
                cost,
                path,
                ran ∙ ap some good,
                found,
                (auth_roles-exact d db ctx ctx' fuel cost (ran ∙ ap some good) p).0 granted,
                ground (arith, e, ran, good, found, granted),
              )
              | inr refused ↦ absurd (
                  failed-ok (W.wrap (some (registered err_unauthorized)) "insufficient permissions")
                    {a = r}
                    (ground (
                      arith,
                      ap (λ (x : Result DeliverResult × DB). x.0) e,
                      ran,
                      good,
                      found,
                      refused,
                    )))
            ]
      ]
    ]
  ]

  no_more :
      {ctx : Context O} {k : Permission} (db : DB)
      → ctx.permissions ≡ none
      → Memᴰ k (or_empty ctx.permissions) ⊎ Entitled d db (d.auth_n.get_conditions ctx) k
      → Entitled d db (d.auth_n.get_conditions ctx) k
  unfolding or_empty
  no_more {ctx = ctx} {k = k} db none_yet (inr e) = e
  no_more {ctx = ctx} {k = k} db none_yet (inl there) =
      absurd
        (Memᴰ-nil k (subst (λ (o : Option (List Permission)). Memᴰ k (or_empty o)) none_yet there))

  module _ (e : Entries DB O T P) (router : Authenticator (Context O) → Bytes → Deliver DB O T)
      (issuer : Bytes) (min_fee : P) (tx : T) where
    -- what the stack has checked on the transaction from a context and a store
    abbrev pub StackAdmitted : Context O → DB → Type 0
    StackAdmitted =
        Admitted d fuel get_msg_path (before_roles e (authenticator m))
          (behind_roles e (authenticator m) min_fee) (router (authenticator m) issuer) tx

    -- The decorators behind the decorators of pkg/rbac, and the router.
    inner_run :
        IsMiddleware m e tx
        → (ctx : Context O) (db : DB) {r : DeliverResult} {db'' : DB}
        → m.with_handler
            (m.dynamic_fee (authenticator m)
              ∷ m.antispam_fee min_fee
              ∷ m.msg_fee
              ∷ m.batch
              ∷ m.action_tagger
              ∷ [])
            (router (authenticator m) issuer)
            ctx
            tx
            db
          ≡ (ok r, db'')
        → (ctx' : Context O) × (db' : DB) × (r' : DeliverResult) × (db3 : DB) × (enter_all
              (behind_roles e (authenticator m) min_fee)
              ctx
              tx
              db
            ≡ some (ctx', db'))
          × (router (authenticator m) issuer ctx' tx db' ≡ (ok r', db3))
    inner_run lawful ctx db {r} {db''} ran =
        let auth = authenticator m in
        let (ctx', db', r', db3, passed, delivered, _, _) =
          with_handler-Passing m e tx lawful
            (m.dynamic_fee auth
              ∷ m.antispam_fee min_fee
              ∷ m.msg_fee
              ∷ m.batch
              ∷ m.action_tagger
              ∷ [])
            (behind_roles e auth min_fee)
            (
              lawful.dynamic_fee auth,
              (
                lawful.antispam_fee min_fee,
                (lawful.msg_fee, (lawful.batch, (lawful.action_tagger, tt))),
              ),
            )
            (router auth issuer) ctx db r db'' ran in
        (ctx', db', r', db3, passed, delivered)

    pub stack-Admitted :
        IsMiddleware m e tx
        → (ctx : Context O) (db : DB) {r : DeliverResult} {db'' : DB} → ctx.permissions ≡ none
        → stack m d fuel get_msg_path router issuer min_fee ctx tx db ≡ (ok r, db'')
        → StackAdmitted ctx db
    unfolding stack chain
    stack-Admitted lawful ctx db {r} {db''} fresh ran =
        let auth = authenticator m in
        let route = router auth issuer in
        let inner : List (Decorator DB O T) =
          m.dynamic_fee auth
          ∷ m.antispam_fee min_fee
          ∷ m.msg_fee
          ∷ m.batch
          ∷ m.action_tagger
          ∷ [] in
        let outer : List (Decorator DB O T) =
          m.logging
          ∷ m.recovery
          ∷ m.key_tagger
          ∷ m.savepoint_on_check
          ∷ m.sigs_decorator
          ∷ m.multisig_decorator auth
          ∷ [] in
        let rest = auth_n m d fuel ∷ auth_z m get_msg_path ∷ inner in
        let (ctx1, db1, r1, db2, entered, called, _, perms) =
          with_handler-Passing m e tx lawful outer (before_roles e auth)
            (
              lawful.logging,
              (
                lawful.recovery,
                (
                  lawful.key_tagger,
                  (
                    lawful.savepoint_on_check,
                    (lawful.sigs_decorator, (lawful.multisig_decorator auth, tt)),
                  ),
                ),
              ),
            )
            (m.with_handler rest route) ctx db r db''
            (run_by m e tx lawful (with_handler-append m e tx lawful outer rest route) ctx db
              ∙ ran) in
        let unfolded =
          lawful.with_handler-cons (auth_n m d fuel) (auth_z m get_msg_path ∷ inner) route
          ∙ ap (auth_n m d fuel) (lawful.with_handler-cons (auth_z m get_msg_path) inner route) in
        let (ctx2, cost, path, loaded, found, (k, grant, enough), reached) =
          guard-ok (m.with_handler inner route) ctx1 tx db1
            (run_by m e tx lawful unfolded ctx1 db1 ∙ called) in
        let (ctx3, db3, r3, db4, passed, delivered) = inner_run lawful ctx2 db1 reached in
        record {
          signed = ctx1;
          store = db1;
          entered = entered;
          path = path;
          permission = k;
          has_path = found;
          entitled = no_more db1 (perms ∙ fresh) grant;
          suffices = enough;
          with_roles = ctx2;
          cost = cost;
          loaded = loaded;
          routed = ctx3;
          routed_store = db3;
          passed = passed;
          result = r3;
          left = db4;
          delivered = delivered;
        }
