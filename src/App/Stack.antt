-- ===== src/App/Stack.antt =====
-- pkg/app/app.go: the decorators in front of the router, in their order. The authenticators and the
-- decorators of weave, the chaining of decorators and the router are parameters. Delivery only: a
-- `Check` passes the same decorators.
pub mod Entries
pub mod Laws
pub mod Delete
use grafain.Prelude.{ℕ, Option, none, some, List, [], ◌∷◌, ◌++◌, Bytes, codes}
use grafain.Weave.{Weave, Error, panic, Result, ok, err, Exec, Authenticator, DeliverResult}
use grafain.Rbac.Context.{Context, get_conditions, has_address}
use grafain.Rbac.Decorator.{AuthN, AuthZ, new_auth_z, auth_n_deliver, auth_z_handle}

-- `weave.Deliverer`, and `weave.Decorator` with it
abbrev pub Deliver : Type 0 → Type 0 → Type 0 → Type 0
Deliver DB O T = Context O → T → Exec DB DeliverResult

abbrev pub Decorator : Type 0 → Type 0 → Type 0 → Type 0
Decorator DB O T = Deliver DB O T → Deliver DB O T

-- Of weave: `x.ChainAuth`, `app.ChainDecorators(...).WithHandler`, and what `Chain` puts into it.
pub record Middleware (DB O T P : Type 0) : Type 0 where
  pub chain_auth : List (Authenticator (Context O)) → Authenticator (Context O)
  pub sigs_authenticate : Authenticator (Context O)
  pub multisig_authenticate : Authenticator (Context O)
  pub with_handler : List (Decorator DB O T) → Deliver DB O T → Deliver DB O T
  pub logging : Decorator DB O T
  pub recovery : Decorator DB O T
  pub key_tagger : Decorator DB O T
  pub savepoint_on_check : Decorator DB O T
  pub sigs_decorator : Decorator DB O T
  pub multisig_decorator : Authenticator (Context O) → Decorator DB O T
  pub dynamic_fee : Authenticator (Context O) → Decorator DB O T
  pub antispam_fee : P → Decorator DB O T
  pub msg_fee : Decorator DB O T
  pub batch : Decorator DB O T
  pub action_tagger : Decorator DB O T

-- `GlobalPermissionPrefix`
abbrev pub global_permission_prefix : Bytes
global_permission_prefix = codes "_grafain"

-- `rbac.Authenticate{}`
unfoldable pub rbac_authenticate : ⦃W : Weave⦄ {O : Type 0} → Authenticator (Context O)
rbac_authenticate = record { get_conditions = get_conditions; has_address = has_address }

module _ ⦃W : Weave⦄ {DB O T P : Type 0} (m : Middleware DB O T P) where
  -- `Authenticator`
  unfoldable pub authenticator : Authenticator (Context O)
  authenticator =
      m.chain_auth (m.sigs_authenticate ∷ m.multisig_authenticate ∷ rbac_authenticate ∷ [])

  -- The decorators of pkg/rbac. Out of fuel counts as a panic; enough fuel is proved in
  -- `Rbac.Decorator.Guard`.
  unfoldable pub auth_n : AuthN DB O → ℕ → Decorator DB O T
  auth_n d fuel next ctx tx db = elim (auth_n_deliver d fuel next ctx tx db) [
    | none ↦ (err panic, db)
    | some res ↦ res
  ]

  unfoldable pub auth_z : (T → Result Bytes) → Decorator DB O T
  auth_z get_msg_path next ctx tx db =
      auth_z_handle (new_auth_z global_permission_prefix) get_msg_path next ctx tx db

  module _ (d : AuthN DB O) (fuel : ℕ) (get_msg_path : T → Result Bytes) where
    -- `Chain`
    unfoldable pub chain : Authenticator (Context O) → P → List (Decorator DB O T)
    chain auth_fn min_fee =
        m.logging
        ∷ m.recovery
        ∷ m.key_tagger
        ∷ m.savepoint_on_check
        ∷ m.sigs_decorator
        ∷ m.multisig_decorator auth_fn
        ∷ auth_n d fuel
        ∷ auth_z get_msg_path
        ∷ m.dynamic_fee auth_fn
        ∷ m.antispam_fee min_fee
        ∷ m.msg_fee
        ∷ m.batch
        ∷ m.action_tagger
        ∷ []

    -- `Stack`, over the router with its routes registered
    unfoldable pub stack :
        (Authenticator (Context O) → Bytes → Deliver DB O T) → Bytes → P → Deliver DB O T
    stack router issuer min_fee =
        let auth_fn = authenticator in
        m.with_handler (chain auth_fn min_fee) (router auth_fn issuer)
