-- ===== src/App/Stack/Entries.antt =====
-- What the decorators of weave do on the way in, and that the chain runs them one after the other.
use grafain.Prelude.{◌≡◌, refl, sym, ap, ◌∙◌, Option, none, some, List, [], ◌∷◌, ◌++◌, arith}
use grafain.Weave.{ok, Authenticator, DeliverResult}
use grafain.Rbac.Context.{Context}
use grafain.App.Stack.{Deliver, Decorator, Middleware}

-- The way in through a decorator: the context and the store that it calls the handler behind it with,
-- or `none` where it refuses the transaction.
abbrev pub Enter : Type 0 → Type 0 → Type 0 → Type 0
Enter DB O T = Context O → T → DB → Option (Context O × DB)

-- the way in through several decorators, the outermost first
abbrev pub enter_all : {DB O T : Type 0} → List (Enter DB O T) → Enter DB O T
enter_all [] ctx tx db = some (ctx, db)
enter_all (E ∷ Es) ctx tx db = elim (E ctx tx db) [
  | none ↦ none
  | some (ctx', db') ↦ enter_all Es ctx' tx db'
]

-- The ways in through the decorators of weave: `sigs` verifies the signatures and notes the signers,
-- `multisig` loads the contracts and notes them, `dynamic_fee` charges the fee, and so on.
pub record Entries (DB O T P : Type 0) : Type 0 where
  pub logging : Enter DB O T
  pub recovery : Enter DB O T
  pub key_tagger : Enter DB O T
  pub savepoint_on_check : Enter DB O T
  pub sigs : Enter DB O T
  pub multisig : Authenticator (Context O) → Enter DB O T
  pub dynamic_fee : Authenticator (Context O) → Enter DB O T
  pub antispam_fee : P → Enter DB O T
  pub msg_fee : Enter DB O T
  pub batch : Enter DB O T
  pub action_tagger : Enter DB O T

module _ {DB O T P : Type 0} (e : Entries DB O T P) (auth : Authenticator (Context O)) where
  -- what stands in front of the decorators of pkg/rbac: the signers are known when roles are loaded
  abbrev pub before_roles : List (Enter DB O T)
  before_roles =
      e.logging ∷ e.recovery ∷ e.key_tagger ∷ e.savepoint_on_check ∷ e.sigs ∷ e.multisig auth ∷ []

  -- what stands behind them: nobody pays or runs a message who has not been let in
  abbrev pub behind_roles : P → List (Enter DB O T)
  behind_roles fee =
      e.dynamic_fee auth ∷ e.antispam_fee fee ∷ e.msg_fee ∷ e.batch ∷ e.action_tagger ∷ []

module _ {DB O T : Type 0} (tx : T) where
  -- A decorator that succeeds on the transaction has let it in, has called the handler behind it with
  -- the context and the store of its way in, which has succeeded, and has left the values of pkg/rbac
  -- in the context alone.
  abbrev pub Passing : Decorator DB O T → Enter DB O T → Type 0
  Passing D E =
      (next : Deliver DB O T) (ctx : Context O) (db : DB) (r : DeliverResult) (db'' : DB)
      → D next ctx tx db ≡ (ok r, db'')
      → (ctx' : Context O) × (db' : DB) × (r' : DeliverResult) × (db3 : DB) × (E ctx tx db
          ≡ some (ctx', db'))
        × (next ctx' tx db' ≡ (ok r', db3))
        × (ctx'.conditions ≡ ctx.conditions)
        × (ctx'.permissions ≡ ctx.permissions)

  -- decorators with their ways in
  abbrev pub AllPassing : List (Decorator DB O T) → List (Enter DB O T) → Type 0
  AllPassing [] [] = Unit
  AllPassing (D ∷ Ds) (E ∷ Es) = Passing D E × AllPassing Ds Es
  AllPassing [] (E ∷ Es) = ⊥
  AllPassing (D ∷ Ds) [] = ⊥

-- What weave documents: decorators are chained from the outside in, and each of these hands a
-- transaction on that it does not refuse. `batch` does so where the message is no batch.
pub record IsMiddleware {DB O T P : Type 0} (m : Middleware DB O T P) (e : Entries DB O T P)
    (tx : T) : Type 0 where
  pub with_handler-nil : (h : Deliver DB O T) → m.with_handler [] h ≡ h
  pub with_handler-cons :
      (D : Decorator DB O T) (Ds : List (Decorator DB O T)) (h : Deliver DB O T)
      → m.with_handler (D ∷ Ds) h ≡ D (m.with_handler Ds h)
  pub logging : Passing tx m.logging e.logging
  pub recovery : Passing tx m.recovery e.recovery
  pub key_tagger : Passing tx m.key_tagger e.key_tagger
  pub savepoint_on_check : Passing tx m.savepoint_on_check e.savepoint_on_check
  pub sigs_decorator : Passing tx m.sigs_decorator e.sigs
  pub multisig_decorator :
      (a : Authenticator (Context O)) → Passing tx (m.multisig_decorator a) (e.multisig a)
  pub dynamic_fee : (a : Authenticator (Context O)) → Passing tx (m.dynamic_fee a) (e.dynamic_fee a)
  pub antispam_fee : (fee : P) → Passing tx (m.antispam_fee fee) (e.antispam_fee fee)
  pub msg_fee : Passing tx m.msg_fee e.msg_fee
  pub batch : Passing tx m.batch e.batch
  pub action_tagger : Passing tx m.action_tagger e.action_tagger

module _ {DB O T P : Type 0} (m : Middleware DB O T P) (e : Entries DB O T P) (tx : T)
    (lawful : IsMiddleware m e tx) where
  pub run_by :
      {h h' : Deliver DB O T} → h' ≡ h → (ctx : Context O) (db : DB) → h ctx tx db ≡ h' ctx tx db
  run_by same ctx db = ap (λ (g : Deliver DB O T). g ctx tx db) (sym same)

  pub with_handler-Passing :
      (Ds : List (Decorator DB O T)) (Es : List (Enter DB O T))
      → AllPassing tx Ds Es
      → Passing tx (m.with_handler Ds) (enter_all Es)
  with_handler-Passing [] [] h next ctx db r db'' ran =
      (ctx, db, r, db'', refl, run_by (lawful.with_handler-nil next) ctx db ∙ ran, refl, refl)
  with_handler-Passing (D ∷ Ds) (E ∷ Es) (h, hs) next ctx db r db'' ran =
      let (ctx', db', r', db3, entered, called, conds, perms) =
        h (m.with_handler Ds next) ctx db r db''
          (run_by (lawful.with_handler-cons D Ds next) ctx db ∙ ran) in
      let (ctx2, db2, r2, db4, entered', called', conds', perms') =
        with_handler-Passing Ds Es hs next ctx' db' r' db3 called in
      (
        ctx2,
        db2,
        r2,
        db4,
        ground (arith, entered, entered'),
        called',
        conds' ∙ conds,
        perms' ∙ perms,
      )
  with_handler-Passing [] (E ∷ Es) h next ctx db r db'' ran = absurd h
  with_handler-Passing (D ∷ Ds) [] h next ctx db r db'' ran = absurd h

  pub with_handler-append :
      (Ds Es : List (Decorator DB O T)) (h : Deliver DB O T)
      → m.with_handler (Ds ++ Es) h ≡ m.with_handler Ds (m.with_handler Es h)
  with_handler-append [] Es h = sym (lawful.with_handler-nil _)
  with_handler-append (D ∷ Ds) Es h =
      lawful.with_handler-cons D (Ds ++ Es) h
      ∙ ap D (with_handler-append Ds Es h)
      ∙ sym (lawful.with_handler-cons D Ds (m.with_handler Es h))
