-- ===== src/Rbac/Decorator/Guard.antt =====
-- The two decorators in a row, as pkg/app/app.go stacks them: who gets to the handler behind them.
use grafain.Prelude.{
  ℕ, ◌<◌, ◌≡◌, refl, ap, ◌⊎◌, inl, inr, true, false, some, List, [], ◌∷◌, Bytes, arith, Memᴰ,
  Bool-cases, Option-cases, length,
}
use grafain.Weave.{Weave, Error, err_unauthorized, Result, ok, err, Exec, Result-cases, registered}
use grafain.Weave.Laws.{IsWeave}
use grafain.Rbac.Permission.{Permission, allows}
use grafain.Rbac.Model.{Role}
use grafain.Rbac.Context.{Context, Roles, has_permission, or_empty}
use grafain.Rbac.Roles.Ends.{load_roles-returns}
use grafain.Rbac.Bindings.{find_role_ids_by_address}
use grafain.Rbac.Decorator.{
  AuthN, load_ids, load_conditions, auth_roles, with_roles, new_auth_z, auth_n_deliver,
  auth_z_handle, resolve_permission, add64, role_participant_gas_cost,
}
use grafain.Rbac.Decorator.Granted.{Entitled, auth_roles-exact}

module _ ⦃W : Weave⦄ (lawful : IsWeave W) where
  unauthorized :
      (e : Error) × (W.wrap (some (registered err_unauthorized)) "insufficient permissions"
        ≡ some e)
      × (W.is err_unauthorized (some e) ≡ true)
  unauthorized =
      elim (Option-cases (W.wrap (some (registered err_unauthorized)) "insufficient permissions")) [
        | inl nil ↦ absurd (lawful.wrap-some _ _ nil)
        | inr (e, wrapped) ↦
            (e, wrapped, rw (← wrapped, lawful.is-wrap) (lawful.is-registered err_unauthorized))
      ]

module _ ⦃W : Weave⦄ {DB O : Type 0} (d : AuthN DB O) (db : DB) where
  module _ (stored : List Bytes) (fuel : ℕ) (enough : length stored < fuel)
      (known : (id : Bytes) (r : Role) → d.role_bucket.one id db ≡ ok r → Memᴰ id stored) where
    load_ids-returns :
        (ids : List Bytes) (s : Roles × ℕ)
        → (r : Result (Roles × ℕ)) × (load_ids d db fuel ids s ≡ some r)
    unfolding load_ids
    load_ids-returns [] s = (ok s, refl)
    load_ids-returns (id ∷ ids) (ps, c) =
        let (r, e) = load_roles-returns d.role_bucket db stored known fuel id ps enough in
        elim (Result-cases r) [
          | inl (ps', good) ↦
              let (r', e') = load_ids-returns ids (ps', add64 c role_participant_gas_cost) in
              (r', ground arith)
          | inr (x, bad) ↦ (err x, ground arith)
        ]

    load_conditions-returns :
        (cs : List Bytes) (s : Roles × ℕ)
        → (r : Result (Roles × ℕ)) × (load_conditions d db fuel cs s ≡ some r)
    unfolding load_conditions
    load_conditions-returns [] s = (ok s, refl)
    load_conditions-returns (c ∷ cs) s =
        elim (Result-cases (find_role_ids_by_address d.role_bin_bucket db (W.address c))) [
          | inr (x, bad) ↦ (err x, ground arith)
          | inl (ids, found) ↦
              let (r, e) = load_ids-returns ids s in
              elim (Result-cases r) [
                | inl (s', good) ↦
                    let (r', e') = load_conditions-returns cs s' in (r', ground arith)
                | inr (x, bad) ↦ (err x, ground arith)
              ]
        ]

    -- `authRoles` ends, also where roles include one another in a circle: fuel for one more call
    -- than there are stored roles is enough.
    pub auth_roles-returns :
        (ctx : Context O) → (r : Result (Context O × ℕ)) × (auth_roles d ctx db fuel ≡ some r)
    unfolding auth_roles
    auth_roles-returns ctx =
        let (r, e) = load_conditions-returns (d.auth_n.get_conditions ctx) ([], 0) in
        elim (Result-cases r) [
          | inl (s, good) ↦ (ok (with_roles ctx s.0, s.1), ground arith)
          | inr (x, bad) ↦ (err x, ground arith)
        ]

  -- What lets a request through: a permission that it had before, or that one of its signers'
  -- roles gives it, is the one that is asked for, or a wildcard for it.
  abbrev pub Authorized : Context O → Permission → Type 0
  Authorized ctx p =
      (k : Permission) × (Memᴰ k (or_empty ctx.permissions)
        ⊎ Entitled d db (d.auth_n.get_conditions ctx) k)
      × ((k ≡ p) ⊎ (allows k p ≡ true))

  module _ (lawful : IsWeave W) {T R : Type 0} (get_msg_path : T → Result Bytes)
      (prefix : Bytes) where
    -- `AuthZDecorator`: with the permission of its message a request goes on, without it nothing
    -- is written and the error is ErrUnauthorized.
    pub auth_z_handle-cases :
        (next : Context O → T → Exec DB R) (ctx : Context O) (tx : T) {path : Bytes}
        → get_msg_path tx ≡ ok path
        → let p = resolve_permission prefix path in
          let run = auth_z_handle (new_auth_z prefix) get_msg_path next ctx tx db in
          (has_permission ctx p ≡ true → run ≡ next ctx tx db)
          × (has_permission ctx p ≡ false
              → (e : Error) × (W.is err_unauthorized (some e) ≡ true) × (run ≡ (err e, db)))
    unfolding auth_z_handle new_auth_z
    auth_z_handle-cases next ctx tx {path} msg = (
      λ h. rw (msg, auth_z_handle, h),
      λ h.
          let (e, wrapped, is) = unauthorized lawful in
          (e, is, rw (msg, auth_z_handle, h, wrapped)),
    )

    -- Behind both decorators: the handler runs exactly for the requests whose signers are
    -- entitled to the message; any other is refused as unauthorized and writes nothing.
    pub deliver_guarded :
        (next : Context O → T → Exec DB R) (ctx ctx' : Context O) (tx : T) (fuel cost : ℕ)
        {path : Bytes}
        → auth_roles d ctx db fuel ≡ some (ok (ctx', cost))
        → get_msg_path tx ≡ ok path
        → let p = resolve_permission prefix path in
          let run =
            auth_n_deliver d fuel (auth_z_handle (new_auth_z prefix) get_msg_path next) ctx tx db in
          (Authorized ctx p → run ≡ some (next ctx' tx db))
          × (¬ Authorized ctx p
              → (e : Error) × (W.is err_unauthorized (some e) ≡ true) × (run ≡ some (err e, db)))
    unfolding auth_n_deliver
    deliver_guarded next ctx ctx' tx fuel cost {path} loaded msg =
        let p = resolve_permission prefix path in
        let exact = auth_roles-exact d db ctx ctx' fuel cost loaded p in
        let cases = auth_z_handle-cases next ctx' tx msg in
        (
          λ a. rw (loaded, auth_n_deliver) (ap some (cases.0 (exact.1 a))),
          λ n. elim (Bool-cases (has_permission ctx' p)) [
            | inl h ↦ absurd (n (exact.0 h))
            | inr h ↦
                let (e, is, run) = cases.1 h in (e, is, rw (loaded, auth_n_deliver) (ap some run))
          ],
        )
