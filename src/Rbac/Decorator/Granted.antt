-- ===== src/Rbac/Decorator/Granted.antt =====
-- `authRoles` gives a request the permissions of its signers' roles, and no others.
use mathlib.Core.List.Memᴰ
use grafain.Prelude.{
  ℕ, ◌≡◌, refl, sym, ◌∙◌, ap, subst, ◌↔◌, ◌⊎◌, inl, inr, true, some, List, [], ◌∷◌, Bytes, arith,
  Memᴰ, Memᴰ-nil, Option-cases,
}
use grafain.Weave.{Weave, ok, ok-injective}
use grafain.Rbac.Permission.{Permission, allows}
use grafain.Rbac.Model.{Role}
use grafain.Rbac.Context.{Context, Roles, has_permission, or_empty}
use grafain.Rbac.Context.Laws.{has_permission_iff, has_permission-with_rbac, Passes, Grants}
use grafain.Rbac.Roles.{has_role, load_roles}
use grafain.Rbac.Roles.Reach.{
  Includes, Reaches, here, step, Grows, Grows-refl, Grows-trans, Grows-closed, Grows-IsLoaded,
  has_role_mono, has_role_iff, load_roles-Grows,
}
use grafain.Rbac.Bindings.{find_role_ids_by_address}
use grafain.Rbac.Decorator.{
  AuthN, add64, role_participant_gas_cost, load_ids, load_conditions, auth_roles, with_roles,
}

no_grant : {k : Permission} → Grants [] k → ⊥
no_grant (id, r, m, _) = Memᴰ-nil (id, r) m

module _ ⦃W : Weave⦄ {O : Type 0} where
  held_iff :
      (ctx : Context O) (val : List Permission)
      → or_empty ctx.permissions ≡ val
      → (k : Permission) → (Memᴰ k (or_empty ctx.permissions) ⊎ Grants [] k) ↔ Memᴰ k val
  held_iff ctx val e k = (
    λ d. elim d [ inl m ↦ subst (Memᴰ k) e m | inr g ↦ absurd (no_grant g) ],
    λ m. inl (subst (Memᴰ k) (sym e) m),
  )

  -- With no roles the context is left as it is.
  has_permission-no_roles :
      (ctx : Context O) (p : Permission) → (has_permission ctx p ≡ true) ↔ Passes ctx [] p
  has_permission-no_roles ctx p = elim (Option-cases ctx.permissions) [
    | inl missing ↦
        let empty : or_empty ctx.permissions ≡ [] = unfold or_empty in ground arith in
        (
          λ h. absurd (unfold has_permission in ground arith),
          λ (k, from, _). absurd (Memᴰ-nil k ((held_iff ctx [] empty k).0 from)),
        )
    | inr (val, held) ↦
        let full : or_empty ctx.permissions ≡ val = unfold or_empty in ground arith in
        let pass = has_permission_iff ctx p held in
        (
          λ h. let (k, m, fits) = pass.0 h in (k, (held_iff ctx val full k).1 m, fits),
          λ (k, from, fits). pass.1 (k, (held_iff ctx val full k).0 from, fits),
        )
  ]

  has_permission-with_roles :
      (ctx : Context O) (roles : Roles) (p : Permission)
      → (has_permission (with_roles ctx roles) p ≡ true) ↔ Passes ctx roles p
  has_permission-with_roles ctx [] p = unfold with_roles in has_permission-no_roles ctx p
  has_permission-with_roles ctx (r ∷ roles) p =
      unfold with_roles in has_permission-with_rbac ctx (r ∷ roles) p

module _ ⦃W : Weave⦄ {DB O : Type 0} (d : AuthN DB O) (db : DB) where
  -- One of the conditions has a binding to a role that includes `id`.
  pub record IsBound (conditions : List Bytes) (id : Bytes) : Type 0 where
    pub condition : Bytes
    pub signed : Memᴰ condition conditions
    pub ids : List Bytes
    pub found : find_role_ids_by_address d.role_bin_bucket db (W.address condition) ≡ ok ids
    pub root : Bytes
    pub bound : Memᴰ root ids
    pub reached : Reaches d.role_bucket db root id

  follows :
      (cs : List Bytes) (j k : Bytes) → IsBound cs j → Includes d.role_bucket db j k → IsBound cs k
  follows cs j k b i = record {
    condition = b.condition;
    signed = b.signed;
    ids = b.ids;
    found = b.found;
    root = b.root;
    bound = b.bound;
    reached = step b.reached i;
  }

  load_ids-cons :
      (fuel : ℕ) (id : Bytes) (ids : List Bytes) (ps : Roles) (c : ℕ) {s : Roles × ℕ}
      → load_ids d db fuel (id ∷ ids) (ps, c) ≡ some (ok s)
      → (ps' : Roles) × (load_roles d.role_bucket db fuel id ps ≡ some (ok ps'))
        × (load_ids d db fuel ids (ps', add64 c role_participant_gas_cost) ≡ some (ok s))
  unfolding load_ids
  load_ids-cons fuel id ids ps c h = ground arith

  module _ {From : Bytes → Type 0}
      (closed : (j k : Bytes) → From j → Includes d.role_bucket db j k → From k) where
    load_ids-Grows :
        (fuel : ℕ) (ids : List Bytes) (ps : Roles) (c : ℕ) (s : Roles × ℕ)
        → ((k : Bytes) → Memᴰ k ids → From k)
        → load_ids d db fuel ids (ps, c) ≡ some (ok s)
        → Grows d.role_bucket db From ps s.0 × ((k : Bytes) → Memᴰ k ids → has_role s.0 k ≡ true)
    load_ids-Grows fuel [] ps c s from h =
        let same : ps ≡ s.0 = unfold load_ids in ground arith in
        (
          subst (Grows d.role_bucket db From ps) same (Grows-refl d.role_bucket db ps),
          λ k m. absurd (Memᴰ-nil k m),
        )
    load_ids-Grows fuel (id ∷ ids) ps c s from h =
        let (ps', first, rest) = load_ids-cons fuel id ids ps c h in
        let (g, there) =
          load_roles-Grows d.role_bucket db closed fuel id ps ps' (from id (Memᴰ.head refl))
            first in
        let (g', all) =
          load_ids-Grows fuel ids ps' (add64 c role_participant_gas_cost) s
            (λ k m. from k (Memᴰ.tail m)) rest in
        (
          Grows-trans d.role_bucket db g g',
          λ k m. elim (Memᴰ.cases_cons m) [
            | inl e ↦ has_role_mono d.role_bucket db k g'.keeps (rw e there)
            | inr m' ↦ all k m'
          ],
        )

  load_conditions-cons :
      (fuel : ℕ) (c : Bytes) (cs : List Bytes) (s t : Roles × ℕ)
      → load_conditions d db fuel (c ∷ cs) s ≡ some (ok t)
      → (ids : List Bytes) × (find_role_ids_by_address d.role_bin_bucket db (W.address c) ≡ ok ids)
        × (s' : Roles × ℕ) × (load_ids d db fuel ids s ≡ some (ok s'))
        × (load_conditions d db fuel cs s' ≡ some (ok t))
  unfolding load_conditions
  load_conditions-cons fuel c cs s t h = ground arith

  -- all that the conditions reach has been loaded
  abbrev AllLoaded : List Bytes → Roles → Type 0
  AllLoaded cs qs =
      (c : Bytes) (ids : List Bytes) (k : Bytes)
      → Memᴰ c cs
      → find_role_ids_by_address d.role_bin_bucket db (W.address c) ≡ ok ids
      → Memᴰ k ids
      → has_role qs k ≡ true

  load_conditions-Grows :
      {all : List Bytes} (fuel : ℕ) (cs : List Bytes) (s t : Roles × ℕ)
      → ((c : Bytes) → Memᴰ c cs → Memᴰ c all)
      → load_conditions d db fuel cs s ≡ some (ok t)
      → Grows d.role_bucket db (IsBound all) s.0 t.0 × AllLoaded cs t.0
  load_conditions-Grows {all} fuel [] s t part h =
      let same : s ≡ t = unfold load_conditions in ground arith in
      (
        subst (λ (x : Roles × ℕ). Grows d.role_bucket db (IsBound all) s.0 x.0) same
            (Grows-refl d.role_bucket db s.0),
        λ c ids k m. absurd (Memᴰ-nil c m),
      )
  load_conditions-Grows {all} fuel (c ∷ cs) s t part h =
      let (ids, found, s', first, rest) = load_conditions-cons fuel c cs s t h in
      let (g, here') =
        load_ids-Grows (follows all) fuel ids s.0 s.1 s'
          (λ k m. record {
            condition = c;
            signed = part c (Memᴰ.head refl);
            ids = ids;
            found = found;
            root = k;
            bound = m;
            reached = here;
          })
          first in
      let (g', later) =
        load_conditions-Grows {all = all} fuel cs s' t (λ x m. part x (Memᴰ.tail m)) rest in
      (
        Grows-trans d.role_bucket db g g',
        λ x ids' k m f i. elim (Memᴰ.cases_cons m) [
          | inl e ↦
              let same : ids' ≡ ids = ok-injective (
                sym f
                ∙ ap (λ (y : Bytes). find_role_ids_by_address d.role_bin_bucket db (W.address y)) e
                ∙ found) in
              has_role_mono d.role_bucket db k g'.keeps (here' k (subst (Memᴰ k) same i))
          | inr m' ↦ later x ids' k m' f i
        ],
      )

  auth_roles-inv :
      (ctx ctx' : Context O) (fuel cost : ℕ)
      → auth_roles d ctx db fuel ≡ some (ok (ctx', cost))
      → (t : Roles × ℕ) × (load_conditions d db fuel (d.auth_n.get_conditions ctx) ([], 0)
          ≡ some (ok t))
        × (ctx' ≡ with_roles ctx t.0)
  unfolding auth_roles
  auth_roles-inv ctx ctx' fuel cost h = ground arith

  -- A permission of a stored role that one of the conditions is bound to, directly or through
  -- included roles.
  abbrev pub Entitled : List Bytes → Permission → Type 0
  Entitled cs k =
      (id : Bytes) × (r : Role) × IsBound cs id
      × (d.role_bucket.one id db ≡ ok r)
      × Memᴰ k r.permissions

  Entitled-iff :
      {cs : List Bytes} {qs : Roles} (k : Permission)
      → Grows d.role_bucket db (IsBound cs) [] qs
      → AllLoaded cs qs
      → Grants qs k ↔ Entitled cs k
  Entitled-iff k g all = (
    λ (id, r, m, h).
        let l = Grows-IsLoaded d.role_bucket db g id r m in (id, r, l.from, l.stored, h),
    λ (id, r, b, stored, h).
        let there =
          Grows-closed d.role_bucket db g b.root
            (all b.condition b.ids b.root b.signed b.found b.bound) b.reached in
        let (q, m) = (has_role_iff _ id).0 there in
        let same = ok-injective (sym stored ∙ (Grows-IsLoaded d.role_bucket db g id q m).stored) in
        (id, q, m, subst (λ (x : Role). Memᴰ k x.permissions) same h),
  )

  -- The request gets exactly the permissions of the roles that its signers are bound to, besides
  -- those it had: a permission passes if one of these is it or a wildcard for it.
  pub auth_roles-exact :
      (ctx ctx' : Context O) (fuel cost : ℕ)
      → auth_roles d ctx db fuel ≡ some (ok (ctx', cost))
      → (p : Permission)
      → (has_permission ctx' p ≡ true) ↔ (
          (k : Permission) × (Memᴰ k (or_empty ctx.permissions)
            ⊎ Entitled (d.auth_n.get_conditions ctx) k)
          × ((k ≡ p) ⊎ (allows k p ≡ true)))
  auth_roles-exact ctx ctx' fuel cost h p =
      let (t, loaded, e) = auth_roles-inv ctx ctx' fuel cost h in
      let (g, all) =
        load_conditions-Grows fuel (d.auth_n.get_conditions ctx) ([], 0) t (λ c m. m) loaded in
      let pass = has_permission-with_roles ctx t.0 p in
      rw e (
        λ yes'.
            let (k, from, fits) = pass.0 yes' in
            (
              k,
              elim from [
                | inl held ↦ inl held
                | inr granted ↦ inr ((Entitled-iff k g all).0 granted)
              ],
              fits,
            ),
        λ (k, from, fits). pass.1 (
          k,
          elim from [ inl held ↦ inl held | inr granted ↦ inr ((Entitled-iff k g all).1 granted) ],
          fits,
        ),
      )
