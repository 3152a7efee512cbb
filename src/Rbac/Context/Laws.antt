-- ===== src/Rbac/Context/Laws.antt =====
-- What `with_rbac` leaves in a context, and whom `has_permission` lets through.
use mathlib.Core.List.{Permᴰ, append_assoc, append-nil}
use mathlib.Core.List.Permᴰ
use mathlib.Core.List.Memᴰ
use grafain.Prelude.{
  ◌≡◌, refl, sym, ◌∙◌, ◌↔◌, ◌⊎◌, inl, inr, true, some, List, [], ◌∷◌, ◌++◌, map, map_perm, Bytes,
  ==_iff, arith, Memᴰ, Memᴰ-cons, Memᴰ-nil, Bool-cases, subst,
}
use grafain.Weave.{Weave}
use grafain.Rbac.Permission.{Permission, allows}
use grafain.Rbac.Model.{Role, role_condition}
use grafain.Rbac.Context.{
  Context, Roles, contains, add_permission, add_permissions, append_conditions, collect_permissions,
  with_rbac, any_allows, has_permission, sort_conditions, or_empty, get_conditions,
}
use grafain.Rbac.Context.Order.{sort_conditions_perm}

pub contains_iff : (ks : List Bytes) (p : Bytes) → (contains ks p ≡ true) ↔ Memᴰ p ks
unfolding contains
contains_iff [] p = (λ h. cc, λ m. absurd (Memᴰ-nil p m))
contains_iff (k ∷ ks) p = ground (arith, contains_iff ks p, Memᴰ-cons p k ks, ==_iff k p)

any_allows_iff :
    (ks : List Permission) (p : Permission)
    → (any_allows ks p ≡ true) ↔ ((k : Permission) × Memᴰ k ks × (allows k p ≡ true))
unfolding any_allows
any_allows_iff [] p = (λ h. cc, λ (k, m, _). absurd (Memᴰ-nil k m))
any_allows_iff (k ∷ ks) p = (
  λ h. elim (Bool-cases (allows k p)) [
    | inl a ↦ (k, Memᴰ.head refl, a)
    | inr n ↦ let (j, m, a) = (any_allows_iff ks p).0 (ground arith) in (j, Memᴰ.tail m, a)
  ],
  λ (j, m, a). elim (Memᴰ.cases_cons m) [
    | inl e ↦ ground arith
    | inr m' ↦ ground (arith, (any_allows_iff ks p).1 (j, m', a))
  ],
)

-- A permission that is held lets `p` through.
abbrev pub Lets : List Permission → Permission → Type 0
Lets held p = (k : Permission) × Memᴰ k held × ((k ≡ p) ⊎ (allows k p ≡ true))

add_permission_iff :
    (perms : List Permission) (v k : Permission)
    → Memᴰ k (add_permission perms v) ↔ (Memᴰ k perms ⊎ (k ≡ v))
unfolding add_permission
add_permission_iff perms v k = ground (arith, contains_iff perms v, Memᴰ-cons k v perms)

add_permissions_iff :
    (perms vs : List Permission) (k : Permission)
    → Memᴰ k (add_permissions perms vs) ↔ (Memᴰ k perms ⊎ Memᴰ k vs)
unfolding add_permissions
add_permissions_iff perms [] k = (inl, λ d. elim d [ inl m ↦ m | inr m ↦ absurd (Memᴰ-nil k m) ])
add_permissions_iff perms (v ∷ vs) k = ground (
  arith,
  add_permissions_iff (add_permission perms v) vs k,
  add_permission_iff perms v k,
  Memᴰ-cons k v vs,
)

-- Some role of the map has the permission.
abbrev pub Grants : Roles → Permission → Type 0
Grants roles k = (id : Bytes) × (role : Role) × Memᴰ (id, role) roles × Memᴰ k role.permissions

Grants-cons :
    (id : Bytes) (role : Role) (roles : Roles) (k : Permission)
    → Grants ((id, role) ∷ roles) k ↔ (Memᴰ k role.permissions ⊎ Grants roles k)
Grants-cons id role roles k = (
  λ (j, r, m, h). elim (Memᴰ.cases_cons m) [
    | inl e ↦ inl (subst (λ (x : Bytes × Role). Memᴰ k x.1.permissions) e h)
    | inr m' ↦ inr (j, r, m', h)
  ],
  λ d. elim d [ inl h ↦ (id, role, Memᴰ.head refl, h) | inr (j, r, m, h) ↦ (j, r, Memᴰ.tail m, h) ],
)

pub collect_permissions_iff :
    (perms : List Permission) (roles : Roles) (k : Permission)
    → Memᴰ k (collect_permissions perms roles) ↔ (Memᴰ k perms ⊎ Grants roles k)
unfolding collect_permissions
collect_permissions_iff perms [] k =
    (inl, λ d. elim d [ inl m ↦ m | inr (_, _, m, _) ↦ absurd (Memᴰ-nil _ m) ])
collect_permissions_iff perms ((id, role) ∷ roles) k = (
  λ m. elim ((collect_permissions_iff (add_permissions perms role.permissions) roles k).0 m) [
    | inl m' ↦ elim ((add_permissions_iff perms role.permissions k).0 m') [
      | inl old ↦ inl old
      | inr new ↦ inr ((Grants-cons id role roles k).1 (inl new))
    ]
    | inr g ↦ inr ((Grants-cons id role roles k).1 (inr g))
  ],
  λ d. (collect_permissions_iff (add_permissions perms role.permissions) roles k).1 (elim d [
    | inl old ↦ inl ((add_permissions_iff perms role.permissions k).1 (inl old))
    | inr g ↦ elim ((Grants-cons id role roles k).0 g) [
      | inl new ↦ inl ((add_permissions_iff perms role.permissions k).1 (inr new))
      | inr g' ↦ inr g'
    ]
  ]),
)

Memᴰ_perm {ℓ} : {A : Type ℓ} {a : A} {xs ys : List A} → Permᴰ xs ys → Memᴰ a xs → Memᴰ a ys
Memᴰ_perm Permᴰ.nil m = m
Memᴰ_perm (Permᴰ.cons e p) m = elim (Memᴰ.cases_cons m) [
  | inl h ↦ Memᴰ.head (h ∙ e)
  | inr t ↦ Memᴰ.tail (Memᴰ_perm p t)
]
Memᴰ_perm (Permᴰ.swap e f) m = elim (Memᴰ.cases_cons m) [
  | inl h ↦ Memᴰ.tail (Memᴰ.head (h ∙ e))
  | inr t ↦ elim (Memᴰ.cases_cons t) [ inl h ↦ Memᴰ.head (h ∙ f) | inr u ↦ Memᴰ.tail (Memᴰ.tail u) ]
]
Memᴰ_perm (Permᴰ.trans p q) m = Memᴰ_perm q (Memᴰ_perm p m)

Grants-perm :
    {roles roles' : Roles} {k : Permission} → Permᴰ roles roles' → Grants roles k → Grants roles' k
Grants-perm same (id, role, m, h) = (id, role, Memᴰ_perm same m, h)

-- What is let through in a context with roles, by what is let through in the parent.
abbrev pub Passes : {O : Type 0} → Context O → Roles → Permission → Type 0
Passes ctx roles p =
    (k : Permission) × (Memᴰ k (or_empty ctx.permissions) ⊎ Grants roles k)
    × ((k ≡ p) ⊎ (allows k p ≡ true))

module _ ⦃W : Weave⦄ where
  append_conditions-eq :
      (conds : List Bytes) (roles : Roles)
      → append_conditions conds roles ≡ conds ++ map (λ r. role_condition r.0) roles
  unfolding append_conditions
  append_conditions-eq conds [] = sym (append-nil conds)
  append_conditions-eq conds ((id, role) ∷ roles) =
      append_conditions-eq (conds ++ (role_condition id ∷ [])) roles
      ∙ append_assoc conds (role_condition id ∷ []) (map (λ r. role_condition r.0) roles)

  append_conditions_perm :
      (conds : List Bytes) {roles roles' : Roles}
      → Permᴰ roles roles'
      → sort_conditions (append_conditions conds roles)
        ≡ sort_conditions (append_conditions conds roles')
  append_conditions_perm conds {roles} {roles'} same =
      rw (append_conditions-eq conds roles, append_conditions-eq conds roles')
        (sort_conditions_perm (Permᴰ.append_left conds (map_perm (λ r. role_condition r.0) same)))

  module _ {O : Type 0} where
    -- Exactly the permissions that are held, and those that a held wildcard allows, are let through.
    pub has_permission_iff :
        (ctx : Context O) {val : List Permission} (p : Permission)
        → ctx.permissions ≡ some val
        → (has_permission ctx p ≡ true) ↔ Lets val p
    unfolding has_permission
    has_permission_iff ctx {val} p e = (
      λ h. elim (Bool-cases (contains val p)) [
        | inl held ↦ (p, (contains_iff val p).0 held, inl refl)
        | inr n ↦ let (k, m, a) = (any_allows_iff val p).0 (ground arith) in (k, m, inr a)
      ],
      λ (k, m, d). elim d [
        | inl same ↦ ground (arith, (contains_iff val k).1 m)
        | inr a ↦ ground (arith, (any_allows_iff val p).1 (k, m, a))
      ],
    )

    -- After `withRBAC` a permission passes exactly if the parent context held a match for it, or
    -- some role of the map grants one.
    pub has_permission-with_rbac :
        (ctx : Context O) (roles : Roles) (p : Permission)
        → (has_permission (with_rbac ctx roles) p ≡ true) ↔ Passes ctx roles p
    unfolding with_rbac
    has_permission-with_rbac ctx roles p =
        let held = or_empty ctx.permissions in
        let pass = has_permission_iff (with_rbac ctx roles) p refl in
        (
          λ h. let (k, m, d) = pass.0 h in (k, (collect_permissions_iff held roles k).0 m, d),
          λ (k, m, d). pass.1 (k, (collect_permissions_iff held roles k).1 m, d),
        )

    Passes-perm :
        (ctx : Context O) {roles roles' : Roles} (p : Permission)
        → Permᴰ roles roles'
        → Passes ctx roles p
        → Passes ctx roles' p
    Passes-perm ctx p same (k, inl m, d) = (k, inl m, d)
    Passes-perm ctx p same (k, inr g, d) = (k, inr (Grants-perm same g), d)

    -- The iteration order of the role map does not show: in whatever order the roles come, the
    -- context gets the same conditions, and lets the same permissions through.
    pub with_rbac_order :
        (ctx : Context O) {roles roles' : Roles} (p : Permission)
        → Permᴰ roles roles'
        → (get_conditions (with_rbac ctx roles) ≡ get_conditions (with_rbac ctx roles'))
          × ((has_permission (with_rbac ctx roles) p ≡ true)
              ↔ (has_permission (with_rbac ctx roles') p ≡ true))
    with_rbac_order ctx {roles} {roles'} p same =
        let before = has_permission-with_rbac ctx roles p in
        let after = has_permission-with_rbac ctx roles' p in
        (
          unfold with_rbac get_conditions or_empty in
              append_conditions_perm (or_empty ctx.conditions) same,
          (
            λ h. after.1 (Passes-perm ctx p same (before.0 h)),
            λ h. before.1 (Passes-perm ctx p (Permᴰ.symm same) (after.0 h)),
          ),
        )
