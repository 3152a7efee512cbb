-- ===== src/Rbac/Roles/Reach.antt =====
-- `loadRoles` against the graph of roles: it loads what is reachable, and nothing else.
use mathlib.Core.List.Memᴰ
use grafain.Prelude.{
  ℕ, zero, suc, ◌≡◌, refl, sym, ◌∙◌, ap, subst, ◌↔◌, ◌⊎◌, inl, inr, true, Option, some, List, [],
  ◌∷◌, Bytes, ◌==◌, ==_iff, arith, Memᴰ, Memᴰ-nil, Bool-cases, Option-cases,
}
use grafain.Weave.{Result, ok, err, Error, ModelBucket, ok-injective, Result-cases}
use grafain.Rbac.Model.{Role}
use grafain.Rbac.Context.{Roles}
use grafain.Rbac.Roles.{has_role, load_each, load_roles}

pub has_role_iff :
    (ps : Roles) (id : Bytes) → (has_role ps id ≡ true) ↔ ((r : Role) × Memᴰ (id, r) ps)
unfolding has_role
has_role_iff [] id = (λ h. cc, λ (r, m). absurd (Memᴰ-nil (id, r) m))
has_role_iff ((j, q) ∷ ps) id = (
  λ h. elim (Bool-cases (j == id)) [
    | inl same ↦ (q, Memᴰ.head (ap (λ (k : Bytes). (k, q)) (sym ((==_iff j id).0 same))))
    | inr differ ↦ let (r, m) = (has_role_iff ps id).0 (ground arith) in (r, Memᴰ.tail m)
  ],
  λ (r, m). elim (Memᴰ.cases_cons m) [
    | inl e ↦ ground (arith, ap (λ (x : Bytes × Role). x.0) e, ==_iff j id)
    | inr m' ↦ ground (arith, (has_role_iff ps id).1 (r, m'))
  ],
)

-- The two ways in which a loop goes on to its next element.
pub load_each-ok :
    (load : Bytes → Roles → Option (Result Roles)) (id : Bytes) (ids : List Bytes) (ps : Roles)
    {qs : Roles}
    → load_each load (id ∷ ids) ps ≡ some (ok qs)
    → (ps' : Roles) × (load id ps ≡ some (ok ps')) × (load_each load ids ps' ≡ some (ok qs))
unfolding load_each
load_each-ok load id ids ps h = ground arith

load_each-err :
    (load : Bytes → Roles → Option (Result Roles)) (id : Bytes) (ids : List Bytes) (ps : Roles)
    {e : Error}
    → load_each load (id ∷ ids) ps ≡ some (err e)
    → (load id ps ≡ some (err e)) ⊎ ((ps' : Roles) × (load_each load ids ps' ≡ some (err e)))
unfolding load_each
load_each-err load id ids ps {e} h = elim (Option-cases (load id ps)) [
  | inl out ↦ absurd (ground arith)
  | inr (r, ends) ↦ elim (Result-cases r) [
    | inl (ps', good) ↦ inr (ps', ground arith)
    | inr (e', bad) ↦ inl (ground arith)
  ]
]

module _ {DB : Type 0} (role_bucket : ModelBucket DB Role) (db : DB) where
  -- The role `id` is stored and includes `k`.
  pub record Includes (id k : Bytes) : Type 0 where
    pub role : Role
    pub stored : role_bucket.one id db ≡ ok role
    pub included : Memᴰ k role.role_ids

  -- The roles that a role includes, itself among them.
  pub data Reaches (id : Bytes) : Bytes → Type 0 where
    here : Reaches id id
    step : {j k : Bytes} → Reaches id j → Includes j k → Reaches id k

  -- A role that the load added to the map, as it stands in the final map `qs`: what it includes
  -- is there too. `From` says where loads may come from.
  pub record IsLoaded (From : Bytes → Type 0) (qs : Roles) (id : Bytes) (r : Role) : Type 0 where
    pub stored : role_bucket.one id db ≡ ok r
    pub from : From id
    pub closed : (k : Bytes) → Memᴰ k r.role_ids → has_role qs k ≡ true

  pub record Grows (From : Bytes → Type 0) (ps qs : Roles) : Type 0 where
    pub keeps : (j : Bytes) (r : Role) → Memᴰ (j, r) ps → Memᴰ (j, r) qs
    pub added : (j : Bytes) (r : Role) → Memᴰ (j, r) qs → Memᴰ (j, r) ps ⊎ IsLoaded From qs j r

  pub has_role_mono :
      {ps qs : Roles} (id : Bytes)
      → ((j : Bytes) (r : Role) → Memᴰ (j, r) ps → Memᴰ (j, r) qs)
      → has_role ps id ≡ true
      → has_role qs id ≡ true
  has_role_mono {ps} {qs} id keeps h =
      let (r, m) = (has_role_iff ps id).0 h in (has_role_iff qs id).1 (r, keeps id r m)

  module _ {From : Bytes → Type 0} where
    pub Grows-refl : (ps : Roles) → Grows From ps ps
    Grows-refl ps = record { keeps = λ j r m. m; added = λ j r m. inl m }

    pub Grows-trans : {ps ps' qs : Roles} → Grows From ps ps' → Grows From ps' qs → Grows From ps qs
    Grows-trans g h = record {
      keeps = λ j r m. h.keeps j r (g.keeps j r m);
      added = λ j r m. elim (h.added j r m) [
        | inl m' ↦ elim (g.added j r m') [
          | inl m'' ↦ inl m''
          | inr l ↦ inr (record {
            stored = l.stored;
            from = l.from;
            closed = λ k i. has_role_mono k h.keeps (l.closed k i);
          })
        ]
        | inr l ↦ inr l
      ];
    }

    module _ (follows : (j k : Bytes) → From j → Includes j k → From k) where
      -- What one load does, the loop over the included roles does.
      load_each-Grows :
          (load : Bytes → Roles → Option (Result Roles))
          → ((id : Bytes) (ps qs : Roles)
              → From id
              → load id ps ≡ some (ok qs)
              → Grows From ps qs × (has_role qs id ≡ true))
          → (ids : List Bytes) (ps qs : Roles) → ((k : Bytes) → Memᴰ k ids → From k)
          → load_each load ids ps ≡ some (ok qs)
          → Grows From ps qs × ((k : Bytes) → Memᴰ k ids → has_role qs k ≡ true)
      load_each-Grows load one [] ps qs from h =
          let same : ps ≡ qs = unfold load_each in ground arith in
          (subst (Grows From ps) same (Grows-refl ps), λ k m. absurd (Memᴰ-nil k m))
      load_each-Grows load one (id ∷ ids) ps qs from h =
          let (ps', first, rest) = load_each-ok load id ids ps h in
          let (g, there) = one id ps ps' (from id (Memᴰ.head refl)) first in
          let (g', all) = load_each-Grows load one ids ps' qs (λ k m. from k (Memᴰ.tail m)) rest in
          (
            Grows-trans g g',
            λ k m. elim (Memᴰ.cases_cons m) [
              | inl e ↦ has_role_mono k g'.keeps (rw e there)
              | inr m' ↦ all k m'
            ],
          )

      add_loaded :
          (id : Bytes) (r : Role) (ps qs : Roles)
          → role_bucket.one id db ≡ ok r
          → From id
          → Grows From ((id, r) ∷ ps) qs
          → ((k : Bytes) → Memᴰ k r.role_ids → has_role qs k ≡ true)
          → Grows From ps qs × (has_role qs id ≡ true)
      add_loaded id r ps qs stored from g all = (
        record {
          keeps = λ j q m. g.keeps j q (Memᴰ.tail m);
          added = λ j q m. elim (g.added j q m) [
            | inl m' ↦ elim (Memᴰ.cases_cons m') [
              | inl e ↦ inr (
                  subst (λ (x : Bytes × Role). IsLoaded From qs x.0 x.1) (sym e)
                    (record { stored = stored; from = from; closed = all }))
              | inr m'' ↦ inl m''
            ]
            | inr l ↦ inr l
          ];
        },
        (has_role_iff qs id).1 (r, g.keeps id r (Memᴰ.head refl)),
      )

      -- A load that ends well has added reachable roles only, as they are stored, and with each of
      -- them all that it includes.
      pub load_roles-Grows :
          (fuel : ℕ) (id : Bytes) (ps qs : Roles)
          → From id
          → load_roles role_bucket db fuel id ps ≡ some (ok qs)
          → Grows From ps qs × (has_role qs id ≡ true)
      unfolding load_roles
      load_roles-Grows zero id ps qs from h = cc
      load_roles-Grows (suc fuel) id ps qs from h = elim (Bool-cases (has_role ps id)) [
        | inl known ↦
            let same : ps ≡ qs = ground arith in
            (subst (Grows From ps) same (Grows-refl ps), rw (← same) known)
        | inr new ↦ elim (Result-cases (role_bucket.one id db)) [
          | inr (e, failed) ↦ absurd (ground arith)
          | inl (r, stored) ↦
              let (g, all) =
                load_each-Grows (load_roles role_bucket db fuel) (load_roles-Grows fuel) r.role_ids
                  ((id, r) ∷ ps) qs
                  (λ k m. follows id k from (record { role = r; stored = stored; included = m }))
                  (ground arith) in
              add_loaded id r ps qs stored from g all
        ]
      ]

      load_each-fails :
          (load : Bytes → Roles → Option (Result Roles))
          → ((id : Bytes) (ps : Roles) (e : Error)
              → From id
              → load id ps ≡ some (err e)
              → (j : Bytes) × From j × (role_bucket.one j db ≡ err e))
          → (ids : List Bytes) (ps : Roles) (e : Error) → ((k : Bytes) → Memᴰ k ids → From k)
          → load_each load ids ps ≡ some (err e)
          → (j : Bytes) × From j × (role_bucket.one j db ≡ err e)
      load_each-fails load one [] ps e from h = absurd (unfold load_each in ground arith)
      load_each-fails load one (id ∷ ids) ps e from h = elim (load_each-err load id ids ps h) [
        | inl failed ↦ one id ps e (from id (Memᴰ.head refl)) failed
        | inr (ps', rest) ↦ load_each-fails load one ids ps' e (λ k m. from k (Memᴰ.tail m)) rest
      ]

      -- An error of a load is the store's error for one of the roles that are reached.
      pub load_roles-fails :
          (fuel : ℕ) (id : Bytes) (ps : Roles) (e : Error)
          → From id
          → load_roles role_bucket db fuel id ps ≡ some (err e)
          → (j : Bytes) × From j × (role_bucket.one j db ≡ err e)
      unfolding load_roles
      load_roles-fails zero id ps e from h = cc
      load_roles-fails (suc fuel) id ps e from h = elim (Bool-cases (has_role ps id)) [
        | inl known ↦ absurd (ground arith)
        | inr new ↦ elim (Result-cases (role_bucket.one id db)) [
          | inr (e', failed) ↦ (id, from, ground arith)
          | inl (r, stored) ↦
              load_each-fails (load_roles role_bucket db fuel) (load_roles-fails fuel) r.role_ids
                ((id, r) ∷ ps) e
                (λ k m. follows id k from (record { role = r; stored = stored; included = m }))
                (ground arith)
        ]
      ]

  -- A map that was filled from nothing is closed under inclusion.
  pub Grows-closed :
      {From : Bytes → Type 0} {qs : Roles}
      → Grows From [] qs
      → (id : Bytes) {j : Bytes} → has_role qs id ≡ true
      → Reaches id j
      → has_role qs j ≡ true
  Grows-closed g id root here = root
  Grows-closed {From} {qs} g id root (step {j} {k} p i) =
      let (r, m) = (has_role_iff qs j).0 (Grows-closed g id root p) in
      elim (g.added j r m) [
        | inl m' ↦ absurd (Memᴰ-nil _ m')
        | inr l ↦ l.closed k (
            subst (λ (x : Role). Memᴰ k x.role_ids) (ok-injective (sym i.stored ∙ l.stored))
              i.included)
      ]

  pub Grows-IsLoaded :
      {From : Bytes → Type 0} {qs : Roles}
      → Grows From [] qs
      → (j : Bytes) (r : Role) → Memᴰ (j, r) qs
      → IsLoaded From qs j r
  Grows-IsLoaded g j r m = elim (g.added j r m) [ inl m' ↦ absurd (Memᴰ-nil _ m') | inr l ↦ l ]

  -- A load that starts with an empty map and ends well loads exactly the roles that `id` reaches,
  -- each with what is stored under its id.
  pub load_roles-exact :
      (fuel : ℕ) (id : Bytes) {qs : Roles}
      → load_roles role_bucket db fuel id [] ≡ some (ok qs)
      → (j : Bytes)
      → ((has_role qs j ≡ true) ↔ Reaches id j)
        × ((r : Role) → Memᴰ (j, r) qs → role_bucket.one j db ≡ ok r)
  load_roles-exact fuel id {qs} h j =
      let (g, root) =
        load_roles-Grows {From = Reaches id} (λ _ _ p i. step p i) fuel id [] qs here h in
      (
        (
          λ there. let (r, m) = (has_role_iff qs j).0 there in (Grows-IsLoaded g j r m).from,
          Grows-closed g id root,
        ),
        λ r m. (Grows-IsLoaded g j r m).stored,
      )
