-- ===== src/Rbac/Roles/Ends.antt =====
-- `loadRoles` ends: each nested call adds one more of the stored roles to the map.
use mathlib.Core.List.Memᴰ
use grafain.Prelude.{
  ℕ, zero, suc, ◌+◌, ◌≤◌, ◌<◌, ◌≡◌, refl, inl, inr, true, false, Option, some, List, [], ◌∷◌, Bytes,
  ==_refl, arith, Memᴰ, Memᴰ-nil, Bool-cases, length, if◌then◌else◌,
}
use grafain.Weave.{Result, ok, err, ModelBucket, Result-cases}
use grafain.Rbac.Model.{Role}
use grafain.Rbac.Context.{Roles}
use grafain.Rbac.Roles.{has_role, load_each, load_roles}
use grafain.Rbac.Roles.Reach.{has_role_iff, load_roles-Grows}

-- How many of the ids are not yet in the map.
unseen : List Bytes → Roles → ℕ
unseen [] ps = 0
unseen (u ∷ us) ps = (if has_role ps u then 0 else 1) + unseen us ps

unseen_mono :
    (us : List Bytes) (ps qs : Roles)
    → ((j : Bytes) → has_role ps j ≡ true → has_role qs j ≡ true)
    → unseen us qs ≤ unseen us ps
unfolding unseen
unseen_mono [] ps qs more = omega arith
unseen_mono (u ∷ us) ps qs more = ground (arith, more u, unseen_mono us ps qs more)

unseen-le_length : (us : List Bytes) (ps : Roles) → unseen us ps ≤ length us
unfolding unseen
unseen-le_length [] ps = omega arith
unseen-le_length (u ∷ us) ps = ground (arith, unseen-le_length us ps)

has_role-cons :
    (id j : Bytes) (r : Role) (ps : Roles) → has_role ps j ≡ true → has_role ((id, r) ∷ ps) j ≡ true
unfolding has_role
has_role-cons id j r ps h = ground arith

has_role-head : (id : Bytes) (r : Role) (ps : Roles) → has_role ((id, r) ∷ ps) id ≡ true
unfolding has_role
has_role-head id r ps = ground (arith, ==_refl id)

unseen-cons :
    (us : List Bytes) (id : Bytes) (r : Role) (ps : Roles)
    → Memᴰ id us
    → has_role ps id ≡ false
    → unseen us ((id, r) ∷ ps) < unseen us ps
unfolding unseen
unseen-cons [] id r ps m new = absurd (Memᴰ-nil id m)
unseen-cons (u ∷ us) id r ps m new = elim (Memᴰ.cases_cons m) [
  | inl e ↦ ground (
    arith,
    has_role-head id r ps,
    unseen_mono us ps ((id, r) ∷ ps) (λ j. has_role-cons id j r ps),
  )
  | inr m' ↦ ground (arith, has_role-cons id u r ps, unseen-cons us id r ps m' new)
]

-- The loop returns if each load does that starts in a state with `P`, and keeps `P`.
load_each-returns :
    (load : Bytes → Roles → Option (Result Roles)) (P : Roles → Type 0)
    → ((id : Bytes) (ps : Roles) → P ps → (r : Result Roles) × (load id ps ≡ some r))
    → ((id : Bytes) (ps qs : Roles) → P ps → load id ps ≡ some (ok qs) → P qs)
    → (ids : List Bytes) (ps : Roles) → P ps
    → (r : Result Roles) × (load_each load ids ps ≡ some r)
unfolding load_each
load_each-returns load P returns keeps [] ps p = (ok ps, refl)
load_each-returns load P returns keeps (id ∷ ids) ps p =
    let (r, e) = returns id ps p in
    elim (Result-cases r) [
      | inl (ps', good) ↦
          let first : load id ps ≡ some (ok ps') = rw (← good) e in
          let (r', e') = load_each-returns load P returns keeps ids ps' (keeps id ps ps' p first) in
          (r', ground arith)
      | inr (x, bad) ↦ (err x, ground arith)
    ]

module _ {DB : Type 0} (role_bucket : ModelBucket DB Role) (db : DB) (ids : List Bytes) where
  module _ (known : (id : Bytes) (r : Role) → role_bucket.one id db ≡ ok r → Memᴰ id ids) where
    grows :
        (fuel : ℕ) (id : Bytes) (ps qs : Roles)
        → load_roles role_bucket db fuel id ps ≡ some (ok qs)
        → unseen ids qs ≤ unseen ids ps
    grows fuel id ps qs h =
        let (g, _) =
          load_roles-Grows role_bucket db {From = λ _. Unit} (λ _ _ _ _. tt) fuel id ps qs tt h in
        unseen_mono ids ps qs λ j there.
          let (r, m) = (has_role_iff ps j).0 there in (has_role_iff qs j).1 (r, g.keeps j r m)

    load_roles-returns_from :
        (fuel : ℕ) (id : Bytes) (ps : Roles)
        → unseen ids ps < fuel
        → (r : Result Roles) × (load_roles role_bucket db fuel id ps ≡ some r)
    unfolding load_roles
    load_roles-returns_from zero id ps h = absurd (omega arith)
    load_roles-returns_from (suc fuel) id ps h = elim (Bool-cases (has_role ps id)) [
      | inl old ↦ (ok ps, ground arith)
      | inr new ↦ elim (Result-cases (role_bucket.one id db)) [
        | inr (e, failed) ↦ (err e, ground arith)
        | inl (r, stored) ↦
            let (q, e) =
              load_each-returns (load_roles role_bucket db fuel) (λ qs. unseen ids qs < fuel)
                (load_roles-returns_from fuel)
                (λ j qs qs' lt done. omega (arith, grows fuel j qs qs' done)) r.role_ids
                ((id, r) ∷ ps) (omega (arith, unseen-cons ids id r ps (known id r stored) new)) in
            (q, ground arith)
      ]
    ]

    -- Where all stored roles have their ids in a list, more fuel than ids is enough, cycles or not.
    pub load_roles-returns :
        (fuel : ℕ) (id : Bytes) (ps : Roles)
        → length ids < fuel
        → (r : Result Roles) × (load_roles role_bucket db fuel id ps ≡ some r)
    load_roles-returns fuel id ps h =
        load_roles-returns_from fuel id ps (omega (arith, unseen-le_length ids ps))
