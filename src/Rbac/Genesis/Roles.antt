-- ===== src/Rbac/Genesis/Roles.antt =====
-- The roles of the genesis file: which files pkg/rbac accepts, and what it stores of them.
use grafain.Prelude.{
  ℕ, ◌+◌, ◌^◌, ◌<◌, ◌≤◌, ◌≡◌, ◌≢◌, ◌↔◌, refl, sym, ◌∙◌, ap, ◌⊎◌, inl, inr, none, some, List, [],
  ◌∷◌, map, All, arith, Option-cases, length, subst, Option,
}
use grafain.Prelude.BigEndian.{put_uint64}
use grafain.Weave.{Weave, Error, ok}
use grafain.Weave.Laws.{IsWeave}
use grafain.Rbac.Model.{Role, role_validate, role_condition}
use grafain.Rbac.Genesis.{GenesisRole, Store, of_role, role_keys, add_roles}
use grafain.Rbac.Genesis.Laws.{IsRoleStore, HasRole, role_keys-cases}
use grafain.Rbac.Genesis.Numbered.{
  role_of, Closed, InRange, Numbered, StoredBehind, after, put-role, after-new, after-old,
  after-Numbered,
}

module _ ⦃W : Weave⦄ (weave : IsWeave W) {DB : Type 0} (store : Store DB)
    (lawful : IsRoleStore store) where
  -- The file is accepted: its entries are closed and are stored under the next numbers, and the roles
  -- that were there are as they were.
  abbrev pub Accepted : ℕ → List GenesisRole → DB → Type 0
  Accepted n roles db =
      Closed n roles
      × ((add_roles store roles db).0 ≡ none)
      × StoredBehind weave store lawful n roles (add_roles store roles db).1
      × Numbered weave store lawful (n + length roles) (add_roles store roles db).1
      × ((id : ℕ)
          → id ≤ n
          → store.roles.one (put_uint64 id) (add_roles store roles db).1
            ≡ store.roles.one (put_uint64 id) db)

  of_role-role_of :
      (n : ℕ) (v : GenesisRole) → of_role (put_uint64 n) (map put_uint64 v.role_ids) v ≡ role_of n v
  unfolding of_role role_condition
  of_role-role_of n v = refl

  -- the next step of the loop, where the included roles are stored
  add_roles-step :
      (n : ℕ) (v : GenesisRole) (vs : List GenesisRole) (db : DB)
      → Numbered weave store lawful n db
      → n + 1 < 2 ^ 64
      → role_keys store v.role_ids db ≡ inr (map put_uint64 v.role_ids)
      → ((role_validate (role_of (n + 1) v) ≡ none)
          × (add_roles store (v ∷ vs) db ≡ add_roles store vs (after weave store lawful n v db)))
        ⊎ ((role_validate (role_of (n + 1) v) ≢ none)
            × ((e : Error) × ((add_roles store (v ∷ vs) db).0 ≡ some e)))
  unfolding add_roles
  add_roles-step n v vs db numbered small keys =
      let fits : lawful.last db + 1 < 2 ^ 64 = omega (arith, numbered.counted) in
      let (next, _, _) = lawful.next_val-next db fits in
      let key = next ∙ ap (λ (m : ℕ). ok (put_uint64 (m + 1))) numbered.counted in
      let made = of_role-role_of (n + 1) v in
      elim (Option-cases (role_validate (role_of (n + 1) v))) [
        | inl valid ↦
            let (written, _) = put-role weave store lawful n v db valid in
            inl (valid, ground (arith, keys, key, made, written))
        | inr (e, invalid) ↦
            let same = lawful.current (role_of (n + 1) v) refl in
            let bad : role_validate (lawful.upgrade (role_of (n + 1) v)) ≢ none =
              λ good. ground (arith, ap (λ (r : Role). role_validate r) same, good, invalid) in
            let ((x, refused), _) =
              lawful.roles.put-invalid (put_uint64 (n + 1)) (role_of (n + 1) v)
                (store.role_seq.next_val db).1 bad in
            elim (Option-cases (W.wrap (some x) "cannot save #%d role")) [
              | inl nil ↦ absurd (weave.wrap-some x "cannot save #%d role" nil)
              | inr (y, wrapped) ↦ inr (
                λ good. ground (arith, good, invalid),
                (y, ground (arith, keys, key, made, refused, wrapped)),
              )
            ]
      ]

  known_iff :
      (n : ℕ) (db : DB)
      → Numbered weave store lawful n db
      → (ids : List ℕ) → All (λ id. id < 2 ^ 64) ids
      → All (HasRole weave store lawful db) ids ↔ All (λ id. (0 < id) × (id ≤ n)) ids
  known_iff n db numbered [] range = (λ _. tt, λ _. tt)
  known_iff n db numbered (id ∷ ids) (small, range) =
      let one = numbered.stored_iff id small in
      let rest = known_iff n db numbered ids range in
      (λ (h, hs). (one.0 h, rest.0 hs), λ (h, hs). (one.1 h, rest.1 hs))

  -- On a store whose roles are numbered from 1 to n, addRoles accepts a file of roles exactly if each
  -- is valid and includes roles of smaller numbers only, so neither itself nor a later one. It then
  -- stores each under the next number, with the address of its condition and the eight bytes of each
  -- included number, and leaves the roles before as they were; on any other file it ends in an error.
  pub add_roles-Accepted :
      (n : ℕ) (roles : List GenesisRole) (db : DB)
      → Numbered weave store lawful n db
      → n + length roles < 2 ^ 64
      → InRange roles
      → Accepted n roles db
        ⊎ ((¬ Closed n roles) × ((e : Error) × ((add_roles store roles db).0 ≡ some e)))
  unfolding add_roles
  add_roles-Accepted n [] db numbered small range = inl (
    tt,
    refl,
    tt,
    subst (λ m. Numbered weave store lawful m db) (omega arith) numbered,
    λ id below. refl,
  )
  add_roles-Accepted n (v ∷ vs) db numbered small (now, later) =
      let small' : n + 1 < 2 ^ 64 = omega arith in
      let known = known_iff n db numbered v.role_ids now in
      elim (role_keys-cases weave store lawful v.role_ids db) [
        | inr (missing, (e, stops)) ↦
            inr (λ (closed, _, _). missing (known.1 closed), (e, ground arith))
        | inl (stored, keys) ↦ elim (add_roles-step n v vs db numbered small' keys) [
          | inr (invalid, failing) ↦ inr (λ (_, valid, _). invalid valid, failing)
          | inl (valid, goes_on) ↦
              let numbered' = after-Numbered weave store lawful n v db numbered small' valid in
              let same = ap (λ (x : Option Error × DB). x.0) goes_on in
              let same' = ap (λ (x : Option Error × DB). x.1) goes_on in
              elim (add_roles-Accepted (n + 1) vs (after weave store lawful n v db) numbered'
                (omega arith) later) [
                  | inr (open', (e, failing)) ↦
                      inr (λ (_, _, closed). open' closed, (e, same ∙ failing))
                  | inl (closed, ended, there, counted, kept) ↦ inl (
                    (known.0 stored, valid, closed),
                    same ∙ ended,
                    subst (λ d. StoredBehind weave store lawful n (v ∷ vs) d) (sym same')
                        (
                          kept (n + 1) (omega arith)
                              ∙ after-new weave store lawful n v db numbered small' valid,
                          there,
                        ),
                    subst (λ d. Numbered weave store lawful (n + length (v ∷ vs)) d) (sym same')
                        (subst
                          (λ m.
                            Numbered weave store lawful m
                              (add_roles store vs (after weave store lawful n v db)).1)
                          (omega arith) counted),
                    λ id below.
                        ap (λ d. store.roles.one (put_uint64 id) d) same'
                        ∙ kept id (omega arith)
                        ∙ after-old weave store lawful n v db numbered small' valid id (omega arith)
                            (omega arith),
                  )
                ]
        ]
      ]
