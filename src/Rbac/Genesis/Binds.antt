-- ===== src/Rbac/Genesis/Binds.antt =====
-- The role bindings of the genesis file: which files pkg/rbac accepts, and whom it binds to what.
use Prim.Native.String.{String}
use grafain.Prelude.{
  ◌≡◌, ◌≢◌, ◌↔◌, refl, sym, ◌∙◌, ap, ◌⊎◌, inl, inr, none, some, List, [], ◌∷◌, Bytes, All, arith,
  Option, Option-cases, List-cases, length, Memᴰ,
}
use grafain.Prelude.BigEndian.{put_uint64, length-put_uint64}
use grafain.Weave.{Weave, Error, registered, err_human, ok, Result-cases}
use grafain.Weave.Laws.{IsWeave, IsBucket}
use grafain.Rbac.Model.{RoleBinding, Principal, role_binding_validate}
use grafain.Rbac.Bindings.{create, find_role_ids_by_address, build_key, new_binding}
use grafain.Rbac.Bindings.Find.{find_role_ids-create}
use grafain.Rbac.Genesis.{GenesisRoleBinding, Store, encode_id_key, add_role_bindings}
use grafain.Rbac.Genesis.Laws.{IsRoleStore, HasRole, has-HasRole}

-- The bucket of bindings: a valid binding can be saved, and is kept apart from roles and principals.
pub record IsBindingStore ⦃W : Weave⦄ {DB : Type 0} (store : Store DB) : Type 0 where
  pub bindings : IsBucket store.bindings
  pub save-valid :
      (k : Bytes) (b : RoleBinding) (db : DB)
      → role_binding_validate b ≡ none
      → (store.bindings.save k b db).0 ≡ ok tt
  pub one-save :
      (k : Bytes) (b : RoleBinding) (db : DB) (key : Bytes)
      → store.roles.one key (store.bindings.save k b db).1 ≡ store.roles.one key db
  pub by_index-save :
      (k : Bytes) (b : RoleBinding) (db : DB) (name : String) (key : Bytes)
      → store.principals.by_index name key (store.bindings.save k b db).1
        ≡ store.principals.by_index name key db

-- an entry binds the address to the role id
abbrev pub Binds : List GenesisRoleBinding → Bytes → Bytes → Type 0
Binds [] a id = ⊥
Binds (v ∷ vs) a id = ((id ≡ put_uint64 v.role_id) × (a ≡ v.signature)) ⊎ Binds vs a id

module _ ⦃W : Weave⦄ (weave : IsWeave W) {DB : Type 0} (store : Store DB)
    (lawful : IsRoleStore store) (binding : IsBindingStore store) where
  -- some principal has the signature
  abbrev pub HasPrincipal : DB → Bytes → Type 0
  HasPrincipal db signature =
      (ids : List Bytes) × (ps : List Principal) × (store.principals.by_index "signature" signature
          db
        ≡ ok (ids, ps))
      × (ids ≢ [])

  -- the role and a principal with the signature of the entry are stored
  abbrev pub Ready : DB → GenesisRoleBinding → Type 0
  Ready db v = HasRole weave store lawful db v.role_id × HasPrincipal db v.signature

  -- what create leaves of the store
  abbrev bound : GenesisRoleBinding → DB → DB
  bound v db = (create store.bindings (put_uint64 v.role_id) v.signature db).1

  create-done :
      (v : GenesisRoleBinding) (db : DB)
      → (key : Bytes) × ((create store.bindings (put_uint64 v.role_id) v.signature db).0 ≡ ok key)
  unfolding create role_binding_validate
  create-done v db =
      let b = new_binding (put_uint64 v.role_id) v.signature in
      let saved = binding.save-valid (build_key b) b db refl in (build_key b, ground (arith, saved))

  Ready-bound :
      (v : GenesisRoleBinding) (db : DB) (w : GenesisRoleBinding)
      → Ready (bound v db) w ↔ Ready db w
  unfolding create
  Ready-bound v db w =
      let b = new_binding (put_uint64 v.role_id) v.signature in
      let role = binding.one-save (build_key b) b db (put_uint64 w.role_id) in
      let principal = binding.by_index-save (build_key b) b db "signature" w.signature in
      (
        λ ((r, found), (ids, ps, indexed, full)).
            ((r, sym role ∙ found), (ids, ps, sym principal ∙ indexed, full)),
        λ ((r, found), (ids, ps, indexed, full)).
            ((r, role ∙ found), (ids, ps, principal ∙ indexed, full)),
      )

  AllReady-bound :
      (v : GenesisRoleBinding) (db : DB) (vs : List GenesisRoleBinding)
      → All (Ready (bound v db)) vs ↔ All (Ready db) vs
  AllReady-bound v db [] = (λ _. tt, λ _. tt)
  AllReady-bound v db (w ∷ ws) =
      let one = Ready-bound v db w in
      let rest = AllReady-bound v db ws in
      (λ (h, hs). (one.0 h, rest.0 hs), λ (h, hs). (one.1 h, rest.1 hs))

  -- a step of the loop
  add_role_bindings-step :
      (v : GenesisRoleBinding) (vs : List GenesisRoleBinding) (db : DB)
      → (Ready db v
          × (add_role_bindings store (v ∷ vs) db ≡ add_role_bindings store vs (bound v db)))
        ⊎ ((¬ Ready db v) × ((e : Error) × ((add_role_bindings store (v ∷ vs) db).0 ≡ some e)))
  unfolding add_role_bindings encode_id_key
  add_role_bindings-step v vs db = elim (has-HasRole weave store lawful v.role_id db) [
    | inr (missing, tested) ↦
        elim (Option-cases (
          W.wrap (some (registered err_human))
            "Role dependency not exists: id %d required for binding # %d")) [
              | inl nil ↦ absurd (weave.wrap-some _ _ nil)
              | inr (e, stops) ↦ inr (λ (there, _). missing there, (e, ground arith))
            ]
    | inl (there, tested) ↦
        elim (Result-cases (store.principals.by_index "signature" v.signature db)) [
          | inr (e, bad) ↦
              inr (λ (_, (ids, ps, found, _)). absurd (ground arith), (e, ground arith))
          | inl ((ids, ps), found) ↦ elim (List-cases ids) [
            | inl empty ↦
                elim (Option-cases (
                  W.wrap (some (registered err_human))
                    "Principal dependency not exists: signature %q required for binding # %d")) [
                      | inl nil ↦ absurd (weave.wrap-some _ _ nil)
                      | inr (e, stops) ↦
                          inr (
                            λ (_, (ids', ps', found', full)). full (ground arith),
                            (e, ground arith),
                          )
                    ]
            | inr (x, xs, full) ↦
                let (key, saved) = create-done v db in
                inl ((there, (ids, ps, found, λ nil. ground arith)), ground arith)
          ]
        ]
  ]

  query-bound :
      (v : GenesisRoleBinding) (db : DB) (a : Bytes) {models : List (Bytes × RoleBinding)}
      → store.bindings.query_prefix a db ≡ ok models
      → (models' : List (Bytes × RoleBinding)) × (store.bindings.query_prefix a (bound v db)
          ≡ ok models')
  unfolding create role_binding_validate
  query-bound v db a found =
      let b = new_binding (put_uint64 v.role_id) v.signature in
      let saved = binding.save-valid (build_key b) b db refl in
      let (models', found', _) =
        binding.bindings.query_prefix-save (build_key b) a b db saved found in
      (models', found')

  -- The loop ends well exactly if each entry is ready.
  add_role_bindings_iff :
      (file : List GenesisRoleBinding) (db : DB)
      → ((add_role_bindings store file db).0 ≡ none) ↔ All (Ready db) file
  unfolding add_role_bindings
  add_role_bindings_iff [] db = (λ _. tt, λ _. refl)
  add_role_bindings_iff (v ∷ vs) db = elim (add_role_bindings-step v vs db) [
    | inr (missing, (e, failing)) ↦
        (λ h. absurd (ground arith), λ (ready, _). absurd (missing ready))
    | inl (ready, goes_on) ↦
        let same = ap (λ (x : Option Error × DB). x.0) goes_on in
        let rest = add_role_bindings_iff vs (bound v db) in
        let later = AllReady-bound v db vs in
        (λ h. (ready, later.0 (rest.0 (sym same ∙ h))), λ (_, all). same ∙ rest.1 (later.1 all))
  ]

  -- whom a file of ready entries binds to what
  finds_new_ids :
      (file : List GenesisRoleBinding) (db : DB) (a : Bytes) {ids : List Bytes}
      {models : List (Bytes × RoleBinding)}
      → All (λ v. length v.signature ≡ W.address_length) file
      → length a ≡ W.address_length
      → store.bindings.query_prefix a db ≡ ok models
      → find_role_ids_by_address store.bindings db a ≡ ok ids
      → All (Ready db) file
      → ((add_role_bindings store file db).0 ≡ none)
        × ((ids' : List Bytes) × (find_role_ids_by_address store.bindings
                (add_role_bindings store file db).1
                a
              ≡ ok ids')
            × ((id : Bytes) → Memᴰ id ids' ↔ (Memᴰ id ids ⊎ Binds file a id)))
  unfolding add_role_bindings
  finds_new_ids [] db a {ids} long full found before ready = (
    refl,
    (
      ids,
      before,
      λ id. (λ there. inl there, λ x. elim x [ inl there ↦ there | inr nothing ↦ absurd nothing ]),
    ),
  )
  finds_new_ids (v ∷ vs) db a {ids} (now, long) full found before (one, ready) =
      elim (add_role_bindings-step v vs db) [
        | inr (missing, _) ↦ absurd (missing one)
        | inl (_, goes_on) ↦
            let (key, saved) = create-done v db in
            let (ids1, before1, iff1) =
              find_role_ids-create store.bindings binding.bindings (put_uint64 v.role_id)
                v.signature a db (length-put_uint64 v.role_id) now full saved found before in
            let (models1, found1) = query-bound v db a found in
            let (ended, (ids2, after2, iff2)) =
              finds_new_ids vs (bound v db) a long full found1 before1
                ((AllReady-bound v db vs).1 ready) in
            (
              ap (λ (x : Option Error × DB). x.0) goes_on ∙ ended,
              (
                ids2,
                ap (λ (x : Option Error × DB). find_role_ids_by_address store.bindings x.1 a)
                      goes_on
                    ∙ after2,
                λ id. (
                  (λ there. elim ((iff2 id).0 there) [
                    | inr later ↦ inr (inr later)
                    | inl early ↦ elim ((iff1 id).0 early) [
                      | inl old ↦ inl old
                      | inr new ↦ inr (inl new)
                    ]
                  ]),
                  λ x. elim x [
                    | inl old ↦ (iff2 id).1 (inl ((iff1 id).1 (inl old)))
                    | inr y ↦ elim y [
                      | inl new ↦ (iff2 id).1 (inl ((iff1 id).1 (inr new)))
                      | inr later ↦ (iff2 id).1 (inr later)
                    ]
                  ],
                ),
              ),
            )
      ]

  -- addRoleBindings accepts a file, whose addresses have full length, exactly if for each entry a role
  -- is stored under its number and some principal has its signature. FindRoleIDsByAddress then finds
  -- for any address what it found before, and the eight bytes of the role numbers that the file binds
  -- to it; on any other file addRoleBindings ends in an error.
  pub add_role_bindings-Binds :
      (file : List GenesisRoleBinding) (db : DB) (a : Bytes) {ids : List Bytes}
      {models : List (Bytes × RoleBinding)}
      → All (λ v. length v.signature ≡ W.address_length) file
      → length a ≡ W.address_length
      → store.bindings.query_prefix a db ≡ ok models
      → find_role_ids_by_address store.bindings db a ≡ ok ids
      → (All (Ready db) file
          × ((add_role_bindings store file db).0 ≡ none)
          × ((ids' : List Bytes) × (find_role_ids_by_address store.bindings
                  (add_role_bindings store file db).1
                  a
                ≡ ok ids')
              × ((id : Bytes) → Memᴰ id ids' ↔ (Memᴰ id ids ⊎ Binds file a id))))
        ⊎ ((¬ All (Ready db) file) × ((e : Error) × ((add_role_bindings store file db).0 ≡ some e)))
  add_role_bindings-Binds file db a long full found before =
      let iff = add_role_bindings_iff file db in
      elim (Option-cases (add_role_bindings store file db).0) [
        | inr (e, failing) ↦ inr (λ ready. ground (arith, iff.1 ready, failing), (e, failing))
        | inl fine ↦
            let ready = iff.0 fine in
            let (_, after) = finds_new_ids file db a long full found before ready in
            inl (ready, fine, after)
      ]
