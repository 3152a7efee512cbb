-- ===== src/Rbac/Genesis/Numbered.antt =====
-- The numbers of the roles in the store, and what the next role does to them.
use grafain.Prelude.{
  ℕ, ◌+◌, ◌^◌, ◌<◌, ◌≤◌, ◌≡◌, ◌≢◌, ◌↔◌, refl, sym, ◌∙◌, ap, inl, inr, none, some, List, [], ◌∷◌,
  map, Bytes, codes, All, arith, ◌==◌, ==_iff, if◌then◌else◌, Bool-cases, ==_refl, eqb,
}
use grafain.Prelude.BigEndian.{put_uint64}
use grafain.Weave.{Weave, ok}
use grafain.Weave.Laws.{IsWeave}
use grafain.Rbac.Model.{Role, role_validate}
use grafain.Rbac.Genesis.{GenesisRole, Store}
use grafain.Rbac.Genesis.Laws.{IsRoleStore, HasRole, put_uint64-injective, put_uint64-named}

module _ ⦃W : Weave⦄ where
  -- the role that an entry of the file describes, under a number
  abbrev pub role_of : ℕ → GenesisRole → Role
  role_of n v = record {
    metadata = some (record { schema = 1 });
    name = v.name;
    description = [];
    address = W.address (W.new_condition (codes "rbac") (codes "role") (put_uint64 n));
    role_ids = map put_uint64 v.role_ids;
    owner = v.owner;
    permissions = v.permissions;
  }

  -- The entries are numbered behind n: each is valid, and includes roles of smaller numbers only.
  abbrev pub Closed : ℕ → List GenesisRole → Type 0
  Closed n [] = Unit
  Closed n (v ∷ vs) =
      All (λ id. (0 < id) × (id ≤ n)) v.role_ids
      × (role_validate (role_of (n + 1) v) ≡ none)
      × Closed (n + 1) vs

  -- uint64 numbers
  abbrev pub InRange : List GenesisRole → Type 0
  InRange [] = Unit
  InRange (v ∷ vs) = All (λ id. id < 2 ^ 64) v.role_ids × InRange vs

module _ ⦃W : Weave⦄ (weave : IsWeave W) {DB : Type 0} (store : Store DB)
    (lawful : IsRoleStore store) where
  -- The roles that are stored are numbered from 1 to n, and n is the last number of the sequence.
  pub record Numbered (n : ℕ) (db : DB) : Type 0 where
    pub counted : lawful.last db ≡ n
    pub stored_iff :
        (id : ℕ) → id < 2 ^ 64 → HasRole weave store lawful db id ↔ ((0 < id) × (id ≤ n))

  -- the entries are stored under their numbers
  abbrev pub StoredBehind : ℕ → List GenesisRole → DB → Type 0
  StoredBehind n [] db = Unit
  StoredBehind n (v ∷ vs) db =
      (store.roles.one (put_uint64 (n + 1)) db ≡ ok (role_of (n + 1) v))
      × StoredBehind (n + 1) vs db

  -- the store after the next role
  abbrev pub after : ℕ → GenesisRole → DB → DB
  after n v db =
      (store.roles.put (put_uint64 (n + 1)) (role_of (n + 1) v) (store.role_seq.next_val db).1).1

  pub put-role :
      (n : ℕ) (v : GenesisRole) (db : DB)
      → role_validate (role_of (n + 1) v) ≡ none
      → ((store.roles.put (put_uint64 (n + 1)) (role_of (n + 1) v) (store.role_seq.next_val db).1).0
          ≡ ok (put_uint64 (n + 1)))
        × ((k : Bytes)
            → store.roles.one k (after n v db) ≡ (
                if k == put_uint64 (n + 1)
                then ok (role_of (n + 1) v)
                else store.roles.one k (store.role_seq.next_val db).1))
  put-role n v db valid =
      let same = lawful.current (role_of (n + 1) v) refl in
      let (written, all) =
        lawful.roles.put-valid (put_uint64 (n + 1)) (role_of (n + 1) v)
          (store.role_seq.next_val db).1 (put_uint64-named (n + 1))
          (ap (λ (r : Role). role_validate r) same ∙ valid) in
      (
        written,
        λ k.
            all k
            ∙ ap
                (λ (r : Role).
                  if k == put_uint64 (n + 1)
                  then ok r
                  else store.roles.one k (store.role_seq.next_val db).1)
                same,
      )

  module _ (n : ℕ) (v : GenesisRole) (db : DB) (numbered : Numbered n db) (small : n + 1 < 2 ^ 64)
      (valid : role_validate (role_of (n + 1) v) ≡ none) where
    pub after-new : store.roles.one (put_uint64 (n + 1)) (after n v db) ≡ ok (role_of (n + 1) v)
    after-new =
        let (_, all) = put-role n v db valid in
        ground (arith, all (put_uint64 (n + 1)), ==_refl (put_uint64 (n + 1)))

    pub after-old :
        (id : ℕ)
        → id < 2 ^ 64
        → id ≢ n + 1
        → store.roles.one (put_uint64 id) (after n v db) ≡ store.roles.one (put_uint64 id) db
    after-old id small' differs =
        let (_, all) = put-role n v db valid in
        let fits : lawful.last db + 1 < 2 ^ 64 = omega (arith, numbered.counted) in
        let (_, _, same) = lawful.next_val-next db fits in
        elim (Bool-cases (put_uint64 id == put_uint64 (n + 1))) [
          | inl equal ↦ absurd (
              differs (
                put_uint64-injective id (n + 1) small' small
                  ((==_iff (put_uint64 id) (put_uint64 (n + 1))).0 equal)))
          | inr other ↦ ground (arith, all (put_uint64 id), other, same (put_uint64 id))
        ]

    pub after-Numbered : Numbered (n + 1) (after n v db)
    after-Numbered =
        let fits : lawful.last db + 1 < 2 ^ 64 = omega (arith, numbered.counted) in
        let (_, up, _) = lawful.next_val-next db fits in
        record {
          counted =
              lawful.last-put (put_uint64 (n + 1)) (role_of (n + 1) v)
                (store.role_seq.next_val db).1
              ∙ up
              ∙ ap (λ (m : ℕ). m + 1) numbered.counted;
          stored_iff = λ id small'. elim (Bool-cases (eqb id (n + 1))) [
            | inl same ↦
                let equal : id ≡ n + 1 = ground (arith, same) in
                (
                  λ _. (omega arith, omega arith),
                  λ _. (
                    role_of (n + 1) v,
                    ap (λ (m : ℕ). store.roles.one (put_uint64 m) (after n v db)) equal ∙ after-new,
                  ),
                )
            | inr other ↦
                let old = after-old id small' (λ e. ground arith) in
                let iff = numbered.stored_iff id small' in
                (
                  λ (r, found).
                      let (positive, below) = iff.0 (r, sym old ∙ found) in (positive, omega arith),
                  λ (positive, below).
                      let (r, found) = iff.1 (positive, ground arith) in (r, old ∙ found),
                )
          ];
        }
