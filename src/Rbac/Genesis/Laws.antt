-- ===== src/Rbac/Genesis/Laws.antt =====
-- What the initializer of pkg/rbac relies on of the buckets, and the test for a stored role.
use grafain.Prelude.{
  ℕ, ◌+◌, ◌^◌, ◌<◌, ◌≡◌, ◌≢◌, refl, ◌∙◌, ap, ◌⊎◌, inl, inr, true, false, some, List, [], ◌∷◌, map,
  Bytes, All, arith, Option-cases, length,
}
use grafain.Prelude.BigEndian.{put_uint64, uint64, uint64-put_uint64, length-put_uint64}
use grafain.Weave.{Weave, Error, registered, err_human, err_not_found, ok, Result-cases}
use grafain.Weave.Laws.{IsWeave, IsModelBucket}
use grafain.Rbac.Model.{Role, role_validate}
use grafain.Rbac.Genesis.{Store, encode_id_key, role_keys}

-- The bucket of roles is a map, whose migration leaves a role of the current schema as it is. The
-- sequence counts up from its last number and gives it in eight bytes; roles that are stored under a
-- given key do not touch it, nor does it touch the roles.
pub record IsRoleStore ⦃W : Weave⦄ {DB : Type 0} (store : Store DB) : Type 0 where
  pub upgrade : Role → Role
  pub current : (r : Role) → r.metadata ≡ some (record { schema = 1 }) → upgrade r ≡ r
  pub roles : IsModelBucket W role_validate upgrade store.roles
  pub last : DB → ℕ
  pub next_val-next :
      (db : DB)
      → last db + 1 < 2 ^ 64
      → ((store.role_seq.next_val db).0 ≡ ok (put_uint64 (last db + 1)))
        × (last (store.role_seq.next_val db).1 ≡ last db + 1)
        × ((k : Bytes) → store.roles.one k (store.role_seq.next_val db).1 ≡ store.roles.one k db)
  pub last-put : (k : Bytes) (r : Role) (db : DB) → last (store.roles.put k r db).1 ≡ last db

pub put_uint64-injective : (m n : ℕ) → m < 2 ^ 64 → n < 2 ^ 64 → put_uint64 m ≡ put_uint64 n → m ≡ n
put_uint64-injective m n small small' same =
    let m' = uint64-put_uint64 m small in
    let n' = uint64-put_uint64 n small' in let read = ap uint64 same in ground (arith, m', n', read)

pub put_uint64-named : (n : ℕ) → put_uint64 n ≢ []
put_uint64-named n empty =
    absurd (omega (arith, length-put_uint64 n, ap (λ (s : Bytes). length s) empty))

module _ ⦃W : Weave⦄ (weave : IsWeave W) {DB : Type 0} (store : Store DB)
    (lawful : IsRoleStore store) where
  -- a role is stored under the number
  abbrev pub HasRole : DB → ℕ → Type 0
  HasRole db id = (r : Role) × (store.roles.one (put_uint64 id) db ≡ ok r)

  -- the test that the initializer makes for a role
  pub has-HasRole :
      (id : ℕ) (db : DB)
      → (HasRole db id × (W.is err_not_found (store.roles.has (encode_id_key id) db) ≡ false))
        ⊎ ((¬ HasRole db id) × (W.is err_not_found (store.roles.has (encode_id_key id) db) ≡ true))
  unfolding encode_id_key
  has-HasRole id db = elim (Result-cases (store.roles.one (put_uint64 id) db)) [
    | inl (r, found) ↦
        let there = lawful.roles.has-found (put_uint64 id) db found in
        inl ((r, found), ap (λ e. W.is err_not_found e) there ∙ weave.is-none err_not_found)
    | inr (e, missing) ↦
        let gone = lawful.roles.has-missing (put_uint64 id) db missing in
        inr (λ (r, found). absurd (ground arith), gone)
  ]

  pub role_keys-cases :
      (ids : List ℕ) (db : DB)
      → (All (HasRole db) ids × (role_keys store ids db ≡ inr (map put_uint64 ids)))
        ⊎ ((¬ All (HasRole db) ids) × ((e : Error) × (role_keys store ids db ≡ inl (some e))))
  unfolding role_keys encode_id_key
  role_keys-cases [] db = inl (tt, refl)
  role_keys-cases (id ∷ ids) db = elim (has-HasRole id db) [
    | inr (missing, tested) ↦
        elim (Option-cases (
          W.wrap (some (registered err_human))
            "Role dependency not exists: id %d required for %q")) [
              | inl nil ↦ absurd (weave.wrap-some _ _ nil)
              | inr (e, stops) ↦ inr (λ (there, _). missing there, (e, ground arith))
            ]
    | inl (there, tested) ↦ elim (role_keys-cases ids db) [
      | inl (all, keys) ↦ inl ((there, all), ground arith)
      | inr (none', (e, stops)) ↦ inr (λ (_, all). none' all, (e, ground arith))
    ]
  ]
