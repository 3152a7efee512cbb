-- ===== src/Rbac/Bindings/Find.antt =====
-- The role ids that are found for an address are those that were bound to it.
use mathlib.Core.List.Memᴰ
use mathlib.Core.List.{append_assoc}
use mathlib.Core.Path.{ap₂}
use grafain.Prelude.{
  ℕ, ◌+◌, ◌≤◌, ◌≡◌, refl, sym, ◌∙◌, ap, subst, ◌↔◌, ◌⊎◌, inl, inr, true, List, [], ◌∷◌, ◌++◌, Bytes,
  length, drop, arith, Memᴰ, Memᴰ-nil, length-append, drop-append_length, has_prefix,
  has_prefix_iff, has_prefix-append,
}
use grafain.Weave.{Weave, ok, Bucket, slice_from, ok-injective}
use grafain.Weave.Laws.{IsBucket}
use grafain.Rbac.Model.{RoleBinding}
use grafain.Rbac.Bindings.{build_key, new_binding, create, cut_keys, find_role_ids_by_address}
use grafain.Rbac.Bindings.Key.{build_key-splits}

-- Keys that are long enough are all cut, and each cut key comes from a model.
cut_keys_lem :
    (n : ℕ) (models : List (Bytes × RoleBinding))
    → ((key : Bytes) (m : RoleBinding) → Memᴰ (key, m) models → n ≤ length key)
    → (ids : List Bytes) × (cut_keys n models ≡ ok ids)
      × ((id : Bytes)
          → Memᴰ id ids
            ↔ ((key : Bytes) × (m : RoleBinding) × Memᴰ (key, m) models × (id ≡ drop n key)))
unfolding cut_keys slice_from
cut_keys_lem n [] long =
    ([], refl, λ id. (λ i. absurd (Memᴰ-nil id i), λ (key, m, i, _). absurd (Memᴰ-nil _ i)))
cut_keys_lem n ((key, m) ∷ models) long =
    let (ids, e, same) = cut_keys_lem n models (λ k r i. long k r (Memᴰ.tail i)) in
    let fits : n ≤ length key = long key m (Memᴰ.head refl) in
    (
      drop n key ∷ ids,
      ground arith,
      λ id. (
        λ i. elim (Memᴰ.cases_cons i) [
          | inl first ↦ (key, m, Memᴰ.head refl, first)
          | inr i' ↦ let (k, r, j, cut) = (same id).0 i' in (k, r, Memᴰ.tail j, cut)
        ],
        λ (k, r, j, cut). elim (Memᴰ.cases_cons j) [
          | inl first ↦ Memᴰ.head (cut ∙ ap (λ (x : Bytes × RoleBinding). drop n x.0) first)
          | inr j' ↦ Memᴰ.tail ((same id).1 (k, r, j', cut))
        ],
      ),
    )

append_cancel :
    (a b : Bytes) {s t : Bytes} → length a ≡ length b → a ++ s ≡ b ++ t → (a ≡ b) × (s ≡ t)
append_cancel [] [] h e = (refl, e)
append_cancel [] (b ∷ bs) h e = absurd (omega arith)
append_cancel (a ∷ s) [] h e = absurd (omega arith)
append_cancel (a ∷ as') (b ∷ bs) {s = x} {t = y} h e =
    let tails : as' ++ x ≡ bs ++ y = cc in
    let heads : a ≡ b = cc in
    let same : (as' ≡ bs) × (x ≡ y) = append_cancel as' bs (omega arith) tails in
    (ap₂ ◌∷◌ heads same.0, same.1)

module _ ⦃W : Weave⦄ {DB : Type 0} (bindings : Bucket DB RoleBinding)
    (lawful : IsBucket bindings) where
  -- a key that a scan by an address finds is the bucket's name, the address and the role id
  found_key :
      (a : Bytes) (db : DB) {models : List (Bytes × RoleBinding)}
      → bindings.query_prefix a db ≡ ok models
      → (key : Bytes) (m : RoleBinding) → Memᴰ (key, m) models
      → (id : Bytes) × (key ≡ (bindings.db_key [] ++ a) ++ id)
  found_key a db found key m i =
      let (k, e, fits) = lawful.query_prefix-key a db found key m i in
      let (id, split) = (has_prefix_iff k a).0 fits in
      (
        id,
        e
            ∙ lawful.db_key-eq k
            ∙ ap (λ (r : Bytes). bindings.db_key [] ++ r) split
            ∙ sym (append_assoc (bindings.db_key []) a id),
      )

  cut :
      (a id : Bytes)
      → length a ≡ W.address_length
      → drop (length (bindings.db_key []) + W.address_length) ((bindings.db_key [] ++ a) ++ id) ≡ id
  cut a id full =
      let e : length (bindings.db_key []) + W.address_length ≡ length (bindings.db_key [] ++ a) =
        omega (arith, length-append (bindings.db_key []) a) in
      rw e (drop-append_length (bindings.db_key [] ++ a) id)

  db_key-append : (a id : Bytes) → bindings.db_key (a ++ id) ≡ (bindings.db_key [] ++ a) ++ id
  db_key-append a id = lawful.db_key-eq (a ++ id) ∙ sym (append_assoc (bindings.db_key []) a id)

  -- The keys of the models and the role ids behind the address say the same.
  cut_iff :
      (a : Bytes) (db : DB) {models : List (Bytes × RoleBinding)}
      → length a ≡ W.address_length
      → bindings.query_prefix a db ≡ ok models
      → (id : Bytes)
      → ((key : Bytes) × (m : RoleBinding) × Memᴰ (key, m) models
          × (id ≡ drop (length (bindings.db_key []) + W.address_length) key))
        ↔ ((m : RoleBinding) × Memᴰ (bindings.db_key (a ++ id), m) models)
  cut_iff a db {models} full found id = (
    λ (key, m, i, e).
        let (id', split) = found_key a db found key m i in
        let same : id ≡ id' =
          e ∙ ap (drop (length (bindings.db_key []) + W.address_length)) split ∙ cut a id' full in
        let key_eq : key ≡ bindings.db_key (a ++ id) =
          split
          ∙ sym (db_key-append a id')
          ∙ ap (λ (r : Bytes). bindings.db_key (a ++ r)) (sym same) in
        (m, subst (λ (k : Bytes). Memᴰ (k, m) models) key_eq i),
    λ (m, i). (
      bindings.db_key (a ++ id),
      m,
      i,
      sym (
          ap (drop (length (bindings.db_key []) + W.address_length)) (db_key-append a id)
          ∙ cut a id full),
    ),
  )

  found_long :
      (a : Bytes) (db : DB) {models : List (Bytes × RoleBinding)}
      → length a ≡ W.address_length
      → bindings.query_prefix a db ≡ ok models
      → (key : Bytes) (m : RoleBinding) → Memᴰ (key, m) models
      → length (bindings.db_key []) + W.address_length ≤ length key
  found_long a db full found key m i =
      let (id, split) = found_key a db found key m i in
      omega (
        arith,
        ap (λ (k : Bytes). length k) split,
        length-append (bindings.db_key [] ++ a) id,
        length-append (bindings.db_key []) a,
      )

  -- For a whole address the search does not panic, and finds the ids that stand behind the
  -- address in the keys of the stored bindings.
  pub find_role_ids-returns :
      (a : Bytes) (db : DB) {models : List (Bytes × RoleBinding)}
      → length a ≡ W.address_length
      → bindings.query_prefix a db ≡ ok models
      → (ids : List Bytes) × (find_role_ids_by_address bindings db a ≡ ok ids)
        × ((id : Bytes)
            → Memᴰ id ids ↔ ((m : RoleBinding) × Memᴰ (bindings.db_key (a ++ id), m) models))
  unfolding find_role_ids_by_address
  find_role_ids-returns a db {models} full found =
      let (ids, e, same) =
        cut_keys_lem (length (bindings.db_key []) + W.address_length) models
          (found_long a db full found) in
      let iff = cut_iff a db full found in
      (ids, ground arith, λ id. (λ i. (iff id).0 ((same id).0 i), λ m. (same id).1 ((iff id).1 m)))

  -- the key of a new binding, as a search by `a` reads it
  new_key_iff :
      (role_id signature a id : Bytes)
      → length role_id ≡ 8
      → length signature ≡ W.address_length
      → length a ≡ W.address_length
      → ((bindings.db_key (a ++ id) ≡ bindings.db_key (build_key (new_binding role_id signature)))
          × (has_prefix (build_key (new_binding role_id signature)) a ≡ true))
        ↔ ((id ≡ role_id) × (a ≡ signature))
  new_key_iff role_id signature a id eight full full' =
      rw (build_key-splits role_id signature full eight) (
        λ (e, _).
            let (same, rest) =
              append_cancel (bindings.db_key []) (bindings.db_key []) refl
                (sym (lawful.db_key-eq (a ++ id)) ∙ e ∙ lawful.db_key-eq (signature ++ role_id)) in
            let (same_a, same_id) = append_cancel a signature (full' ∙ sym full) rest in
            (same_id, same_a),
        λ (same_id, same_a). rw (same_id, same_a) (refl, has_prefix-append signature role_id),
      )

  -- A new binding is found under its address, and nowhere else; the others are found as before.
  pub find_role_ids-create :
      (role_id signature a : Bytes) (db : DB) {key : Bytes} {ids : List Bytes}
      {models : List (Bytes × RoleBinding)}
      → length role_id ≡ 8
      → length signature ≡ W.address_length
      → length a ≡ W.address_length
      → (create bindings role_id signature db).0 ≡ ok key
      → bindings.query_prefix a db ≡ ok models
      → find_role_ids_by_address bindings db a ≡ ok ids
      → (ids' : List Bytes) × (find_role_ids_by_address bindings
            (create bindings role_id signature db).1
            a
          ≡ ok ids')
        × ((id : Bytes) → Memᴰ id ids' ↔ (Memᴰ id ids ⊎ ((id ≡ role_id) × (a ≡ signature))))
  unfolding create
  find_role_ids-create role_id signature a db {ids} {models} eight full full' saved found before =
      let new = new_binding role_id signature in
      let written : (bindings.save (build_key new) new db).0 ≡ ok tt = ground arith in
      let (models', found', models_iff) =
        lawful.query_prefix-save (build_key new) a new db written found in
      let (ids', e', iff') =
        find_role_ids-returns a (bindings.save (build_key new) new db).1 full' found' in
      let (ids₀, e₀, iff) = find_role_ids-returns a db full' found in
      let same : ids₀ ≡ ids = ok-injective (sym e₀ ∙ before) in
      (
        ids',
        e',
        λ id.
            let key_iff = new_key_iff role_id signature a id eight full full' in
            (
              λ i. elim ((models_iff (bindings.db_key (a ++ id))).0 ((iff' id).0 i)) [
                | inl old ↦ inl (subst (Memᴰ id) same ((iff id).1 old))
                | inr fresh ↦ inr (key_iff.0 fresh)
              ],
              λ d. (iff' id).1 (
                  (models_iff (bindings.db_key (a ++ id))).1 (elim d [
                    | inl old ↦ inl ((iff id).0 (subst (Memᴰ id) (sym same) old))
                    | inr fresh ↦ inr (key_iff.1 fresh)
                  ])),
            ),
      )
