-- ===== src/Weave/Sample.antt =====
-- A small weave over lists in memory, at which theorems and tests are run. It meets the laws.
use mathlib.Core.List.Memᴰ
use mathlib.Core.List.{append_assoc, append-nil}
use grafain.Prelude.{
  ℕ, ◌≡◌, refl, sym, ◌∙◌, ap, subst, ◌≢◌, ◌↔◌, ◌⊎◌, inl, inr, Bool, true, false, Option, none, some,
  List, [], ◌∷◌, ◌++◌, Bytes, ◌==◌, ==_iff, codes, length, eqb, arith, Memᴰ, Memᴰ-cons, Memᴰ-nil,
  if◌then◌else◌, has_prefix, has_prefix_iff, has_prefix-cons, has_prefix-append, Bool-cases,
  Option-cases,
}
use grafain.Weave.{
  Kind, err_empty, err_input, err_not_found, err_unauthorized, err_human, err_duplicate, err_type,
  Error, registered, other, panic, Result, ok, err, Weave, Bucket, ModelBucket, make_bytes, copy,
  ok-injective,
}
use grafain.Weave.Laws.{IsWeave, IsBucket, IsModelBucket}

abbrev number : Kind → ℕ
number err_empty = 0
number err_input = 1
number err_not_found = 2
number err_unauthorized = 3
number err_human = 4
number err_duplicate = 5
number err_type = 6

abbrev pub same_kind : Kind → Option Error → Bool
same_kind k none = false
same_kind k (some (registered j)) = eqb (number k) (number j)
same_kind k (some (other n)) = false
same_kind k (some panic) = false

abbrev pub first_error : Option Error → Option Error → Option Error
first_error none b = b
first_error (some e) b = some e

instance abbrev pub sample_weave : Weave
sample_weave = record {
  wrap = λ e text. e;
  is = same_kind;
  append = first_error;
  append_field = λ a name b. first_error a b;
  field = λ name e text. e;
  redact = λ e. e;
  new_condition = λ a b c. a ++ (codes "/" ++ (b ++ (codes "/" ++ c)));
  address = copy (make_bytes 20);
  metadata_validate = λ m. elim m [
    | none ↦ some (other 0)
    | some d ↦ if eqb d.schema 0 then some (other 0) else none
  ];
  address_validate = λ a. if eqb (length a) 20 then none else some (registered err_input);
  address_length = 20;
  address_equals = λ a b. a == b;
}

pub sample_weave-IsWeave : IsWeave sample_weave
sample_weave-IsWeave = record {
  wrap-none = λ text. refl;
  wrap-some = λ e text h. cc;
  is-wrap = λ k e text. refl;
  is-none = λ k. refl;
  is-registered = λ k. ground arith;
  redact-registered = λ k. refl;
  append-none_iff = λ a b. ground arith;
  append_field-none_iff = λ a name b. ground arith;
  address_equals_iff = ==_iff;
}

module _ {M : Type 0} where
  unfoldable pub lookup_model : Bytes → List (Bytes × M) → Result M
  lookup_model k [] = err (registered err_not_found)
  lookup_model k ((j, m) ∷ db) = if k == j then ok m else lookup_model k db

  unfoldable pub remove_model : Bytes → List (Bytes × M) → List (Bytes × M)
  remove_model k [] = []
  remove_model k ((j, m) ∷ db) =
      let rest = remove_model k db in if j == k then rest else (j, m) ∷ rest

  abbrev missing : Result M → Option Error
  missing (ok m) = none
  missing (err e) = some e

  -- a bucket with no index
  abbrev pub memory_bucket : (M → Option Error) → (M → M) → ModelBucket (List (Bytes × M)) M
  memory_bucket validate upgrade = record {
    one = lookup_model;
    has = λ k db. missing (lookup_model k db);
    put = λ k m db. elim (validate (upgrade m)) [
      | some e ↦ (err e, db)
      | none ↦ (ok k, (k, upgrade m) ∷ db)
    ];
    delete = λ k db. elim (lookup_model k db) [
      | err e ↦ (err e, db)
      | ok m ↦ (ok tt, remove_model k db)
    ];
    by_index = λ name k db. ok ([], []);
  }

  unfoldable pub scan : Bytes → List (Bytes × M) → List (Bytes × M)
  scan p [] = []
  scan p ((k, m) ∷ db) = let rest = scan p db in if has_prefix k p then (k, m) ∷ rest else rest

  abbrev pub prefix_bucket : Bytes → Bucket (List (Bytes × M)) M
  prefix_bucket name = record {
    query_prefix = λ p db. ok (scan (name ++ p) db);
    save = λ k m db. (ok tt, (name ++ k, m) ∷ db);
    db_key = λ k. name ++ k;
  }

has_prefix-cancel : (n k p : Bytes) → has_prefix (n ++ k) (n ++ p) ≡ has_prefix k p
has_prefix-cancel [] k p = refl
has_prefix-cancel (a ∷ n) k p = has_prefix-cons a (n ++ k) (n ++ p) ∙ has_prefix-cancel n k p

module _ {M : Type 0} where
  scan_iff :
      (p : Bytes) (db : List (Bytes × M)) (x : Bytes × M)
      → Memᴰ x (scan p db) ↔ (Memᴰ x db × (has_prefix x.0 p ≡ true))
  unfolding scan
  scan_iff p [] x = (λ m. absurd (Memᴰ-nil x m), λ (m, _). absurd (Memᴰ-nil x m))
  scan_iff p ((k, m) ∷ db) x = ground (
    arith,
    scan_iff p db x,
    Memᴰ-cons x (k, m) db,
    Memᴰ-cons x (k, m) (scan p db),
    ap (λ (y : Bytes × M). y.0),
  )

  scan_key :
      (name p : Bytes) (db : List (Bytes × M)) (x : Bytes × M)
      → Memᴰ x (scan (name ++ p) db)
      → (k : Bytes) × (x.0 ≡ name ++ k) × (has_prefix k p ≡ true)
  scan_key name p db x i =
      let (t, e) = (has_prefix_iff x.0 (name ++ p)).0 ((scan_iff (name ++ p) db x).0 i).1 in
      (p ++ t, e ∙ append_assoc name p t, has_prefix-append p t)

  scan_save :
      (name k p : Bytes) (m : M) (db : List (Bytes × M)) (key : Bytes)
      → ((n : M) × Memᴰ (key, n) (scan (name ++ p) ((name ++ k, m) ∷ db))) ↔ (
          ((n : M) × Memᴰ (key, n) (scan (name ++ p) db))
          ⊎ ((key ≡ name ++ k) × (has_prefix k p ≡ true)))
  scan_save name k p m db key = (
    λ (n, i).
        let (there, fits) = (scan_iff (name ++ p) ((name ++ k, m) ∷ db) (key, n)).0 i in
        elim (Memᴰ.cases_cons there) [
          | inl e ↦ inr (
            ap (λ (x : Bytes × M). x.0) e,
            sym (has_prefix-cancel name k p)
                ∙ ap (λ (r : Bytes × M). has_prefix r.0 (name ++ p)) (sym e)
                ∙ fits,
          )
          | inr old ↦ inl (n, (scan_iff (name ++ p) db (key, n)).1 (old, fits))
        ],
    λ d. elim d [
      | inl (n, i) ↦
          let (old, fits) = (scan_iff (name ++ p) db (key, n)).0 i in
          (n, (scan_iff (name ++ p) ((name ++ k, m) ∷ db) (key, n)).1 (Memᴰ.tail old, fits))
      | inr (e, fits) ↦ (
        m,
        (scan_iff (name ++ p) ((name ++ k, m) ∷ db) (key, m)).1 (
          Memᴰ.head (ap (λ (r : Bytes). (r, m)) e),
          ap (λ (r : Bytes). has_prefix r (name ++ p)) e ∙ has_prefix-cancel name k p ∙ fits,
        ),
      )
    ],
  )

  pub prefix_bucket-IsBucket : (name : Bytes) → IsBucket (prefix_bucket {M = M} name)
  prefix_bucket-IsBucket name = record {
    db_key-eq = λ k. ap (λ (r : Bytes). r ++ k) (sym (append-nil name));
    query_prefix-key = λ p db found key m i.
        scan_key name p db (key, m) (subst (Memᴰ (key, m)) (sym (ok-injective found)) i);
    query_prefix-save = λ k p m db saved found. (
      scan (name ++ p) ((name ++ k, m) ∷ db),
      refl,
      λ key. rw (← ok-injective found) (scan_save name k p m db key),
    );
  }

module _ {M : Type 0} where
  lookup_model-error :
      (k : Bytes) (db : List (Bytes × M)) (e : Error)
      → lookup_model k db ≡ err e
      → e ≡ registered err_not_found
  unfolding lookup_model
  lookup_model-error k [] e h = cc
  lookup_model-error k ((j, m) ∷ db) e h = elim (Bool-cases (k == j)) [
    | inl same ↦ absurd (ground arith)
    | inr differ ↦ lookup_model-error k db e (ground arith)
  ]

  lookup_model-remove :
      (k j : Bytes) (db : List (Bytes × M))
      → j ≢ k
      → lookup_model j (remove_model k db) ≡ lookup_model j db
  unfolding lookup_model remove_model
  lookup_model-remove k j [] h = refl
  lookup_model-remove k j ((i, m) ∷ db) h =
      ground (arith, lookup_model-remove k j db h, ==_iff i k, ==_iff j i)

  lookup_model-removed :
      (k : Bytes) (db : List (Bytes × M))
      → lookup_model k (remove_model k db) ≡ err (registered err_not_found)
  unfolding lookup_model remove_model
  lookup_model-removed k [] = refl
  lookup_model-removed k ((i, m) ∷ db) =
      ground (arith, lookup_model-removed k db, ==_iff i k, ==_iff k i)

  pub memory_bucket-IsModelBucket :
      (validate : M → Option Error) (upgrade : M → M)
      → IsModelBucket sample_weave validate upgrade (memory_bucket validate upgrade)
  memory_bucket-IsModelBucket validate upgrade = record {
    one-missing = λ k db e h. rw (lookup_model-error k db e h) refl;
    has-found = λ k db h. rw h refl;
    has-missing = λ k db {e} h. rw (h, lookup_model-error k db e h) refl;
    put-valid = λ k m db named valid. rw valid (refl, λ j. unfold lookup_model in refl);
    put-invalid = λ k m db bad. elim (Option-cases (validate (upgrade m))) [
      | inl good ↦ absurd (bad good)
      | inr (e, h) ↦ rw h ((e, refl), refl)
    ];
    delete-found = λ k db h.
        rw (h, memory_bucket)
          (
            refl,
            λ j differs. lookup_model-remove k j db differs,
            (registered err_not_found, lookup_model-removed k db),
          );
  }
