-- ===== src/Weave/Laws.antt =====
-- What the documentation of weave promises, as far as a theorem relies on it.
use Prim.Native.String.{String}
use grafain.Prelude.{
  ◌≡◌, ◌≢◌, ◌↔◌, ◌⊎◌, true, false, Option, none, some, List, [], ◌++◌, Bytes, ◌==◌, Memᴰ,
  has_prefix, if◌then◌else◌,
}
use grafain.Weave.{Kind, Error, registered, err_not_found, ok, err, Weave, Bucket, ModelBucket}

-- Wrapping keeps nil and the registered error within; joined errors are nil if all parts are;
-- Redact keeps registered errors.
pub record IsWeave (W : Weave) : Type 0 where
  pub wrap-none : (text : String) → W.wrap none text ≡ none
  pub wrap-some : (e : Error) (text : String) → W.wrap (some e) text ≢ none
  pub is-wrap : (k : Kind) (e : Option Error) (text : String) → W.is k (W.wrap e text) ≡ W.is k e
  pub is-none : (k : Kind) → W.is k none ≡ false
  pub is-registered : (k : Kind) → W.is k (some (registered k)) ≡ true
  pub redact-registered : (k : Kind) → W.redact (registered k) ≡ registered k
  pub append-none_iff : (a b : Option Error) → (W.append a b ≡ none) ↔ ((a ≡ none) × (b ≡ none))
  pub append_field-none_iff :
      (a : Option Error) (name : String) (b : Option Error)
      → (W.append_field a name b ≡ none) ↔ ((a ≡ none) × (b ≡ none))
  pub address_equals_iff : (a b : Bytes) → (W.address_equals a b ≡ true) ↔ (a ≡ b)

-- A bucket puts its name before each key; a scan finds the saved keys that begin with a prefix.
pub record IsBucket {DB M : Type 0} (B : Bucket DB M) : Type 0 where
  pub db_key-eq : (k : Bytes) → B.db_key k ≡ B.db_key [] ++ k
  -- the models are found by a prefix of their key
  pub query_prefix-key :
      (p : Bytes) (db : DB) {models : List (Bytes × M)}
      → B.query_prefix p db ≡ ok models
      → (key : Bytes) (m : M) → Memᴰ (key, m) models
      → (k : Bytes) × (key ≡ B.db_key k) × (has_prefix k p ≡ true)
  -- after a write a scan finds what it found, and the new model where the prefix fits
  pub query_prefix-save :
      (k p : Bytes) (m : M) (db : DB) {models : List (Bytes × M)}
      → (B.save k m db).0 ≡ ok tt
      → B.query_prefix p db ≡ ok models
      → (models' : List (Bytes × M)) × (B.query_prefix p (B.save k m db).1 ≡ ok models')
        × ((key : Bytes)
            → ((n : M) × Memᴰ (key, n) models')
              ↔ (((n : M) × Memᴰ (key, n) models) ⊎ ((key ≡ B.db_key k) × (has_prefix k p ≡ true))))

-- A model bucket is a map. `validate` is the model's check, `upgrade` what the schema migration
-- makes of a model that is written.
pub record IsModelBucket {DB M : Type 0} (W : Weave) (validate : M → Option Error) (upgrade : M → M)
    (B : ModelBucket DB M) : Type 0 where
  -- `One` fails with ErrNotFound or finds the model
  pub one-missing :
      (k : Bytes) (db : DB) (e : Error) → B.one k db ≡ err e → W.is err_not_found (some e) ≡ true
  -- `Has` is nil for a key that is there, and ErrNotFound for any other
  pub has-found : (k : Bytes) (db : DB) {m : M} → B.one k db ≡ ok m → B.has k db ≡ none
  pub has-missing :
      (k : Bytes) (db : DB) {e : Error}
      → B.one k db ≡ err e
      → W.is err_not_found (B.has k db) ≡ true
  -- a valid model is written under a given key, an invalid one is refused and nothing is written
  pub put-valid :
      (k : Bytes) (m : M) (db : DB)
      → k ≢ []
      → validate (upgrade m) ≡ none
      → ((B.put k m db).0 ≡ ok k)
        × ((j : Bytes) → B.one j (B.put k m db).1 ≡ (if j == k then ok (upgrade m) else B.one j db))
  pub put-invalid :
      (k : Bytes) (m : M) (db : DB)
      → validate (upgrade m) ≢ none
      → ((e : Error) × ((B.put k m db).0 ≡ err e)) × ((B.put k m db).1 ≡ db)
  pub delete-found :
      (k : Bytes) (db : DB) {m : M}
      → B.one k db ≡ ok m
      → ((B.delete k db).0 ≡ ok tt)
        × ((j : Bytes) → (j ≢ k → B.one j (B.delete k db).1 ≡ B.one j db))
        × ((e : Error) × (B.one k (B.delete k db).1 ≡ err e))
