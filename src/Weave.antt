-- ===== src/Weave.antt =====
-- What the code uses of github.com/iov-one/weave, which is not part of the repository: the errors,
-- conditions and addresses (`Weave`) and the buckets of the object store (`ModelBucket`,
-- `Bucket`). All are parameters of the model. What their documentation promises is stated by
-- the records in `Weave/Laws`.

pub mod Laws
pub mod Sample
use grafain.Prelude.{
  ◌≡◌, ◌≢◌, arith, refl, ◌⊎◌, inl, inr, ℕ, Bool, Option, none, some, List, ◌++◌, Bytes, length,
  take, drop, replicate, leb, if◌then◌else◌,
}
use Prim.Native.String.{String}

-- The registered errors of weave/errors that the source names.
pub data Kind : Type 0 where
  err_empty err_input err_not_found err_unauthorized err_human err_duplicate err_type : Kind

-- A non-nil Go error: a registered one, or any other value (a wrapped one, one of another library).
-- A run-time panic is an error too: the `utils.NewRecovery` decorator of the stack turns it into one.
pub data Error : Type 0 where
  registered : Kind → Error
  other : ℕ → Error
  panic : Error

pub data Result {ℓ} (A : Type ℓ) : Type ℓ where
  ok : A → Result A
  err : Error → Result A

infixl 5 ◌>>=◌
abbrev pub ◌>>=◌ {ℓ κ} : {A : Type ℓ} {B : Type κ} → Result A → (A → Result B) → Result B
ok a >>= f = f a
err e >>= f = err e

pub ok-injective {ℓ} : {A : Type ℓ} {a b : A} → ok a ≡ ok b → a ≡ b
ok-injective e = cc

pub Result-cases {ℓ} :
    {A : Type ℓ} (r : Result A) → ((a : A) × (r ≡ ok a)) ⊎ ((e : Error) × (r ≡ err e))
Result-cases (ok a) = inl (a, refl)
Result-cases (err e) = inr (e, refl)

-- `return a, err` of Go, as a caller reads it that looks at the error first.
abbrev pub returned {ℓ} : {A : Type ℓ} → A → Option Error → Result A
returned a none = ok a
returned a (some e) = err e

-- `return nil, err` of Go, of a nil pointer: with a nil error the caller runs into the pointer.
abbrev pub failed {ℓ} : {A : Type ℓ} → Option Error → Result A
failed none = err panic
failed (some e) = err e

pub failed-ok {ℓ} : {A : Type ℓ} (e : Option Error) {a : A} → failed e ≢ ok a
failed-ok none h = ground arith
failed-ok (some e) h = ground arith

-- `weave.Metadata` of the protocol definition.
pub record Metadata : Type 0 where
  pub schema : ℕ

-- Functions of weave and weave/errors. A nil error is `none`; of a message only the format is kept.
pub record Weave : Type 0 where
  pub wrap : Option Error → String → Option Error
  pub is : Kind → Option Error → Bool
  pub append : Option Error → Option Error → Option Error
  pub append_field : Option Error → String → Option Error → Option Error
  pub field : String → Error → String → Error
  pub redact : Error → Error
  pub new_condition : Bytes → Bytes → Bytes → Bytes
  pub address : Bytes → Bytes
  pub metadata_validate : Option Metadata → Option Error
  pub address_validate : Bytes → Option Error
  pub address_length : ℕ
  pub address_equals : Bytes → Bytes → Bool

-- `x.Authenticator`: who has signed, by the context.
pub record Authenticator (C : Type 0) : Type 0 where
  pub get_conditions : C → List Bytes
  pub has_address : C → Bytes → Bool

-- `make([]byte, n)` of Go
abbrev pub make_bytes : ℕ → Bytes
make_bytes n = replicate n 0

-- `copy(dst, src)` of Go: what fits is overwritten, the length stays.
unfoldable pub copy : Bytes → Bytes → Bytes
copy dst src = take (length dst) src ++ drop (length src) dst

-- `s[n:]` of Go
unfoldable pub slice_from : ℕ → Bytes → Result Bytes
slice_from n s = if leb n (length s) then ok (drop n s) else err panic

-- An operation on the key value store: its result, and the store that it leaves, also on an error.
abbrev pub Exec : Type 0 → Type 0 → Type 0
Exec DB A = DB → Result A × DB

-- `orm.ModelBucket`: typed values under binary keys. `has` returns nil for a key that is there.
pub record ModelBucket (DB M : Type 0) : Type 0 where
  pub one : Bytes → DB → Result M
  pub has : Bytes → DB → Option Error
  pub put : Bytes → M → Exec DB Bytes
  pub delete : Bytes → Exec DB Unit
  pub by_index : String → Bytes → DB → Result (List Bytes × List M)

-- `orm.Bucket`, as far as role bindings use it: the keys of a prefix scan, a write, the raw key.
pub record Bucket (DB M : Type 0) : Type 0 where
  pub query_prefix : Bytes → DB → Result (List (Bytes × M))
  pub save : Bytes → M → Exec DB Unit
  pub db_key : Bytes → Bytes

-- `orm.Sequence`
pub record Sequence (DB : Type 0) : Type 0 where
  pub next_val : Exec DB Bytes

-- The part of `weave.CheckResult` that the code reads or writes; gas as int64 bit patterns.
pub record CheckResult : Type 0 where
  pub gas_allocated : ℕ
  pub gas_payment : ℕ

-- The part of `weave.DeliverResult` that the code reads or writes.
pub record DeliverResult : Type 0 where
  pub content : Bytes
