-- ===== src/Cli/Keys.antt =====
-- Ids and keys of queries, in cmd/grafaincli/cmd_query.go: how the id that is typed in is encoded, and
-- how a key of the store is printed. Versioned ids are marshalled by weave's orm, and addresses are
-- parsed and printed by weave: these are parameters.
use grafain.Prelude.{
  ℕ, ◌+◌, ◌-◌, ◌^◌, ◌<◌, ◌≡◌, ◌≢◌, refl, ap, ◌∙◌, Option, none, some, [], ◌∷◌, ◌++◌, Bytes, length,
  take, drop, take-append_length, drop-append_length, length-append, eqb, ltb, split, All, arith,
  subst, if◌then◌else◌,
}
use grafain.Prelude.BigEndian.{put_uint64, uint64, uint64-put_uint64, length-put_uint64}
use grafain.Prelude.Decimal.{parse_uint, print_uint}
use grafain.Prelude.Hex.{hex_encode}
use grafain.Weave.{Weave}
use grafain.Rbac.Bindings.{build_key, new_binding}
use grafain.Rbac.Bindings.Key.{build_key-splits}
use grafain.Cli.Sequence.{split_colon}

-- `withoutDBPrefix`
unfoldable pub without_db_prefix : Bytes → Bytes
without_db_prefix raw = elim (split_colon raw).1 [ none ↦ raw | some rest ↦ rest ]

-- `stringID`
unfoldable pub string_id : Bytes → Option Bytes
string_id s = some s

-- `numericID`
unfoldable pub numeric_id : Bytes → Option Bytes
numeric_id s = elim (parse_uint s) [ none ↦ none | some n ↦ some (put_uint64 n) ]

-- `strconv.ParseUint(s, 10, 32)`
unfoldable pub parse_uint32 : Bytes → Option ℕ
parse_uint32 s = elim (parse_uint s) [
  | none ↦ none
  | some n ↦ if ltb n (2 ^ 32) then some n else none
]

-- the id of `refID`, with the version that has been read; `marshal` is `orm.MarshalVersionedID`
unfoldable pub versioned_id : (Bytes → ℕ → Bytes) → Bytes → ℕ → Option Bytes
versioned_id marshal s version = elim (parse_uint s) [
  | none ↦ none
  | some n ↦ some (if eqb version 0 then put_uint64 n else marshal (put_uint64 n) version)
]

-- `refID`
unfoldable pub ref_id : (Bytes → ℕ → Bytes) → Bytes → Option Bytes
ref_id marshal s = elim (split b'/' s) [
  | id ∷ [] ↦ versioned_id marshal id 0
  | id ∷ version ∷ [] ↦ elim (parse_uint32 version) [
    | none ↦ none
    | some v ↦ versioned_id marshal id v
  ]
  | _ ↦ none
]

-- `refKey`; `unmarshal` is `orm.UnmarshalVersionedID`
unfoldable pub ref_key : (Bytes → Option (Bytes × ℕ)) → Bytes → Option Bytes
ref_key unmarshal raw = elim (unmarshal (without_db_prefix raw)) [
  | none ↦ none
  | some (id, version) ↦ elim (uint64 id) [
    | none ↦ none
    | some n ↦ some (print_uint n ++ (b'/' ∷ print_uint version))
  ]
]

-- `fmt.Sprint(int64(n))`
unfoldable pub print_int64 : ℕ → Bytes
print_int64 n = if ltb n (2 ^ 63) then print_uint n else b'-' ∷ print_uint (2 ^ 64 - n)

-- `sequenceKey`
unfoldable pub sequence_key : Bytes → Option Bytes
sequence_key raw =
    if eqb (length (without_db_prefix raw)) 8
    then elim (uint64 (without_db_prefix raw)) [ none ↦ none | some n ↦ some (print_int64 n) ]
    else none

-- `hexKey`
unfoldable pub hex_key : Bytes → Option Bytes
hex_key raw = some (hex_encode (without_db_prefix raw))

-- `stringKey`
unfoldable pub string_key : Bytes → Option Bytes
string_key raw = some (without_db_prefix raw)

-- `roleBindingKey`; `address_string` is the `String` of a weave address
unfoldable pub role_binding_key : ⦃W : Weave⦄ → (Bytes → Bytes) → Bytes → Option Bytes
role_binding_key ⦃W⦄ address_string raw =
    let val = without_db_prefix raw in
    if eqb (length val) (W.address_length + 8)
    then elim (uint64 (drop W.address_length val)) [
      | none ↦ none
      | some id ↦ some (address_string (take W.address_length val) ++ (b'/' ∷ print_uint id))
    ]
    else none

split_colon-append :
    (name t : Bytes) → All (λ c. c ≢ b':') name → (split_colon (name ++ b':' ∷ t)).1 ≡ some t
unfolding split_colon
split_colon-append [] t h = refl
split_colon-append (c ∷ name) t (differs, h) = ground (arith, split_colon-append name t h)

-- The key of a role binding, behind the name of its bucket, is printed as its address and the number
-- of its role.
pub role_binding_key-build_key :
    ⦃W : Weave⦄ (address_string : Bytes → Bytes) (name signature : Bytes) (n : ℕ)
    → All (λ c. c ≢ b':') name
    → length signature ≡ W.address_length
    → n < 2 ^ 64
    → role_binding_key address_string
        (name ++ b':' ∷ build_key (new_binding (put_uint64 n) signature))
      ≡ some (address_string signature ++ (b'/' ∷ print_uint n))
unfolding role_binding_key without_db_prefix
role_binding_key-build_key ⦃W⦄ address_string name signature n plain full small =
    let key = build_key-splits (put_uint64 n) signature full (length-put_uint64 n) in
    let behind : (split_colon (name ++ b':' ∷ build_key (new_binding (put_uint64 n) signature))).1
        ≡ some (signature ++ put_uint64 n) =
      split_colon-append name (build_key (new_binding (put_uint64 n) signature)) plain
      ∙ ap some key in
    let front : take W.address_length (signature ++ put_uint64 n) ≡ signature =
      subst (λ (m : ℕ). take m (signature ++ put_uint64 n) ≡ signature) full
        (take-append_length signature (put_uint64 n)) in
    let back : drop W.address_length (signature ++ put_uint64 n) ≡ put_uint64 n =
      subst (λ (m : ℕ). drop m (signature ++ put_uint64 n) ≡ put_uint64 n) full
        (drop-append_length signature (put_uint64 n)) in
    ground (
      arith,
      behind,
      front,
      back,
      uint64-put_uint64 n small,
      length-append signature (put_uint64 n),
      length-put_uint64 n,
    )
