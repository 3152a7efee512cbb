-- ===== src/App/Store.antt =====
-- Where `CommitKVStore` of pkg/app/app.go opens the database. `filepath.Abs` and the last split into a
-- directory and a name are parameters.
use grafain.Prelude.{
  Bool, false, ◌&&◌, not, ◌||◌, Option, none, some, [], ◌∷◌, Bytes, length, eqb, if◌then◌else◌,
}

unfoldable pub has_slash : Bytes → Bool
has_slash [] = false
has_slash (c ∷ s) = eqb c b'/' || has_slash s

-- `filepath.Ext`: what stands before the last dot of the last element, and the extension from the dot
-- on
unfoldable pub split_ext : Bytes → Option (Bytes × Bytes)
split_ext [] = none
split_ext (c ∷ s) = elim (split_ext s) [
  | some (stem, ext) ↦ some (c ∷ stem, ext)
  | none ↦ if eqb c b'.' && not (has_slash s) then some ([], c ∷ s) else none
]

-- `strings.TrimSuffix(path, filepath.Ext(path))`
unfoldable pub trim_ext : Bytes → Bytes
trim_ext path = elim (split_ext path) [ none ↦ path | some (stem, ext) ↦ stem ]

-- The store that `CommitKVStore` returns: one in memory, or one in a directory under a name.
pub data CommitStore : Type 0 where
  mock_commit_store : CommitStore
  new_commit_store : Bytes → Bytes → CommitStore

-- `CommitKVStore`; `none` is an error
unfoldable pub commit_kv_store :
    (Bytes → Option Bytes) → (Bytes → Bytes) → (Bytes → Bytes) → Bytes → Option CommitStore
commit_kv_store abs dir base db_path =
    if eqb (length db_path) 0 then some mock_commit_store else elim (abs db_path) [
      | none ↦ none
      | some path ↦ let path' = trim_ext path in some (new_commit_store (dir path') (base path'))
    ]
