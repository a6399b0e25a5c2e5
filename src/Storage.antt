-- ===== src/Storage.antt =====
-- The storage backend. Source: crates/server/src/storage/object_store_backend.rs.
-- The `object_store` crate is the parameter `ObjectStore`: its operations on the state of a store and
-- what they promise. A validated hash holds no byte that a path would escape, so a path is its text.
pub mod Blobs
pub mod Memory
mod Tests
use openxet.Base.{
  Bool, List, Option, Result, [], err, false, if◌then◌else◌, leb, none, not, ok, some, true, ℕ, ℤ,
  ◌&&◌, ◌++◌, ◌==◌, ◌>>=◌, ◌>>◌, ◌∷◌, ◌≡◌, ◌≢◌,
}
use openxet.Text.{Text, codes, is_empty}
use openxet.Errors.{StorageError}
use openxet.Hash.{validate_hash}
use openxet.Sql.{order_by}

pub data ObjectError : Type 0 where
  not_found : (path : Text) → ObjectError
  other : Text → ObjectError

pub record ObjectMeta : Type 0 where
  pub filename : Option Text
  pub size : ℕ
  pub last_modified : ℤ

pub record ObjectStore (S : Type 0) : Type 0 where
  pub get : Text → S → Result ObjectError Text
  pub get_bounded : Text → ℕ → ℕ → S → Result ObjectError Text
  pub head : Text → S → Result ObjectError ObjectMeta
  pub put : Text → Text → S → Result ObjectError (Unit {0}) × S
  pub delete : Text → S → Result ObjectError (Unit {0}) × S
  pub list : Text → S → Result ObjectError (List ObjectMeta)
  -- A write that succeeded is seen, and no call touches another object.
  pub get-put : (p d : Text) (s t : S) → put p d s ≡ (ok tt, t) → get p t ≡ ok d
  pub head-put :
      (p d : Text) (s t : S) → put p d s ≡ (ok tt, t) → (m : ObjectMeta) × (head p t ≡ ok m)
  pub get-put_other : (p q d : Text) (s : S) → p ≢ q → get q (put p d s).1 ≡ get q s
  pub get-delete_other : (p q : Text) (s : S) → p ≢ q → get q (delete p s).1 ≡ get q s
  -- A deletion that answers success, or that there was nothing, leaves nothing.
  pub get-delete :
      (p : Text) (s t : S) → delete p s ≡ (ok tt, t) → get p t ≡ err (ObjectError.not_found p)
  pub get-delete_missing :
      (p q : Text) (s t : S)
      → delete p s ≡ (err (ObjectError.not_found q), t)
      → get p t ≡ err (ObjectError.not_found p)

pub record StoredObject : Type 0 where
  pub hash : Text
  pub size : ℕ
  pub last_modified_unix : ℤ

unfoldable pub xorb_path : Text → Text
xorb_path hash = codes "xorbs/default/" ++ hash

unfoldable pub shard_path : Text → Text
shard_path hash = codes "shards/" ++ hash

abbrev pub map_error : ObjectError → StorageError
map_error (ObjectError.not_found path) = StorageError.not_found path
map_error (ObjectError.other msg) = StorageError.object_store msg

abbrev pub lift_object {ℓ} : {A : Type ℓ} → Result ObjectError A → Result StorageError A
lift_object (ok a) = ok a
lift_object (err e) = err (map_error e)

starts_with_dot : Text → Bool
starts_with_dot [] = false
starts_with_dot (b ∷ s) = b == b'.'

unwrap_or_default : Option Text → Text
unwrap_or_default none = []
unwrap_or_default (some s) = s

stored_objects : List ObjectMeta → List StoredObject
unfolding unwrap_or_default starts_with_dot
stored_objects [] = []
stored_objects (m ∷ ms) =
    let name = unwrap_or_default m.filename in
    let rest = stored_objects ms in
    if not (is_empty name) && not (starts_with_dot name)
    then record { hash = name; size = m.size; last_modified_unix = m.last_modified } ∷ rest
    else rest

abbrev pub ignore_missing : Result ObjectError (Unit {0}) → Result StorageError (Unit {0})
ignore_missing (ok u) = ok tt
ignore_missing (err (ObjectError.not_found path)) = ok tt
ignore_missing (err (ObjectError.other msg)) = err (StorageError.object_store msg)

module _ {S : Type 0} (store : ObjectStore S) where
  unfoldable pub list_prefix : Text → S → Result StorageError (List StoredObject)
  unfolding stored_objects
  list_prefix prefix s = do
    entries ← lift_object (store.list prefix s)
    ok (order_by (λ o. o.hash) (stored_objects entries))

  unfoldable pub delete_ignoring_missing : Text → S → Result StorageError (Unit {0}) × S
  delete_ignoring_missing path s = let (r, t) = store.delete path s in (ignore_missing r, t)

  unfoldable pub get_xorb : Text → S → Result StorageError Text
  get_xorb hash s = do validate_hash hash; lift_object (store.get (xorb_path hash) s)

  unfoldable pub get_shard : Text → S → Result StorageError Text
  get_shard hash s = do validate_hash hash; lift_object (store.get (shard_path hash) s)

  -- A failed bounded read is asked about again: a start at or past the size is the caller's.
  out_of_range : Text → ℕ → S → ObjectError → StorageError
  out_of_range path start s e = elim (store.head path s) [
    | ok meta ↦ if leb meta.size start then StorageError.range_not_satisfiable else map_error e
    | err f ↦ map_error e
  ]

  unfoldable pub get_xorb_range : Text → ℕ → ℕ → S → Result StorageError Text
  unfolding out_of_range
  get_xorb_range hash start end s = do
    validate_hash hash
    elim (store.get_bounded (xorb_path hash) start end s) [
      | ok bytes ↦ ok bytes
      | err (ObjectError.not_found p) ↦ err (StorageError.not_found p)
      | err (ObjectError.other msg) ↦
          err (out_of_range (xorb_path hash) start s (ObjectError.other msg))
    ]

  -- Objects are written once: an existing one is left as it is.
  unfoldable pub put_at : Text → Text → S → Result StorageError Bool × S
  put_at path bytes s = elim (store.head path s) [
    | ok meta ↦ (ok false, s)
    | err e ↦ let (r, t) = store.put path bytes s in (lift_object r >> ok true, t)
  ]

  unfoldable pub put_xorb : Text → Text → S → Result StorageError Bool × S
  unfolding put_at
  put_xorb hash bytes s = elim (validate_hash hash) [
    | err e ↦ (err e, s)
    | ok u ↦ put_at (xorb_path hash) bytes s
  ]

  unfoldable pub put_shard : Text → Text → S → Result StorageError Bool × S
  unfolding put_at
  put_shard hash bytes s = elim (validate_hash hash) [
    | err e ↦ (err e, s)
    | ok u ↦ put_at (shard_path hash) bytes s
  ]

  unfoldable pub xorb_exists : Text → S → Result StorageError Bool
  xorb_exists hash s = do
    validate_hash hash
    elim (store.head (xorb_path hash) s) [
      | ok meta ↦ ok true
      | err (ObjectError.not_found p) ↦ ok false
      | err (ObjectError.other msg) ↦ err (StorageError.object_store msg)
    ]

  unfoldable pub delete_xorb : Text → S → Result StorageError (Unit {0}) × S
  unfolding delete_ignoring_missing
  delete_xorb hash s = elim (validate_hash hash) [
    | err e ↦ (err e, s)
    | ok u ↦ delete_ignoring_missing (xorb_path hash) s
  ]

  unfoldable pub delete_shard : Text → S → Result StorageError (Unit {0}) × S
  unfolding delete_ignoring_missing
  delete_shard hash s = elim (validate_hash hash) [
    | err e ↦ (err e, s)
    | ok u ↦ delete_ignoring_missing (shard_path hash) s
  ]

  unfoldable pub list_xorbs : S → Result StorageError (List StoredObject)
  unfolding list_prefix
  list_xorbs s = list_prefix (codes "xorbs/default") s

  unfoldable pub list_shards : S → Result StorageError (List StoredObject)
  unfolding list_prefix
  list_shards s = list_prefix (codes "shards") s
