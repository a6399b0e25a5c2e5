-- ===== src/Errors.antt =====
-- The error types of the storage layer and of the handlers, and the HTTP status of each.
-- Sources: crates/server/src/storage/error.rs, crates/server/src/error.rs.
use openxet.Base.{Result, err, ok, ℕ, ◌++◌, ◌≡◌}
use openxet.Text.{Text, codes}

-- The operating system's error of an `Io` is kept as its printed text.
pub data StorageError : Type 0 where
  not_found : Text → StorageError
  invalid_hash : Text → StorageError
  io : (source path : Text) → StorageError
  range_not_satisfiable : StorageError
  too_large : (size limit : ℕ) → StorageError
  object_store : Text → StorageError
  index : Text → StorageError

pub data AppError : Type 0 where
  bad_request : Text → AppError
  unauthorized : Text → AppError
  forbidden : Text → AppError
  not_found : Text → AppError
  unsupported_media_type : Text → AppError
  range_not_satisfiable : AppError
  payload_too_large : AppError
  internal : Text → AppError

-- `IntoResponse for AppError`: the status code and the message of the JSON body.
unfoldable pub into_response : AppError → ℕ × Text
into_response (AppError.bad_request msg) = (400, msg)
into_response (AppError.unauthorized msg) = (401, msg)
into_response (AppError.forbidden msg) = (403, msg)
into_response (AppError.not_found msg) = (404, msg)
into_response (AppError.unsupported_media_type msg) = (415, msg)
into_response AppError.range_not_satisfiable = (416, codes "range not satisfiable")
into_response AppError.payload_too_large = (413, codes "payload too large")
into_response (AppError.internal e) = (500, codes "internal server error")

-- `From<StorageError> for AppError`, which every `?` on a storage call goes through.
unfoldable pub from_storage : StorageError → AppError
from_storage (StorageError.not_found msg) = AppError.not_found msg
from_storage (StorageError.invalid_hash msg) = AppError.bad_request (codes "invalid hash: " ++ msg)
from_storage StorageError.range_not_satisfiable = AppError.range_not_satisfiable
from_storage (StorageError.too_large size most) = AppError.payload_too_large
from_storage (StorageError.io source path) =
    AppError.internal (codes "io error on " ++ path ++ codes ": " ++ source)
from_storage (StorageError.object_store msg) =
    AppError.internal (codes "object store error: " ++ msg)
from_storage (StorageError.index msg) = AppError.internal (codes "index error: " ++ msg)

-- A storage call inside a handler.
abbrev pub lift_storage {ℓ} : {A : Type ℓ} → Result StorageError A → Result AppError A
lift_storage (ok a) = ok a
lift_storage (err e) = err (from_storage e)

-- A handler ends with an error response, or panics where an index is out of bounds.
pub data Failure : Type 0 where
  error : AppError → Failure
  panic : Failure

abbrev pub lift_app {ℓ} : {A : Type ℓ} → Result AppError A → Result Failure A
lift_app (ok a) = ok a
lift_app (err e) = err (error e)

pub lift_app-eq-ok {ℓ} : {A : Type ℓ} (r : Result AppError A) {a : A} → lift_app r ≡ ok a → r ≡ ok a
lift_app-eq-ok (ok a) e = cc
lift_app-eq-ok (err x) e = cc

pub lift_storage-eq-ok {ℓ} :
    {A : Type ℓ} (r : Result StorageError A) {a : A} → lift_storage r ≡ ok a → r ≡ ok a
lift_storage-eq-ok (ok a) e = cc
lift_storage-eq-ok (err x) e = cc
