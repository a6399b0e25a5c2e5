-- ===== src/Reconstruction/Lookup.antt =====
-- From a file to its terms. Source: `reconstruction_terms` of
-- crates/server/src/routes/reconstruction.rs. The parser of stored shards is the parameter
-- `from_reader`. In a trimmed request the sizes of a file's terms add up to less than 2 ^ 64.
pub mod Content
mod Tests
use openxet.Base.{
  List, Option, Result, [], err, false, map, none, ok, ok_or, some, true, ℕ, ◌++◌, ◌>>=◌, ◌>>◌, ◌∷◌,
}
use openxet.Text.{Text, codes, eq_text}
use openxet.Errors.{AppError, lift_storage}
use openxet.Hash.{validate_hash}
use openxet.Auth.{Claims}
use openxet.Auth.Middleware.{HeaderMap}
use openxet.Storage.{ObjectStore, get_shard}
use openxet.Index.Files as Files
use openxet.Gc.{AppState}
use openxet.Routes.Files.{authorize_file_read}
use openxet.Routes.Shard.{ShardEntry, ShardFile}
use openxet.Reconstruction.Types.{ReconstructionTerm}
use openxet.Reconstruction.Range.{parse_range_header}
use openxet.Reconstruction.Trim.{trim_terms}

unfoldable pub find_file : Text → List ShardFile → Option ShardFile
find_file file_id [] = none
find_file file_id (f ∷ fs) = elim (eq_text f.file_hash file_id) [
  | true ↦ some f
  | false ↦ find_file file_id fs
]

abbrev pub term_of : ShardEntry → ReconstructionTerm
term_of e = record {
  hash = e.xorb_hash;
  unpacked_length = e.unpacked_segment_bytes;
  range = record { start = e.chunk_index_start; end = e.chunk_index_end };
}

corrupt_shard : Text → Result Text (List ShardFile) → Result AppError (List ShardFile)
corrupt_shard shard_hash (ok files) = ok files
corrupt_shard shard_hash (err e) =
    err (AppError.internal (codes "corrupt shard " ++ (shard_hash ++ (codes ": " ++ e))))

module _ {S : Type 0} (store : ObjectStore S)
    (from_reader : Text → Result Text (List ShardFile)) where
  unfoldable pub reconstruction_terms :
      AppState S → Claims → Text → HeaderMap → Result AppError (ℕ × List ReconstructionTerm)
  unfolding corrupt_shard
  reconstruction_terms st claims file_id headers = do
    lift_storage (validate_hash file_id)
    authorize_file_read st.file_index claims file_id
    found ← lift_storage (Files.get st.file_index file_id)
    shard_hash ← ok_or found (AppError.not_found (codes "file not found: " ++ file_id))
    shard_data ← lift_storage (get_shard store shard_hash st.storage)
    files ← corrupt_shard shard_hash (from_reader shard_data)
    file ← ok_or (find_file file_id files) (
        AppError.internal
          (codes "file " ++ (file_id ++ (codes " not found in shard " ++ shard_hash))))
    range ← parse_range_header headers
    trim_terms (map term_of file.entries) range
