-- ===== src/Reconstruction/Lookup/Content.antt =====
-- Who gets the plan of a file, and what the plan is worth. Source:
-- crates/server/src/routes/reconstruction.rs.
use openxet.Base.{
  Bool-cases, List, Result, arith, drop, err, false, inl, inr, map, min, none, ok, refl, some, suc,
  take, true, ℕ, ◌++◌, ◌-◌, ◌<◌, ◌≡◌, ◌≢◌, ◌≤◌, ◌⊎◌,
}
use openxet.Text.{Text, codes}
use openxet.Errors.{AppError}
use openxet.Hash.{validate_hash}
use openxet.Auth.{Claims, admin, owner, satisfies}
use openxet.Auth.Middleware.{HeaderMap}
use openxet.Storage.{ObjectStore, get_shard}
use openxet.Index.Files.{FileIndex}
use openxet.Index.Files as Files
use openxet.Index.Files.Claims.{held}
use openxet.Gc.{AppState}
use openxet.Routes.Files.{authorize_file_read}
use openxet.Routes.Files.Isolation.{authorize_file_read-held}
use openxet.Routes.Shard.{ShardFile}
use openxet.Reconstruction.Types.{ReconstructionTerm}
use openxet.Reconstruction.Range.{parse_range_header}
use openxet.Reconstruction.Trim.{total_size}
use openxet.Reconstruction.Trim.Bytes.{IsSized, content, trim_terms-content}
use openxet.Reconstruction.Lookup.{corrupt_shard, find_file, reconstruction_terms, term_of}

-- A caller who may read a file: an admin, or the holder of a claim on it.
abbrev pub MayRead : FileIndex → Claims → Text → Type 0
MayRead idx claims file_id =
    (satisfies claims.scope admin ≡ true) ⊎ (held (owner claims) file_id idx.file_ownership ≢ none)

authorize_admin :
    (idx : FileIndex) (claims : Claims) (file_id : Text)
    → satisfies claims.scope admin ≡ true
    → authorize_file_read idx claims file_id ≡ ok tt
unfolding authorize_file_read
authorize_admin idx claims file_id t = rw t refl

authorize_file_read-MayRead :
    (idx : FileIndex) (claims : Claims) (file_id : Text)
    → validate_hash file_id ≡ ok tt
    → MayRead idx claims file_id
    → authorize_file_read idx claims file_id ≡ ok tt
authorize_file_read-MayRead idx claims file_id v may =
    elim (Bool-cases (satisfies claims.scope admin)) [
      | inl t ↦ authorize_admin idx claims file_id t
      | inr f ↦ elim (authorize_file_read-held idx claims file_id f v) [
        | inl (granted, h) ↦ granted
        | inr (refused, n) ↦ elim may [
          | inl t ↦ absurd (ground (arith, t, f))
          | inr h ↦ absurd (h n)
        ]
      ]
    ]

module _ {S : Type 0} (store : ObjectStore S)
    (from_reader : Text → Result Text (List ShardFile)) where
  -- Where a file resolves to a stored shard that holds it, an admin and every holder of a claim get a
  -- plan for a range that starts within the file, and the client that decodes its terms, drops the
  -- offset and takes as many bytes as were asked for (up to the end of the file) holds exactly the
  -- bytes of the range, where each term stands for as many bytes as it declares. Any other
  -- caller is answered as if the file did not exist.
  pub reconstruction_terms-content :
      (st : AppState S) (claims : Claims) (file_id : Text) (headers : HeaderMap)
      (shard_hash shard_data : Text) (files : List ShardFile) (file : ShardFile)
      (bytes : ReconstructionTerm → Text) (range_start range_end : ℕ)
      → validate_hash file_id ≡ ok tt
      → Files.get st.file_index file_id ≡ ok (some shard_hash)
      → get_shard store shard_hash st.storage ≡ ok shard_data
      → from_reader shard_data ≡ ok files
      → find_file file_id files ≡ some file
      → parse_range_header headers ≡ ok (some (range_start, range_end))
      → IsSized bytes (map term_of file.entries)
      → range_start < total_size (map term_of file.entries)
      → range_start ≤ range_end
      → (MayRead st.file_index claims file_id
          → (off : ℕ) × (ks : List ReconstructionTerm) × (reconstruction_terms store from_reader st
                claims file_id headers
              ≡ ok (off, ks))
            × (take
                  (suc (min range_end (total_size (map term_of file.entries) - 1)) - range_start)
                  (drop off (content bytes ks))
                ≡ take
                    (suc (min range_end (total_size (map term_of file.entries) - 1)) - range_start)
                    (drop range_start (content bytes (map term_of file.entries)))))
        × (satisfies claims.scope admin ≡ false
            → held (owner claims) file_id st.file_index.file_ownership ≡ none
            → reconstruction_terms store from_reader st claims file_id headers
              ≡ err (AppError.not_found (codes "file not found: " ++ file_id)))
  unfolding reconstruction_terms corrupt_shard
  reconstruction_terms-content st claims file_id headers shard_hash shard_data files file bytes
        range_start range_end v g s p f r sized lt le =
      (
        λ may.
            let granted = authorize_file_read-MayRead st.file_index claims file_id v may in
            let (off, ks, trimmed, same) =
              trim_terms-content bytes range_start range_end (map term_of file.entries) sized lt
                le in
            (off, ks, rw (v, granted, g, s, p, f, r) trimmed, same),
        λ weak unclaimed. elim (authorize_file_read-held st.file_index claims file_id weak v) [
          | inl (granted, h) ↦ absurd (h unclaimed)
          | inr (refused, n) ↦ rw (v, refused) refl
        ],
      )
