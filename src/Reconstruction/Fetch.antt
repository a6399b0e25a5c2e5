-- ===== src/Reconstruction/Fetch.antt =====
-- What a client is told to fetch. Source: crates/server/src/routes/reconstruction.rs,
-- `build_xorb_fetch_entries` and the two handlers. The entries are resolved one after the other:
-- the source resolves them in any order, and a map of distinct hashes forgets it.
pub mod Coverage
use openxet.Base.{
  List, Option, Result, [], err, get_elem?, if◌then◌else◌, leb, length, map, min, none, ok, ok_or,
  some, suc, zero, ℕ, ◌%◌, ◌+◌, ◌-◌, ◌>>=◌, ◌>>◌, ◌^◌, ◌∷◌,
}
use openxet.Text.{Text}
use openxet.Errors.{Failure, panic, lift_app, AppError, lift_storage}
use openxet.Auth.FetchUrl.{Mac, sign_xorb_url}
use openxet.Index.Chunks.{ChunkIndex, Json, get_xorb_layout}
use openxet.Index.{XorbLayout}
use openxet.Storage.{ObjectStore, get_xorb}
use openxet.Xorb.{XetCore, xorb_info_from_stored, chunk_byte_offsets}
use openxet.Reconstruction.Types.{
  ChunkRange, ByteRange, ReconstructionTerm, FetchInfo, XorbMultiRangeFetch,
  QueryReconstructionResponse, QueryReconstructionResponseV2,
}
use openxet.Reconstruction.Offsets.{chunk_byte_offsets_from_layout}
use openxet.Reconstruction.Merge.{merged_chunk_ranges_per_xorb}

pub record XorbFetchEntry : Type 0 where
  pub hash : Text
  pub ranges : List (ChunkRange × ByteRange × Text)

-- `end_idx - 1` on `usize`: at 0 the index is out of bounds.
pred_index : ℕ → Result Failure ℕ
pred_index zero = err panic
pred_index (suc n) = ok n

-- The byte span of a chunk range, and nothing for a range past the last chunk.
unfoldable pub resolve_range :
    List (ℕ × ℕ) → ChunkRange → Result Failure (Option (ChunkRange × ByteRange))
unfolding pred_index
resolve_range chunk_offsets range = if leb (length chunk_offsets) range.start then ok none else do
  first ← ok_or (get_elem? chunk_offsets range.start) panic
  last_idx ← pred_index (min range.end (length chunk_offsets))
  last ← ok_or (get_elem? chunk_offsets last_idx) panic
  ok (some (range, record { start = first.0; end = (last.1 + 2 ^ 64 - 1) % 2 ^ 64 }))

abbrev pub cons_option {ℓ} : {A : Type ℓ} → Option A → List A → List A
cons_option none as' = as'
cons_option (some a) as' = a ∷ as'

unfoldable pub resolve_ranges :
    List (ℕ × ℕ) → List ChunkRange → Result Failure (List (ChunkRange × ByteRange))
resolve_ranges chunk_offsets [] = ok []
resolve_ranges chunk_offsets (r ∷ rs) = do
  resolved ← resolve_range chunk_offsets r
  rest ← resolve_ranges chunk_offsets rs
  ok (cons_option resolved rest)

-- The parts of the server that a request reads, with the request's base URL and expiry.
pub record FetchContext (S : Type 0) : Type 0 where
  pub store : ObjectStore S
  pub storage : S
  pub chunk_index : ChunkIndex
  pub json : Json
  pub xet_core : XetCore
  pub mac : Mac
  pub xorb_url_key : Text
  pub base_url : Text
  pub url_exp : ℕ
  -- `presigned_xorb_url`
  pub presigned_xorb_url : Text → Result AppError (Option Text)

module _ {S : Type 0} (ctx : FetchContext S) where
  read_offsets : Text → Result Failure (List (ℕ × ℕ))
  read_offsets hash = do
    xorb_data ← lift_app (lift_storage (get_xorb ctx.store hash ctx.storage))
    info ← lift_app (xorb_info_from_stored ctx.xet_core xorb_data)
    ok_or (chunk_byte_offsets info) panic

  -- The recorded layout where it has the offsets, the stored xorb otherwise.
  offsets_of_layout : Text → Option XorbLayout → Result Failure (List (ℕ × ℕ))
  unfolding read_offsets
  offsets_of_layout hash none = read_offsets hash
  offsets_of_layout hash (some layout) = elim (chunk_byte_offsets_from_layout layout) [
    | some offsets ↦ ok offsets
    | none ↦ read_offsets hash
  ]

  fetch_url : Option Text → Text → ByteRange → Text
  fetch_url (some presigned) hash bytes = presigned
  fetch_url none hash bytes =
      sign_xorb_url ctx.mac ctx.xorb_url_key ctx.base_url hash bytes.start bytes.end ctx.url_exp

  with_urls : Text → List (ChunkRange × ByteRange) → Result Failure (Option XorbFetchEntry)
  unfolding fetch_url
  with_urls hash [] = ok none
  with_urls hash (r ∷ rs) = do
    presigned ← lift_app (ctx.presigned_xorb_url hash)
    ok (
        some (record {
          hash = hash;
          ranges =
              map (λ (x : ChunkRange × ByteRange). (x.0, x.1, fetch_url presigned hash x.1))
                (r ∷ rs);
        }))

  build_entry : Text → List ChunkRange → Result Failure (Option XorbFetchEntry)
  unfolding offsets_of_layout with_urls
  build_entry hash chunk_ranges = do
    layout ← lift_app (lift_storage (get_xorb_layout ctx.json ctx.chunk_index hash))
    chunk_offsets ← offsets_of_layout hash layout
    ranges ← resolve_ranges chunk_offsets chunk_ranges
    with_urls hash ranges

  build_entries : List (Text × List ChunkRange) → Result Failure (List XorbFetchEntry)
  unfolding build_entry
  build_entries [] = ok []
  build_entries ((hash, chunk_ranges) ∷ xs) = do
    entry ← build_entry hash chunk_ranges
    entries ← build_entries xs
    ok (cons_option entry entries)

  unfoldable pub build_xorb_fetch_entries :
      List ReconstructionTerm → Result Failure (List XorbFetchEntry)
  unfolding build_entries
  build_xorb_fetch_entries terms = build_entries (merged_chunk_ranges_per_xorb terms)

-- `get_reconstruction` and `get_reconstruction_v2`, from the terms and the entries.
unfoldable pub fetch_infos : XorbFetchEntry → Text × List FetchInfo
fetch_infos entry = (
  entry.hash,
  map (λ (x : ChunkRange × ByteRange × Text). record { range = x.0; url = x.2; url_range = x.1 })
      entry.ranges,
)

unfoldable pub multi_range_fetches : XorbFetchEntry → Text × List XorbMultiRangeFetch
multi_range_fetches entry = (
  entry.hash,
  map
      (λ (x : ChunkRange × ByteRange × Text). record {
        url = x.2;
        ranges = record { chunks = x.0; bytes = x.1 } ∷ [];
      })
      entry.ranges,
)

unfoldable pub get_reconstruction :
    ℕ × List ReconstructionTerm → List XorbFetchEntry → QueryReconstructionResponse
get_reconstruction (offset, terms) entries = record {
  offset_into_first_range = offset;
  terms = terms;
  fetch_info = map fetch_infos entries;
}

unfoldable pub get_reconstruction_v2 :
    ℕ × List ReconstructionTerm → List XorbFetchEntry → QueryReconstructionResponseV2
get_reconstruction_v2 (offset, terms) entries = record {
  offset_into_first_range = offset;
  terms = terms;
  xorbs = map multi_range_fetches entries;
}
