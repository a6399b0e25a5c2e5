-- ===== src/Routes/Xorb.antt =====
-- Listing, upload and download of xorbs. Source: crates/server/src/routes/xorb.rs. The extractors of
-- a scope run before a handler. A `MerkleHash` is its hex text, so a validated hash parses.
pub mod Download
pub mod Upload
mod Tests
use openxet.Base.{
  Bool, Option, Result, err, false, guard, if◌then◌else◌, leb, length, none, not, ok, ok_or, some,
  true, ℕ, ◌%◌, ◌&&◌, ◌*◌, ◌++◌, ◌+◌, ◌==◌, ◌>>=◌, ◌>>◌,
}
use openxet.Text.{Text, codes}
use openxet.Text.Decimal.{decimal, u64_mod}
use openxet.Errors.{AppError, Failure, error, panic, lift_app, lift_storage, from_storage}
use openxet.Hash.{validate_hash}
use openxet.Auth.{admin}
use openxet.Auth.FetchUrl.{Mac, XorbUrlParams, is_signed, verify_xorb_url}
use openxet.Auth.Middleware.{Tokens, Keys, HeaderMap, AuthConfig, authorize}
use openxet.Pagination.{Base64, Page, clamp_limit, cursor_after, from_overfetched}
use openxet.Reconstruction.Range.{parse_range_header}
use openxet.Storage.{ObjectStore, xorb_exists, put_xorb}
use openxet.Storage as Storage
use openxet.Index.{XorbLayout, XorbSummary}
use openxet.Index.Chunks.{ChunkIndex, Json, list_xorb_summaries, put_batch, put_xorb_layout}
use openxet.Xorb.{XetCore, XorbInfo, validated_xorb_info, layout_from_info, u32_mod}
use openxet.Gc.{AppState}
use openxet.Routes.Files.{filter_empty}
use openxet.Routes.Shard.{bad, locations}

pub record ListXorbsParams : Type 0 where
  pub cursor : Option Text
  pub limit : Option ℕ

module _ (b : Base64) (j : Json) where
  unfoldable pub list_xorbs : ChunkIndex → ListXorbsParams → Result AppError (Page XorbSummary)
  unfolding filter_empty
  list_xorbs idx params = do
    after ← cursor_after b (filter_empty params.cursor)
    rows ← lift_storage (list_xorb_summaries j idx after (clamp_limit params.limit + 1))
    ok (from_overfetched b rows (clamp_limit params.limit) (λ x. x.xorb_hash))

-- `max_xorb_bytes` is a constant of xet-core.
abbrev pub max_serialized_xorb_size : ℕ → ℕ
max_serialized_xorb_size max_xorb_bytes = max_xorb_bytes + 4 * 1024 * 1024

module _ {S : Type 0} (store : ObjectStore S) (xet : XetCore) (j : Json) (max_xorb_bytes : ℕ) where
  check_body : Text → Text → Result Failure (XorbInfo × XorbLayout)
  check_body hash body = do
    info ← lift_app (validated_xorb_info xet body hash)
    guard (not (info.num_chunks == 0)) (bad (codes "xorb contains no chunks"))
    layout ← ok_or (layout_from_info info (length body % u32_mod)) panic
    ok (info, layout)

  index_layout : Text → XorbLayout → AppState S → Result Failure Bool × AppState S
  index_layout hash layout st = elim (put_xorb_layout j st.chunk_index hash layout) [
    | err e ↦ (err (error (from_storage e)), st)
    | ok idx ↦ (ok true, record st { chunk_index = idx })
  ]

  index_xorb : Text → XorbInfo → XorbLayout → AppState S → Result Failure Bool × AppState S
  unfolding index_layout
  index_xorb hash info layout st =
      elim (put_batch st.chunk_index (locations hash 0 info.chunk_hashes)) [
        | err e ↦ (err (error (from_storage e)), st)
        | ok chunks ↦ index_layout hash layout (record st { chunk_index = chunks })
      ]

  -- The writes: the xorb, the locations of its chunks, its layout.
  store_xorb : Text → Text → XorbInfo × XorbLayout → AppState S → Result Failure Bool × AppState S
  unfolding index_xorb
  store_xorb hash body (info, layout) st =
      let (r, s) = put_xorb store hash body st.storage in
      let st' : AppState S = record st { storage = s } in
      elim r [
        | err e ↦ (err (error (from_storage e)), st')
        | ok written ↦ index_xorb hash info layout st'
      ]

  upload_checked :
      Text
      → Text
      → Result Failure (XorbInfo × XorbLayout)
      → AppState S
      → Result Failure Bool × AppState S
  unfolding store_xorb
  upload_checked hash body (err e) st = (err e, st)
  upload_checked hash body (ok valid) st = store_xorb hash body valid st

  -- Whether the xorb is there already, once the request is accepted.
  find_upload : Text → Text → S → Result Failure Bool
  find_upload hash body s = do
    lift_app (lift_storage (validate_hash hash))
    guard (leb (length body) (max_serialized_xorb_size max_xorb_bytes))
        (error AppError.payload_too_large)
    lift_app (lift_storage (xorb_exists store hash s))

  -- The answer is `was_inserted`.
  unfoldable pub post_xorb : Text → Text → AppState S → Result Failure Bool × AppState S
  unfolding find_upload check_body upload_checked
  post_xorb hash body st = elim (find_upload hash body st.storage) [
    | err e ↦ (err e, st)
    | ok true ↦ (ok false, st)
    | ok false ↦ upload_checked hash body (check_body hash body) st
  ]

-- `Some((start, end)) if start >= signed_start && end <= signed_end`
unfoldable pub in_span : Option (ℕ × ℕ) → ℕ × ℕ → Bool
in_span none span = false
in_span (some range) span = leb span.0 range.0 && leb range.1 span.1

outside_span : ℕ × ℕ → AppError
outside_span span = AppError.forbidden (
    codes "signed URL covers bytes "
    ++ (decimal span.0
        ++ (codes "-" ++ (decimal span.1 ++ codes " only; send a Range header within that span"))))

module _ {S : Type 0} (store : ObjectStore S) (m : Mac) (t : Tokens) (keys : Keys t.issuers) where
  authorize_signed : Text → Text → XorbUrlParams → Option (ℕ × ℕ) → ℕ → Result AppError (Unit {0})
  unfolding in_span outside_span
  authorize_signed key hash params range now = do
    span ← verify_xorb_url m key hash params now
    guard (in_span range span) (outside_span span)

  authorize_download :
      AuthConfig
      → Text
      → Text
      → XorbUrlParams
      → HeaderMap
      → Option (ℕ × ℕ)
      → ℕ
      → Result AppError (Unit {0})
  unfolding authorize_signed
  authorize_download auth key hash params headers range now =
      if not auth.enabled
      then ok tt
      else if is_signed params
      then authorize_signed key hash params range now
      else authorize t keys headers auth admin >>= λ claims. ok tt

  read_span : Text → Option (ℕ × ℕ) → S → Result AppError (ℕ × Text)
  read_span hash none s = lift_storage (Storage.get_xorb store hash s) >>= λ bytes. ok (200, bytes)
  read_span hash (some range) s =
      lift_storage (Storage.get_xorb_range store hash range.0 ((range.1 + 1) % u64_mod) s)
      >>= λ bytes. ok (206, bytes)

  -- The status and the bytes. `presigned` is `supports_presigned_urls`, which such a backend answers
  -- with true.
  unfoldable pub get_xorb :
      (presigned : Bool)
      → AuthConfig
      → (key : Text) → Text
      → XorbUrlParams
      → HeaderMap
      → (now : ℕ) → S
      → Result AppError (ℕ × Text)
  unfolding authorize_download read_span
  get_xorb presigned auth key hash params headers now s = do
    guard (not presigned)
        (AppError.not_found (codes "xorb download not served by this backend: " ++ hash))
    lift_storage (validate_hash hash)
    range ← parse_range_header headers
    authorize_download auth key hash params headers range now
    read_span hash range s
