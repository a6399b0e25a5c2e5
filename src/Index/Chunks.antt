-- ===== src/Index/Chunks.antt =====
-- The chunk index: where each chunk is stored, and the recorded layout of each xorb.
-- Source: crates/server/src/storage/index/sqlite_index.rs. The table is in the order of `rowid`; the
-- layout column holds JSON, whose codec is another crate's and is the parameter `Json`.
pub mod Keys
pub mod Printed
use openxet.Base.{
  Bool, List, Option, Result, [], false, keep, length, map, none, not, ok, ok_or, some, take, true,
  ℕ, ◌&&◌, ◌==◌, ◌>>=◌, ◌>>◌, ◌∷◌, ◌≡◌,
}
use openxet.Text.{Text, codes, eq_text}
use openxet.Errors.{StorageError}
use openxet.Hash.{validate_hash}
use openxet.Sql.{order_by, is_after}
use openxet.Index.{ChunkLocation, XorbLayout, XorbSummary}

pub record ChunkRow : Type 0 where
  pub chunk_hash : Text
  pub location : ChunkLocation

pub record LayoutRow : Type 0 where
  pub xorb_hash : Text
  pub layout : Text

pub record ChunkIndex : Type 0 where
  pub chunk_index : List ChunkRow
  pub xorb_layout : List LayoutRow

-- `serde_json`: a layout that was printed reads back as itself.
pub record Json : Type 0 where
  pub to_string : XorbLayout → Text
  pub from_str : Text → Option XorbLayout
  pub from_str-to_string : (l : XorbLayout) → from_str (to_string l) ≡ some l

unfoldable pub get : ChunkIndex → Text → Result StorageError (List ChunkLocation)
get idx chunk_hash = do
  validate_hash chunk_hash
  ok (map (λ r. r.location) (keep (λ r. eq_text r.chunk_hash chunk_hash) idx.chunk_index))

-- The composite primary key (chunk_hash, xorb_hash, chunk_idx).
abbrev pub same_key : ChunkRow → ChunkRow → Bool
same_key r s =
    eq_text r.chunk_hash s.chunk_hash
    && eq_text r.location.xorb_hash s.location.xorb_hash
    && (r.location.chunk_index == s.location.chunk_index)

-- INSERT … ON CONFLICT DO NOTHING: a new row gets the next `rowid`.
unfoldable pub insert_chunk : List ChunkRow → ChunkRow → List ChunkRow
insert_chunk [] r = r ∷ []
insert_chunk (s ∷ rows) r = elim (same_key s r) [
  | true ↦ s ∷ rows
  | false ↦ s ∷ insert_chunk rows r
]

unfoldable pub insert_all : List ChunkRow → List ChunkRow → List ChunkRow
insert_all rows [] = rows
insert_all rows (r ∷ rs) = insert_all (insert_chunk rows r) rs

unfoldable pub validate_all : List (Text × ChunkLocation) → Result StorageError (Unit {0})
validate_all [] = ok tt
validate_all ((h, l) ∷ es) = do validate_hash h; validate_all es

abbrev pub row_of : Text × ChunkLocation → ChunkRow
row_of e = record { chunk_hash = e.0; location = e.1 }

-- All hashes are validated before the transaction; its statements of 4096 rows insert in order.
unfoldable pub put_batch : ChunkIndex → List (Text × ChunkLocation) → Result StorageError ChunkIndex
unfolding insert_chunk insert_all validate_all
put_batch idx entries = do
  validate_all entries
  ok (record idx { chunk_index = insert_all idx.chunk_index (map row_of entries) })

unfoldable pub put : ChunkIndex → Text → ChunkLocation → Result StorageError ChunkIndex
put idx chunk_hash location = put_batch idx ((chunk_hash, location) ∷ [])

pub select_layout : Text → List LayoutRow → Option Text
select_layout h [] = none
select_layout h (r ∷ rs) = elim (eq_text r.xorb_hash h) [
  | true ↦ some r.layout
  | false ↦ select_layout h rs
]

pub upsert_layout : Text → Text → List LayoutRow → List LayoutRow
upsert_layout h l [] = record { xorb_hash = h; layout = l } ∷ []
upsert_layout h l (r ∷ rs) = elim (eq_text r.xorb_hash h) [
  | true ↦ record r { layout = l } ∷ rs
  | false ↦ r ∷ upsert_layout h l rs
]

-- The deletions of a xorb's chunk rows and of its layout, in one transaction.
unfoldable pub remove_xorb : ChunkIndex → Text → Result StorageError ChunkIndex
remove_xorb idx xorb_hash = do
  validate_hash xorb_hash
  ok (record {
    chunk_index = keep (λ r. not (eq_text r.location.xorb_hash xorb_hash)) idx.chunk_index;
    xorb_layout = keep (λ r. not (eq_text r.xorb_hash xorb_hash)) idx.xorb_layout;
  })

abbrev corrupt : StorageError
corrupt = StorageError.index (codes "corrupt xorb layout")

module _ (j : Json) where
  pub parse_layout : Option Text → Result StorageError (Option XorbLayout)
  parse_layout none = ok none
  parse_layout (some json) = ok_or (j.from_str json) corrupt >>= λ l. ok (some l)

  unfoldable pub get_xorb_layout : ChunkIndex → Text → Result StorageError (Option XorbLayout)
  unfolding select_layout parse_layout
  get_xorb_layout idx xorb_hash = do
    validate_hash xorb_hash
    parse_layout (select_layout xorb_hash idx.xorb_layout)

  unfoldable pub put_xorb_layout : ChunkIndex → Text → XorbLayout → Result StorageError ChunkIndex
  unfolding upsert_layout
  put_xorb_layout idx xorb_hash layout = do
    validate_hash xorb_hash
    ok (record idx { xorb_layout = upsert_layout xorb_hash (j.to_string layout) idx.xorb_layout })

  summary_of : LayoutRow → Result StorageError XorbSummary
  summary_of r = do
    l ← ok_or (j.from_str r.layout) corrupt
    ok (record {
      xorb_hash = r.xorb_hash;
      num_bytes_on_disk = l.num_bytes_on_disk;
      chunk_count = length l.chunks;
    })

  pub summaries : List LayoutRow → Result StorageError (List XorbSummary)
  unfolding summary_of
  summaries [] = ok []
  summaries (r ∷ rs) = do ok ((← summary_of r) ∷ (← summaries rs))

  unfoldable pub list_xorb_summaries :
      ChunkIndex → Option Text → ℕ → Result StorageError (List XorbSummary)
  unfolding summaries
  list_xorb_summaries idx after limit = summaries (
      take limit
        (order_by (λ r. r.xorb_hash) (keep (is_after (λ r. r.xorb_hash) after) idx.xorb_layout)))
