-- ===== src/Index/Postgres.antt =====
-- The chunk index of several servers. Source: `PostgresChunkIndex` of
-- crates/server/src/storage/index/postgres_index.rs. A table has no order of its own: a new row is
-- put in front, and a query sorts by `seq`, which a sequence numbers. An insertion draws a number even
-- where it conflicts. Failures of the database are not modelled.
pub mod Sequence
pub mod Agreement
use openxet.Base.{
  Bool, List, Option, Result, [], false, if◌then◌else◌, keep, ltb, map, not, ok, suc, take, ℕ,
  ◌>>=◌, ◌>>◌, ◌||◌, ◌∷◌,
}
use openxet.Text.{Text, eq_text}
use openxet.Errors.{StorageError}
use openxet.Hash.{validate_hash}
use openxet.Sql.{order_by, is_after}
use openxet.Index.{ChunkLocation, XorbLayout, XorbSummary}
use openxet.Index.Chunks.{
  ChunkRow, LayoutRow, Json, same_key, row_of, validate_all, select_layout, upsert_layout,
  parse_layout, summaries,
}

pub record SequenceRow : Type 0 where
  pub seq : ℕ
  pub row : ChunkRow

pub record PostgresChunkIndex : Type 0 where
  pub next_seq : ℕ
  pub chunk_index : List SequenceRow
  pub xorb_layout : List LayoutRow

-- ORDER BY seq
unfoldable pub place_row : SequenceRow → List SequenceRow → List SequenceRow
place_row r [] = r ∷ []
place_row r (s ∷ rows) =
    let rest = place_row r rows in if ltb s.seq r.seq then s ∷ rest else r ∷ s ∷ rows

unfoldable pub order_by_seq : List SequenceRow → List SequenceRow
order_by_seq [] = []
order_by_seq (r ∷ rows) = place_row r (order_by_seq rows)

unfoldable pub in_table : ChunkRow → List SequenceRow → Bool
in_table r [] = false
in_table r (s ∷ rows) = same_key s.row r || in_table r rows

-- INSERT … ON CONFLICT DO NOTHING
unfoldable pub insert_row : PostgresChunkIndex → ChunkRow → PostgresChunkIndex
unfolding in_table
insert_row idx r =
    if in_table r idx.chunk_index then record idx { next_seq = suc idx.next_seq } else record idx {
      next_seq = suc idx.next_seq;
      chunk_index = record { seq = idx.next_seq; row = r } ∷ idx.chunk_index;
    }

-- SELECT * FROM UNNEST: the rows in the order of the arrays.
unfoldable pub insert_rows : PostgresChunkIndex → List ChunkRow → PostgresChunkIndex
insert_rows idx [] = idx
insert_rows idx (r ∷ rows) = insert_rows (insert_row idx r) rows

unfoldable pub get : PostgresChunkIndex → Text → Result StorageError (List ChunkLocation)
get idx chunk_hash = do
  validate_hash chunk_hash
  ok (
      map (λ s. s.row.location)
        (order_by_seq (keep (λ s. eq_text s.row.chunk_hash chunk_hash) idx.chunk_index)))

unfoldable pub put_batch :
    PostgresChunkIndex → List (Text × ChunkLocation) → Result StorageError PostgresChunkIndex
put_batch idx [] = ok idx
put_batch idx (e ∷ es) = do validate_all (e ∷ es); ok (insert_rows idx (map row_of (e ∷ es)))

unfoldable pub put :
    PostgresChunkIndex → Text → ChunkLocation → Result StorageError PostgresChunkIndex
put idx chunk_hash location = put_batch idx ((chunk_hash, location) ∷ [])

unfoldable pub remove_xorb : PostgresChunkIndex → Text → Result StorageError PostgresChunkIndex
remove_xorb idx xorb_hash = do
  validate_hash xorb_hash
  ok (record idx {
    chunk_index = keep (λ s. not (eq_text s.row.location.xorb_hash xorb_hash)) idx.chunk_index;
    xorb_layout = keep (λ r. not (eq_text r.xorb_hash xorb_hash)) idx.xorb_layout;
  })

module _ (j : Json) where
  unfoldable pub get_xorb_layout :
      PostgresChunkIndex → Text → Result StorageError (Option XorbLayout)
  get_xorb_layout idx xorb_hash = do
    validate_hash xorb_hash
    parse_layout j (select_layout xorb_hash idx.xorb_layout)

  unfoldable pub put_xorb_layout :
      PostgresChunkIndex → Text → XorbLayout → Result StorageError PostgresChunkIndex
  put_xorb_layout idx xorb_hash layout = do
    validate_hash xorb_hash
    ok (record idx { xorb_layout = upsert_layout xorb_hash (j.to_string layout) idx.xorb_layout })

  -- Text is compared by its bytes, as in a database with the C collation; on hashes, which are
  -- lowercase hex digits, the other collations agree with it.
  unfoldable pub list_xorb_summaries :
      PostgresChunkIndex → Option Text → ℕ → Result StorageError (List XorbSummary)
  list_xorb_summaries idx after limit = summaries j (
      take limit
        (order_by (λ r. r.xorb_hash) (keep (is_after (λ r. r.xorb_hash) after) idx.xorb_layout)))
