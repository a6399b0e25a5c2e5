-- ===== src/Routes/Dedup.antt =====
-- The answer to a dedup query. Source: crates/server/src/routes/dedup.rs. The keys of a `HashMap` come
-- in an order of its own, here the last seen first. The shard in memory, its serialization and its
-- export under a key are the parameter `DedupCore`; the key is drawn at random by the caller.
pub mod Layouts
mod Tests
use openxet.Base.{
  List, Option, Result, [], err, guard, length, ltb, none, ok, ok_or, some, ℕ, ◌%◌, ◌++◌, ◌>>=◌,
  ◌>>◌, ◌∷◌,
}
use openxet.Text.{Text, codes}
use openxet.Errors.{AppError, Failure, error, panic, lift_app, lift_storage}
use openxet.Hash.{validate_hash}
use openxet.Storage.{ObjectStore, get_xorb}
use openxet.Index.{ChunkLocation, XorbChunk, XorbLayout}
use openxet.Index.Chunks.{Json, get_xorb_layout}
use openxet.Index.Chunks as Chunks
use openxet.Xorb.{XetCore, xorb_info_from_stored, chunk_info_triples, u32_mod, add32}
use openxet.Gc.{AppState, insert_set}

-- `MDBXorbInfo`: each chunk with its start and its size.
pub record DedupBlock : Type 0 where
  pub xorb_hash : Text
  pub total_uncompressed : ℕ
  pub num_bytes_on_disk : ℕ
  pub chunks : List (Text × ℕ × ℕ)

pub record DedupCore : Type 0 where
  -- A hash that parses is printed as its text.
  pub from_hex : Text → Result Text Text
  pub add_xorb_block : List DedupBlock → DedupBlock → Result Text (List DedupBlock)
  pub serialize_from : List DedupBlock → Result Text Text
  pub export_as_keyed_shard : (unkeyed key : Text) (ttl : ℕ) → Result Text Text

internal : {A : Type 0} → Text → Result Text A → Result Failure A
internal context (ok a) = ok a
internal context (err e) = err (error (AppError.internal (context ++ e)))

-- The xorbs of the locations.
unfoldable pub xorbs_of : List ChunkLocation → List Text
xorbs_of [] = []
xorbs_of (l ∷ ls) = insert_set l.xorb_hash (xorbs_of ls)

sum32 : List (Text × ℕ × ℕ) → ℕ
sum32 [] = 0
sum32 ((h, start, size) ∷ cs) = add32 size (sum32 cs)

module _ (core : DedupCore) where
  -- The chunks of a layout, from an offset on.
  unfoldable pub layout_triples : ℕ → List XorbChunk → Result Failure (List (Text × ℕ × ℕ))
  unfolding internal
  layout_triples byte_offset [] = ok []
  layout_triples byte_offset (c ∷ cs) = do
    hash ← internal (codes "bad stored chunk hash: ") (core.from_hex c.chunk_hash)
    rest ← layout_triples (add32 byte_offset c.unpacked_size) cs
    ok ((hash, byte_offset, c.unpacked_size) ∷ rest)

  module _ {S : Type 0} (store : ObjectStore S) (xet : XetCore) (j : Json) where
    unfoldable pub stored_chunks : Text → S → Result Failure (List (Text × ℕ × ℕ) × ℕ)
    stored_chunks hash s = do
      xorb_data ← lift_app (lift_storage (get_xorb store hash s))
      info ← lift_app (xorb_info_from_stored xet xorb_data)
      triples ← ok_or (chunk_info_triples info) panic
      ok (triples, length xorb_data % u32_mod)

    unfoldable pub block_chunks :
        Text → Option XorbLayout → S → Result Failure (List (Text × ℕ × ℕ) × ℕ)
    block_chunks hash none s = stored_chunks hash s
    block_chunks hash (some layout) s =
        layout_triples 0 layout.chunks >>= λ triples. ok (triples, layout.num_bytes_on_disk)

    xorb_block : AppState S → Text → Result Failure DedupBlock
    unfolding internal sum32
    xorb_block st hash = do
      xorb_hash ← internal (codes "bad stored hash: ") (core.from_hex hash)
      layout ← lift_app (lift_storage (get_xorb_layout j st.chunk_index hash))
      chunks ← block_chunks hash layout st.storage
      ok (record {
        xorb_hash = xorb_hash;
        total_uncompressed = sum32 chunks.0;
        num_bytes_on_disk = chunks.1;
        chunks = chunks.0;
      })

    add_blocks : AppState S → List Text → List DedupBlock → Result Failure (List DedupBlock)
    unfolding xorb_block internal
    add_blocks st [] mem_shard = ok mem_shard
    add_blocks st (h ∷ hs) mem_shard = do
      block ← xorb_block st h
      added ← internal (codes "assembling dedup shard: ") (core.add_xorb_block mem_shard block)
      add_blocks st hs added

    unfoldable pub get_dedup :
        Text → (hmac_key : Text) → (key_ttl : ℕ) → AppState S → Result Failure Text
    unfolding add_blocks internal
    get_dedup hash hmac_key key_ttl st = do
      lift_app (lift_storage (validate_hash hash))
      locations ← lift_app (lift_storage (Chunks.get st.chunk_index hash))
      guard (ltb 0 (length locations))
          (error (AppError.not_found (codes "chunk not found: " ++ hash)))
      mem_shard ← add_blocks st (xorbs_of locations) []
      unkeyed ← internal (codes "serializing dedup shard: ") (core.serialize_from mem_shard)
      internal (codes "keying dedup shard: ") (core.export_as_keyed_shard unkeyed hmac_key key_ttl)
