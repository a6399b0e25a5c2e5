-- ===== src/Wasm.antt =====
-- The client's side of an upload. Source: crates/wasm/src/lib.rs. The chunker, the hashes and the
-- formats of xet-core are the parameter `XetClient`. A `MerkleHash` is its hex text. The bytes of a
-- file are in memory, so no sum of their lengths overflows a `usize`.
pub mod Plan
pub mod Finish
pub mod Session
pub mod Answers
pub mod Decode
mod Tests
use openxet.Base.{
  Bool, List, Option, Result, [], drop, err, false, get_elem?, guard, if◌then◌else◌, leb, length,
  ltb, max, none, ok, ok_or, some, suc, take, true, ℕ, ◌%◌, ◌&&◌, ◌++◌, ◌-◌, ◌>>=◌, ◌>>◌, ◌||◌, ◌∷◌,
}
use openxet.Text.{Text, codes, eq_text, is_empty}
use openxet.Text.Decimal.{decimal}
use openxet.Xorb.{u32_mod}

pub record Chunk : Type 0 where
  pub hash : Text
  pub bytes : Text

pub record Placement : Type 0 where
  pub xorb_hash : Text
  pub index_in_xorb : ℕ

-- A term of a file in the shard, without its verification hash.
pub record FileEntry : Type 0 where
  pub xorb_hash : Text
  pub unpacked_segment_bytes : ℕ
  pub chunk_index_start : ℕ
  pub chunk_index_end : ℕ

pub record FileInfo : Type 0 where
  pub file_hash : Text
  pub segments : List FileEntry
  pub verification : List Text

-- A block of a dedup shard: a xorb and the keyed hashes of its chunks.
pub record XorbBlock : Type 0 where
  pub xorb_hash : Text
  pub chunks : List Text

pub record XetClient : Type 1 where
  pub XorbInfo : Type 0
  pub max_xorb_bytes : ℕ
  pub max_xorb_chunks : ℕ
  -- `Chunker::default().next_block(data, true)`
  pub next_block : Text → List Chunk
  pub hash_is_global_dedup_eligible : Text → Bool
  pub hmac : Text → Text → Text
  -- `MDBShardInfo::load_from_reader` with the key it holds, and its blocks.
  pub load_from_reader : Text → Result Text (Option Text)
  pub read_all_xorb_blocks_full : Text → Result Text (List XorbBlock)
  pub file_hash : List (Text × ℕ) → Text
  pub range_hash_from_chunks : List Text → Text
  -- `RawXorbData::from_chunks`: its hash, and its information with a number of bytes on disk.
  pub raw_hash : List Chunk → Text
  pub raw_info : List Chunk → ℕ → XorbInfo
  pub serialize_xorb : List Chunk → Result Text Text
  -- The serialized parts of a shard.
  pub header : Result Text Text
  pub file_info : FileInfo → Result Text Text
  pub file_bookend : Result Text Text
  pub xorb_info : XorbInfo → Result Text Text
  pub xorb_bookend : Result Text Text
  pub deserialize_chunks : Text → Result Text (Text × List ℕ)

-- A function ends with a message, or panics.
pub data Fault : Type 0 where
  failed : Text → Fault
  panicked : Fault

abbrev pub fail_with : {A : Type 0} → Text → Result Text A → Result Fault A
fail_with context (ok a) = ok a
fail_with context (err e) = err (failed (context ++ e))

pub record UploadSession : Type 0 where
  pub chunks : List Chunk
  pub placement : List (Option Placement)
  pub probed : List Bool

abbrev pub replicate : {A : Type 0} → List Chunk → A → List A
replicate [] a = []
replicate (c ∷ cs) a = a ∷ replicate cs a

unfoldable pub is_some : Option Placement → Bool
is_some none = false
is_some (some p) = true

-- The first chunk, one after a resolved chunk, and an eligible one are candidates.
unfoldable pub next_from :
    (eligible : Text → Bool)
    → (max count : ℕ) → (first after_resolved : Bool) → List Chunk
    → List (Option Placement)
    → List Bool
    → List Text × List Bool
unfolding is_some
next_from eligible max count first after_resolved (c ∷ cs) (p ∷ ps) (b ∷ bs) =
    let skip = next_from eligible max count false (is_some p) cs ps bs in
    let take_it = next_from eligible max (suc count) false (is_some p) cs ps bs in
    if leb max count
    then ([], b ∷ bs)
    else if b || is_some p
    then (skip.0, b ∷ skip.1)
    else if first || after_resolved || eligible c.hash
    then (c.hash ∷ take_it.0, true ∷ take_it.1)
    else (skip.0, b ∷ skip.1)
next_from eligible max count first after_resolved _ _ bs = ([], bs)

-- `HashMap::insert` over the chunks of the blocks: the last entry of a keyed hash wins.
unfoldable pub find_chunk : Text → Text → ℕ → List Text → Option Placement
find_chunk keyed xorb_hash i [] = none
find_chunk keyed xorb_hash i (h ∷ hs) = elim (find_chunk keyed xorb_hash (suc i) hs) [
  | some p ↦ some p
  | none ↦
      if eq_text h keyed
      then some (record { xorb_hash = xorb_hash; index_in_xorb = i % u32_mod })
      else none
]

unfoldable pub by_keyed_hash : Text → List XorbBlock → Option Placement
unfolding find_chunk
by_keyed_hash keyed [] = none
by_keyed_hash keyed (b ∷ bs) = elim (by_keyed_hash keyed bs) [
  | some p ↦ some p
  | none ↦ find_chunk keyed b.xorb_hash 0 b.chunks
]

unfoldable pub resolve_one : Option Placement → Option Placement → Option Placement
resolve_one none found = found
resolve_one (some p) found = some p

unfoldable pub resolve_all :
    (Text → Text) → List XorbBlock → List Chunk → List (Option Placement) → List (Option Placement)
unfolding resolve_one
resolve_all keyed blocks (c ∷ cs) (p ∷ ps) =
    resolve_one p (by_keyed_hash (keyed c.hash) blocks) ∷ resolve_all keyed blocks cs ps
resolve_all keyed blocks _ ps = ps

out_of_bounds : ℕ → ℕ → ℕ → Text
out_of_bounds start end boundaries =
    codes "chunk range ["
    ++ (decimal start
        ++ (codes ","
            ++ (decimal end
                ++ (codes ") out of bounds for "
                    ++ (decimal (boundaries - 1) ++ codes " chunks")))))

module _ (x : XetClient) where
  unfoldable pub new : Text → Result Fault UploadSession
  new bytes =
      if is_empty bytes
      then err (failed (codes "refusing to upload an empty file"))
      else ok (record {
        chunks = x.next_block bytes;
        placement = replicate (x.next_block bytes) none;
        probed = replicate (x.next_block bytes) false;
      })

  unfoldable pub next_query_batch : ℕ → UploadSession → List Text × UploadSession
  next_query_batch max s =
      let (out, probed) =
        next_from x.hash_is_global_dedup_eligible max 0 true false s.chunks s.placement s.probed in
      (out, record s { probed = probed })

  unfoldable pub apply_dedup_shard : Text → UploadSession → Result Fault UploadSession
  apply_dedup_shard bytes s = do
    found ← fail_with (codes "parsing dedup shard: ") (x.load_from_reader bytes)
    key ← ok_or found (failed (codes "dedup shard missing hmac key"))
    blocks ←
        fail_with (codes "reading dedup shard xorb blocks: ") (x.read_all_xorb_blocks_full bytes)
    ok (record s { placement = resolve_all (λ h. x.hmac h key) blocks s.chunks s.placement })

  -- `bytes[boundaries[start]..boundaries[end]]`
  slice_between : Text → Option ℕ → Option ℕ → Result Fault Text
  slice_between bytes (some from) (some to) =
      if leb from to && leb to (length bytes)
      then ok (take (to - from) (drop from bytes))
      else err panicked
  slice_between bytes _ _ = err panicked

  unfoldable pub decode_chunks : Text → ℕ → ℕ → Result Fault Text
  unfolding slice_between out_of_bounds
  decode_chunks body start end = do
    decoded ← fail_with (codes "decoding chunks: ") (x.deserialize_chunks body)
    guard (leb start end && ltb end (length decoded.1))
        (failed (out_of_bounds start end (length decoded.1)))
    slice_between decoded.0 (get_elem? decoded.1 start) (get_elem? decoded.1 end)
