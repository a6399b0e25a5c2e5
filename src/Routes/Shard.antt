-- ===== src/Routes/Shard.antt =====
-- The registration of shards. Source: crates/server/src/routes/shard.rs. A `MerkleHash` is its hex
-- text. The format of shards and the hashes of xet-core are the parameter `ShardCore`: what the
-- accessors of a parsed shard answer is its record.
pub mod Verified
pub mod Registered
mod Tests
use openxet.Base.{
  Bool, List, Option, Result, [], drop, err, false, get_elem?, guard, if◌then◌else◌, leb, length,
  ltb, none, ok, ok_or, some, suc, take, true, zero, ℕ, ◌%◌, ◌*◌, ◌++◌, ◌+◌, ◌-◌, ◌==◌, ◌>>=◌, ◌>>◌,
  ◌∷◌,
}
use openxet.Text.{Text, codes, eq_text}
use openxet.Text.Decimal.{decimal, u64_mod}
use openxet.Errors.{
  AppError, Failure, error, panic, lift_app, lift_storage, StorageError, from_storage,
}
use openxet.Hash.{validate_hash}
use openxet.Auth.{Claims, owner}
use openxet.Storage.{ObjectStore, xorb_exists, get_xorb, put_shard}
use openxet.Index.{ChunkLocation}
use openxet.Index.Files.{FileIndex}
use openxet.Index.Files as Files
use openxet.Index.Chunks.{put_batch}
use openxet.Xorb.{XetCore, XorbInfo, xorb_info_from_stored, sub32, u32_mod}
use openxet.Gc.{AppState}

abbrev max_shard_size : ℕ
max_shard_size = 64 * 1024 * 1024

-- A term of a file with the verification hash that stands beside it.
pub record ShardEntry : Type 0 where
  pub xorb_hash : Text
  pub chunk_index_start : ℕ
  pub chunk_index_end : ℕ
  pub unpacked_segment_bytes : ℕ
  pub range_hash : Text

pub record ShardFile : Type 0 where
  pub file_hash : Text
  pub contains_verification : Bool
  pub entries : List ShardEntry

pub record ShardXorb : Type 0 where
  pub xorb_hash : Text
  pub chunk_hashes : List Text

pub record Shard : Type 0 where
  pub files : List ShardFile
  pub xorbs : List ShardXorb

pub record ShardCore : Type 0 where
  -- `MDBShardFileHeader::deserialize`, of which the footer's size is read.
  pub footer_size : Text → Result Text ℕ
  pub from_reader : Text → Result Text Shard
  pub file_hash : List (Text × ℕ) → Text
  pub range_hash_from_chunks : List Text → Text
  pub compute_data_hash : Text → Text

abbrev pub bad : Text → Failure
bad msg = error (AppError.bad_request msg)

-- `map_err(BadRequest)` on a parse.
invalid_shard : {A : Type 0} → Result Text A → Result Failure A
invalid_shard (ok a) = ok a
invalid_shard (err e) = err (bad (codes "invalid shard: " ++ e))

-- The metadata of the xorbs that were read, the newest first.
abbrev pub Cache : Type 0
Cache = List (Text × XorbInfo)

unfoldable pub find_info : Text → Cache → Option XorbInfo
find_info h [] = none
find_info h ((k, info) ∷ cache) = elim (eq_text k h) [
  | true ↦ some info
  | false ↦ find_info h cache
]

-- `offsets[k]` for the chunks `k` of a term, with `prev` the end of the chunk before: each chunk with
-- its size, and the last end.
unfoldable pub sized_chunks : List Text → List ℕ → ℕ → Result Failure (List (Text × ℕ) × ℕ)
sized_chunks [] ends prev = ok ([], prev)
sized_chunks (h ∷ hs) [] prev = err panic
sized_chunks (h ∷ hs) (end ∷ ends) prev = do
  rest ← sized_chunks hs ends end
  ok ((h, sub32 end prev) ∷ rest.0, rest.1)

-- `&v[start..end]`
unfoldable pub slice_of : List Text → ℕ → ℕ → Result Failure (List Text)
slice_of v start end =
    if ltb (length v) end then err panic else ok (take (end - start) (drop start v))

unfoldable pub start_offset : List ℕ → ℕ → Result Failure ℕ
start_offset offsets zero = ok 0
start_offset offsets (suc k) = ok_or (get_elem? offsets k) panic

span : ShardFile → ℕ → Text
span file term_idx = codes "file " ++ (file.file_hash ++ (codes " term " ++ decimal term_idx))

bounds : ShardEntry → Text
bounds e = b'[' ∷ (decimal e.chunk_index_start ++ (b',' ∷ (decimal e.chunk_index_end ++ codes ")")))

abbrev total : List (Text × ℕ) → ℕ
total [] = 0
total ((h, n) ∷ cs) = n + total cs

module _ {S : Type 0} (store : ObjectStore S) (xet : XetCore) (core : ShardCore) where
  read_info : S → Text → Result AppError XorbInfo
  read_info s h = do
    exists ← lift_storage (xorb_exists store h s)
    guard exists (AppError.bad_request (codes "referenced xorb not found: " ++ h))
    xorb_data ← lift_storage (get_xorb store h s)
    xorb_info_from_stored xet xorb_data

  unfoldable pub cached_info : S → Cache → Text → Result Failure (XorbInfo × Cache)
  unfolding read_info
  cached_info s cache h = elim (find_info h cache) [
    | some info ↦ ok (info, cache)
    | none ↦ lift_app (read_info s h) >>= λ info. ok (info, (h, info) ∷ cache)
  ]

  -- One term: its chunks with their sizes, once its hash and its length are verified.
  unfoldable pub check_term :
      S → ShardFile → ℕ → ShardEntry → Cache → Result Failure (List (Text × ℕ) × Cache)
  unfolding span bounds
  check_term s file term_idx e cache = do
    lift_app (lift_storage (validate_hash e.xorb_hash))
    guard (ltb e.chunk_index_start e.chunk_index_end)
        (bad (span file term_idx ++ (codes " has empty or inverted chunk range " ++ bounds e)))
    read ← cached_info s cache e.xorb_hash
    guard (leb e.chunk_index_end read.0.num_chunks) (
        bad (
          codes "xorb "
          ++ (e.xorb_hash
              ++ (codes " term "
                  ++ (bounds e
                      ++ (codes " exceeds its "
                          ++ (decimal read.0.num_chunks ++ codes " chunks")))))))
    hashes ← slice_of read.0.chunk_hashes e.chunk_index_start e.chunk_index_end
    guard (eq_text (core.range_hash_from_chunks hashes) e.range_hash)
        (bad (codes "verification hash mismatch for " ++ span file term_idx))
    term_start ← start_offset read.0.unpacked_chunk_offsets e.chunk_index_start
    chunks ← sized_chunks hashes (drop e.chunk_index_start read.0.unpacked_chunk_offsets) term_start
    guard (sub32 chunks.1 term_start == e.unpacked_segment_bytes) (
        bad (
          span file term_idx
          ++ (codes " declares "
              ++ (decimal e.unpacked_segment_bytes
                  ++ (codes " unpacked bytes, but its chunks hold "
                      ++ decimal (sub32 chunks.1 term_start))))))
    ok (chunks.0, read.1)

  unfoldable pub check_terms :
      S → ShardFile → ℕ → List ShardEntry → Cache → Result Failure (List (Text × ℕ) × Cache)
  check_terms s file term_idx [] cache = ok ([], cache)
  check_terms s file term_idx (e ∷ es) cache = do
    here ← check_term s file term_idx e cache
    rest ← check_terms s file (suc term_idx) es here.1
    ok (here.0 ++ rest.0, rest.1)

  -- One file: its hash and its size.
  unfoldable pub check_file : S → ShardFile → Cache → Result Failure ((Text × ℕ) × Cache)
  check_file s file cache = do
    guard (ltb 0 (length file.entries)) (bad (codes "file info block has no entries"))
    guard file.contains_verification (
        bad (
          codes "file "
          ++ (file.file_hash
              ++ codes " has no verification entries; upload shards must carry them")))
    chunks ← check_terms s file 0 file.entries cache
    guard (eq_text (core.file_hash chunks.0) file.file_hash)
        (bad (codes "file hash mismatch for declared file " ++ file.file_hash))
    ok ((core.file_hash chunks.0, total chunks.0 % u64_mod), chunks.1)

  unfoldable pub check_files : S → List ShardFile → Cache → Result Failure (List (Text × ℕ))
  check_files s [] cache = ok []
  check_files s (f ∷ fs) cache = do
    here ← check_file s f cache
    rest ← check_files s fs here.1
    ok (here.0 ∷ rest)

  -- What is done before anything is written.
  unfoldable pub validate_shard : S → Text → Result Failure (Shard × List (Text × ℕ))
  unfolding invalid_shard
  validate_shard s body = do
    guard (leb (length body) max_shard_size) (error AppError.payload_too_large)
    footer ← invalid_shard (core.footer_size body)
    guard (footer == 0) (bad (codes "upload shards must have footer_size=0"))
    shard ← invalid_shard (core.from_reader body)
    sizes ← check_files s shard.files []
    ok (shard, sizes)

-- Each file resolves to the shard, and its uploader claims it. The first failure ends the loop, with
-- what was written by then.
unfoldable pub put_files :
    Text → Text → ℕ → List (Text × ℕ) → FileIndex → Result StorageError (Unit {0}) × FileIndex
put_files own shard_hash now [] idx = (ok tt, idx)
put_files own shard_hash now ((h, logical_bytes) ∷ sizes) idx = elim (Files.put idx h shard_hash) [
  | err e ↦ (err e, idx)
  | ok idx' ↦
      elim (Files.claim idx' own h
        (record { logical_bytes = logical_bytes; created_at_unix = now })) [
          | err e ↦ (err e, idx')
          | ok idx'' ↦ put_files own shard_hash now sizes idx''
        ]
]

-- `enumerate`, with the index as `u32`.
unfoldable pub locations : Text → ℕ → List Text → List (Text × ChunkLocation)
locations xorb_hash i [] = []
locations xorb_hash i (h ∷ hs) =
    (h, record { xorb_hash = xorb_hash; chunk_index = i % u32_mod })
    ∷ locations xorb_hash (suc i) hs

unfoldable pub xorb_locations : List ShardXorb → List (Text × ChunkLocation)
xorb_locations [] = []
xorb_locations (x ∷ xs) = locations x.xorb_hash 0 x.chunk_hashes ++ xorb_locations xs

module _ {S : Type 0} (store : ObjectStore S) (xet : XetCore) (core : ShardCore) where
  index_chunks : Bool → Shard → AppState S → Result Failure Bool × AppState S
  index_chunks was_inserted shard st =
      elim (put_batch st.chunk_index (xorb_locations shard.xorbs)) [
        | err e ↦ (err (error (from_storage e)), st)
        | ok chunks ↦ (ok was_inserted, record st { chunk_index = chunks })
      ]

  index_files :
      Claims
      → Text
      → ℕ
      → Bool
      → Shard
      → List (Text × ℕ)
      → AppState S
      → Result Failure Bool × AppState S
  unfolding index_chunks
  index_files claims shard_hash now was_inserted shard sizes st =
      let (r, idx) = put_files (owner claims) shard_hash now sizes st.file_index in
      let st' : AppState S = record st { file_index = idx } in
      elim r [
        | err e ↦ (err (error (from_storage e)), st')
        | ok u ↦ index_chunks was_inserted shard st'
      ]

  -- The writes: the shard, the files with their claims, the chunks.
  unfoldable pub store_shard :
      Claims → Text → ℕ → Shard × List (Text × ℕ) → AppState S → Result Failure Bool × AppState S
  unfolding index_files
  store_shard claims body now (shard, sizes) st =
      let shard_hash = core.compute_data_hash body in
      let (r, s) = put_shard store shard_hash body st.storage in
      let st' : AppState S = record st { storage = s } in
      elim r [
        | err e ↦ (err (error (from_storage e)), st')
        | ok was_inserted ↦ index_files claims shard_hash now was_inserted shard sizes st'
      ]

  unfoldable pub register_shard : Claims → Text → ℕ → AppState S → Result Failure Bool × AppState S
  unfolding validate_shard
  register_shard claims body now st = elim (validate_shard store xet core st.storage body) [
    | err e ↦ (err e, st)
    | ok valid ↦ store_shard claims body now valid st
  ]

  -- The answers of `/v1/shards` and `/v2/shards`.
  unfoldable pub post_shard : Claims → Text → ℕ → AppState S → Result Failure ℕ × AppState S
  unfolding register_shard
  post_shard claims body now st =
      let (r, st') = register_shard claims body now st in
      (r >>= λ was_inserted. ok (if was_inserted then 1 else 0), st')

  unfoldable pub post_shard_v2 : Claims → Text → ℕ → AppState S → Result Failure Text × AppState S
  unfolding register_shard
  post_shard_v2 claims body now st =
      let (r, st') = register_shard claims body now st in
      (r >>= λ was_inserted. ok (codes "{\"type\":\"result\"}\n"), st')
