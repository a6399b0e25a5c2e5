-- ===== src/Lib.antt =====
-- openxet: a content-addressed storage server for large files, and the library that models it.
--
-- A client cuts a file into chunks, packs the chunks into xorbs and describes the file in a
-- shard; the server (crates/server) stores xorbs and shards as objects, keeps indexes of them in
-- a database, and answers where the bytes of a file are. Callers carry tokens with a scope; xorbs
-- on a local disk are fetched by signed URLs; a collection deletes what no file needs.
--
-- The parts, and the files that model them:
--   Text, Text/Laws, Text/Decimal: Rust's strings as lists of bytes, comparison, splitting, and
--     the printing and parsing of `u64`.
--   Errors: crates/server/src/error.rs and storage/error.rs.
--   Hash: `validate_hash` of crates/server/src/storage/backend.rs.
--   Auth: crates/server/src/auth. Auth.antt has scopes and claims (jwt.rs), Auth/Oidc the mapping
--     `oidc_claims_to_app_claims`, Auth/Middleware `verify_token`, `authorize` and the extractors
--     (middleware.rs), Auth/FetchUrl `sign_xorb_url` and `verify_xorb_url` (fetch_url.rs),
--     Auth/Jwks `key_for` and `fetch` (jwks.rs).
--   Sql: ordering and the cursor condition of the listing queries.
--   Pagination: crates/server/src/pagination.rs.
--   Index: crates/server/src/storage/index. Index/Files and Index/Chunks are `SqliteFileIndex`
--     and `SqliteChunkIndex` of sqlite_index.rs: a table is a list of rows, a statement a
--     function on it. Index/Postgres is `PostgresChunkIndex` of postgres_index.rs, whose rows
--     carry a sequence number.
--   Xorb: crates/server/src/routes/xorb_meta.rs, the chunk metadata of a xorb.
--   Reconstruction: crates/server/src/routes/reconstruction.rs and the types of crates/cas_types:
--     the range header (Range), the lookup of a file (Lookup), the terms of a range (Trim), the
--     byte spans of chunks (Offsets), the ranges to fetch of each xorb (Merge), and the entries
--     and responses (Fetch).
--   Storage: crates/server/src/storage/object_store_backend.rs.
--   Gc: crates/server/src/gc.rs and `post_gc` of routes/admin.rs.
--   Routes: crates/server/src/routes. Routes/Files is `authorize_file_read` and `list_files` of
--     files.rs, Routes/Files/Deletion is `delete_file`, Routes/Files/Detail `get_file`,
--     Routes/Shard is shard.rs, Routes/Xorb is xorb.rs, Routes/Dedup is dedup.rs, Routes/Log is
--     `redact_query` of mod.rs.
--   Wasm: crates/wasm/src/lib.rs, the upload session of the browser: `new`, `next_query_batch`,
--     `apply_dedup_shard` and `decode_chunks`. Wasm/Plan is `build_plan` with its packing
--     (`pack`, `seal`), its terms and the serialization of the shard; Wasm/Finish has what
--     `finish` and `build_upload_plan` answer.
--   Config: crates/server/src/config.rs.
--   Base: the names and the list lemmas that the others share, and `Result` with its `do`
--     notation.
--
-- How the parts meet: a client plans its upload with Wasm, posts each xorb to Routes/Xorb, which
-- validates it with Xorb and records it in Index/Chunks, and then the shard to Routes/Shard,
-- which checks every term against the stored xorbs and puts the files in Index/Files. A handler
-- is authorized by Auth, reads Index for a shard or a layout, reads Storage for bytes, and
-- answers with a plan of Reconstruction whose byte spans come from Xorb through the layouts of
-- Index/Chunks. Gc reads the files of Index, the shards of Storage, and deletes in both.
--
-- `verify_token` finds its keys by `key_for` of Auth/Jwks: its answer depends on the key cache as
-- the call finds it (`Keys`), and `keys_left` is the cache that it leaves.
--
-- Machine integers are natural numbers below the width, and the times of objects are `ℤ`; where
-- the source can wrap, `% 2 ^ w` is written out. An error is a value of `Result`; a panic is
-- `none` or `Failure.panic`. Stateful code takes the state and returns the next one. Two loops
-- take fuel: the frame walk in Xorb, with one more than the bytes of the body, which is enough
-- since every frame takes at least eight, and the terms of a plan in Wasm, with one for each
-- chunk, which is enough since every term takes a chunk.
--
-- Parameters, with what is assumed of them: HMAC and hex (`Mac`: hex decodes what it encodes),
-- base64 (`Base64`), JSON of layouts (`Json`: a printed layout reads back), the decoding of
-- tokens and of their keys (`Tokens`), xet-core's parsing and hashing (`XetCore`, `ShardCore`,
-- `DedupCore`, `XetClient`), key sets and the network (`Issuers`), the object store
-- (`ObjectStore`: a successful write or deletion is seen, and other objects are left alone), the
-- parser of stored shards, and presigned URLs. The configuration file, parsed, is an argument of
-- `load`.
--
-- Not modelled: the table of routes, the Postgres file index (the same statements as in SQLite),
-- start-up, the web pages and the Python client. Failures of the database and concurrent requests
-- are left out too.
pub mod Base
pub mod Text
pub mod Errors
pub mod Hash
pub mod Auth
pub mod Sql
pub mod Pagination
pub mod Index
pub mod Xorb
pub mod Reconstruction
pub mod Storage
pub mod Gc
pub mod Routes
pub mod Wasm
pub mod Config
