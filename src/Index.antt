-- ===== src/Index.antt =====
-- The rows and answers of the two indexes. Source: crates/server/src/storage/index/mod.rs.
-- Machine integers are plain numbers: sizes and times stay below 2 ^ 63, so the casts between `u64`
-- and the tables' `BIGINT` change nothing. Times are seconds since 1970.
pub mod Files
pub mod Chunks
pub mod Postgres
mod Tests
use openxet.Base.{List, ℕ}
use openxet.Text.{Text}

pub record ChunkLocation : Type 0 where
  pub xorb_hash : Text
  pub chunk_index : ℕ

pub record XorbChunk : Type 0 where
  pub chunk_hash : Text
  pub unpacked_size : ℕ
  pub compressed_size : ℕ

pub record XorbLayout : Type 0 where
  pub num_bytes_on_disk : ℕ
  pub chunks : List XorbChunk

pub record OwnershipClaim : Type 0 where
  pub logical_bytes : ℕ
  pub created_at_unix : ℕ

pub record OwnerUsage : Type 0 where
  pub owner : Text
  pub file_count : ℕ
  pub logical_bytes : ℕ

pub record OwnerClaim : Type 0 where
  pub owner : Text
  pub logical_bytes : ℕ
  pub created_at_unix : ℕ

pub record FileListEntry : Type 0 where
  pub file_hash : Text
  pub shard_hash : Text
  pub logical_bytes : ℕ

pub record XorbSummary : Type 0 where
  pub xorb_hash : Text
  pub num_bytes_on_disk : ℕ
  pub chunk_count : ℕ

pub record UsageReport : Type 0 where
  pub owners : List OwnerUsage
  pub claimed_files : ℕ
  pub unique_file_bytes : ℕ
