-- ===== src/Reconstruction/Types.antt =====
-- The wire types. Source: crates/cas_types/src/reconstruction.rs.
use openxet.Base.{Bool, List, leb, ℕ, ◌%◌, ◌&&◌, ◌+◌, ◌-◌, ◌^◌}
use openxet.Text.{Text}

-- `[start, end)`
pub record ChunkRange : Type 0 where
  pub start : ℕ
  pub end : ℕ

-- `self.end - self.start` on `usize` in a release build.
unfoldable pub len : ChunkRange → ℕ
len r = (r.end + 2 ^ 64 - r.start % 2 ^ 64) % 2 ^ 64

unfoldable pub is_empty_range : ChunkRange → Bool
is_empty_range r = leb r.end r.start

unfoldable pub contains_range : ChunkRange → ChunkRange → Bool
contains_range self other = leb self.start other.start && leb other.end self.end

-- `[start, end]`
pub record ByteRange : Type 0 where
  pub start : ℕ
  pub end : ℕ

pub record ReconstructionTerm : Type 0 where
  pub hash : Text
  pub unpacked_length : ℕ
  pub range : ChunkRange

pub record FetchInfo : Type 0 where
  pub range : ChunkRange
  pub url : Text
  pub url_range : ByteRange

pub record XorbRangeDescriptor : Type 0 where
  pub chunks : ChunkRange
  pub bytes : ByteRange

pub record XorbMultiRangeFetch : Type 0 where
  pub url : Text
  pub ranges : List XorbRangeDescriptor

-- The maps are lists of entries with one entry for each xorb.
pub record QueryReconstructionResponse : Type 0 where
  pub offset_into_first_range : ℕ
  pub terms : List ReconstructionTerm
  pub fetch_info : List (Text × List FetchInfo)

pub record QueryReconstructionResponseV2 : Type 0 where
  pub offset_into_first_range : ℕ
  pub terms : List ReconstructionTerm
  pub xorbs : List (Text × List XorbMultiRangeFetch)
