-- ===== src/Routes/Dedup/Tests.antt =====
-- The theorem about recorded layouts at a xorb of two chunks. Source:
-- crates/server/src/routes/dedup.rs.
use openxet.Base.{List, [], arith, none, ok, refl, some, ℕ, ◌∷◌, ◌≡◌}
use openxet.Text.{Text, codes, eq_text}
use openxet.Hash.{validate_hash}
use openxet.Storage.{xorb_path, get_xorb}
use openxet.Storage.Memory.{Objects, memory, read_object}
use openxet.Index.{XorbLayout}
use openxet.Index.Chunks.Printed.{json}
use openxet.Xorb.{
  XetCore, XorbInfo, chunk_info_triples, layout_from_info, layout_from, xorb_info_from_stored,
  has_unpacked_offsets,
}
use openxet.Routes.Dedup.{DedupCore, block_chunks}
use openxet.Routes.Dedup.Layouts.{block_chunks-layout}

abbrev xorb_d : Text
xorb_d = codes "00000000000000000000000000000000000000000000000000000000000000dd"

abbrev two_chunks : XorbInfo
two_chunks = record {
  num_chunks = 2;
  chunk_hashes = codes "c1" ∷ codes "c2" ∷ [];
  chunk_boundary_offsets = 13 ∷ 29 ∷ [];
  unpacked_chunk_offsets = 5 ∷ 12 ∷ [];
}

-- A parser to which every xorb has two chunks.
abbrev two_chunk_xorbs : XetCore
two_chunk_xorbs = record {
  parse_chunk_header = λ s. none;
  decompress = λ scheme s. ok s;
  compute_data_hash = λ s. s;
  xorb_hash = λ chunks. xorb_d;
  deserialize = λ s. some two_chunks;
  validate_xorb_object = λ s hash. ok (some two_chunks);
}

-- Shards that are their blocks' hashes, and a parser that takes every hash.
abbrev plain_shards : DedupCore
plain_shards = record {
  from_hex = λ h. ok h;
  add_xorb_block = λ blocks b. ok (b ∷ blocks);
  serialize_from = λ blocks. ok [];
  export_as_keyed_shard = λ unkeyed key ttl. ok key;
}

abbrev stored : Objects
stored = (xorb_path xorb_d, codes "0123456789") ∷ []

abbrev recorded : XorbLayout
recorded = record {
  num_bytes_on_disk = 10;
  chunks =
      record { chunk_hash = codes "c1"; unpacked_size = 5; compressed_size = 5 }
      ∷ record { chunk_hash = codes "c2"; unpacked_size = 7; compressed_size = 8 }
      ∷ [];
}

read_d : get_xorb memory xorb_d stored ≡ ok (codes "0123456789")
unfolding get_xorb validate_hash read_object eq_text xorb_path
read_d = refl

info_d : xorb_info_from_stored two_chunk_xorbs (codes "0123456789") ≡ ok two_chunks
unfolding xorb_info_from_stored has_unpacked_offsets
info_d = refl

layout_d : layout_from_info two_chunks 10 ≡ some recorded
unfolding layout_from_info layout_from
layout_d = refl

block_chunks-layout_example :
    (ts : List (Text × ℕ × ℕ)) × (chunk_info_triples two_chunks ≡ some ts)
    × (block_chunks plain_shards memory two_chunk_xorbs json xorb_d (some recorded) stored
        ≡ ok (ts, 10))
    × (block_chunks plain_shards memory two_chunk_xorbs json xorb_d none stored ≡ ok (ts, 10))
block_chunks-layout_example =
    block_chunks-layout plain_shards memory two_chunk_xorbs json xorb_d (codes "0123456789")
      two_chunks recorded stored read_d info_d layout_d (refl, (refl, tt))
      (omega arith, (omega arith, tt))
