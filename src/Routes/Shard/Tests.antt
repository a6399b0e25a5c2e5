-- ===== src/Routes/Shard/Tests.antt =====
-- The theorems about registration at a shard with one file of two chunks. Source:
-- crates/server/src/routes/shard.rs.
use openxet.Base.{All, [], none, ok, refl, some, true, ◌∷◌, ◌≡◌}
use openxet.Text.{Text, codes, eq_text}
use openxet.Hash.{validate_hash}
use openxet.Auth.{Claims, write, owner}
use openxet.Gc.{AppState}
use openxet.Storage.{xorb_path, shard_path, xorb_exists, get_xorb, put_shard}
use openxet.Storage.Memory.{Objects, memory, read_object, head_object}
use openxet.Index.Chunks.{put_batch}
use openxet.Index.Files as Files
use openxet.Xorb.{XorbInfo, XetCore, xorb_info_from_stored, has_unpacked_offsets}
use openxet.Routes.Shard.{
  Shard, ShardCore, validate_shard, check_files, check_file, check_terms, check_term, cached_info,
  find_info, slice_of, start_offset, sized_chunks, register_shard, store_shard, put_files,
  xorb_locations, locations,
}
use openxet.Routes.Shard.Verified.{FilesSized, validate_shard-FilesSized}
use openxet.Routes.Shard.Registered.{Registered, register_shard-Registered}

abbrev file_a : Text
file_a = codes "00000000000000000000000000000000000000000000000000000000000000aa"

abbrev shard_c : Text
shard_c = codes "00000000000000000000000000000000000000000000000000000000000000cc"

abbrev xorb_d : Text
xorb_d = codes "00000000000000000000000000000000000000000000000000000000000000dd"

abbrev chunk_one : Text
chunk_one = codes "0000000000000000000000000000000000000000000000000000000000000001"

abbrev chunk_two : Text
chunk_two = codes "0000000000000000000000000000000000000000000000000000000000000002"

abbrev two_chunks : XorbInfo
two_chunks = record {
  num_chunks = 2;
  chunk_hashes = chunk_one ∷ chunk_two ∷ [];
  chunk_boundary_offsets = 13 ∷ 29 ∷ [];
  unpacked_chunk_offsets = 5 ∷ 12 ∷ [];
}

-- A parser to which every xorb has two chunks.
abbrev two_chunk_xorbs : XetCore
two_chunk_xorbs = record {
  parse_chunk_header = λ s. none;
  decompress = λ scheme s. ok s;
  compute_data_hash = λ s. s;
  xorb_hash = λ chunks. xorb_d;
  deserialize = λ s. some two_chunks;
  validate_xorb_object = λ s hash. ok (some two_chunks);
}

abbrev one_file : Shard
one_file = record {
  files =
      record {
        file_hash = file_a;
        contains_verification = true;
        entries =
            record {
              xorb_hash = xorb_d;
              chunk_index_start = 0;
              chunk_index_end = 2;
              unpacked_segment_bytes = 12;
              range_hash = chunk_one;
            }
            ∷ [];
      }
      ∷ [];
  xorbs = record { xorb_hash = xorb_d; chunk_hashes = chunk_one ∷ chunk_two ∷ [] } ∷ [];
}

-- A parser to which every shard is the one above, with hashes that take the first chunk.
abbrev one_file_shards : ShardCore
one_file_shards = record {
  footer_size = λ body. ok 0;
  from_reader = λ body. ok one_file;
  file_hash = λ chunks. file_a;
  range_hash_from_chunks = λ hashes. chunk_one;
  compute_data_hash = λ body. shard_c;
}

abbrev uploaded : Objects
uploaded = (xorb_path xorb_d, codes "x") ∷ []

abbrev server : AppState Objects
server = record {
  file_index = record { file_index = []; file_ownership = [] };
  chunk_index = record { chunk_index = []; xorb_layout = [] };
  storage = uploaded;
}

abbrev alice : Claims
alice = record { scope = write; repo = []; exp = 99; sub = codes "alice" }

abbrev registered : AppState Objects
registered = (register_shard memory two_chunk_xorbs one_file_shards alice (codes "s") 7 server).1

one_file-valid :
    validate_shard memory two_chunk_xorbs one_file_shards uploaded (codes "s")
    ≡ ok (one_file, (file_a, 12) ∷ [])
unfolding validate_shard check_files check_file check_terms check_term cached_info find_info
    slice_of start_offset sized_chunks xorb_exists get_xorb validate_hash xorb_info_from_stored
    has_unpacked_offsets read_object head_object eq_text xorb_path
one_file-valid = refl

register_alice :
    register_shard memory two_chunk_xorbs one_file_shards alice (codes "s") 7 server
    ≡ (ok true, registered)
unfolding register_shard validate_shard check_files check_file check_terms check_term cached_info
    find_info slice_of start_offset sized_chunks xorb_exists get_xorb validate_hash
    xorb_info_from_stored has_unpacked_offsets read_object head_object eq_text xorb_path store_shard
    put_shard put_files Files.put Files.claim put_batch xorb_locations locations shard_path
register_alice = refl

validate_shard-FilesSized_example :
    (one_file_shards.from_reader (codes "s") ≡ ok one_file)
    × (one_file_shards.footer_size (codes "s") ≡ ok 0)
    × FilesSized memory two_chunk_xorbs one_file_shards uploaded one_file.files ((file_a, 12) ∷ [])
validate_shard-FilesSized_example =
    validate_shard-FilesSized memory two_chunk_xorbs one_file_shards uploaded (codes "s")
      (one_file, (file_a, 12) ∷ []) one_file-valid

register_shard-Registered_example :
    (shard : Shard) × (one_file_shards.from_reader (codes "s") ≡ ok shard)
    × All (λ f. Registered (owner alice) shard_c registered.file_index f.file_hash) shard.files
register_shard-Registered_example =
    register_shard-Registered memory two_chunk_xorbs one_file_shards alice (codes "s") 7 server
      registered true register_alice
