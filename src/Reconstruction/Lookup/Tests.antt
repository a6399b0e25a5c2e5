-- ===== src/Reconstruction/Lookup/Tests.antt =====
-- The theorem about plans at a file of one term, and the theorem about its detail. Sources:
-- crates/server/src/routes/reconstruction.rs and files.rs.
use openxet.Base.{
  List, Result, [], arith, drop, err, false, map, min, none, ok, refl, some, suc, take, true, zero,
  ℕ, ◌++◌, ◌-◌, ◌∷◌, ◌≡◌,
}
use openxet.Text.{Text, codes, eq_text, split_once, strip_prefix}
use openxet.Text.Decimal.{parse_u64}
use openxet.Errors.{AppError}
use openxet.Hash.{validate_hash}
use openxet.Auth.{Claims, admin, owner, satisfies, write}
use openxet.Auth.Middleware.{HeaderMap}
use openxet.Storage.{get_shard, shard_path}
use openxet.Storage.Memory.{Objects, memory, read_object}
use openxet.Index.Files as Files
use openxet.Index.Files.Claims.{held}
use openxet.Gc.{AppState}
use openxet.Routes.Shard.{ShardFile}
use openxet.Reconstruction.Types.{ReconstructionTerm}
use openxet.Reconstruction.Range.{parse_range_header}
use openxet.Reconstruction.Trim.{total_size}
use openxet.Reconstruction.Trim.Bytes.{content}
use openxet.Reconstruction.Lookup.{find_file, reconstruction_terms, term_of}
use openxet.Reconstruction.Lookup.Content.{MayRead, reconstruction_terms-content}

abbrev file_a : Text
file_a = codes "00000000000000000000000000000000000000000000000000000000000000aa"

abbrev shard_c : Text
shard_c = codes "00000000000000000000000000000000000000000000000000000000000000cc"

abbrev shard_file : ShardFile
shard_file = record {
  file_hash = file_a;
  contains_verification = true;
  entries =
      record {
        xorb_hash = codes "d";
        chunk_index_start = 0;
        chunk_index_end = 2;
        unpacked_segment_bytes = 12;
        range_hash = codes "v";
      }
      ∷ [];
}

-- A parser to which every shard holds the one file.
abbrev one_file : Text → Result Text (List ShardFile)
one_file bytes = ok (shard_file ∷ [])

abbrev server : AppState Objects
server = record {
  file_index = record {
    file_index = record { file_hash = file_a; shard_hash = shard_c } ∷ [];
    file_ownership =
        record {
          file_hash = file_a;
          owner_id = codes "alice";
          logical_bytes = 12;
          created_at_unix = 7;
        }
        ∷ [];
  };
  chunk_index = record { chunk_index = []; xorb_layout = [] };
  storage = (shard_path shard_c, codes "s") ∷ [];
}

abbrev alice : Claims
alice = record { scope = write; repo = []; exp = 99; sub = codes "alice" }

abbrev ranged : HeaderMap
ranged name = some (some (codes "bytes=3-4"))

abbrev zeros : ℕ → Text
zeros zero = []
zeros (suc n) = 0 ∷ zeros n

abbrev decoded : ReconstructionTerm → Text
decoded t = zeros t.unpacked_length

file_a-valid : validate_hash file_a ≡ ok tt
unfolding validate_hash
file_a-valid = refl

file_a-resolves : Files.get server.file_index file_a ≡ ok (some shard_c)
unfolding Files.get validate_hash eq_text
file_a-resolves = refl

shard_c-stored : get_shard memory shard_c server.storage ≡ ok (codes "s")
unfolding get_shard validate_hash read_object eq_text shard_path
shard_c-stored = refl

file_a-found : find_file file_a (shard_file ∷ []) ≡ some shard_file
unfolding find_file eq_text
file_a-found = refl

range_3_4 : parse_range_header ranged ≡ ok (some (3, 4))
unfolding parse_range_header strip_prefix split_once parse_u64
range_3_4 = refl

reconstruction_terms-content_example :
    (MayRead server.file_index alice file_a
      → (off : ℕ) × (ks : List ReconstructionTerm) × (reconstruction_terms memory one_file server
            alice file_a ranged
          ≡ ok (off, ks))
        × (take
              (suc (min 4 (total_size (map term_of shard_file.entries) - 1)) - 3)
              (drop off (content decoded ks))
            ≡ take
                (suc (min 4 (total_size (map term_of shard_file.entries) - 1)) - 3)
                (drop 3 (content decoded (map term_of shard_file.entries)))))
    × (satisfies alice.scope admin ≡ false
        → held (owner alice) file_a server.file_index.file_ownership ≡ none
        → reconstruction_terms memory one_file server alice file_a ranged
          ≡ err (AppError.not_found (codes "file not found: " ++ file_a)))
reconstruction_terms-content_example =
    reconstruction_terms-content memory one_file server alice file_a ranged shard_c (codes "s")
      (shard_file ∷ []) shard_file decoded 3 4 file_a-valid file_a-resolves shard_c-stored refl
      file_a-found range_3_4 (refl, tt) (omega arith) (omega arith)
