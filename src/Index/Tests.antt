-- ===== src/Index/Tests.antt =====
-- Concrete indexes, and the theorems about the operations at them.
use openxet.Base.{
  List, Option, [], if◌then◌else◌, keep, map, none, ok, refl, some, true, ℕ, ◌>>◌, ◌||◌, ◌↔◌, ◌∷◌,
  ◌≡◌, ◌≢◌,
}
use openxet.Text.{Text, codes, eq_text}
use openxet.Hash.{validate_hash}
use openxet.Index.{ChunkLocation, XorbLayout, OwnershipClaim}
use openxet.Index.Files.{FileIndex, get, put, remove, claim, release, file_claims}
use openxet.Index.Files.Keys.{
  get-put, get-remove, run-empty-IsValid, IsValid, run, empty, puts, removes,
}
use openxet.Index.Files.Claims.{claim-held, release-held, held, same_claim, renewed}
use openxet.Index.Chunks as Sqlite
use openxet.Index.Postgres as Postgres
use openxet.Index.Postgres.Agreement.{
  ChunkWrite, batch_write, removal_write, run_postgres, run_sqlite, no_postgres_rows,
  no_sqlite_rows, run_postgres-run_sqlite,
}
use openxet.Index.Chunks.{
  ChunkIndex, ChunkRow, row_of, put_batch, remove_xorb, put_xorb_layout, get_xorb_layout,
}
use openxet.Index.Chunks.Keys.{located, DistinctRows, put_batch-located}
use openxet.Index.Chunks.Printed.{json}

abbrev file_a : Text
file_a = codes "00000000000000000000000000000000000000000000000000000000000000aa"

abbrev file_b : Text
file_b = codes "00000000000000000000000000000000000000000000000000000000000000bb"

abbrev shard_c : Text
shard_c = codes "00000000000000000000000000000000000000000000000000000000000000cc"

abbrev one_file : FileIndex
one_file = record {
  file_index = record { file_hash = file_a; shard_hash = shard_c } ∷ [];
  file_ownership = [];
}

abbrev two_files : FileIndex
two_files = record {
  file_index =
      record { file_hash = file_a; shard_hash = shard_c }
      ∷ record { file_hash = file_b; shard_hash = shard_c }
      ∷ [];
  file_ownership = [];
}

put_b : put one_file file_b shard_c ≡ ok two_files
unfolding put validate_hash eq_text
put_b = refl

get-put_example : get two_files file_a ≡ (
    if eq_text file_b file_a
    then (validate_hash file_a >> ok (some shard_c))
    else get one_file file_a)
get-put_example = get-put one_file two_files file_b shard_c file_a put_b

remove_b : remove two_files file_b ≡ ok one_file
unfolding remove validate_hash eq_text keep
remove_b = refl

get-remove_example :
    (get one_file file_a
      ≡ (if eq_text file_b file_a then (validate_hash file_a >> ok none) else get two_files file_a))
    × (file_claims one_file file_a ≡ (
        if eq_text file_b file_a
        then (validate_hash file_a >> ok [])
        else file_claims two_files file_a))
get-remove_example = get-remove two_files one_file file_b file_a remove_b

run-empty-IsValid_example :
    IsValid (run empty (puts file_a shard_c ∷ removes file_a ∷ puts file_b shard_c ∷ []))
run-empty-IsValid_example =
    run-empty-IsValid (puts file_a shard_c ∷ removes file_a ∷ puts file_b shard_c ∷ [])

abbrev alice : Text
alice = codes "alice"

abbrev claim_of : OwnershipClaim
claim_of = record { logical_bytes = 10; created_at_unix = 7 }

abbrev claimed_file : FileIndex
claimed_file = record {
  file_index = one_file.file_index;
  file_ownership =
      record { file_hash = file_a; owner_id = alice; logical_bytes = 10; created_at_unix = 7 } ∷ [];
}

claim_a : claim one_file alice file_a claim_of ≡ ok claimed_file
unfolding claim validate_hash
claim_a = refl

claim-held_example :
    ((u g : Text)
      → held u g claimed_file.file_ownership ≡ (
          if same_claim alice file_a u g
          then some (renewed (held alice file_a one_file.file_ownership) claim_of)
          else held u g one_file.file_ownership))
    × (claimed_file.file_index ≡ one_file.file_index)
claim-held_example = claim-held one_file claimed_file alice file_a claim_of claim_a

release_a : release claimed_file alice file_a ≡ ok (one_file, true)
unfolding release validate_hash eq_text keep
release_a = refl

release-held_example :
    ((true ≡ true) ↔ (held alice file_a claimed_file.file_ownership ≢ none))
    × ((u g : Text)
        → held u g one_file.file_ownership
          ≡ (if same_claim alice file_a u g then none else held u g claimed_file.file_ownership))
    × (one_file.file_index ≡ claimed_file.file_index)
release-held_example = release-held claimed_file one_file alice file_a true release_a

abbrev place : ChunkLocation
place = record { xorb_hash = shard_c; chunk_index = 0 }

abbrev no_chunks : ChunkIndex
no_chunks = record { chunk_index = []; xorb_layout = [] }

abbrev one_chunk : ChunkIndex
one_chunk = record {
  chunk_index = record { chunk_hash = file_a; location = place } ∷ [];
  xorb_layout = [];
}

put_place : put_batch no_chunks ((file_a, place) ∷ []) ≡ ok one_chunk
unfolding put_batch validate_hash
put_place = refl

put_batch-located_example :
    ((r : ChunkRow)
      → located r one_chunk.chunk_index
        ≡ (located r (map row_of ((file_a, place) ∷ [])) || located r []))
    × DistinctRows one_chunk.chunk_index
    × (one_chunk.xorb_layout ≡ [])
put_batch-located_example =
    put_batch-located no_chunks one_chunk ((file_a, place) ∷ []) tt put_place

remove_place : remove_xorb one_chunk shard_c ≡ ok no_chunks
unfolding remove_xorb validate_hash eq_text keep
remove_place = refl

abbrev layout : XorbLayout
layout = record {
  num_bytes_on_disk = 20;
  chunks = record { chunk_hash = file_a; unpacked_size = 30; compressed_size = 12 } ∷ [];
}

abbrev laid_out : ChunkIndex
laid_out = record {
  chunk_index = [];
  xorb_layout = record { xorb_hash = shard_c; layout = json.to_string layout } ∷ [];
}

put_layout : put_xorb_layout json no_chunks shard_c layout ≡ ok laid_out
unfolding put_xorb_layout validate_hash
put_layout = refl

-- A batch with a chunk twice, the batch again, and a removal that is refused.
abbrev writes : List ChunkWrite
writes =
    batch_write ((file_a, place) ∷ (file_a, place) ∷ [])
    ∷ batch_write ((file_a, place) ∷ [])
    ∷ removal_write (codes "x")
    ∷ []

run_postgres-run_sqlite_example :
    ((run_postgres json writes no_postgres_rows).0 ≡ (run_sqlite json writes no_sqlite_rows).0)
    × ((h : Text)
        → Postgres.get (run_postgres json writes no_postgres_rows).1 h
          ≡ Sqlite.get (run_sqlite json writes no_sqlite_rows).1 h)
    × ((x : Text)
        → Postgres.get_xorb_layout json (run_postgres json writes no_postgres_rows).1 x
          ≡ Sqlite.get_xorb_layout json (run_sqlite json writes no_sqlite_rows).1 x)
    × ((after : Option Text) (limit : ℕ)
        → Postgres.list_xorb_summaries json
            (run_postgres json writes no_postgres_rows).1
            after
            limit
          ≡ Sqlite.list_xorb_summaries json (run_sqlite json writes no_sqlite_rows).1 after limit)
run_postgres-run_sqlite_example = run_postgres-run_sqlite json writes
