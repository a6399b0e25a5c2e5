-- ===== src/Gc/Tests.antt =====
-- The theorems about the backend and the collection at a store in memory.
use openxet.Base.{pos, List, Result, [], arith, inl, keep, ok, refl, some, true, ◌∷◌, ◌≡◌}
use openxet.Text.{strip_prefix, is_empty, Text, codes, eq_text}
use openxet.Hash.{validate_hash}
use openxet.Storage.{
  StoredObject, list_xorbs, list_prefix, get_xorb, get_shard, put_xorb, delete_xorb, xorb_path,
  shard_path,
}
use openxet.Index.Files.{list_all}
use openxet.Gc.{collect_map, insert_map, AppState, FileView, member, lookup, file_to_shard, run_gc}
use openxet.Sql.{order_by}
use openxet.Gc.Grace.{run_gc-young_kept}
use openxet.Gc.Live.{run_gc-file_kept}
use openxet.Storage.Memory.{Objects, memory, head_object, read_object}

abbrev file_a : Text
file_a = codes "00000000000000000000000000000000000000000000000000000000000000aa"

abbrev shard_c : Text
shard_c = codes "00000000000000000000000000000000000000000000000000000000000000cc"

abbrev xorb_d : Text
xorb_d = codes "00000000000000000000000000000000000000000000000000000000000000dd"

abbrev stored_xorb : Objects
stored_xorb = (xorb_path xorb_d, codes "x") ∷ []

write_d : put_xorb memory xorb_d (codes "x") [] ≡ (ok true, stored_xorb)
unfolding put_xorb validate_hash head_object
write_d = refl

delete_d : delete_xorb memory xorb_d stored_xorb ≡ (ok tt, [])
unfolding delete_xorb validate_hash keep eq_text xorb_path
delete_d = refl

abbrev view_a : FileView
view_a = record { file_hash = file_a; entries = xorb_d ∷ [] }

-- A parser to which every shard holds the one file.
abbrev one_view : Text → Result Text (List FileView)
one_view bytes = ok (view_a ∷ [])

abbrev one_file : AppState Objects
one_file = record {
  file_index = record {
    file_index = record { file_hash = file_a; shard_hash = shard_c } ∷ [];
    file_ownership = [];
  };
  chunk_index = record { chunk_index = []; xorb_layout = [] };
  storage = (shard_path shard_c, codes "s") ∷ stored_xorb;
}

one_file_root : lookup file_a (file_to_shard memory one_view one_file) ≡ some shard_c
unfolding lookup file_to_shard eq_text collect_map list_all insert_map
one_file_root = refl

one_file_shard : get_shard memory shard_c one_file.storage ≡ ok (codes "s")
unfolding get_shard validate_hash read_object eq_text shard_path
one_file_shard = refl

xorb_d-member : member xorb_d (xorb_d ∷ []) ≡ true
unfolding eq_text
xorb_d-member = refl

run_gc-file_kept_example :
    (get_shard memory shard_c (run_gc memory one_view 100 0 one_file).1.storage ≡ ok (codes "s"))
    × (get_xorb memory xorb_d (run_gc memory one_view 100 0 one_file).1.storage
        ≡ get_xorb memory xorb_d one_file.storage)
run_gc-file_kept_example =
    run_gc-file_kept memory one_view 100 0 one_file shard_c (codes "s") xorb_d (view_a ∷ []) view_a
      one_file_root one_file_shard refl (inl refl) xorb_d-member

-- One xorb that no file refers to yet.
abbrev uploading : AppState Objects
uploading = record {
  file_index = record { file_index = []; file_ownership = [] };
  chunk_index = record { chunk_index = []; xorb_layout = [] };
  storage = stored_xorb;
}

abbrev upload : StoredObject
upload = record { hash = xorb_d; size = 1; last_modified_unix = pos 0 }

uploading_listed : list_xorbs memory stored_xorb ≡ ok (upload ∷ [])
unfolding list_xorbs list_prefix strip_prefix is_empty order_by xorb_path
uploading_listed = refl

run_gc-young_kept_example :
    get_xorb memory xorb_d (run_gc memory one_view 5 10 uploading).1.storage
    ≡ get_xorb memory xorb_d stored_xorb
run_gc-young_kept_example =
    run_gc-young_kept memory one_view 5 10 uploading xorb_d (upload ∷ []) (omega arith)
      uploading_listed (λ q. omega arith, tt)
