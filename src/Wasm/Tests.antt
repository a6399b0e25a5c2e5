-- ===== src/Wasm/Tests.antt =====
-- The theorems about an upload of four chunks. Source: crates/wasm/src/lib.rs.
use openxet.Base.{
  List, Option, [], arith, drop, err, false, length, map, none, ok, refl, some, take, ℕ, ◌++◌, ◌-◌,
  ◌<◌, ◌∷◌, ◌≡◌, ◌≢◌, ◌≤◌, ◌⊎◌,
}
use openxet.Text.{Text, codes, eq_text, is_empty}
use openxet.Wasm.{
  Chunk, Placement, XorbBlock, XetClient, UploadSession, failed, panicked, new, next_query_batch,
  apply_dedup_shard, resolve_all, by_keyed_hash, find_chunk, resolve_one, decode_chunks,
}
use openxet.Wasm.Plan.{
  Packing, place_group, pack, pack_from, pack_one, seal, seal_xorb, terms, build_upload_plan,
  finish,
}
use openxet.Wasm.Plan.Seals.{At}
use openxet.Wasm.Plan.Packs.{Packed}
use openxet.Wasm.Plan.Resolved.{pack-Packed}
use openxet.Wasm.Finish.{run, finish-IsCalm}
use openxet.Wasm.Plan.Terms.{DescribeAll, terms-DescribeAll}
use openxet.Wasm.Session.{query, answer, handed_out, handed_out-chunks}
use openxet.Wasm.Answers.{Resolution, apply_dedup_shard-Resolution}
use openxet.Wasm.Decode.{decode_chunks-slice}

abbrev concat_all : List Text → Text
concat_all [] = []
concat_all (t ∷ ts) = t ++ concat_all ts

abbrev chunk_of : ℕ → Chunk
chunk_of b = record { hash = b ∷ []; bytes = b ∷ [] }

abbrev old : XorbBlock
old = record { xorb_hash = codes "old"; chunks = codes "z" ∷ codes "a" ∷ [] }

-- Chunks of one byte that are their own hashes, and at most two to a xorb.
abbrev client : XetClient
client = record {
  XorbInfo = ℕ;
  max_xorb_bytes = 10;
  max_xorb_chunks = 2;
  next_block = λ s. map chunk_of s;
  hash_is_global_dedup_eligible = λ h. false;
  hmac = λ h key. h;
  load_from_reader = λ s. ok (some (codes "key"));
  read_all_xorb_blocks_full = λ s. ok (old ∷ []);
  file_hash = λ cs. concat_all (map (λ c. c.0) cs);
  range_hash_from_chunks = λ hs. concat_all hs;
  raw_hash = λ cs. concat_all (map (λ c. c.hash) cs);
  raw_info = λ cs n. n;
  serialize_xorb = λ cs. ok (concat_all (map (λ c. c.bytes) cs));
  header = ok (codes "h");
  file_info = λ i. ok i.file_hash;
  file_bookend = ok (codes "f");
  xorb_info = λ n. ok (n ∷ []);
  xorb_bookend = ok (codes "x");
  deserialize_chunks = λ s. ok (codes "abc", 0 ∷ 1 ∷ 3 ∷ []);
}

abbrev chunks : List Chunk
chunks = map chunk_of (codes "abcd")

abbrev place : Text → ℕ → Placement
place h i = record { xorb_hash = h; index_in_xorb = i }

-- The first chunk is known.
abbrev one_known : List (Option Placement)
one_known = some (place (codes "old") 1) ∷ none ∷ none ∷ none ∷ []

abbrev packed : Packing client
packed = record {
  group = [];
  group_bytes = 0;
  placement =
      some (place (codes "old") 1)
      ∷ some (place (codes "bc") 0)
      ∷ some (place (codes "bc") 1)
      ∷ some (place (codes "d") 0)
      ∷ [];
  xorbs = (codes "bc", codes "bc") ∷ (codes "d", codes "d") ∷ [];
  new_xorb_infos = 2 ∷ 1 ∷ [];
}

pack_four : pack client chunks one_known ≡ ok packed
unfolding pack pack_from pack_one seal seal_xorb place_group
pack_four = refl

pack-Packed_example :
    (p : Placement) × At packed.placement 2 (some p)
    × (At one_known 2 (some p) ⊎ (At one_known 2 none × Packed client packed.xorbs (chunk_of 99) p))
pack-Packed_example =
    pack-Packed client chunks one_known packed 2 (chunk_of 99) (omega arith) refl pack_four refl

abbrev placed : List (Placement × Chunk)
placed =
    (place (codes "bc") 0, chunk_of 98)
    ∷ (place (codes "bc") 1, chunk_of 99)
    ∷ (place (codes "d") 0, chunk_of 100)
    ∷ []

terms-DescribeAll_example : DescribeAll client (terms client 3 placed) placed
terms-DescribeAll_example =
    terms-DescribeAll client 3 placed (omega arith) (omega arith, (omega arith, (omega arith, tt)))

abbrev session : UploadSession
session = record {
  chunks = chunks;
  placement = none ∷ none ∷ none ∷ none ∷ [];
  probed = false ∷ false ∷ false ∷ false ∷ [];
}

session_starts : new client (codes "abcd") ≡ ok session
unfolding new is_empty
session_starts = refl

handed_out-chunks_example :
    (handed_out client (query 16 ∷ answer (codes "shard") ∷ query 16 ∷ []) session ≤ 4)
    × ((most : ℕ) (t : UploadSession) → length (next_query_batch client most t).0 ≤ most)
handed_out-chunks_example =
    handed_out-chunks client (codes "abcd") session
      (query 16 ∷ answer (codes "shard") ∷ query 16 ∷ []) session_starts

finish-IsCalm_example :
    ((finish client (run client (query 16 ∷ answer (codes "shard") ∷ []) session)).0 ≢ err panicked)
    × (build_upload_plan client (codes "abcd") ≢ err panicked)
finish-IsCalm_example =
    finish-IsCalm client (codes "abcd") session (query 16 ∷ answer (codes "shard") ∷ [])
      (omega arith) session_starts

abbrev resolved : UploadSession
resolved = record session { placement = one_known }

answer_session : apply_dedup_shard client (codes "shard") session ≡ ok resolved
unfolding apply_dedup_shard resolve_all by_keyed_hash find_chunk resolve_one eq_text
answer_session = refl

apply_dedup_shard-Resolution_example :
    (key : Text) × (blocks : List XorbBlock) × (client.load_from_reader (codes "shard")
      ≡ ok (some key))
    × (client.read_all_xorb_blocks_full (codes "shard") ≡ ok blocks)
    × (chunks ≡ chunks)
    × (resolved.probed ≡ session.probed)
    × ((j : ℕ) (c : Chunk) (o : Option Placement)
        → At chunks j c
        → At session.placement j o
        → (n : Option Placement) × At one_known j n
          × Resolution (client.hmac c.hash key) blocks o n)
apply_dedup_shard-Resolution_example =
    apply_dedup_shard-Resolution client (codes "shard") session resolved answer_session

decode_chunks-slice_example :
    ((a : ℕ) × (b : ℕ) × At (0 ∷ 1 ∷ 3 ∷ []) 1 a
      × At (0 ∷ 1 ∷ 3 ∷ []) 2 b
      × (a ≤ b)
      × (decode_chunks client (codes "frames") 1 2 ≡ ok (take (b - a) (drop a (codes "abc"))))
      × (length (take (b - a) (drop a (codes "abc"))) ≡ b - a))
    ⊎ (((2 < 1) ⊎ (3 ≤ 2))
        × (message : Text) × (decode_chunks client (codes "frames") 1 2 ≡ err (failed message)))
decode_chunks-slice_example =
    decode_chunks-slice client (codes "frames") (codes "abc") (0 ∷ 1 ∷ 3 ∷ []) 1 2 refl
      (omega arith, omega arith, (omega arith, omega arith, (omega arith, omega arith, tt)))
