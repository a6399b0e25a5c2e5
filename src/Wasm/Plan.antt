-- ===== src/Wasm/Plan.antt =====
-- The plan of an upload: new xorbs, terms and the shard. Source: `seal_xorb`, `build_plan` and
-- `build_upload_plan` of crates/wasm/src/lib.rs.
pub mod Seals
pub mod Packs
pub mod Resolved
pub mod Total
pub mod Terms
use openxet.Base.{
  Bool, List, Option, Result, [], err, false, get_elem?, if◌then◌else◌, leb, length, ltb, map, none,
  not, ok, some, suc, true, zero, ℕ, ◌%◌, ◌&&◌, ◌++◌, ◌+◌, ◌==◌, ◌>>=◌, ◌>>◌, ◌||◌, ◌∷◌,
}
use openxet.Text.{Text, codes, eq_text, is_empty}
use openxet.Xorb.{u32_mod}
use openxet.Wasm.{
  Chunk, Placement, FileEntry, FileInfo, XetClient, Fault, failed, panicked, fail_with, replicate,
  is_some, UploadSession,
}

pub record UploadPlan : Type 0 where
  pub file_hash : Text
  pub chunk_count : ℕ
  pub deduped_chunk_count : ℕ
  pub xorbs : List (Text × Text)
  pub shard_bytes : Text

-- `xs[i] = x`, at an index that is in bounds.
abbrev pub set_elem {ℓ} : {A : Type ℓ} → List A → ℕ → A → List A
set_elem [] i x = []
set_elem (y ∷ ys) zero x = x ∷ ys
set_elem (y ∷ ys) (suc i) x = y ∷ set_elem ys i x

abbrev pub no_group : List (ℕ × Chunk) → Bool
no_group [] = true
no_group (c ∷ cs) = false

abbrev pub chunks_of : List (ℕ × Chunk) → List Chunk
chunks_of group = map (λ g. g.1) group

-- The chunks of the group take the positions of the new xorb; `placement[global_idx]` panics out of
-- bounds.
unfoldable pub place_group :
    Text → ℕ → List (ℕ × Chunk) → List (Option Placement) → Result Fault (List (Option Placement))
place_group xorb_hash i [] placement = ok placement
place_group xorb_hash i ((k, c) ∷ group) placement = elim (get_elem? placement k) [
  | none ↦ err panicked
  | some old ↦
      place_group xorb_hash (suc i) group (
        set_elem placement k (some (record { xorb_hash = xorb_hash; index_in_xorb = i % u32_mod })))
]

-- `expect("every chunk resolved or packed")`
unfoldable pub unwrap_all : List (Option Placement) → Result Fault (List Placement)
unwrap_all [] = ok []
unwrap_all (none ∷ ps) = err panicked
unwrap_all (some p ∷ ps) = do rest ← unwrap_all ps; ok (p ∷ rest)

-- The chunks that go on in the same xorb at the expected index, and those behind them; the end of
-- the list is where `end < n` fails.
unfoldable pub take_run :
    Text → ℕ → List (Placement × Chunk) → List (Placement × Chunk) × List (Placement × Chunk)
take_run xorb expected_idx [] = ([], [])
take_run xorb expected_idx ((p, c) ∷ pcs) =
    let (run, rest) = take_run xorb ((expected_idx + 1) % u32_mod) pcs in
    if eq_text p.xorb_hash xorb && (p.index_in_xorb == expected_idx)
    then ((p, c) ∷ run, rest)
    else ([], (p, c) ∷ pcs)

abbrev pub bytes_of : List Chunk → ℕ
bytes_of [] = 0
bytes_of (c ∷ cs) = length c.bytes + bytes_of cs

-- `placement[end - 1].index_in_xorb`
abbrev pub last_index : ℕ → List (Placement × Chunk) → ℕ
last_index i [] = i
last_index i ((p, c) ∷ pcs) = last_index p.index_in_xorb pcs

-- Each chunk with its placement; `placement[t]` panics for a chunk that has none.
unfoldable pub zip_chunks : List Placement → List Chunk → Result Fault (List (Placement × Chunk))
zip_chunks ps [] = ok []
zip_chunks [] (c ∷ cs) = err panicked
zip_chunks (p ∷ ps) (c ∷ cs) = do rest ← zip_chunks ps cs; ok ((p, c) ∷ rest)

-- `filter(|p| p.is_some()).count()`
unfoldable pub count_resolved : List (Option Placement) → ℕ
unfolding is_some
count_resolved [] = 0
count_resolved (p ∷ ps) = let rest = count_resolved ps in if is_some p then suc rest else rest

append_bytes : Result Text Text → Text → Result Fault Text
append_bytes part out = fail_with [] part >>= λ bytes. ok (out ++ bytes)

module _ (x : XetClient) where
  pub record Packing : Type 0 where
    pub group : List (ℕ × Chunk)
    pub group_bytes : ℕ
    pub placement : List (Option Placement)
    pub xorbs : List (Text × Text)
    pub new_xorb_infos : List x.XorbInfo

  unfoldable pub seal_xorb : List Chunk → Result Fault (Text × x.XorbInfo × Text)
  seal_xorb chunks = do
    bytes ← fail_with (codes "serializing xorb: ") (x.serialize_xorb chunks)
    ok (x.raw_hash chunks, x.raw_info chunks (length bytes % u32_mod), bytes)

  unfoldable pub seal : Packing → Result Fault Packing
  seal st = do
    sealed ← seal_xorb (chunks_of st.group)
    placement ← place_group sealed.0 0 st.group st.placement
    ok (record {
      group = [];
      group_bytes = 0;
      placement = placement;
      xorbs = st.xorbs ++ (sealed.0, sealed.2) ∷ [];
      new_xorb_infos = st.new_xorb_infos ++ sealed.1 ∷ [];
    })

  abbrev pub is_full : Packing → ℕ → Bool
  is_full st len =
      not (no_group st.group)
      && (ltb x.max_xorb_bytes (st.group_bytes + len) || leb x.max_xorb_chunks (length st.group))

  abbrev pub push : ℕ → Chunk → Packing → Packing
  push idx c st = record st {
    group = st.group ++ (idx, c) ∷ [];
    group_bytes = st.group_bytes + length c.bytes;
  }

  unfoldable pub pack_one : ℕ → Chunk → Packing → Result Fault Packing
  pack_one idx c st =
      (if is_full st (length c.bytes) then seal st else ok st) >>= λ st'. ok (push idx c st')

  -- `for idx in 0..n`, with the chunks from `idx` on.
  unfoldable pub pack_from : ℕ → List Chunk → Packing → Result Fault Packing
  pack_from idx [] st = ok st
  pack_from idx (c ∷ cs) st = elim (get_elem? st.placement idx) [
    | none ↦ err panicked
    | some (some p) ↦ pack_from (suc idx) cs st
    | some none ↦ pack_one idx c st >>= λ st'. pack_from (suc idx) cs st'
  ]

  unfoldable pub pack : List Chunk → List (Option Placement) → Result Fault Packing
  pack chunks placement = do
    st ← pack_from 0 chunks (record {
      group = [];
      group_bytes = 0;
      placement = placement;
      xorbs = [];
      new_xorb_infos = [];
    })
    if no_group st.group then ok st else seal st

  -- One term, with its verification hash.
  abbrev pub entry_of : Placement → Chunk → List (Placement × Chunk) → FileEntry × Text
  entry_of p c run = (
    record {
      xorb_hash = p.xorb_hash;
      unpacked_segment_bytes = bytes_of (c ∷ map (λ r. r.1) run) % u32_mod;
      chunk_index_start = p.index_in_xorb;
      chunk_index_end = (last_index p.index_in_xorb run + 1) % u32_mod;
    },
    x.range_hash_from_chunks (map (λ d. d.hash) (c ∷ map (λ r. r.1) run)),
  )

  -- `while t < n` on fuel; every round takes a chunk, so there is fuel for each.
  unfoldable pub terms : ℕ → List (Placement × Chunk) → List (FileEntry × Text)
  unfolding take_run
  terms fuel [] = []
  terms zero (pc ∷ pcs) = []
  terms (suc fuel) ((p, c) ∷ pcs) =
      let (run, rest) = take_run p.xorb_hash ((p.index_in_xorb + 1) % u32_mod) pcs in
      entry_of p c run ∷ terms fuel rest

  append_infos : List x.XorbInfo → Text → Result Fault Text
  unfolding append_bytes
  append_infos [] out = ok out
  append_infos (i ∷ is) out = append_bytes (x.xorb_info i) out >>= append_infos is

  write_shard : FileInfo → List x.XorbInfo → Result Fault Text
  unfolding append_bytes append_infos
  write_shard info infos = do
    a ← append_bytes x.header []
    b ← append_bytes (x.file_info info) a
    c ← append_bytes x.file_bookend b
    d ← append_infos infos c
    append_bytes x.xorb_bookend d

  abbrev pub file_info_of : List Chunk → List (FileEntry × Text) → FileInfo
  file_info_of chunks entries = record {
    file_hash = x.file_hash (map (λ c. (c.hash, length c.bytes)) chunks);
    segments = map (λ e. e.0) entries;
    verification = map (λ e. e.1) entries;
  }

  unfoldable pub build_plan : List Chunk → List (Option Placement) → Result Fault UploadPlan
  unfolding write_shard terms
  build_plan chunks placement = do
    st ← pack chunks placement
    placed ← unwrap_all st.placement
    pairs ← zip_chunks placed chunks
    shard_bytes ← write_shard (file_info_of chunks (terms (length chunks) pairs)) st.new_xorb_infos
    ok (record {
      file_hash = x.file_hash (map (λ c. (c.hash, length c.bytes)) chunks);
      chunk_count = length chunks;
      deduped_chunk_count = count_resolved placement;
      xorbs = st.xorbs;
      shard_bytes = shard_bytes;
    })

  unfoldable pub build_upload_plan : Text → Result Fault UploadPlan
  unfolding build_plan
  build_upload_plan bytes =
      if is_empty bytes
      then err (failed (codes "refusing to upload an empty file"))
      else build_plan (x.next_block bytes) (replicate (x.next_block bytes) none)

  -- `mem::take` leaves empty lists.
  unfoldable pub finish : UploadSession → Result Fault UploadPlan × UploadSession
  finish s = (build_plan s.chunks s.placement, record s { chunks = []; placement = [] })
