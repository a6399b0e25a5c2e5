-- ===== src/Xorb.antt =====
-- Chunk metadata of serialized xorbs. Source: crates/server/src/routes/xorb_meta.rs.
-- A `MerkleHash` is its 64 hex digits. What `xet-core-structures` computes is the parameter
-- `XetCore`. `none` where an index is out of bounds, which panics.
pub mod Walk
pub mod Layout
mod Tests
use openxet.Base.{
  Bool, List, Option, Result, [], drop, err, if◌then◌else◌, length, ltb, none, not, ok, some, suc,
  take, zero, ℕ, ◌%◌, ◌++◌, ◌+◌, ◌-◌, ◌==◌, ◌^◌, ◌∷◌,
}
use openxet.Text.{Text, codes, eq_text}
use openxet.Text.Decimal.{decimal}
use openxet.Errors.{AppError}
use openxet.Index.{XorbChunk, XorbLayout}

abbrev pub u32_mod : ℕ
u32_mod = 2 ^ 32

-- `a - b` and `a + b` on `u32` in a release build.
abbrev pub sub32 : ℕ → ℕ → ℕ
sub32 a b = (a + u32_mod - b % u32_mod) % u32_mod

abbrev pub add32 : ℕ → ℕ → ℕ
add32 a b = (a + b) % u32_mod

-- `XORB_CHUNK_HEADER_LENGTH`
abbrev pub header_length : ℕ
header_length = 8

-- The fields of `XorbObjectInfoV1` that are read. Offsets are cumulative ends.
pub record XorbInfo : Type 0 where
  pub num_chunks : ℕ
  pub chunk_hashes : List Text
  pub chunk_boundary_offsets : List ℕ
  pub unpacked_chunk_offsets : List ℕ

pub record ChunkHeader : Type 0 where
  pub compressed_length : ℕ
  pub uncompressed_length : ℕ
  pub scheme : Result Text ℕ

pub record XetCore : Type 0 where
  pub parse_chunk_header : Text → Option ChunkHeader
  pub decompress : ℕ → Text → Result Text Text
  pub compute_data_hash : Text → Text
  pub xorb_hash : List (Text × ℕ) → Text
  -- `XorbObject::deserialize`, and `validate_xorb_object` against a hash.
  pub deserialize : Text → Option XorbInfo
  pub validate_xorb_object : Text → Text → Result Text (Option XorbInfo)

unfoldable pub has_unpacked_offsets : XorbInfo → Bool
has_unpacked_offsets info = length info.unpacked_chunk_offsets == info.num_chunks

abbrev pub slice : Text → ℕ → ℕ → Text
slice body from to = take (to - from) (drop from body)

-- One more chunk at the end of the metadata.
abbrev pub push_chunk : XorbInfo → Text → ℕ → ℕ → XorbInfo
push_chunk info hash end unpacked = record {
  num_chunks = info.num_chunks + 1;
  chunk_hashes = info.chunk_hashes ++ hash ∷ [];
  chunk_boundary_offsets = info.chunk_boundary_offsets ++ (end % u32_mod) ∷ [];
  unpacked_chunk_offsets = info.unpacked_chunk_offsets ++ unpacked ∷ [];
}

abbrev pub default_info : XorbInfo
default_info = record {
  num_chunks = 0;
  chunk_hashes = [];
  chunk_boundary_offsets = [];
  unpacked_chunk_offsets = [];
}

-- Where the walk stands.
pub record Cursor : Type 0 where
  pub pos : ℕ
  pub unpacked : ℕ
  pub info : XorbInfo

-- The outcome of one round of the loop: it ends, goes on, or fails.
pub data Round : Type 0 where
  stop : Round
  next : Cursor → Round
  fail : Text → Round

module _ (x : XetCore) where
  read_chunk : Cursor → Text → ChunkHeader → ℕ → Round
  read_chunk c body header data_end = elim header.scheme [
    | err e ↦ fail (codes "chunk " ++ (decimal c.info.num_chunks ++ (codes ": " ++ e)))
    | ok scheme ↦ elim (x.decompress scheme (slice body (c.pos + header_length) data_end)) [
      | err e ↦
          fail (
            codes "chunk " ++ (decimal c.info.num_chunks ++ (codes " failed to decompress: " ++ e)))
      | ok bytes ↦
          if not (length bytes == header.uncompressed_length)
          then fail (
              codes "chunk "
              ++ (decimal c.info.num_chunks
                  ++ (codes " decompressed to "
                      ++ (decimal (length bytes)
                          ++ (codes " bytes, header claims "
                              ++ decimal header.uncompressed_length)))))
          else next (record {
            pos = data_end;
            unpacked = add32 c.unpacked (length bytes);
            info =
                push_chunk c.info (x.compute_data_hash bytes) data_end
                  (add32 c.unpacked (length bytes));
          })
    ]
  ]

  pub walk_round : Text → Cursor → Round
  unfolding read_chunk
  walk_round body c =
      if ltb (length body) (c.pos + header_length)
      then stop
      else elim (x.parse_chunk_header (slice body c.pos (c.pos + header_length))) [
        | none ↦ stop
        | some header ↦
            let data_end = c.pos + header_length + header.compressed_length in
            if ltb (length body) data_end then stop else read_chunk c body header data_end
      ]

  -- The loop on fuel; `none` where the fuel runs out.
  pub walk : ℕ → Text → Cursor → Option (Result Text XorbInfo)
  unfolding walk_round
  walk zero body c = none
  walk (suc fuel) body c = elim (walk_round body c) [
    | stop ↦ some (ok c.info)
    | next c' ↦ walk fuel body c'
    | fail e ↦ some (err e)
  ]

  abbrev or_unreachable : Option (Result Text XorbInfo) → Result Text XorbInfo
  or_unreachable none = err (codes "out of fuel")
  or_unreachable (some r) = r

  -- Every round moves by at least a header, so the length of the body is fuel enough.
  unfoldable pub walk_chunk_frames : Text → Result Text XorbInfo
  unfolding walk
  walk_chunk_frames body =
      or_unreachable
        (walk (suc (length body)) body (record { pos = 0; unpacked = 0; info = default_info }))

  sizes : ℕ → List Text → List ℕ → List (Text × ℕ)
  sizes prev (h ∷ hs) (end ∷ ends) = (h, sub32 end prev) ∷ sizes end hs ends
  sizes prev _ _ = []

  unfoldable pub xorb_hash_from_info : XorbInfo → Text
  unfolding sizes
  xorb_hash_from_info info = x.xorb_hash (sizes 0 info.chunk_hashes info.unpacked_chunk_offsets)

  -- A footer that parses must validate; one without unpacked offsets is rebuilt from the frames.
  with_footer : Text → Option XorbInfo → Result AppError XorbInfo
  with_footer body none = err (AppError.bad_request (codes "xorb footer failed validation"))
  with_footer body (some info) =
      if has_unpacked_offsets info then ok info else elim (walk_chunk_frames body) [
        | ok walked ↦ ok walked
        | err e ↦ err (AppError.internal (codes "rebuilding xorb metadata: " ++ e))
      ]

  check_footer : Text → Text → Result AppError XorbInfo
  unfolding with_footer
  check_footer body expected = elim (x.validate_xorb_object body expected) [
    | err e ↦ err (AppError.bad_request (codes "invalid xorb: " ++ e))
    | ok validated ↦ with_footer body validated
  ]

  check_frames : Text → Text → Result AppError XorbInfo
  check_frames body expected = elim (walk_chunk_frames body) [
    | err e ↦ err (AppError.bad_request (codes "invalid xorb: " ++ e))
    | ok info ↦
        if info.num_chunks == 0
        then err (AppError.bad_request (codes "xorb contains no chunks"))
        else if not (eq_text (xorb_hash_from_info info) expected)
        then err (
            AppError.bad_request (
              codes "xorb hash mismatch: URL="
              ++ (expected ++ (codes ", computed=" ++ xorb_hash_from_info info))))
        else ok info
  ]

  unfoldable pub validated_xorb_info : Text → Text → Result AppError XorbInfo
  unfolding check_footer check_frames
  validated_xorb_info body expected = elim (x.deserialize body) [
    | some object ↦ check_footer body expected
    | none ↦ check_frames body expected
  ]

  rebuild : Text → Result AppError XorbInfo
  rebuild body = elim (walk_chunk_frames body) [
    | ok info ↦ ok info
    | err e ↦ err (AppError.internal (codes "corrupt stored xorb: " ++ e))
  ]

  unfoldable pub xorb_info_from_stored : Text → Result AppError XorbInfo
  unfolding rebuild
  xorb_info_from_stored body = elim (x.deserialize body) [
    | none ↦ rebuild body
    | some info ↦ if has_unpacked_offsets info then ok info else rebuild body
  ]

-- The loops over `0..num_chunks`: `n` rounds are left, and each list starts at the current index, so
-- that a list that is too short is the panic of an index out of bounds.
abbrev cons_some {ℓ} : {A : Type ℓ} → A → Option (List A) → Option (List A)
cons_some a none = none
cons_some a (some as') = some (a ∷ as')

unfoldable pub layout_from : ℕ → List Text → List ℕ → List ℕ → ℕ → ℕ → Option (List XorbChunk)
layout_from zero hs ps us prev_physical prev_unpacked = some []
layout_from (suc n) (h ∷ hs) (physical_end ∷ ps) (unpacked_end ∷ us) prev_physical prev_unpacked =
    cons_some
      (record {
        chunk_hash = h;
        unpacked_size = sub32 unpacked_end prev_unpacked;
        compressed_size = sub32 (sub32 physical_end prev_physical) header_length;
      })
      (layout_from n hs ps us physical_end unpacked_end)
layout_from (suc n) _ _ _ prev_physical prev_unpacked = none

unfoldable pub layout_from_info : XorbInfo → ℕ → Option XorbLayout
unfolding layout_from
layout_from_info info num_bytes_on_disk =
    elim (layout_from info.num_chunks info.chunk_hashes info.chunk_boundary_offsets
      info.unpacked_chunk_offsets 0 0) [
        | none ↦ none
        | some chunks ↦ some (record { num_bytes_on_disk = num_bytes_on_disk; chunks = chunks })
      ]

unfoldable pub offsets_from : ℕ → List ℕ → ℕ → Option (List (ℕ × ℕ))
offsets_from zero ps prev = some []
offsets_from (suc n) (end ∷ ps) prev = cons_some (prev, end) (offsets_from n ps end)
offsets_from (suc n) [] prev = none

unfoldable pub chunk_byte_offsets : XorbInfo → Option (List (ℕ × ℕ))
unfolding offsets_from
chunk_byte_offsets info = offsets_from info.num_chunks info.chunk_boundary_offsets 0

unfoldable pub triples_from : ℕ → List Text → List ℕ → ℕ → Option (List (Text × ℕ × ℕ))
triples_from zero hs us prev = some []
triples_from (suc n) (h ∷ hs) (end ∷ us) prev =
    cons_some (h, prev, sub32 end prev) (triples_from n hs us end)
triples_from (suc n) _ _ prev = none

unfoldable pub chunk_info_triples : XorbInfo → Option (List (Text × ℕ × ℕ))
unfolding triples_from
chunk_info_triples info =
    triples_from info.num_chunks info.chunk_hashes info.unpacked_chunk_offsets 0
