-- ===== src/Reconstruction/Offsets.antt =====
-- The byte span of each chunk of a xorb, from the recorded layout.
-- Source: crates/server/src/routes/reconstruction.rs, `chunk_byte_offsets_from_layout`.
use openxet.Base.{
  Bool, List, Option, [], any, arith, if◌then◌else◌, length, none, refl, some, suc, zero, ℕ, ◌+◌,
  ◌<◌, ◌==◌, ◌∷◌, ◌≡◌,
}
use openxet.Text.{Text}
use openxet.Index.{XorbChunk, XorbLayout}
use openxet.Xorb.{
  XorbInfo, header_length, layout_from, layout_from_info, offsets_from, chunk_byte_offsets, u32_mod,
  sub32,
}
use openxet.Xorb.Layout.{IsFramed, Grows}

spans : List XorbChunk → ℕ → List (ℕ × ℕ)
spans [] pos = []
spans (chunk ∷ chunks) pos =
    let chunk_end = pos + header_length + chunk.compressed_size in
    (pos, chunk_end) ∷ spans chunks chunk_end

pub predates : XorbChunk → Bool
predates chunk = chunk.compressed_size == 0

unfoldable pub chunk_byte_offsets_from_layout : XorbLayout → Option (List (ℕ × ℕ))
unfolding spans predates
chunk_byte_offsets_from_layout layout =
    if any predates layout.chunks then none else some (spans layout.chunks 0)

spans-layout_from :
    (n : ℕ) (hs : List Text) (ps us : List ℕ) (prev unpacked : ℕ)
    → length hs ≡ n
    → length ps ≡ n
    → length us ≡ n
    → prev < u32_mod
    → Grows header_length prev ps
    → (chunks : List XorbChunk) × (layout_from n hs ps us prev unpacked ≡ some chunks)
      × (offsets_from n ps prev ≡ some (spans chunks prev))
unfolding layout_from offsets_from spans
spans-layout_from zero hs ps us prev unpacked a b c d g = ([], refl, refl)
spans-layout_from (suc n) [] ps us prev unpacked a b c d g = absurd (omega arith)
spans-layout_from (suc n) (h ∷ hs) [] us prev unpacked a b c d g = absurd (omega arith)
spans-layout_from (suc n) (h ∷ hs) (p ∷ ps) [] prev unpacked a b c d g = absurd (omega arith)
spans-layout_from (suc n) (h ∷ hs) (p ∷ ps) (u ∷ us) prev unpacked a b c d (g1, g2, g) =
    let (chunks, e, f) =
      spans-layout_from n hs ps us p u (omega arith) (omega arith) (omega arith) g2 g in
    let w : prev + header_length + sub32 (sub32 p prev) header_length ≡ p = omega arith in
    let chunk : XorbChunk = record {
      chunk_hash = h;
      unpacked_size = sub32 u unpacked;
      compressed_size = sub32 (sub32 p prev) header_length;
    } in
    (chunk ∷ chunks, rw e refl, rw (w, f) refl)

-- For the metadata of a framed xorb both routines give the same spans: where every frame has data, the
-- recorded layout alone gives the offsets that reading the metadata gives, and where some frame
-- has none the layout says to read the xorb.
pub chunk_byte_offsets_from_layout-layout_from_info :
    (info : XorbInfo) (size : ℕ)
    → IsFramed info
    → (layout : XorbLayout) × (layout_from_info info size ≡ some layout)
      × (chunk_byte_offsets_from_layout layout
          ≡ (if any predates layout.chunks then none else chunk_byte_offsets info))
unfolding layout_from_info chunk_byte_offsets chunk_byte_offsets_from_layout
chunk_byte_offsets_from_layout-layout_from_info info size h =
    let (chunks, e, f) =
      spans-layout_from info.num_chunks info.chunk_hashes info.chunk_boundary_offsets
        info.unpacked_chunk_offsets 0 0 h.hashes h.boundaries h.unpacked (omega arith) h.frames in
    let layout : XorbLayout = record { num_bytes_on_disk = size; chunks = chunks } in
    (layout, ground (arith, e), ground (arith, f))
