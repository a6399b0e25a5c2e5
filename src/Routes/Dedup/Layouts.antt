-- ===== src/Routes/Dedup/Layouts.antt =====
-- A recorded layout answers as the stored xorb does. Source: crates/server/src/routes/dedup.rs.
use openxet.Base.{
  All, List, Option-cases, [], arith, inl, inr, length, none, ok, refl, some, subst, suc, zero, ℕ,
  ◌%◌, ◌<◌, ◌∷◌, ◌≡◌,
}
use openxet.Text.{Text}
use openxet.Storage.{ObjectStore, get_xorb}
use openxet.Index.{XorbChunk, XorbLayout}
use openxet.Index.Chunks.{Json}
use openxet.Xorb.{
  XetCore, XorbInfo, xorb_info_from_stored, chunk_info_triples, triples_from, layout_from,
  layout_from_info, u32_mod, add32, sub32, header_length,
}
use openxet.Routes.Dedup.{DedupCore, internal, layout_triples, stored_chunks, block_chunks}

module _ (core : DedupCore) where
  -- The chunks of a layout that was made of metadata are those of the metadata.
  layout_from-triples :
      (n : ℕ) (hs : List Text) (ps us : List ℕ) (physical unpacked : ℕ) (cs : List XorbChunk)
      → All (λ h. core.from_hex h ≡ ok h) hs
      → All (λ u. u < u32_mod) us
      → unpacked < u32_mod
      → layout_from n hs ps us physical unpacked ≡ some cs
      → (ts : List (Text × ℕ × ℕ)) × (triples_from n hs us unpacked ≡ some ts)
        × (layout_triples core unpacked cs ≡ ok ts)
  unfolding layout_from triples_from layout_triples internal
  layout_from-triples zero hs ps us p u cs a b c e = ([], refl, ground (arith, e))
  layout_from-triples (suc n) [] ps us p u cs a b c e = cc
  layout_from-triples (suc n) (h ∷ hs) [] us p u cs a b c e = cc
  layout_from-triples (suc n) (h ∷ hs) (q ∷ ps) [] p u cs a b c e = cc
  layout_from-triples (suc n) (h ∷ hs) (q ∷ ps) (v ∷ us) p u cs (a, as') (b, bs) c e =
      elim (Option-cases (layout_from n hs ps us q v)) [
        | inl k ↦ absurd (ground (arith, k, e))
        | inr (rest, k) ↦
            let (ts, t, l) = layout_from-triples n hs ps us q v rest as' bs b k in
            let next : add32 u (sub32 v u) ≡ v = omega (arith, b, c) in
            let made : XorbChunk = record {
              chunk_hash = h;
              unpacked_size = sub32 v u;
              compressed_size = sub32 (sub32 q p) header_length;
            } in
            let same : made ∷ rest ≡ cs = ground (arith, k, e) in
            (
              (h, u, sub32 v u) ∷ ts,
              ground (arith, t),
              subst (λ (y : List XorbChunk). layout_triples core u y ≡ ok ((h, u, sub32 v u) ∷ ts))
                  same (rw (a, next, l, layout_triples, internal) refl),
            )
      ]

  module _ {S : Type 0} (store : ObjectStore S) (xet : XetCore) (j : Json) where
    -- A dedup answer does not depend on whether the layout of a xorb was recorded: where the stored
    -- xorb has metadata with hashes that parse and offsets of 32 bits, the layout made of that
    -- metadata at the upload gives the same chunks, starts and sizes, and the same number of bytes on
    -- disk, as the xorb read again.
    pub block_chunks-layout :
        (hash xorb_data : Text) (info : XorbInfo) (layout : XorbLayout) (s : S)
        → get_xorb store hash s ≡ ok xorb_data
        → xorb_info_from_stored xet xorb_data ≡ ok info
        → layout_from_info info (length xorb_data % u32_mod) ≡ some layout
        → All (λ h. core.from_hex h ≡ ok h) info.chunk_hashes
        → All (λ u. u < u32_mod) info.unpacked_chunk_offsets
        → (ts : List (Text × ℕ × ℕ)) × (chunk_info_triples info ≡ some ts)
          × (block_chunks core store xet j hash (some layout) s
              ≡ ok (ts, length xorb_data % u32_mod))
          × (block_chunks core store xet j hash none s ≡ ok (ts, length xorb_data % u32_mod))
    unfolding block_chunks stored_chunks chunk_info_triples layout_from_info
    block_chunks-layout hash xorb_data info layout s r i l parse fit =
        elim (Option-cases (
          layout_from info.num_chunks info.chunk_hashes info.chunk_boundary_offsets
            info.unpacked_chunk_offsets 0 0)) [
              | inl k ↦ absurd (ground (arith, k, l))
              | inr (cs, k) ↦
                  let (ts, t, laid) =
                    layout_from-triples info.num_chunks info.chunk_hashes
                      info.chunk_boundary_offsets info.unpacked_chunk_offsets 0 0 cs parse fit
                      (omega arith) k in
                  let same : (record {
                    num_bytes_on_disk = length xorb_data % u32_mod;
                    chunks = cs;
                  })
                      ≡ layout =
                    ground (arith, k, l) in
                  (
                    ts,
                    t,
                    subst
                        (λ (y : XorbLayout).
                          block_chunks core store xet j hash (some y) s
                          ≡ ok (ts, length xorb_data % u32_mod))
                        same (rw laid refl),
                    rw (r, i, t) refl,
                  )
            ]
