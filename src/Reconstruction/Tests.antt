-- ===== src/Reconstruction/Tests.antt =====
-- A file of two terms, and the theorems about its plan.
use openxet.Base.{
  All, List, [], any, arith, drop, if◌then◌else◌, keep, ltb, map, min, none, ok, refl, some, suc,
  take, zero, ℕ, ◌++◌, ◌-◌, ◌∷◌, ◌≡◌,
}
use openxet.Text.{Text, codes}
use openxet.Text.Decimal.{decimal}
use openxet.Auth.Middleware.{HeaderMap}
use openxet.Index.{XorbLayout}
use openxet.Xorb.{XorbInfo, layout_from_info, chunk_byte_offsets}
use openxet.Xorb.Layout.{IsFramed}
use openxet.Reconstruction.Types.{ChunkRange, ByteRange, ReconstructionTerm}
use openxet.Reconstruction.Trim.{trim_terms, total_size}
use openxet.Reconstruction.Trim.Bytes.{trim_terms-content, content}
use openxet.Reconstruction.Merge.{merged_chunk_ranges_per_xorb}
use openxet.Reconstruction.Merge.Coverage.{
  merged_chunk_ranges_per_xorb-needed, merged_chunk_ranges_per_xorb-Separated, wanted_by, needed,
  AllSeparated,
}
use openxet.Reconstruction.Offsets.{
  chunk_byte_offsets_from_layout, predates, chunk_byte_offsets_from_layout-layout_from_info,
}
use openxet.Reconstruction.Fetch.{resolve_ranges}
use openxet.Reconstruction.Fetch.Coverage.{resolve_ranges-Spans, Spans}

abbrev xorb_a : Text
xorb_a = codes "a"

abbrev term : ℕ → ℕ → ℕ → ReconstructionTerm
term size start end = record {
  hash = xorb_a;
  unpacked_length = size;
  range = record { start = start; end = end };
}

abbrev terms : List ReconstructionTerm
terms = term 3 4 6 ∷ term 2 0 2 ∷ term 1 1 3 ∷ []

abbrev zeros : ℕ → Text
zeros zero = []
zeros (suc n) = 0 ∷ zeros n

-- A term stands for as many zeros as it declares.
abbrev bytes_of : ReconstructionTerm → Text
bytes_of t = zeros t.unpacked_length

trim_terms-content_example :
    (off : ℕ) × (ks : List ReconstructionTerm) × (trim_terms terms (some (4, 9)) ≡ ok (off, ks))
    × (take (suc (min 9 (total_size terms - 1)) - 4) (drop off (content bytes_of ks))
        ≡ take (suc (min 9 (total_size terms - 1)) - 4) (drop 4 (content bytes_of terms)))
trim_terms-content_example =
    trim_terms-content bytes_of 4 9 terms (refl, (refl, (refl, tt))) (omega arith) (omega arith)

merged_chunk_ranges_per_xorb-needed_example :
    wanted_by xorb_a 5 (merged_chunk_ranges_per_xorb terms) ≡ needed xorb_a 5 terms
merged_chunk_ranges_per_xorb-needed_example = merged_chunk_ranges_per_xorb-needed xorb_a 5 terms

merged_chunk_ranges_per_xorb-Separated_example : AllSeparated (merged_chunk_ranges_per_xorb terms)
merged_chunk_ranges_per_xorb-Separated_example = merged_chunk_ranges_per_xorb-Separated terms

abbrev span_header : HeaderMap
span_header name = some (some (codes "bytes=" ++ (decimal 4 ++ b'-' ∷ decimal 9)))

abbrev two_chunks : XorbInfo
two_chunks = record {
  num_chunks = 2;
  chunk_hashes = codes "c" ∷ codes "d" ∷ [];
  chunk_boundary_offsets = 20 ∷ 40 ∷ [];
  unpacked_chunk_offsets = 30 ∷ 60 ∷ [];
}

two_chunks-IsFramed : IsFramed two_chunks
two_chunks-IsFramed = record {
  hashes = refl;
  boundaries = refl;
  unpacked = refl;
  frames = (omega arith, omega arith, (omega arith, omega arith, tt));
}

chunk_byte_offsets_from_layout-layout_from_info_example :
    (layout : XorbLayout) × (layout_from_info two_chunks 40 ≡ some layout)
    × (chunk_byte_offsets_from_layout layout
        ≡ (if any predates layout.chunks then none else chunk_byte_offsets two_chunks))
chunk_byte_offsets_from_layout-layout_from_info_example =
    chunk_byte_offsets_from_layout-layout_from_info two_chunks 40 two_chunks-IsFramed

abbrev whole : ChunkRange
whole = record { start = 0; end = 2 }

resolve_ranges-Spans_example :
    (out : List (ChunkRange × ByteRange)) × (resolve_ranges ((0, 20) ∷ (20, 40) ∷ []) (whole ∷ [])
      ≡ ok out)
    × (map (λ x. x.0) out ≡ keep (λ r. ltb r.start 2) (whole ∷ []))
    × All (Spans ((0, 20) ∷ (20, 40) ∷ [])) out
resolve_ranges-Spans_example =
    resolve_ranges-Spans ((0, 20) ∷ (20, 40) ∷ []) (whole ∷ []) (omega arith, tt)
