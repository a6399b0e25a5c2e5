-- ===== src/Reconstruction/Merge.antt =====
-- The chunk ranges that the terms need of each xorb, merged.
-- Source: crates/server/src/routes/reconstruction.rs, `merged_chunk_ranges_per_xorb`.
pub mod Coverage
use openxet.Base.{Bool, List, [], false, leb, ltb, max, true, ◌&&◌, ◌++◌, ◌==◌, ◌||◌, ◌∷◌}
use openxet.Text.{Text, eq_text}
use openxet.Reconstruction.Types.{ChunkRange, ReconstructionTerm}

-- The map entry of the term's xorb gets the range; a new xorb comes last.
unfoldable pub add_range :
    Text → ChunkRange → List (Text × List ChunkRange) → List (Text × List ChunkRange)
add_range hash range [] = (hash, range ∷ []) ∷ []
add_range hash range ((h, rs) ∷ entries) = elim (eq_text h hash) [
  | true ↦ (h, rs ++ range ∷ []) ∷ entries
  | false ↦ (h, rs) ∷ add_range hash range entries
]

unfoldable pub group_ranges :
    List ReconstructionTerm → List (Text × List ChunkRange) → List (Text × List ChunkRange)
group_ranges [] entries = entries
group_ranges (t ∷ ts) entries = group_ranges ts (add_range t.hash t.range entries)

-- `(a.start, a.end) < (b.start, b.end)`
abbrev pub lt_range : ChunkRange → ChunkRange → Bool
lt_range a b = ltb a.start b.start || (a.start == b.start && ltb a.end b.end)

-- `sort_by_key` is stable: an element goes behind those with its key.
unfoldable pub insert_range : ChunkRange → List ChunkRange → List ChunkRange
insert_range r [] = r ∷ []
insert_range r (s ∷ ss) = elim (lt_range r s) [ true ↦ r ∷ s ∷ ss | false ↦ s ∷ insert_range r ss ]

unfoldable pub sort_ranges : List ChunkRange → List ChunkRange → List ChunkRange
sort_ranges [] sorted = sorted
sort_ranges (r ∷ rs) sorted = sort_ranges rs (insert_range r sorted)

-- The loop over the sorted ranges, with the last merged range at hand: the earlier ones do not
-- change any more.
unfoldable pub merge_from : ChunkRange → List ChunkRange → List ChunkRange
merge_from last [] = last ∷ []
merge_from last (r ∷ rs) = elim (leb r.start last.end) [
  | true ↦ merge_from (record { start = last.start; end = max last.end r.end }) rs
  | false ↦ last ∷ merge_from r rs
]

unfoldable pub merge_sorted : List ChunkRange → List ChunkRange
merge_sorted [] = []
merge_sorted (r ∷ rs) = merge_from r rs

unfoldable pub merge_entries : List (Text × List ChunkRange) → List (Text × List ChunkRange)
merge_entries [] = []
merge_entries ((h, rs) ∷ entries) = (h, merge_sorted (sort_ranges rs [])) ∷ merge_entries entries

unfoldable pub merged_chunk_ranges_per_xorb :
    List ReconstructionTerm → List (Text × List ChunkRange)
unfolding group_ranges merge_entries
merged_chunk_ranges_per_xorb terms = merge_entries (group_ranges terms [])
