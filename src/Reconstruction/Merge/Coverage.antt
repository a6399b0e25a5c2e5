-- ===== src/Reconstruction/Merge/Coverage.antt =====
-- The merged ranges cover what the terms need, and nothing else.
use openxet.Base.{
  All, Bool, Bool-cases, List, [], ap, arith, false, inl, inr, leb, ltb, max, refl, true, ℕ, ◌&&◌,
  ◌++◌, ◌<◌, ◌||◌, ◌∷◌, ◌≡◌, ◌≤◌,
}
use openxet.Text.{Text, eq_text, eq_text_iff}
use openxet.Reconstruction.Types.{ChunkRange, ReconstructionTerm}
use openxet.Reconstruction.Merge.{
  add_range, group_ranges, lt_range, insert_range, sort_ranges, merge_from, merge_sorted,
  merge_entries, merged_chunk_ranges_per_xorb,
}

-- A chunk index is in a range, and in one of a list.
abbrev pub inside : ℕ → ChunkRange → Bool
inside k r = leb r.start k && ltb k r.end

abbrev pub covers : ℕ → List ChunkRange → Bool
covers k [] = false
covers k (r ∷ rs) = inside k r || covers k rs

-- A xorb's chunk is asked for by some entry, and by some term.
abbrev pub wanted_by : Text → ℕ → List (Text × List ChunkRange) → Bool
wanted_by hash k [] = false
wanted_by hash k ((h, rs) ∷ entries) = (eq_text h hash && covers k rs) || wanted_by hash k entries

abbrev pub needed : Text → ℕ → List ReconstructionTerm → Bool
needed hash k [] = false
needed hash k (t ∷ ts) = (eq_text t.hash hash && inside k t.range) || needed hash k ts

-- Starts that do not decrease.
abbrev Ordered : ℕ → List ChunkRange → Type 0
Ordered low [] = Unit {0}
Ordered low (r ∷ rs) = (low ≤ r.start) × Ordered r.start rs

-- Ranges in order with a gap before each.
abbrev pub Separated : List ChunkRange → Type 0
Separated [] = Unit {0}
Separated (r ∷ []) = Unit {0}
Separated (r ∷ s ∷ rs) = (r.end < s.start) × Separated (s ∷ rs)

covers-insert_range :
    (k : ℕ) (r : ChunkRange) (ss : List ChunkRange)
    → covers k (insert_range r ss) ≡ (inside k r || covers k ss)
unfolding insert_range
covers-insert_range k r [] = refl
covers-insert_range k r (s ∷ ss) = ground (arith, covers-insert_range k r ss)

covers-sort_ranges :
    (k : ℕ) (rs ss : List ChunkRange) → covers k (sort_ranges rs ss) ≡ (covers k rs || covers k ss)
unfolding sort_ranges
covers-sort_ranges k [] ss = refl
covers-sort_ranges k (r ∷ rs) ss =
    ground (arith, covers-sort_ranges k rs (insert_range r ss), covers-insert_range k r ss)

Ordered-insert_range :
    (low : ℕ) (r : ChunkRange) (ss : List ChunkRange)
    → low ≤ r.start
    → Ordered low ss
    → Ordered low (insert_range r ss)
unfolding insert_range
Ordered-insert_range low r [] h o = (h, tt)
Ordered-insert_range low r (s ∷ ss) h (p, o) = elim (Bool-cases (lt_range r s)) [
  | inl e ↦ ground (arith, o)
  | inr e ↦
      let q : s.start ≤ r.start = ground arith in
      let rest = Ordered-insert_range s.start r ss q o in ground (arith, rest)
]

Ordered-sort_ranges : (rs ss : List ChunkRange) → Ordered 0 ss → Ordered 0 (sort_ranges rs ss)
unfolding sort_ranges
Ordered-sort_ranges [] ss o = o
Ordered-sort_ranges (r ∷ rs) ss o =
    Ordered-sort_ranges rs (insert_range r ss) (Ordered-insert_range 0 r ss (omega arith) o)

Ordered-mono : (a b : ℕ) (rs : List ChunkRange) → a ≤ b → Ordered b rs → Ordered a rs
Ordered-mono a b [] h o = tt
Ordered-mono a b (r ∷ rs) h (p, o) = (omega arith, o)

-- Merging keeps what is covered: no chunk between two merged ranges is added.
covers-merge_from :
    (k : ℕ) (last : ChunkRange) (rs : List ChunkRange)
    → Ordered last.start rs
    → covers k (merge_from last rs) ≡ (inside k last || covers k rs)
unfolding merge_from
covers-merge_from k last [] o = refl
covers-merge_from k last (r ∷ rs) (p, o) =
    let merged =
      covers-merge_from k (record { start = last.start; end = max last.end r.end }) rs
        (Ordered-mono last.start r.start rs p o) in
    let apart = covers-merge_from k r rs o in ground (arith, merged, apart)

head-merge_from :
    (last : ChunkRange) (rs : List ChunkRange)
    → (m : ChunkRange) × (ms : List ChunkRange) × (merge_from last rs ≡ m ∷ ms)
      × (m.start ≡ last.start)
unfolding merge_from
head-merge_from last [] = (last, [], refl, refl)
head-merge_from last (r ∷ rs) =
    elim (leb r.start last.end)
      as (λ b.
        (m : ChunkRange) × (ms : List ChunkRange) × (elim b [
          | true ↦ merge_from (record { start = last.start; end = max last.end r.end }) rs
          | false ↦ last ∷ merge_from r rs
        ]
          ≡ m ∷ ms)
        × (m.start ≡ last.start)) [
          | true ↦ head-merge_from (record { start = last.start; end = max last.end r.end }) rs
          | false ↦ (last, merge_from r rs, refl, refl)
        ]

Separated-merge_from :
    (last : ChunkRange) (rs : List ChunkRange)
    → Ordered last.start rs
    → Separated (merge_from last rs)
unfolding merge_from
Separated-merge_from last [] o = tt
Separated-merge_from last (r ∷ rs) (p, o) =
    let merged =
      Separated-merge_from (record { start = last.start; end = max last.end r.end }) rs
        (Ordered-mono last.start r.start rs p o) in
    let apart = Separated-merge_from r rs o in
    elim (Bool-cases (leb r.start last.end)) [
      | inl e ↦ ground (arith, merged)
      | inr e ↦
          let (m, ms, f, g) = head-merge_from r rs in
          let gap : last.end < m.start = ground arith in
          let q : merge_from last (r ∷ rs) ≡ last ∷ m ∷ ms = ground (arith, f) in
          rw q (gap, rw f at apart)
    ]

-- The ranges of each xorb are apart, in order and with a gap between them.
abbrev pub AllSeparated : List (Text × List ChunkRange) → Type 0
AllSeparated entries = All (λ e. Separated e.1) entries

covers-merge_sorted :
    (k : ℕ) (rs : List ChunkRange) → Ordered 0 rs → covers k (merge_sorted rs) ≡ covers k rs
unfolding merge_sorted
covers-merge_sorted k [] o = refl
covers-merge_sorted k (r ∷ rs) (p, o) = covers-merge_from k r rs o

Separated-merge_sorted : (rs : List ChunkRange) → Ordered 0 rs → Separated (merge_sorted rs)
unfolding merge_sorted
Separated-merge_sorted [] o = tt
Separated-merge_sorted (r ∷ rs) (p, o) = Separated-merge_from r rs o

covers-append :
    (k : ℕ) (rs : List ChunkRange) (r : ChunkRange)
    → covers k (rs ++ r ∷ []) ≡ (inside k r || covers k rs)
covers-append k [] r = refl
covers-append k (s ∷ rs) r = ground (arith, covers-append k rs r)

wanted_by-add_range :
    (hash : Text) (k : ℕ) (h : Text) (r : ChunkRange) (entries : List (Text × List ChunkRange))
    → wanted_by hash k (add_range h r entries)
      ≡ ((eq_text h hash && inside k r) || wanted_by hash k entries)
unfolding add_range
wanted_by-add_range hash k h r [] = ground arith
wanted_by-add_range hash k h r ((h', rs) ∷ entries) =
    let rest = wanted_by-add_range hash k h r entries in
    elim (Bool-cases (eq_text h' h)) [
      | inl e ↦
          ground (arith, covers-append k rs r, ap (λ x. eq_text x hash) ((eq_text_iff h' h).0 e))
      | inr e ↦ ground (arith, rest)
    ]

wanted_by-group_ranges :
    (hash : Text) (k : ℕ) (ts : List ReconstructionTerm) (entries : List (Text × List ChunkRange))
    → wanted_by hash k (group_ranges ts entries) ≡ (needed hash k ts || wanted_by hash k entries)
unfolding group_ranges
wanted_by-group_ranges hash k [] entries = refl
wanted_by-group_ranges hash k (t ∷ ts) entries = ground (
  arith,
  wanted_by-group_ranges hash k ts (add_range t.hash t.range entries),
  wanted_by-add_range hash k t.hash t.range entries,
)

wanted_by-merge_entries :
    (hash : Text) (k : ℕ) (entries : List (Text × List ChunkRange))
    → wanted_by hash k (merge_entries entries) ≡ wanted_by hash k entries
unfolding merge_entries
wanted_by-merge_entries hash k [] = refl
wanted_by-merge_entries hash k ((h, rs) ∷ entries) = ground (
  arith,
  wanted_by-merge_entries hash k entries,
  covers-sort_ranges k rs [],
  covers-merge_sorted k (sort_ranges rs []) (Ordered-sort_ranges rs [] tt),
)

AllSeparated-merge_entries :
    (entries : List (Text × List ChunkRange)) → AllSeparated (merge_entries entries)
unfolding merge_entries
AllSeparated-merge_entries [] = tt
AllSeparated-merge_entries ((h, rs) ∷ entries) = (
  Separated-merge_sorted (sort_ranges rs []) (Ordered-sort_ranges rs [] tt),
  AllSeparated-merge_entries entries,
)

-- The merged ranges of a xorb cover exactly the chunks of it that the terms need, whatever
-- the number and the order of the terms.
pub merged_chunk_ranges_per_xorb-needed :
    (hash : Text) (k : ℕ) (terms : List ReconstructionTerm)
    → wanted_by hash k (merged_chunk_ranges_per_xorb terms) ≡ needed hash k terms
unfolding merged_chunk_ranges_per_xorb
merged_chunk_ranges_per_xorb-needed hash k terms = ground (
  arith,
  wanted_by-merge_entries hash k (group_ranges terms []),
  wanted_by-group_ranges hash k terms [],
)

-- The merged ranges of each xorb are in order, and each ends before the next starts: none overlap and
-- none are adjacent.
pub merged_chunk_ranges_per_xorb-Separated :
    (terms : List ReconstructionTerm) → AllSeparated (merged_chunk_ranges_per_xorb terms)
unfolding merged_chunk_ranges_per_xorb
merged_chunk_ranges_per_xorb-Separated terms = AllSeparated-merge_entries (group_ranges terms [])
