-- ===== src/Index/Postgres/Sequence.antt =====
-- What sorting by `seq` answers of a table whose numbers were drawn in order. Source:
-- crates/server/src/storage/index/postgres_index.rs.
use openxet.Base.{
  All, Bool, Bool-cases, List, [], ap, append-nil, arith, if◌then◌else◌, inl, inr, keep, keep-false,
  keep-true, ltb, map, refl, subst, sym, ℕ, ◌++◌, ◌<◌, ◌||◌, ◌∙◌, ◌∷◌, ◌≡◌, ◌≤◌,
}
use openxet.Index.Chunks.{ChunkRow, same_key, insert_chunk}
use openxet.Index.Chunks.Keys.{located}
use openxet.Index.Postgres.{SequenceRow, place_row, order_by_seq, in_table}

-- The numbers go down from the newest row, all below a bound.
abbrev pub Descending : ℕ → List SequenceRow → Type 0
Descending bound [] = Unit {0}
Descending bound (r ∷ rows) = (r.seq < bound) × Descending r.seq rows

pub Descending-weaken :
    (a b : ℕ) (rows : List SequenceRow) → a ≤ b → Descending a rows → Descending b rows
Descending-weaken a b [] h d = tt
Descending-weaken a b (r ∷ rows) h (d, ds) = (omega arith, ds)

Descending-All :
    (bound : ℕ) (rows : List SequenceRow) → Descending bound rows → All (λ s. s.seq < bound) rows
Descending-All bound [] d = tt
Descending-All bound (r ∷ rows) (d, ds) =
    (d, Descending-All bound rows (Descending-weaken r.seq bound rows (omega arith) ds))

All-place_row :
    (bound : ℕ) (r : SequenceRow) (rows : List SequenceRow)
    → r.seq < bound
    → All (λ s. s.seq < bound) rows
    → All (λ s. s.seq < bound) (place_row r rows)
unfolding place_row
All-place_row bound r [] h a = (h, tt)
All-place_row bound r (s ∷ rows) h (a, as') = elim (Bool-cases (ltb s.seq r.seq)) [
  | inl t ↦ rw t (a, All-place_row bound r rows h as')
  | inr f ↦ rw f (h, (a, as'))
]

All-order_by_seq :
    (bound : ℕ) (rows : List SequenceRow)
    → All (λ s. s.seq < bound) rows
    → All (λ s. s.seq < bound) (order_by_seq rows)
unfolding order_by_seq
All-order_by_seq bound [] a = tt
All-order_by_seq bound (r ∷ rows) (a, as') =
    All-place_row bound r (order_by_seq rows) a (All-order_by_seq bound rows as')

place_row_last :
    (r : SequenceRow) (rows : List SequenceRow)
    → All (λ s. s.seq < r.seq) rows
    → place_row r rows ≡ rows ++ r ∷ []
unfolding place_row
place_row_last r [] a = refl
place_row_last r (s ∷ rows) (a, as') =
    let rest = place_row_last r rows as' in ground (arith, a, rest)

-- The rows in the order of the query.
abbrev pub sorted_rows : List SequenceRow → List ChunkRow
sorted_rows rows = map (λ s. s.row) (order_by_seq rows)

map-snoc {ℓ κ} :
    {A : Type ℓ} {B : Type κ} (f : A → B) (xs : List A) (x : A)
    → map f (xs ++ x ∷ []) ≡ map f xs ++ f x ∷ []
map-snoc f [] x = refl
map-snoc f (y ∷ xs) x = ap (λ l. f y ∷ l) (map-snoc f xs x)

pub sorted_rows-cons :
    (bound : ℕ) (r : SequenceRow) (rows : List SequenceRow)
    → Descending bound (r ∷ rows)
    → sorted_rows (r ∷ rows) ≡ sorted_rows rows ++ r.row ∷ []
unfolding order_by_seq
sorted_rows-cons bound r rows (d, ds) =
    ap (map (λ s. s.row)) (
      place_row_last r (order_by_seq rows)
        (All-order_by_seq r.seq rows (Descending-All r.seq rows ds)))
    ∙ map-snoc (λ s. s.row) (order_by_seq rows) r

located-snoc :
    (r s : ChunkRow) (rows : List ChunkRow)
    → located r (rows ++ s ∷ []) ≡ (same_key s r || located r rows)
unfolding located
located-snoc r s [] = refl
located-snoc r s (t ∷ rows) = ground (arith, located-snoc r s rows)

pub in_table-located :
    (r : ChunkRow) (bound : ℕ) (rows : List SequenceRow)
    → Descending bound rows
    → in_table r rows ≡ located r (sorted_rows rows)
unfolding in_table
in_table-located r bound [] d = unfold located order_by_seq in refl
in_table-located r bound (s ∷ rows) (d, ds) =
    ap (λ b. same_key s.row r || b) (in_table-located r s.seq rows ds)
    ∙ sym (located-snoc r s.row (sorted_rows rows))
    ∙ ap (located r) (sym (sorted_rows-cons bound s rows (d, ds)))

pub insert_chunk-located :
    (rows : List ChunkRow) (r : ChunkRow)
    → insert_chunk rows r ≡ (if located r rows then rows else rows ++ r ∷ [])
unfolding insert_chunk located
insert_chunk-located [] r = refl
insert_chunk-located (s ∷ rows) r = ground (arith, insert_chunk-located rows r)

keep-snoc {ℓ} :
    {A : Type ℓ} (p : A → Bool) (xs : List A) (x : A)
    → keep p (xs ++ x ∷ []) ≡ keep p xs ++ keep p (x ∷ [])
unfolding keep
keep-snoc p [] x = refl
keep-snoc p (y ∷ xs) x = ground (arith, keep-snoc p xs x)

pub Descending-keep :
    (bound : ℕ) (p : SequenceRow → Bool) (rows : List SequenceRow)
    → Descending bound rows
    → Descending bound (keep p rows)
unfolding keep
Descending-keep bound p [] d = tt
Descending-keep bound p (r ∷ rows) (d, ds) = elim (Bool-cases (p r)) [
  | inl t ↦
      subst (λ (l : List SequenceRow). Descending bound l) (sym (keep-true p r rows t))
        (d, Descending-keep r.seq p rows ds)
  | inr f ↦
      subst (λ (l : List SequenceRow). Descending bound l) (sym (keep-false p r rows f))
        (Descending-keep bound p rows (Descending-weaken r.seq bound rows (omega arith) ds))
]

-- Sorting what a condition on the rows keeps is keeping of what is sorted.
pub sorted_rows-keep :
    (bound : ℕ) (p : ChunkRow → Bool) (rows : List SequenceRow)
    → Descending bound rows
    → sorted_rows (keep (λ s. p s.row) rows) ≡ keep p (sorted_rows rows)
sorted_rows-keep bound p [] d = unfold order_by_seq keep in refl
sorted_rows-keep bound p (r ∷ rows) (d, ds) =
    let kept : keep p (sorted_rows (r ∷ rows)) ≡ keep p (sorted_rows rows) ++ keep p (r.row ∷ []) =
      ap (keep p) (sorted_rows-cons bound r rows (d, ds)) ∙ keep-snoc p (sorted_rows rows) r.row in
    let rest = sorted_rows-keep r.seq p rows ds in
    elim (Bool-cases (p r.row)) [
      | inl t ↦
          let one : keep p (r.row ∷ []) ≡ r.row ∷ [] = unfold keep in keep-true p r.row [] t in
          ap sorted_rows (keep-true (λ (s : SequenceRow). p s.row) r rows t)
          ∙ sorted_rows-cons bound r (keep (λ s. p s.row) rows)
              (d, Descending-keep r.seq (λ s. p s.row) rows ds)
          ∙ ap (λ l. l ++ r.row ∷ []) rest
          ∙ ap (λ l. keep p (sorted_rows rows) ++ l) (sym one)
          ∙ sym kept
      | inr f ↦
          let no_row : keep p (r.row ∷ []) ≡ [] = unfold keep in keep-false p r.row [] f in
          ap sorted_rows (keep-false (λ (s : SequenceRow). p s.row) r rows f)
          ∙ rest
          ∙ sym (append-nil (keep p (sorted_rows rows)))
          ∙ ap (λ l. keep p (sorted_rows rows) ++ l) (sym no_row)
          ∙ sym kept
    ]
