-- ===== src/Index/Chunks/Keys.antt =====
-- What the dedup lookups see of each write to the chunk tables.
use openxet.Base.{
  All, Bool, List, Result-cases, [], ap, arith, false, if◌then◌else◌, inl, inr, keep, map, none,
  not, ok, ok-injective, refl, some, subst, true, ◌>>◌, ◌||◌, ◌↔◌, ◌∙◌, ◌∷◌, ◌≡◌,
}
use openxet.Text.{Text, eq_text, eq_text_iff}
use openxet.Hash.{validate_hash}
use openxet.Index.{ChunkLocation, XorbLayout}
use openxet.Index.Chunks.{
  ChunkRow, LayoutRow, ChunkIndex, Json, same_key, insert_chunk, insert_all, row_of, put_batch,
  select_layout, upsert_layout, remove_xorb, get_xorb_layout, put_xorb_layout, validate_all,
}

-- Whether the table places a chunk at a location.
unfoldable pub located : ChunkRow → List ChunkRow → Bool
located r [] = false
located r (s ∷ rows) = same_key s r || located r rows

-- No two rows share the composite key.
abbrev pub DistinctRows : List ChunkRow → Type 0
DistinctRows [] = Unit {0}
DistinctRows (r ∷ rows) = (located r rows ≡ false) × DistinctRows rows

-- The key determines the row.
same_key_iff : (r s : ChunkRow) → (same_key r s ≡ true) ↔ (r ≡ s)
same_key_iff r s = ground (
  arith,
  eq_text_iff r.chunk_hash s.chunk_hash,
  eq_text_iff r.location.xorb_hash s.location.xorb_hash,
)

located-insert_chunk :
    (r s : ChunkRow) (rows : List ChunkRow)
    → located r (insert_chunk rows s) ≡ (same_key s r || located r rows)
unfolding located insert_chunk
located-insert_chunk r s [] = ground arith
located-insert_chunk r s (t ∷ rows) =
    ground
      (arith, located-insert_chunk r s rows, same_key_iff t s, same_key_iff t r, same_key_iff s r)

located-insert_all :
    (r : ChunkRow) (rows new : List ChunkRow)
    → located r (insert_all rows new) ≡ (located r new || located r rows)
unfolding insert_all
located-insert_all r rows [] = unfold located in refl
located-insert_all r rows (s ∷ new) =
    located-insert_all r (insert_chunk rows s) new
    ∙ ap (λ b. located r new || b) (located-insert_chunk r s rows)
    ∙ unfold located in ground arith

insert_chunk-DistinctRows :
    (s : ChunkRow) (rows : List ChunkRow) → DistinctRows rows → DistinctRows (insert_chunk rows s)
unfolding insert_chunk
insert_chunk-DistinctRows s [] d = unfold located in (refl, tt)
insert_chunk-DistinctRows s (t ∷ rows) (d, ds) = ground (
  arith,
  insert_chunk-DistinctRows s rows ds,
  located-insert_chunk t s rows,
  same_key_iff s t,
  same_key_iff t s,
)

insert_all-DistinctRows :
    (rows new : List ChunkRow) → DistinctRows rows → DistinctRows (insert_all rows new)
unfolding insert_all
insert_all-DistinctRows rows [] d = d
insert_all-DistinctRows rows (s ∷ new) d =
    insert_all-DistinctRows (insert_chunk rows s) new (insert_chunk-DistinctRows s rows d)

put_batch-eq-ok :
    (idx idx' : ChunkIndex) (entries : List (Text × ChunkLocation))
    → put_batch idx entries ≡ ok idx'
    → record idx { chunk_index = insert_all idx.chunk_index (map row_of entries) } ≡ idx'
unfolding put_batch
put_batch-eq-ok idx idx' entries e = elim (Result-cases (validate_all entries)) [
  | inr (bad, f) ↦ absurd (ground arith)
  | inl (u, good) ↦ ok-injective (rw good at e)
]

-- After a batch was put, a chunk is at a location exactly if the batch says so or the table did; no
-- row is doubled where none was, and the layouts are as they were.
pub put_batch-located :
    (idx idx' : ChunkIndex) (entries : List (Text × ChunkLocation))
    → DistinctRows idx.chunk_index
    → put_batch idx entries ≡ ok idx'
    → ((r : ChunkRow)
        → located r idx'.chunk_index
          ≡ (located r (map row_of entries) || located r idx.chunk_index))
      × DistinctRows idx'.chunk_index
      × (idx'.xorb_layout ≡ idx.xorb_layout)
put_batch-located idx idx' entries d e =
    subst (λ (i : ChunkIndex). Puts i) (put_batch-eq-ok idx idx' entries e)
      (
        λ r. located-insert_all r idx.chunk_index (map row_of entries),
        insert_all-DistinctRows idx.chunk_index (map row_of entries) d,
        refl,
      )
  where
    Puts : ChunkIndex → Type 0
    Puts i =
        ((r : ChunkRow)
          → located r i.chunk_index ≡ (located r (map row_of entries) || located r idx.chunk_index))
        × DistinctRows i.chunk_index
        × (i.xorb_layout ≡ idx.xorb_layout)

insert_chunk_known :
    (rows : List ChunkRow) (s : ChunkRow) → located s rows ≡ true → insert_chunk rows s ≡ rows
unfolding insert_chunk located
insert_chunk_known [] s h = cc
insert_chunk_known (t ∷ rows) s h =
    ground (arith, insert_chunk_known rows s, same_key_iff s t, same_key_iff t s)

abbrev AllLocated : List ChunkRow → List ChunkRow → Type 0
AllLocated rows new = All (λ r. located r rows ≡ true) new

insert_all_known : (rows new : List ChunkRow) → AllLocated rows new → insert_all rows new ≡ rows
unfolding insert_all
insert_all_known rows [] h = refl
insert_all_known rows (s ∷ new) (h, hs) =
    ap (λ t. insert_all t new) (insert_chunk_known rows s h) ∙ insert_all_known rows new hs

located_self :
    (new rows : List ChunkRow)
    → ((r : ChunkRow) → located r new ≡ true → located r rows ≡ true)
    → AllLocated rows new
unfolding located
located_self [] rows h = tt
located_self (s ∷ new) rows h =
    (h s (ground (arith, same_key_iff s s)), located_self new rows (λ r e. h r (ground arith)))

put_batch_valid :
    (idx idx' : ChunkIndex) (entries : List (Text × ChunkLocation))
    → put_batch idx entries ≡ ok idx'
    → validate_all entries ≡ ok tt
unfolding put_batch
put_batch_valid idx idx' entries e = elim (Result-cases (validate_all entries)) [
  | inr (bad, f) ↦ absurd (ground arith)
  | inl (u, good) ↦ good
]

put_batch_of_valid :
    (idx : ChunkIndex) (entries : List (Text × ChunkLocation))
    → validate_all entries ≡ ok tt
    → put_batch idx entries
      ≡ ok (record idx { chunk_index = insert_all idx.chunk_index (map row_of entries) })
unfolding put_batch
put_batch_of_valid idx entries good = rw good

-- Putting the same batch again changes nothing.
pub put_batch_twice :
    (idx idx' : ChunkIndex) (entries : List (Text × ChunkLocation))
    → put_batch idx entries ≡ ok idx'
    → put_batch idx' entries ≡ ok idx'
put_batch_twice idx idx' entries e =
    subst (λ (i : ChunkIndex). put_batch i entries ≡ ok i) (put_batch-eq-ok idx idx' entries e)
      (put_batch_of_valid once entries (put_batch_valid idx idx' entries e)
        ∙ ap (λ rows. ok (record idx { chunk_index = rows })) known)
  where
    once : ChunkIndex
    once = record idx { chunk_index = insert_all idx.chunk_index (map row_of entries) }

    known : insert_all once.chunk_index (map row_of entries) ≡ once.chunk_index
    known = insert_all_known once.chunk_index (map row_of entries) (
        located_self (map row_of entries) once.chunk_index
          (λ r h. located-insert_all r idx.chunk_index (map row_of entries) ∙ rw h))

abbrev pub in_xorb : Text → ChunkRow → Bool
in_xorb x r = eq_text r.location.xorb_hash x

located-keep :
    (x : Text) (r : ChunkRow) (rows : List ChunkRow)
    → located r (keep (λ s. not (in_xorb x s)) rows)
      ≡ (if in_xorb x r then false else located r rows)
unfolding located keep
located-keep x r [] = ground arith
located-keep x r (s ∷ rows) = ground (arith, located-keep x r rows, same_key_iff s r)

select_layout-keep :
    (h g : Text) (rs : List LayoutRow)
    → select_layout g (keep (λ r. not (eq_text r.xorb_hash h)) rs)
      ≡ (if eq_text h g then none else select_layout g rs)
unfolding select_layout keep
select_layout-keep h g [] = ground arith
select_layout-keep h g (r ∷ rs) = ground (
  arith,
  select_layout-keep h g rs,
  eq_text_iff r.xorb_hash h,
  eq_text_iff r.xorb_hash g,
  eq_text_iff h g,
)

select_layout-upsert_layout :
    (h g l : Text) (rs : List LayoutRow)
    → select_layout g (upsert_layout h l rs) ≡ (if eq_text h g then some l else select_layout g rs)
unfolding select_layout upsert_layout
select_layout-upsert_layout h g l [] = ground arith
select_layout-upsert_layout h g l (r ∷ rs) = ground (
  arith,
  select_layout-upsert_layout h g l rs,
  eq_text_iff r.xorb_hash h,
  eq_text_iff r.xorb_hash g,
  eq_text_iff h g,
)

module _ (j : Json) where
  -- After a xorb was removed, no chunk is placed in it and its layout is gone; every other location
  -- and layout is as it was.
  pub remove_xorb-located :
      (idx idx' : ChunkIndex) (x : Text)
      → remove_xorb idx x ≡ ok idx'
      → ((r : ChunkRow)
          → located r idx'.chunk_index ≡ (if in_xorb x r then false else located r idx.chunk_index))
        × ((g : Text)
            → get_xorb_layout j idx' g
              ≡ (if eq_text x g then (validate_hash g >> ok none) else get_xorb_layout j idx g))
  unfolding remove_xorb get_xorb_layout
  remove_xorb-located idx idx' x e = (
    λ r. ground (arith, located-keep x r idx.chunk_index),
    λ g. ground (arith, select_layout-keep x g idx.xorb_layout),
  )

  -- A recorded layout is read back as it was recorded; those of other xorbs are as they were, and so
  -- are the locations.
  pub get_xorb_layout-put :
      (idx idx' : ChunkIndex) (x g : Text) (l : XorbLayout)
      → put_xorb_layout j idx x l ≡ ok idx'
      → (get_xorb_layout j idx' g
          ≡ (if eq_text x g then (validate_hash g >> ok (some l)) else get_xorb_layout j idx g))
        × (idx'.chunk_index ≡ idx.chunk_index)
  unfolding put_xorb_layout get_xorb_layout
  get_xorb_layout-put idx idx' x g l e = (
    ground (
      arith,
      select_layout-upsert_layout x g (j.to_string l) idx.xorb_layout,
      j.from_str-to_string l,
    ),
    ground arith,
  )
