-- ===== src/Index/Postgres/Agreement.antt =====
-- The two chunk indexes answer alike. Sources:
-- crates/server/src/storage/index/postgres_index.rs and sqlite_index.rs.
use openxet.Sql.{order_by, is_after}
use openxet.Base.{
  Bool-cases, List, Option, Result, [], ap, arith, err, false, inl, inr, keep, map, none, not, ok,
  refl, some, subst, suc, sym, take, true, ℕ, ◌++◌, ◌>>◌, ◌∙◌, ◌∷◌, ◌≡◌,
}
use openxet.Text.{Text, eq_text}
use openxet.Errors.{StorageError}
use openxet.Hash.{validate_hash}
use openxet.Index.{ChunkLocation, XorbLayout}
use openxet.Index.Chunks.{
  ChunkIndex, ChunkRow, Json, insert_chunk, insert_all, validate_all, row_of, LayoutRow,
}
use openxet.Index.Chunks as Sqlite
use openxet.Index.Chunks.Keys.{located}
use openxet.Index.Postgres.{
  PostgresChunkIndex, SequenceRow, order_by_seq, in_table, insert_row, insert_rows,
}
use openxet.Index.Postgres as Postgres
use openxet.Index.Postgres.Sequence.{
  Descending, Descending-weaken, Descending-keep, sorted_rows, sorted_rows-cons, sorted_rows-keep,
  in_table-located, insert_chunk-located,
}

-- The Postgres tables hold what the SQLite tables do, in the same order, with numbers below the next.
pub record Refines (p : PostgresChunkIndex) (s : ChunkIndex) : Type 0 where
  pub drawn : Descending p.next_seq p.chunk_index
  pub rows : sorted_rows p.chunk_index ≡ s.chunk_index
  pub layouts : p.xorb_layout ≡ s.xorb_layout

insert_row-Refines :
    (p : PostgresChunkIndex) (s : ChunkIndex) (r : ChunkRow)
    → Refines p s
    → Refines (insert_row p r) (record s { chunk_index = insert_chunk s.chunk_index r })
unfolding insert_row
insert_row-Refines p s r h =
    let known : in_table r p.chunk_index ≡ located r s.chunk_index =
      in_table-located r p.next_seq p.chunk_index h.drawn ∙ ap (located r) h.rows in
    let inserted = insert_chunk-located s.chunk_index r in
    elim (Bool-cases (in_table r p.chunk_index)) [
      | inl t ↦
          let same : insert_chunk s.chunk_index r ≡ s.chunk_index =
            ground (arith, inserted, known, t) in
          subst
            (λ (q : PostgresChunkIndex).
              Refines q (record s { chunk_index = insert_chunk s.chunk_index r }))
            (sym (conflict t))
            (record {
              drawn =
                  Descending-weaken p.next_seq (suc p.next_seq) p.chunk_index (omega arith) h.drawn;
              rows = h.rows ∙ sym same;
              layouts = h.layouts;
            })
      | inr f ↦
          let added : insert_chunk s.chunk_index r ≡ s.chunk_index ++ r ∷ [] =
            ground (arith, inserted, known, f) in
          subst
            (λ (q : PostgresChunkIndex).
              Refines q (record s { chunk_index = insert_chunk s.chunk_index r }))
            (sym (drawn_row f))
            (record {
              drawn = (omega arith, h.drawn);
              rows =
                  sorted_rows-cons (suc p.next_seq) _ p.chunk_index (omega arith, h.drawn)
                  ∙ ap (λ l. l ++ r ∷ []) h.rows
                  ∙ sym added;
              layouts = h.layouts;
            })
    ]
  where
    conflict :
        in_table r p.chunk_index ≡ true → insert_row p r ≡ record p { next_seq = suc p.next_seq }
    conflict t = rw t refl

    drawn_row :
        in_table r p.chunk_index ≡ false
        → insert_row p r ≡ record p {
          next_seq = suc p.next_seq;
          chunk_index = record { seq = p.next_seq; row = r } ∷ p.chunk_index;
        }
    drawn_row f = rw f refl

insert_rows-Refines :
    (p : PostgresChunkIndex) (s : ChunkIndex) (new : List ChunkRow)
    → Refines p s
    → Refines (insert_rows p new) (record s { chunk_index = insert_all s.chunk_index new })
unfolding insert_rows insert_all
insert_rows-Refines p s [] h = h
insert_rows-Refines p s (r ∷ new) h =
    insert_rows-Refines (insert_row p r) (record s { chunk_index = insert_chunk s.chunk_index r })
      new (insert_row-Refines p s r h)

-- The same error, or tables that still correspond.
abbrev pub Alike : Result StorageError PostgresChunkIndex → Result StorageError ChunkIndex → Type 0
Alike (ok p) (ok s) = Refines p s
Alike (err e) (err f) = e ≡ f
Alike _ _ = ⊥

Alike-after :
    (v : Result StorageError (Unit {0})) (p : PostgresChunkIndex) (s : ChunkIndex)
    → Refines p s
    → Alike (v >> ok p) (v >> ok s)
Alike-after (ok u) p s h = h
Alike-after (err e) p s h = refl

put_batch-Alike :
    (p : PostgresChunkIndex) (s : ChunkIndex) (entries : List (Text × ChunkLocation))
    → Refines p s
    → Alike (Postgres.put_batch p entries) (Sqlite.put_batch s entries)
unfolding Postgres.put_batch Sqlite.put_batch insert_all validate_all
put_batch-Alike p s [] h = h
put_batch-Alike p s (e ∷ es) h =
    Alike-after (validate_all (e ∷ es)) _ _ (insert_rows-Refines p s (map row_of (e ∷ es)) h)

remove_xorb-Alike :
    (p : PostgresChunkIndex) (s : ChunkIndex) (x : Text)
    → Refines p s
    → Alike (Postgres.remove_xorb p x) (Sqlite.remove_xorb s x)
unfolding Postgres.remove_xorb Sqlite.remove_xorb
remove_xorb-Alike p s x h =
    let other = λ (r : ChunkRow). not (eq_text r.location.xorb_hash x) in
    Alike-after (validate_hash x) _ _ (record {
      drawn = Descending-keep p.next_seq (λ r. other r.row) p.chunk_index h.drawn;
      rows = sorted_rows-keep p.next_seq other p.chunk_index h.drawn ∙ ap (keep other) h.rows;
      layouts = ap (keep (λ r. not (eq_text r.xorb_hash x))) h.layouts;
    })

pub data ChunkWrite : Type 0 where
  batch_write : List (Text × ChunkLocation) → ChunkWrite
  layout_write : Text → XorbLayout → ChunkWrite
  removal_write : Text → ChunkWrite

abbrev pub settle : {I : Type 0} → I → Result StorageError I → Option StorageError × I
settle i (ok i') = (none, i')
settle i (err e) = (some e, i)

settle-Alike :
    (p : PostgresChunkIndex) (s : ChunkIndex) (a : Result StorageError PostgresChunkIndex)
    (b : Result StorageError ChunkIndex)
    → Refines p s
    → Alike a b
    → ((settle p a).0 ≡ (settle s b).0) × Refines (settle p a).1 (settle s b).1
settle-Alike p s (ok q) (ok t) h k = (refl, k)
settle-Alike p s (ok q) (err f) h k = absurd k
settle-Alike p s (err e) (ok t) h k = absurd k
settle-Alike p s (err e) (err f) h k = (ap some k, h)

abbrev pub no_postgres_rows : PostgresChunkIndex
no_postgres_rows = record { next_seq = 1; chunk_index = []; xorb_layout = [] }

abbrev pub no_sqlite_rows : ChunkIndex
no_sqlite_rows = record { chunk_index = []; xorb_layout = [] }

module _ (j : Json) where
  put_xorb_layout-Alike :
      (p : PostgresChunkIndex) (s : ChunkIndex) (x : Text) (l : XorbLayout)
      → Refines p s
      → Alike (Postgres.put_xorb_layout j p x l) (Sqlite.put_xorb_layout j s x l)
  unfolding Postgres.put_xorb_layout Sqlite.put_xorb_layout
  put_xorb_layout-Alike p s x l h = Alike-after (validate_hash x) _ _ (record {
    drawn = h.drawn;
    rows = h.rows;
    layouts = ap (Sqlite.upsert_layout x (j.to_string l)) h.layouts;
  })

  get-Refines :
      (p : PostgresChunkIndex) (s : ChunkIndex) (h : Text)
      → Refines p s
      → Postgres.get p h ≡ Sqlite.get s h
  unfolding Postgres.get Sqlite.get
  get-Refines p s h q =
      let of_chunk = λ (r : ChunkRow). eq_text r.chunk_hash h in
      ap (λ (l : List ChunkLocation). validate_hash h >> ok l)
        (map_map (order_by_seq (keep (λ r. of_chunk r.row) p.chunk_index))
          ∙ ap (map (λ r. r.location)) (
              sorted_rows-keep p.next_seq of_chunk p.chunk_index q.drawn
              ∙ ap (keep of_chunk) q.rows))
    where
      map_map :
          (rows : List SequenceRow)
          → map (λ s. s.row.location) rows
            ≡ map (λ (r : ChunkRow). r.location) (map (λ s. s.row) rows)
      map_map [] = refl
      map_map (r ∷ rows) = ap (λ l. r.row.location ∷ l) (map_map rows)

  layouts-Refines :
      (p : PostgresChunkIndex) (s : ChunkIndex)
      → Refines p s
      → ((x : Text) → Postgres.get_xorb_layout j p x ≡ Sqlite.get_xorb_layout j s x)
        × ((after : Option Text) (limit : ℕ)
            → Postgres.list_xorb_summaries j p after limit
              ≡ Sqlite.list_xorb_summaries j s after limit)
  unfolding Postgres.get_xorb_layout Sqlite.get_xorb_layout Postgres.list_xorb_summaries
      Sqlite.list_xorb_summaries
  layouts-Refines p s h = (
    λ x.
        ap
          (λ (l : List LayoutRow).
            validate_hash x >> Sqlite.parse_layout j (Sqlite.select_layout x l))
          h.layouts,
    λ after limit.
        ap
          (λ (l : List LayoutRow).
            Sqlite.summaries j (
              take limit
                (order_by (λ r. r.xorb_hash) (keep (is_after (λ r. r.xorb_hash) after) l))))
          h.layouts,
  )

  write_postgres : PostgresChunkIndex → ChunkWrite → Result StorageError PostgresChunkIndex
  write_postgres p (batch_write es) = Postgres.put_batch p es
  write_postgres p (layout_write x l) = Postgres.put_xorb_layout j p x l
  write_postgres p (removal_write x) = Postgres.remove_xorb p x

  write_sqlite : ChunkIndex → ChunkWrite → Result StorageError ChunkIndex
  write_sqlite s (batch_write es) = Sqlite.put_batch s es
  write_sqlite s (layout_write x l) = Sqlite.put_xorb_layout j s x l
  write_sqlite s (removal_write x) = Sqlite.remove_xorb s x

  write-Alike :
      (p : PostgresChunkIndex) (s : ChunkIndex) (w : ChunkWrite)
      → Refines p s
      → Alike (write_postgres p w) (write_sqlite s w)
  unfolding write_postgres write_sqlite
  write-Alike p s (batch_write es) h = put_batch-Alike p s es h
  write-Alike p s (layout_write x l) h = put_xorb_layout-Alike p s x l h
  write-Alike p s (removal_write x) h = remove_xorb-Alike p s x h

  -- The errors of a sequence of writes, and the tables behind it; a write that fails changes nothing.
  unfoldable pub run_postgres :
      List ChunkWrite → PostgresChunkIndex → List (Option StorageError) × PostgresChunkIndex
  unfolding write_postgres
  run_postgres [] p = ([], p)
  run_postgres (w ∷ ws) p =
      let next = settle p (write_postgres p w) in
      let rest = run_postgres ws next.1 in (next.0 ∷ rest.0, rest.1)

  unfoldable pub run_sqlite : List ChunkWrite → ChunkIndex → List (Option StorageError) × ChunkIndex
  unfolding write_sqlite
  run_sqlite [] s = ([], s)
  run_sqlite (w ∷ ws) s =
      let next = settle s (write_sqlite s w) in
      let rest = run_sqlite ws next.1 in (next.0 ∷ rest.0, rest.1)

  run-Refines :
      (ws : List ChunkWrite) (p : PostgresChunkIndex) (s : ChunkIndex)
      → Refines p s
      → ((run_postgres ws p).0 ≡ (run_sqlite ws s).0)
        × Refines (run_postgres ws p).1 (run_sqlite ws s).1
  unfolding run_postgres run_sqlite
  run-Refines [] p s h = (refl, h)
  run-Refines (w ∷ ws) p s h =
      let (same, after) =
        settle-Alike p s (write_postgres p w) (write_sqlite s w) h (write-Alike p s w h) in
      let (answers, q) =
        run-Refines ws (settle p (write_postgres p w)).1 (settle s (write_sqlite s w)).1 after in
      (ap2 same answers, q)
    where
      ap2 :
          {a b : Option StorageError} {us vs : List (Option StorageError)}
          → a ≡ b
          → us ≡ vs
          → (a ∷ us) ≡ (b ∷ vs)
      ap2 {a} {b} {us} e f = ap (λ x. x ∷ us) e ∙ ap (λ l. b ∷ l) f

  -- From empty tables, any sequence of writes gets the same errors from both indexes, and every lookup
  -- of a chunk, every layout and every listing is answered alike afterwards: the Postgres index, whose
  -- table has no order but its sequence, implements the one whose rows stand in the order of insertion.
  pub run_postgres-run_sqlite :
      (ws : List ChunkWrite)
      → ((run_postgres ws no_postgres_rows).0 ≡ (run_sqlite ws no_sqlite_rows).0)
        × ((h : Text)
            → Postgres.get (run_postgres ws no_postgres_rows).1 h
              ≡ Sqlite.get (run_sqlite ws no_sqlite_rows).1 h)
        × ((x : Text)
            → Postgres.get_xorb_layout j (run_postgres ws no_postgres_rows).1 x
              ≡ Sqlite.get_xorb_layout j (run_sqlite ws no_sqlite_rows).1 x)
        × ((after : Option Text) (limit : ℕ)
            → Postgres.list_xorb_summaries j (run_postgres ws no_postgres_rows).1 after limit
              ≡ Sqlite.list_xorb_summaries j (run_sqlite ws no_sqlite_rows).1 after limit)
  run_postgres-run_sqlite ws =
      let (same, q) =
        run-Refines ws no_postgres_rows no_sqlite_rows
          (record { drawn = tt; rows = unfold order_by_seq in refl; layouts = refl }) in
      let (layouts, summaries) = layouts-Refines _ _ q in
      (same, λ h. get-Refines _ _ h q, layouts, summaries)
