-- ===== src/Routes/Xorb/Upload.antt =====
-- What an upload leaves in the store and in the chunk index. Source:
-- crates/server/src/routes/xorb.rs.
use openxet.Base.{
  >>=-eq-ok, Bool, List, Result, Result-cases, [], arith, err, false, get_elem?, guard-eq-ok, inl,
  inr, leb, length, map, not, ok, ok-injective, ok_or, ok_or-eq-ok, refl, some, subst, suc, sym,
  true, zero, ℕ, ◌%◌, ◌+◌, ◌<◌, ◌==◌, ◌>>◌, ◌∷◌, ◌≡◌, ◌≤◌, ◌⊎◌,
}
use openxet.Text.{Text, eq_text_refl}
use openxet.Errors.{lift_app-eq-ok, lift_app, lift_storage, panic, lift_storage-eq-ok}
use openxet.Hash.{validate_hash}
use openxet.Storage.{
  ObjectStore, ObjectError, xorb_exists, put_xorb, put_at, xorb_path, lift_object,
}
use openxet.Storage as Storage
use openxet.Storage.Blobs.{put_xorb-get_xorb}
use openxet.Index.{XorbLayout}
use openxet.Index.Chunks.{
  ChunkIndex, ChunkRow, Json, get_xorb_layout, put_batch, put_xorb_layout, row_of,
}
use openxet.Index.Chunks.Keys.{located, DistinctRows, put_batch-located, get_xorb_layout-put}
use openxet.Xorb.{XetCore, XorbInfo, validated_xorb_info, layout_from_info, u32_mod}
use openxet.Gc.{AppState}
use openxet.Routes.Shard.{locations}
use openxet.Routes.Xorb.{
  post_xorb, check_body, index_layout, index_xorb, store_xorb, upload_checked, find_upload,
  max_serialized_xorb_size,
}

-- The row of the chunk at a position of a xorb.
abbrev pub chunk_row : Text → Text → ℕ → ChunkRow
chunk_row hash h k = record {
  chunk_hash = h;
  location = record { xorb_hash = hash; chunk_index = k % u32_mod };
}

located-here : (r : ChunkRow) (rows : List ChunkRow) → located r (r ∷ rows) ≡ true
unfolding located
located-here r rows = ground (arith, eq_text_refl r.chunk_hash, eq_text_refl r.location.xorb_hash)

located-later :
    (r q : ChunkRow) (rows : List ChunkRow) → located r rows ≡ true → located r (q ∷ rows) ≡ true
unfolding located
located-later r q rows e = ground (arith, e)

located-locations :
    (hash : Text) (i k n : ℕ) (hs : List Text) (h : Text)
    → n ≡ k + i
    → get_elem? hs k ≡ some h
    → located (chunk_row hash h n) (map row_of (locations hash i hs)) ≡ true
unfolding locations
located-locations hash i k n [] h q e = absurd (ground (arith, e))
located-locations hash i zero n (g ∷ hs) h q e =
    let at : chunk_row hash g i ≡ chunk_row hash h n = ground (arith, q, e) in
    subst
      (λ (x : ChunkRow).
        located x (chunk_row hash g i ∷ map row_of (locations hash (suc i) hs)) ≡ true)
      at (located-here (chunk_row hash g i) (map row_of (locations hash (suc i) hs)))
located-locations hash i (suc k) n (g ∷ hs) h q e =
    located-later (chunk_row hash h n) (chunk_row hash g i) _
      (located-locations hash (suc i) k n hs h (omega arith) e)

module _ {S : Type 0} (store : ObjectStore S) (xet : XetCore) (j : Json) (max_xorb_bytes : ℕ) where
  -- The chunks of a xorb are indexed and its layout is recorded.
  abbrev pub Indexed : Text → XorbInfo → XorbLayout → ChunkIndex → Type 0
  Indexed hash info layout idx =
      ((k : ℕ) (h : Text)
        → get_elem? info.chunk_hashes k ≡ some h
        → located (chunk_row hash h k) idx.chunk_index ≡ true)
      × (get_xorb_layout j idx hash ≡ ok (some layout))

  check_body-eq-ok :
      (hash body : Text) (valid : XorbInfo × XorbLayout)
      → check_body store xet j max_xorb_bytes hash body ≡ ok valid
      → (validated_xorb_info xet body hash ≡ ok valid.0)
        × (0 < valid.0.num_chunks)
        × (layout_from_info valid.0 (length body % u32_mod) ≡ some valid.1)
  unfolding check_body
  check_body-eq-ok hash body valid e =
      let (info, a, k0) = >>=-eq-ok (lift_app (validated_xorb_info xet body hash)) _ e in
      let (b, k1) = guard-eq-ok (not (info.num_chunks == 0)) _ _ k0 in
      let (layout, c, k2) =
        >>=-eq-ok (ok_or (layout_from_info info (length body % u32_mod)) panic) _ k1 in
      subst
        (λ (x : XorbInfo × XorbLayout).
          (validated_xorb_info xet body hash ≡ ok x.0)
          × (0 < x.0.num_chunks)
          × (layout_from_info x.0 (length body % u32_mod) ≡ some x.1))
        (ok-injective k2)
        (lift_app-eq-ok (validated_xorb_info xet body hash) a, ground (arith, b), ok_or-eq-ok _ _ c)

  ok_of_write :
      (r : Result ObjectError (Unit {0})) (b : Bool) → (lift_object r >> ok true) ≡ ok b → b ≡ true
  ok_of_write (ok u) b e = ground (arith, e)
  ok_of_write (err x) b e = cc

  -- An object that was not there is written, or the write fails.
  put_at-absent :
      (hash body : Text) (s : S) (b : Bool)
      → validate_hash hash ≡ ok tt
      → xorb_exists store hash s ≡ ok false
      → (put_xorb store hash body s).0 ≡ ok b
      → b ≡ true
  unfolding xorb_exists put_xorb put_at
  put_at-absent hash body s b v a e = elim (Result-cases (store.head (xorb_path hash) s)) [
    | inl (meta, q) ↦ absurd (ground (arith, v, a, q))
    | inr (x, q) ↦ ok_of_write (store.put (xorb_path hash) body s).0 b (ground (arith, v, q, e))
  ]

  -- What the last step adds.
  abbrev LayoutWritten : Text → XorbLayout → AppState S → Bool → AppState S → Type 0
  LayoutWritten hash layout st b st' =
      (get_xorb_layout j st'.chunk_index hash ≡ ok (some layout))
      × (st'.chunk_index.chunk_index ≡ st.chunk_index.chunk_index)
      × (st'.storage ≡ st.storage)
      × (st'.file_index ≡ st.file_index)
      × (b ≡ true)

  index_layout-LayoutWritten :
      (hash : Text) (layout : XorbLayout) (st st' : AppState S) (b : Bool)
      → validate_hash hash ≡ ok tt
      → index_layout store xet j max_xorb_bytes hash layout st ≡ (ok b, st')
      → LayoutWritten hash layout st b st'
  unfolding index_layout
  index_layout-LayoutWritten hash layout st st' b v e =
      elim (Result-cases (put_xorb_layout j st.chunk_index hash layout)) [
        | inr (x, q) ↦ absurd (ground (arith, q, e))
        | inl (idx, q) ↦
            let (layouts, rows) = get_xorb_layout-put j st.chunk_index idx hash hash layout q in
            let read : get_xorb_layout j idx hash ≡ ok (some layout) =
              ground (arith, layouts, eq_text_refl hash, v) in
            let wrote : (record st { chunk_index = idx }) ≡ st' = ground (arith, q, e) in
            subst (λ (x : AppState S). LayoutWritten hash layout st b x) wrote
              (read, rows, refl, refl, ground (arith, q, e))
      ]

  index_xorb-Indexed :
      (hash : Text) (info : XorbInfo) (layout : XorbLayout) (st st' : AppState S) (b : Bool)
      → DistinctRows st.chunk_index.chunk_index
      → validate_hash hash ≡ ok tt
      → index_xorb store xet j max_xorb_bytes hash info layout st ≡ (ok b, st')
      → Indexed hash info layout st'.chunk_index
        × (st'.storage ≡ st.storage)
        × (st'.file_index ≡ st.file_index)
        × (b ≡ true)
  unfolding index_xorb
  index_xorb-Indexed hash info layout st st' b d v e =
      let entries = locations hash 0 info.chunk_hashes in
      elim (Result-cases (put_batch st.chunk_index entries)) [
        | inr (x, q) ↦ absurd (ground (arith, q, e))
        | inl (idx, q) ↦
            let (now_located, distinct, layouts) =
              put_batch-located st.chunk_index idx entries d q in
            let (read, rows, storage, files, inserted) =
              index_layout-LayoutWritten hash layout (record st { chunk_index = idx }) st' b v
                (ground (arith, q, e)) in
            (
              (
                λ k h at.
                    let new = located-locations hash 0 k k info.chunk_hashes h (omega arith) at in
                    let known : located (chunk_row hash h k) idx.chunk_index ≡ true =
                      ground (arith, now_located (chunk_row hash h k), new) in
                    subst (λ rs. located (chunk_row hash h k) rs ≡ true) (sym rows) known,
                read,
              ),
              storage,
              files,
              inserted,
            )
      ]

  -- What an upload that wrote leaves: the xorb was validated against its hash, it reads back, each
  -- of its chunks is indexed at its position and its layout is recorded; no file is touched.
  abbrev pub Uploaded : Text → Text → AppState S → AppState S → Type 0
  Uploaded hash body st st' =
      (info : XorbInfo) × (layout : XorbLayout) × (validated_xorb_info xet body hash ≡ ok info)
      × (0 < info.num_chunks)
      × (layout_from_info info (length body % u32_mod) ≡ some layout)
      × (Storage.get_xorb store hash st'.storage ≡ ok body)
      × Indexed hash info layout st'.chunk_index
      × (st'.file_index ≡ st.file_index)

  store_xorb-Uploaded :
      (hash body : Text) (valid : XorbInfo × XorbLayout) (st st' : AppState S) (b : Bool)
      → DistinctRows st.chunk_index.chunk_index
      → validate_hash hash ≡ ok tt
      → xorb_exists store hash st.storage ≡ ok false
      → check_body store xet j max_xorb_bytes hash body ≡ ok valid
      → store_xorb store xet j max_xorb_bytes hash body valid st ≡ (ok b, st')
      → (b ≡ true) × Uploaded hash body st st'
  unfolding store_xorb
  store_xorb-Uploaded hash body (info, layout) st st' b d v a c e =
      let (validated, some_chunks, laid_out) = check_body-eq-ok hash body (info, layout) c in
      let wrote = put_xorb store hash body st.storage in
      elim (Result-cases wrote.0) [
        | inr (x, q) ↦ absurd (ground (arith, q, e))
        | inl (w, q) ↦
            let fresh : wrote ≡ (ok true, wrote.1) =
              ground (arith, q, put_at-absent hash body st.storage w v a q) in
            let (indexed, storage, files, inserted) =
              index_xorb-Indexed hash info layout (record st { storage = wrote.1 }) st' b d v
                (ground (arith, q, e)) in
            let (read, again) = put_xorb-get_xorb store hash body body st.storage wrote.1 fresh in
            (
              inserted,
              (
                info,
                layout,
                validated,
                some_chunks,
                laid_out,
                subst (λ t. Storage.get_xorb store hash t ≡ ok body) (sym storage) read,
                indexed,
                files,
              ),
            )
      ]

  find_upload-eq-ok :
      (hash body : Text) (s : S) (found : Bool)
      → find_upload store xet j max_xorb_bytes hash body s ≡ ok found
      → (validate_hash hash ≡ ok tt)
        × (xorb_exists store hash s ≡ ok found)
        × (length body ≤ max_serialized_xorb_size max_xorb_bytes)
  unfolding find_upload
  find_upload-eq-ok hash body s found e =
      let (u, v, k0) = >>=-eq-ok (lift_app (lift_storage (validate_hash hash))) _ e in
      let (small, k1) =
        guard-eq-ok (leb (length body) (max_serialized_xorb_size max_xorb_bytes)) _ _ k0 in
      (
        lift_storage-eq-ok _ (lift_app-eq-ok _ v),
        lift_storage-eq-ok _ (lift_app-eq-ok _ k1),
        ground (arith, small),
      )

  -- On a chunk table without doubled rows, an upload that succeeds either changes nothing, as the
  -- xorb is there already, or has validated the body against the hash, stored it so that it reads
  -- back, indexed each chunk at its position, recorded the layout, and touched no file.
  pub post_xorb-Uploaded :
      (hash body : Text) (st st' : AppState S) (b : Bool)
      → DistinctRows st.chunk_index.chunk_index
      → post_xorb store xet j max_xorb_bytes hash body st ≡ (ok b, st')
      → ((xorb_exists store hash st.storage ≡ ok true) × (b ≡ false) × (st' ≡ st))
        ⊎ ((xorb_exists store hash st.storage ≡ ok false) × (b ≡ true) × Uploaded hash body st st')
  unfolding post_xorb upload_checked
  post_xorb-Uploaded hash body st st' b d e =
      elim (Result-cases (find_upload store xet j max_xorb_bytes hash body st.storage)) [
        | inr (x, q) ↦ absurd (ground (arith, q, e))
        | inl (true, q) ↦
            let (v, a, small) = find_upload-eq-ok hash body st.storage true q in
            inl (a, ground (arith, q, e), ground (arith, q, e))
        | inl (false, q) ↦
            let (v, a, small) = find_upload-eq-ok hash body st.storage false q in
            elim (Result-cases (check_body store xet j max_xorb_bytes hash body)) [
              | inr (x, c) ↦ absurd (ground (arith, q, c, e))
              | inl (valid, c) ↦
                  let (inserted, left) =
                    store_xorb-Uploaded hash body valid st st' b d v a c
                      (ground (arith, q, c, e)) in
                  inr (a, inserted, left)
            ]
      ]
