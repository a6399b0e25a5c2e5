-- ===== src/Xorb/Walk.antt =====
-- The walk over the chunk frames ends, and what it returns is framed.
use openxet.Base.{
  Option-cases, Result, Result-cases, [], ap, arith, err, inl, inr, length, length-append, ok, refl,
  some, subst, suc, sym, zero, ℕ, ◌%◌, ◌+◌, ◌<◌, ◌∙◌, ◌∷◌, ◌≡◌, ◌≤◌, ◌⊎◌,
}
use openxet.Text.{Text}
use openxet.Xorb.{
  XetCore, XorbInfo, Cursor, Round, stop, next, fail, walk_round, walk, walk_chunk_frames,
  header_length, read_chunk, u32_mod, ChunkHeader, push_chunk, default_info, slice,
}
use openxet.Xorb.Layout.{Framed, IsFramed, Grows-append, last_end, last_end-append, Framed}

-- The cursor stands at the end of the last frame.
record IsAt (c : Cursor) : Type 0 where
  framed : IsFramed c.info
  here : last_end 0 c.info.chunk_boundary_offsets ≡ c.pos

push_chunk-IsFramed :
    (info : XorbInfo) (hash : Text) (end unpacked : ℕ)
    → IsFramed info
    → end < u32_mod
    → last_end 0 info.chunk_boundary_offsets + header_length ≤ end
    → IsFramed (push_chunk info hash end unpacked)
push_chunk-IsFramed info hash end unpacked f small above =
    let whole : end % u32_mod ≡ end = omega arith in
    record {
      hashes = let h = f.hashes in omega (arith, length-append info.chunk_hashes (hash ∷ []));
      boundaries =
          let h = f.boundaries in
          omega (arith, length-append info.chunk_boundary_offsets ((end % u32_mod) ∷ []));
      unpacked =
          let h = f.unpacked in
          omega (arith, length-append info.unpacked_chunk_offsets (unpacked ∷ []));
      frames =
          Grows-append header_length 0 info.chunk_boundary_offsets (end % u32_mod) f.frames
            (omega arith) (omega arith);
    }

Round-cases : (r : Round) → (r ≡ stop) ⊎ ((c : Cursor) × (r ≡ next c)) ⊎ ((e : Text) × (r ≡ fail e))
Round-cases stop = inl refl
Round-cases (next c) = inr (inl (c, refl))
Round-cases (fail e) = inr (inr (e, refl))

module _ (x : XetCore) where
  -- A round that goes on has read one frame, and stays inside the body.
  record Reads (body : Text) (c c' : Cursor) : Type 0 where
    hash : Text
    forward : c.pos + header_length ≤ c'.pos
    inside : c'.pos ≤ length body
    pushed : c'.info ≡ push_chunk c.info hash c'.pos c'.unpacked

  read_chunk-Reads :
      (body : Text) (c c' : Cursor) (header : ChunkHeader) (end : ℕ)
      → c.pos + header_length ≤ end
      → end ≤ length body
      → read_chunk x c body header end ≡ next c'
      → Reads body c c'
  unfolding read_chunk
  read_chunk-Reads body c c' header end h k e = elim (Result-cases header.scheme) [
    | inr (m, bad) ↦ absurd (ground arith)
    | inl (s, good) ↦
        elim (Result-cases (x.decompress s (slice body (c.pos + header_length) end))) [
          | inr (m, bad) ↦ absurd (ground arith)
          | inl (bytes, fine) ↦ record {
            hash = x.compute_data_hash bytes;
            forward = ground arith;
            inside = ground arith;
            pushed = ground arith;
          }
        ]
  ]

  walk_round-Reads : (body : Text) (c c' : Cursor) → walk_round x body c ≡ next c' → Reads body c c'
  unfolding walk_round
  walk_round-Reads body c c' e =
      elim (Option-cases (x.parse_chunk_header (slice body c.pos (c.pos + header_length)))) [
        | inl missing ↦ absurd (ground arith)
        | inr (header, parsed) ↦
            read_chunk-Reads body c c' header (c.pos + header_length + header.compressed_length)
              (omega arith) (ground arith) (ground arith)
      ]

  Reads-IsAt :
      (body : Text) (c c' : Cursor) → length body < u32_mod → Reads body c c' → IsAt c → IsAt c'
  Reads-IsAt body c c' small r at = record {
    framed =
        subst IsFramed (sym r.pushed)
          (push_chunk-IsFramed c.info r.hash c'.pos c'.unpacked at.framed fits above);
    here =
        ap (λ (i : XorbInfo). last_end 0 i.chunk_boundary_offsets) r.pushed
        ∙ last_end-append 0 c.info.chunk_boundary_offsets (c'.pos % u32_mod)
        ∙ omega arith;
  }
    where
      fits : c'.pos < u32_mod
      fits = let i = r.inside in omega arith

      above : last_end 0 c.info.chunk_boundary_offsets + header_length ≤ c'.pos
      above = let h = at.here in let f = r.forward in omega arith

  -- The frames are walked with fuel to spare, and the cursor stays at the end of a frame.
  walk-IsFramed :
      (fuel : ℕ) (body : Text) (c : Cursor)
      → length body < u32_mod
      → c.pos ≤ length body
      → length body < fuel + c.pos
      → IsAt c
      → (r : Result Text XorbInfo) × (walk x fuel body c ≡ some r) × Framed r
  unfolding walk
  walk-IsFramed zero body c small le lt at = absurd (omega arith)
  walk-IsFramed (suc fuel) body c small le lt at = elim (Round-cases (walk_round x body c)) [
    | inl e ↦ (ok c.info, rw (e, walk), at.framed)
    | inr (inl (c', e)) ↦
        let r = walk_round-Reads body c c' e in
        let (res, ran, framed) =
          walk-IsFramed fuel body c' small r.inside (let f = r.forward in omega arith)
            (Reads-IsAt body c c' small r at) in
        (res, rw (e, walk) ran, framed)
    | inr (inr (m, e)) ↦ (err m, rw (e, walk), tt)
  ]

  -- The walk over a body below 4 GiB returns: an error, or metadata that is framed.
  pub walk_chunk_frames-IsFramed :
      (body : Text)
      → length body < u32_mod
      → (r : Result Text XorbInfo) × (walk x
            (suc (length body))
            body
            (record { pos = 0; unpacked = 0; info = default_info })
          ≡ some r)
        × (walk_chunk_frames x body ≡ r)
        × Framed r
  unfolding walk_chunk_frames
  walk_chunk_frames-IsFramed body small =
      let start : Cursor = record { pos = 0; unpacked = 0; info = default_info } in
      let (r, ran, framed) =
        walk-IsFramed (suc (length body)) body start small (omega arith) (omega arith) (record {
          framed = record { hashes = refl; boundaries = refl; unpacked = refl; frames = tt };
          here = refl;
        }) in
      (r, ran, rw ran, framed)
