-- ===== src/Wasm/Plan/Terms.antt =====
-- What the terms of a plan say. Source: the second loop of `build_plan` of crates/wasm/src/lib.rs.
use openxet.Base.{
  All, Bool-cases, List, [], ap, arith, inl, inr, length, length-append, map, refl, subst, suc, sym,
  zero, ℕ, ◌%◌, ◌&&◌, ◌++◌, ◌+◌, ◌-◌, ◌<◌, ◌==◌, ◌∙◌, ◌∷◌, ◌≡◌, ◌≤◌,
}
use openxet.Text.{Text, eq_text, eq_text_iff}
use openxet.Xorb.{u32_mod}
use openxet.Wasm.{Chunk, Placement, FileEntry, XetClient}
use openxet.Wasm.Plan.{take_run, terms, entry_of, last_index, bytes_of}

-- Successive places in one xorb.
abbrev pub place_range : Text → ℕ → ℕ → List Placement
place_range h i zero = []
place_range h i (suc n) = record { xorb_hash = h; index_in_xorb = i } ∷ place_range h (suc i) n

-- An index behind which there is another in 32 bits.
abbrev pub Small : Placement × Chunk → Type 0
Small r = r.0.index_in_xorb + 1 < u32_mod

All-append : (xs ys : List (Placement × Chunk)) → All Small (xs ++ ys) → All Small xs × All Small ys
All-append [] ys h = (tt, h)
All-append (x ∷ xs) ys (h, hs) = let (a, b) = All-append xs ys hs in ((h, a), b)

last_index-Small :
    (i : ℕ) (run : List (Placement × Chunk))
    → i + 1 < u32_mod
    → All Small run
    → last_index i run + 1 < u32_mod
last_index-Small i [] h hs = h
last_index-Small i ((p, c) ∷ run) h (k, ks) = last_index-Small p.index_in_xorb run k ks

-- A run and what is behind it: successive places from an index on.
abbrev IsRun :
    Text
    → ℕ
    → List (Placement × Chunk)
    → List (Placement × Chunk) × List (Placement × Chunk)
    → Type 0
IsRun h i pcs r =
    (pcs ≡ r.0 ++ r.1)
    × (map (λ e. e.0) r.0 ≡ place_range h (suc i) (length r.0))
    × (last_index i r.0 ≡ i + length r.0)

take_run-IsRun :
    (h : Text) (i e : ℕ) (pcs : List (Placement × Chunk))
    → e ≡ suc i
    → All Small pcs
    → IsRun h i pcs (take_run h e pcs)
unfolding take_run
take_run-IsRun h i e [] q hs = (refl, refl, omega arith)
take_run-IsRun h i e ((p, c) ∷ pcs) q (k, ks) =
    elim (Bool-cases (eq_text p.xorb_hash h && (p.index_in_xorb == e))) [
      | inr f ↦ rw f (refl, refl, omega arith)
      | inl t ↦
          let same : p.xorb_hash ≡ h = ground (arith, t, eq_text_iff p.xorb_hash h) in
          let here : p.index_in_xorb ≡ e = ground (arith, t) in
          let at : p.index_in_xorb ≡ suc i = here ∙ q in
          let (a, b, d) = take_run-IsRun h (suc i) ((e + 1) % u32_mod) pcs (omega arith) ks in
          let run = (take_run h ((e + 1) % u32_mod) pcs).0 in
          let place : p ≡ record { xorb_hash = h; index_in_xorb = suc i } =
            ground (arith, same, at) in
          rw t (
            ap (λ l. (p, c) ∷ l) a,
            ap (λ l. p ∷ l) b
                ∙ ap (λ (y : Placement). y ∷ place_range h (suc (suc i)) (length run)) place,
            ap (λ n. last_index n run) at ∙ d ∙ omega arith,
          )
    ]

module _ (x : XetClient) where
  -- A term with its verification hash describes some chunks: they are at the places that its range
  -- names, it declares their bytes, and the hash is that of their hashes.
  abbrev pub Describes : FileEntry × Text → List (Placement × Chunk) → Type 0
  Describes (e, v) pcs =
      (map (λ r. r.0) pcs
        ≡ place_range e.xorb_hash e.chunk_index_start (e.chunk_index_end - e.chunk_index_start))
      × (e.chunk_index_start < e.chunk_index_end)
      × (e.unpacked_segment_bytes ≡ bytes_of (map (λ r. r.1) pcs) % u32_mod)
      × (v ≡ x.range_hash_from_chunks (map (λ c. c.hash) (map (λ r. r.1) pcs)))

  -- Terms describe the chunks of a file, one part after the other.
  abbrev pub DescribeAll : List (FileEntry × Text) → List (Placement × Chunk) → Type 0
  DescribeAll [] pcs = pcs ≡ []
  DescribeAll (e ∷ es) pcs =
      (here : List (Placement × Chunk)) × (rest : List (Placement × Chunk)) × (pcs ≡ here ++ rest)
      × Describes e here
      × DescribeAll es rest

  entry_of-Describes :
      (p : Placement) (c : Chunk) (run : List (Placement × Chunk))
      → Small (p, c)
      → All Small run
      → map (λ r. r.0) run ≡ place_range p.xorb_hash (suc p.index_in_xorb) (length run)
      → last_index p.index_in_xorb run ≡ p.index_in_xorb + length run
      → Describes (entry_of x p c run) ((p, c) ∷ run)
  entry_of-Describes p c run small smalls places last =
      let bound = last_index-Small p.index_in_xorb run small smalls in
      let ends : (last_index p.index_in_xorb run + 1) % u32_mod - p.index_in_xorb
          ≡ suc (length run) =
        omega (arith, bound, last) in
      (
        ap (λ l. p ∷ l) places ∙ ap (λ n. place_range p.xorb_hash p.index_in_xorb n) (sym ends),
        omega (arith, ends),
        refl,
        refl,
      )

  -- The terms of a plan describe all of its chunks in order, with a round of the loop for each chunk
  -- as fuel; no index is the last of 32 bits.
  pub terms-DescribeAll :
      (fuel : ℕ) (pcs : List (Placement × Chunk))
      → length pcs ≤ fuel
      → All Small pcs
      → DescribeAll (terms x fuel pcs) pcs
  unfolding terms
  terms-DescribeAll fuel [] h hs = refl
  terms-DescribeAll zero (pc ∷ pcs) h hs = absurd (omega arith)
  terms-DescribeAll (suc fuel) ((p, c) ∷ pcs) h (k, ks) =
      let r = take_run p.xorb_hash ((p.index_in_xorb + 1) % u32_mod) pcs in
      let (split, places, last) =
        take_run-IsRun p.xorb_hash p.index_in_xorb ((p.index_in_xorb + 1) % u32_mod) pcs
          (omega arith) ks in
      let (small_run, small_rest) =
        All-append r.0 r.1 (subst (λ (l : List (Placement × Chunk)). All Small l) split ks) in
      let fewer : length r.1 ≤ fuel = omega (arith, h, ap length split, length-append r.0 r.1) in
      (
        (p, c) ∷ r.0,
        r.1,
        ap (λ l. (p, c) ∷ l) split,
        entry_of-Describes p c r.0 k small_run places last,
        terms-DescribeAll fuel r.1 fewer small_rest,
      )
