-- ===== src/Wasm/Answers.antt =====
-- What an answer to a dedup query resolves. Source: `apply_dedup_shard` of crates/wasm/src/lib.rs.
use openxet.Base.{
  Bool-cases, List, Option, Option-cases, [], ap, arith, false, inl, inr, none, ok, refl, some,
  subst, suc, sym, zero, ℕ, ◌+◌, ◌∙◌, ◌∷◌, ◌≡◌, ◌⊎◌,
}
use openxet.Text.{Text, eq_text, eq_text_iff}
use openxet.Wasm.{
  Chunk, Placement, XorbBlock, XetClient, UploadSession, find_chunk, by_keyed_hash, resolve_one,
  resolve_all, apply_dedup_shard,
}
use openxet.Wasm.Plan.Seals.{At, place_at}
use openxet.Wasm.Session.{apply_dedup_shard-eq-ok}

-- A block holds a keyed hash at the position that a placement names.
abbrev pub Holds : Text → List XorbBlock → Placement → Type 0
Holds keyed blocks p =
    (m : ℕ) × (b : XorbBlock) × (i : ℕ) × At blocks m b
    × At b.chunks i keyed
    × (p ≡ place_at b.xorb_hash i)

abbrev pub Absent : Text → List XorbBlock → Type 0
Absent keyed blocks = (m : ℕ) (b : XorbBlock) (i : ℕ) → At blocks m b → At b.chunks i keyed → ⊥

not_here :
    (g keyed : Text) (hs : List Text)
    → eq_text g keyed ≡ false
    → ((n : ℕ) → At hs n keyed → ⊥)
    → (n : ℕ) → At (g ∷ hs) n keyed
    → ⊥
not_here g keyed hs f absent zero at = ground (arith, f, at, eq_text_iff g keyed)
not_here g keyed hs f absent (suc n) at = absent n at

find_chunk-At :
    (keyed h : Text) (i : ℕ) (hs : List Text)
    → ((p : Placement)
        → find_chunk keyed h i hs ≡ some p
        → (n : ℕ) × At hs n keyed × (p ≡ place_at h (n + i)))
      × (find_chunk keyed h i hs ≡ none → (n : ℕ) → At hs n keyed → ⊥)
unfolding find_chunk
find_chunk-At keyed h i [] = (λ p e. cc, λ e n at. cc)
find_chunk-At keyed h i (g ∷ hs) =
    let (found, absent) = find_chunk-At keyed h (suc i) hs in
    elim (Option-cases (find_chunk keyed h (suc i) hs)) [
      | inr (r, q) ↦ (
        λ p e.
            let (n, at, place) = found r q in
            (suc n, at, sym (ground (arith, q, e)) ∙ place ∙ ap (place_at h) (omega arith)),
        λ e. absurd (ground (arith, q, e)),
      )
      | inl q ↦ elim (Bool-cases (eq_text g keyed)) [
        | inl t ↦ (
          λ p e.
              let found_here : p ≡ place_at h i = sym (ground (arith, q, t, e)) in
              (0, ap some ((eq_text_iff g keyed).0 t), found_here ∙ ap (place_at h) (omega arith)),
          λ e. absurd (ground (arith, q, t, e)),
        )
        | inr f ↦ (λ p e. absurd (ground (arith, q, f, e)), λ e. not_here g keyed hs f (absent q))
      ]
    ]

by_keyed_hash-Holds :
    (keyed : Text) (blocks : List XorbBlock)
    → ((p : Placement) → by_keyed_hash keyed blocks ≡ some p → Holds keyed blocks p)
      × (by_keyed_hash keyed blocks ≡ none → Absent keyed blocks)
unfolding by_keyed_hash
by_keyed_hash-Holds keyed [] = (λ p e. cc, λ e m b i at at'. cc)
by_keyed_hash-Holds keyed (b ∷ blocks) =
    let (later, absent) = by_keyed_hash-Holds keyed blocks in
    let (found, missing) = find_chunk-At keyed b.xorb_hash 0 b.chunks in
    elim (Option-cases (by_keyed_hash keyed blocks)) [
      | inr (r, q) ↦ (
        λ p e.
            let (m, c, i, at, at', place) = later r q in
            (suc m, c, i, at, at', sym (ground (arith, q, e)) ∙ place),
        λ e. absurd (ground (arith, q, e)),
      )
      | inl q ↦ (
        λ p e.
            let (n, at, place) = found p (ground (arith, q, e)) in
            (0, b, n, refl, at, place ∙ ap (place_at b.xorb_hash) (omega arith)),
        λ e. in_no_block b blocks keyed (missing (ground (arith, q, e))) (absent q),
      )
    ]
  where
    in_no_block :
        (b : XorbBlock) (blocks : List XorbBlock) (keyed : Text)
        → ((n : ℕ) → At b.chunks n keyed → ⊥)
        → Absent keyed blocks
        → Absent keyed (b ∷ blocks)
    in_no_block b blocks keyed here absent zero c i at at' =
        let same : b ≡ c = ground (arith, at) in
        here i (subst (λ (y : XorbBlock). At y.chunks i keyed) (sym same) at')
    in_no_block b blocks keyed here absent (suc m) c i at at' = absent m c i at at'

-- What a shard makes of the placement of a chunk.
abbrev pub Resolution : Text → List XorbBlock → Option Placement → Option Placement → Type 0
Resolution keyed blocks before now =
    ((p : Placement) × (before ≡ some p) × (now ≡ some p))
    ⊎ ((before ≡ none)
        × (((p : Placement) × (now ≡ some p) × Holds keyed blocks p)
            ⊎ ((now ≡ none) × Absent keyed blocks)))

resolve_one-Resolution :
    (keyed : Text) (blocks : List XorbBlock) (before : Option Placement)
    → Resolution keyed blocks before (resolve_one before (by_keyed_hash keyed blocks))
unfolding resolve_one
resolve_one-Resolution keyed blocks (some p) = inl (p, refl, refl)
resolve_one-Resolution keyed blocks none =
    let (found, absent) = by_keyed_hash-Holds keyed blocks in
    elim (Option-cases (by_keyed_hash keyed blocks)) [
      | inr (p, q) ↦ inr (refl, inl (p, q, found p q))
      | inl q ↦ inr (refl, inr (q, absent q))
    ]

resolve_all-Resolution :
    (hmac : Text → Text) (blocks : List XorbBlock) (cs : List Chunk) (ps : List (Option Placement))
    (j : ℕ) (c : Chunk) (o : Option Placement)
    → At cs j c
    → At ps j o
    → (n : Option Placement) × At (resolve_all hmac blocks cs ps) j n
      × Resolution (hmac c.hash) blocks o n
unfolding resolve_all
resolve_all-Resolution hmac blocks [] ps j c o at here = cc
resolve_all-Resolution hmac blocks (d ∷ cs) [] j c o at here = cc
resolve_all-Resolution hmac blocks (d ∷ cs) (p ∷ ps) zero c o at here =
    let same : d ≡ c = ground (arith, at) in
    let was : p ≡ o = ground (arith, here) in
    (
      resolve_one p (by_keyed_hash (hmac d.hash) blocks),
      refl,
      subst
          (λ (e : Chunk).
            Resolution (hmac e.hash) blocks o (resolve_one p (by_keyed_hash (hmac d.hash) blocks)))
          same
          (subst
            (λ (w : Option Placement).
              Resolution (hmac d.hash) blocks w
                (resolve_one p (by_keyed_hash (hmac d.hash) blocks)))
            was (resolve_one-Resolution (hmac d.hash) blocks p)),
    )
resolve_all-Resolution hmac blocks (d ∷ cs) (p ∷ ps) (suc j) c o at here =
    resolve_all-Resolution hmac blocks cs ps j c o at here

module _ (x : XetClient) where
  -- A dedup shard that applies leaves the chunks and every placement that was known. It resolves a
  -- chunk exactly if one of its blocks holds the chunk's keyed hash, and then to a position of such
  -- a block at which that hash stands.
  pub apply_dedup_shard-Resolution :
      (bytes : Text) (s s' : UploadSession)
      → apply_dedup_shard x bytes s ≡ ok s'
      → (key : Text) × (blocks : List XorbBlock) × (x.load_from_reader bytes ≡ ok (some key))
        × (x.read_all_xorb_blocks_full bytes ≡ ok blocks)
        × (s'.chunks ≡ s.chunks)
        × (s'.probed ≡ s.probed)
        × ((j : ℕ) (c : Chunk) (o : Option Placement)
            → At s.chunks j c
            → At s.placement j o
            → (n : Option Placement) × At s'.placement j n
              × Resolution (x.hmac c.hash key) blocks o n)
  apply_dedup_shard-Resolution bytes s s' e =
      let (key, blocks, a, b, same) = apply_dedup_shard-eq-ok x bytes s s' e in
      (
        key,
        blocks,
        a,
        b,
        ap (λ (t : UploadSession). t.chunks) (sym same),
        ap (λ (t : UploadSession). t.probed) (sym same),
        λ j c o at here.
            let (n, placed, resolved) =
              resolve_all-Resolution (λ h. x.hmac h key) blocks s.chunks s.placement j c o at
                here in
            (n, subst (λ (t : UploadSession). At t.placement j n) same placed, resolved),
      )
