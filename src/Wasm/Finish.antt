-- ===== src/Wasm/Finish.antt =====
-- The end of an upload session. Source: `finish` and `build_upload_plan` of crates/wasm/src/lib.rs.
use openxet.Base.{
  Bool-cases, List, Option, Result, Result-cases, [], ap, arith, err, inl, inr, length, none, ok,
  refl, subst, sym, ◌<◌, ◌∙◌, ◌∷◌, ◌≡◌, ◌≢◌,
}
use openxet.Text.{Text, is_empty}
use openxet.Wasm.{
  Chunk, Fault, Placement, UploadSession, XorbBlock, XetClient, apply_dedup_shard, new,
  next_query_batch, panicked, replicate, resolve_all,
}
use openxet.Wasm.Session.{SessionStep, answer, apply_dedup_shard-eq-ok, or_same, query}
use openxet.Wasm.Plan.{build_upload_plan, finish}
use openxet.Wasm.Plan.Total.{build_plan-IsCalm}

length-resolve_all :
    (keyed : Text → Text) (blocks : List XorbBlock) (cs : List Chunk) (ps : List (Option Placement))
    → length (resolve_all keyed blocks cs ps) ≡ length ps
unfolding resolve_all
length-resolve_all keyed blocks [] ps = refl
length-resolve_all keyed blocks (c ∷ cs) [] = refl
length-resolve_all keyed blocks (c ∷ cs) (p ∷ ps) =
    let e = length-resolve_all keyed blocks cs ps in omega (arith, e)

length-replicate : {A : Type 0} (cs : List Chunk) (a : A) → length (replicate cs a) ≡ length cs
length-replicate [] a = refl
length-replicate (c ∷ cs) a = let e = length-replicate cs a in omega (arith, e)

-- There is one placement for each chunk.
abbrev IsPaired : UploadSession → Type 0
IsPaired s = length s.placement ≡ length s.chunks

module _ (x : XetClient) where
  -- The session after the steps; an answer that is refused leaves it as it was.
  pub run : List SessionStep → UploadSession → UploadSession
  run [] s = s
  run (query max ∷ steps) s = run steps (next_query_batch x max s).1
  run (answer bytes ∷ steps) s = run steps (or_same s (apply_dedup_shard x bytes s))

  apply_dedup_shard-IsPaired :
      (bytes : Text) (s : UploadSession)
      → IsPaired s
      → IsPaired (or_same s (apply_dedup_shard x bytes s))
  apply_dedup_shard-IsPaired bytes s p = elim (Result-cases (apply_dedup_shard x bytes s)) [
    | inr (e, q) ↦ subst (λ (r : Result Fault UploadSession). IsPaired (or_same s r)) (sym q) p
    | inl (s', q) ↦
        let (key, blocks, a, b, same) = apply_dedup_shard-eq-ok x bytes s s' q in
        subst (λ (r : Result Fault UploadSession). IsPaired (or_same s r)) (sym q)
          (subst (λ (t : UploadSession). IsPaired t) same
            (length-resolve_all (λ h. x.hmac h key) blocks s.chunks s.placement ∙ p))
  ]

  run-IsPaired :
      (steps : List SessionStep) (s : UploadSession) → IsPaired s → IsPaired (run steps s)
  unfolding run next_query_batch
  run-IsPaired [] s p = p
  run-IsPaired (query max ∷ steps) s p = run-IsPaired steps (next_query_batch x max s).1 p
  run-IsPaired (answer bytes ∷ steps) s p =
      run-IsPaired steps (or_same s (apply_dedup_shard x bytes s))
        (apply_dedup_shard-IsPaired bytes s p)

  new-IsPaired : (bytes : Text) (s : UploadSession) → new x bytes ≡ ok s → IsPaired s
  unfolding new
  new-IsPaired bytes s e =
      let placed : replicate (x.next_block bytes) none ≡ s.placement = ground (arith, e) in
      let chunked : x.next_block bytes ≡ s.chunks = ground (arith, e) in
      ap (λ (l : List (Option Placement)). length l) (sym placed)
      ∙ length-replicate (x.next_block bytes) none
      ∙ ap (λ (l : List Chunk). length l) chunked

  -- Where xorbs may hold a chunk at all, no upload panics while its plan is built. A session that was
  -- made for a file, whichever batches are asked for and answers applied, finishes with a plan or a
  -- message, and so does an upload without a session: placements are read and written in bounds, and
  -- each chunk has one when they are unwrapped and paired with the chunks.
  pub finish-IsCalm :
      (bytes : Text) (s : UploadSession) (steps : List SessionStep)
      → 0 < x.max_xorb_chunks
      → new x bytes ≡ ok s
      → ((finish x (run steps s)).0 ≢ err panicked) × (build_upload_plan x bytes ≢ err panicked)
  unfolding finish build_upload_plan
  finish-IsCalm bytes s steps roomy e =
      let t = run steps s in
      let chunks = x.next_block bytes in
      (
        build_plan-IsCalm x t.chunks t.placement roomy
            (run-IsPaired steps s (new-IsPaired bytes s e)),
        λ q. elim (Bool-cases (is_empty bytes)) [
          | inl empty ↦ ground (arith, empty, q)
          | inr full ↦
              build_plan-IsCalm x chunks (replicate chunks none) roomy
                (length-replicate chunks none) (ground (arith, full, q))
        ],
      )
