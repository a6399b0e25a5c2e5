-- ===== src/Wasm/Session.antt =====
-- The dedup pass of an upload. Source: `next_query_batch` of
-- crates/wasm/src/lib.rs.
use openxet.Base.{
  >>=-eq-ok, Bool, List, Option, Result, Result-cases, [], ap, arith, err, false, if◌then◌else◌,
  inl, inr, length, max, ok, ok-injective, ok_or, ok_or-eq-ok, refl, some, subst, suc, sym, true, ℕ,
  ◌+◌, ◌∙◌, ◌∷◌, ◌≡◌, ◌≤◌,
}
use openxet.Text.{Text, codes}
use openxet.Wasm.{
  Chunk, Placement, XorbBlock, XetClient, UploadSession, Fault, fail_with, next_from,
  next_query_batch, is_some, resolve_all, apply_dedup_shard, new, replicate, failed,
}

-- How many chunks were not handed out.
unfoldable pub unprobed : List Bool → ℕ
unprobed [] = 0
unprobed (b ∷ bs) = (if b then 0 else 1) + unprobed bs

next_from-unprobed :
    (eligible : Text → Bool) (max count : ℕ) (first after : Bool) (cs : List Chunk)
    (ps : List (Option Placement)) (bs : List Bool)
    → length (next_from eligible max count first after cs ps bs).0
        + unprobed (next_from eligible max count first after cs ps bs).1
      ≡ unprobed bs
unfolding next_from unprobed
next_from-unprobed eligible max count first after [] ps bs = omega arith
next_from-unprobed eligible max count first after (c ∷ cs) [] bs = omega arith
next_from-unprobed eligible max count first after (c ∷ cs) (p ∷ ps) [] = omega arith
next_from-unprobed eligible max count first after (c ∷ cs) (p ∷ ps) (b ∷ bs) = ground (
  arith,
  next_from-unprobed eligible max count false (is_some p) cs ps bs,
  next_from-unprobed eligible max (suc count) false (is_some p) cs ps bs,
)

next_from-max :
    (eligible : Text → Bool) (max count : ℕ) (first after : Bool) (cs : List Chunk)
    (ps : List (Option Placement)) (bs : List Bool)
    → count ≤ max
    → length (next_from eligible max count first after cs ps bs).0 + count ≤ max
unfolding next_from
next_from-max eligible max count first after [] ps bs h = omega (arith, h)
next_from-max eligible max count first after (c ∷ cs) [] bs h = omega (arith, h)
next_from-max eligible max count first after (c ∷ cs) (p ∷ ps) [] h = omega (arith, h)
next_from-max eligible max count first after (c ∷ cs) (p ∷ ps) (b ∷ bs) h = ground (
  arith,
  next_from-max eligible max count false (is_some p) cs ps bs h,
  next_from-max eligible max (suc count) false (is_some p) cs ps bs,
)

fail_with-eq-ok :
    {A : Type 0} (context : Text) (r : Result Text A) {a : A}
    → fail_with context r ≡ ok a
    → r ≡ ok a
fail_with-eq-ok context (ok a) e = cc
fail_with-eq-ok context (err m) e = cc

-- What the page does with a session: it asks for a batch, or applies the shard of an answer.
pub data SessionStep : Type 0 where
  query : ℕ → SessionStep
  answer : Text → SessionStep

abbrev pub or_same : UploadSession → Result Fault UploadSession → UploadSession
or_same s (ok s') = s'
or_same s (err e) = s

module _ (x : XetClient) where
  -- How many hashes a sequence of steps hands out.
  unfoldable pub handed_out : List SessionStep → UploadSession → ℕ
  handed_out [] s = 0
  handed_out (query max ∷ steps) s =
      let (out, s') = next_query_batch x max s in length out + handed_out steps s'
  handed_out (answer bytes ∷ steps) s = handed_out steps (or_same s (apply_dedup_shard x bytes s))

  next_query_batch-unprobed :
      (max : ℕ) (s : UploadSession)
      → (length (next_query_batch x max s).0 + unprobed (next_query_batch x max s).1.probed
          ≡ unprobed s.probed)
        × (length (next_query_batch x max s).0 ≤ max)
  unfolding next_query_batch
  next_query_batch-unprobed max s = (
    next_from-unprobed x.hash_is_global_dedup_eligible max 0 true false s.chunks s.placement
        s.probed,
    let fits =
          next_from-max x.hash_is_global_dedup_eligible max 0 true false s.chunks s.placement
            s.probed (omega arith) in
        omega (arith, fits),
  )

  -- What an answer that applies changes.
  pub apply_dedup_shard-eq-ok :
      (bytes : Text) (s s' : UploadSession)
      → apply_dedup_shard x bytes s ≡ ok s'
      → (key : Text) × (blocks : List XorbBlock) × (x.load_from_reader bytes ≡ ok (some key))
        × (x.read_all_xorb_blocks_full bytes ≡ ok blocks)
        × ((record s { placement = resolve_all (λ h. x.hmac h key) blocks s.chunks s.placement })
            ≡ s')
  unfolding apply_dedup_shard
  apply_dedup_shard-eq-ok bytes s s' e =
      let (found, a, k0) =
        >>=-eq-ok (fail_with (codes "parsing dedup shard: ") (x.load_from_reader bytes)) _ e in
      let (key, b, k1) =
        >>=-eq-ok (ok_or found (failed (codes "dedup shard missing hmac key"))) _ k0 in
      let (blocks, c, k2) =
        >>=-eq-ok
          (fail_with (codes "reading dedup shard xorb blocks: ")
            (x.read_all_xorb_blocks_full bytes))
          _ k1 in
      (
        key,
        blocks,
        fail_with-eq-ok (codes "parsing dedup shard: ") (x.load_from_reader bytes) a
            ∙ ap ok (ok_or-eq-ok found _ b),
        fail_with-eq-ok (codes "reading dedup shard xorb blocks: ")
            (x.read_all_xorb_blocks_full bytes) c,
        ok-injective k2,
      )

  apply_dedup_shard-probed :
      (bytes : Text) (s : UploadSession)
      → (or_same s (apply_dedup_shard x bytes s)).probed ≡ s.probed
  apply_dedup_shard-probed bytes s = elim (Result-cases (apply_dedup_shard x bytes s)) [
    | inr (e, q) ↦ ap (λ (r : Result Fault UploadSession). (or_same s r).probed) q
    | inl (s', q) ↦
        let (key, blocks, a, b, same) = apply_dedup_shard-eq-ok bytes s s' q in
        ap (λ (r : Result Fault UploadSession). (or_same s r).probed) q
        ∙ ap (λ (t : UploadSession). t.probed) (sym same)
  ]

  handed_out-unprobed :
      (steps : List SessionStep) (s : UploadSession) → handed_out steps s ≤ unprobed s.probed
  unfolding handed_out
  handed_out-unprobed [] s = omega arith
  handed_out-unprobed (query max ∷ steps) s =
      let (a, b) = next_query_batch-unprobed max s in
      let rest = handed_out-unprobed steps (next_query_batch x max s).1 in omega (arith, a, rest)
  handed_out-unprobed (answer bytes ∷ steps) s =
      subst
        (λ (p : List Bool). handed_out steps (or_same s (apply_dedup_shard x bytes s)) ≤ unprobed p)
        (apply_dedup_shard-probed bytes s)
        (handed_out-unprobed steps (or_same s (apply_dedup_shard x bytes s)))

  unprobed-replicate : (cs : List Chunk) → unprobed (replicate cs false) ≡ length cs
  unfolding unprobed
  unprobed-replicate [] = refl
  unprobed-replicate (c ∷ cs) = let e = unprobed-replicate cs in omega (arith, e)

  new-eq-ok :
      (bytes : Text) (s : UploadSession)
      → new x bytes ≡ ok s
      → (s.chunks ≡ x.next_block bytes) × (s.probed ≡ replicate (x.next_block bytes) false)
  unfolding new
  new-eq-ok bytes s e = (ground (arith, e), ground (arith, e))

  -- However batches and answers follow each other on a new session, no more hashes are handed out
  -- than the file has chunks; so the loop that asks until a batch is empty ends. A batch is never
  -- larger than asked for.
  pub handed_out-chunks :
      (bytes : Text) (s : UploadSession) (steps : List SessionStep)
      → new x bytes ≡ ok s
      → (handed_out steps s ≤ length s.chunks)
        × ((max : ℕ) (t : UploadSession) → length (next_query_batch x max t).0 ≤ max)
  handed_out-chunks bytes s steps e =
      let (a, b) = new-eq-ok bytes s e in
      let probes : unprobed s.probed ≡ length s.chunks =
        ap unprobed b ∙ unprobed-replicate (x.next_block bytes) ∙ ap length (sym a) in
      (
        omega (arith, handed_out-unprobed steps s, probes),
        λ max t. (next_query_batch-unprobed max t).1,
      )
