-- ===== src/Wasm/Plan/Total.antt =====
-- A plan is built or refused with a message. Source: `build_plan` of crates/wasm/src/lib.rs.
use openxet.Base.{
  >>=-eq-ok, Bool-cases, List, Option, Option-cases, Result, Result-cases, [], arith, err, inl, inr,
  length, none, ok, refl, some, subst, suc, sym, zero, ℕ, ◌+◌, ◌<◌, ◌>>=◌, ◌∙◌, ◌∷◌, ◌≡◌, ◌≢◌,
}
use openxet.Text.{Text}
use openxet.Wasm.{Chunk, Placement, XetClient, Fault, failed, panicked, fail_with}
use openxet.Wasm.Plan.{
  Packing, FileInfo, seal, seal_xorb, pack_one, pack_from, pack, is_full, no_group, unwrap_all,
  build_plan, write_shard, append_infos, append_bytes, chunks_of, UploadPlan, file_info_of, terms,
  zip_chunks, place_group,
}
use openxet.Wasm.Plan.Seals.{At, place_group-total}
use openxet.Wasm.Plan.Packs.{At-length}
use openxet.Wasm.Plan.Resolved.{
  Inv, start, start-IsPacking, pack_one-IsPacking, skip-IsPacking, was_unplaced, pack-Packed,
  pack-IsPacking, pack_from-IsPacking, At-lt,
}

-- A result that is not a panic.
abbrev pub IsCalm {ℓ} : {A : Type ℓ} → Result Fault A → Type 0
IsCalm (ok a) = Unit {0}
IsCalm (err (failed m)) = Unit {0}
IsCalm (err panicked) = ⊥

IsCalm-bind {ℓ κ} :
    {A : Type ℓ} {B : Type κ} (r : Result Fault A) (k : A → Result Fault B)
    → IsCalm r
    → ((a : A) → r ≡ ok a → IsCalm (k a))
    → IsCalm (r >>= k)
IsCalm-bind (ok a) k c h = h a refl
IsCalm-bind (err (failed m)) k c h = tt
IsCalm-bind (err panicked) k c h = c

IsCalm-fail_with : {A : Type 0} (context : Text) (r : Result Text A) → IsCalm (fail_with context r)
IsCalm-fail_with context (ok a) = tt
IsCalm-fail_with context (err e) = tt

-- No `none` is left to unwrap.
unwrap_all-total :
    (ps : List (Option Placement))
    → ((j : ℕ) (o : Option Placement) → At ps j o → (p : Placement) × (o ≡ some p))
    → (qs : List Placement) × (unwrap_all ps ≡ ok qs)
      × ((j : ℕ) (p : Placement) → At ps j (some p) → At qs j p)
unfolding unwrap_all
unwrap_all-total [] h = ([], refl, λ j p at. cc)
unwrap_all-total (none ∷ ps) h = absurd (let (p, e) = h 0 none refl in ground (arith, e))
unwrap_all-total (some p ∷ ps) h =
    let (qs, e, at) = unwrap_all-total ps (λ j. h (suc j)) in (p ∷ qs, rw e refl, unwrapped qs at)
  where
    unwrapped :
        (qs : List Placement)
        → ((j : ℕ) (r : Placement) → At ps j (some r) → At qs j r)
        → (j : ℕ) (r : Placement) → At (some p ∷ ps) j (some r)
        → At (p ∷ qs) j r
    unwrapped qs at zero r e = ground (arith, e)
    unwrapped qs at (suc j) r e = at j r e

length-unwrap_all :
    (ps : List (Option Placement)) (qs : List Placement)
    → unwrap_all ps ≡ ok qs
    → length qs ≡ length ps
unfolding unwrap_all
length-unwrap_all [] qs e = ground (arith, e)
length-unwrap_all (none ∷ ps) qs e = cc
length-unwrap_all (some p ∷ ps) qs e =
    let (rest, a, b) = >>=-eq-ok (unwrap_all ps) _ e in
    let ih = length-unwrap_all ps rest a in ground (arith, b, ih)

zip_chunks-total :
    (ps : List Placement) (cs : List Chunk)
    → length ps ≡ length cs
    → (pcs : List (Placement × Chunk)) × (zip_chunks ps cs ≡ ok pcs)
unfolding zip_chunks
zip_chunks-total ps [] e = ([], refl)
zip_chunks-total [] (c ∷ cs) e = absurd (omega arith)
zip_chunks-total (p ∷ ps) (c ∷ cs) e =
    let (rest, q) = zip_chunks-total ps cs (omega arith) in ((p, c) ∷ rest, rw q)

module _ (x : XetClient) where
  -- The indices of the open group are in bounds.
  abbrev IsInside : Packing x → Type 0
  IsInside st = (n j : ℕ) (c : Chunk) → At st.group n (j, c) → j < length st.placement

  seal_xorb-IsCalm : (chunks : List Chunk) → IsCalm (seal_xorb x chunks)
  unfolding seal_xorb
  seal_xorb-IsCalm chunks = elim (Result-cases (x.serialize_xorb chunks)) [
    | inl (b, q) ↦ rw q tt
    | inr (e, q) ↦ rw q tt
  ]

  seal-IsCalm : (st : Packing x) → IsInside st → IsCalm (seal x st)
  unfolding seal
  seal-IsCalm st inside =
      IsCalm-bind (seal_xorb x (chunks_of st.group)) _ (seal_xorb-IsCalm (chunks_of st.group))
        (λ sealed q.
          let (pl, placed) = place_group-total sealed.0 0 st.group st.placement inside in
          IsCalm-bind (place_group sealed.0 0 st.group st.placement) _ (rw placed tt) (λ p r. tt))

  pack_one-IsCalm :
      (idx : ℕ) (c : Chunk) (st : Packing x) → IsInside st → IsCalm (pack_one x idx c st)
  unfolding pack_one
  pack_one-IsCalm idx c st inside = elim (Bool-cases (is_full x st (length c.bytes))) [
    | inr f ↦ rw f tt
    | inl t ↦ rw t (IsCalm-bind (seal x st) _ (seal-IsCalm st inside) (λ a q. tt))
  ]

  append_infos-IsCalm : (is : List x.XorbInfo) (out : Text) → IsCalm (append_infos x is out)
  unfolding append_infos append_bytes
  append_infos-IsCalm [] out = tt
  append_infos-IsCalm (i ∷ is) out = elim (Result-cases (x.xorb_info i)) [
    | inl (b, q) ↦ rw q (append_infos-IsCalm is _)
    | inr (e, q) ↦ rw q tt
  ]

  append_bytes-IsCalm : (part : Result Text Text) (out : Text) → IsCalm (append_bytes part out)
  unfolding append_bytes
  append_bytes-IsCalm (ok b) out = tt
  append_bytes-IsCalm (err e) out = tt

  write_shard-IsCalm :
      (info : FileInfo) (infos : List x.XorbInfo) → IsCalm (write_shard x info infos)
  unfolding write_shard
  write_shard-IsCalm info infos =
      IsCalm-bind (append_bytes x.header []) _ (append_bytes-IsCalm x.header []) (λ a p.
        IsCalm-bind (append_bytes (x.file_info info) a) _ (append_bytes-IsCalm (x.file_info info) a)
          (λ b q.
            IsCalm-bind (append_bytes x.file_bookend b) _ (append_bytes-IsCalm x.file_bookend b)
              (λ c r.
                IsCalm-bind (append_infos x infos c) _ (append_infos-IsCalm infos c)
                  (λ d s. append_bytes-IsCalm x.xorb_bookend d))))

  module _ (chunks : List Chunk) (before : List (Option Placement)) (roomy : 0 < x.max_xorb_chunks)
      (sizes : length before ≡ length chunks) where
    Inv-IsInside : (idx : ℕ) (st : Packing x) → Inv x chunks before idx st → IsInside st
    Inv-IsInside idx st inv n j c at =
        let (l, b, at', o, here) = inv.members n j c at in At-lt st.placement j o here

    pack_from-IsCalm :
        (idx : ℕ) (cs : List Chunk) (st : Packing x)
        → Inv x chunks before idx st
        → ((n : ℕ) (c : Chunk) → At cs n c → At chunks (n + idx) c)
        → IsCalm (pack_from x idx cs st)
    unfolding pack_from
    pack_from-IsCalm idx [] st inv suffix = tt
    pack_from-IsCalm idx (c ∷ cs) st inv suffix =
        let at : At chunks idx c = subst (λ n. At chunks n c) (omega arith) (suffix 0 c refl) in
        let later : (n : ℕ) (d : Chunk) → At cs n d → At chunks (n + suc idx) d =
          λ n d a. subst (λ m. At chunks m d) (omega arith) (suffix (suc n) d a) in
        let (w, b) = At-length chunks before idx c (sym sizes) at in
        let (v, here) = At-length before st.placement idx w (sym inv.size) b in
        elim (Option-cases v) [
          | inr (p, r) ↦
              let known : At st.placement idx (some p) =
                subst (λ o. At st.placement idx o) r here in
              rw (known, pack_from)
                (pack_from-IsCalm (suc idx) cs st
                  (skip-IsPacking x chunks before idx st p inv known) later)
          | inl r ↦
              let vacant : At st.placement idx none = subst (λ o. At st.placement idx o) r here in
              rw (vacant, pack_from)
                (IsCalm-bind (pack_one x idx c st) _
                  (pack_one-IsCalm idx c st (Inv-IsInside idx st inv))
                  (λ next q.
                    pack_from-IsCalm (suc idx) cs next
                      (pack_one-IsPacking x chunks before idx st next c roomy inv at vacant
                        (was_unplaced x chunks before idx st w inv vacant b) q)
                      later))
        ]

    pack-IsCalm : IsCalm (pack x chunks before)
    unfolding pack
    pack-IsCalm =
        IsCalm-bind (pack_from x 0 chunks (start x chunks before)) _
          (pack_from-IsCalm 0 chunks (start x chunks before) (start-IsPacking x chunks before)
            (λ n c at. subst (λ m. At chunks m c) (omega arith) at))
          (λ last q. elim (Bool-cases (no_group last.group)) [
            | inl t ↦ rw t tt
            | inr f ↦ rw f (
                seal-IsCalm last (
                  Inv-IsInside (length chunks + 0) last (
                    pack_from-IsPacking x chunks before 0 chunks (start x chunks before) last roomy
                      (start-IsPacking x chunks before)
                      (λ n c at. subst (λ m. At chunks m c) (omega arith) at) q)))
          ])

    placed_everywhere :
        (st : Packing x)
        → pack x chunks before ≡ ok st
        → (j : ℕ) (o : Option Placement) → At st.placement j o
        → (p : Placement) × (o ≡ some p)
    placed_everywhere st e j o here =
        let (inv, closed) = pack-IsPacking x chunks before st roomy e in
        let (c, at) = At-length st.placement chunks j o (inv.size ∙ sizes) here in
        let (p, there, how) = pack-Packed x chunks before st j c roomy sizes e at in
        (p, ground (arith, here, there))

    -- Where xorbs may hold a chunk at all and there is one placement for each chunk, a plan is built or
    -- refused with a message: the loop reads, and sealing writes, placements that are there, no chunk
    -- is left unplaced when the placements are unwrapped, and every chunk has one for the terms.
    pub build_plan-IsCalm : build_plan x chunks before ≢ err panicked
    unfolding build_plan
    build_plan-IsCalm e =
        subst (λ (r : Result Fault UploadPlan). IsCalm r) e
          (IsCalm-bind (pack x chunks before) _ pack-IsCalm (λ st q.
            let (placed, p, at) = unwrap_all-total st.placement (placed_everywhere st q) in
            IsCalm-bind (unwrap_all st.placement) _ (rw p tt) (λ ps r.
              let (inv, closed) = pack-IsPacking x chunks before st roomy q in
              let (pairs, zipped) =
                zip_chunks-total ps chunks
                  (length-unwrap_all st.placement ps r ∙ inv.size ∙ sizes) in
              IsCalm-bind (zip_chunks ps chunks) _ (rw zipped tt) (λ pcs z.
                IsCalm-bind
                  (write_shard x (file_info_of x chunks (terms x (length chunks) pcs))
                    st.new_xorb_infos)
                  _ (write_shard-IsCalm _ _) (λ b s. tt)))))
