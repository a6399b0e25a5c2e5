-- ===== src/Wasm/Plan/Resolved.antt =====
-- Where the chunks of a plan are. Source: `build_plan` of crates/wasm/src/lib.rs.
use openxet.Base.{
  ==_iff, >>=-eq-ok, Bool-cases, List, Option, Option-cases, Result-cases, [], arith, false,
  get_elem?, inl, inr, length, none, ok, ok-injective, refl, some, subst, suc, sym, true, zero, ℕ,
  ◌+◌, ◌<◌, ◌==◌, ◌∷◌, ◌≡◌, ◌⊎◌,
}
use openxet.Wasm.{Chunk, Placement, XetClient}
use openxet.Wasm.Plan.{Packing, seal, pack_one, pack_from, pack, is_full, no_group}
use openxet.Wasm.Plan.Seals.{At}
use openxet.Wasm.Plan.Packs.{IsPacking, Packed, HasRoom, seal-IsPacking, push-IsPacking, At-length}

no_group-nil : (g : List (ℕ × Chunk)) → no_group g ≡ true → g ≡ []
no_group-nil [] e = refl
no_group-nil (c ∷ g) e = cc

pub At-lt {ℓ} : {A : Type ℓ} (xs : List A) (j : ℕ) (a : A) → At xs j a → j < length xs
At-lt [] j a e = cc
At-lt (x ∷ xs) zero a e = omega arith
At-lt (x ∷ xs) (suc j) a e = let r = At-lt xs j a e in omega arith

module _ (x : XetClient) (chunks : List Chunk) (before : List (Option Placement)) where
  abbrev pub Inv : ℕ → Packing x → Type 0
  Inv idx st = IsPacking x chunks before idx st

  has_room :
      (idx : ℕ) (st : Packing x) (c : Chunk)
      → Inv idx st
      → is_full x st (length c.bytes) ≡ false
      → HasRoom x chunks before st c
  has_room idx st c inv e = elim (Bool-cases (no_group st.group)) [
    | inl t ↦ inl (no_group-nil st.group t)
    | inr f ↦ let k = inv.counted in inr (ground (arith, e, f, k), ground (arith, e, f))
  ]

  pub pack_one-IsPacking :
      (idx : ℕ) (st st' : Packing x) (c : Chunk)
      → 0 < x.max_xorb_chunks
      → Inv idx st
      → At chunks idx c
      → At st.placement idx none
      → At before idx none
      → pack_one x idx c st ≡ ok st'
      → Inv (suc idx) st'
  unfolding pack_one
  pack_one-IsPacking idx st st' c roomy inv at here unplaced e =
      elim (Bool-cases (is_full x st (length c.bytes))) [
        | inr f ↦
            subst (λ (y : Packing x). Inv (suc idx) y) (ground (arith, f, e))
              (push-IsPacking x chunks before idx st c roomy (has_room idx st c inv f) inv at here)
        | inl t ↦ elim (Result-cases (seal x st)) [
          | inr (bad, q) ↦ absurd (ground (arith, t, q, e))
          | inl (sealed, q) ↦
              let (inv', empty) = seal-IsPacking x chunks before idx st sealed inv q in
              subst (λ (y : Packing x). Inv (suc idx) y) (ground (arith, t, q, e))
                (push-IsPacking x chunks before idx sealed c roomy (inl empty) inv' at
                  (inv'.ahead idx (omega arith) unplaced))
        ]
      ]

  pub skip-IsPacking :
      (idx : ℕ) (st : Packing x) (p : Placement)
      → Inv idx st
      → At st.placement idx (some p)
      → Inv (suc idx) st
  skip-IsPacking idx st p inv here = record {
    older = inv.older;
    ahead = λ j le. inv.ahead j (omega arith);
    behind = λ j c lt b at. elim (Bool-cases (j == idx)) [
      | inl t ↦
          let e =
            inv.ahead idx (omega arith) (subst (λ n. At before n none) ((==_iff j idx).0 t) b) in
          absurd (ground (arith, e, here))
      | inr f ↦ inv.behind j c (ground (arith, f, lt)) b at
    ];
    members = λ n j c at. let (l, b, a, o, p') = inv.members n j c at in (omega arith, b, a, o, p');
    counted = inv.counted;
    limited = inv.limited;
    size = inv.size;
  }

  pub was_unplaced :
      (idx : ℕ) (st : Packing x) (o : Option Placement)
      → Inv idx st
      → At st.placement idx none
      → At before idx o
      → At before idx none
  was_unplaced idx st none inv here b = b
  was_unplaced idx st (some p) inv here b =
      absurd (let e = inv.older idx p b in ground (arith, e, here))

  pub pack_from-IsPacking :
      (idx : ℕ) (cs : List Chunk) (st st' : Packing x)
      → 0 < x.max_xorb_chunks
      → Inv idx st
      → ((n : ℕ) (c : Chunk) → At cs n c → At chunks (n + idx) c)
      → pack_from x idx cs st ≡ ok st'
      → Inv (length cs + idx) st'
  unfolding pack_from
  pack_from-IsPacking idx [] st st' roomy inv suffix e =
      subst (λ (y : Packing x). Inv (0 + idx) y) (ok-injective e)
        (subst (λ n. Inv n st) (omega arith) inv)
  pack_from-IsPacking idx (c ∷ cs) st st' roomy inv suffix e =
      let at : At chunks idx c = subst (λ n. At chunks n c) (omega arith) (suffix 0 c refl) in
      let later : (n : ℕ) (d : Chunk) → At cs n d → At chunks (n + suc idx) d =
        λ n d a. subst (λ m. At chunks m d) (omega arith) (suffix (suc n) d a) in
      let counted : (y : Packing x) → Inv (length cs + suc idx) y → Inv (suc (length cs) + idx) y =
        λ y. subst (λ n. Inv n y) (omega arith) in
      elim (Option-cases (get_elem? st.placement idx)) [
        | inl q ↦ absurd (ground (arith, q, e))
        | inr (o, q) ↦ elim (Option-cases o) [
          | inr (p, r) ↦ counted st' (
              pack_from-IsPacking (suc idx) cs st st' roomy
                (skip-IsPacking idx st p inv (ground (arith, q, r))) later
                (ground (arith, q, r, e)))
          | inl r ↦
              let here : At st.placement idx none = ground (arith, q, r) in
              let (w, b) = At-length st.placement before idx none inv.size here in
              let unplaced = was_unplaced idx st w inv here b in
              elim (Result-cases (pack_one x idx c st)) [
                | inr (bad, k) ↦ absurd (ground (arith, here, k, e))
                | inl (next, k) ↦ counted st' (
                    pack_from-IsPacking (suc idx) cs next st' roomy
                      (pack_one-IsPacking idx st next c roomy inv at here unplaced k) later
                      (ground (arith, here, k, e)))
              ]
        ]
      ]

  abbrev pub start : Packing x
  start = record {
    group = [];
    group_bytes = 0;
    placement = before;
    xorbs = [];
    new_xorb_infos = [];
  }

  pub start-IsPacking : Inv 0 start
  start-IsPacking = record {
    older = λ j p b. b;
    ahead = λ j le b. b;
    behind = λ j c lt b at. absurd (omega arith);
    members = λ n j c at. cc;
    counted = refl;
    limited = (omega arith, inl (omega arith));
    size = refl;
  }

  pub pack-IsPacking :
      (st : Packing x)
      → 0 < x.max_xorb_chunks
      → pack x chunks before ≡ ok st
      → Inv (length chunks) st × (st.group ≡ [])
  unfolding pack
  pack-IsPacking st roomy e =
      let (last, q, k) = >>=-eq-ok (pack_from x 0 chunks start) _ e in
      let inv : Inv (length chunks) last =
        subst (λ n. Inv n last) (omega arith)
          (pack_from-IsPacking 0 chunks start last roomy start-IsPacking
            (λ n c at. subst (λ m. At chunks m c) (omega arith) at) q) in
      elim (Bool-cases (no_group last.group)) [
        | inl t ↦
            subst (λ (y : Packing x). Inv (length chunks) y × (y.group ≡ [])) (ground (arith, t, k))
              (inv, no_group-nil last.group t)
        | inr f ↦ seal-IsPacking x chunks before (length chunks) last st inv (ground (arith, f, k))
      ]

  -- Where xorbs may hold a chunk at all, packing that ends without a failed serialization gives every
  -- chunk a place: the one it had before, or its position in a new xorb that is among those to be
  -- uploaded, and that is within the limits of bytes and of chunks or holds this chunk alone.
  pub pack-Packed :
      (st : Packing x) (j : ℕ) (c : Chunk)
      → 0 < x.max_xorb_chunks
      → length before ≡ length chunks
      → pack x chunks before ≡ ok st
      → At chunks j c
      → (p : Placement) × At st.placement j (some p)
        × (At before j (some p) ⊎ (At before j none × Packed x st.xorbs c p))
  pack-Packed st j c roomy sizes e at =
      let (inv, empty) = pack-IsPacking st roomy e in
      let (o, b) = At-length chunks before j c (sym sizes) at in
      elim (Option-cases o) [
        | inr (p, q) ↦
            let known = subst (λ w. At before j w) q b in (p, inv.older j p known, inl known)
        | inl q ↦
            let unknown = subst (λ w. At before j w) q b in
            elim (inv.behind j c (At-lt chunks j c at) unknown at) [
              | inl (n, in_group) ↦ absurd (
                  subst (λ (g : List (ℕ × Chunk)). At g n (j, c) → ⊥) (sym empty) (λ z. cc)
                    in_group)
              | inr (p, here, packed) ↦ (p, here, inr (unknown, packed))
            ]
      ]
