-- ===== src/Wasm/Plan/Packs.antt =====
-- What packing keeps true. Source: the loop of `build_plan` of crates/wasm/src/lib.rs.
use openxet.Base.{
  ==_iff, >>=-eq-ok, All, Bool-cases, List, Option, [], ap, arith, inl, inr, length, none, ok,
  ok-injective, refl, some, subst, suc, sym, zero, ℕ, ◌++◌, ◌+◌, ◌<◌, ◌==◌, ◌∙◌, ◌∷◌, ◌≡◌, ◌≢◌, ◌≤◌,
  ◌⊎◌,
}
use openxet.Text.{Text}
use openxet.Wasm.{Chunk, Placement, XetClient}
use openxet.Wasm.Plan.{Packing, place_group, seal_xorb, seal, chunks_of, bytes_of, push}
use openxet.Wasm.Plan.Seals.{
  At, At-append, At-append_last, At-append_cases, At-map, place_at, placed_group-At,
  length-placed_group, placed_group, place_group-eq-ok,
}

pub At-length {ℓ κ} :
    {A : Type ℓ} {B : Type κ} (xs : List A) (ys : List B) (j : ℕ) (a : A)
    → length xs ≡ length ys
    → At xs j a
    → (b : B) × At ys j b
At-length [] ys j a q e = cc
At-length (x ∷ xs) [] j a q e = absurd (omega arith)
At-length (x ∷ xs) (y ∷ ys) zero a q e = (y, refl)
At-length (x ∷ xs) (y ∷ ys) (suc j) a q e = At-length xs ys j a (omega arith) e

All-At {ℓ} :
    {A : Type ℓ} (P : A → Type 0) (xs : List A) (i : ℕ) (a : A) → All P xs → At xs i a → P a
All-At P [] i a h e = cc
All-At P (x ∷ xs) zero a h e = subst (λ y. P y) (ground (arith, e)) h.0
All-At P (x ∷ xs) (suc i) a h e = All-At P xs i a h.1 e

chunks_of-push :
    (k : ℕ) (c : Chunk) (g : List (ℕ × Chunk))
    → (length (chunks_of (g ++ (k, c) ∷ [])) ≡ suc (length g))
      × (bytes_of (chunks_of (g ++ (k, c) ∷ [])) ≡ bytes_of (chunks_of g) + length c.bytes)
chunks_of-push k c [] = (refl, omega arith)
chunks_of-push k c (d ∷ g) = let (a, b) = chunks_of-push k c g in (ap suc a, omega arith)

length-chunks_of : (g : List (ℕ × Chunk)) → length (chunks_of g) ≡ length g
length-chunks_of [] = refl
length-chunks_of (d ∷ g) = ap suc (length-chunks_of g)

module _ (x : XetClient) where
  -- A group that may become a xorb: within both limits, or a single chunk.
  abbrev pub Limited : List Chunk → Type 0
  Limited g = (length g ≤ x.max_xorb_chunks) × ((bytes_of g ≤ x.max_xorb_bytes) ⊎ (length g ≡ 1))

  -- A chunk is at its place in a new xorb.
  abbrev pub Packed : List (Text × Text) → Chunk → Placement → Type 0
  Packed xorbs c p =
      (g : List Chunk) × (s : Text × x.XorbInfo × Text) × (m : ℕ) × (i : ℕ) × (seal_xorb x g ≡ ok s)
      × At xorbs m (s.0, s.2)
      × At g i c
      × (p ≡ place_at s.0 i)
      × Limited g

  Packed-append :
      (xorbs more : List (Text × Text)) (c : Chunk) (p : Placement)
      → Packed xorbs c p
      → Packed (xorbs ++ more) c p
  Packed-append xorbs more c p (g, s, m, i, a, b, d, e, f) =
      (g, s, m, i, a, At-append xorbs more m _ b, d, e, f)

  module _ (chunks : List Chunk) (before : List (Option Placement)) where
    -- Up to an index: what was placed before stays, each other chunk is in the open group or packed,
    -- and the open group holds only such chunks, within the limits.
    pub record IsPacking (idx : ℕ) (st : Packing x) : Type 0 where
      pub older : (j : ℕ) (p : Placement) → At before j (some p) → At st.placement j (some p)
      pub ahead : (j : ℕ) → idx ≤ j → At before j none → At st.placement j none
      pub behind :
          (j : ℕ) (c : Chunk)
          → j < idx
          → At before j none
          → At chunks j c
          → ((n : ℕ) × At st.group n (j, c))
            ⊎ ((p : Placement) × At st.placement j (some p) × Packed st.xorbs c p)
      pub members :
          (n j : ℕ) (c : Chunk)
          → At st.group n (j, c)
          → (j < idx)
            × At before j none
            × At chunks j c
            × (o : Option Placement) × At st.placement j o
      pub counted : st.group_bytes ≡ bytes_of (chunks_of st.group)
      pub limited : Limited (chunks_of st.group)
      pub size : length st.placement ≡ length before

    At-unique {ℓ} : {A : Type ℓ} (xs : List A) (j : ℕ) (a b : A) → At xs j a → At xs j b → a ≡ b
    At-unique xs j a b e f = ground (arith, e, f)

    -- A placement that sealing changed is the place of that very chunk.
    seal-Packed :
        (idx : ℕ) (st : Packing x) (s : Text × x.XorbInfo × Text) (j n : ℕ) (c d : Chunk)
        → IsPacking idx st
        → seal_xorb x (chunks_of st.group) ≡ ok s
        → At chunks j c
        → At st.group n (j, d)
        → Packed (st.xorbs ++ (s.0, s.2) ∷ []) c (place_at s.0 n)
    seal-Packed idx st s j n c d inv sealed at in_group =
        let (lt, b, at', o, p) = inv.members n j d in_group in
        let same = At-unique chunks j d c at' at in
        (
          chunks_of st.group,
          s,
          length st.xorbs,
          n,
          sealed,
          At-append_last st.xorbs _,
          subst (λ (e : Chunk). At (chunks_of st.group) n e) same
              (At-map (λ g. g.1) st.group n (j, d) in_group),
          refl,
          inv.limited,
        )

    -- What sealing makes of a placement.
    sealed_place :
        (idx : ℕ) (st : Packing x) (s : Text × x.XorbInfo × Text) (j : ℕ) (c : Chunk)
        (o : Option Placement)
        → IsPacking idx st
        → seal_xorb x (chunks_of st.group) ≡ ok s
        → At chunks j c
        → At st.placement j o
        → (At (placed_group s.0 0 st.group st.placement) j o × All (λ e. e.0 ≢ j) st.group)
          ⊎ ((p : Placement) × At (placed_group s.0 0 st.group st.placement) j (some p)
              × Packed (st.xorbs ++ (s.0, s.2) ∷ []) c p)
    sealed_place idx st s j c o inv sealed at here =
        let placed = placed_group s.0 0 st.group st.placement in
        elim (placed_group-At s.0 0 st.group st.placement j o here) [
          | inl kept ↦ inl kept
          | inr (n, d, in_group, q) ↦ inr (
            place_at s.0 n,
            subst (λ (m : ℕ). At placed j (some (place_at s.0 m))) (omega arith) q,
            seal-Packed idx st s j n c d inv sealed at in_group,
          )
        ]

    pub seal-IsPacking :
        (idx : ℕ) (st st' : Packing x)
        → IsPacking idx st
        → seal x st ≡ ok st'
        → IsPacking idx st' × (st'.group ≡ [])
    unfolding seal
    seal-IsPacking idx st st' inv e =
        let (s, sealed, k₀) = >>=-eq-ok (seal_xorb x (chunks_of st.group)) _ e in
        let (pl, placed, k) = >>=-eq-ok (place_group s.0 0 st.group st.placement) _ k₀ in
        subst (λ (y : Packing x). IsPacking idx y × (y.group ≡ []))
          (ap
              (λ l. record {
                group = [];
                group_bytes = 0;
                placement = l;
                xorbs = st.xorbs ++ (s.0, s.2) ∷ [];
                new_xorb_infos = st.new_xorb_infos ++ s.1 ∷ [];
              })
              (place_group-eq-ok s.0 0 st.group st.placement pl placed)
            ∙ ok-injective k)
          (
            record {
              older = λ j p b.
                  elim (placed_group-At s.0 0 st.group st.placement j (some p) (inv.older j p b)) [
                    | inl (kept, others) ↦ kept
                    | inr (n, d, at, q) ↦
                        absurd (let m = inv.members n j d at in ground (arith, b, m.1))
                  ];
              ahead = λ j le b.
                  elim (placed_group-At s.0 0 st.group st.placement j none (inv.ahead j le b)) [
                    | inl (kept, others) ↦ kept
                    | inr (n, d, at, q) ↦
                        absurd (let m = inv.members n j d at in omega (arith, m.0))
                  ];
              behind = λ j c lt b at. elim (inv.behind j c lt b at) [
                | inl (n, in_group) ↦
                    let (l, b', at', o, here) = inv.members n j c in_group in
                    elim (sealed_place idx st s j c o inv sealed at here) [
                      | inl (kept, others) ↦
                          absurd (All-At (λ e. e.0 ≢ j) st.group n (j, c) others in_group refl)
                      | inr (p, moved, packed) ↦ inr (p, moved, packed)
                    ]
                | inr (p, here, packed) ↦
                    elim (sealed_place idx st s j c (some p) inv sealed at here) [
                      | inl (kept, others) ↦ inr (p, kept, Packed-append st.xorbs _ c p packed)
                      | inr (p', moved, packed') ↦ inr (p', moved, packed')
                    ]
              ];
              members = λ n j c at. cc;
              counted = refl;
              limited = (omega arith, inl (omega arith));
              size = length-placed_group s.0 0 st.group st.placement ∙ inv.size;
            },
            refl,
          )

    -- Room for one more chunk.
    abbrev pub HasRoom : Packing x → Chunk → Type 0
    HasRoom st c =
        (st.group ≡ [])
        ⊎ ((bytes_of (chunks_of st.group) + length c.bytes ≤ x.max_xorb_bytes)
            × (suc (length st.group) ≤ x.max_xorb_chunks))

    push-Limited :
        (idx : ℕ) (st : Packing x) (c : Chunk)
        → 0 < x.max_xorb_chunks
        → HasRoom st c
        → Limited (chunks_of (push x idx c st).group)
    push-Limited idx st c roomy (inl e) =
        subst (λ (g : List (ℕ × Chunk)). Limited (chunks_of (g ++ (idx, c) ∷ []))) (sym e)
          (omega arith, inr refl)
    push-Limited idx st c roomy (inr (small, few)) =
        let (a, b) = chunks_of-push idx c st.group in (omega arith, inl (omega arith))

    pub push-IsPacking :
        (idx : ℕ) (st : Packing x) (c : Chunk)
        → 0 < x.max_xorb_chunks
        → HasRoom st c
        → IsPacking idx st
        → At chunks idx c
        → At st.placement idx none
        → IsPacking (suc idx) (push x idx c st)
    push-IsPacking idx st c roomy room inv at here =
        let (o, b) = At-length st.placement before idx none inv.size here in
        let unplaced : At before idx none = was_unplaced o b in
        record {
          older = inv.older;
          ahead = λ j le. inv.ahead j (omega arith);
          behind = λ j d lt bj atj. elim (Bool-cases (j == idx)) [
            | inl t ↦
                let q = (==_iff j idx).0 t in
                let same = At-unique chunks idx c d at (subst (λ n. At chunks n d) q atj) in
                inl (
                  length st.group,
                  subst (λ (e : ℕ × Chunk). At (st.group ++ (idx, c) ∷ []) (length st.group) e)
                      (ground (arith, q, same)) (At-append_last st.group (idx, c)),
                )
            | inr f ↦ elim (inv.behind j d (ground (arith, f, lt)) bj atj) [
              | inl (n, in_group) ↦ inl (n, At-append st.group _ n (j, d) in_group)
              | inr placed ↦ inr placed
            ]
          ];
          members = λ n j d in_group. elim (At-append_cases st.group (idx, c) n (j, d) in_group) [
            | inl known ↦
                let (l, b', at', o', p) = inv.members n j d known in (omega arith, b', at', o', p)
            | inr new ↦
                subst
                  (λ (e : ℕ × Chunk).
                    (e.0 < suc idx)
                    × At before e.0 none
                    × At chunks e.0 e.1
                    × (o : Option Placement) × At st.placement e.0 o)
                  new (omega arith, unplaced, at, none, here)
          ];
          counted =
              let (l, total) = chunks_of-push idx c st.group in omega (arith, inv.counted, total);
          limited = push-Limited idx st c roomy room;
          size = inv.size;
        }
      where
        was_unplaced : (o : Option Placement) → At before idx o → At before idx none
        was_unplaced none b = b
        was_unplaced (some p) b = absurd (let e = inv.older idx p b in ground (arith, e, here))
