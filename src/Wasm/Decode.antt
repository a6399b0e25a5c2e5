-- ===== src/Wasm/Decode.antt =====
-- Decoding a fetched slice. Source: `decode_chunks` of crates/wasm/src/lib.rs.
use openxet.Base.{
  Bool-cases, List, [], arith, drop, err, inl, inr, leb, length, length-drop, length-take, ltb, ok,
  refl, suc, take, zero, ℕ, ◌&&◌, ◌-◌, ◌<◌, ◌∷◌, ◌≡◌, ◌≤◌, ◌⊎◌,
}
use openxet.Text.{Text}
use openxet.Wasm.{XetClient, failed, decode_chunks, slice_between, out_of_bounds}
use openxet.Wasm.Plan.Seals.{At}

-- Cumulative offsets, from one on, up to a number of bytes.
abbrev pub Ascending : ℕ → List ℕ → ℕ → Type 0
Ascending low [] size = Unit {0}
Ascending low (b ∷ bs) size = (low ≤ b) × (b ≤ size) × Ascending b bs size

At-bounds :
    (low : ℕ) (bs : List ℕ) (size i a : ℕ)
    → Ascending low bs size
    → At bs i a
    → (low ≤ a) × (a ≤ size)
At-bounds low [] size i a h e = cc
At-bounds low (b ∷ bs) size zero a (h, k, hs) e =
    let q : b ≡ a = ground (arith, e) in (omega arith, omega arith)
At-bounds low (b ∷ bs) size (suc i) a (h, k, hs) e =
    let (u, v) = At-bounds b bs size i a hs e in (omega arith, v)

At-le :
    (low : ℕ) (bs : List ℕ) (size i j a b : ℕ)
    → Ascending low bs size
    → i ≤ j
    → At bs i a
    → At bs j b
    → a ≤ b
At-le low [] size i j a b h le e f = cc
At-le low (c ∷ bs) size zero zero a b (h, k, hs) le e f =
    let q : a ≡ b = ground (arith, e, f) in omega arith
At-le low (c ∷ bs) size zero (suc j) a b (h, k, hs) le e f =
    let q : c ≡ a = ground (arith, e) in let (u, v) = At-bounds c bs size j b hs f in omega arith
At-le low (c ∷ bs) size (suc i) zero a b (h, k, hs) le e f = absurd (omega arith)
At-le low (c ∷ bs) size (suc i) (suc j) a b (h, k, hs) le e f =
    At-le c bs size i j a b hs (omega arith) e f

At-exists {ℓ} : {A : Type ℓ} (xs : List A) (i : ℕ) → i < length xs → (a : A) × At xs i a
At-exists [] i h = absurd (omega arith)
At-exists (x ∷ xs) zero h = (x, refl)
At-exists (x ∷ xs) (suc i) h = At-exists xs i (omega arith)

module _ (x : XetClient) where
  -- Where decoding gives bytes with cumulative offsets, a range of chunks within them is answered
  -- with exactly the bytes between its offsets, and any other range is refused with a message;
  -- neither panics.
  pub decode_chunks-slice :
      (body bytes : Text) (bounds : List ℕ) (start end : ℕ)
      → x.deserialize_chunks body ≡ ok (bytes, bounds)
      → Ascending 0 bounds (length bytes)
      → ((a : ℕ) × (b : ℕ) × At bounds start a
          × At bounds end b
          × (a ≤ b)
          × (decode_chunks x body start end ≡ ok (take (b - a) (drop a bytes)))
          × (length (take (b - a) (drop a bytes)) ≡ b - a))
        ⊎ (((end < start) ⊎ (length bounds ≤ end))
            × (message : Text) × (decode_chunks x body start end ≡ err (failed message)))
  unfolding decode_chunks slice_between out_of_bounds
  decode_chunks-slice body bytes bounds start end e h =
      elim (Bool-cases (leb start end && ltb end (length bounds))) [
        | inl t ↦
            let le : start ≤ end = ground (arith, t) in
            let lt : end < length bounds = ground (arith, t) in
            let (a, at_a) = At-exists bounds start (omega arith) in
            let (b, at_b) = At-exists bounds end lt in
            let ordered = At-le 0 bounds (length bytes) start end a b h le at_a at_b in
            let (low, high) = At-bounds 0 bounds (length bytes) end b h at_b in
            inl (
              a,
              b,
              at_a,
              at_b,
              ordered,
              ground (arith, e, t, at_a, at_b, ordered, high),
              omega (arith, length-take (b - a) (drop a bytes), length-drop a bytes),
            )
        | inr f ↦ inr (
          elim (Bool-cases (leb start end)) [
            | inl le ↦ inr (ground (arith, f, le))
            | inr gt ↦ inl (ground (arith, gt))
          ],
          out_of_bounds start end (length bounds),
          rw (e, f) refl,
        )
      ]
