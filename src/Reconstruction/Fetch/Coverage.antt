-- ===== src/Reconstruction/Fetch/Coverage.antt =====
-- Chunk ranges resolve without a panic, and to the spans of their chunks.
use openxet.Base.{
  All, Bool-cases, List, [], arith, false, get_elem?, inl, inr, keep, leb, length, ltb, map, min,
  none, ok, refl, some, suc, sym, zero, ℕ, ◌%◌, ◌+◌, ◌-◌, ◌<◌, ◌^◌, ◌∷◌, ◌≡◌,
}
use openxet.Reconstruction.Types.{ChunkRange, ByteRange}
use openxet.Reconstruction.Fetch.{resolve_range, resolve_ranges}

get_elem?-some :
    (xs : List (ℕ × ℕ)) (i : ℕ) → i < length xs → (x : ℕ × ℕ) × (get_elem? xs i ≡ some x)
get_elem?-some [] i h = absurd (omega arith)
get_elem?-some (x ∷ xs) zero h = (x, refl)
get_elem?-some (x ∷ xs) (suc i) h = get_elem?-some xs i (omega arith)

-- A range with a chunk in it, and a list of them.
abbrev pub NonEmpty : ChunkRange → Type 0
NonEmpty r = r.start < r.end

-- The range's span is from the first byte of its first chunk to the last byte of its last stored one.
abbrev pub Spans : List (ℕ × ℕ) → ChunkRange × ByteRange → Type 0
Spans offsets (r, b) =
    (i : ℕ) × (first last : ℕ × ℕ) × (suc i ≡ min r.end (length offsets))
    × (get_elem? offsets r.start ≡ some first)
    × (get_elem? offsets i ≡ some last)
    × (b.start ≡ first.0)
    × (b.end ≡ (last.1 + 2 ^ 64 - 1) % 2 ^ 64)

abbrev byte_span : ℕ × ℕ → ℕ × ℕ → ByteRange
byte_span first last = record { start = first.0; end = (last.1 + 2 ^ 64 - 1) % 2 ^ 64 }

resolve_range-byte_span :
    (offsets : List (ℕ × ℕ)) (r : ChunkRange) (i : ℕ) (first last : ℕ × ℕ)
    → leb (length offsets) r.start ≡ false
    → min r.end (length offsets) ≡ suc i
    → get_elem? offsets r.start ≡ some first
    → get_elem? offsets i ≡ some last
    → resolve_range offsets r ≡ ok (some (r, byte_span first last))
unfolding resolve_range
resolve_range-byte_span offsets r i first last inside k f l = rw (inside, f, k, l) refl

resolve_range-Spans :
    (offsets : List (ℕ × ℕ)) (r : ChunkRange)
    → r.start < length offsets
    → NonEmpty r
    → (b : ByteRange) × (resolve_range offsets r ≡ ok (some (r, b))) × Spans offsets (r, b)
unfolding resolve_range
resolve_range-Spans offsets r h n =
    let i = min r.end (length offsets) - 1 in
    let k : suc i ≡ min r.end (length offsets) = omega arith in
    let (first, f) = get_elem?-some offsets r.start h in
    let (last, l) = get_elem?-some offsets i (omega arith) in
    let inside : leb (length offsets) r.start ≡ false = ground arith in
    (
      byte_span first last,
      resolve_range-byte_span offsets r i first last inside (sym k) f l,
      (i, first, last, k, f, l, refl, refl),
    )

resolve_range-past :
    (offsets : List (ℕ × ℕ)) (r : ChunkRange)
    → ltb r.start (length offsets) ≡ false
    → resolve_range offsets r ≡ ok none
unfolding resolve_range
resolve_range-past offsets r h = ground (arith, h)

-- Ranges with a chunk each never panic: those that start past the last chunk are left out, and each
-- other one is answered, in order, with the span of its chunks.
pub resolve_ranges-Spans :
    (offsets : List (ℕ × ℕ)) (rs : List ChunkRange)
    → All NonEmpty rs
    → (out : List (ChunkRange × ByteRange)) × (resolve_ranges offsets rs ≡ ok out)
      × (map (λ x. x.0) out ≡ keep (λ r. ltb r.start (length offsets)) rs)
      × All (Spans offsets) out
unfolding resolve_ranges keep
resolve_ranges-Spans offsets [] n = ([], refl, refl, tt)
resolve_ranges-Spans offsets (r ∷ rs) (n, ns) =
    let (out, e, m, a) = resolve_ranges-Spans offsets rs ns in
    elim (Bool-cases (ltb r.start (length offsets))) [
      | inl h ↦
          let (b, f, s) = resolve_range-Spans offsets r (ground arith) n in
          ((r, b) ∷ out, rw (f, e) refl, ground (arith, h, m), (s, a))
      | inr h ↦
          let f : resolve_range offsets r ≡ ok none = resolve_range-past offsets r h in
          (out, rw (f, e) refl, ground (arith, h, m), a)
    ]
