-- ===== src/Reconstruction/Trim/Bytes.antt =====
-- The trimmed terms hold the bytes that were asked for.
use openxet.Base.{
  All, Bool-cases, List, [], ap, append-nil, append_assoc, arith, drop, drop-append_ge,
  drop-append_le, false, if◌then◌else◌, inl, inr, leb, length, length-drop, ltb, min, ok, refl,
  some, suc, sym, take, take-append_cong, true, zero, ℕ, ◌++◌, ◌+◌, ◌-◌, ◌<◌, ◌∷◌, ◌≡◌, ◌≤◌,
}
use openxet.Text.{Text}
use openxet.Reconstruction.Types.{ReconstructionTerm}
use openxet.Reconstruction.Trim.{trim_loop, trim_terms, total_size}

-- What the client decodes from a list of terms, given what each term stands for.
abbrev pub content : (ReconstructionTerm → Text) → List ReconstructionTerm → Text
content bytes [] = []
content bytes (t ∷ ts) = bytes t ++ content bytes ts

-- Each term stands for as many bytes as it declares.
abbrev pub IsSized : (ReconstructionTerm → Text) → List ReconstructionTerm → Type 0
IsSized bytes ts = All (λ t. length (bytes t) ≡ t.unpacked_length) ts

-- The loop once a term was kept: the terms up to the end of the range.
keep_until : ℕ → ℕ → List ReconstructionTerm → List ReconstructionTerm
keep_until range_end pos [] = []
keep_until range_end pos (t ∷ ts) =
    if leb pos range_end
    then t ∷ keep_until range_end (pos + t.unpacked_length) ts
    else keep_until range_end (pos + t.unpacked_length) ts

-- The loop before: the offset, and the terms from the one that holds the start of the range.
seek : ℕ → ℕ → ℕ → List ReconstructionTerm → ℕ × List ReconstructionTerm
seek range_start range_end pos [] = (0, [])
seek range_start range_end pos (t ∷ ts) = elim (ltb range_start (pos + t.unpacked_length)) [
  | true ↦ (range_start - pos, t ∷ keep_until range_end (pos + t.unpacked_length) ts)
  | false ↦ seek range_start range_end (pos + t.unpacked_length) ts
]

module _ (range_start range_end : ℕ) where
  trim_loop-kept :
      (off : ℕ) (k : ReconstructionTerm) (ks ts : List ReconstructionTerm) (pos : ℕ)
      → range_start < pos
      → let s =
          trim_loop range_start range_end
            (record { byte_offset = pos; offset_into_first_range = off; terms = k ∷ ks })
            ts in
        (s.offset_into_first_range ≡ off) × (s.terms ≡ (k ∷ ks) ++ keep_until range_end pos ts)
  unfolding trim_loop keep_until
  trim_loop-kept off k ks [] pos h = (refl, sym (append-nil (k ∷ ks)))
  trim_loop-kept off k ks (t ∷ ts) pos h =
      let kept = trim_loop-kept off k (ks ++ t ∷ []) ts (pos + t.unpacked_length) (omega arith) in
      let skipped = trim_loop-kept off k ks ts (pos + t.unpacked_length) (omega arith) in
      ground (
        arith,
        kept,
        skipped,
        append_assoc ks (t ∷ []) (keep_until range_end (pos + t.unpacked_length) ts),
      )

  trim_loop-seek :
      (ts : List ReconstructionTerm) (pos : ℕ)
      → pos ≤ range_start
      → range_start ≤ range_end
      → let s =
          trim_loop range_start range_end
            (record { byte_offset = pos; offset_into_first_range = 0; terms = [] })
            ts in
        (s.offset_into_first_range, s.terms) ≡ seek range_start range_end pos ts
  unfolding trim_loop seek
  trim_loop-seek [] pos h k = refl
  trim_loop-seek (t ∷ ts) pos h k = elim (Bool-cases (ltb range_start (pos + t.unpacked_length))) [
    | inl e ↦
        let (p, q) =
          trim_loop-kept (range_start - pos) t [] ts (pos + t.unpacked_length) (ground arith) in
        ground (arith, p, q)
    | inr e ↦
        let p = trim_loop-seek ts (pos + t.unpacked_length) (ground arith) k in ground (arith, p)
  ]

seek_here :
    (a b pos : ℕ) (t : ReconstructionTerm) (ts : List ReconstructionTerm)
    → ltb a (pos + t.unpacked_length) ≡ true
    → seek a b pos (t ∷ ts) ≡ (a - pos, t ∷ keep_until b (pos + t.unpacked_length) ts)
unfolding seek
seek_here a b pos t ts e = ground arith

seek_later :
    (a b pos : ℕ) (t : ReconstructionTerm) (ts : List ReconstructionTerm)
    → ltb a (pos + t.unpacked_length) ≡ false
    → seek a b pos (t ∷ ts) ≡ seek a b (pos + t.unpacked_length) ts
unfolding seek
seek_later a b pos t ts e = ground arith

drop_nil : (n : ℕ) → ◌≡◌ {A = Text} (drop n []) []
drop_nil zero = refl
drop_nil (suc n) = refl

module _ (bytes : ReconstructionTerm → Text) (range_start range_end : ℕ) where
  -- Of the bytes up to the end of the range, the kept terms lose none.
  take-keep_until :
      (ts : List ReconstructionTerm) (pos : ℕ)
      → IsSized bytes ts
      → take (suc range_end - pos) (content bytes (keep_until range_end pos ts))
        ≡ take (suc range_end - pos) (content bytes ts)
  unfolding keep_until
  take-keep_until [] pos h = refl
  take-keep_until (t ∷ ts) pos (h, hs) = elim (Bool-cases (leb pos range_end)) [
    | inl e ↦
        let next = pos + t.unpacked_length in
        let n : suc range_end - pos - length (bytes t) ≡ suc range_end - next = omega arith in
        let rest = take-keep_until ts next hs in
        rw e (
          take-append_cong (suc range_end - pos) (bytes t)
            (content bytes (keep_until range_end next ts)) (content bytes ts) (rw n rest))
    | inr e ↦ let n : suc range_end - pos ≡ 0 = ground arith in rw n refl
  ]

  take-seek :
      (ts : List ReconstructionTerm) (pos : ℕ)
      → IsSized bytes ts
      → pos ≤ range_start
      → let (off, ks) = seek range_start range_end pos ts in
        take (suc range_end - range_start) (drop off (content bytes ks))
        ≡ take (suc range_end - range_start) (drop (range_start - pos) (content bytes ts))
  unfolding seek
  take-seek [] pos h k =
      ap (take (suc range_end - range_start)) (sym (drop_nil (range_start - pos)))
  take-seek (t ∷ ts) pos (h, hs) k =
      let next = pos + t.unpacked_length in
      let n = suc range_end - range_start in
      let off = range_start - pos in
      elim (Bool-cases (ltb range_start next)) [
        | inl e ↦
            let short : off ≤ length (bytes t) = ground arith in
            let kept = content bytes (keep_until range_end next ts) in
            let all = content bytes ts in
            let left : n - length (drop off (bytes t)) ≡ suc range_end - next =
              ground (arith, length-drop off (bytes t)) in
            let rest =
              take-append_cong n (drop off (bytes t)) kept all
                (rw left (take-keep_until ts next hs)) in
            rw
              (
                seek_here range_start range_end pos t ts e,
                drop-append_le off (bytes t) kept short,
                drop-append_le off (bytes t) all short,
              )
              rest
        | inr e ↦
            let m : off - length (bytes t) ≡ range_start - next = omega arith in
            rw
              (
                seek_later range_start range_end pos t ts e,
                drop-append_ge off (bytes t) (content bytes ts) (ground arith),
                m,
              )
              (take-seek ts next hs (ground arith))
      ]

module _ (bytes : ReconstructionTerm → Text) (range_start range_end : ℕ) where
  -- A range that starts before the end of the file is answered, and the client that decodes the
  -- terms, drops the offset and takes as many bytes as were asked for (up to the end of the
  -- file) holds exactly the bytes of the range, where each term stands for as many bytes as it
  -- declares.
  pub trim_terms-content :
      (ts : List ReconstructionTerm)
      → IsSized bytes ts
      → range_start < total_size ts
      → range_start ≤ range_end
      → (off : ℕ) × (ks : List ReconstructionTerm) × (trim_terms ts (some (range_start, range_end))
          ≡ ok (off, ks))
        × (take
              (suc (min range_end (total_size ts - 1)) - range_start)
              (drop off (content bytes ks))
            ≡ take
                (suc (min range_end (total_size ts - 1)) - range_start)
                (drop range_start (content bytes ts)))
  unfolding trim_terms
  trim_terms-content ts h a b =
      let last = min range_end (total_size ts - 1) in
      let (off, ks) = seek range_start last 0 ts in
      let z : range_start - 0 ≡ range_start = omega arith in
      let e : leb (total_size ts) range_start ≡ false = ground arith in
      (
        off,
        ks,
        rw (e, trim_loop-seek range_start last ts 0 (omega arith) (omega arith)) refl,
        rw z at (take-seek bytes range_start last ts 0 h (omega arith)),
      )
