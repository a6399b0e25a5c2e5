-- ===== src/Reconstruction/Trim.antt =====
-- Cutting the terms of a file to a byte range.
-- Source: crates/server/src/routes/reconstruction.rs, the range handling of `reconstruction_terms`.
pub mod Bytes
use openxet.Base.{
  Bool, List, Option, Result, [], err, false, if◌then◌else◌, leb, ltb, min, none, ok, some, true, ℕ,
  ◌&&◌, ◌++◌, ◌+◌, ◌-◌, ◌∷◌,
}
use openxet.Errors.{AppError}
use openxet.Reconstruction.Types.{ReconstructionTerm}

abbrev pub total_size : List ReconstructionTerm → ℕ
total_size [] = 0
total_size (t ∷ ts) = t.unpacked_length + total_size ts

-- The variables of the loop.
pub record Trimmed : Type 0 where
  pub byte_offset : ℕ
  pub offset_into_first_range : ℕ
  pub terms : List ReconstructionTerm

abbrev is_nil {ℓ} : {A : Type ℓ} → List A → Bool
is_nil [] = true
is_nil (x ∷ xs) = false

-- One round. `saturating_sub` is the truncated subtraction.
trim_term : ℕ → ℕ → Trimmed → ReconstructionTerm → Trimmed
trim_term range_start range_end s term =
    let term_end = s.byte_offset + term.unpacked_length in
    if leb s.byte_offset range_end && ltb range_start term_end
    then record {
      byte_offset = term_end;
      offset_into_first_range =
          if is_nil s.terms then range_start - s.byte_offset else s.offset_into_first_range;
      terms = s.terms ++ term ∷ [];
    }
    else record s { byte_offset = term_end }

trim_loop : ℕ → ℕ → Trimmed → List ReconstructionTerm → Trimmed
unfolding trim_term
trim_loop range_start range_end s [] = s
trim_loop range_start range_end s (t ∷ ts) =
    trim_loop range_start range_end (trim_term range_start range_end s t) ts

trim_range : List ReconstructionTerm → ℕ × ℕ → Result AppError (ℕ × List ReconstructionTerm)
unfolding trim_loop
trim_range terms (range_start, range_end) =
    if leb (total_size terms) range_start
    then err AppError.range_not_satisfiable
    else let s =
        trim_loop range_start (min range_end (total_size terms - 1))
          (record { byte_offset = 0; offset_into_first_range = 0; terms = [] }) terms in
      ok (s.offset_into_first_range, s.terms)

-- The terms that answer a request, with the offset into the first.
unfoldable pub trim_terms :
    List ReconstructionTerm → Option (ℕ × ℕ) → Result AppError (ℕ × List ReconstructionTerm)
unfolding trim_range
trim_terms terms none = ok (0, terms)
trim_terms terms (some range) = trim_range terms range
