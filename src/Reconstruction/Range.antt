-- ===== src/Reconstruction/Range.antt =====
-- The Range header. Source: crates/server/src/routes/reconstruction.rs, `parse_range_header`.
use openxet.Base.{
  >>=-eq-ok, Option, Option-cases, Result, arith, err, if◌then◌else◌, inl, inr, ltb, none, ok,
  ok_or, some, ℕ, ◌++◌, ◌<◌, ◌>>=◌, ◌∷◌, ◌≡◌, ◌≤◌,
}
use openxet.Text.{Text, codes, strip_prefix, strip_prefix-append, split_once, split_once-append}
use openxet.Text.Decimal.{decimal, decimal-ne, parse_u64, parse_u64-decimal, parse_u64-lt, u64_mod}
use openxet.Errors.{AppError}
use openxet.Auth.Middleware.{HeaderMap}

range_of_halves : Text × Text → Result AppError (Option (ℕ × ℕ))
range_of_halves (start_str, end_str) = do
  start ← ok_or (parse_u64 start_str) (AppError.bad_request (codes "invalid range start"))
  end ← ok_or (parse_u64 end_str) (AppError.bad_request (codes "invalid range end"))
  if ltb end start then err AppError.range_not_satisfiable else ok (some (start, end))

range_of_text : Text → Result AppError (Option (ℕ × ℕ))
unfolding range_of_halves
range_of_text range_str = do
  spec ←
      ok_or (strip_prefix (codes "bytes=") range_str)
        (AppError.bad_request (codes "range header must start with 'bytes='"))
  halves ← ok_or (split_once b'-' spec) (AppError.bad_request (codes "invalid range format"))
  range_of_halves halves

range_of_value : Option (Option Text) → Result AppError (Option (ℕ × ℕ))
unfolding range_of_text
range_of_value none = ok none
range_of_value (some none) = err (AppError.bad_request (codes "invalid range header encoding"))
range_of_value (some (some range_str)) = range_of_text range_str

unfoldable pub parse_range_header : HeaderMap → Result AppError (Option (ℕ × ℕ))
unfolding range_of_value
parse_range_header headers = range_of_value (headers (codes "range"))

-- A header that is printed for an inclusive span reads back as that span, and one whose ends are
-- exchanged is answered with 416.
pub parse_range_header-decimal :
    (headers : HeaderMap) (start end : ℕ)
    → start < u64_mod
    → end < u64_mod
    → headers (codes "range")
      ≡ some (some (codes "bytes=" ++ (decimal start ++ b'-' ∷ decimal end)))
    → parse_range_header headers
      ≡ (if ltb end start then err AppError.range_not_satisfiable else ok (some (start, end)))
unfolding parse_range_header
parse_range_header-decimal headers start end h k e = rw e (
    rw (
      strip_prefix-append (codes "bytes=") (decimal start ++ b'-' ∷ decimal end),
      split_once-append b'-' (decimal start) (decimal end) (decimal-ne b'-' start (omega arith)),
      parse_u64-decimal start h,
      parse_u64-decimal end k,
    ))

halves_bounds :
    (s t : Text) (start end : ℕ)
    → range_of_halves (s, t) ≡ ok (some (start, end))
    → (start ≤ end) × (end < u64_mod)
unfolding range_of_halves
halves_bounds s t start end e = elim (Option-cases (parse_u64 s)) [
  | inl missing ↦ absurd (ground arith)
  | inr (a, first) ↦ elim (Option-cases (parse_u64 t)) [
    | inl missing ↦ absurd (ground arith)
    | inr (b, second) ↦ (ground arith, ground (arith, parse_u64-lt t b second))
  ]
]

text_bounds :
    (s : Text) (start end : ℕ)
    → range_of_text s ≡ ok (some (start, end))
    → (start ≤ end) × (end < u64_mod)
unfolding range_of_text
text_bounds s start end e =
    let (spec, _, e₂) = >>=-eq-ok (ok_or (strip_prefix (codes "bytes=") s) _) _ e in
    let ((a, b), _, e₃) = >>=-eq-ok (ok_or (split_once b'-' spec) _) _ e₂ in
    halves_bounds a b start end e₃

value_bounds :
    (v : Option (Option Text)) (start end : ℕ)
    → range_of_value v ≡ ok (some (start, end))
    → (start ≤ end) × (end < u64_mod)
unfolding range_of_value
value_bounds none start end e = absurd (ground arith)
value_bounds (some none) start end e = absurd (ground arith)
value_bounds (some (some s)) start end e = text_bounds s start end e

-- Whatever the header, a range that is accepted is not inverted and fits 64 bits.
pub parse_range_header_bounds :
    (headers : HeaderMap) (start end : ℕ)
    → parse_range_header headers ≡ ok (some (start, end))
    → (start ≤ end) × (end < u64_mod)
unfolding parse_range_header
parse_range_header_bounds headers start end e = value_bounds (headers (codes "range")) start end e
