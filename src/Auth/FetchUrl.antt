-- ===== src/Auth/FetchUrl.antt =====
-- Signed, expiring xorb fetch URLs. Source: crates/server/src/auth/fetch_url.rs.
-- HMAC-SHA256 and the hex codec come from other crates and are the parameters `Mac`.
use openxet.Base.{
  Bool, Option, Result, err, false, guard, if◌then◌else◌, ltb, none, ok, ok_or, some, true, ℕ, ◌++◌,
  ◌>>=◌, ◌>>◌, ◌||◌, ◌∷◌, ◌≡◌,
}
pub mod Binding
use openxet.Text.{Text, codes, split_once, eq_text}
use openxet.Text.Decimal.{decimal, parse_u64}
use openxet.Errors.{AppError}

pub record XorbUrlParams : Type 0 where
  pub r : Option Text
  pub exp : Option ℕ
  pub sig : Option Text

abbrev is_some {ℓ} : {A : Type ℓ} → Option A → Bool
is_some none = false
is_some (some a) = true

unfoldable pub is_signed : XorbUrlParams → Bool
is_signed p = is_some p.r || is_some p.exp || is_some p.sig

-- The HMAC of a message under a key, and the hex codec of its tag.
pub record Mac : Type 0 where
  pub hmac : Text → Text → Text
  pub hex_encode : Text → Text
  pub hex_decode : Text → Option Text
  pub decode_encode : (b : Text) → hex_decode (hex_encode b) ≡ some b

-- The text that the tag covers: `openxet-xorb-fetch-v1|{hash}|{start}|{end}|{exp}`.
unfoldable pub mac_message : Text → ℕ → ℕ → ℕ → Text
mac_message hash start end exp =
    codes "openxet-xorb-fetch-v1|"
    ++ (hash ++ b'|' ∷ (decimal start ++ b'|' ∷ (decimal end ++ b'|' ∷ decimal exp)))

-- The `r` parameter, `{start}-{end}`.
unfoldable pub span_text : ℕ → ℕ → Text
span_text start end = decimal start ++ b'-' ∷ decimal end

-- `r.split_once('-')` with both halves parsed.
span_of_halves : Text × Text → Option (ℕ × ℕ)
span_of_halves (s, e) = elim (parse_u64 s) [
  | none ↦ none
  | some start ↦ elim (parse_u64 e) [ none ↦ none | some end ↦ some (start, end) ]
]

unfoldable pub parse_span : Text → Option (ℕ × ℕ)
unfolding span_of_halves
parse_span r = elim (split_once b'-' r) [ none ↦ none | some halves ↦ span_of_halves halves ]

abbrev pub invalid : AppError
invalid = AppError.unauthorized (codes "invalid or expired xorb fetch URL")

module _ (m : Mac) where
  unfoldable pub mac : Text → Text → ℕ → ℕ → ℕ → Text
  mac key hash start end exp = m.hmac key (mac_message hash start end exp)

  unfoldable pub signature : Text → Text → ℕ → ℕ → ℕ → Text
  signature key hash start end exp = m.hex_encode (mac key hash start end exp)

  unfoldable pub sign_xorb_url : Text → Text → Text → ℕ → ℕ → ℕ → Text
  sign_xorb_url key base_url hash start end exp =
      base_url
      ++ (codes "/v1/xorbs/default/"
          ++ (hash
              ++ (codes "?r="
                  ++ (span_text start end
                      ++ (codes "&exp="
                          ++ (decimal exp
                              ++ (codes "&sig=" ++ signature key hash start end exp)))))))

  verify_parts : Text → Text → Text → ℕ → Text → ℕ → Result AppError (ℕ × ℕ)
  verify_parts key hash r exp sig now = do
    span ← ok_or (parse_span r) invalid
    tag ← ok_or (m.hex_decode sig) invalid
    guard (eq_text (mac key hash span.0 span.1 exp) tag) invalid
    if ltb exp now then err invalid else ok span

  verify_fields : Text → Text → Option Text → Option ℕ → Option Text → ℕ → Result AppError (ℕ × ℕ)
  unfolding verify_parts
  verify_fields key hash (some r) (some exp) (some sig) now = verify_parts key hash r exp sig now
  verify_fields key hash _ _ _ now = err invalid

  unfoldable pub verify_xorb_url : Text → Text → XorbUrlParams → ℕ → Result AppError (ℕ × ℕ)
  unfolding verify_fields
  verify_xorb_url key hash params now = verify_fields key hash params.r params.exp params.sig now
