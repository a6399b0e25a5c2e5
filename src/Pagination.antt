-- ===== src/Pagination.antt =====
-- Cursor pagination of the management lists. Source: crates/server/src/pagination.rs.
-- The base64 codec is another crate's and is the parameter `Base64`.
pub mod Utf8
pub mod Walk
use openxet.Base.{
  Bool, List, Option, Result, [], false, if◌then◌else◌, length, ltb, map, none, ok, ok_or, some,
  take, true, ℕ, ◌>>=◌, ◌>>◌, ◌∷◌, ◌≡◌, ◌≢◌,
}
use mathlib.Core.Option
use openxet.Text.{Text, codes}
use openxet.Errors.{AppError}
use openxet.Pagination.Utf8.{from_utf8}

abbrev pub default_limit : ℕ
default_limit = 100

abbrev pub max_limit : ℕ
max_limit = 1000

-- `limit.unwrap_or(DEFAULT_LIMIT).clamp(1, MAX_LIMIT)`
abbrev unwrap_or {ℓ} : {A : Type ℓ} → Option A → A → A
unwrap_or none d = d
unwrap_or (some a) d = a

clamp : ℕ → ℕ → ℕ → ℕ
clamp lo hi x = if ltb x lo then lo else if ltb hi x then hi else x

unfoldable pub clamp_limit : Option ℕ → ℕ
unfolding clamp
clamp_limit limit = clamp 1 max_limit (unwrap_or limit default_limit)

-- URL-safe base64 without padding, on bytes.
pub record Base64 : Type 0 where
  pub encode : Text → Text
  pub decode : Text → Option Text
  pub decode_encode : (b : Text) → decode (encode b) ≡ some b
  pub encode_nonempty : (b : Text) → b ≢ [] → encode b ≢ []

-- One page of results, and the cursor of the next page if there is one.
pub record Page (T : Type 0) : Type 0 where
  pub items : List T
  pub next_cursor : Option Text

get_last? : {T : Type 0} → List T → Option T
get_last? [] = none
get_last? (x ∷ []) = some x
get_last? (x ∷ y ∷ xs) = get_last? (y ∷ xs)

module _ (b : Base64) where
  unfoldable pub encode_cursor : Text → Text
  encode_cursor key = b.encode key

  abbrev invalid_cursor : AppError
  invalid_cursor = AppError.bad_request (codes "invalid cursor")

  unfoldable pub decode_cursor : Text → Result AppError Text
  decode_cursor cursor = do
    bytes ← ok_or (b.decode cursor) invalid_cursor
    ok_or (from_utf8 bytes) invalid_cursor

  unfoldable pub cursor_after : Option Text → Result AppError (Option Text)
  unfolding decode_cursor
  cursor_after none = ok none
  cursor_after (some c) = decode_cursor c >>= λ key. ok (some key)

  module _ {T : Type 0} where
    -- The cursor of the last row that is kept, where rows remain.
    next_of : Bool → List T → (T → Text) → Option Text
    unfolding encode_cursor
    next_of false rows key_of = none
    next_of true rows key_of = Option.map (λ row. encode_cursor (key_of row)) (get_last? rows)

    unfoldable pub from_overfetched : List T → ℕ → (T → Text) → Page T
    unfolding next_of get_last?
    from_overfetched rows limit key_of =
        let has_more = ltb limit (length rows) in
        let kept = if has_more then take limit rows else rows in
        record { items = kept; next_cursor = next_of has_more kept key_of }
