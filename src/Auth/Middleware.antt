-- ===== src/Auth/Middleware.antt =====
-- Bearer tokens and the scope check in front of every handler.
-- Source: crates/server/src/auth/middleware.rs. The `http` and `jsonwebtoken` calls are the parameter
-- `Tokens`; a header is absent, present but not visible ASCII, or a text. The keys of issuers come
-- from the cache of Auth/Jwks: `Keys` is what a call finds there, `keys_left` what it leaves.
pub mod Access
pub mod Published
pub mod Refusals
use openxet.Base.{
  Bool, List, Option, Result, [], any, err, false, guard, if◌then◌else◌, none, not, ok, ok_or, some,
  true, ℕ, ◌++◌, ◌-◌, ◌>>=◌, ◌>>◌, ◌^◌, ◌∷◌,
}
use openxet.Text.{Text, codes, strip_prefix, eq_text, is_empty}
use openxet.Errors.{AppError}
use openxet.Auth.{Scope, read, write, admin, Claims, satisfies, as_str}
use openxet.Auth.Jwks.{Issuers, JwksCache, JwksError, key_for, print_error}
use openxet.Auth.Oidc.{RoleConfig, OidcClaims, oidc_claims_to_app_claims}

abbrev pub HeaderMap : Type 0
HeaderMap = Text → Option (Option Text)

-- The part of `AppConfig.auth` and of the JWKS allow-list that is read here.
pub record AuthConfig : Type 0 where
  pub enabled : Bool
  pub roles : RoleConfig
  pub oidc_audience : Option Text
  pub allowed_issuers : List Text
  pub fetch_token_secret : Text

-- The algorithm of a token header, as far as the code tells algorithms apart.
pub data Algorithm : Type 0 where
  hs256 : Algorithm
  asymmetric : Text → Algorithm

pub record Header : Type 0 where
  pub alg : Algorithm
  pub kid : Option Text

-- What other crates answer about a token, and the issuers behind the key cache. A failure carries the
-- printed error; `from_jwk` is `DecodingKey::from_jwk`.
pub record Tokens : Type 1 where
  pub issuers : Issuers
  pub Key : Type 0
  pub decode_header : Text → Result Text Header
  pub validate_token : (secret token : Text) → Result Text Claims
  pub decode_issuer : Text → Algorithm → Result Text Text
  pub from_jwk : issuers.Jwk → Result Text Key
  pub decode_oidc :
      Text → Key → Algorithm → (issuer : Text) → (audience : Option Text) → Result Text OidcClaims

-- The key cache as a call finds it, with its time to live, the time of the call and the time at
-- which a set that is fetched is stored.
pub record Keys (i : Issuers) : Type 0 where
  pub cache : JwksCache i
  pub ttl : ℕ
  pub now : ℕ
  pub later : ℕ

abbrev printed {ℓ} : {A : Type ℓ} → Result JwksError A → Result Text A
printed (ok a) = ok a
printed (err e) = err (print_error e)

abbrev map_err {ℓ} : {A : Type ℓ} → Text → Result Text A → Result AppError A
map_err msg (ok a) = ok a
map_err msg (err e) = err (AppError.unauthorized (msg ++ e))

bearer_of_value : Option Text → Result AppError Text
bearer_of_value none = err (AppError.unauthorized (codes "invalid authorization header"))
bearer_of_value (some header) =
    ok_or (strip_prefix (codes "Bearer ") header)
      (AppError.unauthorized (codes "invalid authorization header format"))

bearer_of : Option (Option Text) → Result AppError Text
unfolding bearer_of_value
bearer_of none = err (AppError.unauthorized (codes "missing authorization header"))
bearer_of (some header) = bearer_of_value header

unfoldable pub extract_bearer_token : HeaderMap → Result AppError Text
unfolding bearer_of
extract_bearer_token headers = bearer_of (headers (codes "authorization"))

is_enabled : AuthConfig → Bool
unfolding is_empty
is_enabled auth = elim auth.allowed_issuers [ [] ↦ false | i ∷ is ↦ true ]

unfoldable pub is_allowed_issuer : AuthConfig → Text → Bool
is_allowed_issuer auth issuer = any (λ i. eq_text i issuer) auth.allowed_issuers

-- The claims of every caller while authentication is off; `usize::MAX` on a 64-bit machine.
pub everyone : Claims
everyone = record { scope = admin; repo = []; exp = 2 ^ 64 - 1; sub = [] }

insufficient : Scope → AppError
insufficient required =
    AppError.forbidden (codes "insufficient scope: " ++ (as_str required ++ codes " required"))

check_scope : Scope → Claims → Result AppError Claims
check_scope required claims =
    if not (satisfies claims.scope required) then err (insufficient required) else ok claims

module _ (t : Tokens) (keys : Keys t.issuers) where
  -- `key_for` of Auth/Jwks: the answer, and the cache that it leaves.
  resolve_key :
      AuthConfig → (issuer kid : Text) → Result JwksError t.issuers.Jwk × JwksCache t.issuers
  resolve_key auth issuer kid =
      key_for t.issuers auth.allowed_issuers keys.ttl keys.now keys.later issuer kid keys.cache

  unverified_issuer : Text → Algorithm → Result AppError Text
  unverified_issuer token alg = map_err (codes "invalid token: ") (t.decode_issuer token alg)

  verify_asymmetric : AuthConfig → Text → Header → Result AppError Claims
  unfolding unverified_issuer is_enabled is_allowed_issuer resolve_key
  verify_asymmetric auth token header = do
    guard (is_enabled auth)
        (AppError.unauthorized (codes "asymmetric tokens require OIDC to be configured"))
    kid ← ok_or header.kid (AppError.unauthorized (codes "token missing kid"))
    issuer ← unverified_issuer token header.alg
    guard (is_allowed_issuer auth issuer)
        (AppError.unauthorized (codes "issuer not allowed: " ++ issuer))
    jwk ← map_err (codes "key resolution failed: ") (printed (resolve_key auth issuer kid).0)
    key ← map_err (codes "invalid signing key: ") (t.from_jwk jwk)
    oidc ←
        map_err (codes "invalid token: ")
          (t.decode_oidc token key header.alg issuer auth.oidc_audience)
    oidc_claims_to_app_claims oidc auth.roles

  verify_by : AuthConfig → Text → Header → Algorithm → Result AppError Claims
  unfolding verify_asymmetric
  verify_by auth token header hs256 =
      map_err (codes "invalid token: ") (t.validate_token auth.fetch_token_secret token)
  verify_by auth token header (asymmetric name) = verify_asymmetric auth token header

  unfoldable pub verify_token : AuthConfig → Text → Result AppError Claims
  unfolding verify_by
  verify_token auth token = do
    header ← map_err (codes "invalid token: ") (t.decode_header token)
    verify_by auth token header header.alg

  -- The cache that `verify_token` leaves: a key is looked for only once its issuer is allowed.
  left_by_issuer : AuthConfig → Text → Result AppError Text → JwksCache t.issuers
  unfolding resolve_key is_allowed_issuer
  left_by_issuer auth kid (err e) = keys.cache
  left_by_issuer auth kid (ok issuer) =
      if is_allowed_issuer auth issuer then (resolve_key auth issuer kid).1 else keys.cache

  left_by_kid : AuthConfig → Text → Algorithm → Option Text → JwksCache t.issuers
  unfolding left_by_issuer unverified_issuer
  left_by_kid auth token alg none = keys.cache
  left_by_kid auth token alg (some kid) = left_by_issuer auth kid (unverified_issuer token alg)

  left_by_alg : AuthConfig → Text → Header → Algorithm → JwksCache t.issuers
  unfolding left_by_kid is_enabled
  left_by_alg auth token header hs256 = keys.cache
  left_by_alg auth token header (asymmetric name) =
      if is_enabled auth then left_by_kid auth token header.alg header.kid else keys.cache

  left_by_header : AuthConfig → Text → Result Text Header → JwksCache t.issuers
  unfolding left_by_alg
  left_by_header auth token (err e) = keys.cache
  left_by_header auth token (ok header) = left_by_alg auth token header header.alg

  unfoldable pub keys_left : AuthConfig → Text → JwksCache t.issuers
  unfolding left_by_header
  keys_left auth token = left_by_header auth token (t.decode_header token)

  unfoldable pub authorize : HeaderMap → AuthConfig → Scope → Result AppError Claims
  unfolding check_scope insufficient everyone
  authorize headers auth required = if not auth.enabled then ok everyone else do
    token ← extract_bearer_token headers
    claims ← verify_token auth token
    check_scope required claims

  -- The three extractors.
  unfoldable pub require_read : HeaderMap → AuthConfig → Result AppError Claims
  require_read headers auth = authorize headers auth read

  unfoldable pub require_write : HeaderMap → AuthConfig → Result AppError Claims
  require_write headers auth = authorize headers auth write

  unfoldable pub require_admin : HeaderMap → AuthConfig → Result AppError Claims
  require_admin headers auth = authorize headers auth admin
