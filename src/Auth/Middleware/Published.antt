-- ===== src/Auth/Middleware/Published.antt =====
-- Which key verified a token. Source: `verify_token` of crates/server/src/auth/middleware.rs and
-- `key_for` of crates/server/src/auth/jwks.rs.
use openxet.Base.{
  >>=-eq-ok, Bool-cases, Option, Result, Result-cases, err, guard-eq-ok, inl, inr, none, ok,
  ok_or-eq-ok, refl, some, true, ◌≡◌, ◌⊎◌,
}
use openxet.Text.{Text}
use openxet.Errors.{AppError}
use openxet.Auth.{Claims, codes}
use openxet.Auth.Jwks.{JwksError}
use openxet.Auth.Jwks.Genuine.{IsGenuine, IsKeyOf, key_for-IsGenuine, key_for-IsKeyOf}
use openxet.Auth.Oidc.{OidcClaims, oidc_claims_to_app_claims}
use openxet.Auth.Middleware.{
  Algorithm, AuthConfig, Header, Keys, Tokens, asymmetric, hs256, is_enabled, is_allowed_issuer,
  keys_left, left_by_alg, left_by_header, left_by_issuer, left_by_kid, map_err, printed,
  resolve_key, unverified_issuer, verify_asymmetric, verify_by, verify_token,
}

map_err-eq-ok {ℓ} :
    {A : Type ℓ} (msg : Text) (r : Result Text A) {a : A} → map_err msg r ≡ ok a → r ≡ ok a
map_err-eq-ok msg (ok a) e = cc
map_err-eq-ok msg (err m) e = cc

printed-eq-ok {ℓ} : {A : Type ℓ} (r : Result JwksError A) {a : A} → printed r ≡ ok a → r ≡ ok a
printed-eq-ok (ok a) e = cc
printed-eq-ok (err m) e = cc

module _ (t : Tokens) (keys : Keys t.issuers) (auth : AuthConfig) (token : Text) where
  -- The token verified under a key that an allowed issuer published for its key id, and its claims
  -- are those that it carries.
  abbrev pub SignedByIssuer : Header → Claims → Type 0
  SignedByIssuer header c =
      (issuer : Text) × (kid : Text) × (jwk : t.issuers.Jwk) × (key : t.Key) × (oidc : OidcClaims)
      × (is_allowed_issuer auth issuer ≡ true)
      × (header.kid ≡ some kid)
      × IsKeyOf t.issuers issuer kid jwk
      × (t.from_jwk jwk ≡ ok key)
      × (t.decode_oidc token key header.alg issuer auth.oidc_audience ≡ ok oidc)
      × (oidc_claims_to_app_claims oidc auth.roles ≡ ok c)

  module _ (genuine : IsGenuine t.issuers keys.cache) where
    verify_asymmetric-SignedByIssuer :
        (header : Header) (c : Claims)
        → verify_asymmetric t keys auth token header ≡ ok c
        → SignedByIssuer header c
    unfolding verify_asymmetric resolve_key
    verify_asymmetric-SignedByIssuer header c e =
        let (_, e₂) = guard-eq-ok _ _ _ e in
        let (kid, has_kid, e₃) = >>=-eq-ok _ _ e₂ in
        let (issuer, _, e₄) = >>=-eq-ok (unverified_issuer t keys token header.alg) _ e₃ in
        let (allowed, e₅) = guard-eq-ok _ _ _ e₄ in
        let (jwk, resolved, e₆) =
          >>=-eq-ok
            (map_err (codes "key resolution failed: ")
              (printed (resolve_key t keys auth issuer kid).0))
            _ e₅ in
        let (key, has_key, e₇) =
          >>=-eq-ok (map_err (codes "invalid signing key: ") (t.from_jwk jwk)) _ e₆ in
        let (oidc, decoded, mapped) =
          >>=-eq-ok
            (map_err (codes "invalid token: ")
              (t.decode_oidc token key header.alg issuer auth.oidc_audience))
            (λ o. oidc_claims_to_app_claims o auth.roles) e₇ in
        let answered = printed-eq-ok (resolve_key t keys auth issuer kid).0 (
          map_err-eq-ok (codes "key resolution failed: ")
            (printed (resolve_key t keys auth issuer kid).0) resolved) in
        let (_, published) =
          key_for-IsKeyOf t.issuers auth.allowed_issuers keys.ttl keys.now keys.later issuer kid
            keys.cache genuine jwk answered in
        (
          issuer,
          kid,
          jwk,
          key,
          oidc,
          allowed,
          ok_or-eq-ok header.kid _ has_kid,
          published,
          map_err-eq-ok (codes "invalid signing key: ") (t.from_jwk jwk) has_key,
          map_err-eq-ok (codes "invalid token: ")
              (t.decode_oidc token key header.alg issuer auth.oidc_audience) decoded,
          mapped,
        )

    left_by_issuer-IsGenuine :
        (kid : Text) (issuer : Result AppError Text)
        → IsGenuine t.issuers (left_by_issuer t keys auth kid issuer)
    unfolding left_by_issuer resolve_key
    left_by_issuer-IsGenuine kid (err e) = genuine
    left_by_issuer-IsGenuine kid (ok issuer) = elim (Bool-cases (is_allowed_issuer auth issuer)) [
      | inr f ↦ rw (f, left_by_issuer) genuine
      | inl a ↦
          rw (a, left_by_issuer)
            (key_for-IsGenuine t.issuers auth.allowed_issuers keys.ttl keys.now keys.later issuer
              kid keys.cache genuine)
    ]

    left_by_kid-IsGenuine :
        (alg : Algorithm) (kid : Option Text)
        → IsGenuine t.issuers (left_by_kid t keys auth token alg kid)
    unfolding left_by_kid
    left_by_kid-IsGenuine alg none = genuine
    left_by_kid-IsGenuine alg (some kid) = left_by_issuer-IsGenuine kid _

    left_by_alg-IsGenuine :
        (header : Header) (alg : Algorithm)
        → IsGenuine t.issuers (left_by_alg t keys auth token header alg)
    unfolding left_by_alg
    left_by_alg-IsGenuine header hs256 = genuine
    left_by_alg-IsGenuine header (asymmetric name) = elim (Bool-cases (is_enabled auth)) [
      | inr f ↦ rw (f, left_by_alg) genuine
      | inl a ↦ rw (a, left_by_alg) (left_by_kid-IsGenuine header.alg header.kid)
    ]

    left_by_header-IsGenuine :
        (header : Result Text Header)
        → IsGenuine t.issuers (left_by_header t keys auth token header)
    unfolding left_by_header
    left_by_header-IsGenuine (err e) = genuine
    left_by_header-IsGenuine (ok header) = left_by_alg-IsGenuine header header.alg

    verify_by-cases :
        (header : Header) (alg : Algorithm) (c : Claims)
        → header.alg ≡ alg
        → verify_by t keys auth token header alg ≡ ok c
        → ((header.alg ≡ hs256) × (t.validate_token auth.fetch_token_secret token ≡ ok c))
          ⊎ SignedByIssuer header c
    unfolding verify_by
    verify_by-cases header hs256 c a e = inl (a, map_err-eq-ok (codes "invalid token: ") _ e)
    verify_by-cases header (asymmetric name) c a e =
        inr (verify_asymmetric-SignedByIssuer header c e)

    accepted :
        (c : Claims)
        → verify_token t keys auth token ≡ ok c
        → (header : Header) × (t.decode_header token ≡ ok header)
          × (((header.alg ≡ hs256) × (t.validate_token auth.fetch_token_secret token ≡ ok c))
              ⊎ SignedByIssuer header c)
    unfolding verify_token
    accepted c e =
        let (header, read, e') =
          >>=-eq-ok (map_err (codes "invalid token: ") (t.decode_header token)) _ e in
        (
          header,
          map_err-eq-ok (codes "invalid token: ") (t.decode_header token) read,
          verify_by-cases header header.alg c refl e',
        )

    -- Where the key cache holds only what issuers published, a token is refused, or it is an HS256 one
    -- that verified under the server's own secret, or its issuer is on the allow-list and its
    -- signature verified under a key that this issuer published for the token's key id, with the
    -- claims mapped from those it carries. Whichever of these, the cache that the call leaves again
    -- holds only what issuers published.
    pub verify_token-published :
        (((e : AppError) × (verify_token t keys auth token ≡ err e))
          ⊎ ((c : Claims) × (verify_token t keys auth token ≡ ok c)
              × (header : Header) × (t.decode_header token ≡ ok header)
              × (((header.alg ≡ hs256) × (t.validate_token auth.fetch_token_secret token ≡ ok c))
                  ⊎ SignedByIssuer header c)))
        × IsGenuine t.issuers (keys_left t keys auth token)
    unfolding keys_left
    verify_token-published = (
      elim (Result-cases (verify_token t keys auth token)) [
        | inl (c, e) ↦ let (header, read, how) = accepted c e in inr (c, e, header, read, how)
        | inr (e, q) ↦ inl (e, q)
      ],
      left_by_header-IsGenuine (t.decode_header token),
    )
