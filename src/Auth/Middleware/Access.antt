-- ===== src/Auth/Middleware/Access.antt =====
-- Who gets past `authorize`. Source: crates/server/src/auth/middleware.rs.
use openxet.Base.{
  >>=-eq-ok, Bool-cases, arith, false, inl, inr, ok, ok-injective, subst, sym, true, ◌>>=◌, ◌∙◌,
  ◌≡◌, ◌⊎◌,
}
use openxet.Text.{Text}
use openxet.Auth.{Scope, Claims, satisfies, admin-satisfies}
use openxet.Auth.Middleware.{
  Tokens, Keys, HeaderMap, AuthConfig, authorize, verify_token, extract_bearer_token, everyone,
  check_scope,
}

check_scope-eq-ok :
    (required : Scope) (c d : Claims)
    → check_scope required c ≡ ok d
    → (c ≡ d) × (satisfies c.scope required ≡ true)
unfolding check_scope
check_scope-eq-ok required c d e = ground arith

module _ (t : Tokens) (keys : Keys t.issuers) where
  authorize_on :
      (headers : HeaderMap) (auth : AuthConfig) (required : Scope)
      → auth.enabled ≡ true
      → authorize t keys headers auth required ≡ (
          extract_bearer_token headers >>= λ token.
          verify_token t keys auth token >>= λ claims. check_scope required claims)
  unfolding authorize
  authorize_on headers auth required on = rw on

  authorize_off :
      (headers : HeaderMap) (auth : AuthConfig) (required : Scope)
      → auth.enabled ≡ false
      → authorize t keys headers auth required ≡ ok everyone
  unfolding authorize
  authorize_off headers auth required off = rw off

  -- A caller that gets past the check has a scope that satisfies the required one. It is everyone
  -- where authentication is off, and otherwise the holder of a bearer token that verified.
  pub authorize_sound :
      (headers : HeaderMap) (auth : AuthConfig) (required : Scope) (c : Claims)
      → authorize t keys headers auth required ≡ ok c
      → (satisfies c.scope required ≡ true)
        × (((auth.enabled ≡ false) × (c ≡ everyone))
            ⊎ ((token : Text) × (extract_bearer_token headers ≡ ok token)
                × (verify_token t keys auth token ≡ ok c)))
  authorize_sound headers auth required c e = elim (Bool-cases auth.enabled) [
    | inl on ↦
        let (token, extracted, e') =
          >>=-eq-ok _ _ (sym (authorize_on headers auth required on) ∙ e) in
        let (claims, verified, checked) = >>=-eq-ok _ _ e' in
        let (same, enough) = check_scope-eq-ok required claims c checked in
        (
          subst (λ (x : Claims). satisfies x.scope required ≡ true) same enough,
          inr (token, extracted, subst (λ x. verify_token t keys auth token ≡ ok x) same verified),
        )
    | inr off ↦
        let same : everyone ≡ c =
          ok-injective (sym (authorize_off headers auth required off) ∙ e) in
        (
          subst (λ (x : Claims). satisfies x.scope required ≡ true) same
              (unfold everyone in admin-satisfies required),
          inl (off, sym same),
        )
  ]
