-- ===== src/Auth/Tests.antt =====
-- Keys, tokens and URLs, and the theorems about access at them.
use openxet.Base.{
  [], arith, err, false, if◌then◌else◌, ltb, none, ok, refl, some, true, ℕ, ◌∷◌, ◌≡◌, ◌≤◌, ◌⊎◌,
}
use openxet.Text.{Text, codes, eq_text, strip_prefix}
use openxet.Text.Decimal.{decimal, parse_u64, parse_u64-decimal}
use openxet.Errors.{AppError}
use openxet.Hash.{validate_hash, validate_hash_iff, IsHash}
use openxet.Auth.{Scope, Claims, satisfies, write}
use openxet.Auth.FetchUrl.{span_text, signature, verify_xorb_url, invalid}
use openxet.Auth.FetchUrl.Binding.{verify_xorb_url-sign, verify_xorb_url-binds}
use openxet.Auth.Oidc.{split_whitespace, no_roles, grants, has, oidc_claims_to_app_claims}
use openxet.Auth.Oidc.Grants.{role_of, oidc_claims_to_app_claims_sound}
use openxet.Auth.Middleware.{
  Header, hs256, keys_left, extract_bearer_token, verify_token, everyone, authorize,
}
use openxet.Auth.Middleware.Access.{authorize_sound}
use openxet.Auth.Middleware.Published.{SignedByIssuer, verify_token-published}
use openxet.Auth.Jwks.Genuine.{IsGenuine}
use openxet.Auth.Jwks.{key_for, look_up, fetch, find_entry}
use openxet.Auth.Samples.{
  hash_a, plain, key, roles, writer, provider, one_key, no_keys, keys, config, bearer,
}

parse_u64-decimal_example : parse_u64 (decimal 1203) ≡ some 1203
parse_u64-decimal_example = parse_u64-decimal 1203 (omega arith)

hash_a-IsHash : IsHash hash_a
unfolding validate_hash
hash_a-IsHash = (validate_hash_iff hash_a).0 refl

signed_url_verifies :
    verify_xorb_url plain key hash_a
      (record {
        r = some (span_text 2 9);
        exp = some 50;
        sig = some (signature plain key hash_a 2 9 50);
      })
      40
    ≡ (if ltb 50 40 then err invalid else ok (2, 9))
signed_url_verifies = verify_xorb_url-sign plain key hash_a 2 9 50 40 (omega arith) (omega arith)

verify_xorb_url-binds_example :
    (hash_a ≡ hash_a) × (◌≡◌ {A = ℕ} 2 2) × (◌≡◌ {A = ℕ} 9 9) × (◌≡◌ {A = ℕ} 50 50) × (40 ≤ 50)
verify_xorb_url-binds_example =
    verify_xorb_url-binds plain key hash_a hash_a (span_text 2 9) 50 50 40 2 2 9 9 hash_a-IsHash
      hash_a-IsHash (omega arith) (omega arith, omega arith, omega arith) (λ a b e. e)
      signed_url_verifies

writer-has : has (grants writer) (codes "w") ≡ true
unfolding has grants eq_text split_whitespace
writer-has = refl

oidc_claims_to_app_claims_sound_example :
    ((c : Claims) × (oidc_claims_to_app_claims writer roles ≡ ok c)
      × ((has (grants writer) (role_of roles c.scope) ≡ true)
          ⊎ (((s : Scope) → has (grants writer) (role_of roles s) ≡ false)
              × (roles.oidc_default_scope ≡ some c.scope))))
    ⊎ (((s : Scope) → has (grants writer) (role_of roles s) ≡ false)
        × (roles.oidc_default_scope ≡ none)
        × (oidc_claims_to_app_claims writer roles ≡ err (AppError.forbidden (no_roles roles))))
oidc_claims_to_app_claims_sound_example = oidc_claims_to_app_claims_sound writer roles

abbrev writer_claims : Claims
writer_claims = record { scope = write; repo = []; exp = 99; sub = codes "u" }

writer_verifies : verify_token provider keys config (codes "t") ≡ ok writer_claims
unfolding verify_token oidc_claims_to_app_claims eq_text grants has split_whitespace key_for look_up
    fetch find_entry
writer_verifies = refl

writer_passes : authorize provider keys bearer config write ≡ ok writer_claims
unfolding authorize verify_token oidc_claims_to_app_claims eq_text grants has satisfies
    extract_bearer_token strip_prefix split_whitespace key_for look_up fetch find_entry
writer_passes = refl

authorize_sound_example :
    (satisfies write write ≡ true)
    × (((true ≡ false) × (writer_claims ≡ everyone))
        ⊎ ((token : Text) × (extract_bearer_token bearer ≡ ok token)
            × (verify_token provider keys config token ≡ ok writer_claims)))
authorize_sound_example =
    authorize_sound provider keys bearer config write writer_claims writer_passes

-- Tokens of the provider are signed with the one key that its issuer published.
verify_token-published_example :
    (((e : AppError) × (verify_token provider keys config (codes "t") ≡ err e))
      ⊎ ((c : Claims) × (verify_token provider keys config (codes "t") ≡ ok c)
          × (header : Header) × (provider.decode_header (codes "t") ≡ ok header)
          × (((header.alg ≡ hs256)
                × (provider.validate_token config.fetch_token_secret (codes "t") ≡ ok c))
              ⊎ SignedByIssuer provider keys config (codes "t") header c)))
    × IsGenuine one_key (keys_left provider keys config (codes "t"))
verify_token-published_example = verify_token-published provider keys config (codes "t") tt

-- The first call of a server fetches the keys.
first_fetch :
    (key_for one_key
      (codes "iss" ∷ [])
      300
      1000
      1001
      (codes "iss")
      (codes "kid")
      no_keys).1.requests
    ≡ (fetch one_key 1000 (codes "iss")).1
unfolding key_for look_up fetch find_entry eq_text
first_fetch = refl
