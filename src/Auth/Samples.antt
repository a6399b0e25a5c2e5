-- ===== src/Auth/Samples.antt =====
-- A code, a token provider and a configuration, for the tests. They stand in for the crates that
-- crates/server/src/auth calls.
use openxet.Base.{[], err, if◌then◌else◌, none, ok, refl, some, true, ◌∷◌}
use openxet.Text.{Text, codes, eq_text}
use openxet.Auth.FetchUrl.{Mac}
use openxet.Auth.Oidc.{null, string, OidcClaims, RoleConfig}
use openxet.Auth.Middleware.{HeaderMap, AuthConfig, Tokens, Keys, asymmetric}
use openxet.Auth.Jwks.{Issuers, JwksCache}

abbrev pub hash_a : Text
hash_a = codes "00000000000000000000000000000000000000000000000000000000000000aa"

-- A code that is its message.
abbrev pub plain : Mac
plain = record {
  hmac = λ key message. message;
  hex_encode = λ b. b;
  hex_decode = λ s. some s;
  decode_encode = λ b. refl;
}

abbrev pub key : Text
key = codes "k"

abbrev pub roles : RoleConfig
roles = record {
  oidc_read_role = codes "r";
  oidc_write_role = codes "w";
  oidc_admin_role = codes "a";
  oidc_default_scope = none;
}

-- A token whose `scope` names the writer's role.
abbrev pub writer : OidcClaims
writer = record {
  exp = 99;
  sub = codes "u";
  scope = string (codes "w");
  roles = null;
  realm_access = null;
  resource_access = null;
}

-- An issuer with one key, which is its name.
abbrev pub one_key : Issuers
one_key = record {
  Jwk = Text;
  JwkSet = Text;
  find = λ keys kid. if eq_text keys kid then some keys else none;
  get_discovery = λ now url. ok (codes "uri");
  get_jwks = λ now uri. ok (codes "kid");
}

abbrev pub no_keys : JwksCache one_key
no_keys = record { entries = []; requests = [] }

-- A provider that knows the one token.
abbrev pub provider : Tokens
provider = record {
  issuers = one_key;
  Key = Unit {0};
  decode_header =
      λ token. ok (record { alg = asymmetric (codes "RS256"); kid = some (codes "kid") });
  validate_token = λ secret token. err (codes "no");
  decode_issuer = λ token alg. ok (codes "iss");
  from_jwk = λ jwk. ok tt;
  decode_oidc = λ token k alg issuer audience. ok writer;
}

-- Nothing was fetched yet.
abbrev pub keys : Keys one_key
keys = record { cache = no_keys; ttl = 300; now = 1000; later = 1001 }

abbrev pub config : AuthConfig
config = record {
  enabled = true;
  roles = roles;
  oidc_audience = none;
  allowed_issuers = codes "iss" ∷ [];
  fetch_token_secret = codes "s";
}

abbrev pub bearer : HeaderMap
bearer name = some (some (codes "Bearer t"))
