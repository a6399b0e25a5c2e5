-- ===== src/Auth/Jwks.antt =====
-- The cache of the keys that issuers publish. Source: crates/server/src/auth/jwks.rs. Key sets, and
-- what the network answers at a time, are the parameter `Issuers`. Times are seconds on a clock that
-- does not go back, and the two reads of the clock in a lookup are one. The state also keeps the
-- requests that were made.
pub mod Throttle
pub mod Genuine
use openxet.Base.{
  Bool, List, Option, Result, [], any, err, false, if◌then◌else◌, leb, ltb, none, not, ok, ok_or,
  some, true, ℕ, ◌++◌, ◌-◌, ◌==◌, ◌∷◌,
}
use openxet.Text.{Text, codes, eq_text}

abbrev pub min_refresh_interval : ℕ
min_refresh_interval = 60

pub data JwksError : Type 0 where
  issuer_not_allowed : Text → JwksError
  unknown_kid : Text → JwksError
  fetch_failed : (issuer source : Text) → JwksError

pub print_error : JwksError → Text
print_error (issuer_not_allowed issuer) = codes "issuer not allowed: " ++ issuer
print_error (unknown_kid kid) = codes "unknown signing key (kid=" ++ (kid ++ codes ")")
print_error (fetch_failed issuer source) =
    codes "failed to fetch JWKS for " ++ (issuer ++ (codes ": " ++ source))

pub record Issuers : Type 1 where
  pub Jwk : Type 0
  pub JwkSet : Type 0
  pub find : JwkSet → Text → Option Jwk
  -- The `jwks_uri` of a discovery document, and the key set at a URL, at a time.
  pub get_discovery : ℕ → Text → Result Text Text
  pub get_jwks : ℕ → Text → Result Text JwkSet

-- `trim_end_matches('/')`
unfoldable pub trim_end_slashes : Text → Text
trim_end_slashes [] = []
trim_end_slashes (b ∷ s) =
    let rest = trim_end_slashes s in
    elim rest [ [] ↦ if b == b'/' then [] else b ∷ [] | c ∷ cs ↦ b ∷ c ∷ cs ]

unfoldable pub discovery_url : Text → Text
discovery_url issuer = trim_end_slashes issuer ++ codes "/.well-known/openid-configuration"

module _ (i : Issuers) where
  pub record CacheEntry : Type 0 where
    pub jwks : i.JwkSet
    pub fetched_at : ℕ

  pub record JwksCache : Type 0 where
    pub entries : List (Text × CacheEntry)
    pub requests : List Text

  unfoldable pub find_entry : Text → List (Text × CacheEntry) → Option CacheEntry
  find_entry issuer [] = none
  find_entry issuer ((k, e) ∷ entries) = elim (eq_text k issuer) [
    | true ↦ some e
    | false ↦ find_entry issuer entries
  ]

  -- What the cache says: the key, or whether the set is to be fetched.
  pub data Lookup : Type 0 where
    hit : i.Jwk → Lookup
    miss : (need_refresh : Bool) → Lookup

  unfoldable pub look_up : ℕ → ℕ → Text → Option CacheEntry → Lookup
  look_up ttl now kid none = miss true
  look_up ttl now kid (some e) =
      if ltb (now - e.fetched_at) ttl
      then elim (i.find e.jwks kid) [
        | some jwk ↦ hit jwk
        | none ↦ miss (leb min_refresh_interval (now - e.fetched_at))
      ]
      else miss true

  -- The answer, with the requests that were made, the newest first.
  fetch_set : ℕ → Text → Result Text Text → Result JwksError i.JwkSet × List Text
  fetch_set now issuer (err e) = (err (fetch_failed issuer e), discovery_url issuer ∷ [])
  fetch_set now issuer (ok uri) = elim (i.get_jwks now uri) [
    | err e ↦ (err (fetch_failed issuer e), uri ∷ discovery_url issuer ∷ [])
    | ok jwks ↦ (ok jwks, uri ∷ discovery_url issuer ∷ [])
  ]

  unfoldable pub fetch : ℕ → Text → Result JwksError i.JwkSet × List Text
  unfolding fetch_set
  fetch now issuer = fetch_set now issuer (i.get_discovery now (discovery_url issuer))

  -- `later` is the time at which the set is stored. A new entry goes in front of an old one.
  refresh : ℕ → ℕ → Text → Text → JwksCache → Result JwksError i.Jwk × JwksCache
  refresh now later issuer kid c =
      let (r, made) = fetch now issuer in
      elim r [
        | err e ↦ (err e, record c { requests = made ++ c.requests })
        | ok jwks ↦ (
          ok_or (i.find jwks kid) (unknown_kid kid),
          record {
            entries = (issuer, record { jwks = jwks; fetched_at = later }) ∷ c.entries;
            requests = made ++ c.requests;
          },
        )
      ]

  unfoldable pub key_for :
      List Text → ℕ → ℕ → ℕ → Text → Text → JwksCache → Result JwksError i.Jwk × JwksCache
  unfolding refresh
  key_for allowed_issuers ttl now later issuer kid c =
      if not (any (λ a. eq_text a issuer) allowed_issuers)
      then (err (issuer_not_allowed issuer), c)
      else elim (look_up ttl now kid (find_entry issuer c.entries)) [
        | hit jwk ↦ (ok jwk, c)
        | miss true ↦ refresh now later issuer kid c
        | miss false ↦ (err (unknown_kid kid), c)
      ]
