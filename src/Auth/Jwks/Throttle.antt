-- ===== src/Auth/Jwks/Throttle.antt =====
-- When the keys of an issuer are fetched. Source: `key_for` of crates/server/src/auth/jwks.rs.
use openxet.Base.{
  Bool, List, Option-cases, any, arith, inl, inr, min, ok_or, some, true, ℕ, ◌-◌, ◌<◌, ◌≡◌,
}
use openxet.Text.{Text, eq_text}
use openxet.Auth.Jwks.{
  Issuers, JwksCache, CacheEntry, unknown_kid, find_entry, look_up, key_for, min_refresh_interval,
}

module _ (i : Issuers) (allowed : List Text) (ttl : ℕ) where
  abbrev pub is_allowed : Text → Bool
  is_allowed issuer = any (λ a. eq_text a issuer) allowed

  -- A set that is young enough is used as it is: no request is made, and the cache stays.
  pub key_for-young :
      (now later : ℕ) (issuer kid : Text) (c : JwksCache i) (e : CacheEntry i)
      → is_allowed issuer ≡ true
      → find_entry i issuer c.entries ≡ some e
      → now - e.fetched_at < min ttl min_refresh_interval
      → key_for i allowed ttl now later issuer kid c
        ≡ (ok_or (i.find e.jwks kid) (unknown_kid kid), c)
  unfolding key_for look_up
  key_for-young now later issuer kid c e a f y = elim (Option-cases (i.find e.jwks kid)) [
    | inl q ↦ ground (arith, a, f, y, q)
    | inr (k, q) ↦ ground (arith, a, f, y, q)
  ]
