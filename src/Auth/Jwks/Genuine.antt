-- ===== src/Auth/Jwks/Genuine.antt =====
-- Where the keys that `key_for` answers come from. Source: crates/server/src/auth/jwks.rs.
use openxet.Base.{
  All, Bool-cases, List, Option, Result-cases, [], any, arith, false, inl, inr, none, ok,
  ok_or-eq-ok, refl, some, subst, true, ℕ, ◌∷◌, ◌≡◌,
}
use openxet.Text.{Text, eq_text, eq_text_iff}
use openxet.Auth.Jwks.{
  CacheEntry, Issuers, JwksCache, Lookup, fetch, find_entry, hit, key_for, look_up, miss, refresh,
  unknown_kid,
}

module _ (i : Issuers) where
  -- A key set is one that the issuer answered with at some time.
  abbrev pub IsPublished : Text → i.JwkSet → Type 0
  IsPublished issuer jwks = (time : ℕ) × ((fetch i time issuer).0 ≡ ok jwks)

  -- Every set of the cache was published by the issuer under whose name it stands.
  abbrev pub IsGenuine : JwksCache i → Type 0
  IsGenuine c = All (λ e. IsPublished e.0 e.1.jwks) c.entries

  -- A key that the issuer published under a key id.
  abbrev pub IsKeyOf : Text → Text → i.Jwk → Type 0
  IsKeyOf issuer kid jwk =
      (jwks : i.JwkSet) × IsPublished issuer jwks × (i.find jwks kid ≡ some jwk)

  find_entry-IsPublished :
      (issuer : Text) (entries : List (Text × CacheEntry i)) (e : CacheEntry i)
      → All (λ e. IsPublished e.0 e.1.jwks) entries
      → find_entry i issuer entries ≡ some e
      → IsPublished issuer e.jwks
  unfolding find_entry
  find_entry-IsPublished issuer [] e a q = cc
  find_entry-IsPublished issuer ((k, d) ∷ entries) e (a, as') q =
      elim (Bool-cases (eq_text k issuer)) [
        | inl t ↦
            let f : d ≡ e = ground (arith, q, t) in
            subst (λ x. IsPublished x e.jwks) ((eq_text_iff k issuer).0 t)
              (subst (λ (x : CacheEntry i). IsPublished k x.jwks) f a)
        | inr t ↦ find_entry-IsPublished issuer entries e as' (ground (arith, q, t))
      ]

  look_up-hit :
      (ttl now : ℕ) (kid : Text) (found : Option (CacheEntry i)) (jwk : i.Jwk)
      → look_up i ttl now kid found ≡ hit jwk
      → (e : CacheEntry i) × (found ≡ some e) × (i.find e.jwks kid ≡ some jwk)
  unfolding look_up
  look_up-hit ttl now kid none jwk q = cc
  look_up-hit ttl now kid (some e) jwk q = (e, refl, ground (arith, q))

  refresh-IsGenuine :
      (now later : ℕ) (issuer kid : Text) (c : JwksCache i)
      → IsGenuine c
      → IsGenuine (refresh i now later issuer kid c).1
  unfolding refresh
  refresh-IsGenuine now later issuer kid c g = elim (Result-cases (fetch i now issuer).0) [
    | inl (jwks, q) ↦ rw (q, refresh) ((now, q), g)
    | inr (e, q) ↦ rw (q, refresh) g
  ]

  refresh-IsKeyOf :
      (now later : ℕ) (issuer kid : Text) (c : JwksCache i) (jwk : i.Jwk)
      → (refresh i now later issuer kid c).0 ≡ ok jwk
      → IsKeyOf issuer kid jwk
  unfolding refresh
  refresh-IsKeyOf now later issuer kid c jwk e = elim (Result-cases (fetch i now issuer).0) [
    | inl (jwks, q) ↦
        (jwks, (now, q), ok_or-eq-ok (i.find jwks kid) (unknown_kid kid) (ground (arith, q, e)))
    | inr (bad, q) ↦ absurd (ground (arith, q, e))
  ]

  module _ (allowed : List Text) (ttl now later : ℕ) (issuer kid : Text) (c : JwksCache i)
      (g : IsGenuine c) where
    looked-IsGenuine :
        (l : Lookup i)
        → look_up i ttl now kid (find_entry i issuer c.entries) ≡ l
        → any (λ a. eq_text a issuer) allowed ≡ true
        → IsGenuine (key_for i allowed ttl now later issuer kid c).1
    unfolding key_for
    looked-IsGenuine (hit k) q t = rw (t, q) g
    looked-IsGenuine (miss true) q t = rw (t, q) (refresh-IsGenuine now later issuer kid c g)
    looked-IsGenuine (miss false) q t = rw (t, q) g

    pub key_for-IsGenuine : IsGenuine (key_for i allowed ttl now later issuer kid c).1
    unfolding key_for
    key_for-IsGenuine = elim (Bool-cases (any (λ a. eq_text a issuer) allowed)) [
      | inr f ↦ rw f g
      | inl t ↦ looked-IsGenuine (look_up i ttl now kid (find_entry i issuer c.entries)) refl t
    ]

    looked-IsKeyOf :
        (l : Lookup i) (jwk : i.Jwk)
        → look_up i ttl now kid (find_entry i issuer c.entries) ≡ l
        → any (λ a. eq_text a issuer) allowed ≡ true
        → (key_for i allowed ttl now later issuer kid c).0 ≡ ok jwk
        → IsKeyOf issuer kid jwk
    unfolding key_for
    looked-IsKeyOf (hit k) jwk q t e =
        let (d, found, key) = look_up-hit ttl now kid (find_entry i issuer c.entries) k q in
        (d.jwks, find_entry-IsPublished issuer c.entries d g found, ground (arith, key, q, t, e))
    looked-IsKeyOf (miss true) jwk q t e =
        refresh-IsKeyOf now later issuer kid c jwk (ground (arith, q, t, e))
    looked-IsKeyOf (miss false) jwk q t e = absurd (ground (arith, q, t, e))

    -- A key that is answered, from the cache or from a fetch, is one that the issuer published under
    -- this key id, and the issuer is allowed.
    pub key_for-IsKeyOf :
        (jwk : i.Jwk)
        → (key_for i allowed ttl now later issuer kid c).0 ≡ ok jwk
        → (any (λ a. eq_text a issuer) allowed ≡ true) × IsKeyOf issuer kid jwk
    unfolding key_for
    key_for-IsKeyOf jwk e = elim (Bool-cases (any (λ a. eq_text a issuer) allowed)) [
      | inr f ↦ absurd (ground (arith, f, e))
      | inl t ↦
          (t, looked-IsKeyOf (look_up i ttl now kid (find_entry i issuer c.entries)) jwk refl t e)
    ]
