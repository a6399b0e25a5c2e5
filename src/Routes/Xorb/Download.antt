-- ===== src/Routes/Xorb/Download.antt =====
-- Who may read a xorb by its hash, and which bytes of it. Source: crates/server/src/routes/xorb.rs.
use openxet.Base.{
  >>=-eq-ok, Bool, Bool-cases, Option, Result-cases, arith, false, guard-eq-ok, inl, inr, leb, ltb,
  none, not, ok, ok-injective, refl, some, subst, true, ℕ, ◌%◌, ◌+◌, ◌<◌, ◌>>=◌, ◌≡◌, ◌≤◌, ◌⊎◌,
}
use openxet.Text.{Text}
use openxet.Text.Decimal.{u64_mod}
use openxet.Errors.{lift_storage, lift_storage-eq-ok}
use openxet.Hash.{validate_hash}
use openxet.Hash.{IsHash, validate_hash_iff}
use openxet.Auth.{Claims, admin}
use openxet.Auth.FetchUrl.{span_text, Mac, XorbUrlParams, is_signed, signature, verify_xorb_url}
use openxet.Auth.FetchUrl.Binding.{verify_xorb_url-sign, verify_xorb_url-binds}
use openxet.Auth.Middleware.{Tokens, Keys, HeaderMap, AuthConfig, authorize}
use openxet.Reconstruction.Range.{parse_range_header}
use openxet.Storage.{ObjectStore}
use openxet.Storage as Storage
use openxet.Routes.Xorb.{get_xorb, authorize_download, authorize_signed, read_span, in_span}

module _ {S : Type 0} (store : ObjectStore S) (m : Mac) (t : Tokens) (keys : Keys t.issuers) where
  -- What a download that succeeded was let through for.
  abbrev Granted :
      AuthConfig → Text → Text → XorbUrlParams → HeaderMap → ℕ → Option (ℕ × ℕ) → Type 0
  Granted auth key hash params headers now range =
      ((is_signed params ≡ false) × (c : Claims) × (authorize t keys headers auth admin ≡ ok c))
      ⊎ ((span : ℕ × ℕ) × (verify_xorb_url m key hash params now ≡ ok span)
          × (in_span range span ≡ true))

  authorize_download-Granted :
      (auth : AuthConfig) (key hash : Text) (params : XorbUrlParams) (headers : HeaderMap)
      (range : Option (ℕ × ℕ)) (now : ℕ)
      → auth.enabled ≡ true
      → authorize_download store m t keys auth key hash params headers range now ≡ ok tt
      → Granted auth key hash params headers now range
  unfolding authorize_download authorize_signed
  authorize_download-Granted auth key hash params headers range now on e =
      elim (Bool-cases (is_signed params)) [
        | inr unsigned ↦ elim (Result-cases (authorize t keys headers auth admin)) [
          | inl (c, a) ↦ inl (unsigned, c, a)
          | inr (x, a) ↦ absurd (ground (arith, on, unsigned, a, e))
        ]
        | inl signed ↦ elim (Result-cases (verify_xorb_url m key hash params now)) [
          | inr (x, a) ↦ absurd (ground (arith, on, signed, a, e))
          | inl (span, a) ↦ elim (Bool-cases (in_span range span)) [
            | inl i ↦ inr (span, a, i)
            | inr i ↦ absurd (ground (arith, on, signed, a, i, e))
          ]
        ]
      ]

  get_xorb-steps :
      (presigned : Bool) (auth : AuthConfig) (key hash : Text) (params : XorbUrlParams)
      (headers : HeaderMap) (now : ℕ) (s : S) (answer : ℕ × Text)
      → get_xorb store m t keys presigned auth key hash params headers now s ≡ ok answer
      → (range : Option (ℕ × ℕ)) × (presigned ≡ false)
        × (validate_hash hash ≡ ok tt)
        × (parse_range_header headers ≡ ok range)
        × (authorize_download store m t keys auth key hash params headers range now ≡ ok tt)
        × (read_span store m t keys hash range s ≡ ok answer)
  unfolding get_xorb
  get_xorb-steps presigned auth key hash params headers now s answer e =
      let (served, k0) = guard-eq-ok (not presigned) _ _ e in
      let (u, valid, k1) = >>=-eq-ok (lift_storage (validate_hash hash)) _ k0 in
      let (range, parsed, k2) = >>=-eq-ok (parse_range_header headers) _ k1 in
      let (v, authorized, k3) =
        >>=-eq-ok (authorize_download store m t keys auth key hash params headers range now) _ k2 in
      (
        range,
        ground (arith, served),
        lift_storage-eq-ok (validate_hash hash) valid,
        parsed,
        authorized,
        k3,
      )

  in_span-bounds :
      (range : Option (ℕ × ℕ)) (span : ℕ × ℕ)
      → in_span range span ≡ true
      → (r : ℕ × ℕ) × (range ≡ some r) × (span.0 ≤ r.0) × (r.1 ≤ span.1)
  unfolding in_span
  in_span-bounds none span e = cc
  in_span-bounds (some r) span e = (r, refl, ground (arith, e), ground (arith, e))

  read_span-range :
      (hash : Text) (r : ℕ × ℕ) (s : S) (answer : ℕ × Text)
      → read_span store m t keys hash (some r) s ≡ ok answer
      → (answer.0 ≡ 206)
        × (Storage.get_xorb_range store hash r.0 ((r.1 + 1) % u64_mod) s ≡ ok answer.1)
  unfolding read_span
  read_span-range hash r s answer e =
      let (bytes, a, b) =
        >>=-eq-ok (lift_storage (Storage.get_xorb_range store hash r.0 ((r.1 + 1) % u64_mod) s)) _
          e in
      subst
        (λ (x : ℕ × Text).
          (x.0 ≡ 206) × (Storage.get_xorb_range store hash r.0 ((r.1 + 1) % u64_mod) s ≡ ok x.1))
        (ok-injective b) (refl, lift_storage-eq-ok _ a)

  -- With authentication on, bytes of a xorb are served in two cases only: a request without signed
  -- parameters whose caller is authorized as an admin, and a request whose signed URL verifies for
  -- this xorb and whose Range header lies within the signed span, which is answered with status 206
  -- and those bytes. No backend with presigned URLs serves any.
  pub get_xorb_sound :
      (presigned : Bool) (auth : AuthConfig) (key hash : Text) (params : XorbUrlParams)
      (headers : HeaderMap) (now : ℕ) (s : S) (answer : ℕ × Text)
      → auth.enabled ≡ true
      → get_xorb store m t keys presigned auth key hash params headers now s ≡ ok answer
      → (presigned ≡ false)
        × (validate_hash hash ≡ ok tt)
        × (((is_signed params ≡ false)
              × (c : Claims) × (authorize t keys headers auth admin ≡ ok c))
            ⊎ ((span : ℕ × ℕ) × (r : ℕ × ℕ) × (verify_xorb_url m key hash params now ≡ ok span)
                × (parse_range_header headers ≡ ok (some r))
                × (span.0 ≤ r.0)
                × (r.1 ≤ span.1)
                × (answer.0 ≡ 206)
                × (Storage.get_xorb_range store hash r.0 ((r.1 + 1) % u64_mod) s ≡ ok answer.1)))
  get_xorb_sound presigned auth key hash params headers now s answer on e =
      let (range, served, valid, parsed, authorized, bytes) =
        get_xorb-steps presigned auth key hash params headers now s answer e in
      (
        served,
        valid,
        elim (authorize_download-Granted auth key hash params headers range now on authorized) [
          | inl (unsigned, c, a) ↦ inl (unsigned, c, a)
          | inr (span, a, i) ↦
              let (r, is, lo, hi) = in_span-bounds range span i in
              let (status, part) =
                read_span-range hash r s answer
                  (subst (λ x. read_span store m t keys hash x s ≡ ok answer) is bytes) in
              inr (
                span,
                r,
                a,
                subst (λ x. parse_range_header headers ≡ ok x) is parsed,
                lo,
                hi,
                status,
                part,
              )
        ],
      )

  -- With authentication on, and where the HMAC of this key tells messages apart, a request that
  -- carries the tag signed for one xorb, span and expiry is served only until that expiry, only of
  -- that xorb, and only the bytes of a range within that span.
  pub get_xorb-signed_span :
      (presigned : Bool) (auth : AuthConfig) (key hash hash' r : Text) (headers : HeaderMap)
      (exp exp' now start' end' : ℕ) (s : S) (answer : ℕ × Text)
      → auth.enabled ≡ true
      → IsHash hash'
      → exp < u64_mod
      → (start' < u64_mod) × (end' < u64_mod) × (exp' < u64_mod)
      → ((a b : Text) → m.hmac key a ≡ m.hmac key b → a ≡ b)
      → get_xorb store m t keys presigned auth key hash
          (record {
            r = some r;
            exp = some exp;
            sig = some (signature m key hash' start' end' exp');
          })
          headers
          now
          s
        ≡ ok answer
      → (now ≤ exp')
        × (a : ℕ) × (b : ℕ) × (start' ≤ a)
        × (b ≤ end')
        × (answer.0 ≡ 206)
        × (Storage.get_xorb_range store hash' a ((b + 1) % u64_mod) s ≡ ok answer.1)
  unfolding is_signed
  get_xorb-signed_span presigned auth key hash hash' r headers exp exp' now start' end' s answer on
        h' x b' tells e =
      let (served, valid, granted) =
        get_xorb_sound presigned auth key hash _ headers now s answer on e in
      elim granted [
        | inl (unsigned, c, a) ↦ absurd (ground (arith, unsigned))
        | inr (span, range, a, parsed, lo, hi, status, part) ↦
            let (same, first, last, stated, early) =
              verify_xorb_url-binds m key hash hash' r exp exp' now span.0 start' span.1 end'
                ((validate_hash_iff hash).0 valid) h' x b' tells a in
            (
              early,
              range.0,
              range.1,
              omega arith,
              omega arith,
              status,
              subst
                  (λ g.
                    Storage.get_xorb_range store g range.0 ((range.1 + 1) % u64_mod) s
                    ≡ ok answer.1)
                  same part,
            )
      ]

  -- A URL that was signed for a span of a xorb serves each range within that span until it expires,
  -- whether or not authentication is on: the answer is that of the store, with status 206.
  pub get_xorb-signature :
      (auth : AuthConfig) (key hash : Text) (headers : HeaderMap) (exp now start end : ℕ)
      (range : ℕ × ℕ) (s : S)
      → IsHash hash
      → start < u64_mod
      → end < u64_mod
      → now ≤ exp
      → parse_range_header headers ≡ ok (some range)
      → start ≤ range.0
      → range.1 ≤ end
      → get_xorb store m t keys false auth key hash
          (record {
            r = some (span_text start end);
            exp = some exp;
            sig = some (signature m key hash start end exp);
          })
          headers
          now
          s
        ≡ (lift_storage (Storage.get_xorb_range store hash range.0 ((range.1 + 1) % u64_mod) s)
            >>= λ bytes. ok (206, bytes))
  unfolding get_xorb authorize_download authorize_signed read_span is_signed in_span
  get_xorb-signature auth key hash headers exp now start end range s h a b early parsed low high =
      let valid = (validate_hash_iff hash).1 h in
      let early' : ltb exp now ≡ false = ground (arith, early) in
      let low' : leb start range.0 ≡ true = ground (arith, low) in
      let high' : leb range.1 end ≡ true = ground (arith, high) in
      elim (Bool-cases auth.enabled) [
        | inr off ↦ rw (valid, parsed, off) refl
        | inl on ↦
            rw
              (
                valid,
                parsed,
                on,
                verify_xorb_url-sign m key hash start end exp now a b,
                early',
                low',
                high',
              )
              refl
      ]
