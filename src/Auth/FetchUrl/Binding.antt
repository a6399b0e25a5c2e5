-- ===== src/Auth/FetchUrl/Binding.antt =====
-- What a fetch URL grants: what was signed, all of it, and nothing else.
use openxet.Base.{
  Option, Option-cases, ap, arith, err, if◌then◌else◌, inl, inr, ltb, ok, refl, some, subst, sym, ℕ,
  ◌++◌, ◌<◌, ◌∙◌, ◌∷◌, ◌≡◌, ◌≤◌,
}
use openxet.Text.{
  Text, codes, split_once, split_once-append, split_unique, eq_text_iff, strip_prefix,
  strip_prefix-append,
}
use openxet.Text.Decimal.{
  decimal, decimal-ne, decimal_injective, parse_u64-decimal, parse_u64-lt, u64_mod,
}
use openxet.Hash.{IsHash, All-IsHexByte-ne}
use openxet.Auth.FetchUrl.{
  Mac, mac_message, span_text, parse_span, mac, signature, verify_xorb_url, verify_parts, invalid,
  span_of_halves,
}

parse_span-span_text :
    (start end : ℕ)
    → start < u64_mod
    → end < u64_mod
    → parse_span (span_text start end) ≡ some (start, end)
unfolding parse_span span_text
parse_span-span_text start end h k =
    rw
      (
        split_once-append b'-' (decimal start) (decimal end) (decimal-ne b'-' start (omega arith)),
        parse_span,
      )
      (rw (parse_u64-decimal start h, parse_u64-decimal end k, span_of_halves))

span_of_halves-lt :
    (s e : Text) (a b : ℕ) → span_of_halves (s, e) ≡ some (a, b) → (a < u64_mod) × (b < u64_mod)
unfolding span_of_halves
span_of_halves-lt s e a b h = (ground (arith, parse_u64-lt s a), ground (arith, parse_u64-lt e b))

parse_span-lt : (r : Text) (a b : ℕ) → parse_span r ≡ some (a, b) → (a < u64_mod) × (b < u64_mod)
unfolding parse_span
parse_span-lt r a b h = elim (Option-cases (split_once b'-' r)) [
  | inl missing ↦ absurd (ground arith)
  | inr ((s, e), found) ↦ span_of_halves-lt s e a b (ground arith)
]

-- The encoding under the tag is unambiguous: two messages over valid hashes and 64-bit numbers are
-- equal only if the hash, both ends of the span and the expiry are.
pub mac_message_injective :
    (hash hash' : Text) (start start' end end' exp exp' : ℕ)
    → IsHash hash
    → IsHash hash'
    → (start < u64_mod) × (end < u64_mod) × (exp < u64_mod)
    → (start' < u64_mod) × (end' < u64_mod) × (exp' < u64_mod)
    → mac_message hash start end exp ≡ mac_message hash' start' end' exp'
    → (hash ≡ hash') × (start ≡ start') × (end ≡ end') × (exp ≡ exp')
unfolding mac_message
mac_message_injective hash hash' start start' end end' exp exp' v v' b b' e =
    (by_hash.0, same_start, same_end, same_exp)
  where
    label : Text
    label = codes "openxet-xorb-fetch-v1|"

    stripped :
        ◌≡◌ {A = Option Text}
          (some (hash ++ b'|' ∷ (decimal start ++ b'|' ∷ (decimal end ++ b'|' ∷ decimal exp))))
          (some (hash' ++ b'|' ∷ (decimal start' ++ b'|' ∷ (decimal end' ++ b'|' ∷ decimal exp'))))
    stripped =
        sym (strip_prefix-append label _) ∙ ap (strip_prefix label) e ∙ strip_prefix-append label _

    by_hash :
        (hash ≡ hash')
        × (decimal start ++ b'|' ∷ (decimal end ++ b'|' ∷ decimal exp)
            ≡ decimal start' ++ b'|' ∷ (decimal end' ++ b'|' ∷ decimal exp'))
    by_hash =
        split_unique b'|' hash hash' _ _ (All-IsHexByte-ne b'|' hash (ground arith) v.1)
          (All-IsHexByte-ne b'|' hash' (ground arith) v'.1) cc

    by_start :
        (decimal start ≡ decimal start')
        × (decimal end ++ b'|' ∷ decimal exp ≡ decimal end' ++ b'|' ∷ decimal exp')
    by_start =
        split_unique b'|' (decimal start) (decimal start') _ _ (decimal-ne b'|' start (omega arith))
          (decimal-ne b'|' start' (omega arith)) by_hash.1

    by_end : (decimal end ≡ decimal end') × (decimal exp ≡ decimal exp')
    by_end =
        split_unique b'|' (decimal end) (decimal end') _ _ (decimal-ne b'|' end (omega arith))
          (decimal-ne b'|' end' (omega arith)) by_start.1

    same_start : start ≡ start'
    same_start = decimal_injective start start' b.0 b'.0 by_start.0

    same_end : end ≡ end'
    same_end = decimal_injective end end' b.1 b'.1 by_end.0

    same_exp : exp ≡ exp'
    same_exp = decimal_injective exp exp' b.2 b'.2 by_end.1

module _ (m : Mac) where
  -- The parameters of a URL that was signed for a span verify, and give that span back, up to the
  -- second of the expiry; past it they are refused.
  pub verify_xorb_url-sign :
      (key hash : Text) (start end exp now : ℕ)
      → start < u64_mod
      → end < u64_mod
      → verify_xorb_url m key hash
          (record {
            r = some (span_text start end);
            exp = some exp;
            sig = some (signature m key hash start end exp);
          })
          now
        ≡ (if ltb exp now then err invalid else ok (start, end))
  unfolding verify_xorb_url signature
  verify_xorb_url-sign key hash start end exp now h k =
      rw (parse_span-span_text start end h k, m.decode_encode (mac m key hash start end exp))
        (rw ((eq_text_iff (mac m key hash start end exp) _).1 refl))

  verify_parts_sound :
      (key hash r : Text) (exp : ℕ) (sig : Text) (now start end : ℕ)
      → verify_parts m key hash r exp sig now ≡ ok (start, end)
      → (parse_span r ≡ some (start, end))
        × (m.hex_decode sig ≡ some (mac m key hash start end exp))
        × (now ≤ exp)
  unfolding verify_parts
  verify_parts_sound key hash r exp sig now start end e = elim (Option-cases (parse_span r)) [
    | inl missing ↦ absurd (ground arith)
    | inr ((a, b), spanned) ↦ elim (Option-cases (m.hex_decode sig)) [
      | inl missing ↦ absurd (ground arith)
      | inr (tag, decoded) ↦
          (ground arith, ground (arith, eq_text_iff (mac m key hash a b exp) tag), ground arith)
    ]
  ]

  tags_of_decoded :
      (key hash hash' : Text) (exp exp' start start' end end' : ℕ)
      → m.hex_decode (signature m key hash' start' end' exp') ≡ some (mac m key hash start end exp)
      → mac m key hash start end exp ≡ mac m key hash' start' end' exp'
  unfolding signature
  tags_of_decoded key hash hash' exp exp' start start' end end' e =
      cc (m.decode_encode (mac m key hash' start' end' exp'))

  -- Where the HMAC of this key tells messages apart, a URL that carries the tag signed for one xorb,
  -- span and expiry verifies only for that xorb, grants exactly that span, states that expiry, and
  -- has not expired.
  pub verify_xorb_url-binds :
      (key hash hash' r : Text) (exp exp' now start start' end end' : ℕ)
      → IsHash hash
      → IsHash hash'
      → exp < u64_mod
      → (start' < u64_mod) × (end' < u64_mod) × (exp' < u64_mod)
      → ((a b : Text) → m.hmac key a ≡ m.hmac key b → a ≡ b)
      → verify_xorb_url m key hash
          (record {
            r = some r;
            exp = some exp;
            sig = some (signature m key hash' start' end' exp');
          })
          now
        ≡ ok (start, end)
      → (hash ≡ hash') × (start ≡ start') × (end ≡ end') × (exp ≡ exp') × (now ≤ exp')
  unfolding verify_xorb_url
  verify_xorb_url-binds key hash hash' r exp exp' now start start' end end' v v' hx b' tells e =
      (same.0, same.1, same.2, same.3, subst (λ x. now ≤ x) same.3 sound.2)
    where
      sound :
          (parse_span r ≡ some (start, end))
          × (m.hex_decode (signature m key hash' start' end' exp')
              ≡ some (mac m key hash start end exp))
          × (now ≤ exp)
      sound = verify_parts_sound key hash r exp _ now start end e

      spans : (start < u64_mod) × (end < u64_mod)
      spans = parse_span-lt r start end sound.0

      tags : mac m key hash start end exp ≡ mac m key hash' start' end' exp'
      tags = tags_of_decoded key hash hash' exp exp' start start' end end' sound.1

      same : (hash ≡ hash') × (start ≡ start') × (end ≡ end') × (exp ≡ exp')
      same =
          mac_message_injective hash hash' start start' end end' exp exp' v v'
            (spans.0, spans.1, hx) b' (tells _ _ (unfold mac in tags))
