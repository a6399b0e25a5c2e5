-- ===== src/Routes/Log/Redacted.antt =====
-- Which parts of a query are logged. Source: crates/server/src/routes/mod.rs.
use openxet.Base.{
  ==_iff, All, Bool, Bool-cases, List, [], ap, arith, false, inl, inr, map, not, refl, subst, sym,
  true, ℕ, ◌&&◌, ◌++◌, ◌==◌, ◌∙◌, ◌∷◌, ◌≡◌, ◌≢◌, ◌⊎◌,
}
use openxet.Text.{Text, codes}
use openxet.Routes.Log.{split, cons_part, join, starts_with, redact_part, redact_query}

-- A part without the separator.
abbrev Whole : ℕ → Text → Type 0
Whole sep p = All (λ c. c ≢ sep) p

All-cons_part :
    (sep c : ℕ) (ps : List Text) → c ≢ sep → All (Whole sep) ps → All (Whole sep) (cons_part c ps)
unfolding cons_part
All-cons_part sep c [] n a = ((n, tt), tt)
All-cons_part sep c (p ∷ ps) n (a, as') = ((n, a), as')

All-split : (sep : ℕ) (s : Text) → All (Whole sep) (split sep s)
unfolding split
All-split sep [] = (tt, tt)
All-split sep (c ∷ s) = elim (Bool-cases (c == sep)) [
  | inl t ↦ rw t (tt, All-split sep s)
  | inr f ↦ rw f (
      All-cons_part sep c (split sep s) (λ q. ground (arith, f, (==_iff c sep).1 q))
        (All-split sep s))
]

cons_part-cons :
    (c : ℕ) (ps : List Text) → (q : Text) × (qs : List Text) × (cons_part c ps ≡ q ∷ qs)
unfolding cons_part
cons_part-cons c [] = (c ∷ [], [], refl)
cons_part-cons c (p ∷ ps) = (c ∷ p, ps, refl)

split-cons : (sep : ℕ) (s : Text) → (p : Text) × (ps : List Text) × (split sep s ≡ p ∷ ps)
unfolding split
split-cons sep [] = ([], [], refl)
split-cons sep (c ∷ s) = elim (Bool-cases (c == sep)) [
  | inl t ↦ ([], split sep s, rw t refl)
  | inr f ↦ let (q, qs, e) = cons_part-cons c (split sep s) in (q, qs, rw f e)
]

split-Whole : (sep : ℕ) (p : Text) → Whole sep p → split sep p ≡ p ∷ []
unfolding split cons_part
split-Whole sep [] a = refl
split-Whole sep (c ∷ p) (n, a) = let rest = split-Whole sep p a in ground (arith, rest, n)

split-append : (sep : ℕ) (p s : Text) → Whole sep p → split sep (p ++ sep ∷ s) ≡ p ∷ split sep s
unfolding split cons_part
split-append sep [] s a = ground arith
split-append sep (c ∷ p) s (n, a) = let rest = split-append sep p s a in ground (arith, rest, n)

-- Joining parts and splitting again gives the parts.
split-join :
    (sep : ℕ) (p : Text) (ps : List Text)
    → All (Whole sep) (p ∷ ps)
    → split sep (join sep (p ∷ ps)) ≡ p ∷ ps
unfolding join
split-join sep p [] (a, b) = split-Whole sep p a
split-join sep p (q ∷ ps) (a, b) =
    split-append sep p (join sep (q ∷ ps)) a ∙ ap (λ l. p ∷ l) (split-join sep q ps b)

-- What is logged: a placeholder, or a part that does not begin with the literal text of a name.
abbrev pub Harmless : Text → Type 0
Harmless p =
    (p ≡ codes "token=REDACTED")
    ⊎ (p ≡ codes "sig=REDACTED")
    ⊎ ((starts_with (codes "token=") p ≡ false) × (starts_with (codes "sig=") p ≡ false))

redact_part-Harmless : (p : Text) → Harmless (redact_part p)
unfolding redact_part
redact_part-Harmless p = elim (Bool-cases (starts_with (codes "token=") p)) [
  | inl t ↦ inl (rw t refl)
  | inr f ↦ elim (Bool-cases (starts_with (codes "sig=") p)) [
    | inl t ↦ inr (inl (rw (f, t) refl))
    | inr g ↦ inr (inr (rw (f, g, redact_part) (f, g)))
  ]
]

abbrev is_whole : ℕ → Text → Bool
is_whole sep [] = true
is_whole sep (c ∷ p) = not (c == sep) && is_whole sep p

is_whole-Whole : (sep : ℕ) (p : Text) → is_whole sep p ≡ true → Whole sep p
is_whole-Whole sep [] e = tt
is_whole-Whole sep (c ∷ p) e =
    ((λ q. ground (arith, e, (==_iff c sep).1 q)), is_whole-Whole sep p (ground (arith, e)))

redact_part-Whole : (p : Text) → Whole b'&' p → Whole b'&' (redact_part p)
unfolding redact_part
redact_part-Whole p a =
    let whole = λ (q r : Text) (e : q ≡ r). subst (λ (y : Text). Whole b'&' y) e in
    elim (Bool-cases (starts_with (codes "token=") p)) [
      | inl t ↦
          whole (codes "token=REDACTED") (redact_part p) (ground (arith, t))
            (is_whole-Whole b'&' (codes "token=REDACTED") refl)
      | inr f ↦ elim (Bool-cases (starts_with (codes "sig=") p)) [
        | inl t ↦
            whole (codes "sig=REDACTED") (redact_part p) (ground (arith, f, t))
              (is_whole-Whole b'&' (codes "sig=REDACTED") refl)
        | inr g ↦ whole p (redact_part p) (ground (arith, f, g)) a
      ]
    ]

All-redact_part :
    (ps : List Text)
    → All (Whole b'&') ps
    → All (Whole b'&') (map redact_part ps) × All Harmless (map redact_part ps)
All-redact_part [] a = (tt, tt)
All-redact_part (p ∷ ps) (a, as') =
    let (b, c) = All-redact_part ps as' in ((redact_part-Whole p a, b), (redact_part-Harmless p, c))

-- The logged query has the parts of the query in their order, each replaced or kept, and none of
-- them begins with the literal text `token=` or `sig=`, but for the two placeholders.
pub split-redact_query :
    (query : Text)
    → (split b'&' (redact_query query) ≡ map redact_part (split b'&' query))
      × All Harmless (split b'&' (redact_query query))
unfolding redact_query
split-redact_query query =
    let (p, ps, e) = split-cons b'&' query in
    let (whole, harmless) = All-redact_part (split b'&' query) (All-split b'&' query) in
    let same : split b'&' (join b'&' (map redact_part (split b'&' query)))
        ≡ map redact_part (split b'&' query) =
      subst
        (λ (l : List Text).
          All (Whole b'&') (map redact_part l)
          → split b'&' (join b'&' (map redact_part l)) ≡ map redact_part l)
        (sym e) (λ w. split-join b'&' (redact_part p) (map redact_part ps) w) whole in
    (same, subst (λ (l : List Text). All Harmless l) (sym same) harmless)
