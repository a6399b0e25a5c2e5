-- ===== src/Text/Laws.antt =====
-- Byte strings: equality, order, and the standard library's searches that the handlers use.
use Prim.Native.Char.{code}
use mathlib.Core.Bool.{false≢true}
use Prim.Native.String.{String}
use openxet.Base.{
  All, Bool, Bool-cases, List, Option, [], ap, arith, false, if◌then◌else◌, inl, inr, ltb, none,
  refl, some, subst, sym, true, ℕ, ◌++◌, ◌==◌, ◌↔◌, ◌∙◌, ◌∷◌, ◌≡◌, ◌≢◌,
}

abbrev pub Text : Type 0
Text = List ℕ

-- The bytes of a literal.
abbrev pub codes : String → Text
codes String.[] = []
codes (String.◌∷◌ c s) = code c ∷ codes s

unfoldable pub eq_text : Text → Text → Bool
eq_text [] [] = true
eq_text (a ∷ s) (b ∷ t) = elim (a == b) [ true ↦ eq_text s t | false ↦ false ]
eq_text _ _ = false

-- `s < t`, lexicographic on bytes.
unfoldable pub lt_text : Text → Text → Bool
lt_text [] [] = false
lt_text [] (b ∷ t) = true
lt_text (a ∷ s) [] = false
lt_text (a ∷ s) (b ∷ t) =
    if ltb a b then true else elim (a == b) [ true ↦ lt_text s t | false ↦ false ]

unfoldable pub is_empty : Text → Bool
is_empty [] = true
is_empty (c ∷ s) = false

-- `str::strip_prefix`.
unfoldable pub strip_prefix : Text → Text → Option Text
strip_prefix [] s = some s
strip_prefix (p ∷ ps) [] = none
strip_prefix (p ∷ ps) (c ∷ s) = elim (p == c) [ true ↦ strip_prefix ps s | false ↦ none ]

abbrev pub cons_left : ℕ → Option (Text × Text) → Option (Text × Text)
cons_left c none = none
cons_left c (some (s, t)) = some (c ∷ s, t)

-- `str::split_once` at a one-byte separator: the parts around its first occurrence.
unfoldable pub split_once : ℕ → Text → Option (Text × Text)
split_once sep [] = none
split_once sep (c ∷ s) = elim (c == sep) [
  | true ↦ some ([], s)
  | false ↦ cons_left c (split_once sep s)
]

pub eq_text_refl : (s : Text) → eq_text s s ≡ true
unfolding eq_text
eq_text_refl [] = refl
eq_text_refl (a ∷ s) = ground (arith, eq_text_refl s)

pub eq_text→eq : (s t : Text) → eq_text s t ≡ true → s ≡ t
unfolding eq_text
eq_text→eq [] [] h = refl
eq_text→eq (a ∷ s) (b ∷ t) h = ground (arith, eq_text→eq s t)
eq_text→eq [] (b ∷ t) h = cc
eq_text→eq (a ∷ s) [] h = cc

pub eq_text_iff : (s t : Text) → (eq_text s t ≡ true) ↔ (s ≡ t)
eq_text_iff s t = (eq_text→eq s t, λ e. subst (λ u. eq_text s u ≡ true) e (eq_text_refl s))

pub lt_text_irrefl : (s : Text) → lt_text s s ≡ false
unfolding lt_text
lt_text_irrefl [] = refl
lt_text_irrefl (a ∷ s) = ground (arith, lt_text_irrefl s)

pub lt_text_trans : (s t u : Text) → lt_text s t ≡ true → lt_text t u ≡ true → lt_text s u ≡ true
unfolding lt_text
lt_text_trans [] (b ∷ t) (c ∷ u) h k = refl
lt_text_trans (a ∷ s) (b ∷ t) (c ∷ u) h k = ground (arith, lt_text_trans s t u)
lt_text_trans [] [] u h k = cc
lt_text_trans (a ∷ s) [] u h k = cc
lt_text_trans s (b ∷ t) [] h k = cc

pub lt_text_asym : (s t : Text) → lt_text s t ≡ true → lt_text t s ≡ false
lt_text_asym s t h = elim (Bool-cases (lt_text t s)) [
  | inl e ↦ absurd (false≢true (sym (lt_text_irrefl s) ∙ lt_text_trans s t s h e))
  | inr e ↦ e
]

-- Two different texts are ordered one way or the other.
pub lt_text_total : (s t : Text) → lt_text s t ≡ false → lt_text t s ≡ false → s ≡ t
unfolding lt_text
lt_text_total [] [] h k = refl
lt_text_total (a ∷ s) (b ∷ t) h k = ground (arith, lt_text_total s t)
lt_text_total [] (b ∷ t) h k = cc
lt_text_total (a ∷ s) [] h k = cc

pub strip_prefix-append : (p s : Text) → strip_prefix p (p ++ s) ≡ some s
unfolding strip_prefix
strip_prefix-append [] s = refl
strip_prefix-append (c ∷ p) s = ground (arith, strip_prefix-append p s)

-- A text without the separator splits off whole.
pub split_once-append :
    (sep : ℕ) (s t : Text) → All (λ c. c ≢ sep) s → split_once sep (s ++ sep ∷ t) ≡ some (s, t)
unfolding split_once
split_once-append sep [] t h = ground arith
split_once-append sep (c ∷ s) t (k, h) = ground (arith, split_once-append sep s t h)

-- The part in front of a separator that it does not hold is determined, and so is the rest.
pub split_unique :
    (sep : ℕ) (s s' t t' : Text)
    → All (λ c. c ≢ sep) s
    → All (λ c. c ≢ sep) s'
    → s ++ sep ∷ t ≡ s' ++ sep ∷ t'
    → (s ≡ s') × (t ≡ t')
split_unique sep s s' t t' h h' e =
    let p : ◌≡◌ {A = Option (Text × Text)} (some (s, t)) (some (s', t')) =
      sym (split_once-append sep s t h) ∙ ap (split_once sep) e ∙ split_once-append sep s' t' h' in
    (cc, cc)
