-- ===== src/Sql/Order.antt =====
-- Ordering a table with a primary key, and reading it on from a key.
use openxet.Base.{
  All, All-keep, Bool, Bool-cases, List, [], any, ap, arith, false, if◌then◌else◌, inl, inr, keep,
  keep-false, keep-true, length, refl, some, suc, sym, true, ◌++◌, ◌||◌, ◌∙◌, ◌∷◌, ◌≡◌, ◌≢◌,
}
use openxet.Text.{Text, lt_text, lt_text_trans, lt_text_total, lt_text_irrefl, lt_text_asym}
use openxet.Sql.{insert_by, order_by, is_after}

module _ {ℓ} {A : Type ℓ} (key : A → Text) where
  -- Each key is below all later ones.
  abbrev pub Sorted : List A → Type 0
  Sorted [] = Unit {0}
  Sorted (x ∷ xs) = All (λ y. lt_text (key x) (key y) ≡ true) xs × Sorted xs

  -- The primary key: no two rows share it.
  abbrev pub Distinct : List A → Type 0
  Distinct [] = Unit {0}
  Distinct (x ∷ xs) = All (λ y. key x ≢ key y) xs × Distinct xs

  insert_by_below :
      (x y : A) (ys : List A)
      → lt_text (key y) (key x) ≡ true
      → insert_by key x (y ∷ ys) ≡ y ∷ insert_by key x ys
  unfolding insert_by
  insert_by_below x y ys e = ground arith

  insert_by_above :
      (x y : A) (ys : List A)
      → lt_text (key y) (key x) ≡ false
      → insert_by key x (y ∷ ys) ≡ x ∷ y ∷ ys
  unfolding insert_by
  insert_by_above x y ys e = ground arith

  All-insert_by :
      (P : A → Type 0) (x : A) (ys : List A) → P x → All P ys → All P (insert_by key x ys)
  All-insert_by P x [] p h = unfold insert_by in (p, tt)
  All-insert_by P x (y ∷ ys) p (h, hs) = elim (Bool-cases (lt_text (key y) (key x))) [
    | inl below ↦ rw (insert_by_below x y ys below) (h, All-insert_by P x ys p hs)
    | inr above ↦ rw (insert_by_above x y ys above) (p, (h, hs))
  ]

  pub All-order_by : (P : A → Type 0) (xs : List A) → All P xs → All P (order_by key xs)
  unfolding order_by
  All-order_by P [] h = tt
  All-order_by P (x ∷ xs) (h, hs) = All-insert_by P x (order_by key xs) h (All-order_by P xs hs)

  any-insert_by :
      (p : A → Bool) (x : A) (ys : List A) → any p (insert_by key x ys) ≡ (p x || any p ys)
  unfolding insert_by
  any-insert_by p x [] = ground arith
  any-insert_by p x (y ∷ ys) = ground (arith, any-insert_by p x ys)

  -- Sorting does not change what is found.
  pub any-order_by : (p : A → Bool) (xs : List A) → any p (order_by key xs) ≡ any p xs
  unfolding order_by
  any-order_by p [] = refl
  any-order_by p (x ∷ xs) = ground (arith, any-insert_by p x (order_by key xs), any-order_by p xs)

  length-insert_by : (x : A) (ys : List A) → length (insert_by key x ys) ≡ suc (length ys)
  unfolding insert_by
  length-insert_by x [] = refl
  length-insert_by x (y ∷ ys) = ground (arith, length-insert_by x ys)

  pub length-order_by : (xs : List A) → length (order_by key xs) ≡ length xs
  unfolding order_by
  length-order_by [] = refl
  length-order_by (x ∷ xs) = omega (arith, length-insert_by x (order_by key xs), length-order_by xs)

  All-lt_trans :
      (s t : Text) (ys : List A)
      → lt_text s t ≡ true
      → All (λ y. lt_text t (key y) ≡ true) ys
      → All (λ y. lt_text s (key y) ≡ true) ys
  All-lt_trans s t [] h a = tt
  All-lt_trans s t (y ∷ ys) h (a, as') = (lt_text_trans s t (key y) h a, All-lt_trans s t ys h as')

  lt_of_not_lt :
      (x y : A) → key x ≢ key y → lt_text (key y) (key x) ≡ false → lt_text (key x) (key y) ≡ true
  lt_of_not_lt x y d above = elim (Bool-cases (lt_text (key x) (key y))) [
    | inl e ↦ e
    | inr e ↦ absurd (d (lt_text_total (key x) (key y) e above))
  ]

  insert_by-Sorted :
      (x : A) (ys : List A) → All (λ y. key x ≢ key y) ys → Sorted ys → Sorted (insert_by key x ys)
  insert_by-Sorted x [] d s = unfold insert_by in (tt, tt)
  insert_by-Sorted x (y ∷ ys) (d, ds) (a, s) = elim (Bool-cases (lt_text (key y) (key x))) [
    | inl below ↦ rw (insert_by_below x y ys below) (
      All-insert_by (λ z. lt_text (key y) (key z) ≡ true) x ys below a,
      insert_by-Sorted x ys ds s,
    )
    | inr above ↦
        let first : lt_text (key x) (key y) ≡ true = lt_of_not_lt x y d above in
        rw (insert_by_above x y ys above) ((first, All-lt_trans (key x) (key y) ys first a), (a, s))
  ]

  -- A table whose keys are distinct comes out strictly sorted.
  pub order_by-Sorted : (xs : List A) → Distinct xs → Sorted (order_by key xs)
  unfolding order_by
  order_by-Sorted [] d = tt
  order_by-Sorted (x ∷ xs) (d, ds) =
      insert_by-Sorted x (order_by key xs) (All-order_by _ xs d) (order_by-Sorted xs ds)

  pub keep-Distinct : (p : A → Bool) (xs : List A) → Distinct xs → Distinct (keep p xs)
  keep-Distinct p [] h = unfold keep in tt
  keep-Distinct p (x ∷ xs) (h, hs) = elim (Bool-cases (p x)) [
    | inl e ↦ rw (keep-true p x xs e) (All-keep (λ y. key x ≢ key y) p xs h, keep-Distinct p xs hs)
    | inr e ↦ rw (keep-false p x xs e) (keep-Distinct p xs hs)
  ]

  -- All keys of a list lie above a text.
  abbrev pub Above : Text → List A → Type 0
  Above t xs = All (λ y. lt_text t (key y) ≡ true) xs

  insert_by_first : (x : A) (ys : List A) → Above (key x) ys → insert_by key x ys ≡ x ∷ ys
  insert_by_first x [] a = unfold insert_by in refl
  insert_by_first x (y ∷ ys) (a, as') = insert_by_above x y ys (lt_text_asym (key x) (key y) a)

  keep_insert :
      (p : A → Bool) (x : A) (ys : List A)
      → All (λ y. key x ≢ key y) ys
      → Sorted ys
      → keep p (insert_by key x ys) ≡ (if p x then insert_by key x (keep p ys) else keep p ys)
  keep_insert p x [] d s = unfold keep insert_by in ground arith
  keep_insert p x (y ∷ ys) (d, ds) (a, s) = elim (Bool-cases (lt_text (key y) (key x))) [
    | inl below ↦ rw (insert_by_below x y ys below) (elim (Bool-cases (p y)) [
      | inl t ↦
          rw
            (
              keep-true p y (insert_by key x ys) t,
              keep-true p y ys t,
              insert_by_below x y (keep p ys) below,
              keep_insert p x ys ds s,
            )
            (ground arith)
      | inr f ↦
          rw (keep-false p y (insert_by key x ys) f, keep-false p y ys f) (keep_insert p x ys ds s)
    ])
    | inr above ↦
        let first = lt_of_not_lt x y d above in
        rw (insert_by_above x y ys above) (elim (Bool-cases (p x)) [
          | inl t ↦
              keep-true p x (y ∷ ys) t
              ∙ sym (
                  insert_by_first x (keep p (y ∷ ys)) (
                    All-keep (λ z. lt_text (key x) (key z) ≡ true) p (y ∷ ys)
                      (first, All-lt_trans (key x) (key y) ys first a)))
              ∙ ground arith
          | inr f ↦ keep-false p x (y ∷ ys) f ∙ ground arith
        ])
  ]

  -- WHERE and ORDER BY commute on a table with distinct keys.
  pub keep-order_by :
      (p : A → Bool) (xs : List A)
      → Distinct xs
      → order_by key (keep p xs) ≡ keep p (order_by key xs)
  unfolding order_by
  keep-order_by p [] d = unfold keep in refl
  keep-order_by p (x ∷ xs) (d, ds) =
      let e =
        keep_insert p x (order_by key xs) (All-order_by (λ y. key x ≢ key y) xs d)
          (order_by-Sorted xs ds) in
      elim (Bool-cases (p x)) [
        | inl t ↦
            rw (keep-true p x xs t) (ap (insert_by key x) (keep-order_by p xs ds) ∙ ground arith)
        | inr f ↦ rw (keep-false p x xs f) (keep-order_by p xs ds ∙ ground arith)
      ]

  keep-Above-none : (t : Text) (xs : List A) → Above t xs → keep (is_after key (some t)) xs ≡ xs
  unfolding keep is_after
  keep-Above-none t [] a = refl
  keep-Above-none t (x ∷ xs) (a, as') = ground (arith, keep-Above-none t xs as')

  -- In a sorted table, the rows after the key of one row are the rows behind it.
  pub keep-after :
      (xs : List A) (x : A) (ys : List A)
      → Sorted (xs ++ x ∷ ys)
      → keep (is_after key (some (key x))) (xs ++ x ∷ ys) ≡ ys
  unfolding is_after
  keep-after [] x ys (a, s) =
      keep-false _ x ys (lt_text_irrefl (key x)) ∙ keep-Above-none (key x) ys a
  keep-after (z ∷ xs) x ys (a, s) =
      keep-false _ z (xs ++ x ∷ ys) (not_after xs a) ∙ keep-after xs x ys s
    where
      not_after : (ws : List A) → Above (key z) (ws ++ x ∷ ys) → lt_text (key x) (key z) ≡ false
      not_after [] (b, bs) = lt_text_asym (key z) (key x) b
      not_after (w ∷ ws) (b, bs) = not_after ws bs
