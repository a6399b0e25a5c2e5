-- ===== src/Pagination/Walk.antt =====
-- A client that follows the cursors sees every row once, in order.
use openxet.Text.{Text}
use openxet.Errors.{AppError}
use openxet.Sql.{is_after}
use openxet.Sql.Order.{Sorted, keep-after}
use openxet.Pagination.{
  Base64, Page, clamp_limit, max_limit, encode_cursor, from_overfetched, get_last?,
}
use native.Mathlib.Decide.{dec_le}
use openxet.Base.{
  List, Option, Result, [], ap, append_assoc, arith, err, false, keep, length, length-append, ltb,
  lt→ltb, none, ok, refl, some, split_at, subst, suc, sym, take, take-append_add, take_all, true,
  zero, ℕ, ◌++◌, ◌+◌, ◌<◌, ◌>>=◌, ◌∙◌, ◌∷◌, ◌≡◌, ◌≤◌,
}

-- A page size is never 0 and never above the cap, whatever the client asks for, and a request within
-- the bounds is granted.
pub clamp_limit_bounds :
    (limit : Option ℕ)
    → (1 ≤ clamp_limit limit)
      × (clamp_limit limit ≤ max_limit)
      × ((n : ℕ) → limit ≡ some n → 1 ≤ n → n ≤ max_limit → clamp_limit limit ≡ n)
unfolding clamp_limit
clamp_limit_bounds none = (omega arith, omega arith, λ n e. cc)
clamp_limit_bounds (some m) = (ground arith, ground arith, λ n e h k. ground arith)

-- The client: it fetches a page, and goes on from its cursor while there is one.
after_page : {T : Type 0} → List T → Result AppError (List T) → Result AppError (List T)
after_page items (err e) = err e
after_page items (ok rest) = ok (items ++ rest)

abbrev go_on :
    {T : Type 0} → Page T → (Option Text → Result AppError (List T)) → Result AppError (List T)
go_on page rest = elim page.next_cursor [
  | none ↦ ok page.items
  | some c ↦ after_page page.items (rest (some c))
]

pub follow :
    {T : Type 0}
    → (Option Text → Result AppError (Page T))
    → ℕ
    → Option Text
    → Result AppError (List T)
unfolding after_page
follow fetch zero cursor = ok []
follow fetch (suc fuel) cursor = fetch cursor >>= λ page. go_on page (follow fetch fuel)

follow_more :
    {T : Type 0} (fetch : Option Text → Result AppError (Page T)) (fuel : ℕ) (cursor : Option Text)
    (items : List T) (c : Text) (rest : List T)
    → fetch cursor ≡ ok (record { items = items; next_cursor = some c })
    → follow fetch fuel (some c) ≡ ok rest
    → follow fetch (suc fuel) cursor ≡ ok (items ++ rest)
unfolding follow
follow_more fetch fuel cursor items c rest at ih = rw at (rw ih)

get_last?-append : {T : Type 0} (xs : List T) (x : T) → get_last? (xs ++ x ∷ []) ≡ some x
unfolding get_last?
get_last?-append [] x = refl
get_last?-append (y ∷ []) x = refl
get_last?-append (y ∷ z ∷ xs) x = get_last?-append (z ∷ xs) x

module _ (b : Base64) {T : Type 0} (key : T → Text) where
  abbrev page_of : ℕ → List T → Page T
  page_of limit rows = from_overfetched b (take (limit + 1) rows) limit key

  abbrev page_before : List T → T → Page T
  page_before xs x = record { items = xs ++ x ∷ []; next_cursor = some (encode_cursor b (key x)) }

  page_last :
      (limit : ℕ) (rows : List T)
      → length rows ≤ limit
      → page_of limit rows ≡ record { items = rows; next_cursor = none }
  unfolding from_overfetched
  page_last limit rows h = rw (take_all (limit + 1) rows (omega arith)) (rw (not_more h))
    where
      not_more : length rows ≤ limit → ltb limit (length rows) ≡ false
      not_more k = ground arith

  overfetched_more :
      (xs : List T) (x y : T)
      → from_overfetched b (xs ++ x ∷ y ∷ []) (length xs + 1) key ≡ page_before xs x
  unfolding from_overfetched
  overfetched_more xs x y =
      let longer : ltb (length xs + 1) (length (xs ++ x ∷ y ∷ [])) ≡ true =
        lt→ltb _ _ (omega (arith, length-append xs (x ∷ y ∷ []))) in
      rw (longer, take-append_add 1 xs (x ∷ y ∷ [])) (rw (get_last?-append xs x))

  page_more :
      (xs : List T) (x y : T) (ys : List T)
      → page_of (length xs + 1) (xs ++ x ∷ y ∷ ys) ≡ page_before xs x
  page_more xs x y ys =
      let two : length xs + 1 + 1 ≡ length xs + 2 = omega arith in
      rw (two, take-append_add 2 xs (x ∷ y ∷ ys)) (overfetched_more xs x y)

  -- What the listing handlers do with a cursor: read the table on from the key that it holds.
  pub record Lists (fetch : Option Text → Result AppError (Page T)) (rows : List T) (limit : ℕ)
      : Type 0 where
    pub sorted : Sorted key rows
    pub first : fetch none ≡ ok (from_overfetched b (take (limit + 1) rows) limit key)
    pub later :
        (x : T)
        → fetch (some (encode_cursor b (key x)))
          ≡ ok (
              from_overfetched b
                (take (limit + 1) (keep (is_after key (some (key x))) rows))
                limit
                key)

  module _ {fetch : Option Text → Result AppError (Page T)} {rows : List T} (limit : ℕ)
      (h : Lists fetch rows (suc limit)) where
    -- After a page that is not the last, the rest is read on from its last row.
    next_page :
        (seen xs : List T) (x : T) (zs : List T)
        → rows ≡ seen ++ (xs ++ x ∷ zs)
        → fetch (some (encode_cursor b (key x))) ≡ ok (page_of (suc limit) zs)
    next_page seen xs x zs e =
        let e' : rows ≡ (seen ++ xs) ++ x ∷ zs = e ∙ sym (append_assoc seen xs (x ∷ zs)) in
        let tail : keep (is_after key (some (key x))) rows ≡ zs =
          ap (keep (is_after key (some (key x)))) e'
          ∙ keep-after key (seen ++ xs) x zs (subst (Sorted key) e' h.sorted) in
        h.later x ∙ ap (λ r. ok (page_of (suc limit) r)) tail

    -- One round, with the rounds that are left given.
    go_further :
        (fuel : ℕ)
        → ((seen rest : List T) (cursor : Option Text)
            → rows ≡ seen ++ rest
            → length rest < fuel
            → fetch cursor ≡ ok (page_of (suc limit) rest)
            → follow fetch fuel cursor ≡ ok rest)
        → (seen xs : List T) (x : T) (zs rest : List T) (cursor : Option Text) → rows ≡ seen ++ rest
        → rest ≡ xs ++ x ∷ zs
        → length xs ≡ limit
        → suc limit < length rest
        → length rest < suc fuel
        → fetch cursor ≡ ok (page_of (suc limit) rest)
        → follow fetch (suc fuel) cursor ≡ ok rest
    go_further fuel ih seen xs x [] rest cursor e parts l many lt at =
        absurd (omega (arith, ap length parts, length-append xs (x ∷ [])))
    go_further fuel ih seen xs x (y ∷ ys) rest cursor e parts l many lt at =
        let e' : rows ≡ seen ++ (xs ++ x ∷ y ∷ ys) = e ∙ ap (◌++◌ seen) parts in
        let count : length rest ≡ length xs + suc (suc (length ys)) =
          ap length parts ∙ length-append xs (x ∷ y ∷ ys) in
        let size : length xs + 1 ≡ suc limit = omega arith in
        let page : page_of (suc limit) rest ≡ page_before xs x =
          subst (λ n. page_of n rest ≡ page_before xs x) size
            (subst (λ r. page_of (length xs + 1) r ≡ page_before xs x) (sym parts)
              (page_more xs x y ys)) in
        let shift : rows ≡ (seen ++ (xs ++ x ∷ [])) ++ y ∷ ys = e' ∙ simp append_assoc in
        let rest_of =
          ih (seen ++ (xs ++ x ∷ [])) (y ∷ ys) _ shift (omega arith)
            (next_page seen xs x (y ∷ ys) e') in
        follow_more fetch fuel cursor (xs ++ x ∷ []) (encode_cursor b (key x)) (y ∷ ys)
          (at ∙ ap ok page) rest_of
        ∙ ap ok (append_assoc xs (x ∷ []) (y ∷ ys) ∙ sym parts)

    follow_from :
        (fuel : ℕ) (seen rest : List T) (cursor : Option Text)
        → rows ≡ seen ++ rest
        → length rest < fuel
        → fetch cursor ≡ ok (page_of (suc limit) rest)
        → follow fetch fuel cursor ≡ ok rest
    unfolding follow
    follow_from zero seen rest cursor e lt at = elim lt [ ]
    follow_from (suc fuel) seen rest cursor e lt at = elim (dec_le (length rest) (suc limit)) [
      | yes few ↦ rw (at, page_last (suc limit) rest few)
      | no many ↦
          let (xs, x, zs, parts, l) = split_at limit rest (omega arith) in
          go_further fuel (follow_from fuel) seen xs x zs rest cursor e parts l (omega arith) lt at
    ]

    -- Following the cursors from the first page lists every row exactly once, in order.
    pub follow-rows : follow fetch (suc (length rows)) none ≡ ok rows
    follow-rows = follow_from (suc (length rows)) [] rows none refl (omega arith) h.first
