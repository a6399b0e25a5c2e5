-- ===== src/Sql.antt =====
-- The clauses of the index queries over tables that are lists of rows: WHERE is `keep`, ORDER BY a
-- text column is `order_by`, LIMIT is `take`.
pub mod Order
use openxet.Base.{Bool, List, Option, [], false, none, some, true, ◌∷◌}
use openxet.Text.{Text, lt_text}

module _ {ℓ} {A : Type ℓ} (key : A → Text) where
  insert_by : A → List A → List A
  insert_by x [] = x ∷ []
  insert_by x (y ∷ ys) = elim (lt_text (key y) (key x)) [
    | true ↦ y ∷ insert_by x ys
    | false ↦ x ∷ y ∷ ys
  ]

  unfoldable pub order_by : List A → List A
  unfolding insert_by
  order_by [] = []
  order_by (x ∷ xs) = insert_by x (order_by xs)

  -- `$1 IS NULL OR key > $1`
  unfoldable pub is_after : Option Text → A → Bool
  is_after none x = true
  is_after (some after) x = lt_text after (key x)
