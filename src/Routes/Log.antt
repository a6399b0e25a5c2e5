-- ===== src/Routes/Log.antt =====
-- What the request log shows of a query. Source: `redact_query` of crates/server/src/routes/mod.rs.
pub mod Redacted
mod Tests
use openxet.Base.{Bool, List, [], false, if◌then◌else◌, map, none, some, true, ℕ, ◌++◌, ◌==◌, ◌∷◌}
use openxet.Text.{Text, codes, strip_prefix}

-- `split` at a one-byte separator, which gives at least one part.
cons_part : ℕ → List Text → List Text
cons_part c [] = (c ∷ []) ∷ []
cons_part c (p ∷ ps) = (c ∷ p) ∷ ps

unfoldable pub split : ℕ → Text → List Text
unfolding cons_part
split sep [] = [] ∷ []
split sep (c ∷ s) = let rest = split sep s in if c == sep then [] ∷ rest else cons_part c rest

unfoldable pub join : ℕ → List Text → Text
join sep [] = []
join sep (p ∷ []) = p
join sep (p ∷ q ∷ ps) = p ++ sep ∷ join sep (q ∷ ps)

unfoldable pub starts_with : Text → Text → Bool
starts_with prefix s = elim (strip_prefix prefix s) [ none ↦ false | some rest ↦ true ]

unfoldable pub redact_part : Text → Text
redact_part kv =
    if starts_with (codes "token=") kv
    then codes "token=REDACTED"
    else if starts_with (codes "sig=") kv
    then codes "sig=REDACTED"
    else kv

unfoldable pub redact_query : Text → Text
redact_query query = join b'&' (map redact_part (split b'&' query))
