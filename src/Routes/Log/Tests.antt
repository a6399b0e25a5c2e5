-- ===== src/Routes/Log/Tests.antt =====
-- The theorem about the log at a signed query. Source: crates/server/src/routes/mod.rs.
use openxet.Base.{All, map, ◌≡◌}
use openxet.Text.{Text, codes}
use openxet.Routes.Log.{redact_part, redact_query, split}
use openxet.Routes.Log.Redacted.{Harmless, split-redact_query}

abbrev signed_query : Text
signed_query = codes "r=2-9&exp=50&sig=abcd"

split-redact_query_example :
    (split b'&' (redact_query signed_query) ≡ map redact_part (split b'&' signed_query))
    × All Harmless (split b'&' (redact_query signed_query))
split-redact_query_example = split-redact_query signed_query
