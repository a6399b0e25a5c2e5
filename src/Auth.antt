-- ===== src/Auth.antt =====
-- Scopes and the claims of a caller. Source: crates/server/src/auth/jwt.rs.
pub mod FetchUrl
pub mod Oidc
pub mod Jwks
pub mod Middleware
mod Tests
pub mod Samples
use openxet.Base.{Bool, arith, if◌then◌else◌, leb, refl, true, ℕ, ◌≡◌}
use openxet.Text.{Text, codes, is_empty}

pub data Scope : Type 0 where
  read write admin : Scope

rank : Scope → ℕ
rank read = 0
rank write = 1
rank admin = 2

-- `self.rank() >= required.rank()`
unfoldable pub satisfies : Scope → Scope → Bool
unfolding rank
satisfies self required = leb (rank required) (rank self)

unfoldable pub as_str : Scope → Text
as_str read = codes "read"
as_str write = codes "write"
as_str admin = codes "admin"

pub record Claims : Type 0 where
  pub scope : Scope
  pub repo : Text
  pub exp : ℕ
  pub sub : Text

-- `Claims::owner`: the subject, or `default` where the token has none.
unfoldable pub owner : Claims → Text
unfolding is_empty
owner c = if is_empty c.sub then codes "default" else c.sub

pub satisfies_refl : (s : Scope) → satisfies s s ≡ true
unfolding satisfies
satisfies_refl read = refl
satisfies_refl write = refl
satisfies_refl admin = refl

pub satisfies_trans :
    (a b c : Scope) → satisfies a b ≡ true → satisfies b c ≡ true → satisfies a c ≡ true
unfolding satisfies
satisfies_trans a b c h k = ground arith

pub admin-satisfies : (s : Scope) → satisfies admin s ≡ true
unfolding satisfies
admin-satisfies read = refl
admin-satisfies write = refl
admin-satisfies admin = refl
