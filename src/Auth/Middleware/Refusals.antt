-- ===== src/Auth/Middleware/Refusals.antt =====
-- With what answer a caller is turned away. Source: `authorize`, `verify_token` and
-- `extract_bearer_token` of crates/server/src/auth/middleware.rs.
use openxet.Base.{Result, err, ok, ◌≡◌, ◌⊎◌}
use openxet.Text.{Text}
use openxet.Errors.{AppError, into_response}
use openxet.Auth.Oidc.{RoleConfig, no_roles}

-- Every error of a result has a property.
abbrev Fails {ℓ} : {A : Type ℓ} → (AppError → Type 0) → Result AppError A → Type 0
Fails P (ok a) = Unit {0}
Fails P (err e) = P e

-- Status 401, or the refusal of a token that carries none of the roles.
abbrev pub IsRefusal : RoleConfig → AppError → Type 0
IsRefusal roles e = ((into_response e).0 ≡ 401) ⊎ (e ≡ AppError.forbidden (no_roles roles))
