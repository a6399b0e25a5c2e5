-- ===== src/Auth/Oidc/Grants.antt =====
-- The scope that a token gets is the strongest that its grants name, and needs a grant or a default.
use openxet.Base.{
  Bool-cases, List, Option-cases, [], arith, err, false, inl, inr, none, ok, refl, some, sym, true,
  ◌∙◌, ◌≡◌, ◌⊎◌,
}
use openxet.Text.{Text}
use openxet.Errors.{AppError}
use mathlib.Core.Bool.{false≢true}
use openxet.Auth.{admin-satisfies, Scope, read, write, admin, Claims, satisfies}
use openxet.Auth.Oidc.{
  RoleConfig, OidcClaims, grants, has, no_roles, oidc_claims_to_app_claims, scope_of,
}

-- The role name that is configured for a scope.
abbrev pub role_of : RoleConfig → Scope → Text
role_of auth read = auth.oidc_read_role
role_of auth write = auth.oidc_write_role
role_of auth admin = auth.oidc_admin_role

-- `scope_of` picks a scope whose role is named and that satisfies every named one, or the default.
scope_of_cases :
    (gs : List Text) (auth : RoleConfig)
    → ((sc : Scope) × (scope_of gs auth ≡ some sc)
        × (has gs (role_of auth sc) ≡ true)
        × ((s : Scope) → has gs (role_of auth s) ≡ true → satisfies sc s ≡ true))
      ⊎ (((s : Scope) → has gs (role_of auth s) ≡ false)
          × (scope_of gs auth ≡ auth.oidc_default_scope))
unfolding scope_of
scope_of_cases gs auth = elim (Bool-cases (has gs auth.oidc_admin_role)) [
  | inl a ↦ inl (admin, rw a, a, λ s h. admin-satisfies s)
  | inr a ↦ elim (Bool-cases (has gs auth.oidc_write_role)) [
    | inl w ↦ inl (write, rw (a, w), w, below_write a)
    | inr w ↦ elim (Bool-cases (has gs auth.oidc_read_role)) [
      | inl r ↦ inl (read, rw (a, w, r), r, below_read a w)
      | inr r ↦ inr (none_named a w r, rw (a, w, r))
    ]
  ]
]
  where
    below_write :
        has gs auth.oidc_admin_role ≡ false
        → (s : Scope) → has gs (role_of auth s) ≡ true
        → satisfies write s ≡ true
    below_write a read h = unfold satisfies in refl
    below_write a write h = unfold satisfies in refl
    below_write a admin h = cc

    below_read :
        has gs auth.oidc_admin_role ≡ false
        → has gs auth.oidc_write_role ≡ false
        → (s : Scope) → has gs (role_of auth s) ≡ true
        → satisfies read s ≡ true
    below_read a w read h = unfold satisfies in refl
    below_read a w write h = cc
    below_read a w admin h = cc

    none_named :
        has gs auth.oidc_admin_role ≡ false
        → has gs auth.oidc_write_role ≡ false
        → has gs auth.oidc_read_role ≡ false
        → (s : Scope) → has gs (role_of auth s) ≡ false
    none_named a w r read = r
    none_named a w r write = w
    none_named a w r admin = a

claims_of : OidcClaims → Scope → Claims
claims_of oidc sc = record { scope = sc; repo = []; exp = oidc.exp; sub = oidc.sub }

accepted :
    (oidc : OidcClaims) (auth : RoleConfig) (sc : Scope)
    → scope_of (grants oidc) auth ≡ some sc
    → oidc_claims_to_app_claims oidc auth ≡ ok (claims_of oidc sc)
unfolding oidc_claims_to_app_claims claims_of
accepted oidc auth sc e = ground arith

refused :
    (oidc : OidcClaims) (auth : RoleConfig)
    → scope_of (grants oidc) auth ≡ none
    → oidc_claims_to_app_claims oidc auth ≡ err (AppError.forbidden (no_roles auth))
unfolding oidc_claims_to_app_claims
refused oidc auth e = ground arith

-- A token whose grants name the role of a scope is accepted with at least that scope, and its
-- subject and expiry are kept.
pub oidc_claims_to_app_claims_strongest :
    (oidc : OidcClaims) (auth : RoleConfig) (s : Scope)
    → has (grants oidc) (role_of auth s) ≡ true
    → (c : Claims) × (oidc_claims_to_app_claims oidc auth ≡ ok c)
      × (satisfies c.scope s ≡ true)
      × (c.sub ≡ oidc.sub)
      × (c.exp ≡ oidc.exp)
unfolding claims_of
oidc_claims_to_app_claims_strongest oidc auth s h = elim (scope_of_cases (grants oidc) auth) [
  | inl (sc, e, _, above) ↦ (claims_of oidc sc, accepted oidc auth sc e, above s h, refl, refl)
  | inr (unnamed, _) ↦ absurd (false≢true (sym (unnamed s) ∙ h))
]

-- No scope without a reason: an accepted token names the role of the scope that it gets, or names
-- none of the three roles and gets the configured default; the others are refused as forbidden.
pub oidc_claims_to_app_claims_sound :
    (oidc : OidcClaims) (auth : RoleConfig)
    → ((c : Claims) × (oidc_claims_to_app_claims oidc auth ≡ ok c)
        × ((has (grants oidc) (role_of auth c.scope) ≡ true)
            ⊎ (((s : Scope) → has (grants oidc) (role_of auth s) ≡ false)
                × (auth.oidc_default_scope ≡ some c.scope))))
      ⊎ (((s : Scope) → has (grants oidc) (role_of auth s) ≡ false)
          × (auth.oidc_default_scope ≡ none)
          × (oidc_claims_to_app_claims oidc auth ≡ err (AppError.forbidden (no_roles auth))))
unfolding claims_of
oidc_claims_to_app_claims_sound oidc auth = elim (scope_of_cases (grants oidc) auth) [
  | inl (sc, e, named, _) ↦ inl (claims_of oidc sc, accepted oidc auth sc e, inl named)
  | inr (unnamed, e) ↦ elim (Option-cases auth.oidc_default_scope) [
    | inl unset ↦ inr (unnamed, unset, refused oidc auth (e ∙ unset))
    | inr (sc, set) ↦ inl (claims_of oidc sc, accepted oidc auth sc (e ∙ set), inr (unnamed, set))
  ]
]
