-- ===== src/Auth/Oidc.antt =====
-- From a verified OIDC token to the caller's scope. Source: crates/server/src/auth/middleware.rs.
-- Values of JSON numbers are not read, so a number carries its text.
pub mod Grants
use openxet.Base.{
  Bool, List, Option, Result, [], any, false, if◌then◌else◌, leb, not, ok, ok_or, some, suc, true,
  zero, ℕ, ◌&&◌, ◌++◌, ◌==◌, ◌>>=◌, ◌>>◌, ◌||◌, ◌∷◌,
}
use openxet.Text.{Text, codes, eq_text, is_empty}
use openxet.Errors.{AppError}
use openxet.Auth.{Scope, read, write, admin, Claims}

mutual
  pub data Value : Type 0 where
    null : Value
    boolean : Bool → Value
    number : Text → Value
    string : Text → Value
    array : Items → Value
    object : Members → Value

  pub data Items : Type 0 where
    nil : Items
    cons : Value → Items → Items

  pub data Members : Type 0 where
    end : Members
    member : Text → Value → Members → Members

pub record OidcClaims : Type 0 where
  pub exp : ℕ
  pub sub : Text
  pub scope : Value
  pub roles : Value
  pub realm_access : Value
  pub resource_access : Value

-- The fields of `AuthConfig` that the mapping reads.
pub record RoleConfig : Type 0 where
  pub oidc_read_role : Text
  pub oidc_write_role : Text
  pub oidc_admin_role : Text
  pub oidc_default_scope : Option Scope

-- The length in bytes of the white-space character that a text starts with, or 0.
pub space_len : Text → ℕ
space_len (a ∷ b ∷ c ∷ s) =
    if (leb 9 a && leb a 13) || (a == 32)
    then 1
    else if (a == 0xc2) && ((b == 0x85) || (b == 0xa0))
    then 2
    else if ((a == 0xe1) && (b == 0x9a) && (c == 0x80))
        || ((a == 0xe2)
            && (b == 0x80)
            && ((leb 0x80 c && leb c 0x8a) || (c == 0xa8) || (c == 0xa9) || (c == 0xaf)))
        || ((a == 0xe2) && (b == 0x81) && (c == 0x9f))
        || ((a == 0xe3) && (b == 0x80) && (c == 0x80))
    then 3
    else 0
space_len (a ∷ b ∷ []) =
    if (leb 9 a && leb a 13) || (a == 32)
    then 1
    else if (a == 0xc2) && ((b == 0x85) || (b == 0xa0))
    then 2
    else 0
space_len (a ∷ []) = if (leb 9 a && leb a 13) || (a == 32) then 1 else 0
space_len [] = 0

-- A word ends; an empty one is not reported.
abbrev close_word : Text → List Text → List Text
close_word [] ws = ws
close_word (c ∷ w) ws = (c ∷ w) ∷ ws

-- `split_whitespace`, with the bytes of a white-space character still to skip and the word so far.
split_from : ℕ → Text → Text → List Text
split_from skip word [] = close_word word []
split_from (suc skip) word (c ∷ s) = split_from skip word s
split_from zero word (c ∷ s) = elim (space_len (c ∷ s)) [
  | zero ↦ split_from zero (word ++ c ∷ []) s
  | suc skip ↦ close_word word (split_from skip [] s)
]

unfoldable pub split_whitespace : Text → List Text
unfolding split_from space_len
split_whitespace s = split_from 0 [] s

-- `items.iter().filter_map(|v| v.as_str())`
strings_of : Items → List Text
strings_of nil = []
strings_of (cons (string s) vs) = s ∷ strings_of vs
strings_of (cons v vs) = strings_of vs

unfoldable pub claim_strings : Value → List Text
unfolding strings_of
claim_strings (string s) = split_whitespace s
claim_strings (array items) = strings_of items
claim_strings _ = []

get_member : Text → Members → Value
get_member key end = null
get_member key (member k v ms) = elim (eq_text k key) [ true ↦ v | false ↦ get_member key ms ]

-- `value["key"]`, which is `null` on what is no object and where the key is missing.
index_value : Value → Text → Value
unfolding get_member
index_value (object ms) key = get_member key ms
index_value v key = null

-- The roles of every client under `resource_access`.
client_roles : Members → List Text
client_roles end = []
client_roles (member k client ms) =
    claim_strings (index_value client (codes "roles")) ++ client_roles ms

client_grants : Value → List Text
unfolding client_roles
client_grants (object ms) = client_roles ms
client_grants v = []

unfoldable pub grants : OidcClaims → List Text
unfolding client_grants index_value claim_strings
grants c =
    claim_strings c.scope
    ++ (claim_strings c.roles
        ++ (claim_strings (index_value c.realm_access (codes "roles"))
            ++ client_grants c.resource_access))

unfoldable pub has : List Text → Text → Bool
unfolding is_empty
has gs role = not (is_empty role) && any (λ g. eq_text g role) gs

pub scope_of : List Text → RoleConfig → Option Scope
scope_of gs auth =
    if has gs auth.oidc_admin_role
    then some admin
    else if has gs auth.oidc_write_role
    then some write
    else if has gs auth.oidc_read_role
    then some read
    else auth.oidc_default_scope

pub no_roles : RoleConfig → Text
no_roles auth =
    codes "token carries none of the OpenXet roles ("
    ++ (auth.oidc_read_role
        ++ (codes ", "
            ++ (auth.oidc_write_role ++ (codes ", " ++ (auth.oidc_admin_role ++ codes ")")))))

unfoldable pub oidc_claims_to_app_claims : OidcClaims → RoleConfig → Result AppError Claims
unfolding scope_of no_roles
oidc_claims_to_app_claims oidc auth = do
  scope ← ok_or (scope_of (grants oidc) auth) (AppError.forbidden (no_roles auth))
  ok (record { scope = scope; repo = []; exp = oidc.exp; sub = oidc.sub })
