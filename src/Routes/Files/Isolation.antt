-- ===== src/Routes/Files/Isolation.antt =====
-- A caller who is no admin reads and lists only files that they claim.
use openxet.Base.{
  >>=-eq-ok, All, All-keep, Bool-cases, List, Option, Option-cases, [], any, ap, arith, err, false,
  inl, inr, keep, map, none, ok, ok-injective, refl, some, subst, suc, sym, take, true, zero, ℕ,
  ◌++◌, ◌+◌, ◌∙◌, ◌∷◌, ◌≡◌, ◌≢◌, ◌⊎◌,
}
use openxet.Text.{Text, codes, eq_text, eq_text_refl}
use openxet.Errors.{AppError}
use openxet.Hash.{validate_hash}
use openxet.Sql.{order_by, is_after}
use openxet.Sql.Order.{any-order_by, All-order_by}
use openxet.Auth.{Claims, admin, satisfies, owner}
use openxet.Index.{FileListEntry}
use openxet.Index.Files.{
  FileIndex, OwnershipRow, file_claims, owner_claim, is_claim, FileRow, join_owned,
}
use openxet.Index.Files.Claims.{held, any-held}
use openxet.Index.Files as Index
use openxet.Routes.Files.{
  ListFilesParams, list_files, listed_owner, filter_empty, authorize_file_read, own_files,
}
use openxet.Pagination.{Base64, Page, cursor_after, clamp_limit, from_overfetched}

any-map-keep :
    (u h : Text) (os : List OwnershipRow)
    → any (λ o. eq_text o.owner_id u) (keep (λ o. eq_text o.file_hash h) os) ≡ any (is_claim u h) os
unfolding keep
any-map-keep u h [] = refl
any-map-keep u h (o ∷ os) = ground (arith, any-map-keep u h os)

any-owner_claim :
    (u : Text) (os : List OwnershipRow)
    → any (λ c. eq_text c.owner u) (map owner_claim os) ≡ any (λ o. eq_text o.owner_id u) os
any-owner_claim u [] = refl
any-owner_claim u (o ∷ os) = ground (arith, any-owner_claim u os)

unheld_of_unfound :
    (u h : Text) (os : List OwnershipRow) → any (is_claim u h) os ≡ false → held u h os ≡ none
unheld_of_unfound u h os e = elim (Option-cases (held u h os)) [
  | inl q ↦ q
  | inr (c, q) ↦
      let some_held : held u h os ≢ none = λ z. cc in let t = (any-held u h os).1 some_held in cc
]

-- For a valid hash and a caller who is no admin, exactly the owners of a claim on the file may read
-- it; everyone else is answered as if the file did not exist.
pub authorize_file_read-held :
    (idx : FileIndex) (claims : Claims) (file_id : Text)
    → satisfies claims.scope admin ≡ false
    → validate_hash file_id ≡ ok tt
    → ((authorize_file_read idx claims file_id ≡ ok tt)
        × (held (owner claims) file_id idx.file_ownership ≢ none))
      ⊎ ((authorize_file_read idx claims file_id
            ≡ err (AppError.not_found (codes "file not found: " ++ file_id)))
          × (held (owner claims) file_id idx.file_ownership ≡ none))
unfolding authorize_file_read file_claims
authorize_file_read-held idx claims file_id weak valid =
    let u = owner claims in
    let os = idx.file_ownership in
    let rows = keep (λ (o : OwnershipRow). eq_text o.file_hash file_id) os in
    let found : any (λ c. eq_text c.owner u) (map owner_claim (order_by (λ o. o.owner_id) rows))
        ≡ any (is_claim u file_id) os =
      any-owner_claim u (order_by (λ o. o.owner_id) rows)
      ∙ any-order_by (λ o. o.owner_id) (λ o. eq_text o.owner_id u) rows
      ∙ any-map-keep u file_id os in
    elim (Bool-cases (any (is_claim u file_id) os)) [
      | inl e ↦ inl (rw (weak, valid, found, e) refl, (any-held u file_id os).0 e)
      | inr e ↦ inr (rw (weak, valid, found, e) refl, unheld_of_unfound u file_id os e)
    ]

-- The files of a listing are claimed by the caller.
abbrev pub AllHeld : Text → List OwnershipRow → List FileListEntry → Type 0
AllHeld u os es = All (λ e. held u e.file_hash os ≢ none) es

listed_owner_own :
    (claims : Claims) (asked whose : Option Text)
    → satisfies claims.scope admin ≡ false
    → listed_owner claims asked ≡ ok whose
    → whose ≡ some (owner claims)
unfolding listed_owner own_files
listed_owner_own claims none whose weak e = ground (arith, weak, e)
listed_owner_own claims (some o) whose weak e = ground (arith, weak, e)

held-tail :
    (u h : Text) (o : OwnershipRow) (os : List OwnershipRow)
    → held u h os ≢ none
    → held u h (o ∷ os) ≢ none
held-tail u h o os n =
    let t = (any-held u h os).1 n in (any-held u h (o ∷ os)).0 (ground (arith, t))

-- Every row of an owner is a claim that they hold.
abbrev Held : Text → List OwnershipRow → OwnershipRow → Type 0
Held u full o = eq_text o.owner_id u ≡ true → held u o.file_hash full ≢ none

All-Held-tail :
    (u : Text) (o : OwnershipRow) (full os : List OwnershipRow)
    → All (Held u full) os
    → All (Held u (o ∷ full)) os
All-Held-tail u o full [] h = tt
All-Held-tail u o full (p ∷ os) (h, hs) =
    (λ e. held-tail u p.file_hash o full (h e), All-Held-tail u o full os hs)

All-Held : (u : Text) (os : List OwnershipRow) → All (Held u os) os
All-Held u [] = tt
All-Held u (o ∷ os) = (
  λ e. (any-held u o.file_hash (o ∷ os)).0 (ground (arith, e, eq_text_refl o.file_hash)),
  All-Held-tail u o os os (All-Held u os),
)

AllHeld-join_owned :
    (u : Text) (files : List FileRow) (full os : List OwnershipRow)
    → All (Held u full) os
    → AllHeld u full (join_owned u files os)
unfolding join_owned
AllHeld-join_owned u files full [] h = tt
AllHeld-join_owned u files full (o ∷ os) (h, hs) =
    let rest = AllHeld-join_owned u files full os hs in
    elim (Bool-cases (eq_text o.owner_id u)) [
      | inr e ↦ ground (arith, e, rest)
      | inl e ↦ let here = h e in ground (arith, e, rest, here)
    ]

All-take :
    (P : FileListEntry → Type 0) (n : ℕ) (es : List FileListEntry) → All P es → All P (take n es)
All-take P zero es h = tt
All-take P (suc n) [] h = tt
All-take P (suc n) (e ∷ es) (h, hs) = (h, All-take P n es hs)

AllHeld-list_files :
    (idx : FileIndex) (after : Option Text) (u : Text) (n : ℕ)
    → AllHeld u idx.file_ownership (Index.list_files idx after (some u) n)
unfolding Index.list_files Index.listed
AllHeld-list_files idx after u n =
    let os = idx.file_ownership in
    let P : FileListEntry → Type 0 = λ e. held u e.file_hash os ≢ none in
    let rows = join_owned u idx.file_index os in
    let kept = keep (is_after (λ (e : FileListEntry). e.file_hash) after) rows in
    All-take P n (order_by (λ e. e.file_hash) kept) (
      All-order_by (λ e. e.file_hash) P kept
        (All-keep P (is_after (λ e. e.file_hash) after) rows
          (AllHeld-join_owned u idx.file_index os os (All-Held u os))))

module _ (b : Base64) where
  AllHeld-from_overfetched :
      (u : Text) (os : List OwnershipRow) (rows : List FileListEntry) (limit : ℕ)
      → AllHeld u os rows
      → AllHeld u os (from_overfetched b rows limit (λ e. e.file_hash)).items
  unfolding from_overfetched
  AllHeld-from_overfetched u os rows limit h =
      let cut = All-take (λ e. held u e.file_hash os ≢ none) limit rows h in ground (arith, h, cut)

  -- A caller who is no admin is listed only files that they hold a claim on, whatever they ask for.
  pub list_files-held :
      (idx : FileIndex) (claims : Claims) (params : ListFilesParams) (page : Page FileListEntry)
      → satisfies claims.scope admin ≡ false
      → list_files b idx claims params ≡ ok page
      → AllHeld (owner claims) idx.file_ownership page.items
  unfolding list_files
  list_files-held idx claims params page weak e =
      let (whose, w, rest) = >>=-eq-ok (listed_owner claims (filter_empty params.owner_id)) _ e in
      let (after, a, final) = >>=-eq-ok (cursor_after b (filter_empty params.cursor)) _ rest in
      let own : whose ≡ some (owner claims) =
        listed_owner_own claims (filter_empty params.owner_id) whose weak w in
      let limit = clamp_limit params.limit in
      let held_page =
        AllHeld-from_overfetched (owner claims) idx.file_ownership
          (Index.list_files idx after (some (owner claims)) (limit + 1)) limit
          (AllHeld-list_files idx after (owner claims) (limit + 1)) in
      subst (λ (p : Page FileListEntry). AllHeld (owner claims) idx.file_ownership p.items)
        (ap
            (λ w'.
              from_overfetched b (Index.list_files idx after w' (limit + 1)) limit
                (λ e'. e'.file_hash))
            (sym own)
          ∙ ok-injective final)
        held_page
