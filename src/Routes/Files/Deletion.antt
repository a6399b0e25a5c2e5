-- ===== src/Routes/Files/Deletion.antt =====
-- `delete_file`. Source: crates/server/src/routes/files.rs. A step returns the index it leaves, also
-- with an error.
use openxet.Base.{
  Bool, Bool-cases, List, Option, Result, Result-cases, [], any, ap, arith, err, false,
  if◌then◌else◌, inl, inr, keep, length, map, none, not, ok, ok-injective, refl, some, sym, true, ℕ,
  ◌++◌, ◌∙◌, ◌∷◌, ◌≡◌, ◌≢◌, ◌≤◌,
}
use openxet.Text.{Text, codes, eq_text, eq_text_iff}
use openxet.Errors.{AppError, StorageError, from_storage}
use openxet.Hash.{validate_hash}
use openxet.Sql.{order_by}
use openxet.Sql.Order.{length-order_by}
use openxet.Auth.{Claims, admin, satisfies, owner}
use openxet.Index.{OwnerClaim}
use openxet.Index.Files.{
  FileIndex, OwnershipRow, file_claims, owner_claim, is_claim, remove, release,
}
use openxet.Index.Files as Index
use openxet.Index.Files.Claims.{held, any-held, release-held}

pub record DeleteFileResponse : Type 0 where
  pub deleted : Bool
  pub remaining_owners : ℕ

abbrev Outcome : Type 0
Outcome = Result AppError DeleteFileResponse × FileIndex

abbrev response : Bool → ℕ → DeleteFileResponse
response deleted n = record { deleted = deleted; remaining_owners = n }

removed : FileIndex → Result StorageError FileIndex → Outcome
removed idx (ok idx') = (ok (response true 0), idx')
removed idx (err e) = (err (from_storage e), idx)

-- After the release: the last claim takes the file with it.
released :
    Claims → Text → List OwnerClaim → FileIndex → Result StorageError (FileIndex × Bool) → Outcome
unfolding removed
released claims file_id others idx (err e) = (err (from_storage e), idx)
released claims file_id others idx (ok (idx', false)) = (
  err (AppError.forbidden (b'\'' ∷ (owner claims ++ codes "' holds no claim on this file"))),
  idx',
)
released claims file_id [] idx (ok (idx', true)) = removed idx' (remove idx' file_id)
released claims file_id (o ∷ os) idx (ok (idx', true)) =
    (ok (response false (length (o ∷ os))), idx')

delete_owned : FileIndex → Claims → Text → List OwnerClaim → Outcome
unfolding removed released
delete_owned idx claims file_id [] =
    if not (satisfies claims.scope admin)
    then (err (AppError.forbidden (codes "file has no owner; only an admin can delete it")), idx)
    else removed idx (remove idx file_id)
delete_owned idx claims file_id (o ∷ os) =
    released claims file_id os idx (release idx (owner claims) file_id)

delete_indexed :
    FileIndex
    → Claims
    → Text
    → Result StorageError (Option Text)
    → Result StorageError (List OwnerClaim)
    → Outcome
unfolding delete_owned
delete_indexed idx claims file_id (err e) cs = (err (from_storage e), idx)
delete_indexed idx claims file_id (ok none) cs =
    (err (AppError.not_found (codes "file not indexed: " ++ file_id)), idx)
delete_indexed idx claims file_id (ok (some s)) (err e) = (err (from_storage e), idx)
delete_indexed idx claims file_id (ok (some s)) (ok owners) = delete_owned idx claims file_id owners

delete_valid : FileIndex → Claims → Text → Result StorageError (Unit {0}) → Outcome
unfolding delete_indexed
delete_valid idx claims file_id (err e) = (err (from_storage e), idx)
delete_valid idx claims file_id (ok u) =
    delete_indexed idx claims file_id (Index.get idx file_id) (file_claims idx file_id)

unfoldable pub delete_file : FileIndex → Claims → Text → Outcome
unfolding delete_valid
delete_file idx claims file_id = delete_valid idx claims file_id (validate_hash file_id)

-- Two owners of a file have two claims on it.
one_claim :
    (u h : Text) (os : List OwnershipRow)
    → any (is_claim u h) os ≡ true
    → 1 ≤ length (keep (λ o. eq_text o.file_hash h) os)
unfolding keep
one_claim u h [] e = cc
one_claim u h (o ∷ os) e =
    let rest = one_claim u h os in
    elim (Bool-cases (eq_text o.file_hash h)) [
      | inl q ↦ ground (arith, q)
      | inr q ↦ let r = rest (ground (arith, q, e)) in ground (arith, q, r)
    ]

two_claims :
    (u c h : Text) (os : List OwnershipRow)
    → u ≢ c
    → any (is_claim u h) os ≡ true
    → any (is_claim c h) os ≡ true
    → 2 ≤ length (keep (λ o. eq_text o.file_hash h) os)
unfolding keep
two_claims u c h [] n e f = cc
two_claims u c h (o ∷ os) n e f =
    let both = two_claims u c h os n in
    let one_u = one_claim u h os in
    let one_c = one_claim c h os in
    elim (Bool-cases (eq_text o.file_hash h)) [
      | inr q ↦ let r = both (ground (arith, q, e)) (ground (arith, q, f)) in ground (arith, q, r)
      | inl q ↦ elim (Bool-cases (eq_text o.owner_id u)) [
        | inl w ↦
            let other : eq_text o.owner_id c ≡ false =
              ground (arith, eq_text_iff o.owner_id u, eq_text_iff o.owner_id c, w, n) in
            let r = one_c (ground (arith, f, other)) in ground (arith, q, r)
        | inr w ↦ let r = one_u (ground (arith, e, w)) in ground (arith, q, r)
      ]
    ]

length-map_owner : (os : List OwnershipRow) → length (map owner_claim os) ≡ length os
length-map_owner [] = refl
length-map_owner (o ∷ os) = omega (arith, length-map_owner os)

-- One owner's claims and all files are as before.
abbrev Kept : Text → FileIndex → FileIndex → Type 0
Kept u idx after =
    ((g : Text) → held u g after.file_ownership ≡ held u g idx.file_ownership)
    × (after.file_index ≡ idx.file_index)

module _ (idx : FileIndex) (claims : Claims) (file_id u : Text) (n : u ≢ owner claims) where
  held_by_another :
      (idx' : FileIndex) (existed : Bool)
      → release idx (owner claims) file_id ≡ ok (idx', existed)
      → Kept u idx idx'
  held_by_another idx' existed q =
      let (found, same, files) = release-held idx idx' (owner claims) file_id existed q in
      (λ g. let s = same u g in ground (arith, s, eq_text_iff (owner claims) u, n), files)

  Kept-released :
      (others : List OwnerClaim) (r : Result StorageError (FileIndex × Bool))
      → release idx (owner claims) file_id ≡ r
      → (any (is_claim (owner claims) file_id) idx.file_ownership ≡ true → 1 ≤ length others)
      → Kept u idx (released claims file_id others idx r).1
  unfolding released
  Kept-released others (err e) q k = (λ g. refl, refl)
  Kept-released others (ok (idx', false)) q k = held_by_another idx' false q
  Kept-released (o ∷ os) (ok (idx', true)) q k = held_by_another idx' true q
  Kept-released [] (ok (idx', true)) q k =
      let (found, same, files) = release-held idx idx' (owner claims) file_id true q in
      let short = k ((any-held (owner claims) file_id idx.file_ownership).1 (found.0 refl)) in
      absurd (omega arith)

  Kept-delete_owned :
      (owners : List OwnerClaim)
      → 1 ≤ length owners
      → (any (is_claim (owner claims) file_id) idx.file_ownership ≡ true → 2 ≤ length owners)
      → Kept u idx (delete_owned idx claims file_id owners).1
  unfolding delete_owned
  Kept-delete_owned [] one two = absurd (omega arith)
  Kept-delete_owned (o ∷ os) one two =
      Kept-released os (release idx (owner claims) file_id) refl (λ e. let t = two e in omega arith)

  Kept-delete_indexed :
      (r : Result StorageError (Option Text)) (cs : Result StorageError (List OwnerClaim))
      → ((owners : List OwnerClaim)
          → cs ≡ ok owners
          → (1 ≤ length owners)
            × (any (is_claim (owner claims) file_id) idx.file_ownership ≡ true → 2 ≤ length owners))
      → Kept u idx (delete_indexed idx claims file_id r cs).1
  unfolding delete_indexed
  Kept-delete_indexed (err e) cs k = (λ g. refl, refl)
  Kept-delete_indexed (ok none) cs k = (λ g. refl, refl)
  Kept-delete_indexed (ok (some s)) (err e) k = (λ g. refl, refl)
  Kept-delete_indexed (ok (some s)) (ok owners) k =
      let (one, two) = k owners refl in Kept-delete_owned owners one two

  claims_counted :
      held u file_id idx.file_ownership ≢ none
      → (owners : List OwnerClaim) → file_claims idx file_id ≡ ok owners
      → (1 ≤ length owners)
        × (any (is_claim (owner claims) file_id) idx.file_ownership ≡ true → 2 ≤ length owners)
  unfolding file_claims
  claims_counted h owners e = elim (Result-cases (validate_hash file_id)) [
    | inr (x, v) ↦ absurd (ground (arith, v, e))
    | inl (x, v) ↦
        let os = idx.file_ownership in
        let rows = keep (λ (o : OwnershipRow). eq_text o.file_hash file_id) os in
        let sorted = order_by (λ (o : OwnershipRow). o.owner_id) rows in
        let mine : any (is_claim u file_id) os ≡ true = (any-held u file_id os).1 h in
        let same : map owner_claim sorted ≡ owners = ok-injective (rw (v, file_claims) at e) in
        let count : length owners ≡ length rows =
          ap length (sym same) ∙ length-map_owner sorted ∙ length-order_by (λ o. o.owner_id) rows in
        let one = one_claim u file_id os mine in
        (omega arith, λ c. let two = two_claims u (owner claims) file_id os n mine c in omega arith)
  ]

  Kept-delete_valid :
      held u file_id idx.file_ownership ≢ none
      → (r : Result StorageError (Unit {0})) → Kept u idx (delete_valid idx claims file_id r).1
  unfolding delete_valid
  Kept-delete_valid h (err e) = (λ g. refl, refl)
  Kept-delete_valid h (ok v) =
      Kept-delete_indexed (Index.get idx file_id) (file_claims idx file_id) (claims_counted h)

  -- Deleting never takes a file from another owner: whatever the caller's scope and the outcome, an
  -- owner of the file who is not the caller keeps all their claims, and no file leaves the index.
  pub delete_file-held :
      held u file_id idx.file_ownership ≢ none
      → ((g : Text)
          → held u g (delete_file idx claims file_id).1.file_ownership
            ≡ held u g idx.file_ownership)
        × ((delete_file idx claims file_id).1.file_index ≡ idx.file_index)
  unfolding delete_file
  delete_file-held h = Kept-delete_valid h (validate_hash file_id)
