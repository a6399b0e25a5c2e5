-- ===== src/Index/Files/Claims.antt =====
-- What a claim and a release do to the claims on every file.
use openxet.Base.{
  Bool, List, Option, Result-cases, [], any, arith, false, if◌then◌else◌, inl, inr, keep, none, not,
  ok, ok-injective, refl, some, subst, true, ◌&&◌, ◌↔◌, ◌∷◌, ◌≡◌, ◌≢◌,
}
use openxet.Text.{Text, eq_text, eq_text_iff}
use openxet.Hash.{validate_hash}
use openxet.Index.{OwnershipClaim}
use openxet.Index.Files.{OwnershipRow, FileIndex, is_claim, upsert_claim, claim, release}

-- The claim that an owner holds on a file.
unfoldable pub held : Text → Text → List OwnershipRow → Option OwnershipClaim
held owner h [] = none
held owner h (o ∷ os) = elim (is_claim owner h o) [
  | true ↦ some (record { logical_bytes = o.logical_bytes; created_at_unix = o.created_at_unix })
  | false ↦ held owner h os
]

-- A claim refreshes the size, and keeps the time of the claim that it renews.
abbrev pub renewed : Option OwnershipClaim → OwnershipClaim → OwnershipClaim
renewed none c = c
renewed (some old) c = record {
  logical_bytes = c.logical_bytes;
  created_at_unix = old.created_at_unix;
}

abbrev pub same_claim : Text → Text → Text → Text → Bool
same_claim owner h u g = eq_text h g && eq_text owner u

held-upsert_claim :
    (owner h u g : Text) (c : OwnershipClaim) (os : List OwnershipRow)
    → held u g (upsert_claim owner h c os)
      ≡ (if same_claim owner h u g then some (renewed (held owner h os) c) else held u g os)
unfolding held upsert_claim
held-upsert_claim owner h u g c [] = ground (arith, eq_text_iff h g, eq_text_iff owner u)
held-upsert_claim owner h u g c (o ∷ os) = ground (
  arith,
  held-upsert_claim owner h u g c os,
  eq_text_iff h g,
  eq_text_iff owner u,
  eq_text_iff o.file_hash h,
  eq_text_iff o.file_hash g,
  eq_text_iff o.owner_id owner,
  eq_text_iff o.owner_id u,
)

held-keep :
    (owner h u g : Text) (os : List OwnershipRow)
    → held u g (keep (λ o. not (is_claim owner h o)) os)
      ≡ (if same_claim owner h u g then none else held u g os)
unfolding held keep
held-keep owner h u g [] = ground arith
held-keep owner h u g (o ∷ os) = ground (
  arith,
  held-keep owner h u g os,
  eq_text_iff h g,
  eq_text_iff owner u,
  eq_text_iff o.file_hash h,
  eq_text_iff o.file_hash g,
  eq_text_iff o.owner_id owner,
  eq_text_iff o.owner_id u,
)

pub any-held :
    (owner h : Text) (os : List OwnershipRow)
    → (any (is_claim owner h) os ≡ true) ↔ (held owner h os ≢ none)
unfolding held
any-held owner h [] = ground arith
any-held owner h (o ∷ os) = ground (arith, any-held owner h os)

-- After a claim its owner holds the file at the stated size, since the time of their first claim;
-- every other claim, on this file or another, is as it was, and so are the files.
pub claim-held :
    (idx idx' : FileIndex) (owner h : Text) (c : OwnershipClaim)
    → claim idx owner h c ≡ ok idx'
    → ((u g : Text)
        → held u g idx'.file_ownership ≡ (
            if same_claim owner h u g
            then some (renewed (held owner h idx.file_ownership) c)
            else held u g idx.file_ownership))
      × (idx'.file_index ≡ idx.file_index)
unfolding claim
claim-held idx idx' owner h c e = elim (Result-cases (validate_hash h)) [
  | inr (bad, f) ↦ absurd (ground arith)
  | inl (u, good) ↦
      let same : record idx { file_ownership = upsert_claim owner h c idx.file_ownership } ≡ idx' =
        ok-injective (rw good at e) in
      subst (λ (i : FileIndex). Renews i) same
        (λ u g. held-upsert_claim owner h u g c idx.file_ownership, refl)
]
  where
    Renews : FileIndex → Type 0
    Renews i =
        ((u g : Text)
          → held u g i.file_ownership ≡ (
              if same_claim owner h u g
              then some (renewed (held owner h idx.file_ownership) c)
              else held u g idx.file_ownership))
        × (i.file_index ≡ idx.file_index)

-- A release answers whether there was a claim, takes exactly that claim away, and leaves the others
-- and the files.
pub release-held :
    (idx idx' : FileIndex) (owner h : Text) (existed : Bool)
    → release idx owner h ≡ ok (idx', existed)
    → ((existed ≡ true) ↔ (held owner h idx.file_ownership ≢ none))
      × ((u g : Text)
          → held u g idx'.file_ownership
            ≡ (if same_claim owner h u g then none else held u g idx.file_ownership))
      × (idx'.file_index ≡ idx.file_index)
unfolding release
release-held idx idx' owner h existed e = elim (Result-cases (validate_hash h)) [
  | inr (bad, f) ↦ absurd (ground arith)
  | inl (u, good) ↦
      subst (λ (p : FileIndex × Bool). Releases p.0 p.1) (ok-injective (rw good at e))
        (any-held owner h idx.file_ownership, λ u g. held-keep owner h u g idx.file_ownership, refl)
]
  where
    Releases : FileIndex → Bool → Type 0
    Releases i b =
        ((b ≡ true) ↔ (held owner h idx.file_ownership ≢ none))
        × ((u g : Text)
            → held u g i.file_ownership
              ≡ (if same_claim owner h u g then none else held u g idx.file_ownership))
        × (i.file_index ≡ idx.file_index)
